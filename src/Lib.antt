-- ===== src/Lib.antt =====
-- User-space threads on one kernel thread: a scheduler, mutexes, spinlocks, ticket locks, condition
-- variables and semaphores, and a timer that preempts.
--
-- The program. thread.c has the run queue, the thread table, the life of a thread and the loop of
-- the scheduler. Every lock of src/mutex.c and src/sync.c keeps a queue of blocked threads through
-- `uth_block`, `uth_wake_one`, `uth_wake_all` and `uth_enqueue`. The handler of src/preempt.c makes
-- the running thread ready, and switches to the scheduler. All shared state is changed with SIGALRM
-- blocked.
--
-- The model.
-- - Machine: the globals of thread.c and the structures of uthreads.h and uthreads_internal.h. A
--   TCB lies at an address of the heap, a lock's fields are found under the lock's address. A
--   function of the C code is a `Cmd`: from a machine it returns, has switched to the scheduler,
--   or fails. `preempt_off`, `preempt_restore` and `self` are `uth_preempt_off`,
--   `uth_preempt_restore` and `uth_self`.
-- - Queue: thread.c, `queue_push` to `uth_wake_all` and `uth_block_noqueue`. Queue/Spec has the
--   abstract view: lists of threads in order of arrival, and `Holds`, which says that the linked
--   structures of a machine are these lists, that a thread stands in one queue at most, and that
--   its state says in which kind. Queue/Chain, Push, Pop and Splice are about links in the heap;
--   Valid and Untouched about the lists; Refines, Wake, WakeAll and Block about the operations.
-- - Table: thread.c, `tcb_alloc`, `tcb_find`, `tcb_free`, `uth_active_count`.
-- - Thread: thread.c, `thread_trampoline`, `uth_create`, `uth_yield`, `uth_exit`, `uth_join`,
--   one round of `scheduler_loop`, and `uth_run` with the link back from the scheduler.
-- - Mutex, Spinlock, Ticket: src/mutex.c. Cond, Sem: src/sync.c. Preempt: src/preempt.c.
-- - Api: the calls of uthreads.h by a running thread, as data: the code of each, when it returns
--   without a switch, and what it makes of the objects (mutexes, ticket locks, spinlocks,
--   semaphores) of Machine/Objects.
-- - System: the steps of the whole program, over the calls of a running thread and the rounds of
--   the scheduler; System/Steps follows them from `boot`, the globals before the first call. A
--   step may resume any saved call, which allows more than the contexts do. Kin, Waiting, Joiners
--   and Landing are about the joiners; Switching, Blocking, Waking, Ending and Collecting about
--   the calls; Owning and Exclusion about a mutex that is held. No step assumes that a thread
--   owns the mutex it unlocks: an unlock by another thread fails, and is no step.
-- - Program: what the programs of examples/ share: outcomes of a step, runs, a guarded section.
--   Philosophers: examples/philosophers.c. Buffer: examples/producer_consumer.c. ReadWrite:
--   examples/readers_writers.c. A thread of a program moves from one call of the library to the
--   next; runs let the threads move in any order, which allows more than the queues of the
--   scheduler do. None of the three programs turns preemption on.
-- - Tests: a machine of five threads, and runs of the programs, on which the theorems are applied.
--   Base: shared helpers.
--
-- Switching. Where the C code calls `swapcontext`, the model stores a list of frames in the TCB: the
-- library calls to resume, innermost first, each with its saved local variables. The code
-- after a switch is a function of its own: `mutex_lock_loop`, `ticket_lock_loop`, `spin_lock`,
-- `sem_wait_loop`, `cond_wait_resume`, `join_resume`. A loop whose every round ends in a switch is
-- modelled round by round.
--
-- Integers. Addresses and words are natural numbers; the `unsigned` fields wrap at 2 ^ 32 where the
-- code adds to them; an `int` of the library is an integer whose overflow is a fault. In
-- examples/producer_consumer.c and examples/readers_writers.c an `int` is a natural number; one
-- that would pass the largest `int`, or a division by 0, is the outcome `traps`, and `InRange` has
-- the bounds on the arguments that rule it out. In examples/philosophers.c every `int` stays within
-- the arguments of the program.
--
-- Fuel. The walk of `uth_block` gets as many rounds as the table has entries, the loops of
-- `uth_wake_all` and `uth_ticket_unlock` one more, for the test that ends them. The theorems on single
-- operations assume that a queue is no longer than the table; in System every TCB has an entry of the
-- table.
--
-- Parameters. What `mmap`, `realloc` and `calloc` return are arguments; so are the results of the
-- system calls of `uth_preempt_enable`, with the documented condition of `setitimer` as a hypothesis.
--
-- Not modelled: register contents, the stacks' contents and fpregs; `uth_init`, which does
-- nothing; the mask that `scheduler_loop` sets when it is entered; the drivers of examples/, which
-- create and join their threads, but for the items that the one of producer_consumer.c computes, and examples/preempt_demo.c; bench/, which measures; the
-- effects of several processors, since all threads run on one.
pub mod Base
pub mod Machine
pub mod Queue
pub mod Table
pub mod Thread
pub mod Mutex
pub mod Spinlock
pub mod Ticket
pub mod Cond
pub mod Sem
pub mod Preempt
pub mod Api
pub mod System
pub mod Program
pub mod Philosophers
pub mod Buffer
pub mod ReadWrite
pub mod Tests
