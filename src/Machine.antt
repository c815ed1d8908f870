-- ===== src/Machine.antt =====
-- The data of uthreads_internal.h and uthreads.h, the globals of thread.c, and the commands that
-- read and write them. A pointer is a number, `null` is 0; a TCB lies at an address of the heap.
-- A lock, condition variable or semaphore is named by its address too: its `waiters` field, whose
-- address is handed to the queue functions, lies in `waiters`, and its other fields in the map
-- for its kind.
pub mod Access
pub mod Objects
pub mod Returns
use comp_arch_project.Base.{ℕ, Bool, true, Option, none, some, List, ◌==◌, if◌then◌else◌, update}

abbrev pub Ptr : Type 0
Ptr = ℕ

abbrev pub null : Ptr
null = 0

abbrev pub Tid : Type 0
Tid = ℕ

abbrev pub tid_invalid : Tid
tid_invalid = 0

-- `uth_state_t`
pub data State : Type 0 where
  ready running blocked zombie : State

-- Where a saved context resumes: the function that was left by `swapcontext`, with the local
-- variables that it reads afterwards. `old` is the saved signal mask, `true` with SIGALRM blocked.
-- A new thread starts in `trampoline`, with the two halves of its address. No frame stands for the
-- thread's own function, in which every call of the library is made.
pub data Frame : Type 0 where
  trampoline : (hi lo : ℕ) → Frame
  in_yield : (old : Bool) → Frame
  in_mutex_lock : (m : Ptr) (old : Bool) → Frame
  in_ticket_lock : (t : Ptr) (my_ticket : ℕ) (old : Bool) → Frame
  in_spin_lock : (s : Ptr) → Frame
  in_cond_wait : (c m : Ptr) (old : Bool) → Frame
  after_relock : (old : Bool) → Frame
  in_sem_wait : (s : Ptr) (old : Bool) → Frame
  in_join : (tid : Tid) (retval : Ptr) (old : Bool) → Frame
  after_exit : Frame

-- `ucontext_t`: the calls to resume, innermost first, and the signal mask
pub record Context : Type 0 where
  pub frames : List Frame
  pub mask : Bool

-- `uth_tcb_t`
pub record Tcb : Type 0 where
  pub tid : Tid
  pub state : State
  pub ctx : Context
  pub stack : Ptr
  pub stack_size : ℕ
  pub fn : ℕ
  pub arg : ℕ
  pub retval : ℕ
  pub next : Ptr
  pub joiner : Ptr
  pub ticket : ℕ

-- `uth_mutex_t`, less `waiters`
pub record Mutex : Type 0 where
  pub locked : Bool
  pub owner : Tid

-- `uth_ticket_t`, less `waiters`
pub record Ticket : Type 0 where
  pub next_ticket : ℕ
  pub now_serving : ℕ

-- An `int`; `negsuc n` is -(n + 1).
pub data ℤ : Type 0 where
  pos : ℕ → ℤ
  negsuc : ℕ → ℤ

abbrev pub Heap : Type 0
Heap = Ptr → Option Tcb

-- The globals and what they lead to. `memory` has the objects of the user's program, `mapped` the
-- size of the stack that `mmap` has placed at an address, 0 for none; `masked` is the signal mask.
pub record Machine : Type 0 where
  pub heap : Heap
  pub current : Ptr
  pub rq_head : Ptr
  pub rq_tail : Ptr
  pub tcb_table : List Ptr
  pub tcb_capacity : ℕ
  pub tcb_count : ℕ
  pub next_tid : Tid
  pub masked : Bool
  pub waiters : Ptr → Ptr
  pub mutexes : Ptr → Mutex
  pub tickets : Ptr → Ticket
  pub spinlocks : Ptr → Bool
  pub sems : Ptr → ℤ
  pub memory : Ptr → ℕ
  pub mapped : Ptr → ℕ

-- What ends the process, or leaves its behaviour undefined.
pub data Fault : Type 0 where
  bad_pointer : Fault
  assertion : Fault
  exit_failure : Fault
  overflow : Fault

-- How a piece of code ends: it returns; it has switched to the scheduler, whose context runs with
-- SIGALRM blocked; it fails; or a loop's fuel is spent.
pub data Run (A : Type 0) : Type 0 where
  ok : A → Machine → Run A
  switched : Machine → Run A
  fault : Fault → Run A
  out_of_fuel : Run A

abbrev pub Cmd : Type 0 → Type 0
Cmd A = Machine → Run A

abbrev pub pure : {A : Type 0} → A → Cmd A
pure = ok

abbrev pub stop : {A : Type 0} → Fault → Cmd A
stop f _ = fault f

module _ {A B : Type 0} where
  abbrev pub and_then : Run A → (A → Cmd B) → Run B
  and_then (ok a s) k = k a s
  and_then (switched s) k = switched s
  and_then (fault f) k = fault f
  and_then out_of_fuel k = out_of_fuel

  infixl 5 ◌>>=◌ ◌>>◌
  abbrev pub ◌>>=◌ : Cmd A → (A → Cmd B) → Cmd B
  m >>= k = λ s. and_then (m s) k

  abbrev pub ◌>>◌ : Cmd A → Cmd B → Cmd B
  m >> n = m >>= λ _. n

-- A read of a global, and an assignment to one.
abbrev pub get : {A : Type 0} → (Machine → A) → Cmd A
get f s = ok (f s) s

abbrev pub assign : (Machine → Machine) → Cmd (Unit {0})
assign f s = ok tt (f s)

abbrev pub assert : Bool → Cmd (Unit {0})
assert b = if b then pure tt else stop assertion

-- `*p`; a fault at `NULL` and at an address that holds no TCB
unfoldable pub load : Ptr → Cmd Tcb
load p s =
    if p == null
    then fault bad_pointer
    else elim (s.heap p) [ none ↦ fault bad_pointer | some c ↦ ok c s ]

abbrev pub put : Ptr → Tcb → Machine → Machine
put p c s = record s { heap = update s.heap p (some c) }

-- an assignment to fields of `*p`
unfoldable pub modify : Ptr → (Tcb → Tcb) → Cmd (Unit {0})
unfolding load
modify p f = do c ← load p; assign (put p (f c))

-- `swapcontext(&t->ctx, &uth_sched_ctx)`, with the calls that are left to resume
unfoldable pub swap_out : {A : Type 0} → Ptr → List Frame → Cmd A
unfolding modify
swap_out t frames = do
  mask ← get (λ s. s.masked)
  modify t (λ c. record c { ctx = record { frames = frames; mask = mask } })
  λ s. switched (record s { masked = true })

-- `uth_preempt_off`: blocks SIGALRM and returns the mask from before
unfoldable pub preempt_off : Cmd Bool
preempt_off = do old ← get (λ s. s.masked); assign (λ s. record s { masked = true }); pure old

-- `uth_preempt_restore`
unfoldable pub preempt_restore : Bool → Cmd (Unit {0})
preempt_restore old = assign (λ s. record s { masked = old })

-- `uth_self`
unfoldable pub self : Cmd Tid
unfolding load
self = do
  t ← get (λ s. s.current)
  if t == null then pure tid_invalid else do c ← load t; pure c.tid
