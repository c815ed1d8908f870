-- ===== src/Queue.antt =====
-- The queue functions of thread.c: the run queue with its two ends, and the wait queues, of which
-- a lock keeps the head only. A loop over a queue gets `tcb_count` rounds of fuel: the threads in
-- a queue are distinct entries of the thread table.
pub mod Chain
pub mod Pop
pub mod Push
pub mod Spec
pub mod Splice
pub mod Untouched
pub mod Valid
pub mod Refines
pub mod Wake
pub mod WakeAll
pub mod Block
use comp_arch_project.Base.{ℕ, zero, suc, List, ◌==◌, if◌then◌else◌, update}
use comp_arch_project.Machine.{
  Ptr, null, ready, blocked, Frame, Tcb, Machine, out_of_fuel, Cmd, pure, ◌>>=◌, ◌>>◌, get, assign,
  load, modify, swap_out,
}

abbrev pub with_next : Ptr → Tcb → Tcb
with_next p c = record c { next = p }

-- `queue_push(head, tail, t)`: the new ends of the queue
unfoldable pub queue_push : (head tail t : Ptr) → Cmd (Ptr × Ptr)
queue_push head tail t = do
  modify t (with_next null)
  if tail == null then pure (t, t) else (do modify tail (with_next t); pure (head, t))

-- `queue_pop(head, tail)`: the thread, or `null`, and the new ends
unfoldable pub queue_pop : (head tail : Ptr) → Cmd (Ptr × Ptr × Ptr)
queue_pop head tail = if head == null then pure (null, head, tail) else do
  c ← load head
  let tail' = if c.next == null then null else tail
  modify head (with_next null)
  pure (head, c.next, tail')

abbrev pub set_ends : Ptr → Ptr → Cmd (Unit {0})
set_ends head tail = assign (λ s. record s { rq_head = head; rq_tail = tail })

-- `queue_push(&rq_head, &rq_tail, t)`
unfoldable pub run_push : Ptr → Cmd (Unit {0})
unfolding queue_push
run_push t = do
  head ← get (λ s. s.rq_head)
  tail ← get (λ s. s.rq_tail)
  (head', tail') ← queue_push head tail t
  set_ends head' tail'

-- `queue_pop(&rq_head, &rq_tail)`
unfoldable pub run_pop : Cmd Ptr
unfolding queue_pop
run_pop = do
  head ← get (λ s. s.rq_head)
  tail ← get (λ s. s.rq_tail)
  (t, head', tail') ← queue_pop head tail
  set_ends head' tail'
  pure t

-- `uth_enqueue`
unfoldable pub enqueue : Ptr → Cmd (Unit {0})
unfolding run_push
enqueue t = do modify t (λ c. record c { state = ready }); run_push t

abbrev pub set_waiters : (queue head : Ptr) → Cmd (Unit {0})
set_waiters queue head = assign (λ s. record s { waiters = update s.waiters queue head })

-- `while (*p) p = &(*p)->next; *p = t;` from the `next` field of `cur`
unfoldable pub append_after : (fuel : ℕ) → (cur t : Ptr) → Cmd (Unit {0})
append_after zero cur t = λ _. out_of_fuel
append_after (suc fuel) cur t = do
  c ← load cur
  if c.next == null then modify cur (with_next t) else append_after fuel c.next t

-- `uth_block` before its `swapcontext`: the current thread goes to the end of the wait queue
unfoldable pub block_enqueue : (queue : Ptr) → Cmd (Unit {0})
unfolding append_after
block_enqueue queue = do
  t ← get (λ s. s.current)
  modify t (λ c. record c { state = blocked })
  modify t (with_next null)
  head ← get (λ s. s.waiters queue)
  fuel ← get (λ s. s.tcb_count)
  if head == null then set_waiters queue t else append_after fuel head t

-- `uth_block`; `frames` are the calls that are resumed after it
unfoldable pub block : (queue : Ptr) → List Frame → Cmd (Unit {0})
unfolding block_enqueue
block queue frames = do block_enqueue queue; t ← get (λ s. s.current); swap_out t frames

-- `uth_block_noqueue`
unfoldable pub block_noqueue : List Frame → Cmd (Unit {0})
block_noqueue frames = do
  t ← get (λ s. s.current)
  modify t (λ c. record c { state = blocked })
  swap_out t frames

-- `uth_wake_one`: the woken thread, or `null`
unfoldable pub wake_one : (queue : Ptr) → Cmd Ptr
unfolding enqueue
wake_one queue = do
  t ← get (λ s. s.waiters queue)
  if t == null
      then pure null
      else do c ← load t; set_waiters queue c.next; modify t (with_next null); enqueue t; pure t

-- The loop of `uth_wake_all`. An empty queue ends it in its first test, so `tcb_count + 1` rounds
-- are given.
unfoldable pub wake_loop : (fuel queue : ℕ) → Cmd (Unit {0})
unfolding wake_one
wake_loop zero queue = λ _. out_of_fuel
wake_loop (suc fuel) queue = do
  t ← wake_one queue
  if t == null then pure tt else wake_loop fuel queue

-- `uth_wake_all`
unfoldable pub wake_all : (queue : Ptr) → Cmd (Unit {0})
unfolding wake_loop
wake_all queue = do count ← get (λ s. s.tcb_count); wake_loop (suc count) queue
