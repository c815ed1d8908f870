-- ===== src/Ticket.antt =====
-- The ticket lock of src/mutex.c.
pub mod Order
pub mod Waiting
use comp_arch_project.Base.{
  ℕ, zero, suc, ◌+◌, ◌%◌, ◌^◌, Bool, List, ◌∷◌, ◌==◌, if◌then◌else◌, update,
}
use comp_arch_project.Machine.{
  Ptr, null, Frame, in_ticket_lock, Ticket, Machine, out_of_fuel, Cmd, pure, ◌>>=◌, ◌>>◌, get,
  assign, assert, load, modify, preempt_off, preempt_restore,
}
use comp_arch_project.Queue.{with_next, set_waiters, block, enqueue}
use comp_arch_project.Table.{unsigned}

abbrev pub set_ticket : Ptr → Ticket → Machine → Machine
set_ticket t v s = record s { tickets = update s.tickets t v }

-- `uth_ticket_init`
unfoldable pub ticket_init : Ptr → Cmd (Unit {0})
ticket_init t = do
  assign (set_ticket t (record { next_ticket = 0; now_serving = 0 }))
  set_waiters t null

-- One round of the loop of `uth_ticket_lock`, and what follows the loop.
unfoldable pub ticket_lock_loop :
    (t : Ptr) (my_ticket : ℕ) (old : Bool) → List Frame → Cmd (Unit {0})
unfolding block modify preempt_restore
ticket_lock_loop t my_ticket old frames = do
  v ← get (λ s. s.tickets t)
  if v.now_serving == my_ticket then preempt_restore old else do
    me ← get (λ s. s.current)
    modify me (λ c. record c { ticket = my_ticket })
    block t (in_ticket_lock t my_ticket old ∷ frames)

-- `uth_ticket_lock`
unfoldable pub ticket_lock : Ptr → List Frame → Cmd (Unit {0})
unfolding preempt_off ticket_lock_loop
ticket_lock t frames = do
  old ← preempt_off
  v ← get (λ s. s.tickets t)
  assign (set_ticket t (record v { next_ticket = unsigned (v.next_ticket + 1) }))
  ticket_lock_loop t v.next_ticket old frames

-- `*pp = w->next` where `pp` is the address of the `next` field of `prev`, or of the head of the
-- queue if `prev` is `NULL`
unfoldable pub unlink : (queue prev next : Ptr) → Cmd (Unit {0})
unfolding modify
unlink queue prev next =
    if prev == null then set_waiters queue next else modify prev (with_next next)

-- The walk of `uth_ticket_unlock` from `cur`, which `prev` leads to.
unfoldable pub wake_ticket : (fuel : ℕ) (queue : Ptr) (ticket : ℕ) (prev cur : Ptr) → Cmd (Unit {0})
unfolding load modify unlink enqueue
wake_ticket zero queue ticket prev cur = λ _. out_of_fuel
wake_ticket (suc fuel) queue ticket prev cur = if cur == null then pure tt else do
  w ← load cur
  if w.ticket == ticket
      then (do unlink queue prev w.next; modify cur (with_next null); enqueue cur)
      else wake_ticket fuel queue ticket cur w.next

-- `uth_ticket_unlock`
unfoldable pub ticket_unlock : Ptr → Cmd (Unit {0})
unfolding preempt_off preempt_restore wake_ticket
ticket_unlock t = do
  old ← preempt_off
  v ← get (λ s. s.tickets t)
  let next = unsigned (v.now_serving + 1)
  assign (set_ticket t (record v { now_serving = next }))
  head ← get (λ s. s.waiters t)
  count ← get (λ s. s.tcb_count)
  wake_ticket (suc count) t next null head
  preempt_restore old

-- `uth_ticket_destroy`
unfoldable pub ticket_destroy : Ptr → Cmd (Unit {0})
ticket_destroy t = do head ← get (λ s. s.waiters t); assert (head == null)
