-- ===== src/System.antt =====
-- The calls of the running thread, and what holds before and after each of them: the machine is
-- sound when its queues and its table are well-formed, and every TCB has an entry of the table.
pub mod Kin
pub mod Waiting
pub mod Landing
pub mod Switching
pub mod Blocking
pub mod Waking
pub mod Joiners
pub mod Ending
pub mod Collecting
pub mod Calls
pub mod Owning
pub mod Steps
pub mod Exclusion
use comp_arch_project.Base.{
  ℕ, zero, suc, update, if◌then◌else◌, ◌==◌, ◌⊎◌, not, false, ◌+◌, ◌<◌, ◌≡◌, ◌≢◌, ◌^◌, Option, none,
  some, List, Bool, true,
}
use comp_arch_project.Machine.{
  Ptr, Tid, tid_invalid, null, running, blocked, Frame, Tcb, Mutex, Ticket, ℤ, Machine, pos, negsuc,
  Run, pure, ◌>>=◌, ◌>>◌, ok, switched, fault, out_of_fuel, Cmd,
}
use comp_arch_project.Queue.Spec.{Queues, IsLoose, Holds, state_at}
use comp_arch_project.Table.Valid.{IsTable, slot}
use comp_arch_project.Table.Listed.{Listed}
use comp_arch_project.Thread.{create, yield, exit, join, join_resume, schedule, resume}
use comp_arch_project.Spinlock.{spin_lock, spin_unlock}
use comp_arch_project.Table.{unsigned, is_zombie}
use comp_arch_project.Api.{
  Call, unlocks, sleeps, takes, retakes, posts, rejoins, perform, returns, objects_after,
}
use comp_arch_project.Machine.Objects.{Objects, objects}
use comp_arch_project.Machine.Access.{IsRunning}
use comp_arch_project.Mutex.{mutex_lock, mutex_lock_loop, mutex_unlock}
use comp_arch_project.Ticket.{ticket_lock, ticket_lock_loop, ticket_unlock}
use comp_arch_project.Cond.{cond_wait, cond_signal, cond_broadcast}
use comp_arch_project.Sem.{int_max, sem_wait, sem_wait_loop, sem_post}
use comp_arch_project.Preempt.{preempt_handler}

abbrev pub joiner_in : Option Tcb → Ptr
joiner_in o = elim o [ none ↦ null | some c ↦ c.joiner ]

-- A thread that is blocked in no queue, as `uth_join` leaves its caller.
pub record Waits (a : Queues) (j : Ptr) : Type 0 where
  pub blocked_there : state_at a.cells j ≡ some blocked
  pub loose : IsLoose a j

-- Who is noted as a joiner waits, and for one thread only.
pub record Joins (a : Queues) : Type 0 where
  pub waits : (p : Ptr) → joiner_in (a.cells p) ≢ null → Waits a (joiner_in (a.cells p))
  pub single :
      (p q : Ptr)
      → joiner_in (a.cells p) ≢ null
      → joiner_in (a.cells p) ≡ joiner_in (a.cells q)
      → p ≡ q

-- The thread table and its counters.
pub record Registry : Type 0 where
  pub table : List Ptr
  pub capacity : ℕ
  pub count : ℕ
  pub next : Tid

abbrev pub registry : Machine → Registry
registry s = record {
  table = s.tcb_table;
  capacity = s.tcb_capacity;
  count = s.tcb_count;
  next = s.next_tid;
}

pub record IsSound (s : Machine) (a : Queues) : Type 0 where
  pub holds : Holds s a
  pub table : IsTable s
  pub listed : Listed s a
  pub joins : Joins a

pub record IsZombie (s : Machine) (p : Ptr) : Type 0 where
  pub tcb : Tcb
  pub ne_null : p ≢ null
  pub found : s.heap p ≡ some tcb
  pub dead : is_zombie tcb.state ≡ true

-- The conditions of a call: a mutex is released by its owner, and a semaphore's value is at least
-- 0, and below the largest `int` when it is raised. After the wait of `uth_join` its target is a
-- zombie, or has been collected by another thread.
abbrev pub Allowed : Call → Machine → Tcb → Type 0
Allowed (unlocks m) s c = (s.mutexes m).owner ≡ c.tid
Allowed (sleeps q m) s c = (s.mutexes m).owner ≡ c.tid
Allowed (takes q) s c = (n : ℕ) × (s.sems q ≡ pos n)
Allowed (retakes q old) s c = (n : ℕ) × (s.sems q ≡ pos n)
Allowed (rejoins tid retval old) s c = (slot s tid ≡ null) ⊎ IsZombie s (slot s tid)
Allowed (posts q) s c = (n : ℕ) × (s.sems q ≡ pos n) × (n < int_max)
Allowed _ s c = Unit

-- The conditions of a call that steps: that a mutex is released by its owner is left to the code's
-- assertion.
abbrev pub Permitted : Call → Machine → Tcb → Type 0
Permitted (unlocks m) s c = Unit
Permitted (sleeps q m) s c = Unit
Permitted (takes q) s c = (n : ℕ) × (s.sems q ≡ pos n)
Permitted (retakes q old) s c = (n : ℕ) × (s.sems q ≡ pos n)
Permitted (rejoins tid retval old) s c = (slot s tid ≡ null) ⊎ IsZombie s (slot s tid)
Permitted (posts q) s c = (n : ℕ) × (s.sems q ≡ pos n) × (n < int_max)
Permitted _ s c = Unit

-- The machine when the code has returned, or the scheduler has taken over, where no thread is
-- current; none after a failure.
abbrev pub after : {A : Type 0} → Run A → Option Machine
after (ok r s) = some s
after (switched s) = some (record s { current = null })
after (fault f) = none
after out_of_fuel = none

abbrev pub has_returned : {A : Type 0} → Run A → Bool
has_returned (ok r s) = true
has_returned _ = false

-- The code ends without a failure, by a return or a switch as `back` says, the objects are `o`, and
-- the machine is sound.
abbrev pub EndsSound : Run (Unit {0}) → (back : Bool) → Objects → Type 0
EndsSound r back o =
    (s : Machine) × (a : Queues) × (after r ≡ some s)
    × (has_returned r ≡ back)
    × (objects s ≡ o)
    × IsSound s a

-- The same of a call in the calls `frames` by the thread with TID `me`, as Api has it.
abbrev pub Ends : Call → List Frame → Machine → (me : Tid) → Type 0
Ends call frames s me =
    EndsSound (perform call frames s) (returns call s) (objects_after call me (objects s))

-- A step: the scheduler resumes a thread, the thread that runs makes a call or is interrupted, or a
-- thread is created, given memory at an address that held nothing.
pub data Step (s : Machine) : Machine → Type 0 where
  dispatches :
      (t : Ptr) (frames : List Frame) {s' : Machine}
      → s.current ≡ null
      → schedule s ≡ ok (resume t frames) s'
      → Step s s'
  calls :
      (call : Call) (frames : List Frame) {c : Tcb} {s' : Machine}
      → IsRunning s c
      → c.state ≡ running
      → Permitted call s c
      → after (perform call frames s) ≡ some s'
      → Step s s'
  creates :
      (stack fresh fn arg stack_size : ℕ) {tid : Tid} {s' : Machine}
      → s.tcb_count < 2 ^ 31
      → fresh ≢ null
      → s.heap fresh ≡ none
      → create (some stack) true fresh fn arg stack_size s ≡ ok tid s'
      → Step s s'

-- The machines that steps lead to.
pub data Reaches (s : Machine) : Machine → Type 0 where
  here : Reaches s s
  later : {u v : Machine} → Reaches s u → Step u v → Reaches s v
