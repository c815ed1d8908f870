-- ===== src/Api.antt =====
-- The calls of uthreads.h by a running thread, as data: the code that each performs, and what it
-- makes of the objects that the program sees.
use comp_arch_project.Base.{
  ℕ, zero, suc, update, if◌then◌else◌, ◌==◌, not, false, ◌+◌, none, some, List, Bool, true,
}
use comp_arch_project.Machine.{
  Ptr, Tid, tid_invalid, null, Frame, Mutex, Ticket, ℤ, Machine, pos, negsuc, pure, ◌>>◌, Cmd,
}
use comp_arch_project.Machine.Objects.{Objects}
use comp_arch_project.Table.Valid.{slot}
use comp_arch_project.Thread.{yield, exit, join, join_resume}
use comp_arch_project.Spinlock.{spin_lock, spin_unlock}
use comp_arch_project.Table.{unsigned, is_zombie}
use comp_arch_project.Mutex.{mutex_lock, mutex_lock_loop, mutex_unlock}
use comp_arch_project.Ticket.{ticket_lock, ticket_lock_loop, ticket_unlock}
use comp_arch_project.Cond.{cond_wait, cond_signal, cond_broadcast}
use comp_arch_project.Sem.{sem_wait, sem_wait_loop, sem_post}
use comp_arch_project.Preempt.{preempt_handler}

-- What the running thread can do: a call of the library, the rest of a call in whose loop it was
-- blocked, or an interrupt by the timer.
pub data Call : Type 0 where
  yields : Call
  locks : (m : Ptr) → Call
  unlocks : (m : Ptr) → Call
  draws : (t : Ptr) → Call
  serves : (t : Ptr) → Call
  sleeps : (c m : Ptr) → Call
  signals : (c : Ptr) → Call
  broadcasts : (c : Ptr) → Call
  takes : (q : Ptr) → Call
  posts : (q : Ptr) → Call
  relocks : (m : Ptr) (old : Bool) → Call
  redraws : (t : Ptr) (my_ticket : ℕ) (old : Bool) → Call
  retakes : (q : Ptr) (old : Bool) → Call
  exits : (retval : ℕ) → Call
  joins : (tid : Tid) (retval : Ptr) → Call
  rejoins : (tid : Tid) (retval : Ptr) (old : Bool) → Call
  spins : (l : Ptr) → Call
  frees : (l : Ptr) → Call
  interrupted : Call

abbrev pub perform : Call → List Frame → Cmd (Unit {0})
perform yields frames = yield frames
perform (locks m) frames = mutex_lock m frames
perform (unlocks m) frames = mutex_unlock m
perform (draws t) frames = ticket_lock t frames
perform (serves t) frames = ticket_unlock t
perform (sleeps c m) frames = cond_wait c m frames
perform (signals c) frames = cond_signal c
perform (broadcasts c) frames = cond_broadcast c
perform (takes q) frames = sem_wait q frames
perform (posts q) frames = sem_post q
perform (relocks m old) frames = mutex_lock_loop m old frames
perform (redraws t mine old) frames = ticket_lock_loop t mine old frames
perform (retakes q old) frames = sem_wait_loop q old frames
perform (exits retval) frames = exit retval
perform (joins tid retval) frames = join tid retval frames >> pure tt
perform (rejoins tid retval old) frames = join_resume tid retval old >> pure tt
perform (spins l) frames = spin_lock l frames >> pure tt
perform (frees l) frames = spin_unlock l
perform interrupted frames = λ s. preempt_handler frames s.masked s

abbrev pub has_permit : ℤ → Bool
has_permit (pos zero) = false
has_permit (pos (suc n)) = true
has_permit (negsuc n) = false

-- A thread that is gone or a zombie: `uth_join` does not wait for it.
abbrev pub has_ended : Machine → Ptr → Bool
has_ended s p =
    if p == null then true else elim (s.heap p) [ none ↦ true | some c ↦ is_zombie c.state ]

-- Whether a call comes back at once, without a switch.
abbrev pub returns : Call → Machine → Bool
returns (locks m) s = not (s.mutexes m).locked
returns (relocks m old) s = not (s.mutexes m).locked
returns (unlocks m) s = true
returns (draws t) s = (s.tickets t).now_serving == (s.tickets t).next_ticket
returns (redraws t mine old) s = (s.tickets t).now_serving == mine
returns (serves t) s = true
returns (signals c) s = true
returns (broadcasts c) s = true
returns (takes q) s = has_permit (s.sems q)
returns (retakes q old) s = has_permit (s.sems q)
returns (posts q) s = true
returns (spins l) s = not (s.spinlocks l)
returns (frees l) s = true
returns (joins tid retval) s = has_ended s (slot s tid)
returns (rejoins tid retval old) s = true
returns _ s = false

abbrev pub set_mutex_of : Ptr → Mutex → Objects → Objects
set_mutex_of m v o = record o { mutexes = update o.mutexes m v }

abbrev pub free_mutex : Mutex
free_mutex = record { locked = false; owner = tid_invalid }

-- A free mutex becomes the caller's.
abbrev pub locked_by : Bool → Ptr → Tid → Objects → Objects
locked_by false m me o = set_mutex_of m (record { locked = true; owner = me }) o
locked_by true m me o = o

-- A permit is taken where there is one.
abbrev pub taken_from : ℤ → Ptr → Objects → Objects
taken_from (pos (suc n)) q o = record o { sems = update o.sems q (pos n) }
taken_from v q o = o

abbrev pub flagged : Bool → Ptr → Objects → Objects
flagged false l o = record o { spinlocks = update o.spinlocks l true }
flagged true l o = o

abbrev pub one_more : ℤ → ℤ
one_more (pos n) = pos (n + 1)
one_more v = v

-- What a call of the thread with TID `me` makes of the objects.
abbrev pub objects_after : Call → (me : Tid) → Objects → Objects
objects_after (locks m) me o = locked_by (o.mutexes m).locked m me o
objects_after (relocks m old) me o = locked_by (o.mutexes m).locked m me o
objects_after (unlocks m) me o = set_mutex_of m free_mutex o
objects_after (sleeps c m) me o = set_mutex_of m free_mutex o
objects_after (draws t) me o =
    let v : Ticket = o.tickets t in
    record o {
      tickets = update o.tickets t (record v { next_ticket = unsigned (v.next_ticket + 1) });
    }
objects_after (serves t) me o =
    let v : Ticket = o.tickets t in
    record o {
      tickets = update o.tickets t (record v { now_serving = unsigned (v.now_serving + 1) });
    }
objects_after (takes q) me o = taken_from (o.sems q) q o
objects_after (retakes q old) me o = taken_from (o.sems q) q o
objects_after (posts q) me o = record o { sems = update o.sems q (one_more (o.sems q)) }
objects_after (spins l) me o = flagged (o.spinlocks l) l o
objects_after (frees l) me o = record o { spinlocks = update o.spinlocks l false }
objects_after _ me o = o
