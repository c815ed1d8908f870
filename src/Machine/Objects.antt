-- ===== src/Machine/Objects.antt =====
-- The locks and semaphores of uthreads.h without their queues.
use comp_arch_project.Base.{Bool}
use comp_arch_project.Machine.{Ptr, Mutex, Ticket, ℤ, Machine}

-- What the clients of the library see of its objects.
pub record Objects : Type 0 where
  pub mutexes : Ptr → Mutex
  pub tickets : Ptr → Ticket
  pub spinlocks : Ptr → Bool
  pub sems : Ptr → ℤ

abbrev pub objects : Machine → Objects
objects s = record {
  mutexes = s.mutexes;
  tickets = s.tickets;
  spinlocks = s.spinlocks;
  sems = s.sems;
}
