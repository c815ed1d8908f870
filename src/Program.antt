-- ===== src/Program.antt =====
-- What the programs of examples/ share: how a step of one of their threads comes out.
pub mod Guarded
pub mod Running
use comp_arch_project.Base.{ℕ, ◌+◌, true, false, ltb, if◌then◌else◌}
use comp_arch_project.Machine.{Tid, tid_invalid, Mutex}
use comp_arch_project.Sem.{int_max}

-- A step of a thread moves on to a state, the thread waits at a call of the library, an assertion
-- fails, the thread has returned, or the program traps: an `int` overflows, or is divided by 0.
pub data Outcome (S : Type 0) : Type 0 where
  moves : S → Outcome S
  waits : Outcome S
  fails : Outcome S
  ends : Outcome S
  traps : Outcome S

-- A step that computes an `int`.
abbrev pub checked : {S : Type 0} → ℕ → Outcome S → Outcome S
checked v o = if ltb int_max v then traps else o

-- `main` creates the driver, which has TID 1, and the driver creates the threads in order.
abbrev pub tid_of : ℕ → Tid
tid_of i = i + 2

-- A mutex that thread `i` holds, and one that nobody holds.
abbrev pub taken_by : ℕ → Mutex
taken_by i = record { locked = true; owner = tid_of i }

abbrev pub free_mutex : Mutex
free_mutex = record { locked = false; owner = tid_invalid }
