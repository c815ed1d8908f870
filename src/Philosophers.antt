-- ===== src/Philosophers.antt =====
-- examples/philosophers.c: every philosopher is a thread, and a step of one runs from one call of
-- the library that may switch to the next. The calls of `uth_mutex_lock` and `uth_mutex_unlock`
-- are taken as Api has them; a philosopher at a held fork waits. Output is left out.
pub mod Forks
pub mod Table
pub mod Keeping
pub mod Progress
pub mod Finish
use comp_arch_project.Base.{
  ℕ, ◌+◌, ◌-◌, ◌*◌, ◌%◌, ◌<◌, Bool, true, false, ltb, ◌==◌, if◌then◌else◌, update,
}
use comp_arch_project.Machine.{Mutex}
use comp_arch_project.Program.{Outcome, moves, waits, fails, ends, tid_of, taken_by, free_mutex}

-- Where a philosopher is: at the test of the loop, in `think` after `k` yields, at the first
-- `uth_mutex_lock`, at the `uth_yield` behind it, at the second one, in `eat` after `k` yields, at
-- the first `uth_mutex_unlock` with the meal counted, at the second, and after the loop.
pub data Phase : Type 0 where
  tests : Phase
  thinks : (k : ℕ) → Phase
  wants_first : Phase
  has_first : Phase
  wants_second : Phase
  eats : (k : ℕ) → Phase
  drops_second : Phase
  drops_first : Phase
  finished : Phase

-- The forks, the meals, and the philosophers.
pub record Dinner : Type 0 where
  pub forks : ℕ → Mutex
  pub meals : ℕ → ℕ
  pub phase : ℕ → Phase

abbrev pub left_of : ℕ → ℕ
left_of i = i

-- `(id + 1) % N`
abbrev pub right_of : (n i : ℕ) → ℕ
right_of n i = (i + 1) % n

-- The last philosopher picks up the right fork first.
unfoldable pub first : (n i : ℕ) → ℕ
first n i = if i == n - 1 then right_of n i else left_of i

unfoldable pub second : (n i : ℕ) → ℕ
second n i = if i == n - 1 then left_of i else right_of n i

abbrev pub goes : ℕ → Phase → Dinner → Dinner
goes i p d = record d { phase = update d.phase i p }

-- `uth_mutex_lock(&forks[f])`, and on to `p`
abbrev pub picks_up : (i f : ℕ) → Phase → Dinner → Outcome Dinner
picks_up i f p d =
    if (d.forks f).locked
    then waits
    else moves (goes i p (record d { forks = update d.forks f (taken_by i) }))

-- `uth_mutex_unlock(&forks[f])`, and on to `p`
abbrev pub puts_down : (i f : ℕ) → Phase → Dinner → Outcome Dinner
puts_down i f p d =
    if (d.forks f).owner == tid_of i
    then moves (goes i p (record d { forks = update d.forks f (free_mutex) }))
    else fails

-- A step of philosopher `i` from a phase.
unfoldable pub act : (n total i : ℕ) → Phase → Dinner → Outcome Dinner
act n total i tests d = moves (goes i (if ltb (d.meals i) total then thinks 0 else finished) d)
act n total i (thinks k) d = moves (goes i (if ltb k 3 then thinks (k + 1) else wants_first) d)
act n total i wants_first d = picks_up i (first n i) has_first d
act n total i has_first d = moves (goes i wants_second d)
act n total i wants_second d = picks_up i (second n i) (eats 0) d
act n total i (eats k) d =
    if ltb k 2
    then moves (goes i (eats (k + 1)) d)
    else moves (goes i drops_second (record d { meals = update d.meals i (d.meals i + 1) }))
act n total i drops_second d = puts_down i (second n i) drops_first d
act n total i drops_first d = puts_down i (first n i) tests d
act n total i finished d = ends

-- The dinner when `main` has made the forks and the driver the threads.
abbrev pub served : Dinner
served = record { forks = λ f. free_mutex; meals = λ i. 0; phase = λ i. tests }
