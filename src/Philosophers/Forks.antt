-- ===== src/Philosophers/Forks.antt =====
-- examples/philosophers.c: the two forks of a philosopher.
use comp_arch_project.Base.{ℕ, ◌+◌, ◌-◌, ◌≤◌, ◌<◌, ◌≡◌, ◌==◌, arith, Bool-cases, inl, inr, ==_iff}
use native.Mathlib.Nat.{mod-eq_of_lt, mod_self}
use comp_arch_project.Philosophers.{right_of, first, second}

right_of-last : (n i : ℕ) → 0 < n → i ≡ n - 1 → right_of n i ≡ 0
right_of-last n i h e = let over : i + 1 ≡ n = omega arith in rw over (mod_self n)

-- The first fork has the lower number.
pub first-lt-second : (n i : ℕ) → 2 ≤ n → i < n → (first n i < second n i) × (second n i < n)
unfolding first second
first-lt-second n i few lt = elim (Bool-cases (i == n - 1)) [
  | inl last ↦ rw (last, right_of-last n i (omega arith) ((==_iff i (n - 1)).0 last)) (ground arith)
  | inr other ↦ rw (other, mod-eq_of_lt {n = i + 1} {m = n} (ground arith)) (ground arith)
]
