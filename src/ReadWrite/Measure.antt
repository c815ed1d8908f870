-- ===== src/ReadWrite/Measure.antt =====
-- examples/readers_writers.c: the steps that are left, and what a step takes from them.
use comp_arch_project.Base.{
  ℕ, suc, ◌+◌, ◌-◌, ◌*◌, ◌≤◌, ◌<◌, ◌≡◌, refl, ap, inl, inr, arith, Bool-cases, update, has, List,
}
use comp_arch_project.Base.Sums.{sum, sum-update, total_of_mono, total_of-plus}
use comp_arch_project.ReadWrite.{
  Phase, tests, wants_in, checks, sleeps, wakes, enters, works, wants_out, signals, leaves, rests,
  finished, woken, wake,
}

-- The steps that a thread has left: a round has a dozen, and two for every thread that it wakes.
abbrev pub steps_left : (n iters : ℕ) → Phase → ℕ
steps_left n iters (tests i) = (2 * n + 12) * (iters - i) + 1
steps_left n iters (wants_in i) = (2 * n + 12) * (iters - i)
steps_left n iters (checks i) = (2 * n + 12) * (iters - i) - 2
steps_left n iters (sleeps i) = (2 * n + 12) * (iters - i) - 3
steps_left n iters (wakes i) = (2 * n + 12) * (iters - i) - 1
steps_left n iters (enters i) = (2 * n + 12) * (iters - i) - 4
steps_left n iters (works i) = (2 * n + 12) * (iters - i) - 5
steps_left n iters (wants_out i) = (2 * n + 12) * (iters - i) - 6
steps_left n iters (signals i) = (2 * n + 12) * (iters - i) - 7
steps_left n iters (leaves i) = (2 * n + 12) * (iters - i) - (2 * n + 8)
steps_left n iters (rests i) = (2 * n + 12) * (iters - i) - (2 * n + 9)
steps_left n iters finished = 0

woken-steps_left :
    (n iters : ℕ) (p : Phase) → steps_left n iters (woken p) ≤ steps_left n iters p + 2
woken-steps_left n iters (tests i) = omega arith
woken-steps_left n iters (wants_in i) = omega arith
woken-steps_left n iters (checks i) = omega arith
woken-steps_left n iters (sleeps i) = omega arith
woken-steps_left n iters (wakes i) = omega arith
woken-steps_left n iters (enters i) = omega arith
woken-steps_left n iters (works i) = omega arith
woken-steps_left n iters (wants_out i) = omega arith
woken-steps_left n iters (signals i) = omega arith
woken-steps_left n iters (leaves i) = omega arith
woken-steps_left n iters (rests i) = omega arith
woken-steps_left n iters finished = omega arith

-- A round less.
pub one_round :
    (n iters i : ℕ)
    → i < iters
    → (2 * n + 12) * (iters - i) ≡ (2 * n + 12) * (iters - (i + 1)) + (2 * n + 12)
one_round n iters i lt =
    let more : iters - i ≡ suc (iters - (i + 1)) = omega arith in rw more (omega arith)

module _ (n iters : ℕ) where
  abbrev pub all_left : (ℕ → Phase) → ℕ
  all_left phase = sum n (λ t p. steps_left n iters p) phase

  -- A step with fewer steps left for its thread.
  pub update-less :
      (phase : ℕ → Phase) (t : ℕ) (p q : Phase)
      → t < n
      → phase t ≡ p
      → steps_left n iters q < steps_left n iters p
      → all_left (update phase t q) < all_left phase
  update-less phase t p q lt e less =
      let change = sum-update n (λ j o. steps_left n iters o) phase t q lt in
      let here = ap (steps_left n iters) e in omega (arith, change, here, less)

  wake-le : (l : List ℕ) (phase : ℕ → Phase) → all_left (wake l phase) ≤ all_left phase + n * 2
  unfolding sum
  wake-le l phase =
      let each = λ (j : ℕ).
        elim (Bool-cases (has j l))
          as (λ _. steps_left n iters (wake l phase j) ≤ steps_left n iters (phase j) + 2) [
            | inl h ↦ rw h (woken-steps_left n iters (phase j))
            | inr h ↦ rw h (omega arith)
          ] in
      let sums =
        total_of_mono n (λ j. steps_left n iters (wake l phase j))
          (λ j. steps_left n iters (phase j) + 2) (λ j lt. each j) in
      omega (arith, sums, total_of-plus n 2 (λ j. steps_left n iters (phase j)))

  -- The step that wakes others.
  pub wake-less :
      (l : List ℕ) (phase : ℕ → Phase) (t i : ℕ)
      → t < n
      → phase t ≡ signals i
      → i < iters
      → all_left (update (wake l phase) t (leaves i)) < all_left phase
  wake-less l phase t i lt e room =
      let change = sum-update n (λ j o. steps_left n iters o) (wake l phase) t (leaves i) lt in
      let same : wake l phase t ≡ signals i = elim (Bool-cases (has t l)) [
        | inl h ↦ rw (h, e) refl
        | inr h ↦ rw (h, e) refl
      ] in
      let here = ap (steps_left n iters) same in
      omega (arith, change, here, wake-le l phase, one_round n iters i room)
