-- ===== src/ReadWrite/Bounds.antt =====
-- The `int`s of examples/readers_writers.c: the counters stay within their bounds.
use comp_arch_project.Base.{ℕ, zero, suc, ◌+◌, ◌-◌, ◌*◌, ◌≤◌, ◌≡◌, arith}
use comp_arch_project.Base.Sums.{sum, total_of, total_of_mono, total_of-const}
use comp_arch_project.Sem.{int_max}
use comp_arch_project.ReadWrite.{
  Phase, Counters, tests, wants_in, checks, sleeps, wakes, enters, works, wants_out, signals,
  leaves, rests, finished, InRange,
}
use comp_arch_project.ReadWrite.Tally.{Tally, RoundFits, inside, pending, rounds, writer, reader}

-- What the writers have written when all have returned.
total_first : (nw v k : ℕ) → k ≤ nw → total_of k (λ t. writer nw t v) ≡ k * v
total_first nw v zero h = omega arith
total_first nw v (suc k) h =
    let here : writer nw k v ≡ v = ground arith in
    omega (arith, total_first nw v k (omega arith), here)

pub total_all : (nw v k : ℕ) → total_of (nw + k) (λ t. writer nw t v) ≡ nw * v
total_all nw v zero =
    let end : nw + 0 ≡ nw = omega arith in rw end (total_first nw v nw (omega arith))
total_all nw v (suc k) =
    let here : writer nw (nw + k) v ≡ 0 = ground arith in
    let end : nw + suc k ≡ suc (nw + k) = omega arith in
    rw end (omega (arith, total_all nw v k, here))

-- Each thread counts once.
inside_le : (p : Phase) → inside p ≤ 1
inside_le (tests i) = omega arith
inside_le (wants_in i) = omega arith
inside_le (checks i) = omega arith
inside_le (sleeps i) = omega arith
inside_le (wakes i) = omega arith
inside_le (enters i) = omega arith
inside_le (works i) = omega arith
inside_le (wants_out i) = omega arith
inside_le (signals i) = omega arith
inside_le (leaves i) = omega arith
inside_le (rests i) = omega arith
inside_le finished = omega arith

pending_le : (p : Phase) → pending p ≤ 1
pending_le (tests i) = omega arith
pending_le (wants_in i) = omega arith
pending_le (checks i) = omega arith
pending_le (sleeps i) = omega arith
pending_le (wakes i) = omega arith
pending_le (enters i) = omega arith
pending_le (works i) = omega arith
pending_le (wants_out i) = omega arith
pending_le (signals i) = omega arith
pending_le (leaves i) = omega arith
pending_le (rests i) = omega arith
pending_le finished = omega arith

rounds_le : (iters : ℕ) (p : Phase) → RoundFits p iters → rounds iters p ≤ iters
rounds_le iters (tests i) fits = omega (arith, fits)
rounds_le iters (wants_in i) fits = omega (arith, fits)
rounds_le iters (checks i) fits = omega (arith, fits)
rounds_le iters (sleeps i) fits = omega (arith, fits)
rounds_le iters (wakes i) fits = omega (arith, fits)
rounds_le iters (enters i) fits = omega (arith, fits)
rounds_le iters (works i) fits = omega (arith, fits)
rounds_le iters (wants_out i) fits = omega (arith, fits)
rounds_le iters (signals i) fits = omega (arith, fits)
rounds_le iters (leaves i) fits = omega (arith, fits)
rounds_le iters (rests i) fits = omega (arith, fits)
rounds_le iters finished fits = omega arith

sum-at-most-one :
    (n : ℕ) (weight : ℕ → Phase → ℕ) (phase : ℕ → Phase)
    → ((t : ℕ) → weight t (phase t) ≤ 1)
    → sum n weight phase ≤ n
unfolding sum
sum-at-most-one n weight phase once =
    let least = total_of_mono n (λ t. weight t (phase t)) (λ t. 1) (λ t lt. once t) in
    omega (arith, least, total_of-const n 1)

module _ {n nw iters : ℕ} {c : Counters} {phase : ℕ → Phase} (all : nw ≤ n)
    (tally : Tally n nw iters c phase) (range : InRange n nw iters) where
  pub readers-small : c.active_readers ≤ int_max
  readers-small = omega (
    arith,
    tally.readers_in,
    range.threads,
    sum-at-most-one n (λ t p. reader nw t (inside p)) phase
        (λ t. ground (arith, inside_le (phase t))),
  )

  pub writers-small : c.active_writers ≤ int_max
  writers-small = omega (
    arith,
    tally.writers_in,
    range.threads,
    sum-at-most-one n (λ t p. writer nw t (inside p)) phase
        (λ t. ground (arith, inside_le (phase t))),
  )

  pub waiting-small : c.waiting_writers ≤ int_max
  waiting-small = omega (
    arith,
    tally.writers_due,
    range.threads,
    sum-at-most-one n (λ t p. writer nw t (pending p)) phase
        (λ t. ground (arith, pending_le (phase t))),
  )

  pub shared-small : c.shared_data ≤ int_max
  unfolding sum
  shared-small =
      let k = n - nw in
      let whole : nw + k ≡ n = omega (arith, all) in
      let least =
        total_of_mono n (λ t. writer nw t (rounds iters (phase t))) (λ t. writer nw t iters)
          (λ t lt. ground (arith, rounds_le iters (phase t) (tally.fit t lt))) in
      omega (arith, tally.written, least, rw whole at (total_all nw iters k), range.written)
