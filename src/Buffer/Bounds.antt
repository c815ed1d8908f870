-- ===== src/Buffer/Bounds.antt =====
-- The `int`s of examples/producer_consumer.c: none overflows for arguments in range.
use comp_arch_project.Base.{ℕ, ◌+◌, ◌*◌, ◌≤◌, ◌<◌, ◌≡◌, sym, true, ltb, arith}
use comp_arch_project.Base.Sums.{sum, total_of_mono}
use comp_arch_project.Sem.{int_max}
use comp_arch_project.Buffer.{
  Phase, tests, wants_permit, wants_lock, works, unlocks, posts, rests, finished, items_of, InRange,
}
use comp_arch_project.Buffer.Counts.{Counts, RoundFits, rounds, made}
use comp_arch_project.Buffer.Totals.{to_put, put_total}

rounds_le : (count : ℕ) (p : Phase) → RoundFits p count → rounds count p ≤ count
rounds_le count (tests i) fits = fits
rounds_le count (wants_permit i) fits = omega (arith, fits)
rounds_le count (wants_lock i) fits = omega (arith, fits)
rounds_le count (works i) fits = omega (arith, fits)
rounds_le count (unlocks i) fits = omega (arith, fits)
rounds_le count (posts i) fits = omega (arith, fits)
rounds_le count (rests i) fits = omega (arith, fits)
rounds_le count finished fits = omega arith

module _ {np nc ni : ℕ} (range : InRange np nc ni) where
  module _ {empty full produced consumed : ℕ} {phase : ℕ → Phase}
      (c : Counts np nc ni empty full produced consumed phase) where
    made_under : sum (np + nc) (made np nc ni) phase ≤ np * ni
    unfolding sum
    made_under = rw (sym (put_total np nc ni)) (
        total_of_mono (np + nc) (λ t. made np nc ni t (phase t)) (to_put np nc ni)
          (λ t lt. ground (arith, rounds_le (items_of np nc ni t) (phase t) (c.fit t lt))))

    pub produced-small : produced ≤ int_max
    produced-small = omega (arith, made_under, c.makes, range.total)

    pub consumed-small : consumed ≤ int_max
    consumed-small = omega (arith, produced-small, c.fulls)

  pub item-small : (t i : ℕ) → ltb t np ≡ true → i < items_of np nc ni t → t * 1000 + i ≤ int_max
  unfolding items_of
  item-small t i role lt =
      let below : t < np = ground (arith, role) in
      let small : i < ni = rw role at lt in omega (arith, below, small, range.item)
