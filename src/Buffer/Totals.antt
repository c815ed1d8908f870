-- ===== src/Buffer/Totals.antt =====
-- The items that the driver of examples/producer_consumer.c gives out.
use comp_arch_project.Base.{
  ℕ, zero, suc, ◌+◌, ◌-◌, ◌*◌, ◌/◌, ◌%◌, ◌≤◌, ◌<◌, ◌≡◌, refl, ◌∙◌, false, if◌then◌else◌, ltb, arith,
}
use native.Mathlib.Nat.{mod-lt, div-add-mod}
use comp_arch_project.Base.Sums.{total_of}
use comp_arch_project.Buffer.{items_of}
use comp_arch_project.Buffer.Counts.{producer, consumer}

module _ (np nc ni : ℕ) where
  abbrev pub to_put : ℕ → ℕ
  to_put t = producer np t (items_of np nc ni t)

  abbrev pub to_take : ℕ → ℕ
  to_take t = consumer np t (items_of np nc ni t)

  put_first : (k : ℕ) → k ≤ np → total_of k to_put ≡ k * ni
  unfolding items_of
  put_first zero h = omega arith
  put_first (suc k) h =
      let here : to_put k ≡ ni = ground arith in omega (arith, put_first k (omega arith), here)

  put_all : (k : ℕ) → total_of (np + k) to_put ≡ np * ni
  put_all zero = let end : np + 0 ≡ np = omega arith in rw end (put_first np (omega arith))
  put_all (suc k) =
      let here : to_put (np + k) ≡ 0 = ground arith in
      let end : np + suc k ≡ suc (np + k) = omega arith in rw end (omega (arith, put_all k, here))

  pub put_total : total_of (np + nc) to_put ≡ np * ni
  put_total = put_all nc

  take_none : (k : ℕ) → k ≤ np → total_of k to_take ≡ 0
  take_none zero h = refl
  take_none (suc k) h =
      let here : to_take k ≡ 0 = ground arith in omega (arith, take_none k (omega arith), here)

  share : ℕ → ℕ
  share k = np * ni / nc + (if ltb k (np * ni % nc) then 1 else 0)

  take_some :
      (k : ℕ)
      → total_of (np + k) to_take
        ≡ k * (np * ni / nc) + (if ltb k (np * ni % nc) then k else np * ni % nc)
  unfolding items_of
  take_some zero =
      let end : np + 0 ≡ np = omega arith in rw (end, take_none np (omega arith)) (ground arith)
  take_some (suc k) =
      let q = np * ni / nc in
      let r = np * ni % nc in
      let here : to_take (np + k) ≡ q + (if ltb k r then 1 else 0) =
        let role : ltb (np + k) np ≡ false = ground arith in
        let own : np + k - np ≡ k = omega arith in rw (role, own) refl in
      let end : np + suc k ≡ suc (np + k) = omega arith in
      rw (end, take_some k, here) (ground arith)

  pub take_total : 0 < nc → total_of (np + nc) to_take ≡ np * ni
  take_total some = take_some nc ∙ ground (arith, mod-lt (np * ni) some, div-add-mod (np * ni) nc)
