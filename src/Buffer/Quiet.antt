-- ===== src/Buffer/Quiet.antt =====
-- examples/producer_consumer.c: where no thread can move, every item has been consumed.
use comp_arch_project.Base.{
  ℕ, ◌+◌, ◌-◌, ◌*◌, ◌≤◌, ◌<◌, ◌≡◌, ◌≢◌, ◌⊎◌, refl, sym, ◌∙◌, inl, inr, true, false, ◌==◌,
  if◌then◌else◌, ltb, arith, Bool-cases, ==_iff, ne-==_iff, append-nil,
}
use comp_arch_project.Base.Sums.{total_of-same, total_of_mono, total_of-strict, sum, sum-zero}
use comp_arch_project.Program.Running.{Moves, some-or-none}
use comp_arch_project.Buffer.{InRange, Market, finished, items_of}
use comp_arch_project.Buffer.Counts.{putting, taking, has_put, has_taken, made, used}
use comp_arch_project.Buffer.Totals.{to_put, to_take, put_total, take_total}
use comp_arch_project.Buffer.Keeping.{IsStocked, turn}
use comp_arch_project.Buffer.Safety.{turn-Keeps}
use comp_arch_project.Buffer.Stopped.{
  moves_now, moves_now-Moves, Stopped-outside, Stopped-Idle, Idle, turn-Stopped,
}

-- All threads have returned, every item has been produced and consumed, and printed in order.
pub record IsOver (np nc ni : ℕ) (m : Market) : Type 0 where
  pub all : (t : ℕ) → t < np + nc → m.phase t ≡ finished
  pub all_produced : m.buffer.items_produced ≡ np * ni
  pub all_consumed : m.buffer.items_consumed ≡ np * ni
  pub same_items : m.buffer.printed_in ≡ m.buffer.printed_out

module _ {np nc ni : ℕ} {m : Market} (some : 0 < nc) (stocked : IsStocked np nc ni m)
    (still : (t : ℕ) → t < np + nc → moves_now (turn np nc ni t m) ≡ false) where
  lock_free : m.buf_lock.locked ≡ false
  lock_free = elim (Bool-cases m.buf_lock.locked) [
    | inr free ↦ free
    | inl held ↦
        let (t, lt, inside) = stocked.guarded.owned held in
        let out =
          Stopped-outside (m.phase t) (if ltb t np then m.empty else m.full) m.buf_lock.locked
            (turn-Stopped stocked t lt (still t lt)) in
        absurd (cc (inside, out))
  ]

  idle :
      (t : ℕ)
      → t < np + nc
      → Idle (m.phase t) (if ltb t np then m.empty else m.full) (items_of np nc ni t)
  idle t lt =
      Stopped-Idle (m.phase t) (if ltb t np then m.empty else m.full) (items_of np nc ni t)
        (rw lock_free at (turn-Stopped stocked t lt (still t lt))) (stocked.counts.fit t lt)

  abbrev total : ℕ
  total = np * ni

  puts_under : sum (np + nc) (made np nc ni) m.phase ≤ total
  unfolding sum
  puts_under = rw (sym (put_total np nc ni)) (
      total_of_mono (np + nc) (λ t. made np nc ni t (m.phase t)) (to_put np nc ni)
        (λ t lt. ground (arith, (idle t lt).short)))

  takes_under : sum (np + nc) (used np nc ni) m.phase ≤ total
  unfolding sum
  takes_under = rw (sym (take_total np nc ni some)) (
      total_of_mono (np + nc) (λ t. used np nc ni t (m.phase t)) (to_take np nc ni)
        (λ t lt. ground (arith, (idle t lt).short)))

  -- The counts with nothing under way.
  fulls_now : m.full + m.buffer.items_consumed ≡ m.buffer.items_produced
  fulls_now = omega (
    arith,
    stocked.counts.fulls,
    sum-zero (np + nc) (taking np) m.phase (λ t lt. ground (arith, (idle t lt).nothing_before)),
    sum-zero (np + nc) (has_put np) m.phase (λ t lt. ground (arith, (idle t lt).nothing_behind)),
  )

  empties_now : m.empty + m.buffer.items_produced ≡ m.buffer.items_consumed + 8
  empties_now = omega (
    arith,
    stocked.counts.empties,
    sum-zero (np + nc) (putting np) m.phase (λ t lt. ground (arith, (idle t lt).nothing_before)),
    sum-zero (np + nc) (has_taken np) m.phase (λ t lt. ground (arith, (idle t lt).nothing_behind)),
  )

  producers_over : m.empty ≢ 0 → (t : ℕ) → t < np + nc → ltb t np ≡ true → m.phase t ≡ finished
  producers_over more t lt role = elim (idle t lt).over [
    | inl over ↦ over
    | inr (none, _) ↦ absurd (more (rw role at none))
  ]

  consumers_over : m.full ≢ 0 → (t : ℕ) → t < np + nc → ltb t np ≡ false → m.phase t ≡ finished
  consumers_over more t lt role = elim (idle t lt).over [
    | inl over ↦ over
    | inr (none, _) ↦ absurd (more (rw role at none))
  ]

  all_put : m.empty ≢ 0 → m.buffer.items_produced ≡ total
  unfolding sum
  all_put more =
      let same = λ (t : ℕ) (lt : t < np + nc).
        elim (Bool-cases (ltb t np)) as (λ _. made np nc ni t (m.phase t) ≡ to_put np nc ni t) [
          | inl role ↦ rw (role, producers_over more t lt role) refl
          | inr role ↦ rw role refl
        ] in
      sym stocked.counts.makes
      ∙ total_of-same (np + nc) (λ t. made np nc ni t (m.phase t)) (to_put np nc ni) same
      ∙ put_total np nc ni

  all_taken : m.full ≢ 0 → m.buffer.items_consumed ≡ total
  unfolding sum
  all_taken more =
      let same = λ (t : ℕ) (lt : t < np + nc).
        elim (Bool-cases (ltb t np)) as (λ _. used np nc ni t (m.phase t) ≡ to_take np nc ni t) [
          | inl role ↦ rw role refl
          | inr role ↦ rw (role, consumers_over more t lt role) refl
        ] in
      sym stocked.counts.uses
      ∙ total_of-same (np + nc) (λ t. used np nc ni t (m.phase t)) (to_take np nc ni) same
      ∙ take_total np nc ni some

  -- The buffer is not full: else every consumer would have returned, with fewer items.
  free_cells : m.empty ≢ 0
  free_cells none =
      let more : m.full ≢ 0 = λ e. omega (arith, e, fulls_now, empties_now, none) in
      omega (arith, all_taken more, fulls_now, empties_now, none, puts_under, stocked.counts.makes)

  -- With all items consumed no consumer has rounds to come.
  last_consumers :
      m.buffer.items_consumed ≡ total
      → (t : ℕ) → t < np + nc
      → ltb t np ≡ false
      → m.phase t ≡ finished
  unfolding sum
  last_consumers all t lt role = elim (idle t lt).over [
    | inl over ↦ over
    | inr (none, rest) ↦
        let less =
          total_of-strict (np + nc) t (λ j. used np nc ni j (m.phase j)) (to_take np nc ni) lt
            (rw role rest) (λ j ltj. ground (arith, (idle j ltj).short)) in
        absurd (omega (arith, less, take_total np nc ni some, stocked.counts.uses, all))
  ]

  consumed : m.buffer.items_consumed ≡ total
  consumed = elim (Bool-cases (m.full == 0)) [
    | inl e ↦ omega (arith, (==_iff m.full 0).0 e, fulls_now, all_put free_cells)
    | inr e ↦ all_taken ((ne-==_iff m.full 0).0 e)
  ]

  still-IsOver : IsOver np nc ni m
  still-IsOver =
      let none : m.buffer.items_produced - m.buffer.items_consumed ≡ 0 =
        omega (arith, consumed, all_put free_cells) in
      record {
        all = λ t lt. elim (Bool-cases (ltb t np)) [
          | inl role ↦ producers_over free_cells t lt role
          | inr role ↦ last_consumers consumed t lt role
        ];
        all_produced = all_put free_cells;
        all_consumed = consumed;
        same_items = stocked.ring.queue ∙ rw none (append-nil m.buffer.printed_out);
      }

pub next_or_IsOver :
    {np nc ni : ℕ} (range : InRange np nc ni) (m : Market)
    → IsStocked np nc ni m
    → IsOver np nc ni m ⊎ ((t : ℕ) × (t < np + nc) × Moves (turn np nc ni t m))
next_or_IsOver {np} {nc} {ni} range m stocked =
    elim (some-or-none (np + nc) (λ t. moves_now (turn np nc ni t m))) [
      | inl (t, lt, now) ↦ inr (
        t,
        lt,
        moves_now-Moves (InRange np nc ni) (IsStocked np nc ni) (turn np nc ni t m) range
            (turn-Keeps np nc ni m stocked t lt) now,
      )
      | inr still ↦ inl (still-IsOver range.some stocked still)
    ]
