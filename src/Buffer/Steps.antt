-- ===== src/Buffer/Steps.antt =====
-- Every step of a producer and of a consumer of examples/producer_consumer.c.
use comp_arch_project.Base.{
  ℕ, ◌+◌, ◌-◌, ◌*◌, ◌≤◌, ◌<◌, ◌≡◌, refl, inl, inr, true, false, ◌==◌, ltb, arith, Bool-cases,
  ne-==_iff,
}
use comp_arch_project.Program.Running.{Keeps, checked-Keeps}
use comp_arch_project.Program.{moves}
use comp_arch_project.Buffer.Bounds.{produced-small, consumed-small, item-small}
use comp_arch_project.Base.Sums.{sum}
use comp_arch_project.Buffer.{
  InRange, driver_traps, goes, Market, Phase, tests, wants_permit, wants_lock, works, unlocks,
  posts, rests, finished, items_of, produce, consume, puts, gets,
}
use comp_arch_project.Buffer.Ring.{puts-IsRing, gets-IsRing}
use comp_arch_project.Buffer.Counts.{putting, taking}
use comp_arch_project.Buffer.Keeping.{
  turn, IsStocked, fits, under_way, goes-IsStocked, locks_buffer-Sound, unlocks_buffer-Sound,
}

module _ {np nc ni : ℕ} {m : Market} (stocked : IsStocked np nc ni m) (t : ℕ)
    (room : t < np + nc) where
  last :
      (i : ℕ) → m.phase t ≡ tests i → ltb i (items_of np nc ni t) ≡ false → i ≡ items_of np nc ni t
  last i e ge = ground (arith, ge, fits stocked t room (tests i) e)

  -- A producer that is about to write has a free cell, and a consumer that is about to read an
  -- item.
  pub room_left :
      (i : ℕ)
      → m.phase t ≡ works i
      → ltb t np ≡ true
      → m.buffer.items_produced < m.buffer.items_consumed + 8
  room_left i e role =
      let one : 1 ≤ sum (np + nc) (putting np) m.phase =
        rw role at (under_way stocked t room (works i) e (putting np)) in
      omega (arith, one, stocked.counts.empties)

  pub item_left :
      (i : ℕ)
      → m.phase t ≡ works i
      → ltb t np ≡ false
      → m.buffer.items_consumed < m.buffer.items_produced
  item_left i e role =
      let one : 1 ≤ sum (np + nc) (taking np) m.phase =
        rw role at (under_way stocked t room (works i) e (taking np)) in
      omega (arith, one, stocked.counts.fulls)

  produce-Sound :
      (p : Phase)
      → m.phase t ≡ p
      → ltb t np ≡ true
      → Keeps (InRange np nc ni) (IsStocked np nc ni) (produce (items_of np nc ni t) t p m)
  unfolding produce
  produce-Sound (tests i) e role = elim (Bool-cases (ltb i (items_of np nc ni t))) [
    | inl lt ↦ rw lt (
        checked-Keeps (IsStocked np nc ni) (t * 1000 + i) (moves (goes t (wants_permit i) m))
          (λ r. item-small r t i role (ground (arith, lt)))
          (goes-IsStocked stocked t room (tests i) e (wants_permit i) m.empty m.full m.buffer
            (rw role (omega arith)) (ground (arith, lt)) stocked.ring refl))
    | inr ge ↦ rw ge (
        goes-IsStocked stocked t room (tests i) e finished m.empty m.full m.buffer
          (rw role (omega (arith, last i e ge))) tt stocked.ring refl)
  ]
  produce-Sound (wants_permit i) e role = elim (Bool-cases (m.empty == 0)) [
    | inl none ↦ rw none tt
    | inr some ↦ rw some (
        goes-IsStocked stocked t room (wants_permit i) e (wants_lock i) (m.empty - 1) m.full
          m.buffer (rw role (omega (arith, (ne-==_iff m.empty 0).0 some)))
          (fits stocked t room (wants_permit i) e) stocked.ring refl)
  ]
  produce-Sound (wants_lock i) e role =
      locks_buffer-Sound stocked t room (wants_lock i) e (works i) (rw role (omega arith))
        (fits stocked t room (wants_lock i) e) refl
  produce-Sound (works i) e role =
      let b = puts (t * 1000 + i) m.buffer in
      let next =
        goes-IsStocked stocked t room (works i) e (unlocks i) m.empty m.full b
          (rw role (omega arith)) (fits stocked t room (works i) e)
          (puts-IsRing (t * 1000 + i) m.buffer stocked.ring (room_left i e role)) refl in
      checked-Keeps (IsStocked np nc ni) (m.buffer.items_produced + 1)
        (moves (goes t (unlocks i) (record m { buffer = b }))) (λ r. produced-small r next.counts)
        next
  produce-Sound (unlocks i) e role =
      unlocks_buffer-Sound stocked t room (unlocks i) e (posts i) (rw role (omega arith))
        (fits stocked t room (unlocks i) e) refl refl
  produce-Sound (posts i) e role =
      goes-IsStocked stocked t room (posts i) e (rests i) m.empty (m.full + 1) m.buffer
        (rw role (omega arith)) (fits stocked t room (posts i) e) stocked.ring refl
  produce-Sound (rests i) e role =
      goes-IsStocked stocked t room (rests i) e (tests (i + 1)) m.empty m.full m.buffer
        (rw role (omega arith)) (omega (arith, fits stocked t room (rests i) e)) stocked.ring refl
  produce-Sound finished e role = tt

  consume-Sound :
      (p : Phase)
      → m.phase t ≡ p
      → ltb t np ≡ false
      → Keeps (InRange np nc ni) (IsStocked np nc ni) (consume (items_of np nc ni t) t p m)
  unfolding consume
  consume-Sound (tests i) e role = elim (Bool-cases (ltb i (items_of np nc ni t))) [
    | inl lt ↦ rw lt (
        goes-IsStocked stocked t room (tests i) e (wants_permit i) m.empty m.full m.buffer
          (rw role (omega arith)) (ground (arith, lt)) stocked.ring refl)
    | inr ge ↦ rw ge (
        goes-IsStocked stocked t room (tests i) e finished m.empty m.full m.buffer
          (rw role (omega (arith, last i e ge))) tt stocked.ring refl)
  ]
  consume-Sound (wants_permit i) e role = elim (Bool-cases (m.full == 0)) [
    | inl none ↦ rw none tt
    | inr some ↦ rw some (
        goes-IsStocked stocked t room (wants_permit i) e (wants_lock i) m.empty (m.full - 1)
          m.buffer (rw role (omega (arith, (ne-==_iff m.full 0).0 some)))
          (fits stocked t room (wants_permit i) e) stocked.ring refl)
  ]
  consume-Sound (wants_lock i) e role =
      locks_buffer-Sound stocked t room (wants_lock i) e (works i) (rw role (omega arith))
        (fits stocked t room (wants_lock i) e) refl
  consume-Sound (works i) e role =
      let b = gets m.buffer in
      let next =
        goes-IsStocked stocked t room (works i) e (unlocks i) m.empty m.full b
          (rw role (omega arith)) (fits stocked t room (works i) e)
          (gets-IsRing m.buffer stocked.ring (item_left i e role)) refl in
      checked-Keeps (IsStocked np nc ni) (m.buffer.items_consumed + 1)
        (moves (goes t (unlocks i) (record m { buffer = b }))) (λ r. consumed-small r next.counts)
        next
  consume-Sound (unlocks i) e role =
      unlocks_buffer-Sound stocked t room (unlocks i) e (posts i) (rw role (omega arith))
        (fits stocked t room (unlocks i) e) refl refl
  consume-Sound (posts i) e role =
      goes-IsStocked stocked t room (posts i) e (rests i) (m.empty + 1) m.full m.buffer
        (rw role (omega arith)) (fits stocked t room (posts i) e) stocked.ring refl
  consume-Sound (rests i) e role =
      goes-IsStocked stocked t room (rests i) e (tests (i + 1)) m.empty m.full m.buffer
        (rw role (omega arith)) (omega (arith, fits stocked t room (rests i) e)) stocked.ring refl
  consume-Sound finished e role = tt

  pub act-Sound : Keeps (InRange np nc ni) (IsStocked np nc ni) (turn np nc ni t m)
  act-Sound = elim (Bool-cases (driver_traps np nc ni)) [
    | inl bad ↦ rw bad (λ r. ground (arith, bad, r.some, r.total))
    | inr good ↦ elim (Bool-cases (ltb t np)) [
      | inl role ↦ rw (good, role) (produce-Sound (m.phase t) refl role)
      | inr role ↦ rw (good, role) (consume-Sound (m.phase t) refl role)
    ]
  ]
