-- ===== src/Buffer/Closing.antt =====
-- The program of examples/producer_consumer.c comes to its end.
use comp_arch_project.Base.{
  ℕ, zero, suc, ◌+◌, ◌-◌, ◌*◌, ◌≤◌, ◌<◌, ◌≡◌, ◌≢◌, ◌⊎◌, refl, sym, ap, subst, ◌∙◌, inl, inr, Bool,
  true, false, ◌==◌, if◌then◌else◌, ltb, arith, Bool-cases, update, update_same, update_other,
}
use comp_arch_project.Base.Sums.{total_of, total_of-change}
use comp_arch_project.Program.{Outcome, moves, waits, fails, ends, traps, tid_of}
use comp_arch_project.Program.Running.{
  checked-holds, Keeps, Run, Run-bound, Moves, Finish, finish, NoFault,
}
use comp_arch_project.Buffer.{
  InRange, driver_traps, goes, puts, gets, Market, Phase, tests, wants_permit, wants_lock, works,
  unlocks, posts, rests, finished, items_of, produce, consume, opened, takes_empty, takes_full,
  locks_buffer, unlocks_buffer,
}
use comp_arch_project.Buffer.Counts.{RoundFits}
use comp_arch_project.Buffer.Totals.{to_put, to_take, put_total, take_total}
use comp_arch_project.Buffer.Keeping.{IsStocked, turn}
use comp_arch_project.Buffer.Safety.{turn-Keeps, opened-IsStocked, opened-Run-IsStocked}
use comp_arch_project.Buffer.Quiet.{IsOver, next_or_IsOver}

-- The steps that a thread of `count` rounds has left.
abbrev steps_left : (count : ℕ) → Phase → ℕ
steps_left count (tests i) = 7 * (count - i) + 1
steps_left count (wants_permit i) = 7 * (count - i)
steps_left count (wants_lock i) = 7 * (count - i) - 1
steps_left count (works i) = 7 * (count - i) - 2
steps_left count (unlocks i) = 7 * (count - i) - 3
steps_left count (posts i) = 7 * (count - i) - 4
steps_left count (rests i) = 7 * (count - i) - 5
steps_left count finished = 0

-- The phase that a step ends in, if it moves.
abbrev next_phase : (count : ℕ) → Phase → Phase
next_phase count (tests i) = if ltb i count then wants_permit i else finished
next_phase count (wants_permit i) = wants_lock i
next_phase count (wants_lock i) = works i
next_phase count (works i) = unlocks i
next_phase count (unlocks i) = posts i
next_phase count (posts i) = rests i
next_phase count (rests i) = tests (i + 1)
next_phase count finished = finished

next_phase-less :
    (count : ℕ) (p : Phase)
    → p ≢ finished
    → RoundFits p count
    → steps_left count (next_phase count p) < steps_left count p
next_phase-less count (tests i) going fits = elim (Bool-cases (ltb i count)) [
  | inl lt ↦ rw lt (omega arith)
  | inr ge ↦ rw ge (omega arith)
]
next_phase-less count (wants_permit i) going fits = omega (arith, fits)
next_phase-less count (wants_lock i) going fits = omega (arith, fits)
next_phase-less count (works i) going fits = omega (arith, fits)
next_phase-less count (unlocks i) going fits = omega (arith, fits)
next_phase-less count (posts i) going fits = omega (arith, fits)
next_phase-less count (rests i) going fits = omega (arith, fits)
next_phase-less count finished going fits = absurd (going refl)

abbrev is_finished : Phase → Bool
is_finished finished = true
is_finished (tests i) = false
is_finished (wants_permit i) = false
is_finished (wants_lock i) = false
is_finished (works i) = false
is_finished (unlocks i) = false
is_finished (posts i) = false
is_finished (rests i) = false

-- A step that moves goes to the next phase, and is not the last.
abbrev Goes : (t count : ℕ) → Phase → Market → Outcome Market → Type 0
Goes t count p m (moves m') =
    (m'.phase ≡ update m.phase t (next_phase count p)) × (is_finished p ≡ false)
Goes t count p m waits = Unit
Goes t count p m fails = Unit
Goes t count p m ends = Unit
Goes t count p m traps = Unit

module _ (t count : ℕ) (m : Market) where
  takes_empty-Goes : (i : ℕ) → Goes t count (wants_permit i) m (takes_empty t (wants_lock i) m)
  takes_empty-Goes i = elim (Bool-cases (m.empty == 0)) [
    | inl e ↦ rw e tt
    | inr e ↦ rw e (refl, refl)
  ]

  takes_full-Goes : (i : ℕ) → Goes t count (wants_permit i) m (takes_full t (wants_lock i) m)
  takes_full-Goes i = elim (Bool-cases (m.full == 0)) [
    | inl e ↦ rw e tt
    | inr e ↦ rw e (refl, refl)
  ]

  locks_buffer-Goes : (i : ℕ) → Goes t count (wants_lock i) m (locks_buffer t (works i) m)
  locks_buffer-Goes i = elim (Bool-cases (m.buf_lock).locked) [
    | inl e ↦ rw e tt
    | inr e ↦ rw e (refl, refl)
  ]

  unlocks_buffer-Goes : (i : ℕ) → Goes t count (unlocks i) m (unlocks_buffer t (posts i) m)
  unlocks_buffer-Goes i = elim (Bool-cases ((m.buf_lock).owner == tid_of t)) [
    | inl e ↦ rw e (refl, refl)
    | inr e ↦ rw e tt
  ]

  produce-Goes : (p : Phase) → Goes t count p m (produce count t p m)
  unfolding produce
  produce-Goes (tests i) = elim (Bool-cases (ltb i count)) [
    | inl lt ↦ rw lt (
        checked-holds (Goes t count (tests i) m) (t * 1000 + i) (moves (goes t (wants_permit i) m))
          tt (rw lt refl, refl))
    | inr ge ↦ rw ge (rw ge refl, refl)
  ]
  produce-Goes (wants_permit i) = takes_empty-Goes i
  produce-Goes (wants_lock i) = locks_buffer-Goes i
  produce-Goes (works i) =
      checked-holds (Goes t count (works i) m) (m.buffer.items_produced + 1)
        (moves (goes t (unlocks i) (record m { buffer = puts (t * 1000 + i) m.buffer }))) tt
        (refl, refl)
  produce-Goes (unlocks i) = unlocks_buffer-Goes i
  produce-Goes (posts i) = (refl, refl)
  produce-Goes (rests i) = (refl, refl)
  produce-Goes finished = tt

  consume-Goes : (p : Phase) → Goes t count p m (consume count t p m)
  unfolding consume
  consume-Goes (tests i) = (refl, refl)
  consume-Goes (wants_permit i) = takes_full-Goes i
  consume-Goes (wants_lock i) = locks_buffer-Goes i
  consume-Goes (works i) =
      checked-holds (Goes t count (works i) m) (m.buffer.items_consumed + 1)
        (moves (goes t (unlocks i) (record m { buffer = gets m.buffer }))) tt (refl, refl)
  consume-Goes (unlocks i) = unlocks_buffer-Goes i
  consume-Goes (posts i) = (refl, refl)
  consume-Goes (rests i) = (refl, refl)
  consume-Goes finished = tt

module _ (np nc ni : ℕ) where
  turn-Goes : (m : Market) (t : ℕ) → Goes t (items_of np nc ni t) (m.phase t) m (turn np nc ni t m)
  turn-Goes m t = elim (Bool-cases (driver_traps np nc ni)) [
    | inl bad ↦ rw bad tt
    | inr good ↦ elim (Bool-cases (ltb t np)) [
      | inl role ↦ rw (good, role) (produce-Goes t (items_of np nc ni t) m (m.phase t))
      | inr role ↦ rw (good, role) (consume-Goes t (items_of np nc ni t) m (m.phase t))
    ]
  ]

  abbrev left_of : Market → ℕ → ℕ
  left_of m t = steps_left (items_of np nc ni t) (m.phase t)

  abbrev all_left : Market → ℕ
  all_left m = total_of (np + nc) (left_of m)

  turn-less :
      (m m' : Market)
      → IsStocked np nc ni m
      → (t : ℕ) → t < np + nc
      → turn np nc ni t m ≡ moves m'
      → all_left m' < all_left m
  turn-less m m' stocked t lt e =
      let count = items_of np nc ni t in
      let (to, going) = subst (Goes t count (m.phase t) m) e (turn-Goes m t) in
      let step =
        next_phase-less count (m.phase t) (λ over. cc (going, ap is_finished over))
          (stocked.counts.fit t lt) in
      let here : left_of m' t < left_of m t =
        rw (to, update_same m.phase t (next_phase count (m.phase t))) step in
      let same = λ (j : ℕ) (ne : j ≢ t). ap (steps_left (items_of np nc ni j)) (
        sym (
          ap (λ (f : ℕ → Phase). f j) to
          ∙ update_other m.phase t (next_phase count (m.phase t)) j ne)) in
      omega (arith, total_of-change (np + nc) t (left_of m) (left_of m') lt same, here)

  left_first :
      (n : ℕ)
      → total_of n (left_of opened)
        ≡ 7 * (total_of n (to_put np nc ni) + total_of n (to_take np nc ni)) + n
  left_first zero = omega arith
  left_first (suc n) =
      let here : to_put np nc ni n + to_take np nc ni n ≡ items_of np nc ni n = ground arith in
      omega (arith, left_first n, here)

  -- Every thread has a last test, and a round has seven steps, of its producer or its consumer.
  all_left-opened : 0 < nc → all_left opened ≡ np + nc + 14 * (np * ni)
  all_left-opened some =
      omega (arith, left_first (np + nc), put_total np nc ni, take_total np nc ni some)

  -- With one consumer at least, and so many producers and items that `int total` and the numbers of
  -- the items do not overflow: every run of the producers and consumers from the start, in any
  -- order, has at most one step per thread and 14 per item. After it all threads have returned, all
  -- items have been produced and consumed, and the consumed items are the produced ones in their
  -- order; or a thread can move, so that there is no deadlock; and some further run leads to where
  -- all threads have returned in this way. No next step of a thread fails an assertion, overflows
  -- an `int` or divides by 0.
  pub market-closes :
      InRange np nc ni
      → {k : ℕ} {m : Market} → Run (np + nc) (turn np nc ni) opened k m
      → (k ≤ np + nc + 14 * (np * ni))
        × (IsOver np nc ni m ⊎ ((t : ℕ) × (t < np + nc) × Moves (turn np nc ni t m)))
        × Finish (np + nc) (turn np nc ni) (IsOver np nc ni) m
        × NoFault (np + nc) (turn np nc ni) m
  market-closes range {k} {m} run =
      let R = InRange np nc ni in
      let stocked = opened-Run-IsStocked np nc ni run in
      let bound =
        Run-bound R (IsStocked np nc ni) (turn-Keeps np nc ni) all_left turn-less
          (opened-IsStocked np nc ni) run in
      (
        omega (arith, bound, all_left-opened range.some),
        next_or_IsOver range m stocked,
        finish R (IsStocked np nc ni) (turn-Keeps np nc ni) all_left turn-less (IsOver np nc ni)
            (next_or_IsOver range) m stocked,
        λ t lt. (
          λ e. subst (Keeps R (IsStocked np nc ni)) e (turn-Keeps np nc ni m stocked t lt),
          λ e. subst (Keeps R (IsStocked np nc ni)) e (turn-Keeps np nc ni m stocked t lt) range,
        ),
      )
