-- ===== src/Buffer/Stopped.antt =====
-- examples/producer_consumer.c: where no thread can move, all have returned.
use comp_arch_project.Base.{
  ◌*◌, ℕ, ◌+◌, ◌≤◌, ◌<◌, ◌≡◌, ◌⊎◌, refl, ap, inl, inr, Bool, true, false, ◌==◌, if◌then◌else◌, ltb,
  arith, Bool-cases,
}
use comp_arch_project.Program.{Outcome, moves, waits, fails, ends, traps, checked, tid_of}
use comp_arch_project.Program.Running.{Moves, Keeps, checked-holds}
use comp_arch_project.Program.Guarded.{own-lock}
use comp_arch_project.Buffer.{
  driver_traps, goes, puts, gets, Market, Phase, tests, wants_permit, wants_lock, works, unlocks,
  posts, rests, finished, items_of, produce, consume,
}
use comp_arch_project.Buffer.Counts.{RoundFits, before, behind, rounds}
use comp_arch_project.Buffer.Keeping.{IsStocked, turn, in_section}

-- The thread goes on, or traps.
abbrev pub moves_now : Outcome Market → Bool
moves_now (moves m) = true
moves_now waits = false
moves_now fails = false
moves_now ends = false
moves_now traps = true

pub moves_now-Moves :
    (R : Type 0) (I : Market → Type 0) (o : Outcome Market)
    → R
    → Keeps R I o
    → moves_now o ≡ true
    → Moves o
moves_now-Moves R I (moves m) r safe e = (m, refl)
moves_now-Moves R I waits r safe e = absurd (cc e)
moves_now-Moves R I fails r safe e = absurd (cc e)
moves_now-Moves R I ends r safe e = absurd (cc e)
moves_now-Moves R I traps r safe e = absurd (safe r)

checked-moves_now : (v : ℕ) (m : Market) → moves_now (checked v (moves m)) ≡ true
checked-moves_now v m = checked-holds (λ o. moves_now o ≡ true) v (moves m) refl refl

-- The phases of a thread that does not move.
abbrev pub Stopped : Phase → (permits : ℕ) → (locked : Bool) → Type 0
Stopped (wants_permit i) permits locked = permits ≡ 0
Stopped (wants_lock i) permits locked = locked ≡ true
Stopped finished permits locked = Unit
Stopped (tests i) permits locked = ⊥
Stopped (works i) permits locked = ⊥
Stopped (unlocks i) permits locked = ⊥
Stopped (posts i) permits locked = ⊥
Stopped (rests i) permits locked = ⊥

pub Stopped-outside :
    (p : Phase) (permits : ℕ) (locked : Bool) → Stopped p permits locked → in_section p ≡ false
Stopped-outside (wants_permit i) permits locked h = refl
Stopped-outside (wants_lock i) permits locked h = refl
Stopped-outside finished permits locked h = refl
Stopped-outside (tests i) permits locked h = absurd h
Stopped-outside (works i) permits locked h = absurd h
Stopped-outside (unlocks i) permits locked h = absurd h
Stopped-outside (posts i) permits locked h = absurd h
Stopped-outside (rests i) permits locked h = absurd h

-- With the lock free it has no permit, and rounds to come only if there is none.
pub record Idle (p : Phase) (permits count : ℕ) : Type 0 where
  pub nothing_before : before p ≡ 0
  pub nothing_behind : behind p ≡ 0
  pub short : rounds count p ≤ count
  pub over : (p ≡ finished) ⊎ ((permits ≡ 0) × (rounds count p < count))

pub Stopped-Idle :
    (p : Phase) (permits count : ℕ)
    → Stopped p permits false
    → RoundFits p count
    → Idle p permits count
Stopped-Idle finished permits count h fits = record {
  nothing_before = refl;
  nothing_behind = refl;
  short = omega arith;
  over = inl refl;
}
Stopped-Idle (wants_permit i) permits count h fits = record {
  nothing_before = refl;
  nothing_behind = refl;
  short = omega arith;
  over = inr (h, fits);
}
Stopped-Idle (wants_lock i) permits count h fits = absurd (cc h)
Stopped-Idle (tests i) permits count h fits = absurd h
Stopped-Idle (works i) permits count h fits = absurd h
Stopped-Idle (unlocks i) permits count h fits = absurd h
Stopped-Idle (posts i) permits count h fits = absurd h
Stopped-Idle (rests i) permits count h fits = absurd h

module _ {np nc ni : ℕ} {m : Market} (stocked : IsStocked np nc ni m) (t : ℕ)
    (room : t < np + nc) where
  own : (i : ℕ) → m.phase t ≡ unlocks i → (m.buf_lock.owner == tid_of t) ≡ true
  own i e = own-lock stocked.guarded t room (ap in_section e)

  produce-Stopped :
      (p : Phase)
      → m.phase t ≡ p
      → moves_now (produce (items_of np nc ni t) t p m) ≡ false
      → Stopped p m.empty m.buf_lock.locked
  unfolding produce
  produce-Stopped (tests i) e still =
      ground (arith, still, checked-moves_now (t * 1000 + i) (goes t (wants_permit i) m))
  produce-Stopped (wants_permit i) e still = ground (arith, still)
  produce-Stopped (wants_lock i) e still = ground (arith, still)
  produce-Stopped (works i) e still = cc (
    still,
    checked-moves_now (m.buffer.items_produced + 1)
        (goes t (unlocks i) (record m { buffer = puts (t * 1000 + i) m.buffer })),
  )
  produce-Stopped (unlocks i) e still = ground (arith, still, own i e)
  produce-Stopped (posts i) e still = cc still
  produce-Stopped (rests i) e still = cc still
  produce-Stopped finished e still = tt

  consume-Stopped :
      (p : Phase)
      → m.phase t ≡ p
      → moves_now (consume (items_of np nc ni t) t p m) ≡ false
      → Stopped p m.full m.buf_lock.locked
  unfolding consume
  consume-Stopped (tests i) e still = cc still
  consume-Stopped (wants_permit i) e still = ground (arith, still)
  consume-Stopped (wants_lock i) e still = ground (arith, still)
  consume-Stopped (works i) e still = cc (
    still,
    checked-moves_now (m.buffer.items_consumed + 1)
        (goes t (unlocks i) (record m { buffer = gets m.buffer })),
  )
  consume-Stopped (unlocks i) e still = ground (arith, still, own i e)
  consume-Stopped (posts i) e still = cc still
  consume-Stopped (rests i) e still = cc still
  consume-Stopped finished e still = tt

  pub turn-Stopped :
      moves_now (turn np nc ni t m) ≡ false
      → Stopped (m.phase t) (if ltb t np then m.empty else m.full) m.buf_lock.locked
  turn-Stopped still = elim (Bool-cases (driver_traps np nc ni)) [
    | inl bad ↦ absurd (cc (rw bad at still))
    | inr good ↦ elim (Bool-cases (ltb t np)) [
      | inl role ↦ rw role (produce-Stopped (m.phase t) refl (rw (good, role) at still))
      | inr role ↦ rw role (consume-Stopped (m.phase t) refl (rw (good, role) at still))
    ]
  ]
