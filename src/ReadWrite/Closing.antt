-- ===== src/ReadWrite/Closing.antt =====
-- The program of examples/readers_writers.c comes to its end.
use comp_arch_project.Base.{
  ℕ, ◌+◌, ◌-◌, ◌*◌, ◌≤◌, ◌<◌, ◌≡◌, ◌⊎◌, refl, subst, inl, inr, ◌==◌, ltb, arith, Bool-cases,
}
use comp_arch_project.Base.Sums.{sum, total_of-const}
use comp_arch_project.Program.{Outcome, moves, waits, fails, ends, traps, checked, tid_of}
use comp_arch_project.Program.Running.{
  Keeps, NoFault, checked-holds, Run, Run-bound, Moves, Finish, finish,
}
use comp_arch_project.ReadWrite.{
  InRange, locks_waiting, Phase, Room, Counters, tests, wants_in, checks, sleeps, wakes, enters,
  works, wants_out, signals, leaves, rests, finished, read, write, empty_room, locks_room,
  unlocks_room, reader_waits, writer_waits, first_of,
}
use comp_arch_project.ReadWrite.Tally.{RoundFits}
use comp_arch_project.ReadWrite.Invariant.{IsRoom}
use comp_arch_project.ReadWrite.Steps.{turn, turn-Keeps}
use comp_arch_project.ReadWrite.Safety.{IsOver, empty_room-IsRoom, next_or_IsOver, run-IsRoom}
use comp_arch_project.ReadWrite.Measure.{steps_left, one_round, all_left, update-less, wake-less}

-- What an outcome that moves brings.
abbrev Less : (n iters : ℕ) → Room → Outcome Room → Type 0
Less n iters s (moves s') = all_left n iters s'.phase < all_left n iters s.phase
Less n iters s waits = Unit
Less n iters s fails = Unit
Less n iters s ends = Unit
Less n iters s traps = Unit

module _ {n : ℕ} (iters : ℕ) (s : Room) (t : ℕ) (room : t < n) where
  locks_room-Less :
      (c : Counters) (p q : Phase)
      → s.phase t ≡ p
      → steps_left n iters q < steps_left n iters p
      → Less n iters s (locks_room t c q s)
  locks_room-Less c p q e less = elim (Bool-cases s.lock.locked) [
    | inl held ↦ rw held tt
    | inr free ↦ rw free (update-less n iters s.phase t p q room e less)
  ]

  -- A sum that is checked traps or moves on.
  checked-Less : (v : ℕ) (o : Outcome Room) → Less n iters s o → Less n iters s (checked v o)
  checked-Less v o less = checked-holds (Less n iters s) v o tt less

  locks_waiting-Less :
      (i : ℕ)
      → s.phase t ≡ wants_in i
      → steps_left n iters (checks i) < steps_left n iters (wants_in i)
      → Less n iters s (locks_waiting t i s)
  locks_waiting-Less i e less = elim (Bool-cases s.lock.locked) [
    | inl held ↦ rw held tt
    | inr free ↦ rw free (
        checked-Less (s.counters.waiting_writers + 1) _
          (update-less n iters s.phase t (wants_in i) (checks i) room e less))
  ]

  unlocks_room-Less :
      (p q : Phase)
      → s.phase t ≡ p
      → steps_left n iters q < steps_left n iters p
      → Less n iters s (unlocks_room t q s)
  unlocks_room-Less p q e less = elim (Bool-cases (s.lock.owner == tid_of t)) [
    | inl own ↦ rw own (update-less n iters s.phase t p q room e less)
    | inr other ↦ rw other tt
  ]

  read-Less : (p : Phase) → s.phase t ≡ p → RoundFits p iters → Less n iters s (read iters t p s)
  unfolding read
  read-Less (tests i) e fits = elim (Bool-cases (ltb i iters)) [
    | inl lt ↦ rw lt (update-less n iters s.phase t (tests i) (wants_in i) room e (omega arith))
    | inr ge ↦ rw ge (update-less n iters s.phase t (tests i) finished room e (omega arith))
  ]
  read-Less (wants_in i) e fits =
      locks_room-Less _ (wants_in i) (checks i) e (omega (arith, one_round n iters i fits))
  read-Less (checks i) e fits = elim (Bool-cases (reader_waits s.counters)) [
    | inl busy ↦ elim (Bool-cases (s.lock.owner == tid_of t)) [
      | inl own ↦
          rw (busy, own)
            (update-less n iters s.phase t (checks i) (sleeps i) room e
              (omega (arith, one_round n iters i fits)))
      | inr other ↦ rw (busy, other) tt
    ]
    | inr free ↦ rw free (
        checked-Less (s.counters.active_readers + 1) _ (
          update-less n iters s.phase t (checks i) (enters i) room e
            (omega (arith, one_round n iters i fits))))
  ]
  read-Less (sleeps i) e fits = tt
  read-Less (wakes i) e fits =
      locks_room-Less _ (wakes i) (checks i) e (omega (arith, one_round n iters i fits))
  read-Less (enters i) e fits =
      unlocks_room-Less (enters i) (works i) e (omega (arith, one_round n iters i fits))
  read-Less (works i) e fits =
      update-less n iters s.phase t (works i) (wants_out i) room e
        (omega (arith, one_round n iters i fits))
  read-Less (wants_out i) e fits =
      locks_room-Less _ (wants_out i) (signals i) e (omega (arith, one_round n iters i fits))
  read-Less (signals i) e fits = elim (Bool-cases (s.counters.active_readers == 0)) [
    | inl none ↦ rw none (wake-less n iters (first_of s.can_write) s.phase t i room e fits)
    | inr some ↦ rw some (
        update-less n iters s.phase t (signals i) (leaves i) room e
          (omega (arith, one_round n iters i fits)))
  ]
  read-Less (leaves i) e fits =
      unlocks_room-Less (leaves i) (rests i) e (omega (arith, one_round n iters i fits))
  read-Less (rests i) e fits =
      update-less n iters s.phase t (rests i) (tests (i + 1)) room e
        (omega (arith, one_round n iters i fits))
  read-Less finished e fits = tt

  write-Less : (p : Phase) → s.phase t ≡ p → RoundFits p iters → Less n iters s (write iters t p s)
  unfolding write
  write-Less (tests i) e fits = elim (Bool-cases (ltb i iters)) [
    | inl lt ↦ rw lt (update-less n iters s.phase t (tests i) (wants_in i) room e (omega arith))
    | inr ge ↦ rw ge (update-less n iters s.phase t (tests i) finished room e (omega arith))
  ]
  write-Less (wants_in i) e fits = locks_waiting-Less i e (omega (arith, one_round n iters i fits))
  write-Less (checks i) e fits = elim (Bool-cases (writer_waits s.counters)) [
    | inl busy ↦ elim (Bool-cases (s.lock.owner == tid_of t)) [
      | inl own ↦
          rw (busy, own)
            (update-less n iters s.phase t (checks i) (sleeps i) room e
              (omega (arith, one_round n iters i fits)))
      | inr other ↦ rw (busy, other) tt
    ]
    | inr free ↦ rw free (
        checked-Less (s.counters.active_writers + 1) _ (
          update-less n iters s.phase t (checks i) (enters i) room e
            (omega (arith, one_round n iters i fits))))
  ]
  write-Less (sleeps i) e fits = tt
  write-Less (wakes i) e fits =
      locks_room-Less _ (wakes i) (checks i) e (omega (arith, one_round n iters i fits))
  write-Less (enters i) e fits =
      unlocks_room-Less (enters i) (works i) e (omega (arith, one_round n iters i fits))
  write-Less (works i) e fits = checked-Less (s.counters.shared_data + 1) _ (
      update-less n iters s.phase t (works i) (wants_out i) room e
        (omega (arith, one_round n iters i fits)))
  write-Less (wants_out i) e fits =
      locks_room-Less _ (wants_out i) (signals i) e (omega (arith, one_round n iters i fits))
  write-Less (signals i) e fits = elim (Bool-cases (ltb 0 s.counters.waiting_writers)) [
    | inl due ↦ rw due (wake-less n iters (first_of s.can_write) s.phase t i room e fits)
    | inr none ↦ rw none (wake-less n iters s.can_read s.phase t i room e fits)
  ]
  write-Less (leaves i) e fits =
      unlocks_room-Less (leaves i) (rests i) e (omega (arith, one_round n iters i fits))
  write-Less (rests i) e fits =
      update-less n iters s.phase t (rests i) (tests (i + 1)) room e
        (omega (arith, one_round n iters i fits))
  write-Less finished e fits = tt

module _ (nw nr iters : ℕ) where
  turn-less :
      (s s' : Room)
      → IsRoom (nw + nr) nw iters s
      → (t : ℕ) → t < nw + nr
      → turn nw iters t s ≡ moves s'
      → all_left (nw + nr) iters s'.phase < all_left (nw + nr) iters s.phase
  turn-less s s' sane t room e =
      let fits = sane.tally.fit t room in
      let less : Less (nw + nr) iters s (turn nw iters t s) = elim (Bool-cases (ltb t nw)) [
        | inl role ↦ rw role (write-Less iters s t room (s.phase t) refl fits)
        | inr role ↦ rw role (read-Less iters s t room (s.phase t) refl fits)
      ] in
      subst (Less (nw + nr) iters s) e less

  keeps :
      (s : Room)
      → IsRoom (nw + nr) nw iters s
      → (t : ℕ) → t < nw + nr
      → Keeps (InRange (nw + nr) nw iters) (IsRoom (nw + nr) nw iters) (turn nw iters t s)
  keeps s sane t lt = turn-Keeps sane (omega arith) t lt

  left_first :
      all_left (nw + nr) iters empty_room.phase ≡ (nw + nr) * ((2 * (nw + nr) + 12) * iters + 1)
  unfolding sum
  left_first =
      let zero_rounds : iters - 0 ≡ iters = omega arith in
      rw zero_rounds (total_of-const (nw + nr) ((2 * (nw + nr) + 12) * iters + 1))

  -- Where the number of threads, and that of the rounds of all writers, fit an `int`: every run of
  -- the writers and readers from the start, in any order, has for each of the n threads at most 2 n
  -- + 12 steps per round and one more. After it all threads have returned and the shared data
  -- counts every round of every writer; or a thread can move, so that no wake-up is lost and there
  -- is no deadlock; and some further run leads to where all have returned in this way. No next step
  -- of a thread fails an assertion or overflows an `int`.
  pub room-closes :
      InRange (nw + nr) nw iters
      → {k : ℕ} {s : Room} → Run (nw + nr) (turn nw iters) empty_room k s
      → (k ≤ (nw + nr) * ((2 * (nw + nr) + 12) * iters + 1))
        × (IsOver nw nr iters s ⊎ ((t : ℕ) × (t < nw + nr) × Moves (turn nw iters t s)))
        × Finish (nw + nr) (turn nw iters) (IsOver nw nr iters) s
        × NoFault (nw + nr) (turn nw iters) s
  room-closes range {k} {s} run =
      let R = InRange (nw + nr) nw iters in
      let I = IsRoom (nw + nr) nw iters in
      let sane = run-IsRoom nw nr iters run in
      let left = λ (r : Room). all_left (nw + nr) iters r.phase in
      let bound = Run-bound R I keeps left turn-less (empty_room-IsRoom nw nr iters) run in
      (
        omega (arith, bound, left_first),
        next_or_IsOver nw nr iters range s sane,
        finish R I keeps left turn-less (IsOver nw nr iters) (next_or_IsOver nw nr iters range) s
            sane,
        (λ t lt. (
          λ e. subst (Keeps R I) e (keeps s sane t lt),
          λ e. subst (Keeps R I) e (keeps s sane t lt) range,
        )),
      )
