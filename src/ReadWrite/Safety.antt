-- ===== src/ReadWrite/Safety.antt =====
-- examples/readers_writers.c over the runs of the program.
use comp_arch_project.Base.{
  ℕ, ◌+◌, ◌*◌, ◌≤◌, ◌<◌, ◌≡◌, ◌≢◌, ◌⊎◌, refl, sym, subst, ◌∙◌, inl, inr, true, false, ◌==◌, ltb,
  arith, Bool-cases, ==_iff, ne-==_iff,
}
use comp_arch_project.Base.Sums.{sum, sum-le, sum-two, sum-zero, total_of-same}
use comp_arch_project.Program.{fails}
use comp_arch_project.Program.Running.{Keeps, Run, Run-keeps, Moves, some-or-none}
use comp_arch_project.ReadWrite.{InRange, Phase, Room, tests, finished, empty_room}
use comp_arch_project.ReadWrite.Tally.{writer, reader, inside, pending, rounds}
use comp_arch_project.ReadWrite.Bounds.{total_all}
use comp_arch_project.ReadWrite.Invariant.{IsRoom, waking, roused}
use comp_arch_project.ReadWrite.Steps.{turn, turn-Keeps}
use comp_arch_project.ReadWrite.Stopped.{
  moves_now, moves_now-Moves, Still-outside, Still-Idle, Idle, turn-Still,
}

-- All threads have returned, and every writer has worked in all its rounds.
pub record IsOver (nw nr iters : ℕ) (s : Room) : Type 0 where
  pub all : (t : ℕ) → t < nw + nr → s.phase t ≡ finished
  pub written : s.counters.shared_data ≡ nw * iters

module _ (nw nr iters : ℕ) where
  pub empty_room-IsRoom : IsRoom (nw + nr) nw iters empty_room
  empty_room-IsRoom =
      let zero_sum = λ (weight : ℕ → Phase → ℕ) (none : (t : ℕ) → weight t (tests 0) ≡ 0).
        sum-zero (nw + nr) weight empty_room.phase (λ t lt. none t) in
      record {
        tally = record {
          readers_in = zero_sum (λ t p. reader nw t (inside p)) (λ t. ground arith);
          writers_in = zero_sum (λ t p. writer nw t (inside p)) (λ t. ground arith);
          writers_due = zero_sum (λ t p. writer nw t (pending p)) (λ t. ground arith);
          written = zero_sum (λ t p. writer nw t (rounds iters p)) (λ t. ground arith);
          fit = λ t lt. omega arith;
          apart = inl refl;
        };
        guarded = record { mine = λ t lt h. absurd (cc h); owned = λ h. absurd (cc h) };
        readers = record { distinct = tt; listed = λ t. ground arith };
        writers = record { distinct = tt; listed = λ t. ground arith };
        will_write = λ t h. ground (arith, h);
        will_read = λ t h. ground (arith, h);
      }

  module _ {k : ℕ} {s : Room} (run : Run (nw + nr) (turn nw iters) empty_room k s) where
    pub run-IsRoom : IsRoom (nw + nr) nw iters s
    run-IsRoom =
        Run-keeps (InRange (nw + nr) nw iters) (IsRoom (nw + nr) nw iters)
          (λ r sane t lt. turn-Keeps sane (omega arith) t lt) empty_room-IsRoom run

    never_fails : (t : ℕ) → t < nw + nr → turn nw iters t s ≢ fails
    never_fails t lt e =
        subst (Keeps (InRange (nw + nr) nw iters) (IsRoom (nw + nr) nw iters)) e
          (turn-Keeps run-IsRoom (omega arith) t lt)

    -- After every run of the writers and readers from the start: where a writer is in the section,
    -- no other writer or reader is; the counters say one writer and no reader, and the writer's
    -- next step fails no assertion.
    pub writer_alone :
        (t j : ℕ)
        → t < nw
        → j < nw + nr
        → inside (s.phase t) ≡ 1
        → inside (s.phase j) ≡ 1
        → (t ≡ j)
          × (s.counters.active_writers ≡ 1)
          × (s.counters.active_readers ≡ 0)
          × (turn nw iters t s ≢ fails)
    writer_alone t j lt lj ht hj =
        let sane = run-IsRoom in
        let n = nw + nr in
        let w = λ (k : ℕ) (p : Phase). writer nw k (inside p) in
        let r = λ (k : ℕ) (p : Phase). reader nw k (inside p) in
        let role : ltb t nw ≡ true = ground (arith, lt) in
        let here : w t (s.phase t) ≡ 1 = rw role ht in
        let some : 1 ≤ s.counters.active_writers =
          omega (arith, here, sum-le n w s.phase t (omega arith), sane.tally.writers_in) in
        let one : s.counters.active_writers ≡ 1 = ground (arith, some, sane.tally.apart) in
        let none : s.counters.active_readers ≡ 0 = ground (arith, some, sane.tally.apart) in
        let same : t ≡ j = elim (Bool-cases (t == j)) [
          | inl e ↦ (==_iff t j).0 e
          | inr e ↦
              let two = sum-two n w s.phase t j (omega arith) lj ((ne-==_iff t j).0 e) in
              let there = sum-le n r s.phase j lj in
              absurd (elim (Bool-cases (ltb j nw)) [
                | inl writes ↦
                    let also : w j (s.phase j) ≡ 1 = rw writes hj in
                    omega (arith, two, here, also, one, sane.tally.writers_in)
                | inr reads ↦
                    let also : r j (s.phase j) ≡ 1 = rw reads hj in
                    omega (arith, there, also, none, sane.tally.readers_in)
              ])
        ] in
        (same, one, none, never_fails t (omega arith))

  module _ {s : Room} (sane : IsRoom (nw + nr) nw iters s)
      (still : (t : ℕ) → t < nw + nr → moves_now (turn nw iters t s) ≡ false) where
    lock_free : s.lock.locked ≡ false
    lock_free = elim (Bool-cases s.lock.locked) [
      | inr free ↦ free
      | inl held ↦
          let (t, lt, has) = sane.guarded.owned held in
          let out = Still-outside (s.phase t) s.lock.locked (turn-Still sane t lt (still t lt)) in
          absurd (cc (has, out))
    ]

    idle : (t : ℕ) → t < nw + nr → Idle (s.phase t)
    idle t lt = Still-Idle (s.phase t) (rw lock_free at (turn-Still sane t lt (still t lt)))

    no_writer_asleep : (t : ℕ) → t < nw + nr → ltb t nw ≡ true → s.phase t ≡ finished
    no_writer_asleep t lt role = elim (idle t lt).over [
      | inr over ↦ over
      | inl sleeping ↦
          let n = nw + nr in
          let more = sane.will_write t (rw (role, sleeping) refl) in
          absurd (
            omega (
              arith,
              more,
              sum-zero n (λ k p. writer nw k (inside p)) s.phase
                  (λ k h. ground (arith, (idle k h).not_inside)),
              sum-zero n (λ k p. reader nw k (inside p)) s.phase
                  (λ k h. ground (arith, (idle k h).not_inside)),
              sum-zero n (λ k p. waking p) s.phase (λ k h. (idle k h).not_waking),
              sum-zero n (λ k p. writer nw k (roused p)) s.phase
                  (λ k h. ground (arith, (idle k h).not_roused)),
              sane.tally.writers_in,
              sane.tally.readers_in,
            ))
    ]

    -- A weight of the writers that is 0 at the end.
    writers_zero :
        (f : Phase → ℕ) → f finished ≡ 0 → sum (nw + nr) (λ k p. writer nw k (f p)) s.phase ≡ 0
    writers_zero f zero_end =
        sum-zero (nw + nr) (λ k p. writer nw k (f p)) s.phase
          λ k h. elim (Bool-cases (ltb k nw)) [
            | inl role ↦ rw (role, no_writer_asleep k h role) zero_end
            | inr role ↦ rw role refl
          ]

    all_finished : (t : ℕ) → t < nw + nr → s.phase t ≡ finished
    all_finished t lt = elim (Bool-cases (ltb t nw)) [
      | inl role ↦ no_writer_asleep t lt role
      | inr role ↦ elim (idle t lt).over [
        | inr over ↦ over
        | inl sleeping ↦
            let more = sane.will_read t (rw (role, sleeping) refl) in
            absurd (
              omega (
                arith,
                more,
                writers_zero inside refl,
                writers_zero pending refl,
                writers_zero waking refl,
                sane.tally.writers_in,
                sane.tally.writers_due,
              ))
      ]
    ]

    all_written : s.counters.shared_data ≡ nw * iters
    unfolding sum
    all_written =
        sym sane.tally.written
        ∙ total_of-same (nw + nr) (λ t. writer nw t (rounds iters (s.phase t)))
            (λ t. writer nw t iters) (λ t lt. rw (all_finished t lt) refl)
        ∙ total_all nw iters nr

  pub next_or_IsOver :
      InRange (nw + nr) nw iters
      → (s : Room) → IsRoom (nw + nr) nw iters s
      → IsOver nw nr iters s ⊎ ((t : ℕ) × (t < nw + nr) × Moves (turn nw iters t s))
  next_or_IsOver range s sane = elim (some-or-none (nw + nr) (λ t. moves_now (turn nw iters t s))) [
    | inl (t, lt, now) ↦ inr (
      t,
      lt,
      moves_now-Moves (InRange (nw + nr) nw iters) (IsRoom (nw + nr) nw iters) (turn nw iters t s)
          range (turn-Keeps sane (omega arith) t lt) now,
    )
    | inr still ↦ inl (record { all = all_finished sane still; written = all_written sane still })
  ]
