-- ===== src/ReadWrite/Reading.antt =====
-- examples/readers_writers.c: every step of a reader.
use comp_arch_project.Base.{
  ℕ, ◌+◌, ◌-◌, ◌≤◌, ◌<◌, ◌≡◌, refl, sym, subst, inl, inr, false, ◌==◌, ltb, arith, Bool-cases,
  ne-==_iff,
}
use comp_arch_project.Base.Sums.{sum, sum-le}
use comp_arch_project.Program.Running.{Keeps, checked-Keeps}
use comp_arch_project.ReadWrite.{
  InRange, Phase, Counters, Room, tests, wants_in, checks, sleeps, wakes, enters, works, wants_out,
  signals, leaves, rests, finished, read, reader_waits,
}
use comp_arch_project.ReadWrite.Tally.{reader, inside}
use comp_arch_project.ReadWrite.Keeping.{
  fits, owns, goes-IsRoom, locks_room-Keeps, unlocks_room-Keeps,
}
use comp_arch_project.ReadWrite.Bounds.{readers-small}
use comp_arch_project.ReadWrite.Invariant.{IsRoom}
use comp_arch_project.ReadWrite.Sleeping.{reader-IsRoom}
use comp_arch_project.ReadWrite.Waking.{signal_writer-IsRoom, silent-IsRoom}

module _ {n nw iters : ℕ} {s : Room} (sane : IsRoom n nw iters s) (all : nw ≤ n) (t : ℕ)
    (room : t < n) where
  abbrev pub c : Counters
  c = s.counters

  pub counted :
      (p : Phase) → s.phase t ≡ p → (weight : ℕ → Phase → ℕ) → weight t p ≤ sum n weight s.phase
  counted p e weight =
      subst (λ (o : Phase). weight t o ≤ sum n weight s.phase) e (sum-le n weight s.phase t room)

  pub last : (i : ℕ) → s.phase t ≡ tests i → ltb i iters ≡ false → i ≡ iters
  last i e ge = ground (arith, ge, fits sane t room (tests i) e)

  pub read-Keeps :
      (p : Phase)
      → s.phase t ≡ p
      → ltb t nw ≡ false
      → Keeps (InRange n nw iters) (IsRoom n nw iters) (read iters t p s)
  unfolding read
  read-Keeps (tests i) e role = elim (Bool-cases (ltb i iters)) [
    | inl lt ↦ rw lt (
        goes-IsRoom sane t room (tests i) e (wants_in i) c refl refl refl (ground (arith, lt)) (
          rw role (
            (omega arith, omega arith, omega arith, omega arith, sane.tally.apart),
            omega arith,
            omega arith,
          )))
    | inr ge ↦ rw ge (
        goes-IsRoom sane t room (tests i) e finished c refl refl refl tt (
          rw role (
            (omega arith, omega arith, omega arith, omega (arith, last i e ge), sane.tally.apart),
            omega arith,
            omega arith,
          )))
  ]
  read-Keeps (wants_in i) e role =
      locks_room-Keeps sane t room (wants_in i) e (checks i) c refl refl refl
        (fits sane t room (wants_in i) e)
        (rw role (
          (omega arith, omega arith, omega arith, omega arith, sane.tally.apart),
          omega arith,
          omega arith,
        ))
  read-Keeps (checks i) e role = elim (Bool-cases (reader_waits c)) [
    | inl busy ↦
        rw (busy, owns sane t room (checks i) e refl) (reader-IsRoom sane t room i e role busy)
    | inr free ↦ rw free (
        let next =
          goes-IsRoom sane t room (checks i) e (enters i)
            (record c { active_readers = c.active_readers + 1 }) refl refl refl
            (fits sane t room (checks i) e)
            (rw role (
              (omega arith, omega arith, omega arith, omega arith, inl (ground (arith, free))),
              omega arith,
              omega arith,
            )) in
        checked-Keeps (IsRoom n nw iters) (c.active_readers + 1) _ (readers-small all next.tally)
          next)
  ]
  read-Keeps (sleeps i) e role = tt
  read-Keeps (wakes i) e role =
      locks_room-Keeps sane t room (wakes i) e (checks i) c refl refl refl
        (fits sane t room (wakes i) e)
        (rw role (
          (omega arith, omega arith, omega arith, omega arith, sane.tally.apart),
          omega arith,
          omega arith,
        ))
  read-Keeps (enters i) e role =
      unlocks_room-Keeps sane t room (enters i) e (works i) refl refl refl refl
        (fits sane t room (enters i) e)
        (rw role (
          (omega arith, omega arith, omega arith, omega arith, sane.tally.apart),
          omega arith,
          omega arith,
        ))
  read-Keeps (works i) e role =
      goes-IsRoom sane t room (works i) e (wants_out i) c refl refl refl
        (fits sane t room (works i) e)
        (rw role (
          (omega arith, omega arith, omega arith, omega arith, sane.tally.apart),
          omega arith,
          omega arith,
        ))
  read-Keeps (wants_out i) e role =
      let one : 1 ≤ c.active_readers =
        rw (sym sane.tally.readers_in)
          (rw role at (counted (wants_out i) e (λ k p. reader nw k (inside p)))) in
      locks_room-Keeps sane t room (wants_out i) e (signals i)
        (record c { active_readers = c.active_readers - 1 }) refl refl refl
        (fits sane t room (wants_out i) e)
        (rw role (
          (
            omega (arith, one),
            omega arith,
            omega arith,
            omega arith,
            ground (arith, sane.tally.apart),
          ),
          omega (arith, one),
          omega arith,
        ))
  read-Keeps (signals i) e role = elim (Bool-cases (c.active_readers == 0)) [
    | inl last_one ↦ rw last_one (signal_writer-IsRoom sane t room i e all (inr role))
    | inr more ↦
        rw more (
          silent-IsRoom sane t room i e role (omega (arith, (ne-==_iff c.active_readers 0).0 more)))
  ]
  read-Keeps (leaves i) e role =
      unlocks_room-Keeps sane t room (leaves i) e (rests i) refl refl refl refl
        (fits sane t room (leaves i) e)
        (rw role (
          (omega arith, omega arith, omega arith, omega arith, sane.tally.apart),
          omega arith,
          omega arith,
        ))
  read-Keeps (rests i) e role =
      goes-IsRoom sane t room (rests i) e (tests (i + 1)) c refl refl refl
        (omega (arith, fits sane t room (rests i) e))
        (rw role (
          (omega arith, omega arith, omega arith, omega arith, sane.tally.apart),
          omega arith,
          omega arith,
        ))
  read-Keeps finished e role = tt
