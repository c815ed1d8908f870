-- ===== src/ReadWrite/Writing.antt =====
-- examples/readers_writers.c: every step of a writer.
use comp_arch_project.Base.{
  ℕ, ◌+◌, ◌-◌, ◌≤◌, ◌<◌, ◌≡◌, refl, sym, inl, inr, true, ltb, arith, Bool-cases,
}
use comp_arch_project.Program.Running.{Keeps, checked-Keeps}
use comp_arch_project.ReadWrite.{
  InRange, Phase, Counters, Room, tests, wants_in, checks, sleeps, wakes, enters, works, wants_out,
  signals, leaves, rests, finished, write, writer_waits,
}
use comp_arch_project.ReadWrite.Tally.{writer, pending, inside}
use comp_arch_project.ReadWrite.Keeping.{
  fits, owns, goes-IsRoom, locks_room-Keeps, unlocks_room-Keeps,
}
use comp_arch_project.ReadWrite.Bounds.{writers-small, waiting-small, shared-small}
use comp_arch_project.ReadWrite.Invariant.{IsRoom}
use comp_arch_project.ReadWrite.Sleeping.{writer-IsRoom}
use comp_arch_project.ReadWrite.Waking.{signal_writer-IsRoom, broadcast_readers-IsRoom}
use comp_arch_project.ReadWrite.Reading.{counted, last}

module _ {n nw iters : ℕ} {s : Room} (sane : IsRoom n nw iters s) (all : nw ≤ n) (t : ℕ)
    (room : t < n) where
  abbrev c : Counters
  c = s.counters

  pub write-Keeps :
      (p : Phase)
      → s.phase t ≡ p
      → ltb t nw ≡ true
      → Keeps (InRange n nw iters) (IsRoom n nw iters) (write iters t p s)
  unfolding write
  write-Keeps (tests i) e role = elim (Bool-cases (ltb i iters)) [
    | inl lt ↦ rw lt (
        goes-IsRoom sane t room (tests i) e (wants_in i) c refl refl refl (ground (arith, lt)) (
          rw role (
            (omega arith, omega arith, omega arith, omega arith, sane.tally.apart),
            omega arith,
            omega arith,
          )))
    | inr ge ↦ rw ge (
        goes-IsRoom sane t room (tests i) e finished c refl refl refl tt (
          rw role (
            (
              omega arith,
              omega arith,
              omega arith,
              omega (arith, last sane all t room i e ge),
              sane.tally.apart,
            ),
            omega arith,
            omega arith,
          )))
  ]
  write-Keeps (wants_in i) e role =
      let locking =
        locks_room-Keeps sane t room (wants_in i) e (checks i)
          (record c { waiting_writers = c.waiting_writers + 1 }) refl refl refl
          (fits sane t room (wants_in i) e)
          (rw role (
            (omega arith, omega arith, omega arith, omega arith, sane.tally.apart),
            omega arith,
            omega arith,
          )) in
      elim (Bool-cases s.lock.locked) [
        | inl held ↦ rw held tt
        | inr free ↦
            let next = rw free at locking in
            rw free (
              checked-Keeps (IsRoom n nw iters) (c.waiting_writers + 1) _
                (waiting-small all next.tally) next)
      ]
  write-Keeps (checks i) e role =
      let one : 1 ≤ c.waiting_writers =
        rw (sym sane.tally.writers_due)
          (rw role at (counted sane all t room (checks i) e (λ k p. writer nw k (pending p)))) in
      elim (Bool-cases (writer_waits c)) [
        | inl busy ↦
            rw (busy, owns sane t room (checks i) e refl) (writer-IsRoom sane t room i e role busy)
        | inr free ↦ rw free (
            let next =
              goes-IsRoom sane t room (checks i) e (enters i)
                (record c {
                  waiting_writers = c.waiting_writers - 1;
                  active_writers = c.active_writers + 1;
                })
                refl refl refl (fits sane t room (checks i) e)
                (rw role (
                  (
                    omega arith,
                    omega arith,
                    omega (arith, one),
                    omega arith,
                    inr (ground (arith, free)),
                  ),
                  omega (arith, one),
                  omega (arith, one),
                )) in
            checked-Keeps (IsRoom n nw iters) (c.active_writers + 1) _
              (writers-small all next.tally) next)
      ]
  write-Keeps (sleeps i) e role = tt
  write-Keeps (wakes i) e role =
      locks_room-Keeps sane t room (wakes i) e (checks i) c refl refl refl
        (fits sane t room (wakes i) e)
        (rw role (
          (omega arith, omega arith, omega arith, omega arith, sane.tally.apart),
          omega arith,
          omega arith,
        ))
  write-Keeps (enters i) e role =
      unlocks_room-Keeps sane t room (enters i) e (works i) refl refl refl refl
        (fits sane t room (enters i) e)
        (rw role (
          (omega arith, omega arith, omega arith, omega arith, sane.tally.apart),
          omega arith,
          omega arith,
        ))
  write-Keeps (works i) e role =
      let next =
        goes-IsRoom sane t room (works i) e (wants_out i)
          (record c { shared_data = c.shared_data + 1 }) refl refl refl
          (fits sane t room (works i) e)
          (rw role (
            (omega arith, omega arith, omega arith, omega arith, sane.tally.apart),
            omega arith,
            omega arith,
          )) in
      checked-Keeps (IsRoom n nw iters) (c.shared_data + 1) _ (shared-small all next.tally) next
  write-Keeps (wants_out i) e role =
      let one : 1 ≤ c.active_writers =
        rw (sym sane.tally.writers_in)
          (rw role at (counted sane all t room (wants_out i) e (λ k p. writer nw k (inside p)))) in
      locks_room-Keeps sane t room (wants_out i) e (signals i)
        (record c { active_writers = c.active_writers - 1 }) refl refl refl
        (fits sane t room (wants_out i) e)
        (rw role (
          (
            omega arith,
            omega (arith, one),
            omega arith,
            omega arith,
            inl (ground (arith, sane.tally.apart)),
          ),
          omega (arith, one),
          omega (arith, one),
        ))
  write-Keeps (signals i) e role = elim (Bool-cases (ltb 0 c.waiting_writers)) [
    | inl due ↦ rw due (signal_writer-IsRoom sane t room i e all (inl (ground (arith, due))))
    | inr none ↦ rw none (broadcast_readers-IsRoom sane t room i e all (ground (arith, none)))
  ]
  write-Keeps (leaves i) e role =
      unlocks_room-Keeps sane t room (leaves i) e (rests i) refl refl refl refl
        (fits sane t room (leaves i) e)
        (rw role (
          (omega arith, omega arith, omega arith, omega arith, sane.tally.apart),
          omega arith,
          omega arith,
        ))
  write-Keeps (rests i) e role =
      goes-IsRoom sane t room (rests i) e (tests (i + 1)) c refl refl refl
        (omega (arith, fits sane t room (rests i) e))
        (rw role (
          (omega arith, omega arith, omega arith, omega arith, sane.tally.apart),
          omega arith,
          omega arith,
        ))
  write-Keeps finished e role = tt
