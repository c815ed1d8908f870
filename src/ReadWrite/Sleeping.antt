-- ===== src/ReadWrite/Sleeping.antt =====
-- examples/readers_writers.c: a reader, and a writer, goes to sleep.
use comp_arch_project.Base.{
  ℕ, ◌<◌, ◌≡◌, ◌≢◌, refl, sym, ap, ◌∙◌, inl, inr, true, false, ◌&&◌, not, ◌==◌, ltb, arith, update,
  update_same, Bool-cases, ==_iff, ne-==_iff, [], ◌∷◌, ◌++◌, le_trans,
}
use comp_arch_project.Program.{free_mutex}
use comp_arch_project.ReadWrite.{Phase, Room, checks, sleeps, writer_waits, reader_waits}
use comp_arch_project.ReadWrite.Tally.{Tally-next, update-Goes}
use comp_arch_project.ReadWrite.Asleep.{IsQueue-same, IsQueue-push, asleep}
use comp_arch_project.ReadWrite.Keeping.{
  fits, test-there, still_for_readers, still_for_writers, gives,
}
use comp_arch_project.ReadWrite.Invariant.{IsRoom, reader_asleep, writer_asleep}

module _ {n nw iters : ℕ} {s : Room} (sane : IsRoom n nw iters s) (t : ℕ) (room : t < n) (i : ℕ)
    (e : s.phase t ≡ checks i) where
  abbrev after : ℕ → Phase
  after = update s.phase t (sleeps i)

  others : (j : ℕ) → j ≢ t → asleep (after j) ≡ asleep (s.phase j)
  others = test-there sane t room (checks i) e (sleeps i) asleep

  pub writer-IsRoom :
      ltb t nw ≡ true
      → writer_waits s.counters ≡ true
      → IsRoom n nw iters
          (record s { lock = free_mutex; can_write = s.can_write ++ t ∷ []; phase = after })
  writer-IsRoom role busy =
      let same = λ (j : ℕ).
        elim (Bool-cases (j == t)) as (λ _. reader_asleep nw after j ≡ reader_asleep nw s.phase j) [
          | inl h ↦ rw ((==_iff j t).0 h, role) refl
          | inr h ↦ ap (λ b. not (ltb j nw) && b) (others j ((ne-==_iff j t).0 h))
        ] in
      record {
        tally =
            Tally-next sane.tally t room (checks i) (sleeps i) e (update-Goes s.phase t (sleeps i))
              s.counters (omega arith, omega arith, omega arith, omega arith, sane.tally.apart)
              (fits sane t room (checks i) e);
        guarded = gives sane t room (checks i) e (sleeps i) refl refl;
        readers = IsQueue-same sane.readers (reader_asleep nw after) same;
        writers =
            IsQueue-push sane.writers (writer_asleep nw after) t (rw (role, e) refl)
              (rw (role, update_same s.phase t (sleeps i)) refl)
              (λ j ne. ap (λ b. ltb j nw && b) (others j ne));
        will_write = λ j h. ground (arith, busy);
        will_read = λ j h.
            le_trans (sane.will_read j (sym (same j) ∙ h))
              (still_for_readers sane t room (checks i) e (sleeps i) s.counters (omega arith));
      }

  pub reader-IsRoom :
      ltb t nw ≡ false
      → reader_waits s.counters ≡ true
      → IsRoom n nw iters
          (record s { lock = free_mutex; can_read = s.can_read ++ t ∷ []; phase = after })
  reader-IsRoom role busy =
      let same = λ (j : ℕ).
        elim (Bool-cases (j == t)) as (λ _. writer_asleep nw after j ≡ writer_asleep nw s.phase j) [
          | inl h ↦ rw ((==_iff j t).0 h, role) refl
          | inr h ↦ ap (λ b. ltb j nw && b) (others j ((ne-==_iff j t).0 h))
        ] in
      record {
        tally =
            Tally-next sane.tally t room (checks i) (sleeps i) e (update-Goes s.phase t (sleeps i))
              s.counters (omega arith, omega arith, omega arith, omega arith, sane.tally.apart)
              (fits sane t room (checks i) e);
        guarded = gives sane t room (checks i) e (sleeps i) refl refl;
        readers =
            IsQueue-push sane.readers (reader_asleep nw after) t (rw (role, e) refl)
              (rw (role, update_same s.phase t (sleeps i)) refl)
              (λ j ne. ap (λ b. not (ltb j nw) && b) (others j ne));
        writers = IsQueue-same sane.writers (writer_asleep nw after) same;
        will_write = λ j h. le_trans (sane.will_write j (sym (same j) ∙ h)) (
            still_for_writers sane t room (checks i) e (sleeps i) s.counters
              (rw role (omega arith)));
        will_read = λ j h. ground (arith, busy);
      }
