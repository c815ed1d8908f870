-- ===== src/ReadWrite/Waking.antt =====
-- examples/readers_writers.c: the end of `read_unlock` and of `write_unlock`, which wakes others.
use comp_arch_project.Base.{
  ℕ, ◌≤◌, ◌<◌, ◌≡◌, ◌≢◌, ◌⊎◌, refl, sym, ap, ◌∙◌, inl, inr, true, false, ◌&&◌, not, ◌==◌, ltb,
  arith, update, update_same, update_other, Bool-cases, ==_iff, ne-==_iff, has, List, [], ◌∷◌,
  le_trans, ==_refl,
}
use comp_arch_project.Base.Sums.{sum, sum-le, sum-change}
use comp_arch_project.Program.Guarded.{IsGuarded, IsGuarded-stay}
use comp_arch_project.ReadWrite.{
  Phase, Room, signals, leaves, woken, wake, first_of, signal_writer, broadcast_readers, goes,
}
use comp_arch_project.ReadWrite.Tally.{Tally, Tally-next, writer, wake-Goes, pending}
use comp_arch_project.ReadWrite.Asleep.{
  IsQueue-same, IsQueue-pop, IsQueue-clear, asleep, asleep-wake,
}
use comp_arch_project.ReadWrite.Keeping.{fits, awake, stays, still_for_readers}
use comp_arch_project.ReadWrite.Invariant.{
  IsRoom, holds_lock, roused, waking, reader_asleep, writer_asleep,
}
use comp_arch_project.ReadWrite.Rising.{woken-Rising}

has-first_of : (j : ℕ) (l : List ℕ) → has j (first_of l) ≡ true → has j l ≡ true
has-first_of j [] h = h
has-first_of j (x ∷ l) h = ground (arith, h)

first_member :
    (j : ℕ) (l : List ℕ) → has j l ≡ true → (h : ℕ) × (first_of l ≡ h ∷ []) × (has h l ≡ true)
first_member j [] h = absurd (cc h)
first_member j (x ∷ l) h = (x, refl, ground (arith, ==_refl x))

module _ {n nw iters : ℕ} {s : Room} (sane : IsRoom n nw iters s) (t : ℕ) (room : t < n) (i : ℕ)
    (e : s.phase t ≡ signals i) where
  module _ (l : List ℕ) where
    abbrev after : ℕ → Phase
    after = update (wake l s.phase) t (leaves i)

    wake-keeps :
        {A : Type 0} (f : Phase → A)
        → ((p : Phase) → f (woken p) ≡ f p)
        → (j : ℕ) → j ≢ t
        → f (after j) ≡ f (s.phase j)
    wake-keeps f same j ne =
        ap f (update_other (wake l s.phase) t (leaves i) j ne)
        ∙ elim (Bool-cases (has j l)) [ inl h ↦ rw h (same (s.phase j)) | inr h ↦ rw h refl ]

    after-Tally : Tally n nw iters s.counters after
    after-Tally =
        Tally-next sane.tally t room (signals i) (leaves i) e (wake-Goes l s.phase t (leaves i))
          s.counters (omega arith, omega arith, omega arith, omega arith, sane.tally.apart)
          (fits sane t room (signals i) e)

    after-IsGuarded : IsGuarded n s.lock (λ j. holds_lock (after j))
    after-IsGuarded =
        IsGuarded-stay sane.guarded t room (λ j. holds_lock (after j))
          (wake-keeps holds_lock (λ p. (woken-Rising p).same_lock))
          (ap holds_lock (update_same (wake l s.phase) t (leaves i)) ∙ sym (ap holds_lock e))

    -- Who is asleep afterwards.
    after-asleep : (j : ℕ) → asleep (after j) ≡ (asleep (s.phase j) && not (has j l))
    after-asleep j = elim (Bool-cases (j == t)) [
      | inl h ↦ rw ((==_iff j t).0 h, update_same (wake l s.phase) t (leaves i), e) refl
      | inr h ↦
          ap asleep (update_other (wake l s.phase) t (leaves i) j ((ne-==_iff j t).0 h))
          ∙ asleep-wake l s.phase j
    ]

  abbrev signalled : ℕ → Phase
  signalled = after (first_of s.can_write)

  -- The thread at the head of the queue is a writer, and awake afterwards.
  head_roused :
      nw ≤ n
      → (j : ℕ) → writer_asleep nw s.phase j ≡ true
      → 1 ≤ sum n (λ k p. writer nw k (roused p)) signalled
  head_roused all j asleep_j =
      let (h, first, member) = first_member j s.can_write (sane.writers.listed j ∙ asleep_j) in
      let sleeper : writer_asleep nw s.phase h ≡ true = sym (sane.writers.listed h) ∙ member in
      let role : ltb h nw ≡ true = ground (arith, sleeper) in
      let down : asleep (s.phase h) ≡ true = ground (arith, sleeper) in
      let apart : h ≢ t = λ same. cc (down, ap (λ k. asleep (s.phase k)) same, ap asleep e) in
      let up : signalled h ≡ woken (s.phase h) =
        update_other (wake (first_of s.can_write) s.phase) t (leaves i) h apart
        ∙ rw (first, ==_refl h) refl in
      let one : writer nw h (roused (signalled h)) ≡ 1 =
        rw (role, up) ((woken-Rising (s.phase h)).is_roused down) in
      omega (
        arith,
        one,
        sum-le n (λ k p. writer nw k (roused p)) signalled h (ground (arith, role, all)),
      )

  signalled-reader : (j : ℕ) → reader_asleep nw signalled j ≡ reader_asleep nw s.phase j
  signalled-reader j = elim (Bool-cases (has j (first_of s.can_write))) [
    | inl h ↦
        let sleeper : writer_asleep nw s.phase j ≡ true =
          sym (sane.writers.listed j) ∙ has-first_of j s.can_write h in
        ground (arith, sleeper)
    | inr h ↦ rw (after-asleep (first_of s.can_write) j, h) (ground arith)
  ]

  -- `uth_cond_signal(&can_write)` where a reader is the last, or a writer waits.
  pub signal_writer-IsRoom :
      nw ≤ n
      → (1 ≤ s.counters.waiting_writers) ⊎ (ltb t nw ≡ false)
      → IsRoom n nw iters (goes t (leaves i) (signal_writer s))
  signal_writer-IsRoom all more = record {
    tally = after-Tally (first_of s.can_write);
    guarded = after-IsGuarded (first_of s.can_write);
    readers = IsQueue-same sane.readers (reader_asleep nw signalled) signalled-reader;
    writers =
        IsQueue-pop sane.writers (writer_asleep nw signalled)
          (λ j. rw (after-asleep (first_of s.can_write) j) (ground arith));
    will_write = λ j h.
        let before : writer_asleep nw s.phase j ≡ true =
          ground (arith, h, after-asleep (first_of s.can_write) j) in
        omega (arith, head_roused all j before);
    will_read = λ j h. elim more [
      | inl waiting ↦ omega (arith, waiting)
      | inr role ↦
          let same =
            sum-change n (λ k p. writer nw k (waking p)) s.phase signalled t room
              (λ k ne. ap (writer nw k) (
                sym (
                  wake-keeps (first_of s.can_write) waking (λ p. (woken-Rising p).same_waking) k
                    ne))) in
          let none : writer nw t (waking (s.phase t)) ≡ 0 = rw role refl in
          let before = sane.will_read j (sym (signalled-reader j) ∙ h) in
          omega (arith, same, none, before)
    ];
  }

  abbrev called : ℕ → Phase
  called = after s.can_read

  called-reader : (j : ℕ) → reader_asleep nw called j ≡ false
  called-reader j = ground (arith, after-asleep s.can_read j, sane.readers.listed j)

  called-writer : (j : ℕ) → writer_asleep nw called j ≡ writer_asleep nw s.phase j
  called-writer j = ground (arith, after-asleep s.can_read j, sane.readers.listed j)

  -- `uth_cond_broadcast(&can_read)` where no writer waits.
  pub broadcast_readers-IsRoom :
      nw ≤ n
      → s.counters.waiting_writers ≡ 0
      → IsRoom n nw iters (goes t (leaves i) (broadcast_readers s))
  broadcast_readers-IsRoom all none = record {
    tally = after-Tally s.can_read;
    guarded = after-IsGuarded s.can_read;
    readers = IsQueue-clear (reader_asleep nw called) called-reader;
    writers = IsQueue-same sane.writers (writer_asleep nw called) called-writer;
    will_write = λ j h.
        let sleeper : writer_asleep nw s.phase j ≡ true = sym (called-writer j) ∙ h in
        let role : ltb j nw ≡ true = ground (arith, sleeper) in
        let down : asleep (s.phase j) ≡ true = ground (arith, sleeper) in
        let one : writer nw j (pending (s.phase j)) ≡ 1 =
          rw role ((woken-Rising (s.phase j)).is_pending down) in
        absurd (
          omega (
            arith,
            one,
            none,
            sane.tally.writers_due,
            sum-le n (λ k p. writer nw k (pending p)) s.phase j (ground (arith, role, all)),
          ));
    will_read = λ j h. absurd (cc (h, called-reader j));
  }

  -- A reader that is not the last wakes nobody.
  pub silent-IsRoom :
      ltb t nw ≡ false → 1 ≤ s.counters.active_readers → IsRoom n nw iters (goes t (leaves i) s)
  silent-IsRoom role more =
      awake sane t room (signals i) e (leaves i) s.lock s.counters
        (stays sane t room (signals i) e (leaves i) refl) refl refl (fits sane t room (signals i) e)
        (omega arith, omega arith, omega arith, omega arith, sane.tally.apart)
        (λ h. omega (arith, more))
        (λ h. le_trans h (
          still_for_readers sane t room (signals i) e (leaves i) s.counters
            (rw role (omega arith))))
