-- ===== src/ReadWrite/Keeping.antt =====
-- examples/readers_writers.c: what holds between two steps, and the steps that wake nobody.
use comp_arch_project.Base.{
  ℕ, ◌+◌, ◌≤◌, ◌<◌, ◌≡◌, ◌≢◌, sym, ap, subst, ◌∙◌, inl, inr, Bool, true, false, ◌&&◌, not, ◌==◌,
  ltb, arith, update, update_same, update_other, Bool-cases, le_trans, ==_iff, ne-==_iff,
}
use comp_arch_project.Base.Sums.{sum, sum-update}
use comp_arch_project.Machine.{Mutex}
use comp_arch_project.Program.{tid_of, taken_by, free_mutex}
use comp_arch_project.Program.Guarded.{
  IsGuarded, IsGuarded-stay, IsGuarded-enter, IsGuarded-leave, own-lock,
}
use comp_arch_project.Program.Running.{Keeps}
use comp_arch_project.ReadWrite.{InRange, Phase, Counters, Room, locks_room, unlocks_room}
use comp_arch_project.ReadWrite.Tally.{Tally-next, Balanced, RoundFits, writer, update-Goes}
use comp_arch_project.ReadWrite.Asleep.{IsQueue-same, asleep}
use comp_arch_project.ReadWrite.Invariant.{
  holds_lock, waking, roused, reader_asleep, writer_asleep, for_writers, for_readers, IsRoom,
}

module _ {n nw iters : ℕ} {s : Room} (sane : IsRoom n nw iters s) (t : ℕ) (room : t < n) (p : Phase)
    (e : s.phase t ≡ p) where
  pub fits : RoundFits p iters
  fits = subst (λ (q : Phase). RoundFits q iters) e (sane.tally.fit t room)

  module _ (q : Phase) where
    abbrev pub next : ℕ → Phase
    next = update s.phase t q

    -- A test of a phase, after the step.
    pub test-there : (test : Phase → Bool) (j : ℕ) → j ≢ t → test (next j) ≡ test (s.phase j)
    test-there test j ne = ap test (update_other s.phase t q j ne)

    pub test-here : (test : Phase → Bool) → test (next t) ≡ test q
    test-here test = ap test (update_same s.phase t q)

    same_asleep : asleep p ≡ asleep q → (j : ℕ) → asleep (next j) ≡ asleep (s.phase j)
    same_asleep same j = elim (Bool-cases (j == t)) [
      | inl h ↦ rw ((==_iff j t).0 h, test-here asleep, e) (sym same)
      | inr h ↦ test-there asleep j ((ne-==_iff j t).0 h)
    ]

    pub sum-step :
        (weight : ℕ → Phase → ℕ)
        → sum n weight next + weight t p ≡ sum n weight s.phase + weight t q
    sum-step weight =
        subst (λ (o : Phase). sum n weight next + weight t o ≡ sum n weight s.phase + weight t q) e
          (sum-update n weight s.phase t q room)

    abbrev pub MoreForWriters : Counters → Type 0
    MoreForWriters c' =
        s.counters.active_readers + s.counters.active_writers + waking p + writer nw t (roused p)
        ≤ c'.active_readers + c'.active_writers + waking q + writer nw t (roused q)

    abbrev pub MoreForReaders : Counters → Type 0
    MoreForReaders c' =
        s.counters.active_writers + s.counters.waiting_writers + writer nw t (waking p)
        ≤ c'.active_writers + c'.waiting_writers + writer nw t (waking q)

    pub still_for_writers :
        (c' : Counters)
        → MoreForWriters c'
        → for_writers n nw s.counters s.phase ≤ for_writers n nw c' next
    still_for_writers c' more =
        omega (arith, more, sum-step (λ j o. waking o), sum-step (λ j o. writer nw j (roused o)))

    pub still_for_readers :
        (c' : Counters)
        → MoreForReaders c'
        → for_readers n nw s.counters s.phase ≤ for_readers n nw c' next
    still_for_readers c' more = omega (arith, more, sum-step (λ j o. writer nw j (waking o)))

    -- A step between two phases that are awake, which leaves somebody to wake the others.
    pub awake :
        (lock' : Mutex) (c' : Counters)
        → IsGuarded n lock' (λ j. holds_lock (next j))
        → asleep p ≡ false
        → asleep q ≡ false
        → RoundFits q iters
        → Balanced nw iters t s.counters c' p q
        → (1 ≤ for_writers n nw s.counters s.phase → 1 ≤ for_writers n nw c' next)
        → (1 ≤ for_readers n nw s.counters s.phase → 1 ≤ for_readers n nw c' next)
        → IsRoom n nw iters (record {
          lock = lock';
          can_read = s.can_read;
          can_write = s.can_write;
          counters = c';
          phase = next;
        })
    awake lock' c' guarded' up_p up_q fits' balanced more_w more_r =
        let same = same_asleep (up_p ∙ sym up_q) in
        record {
          tally = Tally-next sane.tally t room p q e (update-Goes s.phase t q) c' balanced fits';
          guarded = guarded';
          readers =
              IsQueue-same sane.readers (reader_asleep nw next)
                (λ j. ap (λ b. not (ltb j nw) && b) (same j));
          writers =
              IsQueue-same sane.writers (writer_asleep nw next)
                (λ j. ap (λ b. ltb j nw && b) (same j));
          will_write =
              λ j h. more_w (sane.will_write j (sym (ap (λ b. ltb j nw && b) (same j)) ∙ h));
          will_read =
              λ j h. more_r (sane.will_read j (sym (ap (λ b. not (ltb j nw) && b) (same j)) ∙ h));
        }

    -- The guard over a step: the lock stays, is taken, is given back.
    pub stays : holds_lock p ≡ holds_lock q → IsGuarded n s.lock (λ j. holds_lock (next j))
    stays same =
        IsGuarded-stay sane.guarded t room (λ j. holds_lock (next j)) (test-there holds_lock)
          (test-here holds_lock ∙ sym same ∙ ap holds_lock (sym e))

    pub takes :
        s.lock.locked ≡ false
        → holds_lock q ≡ true
        → IsGuarded n (taken_by t) (λ j. holds_lock (next j))
    takes free now =
        IsGuarded-enter sane.guarded t room (λ j. holds_lock (next j)) (test-there holds_lock) free
          (test-here holds_lock ∙ now)

    pub gives :
        holds_lock p ≡ true
        → holds_lock q ≡ false
        → IsGuarded n free_mutex (λ j. holds_lock (next j))
    gives was now =
        IsGuarded-leave sane.guarded t room (λ j. holds_lock (next j)) (test-there holds_lock)
          (ap holds_lock e ∙ was) (test-here holds_lock ∙ now)

  pub owns : holds_lock p ≡ true → (s.lock.owner == tid_of t) ≡ true
  owns was = own-lock sane.guarded t room (ap holds_lock e ∙ was)

  module _ (q : Phase) where
    -- What a plain step has to balance.
    abbrev pub Plain : Counters → Type 0
    Plain c' = Balanced nw iters t s.counters c' p q × MoreForWriters q c' × MoreForReaders q c'

    plain :
        (lock' : Mutex) (c' : Counters)
        → IsGuarded n lock' (λ j. holds_lock (next q j))
        → asleep p ≡ false
        → asleep q ≡ false
        → RoundFits q iters
        → Plain c'
        → IsRoom n nw iters (record {
          lock = lock';
          can_read = s.can_read;
          can_write = s.can_write;
          counters = c';
          phase = next q;
        })
    plain lock' c' guarded' up_p up_q fits' (balanced, more_w, more_r) =
        awake q lock' c' guarded' up_p up_q fits' balanced
          (λ h. le_trans h (still_for_writers q c' more_w))
          (λ h. le_trans h (still_for_readers q c' more_r))

    -- A step that leaves the lock, takes it, gives it back.
    pub goes-IsRoom :
        (c' : Counters)
        → holds_lock p ≡ holds_lock q
        → asleep p ≡ false
        → asleep q ≡ false
        → RoundFits q iters
        → Plain c'
        → IsRoom n nw iters (record s { counters = c'; phase = next q })
    goes-IsRoom c' same up_p up_q fits' balance =
        plain s.lock c' (stays q same) up_p up_q fits' balance

    pub locks_room-Keeps :
        (c' : Counters)
        → holds_lock q ≡ true
        → asleep p ≡ false
        → asleep q ≡ false
        → RoundFits q iters
        → Plain c'
        → Keeps (InRange n nw iters) (IsRoom n nw iters) (locks_room t c' q s)
    locks_room-Keeps c' now up_p up_q fits' balance = elim (Bool-cases s.lock.locked) [
      | inl held ↦ rw held tt
      | inr free ↦ rw free (plain (taken_by t) c' (takes q free now) up_p up_q fits' balance)
    ]

    pub unlocks_room-Keeps :
        holds_lock p ≡ true
        → holds_lock q ≡ false
        → asleep p ≡ false
        → asleep q ≡ false
        → RoundFits q iters
        → Plain s.counters
        → Keeps (InRange n nw iters) (IsRoom n nw iters) (unlocks_room t q s)
    unlocks_room-Keeps was now up_p up_q fits' balance =
        rw (owns was) (plain free_mutex s.counters (gives q was now) up_p up_q fits' balance)
