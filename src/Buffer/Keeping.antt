-- ===== src/Buffer/Keeping.antt =====
-- examples/producer_consumer.c: what holds between two steps, and the steps that keep it.
use comp_arch_project.Base.{
  ℕ, ◌+◌, ◌≤◌, ◌<◌, ◌≡◌, ◌≢◌, sym, ap, subst, ◌∙◌, inl, inr, Bool, true, false, update, update_same,
  update_other, Bool-cases,
}
use comp_arch_project.Program.{Outcome}
use comp_arch_project.Program.Guarded.{
  IsGuarded, IsGuarded-stay, IsGuarded-enter, IsGuarded-leave, own-lock,
}
use comp_arch_project.Program.Running.{Keeps}
use comp_arch_project.Base.Sums.{sum, sum-le}
use comp_arch_project.Buffer.{
  InRange, Buffer, Market, Phase, tests, wants_permit, wants_lock, works, unlocks, posts, rests,
  finished, items_of, locks_buffer, unlocks_buffer, act,
}
use comp_arch_project.Buffer.Ring.{IsRing}
use comp_arch_project.Buffer.Counts.{Counts, Counts-next, Balanced, RoundFits}

-- The thread has `buf_lock`.
abbrev pub in_section : Phase → Bool
in_section (works i) = true
in_section (unlocks i) = true
in_section (tests i) = false
in_section (wants_permit i) = false
in_section (wants_lock i) = false
in_section (posts i) = false
in_section (rests i) = false
in_section finished = false

-- A step of thread `t` from where it is.
abbrev pub turn : (np nc ni : ℕ) → ℕ → Market → Outcome Market
turn np nc ni t m = act np nc ni t (m.phase t) m

-- What holds between two steps.
pub record IsStocked (np nc ni : ℕ) (m : Market) : Type 0 where
  pub counts :
      Counts np nc ni m.empty m.full m.buffer.items_produced m.buffer.items_consumed m.phase
  pub ring : IsRing m.buffer
  pub guarded : IsGuarded (np + nc) m.buf_lock (λ t. in_section (m.phase t))

module _ {np nc ni : ℕ} {m : Market} (stocked : IsStocked np nc ni m) (t : ℕ) (room : t < np + nc)
    (p : Phase) (e : m.phase t ≡ p) where
  pub fits : RoundFits p (items_of np nc ni t)
  fits = subst (λ (q : Phase). RoundFits q (items_of np nc ni t)) e (stocked.counts.fit t room)

  pub under_way : (weight : ℕ → Phase → ℕ) → weight t p ≤ sum (np + nc) weight m.phase
  under_way weight =
      subst (λ (q : Phase). weight t q ≤ sum (np + nc) weight m.phase) e
        (sum-le (np + nc) weight m.phase t room)

  section-there :
      (q : Phase) (j : ℕ) → j ≢ t → in_section (update m.phase t q j) ≡ in_section (m.phase j)
  section-there q j ne = ap in_section (update_other m.phase t q j ne)

  section-here : (q : Phase) → in_section (update m.phase t q t) ≡ in_section q
  section-here q = ap in_section (update_same m.phase t q)

  -- A step that leaves the lock.
  pub goes-IsStocked :
      (q : Phase) (empty full : ℕ) (b : Buffer)
      → Balanced stocked.counts t room p q empty full b.items_produced b.items_consumed
      → RoundFits q (items_of np nc ni t)
      → IsRing b
      → in_section q ≡ in_section p
      → IsStocked np nc ni (record {
        buffer = b;
        empty = empty;
        full = full;
        buf_lock = m.buf_lock;
        phase = update m.phase t q;
      })
  goes-IsStocked q empty full b balanced fits' ring same = record {
    counts =
        Counts-next stocked.counts t room p q empty full b.items_produced b.items_consumed e
          balanced fits';
    ring = ring;
    guarded =
        IsGuarded-stay stocked.guarded t room (λ j. in_section (update m.phase t q j))
          (section-there q) (section-here q ∙ same ∙ ap in_section (sym e));
  }

  pub locks_buffer-Sound :
      (q : Phase)
      → Balanced stocked.counts t room p q m.empty m.full m.buffer.items_produced
          m.buffer.items_consumed
      → RoundFits q (items_of np nc ni t)
      → in_section q ≡ true
      → Keeps (InRange np nc ni) (IsStocked np nc ni) (locks_buffer t q m)
  locks_buffer-Sound q balanced fits' inside = elim (Bool-cases (m.buf_lock).locked) [
    | inl held ↦ rw held tt
    | inr free ↦ rw free (record {
      counts =
          Counts-next stocked.counts t room p q m.empty m.full m.buffer.items_produced
            m.buffer.items_consumed e balanced fits';
      ring = stocked.ring;
      guarded =
          IsGuarded-enter stocked.guarded t room (λ j. in_section (update m.phase t q j))
            (section-there q) free (section-here q ∙ inside);
    })
  ]

  pub unlocks_buffer-Sound :
      (q : Phase)
      → Balanced stocked.counts t room p q m.empty m.full m.buffer.items_produced
          m.buffer.items_consumed
      → RoundFits q (items_of np nc ni t)
      → in_section p ≡ true
      → in_section q ≡ false
      → Keeps (InRange np nc ni) (IsStocked np nc ni) (unlocks_buffer t q m)
  unlocks_buffer-Sound q balanced fits' inside out =
      let was = ap in_section e ∙ inside in
      rw (own-lock stocked.guarded t room was) (record {
        counts =
            Counts-next stocked.counts t room p q m.empty m.full m.buffer.items_produced
              m.buffer.items_consumed e balanced fits';
        ring = stocked.ring;
        guarded =
            IsGuarded-leave stocked.guarded t room (λ j. in_section (update m.phase t q j))
              (section-there q) was (section-here q ∙ out);
      })
