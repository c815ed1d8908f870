-- ===== src/Buffer/Counts.antt =====
-- examples/producer_consumer.c: the permits, the items and the rounds, counted over the threads.
use comp_arch_project.Base.{
  ℕ, ◌+◌, ◌≤◌, ◌<◌, ◌≡◌, subst, inl, inr, ◌==◌, if◌then◌else◌, ltb, arith, update, Bool-cases,
  ==_iff,
}
use comp_arch_project.Base.Sums.{sum, sum-update}
use comp_arch_project.Buffer.{
  Phase, tests, wants_permit, wants_lock, works, unlocks, posts, rests, finished, items_of,
}

-- A permit is taken, and the ring not yet changed.
abbrev pub before : Phase → ℕ
before (wants_lock i) = 1
before (works i) = 1
before (tests i) = 0
before (wants_permit i) = 0
before (unlocks i) = 0
before (posts i) = 0
before (rests i) = 0
before finished = 0

-- The ring is changed, and the other permit not yet given.
abbrev pub behind : Phase → ℕ
behind (unlocks i) = 1
behind (posts i) = 1
behind (tests i) = 0
behind (wants_permit i) = 0
behind (wants_lock i) = 0
behind (works i) = 0
behind (rests i) = 0
behind finished = 0

-- The rounds that have changed the ring, out of `count`.
abbrev pub rounds : (count : ℕ) → Phase → ℕ
rounds count (tests i) = i
rounds count (wants_permit i) = i
rounds count (wants_lock i) = i
rounds count (works i) = i
rounds count (unlocks i) = i + 1
rounds count (posts i) = i + 1
rounds count (rests i) = i + 1
rounds count finished = count

abbrev pub RoundFits : Phase → (count : ℕ) → Type 0
RoundFits (tests i) count = i ≤ count
RoundFits (wants_permit i) count = i < count
RoundFits (wants_lock i) count = i < count
RoundFits (works i) count = i < count
RoundFits (unlocks i) count = i < count
RoundFits (posts i) count = i < count
RoundFits (rests i) count = i < count
RoundFits finished count = Unit

-- A value of the producers, and of the consumers.
abbrev pub producer : (np : ℕ) → ℕ → ℕ → ℕ
producer np t v = if ltb t np then v else 0

abbrev pub consumer : (np : ℕ) → ℕ → ℕ → ℕ
consumer np t v = if ltb t np then 0 else v

-- The permits under way to the ring and from it, and the rounds that are done.
abbrev pub putting : (np : ℕ) → ℕ → Phase → ℕ
putting np t p = producer np t (before p)

abbrev pub has_put : (np : ℕ) → ℕ → Phase → ℕ
has_put np t p = producer np t (behind p)

abbrev pub taking : (np : ℕ) → ℕ → Phase → ℕ
taking np t p = consumer np t (before p)

abbrev pub has_taken : (np : ℕ) → ℕ → Phase → ℕ
has_taken np t p = consumer np t (behind p)

abbrev pub made : (np nc ni : ℕ) → ℕ → Phase → ℕ
made np nc ni t p = producer np t (rounds (items_of np nc ni t) p)

abbrev pub used : (np nc ni : ℕ) → ℕ → Phase → ℕ
used np nc ni t p = consumer np t (rounds (items_of np nc ni t) p)

-- Every permit and every item is somewhere.
pub record Counts (np nc ni empty full produced consumed : ℕ) (phase : ℕ → Phase) : Type 0 where
  pub fulls :
      full + sum (np + nc) (taking np) phase + sum (np + nc) (has_put np) phase + consumed
      ≡ produced
  pub empties :
      empty + sum (np + nc) (putting np) phase + sum (np + nc) (has_taken np) phase + produced
      ≡ consumed + 8
  pub makes : sum (np + nc) (made np nc ni) phase ≡ produced
  pub uses : sum (np + nc) (used np nc ni) phase ≡ consumed
  pub fit : (t : ℕ) → t < np + nc → RoundFits (phase t) (items_of np nc ni t)

module _ {np nc ni empty full produced consumed : ℕ} {phase : ℕ → Phase}
    (c : Counts np nc ni empty full produced consumed phase) (t : ℕ) (room : t < np + nc) where
  -- What a step from phase `p` to `q` has to balance.
  abbrev pub Balanced : (p q : Phase) (empty' full' produced' consumed' : ℕ) → Type 0
  Balanced p q empty' full' produced' consumed' =
      (full' + taking np t q + has_put np t q + consumed' + produced
        ≡ full + taking np t p + has_put np t p + consumed + produced')
      × (empty' + putting np t q + has_taken np t q + produced' + consumed
          ≡ empty + putting np t p + has_taken np t p + produced + consumed')
      × (produced' + made np nc ni t p ≡ produced + made np nc ni t q)
      × (consumed' + used np nc ni t p ≡ consumed + used np nc ni t q)

  pub Counts-next :
      (p q : Phase) (empty' full' produced' consumed' : ℕ)
      → phase t ≡ p
      → Balanced p q empty' full' produced' consumed'
      → RoundFits q (items_of np nc ni t)
      → Counts np nc ni empty' full' produced' consumed' (update phase t q)
  Counts-next p q empty' full' produced' consumed' e (b1, b2, b3, b4) fits =
      let change = λ (weight : ℕ → Phase → ℕ).
        subst
          (λ (o : Phase).
            sum (np + nc) weight (update phase t q) + weight t o
            ≡ sum (np + nc) weight phase + weight t q)
          e (sum-update (np + nc) weight phase t q room) in
      record {
        fulls = omega (arith, b1, change (taking np), change (has_put np), c.fulls);
        empties = omega (arith, b2, change (putting np), change (has_taken np), c.empties);
        makes = omega (arith, b3, change (made np nc ni), c.makes);
        uses = omega (arith, b4, change (used np nc ni), c.uses);
        fit = λ j lt. elim (Bool-cases (j == t)) [
          | inl e ↦ rw (e, (==_iff j t).0 e) fits
          | inr e ↦ rw e (c.fit j lt)
        ];
      }
