-- ===== src/ReadWrite/Tally.antt =====
-- examples/readers_writers.c: the counters of the lock, counted over the threads.
use comp_arch_project.Base.{
  ℕ, ◌+◌, ◌≤◌, ◌<◌, ◌≡◌, ◌≢◌, ◌⊎◌, refl, sym, ap, ◌∙◌, inl, inr, ◌==◌, if◌then◌else◌, ltb, arith,
  update, update_same, update_other, Bool-cases, ==_iff, ne-==_iff, has, List,
}
use comp_arch_project.Base.Sums.{sum, sum-change}
use comp_arch_project.ReadWrite.{
  Phase, Counters, tests, wants_in, checks, sleeps, wakes, enters, works, wants_out, signals,
  leaves, rests, finished, woken, wake,
}

-- The thread has the lock for readers or for writers.
abbrev pub inside : Phase → ℕ
inside (enters i) = 1
inside (works i) = 1
inside (wants_out i) = 1
inside (tests i) = 0
inside (wants_in i) = 0
inside (checks i) = 0
inside (sleeps i) = 0
inside (wakes i) = 0
inside (signals i) = 0
inside (leaves i) = 0
inside (rests i) = 0
inside finished = 0

-- The thread waits for it.
abbrev pub pending : Phase → ℕ
pending (checks i) = 1
pending (sleeps i) = 1
pending (wakes i) = 1
pending (enters i) = 0
pending (works i) = 0
pending (wants_out i) = 0
pending (tests i) = 0
pending (wants_in i) = 0
pending (signals i) = 0
pending (leaves i) = 0
pending (rests i) = 0
pending finished = 0

-- The rounds, out of `iters`, in which the section has been worked in.
abbrev pub rounds : (iters : ℕ) → Phase → ℕ
rounds iters (tests i) = i
rounds iters (wants_in i) = i
rounds iters (checks i) = i
rounds iters (sleeps i) = i
rounds iters (wakes i) = i
rounds iters (enters i) = i
rounds iters (works i) = i
rounds iters (wants_out i) = i + 1
rounds iters (signals i) = i + 1
rounds iters (leaves i) = i + 1
rounds iters (rests i) = i + 1
rounds iters finished = iters

abbrev pub RoundFits : Phase → (iters : ℕ) → Type 0
RoundFits (tests i) iters = i ≤ iters
RoundFits (wants_in i) iters = i < iters
RoundFits (checks i) iters = i < iters
RoundFits (sleeps i) iters = i < iters
RoundFits (wakes i) iters = i < iters
RoundFits (enters i) iters = i < iters
RoundFits (works i) iters = i < iters
RoundFits (wants_out i) iters = i < iters
RoundFits (signals i) iters = i < iters
RoundFits (leaves i) iters = i < iters
RoundFits (rests i) iters = i < iters
RoundFits finished iters = Unit

-- What waking leaves as it is.
record Same (iters : ℕ) (p q : Phase) : Type 0 where
  same_inside : inside p ≡ inside q
  same_pending : pending p ≡ pending q
  same_rounds : rounds iters p ≡ rounds iters q
  same_fit : RoundFits p iters → RoundFits q iters

Same-refl : (iters : ℕ) (p : Phase) → Same iters p p
Same-refl iters p = record {
  same_inside = refl;
  same_pending = refl;
  same_rounds = refl;
  same_fit = λ h. h;
}

woken-Same : (iters : ℕ) (p : Phase) → Same iters p (woken p)
woken-Same iters (sleeps i) = record {
  same_inside = refl;
  same_pending = refl;
  same_rounds = refl;
  same_fit = λ h. h;
}
woken-Same iters (tests i) = Same-refl iters (tests i)
woken-Same iters (wants_in i) = Same-refl iters (wants_in i)
woken-Same iters (checks i) = Same-refl iters (checks i)
woken-Same iters (wakes i) = Same-refl iters (wakes i)
woken-Same iters (enters i) = Same-refl iters (enters i)
woken-Same iters (works i) = Same-refl iters (works i)
woken-Same iters (wants_out i) = Same-refl iters (wants_out i)
woken-Same iters (signals i) = Same-refl iters (signals i)
woken-Same iters (leaves i) = Same-refl iters (leaves i)
woken-Same iters (rests i) = Same-refl iters (rests i)
woken-Same iters finished = Same-refl iters finished

-- Thread `t` goes to `q`; others wake or stay.
pub record Goes (phase next : ℕ → Phase) (t : ℕ) (q : Phase) : Type 0 where
  pub here : next t ≡ q
  pub there : (j : ℕ) → j ≢ t → (next j ≡ phase j) ⊎ (next j ≡ woken (phase j))

pub update-Goes : (phase : ℕ → Phase) (t : ℕ) (q : Phase) → Goes phase (update phase t q) t q
update-Goes phase t q = record {
  here = update_same phase t q;
  there = λ j ne. inl (update_other phase t q j ne);
}

pub wake-Goes :
    (l : List ℕ) (phase : ℕ → Phase) (t : ℕ) (q : Phase)
    → Goes phase (update (wake l phase) t q) t q
wake-Goes l phase t q = record {
  here = update_same (wake l phase) t q;
  there = λ j ne. elim (Bool-cases (has j l)) [
    | inl e ↦ inr (update_other (wake l phase) t q j ne ∙ rw e refl)
    | inr e ↦ inl (update_other (wake l phase) t q j ne ∙ rw e refl)
  ];
}

abbrev pub writer : (nw t v : ℕ) → ℕ
writer nw t v = if ltb t nw then v else 0

abbrev pub reader : (nw t v : ℕ) → ℕ
reader nw t v = if ltb t nw then 0 else v

-- The counters count the threads, and a writer inside is alone.
pub record Tally (n nw iters : ℕ) (c : Counters) (phase : ℕ → Phase) : Type 0 where
  pub readers_in : sum n (λ t p. reader nw t (inside p)) phase ≡ c.active_readers
  pub writers_in : sum n (λ t p. writer nw t (inside p)) phase ≡ c.active_writers
  pub writers_due : sum n (λ t p. writer nw t (pending p)) phase ≡ c.waiting_writers
  pub written : sum n (λ t p. writer nw t (rounds iters p)) phase ≡ c.shared_data
  pub fit : (t : ℕ) → t < n → RoundFits (phase t) iters
  pub apart : (c.active_writers ≡ 0) ⊎ ((c.active_writers ≡ 1) × (c.active_readers ≡ 0))

-- What a step of `t` from `p` to `q` has to balance.
abbrev pub Balanced : (nw iters t : ℕ) → (c c' : Counters) → (p q : Phase) → Type 0
Balanced nw iters t c c' p q =
    (c'.active_readers + reader nw t (inside p) ≡ c.active_readers + reader nw t (inside q))
    × (c'.active_writers + writer nw t (inside p) ≡ c.active_writers + writer nw t (inside q))
    × (c'.waiting_writers + writer nw t (pending p) ≡ c.waiting_writers + writer nw t (pending q))
    × (c'.shared_data + writer nw t (rounds iters p) ≡ c.shared_data + writer nw t (rounds iters q))
    × ((c'.active_writers ≡ 0) ⊎ ((c'.active_writers ≡ 1) × (c'.active_readers ≡ 0)))

module _ {n nw iters : ℕ} {c : Counters} {phase next : ℕ → Phase} (tally : Tally n nw iters c phase)
    (t : ℕ) (room : t < n) (p q : Phase) (e : phase t ≡ p) (to : Goes phase next t q) where
  same : (j : ℕ) → j ≢ t → Same iters (phase j) (next j)
  same j ne = elim (to.there j ne) [
    | inl stay ↦ rw stay (Same-refl iters (phase j))
    | inr up ↦ rw up (woken-Same iters (phase j))
  ]

  change :
      (weight : ℕ → Phase → ℕ)
      → ((j : ℕ) → j ≢ t → weight j (phase j) ≡ weight j (next j))
      → sum n weight next + weight t p ≡ sum n weight phase + weight t q
  change weight others = rw (sym e, sym to.here) (sum-change n weight phase next t room others)

  pub Tally-next :
      (c' : Counters) → Balanced nw iters t c c' p q → RoundFits q iters → Tally n nw iters c' next
  Tally-next c' (b1, b2, b3, b4, b5) fits = record {
    readers_in = omega (
      arith,
      b1,
      tally.readers_in,
      change (λ j o. reader nw j (inside o)) (λ j ne. ap (reader nw j) (same j ne).same_inside),
    );
    writers_in = omega (
      arith,
      b2,
      tally.writers_in,
      change (λ j o. writer nw j (inside o)) (λ j ne. ap (writer nw j) (same j ne).same_inside),
    );
    writers_due = omega (
      arith,
      b3,
      tally.writers_due,
      change (λ j o. writer nw j (pending o)) (λ j ne. ap (writer nw j) (same j ne).same_pending),
    );
    written = omega (
      arith,
      b4,
      tally.written,
      change (λ j o. writer nw j (rounds iters o))
          (λ j ne. ap (writer nw j) (same j ne).same_rounds),
    );
    fit = λ j lt. elim (Bool-cases (j == t)) [
      | inl h ↦ rw ((==_iff j t).0 h, to.here) fits
      | inr h ↦ (same j ((ne-==_iff j t).0 h)).same_fit (tally.fit j lt)
    ];
    apart = b5;
  }
