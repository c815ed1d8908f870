-- ===== src/Philosophers/Table.antt =====
-- The table of examples/philosophers.c: who holds which fork, what is true of it between two
-- steps, and the three kinds of steps that keep it.
use comp_arch_project.Base.{
  ℕ, ◌≤◌, ◌<◌, ◌≡◌, ◌≢◌, refl, subst, sym, ap, ◌∙◌, inl, inr, Bool, true, false, ◌||◌, ◌==◌, arith,
  update, update_same, update_other, Bool-cases, ==_iff, ne-==_iff,
}
use comp_arch_project.Machine.{Mutex}
use comp_arch_project.Philosophers.{
  Phase, Dinner, tests, thinks, wants_first, has_first, wants_second, eats, drops_second,
  drops_first, finished, first, second,
}
use comp_arch_project.Program.{taken_by, free_mutex}

-- Fork `f` is in a hand of philosopher `i`.
unfoldable pub holds : (n i : ℕ) → Phase → ℕ → Bool
holds n i has_first f = f == first n i
holds n i wants_second f = f == first n i
holds n i (eats k) f = (f == first n i) || (f == second n i)
holds n i drops_second f = (f == first n i) || (f == second n i)
holds n i drops_first f = f == first n i
holds n i tests f = false
holds n i (thinks k) f = false
holds n i wants_first f = false
holds n i finished f = false

-- The meals of a philosopher in a phase, out of `total`.
abbrev pub MealsFit : Phase → (m total : ℕ) → Type 0
MealsFit tests m total = m ≤ total
MealsFit (thinks k) m total = m < total
MealsFit wants_first m total = m < total
MealsFit has_first m total = m < total
MealsFit wants_second m total = m < total
MealsFit (eats k) m total = m < total
MealsFit drops_second m total = m ≤ total
MealsFit drops_first m total = m ≤ total
MealsFit finished m total = m ≡ total

-- Between two steps of `n` philosophers who want `total` meals each: a fork in a hand is locked
-- by its owner, a locked fork is in a hand, and the meals fit.
pub record IsLaid (n total : ℕ) (d : Dinner) : Type 0 where
  pub mine : (i : ℕ) → i < n → (f : ℕ) → holds n i (d.phase i) f ≡ true → d.forks f ≡ taken_by i
  pub owned :
      (f : ℕ) → (d.forks f).locked ≡ true → (i : ℕ) × (i < n) × (holds n i (d.phase i) f ≡ true)
  pub fit : (i : ℕ) → i < n → MealsFit (d.phase i) (d.meals i) total

module _ {n total : ℕ} {d : Dinner} (laid : IsLaid n total d) (i : ℕ) (room : i < n) where
  -- The dinner with a new phase of philosopher `i`, and new forks and meals.
  abbrev next : (ℕ → Mutex) → (ℕ → ℕ) → Phase → Dinner
  next fk ml p = record { forks = fk; meals = ml; phase = update d.phase i p }

  at-or-other : {P : ℕ → Type 0} → P i → ((j : ℕ) → j ≢ i → P j) → (j : ℕ) → P j
  at-or-other {P} here there j = elim (Bool-cases (j == i)) [
    | inl e ↦ subst P (sym ((==_iff j i).0 e)) here
    | inr e ↦ there j ((ne-==_iff j i).0 e)
  ]

  -- Who holds a fork in the next dinner.
  holds-here : (p : Phase) (f : ℕ) → holds n i (update d.phase i p i) f ≡ holds n i p f
  holds-here p f = ap (λ (q : Phase). holds n i q f) (update_same d.phase i p)

  holds-there :
      (p : Phase) (f j : ℕ) → j ≢ i → holds n j (update d.phase i p j) f ≡ holds n j (d.phase j) f
  holds-there p f j ne = ap (λ (q : Phase). holds n j q f) (update_other d.phase i p j ne)

  fit-next :
      (ml : ℕ → ℕ) (p : Phase)
      → ((j : ℕ) → j ≢ i → ml j ≡ d.meals j)
      → MealsFit p (ml i) total
      → (j : ℕ) → j < n
      → MealsFit (update d.phase i p j) (ml j) total
  fit-next ml p others new =
      at-or-other {P = λ j. j < n → MealsFit (update d.phase i p j) (ml j) total}
        (λ lt. rw (update_same d.phase i p) new)
        (λ j ne lt. rw (update_other d.phase i p j ne, others j ne) (laid.fit j lt))

  -- The phase changes, and the hands do not.
  pub IsLaid-stay :
      (ml : ℕ → ℕ) (p : Phase)
      → ((j : ℕ) → j ≢ i → ml j ≡ d.meals j)
      → MealsFit p (ml i) total
      → ((f : ℕ) → holds n i p f ≡ holds n i (d.phase i) f)
      → IsLaid n total (next d.forks ml p)
  IsLaid-stay ml p others new same = record {
    mine =
        at-or-other
          {P = λ j.
            j < n → (f : ℕ) → holds n j (update d.phase i p j) f ≡ true → d.forks f ≡ taken_by j}
          (λ lt f h. laid.mine i lt f (cc (h, holds-here p f, same f)))
          (λ j ne lt f h. laid.mine j lt f (cc (h, holds-there p f j ne)));
    owned = λ f h.
        let (j, lt, h') = laid.owned f h in
        (
          j,
          lt,
          at-or-other
              {P = λ k. holds n k (d.phase k) f ≡ true → holds n k (update d.phase i p k) f ≡ true}
              (λ h'. cc (h', holds-here p f, same f)) (λ k ne h'. cc (h', holds-there p f k ne)) j
              h',
        );
    fit = fit-next ml p others new;
  }

  module _ (f : ℕ) where
    -- A free fork goes into a hand.
    pub IsLaid-pick :
        (p : Phase)
        → (d.forks f).locked ≡ false
        → MealsFit p (d.meals i) total
        → ((g : ℕ) → holds n i p g ≡ ((g == f) || holds n i (d.phase i) g))
        → IsLaid n total (next (update d.forks f (taken_by i)) d.meals p)
    IsLaid-pick p free new more = record {
      mine =
          at-or-other
            {P = λ j.
              j < n
              → (g : ℕ) → holds n j (update d.phase i p j) g ≡ true
              → update d.forks f (taken_by i) g ≡ taken_by j}
            (λ lt g h. elim (Bool-cases (g == f)) [
              | inl e ↦ rw e refl
              | inr e ↦ rw e (laid.mine i lt g (ground (arith, h, holds-here p g, more g)))
            ])
            (λ j ne lt g h.
              let held = laid.mine j lt g (cc (h, holds-there p g j ne)) in
              let apart : g ≢ f =
                λ same. cc (ap (λ (k : ℕ). (d.forks k).locked) same, held, free) in
              update_other d.forks f (taken_by i) g apart ∙ held);
      owned = λ g h. elim (Bool-cases (g == f)) [
        | inl e ↦ (i, room, holds-here p g ∙ more g ∙ rw e refl)
        | inr e ↦
            let (j, lt, h') = laid.owned g (
              sym (ap Mutex.locked (update_other d.forks f (taken_by i) g ((ne-==_iff g f).0 e)))
              ∙ h) in
            (
              j,
              lt,
              at-or-other
                  {P = λ k.
                    holds n k (d.phase k) g ≡ true → holds n k (update d.phase i p k) g ≡ true}
                  (λ h'. ground (arith, h', holds-here p g, more g))
                  (λ k ne h'. cc (h', holds-there p g k ne)) j h',
            )
      ];
      fit = fit-next d.meals p (λ j ne. refl) new;
    }

    -- A fork of `i` is laid down.
    pub IsLaid-put :
        (p : Phase)
        → MealsFit p (d.meals i) total
        → holds n i p f ≡ false
        → ((g : ℕ) → holds n i (d.phase i) g ≡ ((g == f) || holds n i p g))
        → IsLaid n total (next (update d.forks f free_mutex) d.meals p)
    IsLaid-put p new gone less = record {
      mine =
          at-or-other
            {P = λ j.
              j < n
              → (g : ℕ) → holds n j (update d.phase i p j) g ≡ true
              → update d.forks f free_mutex g ≡ taken_by j}
            (λ lt g h.
              let apart : g ≢ f =
                λ same. cc (ap (λ (k : ℕ). holds n i p k) same, h, holds-here p g, gone) in
              update_other d.forks f free_mutex g apart
              ∙ laid.mine i lt g (ground (arith, h, holds-here p g, less g)))
            (λ j ne lt g h.
              let held = laid.mine j lt g (cc (h, holds-there p g j ne)) in
              let here = laid.mine i room f (ground (arith, less f)) in
              let apart : g ≢ f = λ same.
                let one = ap Mutex.owner (sym held ∙ ap d.forks same ∙ here) in
                ne (omega (arith, one)) in
              update_other d.forks f free_mutex g apart ∙ held);
      owned = λ g h. elim (Bool-cases (g == f)) [
        | inl e ↦ cc (h, ap Mutex.locked (update_same d.forks f free_mutex), (==_iff g f).0 e)
        | inr e ↦
            let (j, lt, h') = laid.owned g (
              sym (ap Mutex.locked (update_other d.forks f free_mutex g ((ne-==_iff g f).0 e)))
              ∙ h) in
            (
              j,
              lt,
              at-or-other
                  {P = λ k.
                    holds n k (d.phase k) g ≡ true → holds n k (update d.phase i p k) g ≡ true}
                  (λ h'. ground (arith, h', holds-here p g, less g))
                  (λ k ne h'. cc (h', holds-there p g k ne)) j h',
            )
      ];
      fit = fit-next d.meals p (λ j ne. refl) new;
    }
