-- ===== src/Philosophers/Keeping.antt =====
-- The steps of the philosophers of examples/philosophers.c, and what every step keeps.
use comp_arch_project.Base.{
  ℕ, ◌+◌, ◌≤◌, ◌<◌, ◌≡◌, ◌≢◌, refl, subst, update_same, sym, ap, ◌∙◌, inl, inr, true, false, ◌||◌,
  ◌==◌, ltb, arith, update, update_other, Bool-cases, ==_refl,
}
use comp_arch_project.Machine.{Mutex}
use comp_arch_project.Program.Running.{Keeps, Run, Run-keeps}
use comp_arch_project.Philosophers.{
  Phase, Dinner, tests, thinks, wants_first, has_first, wants_second, eats, drops_second,
  drops_first, finished, first, second, act, served, goes, picks_up, puts_down,
}
use comp_arch_project.Program.{Outcome, fails, tid_of, taken_by}
use comp_arch_project.Philosophers.Forks.{first-lt-second}
use comp_arch_project.Philosophers.Table.{
  holds, MealsFit, IsLaid, IsLaid-stay, IsLaid-pick, IsLaid-put,
}

-- A step of philosopher `i` from where it is.
abbrev pub turn : (n total : ℕ) → ℕ → Dinner → Outcome Dinner
turn n total i d = act n total i (d.phase i) d

module _ {n total : ℕ} {d : Dinner} (few : 2 ≤ n) (laid : IsLaid n total d) (i : ℕ)
    (room : i < n) where
  pub in_hand : (f : ℕ) → holds n i (d.phase i) f ≡ true → ((d.forks f).owner == tid_of i) ≡ true
  in_hand f h = rw (ap Mutex.owner (laid.mine i room f h)) (==_refl (tid_of i))

  module _ (p : Phase) (e : d.phase i ≡ p) where
    fits : MealsFit p (d.meals i) total
    fits = subst (λ (q : Phase). MealsFit q (d.meals i) total) e (laid.fit i room)

    goes-IsLaid :
        (q : Phase)
        → MealsFit q (d.meals i) total
        → ((f : ℕ) → holds n i q f ≡ holds n i p f)
        → IsLaid n total (goes i q d)
    goes-IsLaid q new same =
        IsLaid-stay laid i room d.meals q (λ j ne. refl) new (λ f. rw e (same f))

    picks_up-Sound :
        (f : ℕ) (q : Phase)
        → MealsFit q (d.meals i) total
        → ((g : ℕ) → holds n i q g ≡ ((g == f) || holds n i p g))
        → Keeps (Unit {0}) (IsLaid n total) (picks_up i f q d)
    picks_up-Sound f q new more = elim (Bool-cases (d.forks f).locked) [
      | inl held ↦ rw held tt
      | inr free ↦ rw free (IsLaid-pick laid i room f q free new (λ g. rw e (more g)))
    ]

    puts_down-Sound :
        (f : ℕ) (q : Phase)
        → MealsFit q (d.meals i) total
        → holds n i q f ≡ false
        → ((g : ℕ) → holds n i p g ≡ ((g == f) || holds n i q g))
        → Keeps (Unit {0}) (IsLaid n total) (puts_down i f q d)
    puts_down-Sound f q new gone less =
        rw (in_hand f (rw e (ground (arith, less f))))
          (IsLaid-put laid i room f q new gone (λ g. rw e (less g)))

  act-Sound : (p : Phase) → d.phase i ≡ p → Keeps (Unit {0}) (IsLaid n total) (act n total i p d)
  unfolding act holds
  act-Sound tests e = elim (Bool-cases (ltb (d.meals i) total)) [
    | inl lt ↦ rw lt (goes-IsLaid tests e (thinks 0) (ground (arith, lt)) (λ f. refl))
    | inr ge ↦ rw ge (goes-IsLaid tests e finished (ground (arith, ge, fits tests e)) (λ f. refl))
  ]
  act-Sound (thinks k) e = elim (Bool-cases (ltb k 3)) [
    | inl lt ↦ rw lt (goes-IsLaid (thinks k) e (thinks (k + 1)) (fits (thinks k) e) (λ f. refl))
    | inr ge ↦ rw ge (goes-IsLaid (thinks k) e wants_first (fits (thinks k) e) (λ f. refl))
  ]
  act-Sound wants_first e =
      picks_up-Sound wants_first e (first n i) has_first (fits wants_first e) (λ g. ground arith)
  act-Sound has_first e = goes-IsLaid has_first e wants_second (fits has_first e) (λ f. refl)
  act-Sound wants_second e =
      picks_up-Sound wants_second e (second n i) (eats 0) (fits wants_second e) (λ g. ground arith)
  act-Sound (eats k) e = elim (Bool-cases (ltb k 2)) [
    | inl lt ↦ rw lt (goes-IsLaid (eats k) e (eats (k + 1)) (fits (eats k) e) (λ f. refl))
    | inr ge ↦ rw ge (
        IsLaid-stay laid i room (update d.meals i (d.meals i + 1)) drops_second
          (λ j ne. update_other d.meals i (d.meals i + 1) j ne)
          (rw (update_same d.meals i (d.meals i + 1)) (omega (arith, fits (eats k) e)))
          (λ f. rw e refl))
  ]
  act-Sound drops_second e =
      puts_down-Sound drops_second e (second n i) drops_first (fits drops_second e)
        (ground (arith, first-lt-second n i few room)) (λ g. ground arith)
  act-Sound drops_first e =
      puts_down-Sound drops_first e (first n i) tests (fits drops_first e) refl (λ g. ground arith)
  act-Sound finished e = tt

pub served-IsLaid : (n total : ℕ) → IsLaid n total served
unfolding holds
served-IsLaid n total = record {
  mine = λ i lt f h. absurd (cc h);
  owned = λ f h. absurd (cc h);
  fit = λ i lt. omega arith;
}

module _ (n total : ℕ) (few : 2 ≤ n) where
  pub turn-Keeps :
      (d : Dinner)
      → IsLaid n total d
      → (i : ℕ) → i < n
      → Keeps (Unit {0}) (IsLaid n total) (turn n total i d)
  turn-Keeps d laid i room = act-Sound few laid i room (d.phase i) refl

  pub served-Run-IsLaid : {k : ℕ} {d : Dinner} → Run n (turn n total) served k d → IsLaid n total d
  served-Run-IsLaid run =
      Run-keeps (Unit {0}) (IsLaid n total) turn-Keeps (served-IsLaid n total) run

  module _ {k : ℕ} {d : Dinner} (run : Run n (turn n total) served k d) where
    never_fails : (i : ℕ) → i < n → act n total i (d.phase i) d ≢ fails
    never_fails i room e =
        subst (Keeps (Unit {0}) (IsLaid n total)) e (turn-Keeps d (served-Run-IsLaid run) i room)

    -- For two philosophers or more, after every run from the start: a fork in the hands of a
    -- philosopher is in no other's; it is locked, with this philosopher as its owner, whose next
    -- step fails no assertion.
    pub forks_held_once :
        (i j f : ℕ)
        → i < n
        → j < n
        → holds n i (d.phase i) f ≡ true
        → holds n j (d.phase j) f ≡ true
        → (i ≡ j) × (d.forks f ≡ taken_by i) × (act n total i (d.phase i) d ≢ fails)
    forks_held_once i j f li lj hi hj =
        let laid = served-Run-IsLaid run in
        let one = ap Mutex.owner (sym (laid.mine i li f hi) ∙ laid.mine j lj f hj) in
        (omega (arith, one), laid.mine i li f hi, never_fails i li)
