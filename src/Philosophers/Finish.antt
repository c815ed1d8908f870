-- ===== src/Philosophers/Finish.antt =====
-- The dinner of examples/philosophers.c comes to its end.
use comp_arch_project.Base.{
  ℕ, ◌+◌, ◌-◌, ◌*◌, ◌≤◌, ◌<◌, ◌≡◌, ◌≢◌, refl, subst, sym, ap, ◌∙◌, ◌⊎◌, inl, inr, ◌==◌, ltb, arith,
  update, update_same, update_other, Bool-cases,
}
use comp_arch_project.Base.Sums.{total_of, total_of-same, total_of-change, total_of-const}
use comp_arch_project.Machine.{Mutex}
use comp_arch_project.Philosophers.{
  Phase, Dinner, tests, thinks, wants_first, has_first, wants_second, eats, drops_second,
  drops_first, finished, first, second, act, served, picks_up, puts_down,
}
use comp_arch_project.Program.{
  Outcome, moves, waits, fails, ends, traps, tid_of, taken_by, free_mutex,
}
use comp_arch_project.Philosophers.Table.{MealsFit, IsLaid}
use comp_arch_project.Philosophers.Keeping.{turn, turn-Keeps, served-IsLaid, served-Run-IsLaid}
use comp_arch_project.Program.Running.{Run, Run-bound, Moves, Finish, finish}
use comp_arch_project.Philosophers.Progress.{next_or_over}

-- The steps a philosopher has left with `r` meals to come.
abbrev pub steps_left : Phase → ℕ → ℕ
steps_left tests r = 13 * r + 1
steps_left (thinks k) r = 13 * (r - 1) + 10 + (3 - k)
steps_left wants_first r = 13 * (r - 1) + 9
steps_left has_first r = 13 * (r - 1) + 8
steps_left wants_second r = 13 * (r - 1) + 7
steps_left (eats k) r = 13 * (r - 1) + 4 + (2 - k)
steps_left drops_second r = 13 * r + 3
steps_left drops_first r = 13 * r + 2
steps_left finished r = 0

abbrev pub left_of_one : (total : ℕ) → Dinner → ℕ → ℕ
left_of_one total d i = steps_left (d.phase i) (total - d.meals i)

-- What a move brings: fewer steps left for `i`, and as many for the others.
abbrev Nearer : (total i : ℕ) → Dinner → Outcome Dinner → Type 0
Nearer total i d (moves d') =
    (left_of_one total d' i < left_of_one total d i)
    × ((j : ℕ) → j ≢ i → left_of_one total d j ≡ left_of_one total d' j)
Nearer total i d waits = Unit
Nearer total i d fails = Unit
Nearer total i d ends = Unit
Nearer total i d traps = Unit

module _ {n total : ℕ} {d : Dinner} (laid : IsLaid n total d) (i : ℕ) (room : i < n) where
  module _ (p : Phase) (e : d.phase i ≡ p) where
    fits : MealsFit p (d.meals i) total
    fits = subst (λ (q : Phase). MealsFit q (d.meals i) total) e (laid.fit i room)

    goes-Nearer :
        (fk : ℕ → Mutex) (q : Phase)
        → steps_left q (total - d.meals i) < steps_left p (total - d.meals i)
        → Nearer total i d
            (moves (record { forks = fk; meals = d.meals; phase = update d.phase i q }))
    goes-Nearer fk q less = (
      rw (update_same d.phase i q, e) less,
      λ j ne.
          ap (λ (r : Phase). steps_left r (total - d.meals j))
            (sym (update_other d.phase i q j ne)),
    )

    picks_up-Nearer :
        (f : ℕ) (q : Phase)
        → steps_left q (total - d.meals i) < steps_left p (total - d.meals i)
        → Nearer total i d (picks_up i f q d)
    picks_up-Nearer f q less = elim (Bool-cases (d.forks f).locked) [
      | inl held ↦ rw held tt
      | inr free ↦ rw free (goes-Nearer (update d.forks f (taken_by i)) q less)
    ]

    puts_down-Nearer :
        (f : ℕ) (q : Phase)
        → steps_left q (total - d.meals i) < steps_left p (total - d.meals i)
        → Nearer total i d (puts_down i f q d)
    puts_down-Nearer f q less = elim (Bool-cases ((d.forks f).owner == tid_of i)) [
      | inl own ↦ rw own (goes-Nearer (update d.forks f free_mutex) q less)
      | inr other ↦ rw other tt
    ]

  act-Nearer : (p : Phase) → d.phase i ≡ p → Nearer total i d (act n total i p d)
  unfolding act
  act-Nearer tests e = elim (Bool-cases (ltb (d.meals i) total)) [
    | inl lt ↦ rw lt (goes-Nearer tests e d.forks (thinks 0) (ground (arith, lt)))
    | inr ge ↦ rw ge (goes-Nearer tests e d.forks finished (omega arith))
  ]
  act-Nearer (thinks k) e = elim (Bool-cases (ltb k 3)) [
    | inl lt ↦ rw lt (goes-Nearer (thinks k) e d.forks (thinks (k + 1)) (ground (arith, lt)))
    | inr ge ↦ rw ge (goes-Nearer (thinks k) e d.forks wants_first (omega arith))
  ]
  act-Nearer wants_first e = picks_up-Nearer wants_first e (first n i) has_first (omega arith)
  act-Nearer has_first e = goes-Nearer has_first e d.forks wants_second (omega arith)
  act-Nearer wants_second e = picks_up-Nearer wants_second e (second n i) (eats 0) (omega arith)
  act-Nearer (eats k) e = elim (Bool-cases (ltb k 2)) [
    | inl lt ↦ rw lt (goes-Nearer (eats k) e d.forks (eats (k + 1)) (ground (arith, lt)))
    | inr ge ↦ rw ge (
      rw (update_same d.phase i drops_second, update_same d.meals i (d.meals i + 1), e)
          (omega (arith, fits (eats k) e)),
      λ j ne.
          rw (update_other d.phase i drops_second j ne, update_other d.meals i (d.meals i + 1) j ne)
            refl,
    )
  ]
  act-Nearer drops_second e = puts_down-Nearer drops_second e (second n i) drops_first (omega arith)
  act-Nearer drops_first e = puts_down-Nearer drops_first e (first n i) tests (omega arith)
  act-Nearer finished e = tt

abbrev pub all_left : (n total : ℕ) → Dinner → ℕ
all_left n total d = total_of n (left_of_one total d)

module _ (n total : ℕ) (few : 2 ≤ n) where
  turn-less :
      (d d' : Dinner)
      → IsLaid n total d
      → (i : ℕ) → i < n
      → turn n total i d ≡ moves d'
      → all_left n total d' < all_left n total d
  turn-less d d' laid i room e =
      let (less, same) = subst (Nearer total i d) e (act-Nearer laid i room (d.phase i) refl) in
      omega
        (arith, total_of-change n i (left_of_one total d) (left_of_one total d') room same, less)

all_left-served : (n total : ℕ) → all_left n total served ≡ n * (13 * total + 1)
all_left-served n total =
    total_of-same n (left_of_one total served) (λ j. 13 * total + 1) (λ j lt. omega arith)
    ∙ total_of-const n (13 * total + 1)

-- Every philosopher has finished, with all the meals.
abbrev pub AllServed : (n total : ℕ) → Dinner → Type 0
AllServed n total d = (i : ℕ) → i < n → (d.phase i ≡ finished) × (d.meals i ≡ total)

next_or_served :
    (n total : ℕ)
    → 2 ≤ n
    → (d : Dinner) → IsLaid n total d
    → AllServed n total d ⊎ ((i : ℕ) × (i < n) × Moves (turn n total i d))
next_or_served n total few d laid = elim (next_or_over n total few d laid) [
  | inr moving ↦ inr moving
  | inl all ↦ inl λ i lt.
      (all i lt, subst (λ (p : Phase). MealsFit p (d.meals i) total) (all i lt) (laid.fit i lt))
]

-- For two philosophers or more, and a number of meals each: every run of the program from its
-- start, with its philosophers moving in any order, has at most so many steps as there are
-- philosophers times 13 per meal and one. After it all philosophers have finished with exactly
-- their meals, or one of them can move, so that there is no deadlock; and some further run leads to
-- where all have finished with exactly their meals.
pub dinner-ends :
    (n total : ℕ)
    → 2 ≤ n
    → {k : ℕ} {d : Dinner} → Run n (turn n total) served k d
    → (k ≤ n * (13 * total + 1))
      × (AllServed n total d ⊎ ((i : ℕ) × (i < n) × Moves (turn n total i d)))
      × Finish n (turn n total) (AllServed n total) d
dinner-ends n total few {k} {d} run =
    let laid = served-Run-IsLaid n total few run in
    let bound =
      Run-bound (Unit {0}) (IsLaid n total) (turn-Keeps n total few) (all_left n total)
        (turn-less n total few) (served-IsLaid n total) run in
    (
      omega (arith, bound, all_left-served n total),
      next_or_served n total few d laid,
      finish (Unit {0}) (IsLaid n total) (turn-Keeps n total few) (all_left n total)
          (turn-less n total few) (AllServed n total) (next_or_served n total few) d laid,
    )
