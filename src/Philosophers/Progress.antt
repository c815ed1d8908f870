-- ===== src/Philosophers/Progress.antt =====
-- No deadlock among the philosophers of examples/philosophers.c, and the end of the dinner.
use comp_arch_project.Base.{
  ℕ, zero, suc, ◌+◌, ◌≤◌, ◌<◌, ◌≡◌, ◌≢◌, refl, ap, ◌⊎◌, inl, inr, Bool, true, false, not, ltb,
  arith, Bool-cases, if_true, if_false, ==_refl,
}
use comp_arch_project.Program.Running.{Moves, some-or-none}
use comp_arch_project.Philosophers.{
  Phase, Dinner, tests, thinks, wants_first, has_first, wants_second, eats, drops_second,
  drops_first, finished, first, second, act, puts_down,
}
use comp_arch_project.Program.{moves}
use comp_arch_project.Philosophers.Forks.{first-lt-second}
use comp_arch_project.Philosophers.Table.{holds, IsLaid}
use comp_arch_project.Philosophers.Keeping.{in_hand}

-- The philosopher waits at a held fork, with lower forks in its hands.
record Blocked (n i : ℕ) (p : Phase) (d : Dinner) : Type 0 where
  fork : ℕ
  below : fork < n
  held : (d.forks fork).locked ≡ true
  lower : (g : ℕ) → holds n i p g ≡ true → g < fork

abbrev Advance : (n total i : ℕ) → Phase → Dinner → Type 0
Advance n total i p d = Moves (act n total i p d) ⊎ Blocked n i p d

module _ {n total : ℕ} {d : Dinner} (few : 2 ≤ n) (laid : IsLaid n total d) where
  module _ (i : ℕ) (room : i < n) where
    unlocks :
        (f : ℕ) (q : Phase)
        → holds n i (d.phase i) f ≡ true
        → (d' : Dinner) × (puts_down i f q d ≡ moves d')
    unlocks f q h = (_, if_true _ _ (in_hand few laid i room f h))

    advance : (p : Phase) → d.phase i ≡ p → p ≢ finished → Advance n total i p d
    unfolding act holds
    advance tests e _ = inl (_, refl)
    advance (thinks k) e _ = inl (_, refl)
    advance wants_first e _ = elim (Bool-cases (d.forks (first n i)).locked) [
      | inl held ↦ inr (record {
        fork = first n i;
        below = omega (arith, first-lt-second n i few room);
        held = held;
        lower = λ g h. absurd (cc h);
      })
      | inr free ↦ inl (_, if_false _ _ free)
    ]
    advance has_first e _ = inl (_, refl)
    advance wants_second e _ = elim (Bool-cases (d.forks (second n i)).locked) [
      | inl held ↦ inr (record {
        fork = second n i;
        below = omega (arith, first-lt-second n i few room);
        held = held;
        lower = λ g h. ground (arith, h, first-lt-second n i few room);
      })
      | inr free ↦ inl (_, if_false _ _ free)
    ]
    advance (eats k) e _ = elim (Bool-cases (ltb k 2)) [
      | inl lt ↦ inl (_, if_true _ _ lt)
      | inr ge ↦ inl (_, if_false _ _ ge)
    ]
    advance drops_second e _ =
        inl (unlocks (second n i) drops_first (rw e (ground (arith, ==_refl (second n i)))))
    advance drops_first e _ = inl (unlocks (first n i) tests (rw e (==_refl (first n i))))
    advance finished e going = absurd (going refl)

  -- Up the forks from a held one there is a philosopher who moves.
  climb :
      (k f : ℕ)
      → n ≤ f + k
      → f < n
      → (d.forks f).locked ≡ true
      → (j : ℕ) × (j < n) × Moves (act n total j (d.phase j) d)
  unfolding holds
  climb zero f enough below held = absurd (omega arith)
  climb (suc k) f enough below held =
      let (j, room, has) = laid.owned f held in
      let going : d.phase j ≢ finished = λ over. cc (has, ap (λ (p : Phase). holds n j p f) over) in
      elim (advance j room (d.phase j) refl going) [
        | inl moving ↦ (j, room, moving)
        | inr b ↦ climb k b.fork (omega (arith, b.lower f has)) b.below b.held
      ]

  pub no_deadlock :
      (i : ℕ)
      → i < n
      → d.phase i ≢ finished
      → (j : ℕ) × (j < n) × Moves (act n total j (d.phase j) d)
  no_deadlock i room going = elim (advance i room (d.phase i) refl going) [
    | inl moving ↦ (i, room, moving)
    | inr b ↦ climb n b.fork (omega arith) b.below b.held
  ]

is_finished : Phase → Bool
is_finished finished = true
is_finished tests = false
is_finished (thinks k) = false
is_finished wants_first = false
is_finished has_first = false
is_finished wants_second = false
is_finished (eats k) = false
is_finished drops_second = false
is_finished drops_first = false

not_finished : (p : Phase) → is_finished p ≡ false → p ≢ finished
unfolding is_finished
not_finished p e over = cc (e, ap is_finished over)

is_finished-eq : (p : Phase) → is_finished p ≡ true → p ≡ finished
unfolding is_finished
is_finished-eq finished e = refl
is_finished-eq tests e = absurd (cc e)
is_finished-eq (thinks k) e = absurd (cc e)
is_finished-eq wants_first e = absurd (cc e)
is_finished-eq has_first e = absurd (cc e)
is_finished-eq wants_second e = absurd (cc e)
is_finished-eq (eats k) e = absurd (cc e)
is_finished-eq drops_second e = absurd (cc e)
is_finished-eq drops_first e = absurd (cc e)

-- All have finished, or one of them moves.
pub next_or_over :
    (n total : ℕ)
    → 2 ≤ n
    → (d : Dinner) → IsLaid n total d
    → ((i : ℕ) → i < n → d.phase i ≡ finished)
      ⊎ ((i : ℕ) × (i < n) × Moves (act n total i (d.phase i) d))
next_or_over n total few d laid = elim (some-or-none n (λ i. not (is_finished (d.phase i)))) [
  | inl (i, room, going) ↦
      inr (no_deadlock few laid i room (not_finished (d.phase i) (ground (arith, going))))
  | inr all ↦ inl λ i room. is_finished-eq (d.phase i) (ground (arith, all i room))
]
