-- ===== src/Program/Running.antt =====
-- The runs of an example: one thread after the other moves, in any order. What every step keeps
-- holds after every run, and steps that bring the end nearer come to it.
use comp_arch_project.Base.{
  ℕ, zero, suc, ◌+◌, ◌≤◌, ◌<◌, ◌≡◌, ◌≢◌, ◌⊎◌, inl, inr, subst, arith, ltb, Bool, true, false, ◌==◌,
  Bool-cases, ==_iff, ne-==_iff,
}
use comp_arch_project.Program.{Outcome, moves, waits, fails, ends, traps, checked}
use comp_arch_project.Sem.{int_max}

-- One of the `n` threads moves.
pub data Step {S : Type 0} (n : ℕ) (act : ℕ → S → Outcome S) : S → S → Type 0 where
  steps : {s s' : S} (i : ℕ) → i < n → act i s ≡ moves s' → Step n act s s'

-- `k` steps.
pub data Run {S : Type 0} (n : ℕ) (act : ℕ → S → Outcome S) : S → ℕ → S → Type 0 where
  done : {s : S} → Run n act s zero s
  onward : {s s' t : S} {k : ℕ} → Step n act s s' → Run n act s' k t → Run n act s (suc k) t

-- A state in which all is over, and a run that leads to it.
pub record Finish {S : Type 0} (n : ℕ) (act : ℕ → S → Outcome S) (Over : S → Type 0) (s : S)
    : Type 0 where
  pub count : ℕ
  pub final : S
  pub run : Run n act s count final
  pub over : Over final

abbrev pub Moves : {S : Type 0} → Outcome S → Type 0
Moves {S} o = (s' : S) × (o ≡ moves s')

-- No thread's next step fails an assertion or traps.
abbrev pub NoFault : {S : Type 0} → (n : ℕ) → (act : ℕ → S → Outcome S) → S → Type 0
NoFault n act s = (t : ℕ) → t < n → (act t s ≢ fails) × (act t s ≢ traps)

-- The step keeps `I`, fails no assertion, and does not trap where the bounds `R` hold.
abbrev pub Keeps : {S : Type 0} → (R : Type 0) → (S → Type 0) → Outcome S → Type 0
Keeps R I (moves s) = I s
Keeps R I waits = Unit
Keeps R I fails = ⊥
Keeps R I ends = Unit
Keeps R I traps = R → ⊥

pub checked-holds :
    {S : Type 0} (P : Outcome S → Type 0) (v : ℕ) (o : Outcome S) → P traps → P o → P (checked v o)
checked-holds P v o trapped on = elim (Bool-cases (ltb int_max v)) [
  | inl over ↦ rw over trapped
  | inr fits ↦ rw fits on
]

pub checked-Keeps :
    {S : Type 0} {R : Type 0} (I : S → Type 0) (v : ℕ) (o : Outcome S)
    → (R → v ≤ int_max)
    → Keeps R I o
    → Keeps R I (checked v o)
checked-Keeps I v o small on = elim (Bool-cases (ltb int_max v)) [
  | inl over ↦ rw over (λ r. ground (arith, over, small r))
  | inr fits ↦ rw fits on
]

module _ {S : Type 0} {n : ℕ} {act : ℕ → S → Outcome S} (R : Type 0) (I : S → Type 0)
    (keeps : (s : S) → I s → (i : ℕ) → i < n → Keeps R I (act i s)) where
  pub Step-keeps : {s s' : S} → I s → Step n act s s' → I s'
  Step-keeps inv (steps {s} i lt e) = subst (Keeps R I) e (keeps s inv i lt)

  pub Run-keeps : {s t : S} {k : ℕ} → I s → Run n act s k t → I t
  Run-keeps inv done = inv
  Run-keeps inv (onward step rest) = Run-keeps (Step-keeps inv step) rest

  module _ (left : S → ℕ)
      (less : (s s' : S) → I s → (i : ℕ) → i < n → act i s ≡ moves s' → left s' < left s) where
    pub Run-bound : {s t : S} {k : ℕ} → I s → Run n act s k t → k + left t ≤ left s
    Run-bound inv done = omega arith
    Run-bound inv (onward (steps {s} {s'} i lt e) rest) =
        omega (arith, less s s' inv i lt e, Run-bound (Step-keeps inv (steps i lt e)) rest)

    module _ (Over : S → Type 0)
        (next : (s : S) → I s → Over s ⊎ ((i : ℕ) × (i < n) × Moves (act i s))) where
      within_fuel : (fuel : ℕ) (s : S) → I s → left s ≤ fuel → Finish n act Over s
      within_fuel zero s inv enough = elim (next s inv) [
        | inl over ↦ record { count = 0; final = s; run = done; over = over }
        | inr (i, lt, (s', e)) ↦ absurd (omega (arith, less s s' inv i lt e))
      ]
      within_fuel (suc fuel) s inv enough = elim (next s inv) [
        | inl over ↦ record { count = 0; final = s; run = done; over = over }
        | inr (i, lt, (s', e)) ↦
            let step = steps i lt e in
            let rest =
              within_fuel fuel s' (Step-keeps inv step) (omega (arith, less s s' inv i lt e)) in
            record {
              count = suc rest.count;
              final = rest.final;
              run = onward step rest.run;
              over = rest.over;
            }
      ]

      pub finish : (s : S) → I s → Finish n act Over s
      finish s inv = within_fuel (left s) s inv (omega arith)

-- Some thread below `n` passes the test, or none does.
pub some-or-none :
    (n : ℕ) (P : ℕ → Bool) → ((i : ℕ) × (i < n) × (P i ≡ true)) ⊎ ((i : ℕ) → i < n → P i ≡ false)
some-or-none zero P = inr λ i lt. absurd (omega arith)
some-or-none (suc n) P = elim (Bool-cases (P n)) [
  | inl yes_n ↦ inl (n, omega arith, yes_n)
  | inr no_n ↦ elim (some-or-none n P) [
    | inl (i, lt, h) ↦ inl (i, omega arith, h)
    | inr none ↦ inr λ i lt. elim (Bool-cases (i == n)) [
      | inl e ↦ rw ((==_iff i n).0 e) no_n
      | inr e ↦ none i (omega (arith, (ne-==_iff i n).0 e))
    ]
  ]
]
