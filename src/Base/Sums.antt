-- ===== src/Base/Sums.antt =====
-- Sums of the first values of a function.
use Prim.Native.Nat.{ℕ, zero, suc, ◌+◌, ◌*◌, ◌≤◌, ◌<◌}
use mathlib.Core.Path.{◌≡◌, subst, sym, ap, ◌∙◌}
use mathlib.Core.Logic.{◌≢◌, inl, inr}
use native.Mathlib.Omega.{arith}
use comp_arch_project.Base.Tests.{
  ◌==◌, update, update_same, update_other, ==_iff, ne-==_iff, Bool-cases,
}

-- The sum of the first `m` values.
abbrev pub total_of : ℕ → (ℕ → ℕ) → ℕ
total_of zero f = 0
total_of (suc m) f = total_of m f + f m

pub total_of-same :
    (m : ℕ) (f g : ℕ → ℕ) → ((j : ℕ) → j < m → f j ≡ g j) → total_of m f ≡ total_of m g
total_of-same zero f g same = omega arith
total_of-same (suc m) f g same =
    omega (arith, total_of-same m f g (λ j lt. same j (omega arith)), same m (omega arith))

-- One value changes, and the others stay.
pub total_of-change :
    (m i : ℕ) (f g : ℕ → ℕ)
    → i < m
    → ((j : ℕ) → j ≢ i → f j ≡ g j)
    → total_of m g + f i ≡ total_of m f + g i
total_of-change zero i f g lt same = absurd (omega arith)
total_of-change (suc m) i f g lt same = elim (Bool-cases (m == i)) [
  | inl e ↦
      let at = (==_iff m i).0 e in
      let below = total_of-same m f g (λ j b. same j (omega arith)) in
      subst (λ k. total_of (suc m) g + f k ≡ total_of (suc m) f + g k) at (omega (arith, below))
  | inr e ↦ omega (
    arith,
    same m ((ne-==_iff m i).0 e),
    total_of-change m i f g (omega (arith, (ne-==_iff m i).0 e)) same,
  )
]

pub total_of-const : (m c : ℕ) → total_of m (λ j. c) ≡ m * c
total_of-const zero c = omega arith
total_of-const (suc m) c = omega (arith, total_of-const m c)

-- One value is at most the sum.
pub total_of-le : (m i : ℕ) (f : ℕ → ℕ) → i < m → f i ≤ total_of m f
total_of-le zero i f lt = absurd (omega arith)
total_of-le (suc m) i f lt = elim (Bool-cases (m == i)) [
  | inl e ↦ subst (λ k. f k ≤ total_of m f + f m) ((==_iff m i).0 e) (omega arith)
  | inr e ↦ omega (arith, total_of-le m i f (omega (arith, (ne-==_iff m i).0 e)))
]

-- The sums of smaller values.
pub total_of_mono :
    (m : ℕ) (f g : ℕ → ℕ) → ((j : ℕ) → j < m → f j ≤ g j) → total_of m f ≤ total_of m g
total_of_mono zero f g small = omega arith
total_of_mono (suc m) f g small =
    omega (arith, total_of_mono m f g (λ j lt. small j (omega arith)), small m (omega arith))

pub total_of-strict :
    (m i : ℕ) (f g : ℕ → ℕ)
    → i < m
    → f i < g i
    → ((j : ℕ) → j < m → f j ≤ g j)
    → total_of m f < total_of m g
total_of-strict zero i f g lt less small = absurd (omega arith)
total_of-strict (suc m) i f g lt less small = elim (Bool-cases (m == i)) [
  | inl e ↦
      let below = total_of_mono m f g (λ j b. small j (omega arith)) in
      let here : f m < g m = subst (λ k. f k < g k) (sym ((==_iff m i).0 e)) less in
      omega (arith, below, here)
  | inr e ↦ omega (
    arith,
    small m (omega arith),
    total_of-strict m i f g (omega (arith, (ne-==_iff m i).0 e)) less
        (λ j b. small j (omega arith)),
  )
]

-- The sum of a weight over the threads.
unfoldable pub sum : {P : Type 0} → ℕ → (ℕ → P → ℕ) → (ℕ → P) → ℕ
sum n weight phase = total_of n (λ t. weight t (phase t))

module _ {P : Type 0} (n : ℕ) (weight : ℕ → P → ℕ) (phase : ℕ → P) where
  -- Thread `t` goes to `q`, and the weight of the others stays.
  pub sum-change :
      (next : ℕ → P) (t : ℕ)
      → t < n
      → ((j : ℕ) → j ≢ t → weight j (phase j) ≡ weight j (next j))
      → sum n weight next + weight t (phase t) ≡ sum n weight phase + weight t (next t)
  unfolding sum
  sum-change next t lt same =
      total_of-change n t (λ j. weight j (phase j)) (λ j. weight j (next j)) lt same

  pub sum-update :
      (t : ℕ) (q : P)
      → t < n
      → sum n weight (update phase t q) + weight t (phase t) ≡ sum n weight phase + weight t q
  sum-update t q lt =
      sum-change (update phase t q) t lt (λ j ne. ap (weight j) (sym (update_other phase t q j ne)))
      ∙ ap (λ (p : P). sum n weight phase + weight t p) (update_same phase t q)

  pub sum-le : (t : ℕ) → t < n → weight t (phase t) ≤ sum n weight phase
  unfolding sum
  sum-le t lt = total_of-le n t (λ j. weight j (phase j)) lt

  pub sum-zero : ((t : ℕ) → t < n → weight t (phase t) ≡ 0) → sum n weight phase ≡ 0
  unfolding sum
  sum-zero none =
      total_of-same n (λ t. weight t (phase t)) (λ t. 0) none ∙ total_of-const n 0 ∙ omega arith

  -- Two threads.
  pub sum-two :
      (t u : ℕ)
      → t < n
      → u < n
      → t ≢ u
      → weight t (phase t) + weight u (phase u) ≤ sum n weight phase
  unfolding sum
  sum-two t u lt lu ne =
      let f = λ (j : ℕ). weight j (phase j) in
      let rest = total_of-change n t f (update f t 0) lt (λ j nj. sym (update_other f t 0 j nj)) in
      let one = total_of-le n u (update f t 0) lu in
      omega (arith, rest, one, update_same f t 0, update_other f t 0 u (λ e. ne (sym e)))

pub total_of-plus : (m v : ℕ) (f : ℕ → ℕ) → total_of m (λ j. f j + v) ≡ total_of m f + m * v
total_of-plus zero v f = omega arith
total_of-plus (suc m) v f = omega (arith, total_of-plus m v f)
