-- ===== src/Queue/Untouched.antt =====
-- What a wake-up leaves alone.
use comp_arch_project.Base.{
  ◌≤◌, ◌≡◌, refl, ap, false, List, [], ◌∷◌, arith, length, has, has-append, ◌==◌, ==_iff,
  Bool-cases, inl, inr,
}
use comp_arch_project.Machine.{Ptr}
use comp_arch_project.Queue.Spec.{Queues, IsLoose, wake_from, wake_first}

-- A thread that is in no queue is not touched by a wake-up of others.
module _ (a : Queues) (q t : Ptr) (loose : IsLoose a t) where
  other : (x : Ptr) (xs : List Ptr) → a.wait q ≡ x ∷ xs → (t == x) ≡ false
  other x xs e = ground (arith, loose.not_wait q, ap (has t) e)

  wake_from-untouched :
      (ts : List Ptr)
      → a.wait q ≡ ts
      → IsLoose (wake_from q ts a) t × ((wake_from q ts a).cells t ≡ a.cells t)
  wake_from-untouched [] e = (loose, refl)
  wake_from-untouched (x ∷ xs) e = (
    record {
      not_run = ground (arith, has-append t a.run (x ∷ []), loose.not_run, other x xs e);
      not_wait = λ r. elim (Bool-cases (r == q)) [
        | inl here ↦ rw here (ground (arith, loose.not_wait q, ap (has t) e))
        | inr apart ↦ rw apart (loose.not_wait r)
      ];
    },
    rw (other x xs e),
  )

  pub wake_first-untouched : IsLoose (wake_first q a) t × ((wake_first q a).cells t ≡ a.cells t)
  wake_first-untouched = wake_from-untouched (a.wait q) refl

wake_from-shorter :
    (a : Queues) (q r : Ptr) (ts : List Ptr)
    → a.wait q ≡ ts
    → length ((wake_from q ts a).wait r) ≤ length (a.wait r)
wake_from-shorter a q r [] e = omega arith
wake_from-shorter a q r (x ∷ xs) e = elim (Bool-cases (r == q)) [
  | inl here ↦ rw (here, (==_iff r q).0 here) (omega (arith, ap length e))
  | inr apart ↦ rw apart (omega arith)
]

-- No wait queue grows.
pub wake_first-shorter :
    (a : Queues) (q r : Ptr) → length ((wake_first q a).wait r) ≤ length (a.wait r)
wake_first-shorter a q r = wake_from-shorter a q r (a.wait q) refl
