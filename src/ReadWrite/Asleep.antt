-- ===== src/ReadWrite/Asleep.antt =====
-- examples/readers_writers.c: the threads that sleep in a condition.
use comp_arch_project.Base.{
  ℕ, ◌≡◌, ◌≢◌, refl, sym, ◌∙◌, inl, inr, Bool, true, false, ◌&&◌, not, ◌==◌, arith, Bool-cases,
  ==_iff, ne-==_iff, ==_refl, has, has-append, AllDistinct, AllDistinct-snoc, List, [], ◌∷◌, ◌++◌,
}
use comp_arch_project.ReadWrite.{
  Phase, tests, wants_in, checks, sleeps, wakes, enters, works, wants_out, signals, leaves, rests,
  finished, woken, wake, first_of, rest_of,
}

-- The list has each thread once that is in, and no other.
pub record IsQueue (inside : ℕ → Bool) (l : List ℕ) : Type 0 where
  pub distinct : AllDistinct l
  pub listed : (t : ℕ) → has t l ≡ inside t

module _ {inside : ℕ → Bool} {l : List ℕ} (queue : IsQueue inside l) (next : ℕ → Bool) where
  pub IsQueue-same : ((t : ℕ) → next t ≡ inside t) → IsQueue next l
  IsQueue-same same = record {
    distinct = queue.distinct;
    listed = λ t. queue.listed t ∙ sym (same t);
  }

  pub IsQueue-push :
      (t : ℕ)
      → inside t ≡ false
      → next t ≡ true
      → ((j : ℕ) → j ≢ t → next j ≡ inside j)
      → IsQueue next (l ++ t ∷ [])
  IsQueue-push t out in_now same = record {
    distinct = AllDistinct-snoc l t queue.distinct (queue.listed t ∙ out);
    listed = λ j. elim (Bool-cases (j == t)) [
      | inl e ↦
          let at = (==_iff j t).0 e in
          rw (at, has-append t l (t ∷ []), in_now) (ground (arith, ==_refl t))
      | inr e ↦
          rw (has-append j l (t ∷ []), same j ((ne-==_iff j t).0 e))
            (ground (arith, e, queue.listed j))
    ];
  }

pub IsQueue-pop :
    {inside : ℕ → Bool} {l : List ℕ} (queue : IsQueue inside l) (next : ℕ → Bool)
    → ((t : ℕ) → next t ≡ (inside t && not (has t (first_of l))))
    → IsQueue next (rest_of l)
IsQueue-pop {l = []} queue next same = record {
  distinct = tt;
  listed = λ t. ground (arith, same t, queue.listed t);
}
IsQueue-pop {l = h ∷ r} queue next same = record {
  distinct = queue.distinct.1;
  listed = λ t. elim (Bool-cases (t == h)) [
    | inl e ↦ rw ((==_iff t h).0 e) (ground (arith, queue.distinct.0, same h, ==_refl h))
    | inr e ↦ ground (arith, e, same t, queue.listed t)
  ];
}

pub IsQueue-clear : (next : ℕ → Bool) → ((t : ℕ) → next t ≡ false) → IsQueue next []
IsQueue-clear next none = record { distinct = tt; listed = λ t. sym (none t) }

abbrev pub asleep : Phase → Bool
asleep (sleeps i) = true
asleep (tests i) = false
asleep (wants_in i) = false
asleep (checks i) = false
asleep (wakes i) = false
asleep (enters i) = false
asleep (works i) = false
asleep (wants_out i) = false
asleep (signals i) = false
asleep (leaves i) = false
asleep (rests i) = false
asleep finished = false

-- Nobody sleeps who has been woken.
pub asleep-woken : (p : Phase) → asleep (woken p) ≡ false
asleep-woken (sleeps i) = refl
asleep-woken (tests i) = refl
asleep-woken (wants_in i) = refl
asleep-woken (checks i) = refl
asleep-woken (wakes i) = refl
asleep-woken (enters i) = refl
asleep-woken (works i) = refl
asleep-woken (wants_out i) = refl
asleep-woken (signals i) = refl
asleep-woken (leaves i) = refl
asleep-woken (rests i) = refl
asleep-woken finished = refl

pub asleep-wake :
    (l : List ℕ) (phase : ℕ → Phase) (t : ℕ)
    → asleep (wake l phase t) ≡ (asleep (phase t) && not (has t l))
asleep-wake l phase t = elim (Bool-cases (has t l)) [
  | inl e ↦ rw (e, asleep-woken (phase t)) (ground arith)
  | inr e ↦ rw e (ground arith)
]
