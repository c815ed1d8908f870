-- ===== src/Program/Guarded.antt =====
-- A mutex that guards a section of the threads of an example: src/mutex.c as the examples use it.
use comp_arch_project.Base.{
  ℕ, ◌<◌, ◌≡◌, ◌≢◌, refl, sym, ap, ◌∙◌, subst, inl, inr, Bool, true, false, ◌==◌, arith, Bool-cases,
  ==_iff, ne-==_iff, ==_refl,
}
use comp_arch_project.Machine.{Mutex}
use comp_arch_project.Program.{tid_of, taken_by, free_mutex}

-- The lock is the thread's that is inside, and is held for some thread only.
pub record IsGuarded (n : ℕ) (lock : Mutex) (inside : ℕ → Bool) : Type 0 where
  pub mine : (t : ℕ) → t < n → inside t ≡ true → lock ≡ taken_by t
  pub owned : lock.locked ≡ true → (t : ℕ) × (t < n) × (inside t ≡ true)

module _ {n : ℕ} {lock : Mutex} {inside : ℕ → Bool} (g : IsGuarded n lock inside) where
  pub one_inside : (i j : ℕ) → i < n → j < n → inside i ≡ true → inside j ≡ true → i ≡ j
  one_inside i j li lj hi hj =
      let one = ap Mutex.owner (sym (g.mine i li hi) ∙ g.mine j lj hj) in omega (arith, one)

  pub own-lock : (t : ℕ) → t < n → inside t ≡ true → (lock.owner == tid_of t) ≡ true
  own-lock t lt h = rw (ap Mutex.owner (g.mine t lt h)) (==_refl (tid_of t))

  module _ (t : ℕ) (room : t < n) (next : ℕ → Bool)
      (others : (j : ℕ) → j ≢ t → next j ≡ inside j) where
    -- The thread stays where it is, goes in, and comes out.
    pub IsGuarded-stay : next t ≡ inside t → IsGuarded n lock next
    IsGuarded-stay same =
        let all = λ (j : ℕ). elim (Bool-cases (j == t)) as (λ _. next j ≡ inside j) [
          | inl e ↦ subst (λ k. next k ≡ inside k) (sym ((==_iff j t).0 e)) same
          | inr e ↦ others j ((ne-==_iff j t).0 e)
        ] in
        record {
          mine = λ j lt h. g.mine j lt (sym (all j) ∙ h);
          owned = λ locked. let (j, lt, h) = g.owned locked in (j, lt, all j ∙ h);
        }

    pub IsGuarded-enter : lock.locked ≡ false → next t ≡ true → IsGuarded n (taken_by t) next
    IsGuarded-enter free in_now = record {
      mine = λ j lt h. elim (Bool-cases (j == t)) [
        | inl e ↦ rw ((==_iff j t).0 e) refl
        | inr e ↦
            let held = g.mine j lt (sym (others j ((ne-==_iff j t).0 e)) ∙ h) in
            absurd (cc (ap Mutex.locked held, free))
      ];
      owned = λ locked. (t, room, in_now);
    }

    pub IsGuarded-leave : inside t ≡ true → next t ≡ false → IsGuarded n free_mutex next
    IsGuarded-leave was out = record {
      mine = λ j lt h. elim (Bool-cases (j == t)) [
        | inl e ↦ absurd (cc (h, out, ap next ((==_iff j t).0 e)))
        | inr e ↦
            let ne = (ne-==_iff j t).0 e in
            absurd (ne (one_inside j t lt room (sym (others j ne) ∙ h) was))
      ];
      owned = λ locked. absurd (cc locked);
    }
