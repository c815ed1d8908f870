-- ===== src/System/Joiners.antt =====
-- How joiners change with the threads that they are noted in.
use comp_arch_project.Base.{
  if_app, ◌≡◌, ◌≢◌, refl, sym, ◌∙◌, ap, some, none, Bool-cases, inl, inr, ◌==◌, if◌then◌else◌,
  update_same, Option, subst, ==_iff, ne-==_iff,
}
use comp_arch_project.Machine.{Ptr, null, State, Tcb}
use comp_arch_project.Queue.Spec.{Queues, change, set_state, state_at, map_cell}
use comp_arch_project.System.{joiner_in, Waits, Joins}
use comp_arch_project.Queue.Valid.{state_of}
use comp_arch_project.Table.Kept.{tid_in}

module _ (t : Ptr) (f : Tcb → Tcb) (a : Queues) where
  field_kept :
      {B : Type 0} (g : Option Tcb → B)
      → g (map_cell f (a.cells t)) ≡ g (a.cells t)
      → (p : Ptr) → g ((change t f a).cells p) ≡ g (a.cells p)
  field_kept g same p =
      if_app g (p == t) (map_cell f (a.cells t)) (a.cells p)
      ∙ elim (Bool-cases (p == t)) [ inl e ↦ rw (e, (==_iff p t).0 e) same | inr e ↦ rw e ]

  tid_of_cell :
      ((c : Tcb) → (f c).tid ≡ c.tid) → (o : Option Tcb) → tid_in (map_cell f o) ≡ tid_in o
  tid_of_cell same none = refl
  tid_of_cell same (some c) = ap some (same c)

  joiner_of_cell :
      ((c : Tcb) → (f c).joiner ≡ c.joiner)
      → (o : Option Tcb) → joiner_in (map_cell f o) ≡ joiner_in o
  joiner_of_cell same none = refl
  joiner_of_cell same (some c) = same c

  state_of_cell :
      ((c : Tcb) → (f c).state ≡ c.state) → (o : Option Tcb) → state_of (map_cell f o) ≡ state_of o
  state_of_cell same none = refl
  state_of_cell same (some c) = ap some (same c)

  pub change-state_at :
      ((c : Tcb) → (f c).state ≡ c.state)
      → (p : Ptr) → state_at (change t f a).cells p ≡ state_at a.cells p
  change-state_at same = field_kept state_of (state_of_cell same (a.cells t))

  pub change-tid_in :
      ((c : Tcb) → (f c).tid ≡ c.tid)
      → (p : Ptr) → tid_in ((change t f a).cells p) ≡ tid_in (a.cells p)
  change-tid_in same = field_kept tid_in (tid_of_cell same (a.cells t))

  pub change-joiner_in :
      ((c : Tcb) → (f c).joiner ≡ c.joiner)
      → (p : Ptr) → joiner_in ((change t f a).cells p) ≡ joiner_in (a.cells p)
  change-joiner_in same = field_kept joiner_in (joiner_of_cell same (a.cells t))

set_in_cell :
    (st : State) (o : Option Tcb) {x : State}
    → state_of o ≡ some x
    → state_of (map_cell (set_state st) o) ≡ some st
set_in_cell st none e = cc
set_in_cell st (some c) e = refl

pub set_state-state_at :
    (st : State) (t : Ptr) (a : Queues) {x : State}
    → state_at a.cells t ≡ some x
    → state_at (change t (set_state st) a).cells t ≡ some st
set_state-state_at st t a e =
    ap state_of (update_same a.cells t (map_cell (set_state st) (a.cells t)))
    ∙ set_in_cell st (a.cells t) e

-- The thread `t` has no joiner any more, and whoever was not noted there still waits.
pub ended-Joins :
    {a b : Queues} (joins : Joins a) (t : Ptr)
    → ((p : Ptr) → joiner_in (b.cells p) ≡ (if p == t then null else joiner_in (a.cells p)))
    → ((j : Ptr) → Waits a j → j ≢ joiner_in (a.cells t) → Waits b j)
    → Joins b
ended-Joins {a} {b} joins t eq kept = record {
  waits = λ p ne. elim (Bool-cases (p == t)) [
    | inl e ↦ absurd (ne (eq p ∙ rw e))
    | inr e ↦
        let same : joiner_in (b.cells p) ≡ joiner_in (a.cells p) = eq p ∙ rw e in
        let ne' = λ (g : joiner_in (a.cells p) ≡ null). ne (same ∙ g) in
        subst (Waits b) (sym same)
          (kept _ (joins.waits p ne') λ g. (ne-==_iff p t).0 e (joins.single p t ne' g))
  ];
  single = λ p q ne g. elim (Bool-cases (p == t)) [
    | inl e ↦ absurd (ne (eq p ∙ rw e))
    | inr e ↦
        let same : joiner_in (b.cells p) ≡ joiner_in (a.cells p) = eq p ∙ rw e in
        elim (Bool-cases (q == t)) [
          | inl e' ↦
              let gone : joiner_in (b.cells q) ≡ null = eq q ∙ rw e' in absurd (ne (g ∙ gone))
          | inr e' ↦
              let same' : joiner_in (b.cells q) ≡ joiner_in (a.cells q) = eq q ∙ rw e' in
              joins.single p q (λ h. ne (same ∙ h)) (sym same ∙ g ∙ same')
        ]
  ];
}

-- The thread `t` has a new joiner, who was noted nowhere and waits from now on.
pub joined-Joins :
    {a b : Queues} (joins : Joins a) (t j : Ptr)
    → ((p : Ptr) → joiner_in (b.cells p) ≡ (if p == t then j else joiner_in (a.cells p)))
    → (Waits a j → ⊥)
    → Waits b j
    → ((i : Ptr) → Waits a i → Waits b i)
    → Joins b
joined-Joins {a} {b} joins t j eq new waits kept = record {
  waits = λ p ne. elim (Bool-cases (p == t)) [
    | inl e ↦ let here : joiner_in (b.cells p) ≡ j = eq p ∙ rw e in subst (Waits b) (sym here) waits
    | inr e ↦
        let same : joiner_in (b.cells p) ≡ joiner_in (a.cells p) = eq p ∙ rw e in
        subst (Waits b) (sym same) (kept _ (joins.waits p λ g. ne (same ∙ g)))
  ];
  single = λ p q ne g. elim (Bool-cases (p == t)) [
    | inl e ↦
        let here : joiner_in (b.cells p) ≡ j = eq p ∙ rw e in
        elim (Bool-cases (q == t)) [
          | inl e' ↦ (==_iff p t).0 e ∙ sym ((==_iff q t).0 e')
          | inr e' ↦
              let same' : joiner_in (b.cells q) ≡ joiner_in (a.cells q) = eq q ∙ rw e' in
              let noted = sym same' ∙ sym g ∙ here in
              absurd (new (subst (Waits a) noted (joins.waits q λ h. ne (g ∙ same' ∙ h))))
        ]
    | inr e ↦
        let same : joiner_in (b.cells p) ≡ joiner_in (a.cells p) = eq p ∙ rw e in
        elim (Bool-cases (q == t)) [
          | inl e' ↦
              let here : joiner_in (b.cells q) ≡ j = eq q ∙ rw e' in
              absurd
                (new (subst (Waits a) (sym same ∙ g ∙ here) (joins.waits p λ h. ne (same ∙ h))))
          | inr e' ↦
              let same' : joiner_in (b.cells q) ≡ joiner_in (a.cells q) = eq q ∙ rw e' in
              joins.single p q (λ h. ne (same ∙ h)) (sym same ∙ g ∙ same')
        ]
  ];
}
