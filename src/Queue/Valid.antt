-- ===== src/Queue/Valid.antt =====
-- The well-formedness of the queues, and that it is kept.
use comp_arch_project.Base.{
  ◌≡◌, refl, sym, ◌∙◌, ap, subst, AllDistinct, true, false, Option, none, some, List, [], ◌∷◌, ◌++◌,
  arith, ◌==◌, if◌then◌else◌, update, has, has-append, AllDistinct-snoc, Bool-cases, if_app, inl,
  inr, ==_iff,
}
use comp_arch_project.Machine.{Ptr, State, ready, blocked, Tcb}
use comp_arch_project.Queue.Spec.{Queues, map_cell, state_at, change, push_run, IsValid, IsLoose}

pub has-update :
    (w : Ptr → List Ptr) (q : Ptr) (xs : List Ptr) (p r : Ptr)
    → has p (update w q xs r) ≡ (if r == q then has p xs else has p (w r))
has-update w q xs p r = if_app (has p) (r == q) xs (w r)

abbrev pub state_of : Option Tcb → Option State
state_of o = elim o [ none ↦ none | some c ↦ some c.state ]

-- A thread in the run queue is in no wait queue.
pub run-wait-apart :
    (a : Queues) (q p : Ptr) → IsValid a → has p (a.wait q) ≡ true → has p a.run ≡ false
run-wait-apart a q p v i = elim (Bool-cases (has p a.run)) [
  | inl both ↦ cc (v.run_ready p both, v.wait_blocked q p i)
  | inr apart ↦ apart
]

module _ {a : Queues} {t : Ptr} (v : IsValid a) (loose : IsLoose a t) where
  change_other :
      (f : Tcb → Tcb) (p : Ptr)
      → (p == t) ≡ false
      → state_at (change t f a).cells p ≡ state_at a.cells p
  change_other f p e = ap state_of (rw e)

  pub change-IsValid : (f : Tcb → Tcb) → IsValid (change t f a)
  change-IsValid f = record {
    run_distinct = v.run_distinct;
    wait_distinct = v.wait_distinct;
    run_ready = λ p i. change_other f p (ground (arith, loose.not_run)) ∙ v.run_ready p i;
    wait_blocked =
        λ q p i. change_other f p (ground (arith, loose.not_wait q)) ∙ v.wait_blocked q p i;
    wait_apart = v.wait_apart;
  }

  pub change-IsLoose : (f : Tcb → Tcb) → IsLoose (change t f a) t
  change-IsLoose f = record { not_run = loose.not_run; not_wait = loose.not_wait }

  pub push_run-IsValid : state_at a.cells t ≡ some ready → IsValid (push_run t a)
  push_run-IsValid st = record {
    run_distinct = AllDistinct-snoc a.run t v.run_distinct loose.not_run;
    wait_distinct = v.wait_distinct;
    run_ready = λ p i. elim (Bool-cases (p == t)) [
      | inl e ↦ rw ((==_iff p t).0 e) st
      | inr e ↦ v.run_ready p (ground (arith, has-append p a.run (t ∷ [])))
    ];
    wait_blocked = v.wait_blocked;
    wait_apart = v.wait_apart;
  }

  pub push_wait-IsValid :
      (q : Ptr)
      → state_at a.cells t ≡ some blocked
      → IsValid (record a { wait = update a.wait q (a.wait q ++ t ∷ []) })
  push_wait-IsValid q st =
      let ws = a.wait q ++ t ∷ [] in
      record {
        run_distinct = v.run_distinct;
        wait_distinct = λ r. elim (Bool-cases (r == q)) [
          | inl e ↦ rw e (AllDistinct-snoc (a.wait q) t (v.wait_distinct q) (loose.not_wait q))
          | inr e ↦ rw e (v.wait_distinct r)
        ];
        run_ready = v.run_ready;
        wait_blocked = λ r p i. elim (Bool-cases (p == t)) [
          | inl e ↦ rw ((==_iff p t).0 e) st
          | inr e ↦
              v.wait_blocked r p
                (ground (arith, has-append p (a.wait q) (t ∷ []), has-update a.wait q ws p r))
        ];
        wait_apart = λ r r' p i i'. ground (
          arith,
          has-append p (a.wait q) (t ∷ []),
          has-update a.wait q ws p r,
          has-update a.wait q ws p r',
          v.wait_apart r r' p,
          loose.not_wait r,
          loose.not_wait r',
        );
      }

-- The first thread of a wait queue leaves it: the rest is well-formed and it is loose.
module _ {a : Queues} (v : IsValid a) (q t : Ptr) (ts : List Ptr) (e : a.wait q ≡ t ∷ ts) where
  abbrev pub without_first : Queues
  without_first = record a { wait = update a.wait q ts }

  still_waits : (r p : Ptr) → has p (without_first.wait r) ≡ true → has p (a.wait r) ≡ true
  still_waits r p i = ground (arith, has-update a.wait q ts p r, ap (has p) e)

  pub first_distinct : (has t ts ≡ false) × AllDistinct ts
  first_distinct = subst AllDistinct e (v.wait_distinct q)

  pub first_waits : has t (a.wait q) ≡ true
  first_waits = rw e (ground arith)

  pub first-blocked : state_at a.cells t ≡ some blocked
  first-blocked = v.wait_blocked q t first_waits

  pub without_first-IsValid : IsValid without_first
  without_first-IsValid = record {
    run_distinct = v.run_distinct;
    wait_distinct = λ r. elim (Bool-cases (r == q)) [
      | inl here ↦ rw here first_distinct.1
      | inr other ↦ rw other (v.wait_distinct r)
    ];
    run_ready = v.run_ready;
    wait_blocked = λ r p i. v.wait_blocked r p (still_waits r p i);
    wait_apart = λ r r' p i i'. v.wait_apart r r' p (still_waits r p i) (still_waits r' p i');
  }

  pub without_first-IsLoose : IsLoose without_first t
  without_first-IsLoose = record {
    not_run = run-wait-apart a q t v first_waits;
    not_wait = λ r. elim (Bool-cases (r == q)) [
      | inl here ↦ rw here first_distinct.0
      | inr other ↦ rw other (ground (arith, v.wait_apart r q t, first_waits))
    ];
  }

-- A change that leaves the state alone.
pub change_kept-IsValid :
    {a : Queues} (t : Ptr) (f : Tcb → Tcb)
    → IsValid a
    → ((c : Tcb) → (f c).state ≡ c.state)
    → IsValid (change t f a)
change_kept-IsValid {a} t f v keeps = record {
  run_distinct = v.run_distinct;
  wait_distinct = v.wait_distinct;
  run_ready = λ p i. same p ∙ v.run_ready p i;
  wait_blocked = λ q p i. same p ∙ v.wait_blocked q p i;
  wait_apart = v.wait_apart;
}
  where
    state_map : (o : Option Tcb) → state_of (map_cell f o) ≡ state_of o
    state_map none = refl
    state_map (some c) = ap some (keeps c)

    same : (p : Ptr) → state_at (change t f a).cells p ≡ state_at a.cells p
    same p = elim (Bool-cases (p == t)) [
      | inl e ↦
          ap state_of (rw e)
          ∙ state_map (a.cells t)
          ∙ ap (λ q. state_of (a.cells q)) (sym ((==_iff p t).0 e))
      | inr e ↦ ap state_of (rw e)
    ]
