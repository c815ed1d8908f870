-- ===== src/System/Waiting.antt =====
-- What the calls leave of a thread that waits in `uth_join`.
use comp_arch_project.Base.{
  ◌≡◌, refl, sym, ◌∙◌, ap, arith, true, false, some, List, [], ◌∷◌, ◌++◌, ◌==◌, update, Bool-cases,
  inl, inr, ne-==_iff, ℕ, has, has-append,
}
use comp_arch_project.Machine.{Ptr, State, ready, blocked, Tcb}
use comp_arch_project.Queue.Spec.{
  Queues, change, make_ready, make_wait, set_state, wake_from, wake_first, make_all_ready, state_at,
}
use comp_arch_project.Queue.Valid.{state_of}
use comp_arch_project.Ticket.Order.{holds_ticket, wake_holder}
use comp_arch_project.System.{Waits}

-- A thread in another state, or in a queue, does not wait.
pub apart_by_state :
    {a : Queues} (t : Ptr) {st : State}
    → state_at a.cells t ≡ some st
    → (some st ≡ some blocked → ⊥)
    → (j : Ptr) → Waits a j
    → (j == t) ≡ false
apart_by_state {a} t e busy j w =
    (ne-==_iff j t).1 λ same. busy (sym e ∙ ap (state_at a.cells) (sym same) ∙ w.blocked_there)

pub apart_by_queue :
    {a : Queues} (q t : Ptr) → has t (a.wait q) ≡ true → (j : Ptr) → Waits a j → (j == t) ≡ false
apart_by_queue {a} q t i j w =
    (ne-==_iff j t).1 λ same. cc (i, ap (λ p. has p (a.wait q)) same, w.loose.not_wait q)

module _ {a : Queues} {j : Ptr} (w : Waits a j) where
  pub change-Waits : (t : Ptr) (f : Tcb → Tcb) → (j == t) ≡ false → Waits (change t f a) j
  change-Waits t f ne = record {
    blocked_there = ap state_of (rw ne) ∙ w.blocked_there;
    loose = record { not_run = w.loose.not_run; not_wait = w.loose.not_wait };
  }

  pub make_ready-Waits : (t : Ptr) → (j == t) ≡ false → Waits (make_ready t a) j
  make_ready-Waits t ne = record {
    blocked_there = (change-Waits t (set_state ready) ne).blocked_there;
    loose = record {
      not_run = ground (arith, has-append j a.run (t ∷ []), w.loose.not_run);
      not_wait = w.loose.not_wait;
    };
  }

  -- The wait queue of `q` is now `ts`.
  pub requeue-Waits :
      (q : Ptr) (ts : List Ptr)
      → has j ts ≡ false
      → Waits (record a { wait = update a.wait q ts }) j
  requeue-Waits q ts out = record {
    blocked_there = w.blocked_there;
    loose = record {
      not_run = w.loose.not_run;
      not_wait = λ r. elim (Bool-cases (r == q)) [
        | inl here ↦ rw here out
        | inr other ↦ rw other (w.loose.not_wait r)
      ];
    };
  }

pub make_wait-Waits :
    {a : Queues} {j : Ptr} (w : Waits a j) (q t : Ptr)
    → (j == t) ≡ false
    → Waits (make_wait q t a) j
make_wait-Waits {a} {j} w q t ne =
    change-Waits
      (requeue-Waits w q (a.wait q ++ t ∷ [])
        (ground (arith, has-append j (a.wait q) (t ∷ []), w.loose.not_wait q)))
      t (set_state blocked) ne

wake_from-Waits :
    {a : Queues} {j : Ptr} (w : Waits a j) (q : Ptr) (ts : List Ptr)
    → a.wait q ≡ ts
    → Waits (wake_from q ts a) j
wake_from-Waits w q [] e = w
wake_from-Waits {a} {j} w q (t ∷ ts) e =
    make_ready-Waits (requeue-Waits w q ts (ground (arith, w.loose.not_wait q, ap (has j) e))) t
      (ground (arith, w.loose.not_wait q, ap (has j) e))

pub wake_first-Waits : {a : Queues} {j : Ptr} (w : Waits a j) (q : Ptr) → Waits (wake_first q a) j
wake_first-Waits {a} w q = wake_from-Waits w q (a.wait q) refl

pub make_all_ready-Waits :
    (ts : List Ptr) {a : Queues} {j : Ptr} (w : Waits a j)
    → has j ts ≡ false
    → Waits (make_all_ready ts a) j
make_all_ready-Waits [] w out = w
make_all_ready-Waits (t ∷ ts) w out =
    make_all_ready-Waits ts (make_ready-Waits w t (ground arith)) (ground arith)

wake_holder_from-Waits :
    {a : Queues} {j : Ptr} (w : Waits a j) (q : Ptr) (n : ℕ) (pre ts : List Ptr)
    → has j pre ≡ false
    → has j ts ≡ false
    → Waits (wake_holder q n pre ts a) j
wake_holder_from-Waits w q n pre [] out_pre out = w
wake_holder_from-Waits {a} {j} w q n pre (t ∷ ts) out_pre out =
    elim (Bool-cases (holds_ticket n (a.cells t))) [
      | inl hit ↦ rw hit (
          make_ready-Waits (requeue-Waits w q (pre ++ ts) (ground (arith, has-append j pre ts))) t
            (ground arith))
      | inr miss ↦ rw miss (
          wake_holder_from-Waits w q n (pre ++ t ∷ []) ts
            (ground (arith, has-append j pre (t ∷ []))) (ground arith))
    ]

pub wake_holder-Waits :
    {a : Queues} {j : Ptr} (w : Waits a j) (q : Ptr) (n : ℕ)
    → Waits (wake_holder q n [] (a.wait q) a) j
wake_holder-Waits {a} w q n = wake_holder_from-Waits w q n [] (a.wait q) refl (w.loose.not_wait q)
