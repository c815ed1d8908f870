-- ===== src/Queue/Refines.antt =====
-- The run queue in memory and the list that it stands for.
use comp_arch_project.Base.{
  ◌≡◌, refl, sym, ◌∙◌, ap, ◌≢◌, some, arith, ◌==◌, last_or-snoc, Bool-cases, Option-cases, if_app,
  inl, inr, ==_iff, update_same,
}
use comp_arch_project.Machine.{Ptr, null, ready, Tcb, Machine, Run, ok, put}
use comp_arch_project.Machine.Access.{modify-eq-ok}
use comp_arch_project.Queue.{with_next, run_push, enqueue}
use comp_arch_project.Queue.Chain.{next_at, Chain-frame, link_of}
use comp_arch_project.Queue.Push.{view, queue_push-Pushed}
use comp_arch_project.Queue.Spec.{
  Queues, map_cell, set_state, change, push_run, make_ready, IsValid, IsLoose, Holds, Links,
  with_links,
}
use comp_arch_project.Queue.Valid.{
  run-wait-apart, change-IsValid, change-IsLoose, push_run-IsValid, state_of,
}

-- The code returns `r` having changed links only, and the queues are those of `a` afterwards.
abbrev pub Becomes : {A : Type 0} → Run A → A → Machine → Queues → Type 0
Becomes run r s a = (k : Links) × (run ≡ ok r (with_links k s)) × Holds (with_links k s) a

module _ {s : Machine} {a : Queues} (h : Holds s a) (t : Ptr) where
  -- The TCB behind a cell.
  pub cell-found :
      {c : Tcb} → a.cells t ≡ some c → (d : Tcb) × (s.heap t ≡ some d) × (with_next null d ≡ c)
  cell-found e = elim (Option-cases (s.heap t)) [
    | inl gone ↦ cc (h.content t, ap view gone)
    | inr (d, found) ↦ (d, found, cc (h.content t, ap view found))
  ]

  -- An assignment to a TCB that leaves its link alone.
  pub put-Holds :
      {d : Tcb} (f : Tcb → Tcb)
      → s.heap t ≡ some d
      → (f d).next ≡ d.next
      → with_next null (f d) ≡ f (with_next null d)
      → IsValid (change t f a)
      → Holds (put t (f d) s) (change t f a)
  put-Holds {d} f found link commutes v = record {
    run_chain = Chain-frame s.heap _ s.rq_head a.run h.run_chain (λ p i. same p);
    run_tail = h.run_tail;
    wait_chain =
        λ q. Chain-frame s.heap _ (s.waiters q) (a.wait q) (h.wait_chain q) (λ p i. same p);
    content = λ p. if_app view (p == t) (some (f d)) (s.heap p) ∙ elim (Bool-cases (p == t)) [
      | inl e ↦ rw e (ap some commutes ∙ ap (map_cell f) (sym (ap view found) ∙ h.content t))
      | inr e ↦ rw e (h.content p)
    ];
    valid = v;
  }
    where
      same : (p : Ptr) → next_at (put t (f d) s).heap p ≡ next_at s.heap p
      same p = if_app link_of (p == t) (some (f d)) (s.heap p) ∙ elim (Bool-cases (p == t)) [
        | inl e ↦ rw (e, (==_iff p t).0 e, found, link)
        | inr e ↦ rw e
      ]

  -- `queue_push(&rq_head, &rq_tail, t)` of a ready thread that is in no queue.
  pub run_push-Becomes :
      {c : Tcb}
      → t ≢ null
      → IsLoose a t
      → a.cells t ≡ some c
      → c.state ≡ ready
      → Becomes (run_push t s) tt s (push_run t a)
  unfolding run_push
  run_push-Becomes nt loose cell st =
      let (d, found, _) = cell-found cell in
      let (g, head', ran, pushed) =
        queue_push-Pushed s nt found s.rq_head s.rq_tail a.run
          (record { chain = h.run_chain; last = h.run_tail; distinct = h.valid.run_distinct })
          loose.not_run in
      (
        record { heap = g; head = head'; tail = t; first = s.waiters },
        rw ran,
        record {
          run_chain = pushed.chain;
          run_tail = sym (last_or-snoc null a.run t);
          wait_chain = λ q. Chain-frame s.heap g (s.waiters q) (a.wait q) (h.wait_chain q) λ p i.
              pushed.changed.spared p
                (ground (arith, loose.not_wait q, run-wait-apart a q p h.valid i));
          content = λ p. pushed.changed.content p ∙ h.content p;
          valid = push_run-IsValid h.valid loose (ap state_of cell ∙ ap some st);
        },
      )

-- On a machine whose queues are well-formed, `uth_enqueue` of a thread that is in no queue makes it
-- ready, and appends it to the run queue; the queues stay well-formed.
pub enqueue-Becomes :
    {s : Machine} {a : Queues} (h : Holds s a) (t : Ptr) {c : Tcb}
    → t ≢ null
    → IsLoose a t
    → a.cells t ≡ some c
    → Becomes (enqueue t s) tt s (make_ready t a)
unfolding enqueue
enqueue-Becomes {s} {a} h t {c} nt loose cell =
    let (d, found, same) = cell-found h t cell in
    let h' =
      put-Holds h t (set_state ready) found refl refl
        (change-IsValid h.valid loose (set_state ready)) in
    let (k, ran, after) =
      run_push-Becomes h' t {c = set_state ready c} nt
        (change-IsLoose h.valid loose (set_state ready))
        (update_same a.cells t _ ∙ ap (map_cell (set_state ready)) cell) refl in
    (k, rw (modify-eq-ok s nt found) ran, after)

-- The cell of a TCB in the heap.
pub cell-of :
    {s : Machine} {a : Queues} {c : Tcb} (h : Holds s a) (t : Ptr)
    → s.heap t ≡ some c
    → a.cells t ≡ some (with_next null c)
cell-of h t found = sym (h.content t) ∙ ap view found
