-- ===== src/Queue/Wake.antt =====
-- Threads that leave a queue: `queue_pop` on the run queue, `uth_wake_one` and `uth_wake_all`.
use comp_arch_project.Base.{
  ◌≡◌, refl, sym, ◌∙◌, ap, subst, true, List, [], ◌∷◌, arith, has, AllDistinct, last_or, update,
  ◌==◌, Bool-cases, inl, inr,
}
use comp_arch_project.Machine.{Ptr, null, Machine, ok}
use comp_arch_project.Machine.Access.{not_null, load-eq-ok, modify-eq-ok}
use comp_arch_project.Queue.{run_pop, wake_one}
use comp_arch_project.Queue.Chain.{Chain, Chain-frame}
use comp_arch_project.Queue.Push.{view, relink}
use comp_arch_project.Queue.Pop.{queue_pop-Popped, First, Chain-First}
use comp_arch_project.Queue.Spec.{
  links, wake_from, wake_first, head_or_null, Queues, make_ready, Holds,
}
use comp_arch_project.Queue.Valid.{
  run-wait-apart, without_first, without_first-IsValid, without_first-IsLoose, first_distinct,
  first_waits,
}
use comp_arch_project.Queue.Refines.{Becomes, enqueue-Becomes}

module _ {s : Machine} {a : Queues} (h : Holds s a) where
  -- An empty run queue: `queue_pop` returns `NULL`.
  pub run_pop-empty : a.run ≡ [] → run_pop s ≡ ok null s
  unfolding run_pop
  run_pop-empty e = rw (subst (Chain s.heap s.rq_head) e h.run_chain)

  -- On a machine whose queues are well-formed, `queue_pop` on a run queue that is not empty returns
  -- its first thread and leaves the queue of the others, well-formed.
  pub run_pop-Becomes :
      (t : Ptr) (ts : List Ptr) → a.run ≡ t ∷ ts → Becomes (run_pop s) t s (record a { run = ts })
  unfolding run_pop
  run_pop-Becomes t ts e =
      let d = subst AllDistinct e h.valid.run_distinct in
      let (g, q, ran, popped) = queue_pop-Popped s s.rq_head s.rq_tail t ts (record {
        chain = subst (Chain s.heap s.rq_head) e h.run_chain;
        last = h.run_tail ∙ ap (last_or null) e;
        distinct = d;
      }) in
      let first_runs : has t a.run ≡ true = rw e (ground arith) in
      let later : (p : Ptr) → has p ts ≡ true → has p a.run ≡ true = λ p i. rw e (ground arith) in
      (
        record { heap = g; head = q; tail = last_or null ts; first = s.waiters },
        rw ran,
        record {
          run_chain = popped.chain;
          run_tail = refl;
          wait_chain = λ r. Chain-frame s.heap g (s.waiters r) (a.wait r) (h.wait_chain r) λ p i.
              popped.changed.spared p (ground (arith, run-wait-apart a r p h.valid i, first_runs));
          content = λ p. popped.changed.content p ∙ h.content p;
          valid = record {
            run_distinct = d.1;
            wait_distinct = h.valid.wait_distinct;
            run_ready = λ p i. h.valid.run_ready p (later p i);
            wait_blocked = h.valid.wait_blocked;
            wait_apart = h.valid.wait_apart;
          };
        },
      )

  -- `uth_wake_one` on an empty queue does nothing and returns `NULL`.
  pub wake_one-empty : (q : Ptr) → a.wait q ≡ [] → wake_one q s ≡ ok null s
  unfolding wake_one
  wake_one-empty q e = rw (subst (Chain s.heap (s.waiters q)) e (h.wait_chain q))

  module _ (q t : Ptr) (ts : List Ptr) (e : a.wait q ≡ t ∷ ts) where
    pub first : First s.heap t ts
    first =
        Chain-First s.heap (s.waiters q) t ts
          (subst (Chain s.heap (s.waiters q)) e (h.wait_chain q))
          (first_distinct h.valid q t ts e).0

    -- The machine after the first thread of a wait queue has been unlinked.
    unlinked_first : Machine
    unlinked_first = record s {
      heap = relink s.heap t first.tcb null;
      waiters = update s.waiters q first.tcb.next;
    }

    unlinked_first-Holds : Holds unlinked_first (without_first h.valid q t ts e)
    unfolding unlinked_first
    unlinked_first-Holds = record {
      run_chain = Chain-frame s.heap _ s.rq_head a.run h.run_chain λ p i.
          first.popped.changed.spared p
            (ground (arith, (without_first-IsLoose h.valid q t ts e).not_run));
      run_tail = h.run_tail;
      wait_chain = λ r. elim (Bool-cases (r == q)) [
        | inl here ↦ rw here first.popped.chain
        | inr other ↦ rw other (
            Chain-frame s.heap _ (s.waiters r) (a.wait r) (h.wait_chain r) λ p i.
              first.popped.changed.spared p
                (ground (arith, h.valid.wait_apart r q p, first_waits h.valid q t ts e)))
      ];
      content = λ p. first.popped.changed.content p ∙ h.content p;
      valid = without_first-IsValid h.valid q t ts e;
    }

    -- `uth_wake_one` takes the thread that has waited for longest, and makes it ready.
    pub wake_one-Becomes :
        Becomes (wake_one q s) t s (make_ready t (without_first h.valid q t ts e))
    unfolding wake_one unlinked_first relink
    wake_one-Becomes =
        let (k, ran, after) =
          enqueue-Becomes unlinked_first-Holds t first.ne_null
            (without_first-IsLoose h.valid q t ts e) (sym (h.content t) ∙ ap view first.found) in
        (
          k,
          rw (
            (subst (Chain s.heap (s.waiters q)) e (h.wait_chain q)).0,
            not_null first.ne_null,
            load-eq-ok s first.ne_null first.found,
            modify-eq-ok (record s { waiters = update s.waiters q first.tcb.next }) first.ne_null
                first.found,
            ran,
          ),
          after,
        )

  wake_one-from :
      (q : Ptr) (ts : List Ptr)
      → a.wait q ≡ ts
      → Becomes (wake_one q s) (head_or_null ts) s (wake_from q ts a)
  wake_one-from q [] e = (links s, wake_one-empty q e, h)
  wake_one-from q (t ∷ ts) e = wake_one-Becomes q t ts e

  -- On a machine whose queues are well-formed, `uth_wake_one` implements its specification on
  -- lists: it returns the thread that has waited in the queue for longest, or `NULL` if the queue
  -- is empty; that thread leaves the queue and stands, ready, at the end of the run queue; nothing
  -- but the links and that thread's state has changed, and the queues are well-formed again.
  pub wake_one-refines :
      (q : Ptr) → Becomes (wake_one q s) (head_or_null (a.wait q)) s (wake_first q a)
  wake_one-refines q = wake_one-from q (a.wait q) refl
