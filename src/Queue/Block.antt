-- ===== src/Queue/Block.antt =====
-- `uth_block` of thread.c on a machine with well-formed queues.
use comp_arch_project.Base.{
  ◌≤◌, ◌≡◌, refl, sym, ◌∙◌, ap, subst, ◌≢◌, true, false, some, List, [], ◌∷◌, ◌++◌, arith, has,
  AllDistinct, last_or, length, update, update_same, ◌==◌, if◌then◌else◌, Bool-cases, ==_iff, inl,
  inr, has-last_or,
}
use comp_arch_project.Machine.{
  Ptr, null, blocked, Frame, Tcb, Machine, Heap, ok, switched, swap_out, put, Cmd, get, ◌>>=◌,
}
use comp_arch_project.Machine.Access.{not_null, modify-eq-ok}
use comp_arch_project.Queue.{block_enqueue, block, append_after, set_waiters}
use comp_arch_project.Queue.Chain.{Chain, Chain-frame, Chain-live}
use comp_arch_project.Queue.Push.{
  relink, relink-ne, next_at-relink, view-relink_same, append_after-eq-ok, Pushed, LinksChanged,
  Chain-link, unlinked,
}
use comp_arch_project.Queue.Spec.{
  Queues, set_state, set_ctx, change, make_wait, map_cell, IsLoose, Holds, Links, with_links,
}
use comp_arch_project.Queue.Valid.{
  change_kept-IsValid, state_of, run-wait-apart, push_wait-IsValid, change-IsValid, change-IsLoose,
}
use comp_arch_project.Queue.Refines.{Becomes, cell-found, put-Holds}

-- The end of `uth_block`'s work on the queue: the walk and the last write.
append_tail : (queue t : Ptr) → Cmd (Unit {0})
append_tail queue t = do
  head ← get (λ s. s.waiters queue)
  fuel ← get (λ s. s.tcb_count)
  if head == null then set_waiters queue t else append_after fuel head t

module _ {s : Machine} {a : Queues} (h : Holds s a) (q t : Ptr) (loose : IsLoose a t) where
  abbrev queued : Queues
  queued = record a { wait = update a.wait q (a.wait q ++ t ∷ []) }

  -- What is left to show once the chain of `q` ends in `t`.
  push_wait-Holds :
      (g : Heap) (w : Ptr → Ptr) {c : Tcb}
      → a.cells t ≡ some c
      → c.state ≡ blocked
      → LinksChanged (t ∷ a.wait q) s.heap g
      → Chain g (w q) (a.wait q ++ t ∷ [])
      → ((r : Ptr) → (r == q) ≡ false → w r ≡ s.waiters r)
      → Holds (record s { heap = g; waiters = w }) queued
  push_wait-Holds g w cell st changed chain others = record {
    run_chain =
        Chain-frame s.heap g s.rq_head a.run h.run_chain
          λ p i. changed.spared p (ground (arith, loose.not_run, run-wait-apart a q p h.valid));
    run_tail = h.run_tail;
    wait_chain = λ r. elim (Bool-cases (r == q)) [
      | inl here ↦ rw (here, (==_iff r q).0 here) chain
      | inr other ↦
          rw (other, others r other)
            (Chain-frame s.heap g (s.waiters r) (a.wait r) (h.wait_chain r)
              λ p i. changed.spared p (ground (arith, loose.not_wait r, h.valid.wait_apart r q p)))
    ];
    content = λ p. changed.content p ∙ h.content p;
    valid = push_wait-IsValid h.valid loose q (ap state_of cell ∙ ap some st);
  }

  module _ {d : Tcb} (nt : t ≢ null) (found : s.heap t ≡ some d) where
    alone : Pushed s.heap (unlinked s nt found) t [] t
    alone = record {
      chain = (refl, nt, (null, ground (arith, next_at-relink s.heap t d null t), refl));
      changed = record {
        content = view-relink_same s.heap t null found;
        spared = λ p i. ground (arith, next_at-relink s.heap t d null p);
      };
    }

    append_tail-Becomes :
        (ts : List Ptr) {c : Tcb}
        → a.wait q ≡ ts
        → length ts ≤ s.tcb_count
        → a.cells t ≡ some c
        → c.state ≡ blocked
        → (k : Links) × (append_tail q t (record s { heap = unlinked s nt found })
            ≡ ok tt (with_links k s))
          × Holds (with_links k s) queued
    unfolding append_tail
    append_tail-Becomes [] e short cell st = (
      record {
        heap = unlinked s nt found;
        head = s.rq_head;
        tail = s.rq_tail;
        first = update s.waiters q t;
      },
      rw (subst (Chain s.heap (s.waiters q)) e (h.wait_chain q)),
      push_wait-Holds (unlinked s nt found) (update s.waiters q t) cell st
          (subst (λ ys. LinksChanged (t ∷ ys) s.heap (unlinked s nt found)) (sym e) alone.changed)
          (subst (λ y. Chain (unlinked s nt found) y (a.wait q ++ t ∷ []))
            (sym (update_same s.waiters q t)) (rw e alone.chain))
          (λ r other. rw other),
    )
    append_tail-Becomes (x ∷ xs) e short cell st =
        let chain = subst (Chain s.heap (s.waiters q)) e (h.wait_chain q) in
        let out : has t (x ∷ xs) ≡ false = subst (λ ys. has t ys ≡ false) e (loose.not_wait q) in
        let (b, nb, there) =
          Chain-live s.heap (s.waiters q) (x ∷ xs) (last_or x xs) chain (has-last_or x xs) in
        let there' =
          relink-ne s.heap t d null (last_or x xs) (ground (arith, has-last_or x xs)) ∙ there in
        let pushed =
          Chain-link s nt found (s.waiters q) x xs chain
            (subst AllDistinct e (h.valid.wait_distinct q)) out there in
        let walk =
          append_after-eq-ok (record s { heap = unlinked s nt found }) t s.tcb_count x xs
            (Chain-frame s.heap (unlinked s nt found) x (x ∷ xs) (refl, chain.1, chain.2)
              λ p i. alone.changed.spared p (ground arith))
            (omega arith) there' in
        let g = relink (unlinked s nt found) (last_or x xs) b t in
        (
          record { heap = g; head = s.rq_head; tail = s.rq_tail; first = s.waiters },
          rw (chain.0, not_null chain.1) walk,
          push_wait-Holds g s.waiters cell st
              (subst (λ ys. LinksChanged (t ∷ ys) s.heap g) (sym e) pushed.changed)
              (subst (λ ys. Chain g (s.waiters q) (ys ++ t ∷ [])) (sym e) pushed.chain)
              (λ r _. refl),
        )

-- What `uth_block` does to the queues, for a current thread that is in none.
pub block_enqueue-Becomes :
    {s : Machine} {a : Queues} (h : Holds s a) (q : Ptr) {c : Tcb}
    → s.current ≢ null
    → IsLoose a s.current
    → a.cells s.current ≡ some c
    → length (a.wait q) ≤ s.tcb_count
    → Becomes (block_enqueue q s) tt s (make_wait q s.current a)
unfolding block_enqueue append_tail relink
block_enqueue-Becomes {s} {a} h q {c} nt loose cell short =
    let t = s.current in
    let (d, found, same) = cell-found h t cell in
    let v = change-IsValid h.valid loose (set_state blocked) in
    let h' = put-Holds h t (set_state blocked) found refl refl v in
    let found' = update_same s.heap t (some (set_state blocked d)) in
    let (k, ran, after) =
      append_tail-Becomes h' q t (change-IsLoose h.valid loose (set_state blocked)) nt found'
        (a.wait q) {c = set_state blocked c} refl short
        (update_same a.cells t _ ∙ ap (map_cell (set_state blocked)) cell) refl in
    (
      k,
      rw (modify-eq-ok s nt found, modify-eq-ok (put t (set_state blocked d) s) nt found') ran,
      after,
    )

-- On a machine whose queues are well-formed, with a current thread that is in no queue, and a wait
-- queue no longer than the thread table, `uth_block` ends its walk and switches to the scheduler
-- with the current thread at the end of the wait queue, blocked, and its calls and signal mask
-- saved; the queues are well-formed.
pub block-switched :
    {s : Machine} {a : Queues} (h : Holds s a) (q : Ptr) (frames : List Frame) {c : Tcb}
    → s.current ≢ null
    → IsLoose a s.current
    → a.cells s.current ≡ some c
    → length (a.wait q) ≤ s.tcb_count
    → (k : Links) × (block q frames s ≡ switched (record (with_links k s) { masked = true }))
      × Holds
          (with_links k s)
          (change s.current (set_ctx frames s.masked) (make_wait q s.current a))
unfolding block swap_out
block-switched {s} {a} h q frames nt loose cell short =
    let (k, ran, after) = block_enqueue-Becomes h q nt loose cell short in
    let (d, found, same) =
      cell-found after s.current
        (update_same a.cells s.current _ ∙ ap (map_cell (set_state blocked)) cell) in
    let saved = set_ctx frames s.masked in
    (
      record k { heap = update k.heap s.current (some (saved d)) },
      rw (ran, modify-eq-ok (with_links k s) nt found),
      put-Holds after s.current saved found refl refl
          (change_kept-IsValid s.current saved after.valid (λ c. refl)),
    )
