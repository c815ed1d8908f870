-- ===== src/Ticket/Order.antt =====
-- `uth_ticket_unlock` of src/mutex.c and its walk over the queue.
use comp_arch_project.Base.{
  ℕ, zero, suc, ◌+◌, ◌<◌, ◌≤◌, ◌≡◌, ◌≢◌, refl, sym, ◌∙◌, ap, subst, Bool, true, false, ◌||◌, Option,
  none, some, List, [], ◌∷◌, ◌++◌, arith, has, has-append, has-last_or, append_assoc, length,
  AllDistinct, last_or, last_or-snoc, ◌==◌, if◌then◌else◌, ==_iff, ne-==_iff, Bool-cases, inl, inr,
  update, update_same,
}
use comp_arch_project.Machine.{
  Ptr, null, Tcb, Ticket, Heap, Machine, ok, Cmd, ◌>>◌, modify, and_then,
}
use comp_arch_project.Machine.Returns.{and_then_assoc}
use comp_arch_project.Machine.Access.{not_null, load-eq-ok, modify-eq-ok}
use comp_arch_project.Table.{unsigned}
use comp_arch_project.Ticket.{set_ticket, unlink, wake_ticket, ticket_unlock}
use comp_arch_project.Queue.{with_next, enqueue}
use comp_arch_project.Queue.Chain.{
  link_of, next_at, Chain, Chain-frame, Chain-live, next_at-found, next_at-some,
}
use comp_arch_project.Queue.Push.{view, relink, relink-ne, next_at-relink, view-relink_same}
use comp_arch_project.Queue.Splice.{
  Chain-splice, AllDistinct-remove, without, without-IsValid, without-IsLoose,
}
use comp_arch_project.Queue.Spec.{Queues, Holds, Holds-cast, Links, links, with_links, make_ready}
use comp_arch_project.Queue.Refines.{Becomes, cell-of, enqueue-Becomes}
use comp_arch_project.Queue.Valid.{run-wait-apart}

-- The two writes of the walk when it has found the thread.
unlink_cleared : (queue prev cur next : Ptr) → Cmd (Unit {0})
unlink_cleared queue prev cur next = do unlink queue prev next; modify cur (with_next null)

-- The part of a chain behind a prefix.
Chain-after :
    (h : Heap) (p : Ptr) (pre ts : List Ptr) → Chain h p (pre ++ ts) → (q : Ptr) × Chain h q ts
Chain-after h p [] ts c = (p, c)
Chain-after h p (x ∷ xs) ts (e, ne, (q, at, rest)) = Chain-after h q xs ts rest

module _ {s : Machine} {a : Queues} (h : Holds s a) (q t : Ptr) (ts : List Ptr) {c : Tcb}
    (nt : t ≢ null) (found : s.heap t ≡ some c) where
  -- What is left to show once the links lead past `t`.
  spliced-Holds :
      (pre : List Ptr) (e : a.wait q ≡ pre ++ t ∷ ts) (g : Heap) (w : Ptr → Ptr)
      → ((p : Ptr) → view (g p) ≡ view (s.heap p))
      → ((p : Ptr) → has p pre ≡ false → p ≢ t → next_at g p ≡ next_at s.heap p)
      → Chain g (w q) (pre ++ ts)
      → ((r : Ptr) → (r == q) ≡ false → w r ≡ s.waiters r)
      → Holds (record s { heap = g; waiters = w }) (without h.valid q t pre ts e)
  spliced-Holds pre e g w content spared chain others = record {
    run_chain = Chain-frame s.heap g s.rq_head a.run h.run_chain λ p i.
        spared p (ground (arith, in_wait p, run-wait-apart a q p h.valid))
          (ground (arith, in_wait p, run-wait-apart a q p h.valid));
    run_tail = h.run_tail;
    wait_chain = λ r. elim (Bool-cases (r == q)) [
      | inl here ↦ rw (here, (==_iff r q).0 here) chain
      | inr other ↦
          rw (other, others r other)
            (Chain-frame s.heap g (s.waiters r) (a.wait r) (h.wait_chain r) λ p i.
              spared p (ground (arith, in_wait p, h.valid.wait_apart r q p))
                (ground (arith, in_wait p, h.valid.wait_apart r q p)))
    ];
    content = λ p. content p ∙ h.content p;
    valid = without-IsValid h.valid q t pre ts e;
  }
    where
      in_wait : (p : Ptr) → has p (a.wait q) ≡ (has p pre || ((p == t) || has p ts))
      in_wait p = ap (has p) e ∙ has-append p pre (t ∷ ts)

  -- `*pp = w->next; w->next = NULL;` takes the thread out of the queue.
  unlinked-Holds :
      (pre : List Ptr) (e : a.wait q ≡ pre ++ t ∷ ts)
      → (k : Links) × (unlink_cleared q (last_or null pre) t c.next s ≡ ok tt (with_links k s))
        × Holds (with_links k s) (without h.valid q t pre ts e)
  unfolding unlink_cleared unlink relink
  unlinked-Holds [] e =
      let (_, _, (qn, at, rest)) = subst (Chain s.heap (s.waiters q)) e (h.wait_chain q) in
      let out = AllDistinct-remove [] t ts (subst AllDistinct e (h.valid.wait_distinct q)) in
      let g = relink s.heap t c null in
      let w = update s.waiters q c.next in
      (
        record { heap = g; head = s.rq_head; tail = s.rq_tail; first = w },
        rw (modify-eq-ok (record s { waiters = w }) nt found),
        spliced-Holds [] e g w (view-relink_same s.heap t null found)
            (λ p _ other. ground (arith, next_at-relink s.heap t c null p))
            (subst (λ y. Chain g y ts) (sym (update_same s.waiters q c.next))
              (Chain-frame s.heap g c.next ts
                (subst (λ y. Chain s.heap y ts) (sym (next_at-found s.heap t qn found at)) rest)
                λ p i. ground (arith, out.1, next_at-relink s.heap t c null p)))
            (λ r other. rw other),
      )
  unlinked-Holds (x ∷ xs) e =
      let chain = subst (Chain s.heap (s.waiters q)) e (h.wait_chain q) in
      let dis = subst AllDistinct e (h.valid.wait_distinct q) in
      let out = AllDistinct-remove (x ∷ xs) t ts dis in
      let l = last_or x xs in
      let apart : l ≢ t = ground (arith, out.1, has-last_or x xs, has-append t (x ∷ xs) ts) in
      let (d, nl, there) =
        Chain-live s.heap (s.waiters q) (x ∷ xs ++ t ∷ ts) l chain
          (ground (arith, has-append l (x ∷ xs) (t ∷ ts), has-last_or x xs)) in
      let h1 = relink s.heap l d c.next in
      let found1 : h1 t ≡ some c =
        relink-ne s.heap l d c.next t ((ne-==_iff t l).1 λ same. apart (sym same)) ∙ found in
      let g = relink h1 t c null in
      (
        record { heap = g; head = s.rq_head; tail = s.rq_tail; first = s.waiters },
        rw (not_null nl, modify-eq-ok s nl there, modify-eq-ok (record s { heap = h1 }) nt found1),
        spliced-Holds (x ∷ xs) e g s.waiters
            (λ p. view-relink_same h1 t null found1 p ∙ view-relink_same s.heap l c.next there p)
            (λ p pre other. ground (
              arith,
              has-last_or x xs,
              next_at-relink h1 t c null p,
              next_at-relink s.heap l d c.next p,
            ))
            (Chain-splice s.heap g (s.waiters q) x xs t ts c.next chain dis (ap link_of found)
              (ground (arith, next_at-relink h1 t c null l, next_at-relink s.heap l d c.next l))
              λ p not_l not_t.
                ground (arith, next_at-relink h1 t c null p, next_at-relink s.heap l d c.next p))
            (λ r _. refl),
      )

abbrev pub holds_ticket : ℕ → Option Tcb → Bool
holds_ticket n o = elim o [ none ↦ false | some c ↦ c.ticket == n ]

-- The first thread of `ts` with ticket `n` becomes ready, and leaves the wait queue of `q`, in which
-- `pre` stands before `ts`; without such a thread nothing happens.
abbrev pub wake_holder : (q : Ptr) (n : ℕ) (pre ts : List Ptr) → Queues → Queues
wake_holder q n pre [] a = a
wake_holder q n pre (t ∷ ts) a =
    if holds_ticket n (a.cells t)
    then make_ready t (record a { wait = update a.wait q (pre ++ ts) })
    else wake_holder q n (pre ++ t ∷ []) ts a

wake_found :
    {s : Machine} {a : Queues} (h : Holds s a) (q t : Ptr) (pre ts : List Ptr) {c : Tcb}
    (nt : t ≢ null) (found : s.heap t ≡ some c) (e : a.wait q ≡ pre ++ t ∷ ts)
    → Becomes
        ((do unlink q (last_or null pre) c.next; modify t (with_next null); enqueue t) s)
        tt
        s
        (make_ready t (without h.valid q t pre ts e))
unfolding unlink_cleared
wake_found {s} {a} h q t pre ts {c} nt found e =
    let (k, ran, h1) = unlinked-Holds h q t ts nt found pre e in
    let (k', rest, after) =
      enqueue-Becomes h1 t nt (without-IsLoose h.valid q t pre ts e) (cell-of h t found) in
    (
      k',
      sym (
            and_then_assoc (unlink q (last_or null pre) c.next s) (λ _. modify t (with_next null))
              (λ _. enqueue t))
          ∙ ap (λ r. and_then r (λ _. enqueue t)) ran
          ∙ rest,
      after,
    )

wake_ticket-Becomes :
    {s : Machine} {a : Queues} (h : Holds s a) (q : Ptr) (n fuel : ℕ) (pre ts : List Ptr)
    (cur : Ptr)
    → a.wait q ≡ pre ++ ts
    → Chain s.heap cur ts
    → length ts < fuel
    → Becomes (wake_ticket fuel q n (last_or null pre) cur s) tt s (wake_holder q n pre ts a)
unfolding wake_ticket
wake_ticket-Becomes h q n zero pre ts cur e chain short = absurd (omega arith)
wake_ticket-Becomes {s} h q n (suc fuel) pre [] cur e chain short = (links s, rw chain, h)
wake_ticket-Becomes {s} {a} h q n (suc fuel) pre (t ∷ ts) cur e (here, nt, (y, at, rest)) short =
    let (c, found) = next_at-some s.heap t y at in
    let cell : holds_ticket n (a.cells t) ≡ (c.ticket == n) =
      ap (holds_ticket n) (cell-of h t found) in
    let on : Chain s.heap c.next ts =
      subst (λ z. Chain s.heap z ts) (sym (next_at-found s.heap t y found at)) rest in
    elim (Bool-cases (c.ticket == n)) [
      | inl hit ↦
          rw (here, not_null nt, load-eq-ok s nt found, cell, hit)
            (wake_found h q t pre ts nt found e)
      | inr miss ↦
          let next =
            wake_ticket-Becomes h q n fuel (pre ++ t ∷ []) ts c.next
              (e ∙ sym (append_assoc pre (t ∷ []) ts)) on (omega arith) in
          rw (here, not_null nt, load-eq-ok s nt found, cell, miss)
            (subst
              (λ prev.
                Becomes (wake_ticket fuel q n prev c.next s) tt s
                  (wake_holder q n (pre ++ t ∷ []) ts a))
              (last_or-snoc null pre t) next)
    ]

-- The lock once the next ticket is served.
abbrev pub serving_next : Ticket → Ticket
serving_next v = record v { now_serving = unsigned (v.now_serving + 1) }

-- On a machine whose queues are well-formed, where the lock's queue is no longer than the thread
-- table, `uth_ticket_unlock` ends its walk and returns; it serves the next ticket modulo 2 ^ 32,
-- and makes ready exactly the first waiting thread that holds this ticket, wherever it stands; the
-- others keep their places. Without such a thread the queues stay as they are. The queues are well-
-- formed afterwards.
pub ticket_unlock-wakes :
    {s : Machine} {a : Queues} (h : Holds s a) (t : Ptr)
    → length (a.wait t) ≤ s.tcb_count
    → let served : Machine = set_ticket t (serving_next (s.tickets t)) s in
      (k : Links) × (ticket_unlock t s ≡ ok tt (with_links k served))
      × Holds
          (with_links k served)
          (wake_holder t (unsigned ((s.tickets t).now_serving + 1)) [] (a.wait t) a)
unfolding ticket_unlock
ticket_unlock-wakes {s} {a} h t short =
    let s1 = record (set_ticket t (serving_next (s.tickets t)) s) { masked = true } in
    let h1 = Holds-cast s1 h refl in
    let (k, ran, after) =
      wake_ticket-Becomes h1 t (unsigned ((s.tickets t).now_serving + 1)) (suc s.tcb_count) []
        (a.wait t) (s.waiters t) refl (h.wait_chain t) (omega arith) in
    (k, rw ran, Holds-cast _ after refl)
