-- ===== src/Queue/WakeAll.antt =====
-- `uth_wake_all` of thread.c, the loop of `uth_wake_one`.
use comp_arch_project.Base.{
  ℕ, zero, suc, ◌<◌, ◌≤◌, ◌≡◌, refl, sym, subst, List, [], ◌∷◌, arith, length, update, update_same,
  update-update, update_self,
}
use comp_arch_project.Machine.{Ptr, Machine}
use comp_arch_project.Machine.Access.{not_null}
use comp_arch_project.Queue.{wake_loop, wake_all}
use comp_arch_project.Queue.Spec.{Queues, make_ready, make_all_ready, Holds, with_links}
use comp_arch_project.Queue.Refines.{Becomes}
use comp_arch_project.Queue.Wake.{wake_one-empty, wake_one-Becomes, first}

abbrev pub emptied : Ptr → Queues → Queues
emptied q a = record a { wait = update a.wait q [] }

pub wake_loop-Becomes :
    (fuel q : ℕ) (ts : List Ptr) {s : Machine} {a : Queues} (h : Holds s a)
    → a.wait q ≡ ts
    → length ts < fuel
    → Becomes (wake_loop fuel q s) tt s (make_all_ready ts (emptied q a))
unfolding wake_loop
wake_loop-Becomes zero q ts h e short = absurd (omega arith)
wake_loop-Becomes (suc fuel) q [] {s} {a} h e short = (
  record { heap = s.heap; head = s.rq_head; tail = s.rq_tail; first = s.waiters },
  rw (wake_one-empty h q e),
  subst (λ w. Holds s (record a { wait = w })) (sym (update_self a.wait q [] e)) h,
)
wake_loop-Becomes (suc fuel) q (t ∷ ts) {s} {a} h e short =
    let (k, ran, after) = wake_one-Becomes h q t ts e in
    let (k', rest, done) =
      wake_loop-Becomes fuel q ts after (update_same a.wait q ts) (omega arith) in
    (
      k',
      rw (ran, not_null (first h q t ts e).ne_null) rest,
      subst
          (λ w. Holds (with_links k' s) (make_all_ready ts (make_ready t (record a { wait = w }))))
          (update-update a.wait q ts []) done,
    )

-- On a machine whose queues are well-formed, where the wait queue is no longer than the thread
-- table, the loop of `uth_wake_all` ends: the wait queue is empty, and its threads are ready at the
-- end of the run queue, in the order in which they had come.
pub wake_all-Becomes :
    {s : Machine} {a : Queues} (h : Holds s a) (q : Ptr)
    → length (a.wait q) ≤ s.tcb_count
    → Becomes (wake_all q s) tt s (make_all_ready (a.wait q) (emptied q a))
unfolding wake_all
wake_all-Becomes {s} {a} h q short =
    wake_loop-Becomes (suc s.tcb_count) q (a.wait q) h refl (omega arith)
