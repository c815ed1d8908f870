-- ===== src/Cond/Waiting.antt =====
-- What the operations of the condition variable do on a machine with well-formed queues.
use comp_arch_project.Base.{◌≤◌, le_trans, ◌≡◌, refl, ◌∙◌, true, List, ◌∷◌, length}
use comp_arch_project.Machine.{Ptr, Frame, in_cond_wait, Tcb, Machine, ok, switched}
use comp_arch_project.Machine.Access.{IsRunning}
use comp_arch_project.Mutex.{set_mutex}
use comp_arch_project.Mutex.Locking.{unheld, mutex_unlock-wakes}
use comp_arch_project.Cond.{cond_wait, cond_signal, cond_broadcast}
use comp_arch_project.Queue.Spec.{
  Queues, IsLoose, Holds, Holds-cast, Links, with_links, change, make_wait, set_ctx, wake_first,
  make_all_ready,
}
use comp_arch_project.Queue.Refines.{cell-of}
use comp_arch_project.Queue.Wake.{wake_one-refines}
use comp_arch_project.Queue.Untouched.{wake_first-untouched, wake_first-shorter}
use comp_arch_project.Queue.WakeAll.{emptied, wake_all-Becomes}
use comp_arch_project.Queue.Block.{block-switched}

-- `uth_cond_signal` wakes the thread that has waited for longest.
pub cond_signal-wakes :
    {s : Machine} {a : Queues} (h : Holds s a) (q : Ptr)
    → (k : Links) × (cond_signal q s ≡ ok tt (with_links k s))
      × Holds (with_links k s) (wake_first q a)
unfolding cond_signal
cond_signal-wakes {s} h q =
    let (k, ran, after) = wake_one-refines (Holds-cast (record s { masked = true }) h refl) q in
    (k, rw ran, Holds-cast _ after refl)

-- On a machine whose queues are well-formed, where the condition's queue is no longer than the
-- thread table, `uth_cond_broadcast` returns; it makes every waiting thread ready, in the order in
-- which they had come, and restores the signal mask; the queues are well-formed.
pub cond_broadcast-wakes :
    {s : Machine} {a : Queues} (h : Holds s a) (q : Ptr)
    → length (a.wait q) ≤ s.tcb_count
    → (k : Links) × (cond_broadcast q s ≡ ok tt (with_links k s))
      × Holds (with_links k s) (make_all_ready (a.wait q) (emptied q a))
unfolding cond_broadcast
cond_broadcast-wakes {s} h q short =
    let (k, ran, after) =
      wake_all-Becomes (Holds-cast (record s { masked = true }) h refl) q short in
    (k, rw ran, Holds-cast _ after refl)

-- On a machine whose queues are well-formed, with a running thread that owns the mutex and is in no
-- queue, and a queue of the condition no longer than the thread table: `uth_cond_wait` frees the
-- mutex, wakes the thread that has waited for it for longest, and puts the caller at the end of the
-- condition's queue, blocked, and switches to the scheduler with SIGALRM blocked; the frame that is
-- left keeps the mask that the caller had.
pub cond_wait-releases :
    {s : Machine} {a : Queues} {c : Tcb} (h : Holds s a) (q m : Ptr) (run : IsRunning s c)
    (frames : List Frame)
    → (s.mutexes m).owner ≡ c.tid
    → IsLoose a s.current
    → length (a.wait q) ≤ s.tcb_count
    → (k : Links) × (cond_wait q m frames s
        ≡ switched (record (with_links k (set_mutex m unheld s)) { masked = true }))
      × Holds (with_links k (set_mutex m unheld s)) (
          change s.current
            (set_ctx (in_cond_wait q m s.masked ∷ frames) true)
            (make_wait q s.current (wake_first m a)))
unfolding cond_wait
cond_wait-releases {s} {a} {c} h q m run frames own loose short =
    let off = record s { masked = true } in
    let (k, ran, after) =
      mutex_unlock-wakes (Holds-cast off h refl) m
        (record { ne_null = run.ne_null; found = run.found }) own in
    let (loose', same) = wake_first-untouched a m s.current loose in
    let (k', blocked, done) =
      block-switched after q (in_cond_wait q m s.masked ∷ frames) run.ne_null loose'
        (same ∙ cell-of h s.current run.found) (le_trans (wake_first-shorter a m q) short) in
    (k', rw ran blocked, Holds-cast _ done refl)
