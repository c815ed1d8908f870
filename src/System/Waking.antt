-- ===== src/System/Waking.antt =====
-- The calls that wake others: `uth_mutex_unlock`, `uth_ticket_unlock`, `uth_cond_signal`,
-- `uth_cond_broadcast` and `uth_sem_post`; and `uth_spin_unlock`.
use comp_arch_project.Base.{ℕ, ◌+◌, ◌<◌, ◌≡◌, refl, false, List, [], update}
use comp_arch_project.Machine.{Ptr, running, pos, Frame, Tcb, Machine}
use comp_arch_project.Machine.Access.{IsRunning}
use comp_arch_project.Queue.Spec.{Queues, Holds-cast, with_links, wake_first}
use comp_arch_project.Table.Listed.{wait_short}
use comp_arch_project.Mutex.{set_mutex}
use comp_arch_project.Api.{unlocks, serves, signals, broadcasts, posts, frees}
use comp_arch_project.System.{IsSound, Ends}
use comp_arch_project.System.Kin.{wake_first-Alike, make_all_ready-Alike, wake_holder-Alike}
use comp_arch_project.System.Waiting.{
  requeue-Waits, wake_first-Waits, make_all_ready-Waits, wake_holder-Waits,
}
use comp_arch_project.System.Landing.{Kin, Kin-refl, returned-Ends}
use comp_arch_project.Queue.WakeAll.{emptied}
use comp_arch_project.Mutex.Locking.{unheld, mutex_unlock-wakes}
use comp_arch_project.Ticket.{set_ticket}
use comp_arch_project.Ticket.Order.{serving_next, ticket_unlock-wakes}
use comp_arch_project.Table.{unsigned}
use comp_arch_project.Cond.Waiting.{cond_signal-wakes, cond_broadcast-wakes}
use comp_arch_project.Spinlock.{spin_unlock}
use comp_arch_project.Sem.{int_max}
use comp_arch_project.Sem.Counting.{with_value, sem_post-wakes}

module _ {s : Machine} {a : Queues} {c : Tcb} (sound : IsSound s a) (run : IsRunning s c)
    (st : c.state ≡ running) (frames : List Frame) where
  woken-Kin : (q : Ptr) → Kin a (wake_first q a)
  woken-Kin q = record { alike = wake_first-Alike q a; waiting = λ j w. wake_first-Waits w q }

  pub unlocks-Ends : (m : Ptr) → (s.mutexes m).owner ≡ c.tid → Ends (unlocks m) frames s c.tid
  unlocks-Ends m own =
      let (k, ran, h) = mutex_unlock-wakes sound.holds m run own in
      returned-Ends sound (with_links k (set_mutex m unheld s)) ran (woken-Kin m) h refl

  pub serves-Ends : (q : Ptr) → Ends (serves q) frames s c.tid
  serves-Ends q =
      let short = wait_short sound.holds sound.table sound.listed q in
      let (k, ran, h) = ticket_unlock-wakes sound.holds q short in
      let n = unsigned ((s.tickets q).now_serving + 1) in
      returned-Ends sound (with_links k (set_ticket q (serving_next (s.tickets q)) s)) ran
        (record {
          alike = wake_holder-Alike q n [] (a.wait q) a;
          waiting = λ j w. wake_holder-Waits w q n;
        })
        h refl

  pub signals-Ends : (q : Ptr) → Ends (signals q) frames s c.tid
  signals-Ends q =
      let (k, ran, h) = cond_signal-wakes sound.holds q in
      returned-Ends sound (with_links k s) ran (woken-Kin q) h refl

  pub broadcasts-Ends : (q : Ptr) → Ends (broadcasts q) frames s c.tid
  broadcasts-Ends q =
      let short = wait_short sound.holds sound.table sound.listed q in
      let (k, ran, h) = cond_broadcast-wakes sound.holds q short in
      returned-Ends sound (with_links k s) ran
        (record {
          alike = make_all_ready-Alike (a.wait q) (emptied q a);
          waiting = λ j w.
              make_all_ready-Waits (a.wait q) (requeue-Waits w q [] refl) (w.loose.not_wait q);
        })
        h refl

  pub posts-Ends :
      (q : Ptr) (n : ℕ) → s.sems q ≡ pos n → n < int_max → Ends (posts q) frames s c.tid
  posts-Ends q n e small =
      let (k, ran, h) = sem_post-wakes sound.holds q n e small in
      rw e (returned-Ends sound (with_links k (with_value q (n + 1) s)) ran (woken-Kin q) h refl)

  pub frees-Ends : (l : Ptr) → Ends (frees l) frames s c.tid
  unfolding spin_unlock
  frees-Ends l =
      returned-Ends sound _ refl (Kin-refl a)
        (Holds-cast (record s { spinlocks = update s.spinlocks l false }) sound.holds refl) refl
