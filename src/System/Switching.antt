-- ===== src/System/Switching.antt =====
-- The calls that always switch: `uth_yield`, `uth_cond_wait` and an interrupt; and `uth_spin_lock`,
-- which yields where the lock is held.
use comp_arch_project.Base.{
  ◌≡◌, refl, ◌∙◌, ap, Bool, true, false, List, ◌∷◌, Bool-cases, inl, inr, ◌==◌,
}
use comp_arch_project.Machine.{
  Ptr, ready, running, Frame, in_yield, in_cond_wait, in_spin_lock, Tcb, Machine, and_then, pure,
}
use comp_arch_project.Machine.Access.{IsRunning}
use comp_arch_project.Queue.Spec.{
  Queues, IsLoose, Holds-cast, change, set_ctx, set_state, make_ready, make_wait, wake_first,
}
use comp_arch_project.Table.Listed.{wait_short}
use comp_arch_project.Api.{yields, sleeps, spins, interrupted}
use comp_arch_project.System.{Waits, IsSound, Ends}
use comp_arch_project.System.Kin.{
  change-Alike, saved-Alike, make_ready-Alike, make_wait-Alike, wake_first-Alike,
}
use comp_arch_project.System.Waiting.{
  change-Waits, make_ready-Waits, make_wait-Waits, wake_first-Waits,
}
use comp_arch_project.System.Landing.{
  Kin, Kin-refl, returned-Ends, switched-Ends, current-IsLoose, current_apart,
}
use comp_arch_project.Thread.Yield.{yield-switched}
use comp_arch_project.Cond.Waiting.{cond_wait-releases}
use comp_arch_project.Preempt.Handler.{preempt_handler-switches}
use comp_arch_project.Spinlock.Spinning.{spin_lock-cases}

module _ {s : Machine} {a : Queues} {c : Tcb} (sound : IsSound s a) (run : IsRunning s c)
    (st : c.state ≡ running) (frames : List Frame) where
  abbrev t : Ptr
  t = s.current

  loose : IsLoose a t
  loose = current-IsLoose sound run st

  apart : (j : Ptr) → Waits a j → (j == t) ≡ false
  apart = current_apart sound run st

  -- The thread goes to the end of the run queue, with its context saved.
  yielded-Kin :
      (fs : List Frame) (mask : Bool) → Kin a (change t (set_ctx fs mask) (make_ready t a))
  yielded-Kin fs mask = record {
    alike = λ p. saved-Alike t fs mask (make_ready t a) p ∙ make_ready-Alike t a p;
    waiting =
        λ j w. change-Waits (make_ready-Waits w t (apart j w)) t (set_ctx fs mask) (apart j w);
  }

  pub yields-Ends : Ends yields frames s c.tid
  yields-Ends =
      let (k, ran, h) = yield-switched sound.holds run frames loose in
      switched-Ends sound _ ran (yielded-Kin (in_yield s.masked ∷ frames) true)
        (Holds-cast _ h refl) refl

  pub spins-Ends : (l : Ptr) → Ends (spins l) frames s c.tid
  spins-Ends l =
      let cases = spin_lock-cases sound.holds l run frames loose in
      elim (Bool-cases (s.spinlocks l)) [
        | inl held ↦
            let (k, ran, h) = (rw held at cases) in
            rw held (
              switched-Ends sound _ (ap (λ r. and_then r (λ _. pure tt)) ran)
                (yielded-Kin (in_yield s.masked ∷ in_spin_lock l ∷ frames) true)
                (Holds-cast _ h refl) refl)
        | inr free ↦ rw free (
            returned-Ends sound _ (ap (λ r. and_then r (λ _. pure tt)) (rw free at cases))
              (Kin-refl a) (Holds-cast _ sound.holds refl) refl)
      ]

  pub interrupted-Ends : Ends interrupted frames s c.tid
  interrupted-Ends =
      let (k, ran, h) = preempt_handler-switches sound.holds run frames s.masked loose in
      let a1 = change t (set_ctx frames s.masked) a in
      let a2 = change t (set_state ready) a1 in
      switched-Ends sound _ ran
        (record {
          alike = λ p.
              make_ready-Alike t a2 p
              ∙ change-Alike t (set_state ready) a1 (λ y. refl) p
              ∙ saved-Alike t frames s.masked a p;
          waiting = λ j w.
              make_ready-Waits
                (change-Waits (change-Waits w t (set_ctx frames s.masked) (apart j w)) t
                  (set_state ready) (apart j w))
                t (apart j w);
        })
        (Holds-cast _ h refl) refl

  pub sleeps-Ends : (q m : Ptr) → (s.mutexes m).owner ≡ c.tid → Ends (sleeps q m) frames s c.tid
  sleeps-Ends q m own =
      let short = wait_short sound.holds sound.table sound.listed q in
      let (k, ran, h) = cond_wait-releases sound.holds q m run frames own loose short in
      let a1 = wake_first m a in
      let fs = in_cond_wait q m s.masked ∷ frames in
      switched-Ends sound _ ran
        (record {
          alike = λ p.
              saved-Alike t fs true (make_wait q t a1) p
              ∙ make_wait-Alike q t a1 p
              ∙ wake_first-Alike m a p;
          waiting = λ j w.
              change-Waits (make_wait-Waits (wake_first-Waits w m) q t (apart j w)) t
                (set_ctx fs true) (apart j w);
        })
        (Holds-cast _ h refl) refl
