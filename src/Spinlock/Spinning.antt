-- ===== src/Spinlock/Spinning.antt =====
-- `uth_spin_lock` on a machine with well-formed queues.
use comp_arch_project.Base.{◌≡◌, refl, ap, ◌∙◌, Bool, true, false, List, ◌∷◌, update, update_self}
use comp_arch_project.Machine.{
  Ptr, Frame, in_yield, in_spin_lock, Tcb, Machine, Run, ok, switched, and_then, pure,
}
use comp_arch_project.Machine.Access.{IsRunning}
use comp_arch_project.Spinlock.{spin_lock}
use comp_arch_project.Queue.Spec.{
  Queues, IsLoose, Holds, Links, with_links, change, make_ready, set_ctx,
}
use comp_arch_project.Thread.{yield}
use comp_arch_project.Thread.Yield.{yield-switched}

-- At a free lock the flag is set, and the lock entered; at one that is held the flag stays, and the
-- thread goes to the end of the run queue, to try again.
abbrev pub AfterSpin : (was : Bool) (l : Ptr) → List Frame → Machine → Queues → Run Bool → Type 0
AfterSpin false l frames s a result =
    result ≡ ok true (record s { spinlocks = update s.spinlocks l true })
AfterSpin true l frames s a result =
    (k : Links) × (result ≡ switched (record (with_links k s) { masked = true }))
    × Holds (with_links k s) (
        change s.current (set_ctx (in_yield s.masked ∷ in_spin_lock l ∷ frames) true)
          (make_ready s.current a))

spin-cases :
    {s : Machine} {a : Queues} {c : Tcb} (h : Holds s a) (l : Ptr) (run : IsRunning s c)
    (frames : List Frame) (was : Bool)
    → s.spinlocks l ≡ was
    → IsLoose a s.current
    → AfterSpin was l frames s a (spin_lock l frames s)
unfolding spin_lock
spin-cases h l run frames false e loose = rw e
spin-cases {s} h l run frames true e loose =
    let (k, ran, after) = yield-switched h run (in_spin_lock l ∷ frames) loose in
    let same = ap (λ f. record s { spinlocks = f }) (update_self s.spinlocks l true e) in
    let tried =
      ap (λ r. and_then r (λ _. pure false)) (ap (yield (in_spin_lock l ∷ frames)) same ∙ ran) in
    (k, rw e tried, after)

-- On a machine whose queues are well-formed, with a running thread that is in no queue, a round of
-- `uth_spin_lock` sets a clear flag and enters; with the flag set it changes no lock, and switches
-- to the scheduler with the thread ready at the end of the run queue, to try again.
pub spin_lock-cases :
    {s : Machine} {a : Queues} {c : Tcb} (h : Holds s a) (l : Ptr) (run : IsRunning s c)
    (frames : List Frame)
    → IsLoose a s.current
    → AfterSpin (s.spinlocks l) l frames s a (spin_lock l frames s)
spin_lock-cases {s} h l run frames loose = spin-cases h l run frames (s.spinlocks l) refl loose
