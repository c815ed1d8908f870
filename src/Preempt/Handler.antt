-- ===== src/Preempt/Handler.antt =====
-- The signal handler on a machine with well-formed queues.
use comp_arch_project.Base.{◌≡◌, refl, Bool, true, some, List, update_same}
use comp_arch_project.Machine.{null, ready, Frame, Tcb, Machine, ok, switched, put}
use comp_arch_project.Machine.Access.{IsRunning, not_null, modify-eq-ok}
use comp_arch_project.Preempt.{preempt_handler}
use comp_arch_project.Queue.Spec.{
  Queues, IsLoose, Holds, Holds-cast, Links, with_links, change, make_ready, set_state, set_ctx,
}
use comp_arch_project.Queue.Valid.{change-IsValid, change-IsLoose}
use comp_arch_project.Queue.Refines.{cell-of, put-Holds, enqueue-Becomes}

-- On a machine whose queues are well-formed, with a running thread that is in no queue, the signal
-- handler saves where this thread was interrupted and the mask that it had, makes it ready at the
-- end of the run queue, leaves no thread current, and switches to the scheduler; the queues are
-- well-formed.
pub preempt_handler-switches :
    {s : Machine} {a : Queues} {c : Tcb} (h : Holds s a) (run : IsRunning s c) (frames : List Frame)
    (mask : Bool)
    → IsLoose a s.current
    → (k : Links) × (preempt_handler frames mask s
        ≡ switched (record (with_links k s) { current = null; masked = true }))
      × Holds (with_links k s) (
          make_ready s.current
            (change s.current (set_state ready) (change s.current (set_ctx frames mask) a)))
unfolding preempt_handler
preempt_handler-switches {s} {a} {c} h run frames mask loose =
    let t = s.current in
    let ctx = set_ctx frames mask in
    let h1 = put-Holds h t ctx run.found refl refl (change-IsValid h.valid loose ctx) in
    let s1 = put t (ctx c) s in
    let loose1 = change-IsLoose h.valid loose ctx in
    let found1 = update_same s.heap t (some (ctx c)) in
    let h2 =
      put-Holds h1 t (set_state ready) found1 refl refl
        (change-IsValid h1.valid loose1 (set_state ready)) in
    let s2 = put t (set_state ready (ctx c)) s1 in
    let (k, ran, after) =
      enqueue-Becomes h2 t run.ne_null (change-IsLoose h1.valid loose1 (set_state ready))
        (cell-of h2 t (update_same s1.heap t (some (set_state ready (ctx c))))) in
    (
      k,
      rw (
        not_null run.ne_null,
        modify-eq-ok s run.ne_null run.found,
        modify-eq-ok s1 run.ne_null found1,
        ran,
      ),
      Holds-cast _ after refl,
    )

-- The handler does not interrupt the scheduler.
pub preempt_handler_outside :
    (s : Machine) (frames : List Frame) (mask : Bool)
    → s.current ≡ null
    → preempt_handler frames mask s ≡ ok tt s
unfolding preempt_handler
preempt_handler_outside s frames mask e = rw e
