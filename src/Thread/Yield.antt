-- ===== src/Thread/Yield.antt =====
-- `uth_yield` on a machine with well-formed queues.
use comp_arch_project.Base.{◌≡◌, refl, ◌∙◌, ap, true, some, List, ◌∷◌, update, update_same}
use comp_arch_project.Machine.{null, ready, Frame, in_yield, Tcb, Machine, ok, switched}
use comp_arch_project.Machine.Access.{IsRunning, not_null, modify-eq-ok}
use comp_arch_project.Thread.{yield}
use comp_arch_project.Queue.Spec.{
  Queues, IsLoose, Holds, Holds-cast, Links, with_links, change, make_ready, map_cell, set_state,
  set_ctx,
}
use comp_arch_project.Queue.Valid.{change-IsValid, change-IsLoose, change_kept-IsValid}
use comp_arch_project.Queue.Refines.{cell-of, cell-found, put-Holds, run_push-Becomes}

-- On a machine whose queues are well-formed, with a running thread that is in no queue, `uth_yield`
-- makes this thread ready at the end of the run queue, saves its context, with the signal mask that
-- it will restore, and switches to the scheduler; the queues are well-formed.
pub yield-switched :
    {s : Machine} {a : Queues} {c : Tcb} (h : Holds s a) (run : IsRunning s c) (frames : List Frame)
    → IsLoose a s.current
    → (k : Links) × (yield frames s ≡ switched (record (with_links k s) { masked = true }))
      × Holds
          (with_links k s)
          (change s.current (set_ctx (in_yield s.masked ∷ frames) true) (make_ready s.current a))
unfolding yield
yield-switched {s} {a} {c} h run frames loose =
    let t = s.current in
    let off = record s { masked = true } in
    let h1 =
      put-Holds (Holds-cast off h refl) t (set_state ready) run.found refl refl
        (change-IsValid h.valid loose (set_state ready)) in
    let cell = update_same a.cells t _ ∙ ap (map_cell (set_state ready)) (cell-of h t run.found) in
    let (k, ran, after) =
      run_push-Becomes h1 t run.ne_null (change-IsLoose h.valid loose (set_state ready)) cell
        refl in
    let (d, found, _) = cell-found after t cell in
    let saved = set_ctx (in_yield s.masked ∷ frames) true in
    let done =
      put-Holds after t saved found refl refl
        (change_kept-IsValid t saved after.valid (λ c. refl)) in
    (
      record k { heap = update k.heap t (some (saved d)) },
      rw (
        not_null run.ne_null,
        modify-eq-ok off run.ne_null run.found,
        ran,
        modify-eq-ok (with_links k off) run.ne_null found,
      ),
      Holds-cast _ done refl,
    )

-- Outside any thread `uth_yield` does nothing.
pub yield_outside :
    (s : Machine) (frames : List Frame) → s.current ≡ null → yield frames s ≡ ok tt s
unfolding yield
yield_outside s frames e = rw e
