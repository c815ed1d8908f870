-- ===== src/Thread/Schedule.antt =====
-- A round of the scheduler's loop on a machine with well-formed queues and thread table.
use comp_arch_project.Base.{
  ◌≡◌, ◌≢◌, refl, ◌∙◌, ap, subst, true, some, List, [], ◌∷◌, arith, has, AllDistinct, ne-==_iff,
}
use comp_arch_project.Machine.{Ptr, ready, running, Context, Tcb, Machine, ok, put}
use comp_arch_project.Machine.Access.{not_null, load-eq-ok, modify-eq-ok}
use comp_arch_project.Table.{entries, is_zombie}
use comp_arch_project.Table.Valid.{IsTable}
use comp_arch_project.Table.Live.{live_count, live_count-pos, active_count-eq-ok}
use comp_arch_project.Thread.{schedule, is_ready, finished, no_ready, resume}
use comp_arch_project.Queue.Spec.{
  Queues, IsLoose, Holds, Holds-cast, Links, links, with_links, change, set_state,
}
use comp_arch_project.Queue.Valid.{state_of, run-wait-apart, change-IsValid}
use comp_arch_project.Queue.Chain.{Chain-live}
use comp_arch_project.Queue.Refines.{cell-found, put-Holds}
use comp_arch_project.Queue.Wake.{run_pop-empty, run_pop-Becomes}

-- The loop ends exactly when no live thread is left.
pub schedule-finished :
    {s : Machine} → IsTable s → live_count s.heap (entries s) ≡ 0 → schedule s ≡ ok finished s
unfolding schedule
schedule-finished v e = rw (active_count-eq-ok v, e)

-- With live threads of which none is ready the round changes nothing, and the loop goes on.
pub schedule-no_ready :
    {s : Machine} {a : Queues}
    → IsTable s
    → Holds s a
    → live_count s.heap (entries s) ≢ 0
    → a.run ≡ []
    → schedule s ≡ ok no_ready s
unfolding schedule
schedule-no_ready v h some_live e =
    rw (active_count-eq-ok v, (ne-==_iff _ 0).1 some_live, run_pop-empty h e)

-- With a well-formed thread table and well-formed queues, a first thread in the run queue, and this
-- thread in the table, a round of the scheduler's loop passes its assertion and resumes this thread
-- in the calls and with the signal mask of its context; it is the current thread, it is running, it
-- has left the run queue, and the queues are well-formed.
pub schedule-resumes :
    {s : Machine} {a : Queues} (v : IsTable s) (h : Holds s a) (t : Ptr) (ts : List Ptr) {c : Tcb}
    → a.run ≡ t ∷ ts
    → has t (entries s) ≡ true
    → a.cells t ≡ some c
    → (k : Links) × (schedule s
        ≡ ok (resume t c.ctx.frames) (record (with_links k s) { current = t; masked = c.ctx.mask }))
      × Holds (with_links k s) (change t (set_state running) (record a { run = ts }))
unfolding schedule
schedule-resumes {s} {a} v h t ts {c} e listed cell =
    let first_runs : has t a.run ≡ true = rw e (ground arith) in
    let (k, ran, after) = run_pop-Becomes h t ts e in
    let s1 = with_links k s in
    let (_, nt, _) = Chain-live s.heap s.rq_head a.run t h.run_chain first_runs in
    let (x, before, same0) = cell-found h t cell in
    let (d, found, same) = cell-found after t cell in
    let st : c.state ≡ ready = cc (h.valid.run_ready t first_runs, ap state_of cell) in
    let loose : IsLoose (record a { run = ts }) t = record {
      not_run = (subst AllDistinct e h.valid.run_distinct).0;
      not_wait = λ q. ground (arith, run-wait-apart a q t h.valid, first_runs);
    } in
    let alive =
      live_count-pos s.heap (entries s) t listed nt before
        (ap (λ (y : Tcb). is_zombie y.state) same0 ∙ ap is_zombie st) in
    let test : is_ready d.state ≡ true = ap (λ (y : Tcb). is_ready y.state) same ∙ ap is_ready st in
    let done =
      put-Holds after t (set_state running) found refl refl
        (change-IsValid after.valid loose (set_state running)) in
    (
      links (put t (set_state running d) s1),
      rw
          (
            active_count-eq-ok v,
            (ne-==_iff (live_count s.heap (entries s)) 0).1 (omega arith),
            ran,
            not_null nt,
            load-eq-ok s1 nt found,
            test,
            modify-eq-ok s1 nt found,
          )
          (ap
            (λ (x : Context).
              ok (resume t x.frames)
                (record (put t (set_state running d) s1) { current = t; masked = x.mask }))
            (ap (λ (y : Tcb). y.ctx) same)),
      Holds-cast _ done refl,
    )
