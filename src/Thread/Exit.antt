-- ===== src/Thread/Exit.antt =====
-- `uth_exit` on a machine with well-formed queues.
use comp_arch_project.Base.{
  ℕ, ◌≡◌, refl, sym, ◌∙◌, ap, ◌≢◌, true, some, [], ◌∷◌, update_same, ==_iff, update_other,
  update-update,
}
use comp_arch_project.Machine.{
  Ptr, null, zombie, after_exit, Tcb, Machine, switched, put, Cmd, modify, ◌>>◌,
}
use comp_arch_project.Machine.Access.{IsRunning, not_null, load-eq-ok, modify-eq-ok}
use comp_arch_project.Thread.{exit}
use comp_arch_project.Queue.Spec.{
  Queues, IsLoose, Holds, Holds-cast, Links, links, with_links, change, make_ready, map_cell,
  set_ctx,
}
use comp_arch_project.Queue.Valid.{change-IsValid, change_kept-IsValid}
use comp_arch_project.Queue.Refines.{cell-of, cell-found, put-Holds, enqueue-Becomes}

abbrev pub set_zombie : ℕ → Tcb → Tcb
set_zombie retval c = record c { retval = retval; state = zombie }

abbrev pub set_joiner : Ptr → Tcb → Tcb
set_joiner j c = record c { joiner = j }

abbrev pub last_context : Tcb → Tcb
last_context = set_ctx (after_exit ∷ []) true

module _ {s : Machine} {a : Queues} {c : Tcb} (h : Holds s a) (run : IsRunning s c)
    (loose : IsLoose a s.current) (retval : ℕ) where
  -- the machine once the thread is a zombie
  abbrev dead : Machine
  dead = put s.current (set_zombie retval c) (record s { masked = true })

  dead-Holds : Holds dead (change s.current (set_zombie retval) a)
  dead-Holds =
      put-Holds (Holds-cast (record s { masked = true }) h refl) s.current (set_zombie retval)
        run.found refl refl (change-IsValid h.valid loose (set_zombie retval))

  -- The two assignments that make the thread a zombie.
  start :
      {B : Type 0} (next : Cmd B)
      → (modify s.current (λ d. record d { retval = retval })
            >> (modify s.current (λ d. record d { state = zombie }) >> next))
          (record s { masked = true })
        ≡ next dead
  start {B} next =
      let t = s.current in
      let off = record s { masked = true } in
      let c1 = record c { retval = retval } in
      rw (
        modify-eq-ok off run.ne_null run.found,
        modify-eq-ok (put t c1 off) run.ne_null (update_same s.heap t (some c1)),
        update-update s.heap t,
      )

  -- On a machine whose queues are well-formed, with a running thread that is in no queue and has no
  -- joiner, `uth_exit` makes this thread a zombie with its return value, in no queue, and switches
  -- to the scheduler; the queues are well-formed.
  pub exit-unjoined :
      c.joiner ≡ null
      → (k : Links) × (exit retval s ≡ switched (record (with_links k s) { masked = true }))
        × Holds
            (with_links k s)
            (change s.current last_context (change s.current (set_zombie retval) a))
  unfolding exit
  exit-unjoined alone =
      let t = s.current in
      let found = update_same s.heap t (some (set_zombie retval c)) in
      let valid = change_kept-IsValid t last_context dead-Holds.valid (λ d. refl) in
      let done = put-Holds dead-Holds t last_context found refl refl valid in
      (
        links (put t (last_context (set_zombie retval c)) dead),
        rw (
          start _,
          load-eq-ok dead run.ne_null found,
          (==_iff c.joiner null).1 alone,
          modify-eq-ok dead run.ne_null found,
        ),
        Holds-cast _ done refl,
      )

  -- On a machine whose queues are well-formed, with a running thread that is in no queue, and a
  -- joiner that is another thread and in no queue either: `uth_exit` makes the running thread a
  -- zombie with its return value and no joiner, makes the joiner ready at the end of the run queue,
  -- switches to the scheduler, and keeps the queues well-formed.
  pub exit-joined :
      {d : Tcb}
      → c.joiner ≢ null
      → c.joiner ≢ s.current
      → IsLoose a c.joiner
      → a.cells c.joiner ≡ some d
      → (k : Links) × (exit retval s ≡ switched (record (with_links k s) { masked = true }))
        × Holds (with_links k s) (
            change s.current last_context (
              change s.current
                (set_joiner null)
                (make_ready c.joiner (change s.current (set_zombie retval) a))))
  unfolding exit
  exit-joined {d} joined other waits cell =
      let t = s.current in
      let j = c.joiner in
      let found = update_same s.heap t (some (set_zombie retval c)) in
      let waits' : IsLoose (change t (set_zombie retval) a) j = record {
        not_run = waits.not_run;
        not_wait = waits.not_wait;
      } in
      let (k, ran, after) =
        enqueue-Becomes dead-Holds j joined waits' (update_other a.cells t _ j other ∙ cell) in
      let cell1 =
        update_other (change t (set_zombie retval) a).cells j _ t (λ e. other (sym e))
        ∙ update_same a.cells t _
        ∙ ap (map_cell (set_zombie retval)) (cell-of h t run.found) in
      let (x, found1, _) = cell-found after t cell1 in
      let h2 =
        put-Holds after t (set_joiner null) found1 refl refl
          (change_kept-IsValid t (set_joiner null) after.valid (λ y. refl)) in
      let s1 = with_links k dead in
      let s2 = put t (set_joiner null x) s1 in
      let found2 = update_same s1.heap t (some (set_joiner null x)) in
      let done =
        put-Holds h2 t last_context found2 refl refl
          (change_kept-IsValid t last_context h2.valid (λ y. refl)) in
      (
        links (put t (last_context (set_joiner null x)) s2),
        rw (
          start _,
          load-eq-ok dead run.ne_null found,
          not_null joined,
          ran,
          modify-eq-ok s1 run.ne_null found1,
          modify-eq-ok s2 run.ne_null found2,
        ),
        Holds-cast _ done refl,
      )
