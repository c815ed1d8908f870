-- ===== src/Thread/Join.antt =====
-- `uth_join` on a machine with well-formed queues and thread table.
use comp_arch_project.Base.{
  ◌≡◌, ◌≢◌, refl, ◌∙◌, ap, subst, true, false, none, some, List, ◌∷◌, has, ◌==◌, if◌then◌else◌,
  Bool, Bool-cases, inl, inr, ==_refl, ne-==_iff, Option, if_app, update, update_same,
}
use comp_arch_project.Machine.{
  Ptr, null, Tid, State, ready, zombie, blocked, Frame, in_join, Tcb, pos, negsuc, Machine, ok,
  switched, put, swap_out,
}
use comp_arch_project.Machine.Access.{IsRunning, not_null, load-eq-ok, modify-eq-ok}
use comp_arch_project.Table.{is_zombie}
use comp_arch_project.Table.Valid.{IsTable, slot, tcb_find-eq-slot}
use comp_arch_project.Table.Free.{freed, tcb_free-eq-ok, freed-IsTable, slot-freed}
use comp_arch_project.Queue.{block_noqueue}
use comp_arch_project.Queue.Chain.{Chain-frame, link_of}
use comp_arch_project.Queue.Push.{view}
use comp_arch_project.Queue.Spec.{
  Queues, IsLoose, Holds, Holds-cast, Links, links, with_links, change, set_state, set_ctx,
  state_at,
}
use comp_arch_project.Queue.Valid.{state_of, change-IsValid, change_kept-IsValid}
use comp_arch_project.Queue.Refines.{cell-of, put-Holds}
use comp_arch_project.Thread.Exit.{set_joiner}
use comp_arch_project.Thread.{join, join_resume, join_collect}

-- `*retval = target->retval`, for a `retval` that is not `NULL`
abbrev pub write_back : (retval : Ptr) → Tcb → Machine → Machine
write_back retval c s = record s {
  memory = if retval == null then s.memory else update s.memory retval c.retval;
}

-- The machine after a thread has been collected.
abbrev pub collected : (target retval : Ptr) → Tcb → Machine → Machine
collected target retval c s = freed target c (write_back retval c s)

join_collect-eq-ok :
    (s : Machine) (target retval : Ptr) (old : Bool) {c : Tcb}
    → target ≢ null
    → s.heap target ≡ some c
    → join_collect target retval old s
      ≡ ok (pos 0) (record (collected target retval c s) { masked = old })
unfolding join_collect
join_collect-eq-ok s target retval old {c} ne found = elim (Bool-cases (retval == null)) [
  | inl e ↦ rw (e, tcb_free-eq-ok s ne found)
  | inr e ↦ rw (
    e,
    load-eq-ok s ne found,
    tcb_free-eq-ok (record s { memory = update s.memory retval c.retval }) ne found,
  )
]

zombie-not-ready :
    (st : State) {o : Option State} → is_zombie st ≡ true → o ≡ some ready → o ≡ some st → ⊥
zombie-not-ready zombie dead e f = cc
zombie-not-ready _ dead e f = cc

zombie-not-blocked :
    (st : State) {o : Option State} → is_zombie st ≡ true → o ≡ some blocked → o ≡ some st → ⊥
zombie-not-blocked zombie dead e f = cc
zombie-not-blocked _ dead e f = cc

-- A zombie is in no queue, so the queues stay well-formed when its TCB is freed.
collected-Holds :
    {s : Machine} {a : Queues} (h : Holds s a) (target retval : Ptr) {c : Tcb}
    → s.heap target ≡ some c
    → is_zombie c.state ≡ true
    → Holds (collected target retval c s) (record a { cells = update a.cells target none })
collected-Holds {s} {a} h target retval {c} found dead = record {
  run_chain = Chain-frame s.heap _ s.rq_head a.run h.run_chain λ p i. ap link_of (rw (not_run p i));
  run_tail = h.run_tail;
  wait_chain = λ q.
      Chain-frame s.heap _ (s.waiters q) (a.wait q) (h.wait_chain q)
        λ p i. ap link_of (rw (not_wait q p i));
  content = λ p.
      if_app view (p == target) none (s.heap p)
      ∙ elim (Bool-cases (p == target)) [ inl e ↦ rw e | inr e ↦ rw e (h.content p) ];
  valid = record {
    run_distinct = h.valid.run_distinct;
    wait_distinct = h.valid.wait_distinct;
    run_ready = λ p i. ap state_of (rw (not_run p i)) ∙ h.valid.run_ready p i;
    wait_blocked = λ q p i. ap state_of (rw (not_wait q p i)) ∙ h.valid.wait_blocked q p i;
    wait_apart = h.valid.wait_apart;
  };
}
  where
    zombie_cell : state_at a.cells target ≡ some c.state
    zombie_cell = ap state_of (cell-of h target found)

    not_run : (p : Ptr) → has p a.run ≡ true → (p == target) ≡ false
    not_run p i = (ne-==_iff p target).1 λ e.
        zombie-not-ready c.state dead
          (subst (λ t. state_at a.cells t ≡ some ready) e (h.valid.run_ready p i)) zombie_cell

    not_wait : (q p : Ptr) → has p (a.wait q) ≡ true → (p == target) ≡ false
    not_wait q p i = (ne-==_iff p target).1 λ e.
        zombie-not-blocked c.state dead
          (subst (λ t. state_at a.cells t ≡ some blocked) e (h.valid.wait_blocked q p i))
          zombie_cell

-- A TCB is still there after a write to another, or to itself.
put-found :
    (s : Machine) (t : Ptr) (x : Tcb) {p : Ptr} {d : Tcb}
    → s.heap p ≡ some d
    → (y : Tcb) × ((put t x s).heap p ≡ some y)
put-found s t x {p} {d} found = elim (Bool-cases (p == t)) [
  | inl e ↦ (x, rw e)
  | inr e ↦ (d, rw e found)
]

module _ {s : Machine} (v : IsTable s) (tid : Tid) (retval : Ptr) where
  abbrev off : Machine
  off = record s { masked = true }

  find_off : IsTable off
  find_off = record {
    sized = v.sized;
    fits = v.fits;
    bounded = v.bounded;
    next_number = v.next_number;
    numbered = v.numbered;
  }

  kept : (c : Tcb) → IsTable (write_back retval c s)
  kept c = record {
    sized = v.sized;
    fits = v.fits;
    bounded = v.bounded;
    next_number = v.next_number;
    numbered = v.numbered;
  }

  -- A TID that is not in the table: -1, and nothing changes.
  pub join-unknown :
      (frames : List Frame) → slot s tid ≡ null → join tid retval frames s ≡ ok (negsuc 0) s
  unfolding join
  join-unknown frames none_such = rw (tcb_find-eq-slot find_off tid, none_such)

  -- With a well-formed thread table and well-formed queues, `uth_join` of a zombie returns 0 at
  -- once: its value is written where `retval` points, unless that is `NULL`; its table entry, stack
  -- and TCB are freed; its TID is no longer found; table and queues are well-formed.
  pub join-collects :
      {a : Queues} {c : Tcb} (h : Holds s a) (frames : List Frame)
      → slot s tid ≢ null
      → s.heap (slot s tid) ≡ some c
      → is_zombie c.state ≡ true
      → (join tid retval frames s ≡ ok (pos 0) (collected (slot s tid) retval c s))
        × Holds
            (collected (slot s tid) retval c s)
            (record a { cells = update a.cells (slot s tid) none })
        × IsTable (collected (slot s tid) retval c s)
        × (slot (collected (slot s tid) retval c s) tid ≡ null)
  unfolding join
  join-collects {c} h frames ne found dead = (
    rw (
      tcb_find-eq-slot find_off tid,
      not_null ne,
      load-eq-ok off ne found,
      dead,
      join_collect-eq-ok off (slot s tid) retval s.masked ne found,
    ),
    collected-Holds h (slot s tid) retval found dead,
    freed-IsTable (kept c) ne found,
    slot-freed (kept c) ne found tid ∙ rw (==_refl (slot s tid)),
  )

  -- After the wait the target is looked up again: it is collected, or, where another thread has
  -- collected it in between, the result is -1.
  pub join_resume-unknown :
      (old : Bool)
      → slot s tid ≡ null
      → join_resume tid retval old s ≡ ok (negsuc 0) (record s { masked = old })
  unfolding join_resume
  join_resume-unknown old none_such = rw (tcb_find-eq-slot v tid, none_such)

  pub join_resume-collects :
      {c : Tcb} (old : Bool)
      → slot s tid ≢ null
      → s.heap (slot s tid) ≡ some c
      → join_resume tid retval old s
        ≡ ok (pos 0) (record (collected (slot s tid) retval c s) { masked = old })
  unfolding join_resume
  join_resume-collects old ne found =
      rw (tcb_find-eq-slot v tid, not_null ne)
        (join_collect-eq-ok s (slot s tid) retval old ne found)

  -- With a well-formed thread table and well-formed queues, and a running thread that is in no
  -- queue, `uth_join` of a thread that is not a zombie notes the caller as the target's joiner, and
  -- switches to the scheduler with the caller blocked in no queue, to go on in `uth_join`; the
  -- queues are well-formed.
  pub join-waits :
      {a : Queues} {c d : Tcb} (h : Holds s a) (run : IsRunning s d) (frames : List Frame)
      → IsLoose a s.current
      → slot s tid ≢ null
      → s.heap (slot s tid) ≡ some c
      → is_zombie c.state ≡ false
      → (k : Links) × (join tid retval frames s
          ≡ switched (record (with_links k s) { masked = true }))
        × Holds (with_links k s) (
            change s.current
              (set_ctx (in_join tid retval s.masked ∷ frames) true)
              (change s.current (set_state blocked) (change (slot s tid) (set_joiner s.current) a)))
  unfolding join block_noqueue swap_out
  join-waits {a} {c} {d} h run frames loose ne found alive =
      let t = s.current in
      let target = slot s tid in
      let h1 =
        put-Holds (Holds-cast off h refl) target (set_joiner t) found refl refl
          (change_kept-IsValid target (set_joiner t) h.valid (λ y. refl)) in
      let s1 = put target (set_joiner t c) off in
      let (x, found1) = put-found off target (set_joiner t c) run.found in
      let h2 = put-Holds h1 t (set_state blocked) found1 refl refl (
        change-IsValid h1.valid (record { not_run = loose.not_run; not_wait = loose.not_wait })
          (set_state blocked)) in
      let s2 = put t (set_state blocked x) s1 in
      let saved = set_ctx (in_join tid retval s.masked ∷ frames) true in
      let found2 = update_same s1.heap t (some (set_state blocked x)) in
      let done =
        put-Holds h2 t saved found2 refl refl (change_kept-IsValid t saved h2.valid (λ y. refl)) in
      (
        links (put t (saved (set_state blocked x)) s2),
        rw (
          tcb_find-eq-slot find_off tid,
          not_null ne,
          load-eq-ok off ne found,
          alive,
          modify-eq-ok off ne found,
          modify-eq-ok s1 run.ne_null found1,
          modify-eq-ok s2 run.ne_null found2,
        ),
        Holds-cast _ done refl,
      )
