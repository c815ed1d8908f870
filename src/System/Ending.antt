-- ===== src/System/Ending.antt =====
-- `uth_exit` and `uth_join` of a thread that lives, on a sound machine.
use comp_arch_project.Base.{
  ℕ, ◌≡◌, ◌≢◌, refl, sym, ◌∙◌, ap, true, false, some, none, List, Bool-cases, inl, inr, ◌==◌,
  if◌then◌else◌, ==_refl, Option, subst, ==_iff, ne-==_iff, Option-cases,
}
use comp_arch_project.Machine.{Ptr, null, ready, running, blocked, Frame, Tcb, Machine}
use comp_arch_project.Machine.Access.{IsRunning}
use comp_arch_project.Queue.Spec.{
  Queues, IsLoose, Holds-cast, with_links, change, set_ctx, set_state, make_ready, state_at,
  map_cell,
}
use comp_arch_project.Api.{exits}
use comp_arch_project.System.{joiner_in, Waits, Joins, IsSound, Ends, after, has_returned}
use comp_arch_project.System.Kin.{change-Alike}
use comp_arch_project.System.Waiting.{change-Waits, make_ready-Waits}
use comp_arch_project.System.Landing.{same-IsSound, switched-Ends, current-IsLoose, current_apart}
use comp_arch_project.Table.Kept.{tid_in}
use comp_arch_project.Queue.Valid.{state_of}
use comp_arch_project.Queue.Refines.{cell-of}
use comp_arch_project.Thread.Exit.{set_zombie, set_joiner, last_context, exit-unjoined, exit-joined}
use comp_arch_project.System.Joiners.{
  change-state_at, set_state-state_at, change-tid_in, change-joiner_in, ended-Joins, joined-Joins,
}

module _ {s : Machine} {a : Queues} {c : Tcb} (sound : IsSound s a) (run : IsRunning s c)
    (st : c.state ≡ running) (frames : List Frame) where
  abbrev t : Ptr
  t = s.current

  loose : IsLoose a t
  loose = current-IsLoose sound run st

  apart : (j : Ptr) → Waits a j → (j == t) ≡ false
  apart = current_apart sound run st

  runs : state_at a.cells t ≡ some running
  runs = ap state_of (cell-of sound.holds t run.found) ∙ ap some st

  -- The joiner of the running thread, as the queues have it.
  own_joiner : joiner_in (a.cells t) ≡ c.joiner
  own_joiner = ap joiner_in (cell-of sound.holds t run.found)

  exits_alone-Ends : (retval : ℕ) → c.joiner ≡ null → Ends (exits retval) frames s c.tid
  exits_alone-Ends retval alone =
      let (k, ran, h) = exit-unjoined sound.holds run loose retval alone in
      let f = set_zombie retval in
      switched-Ends sound _ ran
        (record {
          alike = λ p.
              change-Alike t last_context (change t f a) (λ y. refl) p
              ∙ change-Alike t f a (λ y. refl) p;
          waiting = λ j w. change-Waits (change-Waits w t f (apart j w)) t last_context (apart j w);
        })
        (Holds-cast _ h refl) refl

  -- The queues after the exit of a thread for which `j` waits.
  abbrev left : (retval : ℕ) (j : Ptr) → Queues
  left retval j =
      change t last_context
        (change t (set_joiner null) (make_ready j (change t (set_zombie retval) a)))

  left-tid_in : (retval : ℕ) (j p : Ptr) → tid_in ((left retval j).cells p) ≡ tid_in (a.cells p)
  left-tid_in retval j p =
      let a1 = change t (set_zombie retval) a in
      let a2 = make_ready j a1 in
      change-tid_in t last_context (change t (set_joiner null) a2) (λ y. refl) p
      ∙ change-tid_in t (set_joiner null) a2 (λ y. refl) p
      ∙ change-tid_in j (set_state ready) a1 (λ y. refl) p
      ∙ change-tid_in t (set_zombie retval) a (λ y. refl) p

  cleared : (o : Option Tcb) → joiner_in (map_cell (set_joiner null) o) ≡ null
  cleared none = refl
  cleared (some y) = refl

  left-joiner_in :
      (retval : ℕ) (j p : Ptr)
      → joiner_in ((left retval j).cells p) ≡ (if p == t then null else joiner_in (a.cells p))
  left-joiner_in retval j p =
      let a1 = change t (set_zombie retval) a in
      let a2 = make_ready j a1 in
      change-joiner_in t last_context (change t (set_joiner null) a2) (λ y. refl) p
      ∙ elim (Bool-cases (p == t)) [
        | inl e ↦ rw e (cleared (a2.cells t))
        | inr e ↦
            let kept =
              change-joiner_in j (set_state ready) a1 (λ y. refl) p
              ∙ change-joiner_in t (set_zombie retval) a (λ y. refl) p in
            rw e (rw e at kept)
      ]

  exits_joined-Ends : (retval : ℕ) → c.joiner ≢ null → Ends (exits retval) frames s c.tid
  exits_joined-Ends retval joined =
      let j = c.joiner in
      let w = subst (Waits a) own_joiner (sound.joins.waits t λ e. joined (sym own_joiner ∙ e)) in
      elim (Option-cases (a.cells j)) [
        | inl gone ↦ cc (w.blocked_there, ap state_of gone)
        | inr (d, cell) ↦
            let (k, ran, h) =
              exit-joined sound.holds run loose retval joined ((ne-==_iff j t).0 (apart j w))
                w.loose cell in
            let s' = record (with_links k s) { masked = true; current = null } in
            (
              s',
              left retval j,
              ap after ran,
              ap has_returned ran,
              refl,
              same-IsSound s' sound (left-tid_in retval j)
                  (ended-Joins sound.joins t (left-joiner_in retval j) λ i v other.
                    let v1 = change-Waits v t (set_zombie retval) (apart i v) in
                    let v2 =
                      make_ready-Waits v1 j
                        ((ne-==_iff i j).1 λ same. other (same ∙ sym own_joiner)) in
                    change-Waits (change-Waits v2 t (set_joiner null) (apart i v)) t last_context
                      (apart i v))
                  (Holds-cast s' h refl) refl,
            )
      ]

  pub exits-Ends : (retval : ℕ) → Ends (exits retval) frames s c.tid
  exits-Ends retval = elim (Bool-cases (c.joiner == null)) [
    | inl e ↦ exits_alone-Ends retval ((==_iff c.joiner null).0 e)
    | inr e ↦ exits_joined-Ends retval ((ne-==_iff c.joiner null).0 e)
  ]

  -- The queues once the running thread waits for the end of `target`.
  abbrev pub noted : (target : Ptr) (fs : List Frame) → Queues
  noted target fs =
      change t (set_ctx fs true) (change t (set_state blocked) (change target (set_joiner t) a))

  pub noted-Joins :
      (target : Ptr) (fs : List Frame) {d : Tcb} → a.cells target ≡ some d → Joins (noted target fs)
  noted-Joins target fs {d} cell =
      let a1 = change target (set_joiner t) a in
      let a2 = change t (set_state blocked) a1 in
      joined-Joins sound.joins target t
        (λ p.
          change-joiner_in t (set_ctx fs true) a2 (λ y. refl) p
          ∙ change-joiner_in t (set_state blocked) a1 (λ y. refl) p
          ∙ elim (Bool-cases (p == target)) [ inl e ↦ rw (e, cell) | inr e ↦ rw e ])
        (λ w. cc (apart t w, ==_refl t))
        (record {
          blocked_there = blocked_now;
          loose = record { not_run = loose.not_run; not_wait = loose.not_wait };
        })
        (λ i w.
          change-Waits (change-Waits (noted_still i w) t (set_state blocked) (apart i w)) t
            (set_ctx fs true) (apart i w))
    where
      blocked_now : state_at (noted target fs).cells t ≡ some blocked
      blocked_now =
          let a1 = change target (set_joiner t) a in
          change-state_at t (set_ctx fs true) (change t (set_state blocked) a1) (λ y. refl) t
          ∙ set_state-state_at blocked t a1
              (change-state_at target (set_joiner t) a (λ y. refl) t ∙ runs)

      noted_still : (i : Ptr) → Waits a i → Waits (change target (set_joiner t) a) i
      noted_still i w = record {
        blocked_there = change-state_at target (set_joiner t) a (λ y. refl) i ∙ w.blocked_there;
        loose = record { not_run = w.loose.not_run; not_wait = w.loose.not_wait };
      }
