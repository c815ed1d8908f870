-- ===== src/System/Collecting.antt =====
-- `uth_join` on a sound machine: a zombie is collected, a thread that lives is waited for.
use comp_arch_project.Base.{
  if_app, take, ℕ, zero, suc, ◌≡◌, ◌≢◌, refl, ◌∙◌, ap, Bool, true, false, some, none, List, [], ◌∷◌,
  Bool-cases, inl, inr, ◌==◌, update, arith, has, ◌⊎◌, ==_iff, ne-==_iff,
}
use comp_arch_project.Machine.{
  Ptr, Tid, null, State, ready, running, blocked, zombie, Frame, in_join, Tcb, Machine, and_then,
  pure,
}
use comp_arch_project.Machine.Access.{IsRunning, not_null}
use comp_arch_project.Queue.Spec.{
  Queues, IsLoose, Holds, Holds-cast, with_links, change, set_ctx, set_state, state_at,
}
use comp_arch_project.Api.{joins, rejoins}
use comp_arch_project.System.{joiner_in, Waits, IsSound, IsZombie, Ends, after, has_returned}
use comp_arch_project.System.Waiting.{apart_by_state}
use comp_arch_project.System.Landing.{
  Kin-refl, same-IsSound, returned-Ends, current-IsLoose, current_apart,
}
use comp_arch_project.Table.{clear_entry, is_zombie}
use comp_arch_project.Table.Valid.{IsTable, Names, slot, slot-Names}
use comp_arch_project.Queue.Valid.{state_of}
use comp_arch_project.Queue.Refines.{cell-of}
use comp_arch_project.Thread.Exit.{set_joiner}
use comp_arch_project.Thread.Join.{
  collected, join-unknown, join-collects, join-waits, join_resume-unknown, join_resume-collects,
}
use comp_arch_project.System.Joiners.{change-tid_in, ended-Joins}
use comp_arch_project.System.Ending.{noted, noted-Joins}

-- Every other thread keeps its entry.
has-clear_entry :
    (n : ℕ) (t p : Ptr) (ps : List Ptr)
    → (p == t) ≡ false
    → has p (take n ps) ≡ true
    → has p (take n (clear_entry n t ps)) ≡ true
unfolding clear_entry
has-clear_entry zero t p ps other i = i
has-clear_entry (suc n) t p [] other i = i
has-clear_entry (suc n) t p (x ∷ ps) other i = ground (arith, has-clear_entry n t p ps other)

zombie_lem : (x : State) → is_zombie x ≡ true → x ≡ zombie
zombie_lem zombie e = refl
zombie_lem ready e = cc
zombie_lem running e = cc
zombie_lem blocked e = cc

-- The queues without a thread.
abbrev forgotten : Ptr → Queues → Queues
forgotten target a = record a { cells = update a.cells target none }

module _ {s : Machine} {a : Queues} (sound : IsSound s a) {target : Ptr} {d : Tcb}
    (ne : target ≢ null) (found : s.heap target ≡ some d) (dead : is_zombie d.state ≡ true) where
  dead_cell : state_at a.cells target ≡ some zombie
  dead_cell = ap state_of (cell-of sound.holds target found) ∙ ap some (zombie_lem d.state dead)

  -- The machine is sound once a zombie has been freed.
  collected-IsSound :
      (retval : Ptr) (mask : Bool)
      → Holds (collected target retval d s) (forgotten target a)
      → IsTable (collected target retval d s)
      → IsSound (record (collected target retval d s) { masked = mask }) (forgotten target a)
  collected-IsSound retval mask h v = record {
    holds = Holds-cast (record (collected target retval d s) { masked = mask }) h refl;
    table = record {
      sized = v.sized;
      fits = v.fits;
      bounded = v.bounded;
      next_number = v.next_number;
      numbered = v.numbered;
    };
    listed = λ p x e. elim (Bool-cases (p == target)) [
      | inl here ↦ cc (rw here at e)
      | inr other ↦
          has-clear_entry s.tcb_count target p s.tcb_table other (sound.listed p x (rw other at e))
    ];
    joins =
        ended-Joins sound.joins target (λ p. if_app joiner_in (p == target) none (a.cells p))
          λ j w _.
            let other = apart_by_state target dead_cell (λ e. cc) j w in
            record {
              blocked_there = ap state_of (rw other) ∙ w.blocked_there;
              loose = record { not_run = w.loose.not_run; not_wait = w.loose.not_wait };
            };
  }

module _ {s : Machine} {a : Queues} {c : Tcb} (sound : IsSound s a) (run : IsRunning s c)
    (st : c.state ≡ running) (frames : List Frame) where
  abbrev t : Ptr
  t = s.current

  loose : IsLoose a t
  loose = current-IsLoose sound run st

  apart : (j : Ptr) → Waits a j → (j == t) ≡ false
  apart = current_apart sound run st

  knows : (tid : Tid) → slot s tid ≢ null → Names s.heap (slot s tid) tid
  knows tid ne = slot-Names sound.table tid ne

  joins_unknown-Ends :
      (tid : Tid) (retval : Ptr) → slot s tid ≡ null → Ends (joins tid retval) frames s c.tid
  joins_unknown-Ends tid retval gone = rw gone (
      returned-Ends sound s
        (ap (λ r. and_then r (λ _. pure tt)) (join-unknown sound.table tid retval frames gone))
        (Kin-refl a) sound.holds refl)

  joins_zombie-Ends :
      (tid : Tid) (retval : Ptr) (ne : slot s tid ≢ null) {d : Tcb}
      → s.heap (slot s tid) ≡ some d
      → is_zombie d.state ≡ true
      → Ends (joins tid retval) frames s c.tid
  joins_zombie-Ends tid retval ne {d} found dead =
      let (ran, h, v, _) = join-collects sound.table tid retval sound.holds frames ne found dead in
      (
        collected (slot s tid) retval d s,
        forgotten (slot s tid) a,
        ap (λ r. after (and_then r (λ _. pure tt))) ran,
        ap (λ r. has_returned (and_then r (λ _. pure tt))) ran ∙ rw (not_null ne, found, dead),
        refl,
        collected-IsSound sound ne found dead retval s.masked h v,
      )

  joins_live-Ends :
      (tid : Tid) (retval : Ptr) (ne : slot s tid ≢ null) {d : Tcb}
      → s.heap (slot s tid) ≡ some d
      → is_zombie d.state ≡ false
      → Ends (joins tid retval) frames s c.tid
  joins_live-Ends tid retval ne {d} found alive =
      let target = slot s tid in
      let (k, ran, h) =
        join-waits sound.table tid retval sound.holds run frames loose ne found alive in
      let fs = in_join tid retval s.masked ∷ frames in
      let s' = record (with_links k s) { masked = true; current = null } in
      let a1 = change target (set_joiner t) a in
      (
        s',
        noted sound run st frames target fs,
        ap (λ r. after (and_then r (λ _. pure tt))) ran,
        ap (λ r. has_returned (and_then r (λ _. pure tt))) ran ∙ rw (not_null ne, found, alive),
        refl,
        same-IsSound s' sound
            (λ p.
              change-tid_in t (set_ctx fs true) (change t (set_state blocked) a1) (λ y. refl) p
              ∙ change-tid_in t (set_state blocked) a1 (λ y. refl) p
              ∙ change-tid_in target (set_joiner t) a (λ y. refl) p)
            (noted-Joins sound run st frames target fs (cell-of sound.holds target found))
            (Holds-cast s' h refl) refl,
      )

  pub joins-Ends : (tid : Tid) (retval : Ptr) → Ends (joins tid retval) frames s c.tid
  joins-Ends tid retval = elim (Bool-cases (slot s tid == null)) [
    | inl gone ↦ joins_unknown-Ends tid retval ((==_iff (slot s tid) null).0 gone)
    | inr there ↦
        let ne = (ne-==_iff (slot s tid) null).0 there in
        let v = knows tid ne in
        elim (Bool-cases (is_zombie v.tcb.state)) [
          | inl dead ↦ joins_zombie-Ends tid retval ne v.found dead
          | inr alive ↦ joins_live-Ends tid retval ne v.found alive
        ]
  ]

  pub rejoins-Ends :
      (tid : Tid) (retval : Ptr) (old : Bool)
      → (slot s tid ≡ null) ⊎ IsZombie s (slot s tid)
      → Ends (rejoins tid retval old) frames s c.tid
  rejoins-Ends tid retval old (inl gone) =
      returned-Ends sound (record s { masked = old })
        (ap (λ r. and_then r (λ _. pure tt)) (join_resume-unknown sound.table tid retval old gone))
        (Kin-refl a) (Holds-cast _ sound.holds refl) refl
  rejoins-Ends tid retval old (inr z) =
      let (_, h, v, _) =
        join-collects sound.table tid retval sound.holds frames z.ne_null z.found z.dead in
      let ran = join_resume-collects sound.table tid retval old z.ne_null z.found in
      (
        record (collected (slot s tid) retval z.tcb s) { masked = old },
        forgotten (slot s tid) a,
        ap (λ r. after (and_then r (λ _. pure tt))) ran,
        ap (λ r. has_returned (and_then r (λ _. pure tt))) ran,
        refl,
        collected-IsSound sound z.ne_null z.found z.dead retval old h v,
      )
