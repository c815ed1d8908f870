-- ===== src/System/Exclusion.antt =====
-- A mutex of src/mutex.c that is held, over the steps of the program.
use comp_arch_project.Base.{
  ◌≡◌, refl, sym, ◌∙◌, ap, ◌⊎◌, inl, inr, Bool, true, false, ◌==◌, update_other, Bool-cases, ==_iff,
  zero, suc,
}
use comp_arch_project.Machine.{Ptr, Tid, ℤ, Machine, Tcb, pos, negsuc}
use comp_arch_project.Machine.Objects.{Objects, objects}
use comp_arch_project.Machine.Access.{IsRunning}
use comp_arch_project.Queue.Spec.{Queues}
use comp_arch_project.Api.{
  Call, yields, locks, unlocks, draws, serves, sleeps, signals, broadcasts, takes, posts, relocks,
  redraws, retakes, exits, joins, rejoins, spins, frees, interrupted, objects_after, locked_by,
  taken_from, flagged, free_mutex, set_mutex_of,
}
use comp_arch_project.System.{IsSound, Allowed, Step, dispatches, calls, creates}
use comp_arch_project.System.Owning.{Permitted-Allowed}
use comp_arch_project.System.Calls.{perform-IsSound}
use comp_arch_project.System.Steps.{dispatch-first, create-IsSound}

-- The thread that runs owns the mutex, and the step has released it.
pub record OwnerReleased (s s' : Machine) (m : Ptr) : Type 0 where
  pub tcb : Tcb
  pub runs : IsRunning s tcb
  pub owns : (s.mutexes m).owner ≡ tcb.tid
  pub released : s'.mutexes m ≡ free_mutex

locked_by-kept :
    (locked : Bool) (m n : Ptr) (me : Tid) (o : Objects)
    → (o.mutexes n).locked ≡ locked
    → (o.mutexes m).locked ≡ true
    → (locked_by locked n me o).mutexes m ≡ o.mutexes m
locked_by-kept true m n me o e held = refl
locked_by-kept false m n me o e held =
    update_other o.mutexes n _ m λ same. cc (ap (λ p. (o.mutexes p).locked) same, e, held)

taken_from-kept : (v : ℤ) (q m : Ptr) (o : Objects) → (taken_from v q o).mutexes m ≡ o.mutexes m
taken_from-kept (pos zero) q m o = refl
taken_from-kept (pos (suc n)) q m o = refl
taken_from-kept (negsuc n) q m o = refl

flagged-kept : (b : Bool) (l m : Ptr) (o : Objects) → (flagged b l o).mutexes m ≡ o.mutexes m
flagged-kept true l m o = refl
flagged-kept false l m o = refl

module _ (m : Ptr) (me : Tid) where
  release-cases :
      (n : Ptr) (o : Objects)
      → (o.mutexes n).owner ≡ me
      → ((set_mutex_of n free_mutex o).mutexes m ≡ o.mutexes m)
        ⊎ (((o.mutexes m).owner ≡ me) × ((set_mutex_of n free_mutex o).mutexes m ≡ free_mutex))
  release-cases n o own = elim (Bool-cases (m == n)) [
    | inl e ↦ inr (ap (λ p. (o.mutexes p).owner) ((==_iff m n).0 e) ∙ own, rw e)
    | inr e ↦ inl (rw e)
  ]

  -- What a call of thread `me` makes of a mutex that is held.
  held-cases :
      (call : Call) (s : Machine) (c : Tcb)
      → c.tid ≡ me
      → Allowed call s c
      → (s.mutexes m).locked ≡ true
      → ((objects_after call me (objects s)).mutexes m ≡ s.mutexes m)
        ⊎ (((s.mutexes m).owner ≡ me)
            × ((objects_after call me (objects s)).mutexes m ≡ free_mutex))
  held-cases (locks n) s c same _ held =
      inl (locked_by-kept (s.mutexes n).locked m n me (objects s) refl held)
  held-cases (relocks n old) s c same _ held =
      inl (locked_by-kept (s.mutexes n).locked m n me (objects s) refl held)
  held-cases (unlocks n) s c same own held = release-cases n (objects s) (own ∙ same)
  held-cases (sleeps q n) s c same own held = release-cases n (objects s) (own ∙ same)
  held-cases (takes q) s c same _ held = inl (taken_from-kept (s.sems q) q m (objects s))
  held-cases (retakes q old) s c same _ held = inl (taken_from-kept (s.sems q) q m (objects s))
  held-cases (spins l) s c same _ held = inl (flagged-kept (s.spinlocks l) l m (objects s))
  held-cases yields s c same _ held = inl refl
  held-cases (draws t) s c same _ held = inl refl
  held-cases (serves t) s c same _ held = inl refl
  held-cases (signals q) s c same _ held = inl refl
  held-cases (broadcasts q) s c same _ held = inl refl
  held-cases (posts q) s c same _ held = inl refl
  held-cases (redraws t mine old) s c same _ held = inl refl
  held-cases (exits retval) s c same _ held = inl refl
  held-cases (joins tid retval) s c same _ held = inl refl
  held-cases (rejoins tid retval old) s c same _ held = inl refl
  held-cases (frees l) s c same _ held = inl refl
  held-cases interrupted s c same _ held = inl refl

-- On a machine whose queues and thread table are well-formed, in which every TCB has an entry of
-- the table, and every joiner is blocked, in no queue, and noted once: a step of the program, by
-- the scheduler, by a running thread, or by the creation of a thread, leaves a mutex that is held
-- as it is, owner included; or else the thread that runs owns the mutex, and the step has made it
-- free with no owner. Any thread may try to unlock any mutex: an unlock or a wait by another thread
-- than the owner fails the assertion of `uth_mutex_unlock`, and is no step. A semaphore that is
-- waited on has a value that is not negative, a post does not raise it past the largest `int`, and
-- a join goes on when its target is a zombie or gone.
pub held-Step :
    {s s' : Machine} {a : Queues} (sound : IsSound s a) (step : Step s s') (m : Ptr)
    → (s.mutexes m).locked ≡ true
    → (s'.mutexes m ≡ s.mutexes m) ⊎ OwnerReleased s s' m
held-Step {a = a} sound (dispatches t frames out ran) m held =
    let (_, _, same) = dispatch-first sound t frames a.run refl ran in
    inl (ap (λ (o : Objects). o.mutexes m) same)
held-Step sound (creates stack fresh fn arg size room ne unused ran) m held =
    let (_, _, same) = create-IsSound sound stack fresh fn arg size room ne unused ran in
    inl (ap (λ (o : Objects). o.mutexes m) same)
held-Step {s} {s'} sound (calls call frames {c = c} run st permitted ran) m held =
    let allowed = Permitted-Allowed sound run call frames permitted ran in
    let (s1, _, ran', _, after, _) = perform-IsSound sound run st frames call allowed in
    let to : s1 ≡ s' = cc (ran, ran') in
    let same : objects s1 ≡ objects s' = ap objects to in
    let new = ap (λ (o : Objects). o.mutexes m) (sym same ∙ after) in
    elim (held-cases m c.tid call s c refl allowed held) [
      | inl kept ↦ inl (new ∙ kept)
      | inr (own, gone) ↦ inr (record { tcb = c; runs = run; owns = own; released = new ∙ gone })
    ]
