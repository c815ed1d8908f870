-- ===== src/System/Owning.antt =====
-- A call that steps has passed its assertions: a mutex of src/mutex.c is released by its owner.
use comp_arch_project.Base.{
  ◌≡◌, ◌≢◌, refl, ap, inl, inr, true, none, some, List, ◌==◌, Bool-cases, ==_iff, ne-==_iff,
}
use comp_arch_project.Machine.{Ptr, Frame, Tcb, Machine}
use comp_arch_project.Machine.Access.{IsRunning}
use comp_arch_project.Queue.Spec.{Queues, Holds-cast}
use comp_arch_project.Api.{
  Call, yields, locks, unlocks, draws, serves, sleeps, signals, broadcasts, takes, posts, relocks,
  redraws, retakes, exits, joins, rejoins, spins, frees, interrupted, perform,
}
use comp_arch_project.Mutex.{mutex_unlock}
use comp_arch_project.Mutex.Locking.{mutex_unlock-asserts}
use comp_arch_project.Cond.{cond_wait}
use comp_arch_project.System.{IsSound, Allowed, Permitted, after}

module _ {s : Machine} {a : Queues} {c : Tcb} (sound : IsSound s a) (run : IsRunning s c) where
  -- `uth_mutex_unlock` and `uth_cond_wait` fail for a thread that does not own the mutex.
  unlock-fails : (m : Ptr) → (s.mutexes m).owner ≢ c.tid → after (mutex_unlock m s) ≡ none
  unlock-fails m ne = ap after (mutex_unlock-asserts sound.holds m run ne)

  wait-fails :
      (q m : Ptr) (frames : List Frame)
      → (s.mutexes m).owner ≢ c.tid
      → after (cond_wait q m frames s) ≡ none
  unfolding cond_wait
  wait-fails q m frames ne =
      let off = record s { masked = true } in
      let asserts =
        mutex_unlock-asserts (Holds-cast off sound.holds refl) m
          (record { ne_null = run.ne_null; found = run.found }) ne in
      rw asserts refl

  pub Permitted-Allowed :
      {s' : Machine} (call : Call) (frames : List Frame)
      → Permitted call s c
      → after (perform call frames s) ≡ some s'
      → Allowed call s c
  Permitted-Allowed (unlocks m) frames p ran = elim (Bool-cases ((s.mutexes m).owner == c.tid)) [
    | inl own ↦ (==_iff _ _).0 own
    | inr other ↦ absurd (cc (ran, unlock-fails m ((ne-==_iff _ _).0 other)))
  ]
  Permitted-Allowed (sleeps q m) frames p ran = elim (Bool-cases ((s.mutexes m).owner == c.tid)) [
    | inl own ↦ (==_iff _ _).0 own
    | inr other ↦ absurd (cc (ran, wait-fails q m frames ((ne-==_iff _ _).0 other)))
  ]
  Permitted-Allowed yields frames p ran = p
  Permitted-Allowed (locks m) frames p ran = p
  Permitted-Allowed (draws t) frames p ran = p
  Permitted-Allowed (serves t) frames p ran = p
  Permitted-Allowed (signals q) frames p ran = p
  Permitted-Allowed (broadcasts q) frames p ran = p
  Permitted-Allowed (takes q) frames p ran = p
  Permitted-Allowed (posts q) frames p ran = p
  Permitted-Allowed (relocks m old) frames p ran = p
  Permitted-Allowed (redraws t mine old) frames p ran = p
  Permitted-Allowed (retakes q old) frames p ran = p
  Permitted-Allowed (exits r) frames p ran = p
  Permitted-Allowed (joins t r) frames p ran = p
  Permitted-Allowed (rejoins t r old) frames p ran = p
  Permitted-Allowed (spins l) frames p ran = p
  Permitted-Allowed (frees l) frames p ran = p
  Permitted-Allowed interrupted frames p ran = p
