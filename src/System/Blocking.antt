-- ===== src/System/Blocking.antt =====
-- The calls that may block, from their start and from within their loops: `uth_mutex_lock`,
-- `uth_ticket_lock` and `uth_sem_wait`.
use comp_arch_project.Base.{
  length, ◌≤◌, ℕ, zero, suc, ◌≡◌, refl, ◌∙◌, Bool, true, false, List, ◌∷◌, Bool-cases, inl, inr,
  ◌==◌,
}
use comp_arch_project.Machine.{
  Ptr, running, pos, Frame, in_mutex_lock, in_ticket_lock, in_sem_wait, Tcb, Machine,
}
use comp_arch_project.Machine.Access.{IsRunning}
use comp_arch_project.Queue.Spec.{
  Queues, IsLoose, Holds-cast, with_links, change, set_ctx, make_wait,
}
use comp_arch_project.Table.Listed.{wait_short}
use comp_arch_project.Api.{locks, draws, takes, relocks, redraws, retakes}
use comp_arch_project.System.{Waits, IsSound, Ends}
use comp_arch_project.System.Kin.{change-Alike, saved-Alike, make_wait-Alike}
use comp_arch_project.System.Waiting.{change-Waits, make_wait-Waits}
use comp_arch_project.System.Landing.{
  Kin, Kin-refl, returned-Ends, switched-Ends, current-IsLoose, current_apart,
}
use comp_arch_project.Mutex.Locking.{mutex_lock-cases, lock_loop-cases}
use comp_arch_project.Ticket.Waiting.{with_ticket, drawn, ticket_lock-cases, ticket_loop-cases}
use comp_arch_project.Sem.Counting.{with_value, sem_wait-cases, wait_loop-cases}

module _ {s : Machine} {a : Queues} {c : Tcb} (sound : IsSound s a) (run : IsRunning s c)
    (st : c.state ≡ running) (frames : List Frame) where
  abbrev t : Ptr
  t = s.current

  loose : IsLoose a t
  loose = current-IsLoose sound run st

  apart : (j : Ptr) → Waits a j → (j == t) ≡ false
  apart = current_apart sound run st

  short : (q : Ptr) → length (a.wait q) ≤ s.tcb_count
  short = wait_short sound.holds sound.table sound.listed

  -- The thread goes to the end of a wait queue, with its context saved.
  blocked-Kin :
      (q : Ptr) (fs : List Frame) (mask : Bool)
      → Kin a (change t (set_ctx fs mask) (make_wait q t a))
  blocked-Kin q fs mask = record {
    alike = λ p. saved-Alike t fs mask (make_wait q t a) p ∙ make_wait-Alike q t a p;
    waiting =
        λ j w. change-Waits (make_wait-Waits w q t (apart j w)) t (set_ctx fs mask) (apart j w);
  }

  pub locks-Ends : (m : Ptr) → Ends (locks m) frames s c.tid
  locks-Ends m =
      let cases = mutex_lock-cases sound.holds m run frames loose (short m) in
      elim (Bool-cases (s.mutexes m).locked) [
        | inl held ↦
            let (k, ran, h) = (rw held at cases) in
            rw held (
              switched-Ends sound _ ran (blocked-Kin m (in_mutex_lock m s.masked ∷ frames) true)
                (Holds-cast _ h refl) refl)
        | inr free ↦ rw free (
            returned-Ends sound _ (rw free at cases) (Kin-refl a) (Holds-cast _ sound.holds refl)
              refl)
      ]

  pub relocks-Ends : (m : Ptr) (old : Bool) → Ends (relocks m old) frames s c.tid
  relocks-Ends m old =
      let cases =
        lock_loop-cases sound.holds m run old frames (s.mutexes m).locked refl loose (short m) in
      elim (Bool-cases (s.mutexes m).locked) [
        | inl held ↦
            let (k, ran, h) = (rw held at cases) in
            rw held (
              switched-Ends sound _ ran (blocked-Kin m (in_mutex_lock m old ∷ frames) s.masked)
                (Holds-cast _ h refl) refl)
        | inr free ↦ rw free (
            returned-Ends sound _ (rw free at cases) (Kin-refl a) (Holds-cast _ sound.holds refl)
              refl)
      ]

  -- The same once the thread has noted its ticket.
  queued-Kin :
      (q : Ptr) (n : ℕ) (fs : List Frame) (mask : Bool)
      → Kin a (change t (set_ctx fs mask) (make_wait q t (change t (with_ticket n) a)))
  queued-Kin q n fs mask =
      let a1 = change t (with_ticket n) a in
      record {
        alike = λ p.
            saved-Alike t fs mask (make_wait q t a1) p
            ∙ make_wait-Alike q t a1 p
            ∙ change-Alike t (with_ticket n) a (λ y. refl) p;
        waiting = λ j w.
            change-Waits
              (make_wait-Waits (change-Waits w t (with_ticket n) (apart j w)) q t (apart j w)) t
              (set_ctx fs mask) (apart j w);
      }

  pub draws-Ends : (q : Ptr) → Ends (draws q) frames s c.tid
  draws-Ends q =
      let v = s.tickets q in
      let cases = ticket_lock-cases sound.holds q run frames loose (short q) in
      elim (Bool-cases (v.now_serving == v.next_ticket)) [
        | inl served ↦ rw served (
            returned-Ends sound (record (drawn q s) { masked = s.masked }) (rw served at cases)
              (Kin-refl a) (Holds-cast _ sound.holds refl) refl)
        | inr waits ↦
            let (k, ran, h) = (rw waits at cases) in
            rw waits (
              switched-Ends sound (record (with_links k (drawn q s)) { masked = true }) ran
                (queued-Kin q v.next_ticket (in_ticket_lock q v.next_ticket s.masked ∷ frames) true)
                (Holds-cast _ h refl) refl)
      ]

  pub redraws-Ends : (q : Ptr) (n : ℕ) (old : Bool) → Ends (redraws q n old) frames s c.tid
  redraws-Ends q n old =
      let v = s.tickets q in
      let cases =
        ticket_loop-cases sound.holds q run n old frames (v.now_serving == n) refl loose
          (short q) in
      elim (Bool-cases (v.now_serving == n)) [
        | inl served ↦ rw served (
            returned-Ends sound _ (rw served at cases) (Kin-refl a) (Holds-cast _ sound.holds refl)
              refl)
        | inr waits ↦
            let (k, ran, h) = (rw waits at cases) in
            rw waits (
              switched-Ends sound _ ran (queued-Kin q n (in_ticket_lock q n old ∷ frames) s.masked)
                (Holds-cast _ h refl) refl)
      ]

  pub takes-Ends : (q : Ptr) (n : ℕ) → s.sems q ≡ pos n → Ends (takes q) frames s c.tid
  takes-Ends q zero e =
      let (k, ran, h) = sem_wait-cases sound.holds q run 0 frames e loose (short q) in
      rw e (
        switched-Ends sound _ ran (blocked-Kin q (in_sem_wait q s.masked ∷ frames) true)
          (Holds-cast _ h refl) refl)
  takes-Ends q (suc n) e = rw e (
      returned-Ends sound (with_value q n s)
        (sem_wait-cases sound.holds q run (suc n) frames e loose (short q)) (Kin-refl a)
        (Holds-cast _ sound.holds refl) refl)

  pub retakes-Ends :
      (q : Ptr) (old : Bool) (n : ℕ) → s.sems q ≡ pos n → Ends (retakes q old) frames s c.tid
  retakes-Ends q old zero e =
      let (k, ran, h) = wait_loop-cases sound.holds q run 0 old frames e loose (short q) in
      rw e (
        switched-Ends sound _ ran (blocked-Kin q (in_sem_wait q old ∷ frames) s.masked)
          (Holds-cast _ h refl) refl)
  retakes-Ends q old (suc n) e = rw e (
      returned-Ends sound (record (with_value q n s) { masked = old })
        (wait_loop-cases sound.holds q run (suc n) old frames e loose (short q)) (Kin-refl a)
        (Holds-cast _ sound.holds refl) refl)
