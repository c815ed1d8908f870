-- ===== src/Mutex/Locking.antt =====
-- What `uth_mutex_lock` and `uth_mutex_unlock` do on a machine with well-formed queues.
use comp_arch_project.Base.{
  ◌≤◌, ◌≡◌, refl, sym, ◌∙◌, ap, Bool, true, false, List, [], ◌∷◌, length, update, update_same,
  update-update, update_self, ==_refl, ne-==_iff, ◌≢◌,
}
use comp_arch_project.Machine.{
  Ptr, tid_invalid, Frame, in_mutex_lock, Tcb, Mutex, Machine, Run, ok, switched, fault, assertion,
  ◌>>◌,
}
use comp_arch_project.Machine.Access.{IsRunning, self-eq-ok}
use comp_arch_project.Mutex.{set_mutex, mutex_lock, mutex_lock_loop, mutex_unlock}
use comp_arch_project.Queue.Spec.{
  Queues, IsLoose, Holds, Holds-cast, Links, with_links, change, make_wait, set_ctx, wake_first,
  links,
}
use comp_arch_project.Queue.Refines.{cell-of}
use comp_arch_project.Queue.Wake.{wake_one-refines}
use comp_arch_project.Queue.Block.{block-switched}

abbrev pub held_by : Tcb → Mutex
held_by c = record { locked = true; owner = c.tid }

abbrev pub unheld : Mutex
unheld = record { locked = false; owner = tid_invalid }

-- A round of the loop: a free mutex is taken, and its owner is the current thread; at one that is
-- held the thread goes to the end of the mutex's queue, to try again when it is woken, and the
-- mutex does not change.
abbrev pub AfterLock :
    (locked : Bool) (m : Ptr) (old : Bool)
    → List Frame
    → Tcb
    → Machine
    → Queues
    → Run (Unit {0})
    → Type 0
AfterLock false m old frames c s a result =
    result ≡ ok tt (record (set_mutex m (held_by c) s) { masked = old })
AfterLock true m old frames c s a result =
    (k : Links) × (result ≡ switched (record (with_links k s) { masked = true }))
    × Holds (with_links k s) (
        change s.current (set_ctx (in_mutex_lock m old ∷ frames) s.masked)
          (make_wait m s.current a))

module _ {s : Machine} {a : Queues} {c : Tcb} (h : Holds s a) (m : Ptr) (run : IsRunning s c) where
  -- The exchange leaves a held mutex as it was.
  relock :
      (s.mutexes m).locked ≡ true
      → set_mutex m (record { locked = true; owner = (s.mutexes m).owner }) s ≡ s
  relock e =
      ap (λ f. record s { mutexes = f })
        (update_self s.mutexes m _ λ i. record (s.mutexes m) { locked = e i })

  -- The exchange and the write of the owner together.
  retake :
      let v1 : Mutex = record { locked = true; owner = (s.mutexes m).owner } in
      let f1 : Ptr → Mutex = update s.mutexes m v1 in
      update f1 m (record (f1 m) { owner = c.tid }) ≡ update s.mutexes m (held_by c)
  retake =
      let v1 : Mutex = record { locked = true; owner = (s.mutexes m).owner } in
      ap (λ (v : Mutex). update (update s.mutexes m v1) m (record v { owner = c.tid }))
        (update_same s.mutexes m v1)
      ∙ update-update s.mutexes m v1 (held_by c)

  take-free :
      (old : Bool) (frames : List Frame)
      → (s.mutexes m).locked ≡ false
      → mutex_lock_loop m old frames s ≡ ok tt (record (set_mutex m (held_by c) s) { masked = old })
  unfolding mutex_lock_loop
  take-free old frames e =
      let s1 = set_mutex m (record { locked = true; owner = (s.mutexes m).owner }) s in
      let running : IsRunning s1 c = record { ne_null = run.ne_null; found = run.found } in
      rw (e, self-eq-ok running) (ap (λ f. ok tt (record s { masked = old; mutexes = f })) retake)

  pub lock_loop-cases :
      (old : Bool) (frames : List Frame) (locked : Bool)
      → (s.mutexes m).locked ≡ locked
      → IsLoose a s.current
      → length (a.wait m) ≤ s.tcb_count
      → AfterLock locked m old frames c s a (mutex_lock_loop m old frames s)
  unfolding mutex_lock_loop
  lock_loop-cases old frames false e loose short = take-free old frames e
  lock_loop-cases old frames true e loose short =
      rw (e, relock e)
        (block-switched h m (in_mutex_lock m old ∷ frames) run.ne_null loose
          (cell-of h s.current run.found) short)

  -- On a machine whose queues are well-formed, `uth_mutex_unlock` by the running thread that owns
  -- the mutex returns; it frees the mutex and clears its owner, makes the thread that has waited
  -- for it for longest ready, restores the signal mask, and keeps the queues well-formed.
  pub mutex_unlock-wakes :
      (s.mutexes m).owner ≡ c.tid
      → (k : Links) × (mutex_unlock m s ≡ ok tt (with_links k (set_mutex m unheld s)))
        × Holds (with_links k (set_mutex m unheld s)) (wake_first m a)
  unfolding mutex_unlock
  mutex_unlock-wakes e =
      let s1 = record (set_mutex m unheld s) { masked = true } in
      let (k, ran, after) = wake_one-refines (Holds-cast s1 h refl) m in
      let running : IsRunning (record s { masked = true }) c = record {
        ne_null = run.ne_null;
        found = run.found;
      } in
      (k, rw (self-eq-ok running, e, ==_refl c.tid, ran), Holds-cast _ after refl)

  -- On a machine whose queues are well-formed, `uth_mutex_unlock` by a running thread that does not
  -- own the mutex fails its assertion.
  pub mutex_unlock-asserts : (s.mutexes m).owner ≢ c.tid → mutex_unlock m s ≡ fault assertion
  unfolding mutex_unlock
  mutex_unlock-asserts ne =
      let running : IsRunning (record s { masked = true }) c = record {
        ne_null = run.ne_null;
        found = run.found;
      } in
      rw (self-eq-ok running, (ne-==_iff _ _).1 ne)

-- On a machine whose queues are well-formed, with a running thread that is in no queue, and a queue
-- of the mutex no longer than the thread table: `uth_mutex_lock` takes a free mutex, notes the
-- running thread's TID as its owner and restores the signal mask; at a mutex that is held it leaves
-- the mutex as it is and switches to the scheduler with the thread blocked at the end of the
-- mutex's queue, to go on in the loop.
pub mutex_lock-cases :
    {s : Machine} {a : Queues} {c : Tcb} (h : Holds s a) (m : Ptr) (run : IsRunning s c)
    (frames : List Frame)
    → IsLoose a s.current
    → length (a.wait m) ≤ s.tcb_count
    → AfterLock
        (s.mutexes m).locked
        m
        s.masked
        frames
        c
        (record s { masked = true })
        a
        (mutex_lock m frames s)
unfolding mutex_lock
mutex_lock-cases {s} h m run frames loose short =
    let off = record s { masked = true } in
    lock_loop-cases (Holds-cast off h refl) m (record { ne_null = run.ne_null; found = run.found })
      s.masked frames (s.mutexes m).locked refl loose short

mutex_lock-free :
    {s : Machine} {a : Queues} {c : Tcb} (h : Holds s a) (m : Ptr) (run : IsRunning s c)
    → (s.mutexes m).locked ≡ false
    → mutex_lock m [] s ≡ ok tt (set_mutex m (held_by c) s)
unfolding mutex_lock
mutex_lock-free {s} h m run free =
    take-free (Holds-cast (record s { masked = true }) h refl) m
      (record { ne_null = run.ne_null; found = run.found }) s.masked [] free

-- On a machine whose queues are well-formed, with a running thread, `uth_mutex_lock` and then
-- `uth_mutex_unlock` of a free mutex return; the mutex is free with no owner, the signal mask is as
-- before, the first thread that waited is ready, and the queues are well-formed.
pub mutex_lock-unlock :
    {s : Machine} {a : Queues} {c : Tcb} (h : Holds s a) (m : Ptr) (run : IsRunning s c)
    → (s.mutexes m).locked ≡ false
    → (k : Links) × ((do mutex_lock m []; mutex_unlock m) s
        ≡ ok tt (with_links k (set_mutex m unheld s)))
      × Holds (with_links k (set_mutex m unheld s)) (wake_first m a)
mutex_lock-unlock {s} {a} {c} h m run free =
    let held = set_mutex m (held_by c) s in
    let (k, ran, after) =
      mutex_unlock-wakes (Holds-cast held h refl) m
        (record { ne_null = run.ne_null; found = run.found })
        (ap (λ (v : Mutex). v.owner) (update_same s.mutexes m (held_by c))) in
    let both = ap (λ f. record s { mutexes = f }) (update-update s.mutexes m (held_by c) unheld) in
    (
      k,
      rw (mutex_lock-free h m run free) (ran ∙ ap (λ r. ok tt (with_links k r)) both),
      Holds-cast _ after (ap (λ r. links (with_links k r)) (sym both)),
    )
