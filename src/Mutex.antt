-- ===== src/Mutex.antt =====
-- The mutex of src/mutex.c.
pub mod Locking
use comp_arch_project.Base.{Bool, true, false, List, ◌∷◌, ◌==◌, if◌then◌else◌, update}
use comp_arch_project.Machine.{
  Ptr, null, tid_invalid, Frame, in_mutex_lock, Mutex, Machine, Cmd, pure, ◌>>=◌, ◌>>◌, get, assign,
  assert, preempt_off, preempt_restore, self,
}
use comp_arch_project.Queue.{set_waiters, block, wake_one}

abbrev pub set_mutex : Ptr → Mutex → Machine → Machine
set_mutex m v s = record s { mutexes = update s.mutexes m v }

-- `uth_mutex_init`
unfoldable pub mutex_init : Ptr → Cmd (Unit {0})
mutex_init m = do
  assign (set_mutex m (record { locked = false; owner = tid_invalid }))
  set_waiters m null

-- One round of the loop of `uth_mutex_lock`, and what follows the loop. A thread that has been
-- blocked is resumed here.
unfoldable pub mutex_lock_loop : (m : Ptr) (old : Bool) → List Frame → Cmd (Unit {0})
unfolding block self preempt_restore
mutex_lock_loop m old frames = do
  v ← get (λ s. s.mutexes m)
  assign (set_mutex m (record v { locked = true }))
  if v.locked then block m (in_mutex_lock m old ∷ frames) else do
    me ← self
    assign (λ s. set_mutex m (record (s.mutexes m) { owner = me }) s)
    preempt_restore old

-- `uth_mutex_lock`; `frames` are the calls that are resumed after it
unfoldable pub mutex_lock : Ptr → List Frame → Cmd (Unit {0})
unfolding preempt_off mutex_lock_loop
mutex_lock m frames = do old ← preempt_off; mutex_lock_loop m old frames

-- `uth_mutex_unlock`
unfoldable pub mutex_unlock : Ptr → Cmd (Unit {0})
unfolding preempt_off preempt_restore self wake_one
mutex_unlock m = do
  old ← preempt_off
  v ← get (λ s. s.mutexes m)
  me ← self
  assert (v.owner == me)
  assign (set_mutex m (record { locked = false; owner = tid_invalid }))
  wake_one m
  preempt_restore old

-- `uth_mutex_destroy`
unfoldable pub mutex_destroy : Ptr → Cmd (Unit {0})
mutex_destroy m = do head ← get (λ s. s.waiters m); assert (head == null)
