-- ===== src/Cond.antt =====
-- The condition variable of src/sync.c.
pub mod Waiting
use comp_arch_project.Base.{Bool, List, ◌∷◌, ◌==◌}
use comp_arch_project.Machine.{
  Ptr, null, Frame, in_cond_wait, after_relock, Cmd, pure, ◌>>=◌, ◌>>◌, get, assert, preempt_off,
  preempt_restore,
}
use comp_arch_project.Queue.{set_waiters, block, wake_one, wake_all}
use comp_arch_project.Mutex.{mutex_lock, mutex_unlock}

-- `uth_cond_init`
unfoldable pub cond_init : Ptr → Cmd (Unit {0})
cond_init c = set_waiters c null

-- `uth_cond_wait` up to its `uth_block`
unfoldable pub cond_wait : (c m : Ptr) → List Frame → Cmd (Unit {0})
unfolding preempt_off mutex_unlock block
cond_wait c m frames = do old ← preempt_off; mutex_unlock m; block c (in_cond_wait c m old ∷ frames)

-- `uth_cond_wait` from its `uth_block` on: the mutex is locked again
unfoldable pub cond_wait_resume : (m : Ptr) (old : Bool) → List Frame → Cmd (Unit {0})
unfolding mutex_lock preempt_restore
cond_wait_resume m old frames = do mutex_lock m (after_relock old ∷ frames); preempt_restore old

-- `uth_cond_signal`
unfoldable pub cond_signal : Ptr → Cmd (Unit {0})
unfolding preempt_off wake_one preempt_restore
cond_signal c = do old ← preempt_off; wake_one c; preempt_restore old

-- `uth_cond_broadcast`
unfoldable pub cond_broadcast : Ptr → Cmd (Unit {0})
unfolding preempt_off wake_all preempt_restore
cond_broadcast c = do old ← preempt_off; wake_all c; preempt_restore old

-- `uth_cond_destroy`
unfoldable pub cond_destroy : Ptr → Cmd (Unit {0})
cond_destroy c = do head ← get (λ s. s.waiters c); assert (head == null)
