-- ===== src/Sem.antt =====
-- The semaphore of src/sync.c. Its value is an `int` of 32 bits, whose overflow is undefined.
pub mod Counting
use comp_arch_project.Base.{
  ℕ, zero, suc, ◌+◌, ◌-◌, ◌^◌, Bool, true, false, List, ◌∷◌, ◌==◌, if◌then◌else◌, update, leb, not,
}
use comp_arch_project.Machine.{
  Ptr, null, Frame, in_sem_wait, ℤ, pos, negsuc, Machine, overflow, Cmd, pure, stop, ◌>>=◌, ◌>>◌,
  get, assign, assert, preempt_off, preempt_restore,
}
use comp_arch_project.Queue.{set_waiters, block, wake_one}

abbrev pub int_max : ℕ
int_max = 2 ^ 31 - 1

abbrev pub is_positive : ℤ → Bool
is_positive (pos zero) = false
is_positive (pos (suc n)) = true
is_positive (negsuc n) = false

abbrev pub is_negative : ℤ → Bool
is_negative (pos n) = false
is_negative (negsuc n) = true

-- `value--`
abbrev pub decrement : ℤ → Cmd ℤ
decrement (pos zero) = pure (negsuc 0)
decrement (pos (suc n)) = pure (pos n)
decrement (negsuc n) = if leb int_max n then stop overflow else pure (negsuc (n + 1))

-- `value++`
abbrev pub increment : ℤ → Cmd ℤ
increment (pos n) = if leb int_max n then stop overflow else pure (pos (n + 1))
increment (negsuc zero) = pure (pos 0)
increment (negsuc (suc n)) = pure (negsuc n)

abbrev pub set_value : Ptr → ℤ → Cmd (Unit {0})
set_value s v = assign (λ w. record w { sems = update w.sems s v })

-- `uth_sem_init`
unfoldable pub sem_init : Ptr → ℤ → Cmd (Unit {0})
sem_init s value = do assert (not (is_negative value)); set_value s value; set_waiters s null

-- One round of the loop of `uth_sem_wait`, and what follows the loop.
unfoldable pub sem_wait_loop : (s : Ptr) (old : Bool) → List Frame → Cmd (Unit {0})
unfolding block preempt_restore
sem_wait_loop s old frames = do
  v ← get (λ w. w.sems s)
  if is_positive v
      then (do v' ← decrement v; set_value s v'; preempt_restore old)
      else block s (in_sem_wait s old ∷ frames)

-- `uth_sem_wait`
unfoldable pub sem_wait : Ptr → List Frame → Cmd (Unit {0})
unfolding preempt_off sem_wait_loop
sem_wait s frames = do old ← preempt_off; sem_wait_loop s old frames

-- `uth_sem_post`
unfoldable pub sem_post : Ptr → Cmd (Unit {0})
unfolding preempt_off wake_one preempt_restore
sem_post s = do
  old ← preempt_off
  v ← get (λ w. w.sems s)
  v' ← increment v
  set_value s v'
  wake_one s
  preempt_restore old

-- `uth_sem_destroy`
unfoldable pub sem_destroy : Ptr → Cmd (Unit {0})
sem_destroy s = do head ← get (λ w. w.waiters s); assert (head == null)
