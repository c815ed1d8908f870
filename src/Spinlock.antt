-- ===== src/Spinlock.antt =====
-- The spinlock of src/mutex.c.
pub mod Spinning
use comp_arch_project.Base.{Bool, true, false, List, ◌∷◌, if◌then◌else◌, update}
use comp_arch_project.Machine.{Ptr, Frame, in_spin_lock, Cmd, pure, ◌>>=◌, ◌>>◌, get, assign}
use comp_arch_project.Thread.{yield}

abbrev pub set_flag : Ptr → Bool → Cmd (Unit {0})
set_flag l b = assign (λ s. record s { spinlocks = update s.spinlocks l b })

-- `uth_spin_init`
unfoldable pub spin_init : Ptr → Cmd (Unit {0})
spin_init l = set_flag l false

-- `uth_spin_lock`: one round of its loop; the thread is resumed here after `uth_yield`. Outside any
-- thread `uth_yield` returns at once, and the loop is entered again.
unfoldable pub spin_lock : Ptr → List Frame → Cmd Bool
unfolding yield
spin_lock l frames = do
  was ← get (λ s. s.spinlocks l)
  set_flag l true
  if was then (yield (in_spin_lock l ∷ frames) >> pure false) else pure true

-- `uth_spin_unlock`
unfoldable pub spin_unlock : Ptr → Cmd (Unit {0})
spin_unlock l = set_flag l false

-- `uth_spin_destroy`
unfoldable pub spin_destroy : Ptr → Cmd (Unit {0})
spin_destroy l = pure tt
