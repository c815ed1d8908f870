-- ===== src/Preempt.antt =====
-- src/preempt.c: the timer that preempts threads, and its signal handler. What the system calls
-- return is an argument.
pub mod Timer
pub mod Handler
use comp_arch_project.Base.{
  ℕ, ◌*◌, ◌%◌, ◌^◌, Bool, true, false, Option, none, some, List, ◌==◌, if◌then◌else◌,
}
use comp_arch_project.Machine.{
  Ptr, null, ready, Frame, Cmd, pure, switched, ◌>>=◌, ◌>>◌, get, assign, modify,
}
use comp_arch_project.Queue.{enqueue}

-- The statics of preempt.c, and what the kernel holds for the process: the disposition of SIGALRM,
-- its alternate stack, and the interval of the timer in microseconds, 0 when it is off.
pub record Preempt : Type 0 where
  pub alt_stack_mem : Ptr
  pub preempt_enabled : Bool
  pub signal_stack : Ptr
  pub handler_installed : Bool
  pub interval : ℕ

-- What the calls of `uth_preempt_enable` return: the block of `malloc`, and whether the others
-- succeed; `setitimer` decides by the microseconds that it is given.
pub record SystemCalls : Type 0 where
  pub malloc : Ptr
  pub sigaltstack : Bool
  pub sigaction : Bool
  pub setitimer : ℕ → Bool

-- `interval_ms * 1000`, an `unsigned int`
abbrev pub microseconds : ℕ → ℕ
microseconds interval_ms = interval_ms * 1000 % 2 ^ 32

-- `exit(1)` unless a call has succeeded
infixl 5 ◌>>=?◌
abbrev pub ◌>>=?◌ : {A B : Type 0} → Option A → (A → Option B) → Option B
none >>=? f = none
some a >>=? f = f a

abbrev pub exit_unless : Bool → Option (Unit {0})
exit_unless b = if b then some tt else none

-- the first block of `uth_preempt_enable`
unfoldable pub alloc_alt_stack : SystemCalls → Preempt → Option Preempt
alloc_alt_stack os p =
    if p.alt_stack_mem == null
    then (if os.malloc == null then none else some (record p { alt_stack_mem = os.malloc }))
    else some p

-- `uth_preempt_enable`; `none` when the process exits
unfoldable pub preempt_enable : SystemCalls → (interval_ms : ℕ) → Preempt → Option Preempt
unfolding alloc_alt_stack
preempt_enable os interval_ms p =
    if p.preempt_enabled
    then some p
    else (alloc_alt_stack os p >>=? λ q. exit_unless os.sigaltstack >>=? λ _.
        exit_unless os.sigaction >>=? λ _.
        exit_unless (os.setitimer (microseconds interval_ms)) >>=? λ _. some (record q {
          signal_stack = q.alt_stack_mem;
          handler_installed = true;
          interval = microseconds interval_ms;
          preempt_enabled = true;
        }))

-- `uth_preempt_disable`
unfoldable pub preempt_disable : Preempt → Preempt
preempt_disable p =
    if p.preempt_enabled
    then record p { interval = 0; handler_installed = false; preempt_enabled = false }
    else p

-- `uth_preempt_handler`, which interrupts the current thread in the calls `frames` with the signal
-- mask `mask`; `pure tt` returns to what was interrupted.
unfoldable pub preempt_handler : (frames : List Frame) (mask : Bool) → Cmd (Unit {0})
unfolding modify enqueue
preempt_handler frames mask = do
  t ← get (λ s. s.current)
  if t == null then pure tt else do
    modify t (λ c. record c { ctx = record { frames = frames; mask = mask } })
    modify t (λ c. record c { state = ready })
    enqueue t
    assign (λ s. record s { current = null })
    λ s. switched (record s { masked = true })
