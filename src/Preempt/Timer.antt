-- ===== src/Preempt/Timer.antt =====
-- When `uth_preempt_enable` starts the timer, and when it ends the process.
use comp_arch_project.Base.{
  ℕ, ◌*◌, ◌<◌, ◌≤◌, ◌≡◌, ◌≢◌, true, false, none, some, arith, ltb, ◌==◌, if◌then◌else◌,
}
use comp_arch_project.Machine.{null}
use comp_arch_project.Preempt.{Preempt, SystemCalls, microseconds, preempt_enable}

-- The calls before `setitimer` succeed.
pub record IsReady (os : SystemCalls) : Type 0 where
  pub memory : os.malloc ≢ null
  pub stack : os.sigaltstack ≡ true
  pub action : os.sigaction ≡ true

-- setitimer(2): the call fails where `tv_usec` is not below 1,000,000.
abbrev pub AsDocumented : SystemCalls → Type 0
AsDocumented os = (usec : ℕ) → os.setitimer usec ≡ ltb usec 1_000_000

-- The state after a timer of `interval_ms` has been started.
abbrev started : SystemCalls → ℕ → Preempt → Preempt
started os interval_ms p =
    let stack = if p.alt_stack_mem == null then os.malloc else p.alt_stack_mem in
    record {
      alt_stack_mem = stack;
      preempt_enabled = true;
      signal_stack = stack;
      handler_installed = true;
      interval = interval_ms * 1000;
    }

module _ {os : SystemCalls} (ready : IsReady os) (documented : AsDocumented os) (p : Preempt)
    (off : p.preempt_enabled ≡ false) where
  -- Below a second the timer starts, with the interval that was asked for; a stack is allocated the
  -- first time only.
  pub preempt_enable-starts :
      (interval_ms : ℕ)
      → interval_ms < 1000
      → preempt_enable os interval_ms p ≡ some (started os interval_ms p)
  unfolding preempt_enable
  preempt_enable-starts interval_ms short =
      ground (arith, documented (microseconds interval_ms), ready.memory, ready.stack, ready.action)

  -- If the other calls succeed, and `setitimer` fails where `tv_usec` is not below 1,000,000, as
  -- documented, then `uth_preempt_enable` of an interval from 1000 ms to 4,294,967 ms ends the
  -- process, when preemption is off.
  pub preempt_enable-exits :
      (interval_ms : ℕ)
      → 1000 ≤ interval_ms
      → interval_ms < 4_294_968
      → preempt_enable os interval_ms p ≡ none
  unfolding preempt_enable
  preempt_enable-exits interval_ms long fits =
      ground (arith, documented (microseconds interval_ms), ready.memory, ready.stack, ready.action)
