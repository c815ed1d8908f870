-- ===== src/Thread.antt =====
-- The life of a thread in thread.c: `uth_create`, `uth_yield`, `uth_exit`, `uth_join`, and one round
-- of `scheduler_loop`. What `mmap`, `realloc` and `calloc` return is an argument.
pub mod Yield
pub mod Exit
pub mod Schedule
pub mod Create
pub mod Join
pub mod Trampoline
pub mod Bootstrap
use comp_arch_project.Base.{
  ℕ, ◌+◌, ◌*◌, ◌/◌, ◌%◌, ◌^◌, Bool, true, false, Option, none, some, List, [], ◌∷◌, ◌==◌,
  if◌then◌else◌, update,
}
use comp_arch_project.Machine.{
  Ptr, null, Tid, tid_invalid, State, ready, running, zombie, Frame, trampoline, in_yield, in_join,
  after_exit, Tcb, ℤ, pos, negsuc, Machine, Cmd, pure, ◌>>=◌, ◌>>◌, get, assign, assert, load,
  modify, swap_out, preempt_off, preempt_restore,
}
use comp_arch_project.Queue.{run_push, run_pop, enqueue, block_noqueue}
use comp_arch_project.Table.{tcb_alloc, tcb_find, tcb_free, active_count, is_zombie}

-- the address of a TCB in two halves of 32 bits, as `makecontext` passes it on
abbrev pub hi_half : Ptr → ℕ
hi_half p = p / 2 ^ 32 % 2 ^ 32

abbrev pub lo_half : Ptr → ℕ
lo_half p = p % 2 ^ 32

-- `((uintptr_t)hi << 32) | lo`: the halves share no bit
abbrev pub join_halves : ℕ → ℕ → Ptr
join_halves hi lo = hi * 2 ^ 32 + lo

-- `thread_trampoline` up to its call: the function and the argument of the new thread
unfoldable pub trampoline_enter : (hi lo : ℕ) → Cmd (ℕ × ℕ)
unfolding load
trampoline_enter hi lo = do c ← load (join_halves hi lo); pure (c.fn, c.arg)

abbrev pub stack_default : ℕ
stack_default = 512 * 1024

-- What `uth_create` writes to the new TCB. `sigdelset` leaves SIGALRM unblocked in its context.
abbrev pub start_tcb : (fn arg stack stack_size : ℕ) → Ptr → Tcb → Tcb
start_tcb fn arg stack stack_size t c = record c {
  fn = fn;
  arg = arg;
  stack = stack;
  stack_size = stack_size;
  state = ready;
  joiner = null;
  retval = 0;
  ctx = record { frames = trampoline (hi_half t) (lo_half t) ∷ []; mask = false };
}

-- `uth_create`; `stack` is what `mmap` returns, `none` for `MAP_FAILED`
unfoldable pub create :
    (stack : Option Ptr) (realloc_ok : Bool) (fresh : Ptr) (fn arg stack_size : ℕ) → Cmd Tid
unfolding preempt_off preempt_restore load modify tcb_alloc run_push
create none realloc_ok fresh fn arg stack_size = do
  old ← preempt_off
  preempt_restore old
  pure tid_invalid
create (some stack) realloc_ok fresh fn arg stack_size = do
  old ← preempt_off
  let size = if stack_size == 0 then stack_default else stack_size
  assign (λ s. record s { mapped = update s.mapped stack size })
  t ← tcb_alloc realloc_ok fresh
  modify t (start_tcb fn arg stack size t)
  run_push t
  preempt_restore old
  c ← load t
  pure c.tid

-- `uth_yield`; `frames` are the calls that are resumed after it
unfoldable pub yield : List Frame → Cmd (Unit {0})
unfolding preempt_off preempt_restore modify run_push swap_out
yield frames = do
  old ← preempt_off
  t ← get (λ s. s.current)
  if t == null then preempt_restore old else do
    modify t (λ c. record c { state = ready })
    run_push t
    swap_out t (in_yield old ∷ frames)

-- `uth_exit`
unfoldable pub exit : (retval : ℕ) → Cmd (Unit {0})
unfolding preempt_off load modify enqueue swap_out
exit retval = do
  preempt_off
  t ← get (λ s. s.current)
  modify t (λ c. record c { retval = retval })
  modify t (λ c. record c { state = zombie })
  c ← load t
  if c.joiner == null
      then pure tt
      else do enqueue c.joiner; modify t (λ c. record c { joiner = null })
  swap_out t (after_exit ∷ [])

-- `uth_join` once the target is a zombie: its value is read and its TCB is freed
unfoldable pub join_collect : (target retval : Ptr) (old : Bool) → Cmd ℤ
unfolding load preempt_restore tcb_free
join_collect target retval old = do
  if retval == null
      then pure tt
      else do c ← load target; assign (λ s. record s { memory = update s.memory retval c.retval })
  tcb_free target
  preempt_restore old
  pure (pos 0)

-- `uth_join` from its `uth_block_noqueue` on
unfoldable pub join_resume : (tid : Tid) (retval : Ptr) (old : Bool) → Cmd ℤ
unfolding tcb_find preempt_restore join_collect
join_resume tid retval old = do
  target ← tcb_find tid
  if target == null
      then (do preempt_restore old; pure (negsuc 0))
      else join_collect target retval old

-- `uth_join`
unfoldable pub join : (tid : Tid) (retval : Ptr) → List Frame → Cmd ℤ
unfolding preempt_off preempt_restore load modify tcb_find block_noqueue join_collect
join tid retval frames = do
  old ← preempt_off
  target ← tcb_find tid
  if target == null then (do preempt_restore old; pure (negsuc 0)) else do
    c ← load target
    if is_zombie c.state then join_collect target retval old else do
      me ← get (λ s. s.current)
      modify target (λ d. record d { joiner = me })
      block_noqueue (in_join tid retval old ∷ frames)
      pure (pos 0)

-- What a round of `scheduler_loop` comes to: the loop ends, no thread is ready, or a thread is
-- resumed in the calls of its context.
pub data Dispatch : Type 0 where
  finished : Dispatch
  no_ready : Dispatch
  resume : Ptr → List Frame → Dispatch

abbrev pub is_ready : State → Bool
is_ready ready = true
is_ready _ = false

-- A round of `scheduler_loop` up to its `swapcontext`, which installs the context's signal mask.
unfoldable pub schedule : Cmd Dispatch
unfolding active_count run_pop load modify
schedule = do
  live ← active_count
  if live == 0 then pure finished else do
    next ← run_pop
    if next == null then pure no_ready else do
      c ← load next
      assert (is_ready c.state)
      modify next (λ c. record c { state = running })
      assign (λ s. record s { current = next; masked = c.ctx.mask })
      pure (resume next c.ctx.frames)

-- `scheduler_loop` after its `swapcontext`
unfoldable pub leave_thread : Cmd (Unit {0})
leave_thread = assign (λ s. record s { current = null })
