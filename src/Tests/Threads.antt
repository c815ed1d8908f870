-- ===== src/Tests/Threads.antt =====
-- The theorems on the life of threads and on the timer, applied to the machine of five threads.
use comp_arch_project.Base.{◌≡◌, refl, true, false, none, some, [], ◌∷◌, ◌++◌, arith, ltb, update}
use comp_arch_project.Machine.{
  null, ready, running, blocked, zombie, in_yield, in_join, Machine, ok, switched, pos,
}
use comp_arch_project.Machine.Objects.{objects}
use comp_arch_project.Table.{entries}
use comp_arch_project.Table.Valid.{IsTable, slot}
use comp_arch_project.Thread.{
  yield, exit, create, join, schedule, resume, trampoline_enter, stack_default,
}
use comp_arch_project.Thread.Yield.{yield-switched}
use comp_arch_project.Thread.Exit.{set_zombie, set_joiner, last_context, exit-joined}
use comp_arch_project.Thread.Create.{added, born, create-starts}
use comp_arch_project.Thread.Join.{collected, join-collects, join-waits}
use comp_arch_project.Thread.Schedule.{schedule-resumes}
use comp_arch_project.Thread.Trampoline.{trampoline_enter-halves}
use comp_arch_project.Preempt.{Preempt, SystemCalls, preempt_enable, preempt_handler}
use comp_arch_project.Preempt.Handler.{preempt_handler-switches}
use comp_arch_project.Preempt.Timer.{IsReady, preempt_enable-exits}
use comp_arch_project.Queue.Spec.{
  Holds, Links, with_links, change, set_ctx, set_state, push_run, make_ready,
}
use comp_arch_project.Tests.Fixture.{
  thread, machine, queues, machine-Holds, machine-IsTable, machine-IsRunning, current-IsLoose,
  joiner-IsLoose,
}

yield-switched_example :
    (k : Links) × (yield [] (machine null)
      ≡ switched (record (with_links k (machine null)) { masked = true }))
    × Holds
        (with_links k (machine null))
        (change 16 (set_ctx (in_yield false ∷ []) true) (make_ready 16 (queues null)))
yield-switched_example =
    yield-switched (machine-Holds null) (machine-IsRunning null) [] (current-IsLoose null)

exit-joined_example :
    (k : Links) × (exit 11 (machine 64)
      ≡ switched (record (with_links k (machine 64)) { masked = true }))
    × Holds (with_links k (machine 64)) (
        change 16 last_context
          (change 16 (set_joiner null) (make_ready 64 (change 16 (set_zombie 11) (queues 64)))))
exit-joined_example =
    exit-joined (machine-Holds 64) (machine-IsRunning 64) (current-IsLoose 64) 11 (omega arith)
      (omega arith) joiner-IsLoose refl

create-starts_example :
    (s : Machine) × (create (some 8192) true 96 3 9 0 (machine null) ≡ ok 6 s)
    × Holds s (push_run 96 (added 96 (born 3 9 8192 stack_default 96 6) (queues null)))
    × IsTable s
    × (entries s ≡ entries (machine null) ++ 96 ∷ [])
    × (objects s ≡ objects (machine null))
create-starts_example =
    create-starts (machine-Holds null) (machine-IsTable null) 8192 96 3 9 0 (omega arith)
      (omega arith) refl

join-collects_example :
    let s : Machine = collected 80 1000 (thread 5 zombie null) (machine null) in
    (join 5 1000 [] (machine null) ≡ ok (pos 0) s)
    × Holds s (record (queues null) { cells = update (queues null).cells 80 none })
    × IsTable s
    × (slot s 5 ≡ null)
join-collects_example =
    join-collects (machine-IsTable null) 5 1000 (machine-Holds null) [] (omega arith) refl refl

join-waits_example :
    (k : Links) × (join 2 null [] (machine null)
      ≡ switched (record (with_links k (machine null)) { masked = true }))
    × Holds (with_links k (machine null)) (
        change 16
          (set_ctx (in_join 2 null false ∷ []) true)
          (change 16 (set_state blocked) (change 32 (set_joiner 16) (queues null))))
join-waits_example =
    join-waits (machine-IsTable null) 2 null (machine-Holds null) (machine-IsRunning null) []
      (current-IsLoose null) (omega arith) refl refl

schedule-resumes_example :
    (k : Links) × (schedule (machine null)
      ≡ ok (resume 32 []) (record (with_links k (machine null)) { current = 32; masked = false }))
    × Holds
        (with_links k (machine null))
        (change 32 (set_state running) (record (queues null) { run = [] }))
schedule-resumes_example =
    schedule-resumes (machine-IsTable null) (machine-Holds null) 32 [] refl refl refl

trampoline_enter-halves_example : trampoline_enter 0 32 (machine null) ≡ ok (3, 9) (machine null)
trampoline_enter-halves_example =
    trampoline_enter-halves (machine null) 32 (omega arith) (omega arith) refl

-- A system whose calls succeed as their manual pages say.
abbrev system : SystemCalls
system = record {
  malloc = 4096;
  sigaltstack = true;
  sigaction = true;
  setitimer = λ usec. ltb usec 1_000_000;
}

abbrev timer_off : Preempt
timer_off = record {
  alt_stack_mem = null;
  preempt_enabled = false;
  signal_stack = null;
  handler_installed = false;
  interval = 0;
}

abbrev timer_on : Preempt
timer_on = record {
  alt_stack_mem = 4096;
  preempt_enabled = true;
  signal_stack = 4096;
  handler_installed = true;
  interval = 10_000;
}

system-IsReady : IsReady system
system-IsReady = record { memory = omega arith; stack = refl; action = refl }

preempt_enable-exits_example : preempt_enable system 1000 timer_off ≡ none
preempt_enable-exits_example =
    preempt_enable-exits system-IsReady (λ usec. refl) timer_off refl 1000 (omega arith)
      (omega arith)

preempt_handler-switches_example :
    (k : Links) × (preempt_handler [] false (machine null)
      ≡ switched (record (with_links k (machine null)) { current = null; masked = true }))
    × Holds
        (with_links k (machine null))
        (make_ready 16 (change 16 (set_state ready) (change 16 (set_ctx [] false) (queues null))))
preempt_handler-switches_example =
    preempt_handler-switches (machine-Holds null) (machine-IsRunning null) [] false
      (current-IsLoose null)
