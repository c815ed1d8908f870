-- ===== src/Tests/Steps.antt =====
-- The theorems on the steps of the system, applied to the machine of five threads.
use comp_arch_project.Base.{◌≡◌, ◌⊎◌, true, false, refl, some, [], arith}
use comp_arch_project.Machine.{null, Machine, ok}
use comp_arch_project.Queue.Spec.{Queues}
use comp_arch_project.Thread.{create}
use comp_arch_project.Thread.Create.{create-starts}
use comp_arch_project.Api.{exits, unlocks, perform}
use comp_arch_project.Machine.Objects.{objects}
use comp_arch_project.System.{IsSound, EndsSound, creates, here, later, Reaches, calls, after}
use comp_arch_project.System.Exclusion.{OwnerReleased, held-Step}
use comp_arch_project.System.Calls.{perform-IsSound}
use comp_arch_project.System.Steps.{boot, boot-IsSound, boot-Reaches-IsSound}
use comp_arch_project.Tests.Fixture.{machine, machine-IsSound, joined-IsSound, machine-IsRunning}

perform-IsSound_example :
    EndsSound (perform (exits 11) [] (machine 64)) false (objects (machine 64))
perform-IsSound_example =
    perform-IsSound joined-IsSound (machine-IsRunning 64) refl [] (exits 11) tt

-- Thread 1 runs, and releases the mutex that it owns.
abbrev unlocked : (s : Machine) × (after (perform (unlocks 7) [] (machine null)) ≡ some s)
unlocked =
    let (s, _, ran, _, _, _) =
      perform-IsSound machine-IsSound (machine-IsRunning null) refl [] (unlocks 7) refl in
    (s, ran)

held-Step_example :
    (unlocked.0.mutexes 7 ≡ (machine null).mutexes 7) ⊎ OwnerReleased (machine null) unlocked.0 7
held-Step_example =
    held-Step machine-IsSound (calls (unlocks 7) [] (machine-IsRunning null) refl tt unlocked.1) 7
      refl

-- The machine in which the program has created its first thread.
abbrev created : (s : Machine) × (create (some 8192) true 96 3 9 0 boot ≡ ok 1 s)
created =
    let (s, ran, _, _, _, _) =
      create-starts boot-IsSound.holds boot-IsSound.table 8192 96 3 9 0 (omega arith) (omega arith)
        refl in
    (s, ran)

create_first : Reaches boot created.0
create_first = later here (creates 8192 96 3 9 0 (omega arith) (omega arith) refl created.1)

boot-Reaches-IsSound_example : (b : Queues) × IsSound created.0 b
boot-Reaches-IsSound_example = boot-Reaches-IsSound create_first
