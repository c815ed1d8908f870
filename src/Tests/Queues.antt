-- ===== src/Tests/Queues.antt =====
-- The theorems on the queues and the thread table, applied to the machine of five threads.
use comp_arch_project.Base.{
  length, ◌+◌, ◌≡◌, refl, true, false, none, if◌then◌else◌, ◌==◌, some, [], ◌∷◌, ◌++◌, arith,
}
use comp_arch_project.Machine.{Tid, null, Machine, ok, switched}
use comp_arch_project.Table.{entries, tcb_find, tcb_alloc, tcb_free}
use comp_arch_project.Table.Valid.{IsTable, slot, tcb_find-eq-slot}
use comp_arch_project.Table.Alloc.{named, room_for, tcb_alloc-appends}
use comp_arch_project.Table.Free.{tcb_free-forgets}
use comp_arch_project.Queue.{enqueue, block, wake_one, wake_all}
use comp_arch_project.Queue.Spec.{
  Holds, Links, with_links, change, set_ctx, make_ready, make_wait, wake_first, make_all_ready,
}
use comp_arch_project.Queue.Refines.{Becomes, enqueue-Becomes}
use comp_arch_project.Queue.Wake.{wake_one-refines}
use comp_arch_project.Queue.WakeAll.{emptied, wake_all-Becomes}
use comp_arch_project.Queue.Block.{block-switched}
use comp_arch_project.Tests.Fixture.{
  machine, queues, machine-Holds, machine-IsTable, current-IsLoose, waiting-IsLoose,
}

wake_one-refines_example :
    Becomes (wake_one 7 (machine null)) 48 (machine null) (wake_first 7 (queues null))
wake_one-refines_example = wake_one-refines (machine-Holds null) 7

wake_all-Becomes_example :
    Becomes
      (wake_all 7 (machine null))
      tt
      (machine null)
      (make_all_ready (48 ∷ []) (emptied 7 (queues null)))
wake_all-Becomes_example = wake_all-Becomes (machine-Holds null) 7 (omega arith)

enqueue-Becomes_example :
    Becomes (enqueue 64 (machine null)) tt (machine null) (make_ready 64 (queues null))
enqueue-Becomes_example = enqueue-Becomes (machine-Holds null) 64 (omega arith) waiting-IsLoose refl

block-switched_example :
    (k : Links) × (block 7 [] (machine null)
      ≡ switched (record (with_links k (machine null)) { masked = true }))
    × Holds
        (with_links k (machine null))
        (change 16 (set_ctx [] false) (make_wait 7 16 (queues null)))
block-switched_example =
    block-switched (machine-Holds null) 7 [] (omega arith) (current-IsLoose null) refl (omega arith)

tcb_find-eq-slot_example : tcb_find 3 (machine null) ≡ ok 48 (machine null)
tcb_find-eq-slot_example = tcb_find-eq-slot (machine-IsTable null) 3

tcb_alloc-appends_example :
    (s : Machine) × (tcb_alloc true 96 (machine null) ≡ ok 96 s)
    × IsTable s
    × (entries s ≡ entries (machine null) ++ 96 ∷ [])
    × (s.heap 96 ≡ some (named (5 + 1)))
    × (s.tcb_capacity ≡ room_for (machine null).tcb_capacity 5)
    × (length s.tcb_table ≡ s.tcb_capacity)
tcb_alloc-appends_example =
    tcb_alloc-appends (machine-IsTable null) 96 (omega arith) (omega arith) refl

tcb_free-forgets_example :
    (s : Machine) × (tcb_free 80 (machine null) ≡ ok tt s)
    × (s.heap 80 ≡ none)
    × IsTable s
    × ((tid : Tid)
        → slot s tid ≡ (if slot (machine null) tid == 80 then null else slot (machine null) tid))
tcb_free-forgets_example = tcb_free-forgets (machine-IsTable null) (omega arith) refl
