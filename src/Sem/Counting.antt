-- ===== src/Sem/Counting.antt =====
-- What `uth_sem_wait` and `uth_sem_post` do on a machine with well-formed queues.
use comp_arch_project.Base.{
  ℕ, zero, suc, ◌+◌, ◌<◌, update, false, ◌≤◌, ◌≡◌, refl, Bool, true, List, ◌∷◌, arith, length, leb,
}
use comp_arch_project.Machine.{
  Ptr, Frame, in_sem_wait, Tcb, pos, Machine, Run, ok, switched, fault, overflow,
}
use comp_arch_project.Machine.Access.{IsRunning}
use comp_arch_project.Sem.{int_max, sem_wait, sem_wait_loop, sem_post}
use comp_arch_project.Queue.Spec.{
  Queues, IsLoose, Holds, Holds-cast, Links, with_links, change, make_wait, set_ctx, wake_first,
}
use comp_arch_project.Queue.Refines.{cell-of}
use comp_arch_project.Queue.Wake.{wake_one-refines}
use comp_arch_project.Queue.Block.{block-switched}

abbrev pub with_value : Ptr → ℕ → Machine → Machine
with_value q n s = record s { sems = update s.sems q (pos n) }

-- A round of the loop at value `n`: a permit is taken, or, where there is none, the thread goes to
-- the end of the queue and the value stays.
abbrev pub AfterWait :
    (n : ℕ) (q : Ptr) (old : Bool) → List Frame → Machine → Queues → Run (Unit {0}) → Type 0
AfterWait (suc n) q old frames s a result =
    result ≡ ok tt (record (with_value q n s) { masked = old })
AfterWait zero q old frames s a result =
    (k : Links) × (result ≡ switched (record (with_links k s) { masked = true }))
    × Holds (with_links k s)
        (change s.current (set_ctx (in_sem_wait q old ∷ frames) s.masked) (make_wait q s.current a))

pub wait_loop-cases :
    {s : Machine} {a : Queues} {c : Tcb} (h : Holds s a) (q : Ptr) (run : IsRunning s c) (n : ℕ)
    (old : Bool) (frames : List Frame)
    → s.sems q ≡ pos n
    → IsLoose a s.current
    → length (a.wait q) ≤ s.tcb_count
    → AfterWait n q old frames s a (sem_wait_loop q old frames s)
unfolding sem_wait_loop
wait_loop-cases {s} h q run zero old frames e loose short = rw e (
    block-switched h q (in_sem_wait q old ∷ frames) run.ne_null loose
      (cell-of h s.current run.found) short)
wait_loop-cases h q run (suc n) old frames e loose short = rw e

-- On a machine whose queues are well-formed, with a running thread that is in no queue, a semaphore
-- whose value is not negative, and a queue no longer than the thread table: `uth_sem_wait` takes
-- one permit and restores the signal mask if the value is positive; at 0 it leaves the value, and
-- switches to the scheduler with the thread blocked at the end of the queue, to go on in the loop.
pub sem_wait-cases :
    {s : Machine} {a : Queues} {c : Tcb} (h : Holds s a) (q : Ptr) (run : IsRunning s c) (n : ℕ)
    (frames : List Frame)
    → s.sems q ≡ pos n
    → IsLoose a s.current
    → length (a.wait q) ≤ s.tcb_count
    → AfterWait n q s.masked frames (record s { masked = true }) a (sem_wait q frames s)
unfolding sem_wait
sem_wait-cases {s} h q run n frames e loose short =
    wait_loop-cases (Holds-cast (record s { masked = true }) h refl) q
      (record { ne_null = run.ne_null; found = run.found }) n s.masked frames e loose short

-- On a machine whose queues are well-formed, at a value from 0 up to below the largest `int`,
-- `uth_sem_post` adds one permit, makes the thread that has waited for longest ready, restores the
-- signal mask, and keeps the queues well-formed.
pub sem_post-wakes :
    {s : Machine} {a : Queues} (h : Holds s a) (q : Ptr) (n : ℕ)
    → s.sems q ≡ pos n
    → n < int_max
    → (k : Links) × (sem_post q s ≡ ok tt (with_links k (with_value q (n + 1) s)))
      × Holds (with_links k (with_value q (n + 1) s)) (wake_first q a)
unfolding sem_post
sem_post-wakes {s} h q n e small =
    let s1 = record (with_value q (n + 1) s) { masked = true } in
    let (k, ran, after) = wake_one-refines (Holds-cast s1 h refl) q in
    let low : leb int_max n ≡ false = ground arith in (k, rw (e, low, ran), Holds-cast _ after refl)

-- At the largest `int` the increment of `uth_sem_post` overflows.
pub sem_post-overflows :
    (s : Machine) (q : Ptr) (n : ℕ) → s.sems q ≡ pos n → int_max ≤ n → sem_post q s ≡ fault overflow
unfolding sem_post
sem_post-overflows s q n e large = let high : leb int_max n ≡ true = ground arith in rw (e, high)
