-- ===== src/System/Landing.antt =====
-- How the runs of the calls end on a sound machine.
use comp_arch_project.Base.{
  ◌≡◌, refl, sym, ◌∙◌, ap, subst, true, false, some, Option-cases, inl, inr, has, ◌==◌, Bool-cases,
}
use comp_arch_project.Machine.{Ptr, null, running, Tcb, Machine, Run, ok, switched}
use comp_arch_project.Machine.Access.{IsRunning}
use comp_arch_project.Queue.Spec.{Queues, IsLoose, Holds, Holds-cast, state_at}
use comp_arch_project.Queue.Valid.{state_of}
use comp_arch_project.Queue.Refines.{cell-of}
use comp_arch_project.Table.Kept.{tid_in, Holds-IsTable}
use comp_arch_project.Machine.Objects.{objects}
use comp_arch_project.System.{
  Waits, Joins, Registry, registry, IsSound, EndsSound, after, has_returned,
}
use comp_arch_project.System.Kin.{Alike, same_tid, same_joiner}
use comp_arch_project.System.Waiting.{apart_by_state}

-- The same threads, with all who waited still waiting.
pub record Kin (a b : Queues) : Type 0 where
  pub alike : Alike a b
  pub waiting : (j : Ptr) → Waits a j → Waits b j

pub Kin-refl : (a : Queues) → Kin a a
Kin-refl a = record { alike = λ p. refl; waiting = λ j w. w }

Kin-Joins : {a b : Queues} → Joins a → Kin a b → Joins b
Kin-Joins {a} {b} joins kin =
    let same = λ (p : Ptr). same_joiner (b.cells p) (a.cells p) (kin.alike p) in
    record {
      waits = λ p ne.
          subst (Waits b) (sym (same p)) (kin.waiting _ (joins.waits p λ e. ne (same p ∙ e)));
      single = λ p q ne e. joins.single p q (λ g. ne (same p ∙ g)) (sym (same p) ∙ e ∙ same q);
    }

-- A machine with the same table, and the same threads under the same TIDs.
pub same-IsSound :
    {s : Machine} {a b : Queues} (s' : Machine)
    → IsSound s a
    → ((p : Ptr) → tid_in (b.cells p) ≡ tid_in (a.cells p))
    → Joins b
    → Holds s' b
    → registry s' ≡ registry s
    → IsSound s' b
same-IsSound {s} {a} {b} s' sound tids joins h same = record {
  holds = h;
  table = Holds-IsTable sound.holds h tids sound.table table capacity count next;
  listed = λ p c e. elim (Option-cases (a.cells p)) [
    | inl gone ↦ cc (tids p, ap tid_in e, ap tid_in gone)
    | inr (d, found) ↦ rw (table, count) (sound.listed p d found)
  ];
  joins = joins;
}
  where
    table : s'.tcb_table ≡ s.tcb_table
    table = ap (λ (r : Registry). r.table) same

    capacity : s'.tcb_capacity ≡ s.tcb_capacity
    capacity = ap (λ (r : Registry). r.capacity) same

    count : s'.tcb_count ≡ s.tcb_count
    count = ap (λ (r : Registry). r.count) same

    next : s'.next_tid ≡ s.next_tid
    next = ap (λ (r : Registry). r.next) same

module _ {s : Machine} {a : Queues} (sound : IsSound s a) where
  pub Kin-IsSound :
      {b : Queues} (s' : Machine) → Kin a b → Holds s' b → registry s' ≡ registry s → IsSound s' b
  Kin-IsSound {b} s' kin h same =
      same-IsSound s' sound (λ p. same_tid (b.cells p) (a.cells p) (kin.alike p))
        (Kin-Joins sound.joins kin) h same

  -- A run that returns, and one that switches to the scheduler.
  pub returned-Ends :
      {b : Queues} {r : Run (Unit {0})} (s' : Machine)
      → r ≡ ok tt s'
      → Kin a b
      → Holds s' b
      → registry s' ≡ registry s
      → EndsSound r true (objects s')
  returned-Ends {b} s' ran kin h same =
      (s', b, ap after ran, ap has_returned ran, refl, Kin-IsSound s' kin h same)

  pub switched-Ends :
      {b : Queues} {r : Run (Unit {0})} (s' : Machine)
      → r ≡ switched s'
      → Kin a b
      → Holds s' b
      → registry s' ≡ registry s
      → EndsSound r false (objects s')
  switched-Ends {b} s' ran kin h same =
      let left = record s' { current = null } in
      (
        left,
        b,
        ap after ran,
        ap has_returned ran,
        refl,
        Kin-IsSound left kin (Holds-cast left h refl) same,
      )

  module _ {c : Tcb} (run : IsRunning s c) (st : c.state ≡ running) where
    runs : state_at a.cells s.current ≡ some running
    runs = ap state_of (cell-of sound.holds s.current run.found) ∙ ap some st

    -- The running thread is in no queue, and does not wait.
    pub current-IsLoose : IsLoose a s.current
    current-IsLoose = record {
      not_run = elim (Bool-cases (has s.current a.run)) [
        | inl i ↦ cc (sound.holds.valid.run_ready s.current i, runs)
        | inr out ↦ out
      ];
      not_wait = λ q. elim (Bool-cases (has s.current (a.wait q))) [
        | inl i ↦ cc (sound.holds.valid.wait_blocked q s.current i, runs)
        | inr out ↦ out
      ];
    }

    pub current_apart : (j : Ptr) → Waits a j → (j == s.current) ≡ false
    current_apart = apart_by_state s.current runs (λ e. cc)
