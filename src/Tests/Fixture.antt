-- ===== src/Tests/Fixture.antt =====
-- Five threads: TID 1 runs and TID 2 is ready; TID 3 waits in the queue of the lock at address 7,
-- with ticket 5; TID 4 waits for a thread to end; TID 5 is a zombie that has returned 42.
use comp_arch_project.Base.{
  subst, ℕ, ◌+◌, ◌*◌, ◌≡◌, ◌∙◌, sym, ==_iff, refl, true, false, none, some, [], ◌∷◌, arith, ◌==◌,
  if◌then◌else◌, replicate, Bool-cases, inl, inr, has,
}
use comp_arch_project.Machine.{
  Ptr, null, State, ready, running, blocked, zombie, Tcb, Heap, pos, Machine,
}
use comp_arch_project.Machine.Access.{IsRunning}
use comp_arch_project.Table.Valid.{IsTable}
use comp_arch_project.Table.Listed.{Listed}
use comp_arch_project.System.{joiner_in, Waits, Joins, IsSound}
use comp_arch_project.Queue.Spec.{Queues, IsLoose, Holds}
use comp_arch_project.Queue.Push.{view}

abbrev pub thread : (tid : ℕ) (state : State) (joiner : Ptr) → Tcb
thread tid state joiner = record {
  tid = tid;
  state = state;
  ctx = record { frames = []; mask = false };
  stack = 4096 * tid;
  stack_size = 4096;
  fn = 3;
  arg = 9;
  retval = 42;
  next = null;
  joiner = joiner;
  ticket = tid + 2;
}

-- `joiner` is the thread that waits for TID 1.
abbrev pub heap_with : (joiner : Ptr) → Heap
heap_with joiner p =
    if p == 16
    then some (thread 1 running joiner)
    else if p == 32
    then some (thread 2 ready null)
    else if p == 48
    then some (thread 3 blocked null)
    else if p == 64
    then some (thread 4 blocked null)
    else if p == 80
    then some (thread 5 zombie null)
    else none

abbrev pub machine : (joiner : Ptr) → Machine
machine joiner = record {
  heap = heap_with joiner;
  current = 16;
  rq_head = 32;
  rq_tail = 32;
  tcb_table = 16 ∷ 32 ∷ 48 ∷ 64 ∷ 80 ∷ replicate 59 null;
  tcb_capacity = 64;
  tcb_count = 5;
  next_tid = 6;
  masked = false;
  waiters = λ q. if q == 7 then 48 else null;
  mutexes = λ _. record { locked = true; owner = 1 };
  tickets = λ _. record { next_ticket = 6; now_serving = 4 };
  spinlocks = λ _. false;
  sems = λ _. pos 2;
  memory = λ _. 0;
  mapped = λ _. 0;
}

abbrev pub queues : (joiner : Ptr) → Queues
queues joiner = record {
  run = 32 ∷ [];
  wait = λ q. if q == 7 then 48 ∷ [] else [];
  cells = λ p. view (heap_with joiner p);
}

only_32 : (p : Ptr) → has p (32 ∷ []) ≡ true → p ≡ 32
only_32 p i = ground arith

only_48 : (q p : Ptr) → has p (if q == 7 then 48 ∷ [] else []) ≡ true → (q ≡ 7) × (p ≡ 48)
only_48 q p i = elim (Bool-cases (q == 7)) [
  | inl e ↦ ((==_iff q 7).0 e, only (rw e at i))
  | inr e ↦ cc (rw e at i)
]
  where
    only : has p (48 ∷ []) ≡ true → p ≡ 48
    only h = ground arith

pub machine-Holds : (joiner : Ptr) → Holds (machine joiner) (queues joiner)
machine-Holds joiner = record {
  run_chain = (refl, omega arith, (null, refl, refl));
  run_tail = refl;
  wait_chain = λ q. elim (Bool-cases (q == 7)) [
    | inl e ↦ rw e (refl, omega arith, (null, refl, refl))
    | inr e ↦ rw e
  ];
  content = λ p. refl;
  valid = record {
    run_distinct = (refl, tt);
    wait_distinct = λ q. elim (Bool-cases (q == 7)) [ inl e ↦ rw e (refl, tt) | inr e ↦ rw e tt ];
    run_ready = λ p i. rw (only_32 p i);
    wait_blocked = λ q p i. rw ((only_48 q p i).1);
    wait_apart = λ q r p i j. (only_48 q p i).0 ∙ sym (only_48 r p j).0;
  };
}

pub machine-IsTable : (joiner : Ptr) → IsTable (machine joiner)
machine-IsTable joiner = record {
  sized = refl;
  fits = omega arith;
  bounded = omega arith;
  next_number = refl;
  numbered = (
    inr (record {
      tcb = thread 1 running joiner;
      ne_null = omega arith;
      found = refl;
      named = refl;
    }),
    (
      inr (record { tcb = thread 2 ready null; ne_null = omega arith; found = refl; named = refl }),
      (
        inr (record {
          tcb = thread 3 blocked null;
          ne_null = omega arith;
          found = refl;
          named = refl;
        }),
        (
          inr (record {
            tcb = thread 4 blocked null;
            ne_null = omega arith;
            found = refl;
            named = refl;
          }),
          (
            inr (record {
              tcb = thread 5 zombie null;
              ne_null = omega arith;
              found = refl;
              named = refl;
            }),
            tt,
          ),
        ),
      ),
    ),
  );
}

pub machine-IsRunning : (joiner : Ptr) → IsRunning (machine joiner) (thread 1 running joiner)
machine-IsRunning joiner = record { ne_null = omega arith; found = refl }

pub current-IsLoose : (joiner : Ptr) → IsLoose (queues joiner) 16
current-IsLoose joiner = record {
  not_run = refl;
  not_wait = λ q. elim (Bool-cases (q == 7)) [ inl e ↦ rw e | inr e ↦ rw e ];
}

pub waiting-IsLoose : IsLoose (queues null) 64
waiting-IsLoose = record {
  not_run = refl;
  not_wait = λ q. elim (Bool-cases (q == 7)) [ inl e ↦ rw e | inr e ↦ rw e ];
}

pub joiner-IsLoose : IsLoose (queues 64) 64
joiner-IsLoose = record {
  not_run = refl;
  not_wait = λ q. elim (Bool-cases (q == 7)) [ inl e ↦ rw e | inr e ↦ rw e ];
}

machine-Listed : (joiner : Ptr) → Listed (machine joiner) (queues joiner)
machine-Listed joiner p c e = ground (arith, e)

joiner_at :
    (joiner p : Ptr) → joiner_in ((queues joiner).cells p) ≡ (if p == 16 then joiner else null)
joiner_at joiner p = ground arith

none-Joins : Joins (queues null)
none-Joins = record {
  waits = λ p ne. absurd (ne (joiner_at null p ∙ ground arith));
  single = λ p q ne e. absurd (ne (joiner_at null p ∙ ground arith));
}

pub machine-IsSound : IsSound (machine null) (queues null)
machine-IsSound = record {
  holds = machine-Holds null;
  table = machine-IsTable null;
  listed = machine-Listed null;
  joins = none-Joins;
}

-- TID 4 waits for TID 1.
pub joined-IsSound : IsSound (machine 64) (queues 64)
joined-IsSound = record {
  holds = machine-Holds 64;
  table = machine-IsTable 64;
  listed = machine-Listed 64;
  joins = record {
    waits = λ p ne. elim (Bool-cases (p == 16)) [
      | inl e ↦
          let here : joiner_in ((queues 64).cells p) ≡ 64 = joiner_at 64 p ∙ rw e in
          subst (Waits (queues 64)) (sym here)
            (record { blocked_there = refl; loose = joiner-IsLoose })
      | inr e ↦ absurd (ne (joiner_at 64 p ∙ rw e))
    ];
    single = λ p q ne e. ground (arith, joiner_at 64 p, joiner_at 64 q);
  };
}
