-- ===== src/System/Steps.antt =====
-- The steps of the program, over `scheduler_loop`, `uth_create` and the calls of threads.
use comp_arch_project.Base.{
  sym, if_app, ◌∙◌, some, true, false, ℕ, ◌<◌, ◌^◌, ◌≢◌, has-append, none, inl, inr, ◌≡◌, refl, ap,
  subst, List, [], ◌∷◌, arith, has, Option-cases, inl, inr, true, Bool-cases, ◌==◌, ==_iff,
  ne-==_iff,
}
use comp_arch_project.Machine.{
  Tid, null, tid_invalid, pos, Ptr, Tcb, ready, running, Frame, Machine, ok,
}
use comp_arch_project.Machine.Objects.{objects}
use comp_arch_project.Queue.Spec.{
  push_run, state_at, Holds, Queues, Holds-cast, with_links, set_state, change,
}
use comp_arch_project.Queue.Valid.{state_of}
use comp_arch_project.Table.{entries}
use comp_arch_project.Table.Live.{live_count}
use comp_arch_project.Table.Listed.{state-Listed}
use comp_arch_project.Thread.{create, schedule, resume}
use comp_arch_project.Thread.Create.{added, born, size_or_default, create-starts}
use comp_arch_project.Thread.Schedule.{schedule-finished, schedule-no_ready, schedule-resumes}
use comp_arch_project.System.{
  joiner_in, Waits, Joins, IsSound, Step, dispatches, calls, creates, Reaches, here, later,
}
use comp_arch_project.Queue.Push.{view}
use comp_arch_project.System.Kin.{change-Alike}
use comp_arch_project.System.Waiting.{apart_by_state, change-Waits}
use comp_arch_project.System.Joiners.{ended-Joins}
use comp_arch_project.System.Landing.{Kin, Kin-IsSound}
use comp_arch_project.System.Owning.{Permitted-Allowed}
use comp_arch_project.System.Calls.{perform-IsSound}

-- The first thread of the run queue starts to run.
dispatched-Kin :
    {a : Queues} (x : Ptr) (xs : List Ptr)
    → state_at a.cells x ≡ some ready
    → a.run ≡ x ∷ xs
    → Kin a (change x (set_state running) (record a { run = xs }))
dispatched-Kin {a} x xs st e =
    let a1 = record a { run = xs } in
    record {
      alike = change-Alike x (set_state running) a1 (λ y. refl);
      waiting = λ j w.
          let w1 : Waits a1 j = record {
            blocked_there = w.blocked_there;
            loose = record {
              not_run = ground (arith, w.loose.not_run, ap (has j) e);
              not_wait = w.loose.not_wait;
            };
          } in
          change-Waits w1 x (set_state running) (apart_by_state x st (λ f. cc) j w);
    }

-- A round that resumes a thread finds it first in the run queue.
pub dispatch-first :
    {s s' : Machine} {a : Queues} (sound : IsSound s a) (t : Ptr) (frames : List Frame)
    (ts : List Ptr)
    → a.run ≡ ts
    → schedule s ≡ ok (resume t frames) s'
    → (b : Queues) × IsSound s' b × (objects s' ≡ objects s)
dispatch-first {s} {s'} {a} sound t frames [] e ran =
    elim (Bool-cases (live_count s.heap (entries s) == 0)) [
      | inl over ↦ cc (schedule-finished sound.table ((==_iff _ 0).0 over), ran)
      | inr live ↦ cc (schedule-no_ready sound.table sound.holds ((ne-==_iff _ 0).0 live) e, ran)
    ]
dispatch-first {s} {s'} {a} sound t frames (x ∷ xs) e ran =
    let first : has x a.run ≡ true = rw e (ground arith) in
    let st = sound.holds.valid.run_ready x first in
    elim (Option-cases (a.cells x)) [
      | inl gone ↦ cc (st, ap state_of gone)
      | inr (c, cell) ↦
          let (k, ran', h) =
            schedule-resumes sound.table sound.holds x xs e (state-Listed s a sound.listed x st)
              cell in
          let s1 = record (with_links k s) { current = x; masked = c.ctx.mask } in
          let same : s1 ≡ s' = cc (ran, ran') in
          let a1 = record a { run = xs } in
          (
            _,
            subst (λ v. IsSound v (change x (set_state running) a1)) same
                (Kin-IsSound sound s1 (dispatched-Kin x xs st e) (Holds-cast s1 h refl) refl),
            ap objects (sym same),
          )
    ]

-- Nobody waits for a new thread.
created-Joins :
    {s : Machine} {a : Queues} (h : Holds s a) (joins : Joins a) (fresh : Ptr)
    → s.heap fresh ≡ none
    → (c : Tcb) → c.joiner ≡ null
    → Joins (push_run fresh (added fresh c a))
created-Joins {s} {a} h joins fresh unused c alone =
    let no_cell : state_at a.cells fresh ≡ none =
      ap state_of (sym (h.content fresh) ∙ ap view unused) in
    let apart = λ (j : Ptr) (w : Waits a j).
      (ne-==_iff j fresh).1 λ same. cc (w.blocked_there, ap (state_at a.cells) same, no_cell) in
    ended-Joins joins fresh (λ p. if_app joiner_in (p == fresh) (some c) (a.cells p) ∙ rw alone)
      λ j w _. record {
        blocked_there = ap state_of (rw (apart j w)) ∙ w.blocked_there;
        loose = record {
          not_run = ground (arith, has-append j a.run (fresh ∷ []), w.loose.not_run, apart j w);
          not_wait = w.loose.not_wait;
        };
      }

-- A new thread is the last entry of the table.
pub create-IsSound :
    {s s' : Machine} {a : Queues} (sound : IsSound s a) (stack fresh fn arg stack_size : ℕ)
    {tid : Tid}
    → s.tcb_count < 2 ^ 31
    → fresh ≢ null
    → s.heap fresh ≡ none
    → create (some stack) true fresh fn arg stack_size s ≡ ok tid s'
    → (b : Queues) × IsSound s' b × (objects s' ≡ objects s)
create-IsSound {s} {s'} {a} sound stack fresh fn arg stack_size room ne unused ran =
    let (s1, ran', h, v, grown, kept) =
      create-starts sound.holds sound.table stack fresh fn arg stack_size room ne unused in
    let same : s1 ≡ s' = cc (ran, ran') in
    let b =
      push_run fresh
        (added fresh (born fn arg stack (size_or_default stack_size) fresh s.next_tid) a) in
    let sound1 : IsSound s1 b = record {
      holds = h;
      table = v;
      listed = λ p c e. rw grown (elim (Bool-cases (p == fresh)) [
        | inl new ↦ ground (arith, has-append p (entries s) (fresh ∷ []))
        | inr old ↦
            ground (arith, has-append p (entries s) (fresh ∷ []), sound.listed p c (rw old at e))
      ]);
      joins = created-Joins sound.holds sound.joins fresh unused _ refl;
    } in
    (b, subst (λ u. IsSound u b) same sound1, ap objects (sym same) ∙ kept)

-- A step keeps the machine sound.
Step-IsSound : {s s' : Machine} {a : Queues} → IsSound s a → Step s s' → (b : Queues) × IsSound s' b
Step-IsSound {a = a} sound (dispatches t frames out ran) =
    let (b, sound', _) = dispatch-first sound t frames a.run refl ran in (b, sound')
Step-IsSound {s' = s'} sound (calls call frames run st permitted ran) =
    let allowed = Permitted-Allowed sound run call frames permitted ran in
    let (s1, b, ran', _, _, after) = perform-IsSound sound run st frames call allowed in
    let same : s1 ≡ s' = cc (ran, ran') in (b, subst (λ v. IsSound v b) same after)
Step-IsSound sound (creates stack fresh fn arg size room ne unused ran) =
    let (b, sound', _) = create-IsSound sound stack fresh fn arg size room ne unused ran in
    (b, sound')

-- Every machine that steps lead to from a sound machine is sound.
pub Reaches-IsSound :
    {s s' : Machine} {a : Queues} (sound : IsSound s a) (path : Reaches s s')
    → (b : Queues) × IsSound s' b
Reaches-IsSound {a = a} sound here = (a, sound)
Reaches-IsSound sound (later path step) =
    let (b, sound') = Reaches-IsSound sound path in Step-IsSound sound' step

-- The globals before the first call: no thread, an empty table, and the next TID is 1. Locks that
-- are initialised in place are free.
abbrev pub boot : Machine
boot = record {
  heap = λ p. none;
  current = null;
  rq_head = null;
  rq_tail = null;
  tcb_table = [];
  tcb_capacity = 0;
  tcb_count = 0;
  next_tid = 1;
  masked = false;
  waiters = λ q. null;
  mutexes = λ m. record { locked = false; owner = tid_invalid };
  tickets = λ t. record { next_ticket = 0; now_serving = 0 };
  spinlocks = λ l. false;
  sems = λ q. pos 0;
  memory = λ p. 0;
  mapped = λ p. 0;
}

abbrev pub no_threads : Queues
no_threads = record { run = []; wait = λ q. []; cells = λ p. none }

pub boot-IsSound : IsSound boot no_threads
boot-IsSound = record {
  holds = record {
    run_chain = refl;
    run_tail = refl;
    wait_chain = λ q. refl;
    content = λ p. refl;
    valid = record {
      run_distinct = tt;
      wait_distinct = λ q. tt;
      run_ready = λ p i. cc;
      wait_blocked = λ q p i. cc;
      wait_apart = λ q r p i j. cc;
    };
  };
  table = record {
    sized = refl;
    fits = omega arith;
    bounded = omega arith;
    next_number = refl;
    numbered = tt;
  };
  listed = λ p c e. cc;
  joins = record { waits = λ p ne. absurd (ne refl); single = λ p q ne e. absurd (ne refl) };
}

-- From the start of the program, with no threads, every sequence of steps leads to a machine whose
-- queues and thread table are well-formed, in which every TCB has an entry of the table, and every
-- thread that is noted as a joiner is blocked, in no queue, and noted for one thread only. A step
-- is: a round of the scheduler's loop that resumes a thread; a creation of a thread, given memory
-- and fewer than 2 ^ 31 entries; or, by a thread that runs, a yield, an exit, a join, a lock or
-- unlock of a spinlock, a lock, unlock, wait, signal, broadcast or post on a mutex, ticket lock,
-- condition variable or semaphore, another round of the loop of a lock or wait, the rest of a join,
-- or an interrupt by the timer. A semaphore that is waited on has a value that is not negative, and
-- a post does not raise it past the largest `int`; a join goes on when its target is a zombie or
-- gone.
pub boot-Reaches-IsSound : {s : Machine} (path : Reaches boot s) → (b : Queues) × IsSound s b
boot-Reaches-IsSound path = Reaches-IsSound boot-IsSound path
