-- ===== src/Thread/Create.antt =====
-- `uth_create` on a machine with well-formed queues and thread table.
use comp_arch_project.Base.{
  [], ◌∷◌, ◌++◌, ℕ, ◌/◌, ◌%◌, ◌<◌, ◌^◌, ◌≡◌, ◌≢◌, refl, sym, ◌∙◌, ap, true, false, none, some,
  arith, has, ◌==◌, if◌then◌else◌, Bool-cases, inl, inr, update, update_same, update-update, subst,
  Bool, if_app,
}
use comp_arch_project.Machine.{
  Ptr, null, Tid, tid_invalid, Tcb, Machine, ok, put, ready, trampoline,
}
use comp_arch_project.Machine.Access.{load-eq-ok, modify-eq-ok}
use comp_arch_project.Machine.Objects.{objects}
use comp_arch_project.Table.{entries}
use comp_arch_project.Table.Valid.{IsTable}
use comp_arch_project.Table.Alloc.{
  named, allocated, entries-allocated, tcb_alloc-eq-ok, allocated-IsTable,
}
use comp_arch_project.Table.Kept.{Holds-IsTable}
use comp_arch_project.Thread.{create, start_tcb, stack_default}
use comp_arch_project.Queue.{with_next}
use comp_arch_project.Queue.Chain.{Chain-frame, link_of, next_at}
use comp_arch_project.Queue.Push.{view}
use comp_arch_project.Queue.Spec.{
  Queues, IsLoose, IsValid, Holds, Holds-cast, with_links, push_run, map_cell, state_at,
}
use comp_arch_project.Queue.Valid.{state_of, change-IsValid}
use comp_arch_project.Queue.Refines.{cell-found, put-Holds, run_push-Becomes}

-- A new TCB at an address that held nothing; it is in no queue.
abbrev pub added : Ptr → Tcb → Queues → Queues
added t c a = record a { cells = update a.cells t (some c) }

module _ {s : Machine} {a : Queues} (h : Holds s a) (t : Ptr) (unused : s.heap t ≡ none) where
  no_cell : state_at a.cells t ≡ none
  no_cell = ap state_of (sym (h.content t) ∙ ap view unused)

  pub unused-IsLoose : IsLoose a t
  unused-IsLoose = record {
    not_run = elim (Bool-cases (has t a.run)) [
      | inl i ↦ cc (h.valid.run_ready t i, no_cell)
      | inr out ↦ out
    ];
    not_wait = λ q. elim (Bool-cases (has t (a.wait q))) [
      | inl i ↦ cc (h.valid.wait_blocked q t i, no_cell)
      | inr out ↦ out
    ];
  }

  added-IsValid : (c : Tcb) → IsValid (added t c a)
  added-IsValid c = record {
    run_distinct = h.valid.run_distinct;
    wait_distinct = h.valid.wait_distinct;
    run_ready = λ p i. other p (ground (arith, unused-IsLoose.not_run)) ∙ h.valid.run_ready p i;
    wait_blocked =
        λ q p i. other p (ground (arith, unused-IsLoose.not_wait q)) ∙ h.valid.wait_blocked q p i;
    wait_apart = h.valid.wait_apart;
  }
    where
      other : (p : Ptr) → (p == t) ≡ false → state_at (added t c a).cells p ≡ state_at a.cells p
      other p e = ap state_of (rw e)

  pub allocated-Holds : Holds (allocated t s) (added t (named s.next_tid) a)
  allocated-Holds = record {
    run_chain =
        Chain-frame s.heap _ s.rq_head a.run h.run_chain
          λ p i. apart p (ground (arith, unused-IsLoose.not_run));
    run_tail = h.run_tail;
    wait_chain = λ q.
        Chain-frame s.heap _ (s.waiters q) (a.wait q) (h.wait_chain q)
          λ p i. apart p (ground (arith, unused-IsLoose.not_wait q));
    content = λ p.
        if_app view (p == t) (some (named s.next_tid)) (s.heap p)
        ∙ elim (Bool-cases (p == t)) [ inl e ↦ rw e | inr e ↦ rw e (h.content p) ];
    valid = added-IsValid (named s.next_tid);
  }
    where
      apart : (p : Ptr) → (p == t) ≡ false → next_at (allocated t s).heap p ≡ next_at s.heap p
      apart p e = ap link_of (rw e)

abbrev pub size_or_default : ℕ → ℕ
size_or_default n = if n == 0 then stack_default else n

-- The new thread's TCB: ready, with its function, argument and stack, in a context that calls the
-- trampoline with the two halves of its address, with SIGALRM not blocked.
abbrev pub born : (fn arg stack size : ℕ) → Ptr → Tid → Tcb
born fn arg stack size t tid = record {
  tid = tid;
  state = ready;
  ctx = record { frames = trampoline (t / 2 ^ 32 % 2 ^ 32) (t % 2 ^ 32) ∷ []; mask = false };
  stack = stack;
  stack_size = size;
  fn = fn;
  arg = arg;
  retval = 0;
  next = null;
  joiner = null;
  ticket = 0;
}

-- The new TCB is filled in.
started-Holds :
    {s : Machine} {a : Queues} (h : Holds s a) (t : Ptr) (unused : s.heap t ≡ none) (f : Tcb → Tcb)
    → (f (named s.next_tid)).next ≡ null
    → with_next null (f (named s.next_tid)) ≡ f (named s.next_tid)
    → Holds (put t (f (named s.next_tid)) (allocated t s)) (added t (f (named s.next_tid)) a)
started-Holds {s} {a} h t unused f unlinked commutes =
    let c = named s.next_tid in
    let h1 = allocated-Holds h t unused in
    let loose : IsLoose (added t c a) t = record {
      not_run = (unused-IsLoose h t unused).not_run;
      not_wait = (unused-IsLoose h t unused).not_wait;
    } in
    let h2 =
      put-Holds h1 t f (update_same s.heap t (some c)) unlinked commutes
        (change-IsValid h1.valid loose f) in
    let cells =
      ap (λ o. update (update a.cells t (some c)) t (map_cell f o)) (update_same a.cells t (some c))
      ∙ update-update a.cells t (some c) (some (f c)) in
    subst (λ g. Holds (put t (f c) (allocated t s)) (record a { cells = g })) cells h2

-- With a well-formed thread table of fewer than 2 ^ 31 entries, well-formed queues, and memory for
-- the stack and for the TCB, at an address that held nothing: `uth_create` returns the next TID; a
-- ready thread with this TID, with SIGALRM not blocked, that starts in the trampoline, with the two
-- halves of its TCB's address, the given function and the given argument, on its own stack of the
-- given size, or the default for 0, stands at the end of the run queue; table and queues are well-
-- formed, the TCB is the last entry of the table, and no mutex, ticket lock, spinlock or semaphore
-- has changed.
pub create-starts :
    {s : Machine} {a : Queues} (h : Holds s a) (v : IsTable s) (stack fresh fn arg stack_size : ℕ)
    → s.tcb_count < 2 ^ 31
    → fresh ≢ null
    → s.heap fresh ≡ none
    → (s' : Machine) × (create (some stack) true fresh fn arg stack_size s ≡ ok s.next_tid s')
      × Holds s' (
          push_run fresh
            (added fresh (born fn arg stack (size_or_default stack_size) fresh s.next_tid) a))
      × IsTable s'
      × (entries s' ≡ entries s ++ fresh ∷ [])
      × (objects s' ≡ objects s)
unfolding create
create-starts {s} {a} h v stack fresh fn arg stack_size room ne unused =
    let size = size_or_default stack_size in
    let s0 = record s { masked = true; mapped = update s.mapped stack size } in
    let v0 : IsTable s0 = record {
      sized = v.sized;
      fits = v.fits;
      bounded = v.bounded;
      next_number = v.next_number;
      numbered = v.numbered;
    } in
    let s1 = allocated fresh s0 in
    let f = start_tcb fn arg stack size fresh in
    let c = f (named s.next_tid) in
    let h0 = Holds-cast s0 h refl in
    let h1 = allocated-Holds h0 fresh unused in
    let h2 = started-Holds h0 fresh unused f refl refl in
    let loose = unused-IsLoose h0 fresh unused in
    let (k, ran, after) =
      run_push-Becomes h2 fresh {c = c} ne
        (record { not_run = loose.not_run; not_wait = loose.not_wait })
        (update_same a.cells fresh (some c)) refl in
    let s2 = put fresh c s1 in
    let s3 = record (with_links k s2) { masked = s.masked } in
    let (d, found, same) = cell-found after fresh (update_same a.cells fresh (some c)) in
    let done = Holds-cast s3 after refl in
    (
      s3,
      rw
          (
            tcb_alloc-eq-ok v0 room fresh ne,
            modify-eq-ok s1 ne (update_same s.heap fresh (some (named s.next_tid))),
            ran,
            load-eq-ok s3 ne found,
          )
          (ap (λ n. ok n s3) (ap (λ (y : Tcb). y.tid) same)),
      done,
      Holds-IsTable h1 done (λ p. elim (Bool-cases (p == fresh)) [ inl e ↦ rw e | inr e ↦ rw e ])
          (allocated-IsTable v0 room fresh ne unused) refl refl refl refl,
      entries-allocated v0 room fresh,
      refl,
    )

-- When `mmap` fails `uth_create` returns the invalid TID and changes nothing.
pub create_no_memory :
    (s : Machine) (realloc_ok : Bool) (fresh fn arg stack_size : ℕ)
    → create none realloc_ok fresh fn arg stack_size s ≡ ok tid_invalid s
unfolding create
create_no_memory s realloc_ok fresh fn arg stack_size = refl
