-- ===== src/Table.antt =====
-- The thread table of thread.c: `tcb_alloc`, `tcb_find`, `tcb_free`, and the count of live threads.
-- What `realloc` and `calloc` return is an argument.
pub mod Valid
pub mod Alloc
pub mod Free
pub mod Kept
pub mod Live
pub mod Listed
use comp_arch_project.Base.{
  ℕ, zero, suc, ◌+◌, ◌-◌, ◌*◌, ◌%◌, ◌^◌, Bool, true, false, none, List, [], ◌∷◌, ◌++◌, leb, ltb,
  ◌==◌, if◌then◌else◌, update, some, set, take, replicate,
}
use comp_arch_project.Machine.{
  Ptr, null, Tid, State, ready, zombie, Tcb, Machine, bad_pointer, exit_failure, Cmd, pure, stop,
  ◌>>=◌, ◌>>◌, get, assign, load,
}

abbrev pub unsigned : ℕ → ℕ
unsigned n = n % 2 ^ 32

-- what `calloc` leaves in a new TCB
abbrev pub blank : Tcb
blank = record {
  tid = 0;
  state = ready;
  ctx = record { frames = []; mask = false };
  stack = null;
  stack_size = 0;
  fn = 0;
  arg = 0;
  retval = 0;
  next = null;
  joiner = null;
  ticket = 0;
}

abbrev pub grown : ℕ → ℕ
grown capacity = if capacity == 0 then 64 else unsigned (capacity * 2)

-- The growth of the table. Past 2 ^ 31 entries the new capacity wraps round, and `memset` writes
-- outside the block.
unfoldable pub table_grow : (realloc_ok : Bool) → Cmd (Unit {0})
table_grow realloc_ok = do
  capacity ← get (λ s. s.tcb_capacity)
  let newcap = grown capacity
  if realloc_ok then pure tt else stop exit_failure
  if ltb newcap capacity
      then stop bad_pointer
      else assign (λ s. record s {
        tcb_table = s.tcb_table ++ replicate (newcap - capacity) null;
        tcb_capacity = newcap;
      })

-- `tcb_alloc`; `fresh` is what `calloc` returns
unfoldable pub tcb_alloc : (realloc_ok : Bool) (fresh : Ptr) → Cmd Ptr
unfolding table_grow
tcb_alloc realloc_ok fresh = do
  count ← get (λ s. s.tcb_count)
  capacity ← get (λ s. s.tcb_capacity)
  if leb capacity count then table_grow realloc_ok else pure tt
  if fresh == null then stop exit_failure else pure tt
  tid ← get (λ s. s.next_tid)
  assign (λ s. record s {
    next_tid = unsigned (tid + 1);
    heap = update s.heap fresh (some (record blank { tid = tid }));
    tcb_table = set s.tcb_table count fresh;
    tcb_count = unsigned (count + 1);
  })
  pure fresh

-- the entries that the loops over the table visit
abbrev pub entries : Machine → List Ptr
entries s = take s.tcb_count s.tcb_table

unfoldable pub find_in : List Ptr → Tid → Cmd Ptr
find_in [] tid = pure null
find_in (p ∷ ps) tid =
    if p == null
    then find_in ps tid
    else do c ← load p; if c.tid == tid then pure p else find_in ps tid

-- `tcb_find`
unfoldable pub tcb_find : Tid → Cmd Ptr
unfolding find_in
tcb_find tid = do ps ← get entries; find_in ps tid

-- the first of the `n` leading entries that is `t` becomes `NULL`
unfoldable pub clear_entry : (n : ℕ) → Ptr → List Ptr → List Ptr
clear_entry zero t ps = ps
clear_entry (suc n) t [] = []
clear_entry (suc n) t (p ∷ ps) = if p == t then null ∷ ps else p ∷ clear_entry n t ps

-- `tcb_free`
unfoldable pub tcb_free : Ptr → Cmd (Unit {0})
unfolding clear_entry
tcb_free t = do
  assign (λ s. record s { tcb_table = clear_entry s.tcb_count t s.tcb_table })
  c ← load t
  if c.stack == null then pure tt else assign (λ s. record s { mapped = update s.mapped c.stack 0 })
  assign (λ s. record s { heap = update s.heap t none })

abbrev pub is_zombie : State → Bool
is_zombie zombie = true
is_zombie _ = false

-- the threads of the table that are not zombies, as `uth_active_count` and `scheduler_loop` count
unfoldable pub live_in : List Ptr → ℕ → Cmd ℕ
live_in [] n = pure n
live_in (p ∷ ps) n =
    if p == null
    then live_in ps n
    else do c ← load p; live_in ps (if is_zombie c.state then n else n + 1)

-- `uth_active_count`
unfoldable pub active_count : Cmd ℕ
unfolding live_in
active_count = do ps ← get entries; live_in ps 0
