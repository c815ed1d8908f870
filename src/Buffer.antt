-- ===== src/Buffer.antt =====
-- examples/producer_consumer.c: producers and consumers over a ring of eight cells. Every one is a
-- thread, and a step of one runs from one call of the library to the next. Semaphores and the
-- mutex are as Api has them; a thread with no permit, or at a held mutex, waits. An `int` that overflows is a trap.
pub mod Ring
pub mod Counts
pub mod Keeping
pub mod Totals
pub mod Bounds
pub mod Steps
pub mod Safety
pub mod Stopped
pub mod Quiet
pub mod Closing
use comp_arch_project.Base.{
  ℕ, zero, suc, ◌+◌, ◌-◌, ◌*◌, ◌/◌, ◌%◌, Bool, true, false, ◌||◌, ◌<◌, ◌≤◌, ltb, ◌==◌,
  if◌then◌else◌, update, List, [], ◌∷◌, ◌++◌,
}
use comp_arch_project.Machine.{Mutex}
use comp_arch_project.Sem.{int_max}
use comp_arch_project.Program.{
  Outcome, moves, waits, fails, ends, traps, checked, tid_of, taken_by, free_mutex,
}

-- `buf`, `buf_in`, `buf_out`, the two counters, and the items that have been printed as produced
-- and as consumed.
pub record Buffer : Type 0 where
  pub buf : ℕ → ℕ
  pub buf_in : ℕ
  pub buf_out : ℕ
  pub items_produced : ℕ
  pub items_consumed : ℕ
  pub printed_in : List ℕ
  pub printed_out : List ℕ

-- Where a thread is in round `i`: at the test of the loop, at `uth_sem_wait`, at `uth_mutex_lock`,
-- behind it, at `uth_mutex_unlock`, at `uth_sem_post`, at `uth_yield`, and after the loop.
pub data Phase : Type 0 where
  tests : (i : ℕ) → Phase
  wants_permit : (i : ℕ) → Phase
  wants_lock : (i : ℕ) → Phase
  works : (i : ℕ) → Phase
  unlocks : (i : ℕ) → Phase
  posts : (i : ℕ) → Phase
  rests : (i : ℕ) → Phase
  finished : Phase

pub record Market : Type 0 where
  pub buffer : Buffer
  pub empty : ℕ
  pub full : ℕ
  pub buf_lock : Mutex
  pub phase : ℕ → Phase

-- `BUFFER_SIZE` is 8.
abbrev pub puts : ℕ → Buffer → Buffer
puts item b = record {
  buf = update b.buf b.buf_in item;
  buf_in = (b.buf_in + 1) % 8;
  buf_out = b.buf_out;
  items_produced = b.items_produced + 1;
  items_consumed = b.items_consumed;
  printed_in = b.printed_in ++ item ∷ [];
  printed_out = b.printed_out;
}

abbrev pub gets : Buffer → Buffer
gets b = record {
  buf = b.buf;
  buf_in = b.buf_in;
  buf_out = (b.buf_out + 1) % 8;
  items_produced = b.items_produced;
  items_consumed = b.items_consumed + 1;
  printed_in = b.printed_in;
  printed_out = b.printed_out ++ b.buf b.buf_out ∷ [];
}

abbrev pub goes : ℕ → Phase → Market → Market
goes t p m = record m { phase = update m.phase t p }

-- `uth_sem_wait(&empty)` and `uth_sem_wait(&full)`, and on to `p`
abbrev pub takes_empty : ℕ → Phase → Market → Outcome Market
takes_empty t p m =
    if m.empty == 0 then waits else moves (goes t p (record m { empty = m.empty - 1 }))

abbrev pub takes_full : ℕ → Phase → Market → Outcome Market
takes_full t p m = if m.full == 0 then waits else moves (goes t p (record m { full = m.full - 1 }))

abbrev pub locks_buffer : ℕ → Phase → Market → Outcome Market
locks_buffer t p m =
    if (m.buf_lock).locked then waits else moves (goes t p (record m { buf_lock = taken_by t }))

abbrev pub unlocks_buffer : ℕ → Phase → Market → Outcome Market
unlocks_buffer t p m =
    if (m.buf_lock).owner == tid_of t
    then moves (goes t p (record m { buf_lock = free_mutex }))
    else fails

-- A step of the producer `t` of `count` items.
unfoldable pub produce : (count t : ℕ) → Phase → Market → Outcome Market
produce count t (tests i) m =
    if ltb i count
    then checked (t * 1000 + i) (moves (goes t (wants_permit i) m))
    else moves (goes t finished m)
produce count t (wants_permit i) m = takes_empty t (wants_lock i) m
produce count t (wants_lock i) m = locks_buffer t (works i) m
produce count t (works i) m =
    checked (m.buffer.items_produced + 1)
      (moves (goes t (unlocks i) (record m { buffer = puts (t * 1000 + i) m.buffer })))
produce count t (unlocks i) m = unlocks_buffer t (posts i) m
produce count t (posts i) m = moves (goes t (rests i) (record m { full = m.full + 1 }))
produce count t (rests i) m = moves (goes t (tests (i + 1)) m)
produce count t finished m = ends

-- A step of the consumer `t` of `count` items.
unfoldable pub consume : (count t : ℕ) → Phase → Market → Outcome Market
consume count t (tests i) m = moves (goes t (if ltb i count then wants_permit i else finished) m)
consume count t (wants_permit i) m = takes_full t (wants_lock i) m
consume count t (wants_lock i) m = locks_buffer t (works i) m
consume count t (works i) m =
    checked (m.buffer.items_consumed + 1)
      (moves (goes t (unlocks i) (record m { buffer = gets m.buffer })))
consume count t (unlocks i) m = unlocks_buffer t (posts i) m
consume count t (posts i) m = moves (goes t (rests i) (record m { empty = m.empty + 1 }))
consume count t (rests i) m = moves (goes t (tests (i + 1)) m)
consume count t finished m = ends

-- The `items` that the driver gives thread `t`: `np` producers with `ni` items each, and `nc`
-- consumers who share them.
unfoldable pub items_of : (np nc ni t : ℕ) → ℕ
items_of np nc ni t =
    if ltb t np then ni else np * ni / nc + (if ltb (t - np) (np * ni % nc) then 1 else 0)

-- The driver traps before it creates a thread: it divides by `g_nc`, and `total` is an `int`.
abbrev pub driver_traps : (np nc ni : ℕ) → Bool
driver_traps np nc ni = (nc == 0) || ltb int_max (np * ni)

-- A step of thread `t`: the first `np` are producers.
abbrev pub act : (np nc ni t : ℕ) → Phase → Market → Outcome Market
act np nc ni t p m =
    if driver_traps np nc ni
    then traps
    else (if ltb t np
        then produce (items_of np nc ni t) t p m
        else consume (items_of np nc ni t) t p m)

-- The arguments for which no `int` overflows, and there is a consumer.
pub record InRange (np nc ni : ℕ) : Type 0 where
  pub some : 0 < nc
  pub total : np * ni ≤ int_max
  pub item : np * 1000 + ni ≤ int_max

abbrev pub opened : Market
opened = record {
  buffer = record {
    buf = λ k. 0;
    buf_in = 0;
    buf_out = 0;
    items_produced = 0;
    items_consumed = 0;
    printed_in = [];
    printed_out = [];
  };
  empty = 8;
  full = 0;
  buf_lock = free_mutex;
  phase = λ t. tests 0;
}
