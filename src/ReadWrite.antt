-- ===== src/ReadWrite.antt =====
-- examples/readers_writers.c: a lock for readers and writers with preference for writers, from one
-- mutex and two conditions. Every reader and writer is a thread, and a step of one runs from one
-- call of the library to the next. The mutex is as Api has it; a condition is the list of the
-- threads that sleep in it, in order of arrival.
pub mod Tally
pub mod Bounds
pub mod Asleep
pub mod Invariant
pub mod Keeping
pub mod Sleeping
pub mod Rising
pub mod Waking
pub mod Reading
pub mod Writing
pub mod Steps
pub mod Stopped
pub mod Safety
pub mod Measure
pub mod Closing
use comp_arch_project.Base.{
  ℕ, zero, suc, ◌+◌, ◌-◌, ◌*◌, ◌≤◌, ◌<◌, Bool, true, false, ◌||◌, ltb, ◌==◌, if◌then◌else◌, update,
  has, List, [], ◌∷◌, ◌++◌,
}
use comp_arch_project.Machine.{Mutex}
use comp_arch_project.Sem.{int_max}
use comp_arch_project.Program.{
  Outcome, moves, waits, fails, ends, checked, tid_of, taken_by, free_mutex,
}

-- Where a thread is in round `i`: at the test of the loop; at the first `uth_mutex_lock` of
-- `read_lock` or `write_lock`; at the test of the inner loop; asleep in `uth_cond_wait`; woken
-- there, at the mutex; at the `uth_mutex_unlock` behind; in the section; at the `uth_mutex_lock` of
-- `read_unlock` or `write_unlock`; behind the change of the counter; at the last
-- `uth_mutex_unlock`; at the last `uth_yield`; and after the loop.
pub data Phase : Type 0 where
  tests : (i : ℕ) → Phase
  wants_in : (i : ℕ) → Phase
  checks : (i : ℕ) → Phase
  sleeps : (i : ℕ) → Phase
  wakes : (i : ℕ) → Phase
  enters : (i : ℕ) → Phase
  works : (i : ℕ) → Phase
  wants_out : (i : ℕ) → Phase
  signals : (i : ℕ) → Phase
  leaves : (i : ℕ) → Phase
  rests : (i : ℕ) → Phase
  finished : Phase

-- The counters of the lock, and what it guards.
pub record Counters : Type 0 where
  pub active_readers : ℕ
  pub active_writers : ℕ
  pub waiting_writers : ℕ
  pub shared_data : ℕ

pub record Room : Type 0 where
  pub lock : Mutex
  pub can_read : List ℕ
  pub can_write : List ℕ
  pub counters : Counters
  pub phase : ℕ → Phase

abbrev pub goes : ℕ → Phase → Room → Room
goes t p s = record s { phase = update s.phase t p }

abbrev pub woken : Phase → Phase
woken (sleeps i) = wakes i
woken (tests i) = tests i
woken (wants_in i) = wants_in i
woken (checks i) = checks i
woken (wakes i) = wakes i
woken (enters i) = enters i
woken (works i) = works i
woken (wants_out i) = wants_out i
woken (signals i) = signals i
woken (leaves i) = leaves i
woken (rests i) = rests i
woken finished = finished

-- The threads of the list wake.
abbrev pub wake : List ℕ → (ℕ → Phase) → ℕ → Phase
wake l phase t = if has t l then woken (phase t) else phase t

abbrev pub first_of : List ℕ → List ℕ
first_of [] = []
first_of (t ∷ ts) = t ∷ []

abbrev pub rest_of : List ℕ → List ℕ
rest_of [] = []
rest_of (t ∷ ts) = ts

-- `uth_cond_signal(&can_write)` and `uth_cond_broadcast(&can_read)`
abbrev pub signal_writer : Room → Room
signal_writer s = record s {
  can_write = rest_of s.can_write;
  phase = wake (first_of s.can_write) s.phase;
}

abbrev pub broadcast_readers : Room → Room
broadcast_readers s = record s { can_read = []; phase = wake s.can_read s.phase }

-- `uth_mutex_lock(&lock)`, then the counters `c`, and on to `p`
abbrev pub locks_room : ℕ → Counters → Phase → Room → Outcome Room
locks_room t c p s =
    if (s.lock).locked
    then waits
    else moves (goes t p (record s { lock = taken_by t; counters = c }))

-- `uth_mutex_lock(&lock)` and `waiting_writers++`
abbrev pub locks_waiting : (t i : ℕ) → Room → Outcome Room
locks_waiting t i s =
    let c : Counters = s.counters in
    if (s.lock).locked
    then waits
    else checked (c.waiting_writers + 1)
        (locks_room t (record c { waiting_writers = c.waiting_writers + 1 }) (checks i) s)

abbrev pub unlocks_room : ℕ → Phase → Room → Outcome Room
unlocks_room t p s =
    if (s.lock).owner == tid_of t then moves (goes t p (record s { lock = free_mutex })) else fails

-- `uth_cond_wait(&can_read, &lock)` and `uth_cond_wait(&can_write, &lock)`, up to the switch
abbrev pub sleeps_reader : (t i : ℕ) → Room → Outcome Room
sleeps_reader t i s =
    if (s.lock).owner == tid_of t
    then moves (goes t (sleeps i) (record s { lock = free_mutex; can_read = s.can_read ++ t ∷ [] }))
    else fails

abbrev pub sleeps_writer : (t i : ℕ) → Room → Outcome Room
sleeps_writer t i s =
    if (s.lock).owner == tid_of t
    then moves
        (goes t (sleeps i) (record s { lock = free_mutex; can_write = s.can_write ++ t ∷ [] }))
    else fails

-- The tests of the inner loops.
abbrev pub reader_waits : Counters → Bool
reader_waits c = ltb 0 c.active_writers || ltb 0 c.waiting_writers

abbrev pub writer_waits : Counters → Bool
writer_waits c = ltb 0 c.active_readers || ltb 0 c.active_writers

-- A step of the reader `t`: its loop, with `read_lock` and `read_unlock`.
unfoldable pub read : (iters t : ℕ) → Phase → Room → Outcome Room
read iters t (tests i) s = moves (goes t (if ltb i iters then wants_in i else finished) s)
read iters t (wants_in i) s = locks_room t s.counters (checks i) s
read iters t (checks i) s =
    let c : Counters = s.counters in
    if reader_waits c
    then sleeps_reader t i s
    else checked (c.active_readers + 1) (
        moves (
          goes t (enters i)
            (record s { counters = record c { active_readers = c.active_readers + 1 } })))
read iters t (sleeps i) s = waits
read iters t (wakes i) s = locks_room t s.counters (checks i) s
read iters t (enters i) s = unlocks_room t (works i) s
read iters t (works i) s = moves (goes t (wants_out i) s)
read iters t (wants_out i) s =
    let c : Counters = s.counters in
    locks_room t (record c { active_readers = c.active_readers - 1 }) (signals i) s
read iters t (signals i) s =
    moves (goes t (leaves i) (if s.counters.active_readers == 0 then signal_writer s else s))
read iters t (leaves i) s = unlocks_room t (rests i) s
read iters t (rests i) s = moves (goes t (tests (i + 1)) s)
read iters t finished s = ends

-- A step of the writer `t`: its loop, with `write_lock` and `write_unlock`.
unfoldable pub write : (iters t : ℕ) → Phase → Room → Outcome Room
write iters t (tests i) s = moves (goes t (if ltb i iters then wants_in i else finished) s)
write iters t (wants_in i) s = locks_waiting t i s
write iters t (checks i) s =
    let c : Counters = s.counters in
    if writer_waits c
    then sleeps_writer t i s
    else checked (c.active_writers + 1) (
        moves (
          goes t (enters i) (record s {
            counters = record c {
              waiting_writers = c.waiting_writers - 1;
              active_writers = c.active_writers + 1;
            };
          })))
write iters t (sleeps i) s = waits
write iters t (wakes i) s = locks_room t s.counters (checks i) s
write iters t (enters i) s = unlocks_room t (works i) s
write iters t (works i) s =
    let c : Counters = s.counters in
    checked (c.shared_data + 1) (
      moves (
        goes t (wants_out i)
          (record s { counters = record c { shared_data = c.shared_data + 1 } })))
write iters t (wants_out i) s =
    let c : Counters = s.counters in
    locks_room t (record c { active_writers = c.active_writers - 1 }) (signals i) s
write iters t (signals i) s = moves (
    goes t (leaves i)
      (if ltb 0 s.counters.waiting_writers then signal_writer s else broadcast_readers s))
write iters t (leaves i) s = unlocks_room t (rests i) s
write iters t (rests i) s = moves (goes t (tests (i + 1)) s)
write iters t finished s = ends

-- A step of thread `t`: the driver creates the `nw` writers first.
abbrev pub act : (nw iters t : ℕ) → Phase → Room → Outcome Room
act nw iters t p s = if ltb t nw then write iters t p s else read iters t p s

abbrev pub empty_room : Room
empty_room = record {
  lock = free_mutex;
  can_read = [];
  can_write = [];
  counters = record {
    active_readers = 0;
    active_writers = 0;
    waiting_writers = 0;
    shared_data = 0;
  };
  phase = λ t. tests 0;
}

-- The numbers of threads and of all rounds of writers that an `int` holds.
pub record InRange (n nw iters : ℕ) : Type 0 where
  pub threads : n ≤ int_max
  pub written : nw * iters ≤ int_max
