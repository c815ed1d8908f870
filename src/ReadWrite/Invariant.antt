-- ===== src/ReadWrite/Invariant.antt =====
-- examples/readers_writers.c: what holds between two steps.
use comp_arch_project.Base.{ℕ, ◌+◌, ◌≤◌, ◌≡◌, Bool, true, false, ◌&&◌, not, ltb}
use comp_arch_project.Base.Sums.{sum}
use comp_arch_project.Program.Guarded.{IsGuarded}
use comp_arch_project.ReadWrite.{
  Phase, Counters, Room, tests, wants_in, checks, sleeps, wakes, enters, works, wants_out, signals,
  leaves, rests, finished,
}
use comp_arch_project.ReadWrite.Tally.{Tally, writer}
use comp_arch_project.ReadWrite.Asleep.{IsQueue, asleep}

-- The thread has the mutex.
abbrev pub holds_lock : Phase → Bool
holds_lock (checks i) = true
holds_lock (enters i) = true
holds_lock (signals i) = true
holds_lock (leaves i) = true
holds_lock (tests i) = false
holds_lock (wants_in i) = false
holds_lock (sleeps i) = false
holds_lock (wakes i) = false
holds_lock (works i) = false
holds_lock (wants_out i) = false
holds_lock (rests i) = false
holds_lock finished = false

-- The thread is about to wake others.
abbrev pub waking : Phase → ℕ
waking (signals i) = 1
waking (tests i) = 0
waking (wants_in i) = 0
waking (checks i) = 0
waking (sleeps i) = 0
waking (wakes i) = 0
waking (enters i) = 0
waking (works i) = 0
waking (wants_out i) = 0
waking (leaves i) = 0
waking (rests i) = 0
waking finished = 0

-- The thread waits, and is not asleep.
abbrev pub roused : Phase → ℕ
roused (checks i) = 1
roused (wakes i) = 1
roused (signals i) = 0
roused (tests i) = 0
roused (wants_in i) = 0
roused (sleeps i) = 0
roused (enters i) = 0
roused (works i) = 0
roused (wants_out i) = 0
roused (leaves i) = 0
roused (rests i) = 0
roused finished = 0

abbrev pub reader_asleep : (nw : ℕ) → (ℕ → Phase) → ℕ → Bool
reader_asleep nw phase t = not (ltb t nw) && asleep (phase t)

abbrev pub writer_asleep : (nw : ℕ) → (ℕ → Phase) → ℕ → Bool
writer_asleep nw phase t = ltb t nw && asleep (phase t)

-- The threads that will wake a writer, and a reader.
abbrev pub for_writers : (n nw : ℕ) → Counters → (ℕ → Phase) → ℕ
for_writers n nw c phase =
    c.active_readers
    + c.active_writers
    + sum n (λ t p. waking p) phase
    + sum n (λ t p. writer nw t (roused p)) phase

abbrev pub for_readers : (n nw : ℕ) → Counters → (ℕ → Phase) → ℕ
for_readers n nw c phase =
    c.active_writers + c.waiting_writers + sum n (λ t p. writer nw t (waking p)) phase

-- What holds between two steps of `n` threads, of which `nw` are writers. No wake-up is lost:
-- while a thread sleeps there is another that will wake it.
pub record IsRoom (n nw iters : ℕ) (s : Room) : Type 0 where
  pub tally : Tally n nw iters s.counters s.phase
  pub guarded : IsGuarded n s.lock (λ t. holds_lock (s.phase t))
  pub readers : IsQueue (reader_asleep nw s.phase) s.can_read
  pub writers : IsQueue (writer_asleep nw s.phase) s.can_write
  pub will_write :
      (t : ℕ) → writer_asleep nw s.phase t ≡ true → 1 ≤ for_writers n nw s.counters s.phase
  pub will_read :
      (t : ℕ) → reader_asleep nw s.phase t ≡ true → 1 ≤ for_readers n nw s.counters s.phase
