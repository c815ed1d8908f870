-- ===== src/ReadWrite/Stopped.antt =====
-- examples/readers_writers.c: the threads that do not move.
use comp_arch_project.Base.{
  ℕ, ◌+◌, ◌<◌, ◌≡◌, ◌⊎◌, refl, inl, inr, Bool, true, false, ltb, arith, Bool-cases,
}
use comp_arch_project.Program.{Outcome, moves, waits, fails, ends, traps, checked}
use comp_arch_project.Program.Running.{Moves, Keeps, checked-holds}
use comp_arch_project.ReadWrite.{
  Phase, Room, tests, wants_in, checks, sleeps, wakes, enters, works, wants_out, signals, leaves,
  rests, finished, read, write,
}
use comp_arch_project.ReadWrite.Tally.{inside}
use comp_arch_project.ReadWrite.Asleep.{asleep}
use comp_arch_project.ReadWrite.Keeping.{owns}
use comp_arch_project.ReadWrite.Invariant.{IsRoom, holds_lock, waking, roused}
use comp_arch_project.ReadWrite.Steps.{turn}

-- The thread goes on, or traps.
abbrev pub moves_now : Outcome Room → Bool
moves_now (moves s) = true
moves_now waits = false
moves_now fails = false
moves_now ends = false
moves_now traps = true

pub moves_now-Moves :
    (R : Type 0) (I : Room → Type 0) (o : Outcome Room)
    → R
    → Keeps R I o
    → moves_now o ≡ true
    → Moves o
moves_now-Moves R I (moves s) r safe e = (s, refl)
moves_now-Moves R I waits r safe e = absurd (cc e)
moves_now-Moves R I fails r safe e = absurd (cc e)
moves_now-Moves R I ends r safe e = absurd (cc e)
moves_now-Moves R I traps r safe e = absurd (safe r)

checked-moves_now : (v : ℕ) (s : Room) → moves_now (checked v (moves s)) ≡ true
checked-moves_now v s = checked-holds (λ o. moves_now o ≡ true) v (moves s) refl refl

-- The phases of a thread that does not move: it sleeps, has returned, or is at a held mutex.
abbrev pub Still : Phase → (locked : Bool) → Type 0
Still (tests i) locked = ⊥
Still (wants_in i) locked = locked ≡ true
Still (checks i) locked = ⊥
Still (sleeps i) locked = Unit
Still (wakes i) locked = locked ≡ true
Still (enters i) locked = ⊥
Still (works i) locked = ⊥
Still (wants_out i) locked = locked ≡ true
Still (signals i) locked = ⊥
Still (leaves i) locked = ⊥
Still (rests i) locked = ⊥
Still finished locked = Unit

pub Still-outside : (p : Phase) (locked : Bool) → Still p locked → holds_lock p ≡ false
Still-outside (tests i) locked h = absurd h
Still-outside (wants_in i) locked h = refl
Still-outside (checks i) locked h = absurd h
Still-outside (sleeps i) locked h = refl
Still-outside (wakes i) locked h = refl
Still-outside (enters i) locked h = absurd h
Still-outside (works i) locked h = absurd h
Still-outside (wants_out i) locked h = refl
Still-outside (signals i) locked h = absurd h
Still-outside (leaves i) locked h = absurd h
Still-outside (rests i) locked h = absurd h
Still-outside finished locked h = refl

-- With the mutex free it sleeps or has returned.
pub record Idle (p : Phase) : Type 0 where
  pub not_inside : inside p ≡ 0
  pub not_waking : waking p ≡ 0
  pub not_roused : roused p ≡ 0
  pub over : (asleep p ≡ true) ⊎ (p ≡ finished)

pub Still-Idle : (p : Phase) → Still p false → Idle p
Still-Idle (tests i) h = absurd h
Still-Idle (wants_in i) h = absurd (cc h)
Still-Idle (checks i) h = absurd h
Still-Idle (sleeps i) h = record {
  not_inside = refl;
  not_waking = refl;
  not_roused = refl;
  over = inl refl;
}
Still-Idle (wakes i) h = absurd (cc h)
Still-Idle (enters i) h = absurd h
Still-Idle (works i) h = absurd h
Still-Idle (wants_out i) h = absurd (cc h)
Still-Idle (signals i) h = absurd h
Still-Idle (leaves i) h = absurd h
Still-Idle (rests i) h = absurd h
Still-Idle finished h = record {
  not_inside = refl;
  not_waking = refl;
  not_roused = refl;
  over = inr refl;
}

module _ {n nw iters : ℕ} {s : Room} (sane : IsRoom n nw iters s) (t : ℕ) (room : t < n) where
  read-Still :
      (p : Phase) → s.phase t ≡ p → moves_now (read iters t p s) ≡ false → Still p s.lock.locked
  unfolding read
  read-Still (tests i) e still = cc still
  read-Still (wants_in i) e still = ground (arith, still)
  read-Still (checks i) e still = ground (arith, still, owns sane t room (checks i) e refl)
  read-Still (sleeps i) e still = tt
  read-Still (wakes i) e still = ground (arith, still)
  read-Still (enters i) e still = ground (arith, still, owns sane t room (enters i) e refl)
  read-Still (works i) e still = cc still
  read-Still (wants_out i) e still = ground (arith, still)
  read-Still (signals i) e still = cc still
  read-Still (leaves i) e still = ground (arith, still, owns sane t room (leaves i) e refl)
  read-Still (rests i) e still = cc still
  read-Still finished e still = tt

  write-Still :
      (p : Phase) → s.phase t ≡ p → moves_now (write iters t p s) ≡ false → Still p s.lock.locked
  unfolding write
  write-Still (tests i) e still = cc still
  write-Still (wants_in i) e still = ground (arith, still)
  write-Still (checks i) e still = ground (arith, still, owns sane t room (checks i) e refl)
  write-Still (sleeps i) e still = tt
  write-Still (wakes i) e still = ground (arith, still)
  write-Still (enters i) e still = ground (arith, still, owns sane t room (enters i) e refl)
  write-Still (works i) e still = cc (still, checked-moves_now (s.counters.shared_data + 1) _)
  write-Still (wants_out i) e still = ground (arith, still)
  write-Still (signals i) e still = cc still
  write-Still (leaves i) e still = ground (arith, still, owns sane t room (leaves i) e refl)
  write-Still (rests i) e still = cc still
  write-Still finished e still = tt

  pub turn-Still : moves_now (turn nw iters t s) ≡ false → Still (s.phase t) s.lock.locked
  turn-Still still = elim (Bool-cases (ltb t nw)) [
    | inl role ↦ write-Still (s.phase t) refl (rw role at still)
    | inr role ↦ read-Still (s.phase t) refl (rw role at still)
  ]
