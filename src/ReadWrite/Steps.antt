-- ===== src/ReadWrite/Steps.antt =====
-- examples/readers_writers.c: every step of a reader and of a writer.
use comp_arch_project.Base.{ℕ, ◌≤◌, ◌<◌, refl, inl, inr, ltb, Bool-cases}
use comp_arch_project.Program.{Outcome}
use comp_arch_project.Program.Running.{Keeps}
use comp_arch_project.ReadWrite.{InRange, Room, act}
use comp_arch_project.ReadWrite.Invariant.{IsRoom}
use comp_arch_project.ReadWrite.Reading.{read-Keeps}
use comp_arch_project.ReadWrite.Writing.{write-Keeps}

-- A step of thread `t` from where it is.
abbrev pub turn : (nw iters : ℕ) → ℕ → Room → Outcome Room
turn nw iters t s = act nw iters t (s.phase t) s

module _ {n nw iters : ℕ} {s : Room} (sane : IsRoom n nw iters s) (all : nw ≤ n) (t : ℕ)
    (room : t < n) where
  pub turn-Keeps : Keeps (InRange n nw iters) (IsRoom n nw iters) (turn nw iters t s)
  turn-Keeps = elim (Bool-cases (ltb t nw)) [
    | inl role ↦ rw role (write-Keeps sane all t room (s.phase t) refl role)
    | inr role ↦ rw role (read-Keeps sane all t room (s.phase t) refl role)
  ]
