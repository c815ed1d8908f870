-- ===== src/Tests/Programs.antt =====
-- The theorems on the programs of examples/, applied to runs of three philosophers, of one producer and
-- one consumer, and of one writer and one reader.
use comp_arch_project.Base.{
  ℕ, zero, suc, ◌+◌, ◌-◌, ◌*◌, ◌%◌, ◌≤◌, ◌<◌, ◌≡◌, ◌≢◌, ◌⊎◌, refl, arith, if◌then◌else◌, ltb, ◌++◌,
}
use comp_arch_project.Program.{Outcome, moves, waits, fails, ends, traps, taken_by}
use comp_arch_project.Program.Running.{Run, done, onward, steps, Moves, Finish, NoFault}
use comp_arch_project.Philosophers.{Dinner, act, served, first}
use comp_arch_project.Philosophers.Table.{holds}
use comp_arch_project.Philosophers.Keeping.{turn, forks_held_once}
use comp_arch_project.Philosophers.Finish.{AllServed, dinner-ends}
use comp_arch_project.Buffer
use comp_arch_project.ReadWrite
use comp_arch_project.Buffer.{Market, opened, produce, items_of}
use comp_arch_project.Buffer.Keeping
use comp_arch_project.Buffer.Ring.{window}
use comp_arch_project.Buffer.Safety.{works_alone, items_in_order}
use comp_arch_project.Buffer.Quiet.{IsOver}
use comp_arch_project.Buffer.Closing.{market-closes}
use comp_arch_project.ReadWrite.{Room, empty_room, write}
use comp_arch_project.ReadWrite.Steps
use comp_arch_project.ReadWrite.Safety
use comp_arch_project.ReadWrite.Closing.{room-closes}
use comp_arch_project.ReadWrite.Safety.{writer_alone}

-- What philosopher 0 of three, with one meal each, makes of the first turns.
abbrev turned : Outcome Dinner → Dinner → Dinner
turned (moves d') d = d'
turned waits d = d
turned fails d = d
turned ends d = d
turned traps d = d

-- It has picked up its first fork.
abbrev turns : ℕ → Dinner
turns zero = served
turns (suc k) = turned (turn 3 1 0 (turns k)) (turns k)

started : Run 3 (turn 3 1) served 6 (turns 6)
unfolding act first
started = onward (steps 0 (omega arith) refl) (
    onward (steps 0 (omega arith) refl) (
      onward (steps 0 (omega arith) refl) (
        onward (steps 0 (omega arith) refl)
          (onward (steps 0 (omega arith) refl) (onward (steps 0 (omega arith) refl) done)))))

forks_held_once_example :
    (◌≡◌ {A = ℕ} 0 0)
    × ((turns 6).forks 0 ≡ taken_by 0)
    × (act 3 1 0 ((turns 6).phase 0) (turns 6) ≢ fails)
unfolding act first holds
forks_held_once_example =
    forks_held_once 3 1 (omega arith) started 0 0 0 (omega arith) (omega arith) refl refl

dinner-ends_example :
    (6 ≤ 3 * (13 * 1 + 1))
    × (AllServed 3 1 (turns 6) ⊎ ((i : ℕ) × (i < 3) × Moves (turn 3 1 i (turns 6))))
    × Finish 3 (turn 3 1) (AllServed 3 1) (turns 6)
dinner-ends_example = dinner-ends 3 1 (omega arith) started

-- The producer has the lock, and is about to write.
abbrev sold : Outcome Market → Market → Market
sold (moves m') m = m'
sold waits m = m
sold fails m = m
sold ends m = m
sold traps m = m

abbrev sales : ℕ → Market
sales zero = opened
sales (suc k) = sold (Keeping.turn 1 1 1 0 (sales k)) (sales k)

trading : Run 2 (Keeping.turn 1 1 1) opened 3 (sales 3)
unfolding produce items_of
trading =
    onward (steps 0 (omega arith) refl)
      (onward (steps 0 (omega arith) refl) (onward (steps 0 (omega arith) refl) done))

works_alone_example :
    (◌≡◌ {A = ℕ} 0 0)
    × (if ltb 0 1
        then (sales 3).buffer.items_produced < (sales 3).buffer.items_consumed + 8
        else (sales 3).buffer.items_consumed < (sales 3).buffer.items_produced)
unfolding produce items_of
works_alone_example = works_alone 1 1 1 trading 0 (omega arith) 0 refl 0 (omega arith) refl

-- The producer has put its item.
offering : Run 2 (Keeping.turn 1 1 1) opened 4 (sales 4)
unfolding produce items_of
offering = onward (steps 0 (omega arith) refl) (
    onward (steps 0 (omega arith) refl)
      (onward (steps 0 (omega arith) refl) (onward (steps 0 (omega arith) refl) done)))

items_in_order_example :
    ((sales 4).buffer.printed_in
      ≡ (sales 4).buffer.printed_out
        ++ window
            (sales 4).buffer.buf
            (sales 4).buffer.buf_out
            ((sales 4).buffer.items_produced - (sales 4).buffer.items_consumed))
    × ((sales 4).buffer.buf_in
        ≡ ((sales 4).buffer.buf_out
            + ((sales 4).buffer.items_produced - (sales 4).buffer.items_consumed))
          % 8)
    × ((sales 4).buffer.items_consumed ≤ (sales 4).buffer.items_produced)
    × ((sales 4).buffer.items_produced ≤ (sales 4).buffer.items_consumed + 8)
items_in_order_example = items_in_order 1 1 1 offering

one_item : Buffer.InRange 1 1 1
one_item = record { some = omega arith; total = omega arith; item = omega arith }

market-closes_example :
    (4 ≤ 1 + 1 + 14 * (1 * 1))
    × (IsOver 1 1 1 (sales 4) ⊎ ((t : ℕ) × (t < 2) × Moves (Keeping.turn 1 1 1 t (sales 4))))
    × Finish 2 (Keeping.turn 1 1 1) (IsOver 1 1 1) (sales 4)
    × NoFault 2 (Keeping.turn 1 1 1) (sales 4)
market-closes_example = market-closes 1 1 1 one_item offering

-- The writer has entered.
abbrev shown : Outcome Room → Room → Room
shown (moves s') s = s'
shown waits s = s
shown fails s = s
shown ends s = s
shown traps s = s

abbrev visits : ℕ → Room
visits zero = empty_room
visits (suc k) = shown (Steps.turn 1 1 0 (visits k)) (visits k)

writing : Run 2 (Steps.turn 1 1) empty_room 3 (visits 3)
unfolding write
writing =
    onward (steps 0 (omega arith) refl)
      (onward (steps 0 (omega arith) refl) (onward (steps 0 (omega arith) refl) done))

writer_alone_example :
    (◌≡◌ {A = ℕ} 0 0)
    × ((visits 3).counters.active_writers ≡ 1)
    × ((visits 3).counters.active_readers ≡ 0)
    × (Steps.turn 1 1 0 (visits 3) ≢ fails)
unfolding write
writer_alone_example = writer_alone 1 1 1 writing 0 0 (omega arith) (omega arith) refl refl

one_round : ReadWrite.InRange 2 1 1
one_round = record { threads = omega arith; written = omega arith }

room-closes_example :
    (3 ≤ 2 * ((2 * 2 + 12) * 1 + 1))
    × (Safety.IsOver 1 1 1 (visits 3) ⊎ ((t : ℕ) × (t < 2) × Moves (Steps.turn 1 1 t (visits 3))))
    × Finish 2 (Steps.turn 1 1) (Safety.IsOver 1 1 1) (visits 3)
    × NoFault 2 (Steps.turn 1 1) (visits 3)
room-closes_example = room-closes 1 1 1 one_round writing
