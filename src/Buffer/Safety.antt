-- ===== src/Buffer/Safety.antt =====
-- The buffer of examples/producer_consumer.c over the runs of the program.
use comp_arch_project.Base.{
  ℕ, ◌+◌, ◌-◌, ◌≤◌, ◌<◌, ◌≡◌, ◌≢◌, refl, ap, subst, inl, inr, true, if◌then◌else◌, ltb, arith, ◌++◌,
  List, ap, ◌%◌, ◌∙◌, Bool-cases,
}
use comp_arch_project.Base.Sums.{sum-zero}
use comp_arch_project.Program.{fails}
use comp_arch_project.Program.Running.{Keeps, Run, Run-keeps}
use comp_arch_project.Program.Guarded.{one_inside}
use comp_arch_project.Buffer.{InRange, Market, works, opened, Phase}
use comp_arch_project.Buffer.Ring.{window, window-turn}
use comp_arch_project.Buffer.Counts.{taking, has_put, putting, has_taken, made, used}
use comp_arch_project.Buffer.Keeping.{IsStocked, turn, in_section}
use comp_arch_project.Buffer.Steps.{act-Sound, room_left, item_left}

pub opened-IsStocked : (np nc ni : ℕ) → IsStocked np nc ni opened
opened-IsStocked np nc ni =
    let zero_sum = λ (weight : ℕ → Phase → ℕ) (none : (t : ℕ) → weight t (opened.phase t) ≡ 0).
      sum-zero (np + nc) weight opened.phase (λ t lt. none t) in
    record {
      counts = record {
        fulls = omega (
          arith,
          zero_sum (taking np) (λ t. ground arith),
          zero_sum (has_put np) (λ t. ground arith),
        );
        empties = omega (
          arith,
          zero_sum (putting np) (λ t. ground arith),
          zero_sum (has_taken np) (λ t. ground arith),
        );
        makes = zero_sum (made np nc ni) (λ t. ground arith);
        uses = zero_sum (used np nc ni) (λ t. ground arith);
        fit = λ t lt. omega arith;
      };
      ring = record { order = omega arith; ins = refl; outs = refl; queue = refl };
      guarded = record { mine = λ t lt h. absurd (cc h); owned = λ h. absurd (cc h) };
    }

module _ (np nc ni : ℕ) where
  pub turn-Keeps :
      (m : Market)
      → IsStocked np nc ni m
      → (t : ℕ) → t < np + nc
      → Keeps (InRange np nc ni) (IsStocked np nc ni) (turn np nc ni t m)
  turn-Keeps m stocked t lt = act-Sound stocked t lt

  pub opened-Run-IsStocked :
      {k : ℕ} {m : Market} → Run (np + nc) (turn np nc ni) opened k m → IsStocked np nc ni m
  opened-Run-IsStocked run =
      Run-keeps (InRange np nc ni) (IsStocked np nc ni) turn-Keeps (opened-IsStocked np nc ni) run

  -- After every run of the producers and consumers from the start, the ring is a first-in, first-
  -- out queue of at most 8 items: the items that were produced are those that were consumed, in the
  -- same order, and then those in the cells from `buf_out` on, around the ring; `buf_in` is as many
  -- cells behind `buf_out` as there are items.
  pub items_in_order :
      {k : ℕ} {m : Market}
      → Run (np + nc) (turn np nc ni) opened k m
      → (m.buffer.printed_in
          ≡ m.buffer.printed_out
            ++ window m.buffer.buf m.buffer.buf_out
                (m.buffer.items_produced - m.buffer.items_consumed))
        × (m.buffer.buf_in
            ≡ (m.buffer.buf_out + (m.buffer.items_produced - m.buffer.items_consumed)) % 8)
        × (m.buffer.items_consumed ≤ m.buffer.items_produced)
        × (m.buffer.items_produced ≤ m.buffer.items_consumed + 8)
  items_in_order {m = m} run =
      let stocked = opened-Run-IsStocked run in
      let b = m.buffer in
      let ring = stocked.ring in
      (
        ring.queue
            ∙ ap (λ (ys : List ℕ). b.printed_out ++ ys)
                (window-turn b.buf b.items_consumed b.buf_out (b.items_produced - b.items_consumed)
                  (omega (arith, ring.outs))),
        omega (arith, ring.ins, ring.outs, ring.order),
        ring.order,
        omega (arith, stocked.counts.empties),
      )

  module _ {k : ℕ} {m : Market} (run : Run (np + nc) (turn np nc ni) opened k m) where
    -- After every run of the producers and consumers from the start: a thread that is about to
    -- change the ring is the only thread that has the lock of the buffer; a producer then has a
    -- free cell, and a consumer an item.
    pub works_alone :
        (t : ℕ)
        → t < np + nc
        → (i : ℕ) → m.phase t ≡ works i
        → (j : ℕ) → j < np + nc
        → in_section (m.phase j) ≡ true
        → (t ≡ j)
          × (if ltb t np
              then m.buffer.items_produced < m.buffer.items_consumed + 8
              else m.buffer.items_consumed < m.buffer.items_produced)
    works_alone t lt i e j lt' inside =
        let stocked = opened-Run-IsStocked run in
        (
          one_inside stocked.guarded t j lt lt' (ap in_section e) inside,
          elim (Bool-cases (ltb t np)) [
            | inl role ↦ rw role (room_left stocked t lt i e role)
            | inr role ↦ rw role (item_left stocked t lt i e role)
          ],
        )

    pub unlock_succeeds : (t : ℕ) → t < np + nc → turn np nc ni t m ≢ fails
    unlock_succeeds t lt e =
        let stocked = opened-Run-IsStocked run in
        subst (Keeps (InRange np nc ni) (IsStocked np nc ni)) e (turn-Keeps m stocked t lt)
