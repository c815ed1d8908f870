-- ===== src/Table/Listed.antt =====
-- The entries of the thread table that `tcb_alloc` makes for the TCBs, and the lengths of the queues.
use comp_arch_project.Base.{
  suc, ◌≤◌, ◌≡◌, true, false, some, List, [], ◌∷◌, arith, has, AllDistinct, length,
  length-take_of_le, ◌==◌, if◌then◌else◌, Option-cases, inl, inr, ap,
}
use comp_arch_project.Machine.{Ptr, State, Tcb, Machine}
use comp_arch_project.Table.{entries}
use comp_arch_project.Table.Valid.{IsTable}
use comp_arch_project.Queue.Spec.{Queues, Holds, state_at}
use comp_arch_project.Queue.Valid.{state_of}

abbrev pub Listed : Machine → Queues → Type 0
Listed s a = (p : Ptr) (c : Tcb) → a.cells p ≡ some c → has p (entries s) ≡ true

-- The list without the first occurrence of `x`.
abbrev drop_first : Ptr → List Ptr → List Ptr
drop_first x [] = []
drop_first x (y ∷ ys) = let rest = drop_first x ys in if x == y then ys else y ∷ rest

length-drop_first :
    (x : Ptr) (ys : List Ptr) → has x ys ≡ true → length ys ≡ suc (length (drop_first x ys))
length-drop_first x [] i = cc
length-drop_first x (y ∷ ys) i = ground (arith, length-drop_first x ys)

has-drop_first :
    (x z : Ptr) (ys : List Ptr)
    → (z == x) ≡ false
    → has z ys ≡ true
    → has z (drop_first x ys) ≡ true
has-drop_first x z [] ne i = i
has-drop_first x z (y ∷ ys) ne i = ground (arith, has-drop_first x z ys ne)

-- Distinct elements of a list are no more than the list has.
distinct_short :
    (xs ys : List Ptr)
    → AllDistinct xs
    → ((z : Ptr) → has z xs ≡ true → has z ys ≡ true)
    → length xs ≤ length ys
distinct_short [] ys d within = omega arith
distinct_short (x ∷ xs) ys (out, d) within =
    let here = length-drop_first x ys (within x (ground arith)) in
    let rest =
      distinct_short xs (drop_first x ys) d
        λ z i. has-drop_first x z ys (ground arith) (within z (ground arith)) in
    omega arith

-- A thread of which the state is known has an entry.
pub state-Listed :
    (s : Machine) (a : Queues)
    → Listed s a
    → (p : Ptr) {st : State} → state_at a.cells p ≡ some st
    → has p (entries s) ≡ true
state-Listed s a all p e = elim (Option-cases (a.cells p)) [
  | inl gone ↦ cc (e, ap state_of gone)
  | inr (c, found) ↦ all p c found
]

entries_short : {s : Machine} → IsTable s → length (entries s) ≤ s.tcb_count
entries_short {s} v =
    let short : s.tcb_count ≤ length s.tcb_table = omega (arith, v.sized, v.fits) in
    omega (arith, length-take_of_le s.tcb_count s.tcb_table short)

module _ {s : Machine} {a : Queues} (h : Holds s a) (v : IsTable s) (all : Listed s a) where
  -- With well-formed queues and a well-formed thread table in which every TCB has an entry, no wait
  -- queue is longer than the number of entries, which is the fuel of the loops over a queue.
  pub wait_short : (q : Ptr) → length (a.wait q) ≤ s.tcb_count
  wait_short q =
      let short =
        distinct_short (a.wait q) (entries s) (h.valid.wait_distinct q)
          (λ z i. state-Listed s a all z (h.valid.wait_blocked q z i)) in
      omega (arith, entries_short v)
