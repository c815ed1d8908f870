-- ===== src/Table/Alloc.antt =====
-- `tcb_alloc` of thread.c on a well-formed thread table.
use comp_arch_project.Base.{
  ℕ, suc, ◌+◌, ◌-◌, ◌*◌, ◌==◌, ◌<◌, ◌^◌, ◌≡◌, ◌∙◌, ap, ◌≢◌, inl, inr, true, false, none, some, List,
  [], ◌∷◌, ◌++◌, arith, length, set, replicate, if◌then◌else◌, Bool-cases, leb, ltb, update,
  update_other, update_same, take-set, take-append, length-append, length-replicate, length-set,
  length-take_of_le,
}
use comp_arch_project.Machine.{Ptr, null, Tid, Tcb, Heap, Machine, ok}
use comp_arch_project.Machine.Access.{not_null}
use comp_arch_project.Table.{unsigned, blank, grown, entries, tcb_alloc}
use comp_arch_project.Table.Valid.{Names, Numbered, IsTable}

abbrev pub named : Tid → Tcb
named tid = record blank { tid = tid }

-- The entries stay what they are when an address that held nothing is filled.
Numbered-fresh :
    (h : Heap) (fresh : Ptr) (c : Tcb) (i : ℕ) (ps : List Ptr)
    → h fresh ≡ none
    → Numbered h i ps
    → Numbered (update h fresh (some c)) i ps
Numbered-fresh h fresh c i [] e n = tt
Numbered-fresh h fresh c i (p ∷ ps) e (inl gone, rest) =
    (inl gone, Numbered-fresh h fresh c (suc i) ps e rest)
Numbered-fresh h fresh c i (p ∷ ps) e (inr v, rest) = (
  inr (record {
    tcb = v.tcb;
    ne_null = v.ne_null;
    found = update_other h fresh (some c) p (λ q. cc (ap h q, v.found, e)) ∙ v.found;
    named = v.named;
  }),
  Numbered-fresh h fresh c (suc i) ps e rest,
)

Numbered-snoc :
    (h : Heap) (i : ℕ) (ps : List Ptr) (p : Ptr)
    → Numbered h i ps
    → Names h p (suc (i + length ps))
    → Numbered h i (ps ++ p ∷ [])
Numbered-snoc h i [] p n e =
    let same : suc (i + 0) ≡ suc i = omega arith in (inr (rw same at e), tt)
Numbered-snoc h i (q ∷ ps) p n e =
    let same : suc (i + suc (length ps)) ≡ suc (suc i + length ps) = omega arith in
    (n.0, Numbered-snoc h (suc i) ps p n.1 (rw same at e))

-- The table with room for one more entry.
abbrev table_with_room : Machine → List Ptr
table_with_room s =
    if leb s.tcb_capacity s.tcb_count
    then s.tcb_table ++ replicate (grown s.tcb_capacity - s.tcb_capacity) null
    else s.tcb_table

abbrev capacity_with_room : Machine → ℕ
capacity_with_room s =
    if leb s.tcb_capacity s.tcb_count then grown s.tcb_capacity else s.tcb_capacity

-- The machine after `tcb_alloc`.
abbrev pub allocated : Ptr → Machine → Machine
allocated fresh s = record s {
  next_tid = unsigned (s.next_tid + 1);
  heap = update s.heap fresh (some (named s.next_tid));
  tcb_table = set (table_with_room s) s.tcb_count fresh;
  tcb_capacity = capacity_with_room s;
  tcb_count = suc s.tcb_count;
}

module _ {s : Machine} (v : IsTable s) (room : s.tcb_count < 2 ^ 31) where
  has_room :
      (length (table_with_room s) ≡ capacity_with_room s)
      × (s.tcb_count < capacity_with_room s)
      × (capacity_with_room s < 2 ^ 32)
  has_room = ground (
    arith,
    v.sized,
    v.fits,
    v.bounded,
    length-append s.tcb_table (replicate (grown s.tcb_capacity - s.tcb_capacity) null),
    length-replicate (grown s.tcb_capacity - s.tcb_capacity) null,
  )

  pub entries-allocated : (fresh : Ptr) → entries (allocated fresh s) ≡ entries s ++ fresh ∷ []
  entries-allocated fresh =
      take-set s.tcb_count (table_with_room s) fresh (omega (arith, has_room))
      ∙ ap (λ ps. ps ++ fresh ∷ [])
          elim (Bool-cases (leb s.tcb_capacity s.tcb_count)) [
            | inl full ↦
                rw full (take-append s.tcb_count s.tcb_table _ (omega (arith, v.sized, v.fits)))
            | inr free ↦ rw free
          ]

  -- The code grows the table when it is full, and then writes the entry.
  pub tcb_alloc-eq-ok :
      (fresh : Ptr) → fresh ≢ null → tcb_alloc true fresh s ≡ ok fresh (allocated fresh s)
  unfolding tcb_alloc
  tcb_alloc-eq-ok fresh ne =
      let wrap : unsigned (s.tcb_count + 1) ≡ suc s.tcb_count = omega arith in
      elim (Bool-cases (leb s.tcb_capacity s.tcb_count)) [
        | inl full ↦
            let grows : ltb (grown s.tcb_capacity) s.tcb_capacity ≡ false = ground arith in
            rw (full, grows, not_null ne, wrap)
        | inr free ↦ rw (free, not_null ne, wrap)
      ]

  -- `tcb_alloc` appends the new TCB to the table, which stays well-formed, under the TID that is one
  -- more than the number of threads that there have been.
  pub allocated-IsTable :
      (fresh : Ptr) → fresh ≢ null → s.heap fresh ≡ none → IsTable (allocated fresh s)
  allocated-IsTable fresh ne unused = record {
    sized = length-set (table_with_room s) s.tcb_count fresh ∙ has_room.0;
    fits = omega (arith, has_room);
    bounded = omega (arith, has_room);
    next_number = omega (arith, v.next_number);
    numbered = rw (entries-allocated fresh) (
        Numbered-snoc _ 0 (entries s) fresh
          (Numbered-fresh s.heap fresh (named s.next_tid) 0 (entries s) unused v.numbered)
          (record {
            tcb = named s.next_tid;
            ne_null = ne;
            found = update_same s.heap fresh (some (named s.next_tid));
            named = omega (
              arith,
              v.next_number,
              length-take_of_le s.tcb_count s.tcb_table (omega (arith, v.sized, v.fits)),
            );
          }));
  }

-- The capacity for one entry more: it is doubled when the table is full, and 64 at first.
abbrev pub room_for : (capacity count : ℕ) → ℕ
room_for capacity count =
    if leb capacity count then (if capacity == 0 then 64 else 2 * capacity) else capacity

-- With a well-formed thread table of fewer than 2 ^ 31 entries, and memory from `realloc` and, at
-- an address that held nothing, from `calloc`: `tcb_alloc` appends the new TCB to the table, whose
-- capacity doubles first if it is full, from 0 to 64, and else stays as it is, with as many cells
-- as the capacity says; the table stays well-formed, and the TID is one more than the number of
-- threads that there have been.
pub tcb_alloc-appends :
    {s : Machine} (v : IsTable s) (fresh : Ptr)
    → s.tcb_count < 2 ^ 31
    → fresh ≢ null
    → s.heap fresh ≡ none
    → (s' : Machine) × (tcb_alloc true fresh s ≡ ok fresh s')
      × IsTable s'
      × (entries s' ≡ entries s ++ fresh ∷ [])
      × (s'.heap fresh ≡ some (named (s.tcb_count + 1)))
      × (s'.tcb_capacity ≡ room_for s.tcb_capacity s.tcb_count)
      × (length s'.tcb_table ≡ s'.tcb_capacity)
tcb_alloc-appends {s} v fresh room ne unused = (
  allocated fresh s,
  tcb_alloc-eq-ok v room fresh ne,
  allocated-IsTable v room fresh ne unused,
  entries-allocated v room fresh,
  update_same s.heap fresh (some (named s.next_tid))
      ∙ ap (λ n. some (named n)) (omega (arith, v.next_number)),
  ground (arith, v.sized, v.fits),
  (allocated-IsTable v room fresh ne unused).sized,
)
