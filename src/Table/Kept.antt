-- ===== src/Table/Kept.antt =====
-- Changes to the heap that keep the thread table well-formed: those that leave every TID alone.
use comp_arch_project.Base.{
  ℕ, suc, ◌≡◌, refl, sym, ◌∙◌, ap, inl, inr, Option, none, some, List, [], ◌∷◌, Option-cases,
}
use comp_arch_project.Machine.{Ptr, Tid, Tcb, Heap, Machine}
use comp_arch_project.Table.{entries}
use comp_arch_project.Table.Valid.{Names, Numbered, IsTable}
use comp_arch_project.Queue.Spec.{Queues, Holds}
use comp_arch_project.Queue.Push.{view}

abbrev pub tid_in : Option Tcb → Option Tid
tid_in o = elim o [ none ↦ none | some c ↦ some c.tid ]

Names-kept :
    (h g : Heap) (p : Ptr) (tid : Tid) → tid_in (g p) ≡ tid_in (h p) → Names h p tid → Names g p tid
Names-kept h g p tid same e = elim (Option-cases (g p)) [
  | inl gone ↦ cc (same, ap tid_in gone, ap tid_in e.found)
  | inr (d, found) ↦ record {
    tcb = d;
    ne_null = e.ne_null;
    found = found;
    named = cc (same, ap tid_in found, ap tid_in e.found, e.named);
  }
]

pub Numbered-kept :
    (h g : Heap) (i : ℕ) (ps : List Ptr)
    → ((p : Ptr) → tid_in (g p) ≡ tid_in (h p))
    → Numbered h i ps
    → Numbered g i ps
Numbered-kept h g i [] same v = tt
Numbered-kept h g i (p ∷ ps) same (inl gone, rest) =
    (inl gone, Numbered-kept h g (suc i) ps same rest)
Numbered-kept h g i (p ∷ ps) same (inr e, rest) =
    (inr (Names-kept h g p (suc i) (same p) e), Numbered-kept h g (suc i) ps same rest)

tid_in-view : (o : Option Tcb) → tid_in (view o) ≡ tid_in o
tid_in-view none = refl
tid_in-view (some c) = refl

-- Two machines with one table, whose queues' cells have the same TIDs.
pub Holds-IsTable :
    {s s' : Machine} {a b : Queues}
    → Holds s a
    → Holds s' b
    → ((p : Ptr) → tid_in (b.cells p) ≡ tid_in (a.cells p))
    → IsTable s
    → s'.tcb_table ≡ s.tcb_table
    → s'.tcb_capacity ≡ s.tcb_capacity
    → s'.tcb_count ≡ s.tcb_count
    → s'.next_tid ≡ s.next_tid
    → IsTable s'
Holds-IsTable {s} {s'} h h' same v table capacity count next = record {
  sized = rw (table, capacity) v.sized;
  fits = rw (count, capacity) v.fits;
  bounded = rw capacity v.bounded;
  next_number = rw (next, count) v.next_number;
  numbered =
      rw (table, count)
        (Numbered-kept s.heap s'.heap 0 (entries s)
          (λ p.
            sym (tid_in-view (s'.heap p))
            ∙ ap tid_in (h'.content p)
            ∙ same p
            ∙ sym (ap tid_in (h.content p))
            ∙ tid_in-view (s.heap p))
          v.numbered);
}
