-- ===== src/Table/Valid.antt =====
-- The well-formedness of the thread table: the entry at index `i` is `NULL`, or a TCB whose TID is
-- `i + 1`.
use comp_arch_project.Base.{
  ℕ, zero, suc, ◌+◌, ◌≤◌, ◌<◌, ◌^◌, ◌≡◌, refl, ◌∙◌, ap, ◌≢◌, ◌⊎◌, inl, inr, some, List, [], ◌∷◌,
  arith, length, get_or, ◌==◌, if◌then◌else◌, Bool-cases,
}
use comp_arch_project.Machine.{Ptr, null, Tid, Tcb, Heap, Machine, ok}
use comp_arch_project.Machine.Access.{not_null, load-eq-ok}
use comp_arch_project.Table.{unsigned, entries, find_in, tcb_find}

pub record Names (h : Heap) (p : Ptr) (tid : Tid) : Type 0 where
  pub tcb : Tcb
  pub ne_null : p ≢ null
  pub found : h p ≡ some tcb
  pub named : tcb.tid ≡ tid

-- The entries from index `i` on.
abbrev pub Numbered : Heap → ℕ → List Ptr → Type 0
Numbered h i [] = Unit
Numbered h i (p ∷ ps) = ((p ≡ null) ⊎ Names h p (suc i)) × Numbered h (suc i) ps

pub record IsTable (s : Machine) : Type 0 where
  pub sized : length s.tcb_table ≡ s.tcb_capacity
  pub fits : s.tcb_count ≤ s.tcb_capacity
  pub bounded : s.tcb_capacity < 2 ^ 32
  pub next_number : s.next_tid ≡ unsigned (s.tcb_count + 1)
  pub numbered : Numbered s.heap 0 (entries s)

-- The entry for a TID among those from index `i` on.
abbrev pub slot_from : ℕ → List Ptr → Tid → Ptr
slot_from i [] tid = null
slot_from i (p ∷ ps) tid = if tid == suc i then p else slot_from (suc i) ps tid

slot_from-below : (i : ℕ) (ps : List Ptr) (tid : Tid) → tid ≤ i → slot_from i ps tid ≡ null
slot_from-below i [] tid h = refl
slot_from-below i (p ∷ ps) tid h = ground (arith, slot_from-below (suc i) ps tid)

slot_from-get_or : (i : ℕ) (ps : List Ptr) (k : ℕ) → slot_from i ps (suc (i + k)) ≡ get_or ps k null
slot_from-get_or i [] k = refl
slot_from-get_or i (p ∷ ps) zero = ground arith
slot_from-get_or i (p ∷ ps) (suc k) =
    let next = slot_from-get_or (suc i) ps k in
    let same : suc (i + suc k) ≡ suc (suc i + k) = omega arith in rw same (ground (arith, next))

find_in-slot :
    (s : Machine) (i : ℕ) (ps : List Ptr) (tid : Tid)
    → Numbered s.heap i ps
    → find_in ps tid s ≡ ok (slot_from i ps tid) s
unfolding find_in
find_in-slot s i [] tid n = refl
find_in-slot s i (p ∷ ps) tid (inl gone, rest) =
    rw (gone, find_in-slot s (suc i) ps tid rest)
      (ap (λ q. ok q s) (ground (arith, slot_from-below (suc i) ps tid)))
find_in-slot s i (p ∷ ps) tid (inr e, rest) =
    rw (not_null e.ne_null, load-eq-ok s e.ne_null e.found, e.named)
      (elim (Bool-cases (suc i == tid)) [
        | inl here ↦ rw here (ap (λ q. ok q s) (ground arith))
        | inr other ↦
            rw (other, find_in-slot s (suc i) ps tid rest) (ap (λ q. ok q s) (ground arith))
      ])

-- The entry at index `tid - 1`, where the table has one; no thread has TID 0.
abbrev pub slot : Machine → Tid → Ptr
slot s zero = null
slot s (suc k) = get_or (entries s) k null

-- In a well-formed thread table the search of `tcb_find` for a TID is the access at index TID - 1,
-- and `NULL` past the end and for the invalid TID; it changes nothing.
pub tcb_find-eq-slot : {s : Machine} → IsTable s → (tid : Tid) → tcb_find tid s ≡ ok (slot s tid) s
unfolding tcb_find
tcb_find-eq-slot {s} v zero =
    find_in-slot s 0 (entries s) 0 v.numbered
    ∙ ap (λ q. ok q s) (slot_from-below 0 (entries s) 0 (omega arith))
tcb_find-eq-slot {s} v (suc k) =
    let same : suc k ≡ suc (0 + k) = omega arith in
    find_in-slot s 0 (entries s) (suc k) v.numbered
    ∙ ap (λ q. ok q s) (rw same (slot_from-get_or 0 (entries s) k))

-- The thread that an entry leads to.
pub Numbered-Names :
    (h : Heap) (i : ℕ) (ps : List Ptr) (k : ℕ)
    → Numbered h i ps
    → get_or ps k null ≢ null
    → Names h (get_or ps k null) (suc (i + k))
Numbered-Names h i [] k n ne = absurd (ne refl)
Numbered-Names h i (p ∷ ps) zero (inl gone, rest) ne = absurd (ne gone)
Numbered-Names h i (p ∷ ps) zero (inr e, rest) ne =
    let same : suc (i + 0) ≡ suc i = omega arith in rw same e
Numbered-Names h i (p ∷ ps) (suc k) (_, rest) ne =
    let same : suc (i + suc k) ≡ suc (suc i + k) = omega arith in
    rw same (Numbered-Names h (suc i) ps k rest ne)

-- What `tcb_find` returns is `NULL`, or a TCB with the TID that was asked for.
pub slot-Names :
    {s : Machine} → IsTable s → (tid : Tid) → slot s tid ≢ null → Names s.heap (slot s tid) tid
slot-Names v zero ne = absurd (ne refl)
slot-Names {s} v (suc k) ne =
    let same : suc k ≡ suc (0 + k) = omega arith in
    rw same (Numbered-Names s.heap 0 (entries s) k v.numbered ne)
