-- ===== src/Table/Free.antt =====
-- `tcb_free` of thread.c on a well-formed thread table.
use comp_arch_project.Base.{
  ℕ, zero, suc, ◌+◌, ◌≤◌, ◌<◌, ◌≡◌, refl, sym, ◌∙◌, ap, ◌≢◌, ◌⊎◌, inl, inr, none, some, List, [],
  ◌∷◌, arith, length, get_or, ◌==◌, if◌then◌else◌, Bool-cases, ==_iff, ne-==_iff, take, update,
  update_same, update_other,
}
use comp_arch_project.Machine.{Ptr, null, Tid, Tcb, Heap, Machine, ok}
use comp_arch_project.Machine.Access.{load-eq-ok}
use comp_arch_project.Table.{clear_entry, tcb_free}
use comp_arch_project.Table.Valid.{Names, Numbered, Numbered-Names, IsTable, slot}

-- The machine after `tcb_free`: the entry, the stack and the TCB are gone.
abbrev pub freed : Ptr → Tcb → Machine → Machine
freed t c s = record s {
  tcb_table = clear_entry s.tcb_count t s.tcb_table;
  mapped = if c.stack == null then s.mapped else update s.mapped c.stack 0;
  heap = update s.heap t none;
}

pub tcb_free-eq-ok :
    (s : Machine) {t : Ptr} {c : Tcb}
    → t ≢ null
    → s.heap t ≡ some c
    → tcb_free t s ≡ ok tt (freed t c s)
unfolding tcb_free
tcb_free-eq-ok s {t} {c} ne found =
    rw (load-eq-ok (record s { tcb_table = clear_entry s.tcb_count t s.tcb_table }) ne found)
      (elim (Bool-cases (c.stack == null)) [ inl e ↦ rw e | inr e ↦ rw e ])

module _ (h : Heap) {t : Ptr} {c : Tcb} (ne : t ≢ null) (found : h t ≡ some c) where
  -- A TID names one TCB.
  tid-at : (p : Ptr) (tid : Tid) → Names h p tid → p ≡ t → c.tid ≡ tid
  tid-at p tid e same = cc (ap h same, e.found, found, e.named)

  Names-spared : (p : Ptr) (tid : Tid) → Names h p tid → p ≢ t → Names (update h t none) p tid
  Names-spared p tid e other = record {
    tcb = e.tcb;
    ne_null = e.ne_null;
    found = update_other h t none p other ∙ e.found;
    named = e.named;
  }

  -- Entries for larger TIDs stay.
  Numbered-spared :
      (i : ℕ) (ps : List Ptr) → Numbered h i ps → c.tid ≤ i → Numbered (update h t none) i ps
  Numbered-spared i [] n below = tt
  Numbered-spared i (p ∷ ps) (inl gone, rest) below =
      (inl gone, Numbered-spared (suc i) ps rest (omega arith))
  Numbered-spared i (p ∷ ps) (inr e, rest) below = (
    inr (Names-spared p (suc i) e λ same. omega (arith, tid-at p (suc i) e same)),
    Numbered-spared (suc i) ps rest (omega arith),
  )

  entry-tid : (p : Ptr) (i : ℕ) → (p ≡ null) ⊎ Names h p (suc i) → p ≡ t → c.tid ≡ suc i
  entry-tid p i (inl gone) same = absurd (ne (sym same ∙ gone))
  entry-tid p i (inr e) same = tid-at p (suc i) e same

  entry-spared :
      (p : Ptr) (i : ℕ)
      → (p ≡ null) ⊎ Names h p (suc i)
      → p ≢ t
      → (p ≡ null) ⊎ Names (update h t none) p (suc i)
  entry-spared p i (inl gone) other = inl gone
  entry-spared p i (inr e) other = inr (Names-spared p (suc i) e other)

  Numbered-clear :
      (n i : ℕ) (ps : List Ptr)
      → Numbered h i (take n ps)
      → Numbered (update h t none) i (take n (clear_entry n t ps))
  unfolding clear_entry
  Numbered-clear zero i ps v = tt
  Numbered-clear (suc n) i [] v = tt
  Numbered-clear (suc n) i (p ∷ ps) (e, rest) = elim (Bool-cases (p == t)) [
    | inl here ↦
        let tid = entry-tid p i e ((==_iff p t).0 here) in
        rw here (inl refl, Numbered-spared (suc i) (take n ps) rest (omega arith))
    | inr other ↦
        rw other (entry-spared p i e ((ne-==_iff p t).0 other), Numbered-clear n (suc i) ps rest)
  ]

  -- An entry for a larger TID is not `t`.
  later_ne :
      (p : Ptr) (i : ℕ)
      → (p ≡ null) ⊎ Names h p (suc i)
      → p ≡ t
      → (q : Ptr) (j : ℕ) → (q ≢ null → Names h q (suc j))
      → i < j
      → q ≢ t
  later_ne p i e here q j names later same =
      let tid = tid-at q (suc j) (names λ gone. ne (sym same ∙ gone)) same in
      omega (arith, entry-tid p i e here)

  -- Exactly the entry of `t` becomes `NULL`.
  get_or-clear :
      (n i k : ℕ) (ps : List Ptr)
      → Numbered h i (take n ps)
      → get_or (take n (clear_entry n t ps)) k null
        ≡ (if get_or (take n ps) k null == t then null else get_or (take n ps) k null)
  unfolding clear_entry
  get_or-clear zero i k ps v = ground arith
  get_or-clear (suc n) i k [] v = ground arith
  get_or-clear (suc n) i zero (p ∷ ps) v = elim (Bool-cases (p == t)) [
    | inl here ↦ rw here
    | inr other ↦ rw other
  ]
  get_or-clear (suc n) i (suc k) (p ∷ ps) (e, rest) = elim (Bool-cases (p == t)) [
    | inl here ↦
        let q = get_or (take n ps) k null in
        rw (
          here,
          (ne-==_iff q t).1 λ same.
              later_ne p i e ((==_iff p t).0 here) q (suc i + k)
                (λ live. Numbered-Names h (suc i) (take n ps) k rest live) (omega arith) same,
        )
    | inr other ↦ rw other (get_or-clear n (suc i) k ps rest)
  ]

length-clear_entry : (n : ℕ) (t : Ptr) (ps : List Ptr) → length (clear_entry n t ps) ≡ length ps
unfolding clear_entry
length-clear_entry zero t ps = refl
length-clear_entry (suc n) t [] = refl
length-clear_entry (suc n) t (p ∷ ps) = ground (arith, length-clear_entry n t ps)

-- `tcb_free` keeps the table well-formed.
pub freed-IsTable :
    {s : Machine} {t : Ptr} {c : Tcb}
    → IsTable s
    → t ≢ null
    → s.heap t ≡ some c
    → IsTable (freed t c s)
freed-IsTable {s} {t} v ne found = record {
  sized = length-clear_entry s.tcb_count t s.tcb_table ∙ v.sized;
  fits = v.fits;
  bounded = v.bounded;
  next_number = v.next_number;
  numbered = Numbered-clear s.heap ne found s.tcb_count 0 s.tcb_table v.numbered;
}

-- Afterwards `tcb_find` no longer finds the thread, and finds every other as before.
pub slot-freed :
    {s : Machine} {t : Ptr} {c : Tcb}
    → IsTable s
    → t ≢ null
    → s.heap t ≡ some c
    → (tid : Tid) → slot (freed t c s) tid ≡ (if slot s tid == t then null else slot s tid)
slot-freed v ne found zero = ground arith
slot-freed {s} v ne found (suc k) =
    get_or-clear s.heap ne found s.tcb_count 0 k s.tcb_table v.numbered

-- In a well-formed thread table, `tcb_free` of a TCB frees it and keeps the table well-formed;
-- `tcb_find` then finds nothing under the TIDs that led to this TCB, and under every other TID what
-- it found before.
pub tcb_free-forgets :
    {s : Machine} {t : Ptr} {c : Tcb} (v : IsTable s)
    → t ≢ null
    → s.heap t ≡ some c
    → (s' : Machine) × (tcb_free t s ≡ ok tt s')
      × (s'.heap t ≡ none)
      × IsTable s'
      × ((tid : Tid) → slot s' tid ≡ (if slot s tid == t then null else slot s tid))
tcb_free-forgets {s} {t} {c} v ne found = (
  freed t c s,
  tcb_free-eq-ok s ne found,
  update_same s.heap t none,
  freed-IsTable v ne found,
  slot-freed v ne found,
)
