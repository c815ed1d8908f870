-- ===== src/Table/Live.antt =====
-- The count of live threads: the entries that are not `NULL` and not zombies.
use comp_arch_project.Base.{
  ℕ, suc, ◌+◌, ◌<◌, ◌≡◌, ◌∙◌, ap, ◌≢◌, inl, inr, true, false, Option, none, some, List, [], ◌∷◌,
  arith, has, ◌==◌, if◌then◌else◌, Bool-cases, ==_iff,
}
use comp_arch_project.Machine.{Ptr, null, Tcb, Heap, Machine, ok}
use comp_arch_project.Machine.Access.{not_null, load-eq-ok}
use comp_arch_project.Table.{entries, is_zombie, live_in, active_count}
use comp_arch_project.Table.Valid.{Numbered, IsTable}

abbrev pub live_bit : Option Tcb → ℕ
live_bit o = elim o [ none ↦ 0 | some c ↦ if is_zombie c.state then 0 else 1 ]

abbrev pub live_count : Heap → List Ptr → ℕ
live_count h [] = 0
live_count h (p ∷ ps) = (if p == null then 0 else live_bit (h p)) + live_count h ps

live_in-eq-add :
    (s : Machine) (i : ℕ) (ps : List Ptr) (n : ℕ)
    → Numbered s.heap i ps
    → live_in ps n s ≡ ok (n + live_count s.heap ps) s
unfolding live_in
live_in-eq-add s i [] n v = ap (λ k. ok k s) (omega arith)
live_in-eq-add s i (p ∷ ps) n (inl gone, rest) =
    rw (gone, live_in-eq-add s (suc i) ps n rest) (ap (λ k. ok k s) (omega arith))
live_in-eq-add s i (p ∷ ps) n (inr e, rest) =
    rw
      (
        not_null e.ne_null,
        load-eq-ok s e.ne_null e.found,
        live_in-eq-add s (suc i) ps (if is_zombie e.tcb.state then n else n + 1) rest,
        e.found,
      )
      (ap (λ k. ok k s) (ground arith))

pub active_count-eq-ok :
    {s : Machine} → IsTable s → active_count s ≡ ok (live_count s.heap (entries s)) s
unfolding active_count
active_count-eq-ok {s} v =
    live_in-eq-add s 0 (entries s) 0 v.numbered ∙ ap (λ k. ok k s) (omega arith)

-- A thread of the table that is not a zombie is counted.
pub live_count-pos :
    (h : Heap) (ps : List Ptr) (t : Ptr) {c : Tcb}
    → has t ps ≡ true
    → t ≢ null
    → h t ≡ some c
    → is_zombie c.state ≡ false
    → 0 < live_count h ps
live_count-pos h [] t i ne found alive = cc
live_count-pos h (p ∷ ps) t i ne found alive = elim (Bool-cases (t == p)) [
  | inl here ↦
      let same : t ≡ p = (==_iff t p).0 here in rw (← same, not_null ne, found, alive) (omega arith)
  | inr later ↦ omega (arith, live_count-pos h ps t (ground arith) ne found alive)
]
