-- ===== src/Queue/Chain.antt =====
-- Chains of `next` pointers, and how they change with the heap.
use comp_arch_project.Base.{
  ◌≡◌, refl, sym, ap, ◌∙◌, ◌≢◌, true, false, Option, none, some, List, [], ◌∷◌, ◌++◌, arith, has,
  AllDistinct, last_or, has-last_or, Option-cases, Bool-cases, ==_iff, ◌==◌, inl, inr,
}
use comp_arch_project.Machine.{Ptr, null, Tcb, Heap}

abbrev pub link_of : Option Tcb → Option Ptr
link_of o = elim o [ none ↦ none | some c ↦ some c.next ]

-- the `next` field at an address
abbrev pub next_at : Heap → Ptr → Option Ptr
next_at h p = link_of (h p)

-- From `p` the `next` pointers lead through `xs` to `NULL`.
abbrev pub Chain : Heap → Ptr → List Ptr → Type 0
Chain h p [] = p ≡ null
Chain h p (x ∷ xs) = (p ≡ x) × (x ≢ null) × ((q : Ptr) × (next_at h x ≡ some q) × Chain h q xs)

-- `g` is `h` but that the node at `q` points to `t`.
pub record Relinked (h g : Heap) (q t : Ptr) : Type 0 where
  pub there : next_at g q ≡ some t
  pub elsewhere : (a : Ptr) → a ≢ q → next_at g a ≡ next_at h a

-- A chain survives any change that spares its own links.
pub Chain-frame :
    (h g : Heap) (p : Ptr) (xs : List Ptr)
    → Chain h p xs
    → ((a : Ptr) → has a xs ≡ true → next_at g a ≡ next_at h a)
    → Chain g p xs
Chain-frame h g p [] c same = c
Chain-frame h g p (x ∷ xs) (e, ne, (q, at, rest)) same =
    (e, ne, (q, same x (ground arith) ∙ at, Chain-frame h g q xs rest λ a i. same a (ground arith)))

pub Chain-snoc :
    (h g : Heap) (p x : Ptr) (xs : List Ptr) (t : Ptr)
    → Chain h p (x ∷ xs)
    → AllDistinct (x ∷ xs)
    → has t (x ∷ xs) ≡ false
    → t ≢ null
    → next_at h t ≡ some null
    → Relinked h g (last_or x xs) t
    → Chain g p (x ∷ xs ++ t ∷ [])
Chain-snoc h g p x [] t (e, ne, (q, at, rest)) d out nt ht r =
    (e, ne, (t, r.there, (refl, nt, (null, r.elsewhere t (ground arith) ∙ ht, refl))))
Chain-snoc h g p x (y ∷ ys) t (e, ne, (q, at, rest)) d out nt ht r = (
  e,
  ne,
  (
    q,
    r.elsewhere x (ground (arith, has-last_or y ys)) ∙ at,
    Chain-snoc h g q y ys t rest d.1 (ground arith) nt ht r,
  ),
)

-- A chain that starts at `NULL` is empty, and no other is.
pub Chain-null : (h : Heap) (xs : List Ptr) → Chain h null xs → xs ≡ []
Chain-null h [] c = refl
Chain-null h (x ∷ xs) (e, ne, rest) = absurd (ne (sym e))

pub next_at-some : (h : Heap) (p q : Ptr) → next_at h p ≡ some q → (c : Tcb) × (h p ≡ some c)
next_at-some h p q e = elim (Option-cases (h p)) [ inl gone ↦ cc | inr found ↦ found ]

pub next_at-found :
    (h : Heap) (p q : Ptr) {c : Tcb} → h p ≡ some c → next_at h p ≡ some q → c.next ≡ q
next_at-found h p q found at = cc (ap link_of found)

-- An address in a chain is not `NULL` and holds a TCB.
pub Chain-live :
    (h : Heap) (p : Ptr) (xs : List Ptr) (a : Ptr)
    → Chain h p xs
    → has a xs ≡ true
    → (c : Tcb) × (a ≢ null) × (h a ≡ some c)
Chain-live h p [] a c i = cc
Chain-live h p (x ∷ xs) a (e, ne, (q, at, rest)) i = elim (Bool-cases (a == x)) [
  | inl here ↦
      let (c, found) = next_at-some h x q at in
      let same : a ≡ x = (==_iff a x).0 here in (c, λ n. ne (sym same ∙ n), rw same found)
  | inr later ↦ Chain-live h q xs a rest (ground arith)
]
