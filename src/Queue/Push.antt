-- ===== src/Queue/Push.antt =====
-- `queue_push`, `queue_pop` and the walk of `uth_block` over a heap.
use comp_arch_project.Base.{
  zero, suc, ℕ, ◌<◌, ◌≡◌, refl, ap, ◌∙◌, ◌≢◌, false, Option, none, some, List, [], ◌∷◌, ◌++◌, arith,
  has, AllDistinct, last_or, has-last_or, length, update, ◌==◌, if◌then◌else◌, Bool-cases, if_app,
  inl, inr, ==_iff,
}
use comp_arch_project.Machine.{Ptr, null, Tcb, Heap, Machine, ok}
use comp_arch_project.Machine.Access.{not_null, load-eq-ok, modify-eq-ok}
use comp_arch_project.Queue.{with_next, queue_push, append_after}
use comp_arch_project.Queue.Chain.{
  link_of, next_at, Chain, Relinked, Chain-frame, Chain-snoc, Chain-live, next_at-some,
  next_at-found,
}

-- A TCB without its link.
abbrev pub view : Option Tcb → Option Tcb
view o = elim o [ none ↦ none | some c ↦ some (with_next null c) ]

-- `g` differs from `h` in links only, and in these only at the addresses of `xs`.
pub record LinksChanged (xs : List Ptr) (h g : Heap) : Type 0 where
  pub content : (p : Ptr) → view (g p) ≡ view (h p)
  pub spared : (p : Ptr) → has p xs ≡ false → next_at g p ≡ next_at h p

-- The TCB `c` at `p` is written back with another link.
unfoldable pub relink : Heap → Ptr → Tcb → Ptr → Heap
relink h p c q = update h p (some (with_next q c))

pub next_at-relink :
    (h : Heap) (p : Ptr) (c : Tcb) (q a : Ptr)
    → next_at (relink h p c q) a ≡ (if a == p then some q else next_at h a)
unfolding relink
next_at-relink h p c q a = if_app link_of (a == p) (some (with_next q c)) (h a)

view-relink :
    (h : Heap) (p : Ptr) (c : Tcb) (q a : Ptr)
    → view (relink h p c q a) ≡ (if a == p then some (with_next null c) else view (h a))
unfolding relink
view-relink h p c q a = if_app view (a == p) (some (with_next q c)) (h a)

-- Only the link changes.
pub view-relink_same :
    (h : Heap) (p : Ptr) {c : Tcb} (q : Ptr)
    → h p ≡ some c
    → (a : Ptr) → view (relink h p c q a) ≡ view (h a)
view-relink_same h p {c} q at a =
    view-relink h p c q a
    ∙ elim (Bool-cases (a == p)) [ inl e ↦ rw (e, (==_iff a p).0 e, at) | inr e ↦ rw e ]

pub relink-ne :
    (h : Heap) (p : Ptr) (c : Tcb) (q a : Ptr) → (a == p) ≡ false → relink h p c q a ≡ h a
unfolding relink
relink-ne h p c q a e = rw e

pub relink-Relinked : (h : Heap) (p : Ptr) (c : Tcb) (q : Ptr) → Relinked h (relink h p c q) p q
relink-Relinked h p c q = record {
  there = ground (arith, next_at-relink h p c q p);
  elsewhere = λ a ne. ground (arith, next_at-relink h p c q a);
}

-- The queue of `xs` between its two ends.
pub record IsQueue (h : Heap) (head tail : Ptr) (xs : List Ptr) : Type 0 where
  pub chain : Chain h head xs
  pub last : tail ≡ last_or null xs
  pub distinct : AllDistinct xs

pub record Pushed (h g : Heap) (head : Ptr) (xs : List Ptr) (t : Ptr) : Type 0 where
  pub chain : Chain g head (xs ++ t ∷ [])
  pub changed : LinksChanged (t ∷ xs) h g

module _ (s : Machine) {t : Ptr} {c : Tcb} (nt : t ≢ null) (at : s.heap t ≡ some c) where
  abbrev pub unlinked : Heap
  unlinked = relink s.heap t c null

  -- The last thread of a chain is made to point to `t`.
  pub Chain-link :
      (p x : Ptr) (xs : List Ptr) {d : Tcb}
      → Chain s.heap p (x ∷ xs)
      → AllDistinct (x ∷ xs)
      → has t (x ∷ xs) ≡ false
      → s.heap (last_or x xs) ≡ some d
      → Pushed s.heap (relink unlinked (last_or x xs) d t) p (x ∷ xs) t
  Chain-link p x xs {d} ch dis out there =
      let last = last_or x xs in
      let linked = relink unlinked last d t in
      record {
        chain =
            Chain-snoc unlinked linked p x xs t
              (Chain-frame s.heap unlinked p (x ∷ xs) ch
                λ a i. ground (arith, next_at-relink s.heap t c null a))
              dis out nt (ground (arith, next_at-relink s.heap t c null t))
              (relink-Relinked unlinked last d t);
        changed = record {
          content = λ a.
              view-relink_same unlinked last t
                (relink-ne s.heap t c null last (ground (arith, has-last_or x xs)) ∙ there) a
              ∙ view-relink_same s.heap t null at a;
          spared = λ a i. ground (
            arith,
            has-last_or x xs,
            next_at-relink unlinked last d t a,
            next_at-relink s.heap t c null a,
          );
        };
      }

  pub queue_push-Pushed :
      (head tail : Ptr) (xs : List Ptr)
      → IsQueue s.heap head tail xs
      → has t xs ≡ false
      → (g : Heap) × (head' : Ptr) × (queue_push head tail t s
          ≡ ok (head', t) (record s { heap = g }))
        × Pushed s.heap g head' xs t
  unfolding queue_push relink
  queue_push-Pushed head tail [] q out = (
    unlinked,
    t,
    rw (modify-eq-ok s nt at, q.last),
    record {
      chain = (refl, nt, (null, ground (arith, next_at-relink s.heap t c null t), refl));
      changed = record {
        content = view-relink_same s.heap t null at;
        spared = λ a i. ground (arith, next_at-relink s.heap t c null a);
      };
    },
  )
  queue_push-Pushed head tail (x ∷ xs) q out =
      let last = last_or x xs in
      let (d, nl, there) = Chain-live s.heap head (x ∷ xs) last q.chain (has-last_or x xs) in
      let there' : unlinked last ≡ some d =
        relink-ne s.heap t c null last (ground (arith, has-last_or x xs)) ∙ there in
      (
        relink unlinked last d t,
        head,
        rw (
          modify-eq-ok s nt at,
          q.last,
          not_null nl,
          modify-eq-ok (record s { heap = unlinked }) nl there',
        ),
        Chain-link head x xs q.chain q.distinct out there,
      )

-- The walk from the first thread of a chain ends at the last one, which is made to point to `t`.
pub append_after-eq-ok :
    (s : Machine) (t : Ptr) {d : Tcb} (fuel x : ℕ) (xs : List Ptr)
    → Chain s.heap x (x ∷ xs)
    → length xs < fuel
    → s.heap (last_or x xs) ≡ some d
    → append_after fuel x t s ≡ ok tt (record s { heap = relink s.heap (last_or x xs) d t })
unfolding append_after relink
append_after-eq-ok s t zero x xs c short last = absurd (omega arith)
append_after-eq-ok s t {d} (suc fuel) x [] (_, ne, (q, at, e)) short last = rw (
  load-eq-ok s ne last,
  next_at-found s.heap x null last (at ∙ ap some e),
  modify-eq-ok s ne last,
)
append_after-eq-ok s t {d} (suc fuel) x (y ∷ ys) (_, ne, (q, at, (e, ny, rest))) short last =
    let (c, found) = next_at-some s.heap x q at in
    let to_y : c.next ≡ y = next_at-found s.heap x y found (at ∙ ap some e) in
    rw (load-eq-ok s ne found, to_y, not_null ny)
      (append_after-eq-ok s t fuel y ys (refl, ny, rest) (omega arith) last)
