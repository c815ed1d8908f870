-- ===== src/Queue/Pop.antt =====
-- The removal of the first thread of a queue.
use comp_arch_project.Base.{
  ◌≡◌, sym, some, List, [], ◌∷◌, arith, has, last_or, ◌==◌, if◌then◌else◌, subst, ◌≢◌, false,
}
use comp_arch_project.Machine.{Ptr, null, Tcb, Heap, Machine, ok}
use comp_arch_project.Machine.Access.{not_null, load-eq-ok, modify-eq-ok}
use comp_arch_project.Queue.{queue_pop}
use comp_arch_project.Queue.Chain.{Chain, Chain-frame, next_at-some, next_at-found}
use comp_arch_project.Queue.Push.{IsQueue, LinksChanged, relink, next_at-relink, view-relink_same}

-- `g` is `h` after the first thread has left the queue of `x` and `xs`; `q` is the new head.
pub record Popped (h g : Heap) (q x : Ptr) (xs : List Ptr) : Type 0 where
  pub chain : Chain g q xs
  pub changed : LinksChanged (x ∷ []) h g

-- The first thread of a chain, its link, and the heap in which that link is cleared.
pub record First (h : Heap) (x : Ptr) (xs : List Ptr) : Type 0 where
  pub ne_null : x ≢ null
  pub tcb : Tcb
  pub found : h x ≡ some tcb
  pub popped : Popped h (relink h x tcb null) tcb.next x xs

pub Chain-First :
    (h : Heap) (p x : Ptr) (xs : List Ptr) → Chain h p (x ∷ xs) → has x xs ≡ false → First h x xs
Chain-First h p x xs (e, ne, (q, at, rest)) out =
    let (c, found) = next_at-some h x q at in
    let to_q : q ≡ c.next = sym (next_at-found h x q found at) in
    record {
      ne_null = ne;
      tcb = c;
      found = found;
      popped = record {
        chain =
            Chain-frame h (relink h x c null) c.next xs (subst (λ y. Chain h y xs) to_q rest)
              λ a i. ground (arith, next_at-relink h x c null a);
        changed = record {
          content = view-relink_same h x null found;
          spared = λ a i. ground (arith, next_at-relink h x c null a);
        };
      };
    }

-- The new tail: `NULL` when the last thread has left.
tail-eq-last_or :
    (h : Heap) (q x : Ptr) (xs : List Ptr)
    → Chain h q xs
    → (if q == null then null else last_or x xs) ≡ last_or null xs
tail-eq-last_or h q x [] e = rw e
tail-eq-last_or h q x (y ∷ ys) (e, ne, rest) = rw (e, not_null ne)

-- `queue_pop` takes the first thread, and the rest is a queue between the new ends.
pub queue_pop-Popped :
    (s : Machine) (head tail x : Ptr) (xs : List Ptr)
    → IsQueue s.heap head tail (x ∷ xs)
    → (g : Heap) × (q : Ptr) × (queue_pop head tail s
        ≡ ok (x, q, last_or null xs) (record s { heap = g }))
      × Popped s.heap g q x xs
unfolding queue_pop relink
queue_pop-Popped s head tail x xs q =
    let f = Chain-First s.heap head x xs q.chain q.distinct.0 in
    (
      relink s.heap x f.tcb null,
      f.tcb.next,
      rw (
        q.chain.0,
        q.last,
        not_null f.ne_null,
        load-eq-ok s f.ne_null f.found,
        modify-eq-ok s f.ne_null f.found,
        tail-eq-last_or _ f.tcb.next x xs f.popped.chain,
      ),
      f.popped,
    )
