-- ===== src/Queue/Splice.antt =====
-- A thread leaves a wait queue from any place in it.
use comp_arch_project.Base.{
  ◌≡◌, ◌≢◌, ◌∙◌, ap, subst, true, false, some, List, [], ◌∷◌, ◌++◌, arith, has, has-append,
  has-last_or, AllDistinct, last_or, ◌==◌, Bool-cases, inl, inr, update,
}
use comp_arch_project.Machine.{Ptr, Heap}
use comp_arch_project.Queue.Chain.{next_at, Chain, Chain-frame}
use comp_arch_project.Queue.Spec.{Queues, IsValid, IsLoose}
use comp_arch_project.Queue.Valid.{run-wait-apart, has-update}

-- The rest of a list without repetition, around one element.
pub AllDistinct-remove :
    (pre : List Ptr) (t : Ptr) (ts : List Ptr)
    → AllDistinct (pre ++ t ∷ ts)
    → AllDistinct (pre ++ ts) × (has t (pre ++ ts) ≡ false)
AllDistinct-remove [] t ts d = (d.1, d.0)
AllDistinct-remove (x ∷ xs) t ts d =
    let (rest, out) = AllDistinct-remove xs t ts d.1 in
    (
      (ground (arith, has-append x xs (t ∷ ts), has-append x xs ts), rest),
      ground (arith, has-append x xs (t ∷ ts)),
    )

-- The links of a chain from which `t` is taken out, `last_or x xs` being the thread before it.
pub Chain-splice :
    (h g : Heap) (p x : Ptr) (xs : List Ptr) (t : Ptr) (ts : List Ptr) (q : Ptr)
    → Chain h p (x ∷ xs ++ t ∷ ts)
    → AllDistinct (x ∷ xs ++ t ∷ ts)
    → next_at h t ≡ some q
    → next_at g (last_or x xs) ≡ some q
    → ((a : Ptr) → a ≢ last_or x xs → a ≢ t → next_at g a ≡ next_at h a)
    → Chain g p (x ∷ xs ++ ts)
Chain-splice h g p x [] t ts q (e, ne, (y, at, (e', ne', (q', at', rest)))) d to_q link others = (
  e,
  ne,
  (
    q,
    link,
    Chain-frame h g q ts (subst (λ y. Chain h y ts) (ground arith) rest)
        λ a i. others a (ground arith) (ground arith),
  ),
)
Chain-splice h g p x (y ∷ ys) t ts q (e, ne, (z, at, rest)) d to_q link others = (
  e,
  ne,
  (
    z,
    others x (ground (arith, has-last_or y ys, has-append x (y ∷ ys) (t ∷ ts)))
          (ground (arith, has-append x (y ∷ ys) (t ∷ ts)))
        ∙ at,
    Chain-splice h g z y ys t ts q rest d.1 to_q link others,
  ),
)

module _ {a : Queues} (v : IsValid a) (q t : Ptr) (pre ts : List Ptr)
    (e : a.wait q ≡ pre ++ t ∷ ts) where
  abbrev pub without : Queues
  without = record a { wait = update a.wait q (pre ++ ts) }

  around : AllDistinct (pre ++ ts) × (has t (pre ++ ts) ≡ false)
  around = AllDistinct-remove pre t ts (subst AllDistinct e (v.wait_distinct q))

  pub waits : has t (a.wait q) ≡ true
  waits = rw (e, has-append) (ground arith)

  still_waits : (r p : Ptr) → has p (without.wait r) ≡ true → has p (a.wait r) ≡ true
  still_waits r p i = ground (
    arith,
    has-update a.wait q (pre ++ ts) p r,
    has-append p pre ts,
    has-append p pre (t ∷ ts),
    ap (has p) e,
  )

  pub without-IsValid : IsValid without
  without-IsValid = record {
    run_distinct = v.run_distinct;
    wait_distinct = λ r. elim (Bool-cases (r == q)) [
      | inl here ↦ rw here around.0
      | inr other ↦ rw other (v.wait_distinct r)
    ];
    run_ready = v.run_ready;
    wait_blocked = λ r p i. v.wait_blocked r p (still_waits r p i);
    wait_apart = λ r r' p i i'. v.wait_apart r r' p (still_waits r p i) (still_waits r' p i');
  }

  pub without-IsLoose : IsLoose without t
  without-IsLoose = record {
    not_run = run-wait-apart a q t v waits;
    not_wait = λ r. elim (Bool-cases (r == q)) [
      | inl here ↦ rw here around.1
      | inr other ↦ rw other (ground (arith, v.wait_apart r q t, waits))
    ];
  }
