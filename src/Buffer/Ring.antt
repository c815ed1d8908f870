-- ===== src/Buffer/Ring.antt =====
-- The ring of examples/producer_consumer.c as a queue: the cells from `buf_out` on.
use comp_arch_project.Base.{
  ℕ, zero, suc, ◌+◌, ◌-◌, ◌%◌, ◌≤◌, ◌<◌, ◌≡◌, refl, sym, ap, ◌∙◌, arith, update, update_same,
  update_other, List, [], ◌∷◌, ◌++◌, append_assoc,
}
use comp_arch_project.Buffer.{Buffer, puts, gets}

-- The `k` items from the one with number `s` on.
abbrev pub window : (ℕ → ℕ) → (s k : ℕ) → List ℕ
window buf s zero = []
window buf s (suc k) = buf (s % 8) ∷ window buf (s + 1) k

window-snoc :
    (buf : ℕ → ℕ) (s k : ℕ) → window buf s (suc k) ≡ window buf s k ++ buf ((s + k) % 8) ∷ []
window-snoc buf s zero = ap (λ j. buf (j % 8) ∷ []) (omega arith)
window-snoc buf s (suc k) =
    ap (λ (xs : List ℕ). buf (s % 8) ∷ xs)
      (window-snoc buf (s + 1) k ∙ ap (λ j. window buf (s + 1) k ++ buf (j % 8) ∷ []) (omega arith))

-- The window turns with the ring.
pub window-turn : (buf : ℕ → ℕ) (s u k : ℕ) → s % 8 ≡ u % 8 → window buf s k ≡ window buf u k
window-turn buf s u zero e = refl
window-turn buf s u (suc k) e = rw (e, window-turn buf (s + 1) (u + 1) k (omega (arith, e))) refl

-- A cell behind the window is not in it.
window-update :
    (buf : ℕ → ℕ) (s k e v : ℕ)
    → s + k ≤ e
    → e < s + 8
    → window (update buf (e % 8) v) s k ≡ window buf s k
window-update buf s zero e v lo hi = refl
window-update buf s (suc k) e v lo hi =
    rw
      (
        update_other buf (e % 8) v (s % 8) (omega arith),
        window-update buf (s + 1) k e v (omega arith) (omega arith),
      )
      refl

window-put :
    (buf : ℕ → ℕ) (s e v : ℕ)
    → s ≤ e
    → e < s + 8
    → window (update buf (e % 8) v) s (e + 1 - s) ≡ window buf s (e - s) ++ v ∷ []
window-put buf s e v lo hi =
    let new = update buf (e % 8) v in
    let more : e + 1 - s ≡ suc (e - s) = omega arith in
    let end : s + (e - s) ≡ e = omega arith in
    let at : new ((s + (e - s)) % 8) ≡ v = ap (λ j. new (j % 8)) end ∙ update_same buf (e % 8) v in
    ap (λ k. window new s k) more
    ∙ window-snoc new s (e - s)
    ∙ rw (at, window-update buf s (e - s) e v (omega arith) hi) refl

window-get :
    (buf : ℕ → ℕ) (s e : ℕ)
    → s < e
    → window buf s (e - s) ≡ buf (s % 8) ∷ window buf (s + 1) (e - (s + 1))
window-get buf s e lt =
    let more : e - s ≡ suc (e - (s + 1)) = omega arith in ap (λ k. window buf s k) more

-- The printed items are a queue's: what was produced is what was consumed, and what is in the
-- ring.
pub record IsRing (b : Buffer) : Type 0 where
  pub order : b.items_consumed ≤ b.items_produced
  pub ins : b.buf_in ≡ b.items_produced % 8
  pub outs : b.buf_out ≡ b.items_consumed % 8
  pub queue :
      b.printed_in
      ≡ b.printed_out ++ window b.buf b.items_consumed (b.items_produced - b.items_consumed)

pub puts-IsRing :
    (item : ℕ) (b : Buffer)
    → IsRing b
    → b.items_produced < b.items_consumed + 8
    → IsRing (puts item b)
puts-IsRing item b ring room = record {
  order = omega (arith, ring.order);
  ins = omega (arith, ring.ins);
  outs = ring.outs;
  queue =
      ap (λ (xs : List ℕ). xs ++ item ∷ []) ring.queue
      ∙ append_assoc b.printed_out
          (window b.buf b.items_consumed (b.items_produced - b.items_consumed)) (item ∷ [])
      ∙ ap (λ (ys : List ℕ). b.printed_out ++ ys)
          (sym (
            rw ring.ins (window-put b.buf b.items_consumed b.items_produced item ring.order room)));
}

pub gets-IsRing : (b : Buffer) → IsRing b → b.items_consumed < b.items_produced → IsRing (gets b)
gets-IsRing b ring some = record {
  order = omega (arith, some);
  ins = ring.ins;
  outs = omega (arith, ring.outs);
  queue =
      ring.queue
      ∙ ap (λ (ys : List ℕ). b.printed_out ++ ys)
          (rw ring.outs (window-get b.buf b.items_consumed b.items_produced some))
      ∙ sym (
          append_assoc b.printed_out (b.buf b.buf_out ∷ [])
            (window b.buf (b.items_consumed + 1) (b.items_produced - (b.items_consumed + 1))));
}
