-- ===== src/System/Kin.antt =====
-- Two views of the queues with the same threads, under the same TIDs and with the same joiners.
use comp_arch_project.Base.{
  ◌≡◌, refl, sym, ◌∙◌, ap, Bool, Option, none, some, List, [], ◌∷◌, ◌++◌, ◌==◌, update, if_app,
  Bool-cases, inl, inr, ==_iff, ℕ,
}
use comp_arch_project.Machine.{Ptr, null, Tid, ready, blocked, Frame, Tcb}
use comp_arch_project.Queue.Spec.{
  Queues, change, make_ready, make_wait, set_state, set_ctx, wake_from, wake_first, make_all_ready,
  map_cell,
}
use comp_arch_project.Table.Kept.{tid_in}
use comp_arch_project.Ticket.Order.{holds_ticket, wake_holder}
use comp_arch_project.System.{joiner_in}

abbrev pub info : Option Tcb → Option (Tid × Ptr)
info o = elim o [ none ↦ none | some c ↦ some (c.tid, c.joiner) ]

abbrev pub Alike : Queues → Queues → Type 0
Alike a b = (p : Ptr) → info (b.cells p) ≡ info (a.cells p)

abbrev tid_from : Option (Tid × Ptr) → Option Tid
tid_from o = elim o [ none ↦ none | some (tid, j) ↦ some tid ]

abbrev joiner_from : Option (Tid × Ptr) → Ptr
joiner_from o = elim o [ none ↦ null | some (tid, j) ↦ j ]

tid_in-eq : (o : Option Tcb) → tid_in o ≡ tid_from (info o)
tid_in-eq none = refl
tid_in-eq (some c) = refl

joiner_in-eq : (o : Option Tcb) → joiner_in o ≡ joiner_from (info o)
joiner_in-eq none = refl
joiner_in-eq (some c) = refl

pub same_tid : (o o' : Option Tcb) → info o ≡ info o' → tid_in o ≡ tid_in o'
same_tid o o' e = tid_in-eq o ∙ ap tid_from e ∙ sym (tid_in-eq o')

pub same_joiner : (o o' : Option Tcb) → info o ≡ info o' → joiner_in o ≡ joiner_in o'
same_joiner o o' e = joiner_in-eq o ∙ ap joiner_from e ∙ sym (joiner_in-eq o')

info-map_cell :
    (f : Tcb → Tcb)
    → ((c : Tcb) → ◌≡◌ {A = Tid × Ptr} ((f c).tid, (f c).joiner) (c.tid, c.joiner))
    → (o : Option Tcb) → info (map_cell f o) ≡ info o
info-map_cell f same none = refl
info-map_cell f same (some c) = ap some (same c)

pub change-Alike :
    (t : Ptr) (f : Tcb → Tcb) (a : Queues)
    → ((c : Tcb) → ◌≡◌ {A = Tid × Ptr} ((f c).tid, (f c).joiner) (c.tid, c.joiner))
    → Alike a (change t f a)
change-Alike t f a same p =
    if_app info (p == t) (map_cell f (a.cells t)) (a.cells p) ∙ elim (Bool-cases (p == t)) [
      | inl e ↦ rw (e, (==_iff p t).0 e) (info-map_cell f same (a.cells t))
      | inr e ↦ rw e
    ]

-- A thread that goes to the end of a queue, and one whose context is saved.
pub make_ready-Alike : (t : Ptr) (a : Queues) → Alike a (make_ready t a)
make_ready-Alike t a = change-Alike t (set_state ready) a (λ c. refl)

pub make_wait-Alike : (q t : Ptr) (a : Queues) → Alike a (make_wait q t a)
make_wait-Alike q t a =
    change-Alike t (set_state blocked) (record a { wait = update a.wait q (a.wait q ++ t ∷ []) })
      (λ c. refl)

pub saved-Alike :
    (t : Ptr) (frames : List Frame) (mask : Bool) (a : Queues)
    → Alike a (change t (set_ctx frames mask) a)
saved-Alike t frames mask a = change-Alike t (set_ctx frames mask) a (λ c. refl)

wake_from-Alike : (q : Ptr) (ts : List Ptr) (a : Queues) → Alike a (wake_from q ts a)
wake_from-Alike q [] a p = refl
wake_from-Alike q (t ∷ ts) a p = make_ready-Alike t (record a { wait = update a.wait q ts }) p

pub wake_first-Alike : (q : Ptr) (a : Queues) → Alike a (wake_first q a)
wake_first-Alike q a = wake_from-Alike q (a.wait q) a

pub make_all_ready-Alike : (ts : List Ptr) (a : Queues) → Alike a (make_all_ready ts a)
make_all_ready-Alike [] a p = refl
make_all_ready-Alike (t ∷ ts) a p =
    make_all_ready-Alike ts (make_ready t a) p ∙ make_ready-Alike t a p

pub wake_holder-Alike :
    (q : Ptr) (n : ℕ) (pre ts : List Ptr) (a : Queues) → Alike a (wake_holder q n pre ts a)
wake_holder-Alike q n pre [] a p = refl
wake_holder-Alike q n pre (t ∷ ts) a p = elim (Bool-cases (holds_ticket n (a.cells t))) [
  | inl hit ↦ rw hit (make_ready-Alike t (record a { wait = update a.wait q (pre ++ ts) }) p)
  | inr miss ↦ rw miss (wake_holder-Alike q n (pre ++ t ∷ []) ts a p)
]
