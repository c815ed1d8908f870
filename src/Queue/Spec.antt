-- ===== src/Queue/Spec.antt =====
-- What the scheduler's queues promise, with no pointers between threads: the run queue and the
-- wait queues are lists of threads in the order of their arrival, and `cells` has what each TCB
-- holds apart from its link.
use comp_arch_project.Base.{
  ◌≡◌, sym, subst, Bool, true, false, Option, none, some, List, [], ◌∷◌, ◌++◌, update, has,
  AllDistinct, last_or,
}
use comp_arch_project.Machine.{Ptr, null, State, ready, blocked, Frame, Tcb, Machine, Heap}
use comp_arch_project.Queue.Chain.{Chain}
use comp_arch_project.Queue.Push.{view}

pub record Queues : Type 0 where
  pub run : List Ptr
  pub wait : Ptr → List Ptr
  pub cells : Ptr → Option Tcb

abbrev pub set_state : State → Tcb → Tcb
set_state st c = record c { state = st }

abbrev pub set_ctx : List Frame → Bool → Tcb → Tcb
set_ctx frames mask c = record c { ctx = record { frames = frames; mask = mask } }

abbrev pub state_at : (Ptr → Option Tcb) → Ptr → Option State
state_at cells p = elim (cells p) [ none ↦ none | some c ↦ some c.state ]

abbrev pub map_cell : (Tcb → Tcb) → Option Tcb → Option Tcb
map_cell f o = elim o [ none ↦ none | some c ↦ some (f c) ]

-- The TCB at `t` changes, and the queues stay.
abbrev pub change : Ptr → (Tcb → Tcb) → Queues → Queues
change t f a = record a { cells = update a.cells t (map_cell f (a.cells t)) }

-- `t` goes to the end of the run queue.
abbrev pub push_run : Ptr → Queues → Queues
push_run t a = record a { run = a.run ++ t ∷ [] }

-- `t` becomes ready, at the end of the run queue.
abbrev pub make_ready : Ptr → Queues → Queues
make_ready t a = push_run t (change t (set_state ready) a)

-- `t` becomes blocked, at the end of the wait queue of `q`.
abbrev pub make_wait : (q t : Ptr) → Queues → Queues
make_wait q t a =
    change t (set_state blocked) (record a { wait = update a.wait q (a.wait q ++ t ∷ []) })

-- The first thread of `ts`, the wait queue of `q`, becomes ready.
abbrev pub wake_from : Ptr → List Ptr → Queues → Queues
wake_from q [] a = a
wake_from q (t ∷ ts) a = make_ready t (record a { wait = update a.wait q ts })

-- The thread that has waited for longest becomes ready, if there is one.
abbrev pub wake_first : Ptr → Queues → Queues
wake_first q a = wake_from q (a.wait q) a

abbrev pub head_or_null : List Ptr → Ptr
head_or_null [] = null
head_or_null (t ∷ ts) = t

-- Every thread of `ts` becomes ready, in order.
abbrev pub make_all_ready : List Ptr → Queues → Queues
make_all_ready [] a = a
make_all_ready (t ∷ ts) a = make_all_ready ts (make_ready t a)

-- A thread stands in one queue at most, once, and its state says in which kind.
pub record IsValid (a : Queues) : Type 0 where
  pub run_distinct : AllDistinct a.run
  pub wait_distinct : (q : Ptr) → AllDistinct (a.wait q)
  pub run_ready : (p : Ptr) → has p a.run ≡ true → state_at a.cells p ≡ some ready
  pub wait_blocked : (q p : Ptr) → has p (a.wait q) ≡ true → state_at a.cells p ≡ some blocked
  pub wait_apart : (q r p : Ptr) → has p (a.wait q) ≡ true → has p (a.wait r) ≡ true → q ≡ r

-- A thread that stands in no queue.
pub record IsLoose (a : Queues) (t : Ptr) : Type 0 where
  pub not_run : has t a.run ≡ false
  pub not_wait : (q : Ptr) → has t (a.wait q) ≡ false

-- The machine holds these queues.
pub record Holds (s : Machine) (a : Queues) : Type 0 where
  pub run_chain : Chain s.heap s.rq_head a.run
  pub run_tail : s.rq_tail ≡ last_or null a.run
  pub wait_chain : (q : Ptr) → Chain s.heap (s.waiters q) (a.wait q)
  pub content : (p : Ptr) → view (s.heap p) ≡ a.cells p
  pub valid : IsValid a

-- The part of the machine that the queue functions change.
pub record Links : Type 0 where
  pub heap : Heap
  pub head : Ptr
  pub tail : Ptr
  pub first : Ptr → Ptr

abbrev pub with_links : Links → Machine → Machine
with_links k s = record s { heap = k.heap; rq_head = k.head; rq_tail = k.tail; waiters = k.first }

abbrev pub links : Machine → Links
links s = record { heap = s.heap; head = s.rq_head; tail = s.rq_tail; first = s.waiters }

-- What a machine holds rests on its links alone.
pub Holds-cast :
    {s : Machine} {a : Queues} (s' : Machine) → Holds s a → links s' ≡ links s → Holds s' a
Holds-cast {s} {a} s' h e = record {
  run_chain = subst (λ (k : Links). Chain k.heap k.head a.run) (sym e) h.run_chain;
  run_tail = subst (λ (k : Links). k.tail ≡ last_or null a.run) (sym e) h.run_tail;
  wait_chain =
      λ q. subst (λ (k : Links). Chain k.heap (k.first q) (a.wait q)) (sym e) (h.wait_chain q);
  content = λ p. subst (λ (k : Links). view (k.heap p) ≡ a.cells p) (sym e) (h.content p);
  valid = h.valid;
}
