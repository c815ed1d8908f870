-- ===== src/Ticket/Waiting.antt =====
-- `uth_ticket_lock` on a machine with well-formed queues.
use comp_arch_project.Base.{
  ℕ, ◌+◌, ◌≤◌, ◌≡◌, refl, ap, Bool, true, false, List, ◌∷◌, length, ◌==◌, update_same, some,
}
use comp_arch_project.Machine.{
  Ptr, Frame, in_ticket_lock, Tcb, Ticket, Machine, Run, ok, switched, put,
}
use comp_arch_project.Machine.Access.{IsRunning, modify-eq-ok}
use comp_arch_project.Table.{unsigned}
use comp_arch_project.Ticket.{set_ticket, ticket_lock, ticket_lock_loop}
use comp_arch_project.Queue.Spec.{
  Queues, IsLoose, Holds, Holds-cast, Links, with_links, change, make_wait, set_ctx,
}
use comp_arch_project.Queue.Valid.{change_kept-IsValid}
use comp_arch_project.Queue.Refines.{cell-of, put-Holds}
use comp_arch_project.Queue.Block.{block-switched}

abbrev pub with_ticket : ℕ → Tcb → Tcb
with_ticket n c = record c { ticket = n }

-- A round of the loop, where the ticket is served and where it is not: the lock is entered, or the
-- thread notes its ticket and goes to the end of the queue.
abbrev pub AfterTicket :
    (served : Bool) (t : Ptr) (mine : ℕ) (old : Bool)
    → List Frame
    → Machine
    → Queues
    → Run (Unit {0})
    → Type 0
AfterTicket true t mine old frames s a result = result ≡ ok tt (record s { masked = old })
AfterTicket false t mine old frames s a result =
    (k : Links) × (result ≡ switched (record (with_links k s) { masked = true }))
    × Holds (with_links k s) (
        change s.current (set_ctx (in_ticket_lock t mine old ∷ frames) s.masked)
          (make_wait t s.current (change s.current (with_ticket mine) a)))

pub ticket_loop-cases :
    {s : Machine} {a : Queues} {c : Tcb} (h : Holds s a) (t : Ptr) (run : IsRunning s c) (mine : ℕ)
    (old : Bool) (frames : List Frame) (served : Bool)
    → ((s.tickets t).now_serving == mine) ≡ served
    → IsLoose a s.current
    → length (a.wait t) ≤ s.tcb_count
    → AfterTicket served t mine old frames s a (ticket_lock_loop t mine old frames s)
unfolding ticket_lock_loop
ticket_loop-cases h t run mine old frames true e loose short = rw e
ticket_loop-cases {s} {a} {c} h t run mine old frames false e loose short =
    let me = s.current in
    let f = with_ticket mine in
    let h1 = put-Holds h me f run.found refl refl (change_kept-IsValid me f h.valid (λ y. refl)) in
    let s1 = put me (f c) s in
    let (k, ran, after) =
      block-switched h1 t (in_ticket_lock t mine old ∷ frames) run.ne_null
        (record { not_run = loose.not_run; not_wait = loose.not_wait })
        (cell-of h1 me (update_same s.heap me (some (f c)))) short in
    (k, rw (e, modify-eq-ok s run.ne_null run.found) ran, Holds-cast _ after refl)

-- The machine once the thread has drawn its ticket.
abbrev pub drawn : Ptr → Machine → Machine
drawn t s =
    record (set_ticket t
      (record (s.tickets t) { next_ticket = unsigned ((s.tickets t).next_ticket + 1) }) s) {
        masked = true;
      }

-- On a machine whose queues are well-formed, with a running thread that is in no queue, and a queue
-- of the lock no longer than the thread table: `uth_ticket_lock` draws the next ticket, modulo 2 ^
-- 32; if it is being served the lock is entered and the signal mask restored; otherwise the thread
-- notes its ticket and is blocked at the end of the lock's queue.
pub ticket_lock-cases :
    {s : Machine} {a : Queues} {c : Tcb} (h : Holds s a) (t : Ptr) (run : IsRunning s c)
    (frames : List Frame)
    → IsLoose a s.current
    → length (a.wait t) ≤ s.tcb_count
    → let v : Ticket = s.tickets t in
      AfterTicket
        (v.now_serving == v.next_ticket)
        t
        v.next_ticket
        s.masked
        frames
        (drawn t s)
        a
        (ticket_lock t frames s)
unfolding ticket_lock
ticket_lock-cases {s} {a} h t run frames loose short =
    let v = s.tickets t in
    ticket_loop-cases (Holds-cast (drawn t s) h refl) t
      (record { ne_null = run.ne_null; found = run.found }) v.next_ticket s.masked frames
      (v.now_serving == v.next_ticket)
      (ap (λ (w : Ticket). w.now_serving == v.next_ticket) (update_same s.tickets t _)) loose short
