-- ===== src/Thread/Trampoline.antt =====
-- The address of a TCB on its way through `makecontext`.
use comp_arch_project.Base.{◌<◌, ◌^◌, ◌≡◌, ◌≢◌, some, arith}
use comp_arch_project.Machine.{Ptr, null, Tcb, Machine, ok}
use comp_arch_project.Machine.Access.{load-eq-ok}
use comp_arch_project.Thread.{hi_half, lo_half, join_halves, trampoline_enter}

join-halves : (p : Ptr) → p < 2 ^ 64 → join_halves (hi_half p) (lo_half p) ≡ p
join-halves p h = omega arith

-- For a TCB at an address below 2 ^ 64 that is not `NULL`, the trampoline puts the address together
-- again from the two 32-bit halves that `uth_create` passes to it, and reads the function and the
-- argument of this thread.
pub trampoline_enter-halves :
    (s : Machine) (p : Ptr) {c : Tcb}
    → p < 2 ^ 64
    → p ≢ null
    → s.heap p ≡ some c
    → trampoline_enter (hi_half p) (lo_half p) s ≡ ok (c.fn, c.arg) s
unfolding trampoline_enter
trampoline_enter-halves s p h ne found = rw (join-halves p h, load-eq-ok s ne found)
