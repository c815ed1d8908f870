-- ===== src/Machine/Access.antt =====
-- Reads and writes at an address that holds a TCB.
use comp_arch_project.Base.{◌≡◌, ◌≢◌, false, some, arith, ◌==◌}
use comp_arch_project.Machine.{Ptr, null, Tcb, Machine, tid_invalid, ok, load, modify, put, self}

pub not_null : {p : Ptr} → p ≢ null → (p == null) ≡ false
not_null ne = ground arith

module _ (s : Machine) {p : Ptr} {c : Tcb} (ne : p ≢ null) (at : s.heap p ≡ some c) where
  pub load-eq-ok : load p s ≡ ok c s
  unfolding load
  load-eq-ok = rw (not_null ne, at)

  pub modify-eq-ok : (f : Tcb → Tcb) → modify p f s ≡ ok tt (put p (f c) s)
  unfolding modify
  modify-eq-ok f = rw load-eq-ok

-- A thread is running, and `c` is its TCB.
pub record IsRunning (s : Machine) (c : Tcb) : Type 0 where
  pub ne_null : s.current ≢ null
  pub found : s.heap s.current ≡ some c

pub self-eq-ok : {s : Machine} {c : Tcb} → IsRunning s c → self s ≡ ok c.tid s
unfolding self
self-eq-ok {s} run = rw (not_null run.ne_null, load-eq-ok s run.ne_null run.found)

-- Outside any thread `uth_self` is the invalid TID.
pub self_outside : (s : Machine) → s.current ≡ null → self s ≡ ok tid_invalid s
unfolding self
self_outside s e = rw e
