-- ===== src/Thread/Bootstrap.antt =====
-- `uth_run` of thread.c: the jump into the scheduler, and back when its loop has ended. Its static
-- flag tells the two returns of `getcontext` apart, and `uc_link` of the scheduler's context says
-- where control goes when `scheduler_loop` returns.
use comp_arch_project.Base.{◌≡◌, refl, Bool, true, false, if◌then◌else◌, Option, none, some}

-- Where control is: behind the first `getcontext` of `uth_run`, in the scheduler, back in the caller
-- of `uth_run`, or nowhere, since a thread whose context has no link ends.
pub data Place : Type 0 where
  at_getcontext : Place
  in_scheduler : Place
  in_caller : Place
  ended : Place

-- The static flag, and `uth_sched_ctx.uc_link`.
pub record Bootstrap : Type 0 where
  pub returned : Bool
  pub link : Option Place
  pub place : Place

-- `uth_run` from a return of its `getcontext` on, up to `setcontext`
unfoldable pub after_getcontext : Bootstrap → Bootstrap
after_getcontext b =
    if b.returned
    then record b { place = in_caller }
    else record { returned = true; link = some at_getcontext; place = in_scheduler }

-- `uth_run` up to its first `getcontext`, which saves the context, and from there on
unfoldable pub run_start : Bootstrap → Bootstrap
unfolding after_getcontext
run_start b = after_getcontext (record b { returned = false; place = at_getcontext })

-- What follows the return of `scheduler_loop`: control goes to the context of its link, which for
-- `bootstrap` is the return of `getcontext`.
unfoldable pub follow_link : Bootstrap → Bootstrap
unfolding after_getcontext
follow_link b = elim b.link [
  | none ↦ record b { place = ended }
  | some p ↦ after_getcontext (record b { place = p })
]

-- When the scheduler's loop has returned, `uth_run` returns to its caller, whatever an earlier run
-- has left in the flag and in the context.
pub run_start-returns : (b : Bootstrap) → (follow_link (run_start b)).place ≡ in_caller
unfolding run_start follow_link
run_start-returns b = refl
