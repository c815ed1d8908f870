-- ===== src/System/Calls.antt =====
-- The calls of thread.c, src/mutex.c and src/sync.c by the running thread, and the interrupt.
use comp_arch_project.Base.{◌≡◌, List}
use comp_arch_project.Machine.{running, Frame, Tcb, Machine}
use comp_arch_project.Machine.Access.{IsRunning}
use comp_arch_project.Queue.Spec.{Queues}
use comp_arch_project.Api.{
  Call, yields, locks, unlocks, draws, serves, sleeps, signals, broadcasts, takes, posts, relocks,
  redraws, retakes, exits, joins, rejoins, spins, frees, interrupted,
}
use comp_arch_project.System.{IsSound, Allowed, Ends}
use comp_arch_project.System.Switching.{yields-Ends, spins-Ends, interrupted-Ends, sleeps-Ends}
use comp_arch_project.System.Blocking.{
  locks-Ends, relocks-Ends, draws-Ends, redraws-Ends, takes-Ends, retakes-Ends,
}
use comp_arch_project.System.Waking.{
  unlocks-Ends, serves-Ends, signals-Ends, broadcasts-Ends, posts-Ends, frees-Ends,
}
use comp_arch_project.System.Ending.{exits-Ends}
use comp_arch_project.System.Collecting.{joins-Ends, rejoins-Ends}

module _ {s : Machine} {a : Queues} {c : Tcb} (sound : IsSound s a) (run : IsRunning s c)
    (st : c.state ≡ running) (frames : List Frame) where
  -- On a machine whose queues and thread table are well-formed, in which every TCB has an entry of
  -- the table, and every joiner is blocked, in no queue, and noted once, with a running thread: a
  -- yield, an exit, a join, a lock or unlock of a spinlock, every lock, unlock, wait, signal,
  -- broadcast and post on a mutex, ticket lock, condition variable or semaphore, another round of
  -- the loop of a lock or wait, the rest of a join, and an interrupt by the timer end, with no
  -- fault and no loop that runs out of fuel, in a machine of the same kind; they return or switch
  -- as the specification of the calls says, and leave the mutexes, ticket locks, spinlocks and
  -- semaphores as it says; provided that a mutex is released by its owner, a semaphore's value is
  -- not negative, and it is not raised past the largest `int`, and the target of a join that goes
  -- on is a zombie or gone.
  pub perform-IsSound : (call : Call) → Allowed call s c → Ends call frames s c.tid
  perform-IsSound yields ok = yields-Ends sound run st frames
  perform-IsSound (locks m) ok = locks-Ends sound run st frames m
  perform-IsSound (unlocks m) own = unlocks-Ends sound run st frames m own
  perform-IsSound (draws q) ok = draws-Ends sound run st frames q
  perform-IsSound (serves q) ok = serves-Ends sound run st frames q
  perform-IsSound (sleeps q m) own = sleeps-Ends sound run st frames q m own
  perform-IsSound (signals q) ok = signals-Ends sound run st frames q
  perform-IsSound (broadcasts q) ok = broadcasts-Ends sound run st frames q
  perform-IsSound (takes q) (n, e) = takes-Ends sound run st frames q n e
  perform-IsSound (posts q) (n, e, small) = posts-Ends sound run st frames q n e small
  perform-IsSound (relocks m old) ok = relocks-Ends sound run st frames m old
  perform-IsSound (redraws q n old) ok = redraws-Ends sound run st frames q n old
  perform-IsSound (retakes q old) (n, e) = retakes-Ends sound run st frames q old n e
  perform-IsSound (exits retval) ok = exits-Ends sound run st frames retval
  perform-IsSound (joins tid retval) ok = joins-Ends sound run st frames tid retval
  perform-IsSound (rejoins tid retval old) gone =
      rejoins-Ends sound run st frames tid retval old gone
  perform-IsSound (spins l) ok = spins-Ends sound run st frames l
  perform-IsSound (frees l) ok = frees-Ends sound run st frames l
  perform-IsSound interrupted ok = interrupted-Ends sound run st frames
