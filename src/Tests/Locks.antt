-- ===== src/Tests/Locks.antt =====
-- The theorems on the locks, semaphores and conditions, applied to the machine of five threads.
use comp_arch_project.Base.{◌≡◌, refl, true, false, [], ◌∷◌, arith}
use comp_arch_project.Machine.{
  null, running, in_mutex_lock, in_cond_wait, in_ticket_lock, Machine, ok, switched, ◌>>◌,
}
use comp_arch_project.Machine.Access.{IsRunning}
use comp_arch_project.Mutex.{set_mutex, mutex_lock, mutex_unlock}
use comp_arch_project.Mutex.Locking.{
  unheld, mutex_lock-cases, mutex_unlock-wakes, mutex_lock-unlock,
}
use comp_arch_project.Ticket.{set_ticket, ticket_lock, ticket_unlock}
use comp_arch_project.Ticket.Order.{serving_next, wake_holder, ticket_unlock-wakes}
use comp_arch_project.Ticket.Waiting.{with_ticket, drawn, ticket_lock-cases}
use comp_arch_project.Cond.{cond_wait, cond_broadcast}
use comp_arch_project.Cond.Waiting.{cond_wait-releases, cond_broadcast-wakes}
use comp_arch_project.Sem.{sem_wait, sem_post}
use comp_arch_project.Sem.Counting.{with_value, sem_wait-cases, sem_post-wakes}
use comp_arch_project.Queue.Spec.{
  Holds, Holds-cast, Links, with_links, change, set_ctx, make_wait, wake_first, make_all_ready,
}
use comp_arch_project.Queue.WakeAll.{emptied}
use comp_arch_project.Tests.Fixture.{
  thread, machine, queues, machine-Holds, machine-IsRunning, current-IsLoose,
}

mutex_lock-cases_example :
    let off : Machine = record (machine null) { masked = true } in
    (k : Links) × (mutex_lock 7 [] (machine null)
      ≡ switched (record (with_links k off) { masked = true }))
    × Holds
        (with_links k off)
        (change 16 (set_ctx (in_mutex_lock 7 false ∷ []) true) (make_wait 7 16 (queues null)))
mutex_lock-cases_example =
    mutex_lock-cases (machine-Holds null) 7 (machine-IsRunning null) [] (current-IsLoose null)
      (omega arith)

mutex_unlock-wakes_example :
    (k : Links) × (mutex_unlock 7 (machine null)
      ≡ ok tt (with_links k (set_mutex 7 unheld (machine null))))
    × Holds (with_links k (set_mutex 7 unheld (machine null))) (wake_first 7 (queues null))
mutex_unlock-wakes_example = mutex_unlock-wakes (machine-Holds null) 7 (machine-IsRunning null) refl

-- Here every mutex is free.
abbrev free_machine : Machine
free_machine = record (machine null) { mutexes = λ _. unheld }

free_machine-Holds : Holds free_machine (queues null)
free_machine-Holds = Holds-cast free_machine (machine-Holds null) refl

free_machine-IsRunning : IsRunning free_machine (thread 1 running null)
free_machine-IsRunning = record { ne_null = omega arith; found = refl }

mutex_lock-unlock_example :
    (k : Links) × ((do mutex_lock 7 []; mutex_unlock 7) free_machine
      ≡ ok tt (with_links k (set_mutex 7 unheld free_machine)))
    × Holds (with_links k (set_mutex 7 unheld free_machine)) (wake_first 7 (queues null))
mutex_lock-unlock_example = mutex_lock-unlock free_machine-Holds 7 free_machine-IsRunning refl

ticket_unlock-wakes_example :
    let served : Machine = set_ticket 7 (serving_next ((machine null).tickets 7)) (machine null) in
    (k : Links) × (ticket_unlock 7 (machine null) ≡ ok tt (with_links k served))
    × Holds (with_links k served) (wake_holder 7 5 [] (48 ∷ []) (queues null))
ticket_unlock-wakes_example = ticket_unlock-wakes (machine-Holds null) 7 (omega arith)

ticket_lock-cases_example :
    (k : Links) × (ticket_lock 7 [] (machine null)
      ≡ switched (record (with_links k (drawn 7 (machine null))) { masked = true }))
    × Holds (with_links k (drawn 7 (machine null))) (
        change 16
          (set_ctx (in_ticket_lock 7 6 false ∷ []) true)
          (make_wait 7 16 (change 16 (with_ticket 6) (queues null))))
ticket_lock-cases_example =
    ticket_lock-cases (machine-Holds null) 7 (machine-IsRunning null) [] (current-IsLoose null)
      (omega arith)

cond_wait-releases_example :
    (k : Links) × (cond_wait 8 7 [] (machine null)
      ≡ switched (record (with_links k (set_mutex 7 unheld (machine null))) { masked = true }))
    × Holds (with_links k (set_mutex 7 unheld (machine null))) (
        change 16
          (set_ctx (in_cond_wait 8 7 false ∷ []) true)
          (make_wait 8 16 (wake_first 7 (queues null))))
cond_wait-releases_example =
    cond_wait-releases (machine-Holds null) 8 7 (machine-IsRunning null) [] refl
      (current-IsLoose null) (omega arith)

cond_broadcast-wakes_example :
    (k : Links) × (cond_broadcast 7 (machine null) ≡ ok tt (with_links k (machine null)))
    × Holds (with_links k (machine null)) (make_all_ready (48 ∷ []) (emptied 7 (queues null)))
cond_broadcast-wakes_example = cond_broadcast-wakes (machine-Holds null) 7 (omega arith)

sem_wait-cases_example : sem_wait 7 [] (machine null) ≡ ok tt (with_value 7 1 (machine null))
sem_wait-cases_example =
    sem_wait-cases (machine-Holds null) 7 (machine-IsRunning null) 2 [] refl (current-IsLoose null)
      (omega arith)

sem_post-wakes_example :
    (k : Links) × (sem_post 7 (machine null) ≡ ok tt (with_links k (with_value 7 3 (machine null))))
    × Holds (with_links k (with_value 7 3 (machine null))) (wake_first 7 (queues null))
sem_post-wakes_example = sem_post-wakes (machine-Holds null) 7 2 refl (omega arith)
