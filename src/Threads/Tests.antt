-- ===== src/Threads/Tests.antt =====
-- The kernel of threads/ at work on small inputs, and the theorems at inputs that meet their
-- hypotheses.
use osproject.Base.{ℕ, ◌+◌, ◌≤◌, ◌≡◌, refl, false, Option, none, some, List, [], ◌∷◌, ◌++◌, arith}
use osproject.Base.Outcome.{Outcome, ok, abort, fault, timeout}
use osproject.Threads.Kernel.{just_created, running, p_loop, Semaphore, Kernel, start, put}
use osproject.Threads.Scheduler.{
  ready_to_run, find_next_to_run, check_overflow, delete_finished, run, new_thread, stack_allocate,
  fork, yield, sleep_loop, sleep, finish,
}
use osproject.Threads.Synch.{set_calls, new_semaphore, p_round, p_test, v, destroy}
use osproject.Threads.System.{Step, Reach}
use osproject.Threads.Safety.{no_lost_wakeup, one_place, occurs}
use osproject.Threads.Inv.Defs.{testers, active, Inv}
use osproject.Threads.Inv.Steps.{Reach-Inv}
use osproject.Threads.Inv.Place.{rotated}
use osproject.Threads.Inv.Sched.{yield-Inv}
use osproject.Threads.Inv.Synch.{p_round-waits}
use osproject.Threads.Inv.Wake.{v-Inv, first_of, tail}
use osproject.Threads.Inv.Free.{destroy-Inv}
use osproject.Threads.Leak.{Leaked, finish-Leaked}

abbrev result : Outcome Kernel → Kernel
result (ok k) = k
result abort = start
result fault = start
result timeout = start

-- Thread 0 makes thread 1 and semaphores 2 and 3, and waits for semaphore 2.
abbrev created : Kernel
created = (new_thread start).0

abbrev forked : Kernel
forked = result (fork 1 created)

abbrev one_semaphore : Kernel
one_semaphore = (new_semaphore 0 forked).0

abbrev two_semaphores : Kernel
two_semaphores = (new_semaphore 1 one_semaphore).0

abbrev called : Kernel
called = result (set_calls (p_loop 2 ∷ []) two_semaphores)

abbrev waiting : Kernel
waiting = result (p_round 2 [] called)

forked_reached : Reach forked
unfolding start new_thread fork stack_allocate ready_to_run new_semaphore set_calls p_round p_test
    sleep sleep_loop find_next_to_run run check_overflow delete_finished
forked_reached =
    Reach.later (Reach.later Reach.boot (Step.creates refl))
      (Step.forks 1 (record { status = just_created; stack = none; calls = [] }) refl refl refl)

called_reached : Reach called
unfolding start new_thread fork stack_allocate ready_to_run new_semaphore set_calls p_round p_test
    sleep sleep_loop find_next_to_run run check_overflow delete_finished
called_reached =
    Reach.later
      (Reach.later (Reach.later forked_reached (Step.creates_semaphore 0))
        (Step.creates_semaphore 1))
      (Step.calls_p 2 (refl, (record { status = running; stack = none; calls = [] }, refl, refl))
        refl)

waiting_reached : Reach waiting
unfolding start new_thread fork stack_allocate ready_to_run new_semaphore set_calls p_round p_test
    sleep sleep_loop find_next_to_run run check_overflow delete_finished
waiting_reached = Reach.later called_reached (
    Step.tests_p 2 []
      (refl, (record { status = running; stack = none; calls = p_loop 2 ∷ [] }, refl, refl)) refl)

abbrev queue_of : Option Semaphore → List ℕ
queue_of none = []
queue_of (some m) = m.queue

waiting_queue : queue_of (waiting.semaphores 2) ≡ 0 ∷ []
unfolding start new_thread fork stack_allocate ready_to_run new_semaphore set_calls p_round p_test
    sleep sleep_loop find_next_to_run run check_overflow delete_finished
waiting_queue = refl

no_lost_wakeup_example : 0 ≤ testers waiting.threads 2 (active waiting)
unfolding start new_thread fork stack_allocate ready_to_run new_semaphore set_calls p_round p_test
    sleep sleep_loop find_next_to_run run check_overflow delete_finished
no_lost_wakeup_example =
    no_lost_wakeup waiting_reached 2 (record { value = 0; queue = 0 ∷ [] }) refl (λ e. cc)

one_place_example :
    (occurs 0 (active waiting) + occurs 0 (0 ∷ []) ≤ 1) × (occurs 0 (0 ∷ []) + occurs 0 [] ≤ 1)
unfolding start new_thread fork stack_allocate ready_to_run new_semaphore set_calls p_round p_test
    sleep sleep_loop find_next_to_run run check_overflow delete_finished
one_place_example =
    one_place waiting_reached 0 2 3 (record { value = 0; queue = 0 ∷ [] })
      (record { value = 1; queue = [] }) refl refl (omega arith)

yield-Inv_example :
    (k' : Kernel) × (yield forked ≡ ok k')
    × Inv k'
    × (k'.idle ≡ false)
    × (k'.current ∷ k'.ready_list ≡ rotated (forked.current ∷ forked.ready_list))
    × (k'.semaphores ≡ forked.semaphores)
unfolding start new_thread fork stack_allocate ready_to_run new_semaphore set_calls p_round p_test
    sleep sleep_loop find_next_to_run run check_overflow delete_finished
yield-Inv_example = yield-Inv forked (Reach-Inv forked_reached) refl

p_round-waits_example :
    (k' : Kernel) × (p_round 2 [] called ≡ ok k')
    × Inv k'
    × (k'.semaphores ≡ put called.semaphores 2 (some (record { value = 0; queue = [] ++ 0 ∷ [] })))
unfolding start new_thread fork stack_allocate ready_to_run new_semaphore set_calls p_round p_test
    sleep sleep_loop find_next_to_run run check_overflow delete_finished
p_round-waits_example =
    p_round-waits called (Reach-Inv called_reached) refl
      (record { status = running; stack = none; calls = p_loop 2 ∷ [] }) refl 2 []
      (record { value = 0; queue = [] }) refl refl refl

v-Inv_example :
    (k' : Kernel) × (v 2 waiting ≡ ok k')
    × Inv k'
    × (k'.idle ≡ waiting.idle)
    × (k'.current ≡ waiting.current)
    × (k'.ready_list ≡ waiting.ready_list ++ first_of (0 ∷ []))
    × (k'.semaphores
        ≡ put waiting.semaphores 2 (some (record { value = 0 + 1; queue = tail (0 ∷ []) })))
unfolding start new_thread fork stack_allocate ready_to_run new_semaphore set_calls p_round p_test
    sleep sleep_loop find_next_to_run run check_overflow delete_finished
v-Inv_example =
    v-Inv 2 waiting (record { value = 0; queue = 0 ∷ [] }) (Reach-Inv waiting_reached) refl
      (omega arith)

destroy-Inv_example :
    (k' : Kernel) × (destroy 2 waiting ≡ ok k')
    × Inv k'
    × (k'.idle ≡ waiting.idle)
    × (k'.current ≡ waiting.current)
    × (k'.ready_list ≡ waiting.ready_list ++ 0 ∷ [])
    × (k'.semaphores ≡ put waiting.semaphores 2 (some (record { value = 0; queue = [] })))
unfolding start new_thread fork stack_allocate ready_to_run new_semaphore set_calls p_round p_test
    sleep sleep_loop find_next_to_run run check_overflow delete_finished
destroy-Inv_example =
    destroy-Inv 2 waiting (record { value = 0; queue = 0 ∷ [] }) (Reach-Inv waiting_reached) refl

-- Thread 0 finishes, and thread 1, which is new, runs before thread 0 is deleted.
abbrev both_forked : Kernel
both_forked = result (fork 2 (new_thread forked).0)

abbrev one_finished : Kernel
one_finished = result (finish both_forked)

abbrev both_finished : Kernel
both_finished = result (finish one_finished)

one_finished_reached : Reach one_finished
unfolding start new_thread fork stack_allocate ready_to_run new_semaphore set_calls p_round p_test
    sleep sleep_loop find_next_to_run run check_overflow delete_finished finish
one_finished_reached =
    Reach.later
      (Reach.later (Reach.later forked_reached (Step.creates refl))
        (Step.forks 2 (record { status = just_created; stack = none; calls = [] }) refl refl refl))
      (Step.finishes (refl, (record { status = running; stack = none; calls = [] }, refl, refl))
        refl)

finish-Leaked_example : Leaked 0 both_finished
unfolding start new_thread fork stack_allocate ready_to_run new_semaphore set_calls p_round p_test
    sleep sleep_loop find_next_to_run run check_overflow delete_finished finish
finish-Leaked_example =
    finish-Leaked one_finished 0 (Reach-Inv one_finished_reached)
      (refl, (record { status = running; stack = some 0xdeadbeef; calls = [] }, refl, refl)) refl
      refl
