-- ===== src/Scheduler/Tests.antt =====
-- The theorems on the scheduler at three tasks that yield, and one that stops the scheduler.
use net_base.Base.{
  some, map, ℕ, ◌+◌, ◌≡◌, refl, ◌⊎◌, true, false, [], ◌∷◌, ◌==◌, if◌then◌else◌, arith,
}
use net_base.Executor.{State, hold_up}
use net_base.Scheduler.{
  Scheduler, Run, returned, new_scheduler, add_executor, add_remote_executor, schedule_all, stop,
  set_exit_with_tasks_processed, thread_schedule_func, default_stop_pending,
}
use net_base.Scheduler.Loop.{schedule_all_lem, add_executor_lem, thread_schedule_func_drains, loop}
use net_base.Scheduler.Stop.{stop_has_no_effect, DoesNotReturn}

-- The world counts the runs. Task 9 stops the scheduler; every task is suspended afterwards.
abbrev run_task : ℕ → ℕ → Scheduler → ℕ × Scheduler
run_task e w s = (w + 1, if e == 9 then record s { stopping = true } else s)

abbrev suspended_state : ℕ → ℕ → State
suspended_state w e = hold_up

abbrev sleep : ℕ → Scheduler → ℕ × Scheduler
sleep w s = (w, s)

abbrev filled : Scheduler
filled = record {
  stopping = false;
  stopped = false;
  exit_with_tasks_processed = true;
  ready_executors = map some (1 ∷ 9 ∷ []);
  remote_tasks = map some (3 ∷ 2 ∷ []);
}

abbrev stopping_one : Scheduler
stopping_one = record filled { stopping = true }

loop_runs :
    thread_schedule_func suspended_state run_task sleep default_stop_pending 6 0 filled
    ≡ returned
        (1 ∷ 9 ∷ 3 ∷ 2 ∷ [])
        4
        (record filled { stopping = true; ready_executors = []; remote_tasks = [] })
unfolding thread_schedule_func
loop_runs = refl

add_executor_lem_run :
    ((filled.stopping ≡ false)
      × (add_executor (some 4) filled
          ≡ (true, record filled { ready_executors = map some (1 ∷ 9 ∷ 4 ∷ []) })))
    ⊎ ((filled.stopping ≡ true) × (add_executor (some 4) filled ≡ (false, filled)))
add_executor_lem_run = add_executor_lem (some 4) filled

schedule_all_lem_run :
    ((filled.stopping ≡ false)
      × (schedule_all filled
          ≡ record filled { ready_executors = map some (1 ∷ 9 ∷ 3 ∷ 2 ∷ []); remote_tasks = [] }))
    ⊎ ((filled.stopping ≡ true) × (schedule_all filled ≡ record filled { remote_tasks = [] }))
schedule_all_lem_run = schedule_all_lem filled

settles :
    (e w : ℕ) (s : Scheduler)
    → s.stopping ≡ true
    → ((run_task e w s).1.stopping ≡ true)
      × ((run_task e w s).1.ready_executors ≡ s.ready_executors)
      × (true ≡ true)
settles e w s on = ground arith

thread_schedule_func_drains_example :
    (v : ℕ) × (u : Scheduler) × (loop suspended_state run_task sleep default_stop_pending 3 0
        stopping_one
      ≡ returned (1 ∷ 9 ∷ []) v u)
    × (u.ready_executors ≡ [])
thread_schedule_func_drains_example =
    thread_schedule_func_drains suspended_state run_task sleep default_stop_pending
      (unfold net_base.Scheduler.is_expected in settles) (λ w. refl) (1 ∷ 9 ∷ []) 3 0 stopping_one
      refl refl (omega arith)

stop_has_no_effect_example : DoesNotReturn (
    thread_schedule_func suspended_state
      (λ e w s. (w + 1, s))
      sleep
      default_stop_pending
      1000
      0
      (stop (record filled { exit_with_tasks_processed = false })))
stop_has_no_effect_example =
    stop_has_no_effect suspended_state (λ e w s. (w + 1, s)) sleep (λ w s off. (λ e. off, off)) 1000
      0 (record filled { exit_with_tasks_processed = false }) refl refl
