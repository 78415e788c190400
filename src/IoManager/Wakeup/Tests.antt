-- ===== src/IoManager/Wakeup/Tests.antt =====
-- A task that is added while the thread is about to wait, with a pipe of two bytes.
use net_base.Base.{◌≡◌, ◌≢◌, ◌⊎◌, ◌<◌, arith, refl, ℕ, true, some, []}
use net_base.Scheduler.{add_remote_executor, insert_front, new_scheduler, schedule_all, add_each}
use net_base.IoManager.Wakeup.{
  handling, waiting, inserting, caller_step, loop_step, take_front, no_task, System, at_start,
  after_caller, after_loop, call, caller, loop, Reachable, begins, after,
}
use net_base.IoManager.Wakeup.Pending.{IsPending, waiting-IsPending}
use net_base.IoManager.Wakeup.Lock.{GoesOn, waiting-GoesOn}

abbrev calls : ℕ → System → System
calls i s = after_caller i s (caller_step 2 (s.callers i) s.shared)

abbrev loops : System → System
loops s = after_loop s (loop_step true s.loop s.shared)

-- The thread has looked at the list before the task was added.
abbrev added_late : System
added_late =
    calls 0 (loops (after_caller 0 (loops at_start) (inserting (some 7), (loops at_start).shared)))

added_late-Reachable : Reachable 2 added_late
unfolding at_start
added_late-Reachable =
    after (after (after (after begins (loop true)) (call 0 (some 7) refl)) (loop true)) (caller 0)

some_task : added_late.shared.scheduler.remote_tasks ≢ []
unfolding at_start caller_step loop_step take_front no_task add_remote_executor insert_front
    new_scheduler schedule_all add_each
some_task e = cc

is_waiting : added_late.loop ≡ waiting
unfolding at_start caller_step loop_step take_front no_task new_scheduler schedule_all add_each
is_waiting = refl

waiting-IsPending_example :
    (0 < added_late.shared.pipe) ⊎ ((i : ℕ) × IsPending (added_late.callers i))
waiting-IsPending_example = waiting-IsPending 2 added_late added_late-Reachable is_waiting some_task

waiting-GoesOn_example :
    ((loop_step true added_late.loop added_late.shared).0 ≡ handling true)
    ⊎ ((i : ℕ) × GoesOn 2 i added_late)
waiting-GoesOn_example =
    waiting-GoesOn 2 added_late (omega arith) added_late-Reachable is_waiting some_task
