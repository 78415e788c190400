-- ===== src/Scheduler/Stop.antt =====
-- `stop` of include/coroutine/scheduler.h when the pending tasks are not to be processed.
use net_base.Base.{
  arith, ℕ, zero, suc, ◌≡◌, refl, subst, sym, Bool, true, false, List, [], ◌∷◌, Option, none, some,
  if◌then◌else◌, if_both,
}
use net_base.Executor.{State}
use net_base.Scheduler.{
  Scheduler, Round, goes_on, breaks, fails, Run, returned, assertion_failed, out_of_fuel, prepend,
  go_on, schedule_all, stop, default_stop_pending, is_over, is_expected, take_next, no_task, round,
  thread_schedule_func,
}
use net_base.Scheduler.Loop.{loop, round-goes_on, schedule_all_keeps}

pub stop-stopping : (s : Scheduler) → s.exit_with_tasks_processed ≡ true → (stop s).stopping ≡ true
unfolding stop
stop-stopping s h = rw h refl

abbrev pub DoesNotReturn : {W : Type 0} → Run W → Type 0
DoesNotReturn (returned taken w s) = ⊥
DoesNotReturn assertion_failed = Unit {0}
DoesNotReturn out_of_fuel = Unit {0}

module _ {W : Type 0} (get_state : W → ℕ → State) (exec_on : ℕ → W → Scheduler → W × Scheduler)
    (block_pending_func : W → Scheduler → W × Scheduler) where
  -- What runs in the loop does not set the flag `stopping_`.
  abbrev pub NeverStopping : Type 0
  NeverStopping =
      (w : W) (s : Scheduler)
      → s.stopping ≡ false
      → ((e : ℕ) → (exec_on e w s).1.stopping ≡ false)
        × ((block_pending_func w s).1.stopping ≡ false)

  abbrev IsRunning : Round W → Type 0
  IsRunning (goes_on took w s) = s.stopping ≡ false
  IsRunning (breaks w s) = ⊥
  IsRunning fails = Unit {0}

  prepend-DoesNotReturn :
      (took : Option ℕ) (r : Run W) → DoesNotReturn r → DoesNotReturn (prepend took r)
  unfolding prepend
  prepend-DoesNotReturn none r h = h
  prepend-DoesNotReturn (some e) (returned taken w s) h = h
  prepend-DoesNotReturn (some e) assertion_failed h = h
  prepend-DoesNotReturn (some e) out_of_fuel h = h

  go_on-DoesNotReturn :
      (rest : W → Scheduler → Run W) (r : Round W)
      → ((w : W) (s : Scheduler) → s.stopping ≡ false → DoesNotReturn (rest w s))
      → IsRunning r
      → DoesNotReturn (go_on rest r)
  unfolding go_on
  go_on-DoesNotReturn rest (goes_on took w s) h r = prepend-DoesNotReturn took (rest w s) (h w s r)
  go_on-DoesNotReturn rest (breaks w s) h r = absurd r
  go_on-DoesNotReturn rest fails h r = tt

  abbrev next_round : List (Option ℕ) → W → Scheduler → Round W
  next_round = take_next get_state exec_on block_pending_func default_stop_pending

  no_task-IsRunning :
      NeverStopping
      → (w : W) (s : Scheduler) → s.stopping ≡ false
      → IsRunning (no_task get_state exec_on block_pending_func default_stop_pending w s)
  unfolding no_task
  no_task-IsRunning never w s off =
      subst
        (λ (b : Bool). IsRunning (
          if b
          then breaks w s
          else goes_on none (block_pending_func w s).0 (block_pending_func w s).1))
        (sym off) (never w s off).1

  take_next-IsRunning :
      NeverStopping
      → (tasks : List (Option ℕ)) (w : W) (s : Scheduler) → s.stopping ≡ false
      → IsRunning (next_round tasks w s)
  unfolding take_next
  take_next-IsRunning never [] w s off = no_task-IsRunning never w s off
  take_next-IsRunning never (none ∷ rest) w s off =
      no_task-IsRunning never w (record s { ready_executors = rest }) off
  take_next-IsRunning never (some e ∷ rest) w s off =
      let s' : Scheduler = record s { ready_executors = rest } in
      if_both IsRunning (is_over (get_state w e)) off
        (if_both IsRunning (is_expected (get_state (exec_on e w s').0 e)) ((never w s' off).0 e) tt)

  loop-DoesNotReturn :
      NeverStopping
      → (fuel : ℕ) (w : W) (s : Scheduler) → s.stopping ≡ false
      → DoesNotReturn (loop get_state exec_on block_pending_func default_stop_pending fuel w s)
  unfolding thread_schedule_func
  loop-DoesNotReturn never zero w s off = tt
  loop-DoesNotReturn never (suc fuel) w s off =
      go_on-DoesNotReturn (loop get_state exec_on block_pending_func default_stop_pending fuel)
        (round get_state exec_on block_pending_func default_stop_pending w s)
        (loop-DoesNotReturn never fuel)
        (subst IsRunning
          (sym (
            round-goes_on get_state exec_on block_pending_func default_stop_pending (λ w. refl) w
              s))
          (take_next-IsRunning never (schedule_all s).ready_executors w (schedule_all s)
            (schedule_all_keeps s off)))

  -- With exit_with_tasks_processed false, the default stop condition, which is never met, and
  -- nothing in the loop that sets stopping_, the loop does not return behind a call of stop,
  -- however much fuel it has.
  pub stop_has_no_effect :
      NeverStopping
      → (fuel : ℕ) (w : W) (s : Scheduler) → s.stopping ≡ false
      → s.exit_with_tasks_processed ≡ false
      → DoesNotReturn (
          thread_schedule_func get_state exec_on block_pending_func default_stop_pending fuel w
            (stop s))
  stop_has_no_effect never fuel w s off flag =
      loop-DoesNotReturn never fuel w (stop s) (unfold stop in simp flag off)

pub stop-remote_tasks : (s : Scheduler) → (stop s).remote_tasks ≡ s.remote_tasks
unfolding stop
stop-remote_tasks s = ground arith
