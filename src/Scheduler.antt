-- ===== src/Scheduler.antt =====
-- include/coroutine/scheduler.h and src/coroutine/scheduler.cpp: the queue of a thread's
-- executors and the loop that runs them. An executor is its address;
-- a null pointer is `none`. The lock-free list of tasks
-- from other threads is the list of its nodes from `head` on, which each call changes at once; the
-- threads' steps on the nodes are in Scheduler/Remote.
-- What the loop calls is a parameter: running an executor (its callback is a client's code), the
-- block function and the stop condition, over a world `W` of their own.
pub mod Loop
pub mod Remote
pub mod Stop
mod Tests
use net_base.Base.{
  ℕ, zero, suc, ◌+◌, ◌≡◌, Bool, true, false, not, ◌&&◌, ◌||◌, List, [], ◌∷◌, ◌++◌, Option, none,
  some, ◌==◌, if◌then◌else◌,
}
use net_base.Executor.{State, init, exec, ready, hold_up, terminal, aborted}

pub record Scheduler : Type 0 where
  pub stopping : Bool
  pub stopped : Bool
  pub exit_with_tasks_processed : Bool
  pub ready_executors : List (Option ℕ)
  pub remote_tasks : List (Option ℕ)

-- A new scheduler; its default stop condition is never met.
unfoldable pub new_scheduler : Scheduler
new_scheduler = record {
  stopping = false;
  stopped = false;
  exit_with_tasks_processed = true;
  ready_executors = [];
  remote_tasks = [];
}

abbrev pub default_stop_pending {ℓ} : {W : Type ℓ} → W → Bool
default_stop_pending w = false

-- Scheduler::addExecutor
unfoldable pub add_executor : Option ℕ → Scheduler → Bool × Scheduler
add_executor e s =
    if s.stopping
    then (false, s)
    else (true, record s { ready_executors = s.ready_executors ++ e ∷ [] })

pub same_ptr : Option ℕ → Option ℕ → Bool
same_ptr none none = true
same_ptr (some p) (some q) = p == q
same_ptr _ _ = false

erase_first : Option ℕ → List (Option ℕ) → List (Option ℕ)
unfolding same_ptr
erase_first e [] = []
erase_first e (x ∷ xs) = if same_ptr x e then xs else x ∷ erase_first e xs

-- Scheduler::removeExecutor
pub remove_executor : Option ℕ → Scheduler → Scheduler
unfolding erase_first
remove_executor e s = record s { ready_executors = erase_first e s.ready_executors }

pub is_empty : List (Option ℕ) → Bool
is_empty [] = true
is_empty (x ∷ xs) = false

-- RemoteTaskList::insertFront; the result says whether the list was empty before.
unfoldable pub insert_front : Option ℕ → Scheduler → Bool × Scheduler
unfolding is_empty
insert_front e s = (is_empty s.remote_tasks, record s { remote_tasks = e ∷ s.remote_tasks })

-- Scheduler::addRemoteExecutor
unfoldable pub add_remote_executor : Option ℕ → Scheduler → Bool × Scheduler
unfolding insert_front
add_remote_executor e s = insert_front e s

-- The loop over the nodes taken; what `addExecutor` returns is not looked at.
unfoldable pub add_each : List (Option ℕ) → Scheduler → Scheduler
unfolding add_executor
add_each [] s = s
add_each (e ∷ nodes) s = add_each nodes (add_executor e s).1

-- RemoteTaskList::scheduleAll
unfoldable pub schedule_all : Scheduler → Scheduler
unfolding add_each
schedule_all s = add_each s.remote_tasks (record s { remote_tasks = [] })

-- Scheduler::stop
unfoldable pub stop : Scheduler → Scheduler
stop s =
    if s.exit_with_tasks_processed
    then record s { stopping = true }
    else record s { stopped = true }

pub set_exit_with_tasks_processed : Bool → Scheduler → Scheduler
set_exit_with_tasks_processed b s = record s { exit_with_tasks_processed = b }

-- How a round of the loop ends: it goes on, `break`, or a failed assertion. `took` is the executor
-- taken from the queue.
pub data Round (W : Type 0) : Type 0 where
  goes_on : (took : Option ℕ) → W → Scheduler → Round W
  breaks : W → Scheduler → Round W
  fails : Round W

-- Whether an executor taken from the queue is still to be run.
pub is_over : State → Bool
is_over terminal = true
is_over aborted = true
is_over _ = false

-- The states in which `exec` may leave an executor.
pub is_expected : State → Bool
is_expected terminal = true
is_expected hold_up = true
is_expected aborted = true
is_expected _ = false

-- What a run of the loop comes to, with the executors taken from the queue.
pub data Run (W : Type 0) : Type 0 where
  returned : (taken : List ℕ) → W → Scheduler → Run W
  assertion_failed out_of_fuel : Run W

prepend : {W : Type 0} → Option ℕ → Run W → Run W
prepend none r = r
prepend (some e) (returned taken w s) = returned (e ∷ taken) w s
prepend (some e) assertion_failed = assertion_failed
prepend (some e) out_of_fuel = out_of_fuel

go_on : {W : Type 0} → (W → Scheduler → Run W) → Round W → Run W
unfolding prepend
go_on rest (goes_on took w s) = prepend took (rest w s)
go_on rest (breaks w s) = returned [] w s
go_on rest fails = assertion_failed

module _ {W : Type 0} (get_state : W → ℕ → State) (exec_on : ℕ → W → Scheduler → W × Scheduler)
    (block_pending_func : W → Scheduler → W × Scheduler) (stop_pending_func : W → Bool) where
  -- Scheduler::stop_pending
  stop_pending : W → Scheduler → Bool
  stop_pending w s = s.stopped && stop_pending_func w

  -- Behind the call of `exec`: any other state is unexpected.
  check_state : ℕ → W × Scheduler → Round W
  unfolding is_expected
  check_state e (w, s) = if is_expected (get_state w e) then goes_on (some e) w s else fails

  pub run_executor : ℕ → W → Scheduler → Round W
  unfolding check_state is_over
  run_executor e w s =
      if is_over (get_state w e) then goes_on (some e) w s else check_state e (exec_on e w s)

  blocked : W × Scheduler → Round W
  blocked (w, s) = goes_on none w s

  -- The body of the loop behind `scheduleAll`.
  -- There is nothing to run.
  pub no_task : W → Scheduler → Round W
  unfolding blocked
  no_task w s = if s.stopping then breaks w s else blocked (block_pending_func w s)

  -- The body of the loop behind `scheduleAll`. A null pointer in the queue counts as no task.
  pub take_next : List (Option ℕ) → W → Scheduler → Round W
  unfolding run_executor no_task
  take_next [] w s = no_task w s
  take_next (none ∷ rest) w s = no_task w (record s { ready_executors = rest })
  take_next (some e ∷ rest) w s = run_executor e w (record s { ready_executors = rest })

  pub round : W → Scheduler → Round W
  unfolding take_next schedule_all stop_pending
  round w s =
      if stop_pending w s
      then breaks w s
      else take_next (schedule_all s).ready_executors w (schedule_all s)

  -- Scheduler::threadScheduleFunc, up to its call of `mainYield`.
  pub thread_schedule_func : ℕ → W → Scheduler → Run W
  unfolding go_on round
  thread_schedule_func zero w s = out_of_fuel
  thread_schedule_func (suc fuel) w s = go_on (thread_schedule_func fuel) (round w s)
