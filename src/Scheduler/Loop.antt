-- ===== src/Scheduler/Loop.antt =====
-- `scheduleAll`, and the loop of src/coroutine/scheduler.cpp once it is told to stop.
use mathlib.Core.List.{append_assoc, append-nil}
use net_base.Base.{
  Option, ℕ, zero, suc, ◌<◌, ◌≡◌, refl, sym, ap, ◌∙◌, ◌⊎◌, Bool, true, false, ◌&&◌, List, [], ◌∷◌,
  ◌++◌, some, inl, inr, arith, length, map, Bool-cases,
}
use net_base.Executor.{State}
use net_base.Scheduler.{
  Scheduler, Round, goes_on, breaks, Run, returned, prepend, go_on, add_executor, add_each,
  schedule_all, is_over, is_expected, run_executor, take_next, round, thread_schedule_func,
}

abbrev with_ready : Scheduler → List (Option ℕ) → Scheduler
with_ready s xs = record s { ready_executors = xs }

-- `addExecutor` appends, and refuses exactly while stopping.
pub add_executor_lem :
    (e : Option ℕ) (s : Scheduler)
    → ((s.stopping ≡ false)
        × (add_executor e s ≡ (true, record s { ready_executors = s.ready_executors ++ e ∷ [] })))
      ⊎ ((s.stopping ≡ true) × (add_executor e s ≡ (false, s)))
unfolding add_executor
add_executor_lem e s = ground arith

pub add_executor-running :
    (e : Option ℕ) (s : Scheduler)
    → s.stopping ≡ false
    → (add_executor e s).1 ≡ with_ready s (s.ready_executors ++ e ∷ [])
unfolding add_executor
add_executor-running e s h = simp h

add_executor-stopping :
    (e : Option ℕ) (s : Scheduler) → s.stopping ≡ true → (add_executor e s).1 ≡ s
unfolding add_executor
add_executor-stopping e s h = simp h

and_false : (b : Bool) → (b && false) ≡ false
and_false true = refl
and_false false = refl

add_each-running :
    (nodes : List (Option ℕ)) (s : Scheduler)
    → s.stopping ≡ false
    → add_each nodes s ≡ with_ready s (s.ready_executors ++ nodes)
unfolding add_each
add_each-running [] s h = ap (with_ready s) (sym (append-nil s.ready_executors))
add_each-running (e ∷ nodes) s h =
    ap (add_each nodes) (add_executor-running e s h)
    ∙ add_each-running nodes (with_ready s (s.ready_executors ++ e ∷ [])) h
    ∙ ap (with_ready s) (append_assoc s.ready_executors (e ∷ []) nodes)

add_each-stopping :
    (nodes : List (Option ℕ)) (s : Scheduler) → s.stopping ≡ true → add_each nodes s ≡ s
unfolding add_each
add_each-stopping [] s h = refl
add_each-stopping (e ∷ nodes) s h =
    ap (add_each nodes) (add_executor-stopping e s h) ∙ add_each-stopping nodes s h

-- Unless the scheduler stops, scheduleAll puts the remote tasks behind the ready executors, the
-- newest first; while it stops they are lost. The remote list is empty afterwards.
pub schedule_all_lem :
    (s : Scheduler)
    → ((s.stopping ≡ false)
        × (schedule_all s ≡ record s {
          ready_executors = s.ready_executors ++ s.remote_tasks;
          remote_tasks = [];
        }))
      ⊎ ((s.stopping ≡ true) × (schedule_all s ≡ record s { remote_tasks = [] }))
unfolding schedule_all
schedule_all_lem s = elim (Bool-cases s.stopping) [
  | inl on ↦ inr (on, add_each-stopping s.remote_tasks (record s { remote_tasks = [] }) on)
  | inr off ↦ inl (off, add_each-running s.remote_tasks (record s { remote_tasks = [] }) off)
]

pub schedule_all-remote_tasks : (s : Scheduler) → (schedule_all s).remote_tasks ≡ []
schedule_all-remote_tasks s = ground (arith, schedule_all_lem s)

schedule_all-stopping :
    (s : Scheduler) → s.stopping ≡ true → schedule_all s ≡ record s { remote_tasks = [] }
unfolding schedule_all
schedule_all-stopping s on = add_each-stopping s.remote_tasks (record s { remote_tasks = [] }) on

pub schedule_all_keeps : (s : Scheduler) → s.stopping ≡ false → (schedule_all s).stopping ≡ false
schedule_all_keeps s off = ground (arith, schedule_all_lem s)

module _ {W : Type 0} (get_state : W → ℕ → State) (exec_on : ℕ → W → Scheduler → W × Scheduler)
    (block_pending_func : W → Scheduler → W × Scheduler) (stop_pending_func : W → Bool) where
  abbrev pub loop : ℕ → W → Scheduler → Run W
  loop = thread_schedule_func get_state exec_on block_pending_func stop_pending_func

  -- While the scheduler stops, what an executor does leaves the queue as it is (`addExecutor`
  -- refuses), does not take the order to stop back, and ends in a state that the loop expects.
  abbrev pub Settles : Type 0
  Settles =
      (e : ℕ) (w : W) (s : Scheduler)
      → s.stopping ≡ true
      → ((exec_on e w s).1.stopping ≡ true)
        × ((exec_on e w s).1.ready_executors ≡ s.ready_executors)
        × (is_expected (get_state (exec_on e w s).0 e) ≡ true)

  -- A round that takes `e` from the queue while the scheduler stops.
  run_executor-stopping :
      Settles
      → (e : ℕ) (w : W) (s : Scheduler) → s.stopping ≡ true
      → (v : W) × (u : Scheduler) × (run_executor get_state exec_on block_pending_func
            stop_pending_func e w s
          ≡ goes_on (some e) v u)
        × (u.stopping ≡ true)
        × (u.ready_executors ≡ s.ready_executors)
  unfolding run_executor
  run_executor-stopping settles e w s on = elim (Bool-cases (is_over (get_state w e))) [
    | inl over ↦ (w, s, rw over, on, refl)
    | inr live ↦
        let (a, b, c) = settles e w s on in
        ((exec_on e w s).0, (exec_on e w s).1, rw (live, c), a, b)
  ]

  abbrev pub next_of : W → Scheduler → Round W
  next_of w s =
      take_next get_state exec_on block_pending_func stop_pending_func s.ready_executors w s

  pub round-goes_on :
      ((w : W) → stop_pending_func w ≡ false)
      → (w : W) (s : Scheduler)
      → round get_state exec_on block_pending_func stop_pending_func w s
        ≡ next_of w (schedule_all s)
  unfolding round
  round-goes_on never w s = rw (never w, and_false s.stopped)

  round-stopping :
      ((w : W) → stop_pending_func w ≡ false)
      → (w : W) (s : Scheduler) → s.stopping ≡ true
      → round get_state exec_on block_pending_func stop_pending_func w s
        ≡ next_of w (record s { remote_tasks = [] })
  round-stopping never w s on =
      round-goes_on never w s ∙ ap (next_of w) (schedule_all-stopping s on)

  take_next-empty :
      (w : W) (s : Scheduler)
      → s.stopping ≡ true
      → s.ready_executors ≡ []
      → next_of w s ≡ breaks w s
  unfolding take_next
  take_next-empty w s on e = simp (e, on)

  take_next-some :
      (w : W) (s : Scheduler) (t : ℕ) (tasks : List (Option ℕ))
      → s.ready_executors ≡ some t ∷ tasks
      → next_of w s
        ≡ run_executor get_state exec_on block_pending_func stop_pending_func t w
            (record s { ready_executors = tasks })
  unfolding take_next
  take_next-some w s t tasks e = simp e

  -- If executors, while the scheduler stops, leave the queue and the order to stop as they are
  -- and end in a state that the loop expects, and the stop condition is not met: told to stop,
  -- with one unit of fuel more than ready executors, none of which is null, the loop takes each
  -- of them once, in order, and returns with an empty queue.
  pub thread_schedule_func_drains :
      Settles
      → ((w : W) → stop_pending_func w ≡ false)
      → (tasks : List ℕ) (fuel : ℕ) (w : W) (s : Scheduler) → s.stopping ≡ true
      → s.ready_executors ≡ map some tasks
      → length tasks < fuel
      → (v : W) × (u : Scheduler) × (loop fuel w s ≡ returned tasks v u) × (u.ready_executors ≡ [])
  unfolding thread_schedule_func
  thread_schedule_func_drains settles never tasks zero w s on e h = elim h [ ]
  thread_schedule_func_drains settles never [] (suc fuel) w s on e h = (
    w,
    record s { remote_tasks = [] },
    ap (go_on (loop fuel))
        (round-stopping never w s on ∙ take_next-empty w (record s { remote_tasks = [] }) on e),
    e,
  )
  thread_schedule_func_drains settles never (t ∷ tasks) (suc fuel) w s on e h =
      let s' : Scheduler = record s { ready_executors = map some tasks; remote_tasks = [] } in
      let (v, u, r, a, b) = run_executor-stopping settles t w s' on in
      let (x, y, z, c) =
        thread_schedule_func_drains settles never tasks fuel v u a b (omega arith) in
      (
        x,
        y,
        ap (go_on (loop fuel)) (
              round-stopping never w s on
              ∙ take_next-some w (record s { remote_tasks = [] }) t (map some tasks) e
              ∙ r)
            ∙ ap (prepend (some t)) z,
        c,
      )
