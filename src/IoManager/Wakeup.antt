-- ===== src/IoManager/Wakeup.antt =====
-- include/io/io_manager.h and src/io/io_manager.cpp: addRemoteTask and wakeup of other threads
-- against the loop of src/coroutine/scheduler.cpp with blockPending, as steps that the threads
-- take in any order. insertFront and scheduleAll are one step each. The pipe is the number of
-- bytes in it: ::write waits while it is full, ::read takes up to eight, and ::epoll_wait may
-- always return for another reason, but reports the pipe only if it holds a byte.
mod Pending
mod Lock
mod Tests
use net_base.Base.{
  update, ℕ, zero, suc, ◌+◌, ◌-◌, ◌≡◌, ◌<◌, Bool, true, false, List, [], ◌∷◌, Option, none, some,
  ltb, ◌==◌, if◌then◌else◌,
}
use net_base.Scheduler.{Scheduler, new_scheduler, add_executor, add_remote_executor, schedule_all}
use net_base.Scheduler

-- What the threads share; `capacity` bytes fill the pipe.
pub record Shared : Type 0 where
  pub scheduler : Scheduler
  pub pipe : ℕ
  pub wake_lock : Bool

-- Where a thread is in addRemoteTask: not in it, before addRemoteExecutor, at the spin lock,
-- before ::write, before the release of the lock.
pub data Caller : Type 0 where
  elsewhere : Caller
  inserting : (executor : Option ℕ) → Caller
  locking writing unlocking : Caller

-- Where the thread of the IOManager is: before scheduleAll, behind it, before or in ::epoll_wait,
-- behind it with or without an event of the pipe, or behind the loop.
pub data Loop : Type 0 where
  scheduling choosing waiting : Loop
  handling : (woken : Bool) → Loop
  returned : Loop

-- IOManager::addRemoteTask and IOManager::wakeup
pub caller_step : ℕ → Caller → Shared → Caller × Shared
caller_step capacity elsewhere m = (elsewhere, m)
caller_step capacity (inserting v) m =
    (locking, record m { scheduler = (add_remote_executor v m.scheduler).1 })
caller_step capacity locking m =
    if m.wake_lock then (locking, m) else (writing, record m { wake_lock = true })
caller_step capacity writing m =
    if ltb m.pipe capacity then (unlocking, record m { pipe = m.pipe + 1 }) else (writing, m)
caller_step capacity unlocking m = (elsewhere, record m { wake_lock = false })

-- No task: the end of the loop, or blockPending.
no_task : Shared → Loop × Shared
no_task m = (if m.scheduler.stopping then returned else waiting, m)

-- The executor at the front of the queue is taken.
take_front : List (Option ℕ) → Shared → Loop × Shared
unfolding no_task
take_front [] m = no_task m
take_front (none ∷ rest) m =
    no_task (record m { scheduler = record m.scheduler { ready_executors = rest } })
take_front (some e ∷ rest) m =
    (scheduling, record m { scheduler = record m.scheduler { ready_executors = rest } })

-- The loop of the thread; `woken` says whether ::epoll_wait reports the pipe if it can.
pub loop_step : Bool → Loop → Shared → Loop × Shared
unfolding take_front
loop_step woken scheduling m = (choosing, record m { scheduler = schedule_all m.scheduler })
loop_step woken choosing m = take_front m.scheduler.ready_executors m
loop_step woken waiting m = (handling (if woken then ltb 0 m.pipe else false), m)
loop_step woken (handling false) m = (scheduling, m)
loop_step woken (handling true) m =
    if ltb 0 m.pipe then (handling true, record m { pipe = m.pipe - 8 }) else (scheduling, m)
loop_step woken returned m = (returned, m)

pub record System : Type 0 where
  pub shared : Shared
  pub callers : ℕ → Caller
  pub loop : Loop

pub at_start : System
at_start = record {
  shared = record { scheduler = new_scheduler; pipe = 0; wake_lock = false };
  callers = λ i. elsewhere;
  loop = scheduling;
}

abbrev pub after_caller : ℕ → System → Caller × Shared → System
after_caller i s (at, m) = record s { shared = m; callers = update s.callers i at }

abbrev pub after_loop : System → Loop × Shared → System
after_loop s (at, m) = record s { shared = m; loop = at }

abbrev pub with_scheduler : Scheduler → System → System
with_scheduler sch s = record s { shared = record s.shared { scheduler = sch } }

pub data Step (capacity : ℕ) (s : System) : System → Type 0 where
  call :
      (i : ℕ) (v : Option ℕ)
      → s.callers i ≡ elsewhere
      → Step capacity s (after_caller i s (inserting v, s.shared))
  caller :
      (i : ℕ) → Step capacity s (after_caller i s (caller_step capacity (s.callers i) s.shared))
  loop : (woken : Bool) → Step capacity s (after_loop s (loop_step woken s.loop s.shared))
  -- What the thread runs, and its timers and events, add executors.
  adds : (v : Option ℕ) → Step capacity s (with_scheduler (add_executor v s.shared.scheduler).1 s)
  stops : Step capacity s (with_scheduler (Scheduler.stop s.shared.scheduler) s)

pub data Reachable (capacity : ℕ) : System → Type 0 where
  begins : Reachable capacity at_start
  after : {s t : System} → Reachable capacity s → Step capacity s t → Reachable capacity t
