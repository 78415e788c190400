-- ===== src/IoManager/Executors.antt =====
-- include/io/io_manager.h: the calls of an IOManager that go to its scheduler, and the pointer
-- that each thread keeps to its IOManager, an address.
use net_base.Base.{
  ◌≡◌, refl, ap, false, [], ◌∷◌, ◌++◌, inl, inr, Option-cases, if_both, ℕ, Bool, Option, none, some,
}
use net_base.Scheduler
use net_base.Scheduler.Loop.{add_executor-running}
use net_base.IoManager.Epoll.{Events, intersects}
use net_base.IoManager.{put, call, entry, remove_event, remove_from, IoManager}

-- IOManager::addExecutor, which returns nothing
pub add_executor : Option ℕ → IoManager → IoManager
add_executor e m = record m { scheduler = (Scheduler.add_executor e m.scheduler).1 }

pub remove_executor : Option ℕ → IoManager → IoManager
remove_executor e m = record m { scheduler = Scheduler.remove_executor e m.scheduler }

pub set_exit_with_tasks_processed : Bool → IoManager → IoManager
set_exit_with_tasks_processed b m = record m {
  scheduler = Scheduler.set_exit_with_tasks_processed b m.scheduler;
}

pub add_executor-ready :
    (e : Option ℕ) (m : IoManager)
    → m.scheduler.stopping ≡ false
    → (add_executor e m).scheduler.ready_executors ≡ m.scheduler.ready_executors ++ e ∷ []
unfolding add_executor
add_executor-ready e m off = ap (λ s. s.ready_executors) (add_executor-running e m.scheduler off)

pub remove_event-scheduler :
    (fd : ℕ) (events : Events) (m : IoManager) → (remove_event fd events m).scheduler ≡ m.scheduler
unfolding remove_event remove_from put call
remove_event-scheduler fd events m = elim (Option-cases (entry fd m)) [
  | inl e ↦ rw (e, remove_event) refl
  | inr (a, e) ↦
      rw (e, remove_event)
        (if_both (λ (n : IoManager). n.scheduler ≡ m.scheduler)
          (intersects a.registered_events events) refl refl)
]

-- IOManager::getThreadLocal: `made` is the address of a new manager; what it returns, and
-- `t_io_manager` behind it.
pub get_thread_local : ℕ → Option ℕ → ℕ × Option ℕ
get_thread_local made none = (made, some made)
get_thread_local made (some p) = (p, some p)

pub set_thread_local : Option ℕ → Option ℕ → Option ℕ
set_thread_local io_manager t_io_manager = io_manager
