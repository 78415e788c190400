-- ===== src/CoIo/Expiring.antt =====
-- src/io/co_io_function.cpp: the callback of the timer that `ioInner` sets.
use net_base.Base.{
  ◌∙◌, ap, if_both, ℕ, ◌≡◌, Bool, true, false, not, ◌&&◌, some, [], ◌∷◌, ◌++◌, if◌then◌else◌,
}
use net_base.IoManager.{IoManager, EventType, flag, remove_event}
use net_base.IoManager.Executors.{add_executor, add_executor-ready, remove_event-scheduler}

-- `is_alive` says whether `*time_out_ptr` is still there, `time_out` what it holds; the result is
-- what it holds behind the callback.
pub expire : (is_alive time_out : Bool) → ℕ → EventType → ℕ → IoManager → Bool × IoManager
expire is_alive time_out fd type current m =
    if is_alive && not time_out
    then (true, add_executor (some current) (remove_event fd (flag type) m))
    else (time_out, add_executor (some current) m)

-- The callback queues the coroutine whatever is queued already: if the event came with the same
-- call of ::epoll_wait, it is then queued twice.
pub expire-ready :
    (is_alive time_out : Bool) (fd : ℕ) (type : EventType) (current : ℕ) (m : IoManager)
    → m.scheduler.stopping ≡ false
    → (expire is_alive time_out fd type current m).1.scheduler.ready_executors
      ≡ m.scheduler.ready_executors ++ some current ∷ []
unfolding expire
expire-ready is_alive time_out fd type current m off =
    if_both
      (λ (r : Bool × IoManager).
        r.1.scheduler.ready_executors ≡ m.scheduler.ready_executors ++ some current ∷ [])
      (is_alive && not time_out)
      (add_executor-ready (some current) (remove_event fd (flag type) m)
          (ap (λ s. s.stopping) (remove_event-scheduler fd (flag type) m) ∙ off)
        ∙ ap (λ s. s.ready_executors ++ some current ∷ [])
            (remove_event-scheduler fd (flag type) m))
      (add_executor-ready (some current) m off)
