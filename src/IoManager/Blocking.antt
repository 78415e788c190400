-- ===== src/IoManager/Blocking.antt =====
-- `blockPending` of src/io/io_manager.cpp as a whole: timers, then events.
use net_base.Base.{
  Perm, ℕ, ◌≡◌, refl, sym, ap, ◌∙◌, false, List, [], ◌∷◌, ◌++◌, some, map, All, append_assoc,
  append-nil, ◌==◌, if◌then◌else◌, ==_refl, ◌>>=◌,
}
use net_base.Timer.{IsSorted, Timer, take_expired_timers}
use net_base.Timer.Expiry.{due, pending, restarted, take_expired_timers-due}
use net_base.Scheduler.{Scheduler}
use net_base.Scheduler.Loop.{add_executor-running}
use net_base.IoManager.{
  IoManager, EpollEvent, schedule_timers, handle_event, handle_events, handle_all, block_pending,
}

schedule_timers-running :
    (expired : List (Timer ℕ)) (s : Scheduler)
    → s.stopping ≡ false
    → schedule_timers expired s
      ≡ record s { ready_executors = s.ready_executors ++ map (λ t. t.callback) expired }
unfolding schedule_timers
schedule_timers-running [] s off =
    ap (λ l. record s { ready_executors = l }) (sym (append-nil s.ready_executors))
schedule_timers-running (t ∷ expired) s off =
    ap (schedule_timers expired) (add_executor-running t.callback s off)
    ∙ schedule_timers-running expired
        (record s { ready_executors = s.ready_executors ++ t.callback ∷ [] }) off
    ∙ ap (λ l. record s { ready_executors = l })
        (append_assoc s.ready_executors (t.callback ∷ []) (map (λ t. t.callback) expired))

-- Events of the wake-up pipe change nothing.
handle_events-wakeup :
    (first_fd : ℕ) (reported : List EpollEvent) (m : IoManager)
    → All (λ ev. ev.fd ≡ m.wakeup_fd) reported
    → handle_events first_fd reported m ≡ some m
unfolding handle_events
handle_events-wakeup first_fd [] m h = refl
handle_events-wakeup first_fd (ev ∷ reported) m (e, h) =
    ap (λ b. (if b then some m else handle_event first_fd ev m) >>= handle_events first_fd reported)
      (ap (λ n. n == m.wakeup_fd) e ∙ ==_refl m.wakeup_fd)
    ∙ handle_events-wakeup first_fd reported m h

handle_all-wakeup :
    (reported : List EpollEvent) (m : IoManager)
    → All (λ ev. ev.fd ≡ m.wakeup_fd) reported
    → handle_all reported m ≡ some m
unfolding handle_all
handle_all-wakeup [] m h = refl
handle_all-wakeup (ev ∷ reported) m h = handle_events-wakeup ev.fd (ev ∷ reported) m h

-- For a manager whose timers are sorted and whose scheduler does not stop, where ::epoll_wait
-- reports at most the wake-up pipe: blockPending queues the callbacks of exactly the due timers,
-- in their order, behind the ready executors, keeps the other timers and one new one for each
-- due timer that repeats, and leaves events and the kernel's watch list alone.
pub block_pending-due :
    (now later : ℕ) (clock : ℕ → ℕ) (reported : List EpollEvent) (m : IoManager)
    → IsSorted m.timers
    → m.scheduler.stopping ≡ false
    → All (λ ev. ev.fd ≡ m.wakeup_fd) reported
    → (n : IoManager) × ((block_pending now later clock reported m).1 ≡ some n)
      × (n.scheduler.ready_executors
          ≡ m.scheduler.ready_executors ++ map (λ t. t.callback) (due (clock 0) m.timers))
      × Perm n.timers (restarted clock 1 (due (clock 0) m.timers) ++ pending (clock 0) m.timers)
      × (n.fd_events ≡ m.fd_events)
      × (n.calls ≡ m.calls)
unfolding block_pending
block_pending-due now later clock reported m sorted off wakes =
    let (expired, left) = take_expired_timers-due clock m.timers sorted in
    let taken = take_expired_timers clock m.timers in
    (
      record m { timers = taken.1; scheduler = schedule_timers taken.0 m.scheduler },
      handle_all-wakeup reported
          (record m { timers = taken.1; scheduler = schedule_timers taken.0 m.scheduler }) wakes,
      ap (λ s. s.ready_executors) (schedule_timers-running taken.0 m.scheduler off)
          ∙ ap (λ l. m.scheduler.ready_executors ++ map (λ t. t.callback) l) expired,
      left,
      refl,
      refl,
    )
