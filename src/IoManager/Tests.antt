-- ===== src/IoManager/Tests.antt =====
-- The theorems on src/io/io_manager.cpp at a manager with the wake-up pipe 3 and two descriptors.
use net_base.Base.{
  List, map, Perm, OnSome, ℕ, zero, suc, get_elem?, not, ◌≡◌, ◌≢◌, refl, true, false, [], ◌∷◌, ◌++◌,
  none, some, arith, inr, ◌>>=◌,
}
use net_base.IoManager.{
  out_events, FdEvents, IoManager, read, write, other, entry, empty_events, new_io_manager,
  register_event, remove_event, has_event, handle_all, handle_event, handle_events, stop,
}
use net_base.Timer.{Timer}
use net_base.Timer.Expiry.{due, pending, restarted}
use net_base.IoManager.Blocking.{block_pending-due}
use net_base.IoManager.{block_pending}
use net_base.Scheduler.{Scheduler}
use net_base.IoManager.Epoll.{union, is_empty, is_watched, in_events, interest, is_accepted, adds}
use net_base.IoManager.Entries.{registered}
use net_base.IoManager.Tracking.{Tracks, new_io_manager-Tracks}
use net_base.IoManager.Register.{register_event-has_event, register_event_outside, executor_of}
use net_base.IoManager.Remove.{has_event-remove_event}
use net_base.IoManager.Forget.{remove_event_forgets, remove_event_both}
use net_base.IoManager.Reported.{handle_events-Tracks}
use net_base.IoManager.OneShot.{handle_all-reads_once, handle_all-stopping, readable}
use net_base.IoManager.FirstEvent.{handle_event-first_event}

abbrev once : FdEvents
once = record empty_events { registered_events = in_events; read_executor = some 70 }

abbrev again : FdEvents
again = record empty_events {
  registered_events = in_events;
  read_executor = some 80;
  read_call_once = false;
}

abbrev both : FdEvents
both = record empty_events {
  registered_events = union in_events out_events;
  read_executor = some 70;
  write_executor = some 71;
}

abbrev exiting : Scheduler
exiting = record {
  stopping = false;
  stopped = false;
  exit_with_tasks_processed = true;
  ready_executors = some 60 ∷ [];
  remote_tasks = [];
}

-- Descriptor 0 waits to be called every time, descriptor 1 once.
abbrev manager : IoManager
manager = record {
  stopped = false;
  wakeup_fd = 3;
  scheduler = exiting;
  timers = [];
  fd_events = again ∷ once ∷ [];
  calls = adds 1 in_events ∷ adds 0 in_events ∷ adds 3 in_events ∷ [];
  reused = [];
}

read_ne : read ≢ other
read_ne e = ground (arith, e)

write_ne : write ≢ other
write_ne e = ground (arith, e)

manager-Tracks : Tracks manager
unfolding entry
manager-Tracks = (refl, go)
  where
    go :
        (fd : ℕ)
        → fd ≢ 3
        → is_watched (interest manager.calls fd)
          ≡ not (is_empty (registered (get_elem? manager.fd_events fd)))
    go zero ne = refl
    go (suc zero) ne = refl
    go (suc (suc fd)) ne = ground (arith, ne)

new_io_manager-Tracks_run : Tracks (new_io_manager 3)
new_io_manager-Tracks_run = new_io_manager-Tracks 3

register_event-has_event_example :
    (after : IoManager) × (register_event 5 read 70 true (new_io_manager 3) ≡ some (true, after))
    × (has_event 5 read after ≡ true)
    × ((entry 5 after >>= executor_of read) ≡ some 70)
    × ((i : ℕ) → i ≢ 5 → registered (entry i after) ≡ registered (entry i (new_io_manager 3)))
    × Tracks after
unfolding new_io_manager
register_event-has_event_example =
    register_event-has_event 5 read 70 true (new_io_manager 3) refl read_ne (λ e. omega (arith, e))
      (inr (omega arith)) (new_io_manager-Tracks 3)

register_event_outside_run : register_event 1 write 70 true (new_io_manager 3) ≡ none
unfolding new_io_manager
register_event_outside_run =
    register_event_outside 1 write 70 true (new_io_manager 3) refl write_ne (omega arith)
      (omega arith)

has_event-remove_event_run :
    has_event 1 read (remove_event 1 in_events manager) ≡ has_event 1 read manager
has_event-remove_event_run = has_event-remove_event 1 1 in_events read manager

remove_event_forgets_example :
    (interest (remove_event 1 in_events manager).calls 1 ≡ none)
    × (has_event 1 read (remove_event 1 in_events manager) ≡ true)
    × (after : IoManager) × (register_event 1 write 90 true (remove_event 1 in_events manager)
        ≡ some (true, after))
    × (is_accepted after.calls ≡ false)
unfolding entry
remove_event_forgets_example =
    remove_event_forgets 1 read write 90 true once manager refl read_ne write_ne refl refl

remove_event-both_run :
    (interest (remove_event 0 in_events (record manager { fd_events = both ∷ [] })).calls 0 ≡ none)
    × (entry 0 (remove_event 0 in_events (record manager { fd_events = both ∷ [] }))
        ≡ some (record both { read_executor = none; write_executor = none }))
unfolding entry
remove_event-both_run =
    remove_event_both 0 read both (record manager { fd_events = both ∷ [] }) read_ne refl refl

handle_events-Tracks_example :
    OnSome Tracks (handle_events 1 (readable 1 ∷ readable 3 ∷ readable 0 ∷ []) manager)
handle_events-Tracks_example =
    handle_events-Tracks 1 (readable 1 ∷ readable 3 ∷ readable 0 ∷ []) manager manager-Tracks

handle_all-reads_once_example :
    (after : IoManager) × (handle_all (readable 1 ∷ []) manager ≡ some after)
    × (after.scheduler.ready_executors ≡ (some 60 ∷ []) ++ some 70 ∷ [])
    × (has_event 1 read after ≡ false)
    × (has_event 1 write after ≡ has_event 1 write manager)
    × ((entry 1 after >>= λ a. a.read_executor) ≡ none)
unfolding entry
handle_all-reads_once_example =
    handle_all-reads_once 1 once manager (λ e. omega (arith, e)) refl refl refl refl

handle_all-stopping_run : handle_all (readable 1 ∷ []) (stop manager) ≡ none
unfolding entry stop
handle_all-stopping_run =
    handle_all-stopping 1 once manager (λ e. omega (arith, e)) refl refl refl refl

handle_event-first_event_run :
    (after : IoManager) × (handle_event 0 (readable 1) manager ≡ some after)
    × (has_event 1 read after ≡ has_event 1 read manager)
    × ((entry 1 after >>= λ a. a.read_executor) ≡ none)
    × (after.reused ≡ 80 ∷ [])
unfolding entry
handle_event-first_event_run =
    handle_event-first_event 0 1 80 again once manager refl refl refl refl refl refl

-- Two timers, of which the first repeats.
abbrev timer_set : List (Timer ℕ)
timer_set =
    record { repeats = true; target_timestamp = 3; interval = 10; callback = some 50 }
    ∷ record { repeats = false; target_timestamp = 9; interval = 6; callback = some 51 }
    ∷ []

block_pending-due_example :
    (n : IoManager) × ((block_pending 4 4
        (λ i. 5)
        (readable 3 ∷ [])
        (record manager { timers = timer_set })).1
      ≡ some n)
    × (n.scheduler.ready_executors
        ≡ (some 60 ∷ []) ++ map (λ (t : Timer ℕ). t.callback) (due 5 timer_set))
    × Perm n.timers (restarted (λ i. 5) 1 (due 5 timer_set) ++ pending 5 timer_set)
    × (n.fd_events ≡ again ∷ once ∷ [])
    × (n.calls ≡ adds 1 in_events ∷ adds 0 in_events ∷ adds 3 in_events ∷ [])
block_pending-due_example =
    block_pending-due 4 4 (λ i. 5) (readable 3 ∷ []) (record manager { timers = timer_set })
      ((omega arith, tt), (tt, tt)) refl (refl, tt)
