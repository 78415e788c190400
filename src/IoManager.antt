-- ===== src/IoManager.antt =====
-- include/io/io_manager.h and src/io/io_manager.cpp: events of descriptors, timers, and the block
-- function of the scheduler. The calls of ::epoll_ctl are kept, the newest first, in `calls`; what
-- ::epoll_wait reports and the readings of the clock are arguments. A set of EPOLL flags is a
-- record of the flags that the code uses. An executor is its address, a timer's callback the
-- executor that is made of it. `none` is an access outside `fd_events_`, through a null pointer,
-- or a failed assertion.
pub mod Epoll
pub mod Executors
pub mod Entries
pub mod Tracking
pub mod Register
pub mod Remove
mod Forget
mod Reported
mod OneShot
mod Blocking
mod FirstEvent
pub mod Waits
pub mod Wakeup
mod Tests
use net_base.Base.{
  ℕ, suc, ◌*◌, ◌/◌, Bool, true, false, not, ◌&&◌, ◌||◌, List, [], ◌∷◌, Option, none, some, length,
  get_elem?, set, grow, ltb, ◌==◌, if◌then◌else◌, ◌>>=◌,
}
use net_base.Timer.{Timer, add_timer, remove_timer, take_expired_timers, get_next_interval}
use net_base.Scheduler.{Scheduler, add_executor, new_scheduler}
use net_base.Scheduler
use Epoll.{
  Events, no_events, union, without, is_empty, intersects, same_events, in_events, out_events,
  EpollCall, adds, mods, dels,
}

-- IOManager::EventType, with the values outside the enumeration.
pub data EventType : Type 0 where
  read write other : EventType

-- The flag of a type of event: EPOLLIN or EPOLLOUT.
abbrev pub flag : EventType → Events
flag read = in_events
flag write = out_events
flag other = no_events

pub record FdEvents : Type 0 where
  pub registered_events : Events
  pub read_call_once : Bool
  pub write_call_once : Bool
  pub read_executor : Option ℕ
  pub write_executor : Option ℕ

abbrev pub empty_events : FdEvents
empty_events = record {
  registered_events = no_events;
  read_call_once = true;
  write_call_once = true;
  read_executor = none;
  write_executor = none;
}

-- `reused` lists the executors on which `reuse` was called, the newest first.
pub record IoManager : Type 0 where
  pub stopped : Bool
  pub wakeup_fd : ℕ
  pub scheduler : Scheduler
  pub timers : List (Timer ℕ)
  pub fd_events : List FdEvents
  pub calls : List EpollCall
  pub reused : List ℕ

-- The constructor, with the reading end of the pipe that wakes ::epoll_wait up.
unfoldable pub new_io_manager : ℕ → IoManager
new_io_manager wakeup_fd = record {
  stopped = false;
  wakeup_fd = wakeup_fd;
  scheduler = Scheduler.set_exit_with_tasks_processed true new_scheduler;
  timers = [];
  fd_events = [];
  calls = adds wakeup_fd (union in_events out_events) ∷ [];
  reused = [];
}

-- fd_events_[fd]
pub entry : ℕ → IoManager → Option FdEvents
entry fd m = get_elem? m.fd_events fd

-- fd_events_[fd] = e
pub put : ℕ → FdEvents → IoManager → IoManager
put fd e m = record m { fd_events = set m.fd_events fd e }

pub call : EpollCall → IoManager → IoManager
call c m = record m { calls = c ∷ m.calls }

pub resize_for : ℕ → IoManager → IoManager
resize_for fd m =
    if ltb fd (length m.fd_events)
    then m
    else record m { fd_events = grow (fd * 3 / 2) empty_events m.fd_events }

-- The lambda `epAdd` of `registerEvent`.
ep_add : ℕ → EventType → FdEvents → IoManager → IoManager
unfolding put call
ep_add fd type e m =
    let events_dst = union e.registered_events (flag type) in
    put fd (record e { registered_events = events_dst })
      (call
        (if is_empty e.registered_events
          then adds fd (record events_dst { et = true })
          else mods fd events_dst)
        m)

pub register_type : ℕ → EventType → ℕ → Bool → FdEvents → IoManager → Bool × IoManager
unfolding ep_add
register_type fd read executor call_once e m = (
  true,
  ep_add fd read (record e { read_executor = some executor; read_call_once = call_once }) m,
)
register_type fd write executor call_once e m = (
  true,
  ep_add fd write (record e { write_executor = some executor; write_call_once = call_once }) m,
)
register_type fd other executor call_once e m = (false, m)

-- The type is looked at before the entry is read.
pub register_at : ℕ → EventType → ℕ → Bool → IoManager → Option (Bool × IoManager)
unfolding register_type entry
register_at fd other executor call_once m = some (false, m)
register_at fd type executor call_once m =
    entry fd m >>= λ e. some (register_type fd type executor call_once e m)

-- IOManager::registerEvent
unfoldable pub register_event : ℕ → EventType → ℕ → Bool → IoManager → Option (Bool × IoManager)
unfolding register_at resize_for
register_event fd type executor call_once m =
    if m.stopped then some (false, m) else register_at fd type executor call_once (resize_for fd m)

-- IOManager::hasEvent
pub has_event : ℕ → EventType → IoManager → Bool
unfolding entry
has_event fd type m = elim (entry fd m) [
  | none ↦ false
  | some e ↦ intersects e.registered_events (flag type)
]

-- ~registered & events
pub left_by_remove : Events → Events → Events
left_by_remove registered events = without events registered

pub remove_from : ℕ → Events → FdEvents → IoManager → IoManager
unfolding put call left_by_remove
remove_from fd events e m =
    let events_dst = left_by_remove e.registered_events events in
    put fd
      (record e {
        read_executor = if events_dst.in_ then e.read_executor else none;
        write_executor = if events_dst.out_ then e.write_executor else none;
      })
      (call (if is_empty events_dst then dels fd else mods fd events_dst) m)

-- IOManager::removeEvent
pub remove_event : ℕ → Events → IoManager → IoManager
unfolding remove_from entry
remove_event fd events m = elim (entry fd m) [
  | none ↦ m
  | some e ↦ if intersects e.registered_events events then remove_from fd events e m else m
]

-- IOManager::registerTimer; a null callback fails an assertion.
unfoldable pub register_timer : Timer ℕ → IoManager → Option (Bool × IoManager)
register_timer t m =
    if m.stopped
    then some (false, m)
    else (add_timer t m.timers >>= λ timers. some (true, record m { timers = timers }))

-- IOManager::cancelTimer
unfoldable pub cancel_timer : Option (Timer ℕ) → IoManager → Option IoManager
cancel_timer t m = remove_timer t m.timers >>= λ timers. some (record m { timers = timers })

-- IOManager::stop
pub stop : IoManager → IoManager
stop m = record m { stopped = true; scheduler = Scheduler.stop m.scheduler }

-- An event that ::epoll_wait reports.
pub record EpollEvent : Type 0 where
  pub fd : ℕ
  pub events : Events

-- executor->reuse(), through a pointer that may be null.
reuse : Option ℕ → IoManager → Option IoManager
reuse none m = none
reuse (some p) m = some (record m { reused = p ∷ m.reused })

-- The events that stay registered: one flag, with the entry of the first reported event.
clear_in : Bool → Events → Option FdEvents → IoManager → Option (Events × IoManager)
unfolding reuse
clear_in false left first m = some (left, m)
clear_in true left first m = first >>= λ f.
    if f.read_call_once
    then some (record left { in_ = false }, m)
    else (reuse f.read_executor m >>= λ n. some (left, n))

pub clear_out : Bool → Option FdEvents → Events × IoManager → Option (Events × IoManager)
unfolding reuse
clear_out false first (left, m) = some (left, m)
clear_out true first (left, m) = first >>= λ f.
    if f.write_call_once
    then some (record left { out_ = false }, m)
    else (reuse f.write_executor m >>= λ n. some (left, n))

-- Tell ::epoll_ctl what is left, if that has changed.
pub store_left : ℕ → FdEvents → Events × IoManager → IoManager
unfolding put call
store_left fd e (left, m) =
    if same_events left e.registered_events
    then m
    else put fd (record e { registered_events = left })
        (call (if is_empty left then dels fd else mods fd left) m)

-- addExecutor, which must not refuse.
pub enqueue : Option ℕ → IoManager → Option IoManager
enqueue p m =
    let (added, scheduler) = add_executor p m.scheduler in
    if added then some (record m { scheduler = scheduler }) else none

pub wake_reader : ℕ → Bool → IoManager → Option IoManager
unfolding enqueue put entry
wake_reader fd false m = some m
wake_reader fd true m = entry fd m >>= λ e.
    enqueue e.read_executor
      (if e.read_call_once then put fd (record e { read_executor = none }) m else m)

pub wake_writer : ℕ → Bool → IoManager → Option IoManager
unfolding enqueue put entry
wake_writer fd false m = some m
wake_writer fd true m = entry fd m >>= λ e.
    enqueue e.write_executor
      (if e.write_call_once then put fd (record e { write_executor = none }) m else m)

-- An event of a descriptor; `first_fd` is the descriptor of the first event of the array.
pub handle_event : ℕ → EpollEvent → IoManager → Option IoManager
unfolding clear_in clear_out store_left wake_reader wake_writer
handle_event first_fd ev m = entry ev.fd m >>= λ e.
    clear_in ev.events.in_ e.registered_events (entry first_fd m) m
    >>= clear_out ev.events.out_ (entry first_fd m)
    >>= λ left.
        wake_reader ev.fd (ev.events.in_ || ev.events.err || ev.events.hup)
          (store_left ev.fd e left)
        >>= wake_writer ev.fd (ev.events.out_ || ev.events.err || ev.events.hup)

-- The loop over the reported events; those of the wake-up pipe only empty the pipe.
pub handle_events : ℕ → List EpollEvent → IoManager → Option IoManager
unfolding handle_event
handle_events first_fd [] m = some m
handle_events first_fd (ev ∷ rest) m =
    (if ev.fd == m.wakeup_fd then some m else handle_event first_fd ev m)
    >>= handle_events first_fd rest

pub handle_all : List EpollEvent → IoManager → Option IoManager
unfolding handle_events
handle_all [] m = some m
handle_all (ev ∷ rest) m = handle_events ev.fd (ev ∷ rest) m

-- Executors made of the callbacks of the expired timers; a refusal is not looked at.
schedule_timers : List (Timer ℕ) → Scheduler → Scheduler
schedule_timers [] s = s
schedule_timers (t ∷ expired) s = schedule_timers expired (add_executor t.callback s).1

-- IOManager::blockPending: what it hands to ::epoll_wait, and the manager behind it.
pub block_pending : ℕ → ℕ → (ℕ → ℕ) → List EpollEvent → IoManager → ℕ × Option IoManager
unfolding handle_all schedule_timers
block_pending now later clock reported m =
    let (expired, timers) = take_expired_timers clock m.timers in
    (
      get_next_interval now later m.timers,
      handle_all reported
          (record m { timers = timers; scheduler = schedule_timers expired m.scheduler }),
    )
