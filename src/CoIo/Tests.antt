-- ===== src/CoIo/Tests.antt =====
-- The theorems on src/io/co_io_function.cpp at a socket with descriptor 2 and a small system.
use net_base.Base.{
  ◌>>=◌, inr, ℕ, zero, suc, ◌≡◌, ◌≢◌, ◌<◌, refl, true, false, [], ◌∷◌, none, some, pos, arith,
}
use net_base.FdManager.{FdContext, Contexts, get_context}
use net_base.IoManager.{
  IoManager, EventType, read, write, other, has_event, new_io_manager, empty_events, cancel_timer,
  register_event, register_timer,
}
use net_base.IoManager.Epoll.{in_events}
use net_base.CoIo.{
  IoResult, done, interrupted, again, returned, Caller, is_direct, io_inner, time_out_ms, io_loop,
  io_step, failed, resume, suspend, undefined,
}
use net_base.CoIo.Calls.{
  IoCall, accept_call, event_of, co_call, co_accept, co_fcntl, kind_of, hand_on, other_cmd,
  int_argument, no_argument,
}
use net_base.CoIo.Calls.Adopting.{SetsNonblock, WaitAsDocumented, co_accept-adopts}
use net_base.Scheduler.{new_scheduler}
use net_base.CoIo.Expiring.{expire, expire-ready}
use net_base.CoIo.Waiting.{Progress, Settles, io_inner-Settles, io_inner-direct}
use net_base.CoIo.Connecting.{
  Connector, in_progress, success, co_connect, co_connect-has_event, co_sleep,
}
use net_base.IoManager.{entry}
use net_base.IoManager.Register.{executor_of}
use net_base.IoManager.Tracking.{Tracks, new_io_manager-Tracks}
use net_base.Timer.{
  Timer, new_timer, add_timer, take_expired_timers, remove_timer, erase_equivalent, insert,
  lower_bound, skip_equal, rearm,
}
use net_base.CoIo.Options.{
  Flags, Kernel, set_nonblock, set_flags, get_flags, KernelLaws, co_close, keep_timeout,
  so_rcvtimeo,
}
use net_base.CoIo.Options.Nonblocking.{
  get_flags-set_flags, is_direct-set_nonblock, is_direct-set_flags, has_event-co_close,
  time_out_ms-keep_timeout,
}

-- A signal for each unit but the last, which wants a wait.
small_func : ℕ → IoResult × ℕ
small_func zero = (done 7, zero)
small_func (suc zero) = (again, suc zero)
small_func (suc (suc n)) = (interrupted, suc n)

abbrev small : Caller ℕ
small = record { func = small_func; now = λ w. w; yield = λ t m w. (false, m, zero) }

small-interrupted : (w : ℕ) → (small_func w).0 ≡ interrupted → (small_func w).1 < w
unfolding small_func
small-interrupted zero e = ground (arith, e)
small-interrupted (suc zero) e = ground (arith, e)
small-interrupted (suc (suc n)) e = omega arith

small-again : (w : ℕ) → (small_func w).0 ≡ again → 0 < w
unfolding small_func
small-again zero e = ground (arith, e)
small-again (suc w) e = omega arith

abbrev small_progress : Progress small
small_progress = record {
  pending = λ w. w;
  interrupted_less = small-interrupted;
  again_less = λ t m w e. small-again w e;
  yield_runs = λ t m w e. e;
}

abbrev socket : FdContext
socket = record {
  is_socket = true;
  is_initialized = true;
  is_user_non_block = false;
  is_sys_non_block = true;
  read_timeout = 100;
  write_timeout = 200;
}

abbrev contexts : Contexts
contexts = none ∷ none ∷ some socket ∷ []

read_ne : read ≢ other
read_ne e = ground (arith, e)

io_inner-Settles_example :
    Settles small 71 100 (io_inner small 4 2 read 70 71 contexts (new_io_manager 3) 3)
unfolding get_context new_io_manager time_out_ms
io_inner-Settles_example =
    io_inner-Settles small 4 2 read 70 71 contexts (new_io_manager 3) 3 small_progress socket refl
      refl refl read_ne (omega arith) refl (omega arith)

-- The timer of another coroutine, with the same time stamp.
abbrev twin : Timer ℕ
twin = record { repeats = false; target_timestamp = 101; interval = 100; callback = some 72 }

-- While the coroutine is suspended the other one cancels its own timer, which has come first into
-- the set, and the time stamp passes: the timer that is left is taken.
cancel_and_expire : IoManager → IoManager
cancel_and_expire m = elim (cancel_timer (some twin) m) [
  | none ↦ m
  | some n ↦ record n { timers = (take_expired_timers (λ i. 101) n.timers).1 }
]

abbrev shared_deadline : Caller ℕ
shared_deadline = record small { yield = λ t m w. (false, cancel_and_expire m, zero) }

-- When the event comes after that, the timer to cancel is not there: the end is erased.
erases_end :
    io_inner shared_deadline 4 2 read 70 71 contexts
      (record (new_io_manager 3) { timers = twin ∷ [] })
      1
    ≡ undefined
unfolding cancel_and_expire cancel_timer register_timer register_event io_inner get_context
    is_direct io_loop io_step suspend resume new_io_manager small_func time_out_ms
    take_expired_timers remove_timer erase_equivalent new_timer add_timer insert lower_bound
    skip_equal rearm
erases_end = refl

io_inner-direct_run :
    io_inner small 4 1 read 70 71 contexts (new_io_manager 3) 1
    ≡ returned again (new_io_manager 3) 1
unfolding get_context is_direct small_func
io_inner-direct_run =
    io_inner-direct small 4 1 read 70 71 contexts (new_io_manager 3) 1 none refl refl

abbrev kernel : Kernel
kernel = record {
  World = Flags;
  get_flags_sys = λ fd w. (w, w);
  set_flags_sys = λ fd f w. (true, f);
  ioctl_sys = λ fd b w. (true, record w { nonblock = b });
  close_sys = λ fd w. (true, w);
}

abbrev flags : Flags
flags = record { nonblock = true; others = 0 }

is_direct-set_nonblock_run :
    (after : Contexts) × (d : FdContext) × (set_nonblock kernel 2 true contexts flags
      ≡ some ((true, flags), after))
    × (get_context (pos 2) after ≡ some (some d))
    × (is_direct (some d) ≡ true)
unfolding get_context
is_direct-set_nonblock_run = is_direct-set_nonblock kernel 2 true contexts socket flags refl refl

is_direct-set_flags_run :
    (after : Contexts) × (set_flags kernel 2 flags contexts flags ≡ some ((true, flags), after))
    × (d : FdContext) × (get_context (pos 2) after ≡ some (some d))
    × (is_direct (some d) ≡ is_direct (some socket))
unfolding get_context
is_direct-set_flags_run = is_direct-set_flags kernel 2 flags contexts socket flags refl refl

abbrev kernel_laws : KernelLaws kernel
kernel_laws = record { get_flags_sys-set_flags_sys = λ fd f w h. refl }

abbrev pipe : FdContext
pipe = record socket { is_socket = false }

-- What is no socket: the wish of its user is kept in the context.
get_flags-set_flags_run :
    (u : Flags) × (get_flags kernel 0
        (some (record pipe { is_user_non_block = false }) ∷ [])
        (record flags { nonblock = true })
      ≡ some (record flags { nonblock = false }, u))
unfolding get_context set_flags
get_flags-set_flags_run =
    get_flags-set_flags kernel kernel_laws 0 (record flags { nonblock = false }) (some pipe ∷ [])
      (some (record pipe { is_user_non_block = false }) ∷ []) flags
      (record flags { nonblock = true }) refl

abbrev waiting : IoManager
waiting = record {
  stopped = false;
  wakeup_fd = 3;
  scheduler = record {
    stopping = false;
    stopped = false;
    exit_with_tasks_processed = true;
    ready_executors = [];
    remote_tasks = [];
  };
  timers = [];
  fd_events =
      empty_events
      ∷ empty_events
      ∷ record empty_events { registered_events = in_events; read_executor = some 70 }
      ∷ [];
  calls = [];
  reused = [];
}

has_event-co_close_run :
    (after : Contexts) × (n : IoManager) × (co_close kernel 2 contexts waiting flags
      ≡ some ((true, flags), after, n))
    × (get_context (pos 2) after ≡ some none)
    × ((type : EventType) → has_event 2 type n ≡ has_event 2 type waiting)
unfolding get_context
has_event-co_close_run = has_event-co_close kernel 2 contexts socket waiting flags refl

time_out_ms-keep_timeout_run :
    (after : Contexts) × (d : FdContext) × (keep_timeout 2 so_rcvtimeo 1 500000 contexts
      ≡ some after)
    × (get_context (pos 2) after ≡ some (some d))
    × (time_out_ms read d ≡ 1500)
    × (time_out_ms write d ≡ time_out_ms write socket)
unfolding get_context
time_out_ms-keep_timeout_run =
    time_out_ms-keep_timeout 2 1 500000 contexts socket refl (omega arith)

-- A connection that is in progress, and then succeeds.
abbrev slow : Connector ℕ
slow = record {
  connect_sys = λ w. (in_progress, w);
  yield = λ m w. (m, w);
  so_error = λ w. (true, w);
}

co_connect-has_event_example :
    (b : IoManager) × (has_event 2 write b ≡ true)
    × ((entry 2 b >>= executor_of write) ≡ some 70)
    × Tracks b
    × (co_connect slow 2 70 contexts (new_io_manager 3) 0 ≡ some (success, b, 0))
unfolding get_context new_io_manager
co_connect-has_event_example =
    co_connect-has_event slow 2 70 socket contexts (new_io_manager 3) 0 0 refl refl refl refl refl
      (λ e. omega (arith, e)) (inr (omega arith)) (new_io_manager-Tracks 3)

-- The milliseconds of so many seconds are beyond 32 bits.
long_sleep : (co_sleep 4294968 0 70 (new_io_manager 3) >>= λ r. some r.0.interval) ≡ some 704
unfolding co_sleep register_timer add_timer new_io_manager new_timer
long_sleep = refl

-- Descriptor 5 is accepted from the listening socket 2; the system waits once.
abbrev accepting : IoCall → Flags → IoResult × Flags
accepting accept_call w = (done 5, w)
accepting _ w = (failed, w)

abbrev plain_thread : Caller Flags
plain_thread = record { func = λ w. (failed, w); now = λ w. 0; yield = λ t m w. (true, m, w) }

abbrev no_flags : Flags
no_flags = record { nonblock = false; others = 0 }

co_accept-adopts_example :
    (after : Contexts) × (u : Flags) × (co_accept kernel accepting plain_thread 1 2 70 71 contexts
        contexts
        (new_io_manager 3)
        no_flags
      ≡ (returned (done 5) (new_io_manager 3) u, some after))
    × SetsNonblock kernel 5 no_flags u
    × WaitAsDocumented kernel accepting plain_thread 5 70 71 after
unfolding co_call io_inner io_loop io_step get_context is_direct event_of
co_accept-adopts_example =
    co_accept-adopts kernel accepting plain_thread 1 2 70 71 contexts contexts (new_io_manager 3)
      (new_io_manager 3) no_flags no_flags 5 refl (omega arith)

-- A command that the switch does not name loses its argument.
lost_argument_run : co_fcntl (λ cmd a. a) (other_cmd 1033) (int_argument 4) ≡ some no_argument
unfolding co_fcntl kind_of hand_on
lost_argument_run = refl

abbrev queued : IoManager
queued = record (new_io_manager 3) {
  scheduler = record new_scheduler { ready_executors = some 70 ∷ [] };
}

-- The coroutine 70 was queued by its event already, and is queued once more.
queued_twice_run :
    (expire true false 2 read 70 queued).1.scheduler.ready_executors ≡ some 70 ∷ some 70 ∷ []
unfolding new_io_manager new_scheduler
queued_twice_run = expire-ready true false 2 read 70 queued refl
