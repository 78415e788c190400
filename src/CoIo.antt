-- ===== src/CoIo.antt =====
-- src/io/co_io_function.cpp: the calls that suspend a coroutine instead of its thread, over
-- FdManager and IoManager. The system calls, the clock and what the thread does while the
-- coroutine is suspended are parameters over a world `W`. `hook_init` only looks the addresses of
-- the system calls up. Messages to the log are left out.

pub mod Calls
pub mod Expiring
mod Waiting
pub mod Options
pub mod Connecting
mod Tests
use net_base.Base.{
  ℕ, zero, suc, ◌+◌, ◌*◌, ◌/◌, Bool, true, false, ◌||◌, not, List, Option, none, some,
  if◌then◌else◌, ◌>>=◌, ℤ, pos, set,
}
use net_base.Timer.{Timer, new_timer}
use net_base.FdManager.{
  FdContext, Contexts, new_context, set_context, get_context, has_fd, del_context,
}
use net_base.IoManager.{
  IoManager, EventType, read, write, other, flag, register_event, register_timer, cancel_timer,
  remove_event,
}
use net_base.IoManager.Epoll.{union, in_events, out_events}

-- What a system call returns: a count or a descriptor, or -1 with EINTR, EAGAIN or another errno.
pub data IoResult : Type 0 where
  done : ℕ → IoResult
  interrupted again failed : IoResult

-- `undefined` stands for undefined behaviour of a part below.
pub data Outcome (W : Type 0) : Type 0 where
  returned : IoResult → IoManager → W → Outcome W
  timed_out : IoManager → W → Outcome W
  undefined out_of_fuel : Outcome W

-- `func` is the system call with its arguments, `now` the clock. `yield` is what happens until the
-- coroutine with this timer goes on: whether the timer's callback has set `*time_out_ptr`, and
-- the states behind it.
pub record Caller (W : Type 0) : Type 0 where
  pub func : W → IoResult × W
  pub now : W → ℕ
  pub yield : Timer ℕ → IoManager → W → Bool × IoManager × W

-- readTimeout or writeTimeout
pub time_out_ms : EventType → FdContext → ℕ
time_out_ms read context = context.read_timeout
time_out_ms write context = context.write_timeout
time_out_ms other context = 0

-- The condition on which the system call is made directly.
pub is_direct : Option FdContext → Bool
is_direct none = true
is_direct (some context) = not context.is_socket || context.is_user_non_block

module _ {W : Type 0} (thread : Caller W) (fd : ℕ) (type : EventType) (current expiry : ℕ)
    (time_out : ℕ) where
  open thread use {func, now, yield}

  -- Behind the suspension: the time-out ends the call, otherwise the timer is cancelled.
  pub resume : (IoManager → W → Outcome W) → Timer ℕ → Bool × IoManager × W → Outcome W
  resume retry timer (true, m, w) = timed_out m w
  resume retry timer (false, m, w) = elim (cancel_timer (some timer) m) [
    | none ↦ undefined
    | some n ↦ retry n w
  ]

  -- The branch of EAGAIN; `expiry` is the executor of the timer's callback.
  pub suspend : (IoManager → W → Outcome W) → IoManager → W → Outcome W
  unfolding resume
  suspend retry m w =
      let timer = new_timer (now w) time_out (some expiry) false in
      elim (register_timer timer m >>= λ a. register_event fd type current true a.1) [
        | none ↦ undefined
        | some b ↦ resume retry timer (yield timer b.1 w)
      ]

  pub io_step : (IoManager → W → Outcome W) → IoManager → IoResult × W → Outcome W
  unfolding suspend
  io_step retry m (done n, w) = returned (done n) m w
  io_step retry m (interrupted, w) = retry m w
  io_step retry m (again, w) = suspend retry m w
  io_step retry m (failed, w) = returned failed m w

  -- The two loops of `ioInner`.
  pub io_loop : ℕ → IoManager → W → Outcome W
  unfolding io_step
  io_loop zero m w = out_of_fuel
  io_loop (suc fuel) m w = io_step (io_loop fuel) m (func w)

-- A direct call is made once.
direct : {W : Type 0} → IoManager → IoResult × W → Outcome W
direct m (r, w) = returned r m w

-- ioInner
pub io_inner :
    {W : Type 0} → Caller W → ℕ → ℕ → EventType → ℕ → ℕ → Contexts → IoManager → W → Outcome W
unfolding is_direct time_out_ms io_loop direct
io_inner thread fuel fd type current expiry contexts m w = elim (get_context (pos fd) contexts) [
  | none ↦ undefined
  | some context ↦ if is_direct context then direct m (thread.func w) else elim context [
    | none ↦ undefined
    | some c ↦ io_loop thread fd type current expiry (time_out_ms type c) fuel m w
  ]
]
