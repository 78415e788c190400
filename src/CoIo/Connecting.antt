-- ===== src/CoIo/Connecting.antt =====
-- `co_connect`, `sleepInner`, `co_sleep`, `co_usleep` and `co_nanosleep` of
-- src/io/co_io_function.cpp. `unsigned` has 32 bits; `none` is undefined behaviour.
use net_base.Base.{
  ℕ, ◌+◌, ◌*◌, ◌/◌, ◌%◌, ◌≡◌, ◌≢◌, refl, ap, ◌∙◌, Bool, true, false, not, ◌||◌, Option, none, some,
  if◌then◌else◌, ◌>>=◌, pos, word32,
}
use net_base.IoManager.{entry}
use net_base.IoManager.Entries.{HasPlace}
use net_base.IoManager.Tracking.{Tracks}
use net_base.IoManager.Register.{register_event-has_event, executor_of}
use net_base.Timer.{Timer, new_timer}
use net_base.FdManager.{FdContext, Contexts, get_context}
use net_base.IoManager.{IoManager, write, other, register_event, register_timer, has_event}

-- connect_sys: a success, -1 with EINPROGRESS, or -1 with another error.
pub data ConnectResult : Type 0 where
  connected in_progress refused : ConnectResult

-- What co_connect returns: 0, or -1 with an errno.
pub data Connected : Type 0 where
  success bad_descriptor error : Connected

-- `yield` is what happens until the coroutine goes on, and `so_error` whether getsockopt succeeds
-- and finds no error.
pub record Connector (W : Type 0) : Type 0 where
  pub connect_sys : W → ConnectResult × W
  pub yield : IoManager → W → IoManager × W
  pub so_error : W → Bool × W

module _ {W : Type 0} (connector : Connector W) (fd current : ℕ) where
  open connector use {connect_sys, yield, so_error}

  pub connect_result : IoManager → ConnectResult × W → Connected × IoManager × W
  connect_result m (connected, w) = (success, m, w)
  connect_result m (in_progress, w) = (error, m, w)
  connect_result m (refused, w) = (error, m, w)

  -- Behind the suspension.
  pub connect_end : IoManager × W → Connected × IoManager × W
  connect_end (m, w) = let (ok, v) = so_error w in (if ok then success else error, m, v)

  -- A socket whose calls may suspend the coroutine; the result of registerEvent is not looked at.
  pub connect_waiting : IoManager → ConnectResult × W → Option (Connected × IoManager × W)
  unfolding connect_end connect_result
  connect_waiting m (in_progress, w) =
      register_event fd write current true m >>= λ r. some (connect_end (yield r.1 w))
  connect_waiting m (r, w) = some (connect_result m (r, w))

  pub connect_known : FdContext → IoManager → W → Option (Connected × IoManager × W)
  unfolding connect_waiting connect_result
  connect_known c m w =
      if not c.is_socket || c.is_user_non_block
      then some (connect_result m (connect_sys w))
      else connect_waiting m (connect_sys w)

  -- co_connect
  pub co_connect : Contexts → IoManager → W → Option (Connected × IoManager × W)
  unfolding connect_known
  co_connect contexts m w = get_context (pos fd) contexts >>= λ o.
      elim o as (λ x. Option (Connected × IoManager × W)) [
        | none ↦ some (bad_descriptor, m, w)
        | some c ↦ connect_known c m w
      ]

-- sleepInner up to the suspension: the timer, and the manager with it.
pub sleep_inner : ℕ → ℕ → ℕ → IoManager → Option (Timer ℕ × IoManager)
sleep_inner ms now current m =
    let timer = new_timer now ms (some current) false in
    register_timer timer m >>= λ r. some (timer, r.1)

-- co_sleep, co_usleep and co_nanosleep
unfoldable pub co_sleep : ℕ → ℕ → ℕ → IoManager → Option (Timer ℕ × IoManager)
unfolding sleep_inner
co_sleep seconds = sleep_inner (seconds * 1000 % word32)

unfoldable pub co_usleep : ℕ → ℕ → ℕ → IoManager → Option (Timer ℕ × IoManager)
unfolding sleep_inner
co_usleep usec = sleep_inner (usec / 1000)

unfoldable pub co_nanosleep : ℕ → ℕ → ℕ → ℕ → IoManager → Option (Timer ℕ × IoManager)
unfolding sleep_inner
co_nanosleep tv_sec tv_nsec = sleep_inner ((tv_sec * 1000 + tv_nsec / 1000 / 1000) % word32)

write-other : (write ≡ other) → ⊥
write-other e = cc

module _ {W : Type 0} (connector : Connector W) (fd current : ℕ) where
  open connector use {connect_sys, yield, so_error}

  connect_known-waiting :
      (c : FdContext) (m : IoManager) (w : W)
      → c.is_socket ≡ true
      → c.is_user_non_block ≡ false
      → connect_known connector fd current c m w
        ≡ connect_waiting connector fd current m (connect_sys w)
  unfolding connect_known
  connect_known-waiting c m w s n = rw (s, n) refl

  -- For a known socket that may block, with a connection in progress and a running manager that
  -- tracks what the kernel watches and has a place for the descriptor, other than the wake-up
  -- pipe: the coroutine is suspended as the descriptor's writer in a manager that has the event
  -- and still tracks, and the result is a success if and only if SO_ERROR is 0 behind the
  -- suspension.
  pub co_connect-has_event :
      (c : FdContext) (contexts : Contexts) (m : IoManager) (w v : W)
      → get_context (pos fd) contexts ≡ some (some c)
      → c.is_socket ≡ true
      → c.is_user_non_block ≡ false
      → connect_sys w ≡ (in_progress, v)
      → m.stopped ≡ false
      → fd ≢ m.wakeup_fd
      → HasPlace fd m
      → Tracks m
      → (b : IoManager) × (has_event fd write b ≡ true)
        × ((entry fd b >>= executor_of write) ≡ some current)
        × Tracks b
        × (co_connect connector fd current contexts m w
            ≡ some (
              if (so_error (yield b v).1).0 then success else error,
              (yield b v).0,
              (so_error (yield b v).1).1,
            ))
  unfolding co_connect connect_waiting connect_end
  co_connect-has_event c contexts m w v known s n e run ne place tracks =
      let (b, r, has, ex, others, t) =
        register_event-has_event fd write current true m run (λ q. write-other q) ne place tracks in
      (
        b,
        has,
        ex,
        t,
        ap
              (λ o. o >>= λ o. elim o as (λ x. Option (Connected × IoManager × W)) [
                | none ↦ some (bad_descriptor, m, w)
                | some c ↦ connect_known connector fd current c m w
              ])
              known
            ∙ connect_known-waiting c m w s n
            ∙ ap (connect_waiting connector fd current m) e
            ∙ ap (λ o. o >>= λ r. some (connect_end connector fd current (yield r.1 v))) r,
      )
