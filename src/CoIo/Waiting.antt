-- ===== src/CoIo/Waiting.antt =====
-- `ioInner` of src/io/co_io_function.cpp: it ends, and not with EINTR or EAGAIN.
use net_base.Base.{
  if◌then◌else◌, sym, subst, ℕ, zero, suc, ◌≡◌, ◌≢◌, ◌<◌, ◌≤◌, refl, ap, ◌∙◌, Bool, true, false,
  Option, none, some, arith, pos, inl, inr, Option-cases,
}
use net_base.Timer.{Timer, new_timer}
use net_base.FdManager.{FdContext, Contexts, get_context}
use net_base.IoManager.{IoManager, EventType, other, cancel_timer}
use net_base.Timer.Cancel.{callback-new_timer}
use net_base.IoManager.Waits.{Cancels, cancel_timer-stopped, register_timer-register_event}
use net_base.CoIo.{
  IoResult, done, interrupted, again, failed, Outcome, returned, timed_out, undefined, out_of_fuel,
  Caller, time_out_ms, is_direct, resume, suspend, io_step, io_loop, io_inner,
}

abbrev pub IsFinal : IoResult → Type 0
IsFinal (done n) = Unit {0}
IsFinal interrupted = ⊥
IsFinal again = ⊥
IsFinal failed = Unit {0}

module _ {W : Type 0} (thread : Caller W) where
  open thread use {func, now, yield}

  -- Signals and suspensions come to an end, and the manager is not stopped meanwhile.
  pub record Progress : Type 0 where
    pub pending : W → ℕ
    pub interrupted_less : (w : W) → (func w).0 ≡ interrupted → pending (func w).1 < pending w
    pub again_less :
        (t : Timer ℕ) (m : IoManager) (w : W)
        → (func w).0 ≡ again
        → pending (yield t m (func w).1).2 < pending w
    pub yield_runs :
        (t : Timer ℕ) (m : IoManager) (w : W) → m.stopped ≡ false → (yield t m w).1.stopped ≡ false

  -- At a suspension, behind a system call that would have to wait, the timer was set, and then,
  -- although it has not expired, no timer with its time stamp is left.
  abbrev pub LosesTimer : (expiry time_out : ℕ) → Type 0
  LosesTimer expiry time_out =
      (m : IoManager) × (x w : W) × (func x ≡ (again, w))
      × (let t = new_timer (now w) time_out (some expiry) false in
          Cancels t m × ((yield t m w).0 ≡ false) × (cancel_timer (some t) (yield t m w).1 ≡ none))

  abbrev pub Settles : (expiry time_out : ℕ) → Outcome W → Type 0
  Settles expiry time_out (returned r m w) = IsFinal r
  Settles expiry time_out (timed_out m w) = Unit {0}
  Settles expiry time_out undefined = LosesTimer expiry time_out
  Settles expiry time_out out_of_fuel = ⊥

module _ {W : Type 0} (thread : Caller W) (progress : Progress thread) (fd : ℕ) (type : EventType)
    (current expiry : ℕ) (time_out : ℕ) (high : 2 ≤ fd) (event : type ≢ other) where
  open thread use {func, now, yield}
  open progress use {pending, interrupted_less, again_less, yield_runs}

  abbrev Retries : ℕ → (IoManager → W → Outcome W) → Type 0
  Retries fuel retry =
      (m : IoManager) (w : W)
      → m.stopped ≡ false
      → pending w < fuel
      → Settles thread expiry time_out (retry m w)

  resume-cancels :
      (retry : IoManager → W → Outcome W) (t : Timer ℕ) (m n : IoManager) (w : W)
      → cancel_timer (some t) m ≡ some n
      → resume thread fd type current expiry time_out retry t (false, m, w) ≡ retry n w
  unfolding resume
  resume-cancels retry t m n w e =
      ap (λ o. elim o as (λ x. Outcome W) [ none ↦ undefined | some k ↦ retry k w ]) e

  resume-loses :
      (retry : IoManager → W → Outcome W) (t : Timer ℕ) (m : IoManager) (w : W)
      → cancel_timer (some t) m ≡ none
      → resume thread fd type current expiry time_out retry t (false, m, w) ≡ undefined
  unfolding resume
  resume-loses retry t m w e =
      ap (λ o. elim o as (λ x. Outcome W) [ none ↦ undefined | some k ↦ retry k w ]) e

  resume-Settles :
      (fuel : ℕ) (retry : IoManager → W → Outcome W) (t : Timer ℕ) (s : Bool × IoManager × W)
      → Retries fuel retry
      → (s.0 ≡ false → cancel_timer (some t) s.1 ≡ none → LosesTimer thread expiry time_out)
      → s.1.stopped ≡ false
      → pending s.2 < fuel
      → Settles thread expiry time_out (resume thread fd type current expiry time_out retry t s)
  unfolding resume
  resume-Settles fuel retry t (true, m, w) h c run l = tt
  resume-Settles fuel retry t (false, m, w) h c run l =
      elim (Option-cases (cancel_timer (some t) m)) [
        | inl e ↦
            subst (Settles thread expiry time_out) (sym (resume-loses retry t m w e)) (c refl e)
        | inr (n, e) ↦
            subst (Settles thread expiry time_out) (sym (resume-cancels retry t m n w e))
              (h n w (cancel_timer-stopped t m n e ∙ run) l)
      ]

  suspend-Settles :
      (fuel : ℕ) (retry : IoManager → W → Outcome W) (m : IoManager) (x w : W)
      → func x ≡ (again, w)
      → Retries fuel retry
      → m.stopped ≡ false
      → ((t : Timer ℕ) (n : IoManager) → pending (yield t n w).2 < fuel)
      → Settles thread expiry time_out (suspend thread fd type current expiry time_out retry m w)
  unfolding suspend
  suspend-Settles fuel retry m x w waits h run l =
      let t = new_timer (now w) time_out (some expiry) false in
      let (b, e, c, r) =
        register_timer-register_event expiry fd t type current m
          (callback-new_timer (now w) time_out (some expiry)) run event high in
      let y = yield t b.1 w in
      subst (Settles thread expiry time_out)
        (ap
          (λ o. elim o as (λ x. Outcome W) [
            | none ↦ undefined
            | some b ↦ resume thread fd type current expiry time_out retry t (yield t b.1 w)
          ])
          (sym e))
        (resume-Settles fuel retry t y h (λ on gone. (b.1, x, w, waits, (c, on, gone)))
          (yield_runs t b.1 w r) (l t b.1))

  again_below :
      {fuel : ℕ} (t : Timer ℕ) (m : IoManager) (w v : W)
      → func w ≡ (again, v)
      → pending w ≤ fuel
      → pending (yield t m v).2 < fuel
  again_below {fuel} t m w v e l =
      subst (λ u. pending (yield t m u).2 < fuel) (ap (λ a. a.1) e)
        (omega (arith, l, again_less t m w (ap (λ a. a.0) e)))

  io_step-Settles :
      (fuel : ℕ) (retry : IoManager → W → Outcome W) (m : IoManager) (w : W) (r : IoResult × W)
      → Retries fuel retry
      → m.stopped ≡ false
      → pending w ≤ fuel
      → r ≡ func w
      → Settles thread expiry time_out (io_step thread fd type current expiry time_out retry m r)
  unfolding io_step
  io_step-Settles fuel retry m w (done n, v) h run l e = tt
  io_step-Settles fuel retry m w (interrupted, v) h run l e =
      h m v run (ground (arith, interrupted_less w, e, l))
  io_step-Settles fuel retry m w (again, v) h run l e =
      suspend-Settles fuel retry m w v (sym e) h run (λ t n. again_below t n w v (sym e) l)
  io_step-Settles fuel retry m w (failed, v) h run l e = tt

  io_loop-Settles : (fuel : ℕ) → Retries fuel (io_loop thread fd type current expiry time_out fuel)
  unfolding io_loop
  io_loop-Settles zero m w run l = absurd (omega (arith, l))
  io_loop-Settles (suc fuel) m w run l =
      io_step-Settles fuel _ m w (func w) (io_loop-Settles fuel) run (omega (arith, l)) refl

module _ {W : Type 0} (thread : Caller W) (fuel fd : ℕ) (type : EventType) (current expiry : ℕ)
    (contexts : Contexts) (m : IoManager) (w : W) where
  open thread use {func}

  io_inner-context :
      (o : Option FdContext)
      → get_context (pos fd) contexts ≡ some o
      → io_inner thread fuel fd type current expiry contexts m w ≡ (
          if is_direct o then returned (func w).0 m (func w).1 else elim o as (λ x. Outcome W) [
            | none ↦ undefined
            | some c ↦ io_loop thread fd type current expiry (time_out_ms type c) fuel m w
          ])
  unfolding io_inner
  io_inner-context o e = rw (io_inner, e) refl

  is_direct-socket :
      (c : FdContext)
      → c.is_socket ≡ true
      → c.is_user_non_block ≡ false
      → is_direct (some c) ≡ false
  unfolding is_direct
  is_direct-socket c socket blocking = ground (arith, socket, blocking)

  -- A socket that its user did not make non-blocking: the loop, with its time-out.
  pub io_inner-waits :
      (c : FdContext)
      → get_context (pos fd) contexts ≡ some (some c)
      → c.is_socket ≡ true
      → c.is_user_non_block ≡ false
      → io_inner thread fuel fd type current expiry contexts m w
        ≡ io_loop thread fd type current expiry (time_out_ms type c) fuel m w
  io_inner-waits c e socket blocking =
      io_inner-context (some c) e
      ∙ ap
          (λ b.
            if b
            then returned (func w).0 m (func w).1
            else io_loop thread fd type current expiry (time_out_ms type c) fuel m w)
          (is_direct-socket c socket blocking)

  -- Of a socket that the user did not make non-blocking, with a descriptor from 2 on and a
  -- manager that is not stopped, also not during a suspension: with fuel for the signals and
  -- suspensions still to come, ioInner ends with a result that is neither EINTR nor EAGAIN, or
  -- by its time-out. It is undefined only if, at a suspension that does not time out, the timer
  -- that was set is gone: no timer with its time stamp is left to be cancelled.
  pub io_inner-Settles :
      (progress : Progress thread) (c : FdContext)
      → get_context (pos fd) contexts ≡ some (some c)
      → c.is_socket ≡ true
      → c.is_user_non_block ≡ false
      → type ≢ other
      → 2 ≤ fd
      → m.stopped ≡ false
      → progress.pending w < fuel
      → Settles thread expiry
          (time_out_ms type c)
          (io_inner thread fuel fd type current expiry contexts m w)
  io_inner-Settles progress c e socket blocking event high run l =
      subst (Settles thread expiry (time_out_ms type c)) (sym (io_inner-waits c e socket blocking))
        (io_loop-Settles thread progress fd type current expiry (time_out_ms type c) high event fuel
          m w run l)

  -- Without a context, for what is no socket and for a socket that the user made non-blocking,
  -- ioInner makes the system call once, returns its result whatever it is, and leaves the
  -- manager alone.
  pub io_inner-direct :
      (o : Option FdContext)
      → get_context (pos fd) contexts ≡ some o
      → is_direct o ≡ true
      → io_inner thread fuel fd type current expiry contexts m w ≡ returned (func w).0 m (func w).1
  io_inner-direct o e h =
      io_inner-context o e
      ∙ ap
          (λ b. if b then returned (func w).0 m (func w).1 else elim o as (λ x. Outcome W) [
            | none ↦ undefined
            | some c ↦ io_loop thread fd type current expiry (time_out_ms type c) fuel m w
          ])
          h
