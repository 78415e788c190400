-- ===== src/IoManager/Waits.antt =====
-- A timer and then an event are registered, as `ioInner` of src/io/co_io_function.cpp does.
use net_base.Base.{
  >>=-eq-some, ℕ, ◌≡◌, ◌≢◌, ◌≤◌, refl, ap, ◌∙◌, Bool, true, false, some, arith, inr, ◌>>=◌, List,
  if◌then◌else◌,
}
use net_base.Timer.{Timer, add_timer, remove_timer}
use net_base.Timer.Cancel.{remove_timer-add_timer}
use net_base.IoManager.{
  FdEvents, IoManager, EventType, read, write, other, put, call, resize_for, ep_add, register_type,
  register_event, register_timer, cancel_timer,
}
use net_base.IoManager.Entries.{entry-lt, resize_for-enough, resize_for-stopped}
use net_base.IoManager.Register.{register_event-running, register_at-entry}

-- The timer can be cancelled, which is defined only while it is set.
abbrev pub Cancels : Timer ℕ → IoManager → Type 0
Cancels t m = (n : IoManager) × (cancel_timer (some t) m ≡ some n) × (n.stopped ≡ m.stopped)

cancel_timer-some :
    (t : Timer ℕ) (m : IoManager) (after : List (Timer ℕ))
    → remove_timer (some t) m.timers ≡ some after
    → Cancels t m
unfolding cancel_timer
cancel_timer-some t m after e = (
  record m { timers = after },
  ap (λ o. o >>= λ timers. some (record m { timers = timers })) e,
  refl,
)

pub cancel_timer-stopped :
    (t : Timer ℕ) (m n : IoManager) → cancel_timer (some t) m ≡ some n → n.stopped ≡ m.stopped
unfolding cancel_timer
cancel_timer-stopped t m n e =
    let (timers, _, f) =
      >>=-eq-some (remove_timer (some t) m.timers) (λ timers. some (record m { timers = timers }))
        e in
    cc f

register_timer-running :
    (t : Timer ℕ) (m : IoManager) (added : List (Timer ℕ))
    → m.stopped ≡ false
    → add_timer t m.timers ≡ some added
    → register_timer t m ≡ some (true, record m { timers = added })
unfolding register_timer
register_timer-running t m added run e =
    ap
      (λ b.
        if b
        then some (false, m)
        else (add_timer t m.timers >>= λ timers. some (true, record m { timers = timers })))
      run
    ∙ ap (λ o. o >>= λ timers. some (true, record m { timers = timers })) e

resize_for-timers : (fd : ℕ) (m : IoManager) → (resize_for fd m).timers ≡ m.timers
unfolding resize_for
resize_for-timers fd m = ground arith

register_type-timers :
    (fd : ℕ) (type : EventType) (p : ℕ) (once : Bool) (e : FdEvents) (m : IoManager)
    → ((register_type fd type p once e m).1.timers ≡ m.timers)
      × ((register_type fd type p once e m).1.stopped ≡ m.stopped)
unfolding register_type ep_add put call
register_type-timers fd read p once e m = (refl, refl)
register_type-timers fd write p once e m = (refl, refl)
register_type-timers fd other p once e m = (refl, refl)

register_event-timers :
    (fd : ℕ) (type : EventType) (p : ℕ) (once : Bool) (m : IoManager)
    → m.stopped ≡ false
    → type ≢ other
    → 2 ≤ fd
    → (b : Bool × IoManager) × (register_event fd type p once m ≡ some b)
      × (b.1.timers ≡ m.timers)
      × (b.1.stopped ≡ m.stopped)
register_event-timers fd type p once m run t high =
    let n = resize_for fd m in
    let (e, at) = entry-lt fd n (resize_for-enough fd m (inr high)) in
    let (a, b) = register_type-timers fd type p once e n in
    (
      register_type fd type p once e n,
      register_event-running fd type p once m run ∙ register_at-entry fd type p once e n t at,
      a ∙ resize_for-timers fd m,
      b ∙ resize_for-stopped fd m,
    )

-- Both registrations are defined, and the timer can be cancelled afterwards.
pub register_timer-register_event :
    (c fd : ℕ) (t : Timer ℕ) (type : EventType) (p : ℕ) (m : IoManager)
    → t.callback ≡ some c
    → m.stopped ≡ false
    → type ≢ other
    → 2 ≤ fd
    → (b : Bool × IoManager) × ((register_timer t m >>= λ a. register_event fd type p true a.1)
        ≡ some b)
      × Cancels t b.1
      × (b.1.stopped ≡ false)
register_timer-register_event c fd t type p m callback run event high =
    let (added, q, after, r) = remove_timer-add_timer c t m.timers callback in
    let (b, e, same, s) =
      register_event-timers fd type p true (record m { timers = added }) run event high in
    (
      b,
      ap (λ o. o >>= λ a. register_event fd type p true a.1)
            (register_timer-running t m added run q)
          ∙ e,
      cancel_timer-some t b.1 after (ap (remove_timer (some t)) same ∙ r),
      s ∙ run,
    )
