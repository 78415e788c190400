-- ===== src/IoManager/Register.antt =====
-- `registerEvent` of src/io/io_manager.cpp.
use net_base.Base.{
  length-grow, sym, get_elem?-none, le→not-ltb, get_elem?-set_ne, inr, inl, ◌*◌, ◌/◌, ◌>>=◌,
  if◌then◌else◌, ℕ, ◌≡◌, ◌≢◌, ◌<◌, ◌≤◌, refl, ◌∙◌, ap, Bool, true, false, not, Option, none, some,
  length, arith, Bool-cases,
}
use net_base.IoManager.{
  empty_events, mods, adds, FdEvents, IoManager, EventType, mods, adds, read, write, other, flag,
  entry, put, call, resize_for, ep_add, register_type, register_at, register_event, has_event,
}
use net_base.IoManager.Epoll.{is_empty, union, intersects, Events}
use net_base.IoManager.Entries.{
  resize_for-wakeup_fd, registered, HasPlace, entry-lt, resize_for-enough, entry-put_self,
}
use net_base.IoManager.Tracking.{registered-resize_for, Tracks, put-call-Tracks, resize_for-Tracks}

-- EPOLLIN or EPOLLOUT
abbrev pub IsEvent : EventType → Type 0
IsEvent type = type ≢ other

union-not_empty :
    (a : Events) (type : EventType) → IsEvent type → not (is_empty (union a (flag type))) ≡ true
union-not_empty a read h = ground arith
union-not_empty a write h = ground arith
union-not_empty a other h = absurd (h refl)

pub executor_of : EventType → FdEvents → Option ℕ
executor_of read e = e.read_executor
executor_of _ e = e.write_executor

ep_add-Tracks :
    (fd : ℕ) (type : EventType) (e e' : FdEvents) (m : IoManager)
    → IsEvent type
    → fd ≢ m.wakeup_fd
    → fd < length m.fd_events
    → entry fd m ≡ some e
    → e'.registered_events ≡ e.registered_events
    → Tracks m
    → Tracks (ep_add fd type e' m)
unfolding ep_add
ep_add-Tracks fd type e e' m t ne room at same h =
    elim (Bool-cases (is_empty e'.registered_events)) [
      | inl nothing ↦ rw nothing (
          put-call-Tracks fd (adds fd _) e _ m refl ne room at (ground (arith, same, nothing))
            (union-not_empty e'.registered_events type t) h)
      | inr something ↦ rw something (
          put-call-Tracks fd (mods fd _) e _ m refl ne room at (ground (arith, same, something))
            (union-not_empty e'.registered_events type t) h)
    ]

register_type-Tracks :
    (fd : ℕ) (type : EventType) (p : ℕ) (once : Bool) (e : FdEvents) (m : IoManager)
    → IsEvent type
    → fd ≢ m.wakeup_fd
    → fd < length m.fd_events
    → entry fd m ≡ some e
    → Tracks m
    → (e' : FdEvents) × (register_type fd type p once e m ≡ (true, ep_add fd type e' m))
      × (e'.registered_events ≡ e.registered_events)
      × (executor_of type e' ≡ some p)
      × Tracks (ep_add fd type e' m)
unfolding register_type executor_of
register_type-Tracks fd read p once e m t ne room at h =
    (_, refl, refl, refl, ep_add-Tracks fd read e _ m t ne room at refl h)
register_type-Tracks fd write p once e m t ne room at h =
    (_, refl, refl, refl, ep_add-Tracks fd write e _ m t ne room at refl h)
register_type-Tracks fd other p once e m t ne room at h = absurd (t refl)

pub register_at-entry :
    (fd : ℕ) (type : EventType) (p : ℕ) (once : Bool) (e : FdEvents) (m : IoManager)
    → IsEvent type
    → entry fd m ≡ some e
    → register_at fd type p once m ≡ some (register_type fd type p once e m)
unfolding register_at
register_at-entry fd read p once e m t at = rw at refl
register_at-entry fd write p once e m t at = rw at refl
register_at-entry fd other p once e m t at = absurd (t refl)

union-intersects :
    (a : Events) (type : EventType)
    → IsEvent type
    → intersects (union a (flag type)) (flag type) ≡ true
union-intersects a read h = ground arith
union-intersects a write h = ground arith
union-intersects a other h = absurd (h refl)

entry-ep_add :
    (fd : ℕ) (type : EventType) (e : FdEvents) (m : IoManager)
    → fd < length m.fd_events
    → entry fd (ep_add fd type e m)
      ≡ some (record e { registered_events = union e.registered_events (flag type) })
unfolding ep_add
entry-ep_add fd type e m room = entry-put_self fd _ _ room

pub has_event-entry :
    (fd : ℕ) (type : EventType) (e : FdEvents) (m : IoManager)
    → entry fd m ≡ some e
    → has_event fd type m ≡ intersects e.registered_events (flag type)
unfolding has_event
has_event-entry fd type e m at = rw (has_event, at) refl

executor_of-registered :
    (type : EventType) (e : FdEvents) (r : Events)
    → executor_of type (record e { registered_events = r }) ≡ executor_of type e
unfolding executor_of
executor_of-registered read e r = refl
executor_of-registered write e r = refl
executor_of-registered other e r = refl

registered-ep_add :
    (fd i : ℕ) (type : EventType) (e : FdEvents) (m : IoManager)
    → i ≢ fd
    → entry i (ep_add fd type e m) ≡ entry i m
unfolding ep_add entry put call
registered-ep_add fd i type e m n = get_elem?-set_ne m.fd_events _ (λ q. n (sym q))

pub register_event-running :
    (fd : ℕ) (type : EventType) (p : ℕ) (once : Bool) (m : IoManager)
    → m.stopped ≡ false
    → register_event fd type p once m ≡ register_at fd type p once (resize_for fd m)
unfolding register_event
register_event-running fd type p once m run =
    ap (λ b. if b then some (false, m) else register_at fd type p once (resize_for fd m)) run

-- Of a manager that is not stopped and tracks what the kernel watches, a reading or writing
-- event of a descriptor from 2 on, or of one that has an entry, other than the wake-up pipe, is
-- registered: the manager then has the event, keeps its executor, still tracks what the kernel
-- watches without a refused call of ::epoll_ctl, and the events of other descriptors stay.
pub register_event-has_event :
    (fd : ℕ) (type : EventType) (p : ℕ) (once : Bool) (m : IoManager)
    → m.stopped ≡ false
    → type ≢ other
    → fd ≢ m.wakeup_fd
    → HasPlace fd m
    → Tracks m
    → (after : IoManager) × (register_event fd type p once m ≡ some (true, after))
      × (has_event fd type after ≡ true)
      × ((entry fd after >>= executor_of type) ≡ some p)
      × ((i : ℕ) → i ≢ fd → registered (entry i after) ≡ registered (entry i m))
      × Tracks after
register_event-has_event fd type p once m run t ne place h =
    let n = resize_for fd m in
    let room = resize_for-enough fd m place in
    let (e, at) = entry-lt fd n room in
    let (e', eq, same, ex, tr) =
      register_type-Tracks fd type p once e n t (λ q. ne (q ∙ resize_for-wakeup_fd fd m)) room at
        (resize_for-Tracks fd m h) in
    (
      ep_add fd type e' n,
      register_event-running fd type p once m run
          ∙ register_at-entry fd type p once e n t at
          ∙ ap some eq,
      has_event-entry fd type _ _ (entry-ep_add fd type e' n room) ∙ union-intersects _ type t,
      rw (entry-ep_add fd type e' n room) (executor_of-registered type e' _ ∙ ex),
      λ i q. ap registered (registered-ep_add fd i type e' n q) ∙ registered-resize_for fd i m,
      tr,
    )

register_at-outside :
    (fd : ℕ) (type : EventType) (p : ℕ) (once : Bool) (m : IoManager)
    → type ≢ other
    → entry fd m ≡ none
    → register_at fd type p once m ≡ none
unfolding register_at
register_at-outside fd read p once m t at = rw at refl
register_at-outside fd write p once m t at = rw at refl
register_at-outside fd other p once m t at = absurd (t refl)

entry-resize_for_small :
    (fd : ℕ) (m : IoManager) → fd < 2 → length m.fd_events ≤ fd → entry fd (resize_for fd m) ≡ none
unfolding entry resize_for
entry-resize_for_small fd m small outside =
    rw (le→not-ltb fd (length m.fd_events) outside)
      (get_elem?-none _ fd (omega (arith, length-grow (fd * 3 / 2) empty_events m.fd_events)))

-- For descriptor 0 or 1 without an entry, on a manager that is not stopped, registering a
-- reading or writing event writes outside the vector.
pub register_event_outside :
    (fd : ℕ) (type : EventType) (p : ℕ) (once : Bool) (m : IoManager)
    → m.stopped ≡ false
    → type ≢ other
    → fd < 2
    → length m.fd_events ≤ fd
    → register_event fd type p once m ≡ none
register_event_outside fd type p once m run t small outside =
    register_event-running fd type p once m run
    ∙ register_at-outside fd type p once (resize_for fd m) t
        (entry-resize_for_small fd m small outside)
