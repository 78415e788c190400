-- ===== src/IoManager/Forget.antt =====
-- What `removeEvent` of src/io/io_manager.cpp makes the kernel forget.
use net_base.Base.{
  ◌∷◌, List, List, ℕ, ◌≡◌, ◌≢◌, refl, ◌∙◌, ap, Bool, true, false, not, ◌&&◌, none, some, length,
  arith, ==_refl, if◌then◌else◌, get_elem?-set_self, lt→ltb,
}
use net_base.IoManager.{
  FdEvents, IoManager, EventType, read, write, other, flag, entry, put, call, resize_for, ep_add,
  register_type, register_at, register_event, has_event, remove_event, remove_from, left_by_remove,
}
use net_base.IoManager.Epoll.{
  union, in_events, out_events, is_empty, intersects, Events, interest, is_accepted, EpollCall,
  mods, dels,
}
use net_base.IoManager.Entries.{registered, entry_lt_length}
use net_base.IoManager.Register.{register_event-running, register_at-entry}
use net_base.IoManager.Remove.{has_event-registered, remove_event-some, has_event-remove_event}

intersects-flag : (type : EventType) → type ≢ other → intersects (flag type) (flag type) ≡ true
intersects-flag read h = refl
intersects-flag write h = refl
intersects-flag other h = absurd (h refl)

neither : (b : Bool) → (b && not b) ≡ false
neither true = refl
neither false = refl

left_by_remove-all : (a : Events) → is_empty (left_by_remove a a) ≡ true
unfolding left_by_remove
left_by_remove-all a =
    ground (arith, neither a.in_, neither a.out_, neither a.err, neither a.hup, neither a.et)

remove_from-all :
    (fd : ℕ) (events : Events) (e : FdEvents) (m : IoManager)
    → is_empty (left_by_remove e.registered_events events) ≡ true
    → (remove_from fd events e m).calls ≡ dels fd ∷ m.calls
unfolding remove_from put call
remove_from-all fd events e m h =
    ap (λ b. (if b then dels fd else mods fd (left_by_remove e.registered_events events)) ∷ m.calls)
      h

remove_from-stopped :
    (fd : ℕ) (events : Events) (e : FdEvents) (m : IoManager)
    → (remove_from fd events e m).stopped ≡ m.stopped
unfolding remove_from put call
remove_from-stopped fd events e m = refl

entry-remove_from :
    (fd : ℕ) (events : Events) (e : FdEvents) (m : IoManager)
    → entry fd m ≡ some e
    → (e' : FdEvents) × (entry fd (remove_from fd events e m) ≡ some e')
      × (e'.registered_events ≡ e.registered_events)
unfolding remove_from put call entry
entry-remove_from fd events e m at =
    (_, get_elem?-set_self m.fd_events fd _ (entry_lt_length fd e m at), refl)

resize_for-place :
    (fd : ℕ) (e : FdEvents) (m : IoManager) → entry fd m ≡ some e → resize_for fd m ≡ m
unfolding resize_for
resize_for-place fd e m at = rw (lt→ltb fd (length m.fd_events) (entry_lt_length fd e m at)) refl

ep_add-not_accepted :
    (fd : ℕ) (type : EventType) (e : FdEvents) (m : IoManager)
    → is_empty e.registered_events ≡ false
    → interest m.calls fd ≡ none
    → is_accepted (ep_add fd type e m).calls ≡ false
unfolding ep_add put call
ep_add-not_accepted fd type e m h i = rw h (rw i refl)

register_type-not_accepted :
    (fd : ℕ) (type : EventType) (p : ℕ) (once : Bool) (e : FdEvents) (m : IoManager)
    → type ≢ other
    → is_empty e.registered_events ≡ false
    → interest m.calls fd ≡ none
    → (after : IoManager) × (register_type fd type p once e m ≡ (true, after))
      × (is_accepted after.calls ≡ false)
unfolding register_type
register_type-not_accepted fd read p once e m t h i = (
  _,
  refl,
  ep_add-not_accepted fd read (record e { read_executor = some p; read_call_once = once }) m h i,
)
register_type-not_accepted fd write p once e m t h i = (
  _,
  refl,
  ep_add-not_accepted fd write (record e { write_executor = some p; write_call_once = once }) m h i,
)
register_type-not_accepted fd other p once e m t h i = absurd (t refl)

register_event-not_accepted :
    (fd : ℕ) (type : EventType) (p : ℕ) (once : Bool) (e : FdEvents) (m : IoManager)
    → m.stopped ≡ false
    → type ≢ other
    → entry fd m ≡ some e
    → is_empty e.registered_events ≡ false
    → interest m.calls fd ≡ none
    → (after : IoManager) × (register_event fd type p once m ≡ some (true, after))
      × (is_accepted after.calls ≡ false)
register_event-not_accepted fd type p once e m run t at h i =
    let (after, eq, bad) = register_type-not_accepted fd type p once e m t h i in
    (
      after,
      register_event-running fd type p once m run
          ∙ ap (register_at fd type p once) (resize_for-place fd e m at)
          ∙ register_at-entry fd type p once e m t at
          ∙ ap some eq,
      bad,
    )

flag-not_empty : (type : EventType) → type ≢ other → is_empty (flag type) ≡ false
flag-not_empty read h = refl
flag-not_empty write h = refl
flag-not_empty other h = absurd (h refl)

interest-dels :
    (fd : ℕ) (calls after : List EpollCall) → after ≡ dels fd ∷ calls → interest after fd ≡ none
interest-dels fd calls after q = rw (q, ==_refl fd) refl

remove_event-flag :
    (fd : ℕ) (type : EventType) (e : FdEvents) (m : IoManager)
    → type ≢ other
    → entry fd m ≡ some e
    → e.registered_events ≡ flag type
    → remove_event fd (flag type) m ≡ remove_from fd (flag type) e m
remove_event-flag fd type e m t at only =
    remove_event-some fd (flag type) e m at
    ∙ ap (λ b. if b then remove_from fd (flag type) e m else m)
        (ap (λ r. intersects r (flag type)) only ∙ intersects-flag type t)

remove_event_only :
    (fd : ℕ) (type : EventType) (e : FdEvents) (m : IoManager)
    → type ≢ other
    → entry fd m ≡ some e
    → e.registered_events ≡ flag type
    → interest (remove_event fd (flag type) m).calls fd ≡ none
remove_event_only fd type e m t at only =
    ap (λ n. interest n.calls fd) (remove_event-flag fd type e m t at only)
    ∙ interest-dels fd m.calls _ (
        remove_from-all fd (flag type) e m
          (ap (λ r. is_empty (left_by_remove r (flag type))) only ∙ left_by_remove-all (flag type)))

-- Of a manager that is not stopped: if exactly one event of a descriptor is registered and that
-- event is removed, the kernel stops watching the descriptor, while hasEvent still answers true;
-- a further registration for the descriptor makes a call that ::epoll_ctl refuses.
pub remove_event_forgets :
    (fd : ℕ) (type type' : EventType) (p : ℕ) (once : Bool) (e : FdEvents) (m : IoManager)
    → m.stopped ≡ false
    → type ≢ other
    → type' ≢ other
    → entry fd m ≡ some e
    → e.registered_events ≡ flag type
    → (interest (remove_event fd (flag type) m).calls fd ≡ none)
      × (has_event fd type (remove_event fd (flag type) m) ≡ true)
      × (after : IoManager) × (register_event fd type' p once (remove_event fd (flag type) m)
          ≡ some (true, after))
      × (is_accepted after.calls ≡ false)
remove_event_forgets fd type type' p once e m run t t' at only =
    let gone = remove_event_only fd type e m t at only in
    let same = remove_event-flag fd type e m t at only in
    let (e', at', kept) = entry-remove_from fd (flag type) e m at in
    let (after, eq, bad) =
      register_event-not_accepted fd type' p once e' (remove_event fd (flag type) m)
        (ap (λ n. n.stopped) same ∙ remove_from-stopped fd (flag type) e m ∙ run) t'
        (ap (entry fd) same ∙ at') (ap is_empty (kept ∙ only) ∙ flag-not_empty type t) gone in
    (
      gone,
      has_event-remove_event fd fd (flag type) type m
          ∙ has_event-registered fd type m
          ∙ ap (λ o. intersects (registered o) (flag type)) at
          ∙ ap (λ r. intersects r (flag type)) only
          ∙ intersects-flag type t,
      after,
      eq,
      bad,
    )

both-intersects :
    (type : EventType) → type ≢ other → intersects (union in_events out_events) (flag type) ≡ true
both-intersects read h = refl
both-intersects write h = refl
both-intersects other h = absurd (h refl)

left_by_remove-both :
    (type : EventType)
    → type ≢ other
    → is_empty (left_by_remove (union in_events out_events) (flag type)) ≡ true
unfolding left_by_remove
left_by_remove-both read h = refl
left_by_remove-both write h = refl
left_by_remove-both other h = absurd (h refl)

entry-remove_from_both :
    (fd : ℕ) (type : EventType) (e : FdEvents) (m : IoManager)
    → entry fd m ≡ some e
    → e.registered_events ≡ union in_events out_events
    → type ≢ other
    → entry fd (remove_from fd (flag type) e m)
      ≡ some (record e { read_executor = none; write_executor = none })
unfolding remove_from put call entry left_by_remove
entry-remove_from_both fd read e m at both t =
    get_elem?-set_self m.fd_events fd _ (entry_lt_length fd e m at)
    ∙ ap
        (λ b. some (record e {
          read_executor = if not b then e.read_executor else none;
          write_executor = none;
        }))
        (ap (λ r. r.in_) both)
entry-remove_from_both fd write e m at both t =
    get_elem?-set_self m.fd_events fd _ (entry_lt_length fd e m at)
    ∙ ap
        (λ b. some (record e {
          read_executor = none;
          write_executor = if not b then e.write_executor else none;
        }))
        (ap (λ r. r.out_) both)
entry-remove_from_both fd other e m at both t = absurd (t refl)

-- If reading and writing of a descriptor are registered and one of them is removed, the kernel
-- stops watching the descriptor, and the executors of both are dropped.
pub remove_event_both :
    (fd : ℕ) (type : EventType) (e : FdEvents) (m : IoManager)
    → type ≢ other
    → entry fd m ≡ some e
    → e.registered_events ≡ union in_events out_events
    → (interest (remove_event fd (flag type) m).calls fd ≡ none)
      × (entry fd (remove_event fd (flag type) m)
          ≡ some (record e { read_executor = none; write_executor = none }))
remove_event_both fd type e m t at both =
    let same =
      remove_event-some fd (flag type) e m at
      ∙ ap (λ b. if b then remove_from fd (flag type) e m else m)
          (ap (λ r. intersects r (flag type)) both ∙ both-intersects type t) in
    (
      ap (λ n. interest n.calls fd) same
          ∙ interest-dels fd m.calls _ (
              remove_from-all fd (flag type) e m (
                ap (λ r. is_empty (left_by_remove r (flag type))) both
                ∙ left_by_remove-both type t)),
      ap (entry fd) same ∙ entry-remove_from_both fd type e m at both t,
    )
