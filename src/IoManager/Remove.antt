-- ===== src/IoManager/Remove.antt =====
-- `removeEvent` of src/io/io_manager.cpp: what it leaves registered and what it tells the kernel.
use net_base.Base.{
  if_both, inr, inl, Option-cases, ℕ, ◌≡◌, refl, sym, ◌∙◌, ap, false, none, some, arith,
  if◌then◌else◌, get_elem?-set_ne, get_elem?-set_self, ℕ_discrete,
}
use net_base.IoManager.{
  FdEvents, IoManager, EventType, flag, entry, put, call, has_event, remove_event, remove_from,
}
use net_base.IoManager.Epoll.{intersects, Events, EpollCall, no_events}
use net_base.IoManager.Entries.{registered, entry_lt_length}

flag_none : (type : EventType) → false ≡ intersects no_events (flag type)
flag_none type = ground arith

pub has_event-registered :
    (i : ℕ) (type : EventType) (m : IoManager)
    → has_event i type m ≡ intersects (registered (entry i m)) (flag type)
unfolding has_event
has_event-registered i type m = elim (Option-cases (entry i m)) [
  | inl e ↦ rw (has_event, e) (flag_none type)
  | inr (a, e) ↦ rw (has_event, e) refl
]

pub registered-put :
    (fd i : ℕ) (e e' : FdEvents) (m : IoManager)
    → entry fd m ≡ some e
    → e'.registered_events ≡ e.registered_events
    → registered (entry i (put fd e' m)) ≡ registered (entry i m)
unfolding put entry
registered-put fd i e e' m at same = elim (ℕ_discrete i fd) [
  | yes q ↦
      rw (q, get_elem?-set_self m.fd_events fd e' (entry_lt_length fd e m at))
        (same ∙ ap registered (sym at))
  | no q ↦ ap registered (get_elem?-set_ne m.fd_events e' (λ r. q (sym r)))
]

remove_event-none :
    (fd : ℕ) (events : Events) (m : IoManager) → entry fd m ≡ none → remove_event fd events m ≡ m
unfolding remove_event
remove_event-none fd events m at = rw (remove_event, at) refl

pub remove_event-some :
    (fd : ℕ) (events : Events) (e : FdEvents) (m : IoManager)
    → entry fd m ≡ some e
    → remove_event fd events m
      ≡ (if intersects e.registered_events events then remove_from fd events e m else m)
unfolding remove_event
remove_event-some fd events e m at = rw (remove_event, at) refl

entry-call : (i : ℕ) (c : EpollCall) (m : IoManager) → entry i (call c m) ≡ entry i m
unfolding entry call
entry-call i c m = refl

registered-remove_from :
    (fd i : ℕ) (events : Events) (e : FdEvents) (m : IoManager)
    → entry fd m ≡ some e
    → registered (entry i (remove_from fd events e m)) ≡ registered (entry i m)
unfolding remove_from
registered-remove_from fd i events e m at =
    registered-put fd i e _ _ (entry-call fd _ m ∙ at) refl ∙ ap registered (entry-call i _ m)

registered-remove_event :
    (fd i : ℕ) (events : Events) (m : IoManager)
    → registered (entry i (remove_event fd events m)) ≡ registered (entry i m)
registered-remove_event fd i events m = elim (Option-cases (entry fd m)) [
  | inl e ↦ ap (λ n. registered (entry i n)) (remove_event-none fd events m e)
  | inr (e, at) ↦
      ap (λ n. registered (entry i n)) (remove_event-some fd events e m at)
      ∙ if_both (λ n. registered (entry i n) ≡ registered (entry i m))
          (intersects e.registered_events events) (registered-remove_from fd i events e m at) refl
]

-- Whatever is removed, hasEvent answers for every descriptor and event as it did before.
pub has_event-remove_event :
    (fd i : ℕ) (events : Events) (type : EventType) (m : IoManager)
    → has_event i type (remove_event fd events m) ≡ has_event i type m
has_event-remove_event fd i events type m =
    has_event-registered i type (remove_event fd events m)
    ∙ ap (λ r. intersects r (flag type)) (registered-remove_event fd i events m)
    ∙ sym (has_event-registered i type m)
