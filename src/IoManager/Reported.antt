-- ===== src/IoManager/Reported.antt =====
-- The loop of `blockPending` of src/io/io_manager.cpp over the reported events keeps the
-- correspondence with what the kernel watches.
use net_base.Base.{
  ==_iff, OnSome-bind, Option-cases, get_elem?, ℕ, ◌≡◌, ◌≢◌, refl, sym, ◌∙◌, ap, Bool, true, false,
  not, ◌||◌, List, [], ◌∷◌, Option, none, some, arith, Bool-cases, ◌==◌, if◌then◌else◌, OnSome,
  ◌>>=◌, if_both, get_elem?, inl, inr,
}
use net_base.IoManager.{
  add_executor, FdEvents, IoManager, entry, put, call, reuse, clear_in, clear_out, store_left,
  enqueue, wake_reader, wake_writer, handle_event, handle_events, EpollEvent,
}
use net_base.IoManager.Epoll.{
  interest, is_watched, is_accepted, is_empty, Events, same_events, mods, dels,
}
use net_base.IoManager.Entries.{registered, entry_lt_length}
use net_base.IoManager.Remove.{registered-put}
use net_base.IoManager.Tracking.{Tracks, put-call-Tracks}

-- Left of the registered events `r`, with the entries, the calls and the pipe of `m`.
abbrev Left : Events → IoManager → Events × IoManager → Type 0
Left r m (left, n) =
    (is_empty r ≡ true → is_empty left ≡ true)
    × (n.fd_events ≡ m.fd_events)
    × (n.calls ≡ m.calls)
    × (n.wakeup_fd ≡ m.wakeup_fd)

fewer_in : (a : Events) → is_empty a ≡ true → is_empty (record a { in_ = false }) ≡ true
fewer_in a h = ground arith

fewer_out : (a : Events) → is_empty a ≡ true → is_empty (record a { out_ = false }) ≡ true
fewer_out a h = ground arith

module _ (r : Events) (m : IoManager) where
  reuse-Left :
      (left : Events) (p : Option ℕ) (n : IoManager)
      → Left r m (left, n)
      → OnSome (Left r m) (reuse p n >>= λ k. some (left, k))
  unfolding reuse
  reuse-Left left none n h = tt
  reuse-Left left (some p) n h = h

  clear_in-Left : (b : Bool) (first : Option FdEvents) → OnSome (Left r m) (clear_in b r first m)
  unfolding clear_in
  clear_in-Left false first = (λ h. h, refl, refl, refl)
  clear_in-Left true none = tt
  clear_in-Left true (some f) =
      if_both (OnSome (Left r m)) f.read_call_once (fewer_in r, refl, refl, refl)
        (reuse-Left r f.read_executor m (λ h. h, refl, refl, refl))

  clear_out-Left :
      (b : Bool) (first : Option FdEvents) (a : Events × IoManager)
      → Left r m a
      → OnSome (Left r m) (clear_out b first a)
  unfolding clear_out
  clear_out-Left false first (left, n) h = h
  clear_out-Left true none (left, n) h = tt
  clear_out-Left true (some f) (left, n) h =
      if_both (OnSome (Left r m)) f.write_call_once ((λ e. fewer_out left (h.0 e)), h.1, h.2, h.3)
        (reuse-Left left f.write_executor n h)

Tracks-same :
    (m n : IoManager)
    → n.fd_events ≡ m.fd_events
    → n.calls ≡ m.calls
    → n.wakeup_fd ≡ m.wakeup_fd
    → Tracks m
    → Tracks n
unfolding entry
Tracks-same m n f c w (a, t) = (
  ap is_accepted c ∙ a,
  λ i ne.
      ap (λ l. is_watched (interest l i)) c
      ∙ t i (λ q. ne (q ∙ sym w))
      ∙ ap (λ l. not (is_empty (registered (get_elem? l i)))) (sym f),
)

same_events_empty : (a b : Events) → is_empty a ≡ true → is_empty b ≡ true → same_events a b ≡ true
same_events_empty a b h k = ground arith

store-Tracks :
    (fd : ℕ) (e : FdEvents) (left : Events) (n : IoManager)
    → fd ≢ n.wakeup_fd
    → entry fd n ≡ some e
    → is_empty e.registered_events ≡ false
    → Tracks n
    → Tracks (
        put fd
          (record e { registered_events = left })
          (call (if is_empty left then dels fd else mods fd left) n))
store-Tracks fd e left n ne at full h =
    let room = entry_lt_length fd e n at in
    elim (Bool-cases (is_empty left)) [
      | inl nothing ↦
          rw nothing
            (put-call-Tracks fd (dels fd) e _ n refl ne room at (ap not full) (ap not nothing) h)
      | inr something ↦ rw something (
          put-call-Tracks fd (mods fd left) e _ n refl ne room at (ap not full) (ap not something)
            h)
    ]

store_left-Tracks :
    (fd : ℕ) (e : FdEvents) (n : IoManager) (left : Events)
    → fd ≢ n.wakeup_fd
    → entry fd n ≡ some e
    → (is_empty e.registered_events ≡ true → is_empty left ≡ true)
    → Tracks n
    → Tracks (store_left fd e (left, n))
unfolding store_left
store_left-Tracks fd e n left ne at fewer h =
    elim (Bool-cases (same_events left e.registered_events)) [
      | inl same ↦ rw same h
      | inr differ ↦ elim (Bool-cases (is_empty e.registered_events)) [
        | inl nothing ↦
            ground (arith, same_events_empty left e.registered_events (fewer nothing) nothing)
        | inr full ↦ rw differ (store-Tracks fd e left n ne at full h)
      ]
    ]

put-Tracks :
    (fd : ℕ) (e e' : FdEvents) (m : IoManager)
    → entry fd m ≡ some e
    → e'.registered_events ≡ e.registered_events
    → Tracks m
    → Tracks (put fd e' m)
unfolding put
put-Tracks fd e e' m at same (a, t) =
    (a, λ i ne. t i ne ∙ ap (λ r. not (is_empty r)) (sym (registered-put fd i e e' m at same)))

enqueue-Tracks : (p : Option ℕ) (m : IoManager) → Tracks m → OnSome Tracks (enqueue p m)
unfolding enqueue entry
enqueue-Tracks p m h = elim (Bool-cases (add_executor p m.scheduler).0) [
  | inl added ↦ rw added h
  | inr refused ↦ rw refused tt
]

wake_reader-Tracks :
    (fd : ℕ) (b : Bool) (m : IoManager) → Tracks m → OnSome Tracks (wake_reader fd b m)
unfolding wake_reader
wake_reader-Tracks fd false m h = h
wake_reader-Tracks fd true m h = elim (Option-cases (entry fd m)) [
  | inl e ↦ rw e tt
  | inr (e, at) ↦ rw at (
      enqueue-Tracks e.read_executor _
        (if_both Tracks e.read_call_once (put-Tracks fd e _ m at refl h) h))
]

wake_writer-Tracks :
    (fd : ℕ) (b : Bool) (m : IoManager) → Tracks m → OnSome Tracks (wake_writer fd b m)
unfolding wake_writer
wake_writer-Tracks fd false m h = h
wake_writer-Tracks fd true m h = elim (Option-cases (entry fd m)) [
  | inl e ↦ rw e tt
  | inr (e, at) ↦ rw at (
      enqueue-Tracks e.write_executor _
        (if_both Tracks e.write_call_once (put-Tracks fd e _ m at refl h) h))
]

-- The stores and the calls behind the events that stay.
Left-Tracks :
    (fd : ℕ) (e : FdEvents) (m : IoManager) (a : Events × IoManager)
    → fd ≢ m.wakeup_fd
    → entry fd m ≡ some e
    → Tracks m
    → Left e.registered_events m a
    → Tracks (store_left fd e a)
unfolding entry
Left-Tracks fd e m (left, n) ne at h (fewer, f, c, w) =
    store_left-Tracks fd e n left (λ q. ne (q ∙ w)) (ap (λ l. get_elem? l fd) f ∙ at) fewer
      (Tracks-same m n f c w h)

handle_event-Tracks :
    (first_fd : ℕ) (ev : EpollEvent) (m : IoManager)
    → ev.fd ≢ m.wakeup_fd
    → Tracks m
    → OnSome Tracks (handle_event first_fd ev m)
unfolding handle_event
handle_event-Tracks first_fd ev m ne h = elim (Option-cases (entry ev.fd m)) [
  | inl e ↦ rw e tt
  | inr (e, at) ↦ rw at (
      OnSome-bind (Left e.registered_events m) Tracks _ _
        (OnSome-bind (Left e.registered_events m) (Left e.registered_events m) _ _
          (clear_in-Left e.registered_events m ev.events.in_ (entry first_fd m))
          (clear_out-Left e.registered_events m ev.events.out_ (entry first_fd m)))
        (λ a l.
          let readable = ev.events.in_ || ev.events.err || ev.events.hup in
          let writable = ev.events.out_ || ev.events.err || ev.events.hup in
          OnSome-bind Tracks Tracks (wake_writer ev.fd writable)
            (wake_reader ev.fd readable (store_left ev.fd e a))
            (wake_reader-Tracks ev.fd readable (store_left ev.fd e a)
              (Left-Tracks ev.fd e m a ne at h l))
            (wake_writer-Tracks ev.fd writable)))
]

-- Whatever ::epoll_wait reports to a manager that tracks what the kernel watches, the loop over
-- the events, where it does not fail, keeps this so and makes no call that ::epoll_ctl refuses.
pub handle_events-Tracks :
    (first_fd : ℕ) (reported : List EpollEvent) (m : IoManager)
    → Tracks m
    → OnSome Tracks (handle_events first_fd reported m)
unfolding handle_events
handle_events-Tracks first_fd [] m h = h
handle_events-Tracks first_fd (ev ∷ rest) m h =
    OnSome-bind Tracks Tracks _ _
      (elim (Bool-cases (ev.fd == m.wakeup_fd)) [
        | inl pipe ↦ rw pipe h
        | inr other ↦ rw other (
            handle_event-Tracks first_fd ev m
              (λ q. ground (arith, other, (==_iff ev.fd m.wakeup_fd).1 q)) h)
      ])
      (handle_events-Tracks first_fd rest)
