-- ===== src/IoManager/Tracking.antt =====
-- The correspondence between `registered_events` of src/io/io_manager.cpp and what the kernel
-- watches behind the calls of ::epoll_ctl.
use net_base.Base.{
  ℕ, zero, suc, ◌≡◌, ◌≢◌, ◌<◌, inl, inr, sym, refl, ◌∙◌, Bool, true, false, not, List, [], ◌∷◌,
  ◌++◌, some, length, get_elem?, ltb, ap, ℕ_discrete, arith, replicate, Bool-cases, ==_refl,
}
use net_base.IoManager.{
  FdEvents, IoManager, entry, new_io_manager, put, call, resize_for, empty_events,
}
use net_base.IoManager.Epoll.{
  no_events, is_empty, EpollCall, adds, mods, dels, interest, is_watched, is_accepted,
}
use net_base.IoManager.Entries.{
  registered, resize_for-calls, resize_for-wakeup_fd, entry-put_self, entry-put_ne,
}

-- No call is refused, and the kernel watches exactly the descriptors that have registered events.
-- The wake-up pipe is watched without an entry.
abbrev pub Tracks : IoManager → Type 0
Tracks m =
    (is_accepted m.calls ≡ true)
    × ((fd : ℕ)
        → fd ≢ m.wakeup_fd
        → is_watched (interest m.calls fd) ≡ not (is_empty (registered (entry fd m))))

-- A new manager watches the pipe only, and has no registered event.
pub new_io_manager-Tracks : (wakeup_fd : ℕ) → Tracks (new_io_manager wakeup_fd)
unfolding new_io_manager entry
new_io_manager-Tracks wakeup_fd = (refl, λ fd ne. ground (arith, ne))

registered-replicate : (n i : ℕ) → registered (get_elem? (replicate n empty_events) i) ≡ no_events
registered-replicate zero i = refl
registered-replicate (suc n) zero = refl
registered-replicate (suc n) (suc i) = registered-replicate n i

registered-append :
    (xs : List FdEvents) (n i : ℕ)
    → registered (get_elem? (xs ++ replicate n empty_events) i) ≡ registered (get_elem? xs i)
registered-append [] n i = registered-replicate n i
registered-append (x ∷ xs) n zero = refl
registered-append (x ∷ xs) n (suc i) = registered-append xs n i

pub registered-resize_for :
    (fd i : ℕ) (m : IoManager) → registered (entry i (resize_for fd m)) ≡ registered (entry i m)
unfolding entry resize_for
registered-resize_for fd i m = elim (Bool-cases (ltb fd (length m.fd_events))) [
  | inl lt ↦ rw lt refl
  | inr ge ↦ rw ge (registered-append m.fd_events _ i)
]

pub resize_for-Tracks : (fd : ℕ) (m : IoManager) → Tracks m → Tracks (resize_for fd m)
unfolding entry
resize_for-Tracks fd m (a, w) = (
  rw (resize_for-calls fd m) a,
  λ i n.
      rw (resize_for-calls fd m, registered-resize_for fd i m)
        (w i (λ q. n (q ∙ sym (resize_for-wakeup_fd fd m)))),
)

-- What a call tells the kernel of the descriptor `fd`.
abbrev About : ℕ → EpollCall → Type 0
About fd (adds g events) = g ≡ fd
About fd (mods g events) = g ≡ fd
About fd (dels g) = g ≡ fd

abbrev watches : EpollCall → Bool
watches (adds g events) = true
watches (mods g events) = true
watches (dels g) = false

abbrev wants : EpollCall → Bool
wants (adds g events) = false
wants (mods g events) = true
wants (dels g) = true

interest_self :
    (fd : ℕ) (c : EpollCall) (calls : List EpollCall)
    → About fd c
    → is_watched (interest (c ∷ calls) fd) ≡ watches c
interest_self fd (adds g events) calls e = ground (arith, ==_refl g)
interest_self fd (mods g events) calls e = ground (arith, ==_refl g)
interest_self fd (dels g) calls e = ground (arith, ==_refl g)

interest_other :
    (fd i : ℕ) (c : EpollCall) (calls : List EpollCall)
    → About fd c
    → i ≢ fd
    → interest (c ∷ calls) i ≡ interest calls i
interest_other fd i (adds g events) calls e n = ground arith
interest_other fd i (mods g events) calls e n = ground arith
interest_other fd i (dels g) calls e n = ground arith

is_accepted_call :
    (fd : ℕ) (c : EpollCall) (calls : List EpollCall)
    → About fd c
    → is_watched (interest calls fd) ≡ wants c
    → is_accepted calls ≡ true
    → is_accepted (c ∷ calls) ≡ true
is_accepted_call fd (adds g events) calls e w a = ground arith
is_accepted_call fd (mods g events) calls e w a = ground arith
is_accepted_call fd (dels g) calls e w a = ground arith

-- A call and the store that belongs to it keep the correspondence.
pub put-call-Tracks :
    (fd : ℕ) (c : EpollCall) (e e' : FdEvents) (m : IoManager)
    → About fd c
    → fd ≢ m.wakeup_fd
    → fd < length m.fd_events
    → entry fd m ≡ some e
    → not (is_empty e.registered_events) ≡ wants c
    → not (is_empty e'.registered_events) ≡ watches c
    → Tracks m
    → Tracks (put fd e' (call c m))
unfolding put call entry
put-call-Tracks fd c e e' m about ne room at before after (a, w) = (
  is_accepted_call fd c m.calls about
      (w fd ne ∙ ap (λ o. not (is_empty (registered o))) at ∙ before) a,
  λ i n. elim (ℕ_discrete i fd) [
    | yes q ↦ rw q (
        interest_self fd c m.calls about
        ∙ sym after
        ∙ ap (λ o. not (is_empty (registered o))) (sym (entry-put_self fd e' (call c m) room)))
    | no q ↦
        ap is_watched (interest_other fd i c m.calls about q)
        ∙ w i n
        ∙ ap (λ o. not (is_empty (registered o))) (sym (entry-put_ne fd i e' (call c m) q))
  ],
)
