-- ===== src/IoManager/Entries.antt =====
-- Reading, storing and resizing `fd_events_` of src/io/io_manager.cpp.
use net_base.Base.{
  ℕ, ◌*◌, ◌/◌, ◌≤◌, ◌<◌, ◌≡◌, ◌≢◌, ◌⊎◌, inl, inr, sym, Option, none, some, length, ltb, arith,
  length-grow, get_elem?-some, get_elem?-none, get_elem?-set_self, get_elem?-set_ne, Bool-cases,
  ltb→lt, not-ltb→le,
}
use net_base.IoManager.{FdEvents, IoManager, entry, put, resize_for, empty_events}
use net_base.IoManager.Epoll.{Events, no_events}

-- What registered_events holds for a descriptor; nothing outside the vector.
abbrev pub registered : Option FdEvents → Events
registered none = no_events
registered (some e) = e.registered_events

abbrev pub HasPlace : ℕ → IoManager → Type 0
HasPlace fd m = (fd < length m.fd_events) ⊎ (2 ≤ fd)

pub entry-put_self :
    (fd : ℕ) (e : FdEvents) (m : IoManager)
    → fd < length m.fd_events
    → entry fd (put fd e m) ≡ some e
unfolding entry put
entry-put_self fd e m h = get_elem?-set_self m.fd_events fd e h

pub entry-put_ne :
    (fd i : ℕ) (e : FdEvents) (m : IoManager) → i ≢ fd → entry i (put fd e m) ≡ entry i m
unfolding entry put
entry-put_ne fd i e m h = get_elem?-set_ne m.fd_events e (λ q. h (sym q))

pub entry_lt_length :
    (fd : ℕ) (e : FdEvents) (m : IoManager) → entry fd m ≡ some e → fd < length m.fd_events
unfolding entry
entry_lt_length fd e m h = elim (Bool-cases (ltb fd (length m.fd_events))) [
  | inl lt ↦ ltb→lt _ _ lt
  | inr ge ↦ ground (arith, get_elem?-none m.fd_events fd (not-ltb→le _ _ ge))
]

pub entry-lt :
    (fd : ℕ) (m : IoManager) → fd < length m.fd_events → (e : FdEvents) × (entry fd m ≡ some e)
unfolding entry
entry-lt fd m h = get_elem?-some m.fd_events fd h

pub resize_for-enough :
    (fd : ℕ) (m : IoManager) → HasPlace fd m → fd < length (resize_for fd m).fd_events
unfolding resize_for
resize_for-enough fd m h = elim (Bool-cases (ltb fd (length m.fd_events))) [
  | inl lt ↦ rw lt (ltb→lt _ _ lt)
  | inr ge ↦
      let ge' = not-ltb→le fd (length m.fd_events) ge in
      rw ge (omega (arith, h, ge', length-grow (fd * 3 / 2) empty_events m.fd_events))
]

pub resize_for-calls : (fd : ℕ) (m : IoManager) → (resize_for fd m).calls ≡ m.calls
unfolding resize_for
resize_for-calls fd m = ground arith

pub resize_for-stopped : (fd : ℕ) (m : IoManager) → (resize_for fd m).stopped ≡ m.stopped
unfolding resize_for
resize_for-stopped fd m = ground arith

pub resize_for-wakeup_fd : (fd : ℕ) (m : IoManager) → (resize_for fd m).wakeup_fd ≡ m.wakeup_fd
unfolding resize_for
resize_for-wakeup_fd fd m = ground arith
