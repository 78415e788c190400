-- ===== src/IoManager/FirstEvent.antt =====
-- `blockPending` of src/io/io_manager.cpp reads `epoll_events->data.fd`, the descriptor of the
-- first reported event, where it means that of the event at hand.
use net_base.Base.{
  get_elem?-set_self, ℕ, ◌≡◌, refl, sym, ◌∙◌, ap, true, false, [], ◌∷◌, ◌++◌, none, some, arith,
  if◌then◌else◌, ◌>>=◌,
}
use net_base.IoManager.{
  FdEvents, IoManager, read, entry, put, reuse, clear_in, clear_out, store_left, wake_reader,
  wake_writer, handle_event, has_event,
}
use net_base.IoManager.Epoll.{Events, same_events}
use net_base.IoManager.Entries.{entry_lt_length}
use net_base.IoManager.Register.{has_event-entry}
use net_base.IoManager.OneShot.{
  readable, clear_out-false, wake_reader-once, wake_writer-false, enqueue-running,
}

clear_in-again :
    (left : Events) (e : FdEvents) (p : ℕ) (m : IoManager)
    → e.read_call_once ≡ false
    → e.read_executor ≡ some p
    → clear_in true left (some e) m ≡ some (left, record m { reused = p ∷ m.reused })
unfolding clear_in reuse
clear_in-again left e p m h q =
    ap
      (λ b.
        if b
        then some (record left { in_ = false }, m)
        else (reuse e.read_executor m >>= λ n. some (left, n)))
      h
    ∙ ap (λ o. reuse o m >>= λ n. some (left, n)) q

same_events_refl : (a : Events) → same_events a a ≡ true
same_events_refl a = ground arith

store_left-same :
    (fd : ℕ) (e : FdEvents) (m : IoManager) → store_left fd e (e.registered_events, m) ≡ m
unfolding store_left
store_left-same fd e m = rw (same_events_refl e.registered_events) refl

-- What is left behind the event: the executor is queued and no longer kept.
served : ℕ → FdEvents → ℕ → IoManager → IoManager
unfolding put
served fd e p m = record (put fd (record e { read_executor = none }) m) {
  reused = p ∷ m.reused;
  scheduler = record m.scheduler {
    ready_executors = m.scheduler.ready_executors ++ e.read_executor ∷ [];
  };
}

handle_event-served :
    (first_fd fd p : ℕ) (first e : FdEvents) (m : IoManager)
    → m.scheduler.stopping ≡ false
    → entry first_fd m ≡ some first
    → first.read_call_once ≡ false
    → first.read_executor ≡ some p
    → entry fd m ≡ some e
    → e.read_call_once ≡ true
    → handle_event first_fd (readable fd) m ≡ some (served fd e p m)
unfolding handle_event served entry put
handle_event-served first_fd fd p first e m run at_first again ex at once =
    let n = record m { reused = p ∷ m.reused } in
    ap
      (λ o. o >>= λ e.
        clear_in true e.registered_events (entry first_fd m) m
        >>= clear_out false (entry first_fd m)
        >>= λ a. wake_reader fd true (store_left fd e a) >>= wake_writer fd false)
      at
    ∙ ap
        (λ o. clear_in true e.registered_events o m >>= clear_out false o >>= λ a.
          wake_reader fd true (store_left fd e a) >>= wake_writer fd false)
        at_first
    ∙ ap
        (λ o. o >>= clear_out false (some first) >>= λ a.
          wake_reader fd true (store_left fd e a) >>= wake_writer fd false)
        (clear_in-again e.registered_events first p m again ex)
    ∙ ap (λ o. o >>= λ a. wake_reader fd true (store_left fd e a) >>= wake_writer fd false)
        (clear_out-false (some first) e.registered_events n)
    ∙ wake_writer-false fd (wake_reader fd true (store_left fd e (e.registered_events, n)))
    ∙ ap (wake_reader fd true) (store_left-same fd e n)
    ∙ wake_reader-once fd e n at once
    ∙ enqueue-running e.read_executor (put fd (record e { read_executor = none }) n) run

entry-served :
    (fd p : ℕ) (e : FdEvents) (m : IoManager)
    → entry fd m ≡ some e
    → entry fd (served fd e p m) ≡ some (record e { read_executor = none })
unfolding served entry put
entry-served fd p e m at = get_elem?-set_self m.fd_events fd _ (entry_lt_length fd e m at)

-- With a scheduler that takes executors: if the first reported event is for a descriptor whose
-- reader is called every time, a later reading event of a descriptor whose reader is called once
-- leaves that event as registered as it was, with no executor, and marks the executor of the
-- first descriptor for reuse.
pub handle_event-first_event :
    (first_fd fd p : ℕ) (first e : FdEvents) (m : IoManager)
    → m.scheduler.stopping ≡ false
    → entry first_fd m ≡ some first
    → first.read_call_once ≡ false
    → first.read_executor ≡ some p
    → entry fd m ≡ some e
    → e.read_call_once ≡ true
    → (after : IoManager) × (handle_event first_fd (readable fd) m ≡ some after)
      × (has_event fd read after ≡ has_event fd read m)
      × ((entry fd after >>= λ a. a.read_executor) ≡ none)
      × (after.reused ≡ p ∷ m.reused)
unfolding served
handle_event-first_event first_fd fd p first e m run at_first again ex at once =
    let here = entry-served fd p e m at in
    (
      served fd e p m,
      handle_event-served first_fd fd p first e m run at_first again ex at once,
      has_event-entry fd read _ (served fd e p m) here ∙ sym (has_event-entry fd read e m at),
      ap (λ o. o >>= λ a. a.read_executor) here,
      refl,
    )
