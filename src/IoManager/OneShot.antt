-- ===== src/IoManager/OneShot.antt =====
-- One event that ::epoll_wait reports to `blockPending` of src/io/io_manager.cpp, for an executor
-- that is called once.
use net_base.Base.{
  ==-ne, ℕ, ◌≡◌, ◌≢◌, refl, sym, ◌∙◌, ap, true, false, [], ◌∷◌, ◌++◌, Option, none, some, arith,
  if◌then◌else◌, ◌>>=◌, length-set, get_elem?-set_self,
}
use net_base.IoManager.{
  stop, FdEvents, IoManager, read, write, flag, entry, put, call, reuse, clear_in, clear_out,
  store_left, enqueue, wake_reader, wake_writer, handle_event, handle_events, handle_all,
  EpollEvent, has_event, stop,
}
use net_base.Scheduler.{add_executor}
use net_base.Scheduler.Stop.{stop-stopping}
use net_base.IoManager.Epoll.{intersects, is_empty, Events, mods, dels, in_events}
use net_base.IoManager.Entries.{entry_lt_length, entry-put_self}
use net_base.IoManager.Register.{has_event-entry}

abbrev pub readable : ℕ → EpollEvent
readable fd = record { fd = fd; events = in_events }

-- The entry without its event and executor of reading.
abbrev read_once : FdEvents → FdEvents
read_once e = record e {
  registered_events = record e.registered_events { in_ = false };
  read_executor = none;
}

unregistered : ℕ → FdEvents → IoManager → IoManager
unfolding put call
unregistered fd e m =
    let left = record e.registered_events { in_ = false } in
    put fd (record e { registered_events = left })
      (call (if is_empty left then dels fd else mods fd left) m)

store_left-unregistered :
    (fd : ℕ) (e : FdEvents) (m : IoManager)
    → e.registered_events.in_ ≡ true
    → store_left fd e (record e.registered_events { in_ = false }, m) ≡ unregistered fd e m
unfolding store_left unregistered
store_left-unregistered fd e m h = rw h refl

entry-unregistered :
    (fd : ℕ) (e : FdEvents) (m : IoManager)
    → entry fd m ≡ some e
    → entry fd (unregistered fd e m)
      ≡ some (record e { registered_events = record e.registered_events { in_ = false } })
unfolding unregistered
entry-unregistered fd e m at = entry-put_self fd _ _ (entry_lt_length fd e m at)

pub enqueue-running :
    (p : Option ℕ) (m : IoManager)
    → m.scheduler.stopping ≡ false
    → enqueue p m
      ≡ some (record m {
        scheduler = record m.scheduler { ready_executors = m.scheduler.ready_executors ++ p ∷ [] };
      })
unfolding enqueue add_executor
enqueue-running p m h = rw h refl

clear_in-once :
    (left : Events) (e : FdEvents) (m : IoManager)
    → e.read_call_once ≡ true
    → clear_in true left (some e) m ≡ some (record left { in_ = false }, m)
unfolding clear_in
clear_in-once left e m h =
    ap
      (λ b.
        if b
        then some (record left { in_ = false }, m)
        else (reuse e.read_executor m >>= λ n. some (left, n)))
      h

pub clear_out-false :
    (first : Option FdEvents) (left : Events) (m : IoManager)
    → clear_out false first (left, m) ≡ some (left, m)
unfolding clear_out
clear_out-false first left m = refl

pub wake_reader-once :
    (fd : ℕ) (e : FdEvents) (m : IoManager)
    → entry fd m ≡ some e
    → e.read_call_once ≡ true
    → wake_reader fd true m ≡ enqueue e.read_executor (put fd (record e { read_executor = none }) m)
unfolding wake_reader
wake_reader-once fd e m at once =
    ap
      (λ o. o >>= λ e.
        enqueue e.read_executor
          (if e.read_call_once then put fd (record e { read_executor = none }) m else m))
      at
    ∙ ap
        (λ b.
          enqueue e.read_executor (if b then put fd (record e { read_executor = none }) m else m))
        once

pub wake_writer-false : (fd : ℕ) (o : Option IoManager) → (o >>= wake_writer fd false) ≡ o
unfolding wake_writer
wake_writer-false fd none = refl
wake_writer-false fd (some m) = refl

handle_event-reads :
    (fd : ℕ) (e : FdEvents) (m : IoManager)
    → entry fd m ≡ some e
    → e.read_call_once ≡ true
    → e.registered_events.in_ ≡ true
    → handle_event fd (readable fd) m
      ≡ enqueue e.read_executor (put fd (read_once e) (unregistered fd e m))
unfolding handle_event
handle_event-reads fd e m at once reg = rw at (
    ap
      (λ o. o >>= clear_out false (some e) >>= λ a.
        wake_reader fd true (store_left fd e a) >>= wake_writer fd false)
      (clear_in-once e.registered_events e m once)
    ∙ ap (λ o. o >>= λ a. wake_reader fd true (store_left fd e a) >>= wake_writer fd false)
        (clear_out-false (some e) (record e.registered_events { in_ = false }) m)
    ∙ wake_writer-false fd
        (wake_reader fd true (store_left fd e (record e.registered_events { in_ = false }, m)))
    ∙ ap (wake_reader fd true) (store_left-unregistered fd e m reg)
    ∙ wake_reader-once fd _ (unregistered fd e m) (entry-unregistered fd e m at) once)

handle_events-nil : (fd : ℕ) (o : Option IoManager) → (o >>= handle_events fd []) ≡ o
unfolding handle_events
handle_events-nil fd none = refl
handle_events-nil fd (some m) = refl

handle_all-reads :
    (fd : ℕ) (e : FdEvents) (m : IoManager)
    → fd ≢ m.wakeup_fd
    → entry fd m ≡ some e
    → e.read_call_once ≡ true
    → e.registered_events.in_ ≡ true
    → handle_all (readable fd ∷ []) m
      ≡ enqueue e.read_executor (put fd (read_once e) (unregistered fd e m))
unfolding handle_all handle_events
handle_all-reads fd e m ne at once reg =
    ap (λ b. (if b then some m else handle_event fd (readable fd) m) >>= handle_events fd [])
      (==-ne fd m.wakeup_fd ne)
    ∙ handle_events-nil fd (handle_event fd (readable fd) m)
    ∙ handle_event-reads fd e m at once reg

after_read : ℕ → FdEvents → IoManager → IoManager
after_read fd e m = record (put fd (read_once e) (unregistered fd e m)) {
  scheduler = record m.scheduler {
    ready_executors = m.scheduler.ready_executors ++ e.read_executor ∷ [];
  };
}

enqueue-after_read :
    (fd : ℕ) (e : FdEvents) (m : IoManager)
    → m.scheduler.stopping ≡ false
    → enqueue e.read_executor (put fd (read_once e) (unregistered fd e m))
      ≡ some (after_read fd e m)
unfolding after_read unregistered put call
enqueue-after_read fd e m h = enqueue-running e.read_executor _ h

entry-after_read :
    (fd : ℕ) (e : FdEvents) (m : IoManager)
    → entry fd m ≡ some e
    → entry fd (after_read fd e m) ≡ some (read_once e)
unfolding after_read unregistered put call entry
entry-after_read fd e m at = get_elem?-set_self _ fd (read_once e) (
    omega (
      arith,
      entry_lt_length fd e m at,
      length-set m.fd_events fd
          (record e { registered_events = record e.registered_events { in_ = false } }),
    ))

ready-after_read :
    (fd : ℕ) (e : FdEvents) (m : IoManager)
    → (after_read fd e m).scheduler.ready_executors
      ≡ m.scheduler.ready_executors ++ e.read_executor ∷ []
unfolding after_read
ready-after_read fd e m = refl

not_readable : (a : Events) → intersects (record a { in_ = false }) (flag read) ≡ false
not_readable a = ground arith

still_writable :
    (a : Events) → intersects (record a { in_ = false }) (flag write) ≡ intersects a (flag write)
still_writable a = ground arith

-- One reported reading event that is registered to be called once, of a descriptor other than
-- the wake-up pipe, with a scheduler that takes executors: its executor is queued last, exactly
-- once, the event is no longer registered, its executor is no longer kept, and an event of
-- writing stays registered if it was.
pub handle_all-reads_once :
    (fd : ℕ) (e : FdEvents) (m : IoManager)
    → fd ≢ m.wakeup_fd
    → m.scheduler.stopping ≡ false
    → entry fd m ≡ some e
    → e.read_call_once ≡ true
    → e.registered_events.in_ ≡ true
    → (after : IoManager) × (handle_all (readable fd ∷ []) m ≡ some after)
      × (after.scheduler.ready_executors ≡ m.scheduler.ready_executors ++ e.read_executor ∷ [])
      × (has_event fd read after ≡ false)
      × (has_event fd write after ≡ has_event fd write m)
      × ((entry fd after >>= λ a. a.read_executor) ≡ none)
handle_all-reads_once fd e m ne run at once reg =
    let here = entry-after_read fd e m at in
    (
      after_read fd e m,
      handle_all-reads fd e m ne at once reg ∙ enqueue-after_read fd e m run,
      ready-after_read fd e m,
      has_event-entry fd read (read_once e) (after_read fd e m) here
          ∙ not_readable e.registered_events,
      has_event-entry fd write (read_once e) (after_read fd e m) here
          ∙ still_writable e.registered_events
          ∙ sym (has_event-entry fd write e m at),
      ap (λ o. o >>= λ a. a.read_executor) here,
    )

entry-stop : (fd : ℕ) (m : IoManager) → entry fd (stop m) ≡ entry fd m
unfolding entry stop
entry-stop fd m = refl

stopping-stop :
    (m : IoManager)
    → m.scheduler.exit_with_tasks_processed ≡ true
    → (stop m).scheduler.stopping ≡ true
unfolding stop
stopping-stop m h = stop-stopping m.scheduler h

enqueue-stopping : (p : Option ℕ) (m : IoManager) → m.scheduler.stopping ≡ true → enqueue p m ≡ none
unfolding enqueue add_executor
enqueue-stopping p m h = rw h refl

-- For a scheduler that processes its tasks before it exits: behind stop, one reported reading
-- event that is registered to be called once, of a descriptor other than the wake-up pipe, fails
-- the assertion that its executor was queued.
pub handle_all-stopping :
    (fd : ℕ) (e : FdEvents) (m : IoManager)
    → fd ≢ (stop m).wakeup_fd
    → m.scheduler.exit_with_tasks_processed ≡ true
    → entry fd m ≡ some e
    → e.read_call_once ≡ true
    → e.registered_events.in_ ≡ true
    → handle_all (readable fd ∷ []) (stop m) ≡ none
unfolding put enqueue unregistered
handle_all-stopping fd e m ne exits at once reg =
    handle_all-reads fd e (stop m) ne (entry-stop fd m ∙ at) once reg
    ∙ enqueue-stopping e.read_executor _ (stopping-stop m exits)
