-- ===== src/IoManager/Wakeup/Pending.antt =====
-- No wake-up of src/io/io_manager.cpp is lost: a task that was added before ::epoll_wait ends it.
use net_base.Base.{
  ◌-◌, if_both, refl, some, none, [], ◌∷◌, false, List, Option, some, false, ◌∷◌, update-same,
  update-other, ltb, Bool-cases, sym, Option, subst, List, Bool, ℕ_discrete, ◌≡◌, ◌≢◌, ◌⊎◌, inl,
  inr, ◌<◌, arith, ℕ, [], true, update,
}
use net_base.Scheduler.Loop.{schedule_all-remote_tasks}
use net_base.Scheduler.Stop.{stop-remote_tasks}
use net_base.Scheduler.Remote.Walks.{add_executor-remote_tasks}
use net_base.IoManager.Wakeup.{
  add_remote_executor, Shared, Caller, elsewhere, inserting, locking, writing, unlocking, Loop,
  scheduling, choosing, waiting, handling, returned, caller_step, loop_step, take_front, no_task,
  System, at_start, Step, call, caller, loop, adds, stops, Reachable, begins, after,
}

-- Behind addRemoteExecutor, and before ::write has put a byte into the pipe.
abbrev pub IsPending : Caller → Type 0
IsPending locking = Unit
IsPending writing = Unit
IsPending _ = ⊥

-- Behind scheduleAll, and not behind ::epoll_wait.
abbrev IsCommitted : Loop → Type 0
IsCommitted choosing = Unit
IsCommitted waiting = Unit
IsCommitted _ = ⊥

abbrev WillWake : Shared → (ℕ → Caller) → Type 0
WillWake m callers = (0 < m.pipe) ⊎ ((i : ℕ) × IsPending (callers i))

abbrev IsSafe : Shared → (ℕ → Caller) → Type 0
IsSafe m callers = (m.scheduler.remote_tasks ≡ []) ⊎ WillWake m callers

-- Thread `i`, which was not about to write, goes to `at`.
others_pending :
    (m : Shared) (callers : ℕ → Caller) (i : ℕ) (at : Caller)
    → (IsPending (callers i) → ⊥)
    → IsSafe m callers
    → IsSafe m (update callers i at)
others_pending m callers i at idle (inl e) = inl e
others_pending m callers i at idle (inr (inl p)) = inr (inl p)
others_pending m callers i at idle (inr (inr (j, h))) = elim (ℕ_discrete j i) [
  | yes same ↦ absurd (idle (subst (λ x. IsPending (callers x)) same h))
  | no other ↦ inr (inr (j, subst IsPending (sym (update-other callers i at j other)) h))
]

now_pending :
    (m : Shared) (callers : ℕ → Caller) (i : ℕ) (at : Caller)
    → IsPending at
    → IsSafe m (update callers i at)
now_pending m callers i at h = inr (inr (i, subst IsPending (sym (update-same callers i at)) h))

caller_step-IsSafe :
    (capacity i : ℕ) (m : Shared) (callers : ℕ → Caller) (at : Caller)
    → callers i ≡ at
    → IsSafe m callers
    → IsSafe (caller_step capacity at m).1 (update callers i (caller_step capacity at m).0)
unfolding caller_step
caller_step-IsSafe capacity i m callers elsewhere e h =
    others_pending m callers i elsewhere (subst IsPending e) h
caller_step-IsSafe capacity i m callers (inserting v) e h =
    now_pending (record m { scheduler = (add_remote_executor v m.scheduler).1 }) callers i locking
      tt
caller_step-IsSafe capacity i m callers locking e h = elim (Bool-cases m.wake_lock) [
  | inl taken ↦ rw (taken, caller_step) (now_pending m callers i locking tt)
  | inr free ↦
      rw (free, caller_step) (now_pending (record m { wake_lock = true }) callers i writing tt)
]
caller_step-IsSafe capacity i m callers writing e h = elim (Bool-cases (ltb m.pipe capacity)) [
  | inl room ↦ rw (room, caller_step) (inr (inl (omega arith)))
  | inr full ↦ rw (full, caller_step) (now_pending m callers i writing tt)
]
caller_step-IsSafe capacity i m callers unlocking e h =
    others_pending (record m { wake_lock = false }) callers i elsewhere (subst IsPending e) h

-- Taking an executor leaves the list of remote tasks and the pipe as they are.
take_front-IsSafe :
    (tasks : List (Option ℕ)) (m : Shared) (callers : ℕ → Caller)
    → IsSafe m callers
    → IsSafe (take_front tasks m).1 callers
unfolding take_front no_task
take_front-IsSafe [] m callers h = h
take_front-IsSafe (none ∷ rest) m callers h = h
take_front-IsSafe (some e ∷ rest) m callers h = h

loop_step-IsSafe :
    (woken : Bool) (at : Loop) (m : Shared) (callers : ℕ → Caller)
    → (IsCommitted at → IsSafe m callers)
    → IsCommitted (loop_step woken at m).0
    → IsSafe (loop_step woken at m).1 callers
unfolding loop_step
loop_step-IsSafe woken scheduling m callers h c = inl (schedule_all-remote_tasks m.scheduler)
loop_step-IsSafe woken choosing m callers h c =
    take_front-IsSafe m.scheduler.ready_executors m callers (h tt)
loop_step-IsSafe woken waiting m callers h c = elim c [ ]
loop_step-IsSafe woken (handling false) m callers h c = elim c [ ]
loop_step-IsSafe woken (handling true) m callers h c = absurd (
    if_both (λ (r : Loop × Shared). IsCommitted r.0 → ⊥) (ltb 0 m.pipe)
      {x = (handling true, record m { pipe = m.pipe - 8 })} {y = (scheduling, m)} (λ x. x) (λ x. x)
      c)
loop_step-IsSafe woken returned m callers h c = elim c [ ]

Step-IsSafe :
    (capacity : ℕ) (s t : System)
    → Step capacity s t
    → (IsCommitted s.loop → IsSafe s.shared s.callers)
    → IsCommitted t.loop
    → IsSafe t.shared t.callers
Step-IsSafe capacity s _ (call i v e) h c =
    others_pending s.shared s.callers i (inserting v) (subst IsPending e) (h c)
Step-IsSafe capacity s _ (caller i) h c =
    caller_step-IsSafe capacity i s.shared s.callers (s.callers i) refl (h c)
Step-IsSafe capacity s _ (loop woken) h c = loop_step-IsSafe woken s.loop s.shared s.callers h c
Step-IsSafe capacity s _ (adds v) h c =
    subst (λ l. (l ≡ []) ⊎ WillWake s.shared s.callers)
      (sym (add_executor-remote_tasks v s.shared.scheduler)) (h c)
Step-IsSafe capacity s _ stops h c =
    subst (λ l. (l ≡ []) ⊎ WillWake s.shared s.callers) (sym (stop-remote_tasks s.shared.scheduler))
      (h c)

Reachable-IsSafe :
    (capacity : ℕ) (s : System)
    → Reachable capacity s
    → IsCommitted s.loop
    → IsSafe s.shared s.callers
unfolding at_start
Reachable-IsSafe capacity _ begins c = elim c [ ]
Reachable-IsSafe capacity _ (after {s} {t} r step) c =
    Step-IsSafe capacity s t step (Reachable-IsSafe capacity s r) c

-- Whatever the order of the steps of the threads in addRemoteTask and of the IOManager's thread:
-- if that thread is before or in ::epoll_wait and the list of remote tasks is not empty, the
-- pipe holds a byte or a thread is on its way to write one.
pub waiting-IsPending :
    (capacity : ℕ) (s : System)
    → Reachable capacity s
    → s.loop ≡ waiting
    → s.shared.scheduler.remote_tasks ≢ []
    → (0 < s.shared.pipe) ⊎ ((i : ℕ) × IsPending (s.callers i))
waiting-IsPending capacity s r w some_task =
    elim (Reachable-IsSafe capacity s r (subst IsCommitted (sym w) tt)) [
      | inl none_left ↦ absurd (some_task none_left)
      | inr will ↦ will
    ]
