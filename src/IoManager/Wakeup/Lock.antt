-- ===== src/IoManager/Wakeup/Lock.antt =====
-- The spin lock of `wakeup` in src/io/io_manager.cpp, and that the threads that add tasks do not
-- block each other.
use net_base.Base.{
  Bool, if◌then◌else◌, dec_lt, lt→ltb, ◌+◌, update-other, ltb, update-same, sym, Bool-cases,
  ℕ_discrete, ◌∙◌, subst, Bool, refl, [], false, ◌≡◌, ◌≢◌, ◌⊎◌, inl, inr, ◌<◌, arith, ℕ, true,
  update,
}
use net_base.Scheduler
use net_base.Scheduler.{new_scheduler, add_executor}
use net_base.IoManager.Wakeup.{
  Shared, Caller, elsewhere, inserting, locking, writing, unlocking, Loop, scheduling, choosing,
  waiting, handling, returned, caller_step, loop_step, take_front, no_task, System, at_start,
  with_scheduler, Step, call, caller, loop, adds, stops, Reachable, begins, after,
}
use net_base.IoManager.Wakeup.Pending.{IsPending, waiting-IsPending}

-- Between the acquisition of the lock and its release.
abbrev pub HasLock : Caller → Type 0
HasLock writing = Unit
HasLock unlocking = Unit
HasLock _ = ⊥

-- A thread has the lock exactly if it is taken, and only one has it.
record IsLocked (m : Shared) (callers : ℕ → Caller) : Type 0 where
  pub taken : (i : ℕ) → HasLock (callers i) → m.wake_lock ≡ true
  pub single : (i j : ℕ) → HasLock (callers i) → HasLock (callers j) → i ≡ j
  pub owned : m.wake_lock ≡ true → (i : ℕ) × HasLock (callers i)

-- Who has the lock behind a step of thread `i` to `at`.
HasLock-update :
    (callers : ℕ → Caller) (i j : ℕ) (at : Caller)
    → HasLock (update callers i at j)
    → ((j ≡ i) × HasLock at) ⊎ ((j ≢ i) × HasLock (callers j))
HasLock-update callers i j at h = elim (ℕ_discrete j i) [
  | yes same ↦ inl (
    same,
    subst HasLock (update-same callers i at) (subst (λ x. HasLock (update callers i at x)) same h),
  )
  | no other ↦ inr (other, subst HasLock (update-other callers i at j other) h)
]

HasLock-here :
    (callers : ℕ → Caller) (i : ℕ) (at : Caller) → HasLock at → HasLock (update callers i at i)
HasLock-here callers i at h = subst HasLock (sym (update-same callers i at)) h

HasLock-there :
    (callers : ℕ → Caller) (i : ℕ) (at : Caller) (j : ℕ)
    → j ≢ i
    → HasLock (callers j)
    → HasLock (update callers i at j)
HasLock-there callers i at j ne h = subst HasLock (sym (update-other callers i at j ne)) h

-- A step that neither takes nor releases the lock.
same_lock :
    (m n : Shared) (callers : ℕ → Caller) (i : ℕ) (at : Caller)
    → n.wake_lock ≡ m.wake_lock
    → (HasLock at → HasLock (callers i))
    → (HasLock (callers i) → HasLock at)
    → IsLocked m callers
    → IsLocked n (update callers i at)
same_lock m n callers i at same before behind h = record {
  taken = λ j l. same ∙ h.taken j (back j l);
  single = λ j k l r. h.single j k (back j l) (back k r);
  owned = λ e. let (j, l) = h.owned (sym same ∙ e) in (j, forth j l);
}
  where
    back : (j : ℕ) → HasLock (update callers i at j) → HasLock (callers j)
    back j l = elim (HasLock-update callers i j at l) [
      | inl (e, held) ↦ subst (λ x. HasLock (callers x)) (sym e) (before held)
      | inr (ne, held) ↦ held
    ]

    forth : (j : ℕ) → HasLock (callers j) → HasLock (update callers i at j)
    forth j l = elim (ℕ_discrete j i) [
      | yes same' ↦
          subst (λ x. HasLock (update callers i at x)) (sym same')
            (HasLock-here callers i at (behind (subst (λ x. HasLock (callers x)) same' l)))
      | no other ↦ HasLock-there callers i at j other l
    ]

free_lock :
    (m : Shared) (callers : ℕ → Caller)
    → IsLocked m callers
    → m.wake_lock ≡ false
    → (j : ℕ) → HasLock (callers j)
    → ⊥
free_lock m callers h free j l = absurd (ground (arith, h.taken j l))

takes_lock :
    (m : Shared) (callers : ℕ → Caller) (i : ℕ)
    → m.wake_lock ≡ false
    → IsLocked m callers
    → IsLocked (record m { wake_lock = true }) (update callers i writing)
takes_lock m callers i free h = record {
  taken = λ j l. refl;
  single = λ j k l r. only j l ∙ sym (only k r);
  owned = λ e. (i, HasLock-here callers i writing tt);
}
  where
    only : (j : ℕ) → HasLock (update callers i writing j) → j ≡ i
    only j l = elim (HasLock-update callers i j writing l) [
      | inl (e, held) ↦ e
      | inr (ne, held) ↦ absurd (free_lock m callers h free j held)
    ]

releases_lock :
    (m : Shared) (callers : ℕ → Caller) (i : ℕ)
    → HasLock (callers i)
    → IsLocked m callers
    → IsLocked (record m { wake_lock = false }) (update callers i elsewhere)
releases_lock m callers i mine h = record {
  taken = λ j l. absurd (nobody j l);
  single = λ j k l r. absurd (nobody j l);
  owned = λ e. absurd (ground arith);
}
  where
    nobody : (j : ℕ) → HasLock (update callers i elsewhere j) → ⊥
    nobody j l = elim (HasLock-update callers i j elsewhere l) [
      | inl (e, held) ↦ held
      | inr (ne, held) ↦ ne (h.single j i held mine)
    ]

-- `test_and_set`, with what it returns.
abbrev after_test : Bool → Shared → Caller × Shared
after_test b m = if b then (locking, m) else (writing, record m { wake_lock = true })

test_and_set-IsLocked :
    (m : Shared) (callers : ℕ → Caller) (i : ℕ) (b : Bool)
    → m.wake_lock ≡ b
    → callers i ≡ locking
    → IsLocked m callers
    → IsLocked (after_test b m).1 (update callers i (after_test b m).0)
test_and_set-IsLocked m callers i true taken e h =
    same_lock m m callers i locking refl (λ l. elim l [ ]) (subst HasLock e) h
test_and_set-IsLocked m callers i false free e h = takes_lock m callers i free h

caller_step-IsLocked :
    (capacity i : ℕ) (m : Shared) (callers : ℕ → Caller) (at : Caller)
    → callers i ≡ at
    → IsLocked m callers
    → IsLocked (caller_step capacity at m).1 (update callers i (caller_step capacity at m).0)
unfolding caller_step
caller_step-IsLocked capacity i m callers elsewhere e h =
    same_lock m m callers i elsewhere refl (λ l. elim l [ ]) (subst HasLock e) h
caller_step-IsLocked capacity i m callers (inserting v) e h =
    same_lock m _ callers i locking refl (λ l. elim l [ ]) (subst HasLock e) h
caller_step-IsLocked capacity i m callers locking e h =
    test_and_set-IsLocked m callers i m.wake_lock refl e h
caller_step-IsLocked capacity i m callers writing e h = elim (Bool-cases (ltb m.pipe capacity)) [
  | inl room ↦
      rw (room, caller_step)
        (same_lock m (record m { pipe = m.pipe + 1 }) callers i unlocking refl
          (λ l. subst HasLock (sym e) tt) (λ l. tt) h)
  | inr full ↦
      rw (full, caller_step)
        (same_lock m m callers i writing refl (λ l. subst HasLock (sym e) tt) (λ l. tt) h)
]
caller_step-IsLocked capacity i m callers unlocking e h =
    releases_lock m callers i (subst HasLock (sym e) tt) h

-- The loop leaves the lock alone.
other_lock :
    (m n : Shared) (callers : ℕ → Caller)
    → n.wake_lock ≡ m.wake_lock
    → IsLocked m callers
    → IsLocked n callers
other_lock m n callers same h = record {
  taken = λ j l. same ∙ h.taken j l;
  single = h.single;
  owned = λ e. h.owned (sym same ∙ e);
}

loop_step-wake_lock :
    (woken : Bool) (at : Loop) (m : Shared) → (loop_step woken at m).1.wake_lock ≡ m.wake_lock
unfolding loop_step take_front no_task
loop_step-wake_lock woken scheduling m = refl
loop_step-wake_lock woken choosing m = ground arith
loop_step-wake_lock woken waiting m = refl
loop_step-wake_lock woken (handling false) m = refl
loop_step-wake_lock woken (handling true) m = ground arith
loop_step-wake_lock woken returned m = refl

Step-IsLocked :
    (capacity : ℕ) (s t : System)
    → Step capacity s t
    → IsLocked s.shared s.callers
    → IsLocked t.shared t.callers
Step-IsLocked capacity s _ (call i v e) h =
    same_lock s.shared s.shared s.callers i (inserting v) refl (λ l. elim l [ ]) (subst HasLock e) h
Step-IsLocked capacity s _ (caller i) h =
    caller_step-IsLocked capacity i s.shared s.callers (s.callers i) refl h
Step-IsLocked capacity s _ (loop woken) h =
    other_lock s.shared (loop_step woken s.loop s.shared).1 s.callers
      (loop_step-wake_lock woken s.loop s.shared) h
Step-IsLocked capacity s _ (adds v) h =
    other_lock s.shared (with_scheduler (add_executor v s.shared.scheduler).1 s).shared s.callers
      refl h
Step-IsLocked capacity s _ stops h =
    other_lock s.shared (with_scheduler (Scheduler.stop s.shared.scheduler) s).shared s.callers refl
      h

Reachable-IsLocked :
    (capacity : ℕ) (s : System) → Reachable capacity s → IsLocked s.shared s.callers
unfolding at_start
Reachable-IsLocked capacity _ begins = record {
  taken = λ i l. elim l [ ];
  single = λ i j l r. elim l [ ];
  owned = λ e. absurd (ground arith);
}
Reachable-IsLocked capacity _ (after {s} {t} r step) =
    Step-IsLocked capacity s t step (Reachable-IsLocked capacity s r)

-- Only one thread at a time is between the acquisition of the lock and its release.
pub HasLock-single :
    (capacity : ℕ) (s : System)
    → Reachable capacity s
    → (i j : ℕ) → HasLock (s.callers i)
    → HasLock (s.callers j)
    → i ≡ j
HasLock-single capacity s r = (Reachable-IsLocked capacity s r).single

-- Thread `i` goes on by its next step.
abbrev pub GoesOn : ℕ → ℕ → System → Type 0
GoesOn capacity i s = (caller_step capacity (s.callers i) s.shared).0 ≢ s.callers i

HasLock-GoesOn :
    (capacity : ℕ) (m : Shared) (at : Caller)
    → m.pipe < capacity
    → HasLock at
    → (caller_step capacity at m).0 ≢ at
unfolding caller_step
HasLock-GoesOn capacity m elsewhere room l e = l
HasLock-GoesOn capacity m (inserting v) room l e = l
HasLock-GoesOn capacity m locking room l e = l
HasLock-GoesOn capacity m writing room l e = ground arith
HasLock-GoesOn capacity m unlocking room l e = cc

free-GoesOn :
    (capacity : ℕ) (m : Shared) (at : Caller)
    → m.wake_lock ≡ false
    → IsPending at
    → m.pipe < capacity
    → (caller_step capacity at m).0 ≢ at
unfolding caller_step
free-GoesOn capacity m elsewhere free p room e = p
free-GoesOn capacity m (inserting v) free p room e = p
free-GoesOn capacity m unlocking free p room e = p
free-GoesOn capacity m locking free p room e = ground arith
free-GoesOn capacity m writing free p room e = ground arith

-- While the pipe has room, some thread in addRemoteTask goes on if one is on its way to write.
pub IsPending-GoesOn :
    (capacity : ℕ) (s : System)
    → Reachable capacity s
    → s.shared.pipe < capacity
    → (i : ℕ) → IsPending (s.callers i)
    → (j : ℕ) × GoesOn capacity j s
IsPending-GoesOn capacity s r room i p = elim (Bool-cases s.shared.wake_lock) [
  | inl taken ↦
      let (j, l) = (Reachable-IsLocked capacity s r).owned taken in
      (j, HasLock-GoesOn capacity s.shared (s.callers j) room l)
  | inr free ↦ (i, free-GoesOn capacity s.shared (s.callers i) free p room)
]

-- If the pipe has room for a byte, then whenever the IOManager's thread is before or in
-- ::epoll_wait and the list of remote tasks is not empty, either ::epoll_wait can report the
-- pipe or some thread in addRemoteTask goes on by its next step.
pub waiting-GoesOn :
    (capacity : ℕ) (s : System)
    → 0 < capacity
    → Reachable capacity s
    → s.loop ≡ waiting
    → s.shared.scheduler.remote_tasks ≢ []
    → ((loop_step true s.loop s.shared).0 ≡ handling true) ⊎ ((i : ℕ) × GoesOn capacity i s)
unfolding loop_step
waiting-GoesOn capacity s large r w some_task = elim (waiting-IsPending capacity s r w some_task) [
  | inl byte ↦ inl (rw (w, loop_step, lt→ltb 0 s.shared.pipe byte) refl)
  | inr (i, p) ↦ elim (dec_lt s.shared.pipe capacity) [
    | yes room ↦ inr (IsPending-GoesOn capacity s r room i p)
    | no full ↦ inl (rw (w, loop_step, lt→ltb 0 s.shared.pipe (omega arith)) refl)
  ]
]
