-- ===== src/Timer/Again.antt =====
-- `takeExpiredTimers` of include/base/timer.h ends: what it starts anew lies in the future.
use net_base.Base.{
  ℕ, suc, ◌≤◌, ◌<◌, ◌≡◌, refl, ◌∙◌, true, List, [], ◌∷◌, inl, inr, arith, All, Bool-cases,
}
use net_base.Timer.{Timer, new_timer, insert, rearm, take_expired_timers, max_stamp, IsSorted}
use net_base.Timer.Sorted.{From, From-insert, take_expired_timers-IsSorted}
use net_base.Timer.Expiry.{
  due, pending, new_timer-target, take_expired_timers-due, take_expired_timers-rearm,
}

-- A clock whose readings are not before `stamp` and fit the stamp type.
abbrev pub ClockFrom : ℕ → (ℕ → ℕ) → Type 0
ClockFrom stamp now = (j : ℕ) → (stamp ≤ now j) × (now j ≤ max_stamp)

module _ {C : Type 0} where
  -- What repeats has a positive interval.
  abbrev pub Moves : Timer C → Type 0
  Moves t = (t.repeats ≡ true) → 0 < t.interval

  Moves-due :
      (stamp : ℕ) (timers : List (Timer C)) → All Moves timers → All Moves (due stamp timers)
  Moves-due stamp [] m = tt
  Moves-due stamp (t ∷ timers) m = ground (arith, Moves-due stamp timers m.1)

  From-pending : (stamp : ℕ) (timers : List (Timer C)) → From (suc stamp) (pending stamp timers)
  From-pending stamp [] = tt
  From-pending stamp (t ∷ timers) = ground (arith, From-pending stamp timers)

  From-due : (stamp : ℕ) (timers : List (Timer C)) → From (suc stamp) timers → due stamp timers ≡ []
  From-due stamp [] f = refl
  From-due stamp (t ∷ timers) f = ground (arith, From-due stamp timers f.1)

  From-rearm :
      (stamp : ℕ) (now : ℕ → ℕ) (i : ℕ) (expired timers : List (Timer C))
      → ClockFrom stamp now
      → stamp < max_stamp
      → All Moves expired
      → From (suc stamp) timers
      → From (suc stamp) (rearm now i expired timers)
  unfolding rearm
  From-rearm stamp now i [] timers h l m f = f
  From-rearm stamp now i (t ∷ expired) timers h l m f = elim (Bool-cases t.repeats) [
    | inl again ↦ rw again (
        From-rearm stamp now (suc i) expired
          (insert (new_timer (now i) t.interval t.callback true) timers) h l m.1
          (From-insert (suc stamp) (new_timer (now i) t.interval t.callback true) timers
            (ground (arith, h i, m.0 again, new_timer-target (now i) t.interval t.callback true))
            f))
    | inr once ↦ rw once (From-rearm stamp now i expired timers h l m.1 f)
  ]

  -- From a sorted set whose repeating timers have a positive interval, with a clock that does
  -- not go back and is below the largest stamp: once the expired timers are taken, a second call
  -- whose first reading is the same finds none.
  pub take_expired_timers_twice :
      (now again : ℕ → ℕ) (timers : List (Timer C))
      → IsSorted timers
      → All Moves timers
      → ClockFrom (now 0) now
      → now 0 < max_stamp
      → again 0 ≡ now 0
      → (take_expired_timers again (take_expired_timers now timers).1).0 ≡ []
  take_expired_timers_twice now again timers s m h l e =
      (take_expired_timers-due again _ (take_expired_timers-IsSorted now timers s)).0
      ∙ rw (e, take_expired_timers-rearm now timers s)
          (From-due (now 0) (rearm now 1 (due (now 0) timers) (pending (now 0) timers)) (
            From-rearm (now 0) now 1 (due (now 0) timers) (pending (now 0) timers) h l
              (Moves-due (now 0) timers m) (From-pending (now 0) timers)))
