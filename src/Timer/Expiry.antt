-- ===== src/Timer/Expiry.antt =====
-- `takeExpiredTimers` of include/base/timer.h takes the timers whose time has come, and no other.
use mathlib.Core.List.Perm
use mathlib.Core.Logic.{if_pos, if_neg}
use net_base.Base.{
  ℕ, suc, ◌+◌, ◌≤◌, ◌<◌, ◌≡◌, refl, ap, Bool, true, List, [], ◌∷◌, ◌++◌, Option, inl, inr, filter,
  Perm, arith, min, ltb, if◌then◌else◌, if_both, Bool-cases, ltb→lt, not-ltb→le, dec_le, dec_lt,
  perm_middle,
}
use net_base.Timer.{
  Timer, new_timer, insert, lower_bound, skip_equal, rearm, take_expired_timers, max_stamp,
  IsSorted,
}
use net_base.Timer.Sorted.{From, From-mono}

le_of : {a b : ℕ} → a < b → a ≤ b
le_of h = omega arith

not_lt_of : {a b : ℕ} → a < b → ¬ (b < a)
not_lt_of h = omega arith

module _ {C : Type 0} where
  -- The timers whose time has come, and the others.
  abbrev pub due : ℕ → List (Timer C) → List (Timer C)
  due now = filter (λ t. dec_le t.target_timestamp now)

  abbrev pub pending : ℕ → List (Timer C) → List (Timer C)
  pending now = filter (λ t. dec_lt now t.target_timestamp)

  -- The timers that start anew: one for each that repeats, with its own reading of the clock.
  abbrev pub restarted : (ℕ → ℕ) → ℕ → List (Timer C) → List (Timer C)
  restarted now i [] = []
  restarted now i (t ∷ expired) =
      if t.repeats
      then new_timer (now i) t.interval t.callback true ∷ restarted now (suc i) expired
      else restarted now i expired

  due_later :
      (now stamp : ℕ) (timers : List (Timer C))
      → now < stamp
      → From stamp timers
      → (due now timers ≡ []) × (pending now timers ≡ timers)
  due_later now stamp [] h f = (refl, refl)
  due_later now stamp (t ∷ timers) h f = ground (arith, due_later now stamp timers h f.1)

  skip_equal_lem :
      (now : ℕ) (timers : List (Timer C))
      → From now timers
      → IsSorted timers
      → skip_equal now timers ≡ (due now timers, pending now timers)
  unfolding skip_equal
  skip_equal_lem now [] f s = refl
  skip_equal_lem now (t ∷ timers) f s =
      ground (arith, skip_equal_lem now timers f.1 s.1, due_later now t.target_timestamp timers)

  split_due :
      (now : ℕ) (timers : List (Timer C))
      → IsSorted timers
      → let (before, from) = lower_bound now timers in
        let (equal, rest) = skip_equal now from in
        (before ++ equal ≡ due now timers) × (rest ≡ pending now timers)
  unfolding lower_bound
  split_due now [] s = unfold skip_equal in (refl, refl)
  split_due now (t ∷ timers) s = elim (Bool-cases (ltb t.target_timestamp now)) [
    | inl lt ↦
        let before : t.target_timestamp < now = ltb→lt _ _ lt in
        rw (lt, if_pos _ (le_of before), if_neg _ (not_lt_of before))
          (ap (◌∷◌ t) (split_due now timers s.1).0, (split_due now timers s.1).1)
    | inr ge ↦
        let e =
          skip_equal_lem now (t ∷ timers)
            (not-ltb→le _ _ ge, From-mono now t.target_timestamp timers (not-ltb→le _ _ ge) s.0)
            s in
        rw ge (ap (λ p. p.0) e, ap (λ p. p.1) e)
  ]

  pub insert-perm : (t : Timer C) (timers : List (Timer C)) → Perm (insert t timers) (t ∷ timers)
  unfolding insert
  insert-perm t [] = Perm.refl (t ∷ [])
  insert-perm t (u ∷ timers) =
      if_both (λ l. Perm l (t ∷ u ∷ timers)) (ltb t.target_timestamp u.target_timestamp)
        (Perm.refl (t ∷ u ∷ timers))
        (Perm.trans (Perm.cons u (insert-perm t timers)) (Perm.swap t u timers))

  rearm-perm :
      (now : ℕ → ℕ) (i : ℕ) (expired timers : List (Timer C))
      → Perm (rearm now i expired timers) (restarted now i expired ++ timers)
  unfolding rearm
  rearm-perm now i [] timers = Perm.refl timers
  rearm-perm now i (t ∷ expired) timers = elim (Bool-cases t.repeats) [
    | inl again ↦ rw again (
        Perm.trans
          (rearm-perm now (suc i) expired
            (insert (new_timer (now i) t.interval t.callback true) timers))
          (Perm.trans
            (Perm.append (Perm.refl (restarted now (suc i) expired))
              (insert-perm (new_timer (now i) t.interval t.callback true) timers))
            (perm_middle (restarted now (suc i) expired) timers)))
    | inr once ↦ rw once (rearm-perm now i expired timers)
  ]

  pub take_expired_timers-rearm :
      (now : ℕ → ℕ) (timers : List (Timer C))
      → IsSorted timers
      → (take_expired_timers now timers).1
        ≡ rearm now 1 (due (now 0) timers) (pending (now 0) timers)
  unfolding take_expired_timers
  take_expired_timers-rearm now timers s = let (e, r) = split_due (now 0) timers s in rw (e, r)

  -- From a sorted set, exactly the timers that are due at the first reading of the clock are
  -- taken, in order; what is left is, up to order, the others and one new timer for each taken
  -- one that repeats.
  pub take_expired_timers-due :
      (now : ℕ → ℕ) (timers : List (Timer C))
      → IsSorted timers
      → let (expired, left) = take_expired_timers now timers in
        (expired ≡ due (now 0) timers)
        × Perm left (restarted now 1 (due (now 0) timers) ++ pending (now 0) timers)
  unfolding take_expired_timers
  take_expired_timers-due now timers s =
      let (e, r) = split_due (now 0) timers s in
      (e, rw (e, r) (rearm-perm now 1 (due (now 0) timers) (pending (now 0) timers)))

  -- The constructor's sum is cut off at the largest stamp.
  pub new_timer-target :
      (cur_ms interval : ℕ) (callback : Option C) (repeats : Bool)
      → cur_ms ≤ max_stamp
      → (new_timer cur_ms interval callback repeats).target_timestamp
        ≡ min (cur_ms + interval) max_stamp
  unfolding new_timer
  new_timer-target cur_ms interval callback repeats h = ground arith

  -- What repeats has a positive interval.
  abbrev pub Moves : Timer C → Type 0
  Moves t = (t.repeats ≡ true) → 0 < t.interval
