-- ===== src/Timer/Sorted.antt =====
-- Every operation of `TimerManager` in include/base/timer.h keeps the order of the set.
use net_base.Base.{
  ℕ, ◌≤◌, true, List, [], ◌∷◌, ◌++◌, Option, none, some, inl, inr, arith, ltb, ◌==◌, if◌then◌else◌,
  All, if_both, OnSome, OnSome-map, OnSome-imp, suc, Bool-cases, ltb→lt, not-ltb→le,
}
use net_base.Timer.{
  Timer, new_timer, insert, add_timer, lower_bound, skip_equal, rearm, take_expired_timers,
  erase_equivalent, take_first_if_expired, remove_timer, IsSorted,
}

module _ {C : Type 0} where
  abbrev pub From : ℕ → List (Timer C) → Type 0
  From stamp = All (λ u. stamp ≤ u.target_timestamp)

  From-zero : (timers : List (Timer C)) → From 0 timers
  From-zero [] = tt
  From-zero (t ∷ timers) = (omega arith, From-zero timers)

  pub From-mono : (a b : ℕ) (timers : List (Timer C)) → a ≤ b → From b timers → From a timers
  From-mono a b [] h f = tt
  From-mono a b (t ∷ timers) h f = (omega arith, From-mono a b timers h f.1)

  pub From-insert :
      (a : ℕ) (t : Timer C) (timers : List (Timer C))
      → a ≤ t.target_timestamp
      → From a timers
      → From a (insert t timers)
  unfolding insert
  From-insert a t [] h f = (h, tt)
  From-insert a t (u ∷ timers) h f = ground (arith, From-insert a t timers h f.1)

  pub insert-IsSorted :
      (t : Timer C) (timers : List (Timer C)) → IsSorted timers → IsSorted (insert t timers)
  unfolding insert
  insert-IsSorted t [] s = (tt, tt)
  insert-IsSorted t (u ∷ timers) s = elim (Bool-cases (ltb t.target_timestamp u.target_timestamp)) [
    | inl lt ↦ rw lt (
      (
        omega (arith, ltb→lt _ _ lt),
        From-mono t.target_timestamp u.target_timestamp timers (omega (arith, ltb→lt _ _ lt)) s.0,
      ),
      s,
    )
    | inr ge ↦ rw ge (
      From-insert u.target_timestamp t timers (not-ltb→le _ _ ge) s.0,
      insert-IsSorted t timers s.1,
    )
  ]

  pub rearm-IsSorted :
      (now : ℕ → ℕ) (i : ℕ) (expired timers : List (Timer C))
      → IsSorted timers
      → IsSorted (rearm now i expired timers)
  unfolding rearm
  rearm-IsSorted now i [] timers s = s
  rearm-IsSorted now i (t ∷ expired) timers s =
      rearm-IsSorted now (if t.repeats then suc i else i) expired _
        (if_both IsSorted t.repeats (insert-IsSorted _ timers s) s)

  lower_bound-IsSorted :
      (stamp : ℕ) (timers : List (Timer C))
      → IsSorted timers
      → IsSorted (lower_bound stamp timers).1
  unfolding lower_bound
  lower_bound-IsSorted stamp [] s = tt
  lower_bound-IsSorted stamp (t ∷ timers) s = ground (arith, lower_bound-IsSorted stamp timers s.1)

  skip_equal-IsSorted :
      (stamp : ℕ) (timers : List (Timer C)) → IsSorted timers → IsSorted (skip_equal stamp timers).1
  unfolding skip_equal
  skip_equal-IsSorted stamp [] s = tt
  skip_equal-IsSorted stamp (t ∷ timers) s = ground (arith, skip_equal-IsSorted stamp timers s.1)

  pub take_expired_timers-IsSorted :
      (now : ℕ → ℕ) (timers : List (Timer C))
      → IsSorted timers
      → IsSorted (take_expired_timers now timers).1
  unfolding take_expired_timers
  take_expired_timers-IsSorted now timers s =
      rearm-IsSorted now 1
        ((lower_bound (now 0) timers).0 ++ (skip_equal (now 0) (lower_bound (now 0) timers).1).0)
        (skip_equal (now 0) (lower_bound (now 0) timers).1).1
        (skip_equal-IsSorted (now 0) _ (lower_bound-IsSorted (now 0) timers s))

  pub take_first_if_expired-IsSorted :
      (cur_ms now : ℕ) (timers : List (Timer C))
      → IsSorted timers
      → IsSorted (take_first_if_expired cur_ms now timers).2
  unfolding take_first_if_expired
  take_first_if_expired-IsSorted cur_ms now [] s = tt
  take_first_if_expired-IsSorted cur_ms now (t ∷ timers) s =
      ground (arith, insert-IsSorted (new_timer now t.interval t.callback true) timers s.1)

  erase_equivalent-From :
      (a stamp : ℕ) (timers : List (Timer C))
      → From a timers
      → IsSorted timers
      → OnSome (λ rest. From a rest × IsSorted rest) (erase_equivalent stamp timers)
  unfolding erase_equivalent
  erase_equivalent-From a stamp [] f s = tt
  erase_equivalent-From a stamp (t ∷ timers) f s =
      if_both (OnSome (λ rest. From a rest × IsSorted rest)) (t.target_timestamp == stamp)
        (f.1, s.1)
        (OnSome-map (λ rest. From t.target_timestamp rest × IsSorted rest) _ (◌∷◌ t)
          (erase_equivalent stamp timers)
          (λ rest k. ((f.0, From-mono a t.target_timestamp rest f.0 k.0), k))
          (erase_equivalent-From t.target_timestamp stamp timers s.0 s.1))

  pub remove_timer-IsSorted :
      (timer : Option (Timer C)) (timers : List (Timer C))
      → IsSorted timers
      → OnSome IsSorted (remove_timer timer timers)
  unfolding remove_timer
  remove_timer-IsSorted none timers s = s
  remove_timer-IsSorted (some t) timers s =
      OnSome-imp _ _ (erase_equivalent t.target_timestamp timers) (λ rest k. k.1)
        (erase_equivalent-From 0 t.target_timestamp timers (From-zero timers) s)

  pub add_timer-IsSorted :
      (t : Timer C) (timers : List (Timer C))
      → IsSorted timers
      → OnSome IsSorted (add_timer t timers)
  unfolding add_timer
  add_timer-IsSorted t timers s = ground (arith, insert-IsSorted t timers s)

-- A call of the manager; `none` is a call that ends the program.
pub data Call (C : Type 0) : Type 0 where
  adds : Timer C → Call C
  takes : (ℕ → ℕ) → Call C
  takes_first : ℕ → ℕ → Call C
  removes : Option (Timer C) → Call C

module _ {C : Type 0} where
  unfoldable pub step : Call C → List (Timer C) → Option (List (Timer C))
  step (adds t) timers = add_timer t timers
  step (takes now) timers = some (take_expired_timers now timers).1
  step (takes_first cur_ms now) timers = some (take_first_if_expired cur_ms now timers).2
  step (removes t) timers = remove_timer t timers

  step-IsSorted :
      (c : Call C) (timers : List (Timer C)) → IsSorted timers → OnSome IsSorted (step c timers)
  unfolding step
  step-IsSorted (adds t) timers s = add_timer-IsSorted t timers s
  step-IsSorted (takes now) timers s = take_expired_timers-IsSorted now timers s
  step-IsSorted (takes_first cur_ms now) timers s =
      take_first_if_expired-IsSorted cur_ms now timers s
  step-IsSorted (removes t) timers s = remove_timer-IsSorted t timers s

  and_then :
      (List (Timer C) → Option (List (Timer C))) → Option (List (Timer C)) → Option (List (Timer C))
  and_then rest none = none
  and_then rest (some timers) = rest timers

  unfoldable pub run : List (Call C) → List (Timer C) → Option (List (Timer C))
  unfolding and_then
  run [] timers = some timers
  run (c ∷ calls) timers = and_then (run calls) (step c timers)

  and_then-IsSorted :
      (rest : List (Timer C) → Option (List (Timer C))) (o : Option (List (Timer C)))
      → ((timers : List (Timer C)) → IsSorted timers → OnSome IsSorted (rest timers))
      → OnSome IsSorted o
      → OnSome IsSorted (and_then rest o)
  unfolding and_then
  and_then-IsSorted rest none h p = tt
  and_then-IsSorted rest (some timers) h p = h timers p

  run_from-IsSorted :
      (calls : List (Call C)) (timers : List (Timer C))
      → IsSorted timers
      → OnSome IsSorted (run calls timers)
  unfolding run
  run_from-IsSorted [] timers s = s
  run_from-IsSorted (c ∷ calls) timers s =
      and_then-IsSorted (run calls) (step c timers) (run_from-IsSorted calls)
        (step-IsSorted c timers s)

  -- After any sequence of calls of a new TimerManager that succeed, its set is in the order of
  -- the comparator.
  pub run-IsSorted : (calls : List (Call C)) → OnSome IsSorted (run calls [])
  run-IsSorted calls = run_from-IsSorted calls [] tt
