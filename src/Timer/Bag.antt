-- ===== src/Timer/Bag.antt =====
-- The set of `TimerManager` in include/base/timer.h as a bag: what each call does to it and gives
-- back, whatever the calls before it.
use mathlib.Core.List.Perm
use net_base.Base.{
  leb→le, ℕ, ◌≤◌, ◌<◌, ◌≡◌, ◌≢◌, ◌⊎◌, refl, true, false, List, [], ◌∷◌, ◌++◌, none, some, inl, inr,
  Perm, arith, leb, ◌==◌, ==_iff, if◌then◌else◌, All, OnSome-here, Bool-cases, Option-cases,
}
use net_base.Timer.{
  Timer, new_timer, insert, add_timer, take_expired_timers, take_first_if_expired, erase_equivalent,
  remove_timer, has_callback, IsSorted,
}
use net_base.Timer.Sorted.{From, Call, adds, takes, takes_first, removes, run, run-IsSorted}
use net_base.Timer.Expiry.{due, pending, restarted, insert-perm, take_expired_timers-due}

module _ {C : Type 0} where
  -- What a call does to a set: it is independent of the order in which the set keeps its timers,
  -- except that expired timers come in that order.
  abbrev pub Behaves : Call C → List (Timer C) → Type 0
  Behaves (adds t) set =
      ((t.callback ≡ none) × (add_timer t set ≡ none))
      ⊎ ((c : C) × (t.callback ≡ some c)
          × (after : List (Timer C)) × (add_timer t set ≡ some after)
          × Perm after (t ∷ set))
  Behaves (takes now) set =
      let (expired, left) = take_expired_timers now set in
      (expired ≡ due (now 0) set)
      × Perm left (restarted now 1 (due (now 0) set) ++ pending (now 0) set)
  Behaves (takes_first cur_ms now) set =
      (All (λ u. cur_ms < u.target_timestamp) set
        × (take_first_if_expired cur_ms now set ≡ (false, none, set)))
      ⊎ ((t : Timer C) × (rest : List (Timer C)) × Perm set (t ∷ rest)
          × (t.target_timestamp ≤ cur_ms)
          × From t.target_timestamp rest
          × (after : List (Timer C)) × (take_first_if_expired cur_ms now set
              ≡ (has_callback t, some t, after))
          × Perm after (restarted (λ i. now) 0 (t ∷ []) ++ rest))
  Behaves (removes none) set = remove_timer none set ≡ some set
  Behaves (removes (some t)) set =
      (All (λ u. u.target_timestamp ≢ t.target_timestamp) set × (remove_timer (some t) set ≡ none))
      ⊎ ((u : Timer C) × (u.target_timestamp ≡ t.target_timestamp)
          × (after : List (Timer C)) × (remove_timer (some t) set ≡ some after)
          × Perm set (u ∷ after))

  add_timer-Behaves : (t : Timer C) (set : List (Timer C)) → Behaves (adds t) set
  unfolding add_timer
  add_timer-Behaves t set = elim (Option-cases t.callback) [
    | inl e ↦ inl (e, rw e refl)
    | inr (c, e) ↦ inr (c, e, insert t set, rw e refl, insert-perm t set)
  ]

  later-All :
      (cur_ms stamp : ℕ) (set : List (Timer C))
      → cur_ms < stamp
      → From stamp set
      → All (λ u. cur_ms < u.target_timestamp) set
  later-All cur_ms stamp [] h f = tt
  later-All cur_ms stamp (t ∷ set) h f = (omega (arith, f.0), later-All cur_ms stamp set h f.1)

  restarted-perm :
      (now : ℕ) (t : Timer C) (set : List (Timer C))
      → Perm
          (if t.repeats then insert (new_timer now t.interval t.callback true) set else set)
          (restarted (λ i. now) 0 (t ∷ []) ++ set)
  restarted-perm now t set = elim (Bool-cases t.repeats) [
    | inl again ↦ rw again (insert-perm (new_timer now t.interval t.callback true) set)
    | inr once ↦ rw once (Perm.refl set)
  ]

  take_first_if_expired-Behaves :
      (cur_ms now : ℕ) (set : List (Timer C)) → IsSorted set → Behaves (takes_first cur_ms now) set
  unfolding take_first_if_expired
  take_first_if_expired-Behaves cur_ms now [] s = inl (tt, refl)
  take_first_if_expired-Behaves cur_ms now (t ∷ set) s =
      elim (Bool-cases (leb t.target_timestamp cur_ms)) [
        | inl le ↦ inr (
          t,
          set,
          Perm.refl (t ∷ set),
          leb→le _ _ le,
          s.0,
          (if t.repeats then insert (new_timer now t.interval t.callback true) set else set),
          rw le refl,
          restarted-perm now t set,
        )
        | inr gt ↦
            let h : cur_ms < t.target_timestamp = ground (arith, gt) in
            inl ((h, later-All cur_ms t.target_timestamp set h s.0), rw gt refl)
      ]

  erase_equivalent-cases :
      (stamp : ℕ) (set : List (Timer C))
      → (All (λ u. u.target_timestamp ≢ stamp) set × (erase_equivalent stamp set ≡ none))
        ⊎ ((u : Timer C) × (u.target_timestamp ≡ stamp)
            × (after : List (Timer C)) × (erase_equivalent stamp set ≡ some after)
            × Perm set (u ∷ after))
  unfolding erase_equivalent
  erase_equivalent-cases stamp [] = inl (tt, refl)
  erase_equivalent-cases stamp (t ∷ set) = elim (Bool-cases (t.target_timestamp == stamp)) [
    | inl same ↦ inr (t, (==_iff _ _).0 same, set, rw same refl, Perm.refl (t ∷ set))
    | inr differ ↦ elim (erase_equivalent-cases stamp set) [
      | inl (all, e) ↦ inl ((λ same. ground (arith, same, differ), all), rw (differ, e) refl)
      | inr (u, at, after, e, perm) ↦ inr (
        u,
        at,
        t ∷ after,
        rw (differ, e) refl,
        Perm.trans (Perm.cons t perm) (Perm.swap u t after),
      )
    ]
  ]

  Behaves-sorted : (c : Call C) (set : List (Timer C)) → IsSorted set → Behaves c set
  unfolding remove_timer
  Behaves-sorted (adds t) set s = add_timer-Behaves t set
  Behaves-sorted (takes now) set s = take_expired_timers-due now set s
  Behaves-sorted (takes_first cur_ms now) set s = take_first_if_expired-Behaves cur_ms now set s
  Behaves-sorted (removes none) set s = refl
  Behaves-sorted (removes (some t)) set s = erase_equivalent-cases t.target_timestamp set

  -- After any sequence of calls of a new TimerManager that succeed, each further call does to
  -- its set what it should do to a bag of timers: addTimer adds the timer, or fails without a
  -- callback; takeExpiredTimers takes exactly the timers that are due and leaves the others,
  -- with one new timer for each taken one that repeats; takeFirstIfExpired changes nothing where
  -- no timer is due, and otherwise takes a due timer that none precedes and leaves the others,
  -- with a new timer if that one repeats; removeTimer takes away one timer with the given one's
  -- time stamp, fails if there is none, and does nothing for a null pointer.
  pub run-Behaves :
      (calls : List (Call C)) (c : Call C) (set : List (Timer C))
      → run calls [] ≡ some set
      → Behaves c set
  run-Behaves calls c set e =
      Behaves-sorted c set (OnSome-here IsSorted (run calls []) e (run-IsSorted calls))
