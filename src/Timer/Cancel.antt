-- ===== src/Timer/Cancel.antt =====
-- `getNextInterval` and `removeTimer` of include/base/timer.h, where they do what their callers
-- count on and where they do not.
use net_base.Base.{
  Option, refl, ◌==◌, ==_refl, ℕ, ◌+◌, ◌-◌, ◌%◌, ◌≤◌, ◌<◌, ◌≡◌, ◌≢◌, Bool, true, false, List, [],
  ◌∷◌, ◌++◌, some, inl, inr, arith, ltb, if◌then◌else◌, All, Bool-cases, word64, word32,
}
use net_base.Timer.{
  add_timer, new_timer, Timer, insert, get_next_interval, erase_equivalent, remove_timer,
}

-- The sign of static_cast<int>(n).
abbrev pub is_negative_int : ℕ → Bool
is_negative_int n = if ltb (n % word32) 2147483648 then false else true

module _ {C : Type 0} where
  -- With one reading of the clock: 0 when a timer is overdue, and the time to the first otherwise.
  pub get_next_interval-first :
      (now : ℕ) (t : Timer C) (timers : List (Timer C))
      → t.target_timestamp < word64
      → now < word64
      → get_next_interval now now (t ∷ timers) ≡ t.target_timestamp - now
  unfolding get_next_interval
  get_next_interval-first now t timers h l = ground arith

  -- If the clock passes the first time stamp between the two readings of getNextInterval, by at
  -- most 2 ^ 31 milliseconds and below 2 ^ 64, the result is a negative number once it is an
  -- int.
  pub get_next_interval_wraps :
      (now later : ℕ) (t : Timer C) (timers : List (Timer C))
      → now ≤ t.target_timestamp
      → t.target_timestamp < later
      → later < word64
      → later ≤ t.target_timestamp + 2147483648
      → is_negative_int (get_next_interval now later (t ∷ timers)) ≡ true
  unfolding get_next_interval
  get_next_interval_wraps now later t timers a b c d = ground arith

  insert_behind :
      (t u : Timer C) (timers : List (Timer C))
      → t.target_timestamp ≡ u.target_timestamp
      → insert u (t ∷ timers) ≡ t ∷ insert u timers
  unfolding insert
  insert_behind t u timers e = ground arith

  insert_later :
      (t u : Timer C) (timers : List (Timer C))
      → t.target_timestamp < u.target_timestamp
      → insert u (t ∷ timers) ≡ t ∷ insert u timers
  unfolding insert
  insert_later t u timers e = ground arith

  -- If no timer of the set has its time stamp, removing a timer behind its insertion gives the
  -- set back.
  pub remove_timer-insert :
      (t : Timer C) (timers : List (Timer C))
      → All (λ u. u.target_timestamp ≢ t.target_timestamp) timers
      → remove_timer (some t) (insert t timers) ≡ some timers
  unfolding remove_timer erase_equivalent insert
  remove_timer-insert t [] h = ground arith
  remove_timer-insert t (u ∷ timers) h =
      elim (Bool-cases (ltb t.target_timestamp u.target_timestamp)) [
        | inl lt ↦ rw lt (ground arith)
        | inr ge ↦ rw ge (ground (arith, remove_timer-insert t timers h.1))
      ]

  -- Where a timer with the same time stamp stands in the set and only earlier ones before it,
  -- adding a timer and removing it removes that other timer and keeps the one meant.
  pub remove_timer_other :
      (t u : Timer C) (before after : List (Timer C))
      → t.target_timestamp ≡ u.target_timestamp
      → All (λ v. v.target_timestamp < u.target_timestamp) before
      → remove_timer (some u) (insert u (before ++ t ∷ after)) ≡ some (before ++ insert u after)
  unfolding remove_timer erase_equivalent
  remove_timer_other t u [] after e h = rw (insert_behind t u after e) (ground arith)
  remove_timer_other t u (v ∷ before) after e h =
      rw (insert_later v u (before ++ t ∷ after) h.0)
        (ground (arith, remove_timer_other t u before after e h.1))

  erase_equivalent-insert :
      (t : Timer C) (timers : List (Timer C))
      → (after : List (Timer C)) × (erase_equivalent t.target_timestamp (insert t timers)
          ≡ some after)
  unfolding erase_equivalent insert
  erase_equivalent-insert t [] = ([], ground (arith, ==_refl t.target_timestamp))
  erase_equivalent-insert t (u ∷ timers) =
      let (after, e) = erase_equivalent-insert t timers in
      elim (Bool-cases (ltb t.target_timestamp u.target_timestamp)) [
        | inl lt ↦ (u ∷ timers, rw (lt, ==_refl t.target_timestamp) refl)
        | inr ge ↦ elim (Bool-cases (u.target_timestamp == t.target_timestamp)) [
          | inl same ↦ (insert t timers, rw (ge, same) refl)
          | inr differ ↦ (u ∷ after, rw (ge, differ, e) refl)
        ]
      ]

  pub remove_timer-add_timer :
      (c : C) (t : Timer C) (timers : List (Timer C))
      → t.callback ≡ some c
      → (added : List (Timer C)) × (add_timer t timers ≡ some added)
        × (after : List (Timer C)) × (remove_timer (some t) added ≡ some after)
  unfolding add_timer remove_timer
  remove_timer-add_timer c t timers e =
      let (after, q) = erase_equivalent-insert t timers in (insert t timers, rw e refl, after, q)

  pub callback-new_timer :
      (now interval : ℕ) (c : Option C) → (new_timer now interval c false).callback ≡ c
  unfolding new_timer
  callback-new_timer now interval c = refl
