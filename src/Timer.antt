-- ===== src/Timer.antt =====
-- include/base/timer.h: `Timer` and `TimerManager`. The multiset is the list of its elements in
-- iteration order: a new element goes behind those with an equal time stamp. Each operation holds
-- the mutex, so it is atomic. Callbacks are values of a type `C`; a null callback is `none`.
-- The clock, `currentMs`, enters as its readings, in the order in which they are made.
pub mod Sorted
pub mod Expiry
mod Bag
mod Again
pub mod Cancel
mod Tests
use net_base.Base.{
  ℕ, zero, suc, ◌+◌, ◌-◌, ◌≤◌, Bool, true, false, List, [], ◌∷◌, ◌++◌, Option, none, some, ltb, leb,
  ◌==◌, if◌then◌else◌, sub64, word64, All,
}
use mathlib.Core.Option

pub record Timer (C : Type 0) : Type 0 where
  pub repeats : Bool
  pub target_timestamp : ℕ
  pub interval : ℕ
  pub callback : Option C

-- static_cast<MsStampType>(-1)
abbrev pub max_stamp : ℕ
max_stamp = word64 - 1

module _ {C : Type 0} where
  -- The constructor with an interval; an overflow is cut off.
  unfoldable pub new_timer : ℕ → ℕ → Option C → Bool → Timer C
  new_timer cur_ms interval callback repeats = record {
    repeats = repeats;
    target_timestamp = if ltb (max_stamp - cur_ms) interval then max_stamp else interval + cur_ms;
    interval = interval;
    callback = callback;
  }

  -- std::multiset::insert
  unfoldable pub insert : Timer C → List (Timer C) → List (Timer C)
  insert t [] = t ∷ []
  insert t (u ∷ timers) =
      if ltb t.target_timestamp u.target_timestamp then t ∷ u ∷ timers else u ∷ insert t timers

  -- `none`: the assertion that there is a callback fails.
  unfoldable pub add_timer : Timer C → List (Timer C) → Option (List (Timer C))
  add_timer t timers = elim t.callback [ none ↦ none | some c ↦ some (insert t timers) ]

  -- std::multiset::lower_bound: the elements before the iterator, and those from it on.
  unfoldable pub lower_bound : ℕ → List (Timer C) → List (Timer C) × List (Timer C)
  lower_bound stamp [] = ([], [])
  lower_bound stamp (t ∷ timers) =
      let (before, from) = lower_bound stamp timers in
      if ltb t.target_timestamp stamp then (t ∷ before, from) else ([], t ∷ timers)

  -- The loop that moves the iterator past the equal time stamps.
  unfoldable pub skip_equal : ℕ → List (Timer C) → List (Timer C) × List (Timer C)
  skip_equal stamp [] = ([], [])
  skip_equal stamp (t ∷ timers) =
      let (equal, from) = skip_equal stamp timers in
      if t.target_timestamp == stamp then (t ∷ equal, from) else ([], t ∷ timers)

  -- A repeating timer starts anew when it has been taken; reading `i` of the clock is `now i`.
  unfoldable pub rearm : (ℕ → ℕ) → ℕ → List (Timer C) → List (Timer C) → List (Timer C)
  rearm now i [] timers = timers
  rearm now i (t ∷ expired) timers =
      rearm now (if t.repeats then suc i else i) expired
        (if t.repeats then insert (new_timer (now i) t.interval t.callback true) timers else timers)

  -- The expired timers, and the manager behind the call.
  unfoldable pub take_expired_timers : (ℕ → ℕ) → List (Timer C) → List (Timer C) × List (Timer C)
  unfolding rearm
  take_expired_timers now timers =
      let (before, from) = lower_bound (now 0) timers in
      let (equal, rest) = skip_equal (now 0) from in
      (before ++ equal, rearm now 1 (before ++ equal) rest)

  -- The clock is read for the test and, where that fails, once more for the difference.
  pub get_next_interval : ℕ → ℕ → List (Timer C) → ℕ
  get_next_interval now later [] = max_stamp
  get_next_interval now later (t ∷ timers) =
      if ltb t.target_timestamp now then 0 else sub64 t.target_timestamp later

  pub has_callback : Timer C → Bool
  has_callback t = elim t.callback [ none ↦ false | some c ↦ true ]

  -- The result, what the argument `timer` is set to, and the manager behind the call.
  pub take_first_if_expired : ℕ → ℕ → List (Timer C) → Bool × Option (Timer C) × List (Timer C)
  unfolding has_callback
  take_first_if_expired cur_ms now [] = (false, none, [])
  take_first_if_expired cur_ms now (t ∷ timers) =
      if leb t.target_timestamp cur_ms
      then (
        has_callback t,
        some t,
        (if t.repeats then insert (new_timer now t.interval t.callback true) timers else timers),
      )
      else (false, none, t ∷ timers)

  -- std::multiset::find and erase. `none`: there is no equivalent element, and erase is given the
  -- end of the set, which is undefined.
  unfoldable pub erase_equivalent : ℕ → List (Timer C) → Option (List (Timer C))
  erase_equivalent stamp [] = none
  erase_equivalent stamp (t ∷ timers) =
      if t.target_timestamp == stamp
      then some timers
      else Option.map (◌∷◌ t) (erase_equivalent stamp timers)

  -- A null pointer changes nothing.
  unfoldable pub remove_timer : Option (Timer C) → List (Timer C) → Option (List (Timer C))
  remove_timer none timers = some timers
  remove_timer (some t) timers = erase_equivalent t.target_timestamp timers

  -- The order of iteration.
  abbrev pub IsSorted : List (Timer C) → Type 0
  IsSorted [] = Unit {0}
  IsSorted (t ∷ timers) =
      All (λ u. t.target_timestamp ≤ u.target_timestamp) timers × IsSorted timers
