-- ===== src/Timer/Tests.antt =====
-- The theorems on include/base/timer.h at concrete timers.
use net_base.Base.{ℕ, ◌+◌, ◌≡◌, refl, true, false, List, [], ◌∷◌, ◌++◌, some, Perm, arith, OnSome}
use net_base.Timer.{
  Timer, new_timer, insert, take_expired_timers, get_next_interval, remove_timer, IsSorted, rearm,
  lower_bound, skip_equal, add_timer, erase_equivalent,
}
use net_base.Timer.Sorted.{Call, adds, removes, takes_first, step, run, run-IsSorted}
use net_base.Timer.Bag.{Behaves, run-Behaves}
use net_base.Timer.Expiry.{due, pending, restarted, take_expired_timers-due}
use net_base.Timer.Again.{take_expired_timers_twice}
use net_base.Timer.Cancel.{
  get_next_interval-first, get_next_interval_wraps, is_negative_int, remove_timer-insert,
  remove_timer_other,
}

abbrev at_ms : ℕ → ℕ → Timer ℕ
at_ms stamp callback = record {
  repeats = false;
  target_timestamp = stamp;
  interval = 10;
  callback = some callback;
}

abbrev every : ℕ → ℕ → Timer ℕ
every stamp callback = record (at_ms stamp callback) { repeats = true }

abbrev set_of : List (Timer ℕ)
set_of = at_ms 3 0 ∷ every 5 1 ∷ at_ms 5 2 ∷ at_ms 9 3 ∷ []

abbrev set_of-IsSorted : IsSorted set_of
set_of-IsSorted = omega arith

take_runs :
    take_expired_timers (λ i. 5 + i) set_of
    ≡ (at_ms 3 0 ∷ every 5 1 ∷ at_ms 5 2 ∷ [], at_ms 9 3 ∷ every 16 1 ∷ [])
unfolding take_expired_timers rearm insert new_timer lower_bound skip_equal
take_runs = refl

run-IsSorted_run :
    OnSome IsSorted (run (adds (at_ms 5 1) ∷ adds (at_ms 3 0) ∷ removes (some (at_ms 5 1)) ∷ []) [])
run-IsSorted_run =
    run-IsSorted (adds (at_ms 5 1) ∷ adds (at_ms 3 0) ∷ removes (some (at_ms 5 1)) ∷ [])

-- A repeating timer is added, another one is added and removed again.
abbrev calls : List (Call ℕ)
calls = adds (at_ms 5 1) ∷ adds (every 3 0) ∷ removes (some (at_ms 5 1)) ∷ []

run-Behaves_example : Behaves (takes_first 4 4) (every 3 0 ∷ [])
unfolding run step insert add_timer remove_timer erase_equivalent
run-Behaves_example = run-Behaves calls (takes_first 4 4) (every 3 0 ∷ []) refl

take_expired_timers-due_example :
    let (expired, left) = take_expired_timers (λ i. 5) set_of in
    (expired ≡ due 5 set_of) × Perm left (restarted (λ i. 5) 1 (due 5 set_of) ++ pending 5 set_of)
take_expired_timers-due_example = take_expired_timers-due (λ i. 5) set_of set_of-IsSorted

take_expired_timers_twice_run :
    (take_expired_timers (λ i. 5) (take_expired_timers (λ i. 5) set_of).1).0 ≡ []
take_expired_timers_twice_run =
    take_expired_timers_twice (λ i. 5) (λ i. 5) set_of set_of-IsSorted (omega arith)
      (λ j. omega arith) (omega arith) refl

get_next_interval-first_run : get_next_interval 1 1 set_of ≡ 2
get_next_interval-first_run =
    get_next_interval-first 1 (at_ms 3 0) (every 5 1 ∷ at_ms 5 2 ∷ at_ms 9 3 ∷ []) (omega arith)
      (omega arith)

get_next_interval_wraps_example : is_negative_int (get_next_interval 3 4 set_of) ≡ true
get_next_interval_wraps_example =
    get_next_interval_wraps 3 4 (at_ms 3 0) (every 5 1 ∷ at_ms 5 2 ∷ at_ms 9 3 ∷ []) (omega arith)
      (omega arith) (omega arith) (omega arith)

remove_timer-insert_run : remove_timer (some (at_ms 7 4)) (insert (at_ms 7 4) set_of) ≡ some set_of
remove_timer-insert_run = remove_timer-insert (at_ms 7 4) set_of (omega arith)

remove_timer_other_run :
    remove_timer (some (at_ms 5 4)) (insert (at_ms 5 4) set_of)
    ≡ some (at_ms 3 0 ∷ insert (at_ms 5 4) (at_ms 5 2 ∷ at_ms 9 3 ∷ []))
remove_timer_other_run =
    remove_timer_other (every 5 1) (at_ms 5 4) (at_ms 3 0 ∷ []) (at_ms 5 2 ∷ at_ms 9 3 ∷ []) refl
      (omega arith)
