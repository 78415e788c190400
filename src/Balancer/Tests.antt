-- ===== src/Balancer/Tests.antt =====
-- Runs of the balancers in src/balancer/io on numbered managers.
use net_base.Base.{true, false, ℕ, ◌≡◌, ◌⊎◌, refl, List, [], ◌∷◌, some, none, pos, arith}
use net_base.Balancer.{task_for, schedule_prio, schedule_sequence, schedule_random}
use net_base.Balancer.Filling.{
  Filling, Reachable, enters, adds_current, created, further, schedule_random-some,
}
use net_base.Balancer.Choice.{schedule_prio-Served, Served, Unserved}

abbrev first_of : ℕ → ℕ
first_of n = 0

-- Managers 7 and 8 at the level 0, and none at the level 1.
abbrev levels : List (List ℕ)
levels = [] ∷ []

schedule_prio-Served_example :
    Served first_of 1
      ((7 ∷ 8 ∷ []) ∷ levels)
      (schedule_prio first_of (some (pos 5)) ((7 ∷ 8 ∷ []) ∷ levels))
    ⊎ Unserved first_of 1
        ((7 ∷ 8 ∷ []) ∷ levels)
        (schedule_prio first_of (some (pos 5)) ((7 ∷ 8 ∷ []) ∷ levels))
schedule_prio-Served_example =
    schedule_prio-Served first_of 5 (7 ∷ 8 ∷ []) levels (λ n. omega arith)

lowered : schedule_prio first_of (some (pos 5)) ((7 ∷ 8 ∷ []) ∷ levels) ≡ some (task_for 7)
unfolding schedule_prio
lowered = refl

no_manager : schedule_prio first_of (some (pos 1)) ([] ∷ levels) ≡ none
unfolding schedule_prio
no_manager = refl

-- The manager that was entered last is left out.
in_turn : schedule_sequence {M = ℕ} 2 (5 ∷ 6 ∷ 7 ∷ []) 2 ≡ some (5, 3)
unfolding schedule_sequence
in_turn = refl

-- Two managers, of the current thread first.
abbrev filled : Filling ℕ
filled = record { managers = 7 ∷ 5 ∷ []; starting = 0; adding = false }

filled-Reachable : Reachable 1 true filled
filled-Reachable =
    further (record { managers = 7 ∷ []; starting = 1; adding = false }) filled
      (further (record { managers = []; starting = 1; adding = true })
        (record { managers = 7 ∷ []; starting = 1; adding = false }) created (adds_current 7 [] 1))
      (enters 5 (7 ∷ []) 0 false)

schedule_random-some_run : (m : ℕ) × (schedule_random first_of 1 filled.managers ≡ some m)
schedule_random-some_run =
    schedule_random-some first_of 1 true filled (λ n. omega arith) filled-Reachable refl
      (omega arith)

-- Before a thread has entered its manager nothing can be scheduled.
too_early : schedule_random {M = ℕ} first_of 1 [] ≡ none
unfolding schedule_random
too_early = refl
