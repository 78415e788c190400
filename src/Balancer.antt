-- ===== src/Balancer.antt =====
-- src/balancer/io/prio_balancer.cpp and src/balancer/io/avg_balancer.cpp: which IOManager a
-- coroutine goes to. `M` is a manager, `pick n` a random number from 0 to n, and `none` is
-- undefined behaviour: a read outside a vector, or a division by zero. Balancer.Filling has
-- the threads that fill the vector of avg_balancer.cpp.
pub mod Choice
mod Filling
mod Tests
use net_base.Base.{
  ℕ, zero, suc, ◌+◌, ◌-◌, ◌%◌, Bool, true, false, List, [], ◌∷◌, Option, none, some, ltb, ◌==◌,
  if◌then◌else◌, ◌>>=◌, length, get_elem?, ℤ, pos, negsuc, min, add64,
}

-- What schedule does: an error in the log, or addRemoteTask of a manager.
pub data Scheduled (M : Type 0) : Type 0 where
  reported : Scheduled M
  task_for : M → Scheduled M

module _ {M : Type 0} (pick : ℕ → ℕ) where
  -- A random manager of the workers that the loop stopped at.
  pub chosen : List M → Option (Scheduled M)
  chosen ms = get_elem? ms (pick (length ms - 1)) >>= λ m. some (task_for m)

  -- The loop from `prio` on downwards; at -1 it reads the vector once more before it stops.
  pub from_prio : ℕ → List (List M) → Option (Scheduled M)
  unfolding chosen
  from_prio zero workers =
      get_elem? workers 0 >>= λ ms. elim ms [ [] ↦ none | m ∷ rest ↦ chosen (m ∷ rest) ]
  from_prio (suc prio) workers =
      let lower = from_prio prio workers in
      get_elem? workers (suc prio) >>= λ ms. elim ms [ [] ↦ lower | m ∷ rest ↦ chosen (m ∷ rest) ]

  -- PrioBlancer::schedule, with what `any_cast<int>` gives; without workers `size() - 1` is -1.
  unfoldable pub schedule_prio : Option ℤ → List (List M) → Option (Scheduled M)
  unfolding from_prio
  schedule_prio none workers = some reported
  schedule_prio (some (negsuc n)) workers = none
  schedule_prio (some (pos prio)) [] = none
  schedule_prio (some (pos prio)) (ms ∷ workers) =
      from_prio (min prio (length workers)) (ms ∷ workers)

  -- RandomIOBalancer::schedule, with the number of threads
  unfoldable pub schedule_random : ℕ → List M → Option M
  schedule_random threads managers =
      if threads == 0 then none else get_elem? managers (pick (threads - 1))

-- SequenceIOBalancer::schedule, with the counter that all of these balancers share
unfoldable pub schedule_sequence : {M : Type 0} → ℕ → List M → ℕ → Option (M × ℕ)
schedule_sequence threads managers count =
    if threads == 0
    then none
    else (get_elem? managers (count % threads) >>= λ m. some (m, add64 count 1))
