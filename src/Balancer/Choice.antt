-- ===== src/Balancer/Choice.antt =====
-- The manager that `PrioBlancer::schedule` of src/balancer/io/prio_balancer.cpp chooses.
use net_base.Base.{
  ℕ, zero, suc, ◌-◌, ◌≤◌, ◌<◌, ◌≡◌, ap, ◌∙◌, ◌⊎◌, inl, inr, List, [], ◌∷◌, Option, none, some,
  ◌>>=◌, length, get_elem?, get_elem?-some, arith, pos, min, dec_le,
}
use net_base.Balancer.{Scheduled, task_for, chosen, from_prio, schedule_prio}

-- A random number between 0 and its bound.
abbrev pub IsPick : (ℕ → ℕ) → Type 0
IsPick pick = (n : ℕ) → pick n ≤ n

module _ {M : Type 0} (pick : ℕ → ℕ) where
  -- The task goes to a manager of level `r`, and the levels above it, up to `prio`, are empty.
  abbrev pub Served : ℕ → List (List M) → Option (Scheduled M) → Type 0
  Served prio workers o =
      (r : ℕ) × (r ≤ prio)
      × (ms : List M) × (get_elem? workers r ≡ some ms)
      × (m : M) × (get_elem? ms (pick (length ms - 1)) ≡ some m)
      × (o ≡ some (task_for m))
      × ((q : ℕ) → r < q → q ≤ prio → get_elem? workers q ≡ some [])

  -- All levels up to `prio` are empty, and the loop leaves the vector.
  abbrev pub Unserved : ℕ → List (List M) → Option (Scheduled M) → Type 0
  Unserved prio workers o = ((q : ℕ) → q ≤ prio → get_elem? workers q ≡ some []) × (o ≡ none)

  chosen-task :
      (m : M) (ms : List M)
      → IsPick pick
      → (k : M) × (get_elem? (m ∷ ms) (pick (length (m ∷ ms) - 1)) ≡ some k)
        × (chosen pick (m ∷ ms) ≡ some (task_for k))
  unfolding chosen
  chosen-task m ms h =
      let (k, e) =
        get_elem?-some (m ∷ ms) (pick (length (m ∷ ms) - 1))
          (omega (arith, h (length (m ∷ ms) - 1))) in
      (k, e, ap (λ o. o >>= λ m. some (task_for m)) e)

  from_prio-zero :
      (workers : List (List M)) (ms : List M)
      → get_elem? workers 0 ≡ some ms
      → from_prio pick 0 workers
        ≡ (elim ms as (λ x. Option (Scheduled M)) [ [] ↦ none | m ∷ rest ↦ chosen pick (m ∷ rest) ])
  unfolding from_prio
  from_prio-zero workers ms e =
      ap
        (λ o. o >>= λ ms. elim ms as (λ x. Option (Scheduled M)) [
          | [] ↦ none
          | m ∷ rest ↦ chosen pick (m ∷ rest)
        ])
        e

  from_prio-suc :
      (prio : ℕ) (workers : List (List M)) (ms : List M)
      → get_elem? workers (suc prio) ≡ some ms
      → from_prio pick (suc prio) workers ≡ (elim ms as (λ x. Option (Scheduled M)) [
        | [] ↦ from_prio pick prio workers
        | m ∷ rest ↦ chosen pick (m ∷ rest)
      ])
  unfolding from_prio
  from_prio-suc prio workers ms e =
      ap
        (λ o. o >>= λ ms. elim ms as (λ x. Option (Scheduled M)) [
          | [] ↦ from_prio pick prio workers
          | m ∷ rest ↦ chosen pick (m ∷ rest)
        ])
        e

  from_prio-here :
      (prio : ℕ) (workers : List (List M)) (m : M) (ms : List M)
      → IsPick pick
      → get_elem? workers prio ≡ some (m ∷ ms)
      → from_prio pick prio workers ≡ chosen pick (m ∷ ms)
      → Served prio workers (from_prio pick prio workers)
  from_prio-here prio workers m ms h e f =
      let (k, g, c) = chosen-task m ms h in
      (prio, omega arith, m ∷ ms, e, k, g, f ∙ c, λ q l n. absurd (omega (arith, l, n)))

  from_prio-Served :
      (prio : ℕ) (workers : List (List M))
      → IsPick pick
      → prio < length workers
      → Served prio workers (from_prio pick prio workers)
        ⊎ Unserved prio workers (from_prio pick prio workers)
  from_prio-Served zero workers h l = first workers (get_elem?-some workers 0 l)
    where
      first :
          (workers : List (List M))
          → (ms : List M) × (get_elem? workers 0 ≡ some ms)
          → Served 0 workers (from_prio pick 0 workers)
            ⊎ Unserved 0 workers (from_prio pick 0 workers)
      first workers ([], e) =
          inr ((λ q n. ap (get_elem? workers) (omega (arith, n)) ∙ e), from_prio-zero workers [] e)
      first workers (m ∷ ms, e) =
          inl (from_prio-here 0 workers m ms h e (from_prio-zero workers (m ∷ ms) e))
  from_prio-Served (suc prio) workers h l =
      next (get_elem?-some workers (suc prio) l)
        (from_prio-Served prio workers h (omega (arith, l)))
    where
      level :
          (q : ℕ)
          → q ≤ suc prio
          → get_elem? workers (suc prio) ≡ some []
          → (q ≤ prio → get_elem? workers q ≡ some [])
          → get_elem? workers q ≡ some []
      level q n e below = elim (dec_le q prio) [
        | yes h ↦ below h
        | no h ↦ ap (get_elem? workers) (omega (arith, n, h)) ∙ e
      ]

      next :
          (ms : List M) × (get_elem? workers (suc prio) ≡ some ms)
          → Served prio workers (from_prio pick prio workers)
            ⊎ Unserved prio workers (from_prio pick prio workers)
          → Served (suc prio) workers (from_prio pick (suc prio) workers)
            ⊎ Unserved (suc prio) workers (from_prio pick (suc prio) workers)
      next (m ∷ ms, e) below =
          inl (from_prio-here (suc prio) workers m ms h e (from_prio-suc prio workers (m ∷ ms) e))
      next ([], e) (inl (r, n, ms, g, k, p, o, above)) = inl (
        r,
        omega (arith, n),
        ms,
        g,
        k,
        p,
        from_prio-suc prio workers [] e ∙ o,
        λ q l n. level q n e (above q l),
      )
      next ([], e) (inr (empty, o)) =
          inr (λ q n. level q n e (empty q), from_prio-suc prio workers [] e ∙ o)

  -- With at least one level and a random choice within its bound, a task of a priority that is
  -- not negative goes to a manager of the highest level, up to that priority, that has any; if
  -- no such level has one, the call is undefined.
  pub schedule_prio-Served :
      (prio : ℕ) (ms : List M) (workers : List (List M))
      → IsPick pick
      → Served
          (min prio (length workers))
          (ms ∷ workers)
          (schedule_prio pick (some (pos prio)) (ms ∷ workers))
        ⊎ Unserved
            (min prio (length workers))
            (ms ∷ workers)
            (schedule_prio pick (some (pos prio)) (ms ∷ workers))
  unfolding schedule_prio
  schedule_prio-Served prio ms workers h =
      from_prio-Served (min prio (length workers)) (ms ∷ workers) h (omega arith)
