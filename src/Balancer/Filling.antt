-- ===== src/Balancer/Filling.antt =====
-- src/balancer/io/avg_balancer.cpp: the constructors, whose threads enter their managers into
-- `managers_` without a lock, in any order; each entry is one step. `M` is a manager.
use net_base.Base.{
  ℕ, suc, ◌+◌, ◌≤◌, ◌<◌, ◌≡◌, Bool, true, false, List, [], ◌∷◌, ◌++◌, none, some, length,
  length-append, get_elem?, get_elem?-some, ap, ◌∙◌, ◌-◌, ==-ne, arith, if◌then◌else◌,
}
use net_base.Balancer.{schedule_random}

-- `starting` threads have not entered their manager; `adding`: the constructor is still to enter
-- that of the current thread.
pub record Filling (M : Type 0) : Type 0 where
  pub managers : List M
  pub starting : ℕ
  pub adding : Bool

module _ {M : Type 0} where
  pub data Step : Filling M → Filling M → Type 0 where
    enters :
        (m : M) (ms : List M) (n : ℕ) (adding : Bool)
        → Step
            (record { managers = ms; starting = suc n; adding = adding })
            (record { managers = ms ++ m ∷ []; starting = n; adding = adding })
    adds_current :
        (m : M) (ms : List M) (n : ℕ)
        → Step
            (record { managers = ms; starting = n; adding = true })
            (record { managers = ms ++ m ∷ []; starting = n; adding = false })

  pub data Reachable (threads : ℕ) (use_current : Bool) : Filling M → Type 0 where
    created :
        Reachable threads use_current
          (record { managers = []; starting = threads; adding = use_current })
    further :
        (s t : Filling M)
        → Reachable threads use_current s
        → Step s t
        → Reachable threads use_current t

  Step-enough :
      (threads : ℕ) (s t : Filling M)
      → Step s t
      → threads ≤ length s.managers + s.starting
      → threads ≤ length t.managers + t.starting
  Step-enough threads _ _ (enters m ms n adding) h = omega (arith, length-append ms (m ∷ []))
  Step-enough threads _ _ (adds_current m ms n) h = omega (arith, length-append ms (m ∷ []))

  Reachable-enough :
      (threads : ℕ) (use_current : Bool) (s : Filling M)
      → Reachable threads use_current s
      → threads ≤ length s.managers + s.starting
  Reachable-enough threads use_current _ created = omega arith
  Reachable-enough threads use_current _ (further s t r step) =
      Step-enough threads s t step (Reachable-enough threads use_current s r)

  -- In whatever order the threads and the constructor enter their managers: once all threads have
  -- done so, a random choice within its bound gives a manager.
  pub schedule_random-some :
      (pick : ℕ → ℕ) (threads : ℕ) (use_current : Bool) (s : Filling M)
      → ((n : ℕ) → pick n ≤ n)
      → Reachable threads use_current s
      → s.starting ≡ 0
      → 0 < threads
      → (m : M) × (schedule_random pick threads s.managers ≡ some m)
  unfolding schedule_random
  schedule_random-some pick threads use_current s bound r done h =
      let (m, e) =
        get_elem?-some s.managers (pick (threads - 1))
          (omega (arith, bound (threads - 1), Reachable-enough threads use_current s r, done, h)) in
      (
        m,
        ap (λ b. if b then none else get_elem? s.managers (pick (threads - 1)))
              (==-ne threads 0 (λ z. omega (arith, z, h)))
            ∙ e,
      )
