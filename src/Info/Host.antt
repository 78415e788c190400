-- ===== src/Info/Host.antt =====
-- `getHostWithoutBuffer` and `getHostName` of src/base/info.cpp.
use net_base.Base.{
  ℕ, suc, zero, ◌≡◌, ◌<◌, ◌⊎◌, inl, inr, refl, Option, none, some, Bytes, arith, ap, ◌∙◌,
  Option-cases,
}
use net_base.Info.{
  Name, named, exec_failed, host_loop, host_answer, get_host_without_buffer, get_host_name,
  keep_name,
}

exec_failed-named : (name : Bytes) → (exec_failed ≡ named name) → ⊥
exec_failed-named name e = cc

module _ {W : Type 0} (gethostname : W → Option Bytes × W) where
  -- The world behind `n` calls.
  pub world_after : ℕ → W → W
  world_after zero w = w
  world_after (suc n) w = world_after n (gethostname w).1

  abbrev answer : ℕ → W → Option Bytes
  answer n w = (gethostname (world_after n w)).0

  -- The first of the next calls that succeeds, or none does.
  pub Outcome : ℕ → W → Name × W → Type 0
  unfolding world_after
  Outcome tries w r =
      ((n : ℕ) × (name : Bytes) × (n < tries)
        × (answer n w ≡ some name)
        × ((k : ℕ) → k < n → answer k w ≡ none)
        × (r ≡ (named name, world_after (suc n) w)))
      ⊎ (((k : ℕ) → k < tries → answer k w ≡ none) × (r ≡ (exec_failed, world_after tries w)))

  fails_first :
      (n : ℕ) (w : W)
      → (gethostname w).0 ≡ none
      → ((k : ℕ) → k < n → answer k (gethostname w).1 ≡ none)
      → (k : ℕ) → k < suc n
      → answer k w ≡ none
  unfolding world_after
  fails_first n w e h zero l = e
  fails_first n w e h (suc k) l = h k (omega (arith, l))

  host_loop-Outcome : (tries : ℕ) (w : W) → Outcome tries w (host_loop gethostname tries w)
  unfolding Outcome world_after host_loop host_answer
  host_loop-Outcome zero w = inr ((λ k l. absurd (omega (arith, l))), refl)
  host_loop-Outcome (suc tries) w = elim (Option-cases (gethostname w).0) [
    | inl e ↦ elim (host_loop-Outcome tries (gethostname w).1) [
      | inl (n, name, l, a, before, r) ↦ inl (
        suc n,
        name,
        omega (arith, l),
        a,
        fails_first n w e before,
        ap (λ o. host_answer gethostname (host_loop gethostname tries) (o, (gethostname w).1)) e
            ∙ r,
      )
      | inr (all, r) ↦ inr (
        fails_first tries w e all,
        ap (λ o. host_answer gethostname (host_loop gethostname tries) (o, (gethostname w).1)) e
            ∙ r,
      )
    ]
    | inr (name, e) ↦ inl (
      0,
      name,
      omega arith,
      e,
      (λ k l. absurd (omega (arith, l))),
      ap (λ o. host_answer gethostname (host_loop gethostname tries) (o, (gethostname w).1)) e,
    )
  ]

  -- At most five calls: the first name that is found is returned, or ExecFailed behind five failures.
  pub get_host_without_buffer-Outcome :
      (w : W) → Outcome 5 w (get_host_without_buffer gethostname w)
  unfolding get_host_without_buffer
  get_host_without_buffer-Outcome w = host_loop-Outcome 5 w

  keep_name-named :
      (r : Name × W) (v : W) (name : Bytes)
      → (keep_name gethostname r).0 ≡ named name
      → get_host_name gethostname (keep_name gethostname r).1 v ≡ (named name, some name, v)
  unfolding keep_name get_host_name
  keep_name-named (named found, w) v name e = ap (λ n. (n, again n, v)) e
    where
      again : Name → Option Bytes
      again (named n) = some n
      again exec_failed = none
  keep_name-named (exec_failed, w) v name e = absurd (exec_failed-named name e)

  -- A name that was once found is returned ever after, without a call.
  pub get_host_name-again :
      (w v : W) (cached : Option Bytes) (name : Bytes)
      → (get_host_name gethostname cached w).0 ≡ named name
      → get_host_name gethostname (get_host_name gethostname cached w).1 v
        ≡ (named name, some name, v)
  unfolding get_host_name
  get_host_name-again w v (some found) name e = ground arith
  get_host_name-again w v none name e =
      keep_name-named (get_host_without_buffer gethostname w) v name e
