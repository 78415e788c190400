-- ===== src/Base/Families.antt =====
-- Families indexed by numbers: threads, addresses.
use mathlib.Core.Path.{◌≡◌}
use mathlib.Core.Logic.{◌≢◌}
use native.Mathlib.Omega.{arith}
use net_base.Base.Tests.{◌==◌, if◌then◌else◌, ==-ne}
use Prim.Native.Nat.{ℕ}

-- One entry replaced.
abbrev pub update {ℓ} : {A : Type ℓ} → (ℕ → A) → ℕ → A → ℕ → A
update f i x j = if j == i then x else f j

pub update-same {ℓ} : {A : Type ℓ} (f : ℕ → A) (i : ℕ) (x : A) → update f i x i ≡ x
update-same f i x = ground arith

pub update-other {ℓ} :
    {A : Type ℓ} (f : ℕ → A) (i : ℕ) (x : A) (j : ℕ) → j ≢ i → update f i x j ≡ f j
update-other f i x j ne = rw (==-ne j i ne)
