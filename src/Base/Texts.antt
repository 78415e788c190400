-- ===== src/Base/Texts.antt =====
-- Texts as lists of bytes: literals, letters, digits and the number that digits spell.
use Prim.Native.Char.{code}
use Prim.Native.String.{String}
use Prim.Native.Nat.{ℕ, ◌+◌, ◌-◌, ◌*◌, ◌≤◌}
use mathlib.Core.Path.{◌≡◌, refl}
use mathlib.Core.Bool.{false, true, Bool, ◌&&◌, ◌||◌}
use mathlib.Core.List.{List, [], ◌∷◌, ◌++◌}
use native.Mathlib.Omega.{arith}
use mathlib.Core.Option.{Option, none, some}
use net_base.Base.Tests.{◌==◌, ==_refl, leb, if◌then◌else◌}

abbrev pub Bytes : Type 0
Bytes = List ℕ

-- The code points of a literal; these are its bytes when the text is ASCII.
abbrev pub codes : String → Bytes
codes String.[] = []
codes (String.◌∷◌ c s) = code c ∷ codes s

abbrev pub is_digit : ℕ → Bool
is_digit c = leb b'0' c && leb c b'9'

-- ::isalpha in the C locale.
abbrev pub is_alpha : ℕ → Bool
is_alpha c = leb b'a' c && leb c b'z' || leb b'A' c && leb c b'Z'

-- ::toupper in the C locale.
abbrev pub to_upper : ℕ → ℕ
to_upper c = if leb b'a' c && leb c b'z' then c - 32 else c

abbrev pub IsDigit : ℕ → Type 0
IsDigit c = (b'0' ≤ c) × (c ≤ b'9')

-- The number that digits spell behind `n`.
abbrev pub value : ℕ → Bytes → ℕ
value n [] = n
value n (c ∷ s) = value (n * 10 + (c - b'0')) s

pub value-append : (n : ℕ) (s t : Bytes) → value n (s ++ t) ≡ value (value n s) t
value-append n [] t = refl
value-append n (c ∷ s) t = value-append (n * 10 + (c - b'0')) s t

pub le-value : (n : ℕ) (s : Bytes) → n ≤ value n s
le-value n [] = omega arith
le-value n (c ∷ s) = omega (arith, le-value (n * 10 + (c - b'0')) s)

-- The equality of texts.
abbrev pub equals : Bytes → Bytes → Bool
equals [] [] = true
equals (a ∷ s) (b ∷ t) = a == b && equals s t
equals _ _ = false

pub equals_refl : (s : Bytes) → equals s s ≡ true
equals_refl [] = refl
equals_refl (c ∷ s) = rw (==_refl c) (equals_refl s)

-- A map from texts as the list of its entries, of which the first counts.
abbrev pub find {ℓ} : {A : Type ℓ} → Bytes → List (Bytes × A) → Option A
find key [] = none
find key (e ∷ entries) = if equals e.0 key then some e.1 else find key entries

pub find-here {ℓ} :
    {A : Type ℓ} (key : Bytes) (a : A) (entries : List (Bytes × A))
    → find key ((key, a) ∷ entries) ≡ some a
find-here key a entries = rw (equals_refl key) refl
