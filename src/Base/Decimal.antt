-- ===== src/Base/Decimal.antt =====
-- Decimal numbers as the library's formatting (`{}`, `%u`) prints them.
use Prim.Native.Nat.{◌-◌, ℕ, zero, suc, ◌+◌, ◌*◌, ◌/◌, ◌%◌, ◌≤◌, ◌<◌}
use mathlib.Core.Path.{◌≡◌, sym, ap, ◌∙◌, subst}
use mathlib.Core.Bool.{true, false}
use mathlib.Core.List.{List, [], ◌∷◌, ◌++◌}
use native.Mathlib.Omega.{arith}
use native.Mathlib.Decide.{dec_lt}
use net_base.Base.Tests.{ltb, lt→ltb, le→not-ltb}
use net_base.Base.Lists.{All, length, length-append}
use net_base.Base.Texts.{Bytes, IsDigit, value, value-append}

-- On fuel: the number of digits is below the number itself.
abbrev pub digits : ℕ → ℕ → Bytes
digits zero n = []
digits (suc fuel) n = elim (ltb n 10) [
  | true ↦ (b'0' + n) ∷ []
  | false ↦ digits fuel (n / 10) ++ (b'0' + n % 10) ∷ []
]

abbrev pub decimal : ℕ → Bytes
decimal n = digits (suc n) n

abbrev pub power10 : ℕ → ℕ
power10 zero = 1
power10 (suc k) = 10 * power10 k

-- What holds of both shapes of the digits holds of them.
pub digits_cases {ℓ} :
    (P : Bytes → Type ℓ) (fuel n : ℕ)
    → (n < 10 → P ((b'0' + n) ∷ []))
    → (10 ≤ n → P (digits fuel (n / 10) ++ (b'0' + n % 10) ∷ []))
    → P (digits (suc fuel) n)
digits_cases P fuel n small large = elim (dec_lt n 10) [
  | yes h ↦
      subst
        (λ b. P (elim b [
          | true ↦ (b'0' + n) ∷ []
          | false ↦ digits fuel (n / 10) ++ (b'0' + n % 10) ∷ []
        ]))
        (sym (lt→ltb n 10 h)) (small h)
  | no h ↦
      subst
        (λ b. P (elim b [
          | true ↦ (b'0' + n) ∷ []
          | false ↦ digits fuel (n / 10) ++ (b'0' + n % 10) ∷ []
        ]))
        (sym (le→not-ltb n 10 (omega (arith, h)))) (large (omega (arith, h)))
]

pub All-append {ℓ κ} :
    {A : Type ℓ} (P : A → Type κ) (xs ys : List A) → All P xs → All P ys → All P (xs ++ ys)
All-append P [] ys h g = g
All-append P (x ∷ xs) ys (p, h) g = (p, All-append P xs ys h g)

value-digits : (fuel n : ℕ) → n < fuel → value 0 (digits fuel n) ≡ n
value-digits zero n l = absurd (omega (arith, l))
value-digits (suc fuel) n l =
    digits_cases (λ s. value 0 s ≡ n) fuel n (λ h. omega arith)
      (λ h.
        value-append 0 (digits fuel (n / 10)) ((b'0' + n % 10) ∷ [])
        ∙ ap (λ v. v * 10 + (b'0' + n % 10 - b'0'))
            (value-digits fuel (n / 10) (omega (arith, l, h)))
        ∙ omega arith)

digits-IsDigit : (fuel n : ℕ) → All IsDigit (digits fuel n)
digits-IsDigit zero n = tt
digits-IsDigit (suc fuel) n =
    digits_cases (All IsDigit) fuel n (λ h. ((omega arith, omega (arith, h)), tt))
      (λ h.
        All-append IsDigit (digits fuel (n / 10)) ((b'0' + n % 10) ∷ [])
          (digits-IsDigit fuel (n / 10)) ((omega arith, omega arith), tt))

length-digits : (k fuel n : ℕ) → n < power10 (suc k) → length (digits fuel n) ≤ suc k
length-digits k zero n l = omega arith
length-digits zero (suc fuel) n l =
    digits_cases (λ s. length s ≤ 1) fuel n (λ h. omega arith) (λ h. absurd (omega (arith, l, h)))
length-digits (suc k) (suc fuel) n l =
    digits_cases (λ s. length s ≤ suc (suc k)) fuel n (λ h. omega arith)
      (λ h. omega (
        arith,
        length-digits k fuel (n / 10) (omega (arith, l)),
        length-append (digits fuel (n / 10)) ((b'0' + n % 10) ∷ []),
      ))

pub value-decimal : (n : ℕ) → value 0 (decimal n) ≡ n
value-decimal n = value-digits (suc n) n (omega arith)

pub decimal-IsDigit : (n : ℕ) → All IsDigit (decimal n)
decimal-IsDigit n = digits-IsDigit (suc n) n

pub length-decimal : (k n : ℕ) → n < power10 (suc k) → length (decimal n) ≤ suc k
length-decimal k n l = length-digits k (suc n) n l
