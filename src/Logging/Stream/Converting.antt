-- ===== src/Logging/Stream/Converting.antt =====
-- `convert` of src/logging/LogSStream.cpp against the decimal digits of a number.
use net_base.Base.{
  ==-ne, digits_cases, append_assoc, ℕ, zero, suc, ◌+◌, ◌/◌, ◌%◌, ◌<◌, ◌≡◌, refl, sym, ap, ◌∙◌,
  Bool, true, false, [], ◌∷◌, ◌++◌, Bytes, ◌==◌, ℤ, pos, negsuc, digits, decimal, arith,
}
use mathlib.Core.List.{append-nil, reverse_aux}
use net_base.Logging.Stream.{neg, rem10, div10, is_zero, zero_at, convert_loop, minus, convert}

-- The table on both sides of its middle.
zero_at-pos : (k : ℕ) → k < 10 → zero_at (pos k) ≡ b'0' + k
unfolding zero_at
zero_at-pos zero h = refl
zero_at-pos (suc zero) h = refl
zero_at-pos (suc (suc zero)) h = refl
zero_at-pos (suc (suc (suc zero))) h = refl
zero_at-pos (suc (suc (suc (suc zero)))) h = refl
zero_at-pos (suc (suc (suc (suc (suc zero))))) h = refl
zero_at-pos (suc (suc (suc (suc (suc (suc zero)))))) h = refl
zero_at-pos (suc (suc (suc (suc (suc (suc (suc zero))))))) h = refl
zero_at-pos (suc (suc (suc (suc (suc (suc (suc (suc zero)))))))) h = refl
zero_at-pos (suc (suc (suc (suc (suc (suc (suc (suc (suc zero))))))))) h = refl
zero_at-pos (suc (suc (suc (suc (suc (suc (suc (suc (suc (suc k)))))))))) h =
    absurd (omega (arith, h))

zero_at-neg : (k : ℕ) → k < 10 → zero_at (neg k) ≡ b'0' + k
unfolding zero_at
zero_at-neg zero h = refl
zero_at-neg (suc zero) h = refl
zero_at-neg (suc (suc zero)) h = refl
zero_at-neg (suc (suc (suc zero))) h = refl
zero_at-neg (suc (suc (suc (suc zero)))) h = refl
zero_at-neg (suc (suc (suc (suc (suc zero))))) h = refl
zero_at-neg (suc (suc (suc (suc (suc (suc zero)))))) h = refl
zero_at-neg (suc (suc (suc (suc (suc (suc (suc zero))))))) h = refl
zero_at-neg (suc (suc (suc (suc (suc (suc (suc (suc zero)))))))) h = refl
zero_at-neg (suc (suc (suc (suc (suc (suc (suc (suc (suc zero))))))))) h = refl
zero_at-neg (suc (suc (suc (suc (suc (suc (suc (suc (suc (suc k)))))))))) h =
    absurd (omega (arith, h))

-- The number that is left, and the digit, whatever the sign: `sign` is `pos` or `neg`.
abbrev IsSign : (ℕ → ℤ) → Type 0
IsSign sign =
    ((n : ℕ) → rem10 (sign n) ≡ sign (n % 10))
    × ((n : ℕ) → div10 (sign n) ≡ sign (n / 10))
    × ((n : ℕ) → is_zero (sign n) ≡ (n == 0))
    × ((k : ℕ) → k < 10 → zero_at (sign k) ≡ b'0' + k)

pos-IsSign : IsSign pos
unfolding rem10 div10 is_zero
pos-IsSign = (λ n. refl, λ n. refl, λ n. refl, zero_at-pos)

rem10-neg : (n : ℕ) → rem10 (neg n) ≡ neg (n % 10)
unfolding rem10
rem10-neg zero = refl
rem10-neg (suc n) = refl

div10-neg : (n : ℕ) → div10 (neg n) ≡ neg (n / 10)
unfolding div10
div10-neg zero = refl
div10-neg (suc n) = refl

is_zero-neg : (n : ℕ) → is_zero (neg n) ≡ (n == 0)
unfolding is_zero
is_zero-neg zero = refl
is_zero-neg (suc n) = sym (==-ne (suc n) 0 (λ e. omega (arith, e)))

neg-IsSign : IsSign neg
neg-IsSign = (rem10-neg, div10-neg, is_zero-neg, zero_at-neg)

abbrev round : Bool → ℕ → Bytes → Bytes
round b c rest = elim b [ true ↦ c ∷ [] | false ↦ c ∷ rest ]

convert_loop-step :
    (sign : ℕ → ℤ) (fuel n : ℕ)
    → IsSign sign
    → convert_loop (suc fuel) (sign n)
      ≡ round (n / 10 == 0) (b'0' + n % 10) (convert_loop fuel (sign (n / 10)))
unfolding convert_loop
convert_loop-step sign fuel n (rem, div, is_zero_, zero_at_) =
    let eb : is_zero (div10 (sign n)) ≡ (n / 10 == 0) = ap is_zero (div n) ∙ is_zero_ (n / 10) in
    let ec : zero_at (rem10 (sign n)) ≡ b'0' + n % 10 =
      ap zero_at (rem n) ∙ zero_at_ (n % 10) (omega arith) in
    λ k. round (eb k) (ec k) (convert_loop fuel (div n k))

-- The loop's digits, turned around.
reverse_aux-convert_loop :
    (sign : ℕ → ℤ) (fuel n : ℕ) (r : Bytes)
    → IsSign sign
    → reverse_aux (convert_loop fuel (sign n)) r ≡ digits fuel n ++ r
unfolding convert_loop
reverse_aux-convert_loop sign zero n r h = refl
reverse_aux-convert_loop sign (suc fuel) n r h =
    digits_cases (λ s. reverse_aux (convert_loop (suc fuel) (sign n)) r ≡ s ++ r) fuel n
      (λ l.
        let quotient : n / 10 ≡ 0 = omega (arith, l) in
        let remainder : n % 10 ≡ n = omega (arith, l) in
        ap (λ s. reverse_aux s r) (convert_loop-step sign fuel n h) ∙ rw (quotient, remainder) refl)
      (λ l.
        ap (λ s. reverse_aux s r) (convert_loop-step sign fuel n h)
        ∙ rw (==-ne (n / 10) 0 (λ e. omega (arith, l, e))) (
            reverse_aux-convert_loop sign fuel (n / 10) ((b'0' + n % 10) ∷ r) h
            ∙ sym (append_assoc (digits fuel (n / 10)) ((b'0' + n % 10) ∷ []) r)))

-- The reference: the decimal digits, behind a minus if the number is negative.
abbrev pub printed : ℤ → Bytes
printed (pos n) = decimal n
printed (negsuc n) = b'-' ∷ decimal (suc n)

reverse_aux-append : (s t r : Bytes) → reverse_aux (s ++ t) r ≡ reverse_aux t (reverse_aux s r)
reverse_aux-append [] t r = refl
reverse_aux-append (c ∷ s) t r = reverse_aux-append s t (c ∷ r)

-- The conversion prints every integer as its decimal digits, behind a minus if it is negative.
pub convert-printed : (value : ℤ) → convert value ≡ printed value
unfolding convert minus
convert-printed (pos n) =
    reverse_aux-append (convert_loop (suc n) (pos n)) [] []
    ∙ reverse_aux-convert_loop pos (suc n) n [] pos-IsSign
    ∙ append-nil (decimal n)
convert-printed (negsuc n) =
    reverse_aux-append (convert_loop (suc (suc n)) (negsuc n)) (b'-' ∷ []) []
    ∙ ap (◌∷◌ b'-') (
        reverse_aux-convert_loop neg (suc (suc n)) (suc n) [] neg-IsSign
        ∙ append-nil (decimal (suc n)))
