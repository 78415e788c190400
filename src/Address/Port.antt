-- ===== src/Address/Port.antt =====
-- src/net/address.cpp: `getPortFromString`, against the number that the digits spell.
use net_base.Base.{
  ℕ, ◌+◌, ◌-◌, ◌*◌, ◌≤◌, ◌<◌, ◌≡◌, refl, sym, ap, ◌∙◌, Bool, true, false, ◌&&◌, ◌||◌, [], ◌∷◌,
  Option, none, some, Bytes, ltb, if◌then◌else◌, length, arith, value, le-value, is_digit, All,
  IsDigit, decimal, value-decimal, decimal-IsDigit, length-decimal, Bool-cases, inl, inr,
  le→not-ltb, lt→ltb, ltb→lt, not-ltb→le,
}

-- The loop over the characters; it stops at the first that is no digit or makes the number large.
pub read_port : ℕ → Bytes → Option ℕ
read_port n [] = some n
read_port n (c ∷ s) =
    let m = n * 10 + (c - b'0') in
    let rest = read_port m s in
    if ltb b'9' c || ltb c b'0' then none else if ltb m 65536 then rest else none

-- getPortFromString
unfoldable pub get_port_from_string : Bytes → Option ℕ
unfolding read_port
get_port_from_string port = if ltb 5 (length port) then none else read_port 0 port

abbrev pub are_digits : Bytes → Bool
are_digits [] = true
are_digits (c ∷ s) = is_digit c && are_digits s

-- The reference: digits only, and the whole number below 65536.
abbrev pub port_of : ℕ → Bytes → Option ℕ
port_of n s = if are_digits s && ltb (value n s) 65536 then some (value n s) else none

outside : (c : ℕ) → is_digit c ≡ false → (ltb b'9' c || ltb c b'0') ≡ true
outside c h = ground arith

not_outside : (c : ℕ) → is_digit c ≡ true → (ltb b'9' c || ltb c b'0') ≡ false
not_outside c h = ground arith

inside : (c : ℕ) → b'0' ≤ c → c ≤ b'9' → is_digit c ≡ true
inside c l g = ground arith

port_of-large : (n : ℕ) (s : Bytes) → 65536 ≤ n → port_of n s ≡ none
port_of-large n s h = elim (Bool-cases (are_digits s)) [
  | inl d ↦ rw (d, le→not-ltb (value n s) 65536 (omega (arith, h, le-value n s))) refl
  | inr d ↦ rw d refl
]

read_port-port_of : (n : ℕ) (s : Bytes) → n < 65536 → read_port n s ≡ port_of n s
unfolding read_port
read_port-port_of n [] h = rw (lt→ltb n 65536 h) refl
read_port-port_of n (c ∷ s) h = elim (Bool-cases (is_digit c)) [
  | inl d ↦ elim (Bool-cases (ltb (n * 10 + (c - b'0')) 65536)) [
    | inl small ↦
        rw (not_outside c d, d, small)
          (read_port-port_of (n * 10 + (c - b'0')) s (ltb→lt _ 65536 small))
    | inr large ↦
        rw (not_outside c d, d, large)
          (sym
            (port_of-large (n * 10 + (c - b'0')) s (not-ltb→le (n * 10 + (c - b'0')) 65536 large)))
  ]
  | inr d ↦ rw (outside c d, d) refl
]

-- For every text the loop with its early exits agrees with a test of the whole: a text of at
-- most five bytes, all of them digits, whose number is below 65536, is that number, and any
-- other text is refused.
pub get_port_from_string-port_of :
    (port : Bytes)
    → get_port_from_string port ≡ (if ltb 5 (length port) then none else port_of 0 port)
unfolding get_port_from_string
get_port_from_string-port_of port =
    ap (λ r. if ltb 5 (length port) then none else r) (read_port-port_of 0 port (omega arith))

are_digits-All : (s : Bytes) → All IsDigit s → are_digits s ≡ true
are_digits-All [] h = refl
are_digits-All (c ∷ s) ((l, g), h) = rw (inside c l g) (are_digits-All s h)

-- The decimal digits of a port are read back as the port.
pub get_port_from_string-decimal :
    (port : ℕ) → port < 65536 → get_port_from_string (decimal port) ≡ some port
get_port_from_string-decimal port h =
    get_port_from_string-port_of (decimal port)
    ∙ rw
        (
          le→not-ltb 5 (length (decimal port)) (length-decimal 4 port (omega (arith, h))),
          are_digits-All (decimal port) (decimal-IsDigit port),
          value-decimal port,
          lt→ltb port 65536 h,
        )
        refl
