-- ===== src/Address/Order.antt =====
-- src/net/address.cpp: the operators `<`, `==` and `!=` of SockAddress.
use net_base.Base.{
  ==_iff, ap₂, inl, inr, lt→ltb, le→not-ltb, Bool-cases, inl, Bool-cases, le→not-ltb, lt→ltb, ℕ,
  zero, suc, ◌≡◌, refl, sym, ap, ◌∙◌, Bool, true, false, not, ◌&&◌, [], ◌∷◌, Bytes, ltb, ◌==◌, min,
  if◌then◌else◌, length, arith,
}
use net_base.Address.{SockAddress, addr, addr_len}

-- The sign of the result of memcmp.
pub data Sign : Type 0 where
  negative equal positive : Sign

-- memcmp of the first `n` bytes; behind the end of a list it reads zeros.
pub memcmp : ℕ → Bytes → Bytes → Sign
memcmp (suc n) (a ∷ s) (b ∷ t) =
    let rest = memcmp n s t in if ltb a b then negative else if ltb b a then positive else rest
memcmp _ _ _ = equal

pub by_length : ℕ → ℕ → Sign → Bool
by_length m n negative = true
by_length m n positive = false
by_length m n equal = ltb m n

-- operator<
unfoldable pub less : SockAddress → SockAddress → Bool
unfolding memcmp by_length
less a b =
    by_length (addr_len a) (addr_len b) (memcmp (min (addr_len a) (addr_len b)) (addr a) (addr b))

pub is_equal : Sign → Bool
is_equal equal = true
is_equal _ = false

-- operator==
unfoldable pub same : SockAddress → SockAddress → Bool
unfolding memcmp is_equal
same a b = addr_len a == addr_len b && is_equal (memcmp (addr_len a) (addr a) (addr b))

-- operator!=
pub differs : SockAddress → SockAddress → Bool
unfolding same
differs a b = not (same a b)

-- The reference: texts of bytes in the order of a dictionary, a prefix before the longer text.
abbrev pub lex : Bytes → Bytes → Bool
lex s [] = false
lex [] (b ∷ t) = true
lex (a ∷ s) (b ∷ t) = if ltb a b then true else if ltb b a then false else lex s t

abbrev pub IsLaidOut : SockAddress → Type 0
IsLaidOut a = length (addr a) ≡ addr_len a

min-suc : (m n : ℕ) → min (suc m) (suc n) ≡ suc (min m n)
min-suc m n = omega arith

ltb-suc : (m n : ℕ) → ltb (suc m) (suc n) ≡ ltb m n
ltb-suc m n = ground arith

by_length-suc : (m n : ℕ) (r : Sign) → by_length (suc m) (suc n) r ≡ by_length m n r
unfolding by_length
by_length-suc m n negative = refl
by_length-suc m n positive = refl
by_length-suc m n equal = ltb-suc m n

memcmp-nil : (n : ℕ) (t : Bytes) → memcmp n [] t ≡ equal
unfolding memcmp
memcmp-nil zero t = refl
memcmp-nil (suc n) t = refl

memcmp-nil_right : (n : ℕ) (s : Bytes) → memcmp n s [] ≡ equal
unfolding memcmp
memcmp-nil_right zero s = refl
memcmp-nil_right (suc n) [] = refl
memcmp-nil_right (suc n) (a ∷ s) = refl

pub by_length-lex :
    (s t : Bytes)
    → by_length (length s) (length t) (memcmp (min (length s) (length t)) s t) ≡ lex s t
unfolding memcmp by_length
by_length-lex [] [] = refl
by_length-lex [] (b ∷ t) =
    rw (memcmp-nil (min 0 (suc (length t))) (b ∷ t)) (lt→ltb 0 (suc (length t)) (omega arith))
by_length-lex (a ∷ s) [] =
    rw (memcmp-nil_right (min (suc (length s)) 0) (a ∷ s))
      (le→not-ltb (suc (length s)) 0 (omega arith))
by_length-lex (a ∷ s) (b ∷ t) = rw (min-suc (length s) (length t)) (elim (Bool-cases (ltb a b)) [
  | inl l ↦ rw l refl
  | inr l ↦ elim (Bool-cases (ltb b a)) [
    | inl g ↦ rw (l, g) refl
    | inr g ↦ rw (l, g) (by_length-suc (length s) (length t) _ ∙ by_length-lex s t)
  ]
])

-- Addresses are ordered by their bytes in the order of a dictionary, where an address that is the
-- beginning of another comes first.
pub less-lex : (a b : SockAddress) → IsLaidOut a → IsLaidOut b → less a b ≡ lex (addr a) (addr b)
unfolding less
less-lex a b l m = rw (sym l, sym m) (by_length-lex (addr a) (addr b))

lex_trans : (s t u : Bytes) → lex s t ≡ true → lex t u ≡ true → lex s u ≡ true
lex_trans s t [] h g = cc
lex_trans s [] (c ∷ u) h g = cc
lex_trans [] (b ∷ t) (c ∷ u) h g = refl
lex_trans (a ∷ s) (b ∷ t) (c ∷ u) h g = ground (arith, h, g, lex_trans s t u)

lex_asym : (s t : Bytes) → lex s t ≡ true → lex t s ≡ false
lex_asym s [] h = cc
lex_asym [] (b ∷ t) h = refl
lex_asym (a ∷ s) (b ∷ t) h = ground (arith, h, lex_asym s t)

heads : (a b : ℕ) (s t : Bytes) → lex (a ∷ s) (b ∷ t) ≡ false → lex (b ∷ t) (a ∷ s) ≡ false → a ≡ b
heads a b s t h g = ground (arith, h, g)

tails :
    (a b : ℕ) (s t : Bytes)
    → lex (a ∷ s) (b ∷ t) ≡ false
    → lex (b ∷ t) (a ∷ s) ≡ false
    → lex s t ≡ false
tails a b s t h g = ground (arith, h, g)

lex_connected : (s t : Bytes) → lex s t ≡ false → lex t s ≡ false → s ≡ t
lex_connected [] [] h g = refl
lex_connected [] (b ∷ t) h g = cc
lex_connected (a ∷ s) [] h g = cc
lex_connected (a ∷ s) (b ∷ t) h g =
    ap₂ ◌∷◌ (heads a b s t h g) (lex_connected s t (tails a b s t h g) (tails b a t s g h))

lex_irrefl : (s : Bytes) → lex s s ≡ false
lex_irrefl [] = refl
lex_irrefl (a ∷ s) = ground (arith, lex_irrefl s)

memcmp_refl : (n : ℕ) (s : Bytes) → memcmp n s s ≡ equal
unfolding memcmp
memcmp_refl zero s = refl
memcmp_refl (suc n) [] = refl
memcmp_refl (suc n) (a ∷ s) = rw (le→not-ltb a a (omega arith)) (memcmp_refl n s)

memcmp_exact : (s t : Bytes) → length s ≡ length t → is_equal (memcmp (length s) s t) ≡ true → s ≡ t
unfolding memcmp is_equal
memcmp_exact [] [] e h = refl
memcmp_exact [] (b ∷ t) e h = absurd (omega arith)
memcmp_exact (a ∷ s) [] e h = absurd (omega arith)
memcmp_exact (a ∷ s) (b ∷ t) e h = elim (Bool-cases (ltb a b)) [
  | inl l ↦ absurd (ground (arith, l, h))
  | inr l ↦ elim (Bool-cases (ltb b a)) [
    | inl g ↦ absurd (ground (arith, l, g, h))
    | inr g ↦
        ap₂ ◌∷◌ (ground (arith, l, g)) (memcmp_exact s t (omega arith) (ground (arith, l, g, h)))
  ]
]

same_exact : (a b : SockAddress) → IsLaidOut a → IsLaidOut b → addr a ≡ addr b → same a b ≡ true
unfolding same is_equal
same_exact a b l m e = ap₂ ◌&&◌ ((==_iff (addr_len a) (addr_len b)).1 (sym l ∙ ap length e ∙ m)) (
    ap (λ t. is_equal (memcmp (addr_len a) (addr a) t)) (sym e)
    ∙ ap is_equal (memcmp_refl (addr_len a) (addr a)))

false-true : (false ≡ true) → ⊥
false-true h = cc

and-both : (p q : Bool) → (p && q) ≡ true → (p ≡ true) × (q ≡ true)
and-both true true h = (refl, refl)
and-both true false h = cc
and-both false q h = cc

exact_same : (a b : SockAddress) → IsLaidOut a → IsLaidOut b → same a b ≡ true → addr a ≡ addr b
unfolding same
exact_same a b l m h =
    let (p, q) = and-both (addr_len a == addr_len b) _ h in
    memcmp_exact (addr a) (addr b) (l ∙ (==_iff (addr_len a) (addr_len b)).0 p ∙ sym m)
      (ap (λ n. is_equal (memcmp n (addr a) (addr b))) l ∙ q)

not_same :
    (a b : SockAddress)
    → IsLaidOut a
    → IsLaidOut b
    → lex (addr a) (addr b) ≡ true
    → same a b ≡ false
not_same a b l m h = elim (Bool-cases (same a b)) [
  | inl s ↦
      absurd (false-true (sym (lex_irrefl (addr a)) ∙ ap (lex (addr a)) (exact_same a b l m s) ∙ h))
  | inr s ↦ s
]

-- For addresses whose bytes are as many as their length says: `<` is transitive, if a < b then
-- neither b < a nor a == b, and if neither is less then they are equal.
pub less-same_order :
    (a b c : SockAddress)
    → IsLaidOut a
    → IsLaidOut b
    → IsLaidOut c
    → (less a b ≡ true → less b c ≡ true → less a c ≡ true)
      × (less a b ≡ true → (less b a ≡ false) × (same a b ≡ false))
      × (less a b ≡ false → less b a ≡ false → same a b ≡ true)
less-same_order a b c l m n = (
  λ h g.
      less-lex a c l n
      ∙ lex_trans (addr a) (addr b) (addr c) (sym (less-lex a b l m) ∙ h)
          (sym (less-lex b c m n) ∙ g),
  λ h.
      let g = lex_asym (addr a) (addr b) (sym (less-lex a b l m) ∙ h) in
      (less-lex b a m l ∙ g, not_same a b l m (sym (less-lex a b l m) ∙ h)),
  λ h g.
      same_exact a b l m
        (lex_connected (addr a) (addr b) (sym (less-lex a b l m) ∙ h) (sym (less-lex b a m l) ∙ g)),
)
