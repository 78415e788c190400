-- ===== src/Strings/Joining.antt =====
-- `splitStringPiece` of src/base/string_piece.cpp undoes `join` for a separator of one byte.
use net_base.Base.{
  append-nil, ℕ, zero, suc, ◌+◌, ◌≤◌, ◌<◌, ◌≡◌, ◌≢◌, refl, sym, ap, ap₂, ◌∙◌, List, [], ◌∷◌, ◌++◌,
  none, some, Bytes, ==-ne, ==_refl, length, length-append, drop, take, take-append_exact, All,
  arith, map, append_assoc, sub64, add64, word64,
}
use net_base.Strings.{find_word, split_loop, split_string_piece, piece_text, join, starts_with}

find_word-append :
    (c : ℕ) (s t : Bytes) → All (λ d. d ≢ c) s → find_word (c ∷ []) (s ++ (c ∷ t)) ≡ some (length s)
unfolding find_word starts_with
find_word-append c [] t h = rw (==_refl c) refl
find_word-append c (d ∷ s) t (n, h) = rw (==-ne c d (λ e. n (sym e)), find_word-append c s t h) refl

find_word-none : (c : ℕ) (s : Bytes) → All (λ d. d ≢ c) s → find_word (c ∷ []) s ≡ none
unfolding find_word starts_with
find_word-none c [] h = refl
find_word-none c (d ∷ s) (n, h) = rw (==-ne c d (λ e. n (sym e)), find_word-none c s h) refl

drop-append : (xs ys : Bytes) → drop (length xs) (xs ++ ys) ≡ ys
drop-append [] ys = refl
drop-append (x ∷ xs) ys = drop-append xs ys

-- The length of a piece before a separator of one byte.
piece_length : (n : ℕ) → n < word64 → add64 (sub64 n 1) 1 ≡ n
piece_length n h = omega (arith, h)

piece_text-append :
    (before s after : Bytes) → piece_text (before ++ (s ++ after)) (length before, length s) ≡ s
unfolding piece_text
piece_text-append before s after =
    ap (take (length s)) (drop-append before (s ++ after))
    ∙ take-append_exact (length s) s after refl

-- The parts hold no separator, and the last one is not empty.
abbrev pub AreParts : ℕ → List Bytes → Type 0
AreParts c [] = Unit {0}
AreParts c (s ∷ []) = All (λ d. d ≢ c) s × (s ≢ [])
AreParts c (s ∷ t ∷ parts) = All (λ d. d ≢ c) s × AreParts c (t ∷ parts)

split_loop-some :
    (fuel index n c : ℕ) (rest : Bytes)
    → find_word (c ∷ []) rest ≡ some n
    → n < word64
    → split_loop (suc fuel) (c ∷ []) index rest
      ≡ (index, n) ∷ split_loop fuel (c ∷ []) (index + n + 1) (drop (n + 1) rest)
unfolding split_loop
split_loop-some fuel index n c [] e l = absurd (none-some (sym (nothing c) ∙ e))
  where
    nothing : (c : ℕ) → find_word (c ∷ []) [] ≡ none
    nothing c = find_word-none c [] tt

    none-some : (none ≡ some n) → ⊥
    none-some e = cc
split_loop-some fuel index n c (d ∷ rest) e l =
    ap
      (λ o. elim o as (λ x. List (ℕ × ℕ)) [
        | some n ↦
            (index, add64 (sub64 n 1) 1)
            ∷ split_loop fuel (c ∷ []) (index + n + 1) (drop (n + 1) (d ∷ rest))
        | none ↦ (index, suc (length rest)) ∷ []
      ])
      e
    ∙ ap (λ m. (index, m) ∷ split_loop fuel (c ∷ []) (index + n + 1) (drop (n + 1) (d ∷ rest)))
        (piece_length n l)

split_loop-none :
    (fuel index c : ℕ) (rest : Bytes)
    → find_word (c ∷ []) rest ≡ none
    → rest ≢ []
    → split_loop (suc fuel) (c ∷ []) index rest ≡ (index, length rest) ∷ []
unfolding split_loop
split_loop-none fuel index c [] e n = absurd (n refl)
split_loop-none fuel index c (d ∷ rest) e n =
    ap
      (λ o. elim o as (λ x. List (ℕ × ℕ)) [
        | some n ↦
            (index, add64 (sub64 n 1) 1)
            ∷ split_loop fuel (c ∷ []) (index + n + 1) (drop (n + 1) (d ∷ rest))
        | none ↦ (index, suc (length rest)) ∷ []
      ])
      e

nonempty : (s : Bytes) → s ≢ [] → length s ≤ 0 → ⊥
nonempty [] n l = n refl
nonempty (d ∷ s) n l = omega (arith, l)

-- Behind a separator the loop goes on as from the end of a longer text before it.
after_separator :
    (s others before : Bytes) (fuel c : ℕ)
    → map (piece_text (before ++ (s ++ (c ∷ others)))) (
        split_loop fuel
          (c ∷ [])
          (length before + length s + 1)
          (drop (length s + 1) (s ++ (c ∷ others))))
      ≡ map
          (piece_text ((before ++ (s ++ c ∷ [])) ++ others))
          (split_loop fuel (c ∷ []) (length (before ++ (s ++ c ∷ []))) others)
after_separator s others before fuel c =
    let here = sym (append_assoc s (c ∷ []) others) in
    let index : length before + length s + 1 ≡ length (before ++ (s ++ c ∷ [])) =
      omega (arith, length-append before (s ++ c ∷ []), length-append s (c ∷ [])) in
    let step : length s + 1 ≡ length (s ++ c ∷ []) = omega (arith, length-append s (c ∷ [])) in
    let left : drop (length s + 1) (s ++ (c ∷ others)) ≡ others =
      ap₂ drop step here ∙ drop-append (s ++ c ∷ []) others in
    let whole : before ++ (s ++ (c ∷ others)) ≡ (before ++ (s ++ c ∷ [])) ++ others =
      ap (λ t. before ++ t) here ∙ sym (append_assoc before (s ++ c ∷ []) others) in
    λ i. map (piece_text (whole i)) (split_loop fuel (c ∷ []) (index i) (left i))

split_loop-join :
    (fuel c : ℕ) (before : Bytes) (parts : List Bytes)
    → AreParts c parts
    → length (join (c ∷ []) parts) ≤ fuel
    → length (join (c ∷ []) parts) < word64
    → map
        (piece_text (before ++ join (c ∷ []) parts))
        (split_loop fuel (c ∷ []) (length before) (join (c ∷ []) parts))
      ≡ parts
unfolding split_loop join
split_loop-join fuel c before [] h l w = refl
split_loop-join zero c before (s ∷ []) (a, n) l w = absurd (nonempty s n l)
split_loop-join (suc fuel) c before (s ∷ []) (a, n) l w =
    ap (map (piece_text (before ++ s)))
      (split_loop-none fuel (length before) c s (find_word-none c s a) n)
    ∙ ap (λ t. t ∷ [])
        (ap (λ t. piece_text (before ++ t) (length before, length s)) (sym (append-nil s))
          ∙ piece_text-append before s [])
split_loop-join zero c before (s ∷ t ∷ parts) (a, h) l w =
    absurd (omega (arith, l, length-append s (c ∷ join (c ∷ []) (t ∷ parts))))
split_loop-join (suc fuel) c before (s ∷ t ∷ parts) (a, h) l w =
    let others = join (c ∷ []) (t ∷ parts) in
    let size = length-append s (c ∷ others) in
    ap (map (piece_text (before ++ (s ++ (c ∷ others))))) (
      split_loop-some fuel (length before) (length s) c (s ++ (c ∷ others))
        (find_word-append c s others a) (omega (arith, w, size)))
    ∙ ap₂ ◌∷◌ (piece_text-append before s (c ∷ others)) (
        after_separator s others before fuel c
        ∙ split_loop-join fuel c (before ++ (s ++ c ∷ [])) (t ∷ parts) h (omega (arith, l, size))
            (omega (arith, w, size)))

-- Parts without the separator byte, of which the last is not empty, together below 2 ^ 64 bytes,
-- are joined by that byte and split into the same parts again.
pub split_string_piece-join :
    (c : ℕ) (parts : List Bytes)
    → AreParts c parts
    → length (join (c ∷ []) parts) < word64
    → map (piece_text (join (c ∷ []) parts)) (split_string_piece (join (c ∷ []) parts) (c ∷ []))
      ≡ parts
unfolding split_string_piece
split_string_piece-join c parts h w =
    split_loop-join (length (join (c ∷ []) parts)) c [] parts h (omega arith) w
