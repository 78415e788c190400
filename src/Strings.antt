-- ===== src/Strings.antt =====
-- src/base/string_piece.cpp and include/base/lstring.h: `splitStringPiece` and `join`. A
-- StringPiece is a place in the text and a length.
pub mod Joining
mod Tests
use net_base.Base.{
  ℕ, zero, suc, ◌+◌, Bool, true, false, ◌&&◌, List, [], ◌∷◌, ◌++◌, Option, none, some, Bytes, ◌==◌,
  if◌then◌else◌, length, drop, take, sub64, add64, map,
}

pub starts_with : Bytes → Bytes → Bool
starts_with [] s = true
starts_with (w ∷ word) [] = false
starts_with (w ∷ word) (c ∷ s) = w == c && starts_with word s

-- str_v.find: how far on the word stands first.
pub find_word : Bytes → Bytes → Option ℕ
unfolding starts_with
find_word word [] = none
find_word word (c ∷ s) =
    let later = find_word word s in
    if starts_with word (c ∷ s) then some 0 else elim later [ some n ↦ some (suc n) | none ↦ none ]

-- The loop from `index` on, where `rest` begins; a word of several bytes is stepped over by one
-- byte only, and shortens the piece before it. On fuel for the length of the text.
pub split_loop : ℕ → Bytes → ℕ → Bytes → List (ℕ × ℕ)
unfolding find_word
split_loop fuel word index [] = []
split_loop zero word index (c ∷ rest) = []
split_loop (suc fuel) word index (c ∷ rest) = elim (find_word word (c ∷ rest)) [
  | some n ↦
      (index, add64 (sub64 n (length word)) 1)
      ∷ split_loop fuel word (index + n + 1) (drop (n + 1) (c ∷ rest))
  | none ↦ (index, suc (length rest)) ∷ []
]

-- splitStringPiece
unfoldable pub split_string_piece : Bytes → Bytes → List (ℕ × ℕ)
unfolding split_loop
split_string_piece str_v [] = []
split_string_piece str_v (w ∷ word) = split_loop (length str_v) (w ∷ word) 0 str_v

-- The text of a piece.
unfoldable pub piece_text : Bytes → ℕ × ℕ → Bytes
piece_text str_v p = take p.1 (drop p.0 str_v)

-- join
unfoldable pub join : Bytes → List Bytes → Bytes
join break_ [] = []
join break_ (s ∷ []) = s
join break_ (s ∷ t ∷ container) = s ++ (break_ ++ join break_ (t ∷ container))
