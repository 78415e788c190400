-- ===== src/Strings/Tests.antt =====
-- Runs of `splitStringPiece` and `join` on concrete texts.
use net_base.Base.{◌≡◌, refl, List, [], ◌∷◌, Bytes, codes, map, arith}
use net_base.Strings.{split_string_piece, piece_text, join}
use net_base.Strings.Joining.{split_string_piece-join}

abbrev parts : List Bytes
parts = codes "log" ∷ [] ∷ codes "v" ∷ []

split_string_piece-join_example :
    map (piece_text (codes "log..v")) (split_string_piece (codes "log..v") (codes ".")) ≡ parts
unfolding join
split_string_piece-join_example =
    split_string_piece-join b'.' parts
      (
        ((λ e. omega (arith, e)), ((λ e. omega (arith, e)), ((λ e. omega (arith, e)), tt))),
        (tt, (((λ e. omega (arith, e)), tt), (λ e. cc))),
      )
      (omega arith)

-- Behind a separator at the end there is no part.
separator_at_end : split_string_piece (codes "a.") (codes ".") ≡ (0, 1) ∷ []
unfolding split_string_piece
separator_at_end = refl

-- A separator of two bytes cuts a byte off each part, and leaves one of its own in the next.
long_separator : split_string_piece (codes "ab::cd") (codes "::") ≡ (0, 1) ∷ (3, 3) ∷ []
unfolding split_string_piece
long_separator = refl
