-- ===== src/Printing/Parsing.antt =====
-- What `doPrint` of include/base/print_helper.h prints can be read back.
use net_base.Base.{
  ℕ, zero, suc, ◌+◌, ◌≤◌, ◌≡◌, refl, ap, ◌∙◌, Bool, true, false, not, ◌&&◌, ◌||◌, [], ◌∷◌, ◌++◌,
  Option, none, some, Bytes, All, ◌==◌, if◌then◌else◌, ◌>>=◌, arith, append_assoc,
}
use net_base.Printing.{
  Printable, scalar, pair, container, Items, no_items, item, do_print, print_items,
}

-- No byte with which doPrint marks the structure.
abbrev pub is_plain : ℕ → Bool
is_plain c = not (c == b',' || (c == b'{' || (c == b'}' || (c == b'[' || c == b']'))))

-- The plain bytes that a text begins with, and the rest.
pub span : Bytes → Bytes × Bytes
span [] = ([], [])
span (c ∷ s) = let (plain, rest) = span s in if is_plain c then (c ∷ plain, rest) else ([], c ∷ s)

-- The second member of a pair, and its end.
pair_end : Bytes → Bytes × Bytes → Option (Printable × Bytes)
pair_end first (second, []) = none
pair_end first (second, c ∷ []) = none
pair_end first (second, c ∷ d ∷ rest) =
    if c == b']' && d == b' ' then some (pair first second, rest) else none

pair_rest : Bytes × Bytes → Option (Printable × Bytes)
unfolding span pair_end
pair_rest (first, []) = none
pair_rest (first, c ∷ rest) = if c == b',' then pair_end first (span rest) else none

scalar_of : Bytes × Bytes → Option (Printable × Bytes)
scalar_of ([], rest) = none
scalar_of (c ∷ text, rest) = some (scalar (c ∷ text), rest)

-- Behind an element: the end of the container, or the other elements.
items_end : (Bytes → Option (Items × Bytes)) → Printable × Bytes → Option (Items × Bytes)
items_end others (v, []) = none
items_end others (v, c ∷ rest) =
    if c == b'}'
    then some (item v no_items, rest)
    else if c == b','
    then (others rest >>= λ r. some (item v r.0, r.1))
    else none

closes : Bytes → Bool
closes [] = false
closes (c ∷ s) = c == b'}'

tail : Bytes → Bytes
tail [] = []
tail (c ∷ s) = s

parse_container : (Bytes → Option (Items × Bytes)) → Bytes → Option (Printable × Bytes)
unfolding closes tail
parse_container elements s =
    if closes s
    then some (container no_items, tail s)
    else (elements s >>= λ r. some (container r.0, r.1))

mutual
  unfolding pair_rest scalar_of items_end span parse_container

  -- A value at the beginning of a text, and the rest of the text.
  pub parse : ℕ → Bytes → Option (Printable × Bytes)
  parse zero s = none
  parse (suc fuel) [] = none
  parse (suc fuel) (c ∷ s) =
      if c == b'{'
      then parse_container (parse_items fuel) s
      else if c == b'['
      then pair_rest (span s)
      else scalar_of (span (c ∷ s))

  parse_items : ℕ → Bytes → Option (Items × Bytes)
  parse_items zero s = none
  parse_items (suc fuel) s = parse fuel s >>= items_end (parse_items fuel)

-- A text that is not empty and plain.
abbrev IsWord : Bytes → Type 0
IsWord [] = ⊥
IsWord (c ∷ s) = (is_plain c ≡ true) × All (λ d. is_plain d ≡ true) s

-- Every scalar is such a text; the members of a pair may be empty.
abbrev mutual
  pub IsReadable : Printable → Type 0
  IsReadable (scalar text) = IsWord text
  IsReadable (pair first second) =
      All (λ d. is_plain d ≡ true) first × All (λ d. is_plain d ≡ true) second
  IsReadable (container items) = AllReadable items

  AllReadable : Items → Type 0
  AllReadable no_items = Unit
  AllReadable (item v rest) = IsReadable v × AllReadable rest

abbrev mutual
  pub size : Printable → ℕ
  size (scalar text) = 1
  size (pair first second) = 1
  size (container items) = 1 + items_size items

  items_size : Items → ℕ
  items_size no_items = 0
  items_size (item v rest) = 1 + (size v + items_size rest)

-- The text ends, or goes on with a byte that marks the structure.
abbrev pub Stops : Bytes → Type 0
Stops [] = Unit
Stops (c ∷ s) = is_plain c ≡ false

span-append :
    (s rest : Bytes) → All (λ d. is_plain d ≡ true) s → Stops rest → span (s ++ rest) ≡ (s, rest)
unfolding span
span-append [] [] h stop = refl
span-append [] (c ∷ rest) h stop =
    ap (λ b. if b then (c ∷ (span rest).0, (span rest).1) else ([], c ∷ rest)) stop
span-append (c ∷ s) rest (p, h) stop =
    ap (λ b. if b then (c ∷ (span (s ++ rest)).0, (span (s ++ rest)).1) else ([], c ∷ (s ++ rest)))
      p
    ∙ ap (λ r. (c ∷ r.0, r.1)) (span-append s rest h stop)

plain_marks :
    (c : ℕ)
    → is_plain c ≡ true
    → ((c == b'{') ≡ false) × ((c == b'[') ≡ false) × ((c == b'}') ≡ false)
plain_marks c h = ground (arith, h)

parse-scalar :
    (fuel c : ℕ) (s rest : Bytes)
    → IsWord (c ∷ s)
    → Stops rest
    → parse (suc fuel) ((c ∷ s) ++ rest) ≡ some (scalar (c ∷ s), rest)
unfolding parse scalar_of
parse-scalar fuel c s rest (p, h) stop =
    let (a, b, d) = plain_marks c p in
    ap (λ x. if x then parse_container (parse_items fuel) (s ++ rest) else other (c == b'[')) a
    ∙ ap other b
    ∙ ap scalar_of (span-append (c ∷ s) rest (p, h) stop)
  where
    other : Bool → Option (Printable × Bytes)
    other x = if x then pair_rest (span (s ++ rest)) else scalar_of (span (c ∷ (s ++ rest)))

pair_rest-print :
    (first second rest : Bytes)
    → All (λ d. is_plain d ≡ true) first
    → All (λ d. is_plain d ≡ true) second
    → pair_rest (span (first ++ (b',' ∷ (second ++ (b']' ∷ b' ' ∷ rest)))))
      ≡ some (pair first second, rest)
unfolding pair_rest pair_end
pair_rest-print first second rest p q =
    ap pair_rest (span-append first (b',' ∷ (second ++ (b']' ∷ b' ' ∷ rest))) p refl)
    ∙ ap (pair_end first) (span-append second (b']' ∷ b' ' ∷ rest) q refl)

closes-do_print :
    (v : Printable) (rest : Bytes) → IsReadable v → closes (do_print v ++ rest) ≡ false
unfolding closes do_print
closes-do_print (scalar []) rest h = elim h [ ]
closes-do_print (scalar (c ∷ s)) rest (p, h) = (plain_marks c p).2
closes-do_print (pair first second) rest h = refl
closes-do_print (container items) rest h = refl

closes-print_items :
    (v : Printable) (others : Items) (rest : Bytes)
    → IsReadable v
    → closes (print_items (item v others) ++ rest) ≡ false
unfolding print_items
closes-print_items v no_items rest h = closes-do_print v rest h
closes-print_items v (item w others) rest h =
    ap closes (append_assoc (do_print v) (b',' ∷ print_items (item w others)) rest)
    ∙ closes-do_print v ((b',' ∷ print_items (item w others)) ++ rest) h

mutual
  unfolding do_print print_items parse parse_container items_end closes tail

  reads_back :
      (fuel : ℕ) (v : Printable) (rest : Bytes)
      → IsReadable v
      → Stops rest
      → size v ≤ fuel
      → parse fuel (do_print v ++ rest) ≡ some (v, rest)
  reads_back zero (scalar text) rest h stop l = absurd (omega (arith, l))
  reads_back zero (pair first second) rest h stop l = absurd (omega (arith, l))
  reads_back zero (container items) rest h stop l = absurd (omega (arith, l))
  reads_back (suc fuel) (scalar []) rest h stop l = elim h [ ]
  reads_back (suc fuel) (scalar (c ∷ s)) rest h stop l = parse-scalar fuel c s rest h stop
  reads_back (suc fuel) (pair first second) rest (p, q) stop l =
      ap (λ t. pair_rest (span t))
        (append_assoc first (b',' ∷ (second ++ (b']' ∷ b' ' ∷ []))) rest
          ∙ ap (λ t. first ++ (b',' ∷ t)) (append_assoc second (b']' ∷ b' ' ∷ []) rest))
      ∙ pair_rest-print first second rest p q
  reads_back (suc fuel) (container no_items) rest h stop l = refl
  reads_back (suc fuel) (container (item v others)) rest h stop l =
      ap (parse_container (parse_items fuel))
        (append_assoc (print_items (item v others)) (b'}' ∷ []) rest)
      ∙ ap
          (λ b.
            if b
            then some (container no_items, tail (print_items (item v others) ++ b'}' ∷ rest))
            else (parse_items fuel (print_items (item v others) ++ b'}' ∷ rest) >>= λ r.
                some (container r.0, r.1)))
          (closes-print_items v others (b'}' ∷ rest) h.0)
      ∙ ap (λ o. o >>= λ r. some (container r.0, r.1))
          (reads_items_back fuel v others rest h (omega (arith, l)))

  reads_items_back :
      (fuel : ℕ) (v : Printable) (others : Items) (rest : Bytes)
      → AllReadable (item v others)
      → items_size (item v others) ≤ fuel
      → parse_items fuel (print_items (item v others) ++ b'}' ∷ rest) ≡ some (item v others, rest)
  reads_items_back zero v others rest h l = absurd (omega (arith, l))
  reads_items_back (suc fuel) v no_items rest (h, hs) l =
      ap (λ o. o >>= items_end (parse_items fuel))
        (reads_back fuel v (b'}' ∷ rest) h refl (omega (arith, l)))
  reads_items_back (suc fuel) v (item w others) rest (h, hs) l =
      ap (λ t. parse fuel t >>= items_end (parse_items fuel))
        (append_assoc (do_print v) (b',' ∷ print_items (item w others)) (b'}' ∷ rest))
      ∙ ap (λ o. o >>= items_end (parse_items fuel))
          (reads_back fuel v (b',' ∷ (print_items (item w others) ++ b'}' ∷ rest)) h refl
            (omega (arith, l)))
      ∙ ap (λ o. o >>= λ r. some (item v r.0, r.1))
          (reads_items_back fuel w others rest hs (omega (arith, l)))

-- What doPrint prints of a value, of which every scalar is a text that is not empty and like the
-- members of pairs has none of the bytes `,`, `{`, `}`, `[` and `]`, is read back as that value
-- by a parser with fuel for its size, whatever follows that ends the text or begins with one of
-- these bytes.
pub parse-do_print :
    (fuel : ℕ) (v : Printable) (rest : Bytes)
    → IsReadable v
    → Stops rest
    → size v ≤ fuel
    → parse fuel (do_print v ++ rest) ≡ some (v, rest)
parse-do_print fuel v rest h stop l = reads_back fuel v rest h stop l
