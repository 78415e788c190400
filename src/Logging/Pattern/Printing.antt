-- ===== src/Logging/Pattern/Printing.antt =====
-- A printer for the items of `logPatternParse`, which the parser of src/base/string_parsers.h undoes.
use net_base.Base.{
  ==-ne, ℕ, zero, suc, ◌+◌, ◌≤◌, ◌≡◌, ◌≢◌, refl, sym, ap, ◌∙◌, true, List, [], ◌∷◌, ◌++◌,
  append_assoc, append-nil, Bytes, is_alpha, length, length-append, All, arith,
}
use net_base.Logging.Pattern.{
  Byte, Item, text, keyed, Scan, found, scan_format, KeyByte, ends, opens, goes_on, key_byte,
  scan_key, flush, plain, percent, byte_kind, emit, parse_byte, parse_loop, log_pattern_parse,
}

-- What stands behind the `%` of a key.
abbrev pub print_key : Bytes → Bytes → Bytes
print_key key [] = key
print_key key (c ∷ fmt) = key ++ (b'{' ∷ (c ∷ fmt) ++ b'}' ∷ [])

abbrev pub print_items : List Item → Bytes
print_items [] = []
print_items (text s ∷ items) = s ++ print_items items
print_items (keyed key fmt ∷ items) = b'%' ∷ print_key key fmt ++ print_items items

-- A key without braces ends at the end of the text or at a byte that cannot go on with it.
abbrev pub Stops : Bytes → Bytes → Type 0
Stops [] [] = Unit {0}
Stops [] (c ∷ s) = key_byte c ≡ ends
Stops (f ∷ fmt) s = Unit {0}

-- `nstr` is empty where a text comes next.
abbrev pub Starts : Bytes → List Item → Type 0
Starts nstr (text s ∷ items) = nstr ≡ []
Starts nstr _ = Unit {0}

abbrev pub NotText : List Item → Type 0
NotText (text s ∷ items) = ⊥
NotText _ = Unit {0}

-- Texts are not empty, hold no `%` and do not meet; keys are letters; a format holds no `}`.
abbrev pub ArePrintable : List Item → Type 0
ArePrintable [] = Unit {0}
ArePrintable (text s ∷ items) =
    (s ≢ []) × All (λ c. c ≢ b'%') s × NotText items × ArePrintable items
ArePrintable (keyed key fmt ∷ items) =
    (key ≢ [])
    × All (λ c. is_alpha c ≡ true) key
    × All (λ c. c ≢ b'}') fmt
    × Stops fmt (print_items items)
    × ArePrintable items

scan_format-close :
    (key acc fmt rest : Bytes)
    → All (λ c. c ≢ b'}') fmt
    → scan_format key acc (fmt ++ b'}' ∷ rest) ≡ found key (acc ++ fmt) rest
unfolding scan_format
scan_format-close key acc [] rest h = ap (λ a. found key a rest) (sym (append-nil acc))
scan_format-close key acc (c ∷ fmt) rest (n, h) = rw (==-ne c b'}' n) (
    scan_format-close key (acc ++ c ∷ []) fmt rest h
    ∙ ap (λ a. found key a rest) (append_assoc acc (c ∷ []) fmt))

key_byte-alpha : (c : ℕ) → is_alpha c ≡ true → key_byte c ≡ goes_on
unfolding key_byte
key_byte-alpha c h = ground (arith, h)

scan_key-step :
    (key s : Bytes) (c : ℕ) (k : KeyByte)
    → key_byte c ≡ k
    → scan_key key (c ∷ s) ≡ elim k as (λ x. Scan) [
      | ends ↦ found key [] (c ∷ s)
      | opens ↦ scan_format key [] s
      | goes_on ↦ scan_key (key ++ c ∷ []) s
    ]
unfolding scan_key
scan_key-step key s c k e =
    ap
      (λ k. elim k as (λ x. Scan) [
        | ends ↦ found key [] (c ∷ s)
        | opens ↦ scan_format key [] s
        | goes_on ↦ scan_key (key ++ c ∷ []) s
      ])
      e

scan_key-alpha :
    (acc key s : Bytes)
    → All (λ c. is_alpha c ≡ true) key
    → scan_key acc (key ++ s) ≡ scan_key (acc ++ key) s
scan_key-alpha acc [] s h = ap (λ a. scan_key a s) (sym (append-nil acc))
scan_key-alpha acc (c ∷ key) s (a, h) =
    scan_key-step acc (key ++ s) c goes_on (key_byte-alpha c a)
    ∙ scan_key-alpha (acc ++ c ∷ []) key s h
    ∙ ap (λ a. scan_key a s) (append_assoc acc (c ∷ []) key)

scan_key-keyed :
    (key fmt s : Bytes)
    → All (λ c. is_alpha c ≡ true) key
    → All (λ c. c ≢ b'}') fmt
    → Stops fmt s
    → scan_key [] (print_key key fmt ++ s) ≡ found key fmt s
unfolding scan_key
scan_key-keyed key [] [] a h stops = scan_key-alpha [] key [] a
scan_key-keyed key [] (c ∷ s) a h stops =
    scan_key-alpha [] key (c ∷ s) a ∙ scan_key-step key s c ends stops
scan_key-keyed key (f ∷ fmt) s a h stops =
    ap (scan_key []) (append_assoc key (b'{' ∷ (f ∷ fmt) ++ b'}' ∷ []) s)
    ∙ scan_key-alpha [] key (b'{' ∷ ((f ∷ fmt) ++ b'}' ∷ []) ++ s) a
    ∙ scan_key-step key (((f ∷ fmt) ++ b'}' ∷ []) ++ s) b'{' opens (unfold key_byte in refl)
    ∙ ap (scan_format key []) (append_assoc (f ∷ fmt) (b'}' ∷ []) s)
    ∙ scan_format-close key [] (f ∷ fmt) s h

byte_kind-plain : (c : ℕ) (s : Bytes) → c ≢ b'%' → byte_kind c s ≡ plain
unfolding byte_kind
byte_kind-plain c [] n = rw (==-ne c b'%' n) refl
byte_kind-plain c (d ∷ s) n = rw (==-ne c b'%' n) refl

byte_kind-percent : (c : ℕ) (s : Bytes) → is_alpha c ≡ true → byte_kind b'%' (c ∷ s) ≡ percent
unfolding byte_kind
byte_kind-percent c s h = ground (arith, h)

parse_loop-byte :
    (fuel c : ℕ) (nstr s : Bytes) (k : Byte)
    → byte_kind c s ≡ k
    → parse_loop (suc fuel) nstr (c ∷ s) ≡ parse_byte (parse_loop fuel) nstr c s k
unfolding parse_loop
parse_loop-byte fuel c nstr s k e = ap (parse_byte (parse_loop fuel) nstr c s) e

parse_loop-plain :
    (s rest nstr : Bytes) (fuel : ℕ)
    → All (λ c. c ≢ b'%') s
    → length s + length rest ≤ fuel
    → (less : ℕ) × (length rest ≤ less)
      × (parse_loop fuel nstr (s ++ rest) ≡ parse_loop less (nstr ++ s) rest)
unfolding parse_byte
parse_loop-plain [] rest nstr fuel h l =
    (fuel, omega (arith, l), ap (λ n. parse_loop fuel n rest) (sym (append-nil nstr)))
parse_loop-plain (c ∷ s) rest nstr zero h l = absurd (omega (arith, l))
parse_loop-plain (c ∷ s) rest nstr (suc fuel) (n, h) l =
    let (less, m, e) = parse_loop-plain s rest (nstr ++ c ∷ []) fuel h (omega (arith, l)) in
    (
      less,
      m,
      parse_loop-byte fuel c nstr (s ++ rest) plain (byte_kind-plain c (s ++ rest) n)
          ∙ e
          ∙ ap (λ t. parse_loop less t rest) (append_assoc nstr (c ∷ []) s),
    )

print_key-cons : (c : ℕ) (key fmt : Bytes) → print_key (c ∷ key) fmt ≡ c ∷ print_key key fmt
print_key-cons c key [] = refl
print_key-cons c key (f ∷ fmt) = refl

parse_loop-keyed :
    (key fmt rest nstr : Bytes) (fuel : ℕ)
    → key ≢ []
    → All (λ c. is_alpha c ≡ true) key
    → All (λ c. c ≢ b'}') fmt
    → Stops fmt rest
    → parse_loop (suc fuel) nstr (b'%' ∷ (print_key key fmt ++ rest))
      ≡ flush nstr (keyed key fmt ∷ parse_loop fuel [] rest)
unfolding parse_byte emit
parse_loop-keyed [] fmt rest nstr fuel n a h stops = absurd (n refl)
parse_loop-keyed (c ∷ key) fmt rest nstr fuel n a h stops =
    parse_loop-byte fuel b'%' nstr (print_key (c ∷ key) fmt ++ rest) percent (
      ap (λ s. byte_kind b'%' (s ++ rest)) (print_key-cons c key fmt)
      ∙ byte_kind-percent c (print_key key fmt ++ rest) a.0)
    ∙ ap (emit (parse_loop fuel) nstr (print_key (c ∷ key) fmt ++ rest))
        (scan_key-keyed (c ∷ key) fmt rest a h stops)

Starts-NotText : (nstr : Bytes) (items : List Item) → NotText items → Starts nstr items
Starts-NotText nstr [] h = tt
Starts-NotText nstr (text s ∷ items) h = absurd h
Starts-NotText nstr (keyed key fmt ∷ items) h = tt

Starts-nil : (items : List Item) → Starts [] items
Starts-nil [] = tt
Starts-nil (text s ∷ items) = refl
Starts-nil (keyed key fmt ∷ items) = tt

flush-text : (s : Bytes) (items : List Item) → s ≢ [] → flush s items ≡ text s ∷ items
unfolding flush
flush-text [] items n = absurd (n refl)
flush-text (c ∷ s) items n = refl

parse_loop-print_items :
    (items : List Item) (nstr : Bytes) (fuel : ℕ)
    → ArePrintable items
    → Starts nstr items
    → length (print_items items) ≤ fuel
    → parse_loop fuel nstr (print_items items) ≡ flush nstr items
unfolding parse_loop
parse_loop-print_items [] nstr fuel h st l = refl
parse_loop-print_items (text s ∷ items) nstr fuel (some_, plain_, apart, h) st l =
    let (less, m, e) =
      parse_loop-plain s (print_items items) nstr fuel plain_
        (omega (arith, l, length-append s (print_items items))) in
    e
    ∙ parse_loop-print_items items (nstr ++ s) less h (Starts-NotText (nstr ++ s) items apart) m
    ∙ ap (λ n. flush (n ++ s) items) st
    ∙ flush-text s items some_
    ∙ ap (λ n. flush n (text s ∷ items)) (sym st)
parse_loop-print_items (keyed key fmt ∷ items) nstr zero h st l = absurd (omega (arith, l))
parse_loop-print_items (keyed key fmt ∷ items) nstr (suc fuel) (n, a, f, stops, h) st l =
    parse_loop-keyed key fmt (print_items items) nstr fuel n a f stops
    ∙ ap (λ r. flush nstr (keyed key fmt ∷ r))
        (parse_loop-print_items items [] fuel h (Starts-nil items)
          (omega (arith, l, length-append (print_key key fmt) (print_items items))))

-- Printable items are read back from their text: texts that are not empty, hold no `%` and do
-- not meet, keys of letters, formats without `}`, and keys without a format only where the key
-- ends by itself.
pub log_pattern_parse-print_items :
    (items : List Item) → ArePrintable items → log_pattern_parse (print_items items) ≡ items
unfolding log_pattern_parse
log_pattern_parse-print_items items h =
    parse_loop-print_items items [] (length (print_items items)) h (Starts-nil items) (omega arith)
