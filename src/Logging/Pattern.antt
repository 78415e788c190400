-- ===== src/Logging/Pattern.antt =====
-- src/base/string_parsers.h: `logPatternParse`. The loop over the index `i` is a loop over the
-- rest of the text, on fuel for its length; the message of a parse error is left out.
pub mod Printing
use net_base.Base.{
  ℕ, zero, suc, Bool, true, false, not, ◌||◌, ◌&&◌, List, [], ◌∷◌, ◌++◌, Bytes, codes, is_alpha,
  ◌==◌, if◌then◌else◌, length,
}

-- A tuple of the result: plain text (0), or a key and what its braces hold (1).
pub data Item : Type 0 where
  text : Bytes → Item
  keyed : Bytes → Bytes → Item

-- What the inner loop finds behind a `%`: a key, its format and the rest, or no closing brace.
pub data Scan : Type 0 where
  found : Bytes → Bytes → Bytes → Scan
  unclosed : Scan

-- `fmt_status` is 1: what stands between the braces.
pub scan_format : Bytes → Bytes → Bytes → Scan
scan_format key fmt [] = unclosed
scan_format key fmt (c ∷ s) =
    if c == b'}' then found key fmt s else scan_format key (fmt ++ c ∷ []) s

pub data KeyByte : Type 0 where
  ends opens goes_on : KeyByte

-- What a byte means while `fmt_status` is 0.
unfoldable pub key_byte : ℕ → KeyByte
key_byte c =
    if not (is_alpha c) && (not (c == b'{') && not (c == b'}'))
    then ends
    else if c == b'{'
    then opens
    else goes_on

-- `fmt_status` is 0: the key so far, and the rest.
pub scan_key : Bytes → Bytes → Scan
unfolding key_byte scan_format
scan_key key [] = found key [] []
scan_key key (c ∷ s) = elim (key_byte c) [
  | ends ↦ found key [] (c ∷ s)
  | opens ↦ scan_format key [] s
  | goes_on ↦ scan_key (key ++ c ∷ []) s
]

-- `nstr` as an item, if it is not empty.
pub flush : Bytes → List Item → List Item
flush [] items = items
flush (c ∷ s) items = text (c ∷ s) ∷ items

pub data Byte : Type 0 where
  plain doubled percent : Byte

-- The byte at `i`, and whether a second `%` follows it.
pub byte_kind : ℕ → Bytes → Byte
byte_kind c [] = if c == b'%' then percent else plain
byte_kind c (d ∷ s) = if c == b'%' then (if d == b'%' then doubled else percent) else plain

-- Behind the inner loop. After an error only the `%` has been read.
pub emit : (Bytes → Bytes → List Item) → Bytes → Bytes → Scan → List Item
unfolding flush
emit go nstr s (found key fmt rest) = flush nstr (keyed key fmt ∷ go [] rest)
emit go nstr s unclosed = text (codes "<<pattern_error>>") ∷ go nstr s

-- One round; of two `%` the first is text, and the second is looked at again.
pub parse_byte : (Bytes → Bytes → List Item) → Bytes → ℕ → Bytes → Byte → List Item
unfolding emit scan_key
parse_byte go nstr c s plain = go (nstr ++ c ∷ []) s
parse_byte go nstr c s doubled = go (nstr ++ b'%' ∷ []) s
parse_byte go nstr c s percent = emit go nstr s (scan_key [] s)

pub parse_loop : ℕ → Bytes → Bytes → List Item
unfolding flush parse_byte byte_kind
parse_loop fuel nstr [] = flush nstr []
parse_loop zero nstr (c ∷ s) = []
parse_loop (suc fuel) nstr (c ∷ s) = parse_byte (parse_loop fuel) nstr c s (byte_kind c s)

-- logPatternParse
unfoldable pub log_pattern_parse : Bytes → List Item
unfolding parse_loop
log_pattern_parse pattern = parse_loop (length pattern) [] pattern
