-- ===== src/Logging/Stream/Writing.antt =====
-- The buffer of src/logging/LogSStream.cpp as the text that it holds.
use net_base.Base.{
  subst, ℕ, ◌+◌, ◌≤◌, ◌<◌, ◌≡◌, refl, sym, ap, ◌∙◌, true, List, [], ◌∷◌, ◌++◌, Bytes, Option, some,
  leb, lt→ltb, ◌>>=◌, append_assoc, append-nil, length, length-append, take, length-take, drop,
  take-append_exact, arith,
}
use net_base.File.{memcpy}
use net_base.File.Write.{length-memcpy}
use net_base.Logging.Stream.{
  StreamBuf, write_tail, append, append_char, put, put_all, str, Entry, char_, integer, double,
  text, log_buffer_max_len,
}
use net_base.Logging.Stream.Converting.{printed, convert-printed}

-- The buffer has its size, and the position is not behind its end.
abbrev pub IsStream : StreamBuf → Type 0
IsStream b = (length b.buf ≡ log_buffer_max_len) × (b.pos_ ≤ log_buffer_max_len)

-- `r` is a buffer that holds what `b` holds, and `s` behind it.
abbrev pub Adds : StreamBuf → Bytes → Option StreamBuf → Type 0
Adds b s r =
    (c : StreamBuf) × (r ≡ some c)
    × (str c ≡ str b ++ s)
    × (c.pos_ ≡ b.pos_ + length s)
    × IsStream c

-- What each operand prints.
abbrev pub shown : Entry → Bytes
shown (char_ c) = c ∷ []
shown (integer n) = printed n
shown (double s) = s
shown (text s) = s

abbrev pub all_shown : List Entry → Bytes
all_shown [] = []
all_shown (e ∷ es) = shown e ++ all_shown es

le→leb : (a b : ℕ) → a ≤ b → leb a b ≡ true
le→leb a b h = ground arith

write_tail-Adds :
    (b : StreamBuf) (s extra : Bytes)
    → IsStream b
    → b.pos_ + length (s ++ extra) ≤ log_buffer_max_len
    → Adds b s (write_tail (s ++ extra) (length s) b)
unfolding write_tail str memcpy
write_tail-Adds b s extra (l, p) h = (
  record b { buf = memcpy b.buf b.pos_ (s ++ extra); pos_ = b.pos_ + length s },
  rw (le→leb (b.pos_ + length (s ++ extra)) (length b.buf) (omega (arith, l, h))) refl,
  ap (take (b.pos_ + length s)) (
        ap (λ t. take b.pos_ b.buf ++ t)
          (append_assoc s extra (drop (b.pos_ + length (s ++ extra)) b.buf))
        ∙ sym (
            append_assoc (take b.pos_ b.buf) s
              (extra ++ drop (b.pos_ + length (s ++ extra)) b.buf)))
      ∙ take-append_exact (b.pos_ + length s) (take b.pos_ b.buf ++ s) _
          (omega (arith, length-append (take b.pos_ b.buf) s, length-take b.pos_ b.buf, l, p)),
  refl,
  (
    length-memcpy b.buf b.pos_ (s ++ extra) (omega (arith, l, h)) ∙ l,
    omega (arith, h, length-append s extra),
  ),
)

put-Adds :
    (e : Entry) (b : StreamBuf)
    → IsStream b
    → b.pos_ + length (shown e) < log_buffer_max_len
    → Adds b (shown e) (put e b)
unfolding put append append_char
put-Adds (char_ c) b v h =
    rw (lt→ltb b.pos_ log_buffer_max_len (omega (arith, h)))
      (write_tail-Adds b (c ∷ []) [] v (omega (arith, h)))
put-Adds (integer n) b v h = rw (convert-printed n) (
    write_tail-Adds b (printed n) (0 ∷ []) v (omega (arith, h, length-append (printed n) (0 ∷ []))))
put-Adds (double s) b v h =
    write_tail-Adds b s (0 ∷ []) v (omega (arith, h, length-append s (0 ∷ [])))
put-Adds (text s) b v h =
    subst (λ t. Adds b s (write_tail t (length s) b)) (append-nil s)
      (write_tail-Adds b s [] v (omega (arith, h, length-append s [])))

-- On a buffer of its size, a chain of operators whose output stays below that size succeeds, and
-- the text in the buffer grows by what the operands print, one behind the other.
pub put_all-Adds :
    (es : List Entry) (b : StreamBuf)
    → IsStream b
    → b.pos_ + length (all_shown es) < log_buffer_max_len
    → Adds b (all_shown es) (put_all es b)
unfolding put_all
put_all-Adds [] b v h = (b, refl, sym (append-nil (str b)), omega arith, v)
put_all-Adds (e ∷ es) b v h =
    let (c, ec, tc, pc, vc) =
      put-Adds e b v (omega (arith, h, length-append (shown e) (all_shown es))) in
    let (d, ed, td, pd, vd) =
      put_all-Adds es c vc (omega (arith, h, pc, length-append (shown e) (all_shown es))) in
    (
      d,
      ap (λ o. o >>= put_all es) ec ∙ ed,
      td ∙ ap (λ t. t ++ all_shown es) tc ∙ append_assoc (str b) (shown e) (all_shown es),
      omega (arith, pd, pc, length-append (shown e) (all_shown es)),
      vd,
    )
