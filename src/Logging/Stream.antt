-- ===== src/Logging/Stream.antt =====
-- src/logging/LogSStream.cpp and include/logging/LogSStream.h: the buffer of a thread that a log
-- line is put together in. `none` is a failed assertion, or a write behind the buffer's end, which
-- the code does not check. `sprintf("%f")` is a parameter.
pub mod Converting
pub mod Writing
use net_base.Base.{
  ℕ, zero, suc, ◌+◌, ◌-◌, ◌*◌, ◌/◌, ◌%◌, ◌≤◌, ◌<◌, Bool, true, false, ◌&&◌, List, [], ◌∷◌, ◌++◌,
  Option, none, some, Bytes, codes, ltb, leb, ◌==◌, if◌then◌else◌, length, take, replicate,
  get_elem?, reverse, ℤ, pos, negsuc, ◌>>=◌,
}
use net_base.File.{memcpy}

-- A number without its sign, and with a minus.
abbrev pub neg : ℕ → ℤ
neg zero = pos 0
neg (suc n) = negsuc n

-- `i % 10` and `i / 10`, which round towards zero.
pub rem10 : ℤ → ℤ
rem10 (pos n) = pos (n % 10)
rem10 (negsuc n) = neg (suc n % 10)

pub div10 : ℤ → ℤ
div10 (pos n) = pos (n / 10)
div10 (negsuc n) = neg (suc n / 10)

pub is_zero : ℤ → Bool
is_zero (pos n) = n == 0
is_zero (negsuc n) = false

-- `zero[lsd]`: the table's middle is at 9.
abbrev pub table : Bytes
table = codes "9876543210123456789"

abbrev pub or_nul : Option ℕ → ℕ
or_nul (some c) = c
or_nul none = 0

pub zero_at : ℤ → ℕ
zero_at (pos n) = or_nul (get_elem? table (9 + n))
zero_at (negsuc n) = or_nul (get_elem? table (8 - n))

-- The do loop, on fuel; the last digit comes first.
pub convert_loop : ℕ → ℤ → Bytes
unfolding rem10 div10 is_zero zero_at
convert_loop zero i = []
convert_loop (suc fuel) i = elim (is_zero (div10 i)) [
  | true ↦ zero_at (rem10 i) ∷ []
  | false ↦ zero_at (rem10 i) ∷ convert_loop fuel (div10 i)
]

-- One round for each digit; the number itself is more.
abbrev pub rounds : ℤ → ℕ
rounds (pos n) = suc n
rounds (negsuc n) = suc (suc n)

pub minus : ℤ → Bytes
minus (pos n) = []
minus (negsuc n) = b'-' ∷ []

-- convert, without the NUL at the end
unfoldable pub convert : ℤ → Bytes
unfolding convert_loop minus
convert value = reverse (convert_loop (rounds value) value ++ minus value)

-- LogSStreamBuf
pub record StreamBuf : Type 0 where
  pub buf : Bytes
  pub pos_ : ℕ

-- LogBufferMaxLen
abbrev pub log_buffer_max_len : ℕ
log_buffer_max_len = 5120

abbrev pub new_buf : StreamBuf
new_buf = record { buf = replicate log_buffer_max_len 0; pos_ = 0 }

-- free
unfoldable pub free : StreamBuf → StreamBuf
free b = record b { pos_ = 0 }

-- Bytes written behind `pos_`, of which `n` count.
pub write_tail : Bytes → ℕ → StreamBuf → Option StreamBuf
write_tail src n b =
    if leb (b.pos_ + length src) (length b.buf)
    then some (record b { buf = memcpy b.buf b.pos_ src; pos_ = b.pos_ + n })
    else none

-- append(char)
pub append_char : ℕ → StreamBuf → Option StreamBuf
unfolding write_tail
append_char c b = if ltb b.pos_ log_buffer_max_len then write_tail (c ∷ []) 1 b else none

-- append(const char*, size_t)
pub append : Bytes → StreamBuf → Option StreamBuf
unfolding write_tail
append s b = write_tail s (length s) b

-- What the operators `<<` take: a character, an integer, a double as "%f" prints it, or a text.
pub data Entry : Type 0 where
  char_ : ℕ → Entry
  integer : ℤ → Entry
  double : Bytes → Entry
  text : Bytes → Entry

-- operator<<
pub put : Entry → StreamBuf → Option StreamBuf
unfolding append append_char write_tail convert
put (char_ c) = append_char c
put (integer n) = write_tail (convert n ++ 0 ∷ []) (length (convert n))
put (double printed) = write_tail (printed ++ 0 ∷ []) (length printed)
put (text s) = append s

-- A chain of `<<`.
unfoldable pub put_all : List Entry → StreamBuf → Option StreamBuf
unfolding put
put_all [] b = some b
put_all (e ∷ es) b = put e b >>= put_all es

-- str and getSlice
unfoldable pub str : StreamBuf → Bytes
str b = take b.pos_ b.buf
