-- ===== src/Address.antt =====
-- src/net/address.cpp and include/net/address.h: the parts that all addresses share. A text is a
-- C string without its NUL, and `none` stands for `std::invalid_argument`. Numbers lie in memory
-- with the low byte first, as on the x86 machines that the library is built for.
pub mod Port
mod Parsing
pub mod Order
pub mod V4
pub mod V6
pub mod Resolve
mod Tests
use net_base.Base.{
  ℕ, zero, suc, ◌+◌, ◌-◌, ◌*◌, ◌/◌, ◌%◌, Bool, true, false, ◌||◌, ◌&&◌, not, List, [], ◌∷◌, ◌++◌,
  Option, none, some, ◌>>=◌, Bytes, codes, ltb, leb, ◌==◌, if◌then◌else◌, length, take, replicate,
}

-- strrchr(text, ':'): what stands before and behind the last colon.
pub last_colon : Bytes → Option (Bytes × Bytes)
last_colon [] = none
last_colon (c ∷ s) = elim (last_colon s) [
  | some (host, port) ↦ some (c ∷ host, port)
  | none ↦ if c == b':' then some ([], s) else none
]

-- The text without a `]` at its end, if it has one.
pub without_bracket : Bytes → Option Bytes
without_bracket [] = none
without_bracket (c ∷ []) = if c == b']' then some [] else none
without_bracket (c ∷ d ∷ s) = elim (without_bracket (d ∷ s)) [ some t ↦ some (c ∷ t) | none ↦ none ]

-- What the host is behind a `[`: without both brackets, or as it was.
pub unbracketed : Bytes → Option Bytes → Bytes
unbracketed s (some t) = t
unbracketed s none = b'[' ∷ s

pub strip_brackets : Bytes → Bytes
unfolding unbracketed without_bracket
strip_brackets [] = []
strip_brackets (c ∷ s) = if c == b'[' then unbracketed s (without_bracket s) else c ∷ s

-- HostAndPortParser
pub host_and_port : Bytes → Option (Bytes × Bytes)
unfolding last_colon strip_brackets
host_and_port text = last_colon text >>= λ p. some (strip_brackets p.0, p.1)

-- htons and ntohs: the two bytes of a port, the high one first.
abbrev pub htons : ℕ → ℕ × ℕ
htons port = (port / 256, port % 256)

abbrev pub ntohs : ℕ × ℕ → ℕ
ntohs (high, low) = high * 256 + low

-- sa_family_t as Linux numbers them.
abbrev pub af_inet : ℕ
af_inet = 2

abbrev pub af_inet6 : ℕ
af_inet6 = 10

-- sockaddr_in; `sin_addr` is in network order.
pub record SockAddrIn : Type 0 where
  pub sin_family : ℕ
  pub sin_port : ℕ × ℕ
  pub sin_addr : Bytes
  pub sin_zero : Bytes

-- sockaddr_in6
pub record SockAddrIn6 : Type 0 where
  pub sin6_family : ℕ
  pub sin6_port : ℕ × ℕ
  pub sin6_flowinfo : Bytes
  pub sin6_addr : Bytes
  pub sin6_scope_id : Bytes

-- sockaddr_un
pub record SockAddrUn : Type 0 where
  pub sun_family : ℕ
  pub sun_path : Bytes

pub data SockAddress : Type 0 where
  ipv4 : SockAddrIn → SockAddress
  ipv6 : SockAddrIn6 → SockAddress
  unix : SockAddrUn → SockAddress

-- getAddrLen
pub addr_len : SockAddress → ℕ
addr_len (ipv4 a) = 16
addr_len (ipv6 a) = 28
addr_len (unix a) = 110

-- getAddr: the bytes behind the pointer, where an address stands in memory.
pub addr : SockAddress → Bytes
addr (ipv4 a) =
    a.sin_family % 256
    ∷ a.sin_family / 256
    ∷ a.sin_port.0
    ∷ a.sin_port.1
    ∷ (a.sin_addr ++ a.sin_zero)
addr (ipv6 a) =
    a.sin6_family % 256
    ∷ a.sin6_family / 256
    ∷ a.sin6_port.0
    ∷ a.sin6_port.1
    ∷ (a.sin6_flowinfo ++ (a.sin6_addr ++ a.sin6_scope_id))
addr (unix a) = a.sun_family % 256 ∷ a.sun_family / 256 ∷ a.sun_path

-- getFamily
unfoldable pub family : SockAddress → ℕ
family (ipv4 a) = a.sin_family
family (ipv6 a) = a.sin6_family
family (unix a) = a.sun_family

-- isInetFamily
pub is_inet_family : SockAddress → Bool
unfolding family
is_inet_family a = family a == af_inet || family a == af_inet6

-- The constructors without an argument: all bytes are zero.
abbrev pub empty_ipv4 : SockAddrIn
empty_ipv4 = record {
  sin_family = 0;
  sin_port = (0, 0);
  sin_addr = replicate 4 0;
  sin_zero = replicate 8 0;
}

abbrev pub empty_ipv6 : SockAddrIn6
empty_ipv6 = record {
  sin6_family = 0;
  sin6_port = (0, 0);
  sin6_flowinfo = replicate 4 0;
  sin6_addr = replicate 16 0;
  sin6_scope_id = replicate 4 0;
}

abbrev pub empty_unix : SockAddrUn
empty_unix = record { sun_family = 0; sun_path = replicate 108 0 }
