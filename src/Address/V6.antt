-- ===== src/Address/V6.antt =====
-- src/net/address.cpp: IPV6Address over the system's `inet_pton`, `inet_ntop` and
-- `if_indextoname`, and `toHex` of include/base/bytes.h. Constructors and `none` as in V4.
use net_base.Base.{
  ◌-◌, ℕ, ◌+◌, ◌*◌, ◌/◌, ◌%◌, ◌≡◌, refl, ap, ap₂, ◌∙◌, [], ◌∷◌, ◌++◌, Option, none, some, Bytes,
  ◌>>=◌, decimal, codes, ltb, ◌==◌, if◌then◌else◌,
}
use net_base.Address.{
  SockAddrIn6, host_and_port, htons, ntohs, af_inet6, empty_ipv6, strip_brackets,
}
use net_base.Address.Port.{get_port_from_string, get_port_from_string-decimal}
use net_base.Address.Parsing.{host_and_port-append, htons-ntohs}
use net_base.Address.V4.{IsPort, ntohs_small}

-- A digit of the table "0123456789abcdef".
abbrev pub hex_digit : ℕ → ℕ
hex_digit n = if ltb n 10 then b'0' + n else b'a' + n - 10

-- toHex
pub to_hex : Bytes → Bytes
to_hex [] = []
to_hex (c ∷ src) = hex_digit (c / 16) ∷ hex_digit (c % 16) ∷ to_hex src

-- The scope as a number; it stands in memory with the low byte first.
unfoldable pub scope_id : Bytes → ℕ
scope_id [] = 0
scope_id (b ∷ s) = b + 256 * scope_id s

-- What the system knows of addresses and interfaces.
pub record Names : Type 0 where
  pub inet_pton : Bytes → Option Bytes
  pub inet_ntop : Bytes → Option Bytes
  pub if_indextoname : ℕ → Option Bytes

module _ (names : Names) where
  open names use {inet_pton, inet_ntop, if_indextoname}

  -- setByHostAndPort(StringArg, uint16_t)
  pub set_by_host_and_port_number : Bytes → ℕ → SockAddrIn6 → Option SockAddrIn6
  set_by_host_and_port_number host port a = inet_pton host >>= λ address.
      some (record a { sin6_addr = address; sin6_port = htons port; sin6_family = af_inet6 })

  -- setByHostAndPort(StringArg, StringArg)
  pub set_by_host_and_port_text : Bytes → Bytes → SockAddrIn6 → Option SockAddrIn6
  unfolding set_by_host_and_port_number
  set_by_host_and_port_text host port a =
      get_port_from_string port >>= λ n. set_by_host_and_port_number host n a

  -- setByHostAndPort(StringArg)
  unfoldable pub set_by_host_and_port : Bytes → SockAddrIn6 → Option SockAddrIn6
  unfolding set_by_host_and_port_text
  set_by_host_and_port text a = host_and_port text >>= λ h. set_by_host_and_port_text h.0 h.1 a

  -- IPV6Address(StringArg)
  pub ipv6_address : Bytes → Option SockAddrIn6
  unfolding set_by_host_and_port
  ipv6_address text = set_by_host_and_port text empty_ipv6

  -- The name of a scope, or its number, of at most ten digits.
  pub scope_name : ℕ → Option Bytes → Bytes
  scope_name n (some name) = name
  scope_name n none = decimal n

  -- The host behind `inet_ntop`, with the scope if there is one.
  pub scoped : Bytes → Option Bytes → Bytes → Bytes
  unfolding to_hex scope_name scope_id
  scoped address none scope = codes "invalid ipv6 address with hex:" ++ to_hex address
  scoped address (some host) scope =
      let n = scope_id scope in
      if n == 0 then host else host ++ (b'%' ∷ scope_name n (if_indextoname n))

  -- getAddressStr
  pub get_address_str : SockAddrIn6 → Bytes
  unfolding scoped
  get_address_str a = scoped a.sin6_addr (inet_ntop a.sin6_addr) a.sin6_scope_id

  -- toString
  unfoldable pub to_string : SockAddrIn6 → Bytes
  unfolding get_address_str
  to_string a = get_address_str a ++ (b':' ∷ decimal (ntohs a.sin6_port))

pub set_port : ℕ → SockAddrIn6 → SockAddrIn6
set_port port a = record a { sin6_port = htons port }

pub get_port : SockAddrIn6 → ℕ
get_port a = ntohs a.sin6_port

scoped_none :
    (names : Names) (address host scope : Bytes)
    → scope_id scope ≡ 0
    → scoped names address (some host) scope ≡ host
unfolding scoped
scoped_none names address host scope h = rw h refl

module _ (names : Names) where
  open names use {inet_pton, inet_ntop}

  host_and_port-to_string6 :
      (a : SockAddrIn6) (host : Bytes)
      → inet_ntop a.sin6_addr ≡ some host
      → strip_brackets host ≡ host
      → scope_id a.sin6_scope_id ≡ 0
      → host_and_port (to_string names a) ≡ some (host, decimal (ntohs a.sin6_port))
  unfolding to_string get_address_str
  host_and_port-to_string6 a host prints plain scope =
      ap (λ h. host_and_port (h ++ (b':' ∷ decimal (ntohs a.sin6_port))))
        (ap (λ o. scoped names a.sin6_addr o a.sin6_scope_id) prints
          ∙ scoped_none names a.sin6_addr host a.sin6_scope_id scope)
      ∙ host_and_port-append host (ntohs a.sin6_port)
      ∙ ap (λ h. some (h, decimal (ntohs a.sin6_port))) plain

  -- An address without a scope is printed and read back, into any address, although its host has
  -- no brackets, if the system prints and reads its host, and no host begins with a bracket.
  pub set_by_host_and_port-to_string6 :
      (a b : SockAddrIn6) (host : Bytes)
      → inet_ntop a.sin6_addr ≡ some host
      → inet_pton host ≡ some a.sin6_addr
      → strip_brackets host ≡ host
      → scope_id a.sin6_scope_id ≡ 0
      → IsPort a.sin6_port
      → set_by_host_and_port names (to_string names a) b
        ≡ some
            (record b { sin6_addr = a.sin6_addr; sin6_port = a.sin6_port; sin6_family = af_inet6 })
  unfolding set_by_host_and_port set_by_host_and_port_text set_by_host_and_port_number
  set_by_host_and_port-to_string6 a b host prints reads plain scope port =
      ap (λ o. o >>= λ (h : Bytes × Bytes). set_by_host_and_port_text names h.0 h.1 b)
        (host_and_port-to_string6 a host prints plain scope)
      ∙ ap (λ o. o >>= λ n. set_by_host_and_port_number names host n b)
          (get_port_from_string-decimal (ntohs a.sin6_port) (ntohs_small a.sin6_port port))
      ∙ ap₂
          (λ o p. o >>= λ address.
            some (record b { sin6_addr = address; sin6_port = p; sin6_family = af_inet6 }))
          reads (htons-ntohs a.sin6_port port.0 port.1)
