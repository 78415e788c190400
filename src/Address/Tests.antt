-- ===== src/Address/Tests.antt =====
-- Concrete addresses, and runs of the operations of src/net/address.cpp on them.
use net_base.Base.{
  equals, ◌≡◌, refl, true, false, [], ◌∷◌, ◌++◌, Option, none, some, Bytes, codes, if◌then◌else◌,
  arith, replicate,
}
use net_base.Address.{
  addr_len, addr, strip_brackets, SockAddrIn, SockAddrIn6, ipv4, ipv6, unix, host_and_port,
  empty_ipv4, empty_ipv6, empty_unix,
}
use net_base.Address.Port.{get_port_from_string-port_of, get_port_from_string}
use net_base.Address.Order.{less, same, less-same_order, less-lex}
use net_base.Address.V4
use net_base.Address.V6
use net_base.Address.Resolve.{
  AddrInfo, create_joined, create_numbered, create_joined-create_numbered,
}

abbrev loopback : SockAddrIn
loopback = record empty_ipv4 {
  sin_family = 2;
  sin_port = (31, 144);
  sin_addr = 127 ∷ 0 ∷ 0 ∷ 1 ∷ [];
}

abbrev loopback6 : SockAddrIn6
loopback6 = record empty_ipv6 {
  sin6_family = 10;
  sin6_port = (31, 144);
  sin6_addr = replicate 15 0 ++ 1 ∷ [];
}

-- Systems that know the loopback addresses only.
abbrev pton4 : Bytes → Option Bytes
pton4 s = if equals s (codes "127.0.0.1") then some (127 ∷ 0 ∷ 0 ∷ 1 ∷ []) else none

abbrev names6 : V6.Names
names6 = record {
  inet_pton = λ s. if equals s (codes "::1") then some (replicate 15 0 ++ 1 ∷ []) else none;
  inet_ntop = λ s. if equals s (replicate 15 0 ++ 1 ∷ []) then some (codes "::1") else none;
  if_indextoname = λ n. none;
}

abbrev resolver : Bytes → Bytes → Option AddrInfo
resolver host port =
    if equals port (codes "8080")
    then some (record { ai_family = 2; ai_addrlen = 16; as_in = loopback; as_in6 = empty_ipv6 })
    else none

bracketed_host : host_and_port (codes "[::1]:80") ≡ some (codes "::1", codes "80")
unfolding host_and_port
bracketed_host = refl

no_colon : host_and_port (codes "8080") ≡ none
unfolding host_and_port
no_colon = refl

empty_port : get_port_from_string [] ≡ some 0
unfolding get_port_from_string
empty_port = refl

large_port : get_port_from_string (codes "65536") ≡ none
unfolding get_port_from_string
large_port = refl

set_by_host_and_port-to_string_example :
    V4.set_by_host_and_port pton4 (V4.to_string loopback) empty_ipv4 ≡ some loopback
unfolding V4.get_address_str
set_by_host_and_port-to_string_example =
    V4.set_by_host_and_port-to_string pton4 loopback empty_ipv4 refl (omega arith, omega arith)

set_by_host_and_port-to_string6_run :
    V6.set_by_host_and_port names6 (V6.to_string names6 loopback6) empty_ipv6 ≡ some loopback6
unfolding V6.scope_id host_and_port
set_by_host_and_port-to_string6_run =
    V6.set_by_host_and_port-to_string6 names6 loopback6 empty_ipv6 (codes "::1") refl refl refl refl
      (omega arith, omega arith)

get_port_from_string-port_of_example : get_port_from_string (codes "8080") ≡ some 8080
get_port_from_string-port_of_example = get_port_from_string-port_of (codes "8080")

less-same_order_example :
    (less (ipv4 loopback) (ipv6 loopback6) ≡ true
      → less (ipv6 loopback6) (unix empty_unix) ≡ true
      → less (ipv4 loopback) (unix empty_unix) ≡ true)
    × (less (ipv4 loopback) (ipv6 loopback6) ≡ true
        → (less (ipv6 loopback6) (ipv4 loopback) ≡ false)
          × (same (ipv4 loopback) (ipv6 loopback6) ≡ false))
    × (less (ipv4 loopback) (ipv6 loopback6) ≡ false
        → less (ipv6 loopback6) (ipv4 loopback) ≡ false
        → same (ipv4 loopback) (ipv6 loopback6) ≡ true)
unfolding addr addr_len
less-same_order_example =
    less-same_order (ipv4 loopback) (ipv6 loopback6) (unix empty_unix) refl refl refl

less-lex_run : less (ipv4 loopback) (unix empty_unix) ≡ false
unfolding addr addr_len
less-lex_run = less-lex (ipv4 loopback) (unix empty_unix) refl refl

create_joined-create_numbered_run :
    create_joined resolver (codes "localhost:8080")
    ≡ create_numbered resolver (codes "localhost") 8080
unfolding strip_brackets
create_joined-create_numbered_run =
    create_joined-create_numbered resolver (codes "localhost") 8080 refl (omega arith)
