-- ===== src/Address/Resolve.antt =====
-- src/net/address.cpp: `IPAddress::create` over the system's `getaddrinfo`, and UnixAddress.
use net_base.Base.{
  sym, ◌∙◌, ℕ, ◌≡◌, ap, [], ◌∷◌, ◌++◌, Option, none, some, Bytes, ◌>>=◌, decimal, take, take_all,
  length-decimal, ltb, ◌==◌, if◌then◌else◌, arith, ◌<◌,
}
use net_base.Address.Parsing.{host_and_port-append}
use net_base.Address.{
  strip_brackets, SockAddress, SockAddrIn, SockAddrIn6, SockAddrUn, ipv4, ipv6, af_inet, af_inet6,
  host_and_port,
}

-- The first result of getaddrinfo; `as_in` and `as_in6` are what `ai_addr` points to, read as
-- either structure.
pub record AddrInfo : Type 0 where
  pub ai_family : ℕ
  pub ai_addrlen : ℕ
  pub as_in : SockAddrIn
  pub as_in6 : SockAddrIn6

-- `none` is an exception, `some none` the null pointer.
pub chosen : AddrInfo → Option (Option SockAddress)
chosen info =
    if info.ai_family == af_inet
    then (if ltb info.ai_addrlen 16 then none else some (some (ipv4 info.as_in)))
    else if info.ai_family == af_inet6
    then (if ltb info.ai_addrlen 28 then none else some (some (ipv6 info.as_in6)))
    else some none

-- `getaddrinfo` with the hints of getAddrInfo; `none` is an error code, and becomes an exception.
module _ (getaddrinfo : Bytes → Bytes → Option AddrInfo) where
  -- create(StringArg, StringArg)
  unfoldable pub create : Bytes → Bytes → Option (Option SockAddress)
  unfolding chosen
  create host port = getaddrinfo host port >>= chosen

  -- create(StringArg, uint16_t): `port_str` has room for five digits.
  unfoldable pub create_numbered : Bytes → ℕ → Option (Option SockAddress)
  unfolding create
  create_numbered host port = create host (take 5 (decimal port))

  -- create(StringArg)
  unfoldable pub create_joined : Bytes → Option (Option SockAddress)
  unfolding create
  create_joined text = host_and_port text >>= λ h. create h.0 h.1

-- The text before the first NUL.
pub c_string : Bytes → Bytes
c_string [] = []
c_string (c ∷ s) = if c == 0 then [] else c ∷ c_string s

-- UnixAddress::toString: a backslash, a zero and the path.
unfoldable pub unix_to_string : SockAddrUn → Bytes
unfolding c_string
unix_to_string a = b'\\' ∷ b'0' ∷ c_string a.sun_path

-- A host and a port number resolve as the printed pair does: the buffer for the port cuts nothing
-- off, and the parser takes the pair apart again.
pub create_joined-create_numbered :
    (getaddrinfo : Bytes → Bytes → Option AddrInfo) (host : Bytes) (port : ℕ)
    → strip_brackets host ≡ host
    → port < 65536
    → create_joined getaddrinfo (host ++ (b':' ∷ decimal port))
      ≡ create_numbered getaddrinfo host port
unfolding create_joined create_numbered
create_joined-create_numbered getaddrinfo host port plain h =
    ap (λ o. o >>= λ (h : Bytes × Bytes). create getaddrinfo h.0 h.1)
      (host_and_port-append host port)
    ∙ ap (λ h. create getaddrinfo h (decimal port)) plain
    ∙ ap (create getaddrinfo host)
        (sym (take_all 5 (decimal port) (length-decimal 4 port (omega (arith, h)))))
