-- ===== src/Address/V4.antt =====
-- src/net/address.cpp: IPV4Address over the system's `inet_pton`. A constructor is
-- `setByHostAndPort` on the empty address. A failed `inet_pton` leaves its buffer as it was, and
-- each throw comes before the first write, so an address keeps its value when `none` is returned.
use net_base.Base.{
  ap₂, ℕ, ◌+◌, ◌*◌, ◌/◌, ◌%◌, ◌<◌, ◌≡◌, ap, ◌∙◌, [], ◌∷◌, ◌++◌, Option, some, Bytes, ◌>>=◌, decimal,
  arith,
}
use net_base.Address.{SockAddrIn, host_and_port, htons, ntohs, af_inet, empty_ipv4}
use net_base.Address.Parsing.{host_and_port-append, htons-ntohs, strip_brackets-dot}
use net_base.Address.Port.{get_port_from_string, get_port_from_string-decimal}

module _ (inet_pton : Bytes → Option Bytes) where
  -- setByHostAndPort(StringArg, uint16_t)
  pub set_by_host_and_port_number : Bytes → ℕ → SockAddrIn → Option SockAddrIn
  set_by_host_and_port_number host port a = inet_pton host >>= λ address.
      some (record a { sin_addr = address; sin_port = htons port; sin_family = af_inet })

  -- setByHostAndPort(StringArg, StringArg)
  pub set_by_host_and_port_text : Bytes → Bytes → SockAddrIn → Option SockAddrIn
  unfolding set_by_host_and_port_number
  set_by_host_and_port_text host port a =
      get_port_from_string port >>= λ n. set_by_host_and_port_number host n a

  -- setByHostAndPort(StringArg)
  unfoldable pub set_by_host_and_port : Bytes → SockAddrIn → Option SockAddrIn
  unfolding set_by_host_and_port_text
  set_by_host_and_port text a = host_and_port text >>= λ h. set_by_host_and_port_text h.0 h.1 a

  -- IPV4Address(StringArg)
  pub ipv4_address : Bytes → Option SockAddrIn
  unfolding set_by_host_and_port
  ipv4_address text = set_by_host_and_port text empty_ipv4

-- The four bytes of `ntohl(addr_.sin_addr.s_addr)` as a number.
pub ntohl : Bytes → ℕ
ntohl (a ∷ b ∷ c ∷ d ∷ []) = a * 16777216 + b * 65536 + c * 256 + d
ntohl _ = 0

-- getAddressStr
unfoldable pub get_address_str : SockAddrIn → Bytes
unfolding ntohl
get_address_str a =
    let n = ntohl a.sin_addr in
    decimal (n / 16777216 % 256)
    ++ (b'.' ∷ decimal (n / 65536 % 256)
        ++ (b'.' ∷ decimal (n / 256 % 256) ++ (b'.' ∷ decimal (n % 256))))

-- toString
unfoldable pub to_string : SockAddrIn → Bytes
unfolding get_address_str
to_string a = get_address_str a ++ (b':' ∷ decimal (ntohs a.sin_port))

pub set_port : ℕ → SockAddrIn → SockAddrIn
set_port port a = record a { sin_port = htons port }

pub get_port : SockAddrIn → ℕ
get_port a = ntohs a.sin_port

host_and_port-to_string :
    (a : SockAddrIn)
    → host_and_port (to_string a) ≡ some (get_address_str a, decimal (ntohs a.sin_port))
unfolding to_string get_address_str
host_and_port-to_string a =
    host_and_port-append (get_address_str a) (ntohs a.sin_port)
    ∙ ap (λ h. some (h, decimal (ntohs a.sin_port)))
        (strip_brackets-dot (ntohl a.sin_addr / 16777216 % 256) _)

-- A port is two bytes.
abbrev pub IsPort : ℕ × ℕ → Type 0
IsPort p = (p.0 < 256) × (p.1 < 256)

pub ntohs_small : (p : ℕ × ℕ) → IsPort p → ntohs p < 65536
ntohs_small p h = omega (arith, h.0, h.1)

-- If the system reads the printed host as the address's, the text of an IPv4 address with a port
-- of two bytes sets any address to its host and port, and to the family AF_INET.
pub set_by_host_and_port-to_string :
    (inet_pton : Bytes → Option Bytes) (a b : SockAddrIn)
    → inet_pton (get_address_str a) ≡ some a.sin_addr
    → IsPort a.sin_port
    → set_by_host_and_port inet_pton (to_string a) b
      ≡ some (record b { sin_addr = a.sin_addr; sin_port = a.sin_port; sin_family = af_inet })
unfolding set_by_host_and_port set_by_host_and_port_text set_by_host_and_port_number
set_by_host_and_port-to_string inet_pton a b reads port =
    ap (λ o. o >>= λ h. set_by_host_and_port_text inet_pton h.0 h.1 b) (host_and_port-to_string a)
    ∙ ap (λ o. o >>= λ n. set_by_host_and_port_number inet_pton (get_address_str a) n b)
        (get_port_from_string-decimal (ntohs a.sin_port) (ntohs_small a.sin_port port))
    ∙ ap₂
        (λ o p. o >>= λ address.
          some (record b { sin_addr = address; sin_port = p; sin_family = af_inet }))
        reads (htons-ntohs a.sin_port port.0 port.1)

abbrev pub dotted : ℕ → ℕ → ℕ → ℕ → Bytes
dotted a b c d = decimal a ++ (b'.' ∷ decimal b ++ (b'.' ∷ decimal c ++ (b'.' ∷ decimal d)))

-- The shifts and masks take the number apart into its four bytes.
pub get_address_str-dotted :
    (a b c d : ℕ) (s : SockAddrIn)
    → a < 256
    → b < 256
    → c < 256
    → d < 256
    → get_address_str (record s { sin_addr = a ∷ b ∷ c ∷ d ∷ [] }) ≡ dotted a b c d
unfolding get_address_str ntohl
get_address_str-dotted a b c d s ha hb hc hd =
    let n = a * 16777216 + b * 65536 + c * 256 + d in
    let ea : n / 16777216 % 256 ≡ a = omega arith in
    let eb : n / 65536 % 256 ≡ b = omega arith in
    let ec : n / 256 % 256 ≡ c = omega arith in
    let ed : n % 256 ≡ d = omega arith in λ i. dotted (ea i) (eb i) (ec i) (ed i)
