-- ===== src/Address/Parsing.antt =====
-- `HostAndPortParser` of src/net/address.cpp on a text that a host and a port were printed to.
use net_base.Base.{
  ◌>>=◌, ◌<◌, ap₂, ℕ, ◌≡◌, ◌≢◌, refl, ap, List, [], ◌∷◌, ◌++◌, none, some, Bytes, ==-ne, All,
  IsDigit, decimal, decimal-IsDigit, arith,
}
use net_base.Address.{htons, ntohs, last_colon, strip_brackets, host_and_port}

last_colon-none : (s : Bytes) → All (λ c. c ≢ b':') s → last_colon s ≡ none
unfolding last_colon
last_colon-none [] h = refl
last_colon-none (c ∷ s) (n, h) = rw (last_colon-none s h, ==-ne c b':' n) refl

last_colon-append :
    (host port : Bytes)
    → All (λ c. c ≢ b':') port
    → last_colon (host ++ (b':' ∷ port)) ≡ some (host, port)
unfolding last_colon
last_colon-append [] port h = rw (last_colon-none port h) refl
last_colon-append (c ∷ host) port h = rw (last_colon-append host port h) refl

All-imp {ℓ κ ι} :
    {A : Type ℓ} (P : A → Type κ) (Q : A → Type ι) (xs : List A)
    → ((a : A) → P a → Q a)
    → All P xs
    → All Q xs
All-imp P Q [] f h = tt
All-imp P Q (x ∷ xs) f (p, h) = (f x p, All-imp P Q xs f h)

-- What is printed as a host, a colon and a port is taken apart at that colon; only brackets are
-- taken off the host.
pub host_and_port-append :
    (host : Bytes) (port : ℕ)
    → host_and_port (host ++ (b':' ∷ decimal port)) ≡ some (strip_brackets host, decimal port)
unfolding host_and_port
host_and_port-append host port =
    ap (λ o. o >>= λ p. some (strip_brackets p.0, p.1))
      (last_colon-append host (decimal port) (
        All-imp IsDigit (λ c. c ≢ b':') (decimal port) (λ c d e. omega (arith, d.1, e))
          (decimal-IsDigit port)))

strip_brackets-digits :
    (t s : Bytes) → All IsDigit t → strip_brackets (t ++ (b'.' ∷ s)) ≡ t ++ (b'.' ∷ s)
unfolding strip_brackets
strip_brackets-digits [] s h = refl
strip_brackets-digits (c ∷ t) s (d, h) = rw (==-ne c b'[' (λ e. omega (arith, d.1, e))) refl

-- A host that begins with digits and a dot keeps its text.
pub strip_brackets-dot :
    (n : ℕ) (s : Bytes) → strip_brackets (decimal n ++ (b'.' ∷ s)) ≡ decimal n ++ (b'.' ∷ s)
strip_brackets-dot n s = strip_brackets-digits (decimal n) s (decimal-IsDigit n)

pub htons-ntohs : (p : ℕ × ℕ) → p.0 < 256 → p.1 < 256 → htons (ntohs p) ≡ p
htons-ntohs (high, low) h l = ap₂ (λ a b. (a, b)) (omega (arith, h, l)) (omega (arith, h, l))

pub ntohs-htons : (port : ℕ) → ntohs (htons port) ≡ port
ntohs-htons port = omega arith
