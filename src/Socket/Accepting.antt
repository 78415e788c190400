-- ===== src/Socket/Accepting.antt =====
-- Binding and then accepting with a Socket of src/net/socket.cpp.
use net_base.Base.{ℕ, ◌≡◌, ap, ◌∙◌, true, some, ◌>>=◌}
use net_base.Address.{SockAddress, family}
use net_base.Socket.{
  Socket, System, bind, accept, accept_on, connection, accept_from, empty_address,
}

module _ {W : Type 0} (system : System W) where
  open system use {bind_sys, accept_sys}

  accept_from-some :
      (fd n f : ℕ) (start peer : SockAddress) (v u : W)
      → empty_address f ≡ some start
      → accept_sys (some fd) start v ≡ ((some n, peer), u)
      → accept_from system (some fd) f v ≡ some ((peer, n), u)
  unfolding accept_from
  accept_from-some fd n f start peer v u e a =
      ap
        (λ o. o >>= λ address. (accept_sys (some fd) address v).0.0 >>= λ n.
          some (((accept_sys (some fd) address v).0.1, n), (accept_sys (some fd) address v).1))
        e
      ∙ ap (λ r. r.0.0 >>= λ n. some ((r.0.1, n), r.1)) a

  -- A socket that is open and bound to an address of a known family gives, for a connection that
  -- the system accepts, its descriptor with the address that the socket was bound to, whether the
  -- system's bind succeeded or not.
  pub accept-bind :
      (fd n : ℕ) (local start peer : SockAddress) (s : Socket) (w u : W)
      → s.fd_ ≡ some fd
      → empty_address (family local) ≡ some start
      → accept_sys (some fd) start (bind_sys (some fd) local w).1 ≡ ((some n, peer), u)
      → accept system (bind system (some local) s w).1 (bind system (some local) s w).2
        ≡ some (
          some (record {
            connected_ = true;
            socket_ = record { fd_ = some n; local_address = some local };
            peer_addr = some peer;
          }),
          u,
        )
  unfolding accept bind accept_on connection
  accept-bind fd n local start peer s w u open_ e a =
      ap (λ f. accept_on system f (some local) (bind_sys f local w).1) open_
      ∙ ap (λ o. o >>= λ r. some (connection system local r))
          (accept_from-some fd n (family local) start peer (bind_sys (some fd) local w).1 u e a)
