-- ===== src/Socket.antt =====
-- src/net/socket.cpp, and the functions of src/net/socket_opt.cpp that it calls. The system calls
-- and the reading of the thread's IOManager are parameters. `none` is a failed assertion or an
-- exception; -1 is `none` of a descriptor.
pub mod Accepting
pub mod Messages
mod Tests
use net_base.Base.{ℕ, Bool, true, false, ◌==◌, Option, none, some, if◌then◌else◌, ◌>>=◌}
use net_base.Address.{
  SockAddress, ipv4, ipv6, unix, empty_ipv4, empty_ipv6, empty_unix, family, af_inet, af_inet6,
}
use net_base.IoManager.{IoManager, remove_event}
use net_base.IoManager.Epoll.{in_events, out_events}

-- The members of a Socket.
pub record Socket : Type 0 where
  pub fd_ : Option ℕ
  pub local_address : Option SockAddress

-- A TcpConnection: its socket, and the other side.
pub record TcpConnection : Type 0 where
  pub connected_ : Bool
  pub socket_ : Socket
  pub peer_addr : Option SockAddress

pub data Choice : Type 0 where
  tcp_no_delay reuse_addr reuse_port keep_alive : Choice

-- `accept_sys` also gives the address that the kernel leaves in place of the one it is passed.
pub record System (W : Type 0) : Type 0 where
  pub socket_sys : ℕ → ℕ → ℕ → W → Option ℕ × W
  pub bind_sys : Option ℕ → SockAddress → W → Bool × W
  pub accept_sys : Option ℕ → SockAddress → W → (Option ℕ × SockAddress) × W
  pub listen_sys : Option ℕ → ℕ → W → Bool × W
  pub connect_sys : Option ℕ → SockAddress → W → Bool × W
  pub shutdown_sys : Option ℕ → W → Bool × W
  pub set_option_sys : Option ℕ → Choice → Bool → W → Bool × W
  pub close_sys : Option ℕ → W → Bool × W

abbrev pub af_unix : ℕ
af_unix = 1

-- The address that sockopt::accept makes for a family; any other throws.
unfoldable pub empty_address : ℕ → Option SockAddress
empty_address f =
    if f == af_inet
    then some (ipv4 empty_ipv4)
    else if f == af_inet6
    then some (ipv6 empty_ipv6)
    else if f == af_unix
    then some (unix empty_unix)
    else none

-- stopRead and stopWrite of a socket that is open
pub stop_read : ℕ → IoManager → IoManager
stop_read fd m = remove_event fd in_events m

pub stop_write : ℕ → IoManager → IoManager
stop_write fd m = remove_event fd out_events m

module _ {W : Type 0} (system : System W) where
  open system use {
    socket_sys, bind_sys, accept_sys, listen_sys, connect_sys, shutdown_sys, set_option_sys,
    close_sys,
  }

  -- LON_ERROR_INVOKE_ASSERT
  pub asserted : Bool × W → Option W
  asserted (true, w) = some w
  asserted (false, w) = none

  -- Socket(int, int, int), which throws ExecFailed
  pub new_socket : ℕ → ℕ → ℕ → W → Option (Socket × W)
  new_socket domain type protocol w =
      let (fd, v) = socket_sys domain type protocol w in
      fd >>= λ n. some (record { fd_ = some n; local_address = none }, v)

  unfoldable pub bind : Option SockAddress → Socket → W → Bool × Socket × W
  bind none s w = (false, record s { local_address = none }, w)
  bind (some address) s w =
      let (ok, v) = bind_sys s.fd_ address w in (ok, record s { local_address = some address }, v)

  -- sockopt::accept(int, sa_family_t)
  unfoldable pub accept_from : Option ℕ → ℕ → W → Option ((SockAddress × ℕ) × W)
  unfolding empty_address
  accept_from fd f w = empty_address f >>= λ address.
      let (r, v) = accept_sys fd address w in r.0 >>= λ n. some ((r.1, n), v)

  -- The connection that a socket hands out for an accepted descriptor.
  unfoldable pub connection : SockAddress → (SockAddress × ℕ) × W → Option TcpConnection × W
  connection local ((peer, fd), w) = (
    some (record {
      connected_ = true;
      socket_ = record { fd_ = some fd; local_address = some local };
      peer_addr = some peer;
    }),
    w,
  )

  -- accept; the inner `none` is the null pointer.
  unfoldable pub accept_on : Option ℕ → Option SockAddress → W → Option (Option TcpConnection × W)
  unfolding accept_from connection
  accept_on none local w = some (none, w)
  accept_on (some fd) none w = some (none, w)
  accept_on (some fd) (some local) w =
      accept_from (some fd) (family local) w >>= λ r. some (connection local r)

  unfoldable pub accept : Socket → W → Option (Option TcpConnection × W)
  unfolding accept_on
  accept s w = accept_on s.fd_ s.local_address w

  pub listen : ℕ → Socket → W → Bool × W
  listen backlog s w = listen_sys s.fd_ backlog w

  pub connect : Option SockAddress → Socket → W → Option (Option TcpConnection × W)
  unfolding asserted
  connect none s w = some (none, w)
  connect (some peer) s w = elim s.fd_ [
    | none ↦ some (none, w)
    | some fd ↦ asserted (connect_sys (some fd) peer w) >>= λ v.
        some (some (record { connected_ = true; socket_ = s; peer_addr = some peer }), v)
  ]

  -- setTcpNoDelay does not use its argument.
  unfoldable pub set_tcp_no_delay : Bool → Socket → W → Option W
  unfolding asserted
  set_tcp_no_delay on s w = asserted (set_option_sys s.fd_ tcp_no_delay true w)

  pub set_reuse_addr : Bool → Socket → W → Option W
  unfolding asserted
  set_reuse_addr on s w = asserted (set_option_sys s.fd_ reuse_addr on w)

  pub set_reuse_port : Bool → Socket → W → Option W
  unfolding asserted
  set_reuse_port on s w = asserted (set_option_sys s.fd_ reuse_port on w)

  pub set_keep_alive : Bool → Socket → W → Option W
  unfolding asserted
  set_keep_alive on s w = asserted (set_option_sys s.fd_ keep_alive on w)

  unfoldable pub close : Socket → W → Socket × W
  close s w = (record s { fd_ = none }, (close_sys s.fd_ w).1)

  -- shutdownWrite of a socket that is open, with stopWrite
  pub shutdown_write : ℕ → W → IoManager → Option (W × IoManager)
  unfolding asserted stop_write
  shutdown_write fd w m = asserted (shutdown_sys (some fd) w) >>= λ v. some (v, stop_write fd m)
