-- ===== src/TcpServer.antt =====
-- include/net/tcp/tcp_server.h and src/net/tcp/tcp_server.cpp: binding, starting and stopping. A
-- socket is its descriptor, an executor its address. ::socket, Socket::bind and Socket::listen
-- are a parameter over a world `W`, the initializer of a socket is a part of the first. Messages
-- to the log are left out.
mod Binding
mod Serving
mod Tests
use net_base.Base.{ℕ, Bool, true, false, List, [], ◌∷◌, ◌++◌, Option, none, some, if◌then◌else◌}
use net_base.Scheduler.{Scheduler, add_executor}

pub record TcpServer : Type 0 where
  pub serving : Bool
  pub listen_sockets : List ℕ

-- ::socket with the initializer, Socket::bind and Socket::listen; -1 is `none` or `false`.
pub record Sockets (A W : Type 0) : Type 0 where
  pub socket : A → W → Option ℕ × W
  pub bind : ℕ → A → W → Bool × W
  pub listen : ℕ → W → Bool × W

is_empty : List ℕ → Bool
is_empty [] = true
is_empty (x ∷ xs) = false

reported : {A : Type 0} → List A → Option (List A)
reported [] = none
reported (a ∷ addresses) = some (a ∷ addresses)

module _ {A W : Type 0} (sockets : Sockets A W) where
  open sockets use {socket, bind, listen}

  listening : ℕ → TcpServer → Bool × W → Bool × TcpServer × W
  listening fd s (false, w) = (false, s, w)
  listening fd s (true, w) = (true, record s { listen_sockets = s.listen_sockets ++ fd ∷ [] }, w)

  bound : ℕ → TcpServer → Bool × W → Bool × TcpServer × W
  unfolding listening
  bound fd s (false, w) = (false, s, w)
  bound fd s (true, w) = listening fd s (listen fd w)

  opened : A → TcpServer → Option ℕ × W → Bool × TcpServer × W
  unfolding bound
  opened address s (none, w) = (false, s, w)
  opened address s (some fd, w) = bound fd s (bind fd address w)

  -- TcpServer::bindOne, and TcpServer::addBindAddr
  pub bind_one : A → TcpServer → W → Bool × TcpServer × W
  unfolding opened
  bind_one address s w = opened address s (socket address w)

  -- TcpServer::bind of one address
  pub bind_address : A → TcpServer → W → Bool × TcpServer × W
  unfolding bind_one is_empty
  bind_address address s w =
      if is_empty s.listen_sockets then bind_one address s w else (false, s, w)

  go_on :
      A → Bool × TcpServer × W → (TcpServer → W → List A × TcpServer × W) → List A × TcpServer × W
  go_on address (false, s, w) rest = ([], s, w)
  go_on address (true, s, w) rest = let (addresses, t, v) = rest s w in (address ∷ addresses, t, v)

  -- The loop of TcpServer::bind: the addresses in `bind_failed_addresses`, and the server behind.
  pub bind_each : List A → TcpServer → W → List A × TcpServer × W
  unfolding go_on bind_one
  bind_each [] s w = ([], s, w)
  bind_each (address ∷ rest) s w = go_on address (bind_one address s w) (bind_each rest)

  -- TcpServer::bind of several addresses; `none` is std::nullopt.
  pub bind_addresses : List A → TcpServer → W → Option (List A) × TcpServer × W
  unfolding bind_each reported is_empty
  bind_addresses addresses s w =
      if is_empty s.listen_sockets
      then (let (failed, t, v) = bind_each addresses s w in (reported failed, t, v))
      else (some addresses, s, w)

-- `acceptor fd` is the executor of the accepting loop over a socket.
add_acceptors : (ℕ → ℕ) → List ℕ → Scheduler → Scheduler
add_acceptors acceptor [] scheduler = scheduler
add_acceptors acceptor (fd ∷ rest) scheduler =
    add_acceptors acceptor rest (add_executor (some (acceptor fd)) scheduler).1

-- TcpServer::startServe, which always returns true.
pub start_serve : (ℕ → ℕ) → TcpServer → Scheduler → TcpServer × Scheduler
unfolding add_acceptors
start_serve acceptor s scheduler =
    if s.serving
    then (s, scheduler)
    else (record s { serving = true }, add_acceptors acceptor s.listen_sockets scheduler)

-- TcpServer::stopServe; `closer` is the executor that shuts the sockets down.
pub stop_serve : ℕ → TcpServer → Scheduler → TcpServer × Scheduler
stop_serve closer s scheduler =
    if s.serving
    then (record s { serving = false }, (add_executor (some closer) scheduler).1)
    else (s, scheduler)
