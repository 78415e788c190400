-- ===== src/TcpServer/Serving.antt =====
-- src/net/tcp/tcp_server.cpp: the executors that `startServe` and `stopServe` add, and the
-- destructor, over the sockets of src/net/socket.cpp. `onAccept` is virtual, so a parameter.
use net_base.Base.{
  ap, ◌∙◌, ◌≡◌, refl, OnSome, OnSome-then, OnSome-bind, All, ℕ, zero, suc, Bool, true, List, [],
  ◌∷◌, Option, none, some, if◌then◌else◌, ◌>>=◌,
}
use net_base.IoManager.{IoManager}
use net_base.Socket.{
  Socket, System, TcpConnection, accept, shutdown_write, stop_read, close, accept_on,
}

-- How a loop ends: `serving_` is false, or an exception leaves it.
pub data LoopEnd (W : Type 0) : Type 0 where
  stopped : W → LoopEnd W
  thrown : LoopEnd W

module _ {W : Type 0} (system : System W) where
  -- The body of the accepting loop, behind `accept`: without a connection it only goes on.
  unfoldable pub handle_accepted :
      (TcpConnection → W → W)
      → (W → Option (LoopEnd W))
      → Option (Option TcpConnection × W)
      → Option (LoopEnd W)
  handle_accepted on_accept rest none = some thrown
  handle_accepted on_accept rest (some (none, w)) = rest w
  handle_accepted on_accept rest (some (some connection, w)) = rest (on_accept connection w)

  -- The executor of startServe, with its copy of the socket. `serving` reads `serving_`, which
  -- others may change while `accept` waits. `none`: the fuel ran out.
  unfoldable pub accept_loop :
      (W → Bool) → (TcpConnection → W → W) → ℕ → Socket → W → Option (LoopEnd W)
  unfolding handle_accepted
  accept_loop serving on_accept zero socket w = none
  accept_loop serving on_accept (suc fuel) socket w =
      if serving w
      then handle_accepted on_accept (accept_loop serving on_accept fuel socket)
          (accept system socket w)
      else some (stopped w)

  -- The loop of stopServe's executor: shutdownWrite, stopRead and close of a socket. ::shutdown of
  -- a closed one fails, which is an exception: `none`.
  pub close_listener : Socket → W → IoManager → Option (Socket × W × IoManager)
  close_listener s w m = s.fd_ >>= λ fd. shutdown_write system fd w m >>= λ r.
      let (t, v) = close system s r.0 in some (t, v, stop_read fd r.1)

  pub close_listeners : List Socket → W → IoManager → Option (List Socket × W × IoManager)
  unfolding close_listener
  close_listeners [] w m = some ([], w, m)
  close_listeners (s ∷ rest) w m =
      close_listener s w m >>= λ r. close_listeners rest r.1 r.2 >>= λ q. some (r.0 ∷ q.0, q.1, q.2)

  pub close_each : List Socket → W → W
  close_each [] w = w
  close_each (s ∷ rest) w = close_each rest (close system s w).1

  -- ~TcpServer. While it serves, stopServe asks for a shared pointer to an object that no longer
  -- has one; the exception ends the program, which is `none`.
  unfoldable pub tcp_server_dtor : Bool → List Socket → W → Option W
  unfolding close_each
  tcp_server_dtor serving listen_sockets w =
      if serving then none else some (close_each listen_sockets w)

  accept-closed : (s : Socket) (w : W) → s.fd_ ≡ none → accept system s w ≡ some (none, w)
  unfolding accept accept_on
  accept-closed s w closed = ap (λ fd. accept_on system fd s.local_address w) closed

  module _ (serving : W → Bool) (on_accept : TcpConnection → W → W) where
    -- Whatever the rest of the system has become, the loop over a socket neither returns nor waits.
    abbrev pub Spins : Socket → Type 0
    Spins s = (fuel : ℕ) (v : W) → serving v ≡ true → accept_loop serving on_accept fuel s v ≡ none

    closed-Spins : (s : Socket) → s.fd_ ≡ none → Spins s
    unfolding accept_loop handle_accepted
    closed-Spins s closed zero w on = refl
    closed-Spins s closed (suc fuel) w on =
        ap
          (λ b.
            if b
            then handle_accepted on_accept (accept_loop serving on_accept fuel s)
                (accept system s w)
            else some (stopped w))
          on
        ∙ (ap (handle_accepted on_accept (accept_loop serving on_accept fuel s))
              (accept-closed s w closed)
            ∙ closed-Spins s closed fuel w on)

  close_listener-closed :
      (s : Socket) (w : W) (m : IoManager) → OnSome (λ r. r.0.fd_ ≡ none) (close_listener s w m)
  unfolding close_listener close
  close_listener-closed s w m =
      OnSome-then (λ r. r.0.fd_ ≡ none)
        (λ fd. shutdown_write system fd w m >>= λ r.
          let (t, v) = close system s r.0 in some (t, v, stop_read fd r.1))
        s.fd_
        (λ fd.
          OnSome-then (λ r. r.0.fd_ ≡ none)
            (λ r. let (t, v) = close system s r.0 in some (t, v, stop_read fd r.1))
            (shutdown_write system fd w m) (λ r. refl))

  -- If stopServe's executor does not fail, each accepting loop that startServe makes afterwards
  -- neither returns nor waits while the server serves.
  pub close_listeners-Spins :
      (serving : W → Bool) (on_accept : TcpConnection → W → W)
      → (sockets : List Socket) (w : W) (m : IoManager)
      → OnSome (λ r. All (Spins serving on_accept) r.0) (close_listeners sockets w m)
  unfolding close_listeners
  close_listeners-Spins serving on_accept [] w m = tt
  close_listeners-Spins serving on_accept (s ∷ rest) w m =
      OnSome-bind (λ r. r.0.fd_ ≡ none) (λ r. All (Spins serving on_accept) r.0)
        (λ r. close_listeners rest r.1 r.2 >>= λ q. some (r.0 ∷ q.0, q.1, q.2))
        (close_listener s w m) (close_listener-closed s w m)
        (λ r closed.
          OnSome-bind (λ q. All (Spins serving on_accept) q.0)
            (λ q. All (Spins serving on_accept) q.0) (λ q. some (r.0 ∷ q.0, q.1, q.2))
            (close_listeners rest r.1 r.2) (close_listeners-Spins serving on_accept rest r.1 r.2)
            (λ q h. (closed-Spins serving on_accept r.0 closed, h)))
