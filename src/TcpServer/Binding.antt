-- ===== src/TcpServer/Binding.antt =====
-- What `bind` and `startServe` of src/net/tcp/tcp_server.cpp leave bound and running.
use net_base.Base.{
  ℕ, ◌+◌, ◌≡◌, refl, sym, ◌∙◌, Bool, true, false, List, [], ◌∷◌, ◌++◌, Option, none, some, arith,
  length, length-append, map, Bool-cases, inl, inr, append_assoc, append-nil,
}
use net_base.Scheduler.{Scheduler, add_executor}
use net_base.TcpServer.{
  TcpServer, Sockets, listening, bound, opened, bind_one, is_empty, go_on, bind_each, reported,
  bind_addresses, add_acceptors, start_serve,
}

module _ {A W : Type 0} (sockets : Sockets A W) where
  open sockets use {socket, bind, listen}

  abbrev one : Bool → ℕ
  one true = 1
  one false = 0

  abbrev Counts : TcpServer → Bool × TcpServer × W → Type 0
  Counts s (b, t, w) = length t.listen_sockets ≡ length s.listen_sockets + one b

  listening-Counts : (fd : ℕ) (s : TcpServer) (r : Bool × W) → Counts s (listening sockets fd s r)
  unfolding listening
  listening-Counts fd s (false, w) = omega arith
  listening-Counts fd s (true, w) = length-append s.listen_sockets (fd ∷ [])

  bound-Counts : (fd : ℕ) (s : TcpServer) (r : Bool × W) → Counts s (bound sockets fd s r)
  unfolding bound
  bound-Counts fd s (false, w) = omega arith
  bound-Counts fd s (true, w) = listening-Counts fd s (listen fd w)

  opened-Counts : (a : A) (s : TcpServer) (r : Option ℕ × W) → Counts s (opened sockets a s r)
  unfolding opened
  opened-Counts a s (none, w) = omega arith
  opened-Counts a s (some fd, w) = bound-Counts fd s (bind fd a w)

  bind_one-Counts : (a : A) (s : TcpServer) (w : W) → Counts s (bind_one sockets a s w)
  unfolding bind_one
  bind_one-Counts a s w = opened-Counts a s (socket a w)

  go_on-length :
      (a : A) (s : TcpServer) (r : Bool × TcpServer × W)
      (rest : TcpServer → W → List A × TcpServer × W)
      → Counts s r
      → ((t : TcpServer) (w : W)
          → length (rest t w).1.listen_sockets ≡ length t.listen_sockets + length (rest t w).0)
      → length (go_on sockets a r rest).1.listen_sockets
        ≡ length s.listen_sockets + length (go_on sockets a r rest).0
  unfolding go_on
  go_on-length a s (false, t, w) rest h g = omega (arith, h)
  go_on-length a s (true, t, w) rest h g = omega (arith, h, g t w)

  -- The loop of bind collects, as its failed addresses, as many as the sockets that it made
  -- listen.
  pub length-bind_each :
      (addresses : List A) (s : TcpServer) (w : W)
      → length (bind_each sockets addresses s w).1.listen_sockets
        ≡ length s.listen_sockets + length (bind_each sockets addresses s w).0
  unfolding bind_each
  length-bind_each [] s w = omega arith
  length-bind_each (a ∷ rest) s w =
      go_on-length a s (bind_one sockets a s w) (bind_each sockets rest) (bind_one-Counts a s w)
        (length-bind_each rest)

  reported-none : (failed : List A) → reported failed ≡ none → length failed ≡ 0
  unfolding reported
  reported-none [] e = refl
  reported-none (a ∷ failed) e = ground (arith, e)

  length-is_empty : (fds : List ℕ) → is_empty fds ≡ true → length fds ≡ 0
  unfolding is_empty
  length-is_empty [] e = refl
  length-is_empty (fd ∷ fds) e = ground (arith, e)

  -- When bind of several addresses returns nullopt, which means success, no socket of the server
  -- listens.
  pub bind_addresses-none :
      (addresses : List A) (s : TcpServer) (w : W)
      → (bind_addresses sockets addresses s w).0 ≡ none
      → length (bind_addresses sockets addresses s w).1.listen_sockets ≡ 0
  unfolding bind_addresses
  bind_addresses-none addresses s w = elim (Bool-cases (is_empty s.listen_sockets)) [
    | inl fresh ↦ rw fresh (λ e. omega (
      arith,
      length-bind_each addresses s w,
      length-is_empty s.listen_sockets fresh,
      reported-none (bind_each sockets addresses s w).0 e,
    ))
    | inr taken ↦ rw taken (λ e. ground (arith, e))
  ]

add_acceptors-ready :
    (acceptor : ℕ → ℕ) (fds : List ℕ) (scheduler : Scheduler)
    → scheduler.stopping ≡ false
    → (add_acceptors acceptor fds scheduler).ready_executors
      ≡ scheduler.ready_executors ++ map (λ fd. some (acceptor fd)) fds
unfolding add_acceptors add_executor
add_acceptors-ready acceptor [] scheduler run = sym (append-nil scheduler.ready_executors)
add_acceptors-ready acceptor (fd ∷ fds) scheduler run = rw run (
    add_acceptors-ready acceptor fds
      (record scheduler {
        stopping = false;
        ready_executors = scheduler.ready_executors ++ some (acceptor fd) ∷ [];
      })
      refl
    ∙ append_assoc scheduler.ready_executors (some (acceptor fd) ∷ [])
        (map (λ fd. some (acceptor fd)) fds))

-- On a thread that takes executors, starting a server that does not serve queues one accepting
-- loop for each listening socket, in order, and starting it again changes nothing.
pub start_serve_twice :
    (acceptor : ℕ → ℕ) (s : TcpServer) (scheduler : Scheduler)
    → s.serving ≡ false
    → scheduler.stopping ≡ false
    → let (t, after) = start_serve acceptor s scheduler in
      (t.serving ≡ true)
      × (after.ready_executors
          ≡ scheduler.ready_executors ++ map (λ fd. some (acceptor fd)) s.listen_sockets)
      × (start_serve acceptor t after ≡ (t, after))
unfolding start_serve
start_serve_twice acceptor s scheduler idle run =
    rw idle (refl, add_acceptors-ready acceptor s.listen_sockets scheduler run, refl)
