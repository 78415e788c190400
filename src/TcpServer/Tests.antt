-- ===== src/TcpServer/Tests.antt =====
-- The theorems on src/net/tcp/tcp_server.cpp at a system that binds the addresses below 5.
use net_base.Base.{
  OnSome, All, none, ℕ, suc, ◌+◌, ◌≡◌, refl, true, false, [], ◌∷◌, ◌++◌, some, length, ltb, map,
}
use net_base.Scheduler.{Scheduler}
use net_base.Address.{ipv4, empty_ipv4, family}
use net_base.IoManager.{new_io_manager}
use net_base.Socket.{Socket, System, accept, accept_on, accept_from, empty_address, connection}
use net_base.TcpServer.Serving.{
  accept_loop, handle_accepted, stopped, Spins, close_listeners, close_listeners-Spins,
  tcp_server_dtor,
}
use net_base.TcpServer.{TcpServer, Sockets, bind_each, bind_addresses, start_serve}
use net_base.TcpServer.Binding.{length-bind_each, bind_addresses-none, start_serve_twice}

abbrev small : Sockets ℕ ℕ
small = record {
  socket = λ a w. (some w, suc w);
  bind = λ fd a w. (ltb a 5, w);
  listen = λ fd w. (true, w);
}

abbrev server : TcpServer
server = record { serving = false; listen_sockets = [] }

-- Both addresses are bound, and both are reported as failed.
bind_runs :
    bind_addresses small (1 ∷ 2 ∷ []) server 10
    ≡ (some (1 ∷ 2 ∷ []), record { serving = false; listen_sockets = 10 ∷ 11 ∷ [] }, 12)
unfolding bind_addresses
bind_runs = refl

length-bind_each_run :
    length (bind_each small (1 ∷ 2 ∷ []) server 10).1.listen_sockets
    ≡ 0 + length (bind_each small (1 ∷ 2 ∷ []) server 10).0
length-bind_each_run = length-bind_each small (1 ∷ 2 ∷ []) server 10

bind_addresses-none_example :
    length (bind_addresses small (7 ∷ 2 ∷ []) server 10).1.listen_sockets ≡ 0
unfolding bind_addresses
bind_addresses-none_example = bind_addresses-none small (7 ∷ 2 ∷ []) server 10 refl

abbrev scheduler : Scheduler
scheduler = record {
  stopping = false;
  stopped = false;
  exit_with_tasks_processed = true;
  ready_executors = some 9 ∷ [];
  remote_tasks = [];
}

abbrev bound_server : TcpServer
bound_server = record { serving = false; listen_sockets = 10 ∷ 11 ∷ [] }

start_serve_twice_run :
    let (t, after) = start_serve (λ fd. fd + 100) bound_server scheduler in
    (t.serving ≡ true)
    × (after.ready_executors ≡ (some 9 ∷ []) ++ map (λ fd. some (fd + 100)) (10 ∷ 11 ∷ []))
    × (start_serve (λ fd. fd + 100) t after ≡ (t, after))
start_serve_twice_run = start_serve_twice (λ fd. fd + 100) bound_server scheduler refl refl

-- The world counts the connections that were handled.
abbrev accepting : System ℕ
accepting = record {
  socket_sys = λ d t p w. (some 4, w);
  bind_sys = λ fd a w. (true, w);
  accept_sys = λ fd a w. ((some 9, a), w);
  listen_sys = λ fd n w. (true, w);
  connect_sys = λ fd a w. (true, w);
  shutdown_sys = λ fd w. (true, w);
  set_option_sys = λ fd c on w. (true, w);
  close_sys = λ fd w. (true, w);
}

abbrev listener : Socket
listener = record {
  fd_ = some 3;
  local_address = some (ipv4 (record empty_ipv4 { sin_family = 2 }));
}

-- Three connections are handled before the server no longer serves.
three_connections :
    accept_loop accepting (λ w. ltb w 3) (λ connection w. suc w) 10 listener 0 ≡ some (stopped 3)
unfolding accept_loop handle_accepted accept accept_on accept_from empty_address connection family
three_connections = refl

close_listeners-Spins_run :
    OnSome
      (λ r. All (Spins accepting (λ w. ltb w 3) (λ connection w. suc w)) r.0)
      (close_listeners accepting (listener ∷ []) 0 (new_io_manager 5))
close_listeners-Spins_run =
    close_listeners-Spins accepting (λ w. ltb w 3) (λ connection w. suc w) (listener ∷ []) 0
      (new_io_manager 5)

destroyed_while_serving : tcp_server_dtor accepting true [] 0 ≡ none
unfolding tcp_server_dtor
destroyed_while_serving = refl
