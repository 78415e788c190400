-- ===== src/Socket/Tests.antt =====
-- Runs of a Socket on a system that accepts descriptor 9, and records the last option.
use net_base.Base.{[], length, ℕ, ◌∷◌, ◌≡◌, refl, Bool, true, false, none, some}
use net_base.Address.{SockAddress, ipv4, empty_ipv4, family, unix, empty_unix}
use net_base.Socket.{Socket, System, bind, accept, set_tcp_no_delay, empty_address}
use net_base.Socket.Messages.{Calls, recv_from}
use net_base.Socket.Accepting.{accept-bind}

abbrev local : SockAddress
local = ipv4 (record empty_ipv4 { sin_family = 2; sin_port = (31, 144) })

-- The world is the value of the last option.
abbrev system : System Bool
system = record {
  socket_sys = λ d t p w. (some 4, w);
  bind_sys = λ fd a w. (true, w);
  accept_sys = λ fd a w. ((some 9, a), w);
  listen_sys = λ fd n w. (true, w);
  connect_sys = λ fd a w. (true, w);
  shutdown_sys = λ fd w. (true, w);
  set_option_sys = λ fd c on w. (true, on);
  close_sys = λ fd w. (true, w);
}

abbrev opened : Socket
opened = record { fd_ = some 4; local_address = none }

accepted_after_bind :
    accept system
      (bind system (some local) opened false).1
      (bind system (some local) opened false).2
    ≡ some (
      some (record {
        connected_ = true;
        socket_ = record { fd_ = some 9; local_address = some local };
        peer_addr = some (ipv4 empty_ipv4);
      }),
      false,
    )
unfolding empty_address family
accepted_after_bind =
    accept-bind system 4 9 local (ipv4 empty_ipv4) (ipv4 empty_ipv4) opened false false refl refl
      refl

not_bound : accept system opened false ≡ some (none, false)
unfolding accept
not_bound = refl

-- TCP_NODELAY is switched on although it was to be switched off.
no_delay_off : set_tcp_no_delay system false opened false ≡ some true
unfolding set_tcp_no_delay
no_delay_off = refl

-- A system that receives from a unix address of as many bytes as the world says.
abbrev calls : Calls ℕ
calls = record {
  send_sys = λ fd bytes flags w. (some (length bytes), w);
  sendto_sys = λ fd bytes flags peer n w. (some (length bytes), w);
  sendmsg_sys = λ fd msg flags w. (some 0, w);
  recv_sys = λ fd buffer flags w. ((some 0, buffer), w);
  recvfrom_sys = λ fd buffer flags peer n w.
      (record { count = some 1; buffer = 7 ∷ []; address = unix empty_unix; namelen = w }, 0);
  recvmsg_sys = λ fd msg flags w. ((some 0, msg), w);
}

-- The length of the address that the system reports is lost.
same_sender :
    recv_from calls (some 4) (0 ∷ []) (unix empty_unix) 0 3
    ≡ recv_from calls (some 4) (0 ∷ []) (unix empty_unix) 0 8
unfolding recv_from
same_sender = refl
