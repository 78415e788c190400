-- ===== src/Socket/Messages.antt =====
-- src/net/socket_opt.cpp: `send`, `sendTo`, `recv` and `recvFrom`, and src/net/tcp/connection.cpp,
-- the sending and receiving functions of a TcpConnection. The system calls are the parameter
-- `Calls`. A pointer with a length is the list of the bytes there; `none` of a count is -1, `none`
-- of a descriptor is the closed one.
use net_base.Base.{ℕ, List, Option, none, some, Bytes}
use net_base.Address.{SockAddress, addr_len}
use net_base.Socket.{TcpConnection}

-- The members of an msghdr that are set; the others are zero.
pub record MsgHdr : Type 0 where
  pub msg_iov : List Bytes
  pub msg_iovlen : ℕ
  pub msg_name : Option SockAddress
  pub msg_namelen : ℕ

-- What ::recvfrom leaves: its result, the buffer, the address and the length of the address.
pub record Received : Type 0 where
  pub count : Option ℕ
  pub buffer : Bytes
  pub address : SockAddress
  pub namelen : ℕ

pub record Calls (W : Type 0) : Type 0 where
  pub send_sys : Option ℕ → Bytes → ℕ → W → Option ℕ × W
  pub sendto_sys : Option ℕ → Bytes → ℕ → SockAddress → ℕ → W → Option ℕ × W
  pub sendmsg_sys : Option ℕ → MsgHdr → ℕ → W → Option ℕ × W
  pub recv_sys : Option ℕ → Bytes → ℕ → W → (Option ℕ × Bytes) × W
  pub recvfrom_sys : Option ℕ → Bytes → ℕ → SockAddress → ℕ → W → Received × W
  pub recvmsg_sys : Option ℕ → MsgHdr → ℕ → W → (Option ℕ × MsgHdr) × W

-- The headers of `send` and `recv`, and of `sendTo` and `recvFrom`.
unfoldable pub plain_header : List Bytes → ℕ → MsgHdr
plain_header buffers length = record {
  msg_iov = buffers;
  msg_iovlen = length;
  msg_name = none;
  msg_namelen = 0;
}

unfoldable pub named_header : List Bytes → ℕ → SockAddress → MsgHdr
named_header buffers length peer = record {
  msg_iov = buffers;
  msg_iovlen = length;
  msg_name = some peer;
  msg_namelen = addr_len peer;
}

module _ {W : Type 0} (calls : Calls W) where
  open calls use {send_sys, sendto_sys, sendmsg_sys, recv_sys, recvfrom_sys, recvmsg_sys}

  pub send : Option ℕ → Bytes → ℕ → W → Option ℕ × W
  send fd message flags w = send_sys fd message flags w

  pub send_buffers : Option ℕ → List Bytes → ℕ → ℕ → W → Option ℕ × W
  unfolding plain_header
  send_buffers fd buffers length flags w = sendmsg_sys fd (plain_header buffers length) flags w

  pub send_to : Option ℕ → Bytes → SockAddress → ℕ → W → Option ℕ × W
  send_to fd message peer flags w = sendto_sys fd message flags peer (addr_len peer) w

  pub send_buffers_to : Option ℕ → List Bytes → ℕ → SockAddress → ℕ → W → Option ℕ × W
  unfolding named_header
  send_buffers_to fd buffers length peer flags w =
      sendmsg_sys fd (named_header buffers length peer) flags w

  -- The counts come with the buffers after the call.
  pub recv_buffers : Option ℕ → List Bytes → ℕ → ℕ → W → (Option ℕ × List Bytes) × W
  unfolding plain_header
  recv_buffers fd buffers length flags w =
      let (r, v) = recvmsg_sys fd (plain_header buffers length) flags w in ((r.0, r.1.msg_iov), v)

  -- The length of the address is a variable of the function, and lost.
  unfoldable pub recv_from :
      Option ℕ → Bytes → SockAddress → ℕ → W → (Option ℕ × Bytes × SockAddress) × W
  recv_from fd buffer peer flags w =
      let (r, v) = recvfrom_sys fd buffer flags peer (addr_len peer) w in
      ((r.count, r.buffer, r.address), v)

  pub recv_buffers_from :
      Option ℕ
      → List Bytes
      → ℕ
      → SockAddress
      → ℕ
      → W
      → (Option ℕ × List Bytes × Option SockAddress) × W
  unfolding named_header
  recv_buffers_from fd buffers length peer flags w =
      let (r, v) = recvmsg_sys fd (named_header buffers length peer) flags w in
      ((r.0, r.1.msg_iov, r.1.msg_name), v)

  -- TcpConnection::send of a buffer, of a text and of buffers
  pub connection_send_raw : TcpConnection → Bytes → ℕ → W → Option ℕ × W
  connection_send_raw c buffer flags w = send_sys c.socket_.fd_ buffer flags w

  pub connection_send : TcpConnection → Bytes → ℕ → W → Option ℕ × W
  unfolding send
  connection_send c message flags w = send c.socket_.fd_ message flags w

  pub connection_send_buffers : TcpConnection → List Bytes → ℕ → ℕ → W → Option ℕ × W
  unfolding send_buffers
  connection_send_buffers c buffers length flags w =
      send_buffers c.socket_.fd_ buffers length flags w

  -- TcpConnection::recv of a buffer and of buffers
  pub connection_recv : TcpConnection → Bytes → ℕ → W → (Option ℕ × Bytes) × W
  connection_recv c buffer flags w = recv_sys c.socket_.fd_ buffer flags w

  pub connection_recv_buffers : TcpConnection → List Bytes → ℕ → ℕ → W → (Option ℕ × List Bytes) × W
  unfolding recv_buffers
  connection_recv_buffers c buffers length flags w =
      recv_buffers c.socket_.fd_ buffers length flags w
