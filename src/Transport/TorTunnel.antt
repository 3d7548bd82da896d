-- ===== src/Transport/TorTunnel.antt =====
-- TransportLayer/tor_tunnel.cpp: the transport through the SOCKS5 proxy of Tor. The source simulates
-- the connection to the proxy and the delivery, so that neither the address nor that of the proxy is
-- used.
use lib_crypt_safe_messenger.Common.{
  ℕ, Bool, true, false, Option, none, some, String, ℤ, pos, negsuc, if◌then◌else◌,
}
use lib_crypt_safe_messenger.Transport.{
  Status, disconnected, connecting, connected, transport_error, Message, Platform, SocketCalls, Net,
  Callback, is_connected, delivered, ask_socket, close_socket, wsa_begin, wsa_end,
}

pub record TorTunnel (World : Type 0) : Type 0 where
  pub status_ : Status
  pub socket_fd : ℤ
  pub receive_cb : Option (Callback World)

module _ {World : Type 0} where
  unfoldable pub send : TorTunnel World → Message → Net World → Bool × Net World
  send t msg net =
      if is_connected t.status_ then (true, delivered t.receive_cb msg net) else (false, net)

  unfoldable pub on_receive : Callback World → TorTunnel World → TorTunnel World
  on_receive callback t = record t { receive_cb = some callback }

  unfoldable pub status : TorTunnel World → Status
  status t = t.status_

  abbrev pub name : TorTunnel World → String
  name t = "TorTunnel-SOCKS5"

  -- Once `socket` has returned.
  abbrev pub with_socket : TorTunnel World → ℤ × Net World → (Bool × TorTunnel World) × Net World
  with_socket t (pos fd, net) = ((true, record t { status_ = connected; socket_fd = pos fd }), net)
  with_socket t (negsuc n, net) =
      ((false, record t { status_ = transport_error; socket_fd = negsuc n }), net)

module _ {World : Type 0} (os : SocketCalls World) where
  unfoldable pub connect :
      TorTunnel World → String → ℕ → Net World → (Bool × TorTunnel World) × Net World
  connect t address port net =
      with_socket (record t { status_ = connecting }) (ask_socket os.socket_stream net)

  -- `if (socket_fd_ >= 0)` and what follows.
  abbrev pub closed : TorTunnel World → ℤ → Net World → TorTunnel World × Net World
  closed t (pos fd) net =
      (record t { status_ = disconnected; socket_fd = negsuc 0 }, close_socket os fd net)
  closed t (negsuc n) net = (record t { status_ = disconnected; socket_fd = negsuc n }, net)

  unfoldable pub disconnect : TorTunnel World → Net World → TorTunnel World × Net World
  disconnect t net = closed t t.socket_fd net

module _ {World : Type 0} (platform : Platform) (os : SocketCalls World) where
  -- The constructor.
  unfoldable pub new_tor_tunnel : Net World → TorTunnel World × Net World
  new_tor_tunnel net = (
    record { status_ = disconnected; socket_fd = negsuc 0; receive_cb = none },
    wsa_begin os platform net,
  )

  -- The destructor.
  unfoldable pub destroy : TorTunnel World → Net World → Net World
  destroy t net = let r = disconnect os t net in wsa_end os platform r.1
