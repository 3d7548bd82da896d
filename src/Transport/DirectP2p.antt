-- ===== src/Transport/DirectP2p.antt =====
-- TransportLayer/direct_p2p.cpp: the transport over UDP, which keeps the address of its peer. The
-- source simulates the delivery.
use lib_crypt_safe_messenger.Common.{
  ℕ, Bool, true, false, Option, none, some, String, ℤ, pos, negsuc, if◌then◌else◌,
}
use lib_crypt_safe_messenger.Transport.{
  Status, disconnected, connecting, connected, transport_error, Message, Platform, SocketCalls, Net,
  SockaddrIn, Callback, is_connected, addr_or, delivered, ask_socket, close_socket, wsa_begin,
  wsa_end,
}

pub record DirectP2p (World : Type 0) : Type 0 where
  pub status_ : Status
  pub socket_fd : ℤ
  pub peer : SockaddrIn
  pub receive_cb : Option (Callback World)

module _ {World : Type 0} where
  unfoldable pub send : DirectP2p World → Message → Net World → Bool × Net World
  send t msg net =
      if is_connected t.status_ then (true, delivered t.receive_cb msg net) else (false, net)

  unfoldable pub on_receive : Callback World → DirectP2p World → DirectP2p World
  on_receive callback t = record t { receive_cb = some callback }

  unfoldable pub status : DirectP2p World → Status
  status t = t.status_

  abbrev pub name : DirectP2p World → String
  name t = "DirectP2P-UDP"

module _ {World : Type 0} (os : SocketCalls World) where
  -- Once `socket` has returned: the peer is kept, with the old address where the text is none.
  abbrev pub with_socket :
      DirectP2p World → String → ℕ → ℤ × Net World → (Bool × DirectP2p World) × Net World
  with_socket t address port (pos fd, net) = (
    (
      true,
      record t {
        status_ = connected;
        socket_fd = pos fd;
        peer = record {
          sin_family = 2;
          sin_port = port;
          sin_addr = addr_or t.peer.sin_addr (os.inet_pton address);
        };
      },
    ),
    net,
  )
  with_socket t address port (negsuc n, net) =
      ((false, record t { status_ = transport_error; socket_fd = negsuc n }), net)

  unfoldable pub connect :
      DirectP2p World → String → ℕ → Net World → (Bool × DirectP2p World) × Net World
  connect t address port net =
      with_socket (record t { status_ = connecting }) address port (ask_socket os.socket_dgram net)

  -- `if (socket_fd_ >= 0)` and what follows.
  abbrev pub closed : DirectP2p World → ℤ → Net World → DirectP2p World × Net World
  closed t (pos fd) net =
      (record t { status_ = disconnected; socket_fd = negsuc 0 }, close_socket os fd net)
  closed t (negsuc n) net = (record t { status_ = disconnected; socket_fd = negsuc n }, net)

  unfoldable pub disconnect : DirectP2p World → Net World → DirectP2p World × Net World
  disconnect t net = closed t t.socket_fd net

module _ {World : Type 0} (platform : Platform) (os : SocketCalls World) where
  -- The constructor.
  unfoldable pub new_direct_p2p : Net World → DirectP2p World × Net World
  new_direct_p2p net = (
    record {
      status_ = disconnected;
      socket_fd = negsuc 0;
      peer = record { sin_family = 0; sin_port = 0; sin_addr = 0 };
      receive_cb = none;
    },
    wsa_begin os platform net,
  )

  -- The destructor.
  unfoldable pub destroy : DirectP2p World → Net World → Net World
  destroy t net = let r = disconnect os t net in wsa_end os platform r.1
