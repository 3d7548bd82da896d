-- ===== src/Transport.antt =====
-- TransportLayer/interface.hpp, and what the three transports of TransportLayer/local_mesh.cpp,
-- direct_p2p.cpp and tor_tunnel.cpp call. Both the POSIX and the Windows build are modelled: they differ
-- in WSAStartup and WSACleanup. What the transports print is left out.
pub mod LocalMesh
pub mod DirectP2p
pub mod TorTunnel
pub mod Interface
pub mod Settled
pub mod Answers
pub mod Contract
pub mod Calls
pub mod Refinement
pub mod Lifetime
mod Runs
use lib_crypt_safe_messenger.Common.{
  ℕ, suc, ◌-◌, List, [], ◌∷◌, Bool, true, false, Option, none, some, String, Bytes, ℤ, pos, negsuc,
  ◌==◌, if◌then◌else◌,
}

pub data Status : Type 0 where
  disconnected connecting connected transport_error : Status

pub record Message : Type 0 where
  pub payload : Bytes
  pub sender_id : String
  pub timestamp : ℕ

-- `#ifdef _WIN32`.
pub data Platform : Type 0 where
  posix windows : Platform

-- The calls of the system: a stream or a datagram socket, or a negative number; `close`, or
-- `closesocket` on Windows; WSAStartup and WSACleanup; and inet_pton(AF_INET, ...), with the address, if
-- the text is one.
pub record SocketCalls (World : Type 0) : Type 0 where
  pub socket_stream : World → ℤ × World
  pub socket_dgram : World → ℤ × World
  pub close : ℕ → World → World
  pub wsa_startup : World → World
  pub wsa_cleanup : World → World
  pub inet_pton : String → Option ℕ

-- What the operations work on; `opened` has the descriptors that the code has got and not closed,
-- `startups` the number of calls of WSAStartup that are not yet cleaned up.
pub record Net (World : Type 0) : Type 0 where
  pub world : World
  pub opened : List ℕ
  pub startups : ℕ

-- `struct sockaddr_in`, with AF_INET for 2.
pub record SockaddrIn : Type 0 where
  pub sin_family : ℕ
  pub sin_port : ℕ
  pub sin_addr : ℕ

-- A registered handler, by what it does.
abbrev pub Callback : Type 0 → Type 0
Callback World = Message → World → World

-- The list without the first `n`.
abbrev pub remove : ℕ → List ℕ → List ℕ
remove n [] = []
remove n (x ∷ xs) = let rest = remove n xs in if x == n then xs else x ∷ rest

-- `status_ == Status::CONNECTED`.
abbrev pub is_connected : Status → Bool
is_connected disconnected = false
is_connected connecting = false
is_connected connected = true
is_connected transport_error = false

-- inet_pton leaves the address as it was, where the text is none.
abbrev pub addr_or : ℕ → Option ℕ → ℕ
addr_or old none = old
addr_or old (some addr) = addr

module _ {World : Type 0} where
  -- `if (receive_cb_) receive_cb_(msg);`
  abbrev pub delivered : Option (Callback World) → Message → Net World → Net World
  delivered none msg net = net
  delivered (some callback) msg net = record net { world = callback msg net.world }

  -- A socket call: a descriptor that it gives is open from then on.
  abbrev pub gave : List ℕ → ℕ → ℤ × World → ℤ × Net World
  gave opened startups (pos fd, w) =
      (pos fd, record { world = w; opened = fd ∷ opened; startups = startups })
  gave opened startups (negsuc n, w) =
      (negsuc n, record { world = w; opened = opened; startups = startups })

  abbrev pub ask_socket : (World → ℤ × World) → Net World → ℤ × Net World
  ask_socket socket net = gave net.opened net.startups (socket net.world)

module _ {World : Type 0} (os : SocketCalls World) where
  -- `close(fd)`, or `closesocket(fd)`.
  abbrev pub close_socket : ℕ → Net World → Net World
  close_socket fd net = record net { world = os.close fd net.world; opened = remove fd net.opened }

  -- WSAStartup and WSACleanup, on Windows alone.
  abbrev pub wsa_begin : Platform → Net World → Net World
  wsa_begin posix net = net
  wsa_begin windows net = record net {
    world = os.wsa_startup net.world;
    startups = suc net.startups;
  }

  abbrev pub wsa_end : Platform → Net World → Net World
  wsa_end posix net = net
  wsa_end windows net = record net { world = os.wsa_cleanup net.world; startups = net.startups - 1 }
