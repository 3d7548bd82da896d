-- ===== src/Programs.antt =====
-- MessengerApp/server.cpp and MessengerApp/client.cpp: the two `main` functions with their sockets, from
-- the first line to the last. What they print is left out.
pub mod Server
pub mod Client
pub mod Progress
pub mod Descriptors
pub mod Endings
pub mod Ranked
pub mod ClientEnd
pub mod Turns
pub mod Streams
pub mod Talk
mod Runs
use lib_crypt_safe_messenger.Common.{
  ℕ, zero, suc, ◌-◌, List, [], ◌∷◌, Bool, true, false, Option, none, some, String, Bytes, ℤ, pos,
  negsuc,
}
use lib_crypt_safe_messenger.Common.Proc.{
  Proc, Machine, Outcome, returns, throws, faults, Exception, return, ◌>>=◌,
}
use lib_crypt_safe_messenger.Frames.{SocketLib}
use lib_crypt_safe_messenger.Transport.{Net, SockaddrIn, Platform, posix, windows, remove}

-- The options that the programs set: SO_REUSEADDR, and SO_RCVTIMEO in seconds.
pub data SocketOption : Type 0 where
  so_reuseaddr : SocketOption
  so_rcvtimeo : ℕ → SocketOption

-- The calls of the system on a descriptor, or on the negative number that a failed call gave. `connect`
-- and `accept` give what they return; what `setsockopt`, `bind` and `listen` return is not looked at.
pub record TcpCalls (World : Type 0) : Type 0 where
  pub socket : World → ℤ × World
  pub setsockopt : ℤ → SocketOption → World → World
  pub bind : ℤ → SockaddrIn → World → World
  pub listen : ℤ → ℕ → World → World
  pub accept : ℤ → World → ℤ × World
  pub connect : ℤ → SockaddrIn → World → ℤ × World
  pub close : ℤ → World → World
  pub send : ℤ → Bytes → World → ℤ × World
  pub recv : ℤ → ℕ → World → (ℤ × Bytes) × World
  pub inet_pton : String → Option ℕ
  pub wsa_startup : World → World
  pub wsa_cleanup : World → World

-- A descriptor that is not one is in no list.
abbrev pub without : ℤ → List ℕ → List ℕ
without (pos fd) opened = remove fd opened
without (negsuc n) opened = opened

module _ {World : Type 0} where
  -- A call that changes the world alone.
  abbrev pub on_world : (World → World) → Net World → Net World
  on_world f net = record net { world = f net.world }

  -- `send_frame` and `recv_frame` keep no cipher contexts.
  abbrev pub framed : {A : Type 0} → Net World → Outcome A × Machine World → Outcome A × Net World
  framed net (o, m) = (o, record net { world = m.world })

  abbrev pub on_socket : {A : Type 0} → Proc World A → Net World → Outcome A × Net World
  on_socket p net = framed net (p (record { world = net.world; live = 0 }))

-- The connection over a descriptor.
abbrev pub connection : {World : Type 0} → TcpCalls World → ℤ → SocketLib World
connection tcp fd = record { send = tcp.send fd; recv = tcp.recv fd }

-- A `main` between two calls of `recv_frame`: what it does with a frame, with an exception of
-- `recv_frame`, and when it is over; and its end by an exception that nothing catches, and by undefined
-- behaviour.
pub record Party (World : Type 0) : Type 1 where
  pub State : Type 0
  pub step : State → Bytes → Machine World → (State × List Bytes) × Machine World
  pub unread : Exception → State → State
  pub uncaught : Exception → State
  pub broken : State
  pub is_over : State → Bool

module _ {World : Type 0} (tcp : TcpCalls World) where
  abbrev pub close_fd : ℤ → Net World → Net World
  close_fd fd net = record net { world = tcp.close fd net.world; opened = without fd net.opened }

module _ {World : Type 0} (platform : Platform) (tcp : TcpCalls World) where
  -- WSAStartup and WSACleanup, on Windows alone.
  abbrev pub startup : Net World → Net World
  startup net = elim platform [
    | posix ↦ net
    | windows ↦ record net { world = tcp.wsa_startup net.world; startups = suc net.startups }
  ]

  abbrev pub cleanup : Net World → Net World
  cleanup net = elim platform [
    | posix ↦ net
    | windows ↦ record net { world = tcp.wsa_cleanup net.world; startups = net.startups - 1 }
  ]

module _ {Sockets World : Type 0} (send_frame : Bytes → Proc Sockets Bool)
    (recv_frame : Proc Sockets Bytes) (p : Party World) where
  abbrev pub after_send :
      Outcome Bool × Net Sockets → (Net Sockets → p.State × Net Sockets) → p.State × Net Sockets
  after_send (returns b, net) rest = rest net
  after_send (throws e, net) rest = (p.uncaught e, net)
  after_send (faults, net) rest = (p.broken, net)

  -- The frames of one turn, each sent whatever became of the one before: the results are not looked at.
  unfoldable pub send_all : p.State → List Bytes → Net Sockets → p.State × Net Sockets
  send_all s [] net = (s, net)
  send_all s (frame ∷ frames) net =
      after_send (on_socket (send_frame frame) net) (send_all s frames)

  abbrev pub after_recv :
      p.State
      → Machine World
      → Outcome Bytes × Net Sockets
      → (Bytes → Net Sockets → (p.State × Net Sockets) × Machine World)
      → (p.State × Net Sockets) × Machine World
  after_recv s m (returns frame, net) rest = rest frame net
  after_recv s m (throws e, net) rest = ((p.unread e s, net), m)
  after_recv s m (faults, net) rest = ((p.broken, net), m)

  abbrev pub unless_over :
      Bool
      → p.State
      → Net Sockets
      → Machine World
      → (Net Sockets → (p.State × Net Sockets) × Machine World)
      → (p.State × Net Sockets) × Machine World
  unless_over true s net m go = ((s, net), m)
  unless_over false s net m go = go net

  -- From one `recv_frame` to the next, for at most as many of them as the fuel says.
  unfoldable pub drive :
      ℕ → p.State → Net Sockets → Machine World → (p.State × Net Sockets) × Machine World
  drive zero s net m = ((s, net), m)
  drive (suc fuel) s net m = unless_over (p.is_over s) s net m λ before.
      after_recv s m (on_socket recv_frame before) λ frame n.
        let r = p.step s frame m in
        let sent = send_all r.0.0 r.0.1 n in drive fuel sent.0 sent.1 r.1
