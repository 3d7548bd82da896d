-- ===== src/ConnectionManager/Runs.antt =====
-- The manager at a concrete input.
use lib_crypt_safe_messenger.Common.{
  ℕ, ◌+◌, ◌≡◌, refl, ◌⊎◌, [], ◌∷◌, true, false, none, some, pos, negsuc, All, arith,
}
use lib_crypt_safe_messenger.Transport.{
  SocketCalls, Net, Message, Callback, Platform, posix, windows,
}
use lib_crypt_safe_messenger.Transport.LocalMesh
use lib_crypt_safe_messenger.Transport.DirectP2p
use lib_crypt_safe_messenger.Transport.TorTunnel
use lib_crypt_safe_messenger.Transport.Interface
use lib_crypt_safe_messenger.Transport.Interface.{
  make_local_mesh, make_direct_p2p, make_tor_tunnel, status,
}
use lib_crypt_safe_messenger.Transport.Settled.{IsSettled}
use lib_crypt_safe_messenger.ConnectionManager.{
  Manager, TransportEntry, entry, new_manager, connect, send, disconnect, active_name, at, try_from,
  force_transport, destroy_manager,
}
use lib_crypt_safe_messenger.ConnectionManager.Connecting.{AllPassed, Picked, connect_picks}
use lib_crypt_safe_messenger.ConnectionManager.Active.{
  IsPlaced, IsDown, active-IsPlaced, disconnect_closes,
}
use lib_crypt_safe_messenger.ConnectionManager.Keeping.{Sound}
use lib_crypt_safe_messenger.ConnectionManager.Destroyed.{destroyed_unused}
use lib_crypt_safe_messenger.ConnectionManager.Reachable.{
  Step, Reachable, Reachable-Sound, Reachable-disconnect,
}

-- Descriptors from a counter; no stream sockets, so that DirectP2P is the one that connects.
abbrev datagrams : SocketCalls ℕ
datagrams = record {
  socket_stream = λ w. (negsuc 0, w);
  socket_dgram = λ w. (pos w, w + 1);
  close = λ fd w. w;
  wsa_startup = λ w. w;
  wsa_cleanup = λ w. w;
  inet_pton = λ text. none;
}

abbrev net : Net ℕ
net = record { world = 4; opened = []; startups = 0 }

abbrev hello : Message
hello = record { payload = 1 ∷ []; sender_id = "a"; timestamp = 9 }

abbrev counted : Callback ℕ
counted msg w = w + 100

abbrev manager : Manager ℕ
manager = record {
  transports =
      entry (make_local_mesh posix datagrams net).0 1
      ∷ entry (make_direct_p2p posix datagrams net).0 2
      ∷ entry (make_tor_tunnel posix datagrams net).0 3
      ∷ [];
  active = none;
}

new_manager_is_sorted : (new_manager posix datagrams net).0 ≡ manager
unfolding new_manager make_local_mesh make_direct_p2p make_tor_tunnel LocalMesh.new_local_mesh
    DirectP2p.new_direct_p2p TorTunnel.new_tor_tunnel
new_manager_is_sorted = refl

second_connects : (connect datagrams manager "b" 1 net).0.1.active ≡ some 1
unfolding connect try_from Interface.connect make_local_mesh make_direct_p2p
    LocalMesh.new_local_mesh DirectP2p.new_direct_p2p LocalMesh.connect DirectP2p.connect
second_connects = refl

connect_picks_example :
    let c = connect datagrams manager "b" 1 net in
    ((c.0.0 ≡ false)
      × (c.0.1.active ≡ none)
      × AllPassed datagrams manager.transports c.0.1.transports 4 c.1.world)
    ⊎ ((i : ℕ) × (c.0.0 ≡ true)
        × (c.0.1.active ≡ some i)
        × Picked datagrams 0 4 manager.transports (some i, c.0.1.transports, c.1))
connect_picks_example = connect_picks datagrams manager "b" 1 net

abbrev forced_manager : Manager ℕ
forced_manager = record manager { active = some 2 }

forced_sends :
    (e : TransportEntry ℕ) × (at 2 manager.transports ≡ some e)
    × (send forced_manager hello net ≡ Interface.send e.transport hello net)
forced_sends =
    (active-IsPlaced datagrams posix forced_manager "b" "TorTunnel-SOCKS5" 1 counted hello net
        (omega arith)).6
      2 refl

manager_holds_none : All (λ e. IsSettled e.transport) manager.transports
unfolding status make_local_mesh make_direct_p2p make_tor_tunnel LocalMesh.status
    LocalMesh.new_local_mesh DirectP2p.status DirectP2p.new_direct_p2p TorTunnel.status
    TorTunnel.new_tor_tunnel
manager_holds_none = (tt, (tt, (tt, tt)))

nothing_stays_up :
    let d = disconnect datagrams manager net in
    All IsDown d.0.transports
    × (d.0.active ≡ none)
    × (active_name d.0 ≡ "none")
    × (send d.0 hello d.1 ≡ (false, d.1))
nothing_stays_up = disconnect_closes datagrams manager hello net manager_holds_none

-- After the constructor, `connect` and `force_transport`.
abbrev connected_on : Platform → Manager ℕ × Net ℕ
connected_on platform =
    let s = new_manager platform datagrams net in
    let c = connect datagrams s.0 "b" 1 s.1 in ((force_transport c.0.1 "TorTunnel-SOCKS5").1, c.1)

connected-Reachable :
    (platform : Platform) → Reachable datagrams platform net (connected_on platform)
connected-Reachable platform =
    Reachable.later (Reachable.later Reachable.built (Step.connects "b" 1))
      (Step.forces "TorTunnel-SOCKS5")

Reachable-Sound_example :
    Sound (1 ∷ 2 ∷ 3 ∷ []) (connected_on posix).0.transports × IsPlaced (connected_on posix).0
Reachable-Sound_example =
    Reachable-Sound datagrams posix net (connected_on posix) (connected-Reachable posix)

Reachable-disconnect_example :
    let d = disconnect datagrams (connected_on posix).0 (connected_on posix).1 in
    All IsDown d.0.transports
    × (d.0.active ≡ none)
    × (active_name d.0 ≡ "none")
    × (send d.0 hello d.1 ≡ (false, d.1))
Reachable-disconnect_example =
    Reachable-disconnect datagrams posix net (connected_on posix) hello (connected-Reachable posix)

destroyed_unused_example :
    let s = connected_on windows in (destroy_manager windows datagrams s.0 s.1).startups ≡ 0
destroyed_unused_example =
    destroyed_unused windows datagrams net (connected_on windows) (connected-Reachable windows)
