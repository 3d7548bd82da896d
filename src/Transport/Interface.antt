-- ===== src/Transport/Interface.antt =====
-- TransportLayer/interface.hpp: a pointer to an `ITransport`, by the class of the object. A virtual call is
-- a case on that class.
use lib_crypt_safe_messenger.Common.{ℕ, Bool, String}
use lib_crypt_safe_messenger.Transport.{Status, Message, Platform, SocketCalls, Net, Callback}
use lib_crypt_safe_messenger.Transport.LocalMesh
use lib_crypt_safe_messenger.Transport.DirectP2p
use lib_crypt_safe_messenger.Transport.TorTunnel

pub data ITransport (World : Type 0) : Type 0 where
  local_mesh : LocalMesh.LocalMesh World → ITransport World
  direct_p2p : DirectP2p.DirectP2p World → ITransport World
  tor_tunnel : TorTunnel.TorTunnel World → ITransport World

module _ {World : Type 0} where
  -- What a call gives, with the object that it was made on.
  abbrev pub answered :
      {T : Type 0}
      → (T → ITransport World)
      → (Bool × T) × Net World
      → (Bool × ITransport World) × Net World
  answered f ((b, t), net) = ((b, f t), net)

  abbrev pub left :
      {T : Type 0} → (T → ITransport World) → T × Net World → ITransport World × Net World
  left f (t, net) = (f t, net)

  unfoldable pub send : ITransport World → Message → Net World → Bool × Net World
  send (local_mesh t) msg net = LocalMesh.send t msg net
  send (direct_p2p t) msg net = DirectP2p.send t msg net
  send (tor_tunnel t) msg net = TorTunnel.send t msg net

  unfoldable pub on_receive : Callback World → ITransport World → ITransport World
  on_receive callback (local_mesh t) = local_mesh (LocalMesh.on_receive callback t)
  on_receive callback (direct_p2p t) = direct_p2p (DirectP2p.on_receive callback t)
  on_receive callback (tor_tunnel t) = tor_tunnel (TorTunnel.on_receive callback t)

  unfoldable pub status : ITransport World → Status
  status (local_mesh t) = LocalMesh.status t
  status (direct_p2p t) = DirectP2p.status t
  status (tor_tunnel t) = TorTunnel.status t

  abbrev pub name : ITransport World → String
  name (local_mesh t) = LocalMesh.name t
  name (direct_p2p t) = DirectP2p.name t
  name (tor_tunnel t) = TorTunnel.name t

module _ {World : Type 0} (os : SocketCalls World) where
  unfoldable pub connect :
      ITransport World → String → ℕ → Net World → (Bool × ITransport World) × Net World
  connect (local_mesh t) address port net =
      answered local_mesh (LocalMesh.connect os t address port net)
  connect (direct_p2p t) address port net =
      answered direct_p2p (DirectP2p.connect os t address port net)
  connect (tor_tunnel t) address port net =
      answered tor_tunnel (TorTunnel.connect os t address port net)

  unfoldable pub disconnect : ITransport World → Net World → ITransport World × Net World
  disconnect (local_mesh t) net = left local_mesh (LocalMesh.disconnect os t net)
  disconnect (direct_p2p t) net = left direct_p2p (DirectP2p.disconnect os t net)
  disconnect (tor_tunnel t) net = left tor_tunnel (TorTunnel.disconnect os t net)

module _ {World : Type 0} (platform : Platform) (os : SocketCalls World) where
  unfoldable pub make_local_mesh : Net World → ITransport World × Net World
  make_local_mesh net = left local_mesh (LocalMesh.new_local_mesh platform os net)

  unfoldable pub make_direct_p2p : Net World → ITransport World × Net World
  make_direct_p2p net = left direct_p2p (DirectP2p.new_direct_p2p platform os net)

  unfoldable pub make_tor_tunnel : Net World → ITransport World × Net World
  make_tor_tunnel net = left tor_tunnel (TorTunnel.new_tor_tunnel platform os net)

  -- `virtual ~ITransport()`: the destructor of the object's class.
  unfoldable pub destroy : ITransport World → Net World → Net World
  destroy (local_mesh t) net = LocalMesh.destroy platform os t net
  destroy (direct_p2p t) net = DirectP2p.destroy platform os t net
  destroy (tor_tunnel t) net = TorTunnel.destroy platform os t net
