-- ===== src/Transport/Answers.antt =====
-- `connect` of the three transports of TransportLayer by what the system answers to the call of `socket`.
use lib_crypt_safe_messenger.Common.{ℕ, List, ◌≡◌, refl, Bool, true, false, String, ℤ, pos, negsuc}
use lib_crypt_safe_messenger.Transport.{
  SocketCalls, Net, connecting, connected, transport_error, gave,
}
use lib_crypt_safe_messenger.Transport.LocalMesh
use lib_crypt_safe_messenger.Transport.DirectP2p
use lib_crypt_safe_messenger.Transport.TorTunnel
use lib_crypt_safe_messenger.Transport.Interface
use lib_crypt_safe_messenger.Transport.Interface.{
  ITransport, local_mesh, direct_p2p, tor_tunnel, status,
}
use lib_crypt_safe_messenger.Transport.Settled.{descriptor}

module _ {World : Type 0} where
  -- What `connect` does once the system has answered the call of `socket`.
  abbrev pub Answered : ℤ × World → (Bool × ITransport World) × Net World → Type 0
  Answered (pos fd, w) c =
      (c.0.0 ≡ true) × (status c.0.1 ≡ connected) × (descriptor c.0.1 ≡ pos fd) × (c.1.world ≡ w)
  Answered (negsuc k, w) c =
      (c.0.0 ≡ false)
      × (status c.0.1 ≡ transport_error)
      × (descriptor c.0.1 ≡ negsuc k)
      × (c.1.world ≡ w)

  mesh_socket-Answered :
      (t : LocalMesh.LocalMesh World) (opened : List ℕ) (n : ℕ) (r : ℤ × World)
      → let c = LocalMesh.with_socket t (gave opened n r) in
        Answered r ((c.0.0, local_mesh c.0.1), c.1)
  unfolding status LocalMesh.status
  mesh_socket-Answered t opened n (pos fd, w) = (refl, refl, refl, refl)
  mesh_socket-Answered t opened n (negsuc k, w) = (refl, refl, refl, refl)

  tor_socket-Answered :
      (t : TorTunnel.TorTunnel World) (opened : List ℕ) (n : ℕ) (r : ℤ × World)
      → let c = TorTunnel.with_socket t (gave opened n r) in
        Answered r ((c.0.0, tor_tunnel c.0.1), c.1)
  unfolding status TorTunnel.status
  tor_socket-Answered t opened n (pos fd, w) = (refl, refl, refl, refl)
  tor_socket-Answered t opened n (negsuc k, w) = (refl, refl, refl, refl)

module _ {World : Type 0} (os : SocketCalls World) where
  p2p_socket-Answered :
      (t : DirectP2p.DirectP2p World) (address : String) (port : ℕ) (opened : List ℕ) (n : ℕ)
      (r : ℤ × World)
      → let c = DirectP2p.with_socket os t address port (gave opened n r) in
        Answered r ((c.0.0, direct_p2p c.0.1), c.1)
  unfolding status DirectP2p.status
  p2p_socket-Answered t address port opened n (pos fd, w) = (refl, refl, refl, refl)
  p2p_socket-Answered t address port opened n (negsuc k, w) = (refl, refl, refl, refl)

  -- What the system answers when a transport of that class asks for its socket.
  abbrev pub socket_of : ITransport World → World → ℤ × World
  socket_of (local_mesh t) w = os.socket_stream w
  socket_of (direct_p2p t) w = os.socket_dgram w
  socket_of (tor_tunnel t) w = os.socket_stream w

  pub connect-Answered :
      (t : ITransport World) (address : String) (port : ℕ) (net : Net World)
      → Answered (socket_of t net.world) (Interface.connect os t address port net)
  unfolding Interface.connect LocalMesh.connect DirectP2p.connect TorTunnel.connect
  connect-Answered (local_mesh t) address port net =
      mesh_socket-Answered (record t { status_ = connecting }) net.opened net.startups
        (os.socket_stream net.world)
  connect-Answered (direct_p2p t) address port net =
      p2p_socket-Answered (record t { status_ = connecting }) address port net.opened net.startups
        (os.socket_dgram net.world)
  connect-Answered (tor_tunnel t) address port net =
      tor_socket-Answered (record t { status_ = connecting }) net.opened net.startups
        (os.socket_stream net.world)
