-- ===== src/Transport/Settled.antt =====
-- The status and the descriptor of the three transports of TransportLayer, call by call.
use lib_crypt_safe_messenger.Common.{
  ℕ, List, ◌≡◌, ◌≢◌, refl, Bool, true, false, Option, String, ℤ, pos, negsuc, if◌then◌else◌,
}
use lib_crypt_safe_messenger.Transport.{
  Status, disconnected, connecting, connected, transport_error, Message, SocketCalls, Net, Callback,
  remove, is_connected, ask_socket,
}
use lib_crypt_safe_messenger.Transport.LocalMesh
use lib_crypt_safe_messenger.Transport.DirectP2p
use lib_crypt_safe_messenger.Transport.TorTunnel
use lib_crypt_safe_messenger.Transport.Interface.{
  ITransport, local_mesh, direct_p2p, tor_tunnel, send, on_receive, status, connect, disconnect,
}

-- A transport between two calls holds a descriptor where it is connected, and nowhere else; it is never
-- left in CONNECTING.
abbrev pub Settled : Status → ℤ → Type 0
Settled disconnected (pos fd) = ⊥
Settled disconnected (negsuc n) = Unit {0}
Settled connecting fd = ⊥
Settled connected (pos fd) = Unit {0}
Settled connected (negsuc n) = ⊥
Settled transport_error (pos fd) = ⊥
Settled transport_error (negsuc n) = Unit {0}

-- What `connect` reports goes with the status that it leaves.
abbrev pub Reported : Bool → Status → Type 0
Reported true s = s ≡ connected
Reported false s = s ≡ transport_error

not_connected : (s : Status) → s ≢ connected → is_connected s ≡ false
not_connected disconnected h = refl
not_connected connecting h = refl
not_connected connected h = absurd (h refl)
not_connected transport_error h = refl

pub Reported-connected : (b : Bool) (s : Status) → Reported b s → b ≡ is_connected s
Reported-connected true s h = rw (h) refl
Reported-connected false s h = rw (h) refl

module _ {World : Type 0} where
  -- `socket_fd_` and `receive_cb_`.
  abbrev pub descriptor : ITransport World → ℤ
  descriptor (local_mesh t) = t.socket_fd
  descriptor (direct_p2p t) = t.socket_fd
  descriptor (tor_tunnel t) = t.socket_fd

  abbrev pub handler : ITransport World → Option (Callback World)
  handler (local_mesh t) = t.receive_cb
  handler (direct_p2p t) = t.receive_cb
  handler (tor_tunnel t) = t.receive_cb

  abbrev pub IsSettled : ITransport World → Type 0
  IsSettled t = Settled (status t) (descriptor t)

  abbrev pub Consistent : (Bool × ITransport World) × Net World → Type 0
  Consistent c = IsSettled c.0.1 × Reported c.0.0 (status c.0.1)

  flag_of_if :
      (b : Bool) (x y : Net World)
      → let r : Bool × Net World = if b then (true, x) else (false, y) in r.0 ≡ b
  flag_of_if true x y = refl
  flag_of_if false x y = refl

  pub send_flag :
      (t : ITransport World) (msg : Message) (net : Net World)
      → (send t msg net).0 ≡ is_connected (status t)
  unfolding send status LocalMesh.send DirectP2p.send TorTunnel.send LocalMesh.status
      DirectP2p.status TorTunnel.status
  send_flag (local_mesh t) msg net = flag_of_if (is_connected t.status_) _ _
  send_flag (direct_p2p t) msg net = flag_of_if (is_connected t.status_) _ _
  send_flag (tor_tunnel t) msg net = flag_of_if (is_connected t.status_) _ _

  pub on_receive-status :
      (callback : Callback World) (t : ITransport World)
      → (status (on_receive callback t) ≡ status t)
        × (IsSettled t → IsSettled (on_receive callback t))
  unfolding on_receive status LocalMesh.on_receive DirectP2p.on_receive TorTunnel.on_receive
      LocalMesh.status DirectP2p.status TorTunnel.status
  on_receive-status callback (local_mesh t) = (refl, λ h. h)
  on_receive-status callback (direct_p2p t) = (refl, λ h. h)
  on_receive-status callback (tor_tunnel t) = (refl, λ h. h)

  -- Where it is connected, the handler that is registered last gets the message.
  pub send_delivers :
      (callback : Callback World) (t : ITransport World) (msg : Message) (net : Net World)
      → (status t ≡ connected
          → (send (on_receive callback t) msg net).1
            ≡ record net { world = callback msg net.world })
        × (status t ≢ connected → (send (on_receive callback t) msg net).1 ≡ net)
  unfolding send on_receive status LocalMesh.send DirectP2p.send TorTunnel.send LocalMesh.status
      DirectP2p.status TorTunnel.status LocalMesh.on_receive DirectP2p.on_receive
      TorTunnel.on_receive
  send_delivers callback (local_mesh t) msg net =
      ((λ up. rw (up) refl), (λ off. rw (not_connected t.status_ off) refl))
  send_delivers callback (direct_p2p t) msg net =
      ((λ up. rw (up) refl), (λ off. rw (not_connected t.status_ off) refl))
  send_delivers callback (tor_tunnel t) msg net =
      ((λ up. rw (up) refl), (λ off. rw (not_connected t.status_ off) refl))

  -- What a call of `disconnect` leaves open.
  abbrev pub left_open : ℤ → Net World → List ℕ
  left_open (pos fd) net = remove fd net.opened
  left_open (negsuc n) net = net.opened

module _ {World : Type 0} (os : SocketCalls World) where
  mesh_kept :
      (t : LocalMesh.LocalMesh World) (r : ℤ × Net World)
      → let c = LocalMesh.with_socket t r in Consistent ((c.0.0, local_mesh c.0.1), c.1)
  unfolding status LocalMesh.status
  mesh_kept t (pos fd, net) = (tt, refl)
  mesh_kept t (negsuc n, net) = (tt, refl)

  p2p_kept :
      (t : DirectP2p.DirectP2p World) (address : String) (port : ℕ) (r : ℤ × Net World)
      → let c = DirectP2p.with_socket os t address port r in
        Consistent ((c.0.0, direct_p2p c.0.1), c.1)
  unfolding status DirectP2p.status
  p2p_kept t address port (pos fd, net) = (tt, refl)
  p2p_kept t address port (negsuc n, net) = (tt, refl)

  tor_kept :
      (t : TorTunnel.TorTunnel World) (r : ℤ × Net World)
      → let c = TorTunnel.with_socket t r in Consistent ((c.0.0, tor_tunnel c.0.1), c.1)
  unfolding status TorTunnel.status
  tor_kept t (pos fd, net) = (tt, refl)
  tor_kept t (negsuc n, net) = (tt, refl)

  pub connect-IsSettled :
      (t : ITransport World) (address : String) (port : ℕ) (net : Net World)
      → let c = connect os t address port net in IsSettled c.0.1 × Reported c.0.0 (status c.0.1)
  unfolding connect LocalMesh.connect DirectP2p.connect TorTunnel.connect
  connect-IsSettled (local_mesh t) address port net =
      mesh_kept (record t { status_ = connecting }) (ask_socket os.socket_stream net)
  connect-IsSettled (direct_p2p t) address port net =
      p2p_kept (record t { status_ = connecting }) address port (ask_socket os.socket_dgram net)
  connect-IsSettled (tor_tunnel t) address port net =
      tor_kept (record t { status_ = connecting }) (ask_socket os.socket_stream net)

  abbrev ClosedBy : ITransport World → Net World → ITransport World × Net World → Type 0
  ClosedBy t net d =
      IsSettled d.0
      × (status d.0 ≡ disconnected)
      × (d.1.opened ≡ left_open (descriptor t) net)
      × (d.1.startups ≡ net.startups)

  mesh_shut :
      (t : LocalMesh.LocalMesh World) (fd : ℤ) (net : Net World)
      → let d = LocalMesh.closed os t fd net in
        ClosedBy (local_mesh (record t { socket_fd = fd })) net (local_mesh d.0, d.1)
  unfolding status LocalMesh.status
  mesh_shut t (pos fd) net = (tt, refl, refl, refl)
  mesh_shut t (negsuc n) net = (tt, refl, refl, refl)

  p2p_shut :
      (t : DirectP2p.DirectP2p World) (fd : ℤ) (net : Net World)
      → let d = DirectP2p.closed os t fd net in
        ClosedBy (direct_p2p (record t { socket_fd = fd })) net (direct_p2p d.0, d.1)
  unfolding status DirectP2p.status
  p2p_shut t (pos fd) net = (tt, refl, refl, refl)
  p2p_shut t (negsuc n) net = (tt, refl, refl, refl)

  tor_shut :
      (t : TorTunnel.TorTunnel World) (fd : ℤ) (net : Net World)
      → let d = TorTunnel.closed os t fd net in
        ClosedBy (tor_tunnel (record t { socket_fd = fd })) net (tor_tunnel d.0, d.1)
  unfolding status TorTunnel.status
  tor_shut t (pos fd) net = (tt, refl, refl, refl)
  tor_shut t (negsuc n) net = (tt, refl, refl, refl)

  pub disconnect_shuts :
      (t : ITransport World) (net : Net World)
      → let d = disconnect os t net in
        IsSettled d.0
        × (status d.0 ≡ disconnected)
        × (d.1.opened ≡ left_open (descriptor t) net)
        × (d.1.startups ≡ net.startups)
  unfolding disconnect LocalMesh.disconnect DirectP2p.disconnect TorTunnel.disconnect
  disconnect_shuts (local_mesh t) net = mesh_shut t t.socket_fd net
  disconnect_shuts (direct_p2p t) net = p2p_shut t t.socket_fd net
  disconnect_shuts (tor_tunnel t) net = tor_shut t t.socket_fd net
