-- ===== src/Transport/Contract.antt =====
-- What the three transports of TransportLayer promise.
use lib_crypt_safe_messenger.Common.{
  ℕ, List, ◌≡◌, ◌≢◌, refl, ap, ◌∙◌, String, ℤ, pos, negsuc, ==_self,
}
use lib_crypt_safe_messenger.Transport.{
  disconnected, connecting, connected, Message, SocketCalls, Net, Callback, remove, is_connected,
  gave,
}
use lib_crypt_safe_messenger.Transport.LocalMesh
use lib_crypt_safe_messenger.Transport.DirectP2p
use lib_crypt_safe_messenger.Transport.TorTunnel
use lib_crypt_safe_messenger.Transport.Settled.{
  IsSettled, Reported-connected, descriptor, send_flag, on_receive-status, send_delivers,
  connect-IsSettled, disconnect_shuts, left_open,
}
use lib_crypt_safe_messenger.Transport.Interface.{
  ITransport, local_mesh, direct_p2p, tor_tunnel, send, on_receive, status, connect, disconnect,
}

module _ {World : Type 0} (os : SocketCalls World) where
  -- After any call, a transport holds a descriptor exactly where it is connected, and is not left in
  -- CONNECTING, where that was so before. `connect` reports whether it is connected now; `disconnect`
  -- leaves it disconnected; `send` reports whether it was connected, and hands the message to the handler
  -- that was registered last, once, where it was, and to none otherwise.
  pub transport_contract :
      (t : ITransport World) (address : String) (port : ℕ) (callback : Callback World)
      (msg : Message) (net : Net World)
      → IsSettled t
      → IsSettled (connect os t address port net).0.1
        × ((connect os t address port net).0.0
            ≡ is_connected (status (connect os t address port net).0.1))
        × IsSettled (disconnect os t net).0
        × (status (disconnect os t net).0 ≡ disconnected)
        × IsSettled (on_receive callback t)
        × ((send (on_receive callback t) msg net).0 ≡ is_connected (status t))
        × (status t ≡ connected
            → (send (on_receive callback t) msg net).1
              ≡ record net { world = callback msg net.world })
        × (status t ≢ connected → (send (on_receive callback t) msg net).1 ≡ net)
  transport_contract t address port callback msg net h =
      let (settled, reported) = connect-IsSettled os t address port net in
      let (quiet, down, _, _) = disconnect_shuts os t net in
      let (same, still) = on_receive-status callback t in
      let (delivers, drops) = send_delivers callback t msg net in
      (
        settled,
        Reported-connected _ _ reported,
        quiet,
        down,
        still h,
        send_flag (on_receive callback t) msg net ∙ ap is_connected same,
        delivers,
        drops,
      )

  -- A descriptor that `connect` gets is on top of those that were open before.
  abbrev OnTop : ITransport World → List ℕ → ℕ → Net World → Type 0
  OnTop t opened n net = (left_open (descriptor t) net ≡ opened) × (net.startups ≡ n)

  mesh_added :
      (t : LocalMesh.LocalMesh World) (opened : List ℕ) (n : ℕ) (r : ℤ × World)
      → let c = LocalMesh.with_socket t (gave opened n r) in OnTop (local_mesh c.0.1) opened n c.1
  mesh_added t opened n (pos fd, w) = rw (==_self fd) (refl, refl)
  mesh_added t opened n (negsuc k, w) = (refl, refl)

  p2p_added :
      (t : DirectP2p.DirectP2p World) (address : String) (port : ℕ) (opened : List ℕ) (n : ℕ)
      (r : ℤ × World)
      → let c = DirectP2p.with_socket os t address port (gave opened n r) in
        OnTop (direct_p2p c.0.1) opened n c.1
  p2p_added t address port opened n (pos fd, w) = rw (==_self fd) (refl, refl)
  p2p_added t address port opened n (negsuc k, w) = (refl, refl)

  tor_added :
      (t : TorTunnel.TorTunnel World) (opened : List ℕ) (n : ℕ) (r : ℤ × World)
      → let c = TorTunnel.with_socket t (gave opened n r) in OnTop (tor_tunnel c.0.1) opened n c.1
  tor_added t opened n (pos fd, w) = rw (==_self fd) (refl, refl)
  tor_added t opened n (negsuc k, w) = (refl, refl)

  pub connect_adds :
      (t : ITransport World) (address : String) (port : ℕ) (net : Net World)
      → let c = connect os t address port net in
        (left_open (descriptor c.0.1) c.1 ≡ net.opened) × (c.1.startups ≡ net.startups)
  unfolding connect LocalMesh.connect DirectP2p.connect TorTunnel.connect
  connect_adds (local_mesh t) address port net =
      mesh_added (record t { status_ = connecting }) net.opened net.startups
        (os.socket_stream net.world)
  connect_adds (direct_p2p t) address port net =
      p2p_added (record t { status_ = connecting }) address port net.opened net.startups
        (os.socket_dgram net.world)
  connect_adds (tor_tunnel t) address port net =
      tor_added (record t { status_ = connecting }) net.opened net.startups
        (os.socket_stream net.world)

  -- `disconnect` closes the descriptor that a transport holds. But `connect` on a transport that holds one
  -- overwrites it: after `connect` and `disconnect` the same descriptors are open as before the two, that
  -- one with them, and the transport holds none.
  pub reconnect_leaks :
      (t : ITransport World) (address : String) (port : ℕ) (net : Net World) (old : ℕ)
      → descriptor t ≡ pos old
      → let c = connect os t address port net in
        let d = disconnect os c.0.1 c.1 in
        ((disconnect os t net).1.opened ≡ remove old net.opened)
        × (d.1.opened ≡ net.opened)
        × IsSettled d.0
        × (status d.0 ≡ disconnected)
  reconnect_leaks t address port net old held =
      let c = connect os t address port net in
      let (quiet, down, shut, _) = disconnect_shuts os c.0.1 c.1 in
      (
        (disconnect_shuts os t net).2 ∙ ap (λ fd. left_open fd net) held,
        shut ∙ (connect_adds t address port net).0,
        quiet,
        down,
      )
