-- ===== src/Transport/Refinement.antt =====
-- The three classes of TransportLayer against one description of a channel, which has neither a status nor
-- a file descriptor of its own.
use lib_crypt_safe_messenger.Common.{
  ℕ, List, [], ◌∷◌, ◌++◌, ◌≡◌, refl, ap, ◌∙◌, Bool, true, false, Option, some, String, ℤ, pos,
  negsuc, if◌then◌else◌,
}
use lib_crypt_safe_messenger.Transport.{
  Status, disconnected, connecting, connected, transport_error, Message, SocketCalls, Net, Callback,
  is_connected, delivered, ask_socket, close_socket,
}
use lib_crypt_safe_messenger.Transport.LocalMesh
use lib_crypt_safe_messenger.Transport.DirectP2p
use lib_crypt_safe_messenger.Transport.TorTunnel
use lib_crypt_safe_messenger.Transport.Settled.{
  Settled, IsSettled, descriptor, handler, connect-IsSettled, disconnect_shuts, on_receive-status,
}
use lib_crypt_safe_messenger.Transport.Interface.{
  ITransport, local_mesh, direct_p2p, tor_tunnel, send, on_receive, status, connect, disconnect,
  answered, left,
}
use lib_crypt_safe_messenger.Transport.Calls.{
  Call, to_connect, to_disconnect, to_send, to_on_receive, Answers, with_flag, silent, flag_of,
  run_with, perform,
}

-- A channel has been shut (or never opened), could not be opened, or is open over a socket.
pub data Link : Type 0 where
  shut failed : Link
  open_over : ℕ → Link

pub data Medium : Type 0 where
  stream datagram : Medium

pub record Channel (World : Type 0) : Type 0 where
  pub medium : Medium
  pub link : Link
  pub listener : Option (Callback World)

abbrev is_open : Link → Bool
is_open shut = false
is_open failed = false
is_open (open_over fd) = true

module _ {World : Type 0} (os : SocketCalls World) where
  abbrev socket_of : Medium → World → ℤ × World
  socket_of stream = os.socket_stream
  socket_of datagram = os.socket_dgram

  abbrev opened_with : Channel World → ℤ × Net World → Answers (Channel World) World
  opened_with c (pos fd, net) = ((true ∷ [], record c { link = open_over fd }), net)
  opened_with c (negsuc n, net) = ((false ∷ [], record c { link = failed }), net)

  abbrev shut_link : Channel World → Link → Net World → Answers (Channel World) World
  shut_link c shut net = (([], record c { link = shut }), net)
  shut_link c failed net = (([], record c { link = shut }), net)
  shut_link c (open_over fd) net = (([], record c { link = shut }), close_socket os fd net)

  -- To open a channel is to ask for a socket of its medium; to shut it is to close the socket that it is
  -- open over; it passes a message to its listener while it is open.
  abbrev pub channel_step : Channel World → Call World → Net World → Answers (Channel World) World
  channel_step c (to_connect address port) net = opened_with c (ask_socket (socket_of c.medium) net)
  channel_step c to_disconnect net = shut_link c c.link net
  channel_step c (to_send msg) net =
      if is_open c.link
      then ((true ∷ [], c), delivered c.listener msg net)
      else ((false ∷ [], c), net)
  channel_step c (to_on_receive callback) net = (([], record c { listener = some callback }), net)

-- The link that a status and a descriptor stand for.
abbrev link_of : Status → ℤ → Link
link_of s (pos fd) = open_over fd
link_of disconnected (negsuc n) = shut
link_of connecting (negsuc n) = shut
link_of connected (negsuc n) = shut
link_of transport_error (negsuc n) = failed

is_open-link_of : (s : Status) (fd : ℤ) → Settled s fd → is_open (link_of s fd) ≡ is_connected s
is_open-link_of disconnected (pos fd) h = absurd h
is_open-link_of disconnected (negsuc n) h = refl
is_open-link_of connecting fd h = absurd h
is_open-link_of connected (pos fd) h = refl
is_open-link_of connected (negsuc n) h = absurd h
is_open-link_of transport_error (pos fd) h = absurd h
is_open-link_of transport_error (negsuc n) h = refl

module _ {World : Type 0} where
  abbrev medium_of : ITransport World → Medium
  medium_of (local_mesh t) = stream
  medium_of (direct_p2p t) = datagram
  medium_of (tor_tunnel t) = stream

  -- The channel that a transport is: its status and its descriptor are one thing, and the peer's address
  -- of DirectP2P, which no operation reads, is forgotten.
  abbrev pub view : ITransport World → Channel World
  view t = record {
    medium = medium_of t;
    link = link_of (status t) (descriptor t);
    listener = handler t;
  }

  abbrev viewed : Answers (ITransport World) World → Answers (Channel World) World
  viewed ((bs, t), net) = ((bs, view t), net)

  viewed_if :
      (t : ITransport World) (b : Bool) (x y : Net World)
      → viewed (flag_of t (if b then (true, x) else (false, y)))
        ≡ (if b then ((true ∷ [], view t), x) else ((false ∷ [], view t), y))
  viewed_if t true x y = refl
  viewed_if t false x y = refl

  viewed-send :
      (t : ITransport World) (msg : Message) (net : Net World)
      → viewed (flag_of t (send t msg net)) ≡ (
          if is_connected (status t)
          then ((true ∷ [], view t), delivered (handler t) msg net)
          else ((false ∷ [], view t), net))
  unfolding send status LocalMesh.send DirectP2p.send TorTunnel.send LocalMesh.status
      DirectP2p.status TorTunnel.status
  viewed-send (local_mesh t) msg net = viewed_if (local_mesh t) (is_connected t.status_) _ _
  viewed-send (direct_p2p t) msg net = viewed_if (direct_p2p t) (is_connected t.status_) _ _
  viewed-send (tor_tunnel t) msg net = viewed_if (tor_tunnel t) (is_connected t.status_) _ _

  view-on_receive :
      (callback : Callback World) (t : ITransport World)
      → view (on_receive callback t) ≡ record (view t) { listener = some callback }
  unfolding on_receive status LocalMesh.on_receive DirectP2p.on_receive TorTunnel.on_receive
      LocalMesh.status DirectP2p.status TorTunnel.status
  view-on_receive callback (local_mesh t) = refl
  view-on_receive callback (direct_p2p t) = refl
  view-on_receive callback (tor_tunnel t) = refl

module _ {World : Type 0} (os : SocketCalls World) where
  mesh_opened :
      (t : LocalMesh.LocalMesh World) (r : ℤ × Net World)
      → let a = LocalMesh.with_socket (record t { status_ = connecting }) r in
        viewed (with_flag (answered local_mesh a)) ≡ opened_with os (view (local_mesh t)) r
  unfolding status LocalMesh.status
  mesh_opened t (pos fd, net) = refl
  mesh_opened t (negsuc n, net) = refl

  p2p_opened :
      (t : DirectP2p.DirectP2p World) (address : String) (port : ℕ) (r : ℤ × Net World)
      → let a = DirectP2p.with_socket os (record t { status_ = connecting }) address port r in
        viewed (with_flag (answered direct_p2p a)) ≡ opened_with os (view (direct_p2p t)) r
  unfolding status DirectP2p.status
  p2p_opened t address port (pos fd, net) = refl
  p2p_opened t address port (negsuc n, net) = refl

  tor_opened :
      (t : TorTunnel.TorTunnel World) (r : ℤ × Net World)
      → let a = TorTunnel.with_socket (record t { status_ = connecting }) r in
        viewed (with_flag (answered tor_tunnel a)) ≡ opened_with os (view (tor_tunnel t)) r
  unfolding status TorTunnel.status
  tor_opened t (pos fd, net) = refl
  tor_opened t (negsuc n, net) = refl

  viewed-connect :
      (t : ITransport World) (address : String) (port : ℕ) (net : Net World)
      → viewed (with_flag (connect os t address port net))
        ≡ channel_step os (view t) (to_connect address port) net
  unfolding connect LocalMesh.connect DirectP2p.connect TorTunnel.connect
  viewed-connect (local_mesh t) address port net = mesh_opened t (ask_socket os.socket_stream net)
  viewed-connect (direct_p2p t) address port net =
      p2p_opened t address port (ask_socket os.socket_dgram net)
  viewed-connect (tor_tunnel t) address port net = tor_opened t (ask_socket os.socket_stream net)

  mesh_shut :
      (t : LocalMesh.LocalMesh World) (s : Status) (fd : ℤ) (net : Net World)
      → viewed (silent (left local_mesh (LocalMesh.closed os t fd net)))
        ≡ shut_link os (view (local_mesh t)) (link_of s fd) net
  unfolding status LocalMesh.status
  mesh_shut t s (pos fd) net = refl
  mesh_shut t disconnected (negsuc n) net = refl
  mesh_shut t connecting (negsuc n) net = refl
  mesh_shut t connected (negsuc n) net = refl
  mesh_shut t transport_error (negsuc n) net = refl

  p2p_shut :
      (t : DirectP2p.DirectP2p World) (s : Status) (fd : ℤ) (net : Net World)
      → viewed (silent (left direct_p2p (DirectP2p.closed os t fd net)))
        ≡ shut_link os (view (direct_p2p t)) (link_of s fd) net
  unfolding status DirectP2p.status
  p2p_shut t s (pos fd) net = refl
  p2p_shut t disconnected (negsuc n) net = refl
  p2p_shut t connecting (negsuc n) net = refl
  p2p_shut t connected (negsuc n) net = refl
  p2p_shut t transport_error (negsuc n) net = refl

  tor_shut :
      (t : TorTunnel.TorTunnel World) (s : Status) (fd : ℤ) (net : Net World)
      → viewed (silent (left tor_tunnel (TorTunnel.closed os t fd net)))
        ≡ shut_link os (view (tor_tunnel t)) (link_of s fd) net
  unfolding status TorTunnel.status
  tor_shut t s (pos fd) net = refl
  tor_shut t disconnected (negsuc n) net = refl
  tor_shut t connecting (negsuc n) net = refl
  tor_shut t connected (negsuc n) net = refl
  tor_shut t transport_error (negsuc n) net = refl

  viewed-disconnect :
      (t : ITransport World) (net : Net World)
      → viewed (silent (disconnect os t net)) ≡ channel_step os (view t) to_disconnect net
  unfolding disconnect LocalMesh.disconnect DirectP2p.disconnect TorTunnel.disconnect
  viewed-disconnect (local_mesh t) net = mesh_shut t (status (local_mesh t)) t.socket_fd net
  viewed-disconnect (direct_p2p t) net = p2p_shut t (status (direct_p2p t)) t.socket_fd net
  viewed-disconnect (tor_tunnel t) net = tor_shut t (status (tor_tunnel t)) t.socket_fd net

  perform-IsSettled :
      (t : ITransport World) (call : Call World) (net : Net World)
      → IsSettled t
      → IsSettled (perform os t call net).0.1
  perform-IsSettled t (to_connect address port) net h = (connect-IsSettled os t address port net).0
  perform-IsSettled t to_disconnect net h = (disconnect_shuts os t net).0
  perform-IsSettled t (to_send msg) net h = h
  perform-IsSettled t (to_on_receive callback) net h = (on_receive-status callback t).1 h

  viewed-perform :
      (t : ITransport World) (call : Call World) (net : Net World)
      → IsSettled t
      → viewed (perform os t call net) ≡ channel_step os (view t) call net
  viewed-perform t (to_connect address port) net h = viewed-connect t address port net
  viewed-perform t to_disconnect net h = viewed-disconnect t net
  viewed-perform t (to_send msg) net h =
      rw (is_open-link_of (status t) (descriptor t) h) (viewed-send t msg net)
  viewed-perform t (to_on_receive callback) net h =
      ap (λ c. (([], c), net)) (view-on_receive callback t)

  -- Over any sequence of calls, on any of the three classes, a settled transport answers what the channel
  -- that it is answers, leaves the world, the open descriptors and the handler's calls as that channel
  -- does, and is again that channel, settled.
  pub transports_refine :
      (t : ITransport World) (calls : List (Call World)) (net : Net World)
      → IsSettled t
      → let r = run_with (perform os) t calls net in
        let c = run_with (channel_step os) (view t) calls net in
        (r.0.0 ≡ c.0.0) × (view r.0.1 ≡ c.0.1) × (r.1 ≡ c.1) × IsSettled r.0.1
  unfolding run_with
  transports_refine t [] net h = (refl, refl, refl, h)
  transports_refine t (call ∷ calls) net h =
      let r = perform os t call net in
      let same = viewed-perform t call net h in
      let (answers, channel, around, settled) =
        transports_refine r.0.1 calls r.1 (perform-IsSettled t call net h) in
      let after =
        λ (a : Answers (Channel World) World). run_with (channel_step os) a.0.1 calls a.1 in
      (
        ap (λ l. r.0.0 ++ l) answers
            ∙ ap (λ (a : Answers (Channel World) World). a.0.0 ++ (after a).0.0) same,
        channel ∙ ap (λ a. (after a).0.1) same,
        around ∙ ap (λ a. (after a).1) same,
        settled,
      )
