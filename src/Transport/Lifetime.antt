-- ===== src/Transport/Lifetime.antt =====
-- The transports of TransportLayer from their factory to their destructor.
use lib_crypt_safe_messenger.Common.{
  ℕ, List, [], ◌∷◌, ◌≡◌, ◌≢◌, refl, sym, ap, ◌∙◌, Bool, true, false, Option, none, some, ℤ, pos,
  negsuc, if◌then◌else◌, arith,
}
use lib_crypt_safe_messenger.Transport.{
  Status, disconnected, connecting, connected, transport_error, Message, Platform, posix, windows,
  SocketCalls, Net, Callback, is_connected, delivered, wsa_begin, wsa_end,
}
use lib_crypt_safe_messenger.Transport.LocalMesh
use lib_crypt_safe_messenger.Transport.DirectP2p
use lib_crypt_safe_messenger.Transport.TorTunnel
use lib_crypt_safe_messenger.Transport.Settled.{
  Settled, IsSettled, descriptor, left_open, connect-IsSettled, disconnect_shuts, on_receive-status,
}
use lib_crypt_safe_messenger.Transport.Contract.{connect_adds}
use lib_crypt_safe_messenger.Transport.Interface.{
  ITransport, local_mesh, direct_p2p, tor_tunnel, send, on_receive, status, disconnect, destroy,
  make_local_mesh, make_direct_p2p, make_tor_tunnel,
}
use lib_crypt_safe_messenger.Transport.Calls.{
  Call, to_connect, to_disconnect, to_send, to_on_receive, run_with, perform,
}

-- The three factories.
pub data Factory : Type 0 where
  mesh_factory p2p_factory tor_factory : Factory

module _ {World : Type 0} where
  abbrev SameLedger : Net World → Net World → Type 0
  SameLedger a b = (a.opened ≡ b.opened) × (a.startups ≡ b.startups)

  delivered_same :
      (callback : Option (Callback World)) (msg : Message) (net : Net World)
      → SameLedger (delivered callback msg net) net
  delivered_same none msg net = (refl, refl)
  delivered_same (some callback) msg net = (refl, refl)

  same_if :
      (b : Bool) (x y net : Net World)
      → SameLedger x net
      → SameLedger y net
      → let r : Bool × Net World = if b then (true, x) else (false, y) in SameLedger r.1 net
  same_if true x y net h k = h
  same_if false x y net h k = k

  pub send_same :
      (t : ITransport World) (msg : Message) (net : Net World) → SameLedger (send t msg net).1 net
  unfolding send LocalMesh.send DirectP2p.send TorTunnel.send
  send_same (local_mesh t) msg net =
      same_if (is_connected t.status_) _ _ net (delivered_same t.receive_cb msg net) (refl, refl)
  send_same (direct_p2p t) msg net =
      same_if (is_connected t.status_) _ _ net (delivered_same t.receive_cb msg net) (refl, refl)
  send_same (tor_tunnel t) msg net =
      same_if (is_connected t.status_) _ _ net (delivered_same t.receive_cb msg net) (refl, refl)

  on_receive-descriptor :
      (callback : Callback World) (t : ITransport World)
      → descriptor (on_receive callback t) ≡ descriptor t
  unfolding on_receive LocalMesh.on_receive DirectP2p.on_receive TorTunnel.on_receive
  on_receive-descriptor callback (local_mesh t) = refl
  on_receive-descriptor callback (direct_p2p t) = refl
  on_receive-descriptor callback (tor_tunnel t) = refl

  left_open_same :
      (fd : ℤ) (a b : Net World) → a.opened ≡ b.opened → left_open fd a ≡ left_open fd b
  left_open_same (pos fd) a b h = rw (h) refl
  left_open_same (negsuc n) a b h = h

  -- Without a connection there is no descriptor to lose.
  none_held :
      (s : Status) (fd : ℤ) (net : Net World)
      → Settled s fd
      → s ≢ connected
      → net.opened ≡ left_open fd net
  none_held disconnected (pos fd) net h k = absurd h
  none_held connecting fd net h k = absurd h
  none_held connected fd net h k = absurd (k refl)
  none_held transport_error (pos fd) net h k = absurd h
  none_held disconnected (negsuc n) net h k = refl
  none_held transport_error (negsuc n) net h k = refl

module _ {World : Type 0} (os : SocketCalls World) where
  abbrev Fresh : ITransport World → Call World → Type 0
  Fresh t (to_connect address port) = status t ≢ connected
  Fresh t to_disconnect = Unit {0}
  Fresh t (to_send msg) = Unit {0}
  Fresh t (to_on_receive callback) = Unit {0}

  -- No call of `connect` in the sequence is made while the transport is connected.
  abbrev pub Tidy : ITransport World → List (Call World) → Net World → Type 0
  Tidy t [] net = Unit {0}
  Tidy t (call ∷ calls) net = let r = perform os t call net in Fresh t call × Tidy r.0.1 calls r.1

  -- What would stay open if the transport let go of its descriptor, and the uses of WinSock.
  abbrev Balanced : ITransport World → Net World → List ℕ → ℕ → Type 0
  Balanced t net opened n =
      IsSettled t × (left_open (descriptor t) net ≡ opened) × (net.startups ≡ n)

  perform-Balanced :
      (t : ITransport World) (call : Call World) (net : Net World) (opened : List ℕ) (n : ℕ)
      → Fresh t call
      → Balanced t net opened n
      → let r = perform os t call net in Balanced r.0.1 r.1 opened n
  perform-Balanced t (to_connect address port) net opened n fresh (settled, still, uses) =
      let (up, same) = connect_adds os t address port net in
      (
        (connect-IsSettled os t address port net).0,
        up ∙ none_held (status t) (descriptor t) net settled fresh ∙ still,
        same ∙ uses,
      )
  perform-Balanced t to_disconnect net opened n fresh (settled, still, uses) =
      let d = disconnect os t net in
      let (quiet, down, shut, same) = disconnect_shuts os t net in
      let gone = none_held (status d.0) (descriptor d.0) d.1 quiet (λ up. absurd (cc (down, up))) in
      (quiet, sym gone ∙ shut ∙ still, same ∙ uses)
  perform-Balanced t (to_send msg) net opened n fresh (settled, still, uses) =
      let (same, starts) = send_same t msg net in
      (settled, left_open_same (descriptor t) (send t msg net).1 net same ∙ still, starts ∙ uses)
  perform-Balanced t (to_on_receive callback) net opened n fresh (settled, still, uses) = (
    (on_receive-status callback t).1 settled,
    ap (λ fd. left_open fd net) (on_receive-descriptor callback t) ∙ still,
    uses,
  )

  run-Balanced :
      (t : ITransport World) (calls : List (Call World)) (net : Net World) (opened : List ℕ) (n : ℕ)
      → Tidy t calls net
      → Balanced t net opened n
      → let r = run_with (perform os) t calls net in Balanced r.0.1 r.1 opened n
  unfolding run_with
  run-Balanced t [] net opened n tidy h = h
  run-Balanced t (call ∷ calls) net opened n (fresh, tidy) h =
      let r = perform os t call net in
      run-Balanced r.0.1 calls r.1 opened n tidy (perform-Balanced t call net opened n fresh h)

  begun : (p : Platform) (net : Net World) → (wsa_begin os p net).opened ≡ net.opened
  begun posix net = refl
  begun windows net = refl

  -- WSACleanup undoes WSAStartup.
  ended :
      (p : Platform) (before net : Net World)
      → net.startups ≡ (wsa_begin os p before).startups
      → ((wsa_end os p net).opened ≡ net.opened) × ((wsa_end os p net).startups ≡ before.startups)
  ended posix before net h = (refl, h)
  ended windows before net h = (refl, omega (arith, h))

module _ {World : Type 0} (platform : Platform) (os : SocketCalls World) where
  -- The object that a factory makes.
  abbrev pub made_by : Factory → Net World → ITransport World × Net World
  made_by mesh_factory net = make_local_mesh platform os net
  made_by p2p_factory net = make_direct_p2p platform os net
  made_by tor_factory net = make_tor_tunnel platform os net

  made_by-Balanced :
      (f : Factory) (net : Net World)
      → let m = made_by f net in Balanced os m.0 m.1 net.opened (wsa_begin os platform net).startups
  unfolding make_local_mesh make_direct_p2p make_tor_tunnel LocalMesh.new_local_mesh
      DirectP2p.new_direct_p2p TorTunnel.new_tor_tunnel status LocalMesh.status DirectP2p.status
      TorTunnel.status
  made_by-Balanced mesh_factory net = (tt, begun os platform net, refl)
  made_by-Balanced p2p_factory net = (tt, begun os platform net, refl)
  made_by-Balanced tor_factory net = (tt, begun os platform net, refl)

  pub destroy_lem :
      (t : ITransport World) (net : Net World)
      → destroy platform os t net ≡ wsa_end os platform (disconnect os t net).1
  unfolding destroy disconnect LocalMesh.destroy DirectP2p.destroy TorTunnel.destroy
  destroy_lem (local_mesh t) net = refl
  destroy_lem (direct_p2p t) net = refl
  destroy_lem (tor_tunnel t) net = refl

  -- A transport of any of the three factories, used in any way in which `connect` is not called while it is
  -- connected, and destroyed, leaves the same descriptors open as there were before it was made, and as
  -- many uses of WinSock.
  pub lifetime_closes :
      (f : Factory) (calls : List (Call World)) (net : Net World)
      → Tidy os (made_by f net).0 calls (made_by f net).1
      → let m = made_by f net in
        let r = run_with (perform os) m.0 calls m.1 in
        let after = destroy platform os r.0.1 r.1 in
        (after.opened ≡ net.opened) × (after.startups ≡ net.startups)
  lifetime_closes f calls net tidy =
      let m = made_by f net in
      let r = run_with (perform os) m.0 calls m.1 in
      let (settled, still, uses) =
        run-Balanced os m.0 calls m.1 net.opened _ tidy (made_by-Balanced f net) in
      let (quiet, down, shut, same) = disconnect_shuts os r.0.1 r.1 in
      let (kept, starts) = ended os platform net (disconnect os r.0.1 r.1).1 (same ∙ uses) in
      let run = destroy_lem r.0.1 r.1 in
      (ap (λ n. n.opened) run ∙ kept ∙ shut ∙ still, ap (λ n. n.startups) run ∙ starts)
