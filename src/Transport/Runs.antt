-- ===== src/Transport/Runs.antt =====
-- A transport at a concrete input.
use lib_crypt_safe_messenger.Common.{ℕ, ◌+◌, ◌≡◌, refl, List, [], ◌∷◌, false, none, pos, negsuc}
use lib_crypt_safe_messenger.Transport.{
  SocketCalls, Net, Message, Callback, connected, disconnected, posix, windows,
}
use lib_crypt_safe_messenger.Transport.LocalMesh
use lib_crypt_safe_messenger.Transport.DirectP2p
use lib_crypt_safe_messenger.Transport.Interface.{
  ITransport, local_mesh, make_local_mesh, make_direct_p2p, connect, disconnect, destroy,
  on_receive, send, status,
}
use lib_crypt_safe_messenger.Transport.Settled.{IsSettled}
use lib_crypt_safe_messenger.Transport.Contract.{transport_contract, reconnect_leaks}
use lib_crypt_safe_messenger.Transport.Calls.{
  Call, to_connect, to_disconnect, to_send, to_on_receive, run_with, perform,
}
use lib_crypt_safe_messenger.Transport.Refinement.{view, channel_step, transports_refine}
use lib_crypt_safe_messenger.Transport.Lifetime.{mesh_factory, made_by, Tidy, lifetime_closes}

-- Descriptors from a counter; no datagram sockets.
abbrev pub counting : SocketCalls ℕ
counting = record {
  socket_stream = λ w. (pos w, w + 1);
  socket_dgram = λ w. (negsuc 0, w);
  close = λ fd w. w;
  wsa_startup = λ w. w;
  wsa_cleanup = λ w. w;
  inet_pton = λ text. none;
}

abbrev net : Net ℕ
net = record { world = 4; opened = 3 ∷ []; startups = 1 }

abbrev mesh : ITransport ℕ
mesh = local_mesh (record { status_ = connected; socket_fd = pos 3; receive_cb = none })

abbrev hello : Message
hello = record { payload = 1 ∷ []; sender_id = "a"; timestamp = 9 }

abbrev counted : Callback ℕ
counted msg w = w + 100

connect_udp_fails : (connect counting (make_direct_p2p posix counting net).0 "b" 1 net).0.0 ≡ false
unfolding connect make_direct_p2p DirectP2p.connect DirectP2p.new_direct_p2p
connect_udp_fails = refl

mesh-IsSettled : IsSettled mesh
unfolding status LocalMesh.status
mesh-IsSettled = tt

mesh_is_connected : status mesh ≡ connected
unfolding status LocalMesh.status
mesh_is_connected = refl

mesh_hands_over : (send (on_receive counted mesh) hello net).1 ≡ record net { world = 104 }
mesh_hands_over =
    (transport_contract counting mesh "b" 1 counted hello net mesh-IsSettled).6 mesh_is_connected

reconnect_leaks_example :
    let c = connect counting mesh "b" 1 net in
    let d = disconnect counting c.0.1 c.1 in
    ((disconnect counting mesh net).1.opened ≡ [])
    × (d.1.opened ≡ 3 ∷ [])
    × IsSettled d.0
    × (status d.0 ≡ disconnected)
reconnect_leaks_example = reconnect_leaks counting mesh "b" 1 net 3 refl

-- A registered handler, a message while connected and one after `disconnect`, and a second connection.
abbrev script : List (Call ℕ)
script =
    to_on_receive counted ∷ to_send hello ∷ to_disconnect ∷ to_send hello ∷ to_connect "b" 1 ∷ []

transports_refine_example :
    let r = run_with (perform counting) mesh script net in
    let c = run_with (channel_step counting) (view mesh) script net in
    (r.0.0 ≡ c.0.0) × (view r.0.1 ≡ c.0.1) × (r.1 ≡ c.1) × IsSettled r.0.1
transports_refine_example = transports_refine counting mesh script net mesh-IsSettled

abbrev start : ITransport ℕ × Net ℕ
start = made_by windows counting mesh_factory net

script_reconnects_once : Tidy counting start.0 (to_connect "b" 1 ∷ script) start.1
unfolding make_local_mesh LocalMesh.new_local_mesh status LocalMesh.status connect disconnect send
    on_receive LocalMesh.connect LocalMesh.disconnect LocalMesh.send LocalMesh.on_receive
script_reconnects_once = ((λ e. cc e), (tt, (tt, (tt, (tt, ((λ e. cc e), tt))))))

lifetime_closes_example :
    let r = run_with (perform counting) start.0 (to_connect "b" 1 ∷ script) start.1 in
    let after = destroy windows counting r.0.1 r.1 in (after.opened ≡ 3 ∷ []) × (after.startups ≡ 1)
lifetime_closes_example =
    lifetime_closes windows counting mesh_factory (to_connect "b" 1 ∷ script) net
      script_reconnects_once
