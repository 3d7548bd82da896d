-- ===== src/ConnectionManager/Destroyed.antt =====
-- The uses of WinSock of MessengerApp/ConnectionManager.hpp, from the constructor to the destructor.
use lib_crypt_safe_messenger.Common.{
  ℕ, suc, ◌-◌, List, [], ◌∷◌, ◌≡◌, refl, ap, ◌∙◌, Bool, true, false, Option, none, some, String,
  arith, if◌then◌else◌,
}
use lib_crypt_safe_messenger.Transport.{
  Platform, posix, windows, SocketCalls, Net, Message, is_connected, wsa_begin, wsa_end,
}
use lib_crypt_safe_messenger.Transport.LocalMesh
use lib_crypt_safe_messenger.Transport.DirectP2p
use lib_crypt_safe_messenger.Transport.TorTunnel
use lib_crypt_safe_messenger.Transport.Interface
use lib_crypt_safe_messenger.Transport.Interface.{
  ITransport, status, destroy, make_local_mesh, make_direct_p2p, make_tor_tunnel,
}
use lib_crypt_safe_messenger.Transport.Settled.{disconnect_shuts}
use lib_crypt_safe_messenger.Transport.Contract.{connect_adds}
use lib_crypt_safe_messenger.Transport.Lifetime.{send_same, destroy_lem}
use lib_crypt_safe_messenger.ConnectionManager.{
  TransportEntry, Manager, Tried, new_manager, after_try, if_enabled, became_active, try_from,
  connect, send, sent_by, active_entry, close_all, after_close, disconnect, destroy_entries,
  destroy_manager,
}
use lib_crypt_safe_messenger.ConnectionManager.Keeping.{Sound}
use lib_crypt_safe_messenger.ConnectionManager.Reachable.{
  Step, connects, sends, receives, forces, disables, disconnects, Reachable, built, later,
  Reachable-Sound,
}

-- WSAStartup and WSACleanup, counted.
abbrev used : Platform → ℕ → ℕ
used posix n = n
used windows n = suc n

abbrev unused : Platform → ℕ → ℕ
unused posix n = n
unused windows n = n - 1

unused_three :
    (p : Platform) (n : ℕ) → unused p (unused p (unused p (used p (used p (used p n))))) ≡ n
unused_three posix n = refl
unused_three windows n = omega arith

module _ {World : Type 0} where
  -- A call of the loop leaves the uses of WinSock as they were.
  abbrev Same : ℕ → Net World → Type 0
  Same n net = net.startups ≡ n

  after_try-Same :
      (n place : ℕ) (e : TransportEntry World) (es : List (TransportEntry World))
      (rest : Net World → Tried World) (r : (Bool × ITransport World) × Net World)
      → Same n r.1
      → ((net : Net World) → Same n net → Same n (rest net).2)
      → Same n (after_try e place es rest r).2
  after_try-Same n place e es rest ((true, t), net) h k = h
  after_try-Same n place e es rest ((false, t), net) h k = k net h

  if_enabled-Same :
      (b : Bool) (n : ℕ) (try skip : Net World → Tried World) (net : Net World)
      → Same n (try net).2
      → Same n (skip net).2
      → Same n (if_enabled b try skip net).2
  if_enabled-Same true n try skip net h k = h
  if_enabled-Same false n try skip net h k = k

  became_active-Same :
      (m : Manager World) (n : ℕ) (r : Tried World) → Same n r.2 → Same n (became_active m r).1
  became_active-Same m n (none, es, net) h = h
  became_active-Same m n (some i, es, net) h = h

  sent_by-Same :
      (n : ℕ) (e : Option (TransportEntry World)) (msg : Message) (net : Net World)
      → Same n net
      → Same n (sent_by e msg net).1
  sent_by-Same n none msg net h = h
  sent_by-Same n (some e) msg net h = (send_same e.transport msg net).1 ∙ h

module _ {World : Type 0} (os : SocketCalls World) where
  try_from-Same :
      (address : String) (port place n : ℕ) (es : List (TransportEntry World)) (net : Net World)
      → Same n net
      → Same n (try_from os address port place es net).2
  unfolding try_from
  try_from-Same address port place n [] net h = h
  try_from-Same address port place n (e ∷ es) net h =
      if_enabled-Same e.enabled n _ _ net
        (after_try-Same n place e es _ (Interface.connect os e.transport address port net)
          ((connect_adds os e.transport address port net).1 ∙ h)
          (λ net2 k. try_from-Same address port _ n es net2 k))
        (try_from-Same address port _ n es net h)

  after_close-Same :
      (n : ℕ) (e : TransportEntry World) (b : Bool) (net : Net World)
      (rest : Net World → List (TransportEntry World) × Net World)
      → Same n net
      → ((net2 : Net World) → Same n net2 → Same n (rest net2).1)
      → Same n
          (after_close e
            (if b then Interface.disconnect os e.transport net else (e.transport, net))
            rest).1
  after_close-Same n e true net rest h k =
      k (Interface.disconnect os e.transport net).1 ((disconnect_shuts os e.transport net).3 ∙ h)
  after_close-Same n e false net rest h k = k net h

  close_all-Same :
      (n : ℕ) (es : List (TransportEntry World)) (net : Net World)
      → Same n net
      → Same n (close_all os es net).1
  unfolding close_all
  close_all-Same n [] net h = h
  close_all-Same n (e ∷ es) net h =
      after_close-Same n e (is_connected (status e.transport)) net (close_all os es) h
        (λ net2 k. close_all-Same n es net2 k)

  Step-Same :
      (n : ℕ) (m : Manager World) (net : Net World) (t : Manager World × Net World)
      → Step os m net t
      → Same n net
      → Same n t.1
  unfolding connect send disconnect
  Step-Same n m net _ (connects address port) h =
      became_active-Same m n (try_from os address port 0 m.transports net)
        (try_from-Same address port 0 n m.transports net h)
  Step-Same n m net _ (sends msg) h = sent_by-Same n (active_entry m m.active) msg net h
  Step-Same n m net _ (receives callback) h = h
  Step-Same n m net _ (forces text) h = h
  Step-Same n m net _ (disables text) h = h
  Step-Same n m net _ disconnects h = close_all-Same n m.transports net h

  Reachable-Same :
      (platform : Platform) (net : Net World) (s : Manager World × Net World)
      → Reachable os platform net s
      → Same (new_manager platform os net).1.startups s.1
  Reachable-Same platform net _ built = refl
  Reachable-Same platform net t (later {s = s} before step) =
      Step-Same _ s.0 s.1 t step (Reachable-Same platform net s before)

  wsa_end_startups :
      (p : Platform) (net : Net World) → (wsa_end os p net).startups ≡ unused p net.startups
  wsa_end_startups posix net = refl
  wsa_end_startups windows net = refl

  wsa_begin_startups :
      (p : Platform) (net : Net World) → (wsa_begin os p net).startups ≡ used p net.startups
  wsa_begin_startups posix net = refl
  wsa_begin_startups windows net = refl

module _ {World : Type 0} (platform : Platform) (os : SocketCalls World) where
  new_manager_startups :
      (net : Net World)
      → (new_manager platform os net).1.startups
        ≡ used platform (used platform (used platform net.startups))
  unfolding new_manager make_local_mesh make_direct_p2p make_tor_tunnel LocalMesh.new_local_mesh
      DirectP2p.new_direct_p2p TorTunnel.new_tor_tunnel
  new_manager_startups net =
      let one = wsa_begin os platform net in
      let two = wsa_begin os platform one in
      wsa_begin_startups os platform two
      ∙ ap (used platform) (
          wsa_begin_startups os platform one
          ∙ ap (used platform) (wsa_begin_startups os platform net))

  destroy_startups :
      (t : ITransport World) (net : Net World)
      → (destroy platform os t net).startups ≡ unused platform net.startups
  destroy_startups t net =
      ap (λ n. n.startups) (destroy_lem platform os t net)
      ∙ wsa_end_startups os platform (Interface.disconnect os t net).1
      ∙ ap (unused platform) (disconnect_shuts os t net).3

  destroy_three :
      (es : List (TransportEntry World)) (net : Net World)
      → Sound (1 ∷ 2 ∷ 3 ∷ []) es
      → (destroy_entries platform os es net).startups
        ≡ unused platform (unused platform (unused platform net.startups))
  unfolding destroy_entries
  destroy_three (a ∷ b ∷ c ∷ []) net h =
      let one = destroy platform os a.transport net in
      let two = destroy platform os b.transport one in
      destroy_startups c.transport two
      ∙ ap (unused platform) (
          destroy_startups b.transport one
          ∙ ap (unused platform) (destroy_startups a.transport net))
  destroy_three [] net h = absurd h
  destroy_three (a ∷ []) net h = absurd h.1
  destroy_three (a ∷ b ∷ []) net h = absurd h.1.1
  destroy_three (a ∷ b ∷ c ∷ d ∷ es) net h = absurd h.1.1.1

  -- Whatever calls are made on a manager between its constructor and its destructor, in whatever order: the
  -- destructor calls WSACleanup for every WSAStartup of the constructor, so that there are as many uses of
  -- WinSock as before the two.
  pub destroyed_unused :
      (net : Net World) (s : Manager World × Net World)
      → Reachable os platform net s
      → (destroy_manager platform os s.0 s.1).startups ≡ net.startups
  destroyed_unused net s reached =
      destroy_three s.0.transports s.1 (Reachable-Sound os platform net s reached).0
      ∙ ap (λ n. unused platform (unused platform (unused platform n)))
          (Reachable-Same os platform net s reached ∙ new_manager_startups net)
      ∙ unused_three platform net.startups
