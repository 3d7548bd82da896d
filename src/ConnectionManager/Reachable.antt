-- ===== src/ConnectionManager/Reachable.antt =====
-- The managers of MessengerApp/ConnectionManager.hpp that a program can have: the constructor, and any calls
-- after it.
use lib_crypt_safe_messenger.Common.{ℕ, List, [], ◌∷◌, ◌≡◌, refl, false, none, String, All}
use lib_crypt_safe_messenger.Transport.{Platform, SocketCalls, Net, Message, Callback}
use lib_crypt_safe_messenger.Transport.LocalMesh
use lib_crypt_safe_messenger.Transport.DirectP2p
use lib_crypt_safe_messenger.Transport.TorTunnel
use lib_crypt_safe_messenger.Transport.Interface
use lib_crypt_safe_messenger.Transport.Interface.{
  ITransport, status, make_local_mesh, make_direct_p2p, make_tor_tunnel,
}
use lib_crypt_safe_messenger.Transport.Settled.{IsSettled, on_receive-status}
use lib_crypt_safe_messenger.ConnectionManager.{
  TransportEntry, Manager, new_manager, try_from, connect, send, same_text, force_transport,
  disable_transport, disabled_if, on_receive, with_callback, disconnect, active_name, named,
}
use lib_crypt_safe_messenger.ConnectionManager.Active.{
  IsPlaced, IsDown, active-IsPlaced, disconnect_closes,
}
use lib_crypt_safe_messenger.ConnectionManager.Keeping.{
  Sound, try_from-Sound, became_active-Sound, map-Sound, disabled-Keeps, forced-Sound,
  close_all-Sound,
}

module _ {World : Type 0} (os : SocketCalls World) where
  -- One call on a manager.
  pub data Step (m : Manager World) (net : Net World) : Manager World × Net World → Type 0 where
    connects :
        (address : String) (port : ℕ)
        → Step m net ((connect os m address port net).0.1, (connect os m address port net).1)
    sends : (msg : Message) → Step m net (m, (send m msg net).1)
    receives : (callback : Callback World) → Step m net (on_receive m callback, net)
    forces : (text : String) → Step m net ((force_transport m text).1, net)
    disables : (text : String) → Step m net (disable_transport m text, net)
    disconnects : Step m net (disconnect os m net)

  -- What the constructor and calls on the manager, in any order, lead to.
  pub data Reachable (platform : Platform) (net : Net World)
      : Manager World × Net World → Type 0 where
    built : Reachable platform net (new_manager platform os net)
    later :
        {s t : Manager World × Net World}
        → Reachable platform net s
        → Step s.0 s.1 t
        → Reachable platform net t

  Step-Sound :
      (ps : List ℕ) (m : Manager World) (net : Net World) (t : Manager World × Net World)
      → Step m net t
      → Sound ps m.transports
      → Sound ps t.0.transports
  unfolding connect on_receive force_transport disable_transport disconnect
  Step-Sound ps m net _ (connects address port) h =
      became_active-Sound ps m (try_from os address port 0 m.transports net)
        (try_from-Sound os address port 0 ps m.transports net h)
  Step-Sound ps m net _ (sends msg) h = h
  Step-Sound ps m net _ (receives callback) h =
      map-Sound (with_callback callback)
        (λ p e k. (k.0, (on_receive-status callback e.transport).1 k.1)) ps m.transports h
  Step-Sound ps m net _ (forces text) h = forced-Sound ps m (named text 0 m.transports) h
  Step-Sound ps m net _ (disables text) h =
      map-Sound (disabled_if text)
        (λ p e k. disabled-Keeps (same_text (Interface.name e.transport) text) p e k) ps
        m.transports h
  Step-Sound ps m net _ disconnects h = close_all-Sound os ps m.transports net h

  abbrev no_message : Message
  no_message = record { payload = []; sender_id = ""; timestamp = 0 }

  abbrev ignoring : Callback World
  ignoring msg w = w

  Step-IsPlaced :
      (platform : Platform) (m : Manager World) (net : Net World) (t : Manager World × Net World)
      → Step m net t
      → IsPlaced m
      → IsPlaced t.0
  Step-IsPlaced platform m net _ (connects address port) h =
      (active-IsPlaced os platform m address "" port ignoring no_message net h).1
  Step-IsPlaced platform m net _ (sends msg) h = h
  Step-IsPlaced platform m net _ (receives callback) h =
      (active-IsPlaced os platform m "" "" 0 callback no_message net h).2
  Step-IsPlaced platform m net _ (forces text) h =
      (active-IsPlaced os platform m "" text 0 ignoring no_message net h).3
  Step-IsPlaced platform m net _ (disables text) h =
      (active-IsPlaced os platform m "" text 0 ignoring no_message net h).4
  Step-IsPlaced platform m net _ disconnects h =
      (active-IsPlaced os platform m "" "" 0 ignoring no_message net h).5

  new_manager-Sound :
      (platform : Platform) (net : Net World)
      → Sound (1 ∷ 2 ∷ 3 ∷ []) (new_manager platform os net).0.transports
        × IsPlaced (new_manager platform os net).0
  unfolding new_manager make_local_mesh make_direct_p2p make_tor_tunnel LocalMesh.new_local_mesh
      DirectP2p.new_direct_p2p TorTunnel.new_tor_tunnel status LocalMesh.status DirectP2p.status
      TorTunnel.status
  new_manager-Sound platform net = (((refl, tt), ((refl, tt), ((refl, tt), tt))), tt)

  -- Whatever calls are made on a manager after its constructor, in whatever order: it has three transports,
  -- in the order of their priorities 1, 2 and 3, each of which holds a descriptor where it is connected and
  -- nowhere else, and is not left in CONNECTING; and the active transport, if there is one, is one of the
  -- three.
  pub Reachable-Sound :
      (platform : Platform) (net : Net World) (s : Manager World × Net World)
      → Reachable platform net s
      → Sound (1 ∷ 2 ∷ 3 ∷ []) s.0.transports × IsPlaced s.0
  Reachable-Sound platform net _ built = new_manager-Sound platform net
  Reachable-Sound platform net t (later {s = s} before step) =
      let (sound, placed) = Reachable-Sound platform net s before in
      (
        Step-Sound (1 ∷ 2 ∷ 3 ∷ []) s.0 s.1 t step sound,
        Step-IsPlaced platform s.0 s.1 t step placed,
      )

  Sound-IsSettled :
      (ps : List ℕ) (es : List (TransportEntry World))
      → Sound ps es
      → All (λ e. IsSettled e.transport) es
  Sound-IsSettled [] [] h = tt
  Sound-IsSettled [] (e ∷ es) h = absurd h
  Sound-IsSettled (p ∷ ps) [] h = absurd h
  Sound-IsSettled (p ∷ ps) (e ∷ es) (one, h) = (one.1, Sound-IsSettled ps es h)

  -- Whatever calls have been made on a manager after its constructor, in whatever order, and then
  -- `disconnect`: none of its transports is connected or holds a descriptor, there is no active transport,
  -- its name reads "none", and `send` reports false and does nothing.
  pub Reachable-disconnect :
      (platform : Platform) (net : Net World) (s : Manager World × Net World) (msg : Message)
      → Reachable platform net s
      → let d = disconnect os s.0 s.1 in
        All IsDown d.0.transports
        × (d.0.active ≡ none)
        × (active_name d.0 ≡ "none")
        × (send d.0 msg d.1 ≡ (false, d.1))
  Reachable-disconnect platform net s msg reached =
      disconnect_closes os s.0 msg s.1
        (Sound-IsSettled (1 ∷ 2 ∷ 3 ∷ []) s.0.transports (Reachable-Sound platform net s reached).0)
