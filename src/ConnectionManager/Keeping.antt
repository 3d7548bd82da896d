-- ===== src/ConnectionManager/Keeping.antt =====
-- What the calls of MessengerApp/ConnectionManager.hpp keep of its entries: the order of the priorities, and
-- transports that are settled.
use lib_crypt_safe_messenger.Common.{
  ℕ, List, [], ◌∷◌, map, ◌≡◌, Bool, true, false, Option, none, some, String, Pairwise,
  if◌then◌else◌,
}
use lib_crypt_safe_messenger.Transport.{SocketCalls, Net, is_connected}
use lib_crypt_safe_messenger.Transport.Interface
use lib_crypt_safe_messenger.Transport.Interface.{
  ITransport, status, make_local_mesh, make_direct_p2p, make_tor_tunnel,
}
use lib_crypt_safe_messenger.Transport.Settled.{IsSettled, connect-IsSettled, disconnect_shuts}
use lib_crypt_safe_messenger.ConnectionManager.{
  TransportEntry, Manager, Tried, after_try, if_enabled, became_active, try_from, forced, close_all,
  after_close,
}

module _ {World : Type 0} where
  -- The entry has that priority, and its transport holds a descriptor where it is connected and nowhere
  -- else.
  abbrev pub Keeps : ℕ → TransportEntry World → Type 0
  Keeps p e = (e.priority ≡ p) × IsSettled e.transport

  abbrev pub Sound : List ℕ → List (TransportEntry World) → Type 0
  Sound ps es = Pairwise Keeps ps es

  after_try-Sound :
      (p place : ℕ) (ps : List ℕ) (e : TransportEntry World) (es : List (TransportEntry World))
      (rest : Net World → Tried World) (r : (Bool × ITransport World) × Net World)
      → e.priority ≡ p
      → IsSettled r.0.1
      → Sound ps es
      → ((n : Net World) → Sound ps (rest n).1)
      → Sound (p ∷ ps) (after_try e place es rest r).1
  after_try-Sound p place ps e es rest ((true, t), net) kept settled h k = ((kept, settled), h)
  after_try-Sound p place ps e es rest ((false, t), net) kept settled h k = ((kept, settled), k net)

  if_enabled-Sound :
      (b : Bool) (ps : List ℕ) (try skip : Net World → Tried World) (net : Net World)
      → Sound ps (try net).1
      → Sound ps (skip net).1
      → Sound ps (if_enabled b try skip net).1
  if_enabled-Sound true ps try skip net h k = h
  if_enabled-Sound false ps try skip net h k = k

  pub became_active-Sound :
      (ps : List ℕ) (m : Manager World) (r : Tried World)
      → Sound ps r.1
      → Sound ps (became_active m r).0.1.transports
  became_active-Sound ps m (none, es, net) h = h
  became_active-Sound ps m (some i, es, net) h = h

  pub map-Sound :
      (f : TransportEntry World → TransportEntry World)
      → ((p : ℕ) (e : TransportEntry World) → Keeps p e → Keeps p (f e))
      → (ps : List ℕ) (es : List (TransportEntry World)) → Sound ps es
      → Sound ps (map f es)
  map-Sound f k [] [] h = tt
  map-Sound f k [] (e ∷ es) h = absurd h
  map-Sound f k (p ∷ ps) [] h = absurd h
  map-Sound f k (p ∷ ps) (e ∷ es) (one, h) = (k p e one, map-Sound f k ps es h)

  pub disabled-Keeps :
      (b : Bool) (p : ℕ) (e : TransportEntry World)
      → Keeps p e
      → Keeps p (if b then record e { enabled = false } else e)
  disabled-Keeps true p e h = h
  disabled-Keeps false p e h = h

  pub forced-Sound :
      (ps : List ℕ) (m : Manager World) (found : Option ℕ)
      → Sound ps m.transports
      → Sound ps (forced m found).1.transports
  forced-Sound ps m none h = h
  forced-Sound ps m (some i) h = h

module _ {World : Type 0} (os : SocketCalls World) where
  pub try_from-Sound :
      (address : String) (port place : ℕ) (ps : List ℕ) (es : List (TransportEntry World))
      (net : Net World)
      → Sound ps es
      → Sound ps (try_from os address port place es net).1
  unfolding try_from
  try_from-Sound address port place [] [] net h = tt
  try_from-Sound address port place [] (e ∷ es) net h = absurd h
  try_from-Sound address port place (p ∷ ps) [] net h = absurd h
  try_from-Sound address port place (p ∷ ps) (e ∷ es) net (kept, h) =
      if_enabled-Sound e.enabled (p ∷ ps) _ _ net
        (after_try-Sound p place ps e es _ (Interface.connect os e.transport address port net)
          kept.0 (connect-IsSettled os e.transport address port net).0 h
          (λ n. try_from-Sound address port _ ps es n h))
        (kept, try_from-Sound address port _ ps es net h)

  after_close-Sound :
      (p : ℕ) (ps : List ℕ) (e : TransportEntry World) (b : Bool) (net : Net World)
      (rest : Net World → List (TransportEntry World) × Net World)
      → Keeps p e
      → ((n : Net World) → Sound ps (rest n).0)
      → Sound
          (p ∷ ps)
          (after_close e
            (if b then Interface.disconnect os e.transport net else (e.transport, net))
            rest).0
  after_close-Sound p ps e true net rest (kept, settled) k =
      ((kept, (disconnect_shuts os e.transport net).0), k _)
  after_close-Sound p ps e false net rest h k = (h, k net)

  pub close_all-Sound :
      (ps : List ℕ) (es : List (TransportEntry World)) (net : Net World)
      → Sound ps es
      → Sound ps (close_all os es net).0
  unfolding close_all
  close_all-Sound [] [] net h = tt
  close_all-Sound [] (e ∷ es) net h = absurd h
  close_all-Sound (p ∷ ps) [] net h = absurd h
  close_all-Sound (p ∷ ps) (e ∷ es) net (one, h) =
      after_close-Sound p ps e (is_connected (status e.transport)) net (close_all os es) one
        (λ n. close_all-Sound ps es n h)
