-- ===== src/ConnectionManager.antt =====
-- MessengerApp/ConnectionManager.hpp: the transports in the order of their priority, and the active one,
-- by its place in that order.
pub mod Connecting
pub mod Active
pub mod Keeping
pub mod Reachable
pub mod Destroyed
mod Runs
use lib_crypt_safe_messenger.Common.{
  ℕ, suc, zero, ◌+◌, List, [], ◌∷◌, map, Bool, true, false, not, Option, none, some, String, ltb,
  if◌then◌else◌, bytes_eq, codes,
}
use lib_crypt_safe_messenger.Transport.{Platform, SocketCalls, Net, Message, Callback, is_connected}
use lib_crypt_safe_messenger.Transport.Interface
use lib_crypt_safe_messenger.Transport.Interface.{
  ITransport, status, destroy, make_local_mesh, make_direct_p2p, make_tor_tunnel,
}

-- `a == b` of two strings.
abbrev pub same_text : String → String → Bool
same_text a b = bytes_eq (codes a) (codes b)

pub record TransportEntry (World : Type 0) : Type 0 where
  pub transport : ITransport World
  pub priority : ℕ
  pub enabled : Bool

pub record Manager (World : Type 0) : Type 0 where
  pub transports : List (TransportEntry World)
  pub active : Option ℕ

-- `connect`: the loop from an entry on gives the place of the entry that connected, if one did, the
-- entries, and what the calls left behind.
abbrev pub Tried : Type 0 → Type 0
Tried World = Option ℕ × List (TransportEntry World) × Net World

module _ {World : Type 0} where
  -- `std::sort` by priority.
  abbrev pub insert :
      TransportEntry World → List (TransportEntry World) → List (TransportEntry World)
  insert e [] = e ∷ []
  insert e (x ∷ xs) =
      let rest = insert e xs in if ltb x.priority e.priority then x ∷ rest else e ∷ x ∷ xs

  abbrev pub sort : List (TransportEntry World) → List (TransportEntry World)
  sort [] = []
  sort (x ∷ xs) = insert x (sort xs)

  abbrev pub entry : ITransport World → ℕ → TransportEntry World
  entry t priority = record { transport = t; priority = priority; enabled = true }

  -- The entry at a place.
  abbrev pub at : ℕ → List (TransportEntry World) → Option (TransportEntry World)
  at n [] = none
  at zero (x ∷ xs) = some x
  at (suc n) (x ∷ xs) = at n xs

  abbrev pub with_entry : TransportEntry World → Tried World → Tried World
  with_entry e (found, es, net) = (found, e ∷ es, net)

  abbrev pub after_try :
      TransportEntry World
      → ℕ
      → List (TransportEntry World)
      → (Net World → Tried World)
      → (Bool × ITransport World) × Net World
      → Tried World
  after_try e place es rest ((true, t), net) = (some place, record e { transport = t } ∷ es, net)
  after_try e place es rest ((false, t), net) = with_entry (record e { transport = t }) (rest net)

  -- `if (!entry.enabled) continue;`
  abbrev pub if_enabled :
      Bool → (Net World → Tried World) → (Net World → Tried World) → Net World → Tried World
  if_enabled true try skip net = try net
  if_enabled false try skip net = skip net

  abbrev pub became_active : Manager World → Tried World → (Bool × Manager World) × Net World
  became_active m (none, es, net) = ((false, record m { transports = es }), net)
  became_active m (some i, es, net) = ((true, record { transports = es; active = some i }), net)

  abbrev pub sent_by : Option (TransportEntry World) → Message → Net World → Bool × Net World
  sent_by none msg net = (false, net)
  sent_by (some e) msg net = Interface.send e.transport msg net

  abbrev pub active_entry : Manager World → Option ℕ → Option (TransportEntry World)
  active_entry m none = none
  active_entry m (some i) = at i m.transports

  unfoldable pub send : Manager World → Message → Net World → Bool × Net World
  send m msg net = sent_by (active_entry m m.active) msg net

  abbrev pub with_callback : Callback World → TransportEntry World → TransportEntry World
  with_callback cb e = record e { transport = Interface.on_receive cb e.transport }

  abbrev pub disabled_if : String → TransportEntry World → TransportEntry World
  disabled_if text e =
      if same_text (Interface.name e.transport) text then record e { enabled = false } else e

  unfoldable pub on_receive : Manager World → Callback World → Manager World
  on_receive m cb = record m { transports = map (with_callback cb) m.transports }

  -- The place of the first transport of that name.
  abbrev pub named : String → ℕ → List (TransportEntry World) → Option ℕ
  named text place [] = none
  named text place (e ∷ es) =
      let rest = named text (suc place) es in
      if same_text (Interface.name e.transport) text then some place else rest

  abbrev pub forced : Manager World → Option ℕ → Bool × Manager World
  forced m none = (false, m)
  forced m (some i) = (true, record m { active = some i })

  unfoldable pub force_transport : Manager World → String → Bool × Manager World
  force_transport m text = forced m (named text 0 m.transports)

  unfoldable pub disable_transport : Manager World → String → Manager World
  disable_transport m text = record m { transports = map (disabled_if text) m.transports }

  abbrev pub name_or_none : Option (TransportEntry World) → String
  name_or_none none = "none"
  name_or_none (some e) = Interface.name e.transport

  unfoldable pub active_name : Manager World → String
  active_name m = name_or_none (active_entry m m.active)

  -- An entry of `disconnect`'s loop, and the entries after it.
  abbrev pub after_close :
      TransportEntry World
      → ITransport World × Net World
      → (Net World → List (TransportEntry World) × Net World)
      → List (TransportEntry World) × Net World
  after_close e (t, net) rest = let r = rest net in (record e { transport = t } ∷ r.0, r.1)

module _ {World : Type 0} (os : SocketCalls World) where
  unfoldable pub try_from : String → ℕ → ℕ → List (TransportEntry World) → Net World → Tried World
  try_from address port place [] net = (none, [], net)
  try_from address port place (e ∷ es) net =
      if_enabled e.enabled
        (λ n.
          after_try e place es (try_from address port (suc place) es)
            (Interface.connect os e.transport address port n))
        (λ n. with_entry e (try_from address port (suc place) es n)) net

  unfoldable pub connect :
      Manager World → String → ℕ → Net World → (Bool × Manager World) × Net World
  connect m address port net = became_active m (try_from address port 0 m.transports net)

  unfoldable pub close_all :
      List (TransportEntry World) → Net World → List (TransportEntry World) × Net World
  close_all [] net = ([], net)
  close_all (e ∷ es) net =
      after_close e
        (if is_connected (status e.transport)
          then Interface.disconnect os e.transport net
          else (e.transport, net))
        (close_all es)

  unfoldable pub disconnect : Manager World → Net World → Manager World × Net World
  disconnect m net =
      let r = close_all m.transports net in (record { transports = r.0; active = none }, r.1)

module _ {World : Type 0} (platform : Platform) (os : SocketCalls World) where
  -- The constructor.
  unfoldable pub new_manager : Net World → Manager World × Net World
  new_manager net =
      let mesh = make_local_mesh platform os net in
      let p2p = make_direct_p2p platform os mesh.1 in
      let tor = make_tor_tunnel platform os p2p.1 in
      (
        record {
          transports = sort (entry mesh.0 1 ∷ entry p2p.0 2 ∷ entry tor.0 3 ∷ []);
          active = none;
        },
        tor.1,
      )

  -- The destructor, which the class does not write: each entry's pointer destroys its transport.
  unfoldable pub destroy_entries : List (TransportEntry World) → Net World → Net World
  destroy_entries [] net = net
  destroy_entries (e ∷ es) net = destroy_entries es (destroy platform os e.transport net)

  abbrev pub destroy_manager : Manager World → Net World → Net World
  destroy_manager m net = destroy_entries m.transports net
