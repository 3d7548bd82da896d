-- ===== src/ConnectionManager/Connecting.antt =====
-- Which transport MessengerApp/ConnectionManager.hpp connects.
use lib_crypt_safe_messenger.Common.{
  ℕ, suc, ◌+◌, List, [], ◌∷◌, ◌++◌, ◌≡◌, refl, ap, ◌∙◌, sym, Bool, true, false, inl, inr, ◌⊎◌, none,
  some, String, length, ℤ, pos, negsuc, arith,
}
use lib_crypt_safe_messenger.Transport.{SocketCalls, Net, connected, transport_error}
use lib_crypt_safe_messenger.Transport.Interface
use lib_crypt_safe_messenger.Transport.Interface.{
  ITransport, local_mesh, direct_p2p, tor_tunnel, status,
}
use lib_crypt_safe_messenger.Transport.Settled.{descriptor}
use lib_crypt_safe_messenger.Transport.Answers.{Answered, socket_of, connect-Answered}
use lib_crypt_safe_messenger.ConnectionManager.{
  TransportEntry, Manager, Tried, with_entry, after_try, if_enabled, became_active, try_from,
  connect,
}

module _ {World : Type 0} (os : SocketCalls World) where
  -- What the loop makes of an entry that it passes, from one state of the system to the next: a disabled one
  -- is as it was, with no call of the system; an enabled one asked for a socket in vain, and has failed.
  abbrev pub Passed : TransportEntry World → TransportEntry World → World → World → Type 0
  Passed e f w v =
      ((e.enabled ≡ false) × (f ≡ e) × (w ≡ v))
      ⊎ ((k : ℕ) × (e.enabled ≡ true)
          × (socket_of os e.transport w ≡ (negsuc k, v))
          × (status f.transport ≡ transport_error)
          × (f.priority ≡ e.priority)
          × (f.enabled ≡ true))

  abbrev pub AllPassed :
      List (TransportEntry World) → List (TransportEntry World) → World → World → Type 0
  AllPassed [] [] w v = w ≡ v
  AllPassed [] (f ∷ fs) w v = ⊥
  AllPassed (e ∷ es) [] w v = ⊥
  AllPassed (e ∷ es) (f ∷ fs) w v = (u : World) × Passed e f w u × AllPassed es fs u v

  -- What the loop makes of the entries: it passes them all, or passes some, and connects the next one,
  -- which is enabled and gets a socket, and leaves the rest as they were.
  abbrev pub Picked : ℕ → World → List (TransportEntry World) → Tried World → Type 0
  Picked place w es (none, fs, net) = AllPassed es fs w net.world
  Picked place w es (some i, fs, net) =
      (before : List (TransportEntry World)) × (passed : List (TransportEntry World))
      × (e : TransportEntry World) × (f : TransportEntry World) × (after : List
          (TransportEntry World))
      × (u : World) × (fd : ℕ) × (es ≡ before ++ (e ∷ after))
      × (fs ≡ passed ++ (f ∷ after))
      × AllPassed before passed w u
      × (e.enabled ≡ true)
      × (socket_of os e.transport u ≡ (pos fd, net.world))
      × (status f.transport ≡ connected)
      × (descriptor f.transport ≡ pos fd)
      × (i ≡ place + length before)

  with_entry-Picked :
      (place : ℕ) (w u : World) (e f : TransportEntry World) (es : List (TransportEntry World))
      (r : Tried World)
      → Passed e f w u
      → Picked (suc place) u es r
      → Picked place w (e ∷ es) (with_entry f r)
  with_entry-Picked place w u e f es (none, fs, net) p h = (u, p, h)
  with_entry-Picked place w u e f es (some i, fs, net) p
        (before, passed, x, y, after, v, fd, e1, e2, all, on, asked, up, held, at) =
      (
        e ∷ before,
        f ∷ passed,
        x,
        y,
        after,
        v,
        fd,
        ap (λ l. e ∷ l) e1,
        ap (λ l. f ∷ l) e2,
        (u, p, all),
        on,
        asked,
        up,
        held,
        omega (arith, at),
      )

  after_try-Picked :
      (place : ℕ) (w : World) (e : TransportEntry World) (es : List (TransportEntry World))
      (q : ℤ × World) (r : (Bool × ITransport World) × Net World) (rest : Net World → Tried World)
      → socket_of os e.transport w ≡ q
      → e.enabled ≡ true
      → Answered q r
      → ((n : Net World) → Picked (suc place) n.world es (rest n))
      → Picked place w (e ∷ es) (after_try e place es rest r)
  after_try-Picked place w e es (pos fd, v) ((true, t), net) rest asked on (_, up, held, left) h = (
    [],
    [],
    e,
    record e { transport = t },
    es,
    w,
    fd,
    refl,
    refl,
    refl,
    on,
    asked ∙ ap (λ x. (pos fd, x)) (sym left),
    up,
    held,
    omega arith,
  )
  after_try-Picked place w e es (pos fd, v) ((false, t), net) rest asked on (said, _, _, _) h =
      absurd (cc said)
  after_try-Picked place w e es (negsuc k, v) ((true, t), net) rest asked on (said, _, _, _) h =
      absurd (cc said)
  after_try-Picked place w e es (negsuc k, v) ((false, t), net) rest asked on (_, down, _, left) h =
      with_entry-Picked place w net.world e (record e { transport = t }) es (rest net)
        (inr (k, on, asked ∙ ap (λ x. (negsuc k, x)) (sym left), down, refl, on)) (h net)

  if_enabled-Picked :
      (place : ℕ) (w : World) (e : TransportEntry World) (es : List (TransportEntry World))
      (b : Bool) (try skip : Net World → Tried World) (net : Net World)
      → (b ≡ true → Picked place w (e ∷ es) (try net))
      → (b ≡ false → Picked place w (e ∷ es) (skip net))
      → Picked place w (e ∷ es) (if_enabled b try skip net)
  if_enabled-Picked place w e es true try skip net h k = h refl
  if_enabled-Picked place w e es false try skip net h k = k refl

  pub try_from-Picked :
      (address : String) (port place : ℕ) (es : List (TransportEntry World)) (net : Net World)
      → Picked place net.world es (try_from os address port place es net)
  unfolding try_from
  try_from-Picked address port place [] net = refl
  try_from-Picked address port place (e ∷ es) net =
      if_enabled-Picked place net.world e es e.enabled _ _ net
        (λ on.
          after_try-Picked place net.world e es (socket_of os e.transport net.world)
            (Interface.connect os e.transport address port net) _ refl on
            (connect-Answered os e.transport address port net)
            (λ n. try_from-Picked address port (suc place) es n))
        (λ off.
          with_entry-Picked place net.world net.world e e es
            (try_from os address port (suc place) es net) (inl (off, refl, refl))
            (try_from-Picked address port (suc place) es net))

  became_active-Picked :
      (m : Manager World) (w : World) (r : Tried World)
      → Picked 0 w m.transports r
      → let c = became_active m r in
        ((c.0.0 ≡ false)
          × (c.0.1.active ≡ m.active)
          × AllPassed m.transports c.0.1.transports w c.1.world)
        ⊎ ((i : ℕ) × (c.0.0 ≡ true)
            × (c.0.1.active ≡ some i)
            × Picked 0 w m.transports (some i, c.0.1.transports, c.1))
  became_active-Picked m w (none, es, net) h = inl (refl, refl, h)
  became_active-Picked m w (some i, es, net) h = inr (i, refl, refl, h)

  -- `connect` goes through the entries in their order. Either it reports false: every enabled transport has
  -- asked the system for a socket, in this order, got none and failed, every other is as it was, and the
  -- active transport is what it was before. Or it reports true: the active transport is the first enabled
  -- one that got a socket, and is connected with that descriptor; the enabled ones before it have asked in
  -- vain and failed, and the disabled ones and those after it are as they were, with no call for them.
  pub connect_picks :
      (m : Manager World) (address : String) (port : ℕ) (net : Net World)
      → let c = connect os m address port net in
        ((c.0.0 ≡ false)
          × (c.0.1.active ≡ m.active)
          × AllPassed m.transports c.0.1.transports net.world c.1.world)
        ⊎ ((i : ℕ) × (c.0.0 ≡ true)
            × (c.0.1.active ≡ some i)
            × Picked 0 net.world m.transports (some i, c.0.1.transports, c.1))
  unfolding connect
  connect_picks m address port net =
      became_active-Picked m net.world (try_from os address port 0 m.transports net)
        (try_from-Picked address port 0 m.transports net)
