-- ===== src/ConnectionManager/Active.antt =====
-- The active transport of MessengerApp/ConnectionManager.hpp, from call to call, and what `disconnect`
-- leaves.
use lib_crypt_safe_messenger.Common.{
  ℕ, zero, suc, ◌+◌, ◌<◌, List, [], ◌∷◌, ◌≡◌, refl, sym, ap, ◌∙◌, subst, Bool, true, false,
  Bool-cases, inl, inr, Option, none, some, String, length, length-map, length-append, arith, All,
  if◌then◌else◌,
}
use lib_crypt_safe_messenger.Transport.{Platform, SocketCalls, Net, Message, Callback, is_connected}
use lib_crypt_safe_messenger.Transport.Interface
use lib_crypt_safe_messenger.Transport.Interface.{ITransport, status}
use lib_crypt_safe_messenger.Transport.Settled.{IsSettled, disconnect_shuts}
use lib_crypt_safe_messenger.ConnectionManager.Connecting.{Picked, try_from-Picked}
use lib_crypt_safe_messenger.ConnectionManager.{
  TransportEntry, Manager, Tried, new_manager, after_try, if_enabled, became_active, try_from,
  connect, at, send, sent_by, active_entry, named, forced, same_text, force_transport,
  disable_transport, disabled_if, on_receive, with_callback, close_all, after_close, disconnect,
  active_name,
}

-- The active transport is one of the manager's.
abbrev pub Within : Option ℕ → ℕ → Type 0
Within none n = Unit {0}
Within (some i) n = i < n

module _ {World : Type 0} where
  abbrev pub IsPlaced : Manager World → Type 0
  IsPlaced m = Within m.active (length m.transports)

  named-Within :
      (text : String) (place : ℕ) (es : List (TransportEntry World))
      → Within (named text place es) (place + length es)
  named-Within text place [] = tt
  named-Within text place (e ∷ es) =
      elim (Bool-cases (same_text (Interface.name e.transport) text)) [
        | inl same ↦ rw (same) (omega arith)
        | inr other ↦ rw (other) (
            subst (Within (named text (suc place) es)) (omega arith)
              (named-Within text (suc place) es))
      ]

  forced-IsPlaced :
      (m : Manager World) (found : Option ℕ)
      → IsPlaced m
      → Within found (length m.transports)
      → IsPlaced (forced m found).1
  forced-IsPlaced m none h k = h
  forced-IsPlaced m (some i) h k = k

  at-Within :
      (i : ℕ) (es : List (TransportEntry World))
      → i < length es
      → (e : TransportEntry World) × (at i es ≡ some e)
  at-Within i [] h = absurd (omega (arith, h))
  at-Within zero (e ∷ es) h = (e, refl)
  at-Within (suc i) (e ∷ es) h = at-Within i es (omega (arith, h))

  -- Settled, and not connected: without a descriptor.
  abbrev pub IsDown : TransportEntry World → Type 0
  IsDown e = IsSettled e.transport × (is_connected (status e.transport) ≡ false)

module _ {World : Type 0} (os : SocketCalls World) where
  length-after_try :
      (e : TransportEntry World) (place : ℕ) (es : List (TransportEntry World))
      (rest : Net World → Tried World) (r : (Bool × ITransport World) × Net World)
      → ((n : Net World) → length (rest n).1 ≡ length es)
      → length (after_try e place es rest r).1 ≡ suc (length es)
  length-after_try e place es rest ((true, t), net) h = refl
  length-after_try e place es rest ((false, t), net) h = ap suc (h net)

  length-if_enabled :
      (b : Bool) (n : ℕ) (try skip : Net World → Tried World) (net : Net World)
      → length (try net).1 ≡ n
      → length (skip net).1 ≡ n
      → length (if_enabled b try skip net).1 ≡ n
  length-if_enabled true n try skip net h k = h
  length-if_enabled false n try skip net h k = k

  length-try_from :
      (address : String) (port place : ℕ) (es : List (TransportEntry World)) (net : Net World)
      → length (try_from os address port place es net).1 ≡ length es
  unfolding try_from
  length-try_from address port place [] net = refl
  length-try_from address port place (e ∷ es) net =
      length-if_enabled e.enabled (suc (length es)) _ _ net
        (length-after_try e place es _ (Interface.connect os e.transport address port net)
          (λ n. length-try_from address port (suc place) es n))
        (ap suc (length-try_from address port (suc place) es net))

  became_active-IsPlaced :
      (m : Manager World) (w : World) (r : Tried World)
      → IsPlaced m
      → length r.1 ≡ length m.transports
      → Picked os 0 w m.transports r
      → IsPlaced (became_active m r).0.1
  became_active-IsPlaced m w (none, es, net) h len picked = subst (Within m.active) (sym len) h
  became_active-IsPlaced m w (some i, es, net) h len
        (before, passed, e, f, after, _, _, whole, _, _, _, _, _, _, place) =
      omega (arith, len, place, ap length whole, length-append before (e ∷ after))

  -- The active transport is always one of the manager's own: in a new manager, and after every call on one
  -- where it is. Where there is an active transport, there is an entry in its place, and `send` is the
  -- `send` of that entry's transport.
  pub active-IsPlaced :
      (platform : Platform) (m : Manager World) (address text : String) (port : ℕ)
      (callback : Callback World) (msg : Message) (net : Net World)
      → IsPlaced m
      → IsPlaced (new_manager platform os net).0
        × IsPlaced (connect os m address port net).0.1
        × IsPlaced (on_receive m callback)
        × IsPlaced (force_transport m text).1
        × IsPlaced (disable_transport m text)
        × IsPlaced (disconnect os m net).0
        × ((i : ℕ)
            → m.active ≡ some i
            → (e : TransportEntry World) × (at i m.transports ≡ some e)
              × (send m msg net ≡ Interface.send e.transport msg net))
  unfolding new_manager connect on_receive force_transport disable_transport disconnect send
  active-IsPlaced platform m address text port callback msg net h =
      let tried = try_from os address port 0 m.transports net in
      (
        tt,
        became_active-IsPlaced m net.world tried h (length-try_from address port 0 m.transports net)
            (try_from-Picked os address port 0 m.transports net),
        subst (Within m.active) (sym (length-map (with_callback callback) m.transports)) h,
        forced-IsPlaced m (named text 0 m.transports) h (
            subst (Within (named text 0 m.transports)) (omega arith)
              (named-Within text 0 m.transports)),
        subst (Within m.active) (sym (length-map (disabled_if text) m.transports)) h,
        tt,
        (λ i active.
            let (e, found) =
              at-Within i m.transports (subst (λ a. Within a (length m.transports)) active h) in
            (
              e,
              found,
              ap (λ a. sent_by (active_entry m a) msg net) active
                  ∙ ap (λ x. sent_by x msg net) found,
            )),
      )

  after_close-IsDown :
      (e : TransportEntry World) (es : List (TransportEntry World)) (b : Bool) (net : Net World)
      (rest : Net World → List (TransportEntry World) × Net World)
      → IsSettled e.transport
      → is_connected (status e.transport) ≡ b
      → ((n : Net World) → All IsDown (rest n).0)
      → All IsDown
          (after_close e
            (if b then Interface.disconnect os e.transport net else (e.transport, net))
            rest).0
  after_close-IsDown e es true net rest h up k =
      let (settled, down, _, _) = disconnect_shuts os e.transport net in
      ((settled, ap is_connected down), k _)
  after_close-IsDown e es false net rest h up k = ((h, up), k net)

  close_all-IsDown :
      (es : List (TransportEntry World)) (net : Net World)
      → All (λ e. IsSettled e.transport) es
      → All IsDown (close_all os es net).0
  unfolding close_all
  close_all-IsDown [] net h = tt
  close_all-IsDown (e ∷ es) net h =
      after_close-IsDown e es (is_connected (status e.transport)) net (close_all os es) h.0 refl
        (λ n. close_all-IsDown es n h.1)

  -- After `disconnect`, on a manager whose transports are settled, each of them is settled and not
  -- connected, so that none holds a descriptor; there is no active transport, its name reads "none", and
  -- `send` reports false and does nothing.
  pub disconnect_closes :
      (m : Manager World) (msg : Message) (net : Net World)
      → All (λ e. IsSettled e.transport) m.transports
      → let d = disconnect os m net in
        All IsDown d.0.transports
        × (d.0.active ≡ none)
        × (active_name d.0 ≡ "none")
        × (send d.0 msg d.1 ≡ (false, d.1))
  unfolding disconnect active_name send
  disconnect_closes m msg net h = (close_all-IsDown m.transports net h, refl, refl, refl)
