-- ===== src/Transport/Calls.antt =====
-- A transport of TransportLayer over any sequence of calls, and what it is while it is used.
use lib_crypt_safe_messenger.Common.{ℕ, List, [], ◌∷◌, ◌++◌, Bool, String}
use lib_crypt_safe_messenger.Transport.{Message, SocketCalls, Net, Callback}
use lib_crypt_safe_messenger.Transport.Interface.{ITransport, send, on_receive, connect, disconnect}

pub data Call (World : Type 0) : Type 0 where
  to_connect : String → ℕ → Call World
  to_disconnect : Call World
  to_send : Message → Call World
  to_on_receive : Callback World → Call World

-- What the calls have answered, the transport, and what is around it.
abbrev pub Answers : Type 0 → Type 0 → Type 0
Answers T World = (List Bool × T) × Net World

module _ {World : Type 0} where
  abbrev pub with_flag : {T : Type 0} → (Bool × T) × Net World → Answers T World
  with_flag ((b, t), net) = ((b ∷ [], t), net)

  abbrev pub silent : {T : Type 0} → T × Net World → Answers T World
  silent (t, net) = (([], t), net)

  abbrev pub flag_of : {T : Type 0} → T → Bool × Net World → Answers T World
  flag_of t (b, net) = ((b ∷ [], t), net)

  -- One call after another, by what a single one does.
  unfoldable pub run_with :
      {T : Type 0}
      → (T → Call World → Net World → Answers T World)
      → T
      → List (Call World)
      → Net World
      → Answers T World
  run_with step t [] net = (([], t), net)
  run_with step t (call ∷ calls) net =
      let r = step t call net in
      let rest = run_with step r.0.1 calls r.1 in ((r.0.0 ++ rest.0.0, rest.0.1), rest.1)

module _ {World : Type 0} (os : SocketCalls World) where
  abbrev pub perform : ITransport World → Call World → Net World → Answers (ITransport World) World
  perform t (to_connect address port) net = with_flag (connect os t address port net)
  perform t to_disconnect net = silent (disconnect os t net)
  perform t (to_send msg) net = flag_of t (send t msg net)
  perform t (to_on_receive callback) net = (([], on_receive callback t), net)
