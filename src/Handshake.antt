-- ===== src/Handshake.antt =====
-- MessengerApp/server.cpp and MessengerApp/client.cpp: the two `main` functions from the key pair on. A
-- party is a state between two calls of `recv_frame`; a step takes the frame received and gives the next
-- state and the frames passed to `send_frame`, whose result neither program looks at. The calls of the
-- sockets and what is printed besides the texts shown are left out.
pub mod Accepted
pub mod Guarded
pub mod Turns
pub mod Honest
pub mod Forged
mod Runs
use lib_crypt_safe_messenger.Common.{
  ℕ, [], ◌∷◌, ◌++◌, List, map, not, if◌then◌else◌, Option, none, some, String, Bytes, codes,
  bytes_eq,
}
use lib_crypt_safe_messenger.Common.Proc.{
  Proc, Machine, Outcome, returns, throws, faults, Exception, ◌>>=◌, return,
}
use lib_crypt_safe_messenger.OpenSsl.Cipher.{CipherLib}
use lib_crypt_safe_messenger.OpenSsl.Pkey.{PkeyLib}
use lib_crypt_safe_messenger.KeyExchange.Keys.{generate, export_public_key}
use lib_crypt_safe_messenger.KeyExchange.Ecdh.{compute_shared_key}
use lib_crypt_safe_messenger.KeyExchange.Fingerprint.{get_fingerprint, compute_session_confirmation}
use lib_crypt_safe_messenger.Cryptor

-- The server waits for the client's key, waits for the client's confirmation, or receives texts (those
-- shown so far); or `main` is over: by an exit code, by an exception that nothing catches, or by
-- undefined behaviour.
pub data Server (Key : Type 0) : Type 0 where
  awaits_client_key : Key → Bytes → Server Key
  awaits_client_confirm : Bytes → Server Key
  serves : Bytes → List Bytes → Server Key
  server_over : Outcome ℕ → Server Key

pub data Client (Key : Type 0) : Type 0 where
  awaits_server_key : Key → Client Key
  awaits_server_confirm : Bytes → Client Key
  client_over : Outcome ℕ → Client Key

-- The end of a turn: the next state, and the frames sent.
abbrev pub turn :
    {World A S : Type 0}
    → (Outcome A → S × List Bytes)
    → Outcome A × Machine World
    → (S × List Bytes) × Machine World
turn f (o, m) = (f o, m)

module _ {Key : Type 0} where
  -- After the client's key: the server's key has been sent before anything can fail.
  abbrev pub server_keyed : Bytes → Outcome (Bytes × Bytes) → Server Key × List Bytes
  server_keyed pub_der (returns (aes_key, confirm)) =
      (awaits_client_confirm aes_key, pub_der ∷ confirm ∷ [])
  server_keyed pub_der (throws e) = (server_over (throws e), pub_der ∷ [])
  server_keyed pub_der faults = (server_over faults, pub_der ∷ [])

  -- After the client's confirmation.
  abbrev pub server_confirmed : Outcome (Option Bytes) → Server Key × List Bytes
  server_confirmed (returns none) = (server_over (returns 1), [])
  server_confirmed (returns (some cryptor)) = (serves cryptor [], [])
  server_confirmed (throws e) = (server_over (throws e), [])
  server_confirmed faults = (server_over faults, [])

  -- After a text. `decrypt` stands outside the `try` of the loop.
  abbrev pub server_read : Bytes → List Bytes → Outcome Bytes → Server Key × List Bytes
  server_read cryptor shown (returns plain) = (serves cryptor (shown ++ (plain ∷ [])), [])
  server_read cryptor shown (throws e) = (server_over (throws e), [])
  server_read cryptor shown faults = (server_over faults, [])

  -- `recv_frame` throws: in the loop that is the end of the program, elsewhere nothing catches it.
  abbrev pub server_unread : Exception → Server Key → Server Key
  server_unread e (awaits_client_key key pub_der) = server_over (throws e)
  server_unread e (awaits_client_confirm aes_key) = server_over (throws e)
  server_unread e (serves cryptor shown) = server_over (returns 0)
  server_unread e (server_over o) = server_over o

  abbrev pub client_keyed : Outcome Bytes → Client Key × List Bytes
  client_keyed (returns aes_key) = (awaits_server_confirm aes_key, [])
  client_keyed (throws e) = (client_over (throws e), [])
  client_keyed faults = (client_over faults, [])

  abbrev pub client_unread : Exception → Client Key → Client Key
  client_unread e (awaits_server_key key) = client_over (throws e)
  client_unread e (awaits_server_confirm aes_key) = client_over (throws e)
  client_unread e (client_over o) = client_over o

-- The texts that the client sends.
abbrev pub messages : List Bytes
messages =
    codes "Hello from client!"
    ∷ codes "AES-256-GCM over real TCP"
    ∷ codes "HMAC handshake confirmed!"
    ∷ []

module _ {World : Type 0} (ciphers : CipherLib World) (lib : PkeyLib World) where
  -- Up to the first `recv_frame`; the fingerprint is printed.
  unfoldable pub server_start : Proc World (Server lib.Pkey)
  server_start = do
    kex ← generate lib
    server_pub ← export_public_key lib kex
    shown ← get_fingerprint lib kex
    return (awaits_client_key kex server_pub)

  unfoldable pub client_start : Proc World (Client lib.Pkey × List Bytes)
  client_start = do
    kex ← generate lib
    client_pub ← export_public_key lib kex
    shown ← get_fingerprint lib kex
    return (awaits_server_key kex, client_pub ∷ [])

  abbrev pub server_derives : lib.Pkey → Bytes → Proc World (Bytes × Bytes)
  server_derives kex client_pub = do
    aes_key ← compute_shared_key lib kex client_pub
    srv_confirm ← compute_session_confirmation lib aes_key "server_confirm"
    return (aes_key, srv_confirm)

  abbrev pub server_checks : Bytes → Bytes → Proc World (Option Bytes)
  server_checks aes_key cli_confirm_recv = do
    cli_confirm_expected ← compute_session_confirmation lib aes_key "client_confirm"
    if not (bytes_eq cli_confirm_recv cli_confirm_expected)
        then return none
        else do cryptor ← Cryptor.new_cryptor aes_key; return (some cryptor)

  unfoldable pub server_step :
      Server lib.Pkey → Bytes → Machine World → (Server lib.Pkey × List Bytes) × Machine World
  server_step (awaits_client_key kex server_pub) frame m =
      turn (server_keyed server_pub) (server_derives kex frame m)
  server_step (awaits_client_confirm aes_key) frame m =
      turn server_confirmed (server_checks aes_key frame m)
  server_step (serves cryptor shown) frame m =
      turn (server_read cryptor shown) (Cryptor.decrypt ciphers cryptor frame m)
  server_step (server_over o) frame m = ((server_over o, []), m)

  -- The loop over the messages: how it ends, and what has been sent by then.
  abbrev pub sent_text :
      Outcome Bytes × Machine World
      → (Machine World → (Outcome ℕ × List Bytes) × Machine World)
      → (Outcome ℕ × List Bytes) × Machine World
  sent_text (returns encrypted, m) rest = let r = rest m in ((r.0.0, encrypted ∷ r.0.1), r.1)
  sent_text (throws e, m) rest = ((throws e, []), m)
  sent_text (faults, m) rest = ((faults, []), m)

  unfoldable pub send_texts :
      Bytes → List Bytes → Machine World → (Outcome ℕ × List Bytes) × Machine World
  send_texts cryptor [] m = ((returns 0, []), m)
  send_texts cryptor (text ∷ texts) m =
      sent_text (Cryptor.encrypt ciphers cryptor text m) (send_texts cryptor texts)

  -- The client's confirmation and the cryptor; none, if the server's confirmation is not the right one.
  abbrev pub client_checks : Bytes → Bytes → Proc World (Option Bytes)
  client_checks aes_key srv_confirm_recv = do
    srv_confirm_expected ← compute_session_confirmation lib aes_key "server_confirm"
    if not (bytes_eq srv_confirm_recv srv_confirm_expected) then return none else do
      cli_confirm ← compute_session_confirmation lib aes_key "client_confirm"
      return (some cli_confirm)

  -- Once the confirmation is sent: the cryptor, and the loop.
  abbrev pub client_talks :
      Bytes → Outcome Bytes × Machine World → (Client lib.Pkey × List Bytes) × Machine World
  client_talks cli_confirm (returns cryptor, m) =
      let r = send_texts cryptor messages m in ((client_over r.0.0, cli_confirm ∷ r.0.1), r.1)
  client_talks cli_confirm (throws e, m) = ((client_over (throws e), cli_confirm ∷ []), m)
  client_talks cli_confirm (faults, m) = ((client_over faults, cli_confirm ∷ []), m)

  abbrev pub client_confirmed :
      Bytes
      → Outcome (Option Bytes) × Machine World
      → (Client lib.Pkey × List Bytes) × Machine World
  client_confirmed aes_key (returns none, m) = ((client_over (returns 1), []), m)
  client_confirmed aes_key (returns (some cli_confirm), m) =
      client_talks cli_confirm (Cryptor.new_cryptor aes_key m)
  client_confirmed aes_key (throws e, m) = ((client_over (throws e), []), m)
  client_confirmed aes_key (faults, m) = ((client_over faults, []), m)

  unfoldable pub client_step :
      Client lib.Pkey → Bytes → Machine World → (Client lib.Pkey × List Bytes) × Machine World
  client_step (awaits_server_key kex) frame m =
      turn client_keyed (compute_shared_key lib kex frame m)
  client_step (awaits_server_confirm aes_key) frame m =
      client_confirmed aes_key (client_checks aes_key frame m)
  client_step (client_over o) frame m = ((client_over o, []), m)

  -- The server over a sequence of frames: its state, and the frames it has sent.
  unfoldable pub server_run :
      Server lib.Pkey → List Bytes → Machine World → (Server lib.Pkey × List Bytes) × Machine World
  server_run s [] m = ((s, []), m)
  server_run s (frame ∷ frames) m =
      let r = server_step s frame m in
      let rest = server_run r.0.0 frames r.1 in ((rest.0.0, r.0.1 ++ rest.0.1), rest.1)

  -- The client over a sequence of frames, in the same way.
  unfoldable pub client_run :
      Client lib.Pkey → List Bytes → Machine World → (Client lib.Pkey × List Bytes) × Machine World
  client_run s [] m = ((s, []), m)
  client_run s (frame ∷ frames) m =
      let r = client_step s frame m in
      let rest = client_run r.0.0 frames r.1 in ((rest.0.0, r.0.1 ++ rest.0.1), rest.1)
