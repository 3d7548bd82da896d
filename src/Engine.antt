-- ===== src/Engine.antt =====
-- LibCryptSafe/include/crypto_engine.hpp: the entry points, which turn exceptions into codes. An
-- output parameter is an argument and part of the result; so is the session, where it changes.
pub mod Codes
pub mod Sessions
pub mod Promises
pub mod Talk
mod Runs
use lib_crypt_safe_messenger.Common.{
  ℕ, [], Bool, true, false, not, if◌then◌else◌, Option, none, some, String, Bytes,
}
use lib_crypt_safe_messenger.Common.Proc.{
  Proc, Exception, runtime_error, invalid_argument, return, caught,
}
use lib_crypt_safe_messenger.OpenSsl.Cipher.{CipherLib}
use lib_crypt_safe_messenger.OpenSsl.Pkey.{PkeyLib}
use lib_crypt_safe_messenger.Cryptor
use lib_crypt_safe_messenger.KeyExchange.Keys.{generate, export_public_key}
use lib_crypt_safe_messenger.KeyExchange.Ecdh
use lib_crypt_safe_messenger.KeyExchange.Fingerprint

-- `enum class Result`, with the codes 0 and -1 to -6.
pub data Result : Type 0 where
  ok err_encrypt err_decrypt err_keygen err_hmac err_invalid_key err_tampered : Result

-- `catch (const std::runtime_error&)`, and `catch (...)`.
abbrev pub decrypt_code : Exception → Result
decrypt_code (runtime_error what) = err_tampered
decrypt_code (invalid_argument what) = err_decrypt

module _ {World : Type 0} (ciphers : CipherLib World) (lib : PkeyLib World) where
  pub record Session : Type 0 where
    pub aes_key : Bytes
    pub kex : Option lib.Pkey
    pub handshake_done : Bool

  abbrev pub session_with : Option lib.Pkey → Session
  session_with k = record { aes_key = []; kex = k; handshake_done = false }

  -- The constructor: without keys, if none can be drawn.
  unfoldable pub new_session : Proc World Session
  new_session = caught (generate lib) (λ e. session_with none) (λ k. return (session_with (some k)))

  -- `if (!session.kex) session.kex = std::make_unique<KeyExchange>();`
  abbrev pub kex_or_new : Option lib.Pkey → Proc World lib.Pkey
  kex_or_new none = generate lib
  kex_or_new (some k) = return k

  unfoldable pub generate_keypair : Session → Bytes → Proc World (Result × Session × Bytes)
  generate_keypair s out =
      caught (kex_or_new s.kex) (λ e. (err_keygen, s, out))
        λ k.
          let with_keys = record s { kex = some k } in
          caught (export_public_key lib k) (λ e. (err_keygen, with_keys, out))
            λ der. return (ok, with_keys, der)

  abbrev pub shared_key_by : Session → Bytes → Option lib.Pkey → Proc World (Result × Session)
  shared_key_by s peer_pub_der none = return (err_keygen, s)
  shared_key_by s peer_pub_der (some k) =
      caught (Ecdh.compute_shared_key lib k peer_pub_der) (λ e. (err_keygen, s))
        λ key. return (ok, record s { aes_key = key; handshake_done = true })

  unfoldable pub compute_shared_key : Session → Bytes → Proc World (Result × Session)
  compute_shared_key s peer_pub_der = shared_key_by s peer_pub_der s.kex

  unfoldable pub encrypt : Session → Bytes → Bytes → Proc World (Result × Bytes)
  encrypt s plaintext out =
      if not s.handshake_done
      then return (err_invalid_key, out)
      else caught (Cryptor.new_cryptor s.aes_key) (λ e. (err_encrypt, out))
          λ cryptor.
            caught (Cryptor.encrypt ciphers cryptor plaintext) (λ e. (err_encrypt, out))
              λ sealed. return (ok, sealed)

  unfoldable pub decrypt : Session → Bytes → Bytes → Proc World (Result × Bytes)
  decrypt s ciphertext out =
      if not s.handshake_done
      then return (err_invalid_key, out)
      else caught (Cryptor.new_cryptor s.aes_key) (λ e. (decrypt_code e, out))
          λ cryptor.
            caught (Cryptor.decrypt ciphers cryptor ciphertext) (λ e. (decrypt_code e, out))
              λ plain. return (ok, plain)

  abbrev pub fingerprint_by : Option lib.Pkey → Proc World Bytes
  fingerprint_by none = return []
  fingerprint_by (some k) = caught (Fingerprint.get_fingerprint lib k) (λ e. []) return

  -- The empty text stands for a failure.
  unfoldable pub get_fingerprint : Session → Proc World Bytes
  get_fingerprint s = fingerprint_by s.kex

  unfoldable pub compute_confirmation : Session → String → Bytes → Proc World (Result × Bytes)
  compute_confirmation s label out =
      if not s.handshake_done
      then return (err_invalid_key, out)
      else caught (Fingerprint.compute_session_confirmation lib s.aes_key label)
          (λ e. (err_hmac, out)) λ hmac. return (ok, hmac)
