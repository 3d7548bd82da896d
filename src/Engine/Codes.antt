-- ===== src/Engine/Codes.antt =====
-- The exceptions and the functions of crypto_engine.hpp.
use lib_crypt_safe_messenger.Common.{
  ◌≢◌, Bool, true, false, not, if◌then◌else◌, Option, none, some, String, Bytes,
}
use lib_crypt_safe_messenger.Common.Proc.{
  Proc, Machine, Outcome, returns, throws, faults, Exception, caught_then, return,
}
use lib_crypt_safe_messenger.KeyExchange.Keys.{generate, export_public_key}
use lib_crypt_safe_messenger.KeyExchange.Ecdh
use lib_crypt_safe_messenger.KeyExchange.Fingerprint
use lib_crypt_safe_messenger.Cryptor
use lib_crypt_safe_messenger.OpenSsl.Cipher.{CipherLib}
use lib_crypt_safe_messenger.OpenSsl.Pkey.{PkeyLib}
use lib_crypt_safe_messenger.Engine.{
  Session, new_session, kex_or_new, generate_keypair, shared_key_by, compute_shared_key, encrypt,
  decrypt, fingerprint_by, get_fingerprint, compute_confirmation,
}

module _ {World : Type 0} where
  -- No exception comes out.
  abbrev pub IsSilent : {A : Type 0} → Proc World A → Type 0
  IsSilent p = (m : Machine World) (e : Exception) → (p m).0 ≢ throws e

  pub caught_then-ne-throws :
      {A R : Type 0} (r : Outcome A × Machine World) (handler : Exception → R)
      (rest : A → Proc World R)
      → ((a : A) → IsSilent (rest a))
      → (e : Exception) → (caught_then r handler rest).0 ≢ throws e
  caught_then-ne-throws (returns a, m) handler rest silent e = silent a m e
  caught_then-ne-throws (throws x, m) handler rest silent e = λ h. cc
  caught_then-ne-throws (faults, m) handler rest silent e = λ h. cc

  pub return-IsSilent : {A : Type 0} (a : A) → IsSilent (return a)
  return-IsSilent a m e = λ h. cc

  pub if-IsSilent :
      {A : Type 0} (b : Bool) (p q : Proc World A)
      → IsSilent p
      → IsSilent q
      → IsSilent (if b then p else q)
  if-IsSilent true p q hp hq = hp
  if-IsSilent false p q hp hq = hq

module _ {World : Type 0} (ciphers : CipherLib World) (lib : PkeyLib World) where
  new_session-IsSilent : IsSilent (new_session ciphers lib)
  unfolding new_session
  new_session-IsSilent m e = caught_then-ne-throws (generate lib m) _ _ (λ k. return-IsSilent _) e

  generate_keypair-IsSilent :
      (s : Session ciphers lib) (out : Bytes) → IsSilent (generate_keypair ciphers lib s out)
  unfolding generate_keypair
  generate_keypair-IsSilent s out m e =
      caught_then-ne-throws (kex_or_new ciphers lib s.kex m) _ _
        (λ k n x.
          caught_then-ne-throws (export_public_key lib k n) _ _ (λ der. return-IsSilent _) x)
        e

  shared_key_by-IsSilent :
      (s : Session ciphers lib) (der : Bytes) (k : Option lib.Pkey)
      → IsSilent (shared_key_by ciphers lib s der k)
  shared_key_by-IsSilent s der none = return-IsSilent _
  shared_key_by-IsSilent s der (some k) = λ m e.
      caught_then-ne-throws (Ecdh.compute_shared_key lib k der m) _ _ (λ key. return-IsSilent _) e

  compute_shared_key-IsSilent :
      (s : Session ciphers lib) (der : Bytes) → IsSilent (compute_shared_key ciphers lib s der)
  unfolding compute_shared_key
  compute_shared_key-IsSilent s der = shared_key_by-IsSilent s der s.kex

  fingerprint_by-IsSilent : (k : Option lib.Pkey) → IsSilent (fingerprint_by ciphers lib k)
  fingerprint_by-IsSilent none = return-IsSilent _
  fingerprint_by-IsSilent (some k) =
      λ m e. caught_then-ne-throws (Fingerprint.get_fingerprint lib k m) _ _ return-IsSilent e

  get_fingerprint-IsSilent : (s : Session ciphers lib) → IsSilent (get_fingerprint ciphers lib s)
  unfolding get_fingerprint
  get_fingerprint-IsSilent s = fingerprint_by-IsSilent s.kex

  encrypt-IsSilent :
      (s : Session ciphers lib) (text out : Bytes) → IsSilent (encrypt ciphers lib s text out)
  unfolding encrypt
  encrypt-IsSilent s text out m e =
      if-IsSilent (not s.handshake_done) _ _ (return-IsSilent _)
        (λ m. caught_then-ne-throws (Cryptor.new_cryptor s.aes_key m) _ _ (λ k n.
          caught_then-ne-throws (Cryptor.encrypt ciphers k text n) _ _ λ c. return-IsSilent _))
        m e

  decrypt-IsSilent :
      (s : Session ciphers lib) (sealed out : Bytes) → IsSilent (decrypt ciphers lib s sealed out)
  unfolding decrypt
  decrypt-IsSilent s sealed out m e =
      if-IsSilent (not s.handshake_done) _ _ (return-IsSilent _)
        (λ m. caught_then-ne-throws (Cryptor.new_cryptor s.aes_key m) _ _ (λ k n.
          caught_then-ne-throws (Cryptor.decrypt ciphers k sealed n) _ _ λ c. return-IsSilent _))
        m e

  compute_confirmation-IsSilent :
      (s : Session ciphers lib) (label : String) (out : Bytes)
      → IsSilent (compute_confirmation ciphers lib s label out)
  unfolding compute_confirmation
  compute_confirmation-IsSilent s label out m e =
      if-IsSilent (not s.handshake_done) _ _ (return-IsSilent _)
        (λ m.
          caught_then-ne-throws (Fingerprint.compute_session_confirmation lib s.aes_key label m) _ _
            (λ h. return-IsSilent _))
        m e

  -- Whatever the library and the other side do, none of the functions of CryptoEngine lets an
  -- exception out: a session can be made, and each call on it ends with a code or a text.
  pub engine_is_silent :
      (s : Session ciphers lib) (input out : Bytes) (label : String) (m : Machine World)
      (e : Exception)
      → ((new_session ciphers lib m).0 ≢ throws e)
        × ((generate_keypair ciphers lib s out m).0 ≢ throws e)
        × ((compute_shared_key ciphers lib s input m).0 ≢ throws e)
        × ((encrypt ciphers lib s input out m).0 ≢ throws e)
        × ((decrypt ciphers lib s input out m).0 ≢ throws e)
        × ((get_fingerprint ciphers lib s m).0 ≢ throws e)
        × ((compute_confirmation ciphers lib s label out m).0 ≢ throws e)
  engine_is_silent s input out label m e = (
    new_session-IsSilent m e,
    generate_keypair-IsSilent s out m e,
    compute_shared_key-IsSilent s input m e,
    encrypt-IsSilent s input out m e,
    decrypt-IsSilent s input out m e,
    get_fingerprint-IsSilent s m e,
    compute_confirmation-IsSilent s label out m e,
  )
