-- ===== src/Engine/Promises.antt =====
-- What the codes of crypto_engine.hpp mean, and the key of a session.
use lib_crypt_safe_messenger.Common.{
  ◌<◌, ◌≡◌, ◌≢◌, refl, ◌⊎◌, inl, inr, true, false, Option, none, some, Bytes, length, lt→ltb,
  Bool-cases, arith, ap, sym, subst, ◌∙◌,
}
use lib_crypt_safe_messenger.Common.Proc.{
  Proc, Machine, Exception, runtime_error, invalid_argument, returns, caught_step, return, caught,
}
use lib_crypt_safe_messenger.Common.Ends.{Ends, IsRuntime, Whatever, any-Ends, caught_then-Ends}
use lib_crypt_safe_messenger.OpenSsl.Cipher.{CipherLib}
use lib_crypt_safe_messenger.OpenSsl.Pkey.{PkeyLib}
use lib_crypt_safe_messenger.KeyExchange.Keys.{generate, export_public_key}
use lib_crypt_safe_messenger.KeyExchange.Ecdh
use lib_crypt_safe_messenger.KeyExchange.Hex.{IsSha256}
use lib_crypt_safe_messenger.Cryptor
use lib_crypt_safe_messenger.Engine.{
  Result, ok, err_encrypt, err_invalid_key, err_tampered, Session, new_session, kex_or_new,
  generate_keypair, shared_key_by, compute_shared_key, encrypt, decrypt, decrypt_code,
}
use lib_crypt_safe_messenger.Engine.Sessions.{IsKey, compute_shared_key-IsKey, cryptor_decrypt-Ends}

-- No exception.
abbrev pub Never : Exception → Type 0
Never e = ⊥

module _ {World : Type 0} (ciphers : CipherLib World) (lib : PkeyLib World) where
  -- A session whose handshake is done has a key of 32 bytes.
  abbrev pub HasKey : Session ciphers lib → Type 0
  HasKey s = s.handshake_done ≡ true → IsKey s.aes_key

  generate_keypair-HasKey :
      (s : Session ciphers lib) (out : Bytes) (m : Machine World)
      → HasKey s
      → Ends (λ r. HasKey r.1) Never (generate_keypair ciphers lib s out m)
  unfolding generate_keypair
  generate_keypair-HasKey s out m h =
      caught_then-Ends _ Whatever Whatever (kex_or_new ciphers lib s.kex m) _ _ (any-Ends _)
        (λ e _. h)
        λ k n _.
          caught_then-Ends _ Whatever Whatever (export_public_key lib k n) _ _ (any-Ends _)
            (λ e _. h) λ der n _. h

  shared_key_by-HasKey :
      IsSha256 lib
      → (s : Session ciphers lib) (der : Bytes) (k : Option lib.Pkey) (m : Machine World) → HasKey s
      → Ends (λ r. HasKey r.1) Never (shared_key_by ciphers lib s der k m)
  shared_key_by-HasKey sha s der none m h = h
  shared_key_by-HasKey sha s der (some k) m h =
      caught_then-Ends _ IsKey IsRuntime (Ecdh.compute_shared_key lib k der m) _ _
        (compute_shared_key-IsKey lib sha k der m) (λ e _. h) λ key n hk done. hk

  -- With a SHA-256 that gives 32 bytes, a session has a key of 32 bytes from the moment that its
  -- handshake is done: a new session and every call that changes one keep to it, those that fail
  -- included, and whatever the other side sent as its key.
  pub session_keeps_key :
      IsSha256 lib
      → (s : Session ciphers lib) (der out : Bytes) (m : Machine World) → HasKey s
      → Ends HasKey Never (new_session ciphers lib m)
        × Ends (λ r. HasKey r.1) Never (generate_keypair ciphers lib s out m)
        × Ends (λ r. HasKey r.1) Never (compute_shared_key ciphers lib s der m)
  unfolding new_session compute_shared_key
  session_keeps_key sha s der out m h = (
    caught_then-Ends HasKey Whatever Whatever (generate lib m) _ _ (any-Ends _)
        (λ e _. λ done. absurd (no done)) (λ k n _. λ done. absurd (no done)),
    generate_keypair-HasKey s out m h,
    shared_key_by-HasKey sha s der s.kex m h,
  )
    where
      no : false ≢ true
      no h = cc

  pub new_cryptor_run :
      (key : Bytes) (m : Machine World) → IsKey key → Cryptor.new_cryptor key m ≡ (returns key, m)
  unfolding Cryptor.new_cryptor
  new_cryptor_run key m h = ground arith

  -- The three ends of `decrypt`.
  abbrev pub IsVerdict : Bytes → Result × Bytes → Type 0
  IsVerdict out r = (r ≡ (err_invalid_key, out)) ⊎ (r.0 ≡ ok) ⊎ (r ≡ (err_tampered, out))

  runtime_code : (e : Exception) → IsRuntime e → decrypt_code e ≡ err_tampered
  runtime_code (runtime_error what) h = refl
  runtime_code (invalid_argument what) h = absurd h

  -- `encrypt` and `decrypt` after their guards.
  abbrev pub sealed_with : Bytes → Bytes → Bytes → Proc World (Result × Bytes)
  sealed_with key text out =
      caught (Cryptor.encrypt ciphers key text) (λ e. (err_encrypt, out))
        λ sealed. return (ok, sealed)

  abbrev pub opened_with : Bytes → Bytes → Bytes → Proc World (Result × Bytes)
  opened_with key sealed out =
      caught (Cryptor.decrypt ciphers key sealed) (λ e. (decrypt_code e, out))
        λ plain. return (ok, plain)

  pub encrypt_done :
      (s : Session ciphers lib) (text out : Bytes) (m : Machine World)
      → s.handshake_done ≡ true
      → IsKey s.aes_key
      → encrypt ciphers lib s text out m ≡ sealed_with s.aes_key text out m
  unfolding encrypt
  encrypt_done s text out m done h = rw (done) (
      caught_step (Cryptor.new_cryptor s.aes_key) m (λ e. (err_encrypt, out))
        (λ k. sealed_with k text out) (new_cryptor_run s.aes_key m h) refl)

  pub decrypt_done :
      (s : Session ciphers lib) (sealed out : Bytes) (m : Machine World)
      → s.handshake_done ≡ true
      → IsKey s.aes_key
      → decrypt ciphers lib s sealed out m ≡ opened_with s.aes_key sealed out m
  unfolding decrypt
  decrypt_done s sealed out m done h = rw (done) (
      caught_step (Cryptor.new_cryptor s.aes_key) m (λ e. (decrypt_code e, out))
        (λ k. opened_with k sealed out) (new_cryptor_run s.aes_key m h) refl)

  decrypt_early :
      (s : Session ciphers lib) (sealed out : Bytes) (m : Machine World)
      → s.handshake_done ≡ false
      → decrypt ciphers lib s sealed out m ≡ (returns (err_invalid_key, out), m)
  unfolding decrypt
  decrypt_early s sealed out m early = rw (early) refl

  opened_with-IsVerdict :
      (key sealed out : Bytes) (m : Machine World)
      → Ends (IsVerdict out) Never (opened_with key sealed out m)
  opened_with-IsVerdict key sealed out m =
      caught_then-Ends (IsVerdict out) Whatever IsRuntime (Cryptor.decrypt ciphers key sealed m) _
        (λ plain. return (ok, plain)) (cryptor_decrypt-Ends ciphers key sealed m)
        (λ e he. inr (inr (ap (λ c. (c, out)) (runtime_code e he)))) (λ plain n _. inr (inl refl))

  opened_short :
      (key sealed out : Bytes) (m : Machine World)
      → length sealed < 28
      → opened_with key sealed out m ≡ (returns (err_tampered, out), m)
  unfolding Cryptor.decrypt
  opened_short key sealed out m short = rw (lt→ltb (length sealed) 28 short) refl

  -- A session whose key has 32 bytes once its handshake is done opens a buffer with one of three ends:
  -- ERR_INVALID_KEY, OK, or ERR_TAMPERED, never with ERR_DECRYPT; and the output is as it was unless the
  -- code is OK. After the handshake, a buffer of less than 28 bytes, too short to hold a tag, ends with
  -- ERR_TAMPERED; before it, every buffer ends with ERR_INVALID_KEY. Neither changes the machine.
  pub decrypt_codes :
      (s : Session ciphers lib) (sealed out : Bytes) (m : Machine World)
      → HasKey s
      → Ends (IsVerdict out) Never (decrypt ciphers lib s sealed out m)
        × (s.handshake_done ≡ true
            → length sealed < 28
            → decrypt ciphers lib s sealed out m ≡ (returns (err_tampered, out), m))
        × (s.handshake_done ≡ false
            → decrypt ciphers lib s sealed out m ≡ (returns (err_invalid_key, out), m))
  decrypt_codes s sealed out m h = (
    (elim (Bool-cases s.handshake_done) [
      | inl done ↦
          subst (Ends (IsVerdict out) Never) (sym (decrypt_done s sealed out m done (h done)))
            (opened_with-IsVerdict s.aes_key sealed out m)
      | inr early ↦
          subst (Ends (IsVerdict out) Never) (sym (decrypt_early s sealed out m early)) (inl refl)
    ]),
    (λ done short.
        decrypt_done s sealed out m done (h done) ∙ opened_short s.aes_key sealed out m short),
    decrypt_early s sealed out m,
  )
