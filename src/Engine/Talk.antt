-- ===== src/Engine/Talk.antt =====
-- Two sessions of crypto_engine.hpp that exchange public keys.
use lib_crypt_safe_messenger.Common.{
  ◌+◌, ◌^◌, ◌<◌, ◌≡◌, ◌≢◌, refl, ◌∙◌, ap, sym, pos, some, true, Bytes, length,
}
use lib_crypt_safe_messenger.Common.Proc.{Machine, returns, return, caught_step}
use lib_crypt_safe_messenger.Common.Ends.{Ends-returns, IsRuntime}
use lib_crypt_safe_messenger.OpenSsl.Cipher.{CipherLib, WritesWithin, IsGcm, IsWorking}
use lib_crypt_safe_messenger.OpenSsl.Pkey.{PkeyLib}
use lib_crypt_safe_messenger.OpenSsl.Curve.{IsP256}
use lib_crypt_safe_messenger.Cryptor
use lib_crypt_safe_messenger.Cryptor.RoundTrip.{decrypt-encrypt}
use lib_crypt_safe_messenger.KeyExchange.Ecdh
use lib_crypt_safe_messenger.KeyExchange.Hex.{IsSha256}
use lib_crypt_safe_messenger.KeyExchange.Steps.{public_der, export_run}
use lib_crypt_safe_messenger.KeyExchange.Keys.{export_public_key}
use lib_crypt_safe_messenger.KeyExchange.Peers.{shared_key_agreement}
use lib_crypt_safe_messenger.Engine.{
  ok, err_encrypt, err_keygen, decrypt_code, Session, kex_or_new, generate_keypair, shared_key_by,
  compute_shared_key, encrypt, decrypt,
}
use lib_crypt_safe_messenger.Engine.Sessions.{IsKey, compute_shared_key-IsKey}
use lib_crypt_safe_messenger.Engine.Promises.{encrypt_done, decrypt_done}

module _ {World : Type 0} (ciphers : CipherLib World) (lib : PkeyLib World) where
  -- The session after a successful `compute_shared_key`.
  abbrev pub agreed : Session ciphers lib → Bytes → Session ciphers lib
  agreed s key = record s { aes_key = key; handshake_done = true }

  compute_shared_key_run :
      (s : Session ciphers lib) (k : lib.Pkey) (der key : Bytes) (m n : Machine World)
      → s.kex ≡ some k
      → Ecdh.compute_shared_key lib k der m ≡ (returns key, n)
      → compute_shared_key ciphers lib s der m ≡ (returns (ok, agreed s key), n)
  unfolding compute_shared_key
  compute_shared_key_run s k der key m n has run =
      ap (λ o. shared_key_by ciphers lib s der o m) has
      ∙ caught_step (Ecdh.compute_shared_key lib k der) m (λ e. (err_keygen, s))
          (λ key. return (ok, agreed s key)) run refl

  generate_keypair_run :
      (p : IsP256 lib) (s : Session ciphers lib) (k : lib.Pkey) (out : Bytes) (m : Machine World)
      → s.kex ≡ some k
      → p.OnCurve k
      → generate_keypair ciphers lib s out m ≡ (returns (ok, s, public_der lib p k), m)
  unfolding generate_keypair
  generate_keypair_run p s k out m has hk =
      caught_step (kex_or_new ciphers lib s.kex) m (λ e. (err_keygen, s, out)) _
        (ap (λ o. kex_or_new ciphers lib o m) has)
        (caught_step (export_public_key lib k) m (λ e. (err_keygen, record s { kex = some k }, out))
          (λ der. return (ok, record s { kex = some k }, der)) (export_run lib p k m hk) refl)
      ∙ ap (λ o. (returns (ok, record s { kex = o }, public_der lib p k), m)) (sym has)

  -- What one side seals under the key, the other side opens.
  abbrev pub Understood : Session ciphers lib → Session ciphers lib → Type 0
  Understood s t =
      (text out back : Bytes) (m n : Machine World)
      → length text + 28 < 2 ^ 31
      → (ciphers.rand_bytes 12 m.world).0.0 ≢ pos 0
      → (sealed : Bytes) × (w : World) × (v : World) × (encrypt ciphers lib s text out m
          ≡ (returns (ok, sealed), record m { world = w }))
        × (decrypt ciphers lib t sealed back n ≡ (returns (ok, text), record n { world = v }))

  understood :
      WritesWithin ciphers
      → IsGcm ciphers
      → IsWorking ciphers
      → (s t : Session ciphers lib) (key : Bytes) → IsKey key
      → Understood (agreed s key) (agreed t key)
  understood within g works s t key hk text out back m n small drawn =
      let (sealed, w, run, _, opens) =
        decrypt-encrypt ciphers within g works key text hk small m drawn in
      let (v, opened) = opens n in
      (
        sealed,
        w,
        v,
        encrypt_done ciphers lib (agreed s key) text out m refl hk
            ∙ caught_step (Cryptor.encrypt ciphers key text) m (λ e. (err_encrypt, out))
                (λ c. return (ok, c)) run refl,
        decrypt_done ciphers lib (agreed t key) sealed back n refl hk
            ∙ caught_step (Cryptor.decrypt ciphers key sealed) n (λ e. (decrypt_code e, back))
                (λ c. return (ok, c)) opened refl,
      )

  -- Two sessions with keys on the curve, whatever they held before, whatever state their libraries are in:
  -- each gives the other the encoding that `generate_keypair` returns, and both calls of
  -- `compute_shared_key` end with OK. From then on, any text of less than 2 GB, sealed by either side with
  -- `encrypt`, is given back by the other side's `decrypt`, both with OK. It needs libraries that work as
  -- documented, and RAND_bytes not to return 0.
  pub sessions_understand :
      WritesWithin ciphers
      → IsGcm ciphers
      → IsWorking ciphers
      → (p : IsP256 lib) → IsSha256 lib
      → (s t : Session ciphers lib) (a b : lib.Pkey) (out : Bytes) (m n : Machine World)
      → s.kex ≡ some a
      → t.kex ≡ some b
      → p.OnCurve a
      → p.OnCurve b
      → (ders : Bytes × Bytes) × (w : World) × (v : World) × (s1 : Session ciphers lib)
        × (t1 : Session ciphers lib) × (generate_keypair ciphers lib s out m
            ≡ (returns (ok, s, ders.0), m))
        × (generate_keypair ciphers lib t out n ≡ (returns (ok, t, ders.1), n))
        × (compute_shared_key ciphers lib s ders.1 m ≡ (returns (ok, s1), record m { world = w }))
        × (compute_shared_key ciphers lib t ders.0 n ≡ (returns (ok, t1), record n { world = v }))
        × Understood s1 t1
        × Understood t1 s1
  sessions_understand within g works p sha s t a b out m n hs ht ha hb =
      let (key, w, v, left, right) = shared_key_agreement lib p a b m n ha hb in
      let hk =
        Ends-returns IsKey IsRuntime (Ecdh.compute_shared_key lib a (public_der lib p b) m)
          (compute_shared_key-IsKey lib sha a (public_der lib p b) m) left in
      (
        (public_der lib p a, public_der lib p b),
        w,
        v,
        agreed s key,
        agreed t key,
        generate_keypair_run p s a out m hs ha,
        generate_keypair_run p t b out n ht hb,
        compute_shared_key_run s a _ key m _ hs left,
        compute_shared_key_run t b _ key n _ ht right,
        understood within g works s t key hk,
        understood within g works t s key hk,
      )
