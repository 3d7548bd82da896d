-- ===== src/KeyExchange/Released.antt =====
-- The contexts that the functions of MessengerApp/KeyExchange.hpp make.
use lib_crypt_safe_messenger.Common.{
  ◌≡◌, refl, ◌∙◌, [], Bool, true, false, if◌then◌else◌, String, Bytes, is_empty, ℕ, arith,
}
use lib_crypt_safe_messenger.Common.Proc.{
  Proc, Machine, Outcome, returns, throws, faults, and_then, ◌>>=◌,
}
use lib_crypt_safe_messenger.Common.Memory.{read_at}
use lib_crypt_safe_messenger.OpenSsl.Pkey.{PkeyLib}
use lib_crypt_safe_messenger.KeyExchange.Keys.{
  generate, import_private, export_public_key, copy_der,
}
use lib_crypt_safe_messenger.KeyExchange.Ecdh.{compute_shared_key, compute_raw_dh, hkdf_sha256}
use lib_crypt_safe_messenger.KeyExchange.X3dh.{
  x3dh_ikm, expand_keys, derive_x3dh_session_keys, initiator_keys, responder_keys, x3dh_initiator,
  x3dh_responder,
}
use lib_crypt_safe_messenger.KeyExchange.Signatures.{verify_signature, channel_sign}

module _ {World : Type 0} where
  -- As many contexts are alive after the call as before it, whether it returns or throws.
  abbrev pub Releases : {A : Type 0} → Proc World A → Type 0
  Releases p = (m : Machine World) → (p m).1.live ≡ m.live

  after-Releases :
      {A B : Type 0} (m : Machine World) (r : Outcome A × Machine World) (f : A → Proc World B)
      → r.1.live ≡ m.live
      → ((a : A) → Releases (f a))
      → (and_then r f).1.live ≡ m.live
  after-Releases m (returns a, n) f h k = k a n ∙ h
  after-Releases m (throws e, n) f h k = h
  after-Releases m (faults, n) f h k = h

  then-Releases :
      {A B : Type 0} (p : Proc World A) (f : A → Proc World B)
      → Releases p
      → ((a : A) → Releases (f a))
      → Releases (p >>= f)
  then-Releases p f h k m = after-Releases m (p m) f (h m) k

  if-Releases :
      {A : Type 0} (b : Bool) (p q : Proc World A)
      → Releases p
      → Releases q
      → Releases (if b then p else q)
  if-Releases true p q h k = h
  if-Releases false p q h k = k

module _ {World : Type 0} (lib : PkeyLib World) where
  generate-Releases : Releases (generate lib)
  unfolding generate
  generate-Releases m = ground arith

  import-Releases : (der : Bytes) → Releases (import_private lib der)
  unfolding import_private
  import-Releases der m = ground arith

  export_public-Releases : (key : lib.Pkey) → Releases (export_public_key lib key)
  unfolding export_public_key copy_der read_at
  export_public-Releases key m = ground arith

  shared_key-Releases : (key : lib.Pkey) (der : Bytes) → Releases (compute_shared_key lib key der)
  unfolding compute_shared_key
  shared_key-Releases key der m = ground arith

  raw_dh-Releases : (key : lib.Pkey) (der : Bytes) → Releases (compute_raw_dh lib key der)
  unfolding compute_raw_dh
  raw_dh-Releases key der m = ground arith

  hkdf-Releases :
      (ikm salt : Bytes) (info : String) (n : ℕ) → Releases (hkdf_sha256 lib ikm salt info n)
  unfolding hkdf_sha256
  hkdf-Releases ikm salt info n m = ground arith

  verify-Releases : (der message sig : Bytes) → Releases (verify_signature lib der message sig)
  unfolding verify_signature
  verify-Releases der message sig m = ground arith

  sign-Releases : (der message : Bytes) → Releases (channel_sign lib der message)
  unfolding channel_sign
  sign-Releases der message m = ground arith

  expand-Releases : (ikm : Bytes) → Releases (expand_keys lib ikm)
  unfolding expand_keys
  expand-Releases ikm =
      then-Releases (hkdf_sha256 lib ikm _ _ _) _ (hkdf-Releases ikm _ _ _)
        λ enc. then-Releases (hkdf_sha256 lib ikm _ _ _) _ (hkdf-Releases ikm _ _ _) λ auth m. refl

  derive-Releases :
      (dh1 dh2 dh3 dh4 : Bytes) → Releases (derive_x3dh_session_keys lib dh1 dh2 dh3 dh4)
  unfolding derive_x3dh_session_keys
  derive-Releases dh1 dh2 dh3 dh4 m =
      let expanded = expand-Releases (x3dh_ikm dh1 dh2 dh3 dh4) m in ground arith

  initiator_keys-Releases :
      (ek : lib.Pkey) (opk dh1 dh2 dh3 : Bytes) → Releases (initiator_keys lib ek opk dh1 dh2 dh3)
  unfolding initiator_keys
  initiator_keys-Releases ek opk dh1 dh2 dh3 m =
      let three = derive-Releases dh1 dh2 dh3 [] m in
      let four =
        then-Releases (compute_raw_dh lib ek opk) (derive_x3dh_session_keys lib dh1 dh2 dh3)
          (raw_dh-Releases ek opk) (λ dh4. derive-Releases dh1 dh2 dh3 dh4) m in
      ground arith

  responder_keys-Releases :
      (opk ek dh1 dh2 dh3 : Bytes) → Releases (responder_keys lib opk ek dh1 dh2 dh3)
  unfolding responder_keys
  responder_keys-Releases opk ek dh1 dh2 dh3 =
      if-Releases (is_empty opk) _ _ (derive-Releases dh1 dh2 dh3 []) (
        then-Releases (import_private lib opk) _ (import-Releases opk) λ k.
          then-Releases (compute_raw_dh lib k ek) _ (raw_dh-Releases k ek)
            λ dh4. derive-Releases dh1 dh2 dh3 dh4)

  initiator-Releases :
      (ik peer_ik spk opk : Bytes) → Releases (x3dh_initiator lib ik peer_ik spk opk)
  unfolding x3dh_initiator
  initiator-Releases ik peer_ik spk opk =
      then-Releases (import_private lib ik) _ (import-Releases ik) λ ik_dh.
        then-Releases (generate lib) _ generate-Releases λ ek.
          then-Releases (compute_raw_dh lib ik_dh spk) _ (raw_dh-Releases ik_dh spk) λ dh1.
            then-Releases (compute_raw_dh lib ek peer_ik) _ (raw_dh-Releases ek peer_ik) λ dh2.
              then-Releases (compute_raw_dh lib ek spk) _ (raw_dh-Releases ek spk) λ dh3.
                then-Releases (initiator_keys lib ek opk dh1 dh2 dh3) _
                  (initiator_keys-Releases ek opk dh1 dh2 dh3)
                  λ keys.
                    then-Releases (export_public_key lib ek) _ (export_public-Releases ek)
                      λ ek_pub m. refl

  responder-Releases :
      (ik spk peer_ik ek opk : Bytes) → Releases (x3dh_responder lib ik spk peer_ik ek opk)
  unfolding x3dh_responder
  responder-Releases ik spk peer_ik ek opk =
      then-Releases (import_private lib ik) _ (import-Releases ik) λ ik_dh.
        then-Releases (import_private lib spk) _ (import-Releases spk) λ spk_key.
          then-Releases (compute_raw_dh lib spk_key peer_ik) _ (raw_dh-Releases spk_key peer_ik)
            λ dh1. then-Releases (compute_raw_dh lib ik_dh ek) _ (raw_dh-Releases ik_dh ek) λ dh2.
              then-Releases (compute_raw_dh lib spk_key ek) _ (raw_dh-Releases spk_key ek)
                λ dh3. responder_keys-Releases opk ek dh1 dh2 dh3

  -- Each function that makes a context has freed it when it ends, whether it returns or throws and
  -- whatever OpenSSL answers: the constructor, the two agreements, HKDF, both sides of X3DH, signing and
  -- verifying.
  pub key_exchange_releases :
      (key : lib.Pkey) (a b c d e : Bytes) (info : String) (n : ℕ) (m : Machine World)
      → ((generate lib m).1.live ≡ m.live)
        × ((compute_shared_key lib key a m).1.live ≡ m.live)
        × ((compute_raw_dh lib key a m).1.live ≡ m.live)
        × ((hkdf_sha256 lib a b info n m).1.live ≡ m.live)
        × ((x3dh_initiator lib a b c d m).1.live ≡ m.live)
        × ((x3dh_responder lib a b c d e m).1.live ≡ m.live)
        × ((verify_signature lib a b c m).1.live ≡ m.live)
        × ((channel_sign lib a b m).1.live ≡ m.live)
  key_exchange_releases key a b c d e info n m = (
    generate-Releases m,
    shared_key-Releases key a m,
    raw_dh-Releases key a m,
    hkdf-Releases a b info n m,
    initiator-Releases a b c d m,
    responder-Releases a b c d e m,
    verify-Releases a b c m,
    sign-Releases a b m,
  )
