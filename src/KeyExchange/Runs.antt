-- ===== src/KeyExchange/Runs.antt =====
-- The theorems on keys at concrete inputs, over the sample library.
use lib_crypt_safe_messenger.Common.{
  ℕ, ◌≡◌, ◌↔◌, refl, inl, [], ◌∷◌, ◌++◌, Bool, true, false, some, Bytes, length, replicate, pos,
  arith, All, All-replicate,
}
use lib_crypt_safe_messenger.Common.Proc.{returns, throws, runtime_error, Machine}
use lib_crypt_safe_messenger.OpenSsl.Curve.{spki_header}
use lib_crypt_safe_messenger.OpenSsl.SampleKeys.{
  keys, keys-IsP256, keys-IsHkdf, keys-IsEcdsa, sample_signature,
}
use lib_crypt_safe_messenger.KeyExchange.Keys.{generate, parse_peer_p256}
use lib_crypt_safe_messenger.KeyExchange.Ecdh.{compute_shared_key, compute_raw_dh, hkdf_sha256}
use lib_crypt_safe_messenger.KeyExchange.X3dh.{
  InitiatorResult, x3dh_initiator, x3dh_responder, derive_x3dh_session_keys,
}
use lib_crypt_safe_messenger.KeyExchange.Signatures.{verify_signature, channel_sign}
use lib_crypt_safe_messenger.KeyExchange.Fingerprint.{get_fingerprint, compute_session_confirmation}
use lib_crypt_safe_messenger.KeyExchange.Agreement.{x3dh_agreement}
use lib_crypt_safe_messenger.KeyExchange.Peers.{
  parse_peer_iff, bad_peer_refused, shared_key_agreement,
}
use lib_crypt_safe_messenger.KeyExchange.Material.{x3dh_ikm_injective, derive_bad_size}
use lib_crypt_safe_messenger.KeyExchange.Ecdsa.{verify_iff, verify-channel_sign}
use lib_crypt_safe_messenger.KeyExchange.Hex.{IsSha256, IsByte, IsHexDigit, fingerprint_lem}
use lib_crypt_safe_messenger.KeyExchange.Released.{key_exchange_releases}
use lib_crypt_safe_messenger.KeyExchange.Confirmation.{confirmation_unchecked}

abbrev start : Machine ℕ
start = record { world = 5; live = 0 }

abbrev der : ℕ → Bytes
der k = spki_header ++ replicate 64 k

x3dh_agreement_example :
    (r : InitiatorResult) × (w : ℕ) × (v : ℕ) × (x3dh_initiator keys
        (2 ∷ [])
        (der 3)
        (der 4)
        (der 6)
        start
      ≡ (returns r, record start { world = w }))
    × (x3dh_responder keys (3 ∷ []) (4 ∷ []) (der 2) r.ek_pub (6 ∷ []) start
        ≡ (returns (record { k_enc = r.k_enc; k_auth = r.k_auth }), record start { world = v }))
x3dh_agreement_example =
    x3dh_agreement keys keys-IsP256 keys-IsHkdf 2 3 4 (some 6) (2 ∷ []) (3 ∷ []) (4 ∷ []) (6 ∷ [])
      (der 6) tt tt tt refl refl refl (tt, (λ e. cc), refl, refl) start start

parse_peer_iff_example : (parse_peer_p256 keys (der 9) ≡ some 9) ↔ (
    (91 ≡ length (der 9))
    × (spki_header ≡ spki_header)
    × (keys.d2i_pubkey (der 9) ≡ some (9, 91))
    × (keys.base_id 9 ≡ pos 408)
    × (keys.bits 9 ≡ pos 256))
parse_peer_iff_example = parse_peer_iff keys (der 9) 9

no_key_refused :
    (compute_shared_key keys 7 (1 ∷ []) start
      ≡ (throws (runtime_error "Failed to parse peer public key"), start))
    × (compute_raw_dh keys 7 (1 ∷ []) start
        ≡ (throws (runtime_error "compute_raw_dh: bad peer key"), start))
    × (verify_signature keys (1 ∷ []) [] [] start ≡ (returns false, start))
no_key_refused = bad_peer_refused keys 7 (1 ∷ []) [] [] start (unfold parse_peer_p256 in refl)

both_sides_agree :
    (key : Bytes) × (w : ℕ) × (v : ℕ) × (compute_shared_key keys 7 (der 8) start
      ≡ (returns key, record start { world = w }))
    × (compute_shared_key keys 8 (der 7) start ≡ (returns key, record start { world = v }))
both_sides_agree = shared_key_agreement keys keys-IsP256 7 8 start start tt tt

x3dh_ikm_injective_example :
    (◌≡◌ {A = Bytes} (replicate 32 1) (replicate 32 1))
    × (◌≡◌ {A = Bytes} (replicate 32 2) (replicate 32 2))
    × (◌≡◌ {A = Bytes} (replicate 32 3) (replicate 32 3))
    × (◌≡◌ {A = Bytes} [] [])
x3dh_ikm_injective_example =
    x3dh_ikm_injective (replicate 32 1) (replicate 32 2) (replicate 32 3) [] (replicate 32 1)
      (replicate 32 2) (replicate 32 3) [] refl refl refl refl refl refl refl

short_secrets_are_refused :
    derive_x3dh_session_keys keys [] (replicate 32 2) (replicate 32 3) [] start
    ≡ (throws (runtime_error "x3dh: DH1-DH3 must be 32 bytes each"), start)
short_secrets_are_refused =
    (derive_bad_size keys [] (replicate 32 2) (replicate 32 3) [] start).0 (inl (λ e. omega arith))

verify_iff_example :
    (answer : Bool) × (w : ℕ) × (verify_signature keys (der 9) (1 ∷ []) (2 ∷ []) start
      ≡ (returns answer, record start { world = w }))
    × ((answer ≡ true) ↔ ((2 ∷ []) ≡ sample_signature 9 (1 ∷ [])))
verify_iff_example = verify_iff keys keys-IsP256 keys-IsEcdsa 9 (1 ∷ []) (2 ∷ []) start tt

verify-channel_sign_example :
    (sig : Bytes) × (w : ℕ) × (channel_sign keys (9 ∷ []) (1 ∷ []) start
      ≡ (returns sig, record start { world = w }))
    × ((n : Machine ℕ)
        → (v : ℕ) × (verify_signature keys (der 9) (1 ∷ []) sig n
            ≡ (returns true, record n { world = v })))
verify-channel_sign_example =
    verify-channel_sign keys keys-IsP256 keys-IsEcdsa 9 (9 ∷ []) (1 ∷ []) start tt refl

keys-IsSha256 : IsSha256 keys
keys-IsSha256 = record {
  length-sha256 = λ bs. refl;
  sha256-IsByte = λ bs. All-replicate IsByte 32 _ (omega arith);
}

fingerprint_lem_example :
    (fk : Bytes) × (fj : Bytes) × (get_fingerprint keys 9 start ≡ (returns fk, start))
    × (get_fingerprint keys 8 start ≡ (returns fj, start))
    × (length fk ≡ 64)
    × All IsHexDigit fk
    × (fk ≡ fj → keys.sha256 (der 9) ≡ keys.sha256 (der 8))
fingerprint_lem_example = fingerprint_lem keys keys-IsP256 keys-IsSha256 9 8 start start tt tt

mac_is_returned :
    compute_session_confirmation keys (1 ∷ []) "a" start ≡ (returns (replicate 32 98), start)
mac_is_returned =
    confirmation_unchecked keys (1 ∷ []) "a" start true (replicate 32 98) 32 5 refl (omega arith)

key_exchange_releases_example :
    ((generate keys start).1.live ≡ 0)
    × ((compute_shared_key keys 7 (der 8) start).1.live ≡ 0)
    × ((compute_raw_dh keys 7 (der 8) start).1.live ≡ 0)
    × ((hkdf_sha256 keys (der 8) [] "label" 32 start).1.live ≡ 0)
    × ((x3dh_initiator keys (der 8) [] [] [] start).1.live ≡ 0)
    × ((x3dh_responder keys (der 8) [] [] [] [] start).1.live ≡ 0)
    × ((verify_signature keys (der 8) [] [] start).1.live ≡ 0)
    × ((channel_sign keys (der 8) [] start).1.live ≡ 0)
key_exchange_releases_example = key_exchange_releases keys 7 (der 8) [] [] [] [] "label" 32 start
