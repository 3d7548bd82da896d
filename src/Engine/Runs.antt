-- ===== src/Engine/Runs.antt =====
-- The engine at concrete inputs, over the sample libraries.
use lib_crypt_safe_messenger.Common.{
  ℕ, ◌≡◌, ◌≢◌, refl, [], ◌∷◌, true, false, some, Bytes, replicate, pos, arith, All-replicate,
}
use lib_crypt_safe_messenger.Common.Proc.{returns, throws, runtime_error, Machine}
use lib_crypt_safe_messenger.Common.Ends.{Ends}
use lib_crypt_safe_messenger.OpenSsl.Sample.{
  sample, sample-WritesWithin, sample-IsWorking, sample-IsGcm,
}
use lib_crypt_safe_messenger.OpenSsl.SampleKeys.{keys, keys-IsP256}
use lib_crypt_safe_messenger.KeyExchange.Hex.{IsSha256, IsByte}
use lib_crypt_safe_messenger.Engine.{
  Session, ok, err_tampered, new_session, generate_keypair, compute_shared_key, encrypt, decrypt,
  get_fingerprint, compute_confirmation,
}
use lib_crypt_safe_messenger.Engine.Codes.{engine_is_silent}
use lib_crypt_safe_messenger.Engine.Promises.{HasKey, Never, session_keeps_key, decrypt_codes}
use lib_crypt_safe_messenger.Engine.Talk.{Understood, sessions_understand}

abbrev start : Machine ℕ
start = record { world = 5; live = 0 }

abbrev side : ℕ → Session (sample (pos 1)) keys
side k = record { aes_key = []; kex = some k; handshake_done = false }

abbrev done : Session (sample (pos 1)) keys
done = record { aes_key = replicate 32 1; kex = some 7; handshake_done = true }

keys-IsSha256 : IsSha256 keys
keys-IsSha256 = record {
  length-sha256 = λ bs. refl;
  sha256-IsByte = λ bs. All-replicate IsByte 32 _ (omega arith);
}

engine_is_silent_example :
    ((new_session (sample (pos 1)) keys start).0 ≢ throws (runtime_error "x"))
    × ((generate_keypair (sample (pos 1)) keys done [] start).0 ≢ throws (runtime_error "x"))
    × ((compute_shared_key (sample (pos 1)) keys done (1 ∷ []) start).0
        ≢ throws (runtime_error "x"))
    × ((encrypt (sample (pos 1)) keys done (1 ∷ []) [] start).0 ≢ throws (runtime_error "x"))
    × ((decrypt (sample (pos 1)) keys done (1 ∷ []) [] start).0 ≢ throws (runtime_error "x"))
    × ((get_fingerprint (sample (pos 1)) keys done start).0 ≢ throws (runtime_error "x"))
    × ((compute_confirmation (sample (pos 1)) keys done "client" [] start).0
        ≢ throws (runtime_error "x"))
engine_is_silent_example =
    engine_is_silent (sample (pos 1)) keys done (1 ∷ []) [] "client" start (runtime_error "x")

session_keeps_key_example :
    Ends (HasKey (sample (pos 1)) keys) Never (new_session (sample (pos 1)) keys start)
    × Ends
        (λ r. HasKey (sample (pos 1)) keys r.1)
        Never
        (generate_keypair (sample (pos 1)) keys done [] start)
    × Ends
        (λ r. HasKey (sample (pos 1)) keys r.1)
        Never
        (compute_shared_key (sample (pos 1)) keys done (1 ∷ []) start)
session_keeps_key_example =
    session_keeps_key (sample (pos 1)) keys keys-IsSha256 done (1 ∷ []) [] start (λ _. refl)

decrypt_codes_example :
    decrypt (sample (pos 1)) keys done (1 ∷ 2 ∷ []) (9 ∷ []) start
    ≡ (returns (err_tampered, 9 ∷ []), start)
decrypt_codes_example =
    (decrypt_codes (sample (pos 1)) keys done (1 ∷ 2 ∷ []) (9 ∷ []) start (λ _. refl)).1 refl
      (omega arith)

sessions_understand_example :
    (ders : Bytes × Bytes) × (w : ℕ) × (v : ℕ) × (s1 : Session (sample (pos 1)) keys)
    × (t1 : Session (sample (pos 1)) keys) × (generate_keypair
          (sample (pos 1))
          keys
          (side 7)
          []
          start
        ≡ (returns (ok, side 7, ders.0), start))
    × (generate_keypair (sample (pos 1)) keys (side 8) [] start
        ≡ (returns (ok, side 8, ders.1), start))
    × (compute_shared_key (sample (pos 1)) keys (side 7) ders.1 start
        ≡ (returns (ok, s1), record start { world = w }))
    × (compute_shared_key (sample (pos 1)) keys (side 8) ders.0 start
        ≡ (returns (ok, t1), record start { world = v }))
    × Understood (sample (pos 1)) keys s1 t1
    × Understood (sample (pos 1)) keys t1 s1
sessions_understand_example =
    sessions_understand (sample (pos 1)) keys (sample-WritesWithin (pos 1)) (sample-IsGcm (pos 1))
      (sample-IsWorking (pos 1)) keys-IsP256 keys-IsSha256 (side 7) (side 8) 7 8 [] start start refl
      refl tt tt
