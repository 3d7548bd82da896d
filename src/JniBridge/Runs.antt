-- ===== src/JniBridge/Runs.antt =====
-- The bridge at concrete inputs, over the sample libraries.
use lib_crypt_safe_messenger.Common.{
  ℕ, ◌≡◌, ◌≢◌, refl, [], ◌∷◌, true, none, some, Bytes, replicate, pos, arith,
}
use lib_crypt_safe_messenger.Common.Proc.{returns, throws, runtime_error, Machine}
use lib_crypt_safe_messenger.OpenSsl.Sample.{
  sample, sample-WritesWithin, sample-IsWorking, sample-IsGcm,
}
use lib_crypt_safe_messenger.OpenSsl.SampleKeys.{keys, keys-IsP256, keys-IsHkdf}
use lib_crypt_safe_messenger.Engine.{Session, err_tampered}
use lib_crypt_safe_messenger.JniBridge.{
  JniEnv, object, thrown, jint_of, java_get_error_string, java_generate_keypair,
  java_generate_prekey_pair, java_channel_generate_keypair, java_verify_signature,
  java_channel_sign, java_x3dh_initiator, java_x3dh_responder, java_encrypt_with_key,
  java_decrypt_with_key, java_compute_shared_key, java_encrypt, java_decrypt, java_get_fingerprint,
}
use lib_crypt_safe_messenger.JniBridge.Silent.{bridge_is_silent}
use lib_crypt_safe_messenger.KeyExchange.Steps.{public_der}
use lib_crypt_safe_messenger.JniBridge.FirstMessage.{HasObjects, first_message_read}
use lib_crypt_safe_messenger.JniBridge.Keys.{IsAlive, java_decrypt-java_encrypt, java_decrypt_codes}

abbrev start : Machine ℕ
start = record { world = 5; live = 0 }

abbrev jni : JniEnv ℕ
jni = record {
  new_byte_array = λ n w. (true, w);
  find_class = λ w. (true, w);
  new_object_array = λ n w. (true, w);
}

jni-IsAlive : IsAlive jni
jni-IsAlive = record { gives_array = λ n w. refl }

abbrev done : Session (sample (pos 1)) keys
done = record { aes_key = replicate 32 1; kex = some 7; handshake_done = true }

tampered_text : java_get_error_string (jint_of err_tampered) ≡ "Data tampered!"
unfolding java_get_error_string
tampered_text = refl

abbrev key : Bytes
key = replicate 32 7

abbrev text : Bytes
text = replicate 40 1

abbrev der : ℕ → Bytes
der k = public_der keys keys-IsP256 k

-- No one-time prekey.
bridge_is_silent_example :
    ((java_generate_keypair jni (sample (pos 1)) keys done start).0 ≢ throws (runtime_error "x"))
    × ((java_generate_prekey_pair jni (sample (pos 1)) keys start).0 ≢ throws (runtime_error "x"))
    × ((java_channel_generate_keypair jni (sample (pos 1)) keys start).0
        ≢ throws (runtime_error "x"))
    × ((java_verify_signature jni (sample (pos 1)) keys (some key) (some text) (some []) start).0
        ≢ throws (runtime_error "x"))
    × ((java_channel_sign jni (sample (pos 1)) keys (some key) (some text) start).0
        ≢ throws (runtime_error "x"))
    × ((java_x3dh_initiator jni
          (sample (pos 1))
          keys
          (some (2 ∷ []))
          (some (der 3))
          (some (der 4))
          none
          start).0
        ≢ throws (runtime_error "x"))
    × ((java_x3dh_responder jni
          (sample (pos 1))
          keys
          (some (2 ∷ []))
          (some (der 4))
          (some (der 3))
          (some (der 5))
          none
          start).0
        ≢ throws (runtime_error "x"))
    × ((java_encrypt_with_key jni (sample (pos 1)) keys (some key) (some text) start).0
        ≢ throws (runtime_error "x"))
    × ((java_decrypt_with_key jni (sample (pos 1)) keys (some key) (some text) start).0
        ≢ throws (runtime_error "x"))
    × ((java_compute_shared_key jni (sample (pos 1)) keys done (some key) start).0
        ≢ throws (runtime_error "x"))
    × ((java_encrypt jni (sample (pos 1)) keys done (some key) start).0
        ≢ throws (runtime_error "x"))
    × ((java_decrypt jni (sample (pos 1)) keys done (some key) start).0
        ≢ throws (runtime_error "x"))
    × ((java_get_fingerprint jni (sample (pos 1)) keys done start).0 ≢ throws (runtime_error "x"))
bridge_is_silent_example =
    bridge_is_silent jni (sample (pos 1)) keys done key text [] (some (2 ∷ [])) (some (der 3))
      (some (der 4)) (some (der 5)) none start (runtime_error "x")

java_decrypt-java_encrypt_example :
    (sealed : Bytes) × (w : ℕ) × (java_encrypt_with_key jni
        (sample (pos 1))
        keys
        (some (replicate 32 7))
        (some (1 ∷ 2 ∷ []))
        start
      ≡ (returns (object sealed), record start { world = w }))
    × ((n : Machine ℕ)
        → (v : ℕ) × (java_decrypt_with_key jni
              (sample (pos 1))
              keys
              (some (replicate 32 7))
              (some sealed)
              n
            ≡ (returns (object (1 ∷ 2 ∷ [])), record n { world = v })))
java_decrypt-java_encrypt_example =
    java_decrypt-java_encrypt jni (sample (pos 1)) keys jni-IsAlive (sample-WritesWithin (pos 1))
      (sample-IsGcm (pos 1)) (sample-IsWorking (pos 1)) (replicate 32 7) (1 ∷ 2 ∷ []) refl
      (omega arith) start (λ e. cc e)

tampered_is_thrown :
    java_decrypt jni (sample (pos 1)) keys done (some (1 ∷ [])) start
    ≡ (returns (thrown "Message authentication failed: data tampered"), start)
tampered_is_thrown =
    (java_decrypt_codes jni (sample (pos 1)) keys done (1 ∷ []) start (λ _. refl)).0 refl
      (omega arith)

jni-HasObjects : HasObjects jni
jni-HasObjects = record { finds_class = λ w. refl; gives_array = λ n w. refl }

-- Alice has key 2; Bob has keys 3, 4 and, as one-time prekey, 6.
first_message_read_example :
    (k_enc : Bytes) × (k_auth : Bytes) × (ek_pub : Bytes) × (sealed : Bytes) × (m1 : Machine ℕ)
    × (m2 : Machine ℕ) × (n1 : Machine ℕ) × (n2 : Machine ℕ) × (java_x3dh_initiator jni
          (sample (pos 1))
          keys
          (some (2 ∷ []))
          (some (der 3))
          (some (der 4))
          (some (der 6))
          start
        ≡ (returns (object (k_enc ∷ k_auth ∷ ek_pub ∷ [])), m1))
    × (java_encrypt_with_key jni (sample (pos 1)) keys (some k_enc) (some (1 ∷ 2 ∷ [])) m1
        ≡ (returns (object sealed), m2))
    × (java_x3dh_responder jni
          (sample (pos 1))
          keys
          (some (3 ∷ []))
          (some (4 ∷ []))
          (some (der 2))
          (some ek_pub)
          (some (6 ∷ []))
          start
        ≡ (returns (object (k_enc ∷ k_auth ∷ [])), n1))
    × (java_decrypt_with_key jni (sample (pos 1)) keys (some k_enc) (some sealed) n1
        ≡ (returns (object (1 ∷ 2 ∷ [])), n2))
first_message_read_example =
    first_message_read jni (sample (pos 1)) keys keys-IsP256 keys-IsHkdf 2 3 4 (some 6) (2 ∷ [])
      (3 ∷ []) (4 ∷ []) (some (6 ∷ [])) (some (der 6)) tt tt tt refl refl refl
      (tt, (λ e. cc), refl, refl) jni-IsAlive jni-HasObjects (sample-WritesWithin (pos 1))
      (sample-IsGcm (pos 1)) (sample-IsWorking (pos 1)) (λ w. λ e. cc e) (1 ∷ 2 ∷ []) (omega arith)
      start start
