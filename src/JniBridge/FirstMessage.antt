-- ===== src/JniBridge/FirstMessage.antt =====
-- The first message between two users of the application, through the native methods of jni_bridge.cpp:
-- X3DH on both sides, and a text sealed under the key that it gives.
use lib_crypt_safe_messenger.Common.{
  ℕ, [], ◌∷◌, ◌+◌, ◌^◌, ◌<◌, ◌≡◌, ◌≢◌, refl, List, Option, true, some, Bytes, length, length-append,
  pos, All, arith,
}
use lib_crypt_safe_messenger.Common.Proc.{Machine, returns, return, step, caught_step}
use lib_crypt_safe_messenger.OpenSsl.Cipher.{CipherLib, WritesWithin, IsGcm, IsWorking}
use lib_crypt_safe_messenger.OpenSsl.Pkey.{PkeyLib}
use lib_crypt_safe_messenger.OpenSsl.Curve.{IsP256, IsHkdf, spki_header}
use lib_crypt_safe_messenger.KeyExchange.Steps.{public_der}
use lib_crypt_safe_messenger.KeyExchange.X3dh.{SessionKeys, x3dh_initiator, x3dh_responder}
use lib_crypt_safe_messenger.KeyExchange.Agreement.{
  HasOneTime, agreed, initiator_run, responder_run,
}
use lib_crypt_safe_messenger.JniBridge.{
  JniEnv, object, nullptr, put_all, new_array, object_array, to_vec_or_empty, initiating,
  responding, java_x3dh_initiator, java_x3dh_responder, java_encrypt_with_key,
  java_decrypt_with_key,
}
use lib_crypt_safe_messenger.JniBridge.Keys.{IsAlive, new_array_run, java_decrypt-java_encrypt}

-- JNI finds the class of byte arrays, and has memory left for an array of them.
pub record HasObjects {World : Type 0} (env : JniEnv World) : Type 0 where
  pub finds_class : (w : World) → (env.find_class w).0 ≡ true
  pub gives_array : (n : ℕ) (w : World) → (env.new_object_array n w).0 ≡ true

module _ {World : Type 0} (env : JniEnv World) (alive : IsAlive env)
    (objects : HasObjects env) where
  put_all_run :
      (vs : List Bytes) (m : Machine World)
      → All (λ v. length v < 2 ^ 31) vs
      → (w : World) × (put_all env vs m ≡ (returns vs, record m { world = w }))
  put_all_run [] m small = (m.world, refl)
  put_all_run (v ∷ vs) m (small, rest) =
      let (w1, one) = new_array_run env alive v small m in
      let (w2, more) = put_all_run vs (record m { world = w1 }) rest in
      (
        w2,
        step (new_array env v) m _ one
            (step (put_all env vs) (record m { world = w1 }) _ more refl),
      )

  object_array_run :
      (vs : List Bytes) (m : Machine World)
      → All (λ v. length v < 2 ^ 31) vs
      → (w : World) × (object_array env vs m ≡ (returns (object vs), record m { world = w }))
  object_array_run vs m small =
      let w1 = (env.find_class m.world).1 in
      let w2 = (env.new_object_array (length vs) w1).1 in
      let (w3, run) = put_all_run vs (record m { world = w2 }) small in
      (
        w3,
        rw (objects.finds_class m.world) (
            rw (objects.gives_array (length vs) w1)
              (step (put_all env vs) (record m { world = w2 }) _ run refl)),
      )

-- Alice with her identity key, and Bob with his identity key, his signed prekey and perhaps a one-time
-- prekey; the private keys in the form in which they are stored, and the one-time prekey as Java passes it.
module _ {World : Type 0} (env : JniEnv World) (ciphers : CipherLib World) (lib : PkeyLib World)
    (p : IsP256 lib) (h : IsHkdf lib) (ik_a ik_b spk_b : lib.Pkey) (opk_b : Option lib.Pkey)
    (ik_a_priv ik_b_priv spk_b_priv : Bytes) (opk_b_priv opk_b_pub : Option Bytes)
    (on_a : p.OnCurve ik_a) (on_b : p.OnCurve ik_b) (on_spk : p.OnCurve spk_b)
    (a_stored : lib.d2i_private ik_a_priv ≡ some ik_a)
    (b_stored : lib.d2i_private ik_b_priv ≡ some ik_b)
    (spk_stored : lib.d2i_private spk_b_priv ≡ some spk_b)
    (one_time : HasOneTime lib p h opk_b
      (to_vec_or_empty opk_b_priv)
      (to_vec_or_empty opk_b_pub)) where
  abbrev keys_for : lib.Pkey → SessionKeys
  keys_for ek =
      agreed lib p h ik_a ik_b spk_b opk_b ik_a_priv ik_b_priv spk_b_priv
        (to_vec_or_empty opk_b_priv) (to_vec_or_empty opk_b_pub) on_a on_b on_spk a_stored b_stored
        spk_stored one_time ek

  java_initiator_run :
      IsAlive env
      → HasObjects env
      → (m : Machine World)
      → (ek : lib.Pkey) × (w : World) × p.OnCurve ek
        × (java_x3dh_initiator env ciphers lib
              (some ik_a_priv)
              (some (public_der lib p ik_b))
              (some (public_der lib p spk_b))
              opk_b_pub
              m
            ≡ (
              returns
                  (object ((keys_for ek).k_enc ∷ (keys_for ek).k_auth ∷ public_der lib p ek ∷ [])),
              record m { world = w },
            ))
  unfolding java_x3dh_initiator
  java_initiator_run alive objects m =
      let (ek, w, on, run) =
        initiator_run lib p h ik_a ik_b spk_b opk_b ik_a_priv ik_b_priv spk_b_priv
          (to_vec_or_empty opk_b_priv) (to_vec_or_empty opk_b_pub) on_a on_b on_spk a_stored
          b_stored spk_stored one_time m in
      let (w1, given) =
        object_array_run env alive objects
          ((keys_for ek).k_enc ∷ (keys_for ek).k_auth ∷ public_der lib p ek ∷ [])
          (record m { world = w })
          (
            omega (arith, h.length-hkdf _ _ _ 32),
            (
              omega (arith, h.length-hkdf _ _ _ 32),
              (omega (arith, length-append spki_header (p.point ek), p.length-point ek on), tt),
            ),
          ) in
      (
        ek,
        w1,
        on,
        caught_step
            (initiating env ciphers lib (some ik_a_priv) (some (public_der lib p ik_b))
              (some (public_der lib p spk_b)) opk_b_pub)
            m (λ e. nullptr) return (step (x3dh_initiator lib _ _ _ _) m _ run given) refl,
      )

  java_responder_run :
      IsAlive env
      → HasObjects env
      → (ek : lib.Pkey) (m : Machine World) → p.OnCurve ek
      → (w : World) × (java_x3dh_responder env ciphers lib
            (some ik_b_priv)
            (some spk_b_priv)
            (some (public_der lib p ik_a))
            (some (public_der lib p ek))
            opk_b_priv
            m
          ≡ (
            returns (object ((keys_for ek).k_enc ∷ (keys_for ek).k_auth ∷ [])),
            record m { world = w },
          ))
  unfolding java_x3dh_responder
  java_responder_run alive objects ek m on =
      let (w, run) =
        responder_run lib p h ik_a ik_b spk_b opk_b ik_a_priv ik_b_priv spk_b_priv
          (to_vec_or_empty opk_b_priv) (to_vec_or_empty opk_b_pub) on_a on_b on_spk a_stored
          b_stored spk_stored one_time ek m on in
      let (w1, given) =
        object_array_run env alive objects ((keys_for ek).k_enc ∷ (keys_for ek).k_auth ∷ [])
          (record m { world = w })
          (omega (arith, h.length-hkdf _ _ _ 32), (omega (arith, h.length-hkdf _ _ _ 32), tt)) in
      (
        w1,
        caught_step
            (responding env ciphers lib (some ik_b_priv) (some spk_b_priv)
              (some (public_der lib p ik_a)) (some (public_der lib p ek)) opk_b_priv)
            m (λ e. nullptr) return (step (x3dh_responder lib _ _ _ _ _) m _ run given) refl,
      )

  -- With keys on P-256, libraries in working order, memory left in JNI, and RAND_bytes never returning 0,
  -- for a text of less than 2 GB: on Alice's side, `x3dhInitiator` gives Java two keys and an ephemeral
  -- public key, and `encryptWithKey` under the first of the keys an array; on Bob's side, `x3dhResponder`,
  -- given that public key, gives the same two keys, and `decryptWithKey` makes the text of the array
  -- again, both with a one-time prekey and without.
  pub first_message_read :
      IsAlive env
      → HasObjects env
      → WritesWithin ciphers
      → IsGcm ciphers
      → IsWorking ciphers
      → ((w : World) → (ciphers.rand_bytes 12 w).0.0 ≢ pos 0)
      → (text : Bytes) → length text + 28 < 2 ^ 31
      → (m n : Machine World)
      → (k_enc : Bytes) × (k_auth : Bytes) × (ek_pub : Bytes) × (sealed : Bytes) × (m1 : Machine
          World)
        × (m2 : Machine World) × (n1 : Machine World) × (n2 : Machine World) × (java_x3dh_initiator
              env ciphers lib
              (some ik_a_priv)
              (some (public_der lib p ik_b))
              (some (public_der lib p spk_b))
              opk_b_pub
              m
            ≡ (returns (object (k_enc ∷ k_auth ∷ ek_pub ∷ [])), m1))
        × (java_encrypt_with_key env ciphers lib (some k_enc) (some text) m1
            ≡ (returns (object sealed), m2))
        × (java_x3dh_responder env ciphers lib
              (some ik_b_priv)
              (some spk_b_priv)
              (some (public_der lib p ik_a))
              (some ek_pub)
              opk_b_priv
              n
            ≡ (returns (object (k_enc ∷ k_auth ∷ [])), n1))
        × (java_decrypt_with_key env ciphers lib (some k_enc) (some sealed) n1
            ≡ (returns (object text), n2))
  first_message_read alive objects within g works draws text small m n =
      let (ek, w, on, started) = java_initiator_run alive objects m in
      let (v, answered) = java_responder_run alive objects ek n on in
      let k_enc = (keys_for ek).k_enc in
      let (sealed, w2, seals, opens) =
        java_decrypt-java_encrypt env ciphers lib alive within g works k_enc text
          (h.length-hkdf _ _ _ 32) small (record m { world = w }) (draws w) in
      let (v2, read) = opens (record n { world = v }) in
      (
        k_enc,
        (keys_for ek).k_auth,
        public_der lib p ek,
        sealed,
        record m { world = w },
        record m { world = w2 },
        record n { world = v },
        record n { world = v2 },
        started,
        seals,
        answered,
        read,
      )
