-- ===== src/JniBridge/Silent.antt =====
-- Exceptions of C++ and the native methods of jni_bridge.cpp.
use lib_crypt_safe_messenger.Common.{◌≢◌, [], Option, some, Bytes, length, to_int}
use lib_crypt_safe_messenger.Common.Proc.{
  Proc, Machine, Outcome, returns, throws, faults, Exception, and_then, return, fault,
}
use lib_crypt_safe_messenger.OpenSsl.Cipher.{CipherLib}
use lib_crypt_safe_messenger.OpenSsl.Pkey.{PkeyLib}
use lib_crypt_safe_messenger.Engine
use lib_crypt_safe_messenger.Engine.{
  Session, Result, ok, err_encrypt, err_decrypt, err_keygen, err_hmac, err_invalid_key,
  err_tampered,
}
use lib_crypt_safe_messenger.Engine.Codes.{
  IsSilent, caught_then-ne-throws, return-IsSilent, if-IsSilent, engine_is_silent,
}
use lib_crypt_safe_messenger.JniBridge.{
  Returned, object, JniEnv, guarded, new_array, array_object, keypair_result, java_generate_keypair,
  java_generate_prekey_pair, java_channel_generate_keypair, java_verify_signature,
  java_channel_sign, java_x3dh_initiator, java_x3dh_responder, java_encrypt_with_key,
  java_decrypt_with_key, java_compute_shared_key, encrypt_result, java_encrypt, decrypt_result,
  java_decrypt, java_get_fingerprint,
}

module _ {World : Type 0} where
  and_then-ne-throws :
      {A B : Type 0} (r : Outcome A × Machine World) (f : A → Proc World B) (e : Exception)
      → r.0 ≢ throws e
      → ((a : A) (m : Machine World) → (f a m).0 ≢ throws e)
      → (and_then r f).0 ≢ throws e
  and_then-ne-throws (returns a, m) f e h k = k a m
  and_then-ne-throws (throws x, m) f e h k = λ q. h (cc q)
  and_then-ne-throws (faults, m) f e h k = λ x. cc x

  caught-IsSilent : {A : Type 0} (p : Proc World (Returned A)) → IsSilent (guarded p)
  caught-IsSilent p m e = caught_then-ne-throws (p m) _ _ return-IsSilent e

module _ {World : Type 0} (env : JniEnv World) where
  new_array-IsSilent : (bs : Bytes) → IsSilent (new_array env bs)
  new_array-IsSilent bs m e =
      if-IsSilent (env.new_byte_array (to_int (length bs)) m.world).0 (return bs) fault
        (return-IsSilent bs) (λ n x h. cc h)
        (record m { world = (env.new_byte_array (to_int (length bs)) m.world).1 }) e

  array_object-IsSilent : (bs : Bytes) → IsSilent (array_object env bs)
  array_object-IsSilent bs m e =
      and_then-ne-throws (new_array env bs m) (λ arr. return (object arr)) e
        (new_array-IsSilent bs m e) (λ a n h. cc h)

module _ {World : Type 0} (env : JniEnv World) (ciphers : CipherLib World)
    (lib : PkeyLib World) where
  keypair_result-IsSilent :
      (r : Result × Session ciphers lib × Bytes) → IsSilent (keypair_result env ciphers lib r)
  keypair_result-IsSilent (ok, s, k) = λ m e.
      and_then-ne-throws (new_array env k m) (λ arr. return (object arr, s)) e
        (new_array-IsSilent env k m e) (λ a n h. cc h)
  keypair_result-IsSilent (err_encrypt, s, k) = return-IsSilent _
  keypair_result-IsSilent (err_decrypt, s, k) = return-IsSilent _
  keypair_result-IsSilent (err_keygen, s, k) = return-IsSilent _
  keypair_result-IsSilent (err_hmac, s, k) = return-IsSilent _
  keypair_result-IsSilent (err_invalid_key, s, k) = return-IsSilent _
  keypair_result-IsSilent (err_tampered, s, k) = return-IsSilent _

  encrypt_result-IsSilent : (r : Result × Bytes) → IsSilent (encrypt_result env ciphers lib r)
  encrypt_result-IsSilent (ok, c) = array_object-IsSilent env c
  encrypt_result-IsSilent (err_encrypt, c) = return-IsSilent _
  encrypt_result-IsSilent (err_decrypt, c) = return-IsSilent _
  encrypt_result-IsSilent (err_keygen, c) = return-IsSilent _
  encrypt_result-IsSilent (err_hmac, c) = return-IsSilent _
  encrypt_result-IsSilent (err_invalid_key, c) = return-IsSilent _
  encrypt_result-IsSilent (err_tampered, c) = return-IsSilent _

  decrypt_result-IsSilent : (r : Result × Bytes) → IsSilent (decrypt_result env ciphers lib r)
  decrypt_result-IsSilent (ok, c) = array_object-IsSilent env c
  decrypt_result-IsSilent (err_encrypt, c) = return-IsSilent _
  decrypt_result-IsSilent (err_decrypt, c) = return-IsSilent _
  decrypt_result-IsSilent (err_keygen, c) = return-IsSilent _
  decrypt_result-IsSilent (err_hmac, c) = return-IsSilent _
  decrypt_result-IsSilent (err_invalid_key, c) = return-IsSilent _
  decrypt_result-IsSilent (err_tampered, c) = return-IsSilent _

  -- For any session and any arrays, null where `x3dhInitiator` and `x3dhResponder` read it as an empty array,
  -- and whatever JNI and OpenSSL answer: none of the native methods of CryptoManager ends by a C++
  -- exception, `getErrorString` aside, which is a choice among literals. For null elsewhere the code has
  -- no defined behaviour.
  pub bridge_is_silent :
      (s : Session ciphers lib) (a b c : Bytes) (ik peer spk ek opk : Option Bytes)
      (m : Machine World) (e : Exception)
      → ((java_generate_keypair env ciphers lib s m).0 ≢ throws e)
        × ((java_generate_prekey_pair env ciphers lib m).0 ≢ throws e)
        × ((java_channel_generate_keypair env ciphers lib m).0 ≢ throws e)
        × ((java_verify_signature env ciphers lib (some a) (some b) (some c) m).0 ≢ throws e)
        × ((java_channel_sign env ciphers lib (some a) (some b) m).0 ≢ throws e)
        × ((java_x3dh_initiator env ciphers lib ik peer spk opk m).0 ≢ throws e)
        × ((java_x3dh_responder env ciphers lib ik spk peer ek opk m).0 ≢ throws e)
        × ((java_encrypt_with_key env ciphers lib (some a) (some b) m).0 ≢ throws e)
        × ((java_decrypt_with_key env ciphers lib (some a) (some b) m).0 ≢ throws e)
        × ((java_compute_shared_key env ciphers lib s (some a) m).0 ≢ throws e)
        × ((java_encrypt env ciphers lib s (some a) m).0 ≢ throws e)
        × ((java_decrypt env ciphers lib s (some a) m).0 ≢ throws e)
        × ((java_get_fingerprint env ciphers lib s m).0 ≢ throws e)
  unfolding java_generate_keypair java_generate_prekey_pair java_channel_generate_keypair
      java_verify_signature java_channel_sign java_x3dh_initiator java_x3dh_responder
      java_encrypt_with_key java_decrypt_with_key java_compute_shared_key java_encrypt java_decrypt
      java_get_fingerprint
  bridge_is_silent s a b c ik peer spk ek opk m e = (
    and_then-ne-throws (Engine.generate_keypair ciphers lib s [] m) _ e
        (engine_is_silent ciphers lib s [] [] "" m e).1 (λ r n. keypair_result-IsSilent r n e),
    caught_then-ne-throws _ _ _ return-IsSilent e,
    caught_then-ne-throws _ _ _ return-IsSilent e,
    caught_then-ne-throws _ _ _ return-IsSilent e,
    caught_then-ne-throws _ _ _ return-IsSilent e,
    caught_then-ne-throws _ _ _ return-IsSilent e,
    caught_then-ne-throws _ _ _ return-IsSilent e,
    caught_then-ne-throws _ _ _ return-IsSilent e,
    caught_then-ne-throws _ _ _ return-IsSilent e,
    and_then-ne-throws (Engine.compute_shared_key ciphers lib s a m) _ e
        (engine_is_silent ciphers lib s a [] "" m e).2 (λ r k h. cc h),
    and_then-ne-throws (Engine.encrypt ciphers lib s a [] m) _ e
        (engine_is_silent ciphers lib s a [] "" m e).3 (λ r k. encrypt_result-IsSilent r k e),
    and_then-ne-throws (Engine.decrypt ciphers lib s a [] m) _ e
        (engine_is_silent ciphers lib s a [] "" m e).4 (λ r k. decrypt_result-IsSilent r k e),
    (engine_is_silent ciphers lib s [] [] "" m e).5,
  )
