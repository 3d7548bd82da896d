-- ===== src/JniBridge/Keys.antt =====
-- Encryption through the bridge of jni_bridge.cpp.
use lib_crypt_safe_messenger.Common.{
  ℕ, [], ◌+◌, ◌^◌, ◌<◌, ◌≡◌, ◌≢◌, refl, ap, ◌∙◌, true, false, some, Bytes, length, pos, to_int,
  to_int_small, arith, if◌then◌else◌,
}
use lib_crypt_safe_messenger.Common.Proc.{Machine, returns, return, step, caught_step, fault}
use lib_crypt_safe_messenger.OpenSsl.Cipher.{CipherLib, WritesWithin, IsGcm, IsWorking}
use lib_crypt_safe_messenger.OpenSsl.Pkey.{PkeyLib}
use lib_crypt_safe_messenger.Cryptor
use lib_crypt_safe_messenger.Cryptor.RoundTrip.{decrypt-encrypt}
use lib_crypt_safe_messenger.Engine
use lib_crypt_safe_messenger.Engine.{Session, err_tampered, err_invalid_key}
use lib_crypt_safe_messenger.Engine.Promises.{HasKey, decrypt_codes, new_cryptor_run}
use lib_crypt_safe_messenger.JniBridge.{
  JniEnv, object, thrown, nullptr, new_array, array_object, encrypting, decrypting,
  java_encrypt_with_key, java_decrypt_with_key, java_decrypt,
}

-- JNI with memory left: NewByteArray gives an array for a length that is not negative.
pub record IsAlive {World : Type 0} (env : JniEnv World) : Type 0 where
  pub gives_array : (n : ℕ) (w : World) → (env.new_byte_array (pos n) w).0 ≡ true

module _ {World : Type 0} (env : JniEnv World) where
  pub new_array_run :
      IsAlive env
      → (bs : Bytes) → length bs < 2 ^ 31
      → (m : Machine World)
      → (w : World) × (new_array env bs m ≡ (returns bs, record m { world = w }))
  new_array_run alive bs small m =
      let w = (env.new_byte_array (to_int (length bs)) m.world).1 in
      (
        w,
        ap (λ b. (if b then return bs else fault) (record m { world = w }))
            (ap (λ n. (env.new_byte_array n m.world).0) (to_int_small (length bs) small)
              ∙ alive.gives_array (length bs) m.world),
      )

  array_object_run :
      IsAlive env
      → (bs : Bytes) → length bs < 2 ^ 31
      → (m : Machine World)
      → (w : World) × (array_object env bs m ≡ (returns (object bs), record m { world = w }))
  array_object_run alive bs small m =
      let (w, run) = new_array_run alive bs small m in (w, step (new_array env bs) m _ run refl)

module _ {World : Type 0} (env : JniEnv World) (ciphers : CipherLib World)
    (lib : PkeyLib World) where
  -- With memory left in JNI, ciphers that work as documented, a key of 32 bytes, a text of less than 2 GB,
  -- and RAND_bytes not returning 0: `encryptWithKey` gives Java an array, which `decryptWithKey` under the
  -- same key turns back into the text, in any later state of the libraries. Neither method touches a
  -- session.
  pub java_decrypt-java_encrypt :
      IsAlive env
      → WritesWithin ciphers
      → IsGcm ciphers
      → IsWorking ciphers
      → (key text : Bytes) → length key ≡ 32
      → length text + 28 < 2 ^ 31
      → (m : Machine World) → (ciphers.rand_bytes 12 m.world).0.0 ≢ pos 0
      → (sealed : Bytes) × (w : World) × (java_encrypt_with_key env ciphers lib
            (some key)
            (some text)
            m
          ≡ (returns (object sealed), record m { world = w }))
        × ((n : Machine World)
            → (v : World) × (java_decrypt_with_key env ciphers lib (some key) (some sealed) n
                ≡ (returns (object text), record n { world = v })))
  unfolding java_encrypt_with_key java_decrypt_with_key
  java_decrypt-java_encrypt alive within g works key text hk small m drawn =
      let (sealed, w, run, size, opens) =
        decrypt-encrypt ciphers within g works key text hk small m drawn in
      let (w1, given) =
        array_object_run env alive sealed (omega (arith, size)) (record m { world = w }) in
      (
        sealed,
        w1,
        caught_step (encrypting env ciphers lib (some key) (some text)) m (λ e. nullptr) return
            (step (Cryptor.new_cryptor key) m _ (new_cryptor_run ciphers lib key m hk)
              (step (Cryptor.encrypt ciphers key text) m _ run given))
            refl,
        λ n.
            let (v, opened) = opens n in
            let (v1, back) =
              array_object_run env alive text (omega arith) (record n { world = v }) in
            (
              v1,
              caught_step (decrypting env ciphers lib (some key) (some sealed)) n (λ e. nullptr)
                  return
                  (step (Cryptor.new_cryptor key) n _ (new_cryptor_run ciphers lib key n hk)
                    (step (Cryptor.decrypt ciphers key sealed) n _ opened back))
                  refl,
            ),
      )

  -- With a session that has a key of 32 bytes once its handshake is done, `decrypt` of an array of less
  -- than 28 bytes throws the SecurityException of a message that was tampered with; before the handshake
  -- every array gives null, with no exception. Neither changes the machine.
  pub java_decrypt_codes :
      (s : Session ciphers lib) (sealed : Bytes) (m : Machine World)
      → HasKey ciphers lib s
      → (s.handshake_done ≡ true
          → length sealed < 28
          → java_decrypt env ciphers lib s (some sealed) m
            ≡ (returns (thrown "Message authentication failed: data tampered"), m))
        × (s.handshake_done ≡ false
            → java_decrypt env ciphers lib s (some sealed) m ≡ (returns nullptr, m))
  unfolding java_decrypt
  java_decrypt_codes s sealed m h =
      let (_, short, early) = decrypt_codes ciphers lib s sealed [] m h in
      (
        (λ done few. step (Engine.decrypt ciphers lib s sealed []) m _ (short done few) refl),
        (λ off. step (Engine.decrypt ciphers lib s sealed []) m _ (early off) refl),
      )
