-- ===== src/JniBridge.antt =====
-- android/app/src/main/cpp/jni_bridge.cpp: the native methods of CryptoManager. The global session is an
-- argument and, where it changes, part of the result. A Java array is its bytes, or null; what is wiped
-- (`OPENSSL_cleanse`) and the deletion of local references are left out.
pub mod Silent
pub mod Keys
pub mod FirstMessage
mod Runs
use lib_crypt_safe_messenger.Common.{
  ℕ, zero, suc, [], ◌∷◌, List, Bool, true, false, not, if◌then◌else◌, Option, none, some, String,
  Bytes, length, is_empty, ℤ, pos, negsuc, to_int,
}
use lib_crypt_safe_messenger.Common.Proc.{Proc, ◌>>=◌, return, fault, call, caught}
use lib_crypt_safe_messenger.OpenSsl.Cipher.{CipherLib}
use lib_crypt_safe_messenger.OpenSsl.Pkey.{PkeyLib}
use lib_crypt_safe_messenger.Cryptor
use lib_crypt_safe_messenger.KeyExchange.Keys.{generate, export_public_key, export_private_key}
use lib_crypt_safe_messenger.KeyExchange.X3dh.{x3dh_initiator, x3dh_responder}
use lib_crypt_safe_messenger.KeyExchange.Signatures.{verify_signature, channel_sign}
use lib_crypt_safe_messenger.Engine
use lib_crypt_safe_messenger.Engine.{
  Session, Result, ok, err_encrypt, err_decrypt, err_keygen, err_hmac, err_invalid_key,
  err_tampered,
}

-- What a native method hands to Java: null, an object, or null with an exception pending.
pub data Returned (A : Type 0) : Type 0 where
  nullptr : Returned A
  object : A → Returned A
  thrown : String → Returned A

-- The calls of JNI that may fail: whether NewByteArray, FindClass("[B") and NewObjectArray gave an object.
pub record JniEnv (World : Type 0) : Type 0 where
  pub new_byte_array : ℤ → World → Bool × World
  pub find_class : World → Bool × World
  pub new_object_array : ℕ → World → Bool × World

module _ {World : Type 0} where
  -- `toVec`, and the same lines outside a lambda: the length of null is undefined behaviour.
  abbrev pub to_vec : Option Bytes → Proc World Bytes
  to_vec none = fault
  to_vec (some bs) = return bs

  -- `try { ... } catch (const std::exception&) { return nullptr; }`
  abbrev pub guarded : {A : Type 0} → Proc World (Returned A) → Proc World (Returned A)
  guarded p = caught p (λ e. nullptr) return

  -- `catch (const std::exception&) { return JNI_FALSE; }`
  abbrev pub guarded_false : Proc World Bool → Proc World Bool
  guarded_false p = caught p (λ e. false) return

-- The `toVec` of the X3DH methods: null is an empty vector.
abbrev pub to_vec_or_empty : Option Bytes → Bytes
to_vec_or_empty none = []
to_vec_or_empty (some bs) = bs

-- `static_cast<jint>` of a code, and back.
abbrev pub jint_of : Result → ℤ
jint_of ok = pos 0
jint_of err_encrypt = negsuc 0
jint_of err_decrypt = negsuc 1
jint_of err_keygen = negsuc 2
jint_of err_hmac = negsuc 3
jint_of err_invalid_key = negsuc 4
jint_of err_tampered = negsuc 5

unfoldable pub java_get_error_string : ℤ → String
java_get_error_string (pos zero) = "OK"
java_get_error_string (pos (suc n)) = "Unknown error"
java_get_error_string (negsuc zero) = "Encryption failed"
java_get_error_string (negsuc (suc zero)) = "Decryption failed"
java_get_error_string (negsuc (suc (suc zero))) = "Key generation failed"
java_get_error_string (negsuc (suc (suc (suc zero)))) = "HMAC failed"
java_get_error_string (negsuc (suc (suc (suc (suc zero))))) = "No handshake done"
java_get_error_string (negsuc (suc (suc (suc (suc (suc zero)))))) = "Data tampered!"
java_get_error_string (negsuc (suc (suc (suc (suc (suc (suc n))))))) = "Unknown error"

module _ {World : Type 0} (env : JniEnv World) where
  -- NewByteArray and SetByteArrayRegion; the latter on null is undefined behaviour.
  abbrev pub new_array : Bytes → Proc World Bytes
  new_array bs = do
    made ← call (env.new_byte_array (to_int (length bs)))
    if made then return bs else fault

  abbrev pub put_all : List Bytes → Proc World (List Bytes)
  put_all [] = return []
  put_all (v ∷ vs) = do a ← new_array v; rest ← put_all vs; return (a ∷ rest)

  -- FindClass, NewObjectArray and an array for each of the vectors.
  abbrev pub object_array : List Bytes → Proc World (Returned (List Bytes))
  object_array vs = do
    class_found ← call env.find_class
    if not class_found then return nullptr else do
      made ← call (env.new_object_array (length vs))
      if not made then return nullptr else do arrays ← put_all vs; return (object arrays)

  abbrev pub array_object : Bytes → Proc World (Returned Bytes)
  array_object bs = do arr ← new_array bs; return (object arr)

module _ {World : Type 0} (env : JniEnv World) (ciphers : CipherLib World)
    (lib : PkeyLib World) where
  abbrev pub keypair_result :
      Result × Session ciphers lib × Bytes → Proc World (Returned Bytes × Session ciphers lib)
  keypair_result (ok, s, pub_key) = do arr ← new_array env pub_key; return (object arr, s)
  keypair_result (other, s, pub_key) = return (nullptr, s)

  unfoldable pub java_generate_keypair :
      Session ciphers lib → Proc World (Returned Bytes × Session ciphers lib)
  java_generate_keypair s = do r ← Engine.generate_keypair ciphers lib s []; keypair_result r

  unfoldable pub java_generate_prekey_pair : Proc World (Returned (List Bytes))
  java_generate_prekey_pair = guarded (do
    kx ← generate lib
    pub_der ← export_public_key lib kx
    priv ← export_private_key lib kx
    object_array env (pub_der ∷ priv ∷ []))

  unfoldable pub java_channel_generate_keypair : Proc World (Returned (List Bytes))
  java_channel_generate_keypair = guarded (do
    ch ← generate lib
    pub_der ← export_public_key lib ch
    priv ← export_private_key lib ch
    object_array env (pub_der ∷ priv ∷ []))

  unfoldable pub java_verify_signature :
      Option Bytes → Option Bytes → Option Bytes → Proc World Bool
  java_verify_signature pub_der text sig_der =
      guarded_false
        (do p ← to_vec pub_der; t ← to_vec text; s ← to_vec sig_der; verify_signature lib p t s)

  unfoldable pub java_channel_sign : Option Bytes → Option Bytes → Proc World (Returned Bytes)
  java_channel_sign priv_der text = guarded (do
    priv ← to_vec priv_der
    t ← to_vec text
    sig ← channel_sign lib priv t
    if is_empty sig then return nullptr else array_object env sig)

  abbrev pub initiating :
      Option Bytes → Option Bytes → Option Bytes → Option Bytes → Proc World (Returned (List Bytes))
  initiating our_ik_dh_priv peer_ik_dh peer_spk peer_opk = do
    result ←
        x3dh_initiator lib (to_vec_or_empty our_ik_dh_priv) (to_vec_or_empty peer_ik_dh)
          (to_vec_or_empty peer_spk) (to_vec_or_empty peer_opk)
    object_array env (result.k_enc ∷ result.k_auth ∷ result.ek_pub ∷ [])

  unfoldable pub java_x3dh_initiator :
      Option Bytes → Option Bytes → Option Bytes → Option Bytes → Proc World (Returned (List Bytes))
  java_x3dh_initiator our_ik_dh_priv peer_ik_dh peer_spk peer_opk =
      guarded (initiating our_ik_dh_priv peer_ik_dh peer_spk peer_opk)

  abbrev pub responding :
      Option Bytes
      → Option Bytes
      → Option Bytes
      → Option Bytes
      → Option Bytes
      → Proc World (Returned (List Bytes))
  responding our_ik_dh_priv our_spk_priv peer_ik_dh peer_ek our_opk_priv = do
    keys ←
        x3dh_responder lib (to_vec_or_empty our_ik_dh_priv) (to_vec_or_empty our_spk_priv)
          (to_vec_or_empty peer_ik_dh) (to_vec_or_empty peer_ek) (to_vec_or_empty our_opk_priv)
    object_array env (keys.k_enc ∷ keys.k_auth ∷ [])

  unfoldable pub java_x3dh_responder :
      Option Bytes
      → Option Bytes
      → Option Bytes
      → Option Bytes
      → Option Bytes
      → Proc World (Returned (List Bytes))
  java_x3dh_responder our_ik_dh_priv our_spk_priv peer_ik_dh peer_ek our_opk_priv =
      guarded (responding our_ik_dh_priv our_spk_priv peer_ik_dh peer_ek our_opk_priv)

  abbrev pub encrypting : Option Bytes → Option Bytes → Proc World (Returned Bytes)
  encrypting key plaintext = do
    k ← to_vec key
    c ← Cryptor.new_cryptor k
    text ← to_vec plaintext
    cipher ← Cryptor.encrypt ciphers c text
    array_object env cipher

  unfoldable pub java_encrypt_with_key : Option Bytes → Option Bytes → Proc World (Returned Bytes)
  java_encrypt_with_key key plaintext = guarded (encrypting key plaintext)

  abbrev pub decrypting : Option Bytes → Option Bytes → Proc World (Returned Bytes)
  decrypting key ciphertext = do
    k ← to_vec key
    c ← Cryptor.new_cryptor k
    sealed ← to_vec ciphertext
    plain ← Cryptor.decrypt ciphers c sealed
    array_object env plain

  unfoldable pub java_decrypt_with_key : Option Bytes → Option Bytes → Proc World (Returned Bytes)
  java_decrypt_with_key key ciphertext = guarded (decrypting key ciphertext)

  unfoldable pub java_compute_shared_key :
      Session ciphers lib → Option Bytes → Proc World (ℤ × Session ciphers lib)
  java_compute_shared_key s peer_pub_key = do
    peer_pub ← to_vec peer_pub_key
    (code, s1) ← Engine.compute_shared_key ciphers lib s peer_pub
    return (jint_of code, s1)

  abbrev pub encrypt_result : Result × Bytes → Proc World (Returned Bytes)
  encrypt_result (ok, cipher) = array_object env cipher
  encrypt_result (other, cipher) = return nullptr

  unfoldable pub java_encrypt : Session ciphers lib → Option Bytes → Proc World (Returned Bytes)
  java_encrypt s plaintext = do
    plain ← to_vec plaintext
    r ← Engine.encrypt ciphers lib s plain []
    encrypt_result r

  abbrev pub decrypt_result : Result × Bytes → Proc World (Returned Bytes)
  decrypt_result (err_tampered, plain) =
      return (thrown "Message authentication failed: data tampered")
  decrypt_result (ok, plain) = array_object env plain
  decrypt_result (other, plain) = return nullptr

  unfoldable pub java_decrypt : Session ciphers lib → Option Bytes → Proc World (Returned Bytes)
  java_decrypt s ciphertext = do
    cipher ← to_vec ciphertext
    r ← Engine.decrypt ciphers lib s cipher []
    decrypt_result r

  unfoldable pub java_get_fingerprint : Session ciphers lib → Proc World Bytes
  java_get_fingerprint s = Engine.get_fingerprint ciphers lib s
