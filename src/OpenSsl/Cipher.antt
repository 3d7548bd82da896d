-- ===== src/OpenSsl/Cipher.antt =====
-- The calls of OpenSSL by LibCryptSafe/src/Cryptor.cpp: RAND_bytes and the EVP_CIPHER family at
-- AES-256-GCM. `Ctx` is the content of an EVP_CIPHER_CTX; a call that changes it returns the new one.
use lib_crypt_safe_messenger.Common.{
  ℕ, ◌≤◌, ◌≡◌, ◌↔◌, Option, some, [], ℤ, pos, pos_part, Bytes, length, take, ◌<◌, ◌^◌,
}

pub record CipherLib (World : Type 0) : Type 1 where
  pub Ctx : Type 0
  -- RAND_bytes(buf, n): the return code and the n bytes that are then in the buffer.
  pub rand_bytes : ℕ → World → (ℤ × Bytes) × World
  -- EVP_CIPHER_CTX_new and EVP_CIPHER_CTX_free.
  pub ctx_new : World → Option Ctx × World
  pub ctx_free : Ctx → World → World
  -- EVP_EncryptInit_ex(ctx, EVP_aes_256_gcm(), nullptr, key, nonce).
  pub encrypt_init : Ctx → Bytes → Bytes → ℤ × Ctx
  -- EVP_EncryptUpdate(ctx, out, &out_len, in, inl): what it writes at `out`, `out_len` bytes long.
  pub encrypt_update : Ctx → Bytes → ℤ → ℤ × (Bytes × Ctx)
  pub encrypt_final : Ctx → ℤ × (Bytes × Ctx)
  -- EVP_CIPHER_CTX_ctrl with EVP_CTRL_GCM_GET_TAG and EVP_CTRL_GCM_SET_TAG.
  pub get_tag : Ctx → ℕ → ℤ × Bytes
  pub decrypt_init : Ctx → Bytes → Bytes → ℤ × Ctx
  pub set_tag : Ctx → Bytes → ℤ × Ctx
  pub decrypt_update : Ctx → Bytes → ℤ → ℤ × (Bytes × Ctx)
  pub decrypt_final : Ctx → ℤ × (Bytes × Ctx)

-- How much the calls write: a stream mode has blocks of one byte, so an update writes at most what
-- it was given, a final call writes nothing, and a negative length is given nothing.
pub record WritesWithin {World : Type 0} (lib : CipherLib World) : Type 0 where
  pub rand_length : (n : ℕ) (w : World) → length (lib.rand_bytes n w).0.1 ≡ n
  pub encrypt_within :
      (c : lib.Ctx) (buf : Bytes) (inl : ℤ)
      → length (lib.encrypt_update c buf inl).1.0 ≤ pos_part inl
  pub encrypt_final_empty : (c : lib.Ctx) → (lib.encrypt_final c).1.0 ≡ []
  pub tag_length : (c : lib.Ctx) (n : ℕ) → length (lib.get_tag c n).1 ≡ n
  pub decrypt_within :
      (c : lib.Ctx) (buf : Bytes) (inl : ℤ)
      → length (lib.decrypt_update c buf inl).1.0 ≤ pos_part inl
  pub decrypt_final_empty : (c : lib.Ctx) → (lib.decrypt_final c).1.0 ≡ []

-- AES-256-GCM: a key stream, which is its own inverse, and a tag over the ciphertext. The laws speak
-- of runs of calls that return 1.
pub record IsGcm {World : Type 0} (lib : CipherLib World) : Type 0 where
  pub cipher : Bytes → Bytes → Bytes → Bytes
  pub mac : Bytes → Bytes → Bytes → Bytes
  pub length-cipher : (k n t : Bytes) → length (cipher k n t) ≡ length t
  pub length-mac : (k n c : Bytes) → length (mac k n c) ≡ 16
  pub cipher-cipher : (k n t : Bytes) → cipher k n (cipher k n t) ≡ t
  pub sealing :
      (c c1 c2 c3 : lib.Ctx) (k n buf out fin tag : Bytes) (m : ℕ)
      → lib.encrypt_init c k n ≡ (pos 1, c1)
      → lib.encrypt_update c1 buf (pos m) ≡ (pos 1, (out, c2))
      → lib.encrypt_final c2 ≡ (pos 1, (fin, c3))
      → lib.get_tag c3 16 ≡ (pos 1, tag)
      → (out ≡ cipher k n (take m buf)) × (tag ≡ mac k n out)
  pub opening :
      (c c1 c2 c3 : lib.Ctx) (k n buf out tag : Bytes) (m : ℕ)
      → lib.decrypt_init c k n ≡ (pos 1, c1)
      → lib.set_tag c1 tag ≡ (pos 1, c2)
      → lib.decrypt_update c2 buf (pos m) ≡ (pos 1, (out, c3))
      → (out ≡ cipher k n (take m buf))
        × (((lib.decrypt_final c3).0 ≡ pos 1) ↔ (tag ≡ mac k n (take m buf)))

-- The library is in working order: memory is there, and correct calls return 1.
pub record IsWorking {World : Type 0} (lib : CipherLib World) : Type 0 where
  pub new_works : (w : World) → (c : lib.Ctx) × ((lib.ctx_new w).0 ≡ some c)
  pub encrypt_init_works :
      (c : lib.Ctx) (k n : Bytes)
      → length k ≡ 32
      → length n ≡ 12
      → (lib.encrypt_init c k n).0 ≡ pos 1
  pub encrypt_update_works :
      (c : lib.Ctx) (buf : Bytes) (m : ℕ)
      → m < 2 ^ 31
      → (lib.encrypt_update c buf (pos m)).0 ≡ pos 1
  pub encrypt_final_works : (c : lib.Ctx) → (lib.encrypt_final c).0 ≡ pos 1
  pub get_tag_works : (c : lib.Ctx) → (lib.get_tag c 16).0 ≡ pos 1
  pub decrypt_init_works :
      (c : lib.Ctx) (k n : Bytes)
      → length k ≡ 32
      → length n ≡ 12
      → (lib.decrypt_init c k n).0 ≡ pos 1
  pub set_tag_works : (c : lib.Ctx) (tag : Bytes) → length tag ≡ 16 → (lib.set_tag c tag).0 ≡ pos 1
  pub decrypt_update_works :
      (c : lib.Ctx) (buf : Bytes) (m : ℕ)
      → m < 2 ^ 31
      → (lib.decrypt_update c buf (pos m)).0 ≡ pos 1
