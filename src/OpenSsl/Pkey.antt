-- ===== src/OpenSsl/Pkey.antt =====
-- The calls of OpenSSL by MessengerApp/KeyExchange.hpp: EVP_PKEY keys, their DER forms, ECDH, HKDF,
-- SHA-256, HMAC and ECDSA. What a decoder answers depends on its input alone; what allocates a context
-- or draws a key depends on the world.
use lib_crypt_safe_messenger.Common.{ℕ, Option, ℤ, Bytes, Bool}

pub record PkeyLib (World : Type 0) : Type 1 where
  pub Pkey : Type 0
  pub PkeyCtx : Type 0
  pub MdCtx : Type 0
  -- EVP_PKEY_CTX_new_id(id, nullptr) and EVP_PKEY_CTX_new(key, nullptr).
  pub ctx_new_id : ℕ → World → Option PkeyCtx × World
  pub ctx_new : Pkey → World → Option PkeyCtx × World
  -- EVP_PKEY_CTX_free and EVP_MD_CTX_free.
  pub ctx_free : PkeyCtx → World → World
  pub md_ctx_free : MdCtx → World → World
  pub keygen_init : PkeyCtx → ℤ × PkeyCtx
  -- EVP_PKEY_CTX_set_ec_paramgen_curve_nid.
  pub set_curve : PkeyCtx → ℕ → ℤ × PkeyCtx
  pub keygen : PkeyCtx → World → (ℤ × Pkey) × World
  -- d2i_AutoPrivateKey, and d2i_PUBKEY with how far it moved the pointer.
  pub d2i_private : Bytes → Option Pkey
  pub d2i_pubkey : Bytes → Option (Pkey × ℕ)
  -- i2d_PrivateKey and i2d_PUBKEY: the length returned and the buffer allocated.
  pub i2d_private : Pkey → ℤ × Bytes
  pub i2d_pubkey : Pkey → ℤ × Bytes
  -- EVP_PKEY_get_base_id and EVP_PKEY_get_bits.
  pub base_id : Pkey → ℤ
  pub bits : Pkey → ℤ
  pub derive_init : PkeyCtx → ℤ × PkeyCtx
  pub derive_set_peer : PkeyCtx → Pkey → ℤ × PkeyCtx
  -- EVP_PKEY_derive with a null buffer, for the length, and with a buffer of that length.
  pub derive_size : PkeyCtx → ℤ × ℕ
  pub derive : PkeyCtx → ℕ → ℤ × Bytes
  -- The EVP_PKEY_CTX_..._hkdf_... calls; each length is cast to int.
  pub set_hkdf_md : PkeyCtx → ℤ × PkeyCtx
  pub set_hkdf_salt : PkeyCtx → Bytes → ℤ → ℤ × PkeyCtx
  pub set_hkdf_key : PkeyCtx → Bytes → ℤ → ℤ × PkeyCtx
  pub add_hkdf_info : PkeyCtx → Bytes → ℤ → ℤ × PkeyCtx
  pub sha256 : Bytes → Bytes
  -- HMAC(EVP_sha256(), key, key_len, text, ..., out, &out_len): whether it returned a pointer, and
  -- then the 32 bytes of `out` and the value of `out_len`, as the caller finds them.
  pub hmac : Bytes → ℤ → Bytes → World → (Bool × (Bytes × ℕ)) × World
  pub md_ctx_new : World → Option MdCtx × World
  pub verify_init : MdCtx → Pkey → ℤ × MdCtx
  pub verify_update : MdCtx → Bytes → ℤ × MdCtx
  pub verify_final : MdCtx → Bytes → ℤ
  pub sign_init : MdCtx → Pkey → ℤ × MdCtx
  pub sign_update : MdCtx → Bytes → ℤ × MdCtx
  pub sign_size : MdCtx → ℤ × ℕ
  pub sign_final : MdCtx → ℕ → ℤ × Bytes
