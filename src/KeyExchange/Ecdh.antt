-- ===== src/KeyExchange/Ecdh.antt =====
-- MessengerApp/KeyExchange.hpp: `compute_shared_key`, `compute_raw_dh` and `hkdf_sha256`.
use lib_crypt_safe_messenger.Common.{ℕ, String, Bytes, length, codes, to_int}
use lib_crypt_safe_messenger.Common.Proc.{Proc, ◌>>=◌, return, non_null, expect_one}
use lib_crypt_safe_messenger.OpenSsl.Pkey.{PkeyLib}
use lib_crypt_safe_messenger.KeyExchange.Handles.{allocate, uniq_ctx}
use lib_crypt_safe_messenger.KeyExchange.Keys.{parse_peer_p256, evp_pkey_hkdf}

module _ {World : Type 0} (lib : PkeyLib World) where
  open lib use {
    Pkey, ctx_new_id, ctx_new, derive_init, derive_set_peer, derive_size, derive, sha256,
    set_hkdf_md, set_hkdf_salt, set_hkdf_key, add_hkdf_info,
  }

  unfoldable pub compute_shared_key : Pkey → Bytes → Proc World Bytes
  compute_shared_key key peer_pub_der = do
    peer ← non_null (parse_peer_p256 lib peer_pub_der) "Failed to parse peer public key"
    made ← allocate (ctx_new key)
    ctx ← non_null made "CTX_new failed"
    uniq_ctx lib ctx λ raw. do
      ctx1 ← expect_one (derive_init raw) "derive_init failed"
      ctx2 ← expect_one (derive_set_peer ctx1 peer) "derive_set_peer failed"
      secret_len ← expect_one (derive_size ctx2) "derive size failed"
      secret ← expect_one (derive ctx2 secret_len) "derive failed"
      return (sha256 secret)

  unfoldable pub compute_raw_dh : Pkey → Bytes → Proc World Bytes
  compute_raw_dh key peer_pub_der = do
    peer ← non_null (parse_peer_p256 lib peer_pub_der) "compute_raw_dh: bad peer key"
    made ← allocate (ctx_new key)
    ctx ← non_null made "compute_raw_dh: CTX_new failed"
    uniq_ctx lib ctx λ raw. do
      ctx1 ← expect_one (derive_init raw) "compute_raw_dh: derive_init failed"
      ctx2 ← expect_one (derive_set_peer ctx1 peer) "compute_raw_dh: set_peer failed"
      secret_len ← expect_one (derive_size ctx2) "compute_raw_dh: size failed"
      expect_one (derive ctx2 secret_len) "compute_raw_dh: derive failed"

  unfoldable pub hkdf_sha256 : Bytes → Bytes → String → ℕ → Proc World Bytes
  hkdf_sha256 ikm salt info out_len = do
    made ← allocate (ctx_new_id evp_pkey_hkdf)
    ctx ← non_null made "hkdf: CTX_new_id failed"
    uniq_ctx lib ctx λ raw. do
      ctx1 ← expect_one (derive_init raw) "hkdf: derive_init failed"
      ctx2 ← expect_one (set_hkdf_md ctx1) "hkdf: set_md failed"
      ctx3 ← expect_one (set_hkdf_salt ctx2 salt (to_int (length salt))) "hkdf: set_salt failed"
      ctx4 ← expect_one (set_hkdf_key ctx3 ikm (to_int (length ikm))) "hkdf: set_key failed"
      ctx5 ←
          expect_one (add_hkdf_info ctx4 (codes info) (to_int (length (codes info))))
            "hkdf: set_info failed"
      expect_one (derive ctx5 out_len) "hkdf: derive failed"
