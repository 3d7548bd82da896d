-- ===== src/KeyExchange/Signatures.antt =====
-- MessengerApp/KeyExchange.hpp: `verify_signature` and `channel_sign`. They throw nothing: a failure is
-- `false`, or an empty signature.
use lib_crypt_safe_messenger.Common.{[], Bool, false, Bytes, is_code}
use lib_crypt_safe_messenger.Common.Proc.{Proc, ◌>>=◌, return, unless_null, unless_one}
use lib_crypt_safe_messenger.OpenSsl.Pkey.{PkeyLib}
use lib_crypt_safe_messenger.KeyExchange.Handles.{allocate, uniq_md_ctx}
use lib_crypt_safe_messenger.KeyExchange.Keys.{parse_peer_p256}

module _ {World : Type 0} (lib : PkeyLib World) where
  open lib use {
    d2i_private, md_ctx_new, verify_init, verify_update, verify_final, sign_init, sign_update,
    sign_size, sign_final,
  }

  unfoldable pub verify_signature : Bytes → Bytes → Bytes → Proc World Bool
  verify_signature pub_der message sig_der = unless_null (parse_peer_p256 lib pub_der) false λ key.
      do
        made ← allocate md_ctx_new
        unless_null made false λ ctx. uniq_md_ctx lib ctx λ raw.
            unless_one (verify_init raw key) false λ ctx1.
              unless_one (verify_update ctx1 message) false
                λ ctx2. return (is_code 1 (verify_final ctx2 sig_der))

  unfoldable pub channel_sign : Bytes → Bytes → Proc World Bytes
  channel_sign priv_der message = unless_null (d2i_private priv_der) [] λ key. do
    made ← allocate md_ctx_new
    unless_null made [] λ ctx. uniq_md_ctx lib ctx λ raw. unless_one (sign_init raw key) [] λ ctx1.
        unless_one (sign_update ctx1 message) [] λ ctx2.
          unless_one (sign_size ctx2) [] λ sig_len. unless_one (sign_final ctx2 sig_len) [] return
