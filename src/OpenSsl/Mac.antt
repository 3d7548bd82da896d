-- ===== src/OpenSsl/Mac.antt =====
-- HMAC with SHA-256, as OpenSSL documents it: the code has 32 bytes and depends on the key and the text.
use lib_crypt_safe_messenger.Common.{◌≡◌, true, Bytes, length, to_int}
use lib_crypt_safe_messenger.OpenSsl.Pkey.{PkeyLib}

pub record IsHmac {World : Type 0} (lib : PkeyLib World) : Type 0 where
  pub mac : Bytes → Bytes → Bytes
  pub length-mac : (key text : Bytes) → length (mac key text) ≡ 32
  pub gives_mac :
      (key text : Bytes) (w : World)
      → (lib.hmac key (to_int (length key)) text w).0 ≡ (true, (mac key text, 32))
