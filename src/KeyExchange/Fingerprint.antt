-- ===== src/KeyExchange/Fingerprint.antt =====
-- MessengerApp/KeyExchange.hpp: `get_fingerprint` and `compute_session_confirmation`.
use lib_crypt_safe_messenger.Common.{
  ℕ, ◌+◌, ◌-◌, ◌/◌, ◌%◌, [], ◌∷◌, ltb, if◌then◌else◌, String, codes, Bytes, length, to_int,
}
use lib_crypt_safe_messenger.Common.Proc.{Proc, ◌>>=◌, return, call}
use lib_crypt_safe_messenger.Common.Memory.{read_at}
use lib_crypt_safe_messenger.OpenSsl.Pkey.{PkeyLib}
use lib_crypt_safe_messenger.KeyExchange.Keys.{export_public_key}

-- `%02x` of a byte: two digits, in lower case.
abbrev pub hex_digit : ℕ → ℕ
hex_digit d = if ltb d 10 then b'0' + d else b'a' + d - 10

unfoldable pub hex_of : Bytes → Bytes
hex_of [] = []
hex_of (b ∷ bs) = hex_digit (b / 16) ∷ hex_digit (b % 16) ∷ hex_of bs

module _ {World : Type 0} (lib : PkeyLib World) where
  open lib use {Pkey, sha256, hmac}

  -- The loop prints the 32 bytes of the hash.
  unfoldable pub get_fingerprint : Pkey → Proc World Bytes
  get_fingerprint key = do
    der ← export_public_key lib key
    hash ← read_at 0 32 (sha256 der)
    return (hex_of hash)

  -- Whether HMAC returned a pointer is not looked at.
  unfoldable pub compute_session_confirmation : Bytes → String → Proc World Bytes
  compute_session_confirmation shared_key label = do
    (done, (out, out_len)) ← call (hmac shared_key (to_int (length shared_key)) (codes label))
    read_at 0 out_len out
