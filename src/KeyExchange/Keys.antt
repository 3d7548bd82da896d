-- ===== src/KeyExchange/Keys.antt =====
-- MessengerApp/KeyExchange.hpp: the constructors, the DER exports and `parse_peer_p256`.
use lib_crypt_safe_messenger.Common.{
  ℕ, String, [], ◌∷◌, ◌||◌, not, Option, none, some, ◌==◌, if◌then◌else◌, Bytes, length, take,
  bytes_eq, ℤ, pos_part, is_code,
}
use lib_crypt_safe_messenger.Common.Proc.{
  Proc, runtime_error, ◌>>=◌, throw, call, non_null, expect_one,
}
use lib_crypt_safe_messenger.Common.Memory.{read_at}
use lib_crypt_safe_messenger.OpenSsl.Pkey.{PkeyLib}
use lib_crypt_safe_messenger.KeyExchange.Handles.{allocate, uniq_ctx}

-- EVP_PKEY_EC, EVP_PKEY_HKDF and NID_X9_62_prime256v1.
abbrev pub evp_pkey_ec : ℕ
evp_pkey_ec = 408

abbrev pub evp_pkey_hkdf : ℕ
evp_pkey_hkdf = 1036

abbrev pub nid_prime256v1 : ℕ
nid_prime256v1 = 415

-- The 27 bytes with which a SubjectPublicKeyInfo of a named, uncompressed P-256 point begins.
abbrev pub pfx : Bytes
pfx =
    0x30 ∷ 0x59 ∷ 0x30 ∷ 0x13 ∷ 0x06 ∷ 0x07 ∷ 0x2a ∷ 0x86 ∷ 0x48 ∷ 0xce ∷ 0x3d ∷ 0x02 ∷ 0x01 ∷ 0x06
    ∷ 0x08 ∷ 0x2a ∷ 0x86 ∷ 0x48 ∷ 0xce ∷ 0x3d ∷ 0x03 ∷ 0x01 ∷ 0x07 ∷ 0x03 ∷ 0x42 ∷ 0x00 ∷ 0x04 ∷ []

module _ {World : Type 0} (lib : PkeyLib World) where
  open lib use {
    Pkey, ctx_new_id, keygen_init, set_curve, keygen, d2i_private, d2i_pubkey, i2d_private,
    i2d_pubkey, base_id, bits,
  }

  -- The constructor that draws a new P-256 pair.
  unfoldable pub generate : Proc World Pkey
  generate = do
    made ← allocate (ctx_new_id evp_pkey_ec)
    ctx ← non_null made "EVP_PKEY_CTX_new_id failed"
    uniq_ctx lib ctx λ raw. do
      ctx1 ← expect_one (keygen_init raw) "keygen_init failed"
      ctx2 ← expect_one (set_curve ctx1 nid_prime256v1) "set_curve failed"
      drawn ← call (keygen ctx2)
      expect_one drawn "keygen failed"

  -- The constructor from a stored private key.
  unfoldable pub import_private : Bytes → Proc World Pkey
  import_private der = non_null (d2i_private der) "KeyExchange: bad private DER"

  -- `if (len <= 0) throw ...`, and the copy `der .. der + len`.
  unfoldable pub copy_der : ℤ × Bytes → String → Proc World Bytes
  copy_der (len, der) what =
      if pos_part len == 0 then throw (runtime_error what) else read_at 0 (pos_part len) der

  unfoldable pub export_private_key : Pkey → Proc World Bytes
  export_private_key key = copy_der (i2d_private key) "i2d_PrivateKey failed"

  unfoldable pub export_public_key : Pkey → Proc World Bytes
  export_public_key key = copy_der (i2d_pubkey key) "i2d_PUBKEY failed"

  abbrev pub check_parsed : Option (Pkey × ℕ) → Option Pkey
  check_parsed none = none
  check_parsed (some (key, used)) =
      if not (used == 91)
      then none
      else if not (is_code evp_pkey_ec (base_id key)) || not (is_code 256 (bits key))
      then none
      else some key

  -- A stranger's public key: exactly 91 bytes, of the one accepted form.
  unfoldable pub parse_peer_p256 : Bytes → Option Pkey
  parse_peer_p256 der =
      if not (length der == 91) || not (bytes_eq (take 27 der) pfx)
      then none
      else check_parsed (d2i_pubkey der)
