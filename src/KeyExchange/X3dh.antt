-- ===== src/KeyExchange/X3dh.antt =====
-- MessengerApp/KeyExchange.hpp: the X3DH session keys, `x3dh_initiator` and `x3dh_responder`.
use lib_crypt_safe_messenger.Common.{
  [], ◌++◌, ◌||◌, ◌&&◌, not, ◌==◌, if◌then◌else◌, Bytes, length, replicate, is_empty,
}
use lib_crypt_safe_messenger.Common.Proc.{Proc, runtime_error, ◌>>=◌, return, throw}
use lib_crypt_safe_messenger.OpenSsl.Pkey.{PkeyLib}
use lib_crypt_safe_messenger.KeyExchange.Keys.{generate, import_private, export_public_key}
use lib_crypt_safe_messenger.KeyExchange.Ecdh.{compute_raw_dh, hkdf_sha256}

pub record SessionKeys : Type 0 where
  pub k_enc : Bytes
  pub k_auth : Bytes

pub record InitiatorResult : Type 0 where
  pub k_enc : Bytes
  pub k_auth : Bytes
  pub ek_pub : Bytes

-- IKM = F || DH1 || DH2 || DH3 || [DH4], built by insertions at the end.
unfoldable pub x3dh_ikm : Bytes → Bytes → Bytes → Bytes → Bytes
x3dh_ikm dh1 dh2 dh3 dh4 =
    let three = replicate 32 0xff ++ (dh1 ++ (dh2 ++ dh3)) in
    if not (is_empty dh4) then three ++ dh4 else three

module _ {World : Type 0} (lib : PkeyLib World) where
  -- The two calls of HKDF on the keying material.
  unfoldable pub expand_keys : Bytes → Proc World SessionKeys
  expand_keys ikm = do
    let salt = replicate 32 0
    enc ← hkdf_sha256 lib ikm salt "LibCryptSafe_v1_AES_GCM_Key" 32
    auth ← hkdf_sha256 lib ikm salt "LibCryptSafe_v1_HMAC_Key" 32
    return (record { k_enc = enc; k_auth = auth })

  unfoldable pub derive_x3dh_session_keys : Bytes → Bytes → Bytes → Bytes → Proc World SessionKeys
  derive_x3dh_session_keys dh1 dh2 dh3 dh4 =
      if not (length dh1 == 32) || not (length dh2 == 32) || not (length dh3 == 32)
      then throw (runtime_error "x3dh: DH1-DH3 must be 32 bytes each")
      else if not (is_empty dh4) && not (length dh4 == 32)
      then throw (runtime_error "x3dh: DH4 must be 32 bytes or empty")
      else expand_keys (x3dh_ikm dh1 dh2 dh3 dh4)

  -- The initiator's keys: with DH4 where the peer gave a one-time prekey.
  unfoldable pub initiator_keys : lib.Pkey → Bytes → Bytes → Bytes → Bytes → Proc World SessionKeys
  initiator_keys ek peer_opk_pub dh1 dh2 dh3 =
      if is_empty peer_opk_pub
      then derive_x3dh_session_keys dh1 dh2 dh3 []
      else compute_raw_dh lib ek peer_opk_pub >>= derive_x3dh_session_keys dh1 dh2 dh3

  unfoldable pub x3dh_initiator : Bytes → Bytes → Bytes → Bytes → Proc World InitiatorResult
  x3dh_initiator our_ik_dh_priv peer_ik_dh_pub peer_spk_pub peer_opk_pub = do
    ik_dh ← import_private lib our_ik_dh_priv
    ek ← generate lib
    dh1 ← compute_raw_dh lib ik_dh peer_spk_pub
    dh2 ← compute_raw_dh lib ek peer_ik_dh_pub
    dh3 ← compute_raw_dh lib ek peer_spk_pub
    keys ← initiator_keys ek peer_opk_pub dh1 dh2 dh3
    ek_pub ← export_public_key lib ek
    return (record { k_enc = keys.k_enc; k_auth = keys.k_auth; ek_pub = ek_pub })

  -- The responder's keys: with DH4 where the one-time prekey was used.
  unfoldable pub responder_keys : Bytes → Bytes → Bytes → Bytes → Bytes → Proc World SessionKeys
  responder_keys our_opk_priv peer_ek_pub dh1 dh2 dh3 =
      if is_empty our_opk_priv then derive_x3dh_session_keys dh1 dh2 dh3 [] else do
        opk ← import_private lib our_opk_priv
        dh4 ← compute_raw_dh lib opk peer_ek_pub
        derive_x3dh_session_keys dh1 dh2 dh3 dh4

  unfoldable pub x3dh_responder : Bytes → Bytes → Bytes → Bytes → Bytes → Proc World SessionKeys
  x3dh_responder our_ik_dh_priv our_spk_priv peer_ik_dh_pub peer_ek_pub our_opk_priv = do
    ik_dh ← import_private lib our_ik_dh_priv
    spk ← import_private lib our_spk_priv
    dh1 ← compute_raw_dh lib spk peer_ik_dh_pub
    dh2 ← compute_raw_dh lib ik_dh peer_ek_pub
    dh3 ← compute_raw_dh lib spk peer_ek_pub
    responder_keys our_opk_priv peer_ek_pub dh1 dh2 dh3
