-- ===== src/KeyExchange/Steps.antt =====
-- Single operations of KeyExchange.hpp on keys on P-256, with a library in working order.
use lib_crypt_safe_messenger.Common.{
  ℕ, ◌<◌, ◌≤◌, ◌*◌, ◌^◌, ◌≡◌, ap, ◌∙◌, ◌++◌, some, String, codes, Bytes, length, pos, to_int_small,
  take_all, arith,
}
use lib_crypt_safe_messenger.Common.Proc.{Machine, returns}
use lib_crypt_safe_messenger.Common.Memory.{read_at_within}
use lib_crypt_safe_messenger.OpenSsl.Pkey.{PkeyLib}
use lib_crypt_safe_messenger.OpenSsl.Curve.{spki_header, IsP256, IsHkdf}
use lib_crypt_safe_messenger.KeyExchange.Keys.{
  parse_peer_p256, generate, export_public_key, copy_der,
}
use lib_crypt_safe_messenger.KeyExchange.Ecdh.{compute_raw_dh, compute_shared_key, hkdf_sha256}

module _ {World : Type 0} (lib : PkeyLib World) where
  -- The copy of a DER buffer of `n` bytes.
  pub copy_run :
      (n : ℕ) (der : Bytes) (what : String) (m : Machine World)
      → 0 < n
      → length der ≡ n
      → copy_der lib (pos n, der) what m ≡ (returns der, m)
  unfolding copy_der
  copy_run n der what m some_bytes len =
      ground (arith, read_at_within m 0 n der (omega arith), take_all n der (omega arith))

module _ {World : Type 0} (lib : PkeyLib World) (p : IsP256 lib) where
  open p use {OnCurve, public_of, point, dh}

  -- The public key as it goes over the wire.
  abbrev pub public_der : lib.Pkey → Bytes
  public_der k = spki_header ++ point k

  pub parse-public_der :
      (k : lib.Pkey) → OnCurve k → parse_peer_p256 lib (public_der k) ≡ some (public_of k)
  unfolding parse_peer_p256
  parse-public_der k on =
      ground (arith, p.length-point k on, p.parses k on, p.is_ec k on, p.is_256 k on)

  pub generate_run :
      (m : Machine World)
      → (k : lib.Pkey) × (w : World) × OnCurve k
        × (generate lib m ≡ (returns k, record m { world = w }))
  unfolding generate
  generate_run m =
      let d = p.draws m.world in (d.key, lib.ctx_free d.ctx d.drawn_world, d.on_curve, ground arith)

  pub export_run :
      (k : lib.Pkey) (m : Machine World)
      → OnCurve k
      → export_public_key lib k m ≡ (returns (public_der k), m)
  unfolding export_public_key
  export_run k m on =
      ap (λ x. copy_der lib x "i2d_PUBKEY failed" m) (p.exports k on)
      ∙ copy_run lib 91 (public_der k) _ m (omega arith) (omega (arith, p.length-point k on))

  pub raw_dh_run :
      (a b : lib.Pkey) (m : Machine World)
      → OnCurve a
      → OnCurve b
      → (w : World) × (compute_raw_dh lib a (public_der b) m
          ≡ (returns (dh a (public_of b)), record m { world = w }))
  unfolding compute_raw_dh
  raw_dh_run a b m ha hb =
      let d = p.derives a b m.world ha hb in
      let e = parse-public_der b hb in (lib.ctx_free d.ctx d.made_world, ground arith)

  pub shared_key_run :
      (a b : lib.Pkey) (m : Machine World)
      → OnCurve a
      → OnCurve b
      → (w : World) × (compute_shared_key lib a (public_der b) m
          ≡ (returns (lib.sha256 (dh a (public_of b))), record m { world = w }))
  unfolding compute_shared_key
  shared_key_run a b m ha hb =
      let d = p.derives a b m.world ha hb in
      let e = parse-public_der b hb in (lib.ctx_free d.ctx d.made_world, ground arith)

module _ {World : Type 0} (lib : PkeyLib World) (h : IsHkdf lib) where
  pub hkdf_run :
      (ikm salt : Bytes) (info : String) (n : ℕ) (m : Machine World)
      → length ikm < 2 ^ 31
      → length salt < 2 ^ 31
      → length (codes info) ≤ 1024
      → n ≤ 255 * 32
      → (w : World) × (hkdf_sha256 lib ikm salt info n m
          ≡ (returns (h.hkdf ikm salt (codes info) n), record m { world = w }))
  unfolding hkdf_sha256
  hkdf_run ikm salt info n m hi hs hf hn =
      let x = h.expands ikm salt (codes info) n m.world hf hn in
      (
        lib.ctx_free x.ctx x.made_world,
        ground (
          arith,
          to_int_small (length ikm) hi,
          to_int_small (length salt) hs,
          to_int_small (length (codes info)) (omega (arith, hf)),
        ),
      )
