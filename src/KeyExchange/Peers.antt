-- ===== src/KeyExchange/Peers.antt =====
-- Strangers' public keys in KeyExchange.hpp: what `parse_peer_p256` accepts, and those that use it.
use lib_crypt_safe_messenger.Common.{
  ℕ, ◌≡◌, ◌↔◌, refl, ◌∙◌, ap, Bool, true, false, Option, none, some, Bytes, length, take, pos,
  bytes_eq, bytes_eq→eq, arith, not, ◌||◌, if◌then◌else◌, ◌==◌, eq_of_==,
}
use lib_crypt_safe_messenger.Common.Proc.{Machine, returns, throws, runtime_error}
use lib_crypt_safe_messenger.OpenSsl.Pkey.{PkeyLib}
use lib_crypt_safe_messenger.OpenSsl.Curve.{spki_header, IsP256}
use lib_crypt_safe_messenger.KeyExchange.Keys.{pfx, check_parsed, parse_peer_p256}
use lib_crypt_safe_messenger.KeyExchange.Ecdh.{compute_shared_key, compute_raw_dh}
use lib_crypt_safe_messenger.KeyExchange.Signatures.{verify_signature}
use lib_crypt_safe_messenger.KeyExchange.Steps.{public_der, shared_key_run}

-- `if (!b || !c) return null; return o;`
guarded_iff :
    {A : Type 0} (b c : Bool) (o : Option A) (k : A)
    → ((if not b || not c then none else o) ≡ some k) ↔ ((b ≡ true) × (c ≡ true) × (o ≡ some k))
guarded_iff true true o k = ((λ e. (refl, refl, e)), (λ h. h.2))
guarded_iff true false o k = ((λ e. cc), (λ h. cc (h.1)))
guarded_iff false c o k = ((λ e. cc), (λ h. cc (h.0)))

module _ {World : Type 0} (lib : PkeyLib World) where
  check_parsed_iff :
      (o : Option (lib.Pkey × ℕ)) (k : lib.Pkey)
      → (check_parsed lib o ≡ some k)
        ↔ ((o ≡ some (k, 91)) × (lib.base_id k ≡ pos 408) × (lib.bits k ≡ pos 256))
  check_parsed_iff none k = ((λ e. cc), (λ h. cc (h.0)))
  check_parsed_iff (some (j, used)) k = ((λ e. ground arith), (λ h. ground arith))

  -- A public key is accepted, as the key `k`, exactly if it has 91 bytes, begins with the header of a
  -- named uncompressed P-256 point, and OpenSSL reads it, to the last byte, as `k`, which is an EC key
  -- of 256 bits.
  pub parse_peer_iff :
      (der : Bytes) (k : lib.Pkey)
      → (parse_peer_p256 lib der ≡ some k) ↔ (
          (length der ≡ 91)
          × (take 27 der ≡ spki_header)
          × (lib.d2i_pubkey der ≡ some (k, 91))
          × (lib.base_id k ≡ pos 408)
          × (lib.bits k ≡ pos 256))
  unfolding parse_peer_p256
  parse_peer_iff der k = (
    (λ e.
        let (len, header, parsed) =
          (guarded_iff (length der == 91) (bytes_eq (take 27 der) pfx) _ k).0 e in
        let (read, ec, bits) = (check_parsed_iff (lib.d2i_pubkey der) k).0 parsed in
        (eq_of_== _ _ len, bytes_eq→eq (take 27 der) pfx header, read, ec, bits)),
    (λ (len, header, read, ec, bits).
        (guarded_iff (length der == 91) (bytes_eq (take 27 der) pfx) _ k).1 (
          ap (λ (n : ℕ). n == 91) len,
          ap (λ (t : Bytes). bytes_eq t pfx) header,
          (check_parsed_iff (lib.d2i_pubkey der) k).1 (read, ec, bits),
        )),
  )

  -- A public key that is not accepted is refused before any library state is touched: the two
  -- Diffie-Hellman functions throw, and no signature is good under it.
  pub bad_peer_refused :
      (key : lib.Pkey) (der message sig : Bytes) (m : Machine World)
      → parse_peer_p256 lib der ≡ none
      → (compute_shared_key lib key der m
          ≡ (throws (runtime_error "Failed to parse peer public key"), m))
        × (compute_raw_dh lib key der m
            ≡ (throws (runtime_error "compute_raw_dh: bad peer key"), m))
        × (verify_signature lib der message sig m ≡ (returns false, m))
  unfolding compute_shared_key compute_raw_dh verify_signature
  bad_peer_refused key der message sig m e = (rw e, rw e, rw e)

  -- Two honest sides come to the same key of the old handshake, whatever state their libraries are in.
  pub shared_key_agreement :
      (p : IsP256 lib) (a b : lib.Pkey) (m n : Machine World)
      → p.OnCurve a
      → p.OnCurve b
      → (key : Bytes) × (w : World) × (v : World) × (compute_shared_key lib a (public_der lib p b) m
          ≡ (returns key, record m { world = w }))
        × (compute_shared_key lib b (public_der lib p a) n ≡ (returns key, record n { world = v }))
  shared_key_agreement p a b m n ha hb =
      let (w, left) = shared_key_run lib p a b m ha hb in
      let (v, right) = shared_key_run lib p b a n hb ha in
      (
        _,
        w,
        v,
        left,
        right ∙ λ i. (returns (lib.sha256 (p.dh_comm b a hb ha i)), record n { world = v }),
      )
