-- ===== src/KeyExchange/Hex.antt =====
-- The fingerprint's text.
use lib_crypt_safe_messenger.Common.{
  ℕ, ◌*◌, ◌/◌, ◌%◌, ◌<◌, ◌≤◌, ◌≡◌, ◌⊎◌, refl, ap, [], ◌∷◌, Bytes, length, All, arith, take_all,
}
use lib_crypt_safe_messenger.Common.Proc.{Machine, returns, step}
use lib_crypt_safe_messenger.Common.Memory.{read_at, read_at_within}
use lib_crypt_safe_messenger.OpenSsl.Pkey.{PkeyLib}
use lib_crypt_safe_messenger.OpenSsl.Curve.{IsP256}
use lib_crypt_safe_messenger.KeyExchange.Keys.{export_public_key}
use lib_crypt_safe_messenger.KeyExchange.Fingerprint.{hex_digit, hex_of, get_fingerprint}
use lib_crypt_safe_messenger.KeyExchange.Steps.{public_der, export_run}

abbrev pub IsByte : ℕ → Type 0
IsByte b = b < 256

-- `0` to `9` and `a` to `f`.
abbrev pub IsHexDigit : ℕ → Type 0
IsHexDigit c = ((b'0' ≤ c) × (c ≤ b'9')) ⊎ ((b'a' ≤ c) × (c ≤ b'f'))

hex_digit-IsHexDigit : (d : ℕ) → d < 16 → IsHexDigit (hex_digit d)
hex_digit-IsHexDigit d h = ground arith

hex_digit_injective : (d e : ℕ) → d < 16 → e < 16 → hex_digit d ≡ hex_digit e → d ≡ e
hex_digit_injective d e hd he same = ground arith

length-hex_of : (bs : Bytes) → length (hex_of bs) ≡ 2 * length bs
unfolding hex_of
length-hex_of [] = refl
length-hex_of (b ∷ bs) = omega (arith, length-hex_of bs)

hex_of-IsHexDigit : (bs : Bytes) → All IsByte bs → All IsHexDigit (hex_of bs)
unfolding hex_of
hex_of-IsHexDigit [] h = tt
hex_of-IsHexDigit (b ∷ bs) (hb, hbs) = (
  hex_digit-IsHexDigit (b / 16) (omega arith),
  (hex_digit-IsHexDigit (b % 16) (omega arith), hex_of-IsHexDigit bs hbs),
)

cons_injective : (x y : ℕ) (xs ys : Bytes) → ◌≡◌ {A = Bytes} (x ∷ xs) (y ∷ ys) → (x ≡ y) × (xs ≡ ys)
cons_injective x y xs ys e = (cc, cc)

-- Different strings of bytes have different texts.
hex_of_injective : (xs bs : Bytes) → All IsByte xs → All IsByte bs → hex_of xs ≡ hex_of bs → xs ≡ bs
unfolding hex_of
hex_of_injective [] [] ha hb e = refl
hex_of_injective [] (b ∷ bs) ha hb e = cc
hex_of_injective (a ∷ xs) [] ha hb e = cc
hex_of_injective (a ∷ xs) (b ∷ bs) (ha, hxs) (hb, hbs) e =
    let (high, rest) = cons_injective _ _ _ _ e in
    let (low, tails) = cons_injective _ _ _ _ rest in
    let h : a / 16 ≡ b / 16 = hex_digit_injective _ _ (omega arith) (omega arith) high in
    let l : a % 16 ≡ b % 16 = hex_digit_injective _ _ (omega arith) (omega arith) low in
    let same : a ≡ b = omega arith in λ i. same i ∷ hex_of_injective xs bs hxs hbs tails i

-- SHA-256 gives 32 bytes.
pub record IsSha256 {World : Type 0} (lib : PkeyLib World) : Type 0 where
  pub length-sha256 : (bs : Bytes) → length (lib.sha256 bs) ≡ 32
  pub sha256-IsByte : (bs : Bytes) → All IsByte (lib.sha256 bs)

module _ {World : Type 0} (lib : PkeyLib World) (p : IsP256 lib) (sha : IsSha256 lib) where
  fingerprint_run :
      (k : lib.Pkey) (m : Machine World)
      → p.OnCurve k
      → get_fingerprint lib k m ≡ (returns (hex_of (lib.sha256 (public_der lib p k))), m)
  unfolding get_fingerprint
  fingerprint_run k m on =
      let hash = lib.sha256 (public_der lib p k) in
      let len = sha.length-sha256 (public_der lib p k) in
      step (export_public_key lib k) m _ (export_run lib p k m on) (
        step (read_at 0 32 hash) m _ (read_at_within m 0 32 hash (omega (arith, len)))
          (ap (λ (t : Bytes). (returns (hex_of t), m)) (take_all 32 hash (omega (arith, len)))))

  -- The fingerprint of a key on P-256 is a text of 64 digits in lower-case hexadecimal, and two keys
  -- whose fingerprints agree have public keys with the same SHA-256.
  pub fingerprint_lem :
      (k j : lib.Pkey) (m n : Machine World)
      → p.OnCurve k
      → p.OnCurve j
      → (fk : Bytes) × (fj : Bytes) × (get_fingerprint lib k m ≡ (returns fk, m))
        × (get_fingerprint lib j n ≡ (returns fj, n))
        × (length fk ≡ 64)
        × All IsHexDigit fk
        × (fk ≡ fj → lib.sha256 (public_der lib p k) ≡ lib.sha256 (public_der lib p j))
  fingerprint_lem k j m n hk hj =
      let hash = lib.sha256 (public_der lib p k) in
      let len = sha.length-sha256 (public_der lib p k) in
      let is_byte = sha.sha256-IsByte (public_der lib p k) in
      (
        _,
        _,
        fingerprint_run k m hk,
        fingerprint_run j n hj,
        omega (arith, length-hex_of hash, len),
        hex_of-IsHexDigit hash is_byte,
        hex_of_injective hash _ is_byte (sha.sha256-IsByte (public_der lib p j)),
      )
