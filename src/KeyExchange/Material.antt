-- ===== src/KeyExchange/Material.antt =====
-- The keying material of X3DH in KeyExchange.hpp.
use lib_crypt_safe_messenger.Common.{
  ℕ, ◌≡◌, ◌≢◌, ◌⊎◌, refl, sym, ap, ◌∙◌, [], ◌∷◌, ◌++◌, Bytes, length, take, drop, replicate,
  take-append_exact, drop-append_exact, append-nil, append_assoc, arith,
}
use lib_crypt_safe_messenger.Common.Proc.{Machine, throws, runtime_error}
use lib_crypt_safe_messenger.OpenSsl.Pkey.{PkeyLib}
use lib_crypt_safe_messenger.KeyExchange.X3dh.{x3dh_ikm, derive_x3dh_session_keys}

x3dh_ikm_lem :
    (dh1 dh2 dh3 dh4 : Bytes)
    → x3dh_ikm dh1 dh2 dh3 dh4 ≡ replicate 32 0xff ++ (dh1 ++ (dh2 ++ (dh3 ++ dh4)))
unfolding x3dh_ikm
x3dh_ikm_lem dh1 dh2 dh3 [] =
    ap (λ (t : Bytes). replicate 32 0xff ++ (dh1 ++ (dh2 ++ t))) (sym (append-nil dh3))
x3dh_ikm_lem dh1 dh2 dh3 (x ∷ xs) = simp append_assoc

split_append :
    (n : ℕ) (a b c d : Bytes) → length a ≡ n → length c ≡ n → a ++ b ≡ c ++ d → (a ≡ c) × (b ≡ d)
split_append n a b c d ha hc e = (
  sym (take-append_exact n a b ha) ∙ ap (take n) e ∙ take-append_exact n c d hc,
  sym (drop-append_exact n a b ha) ∙ ap (drop n) e ∙ drop-append_exact n c d hc,
)

-- Where the first three secrets have 32 bytes, equal keying material means equal secrets, each in its
-- place, the fourth (perhaps absent) included.
pub x3dh_ikm_injective :
    (a1 a2 a3 a4 b1 b2 b3 b4 : Bytes)
    → length a1 ≡ 32
    → length a2 ≡ 32
    → length a3 ≡ 32
    → length b1 ≡ 32
    → length b2 ≡ 32
    → length b3 ≡ 32
    → x3dh_ikm a1 a2 a3 a4 ≡ x3dh_ikm b1 b2 b3 b4
    → (a1 ≡ b1) × (a2 ≡ b2) × (a3 ≡ b3) × (a4 ≡ b4)
x3dh_ikm_injective a1 a2 a3 a4 b1 b2 b3 b4 ha1 ha2 ha3 hb1 hb2 hb3 e =
    let whole = sym (x3dh_ikm_lem a1 a2 a3 a4) ∙ e ∙ x3dh_ikm_lem b1 b2 b3 b4 in
    let (_, r0) = split_append 32 (replicate 32 0xff) _ (replicate 32 0xff) _ refl refl whole in
    let (e1, r1) = split_append 32 a1 _ b1 _ ha1 hb1 r0 in
    let (e2, r2) = split_append 32 a2 _ b2 _ ha2 hb2 r1 in
    let (e3, e4) = split_append 32 a3 _ b3 _ ha3 hb3 r2 in (e1, e2, e3, e4)

module _ {World : Type 0} (lib : PkeyLib World) where
  -- A secret of another size is refused, with no call of the library: one of the first three that is
  -- not 32 bytes, or a fourth that is neither absent nor 32 bytes.
  pub derive_bad_size :
      (dh1 dh2 dh3 dh4 : Bytes) (m : Machine World)
      → ((length dh1 ≢ 32) ⊎ (length dh2 ≢ 32) ⊎ (length dh3 ≢ 32)
          → derive_x3dh_session_keys lib dh1 dh2 dh3 dh4 m
            ≡ (throws (runtime_error "x3dh: DH1-DH3 must be 32 bytes each"), m))
        × (length dh1 ≡ 32
            → length dh2 ≡ 32
            → length dh3 ≡ 32
            → dh4 ≢ []
            → length dh4 ≢ 32
            → derive_x3dh_session_keys lib dh1 dh2 dh3 dh4 m
              ≡ (throws (runtime_error "x3dh: DH4 must be 32 bytes or empty"), m))
  unfolding derive_x3dh_session_keys
  derive_bad_size dh1 dh2 dh3 [] m = ((λ h. ground arith), (λ h1 h2 h3 some h4. absurd (some refl)))
  derive_bad_size dh1 dh2 dh3 (x ∷ xs) m = ((λ h. ground arith), (λ h1 h2 h3 some h4. ground arith))
