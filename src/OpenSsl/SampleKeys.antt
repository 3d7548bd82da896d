-- ===== src/OpenSsl/SampleKeys.antt =====
-- A small library of keys that meets the assumptions, for tests: a key is a number, its public half the
-- same, a secret the product, and a derivation repeats a number.
use lib_crypt_safe_messenger.Common.{
  ℕ, ◌+◌, ◌*◌, ◌%◌, ◌≡◌, refl, sym, ◌∙◌, ◌↔◌, ap, [], ◌∷◌, ◌++◌, true, Option, none, some, Bytes,
  replicate, length-replicate, ℤ, pos, arith, bytes_eq, bytes_eq→eq,
}
use lib_crypt_safe_messenger.OpenSsl.Pkey.{PkeyLib}
use lib_crypt_safe_messenger.OpenSsl.Curve.{IsEcdsa, IsP256, IsHkdf, spki_header}
use lib_crypt_safe_messenger.OpenSsl.Sample.{sum, sample_verify, verified, matching}

pub record KeyCtx : Type 0 where
  pub key : ℕ
  pub value : ℕ

abbrev pub first_of : Bytes → Option ℕ
first_of [] = none
first_of (x ∷ xs) = some x

abbrev pub read_point : Bytes → Option (ℕ × ℕ)
read_point
      (a1 ∷ a2 ∷ a3 ∷ a4 ∷ a5 ∷ a6 ∷ a7 ∷ a8 ∷ a9 ∷ b1 ∷ b2 ∷ b3 ∷ b4 ∷ b5 ∷ b6 ∷ b7 ∷ b8 ∷ b9 ∷ c1
        ∷ c2 ∷ c3 ∷ c4 ∷ c5 ∷ c6 ∷ c7 ∷ c8 ∷ c9 ∷ x ∷ xs) =
    some (x, 91)
read_point other = none

abbrev pub keys : PkeyLib ℕ
keys = record {
  Pkey = ℕ;
  PkeyCtx = KeyCtx;
  MdCtx = KeyCtx;
  ctx_new_id = λ id w. (some (record { key = w; value = 0 }), w);
  ctx_new = λ k w. (some (record { key = k; value = 0 }), w);
  ctx_free = λ c w. w;
  md_ctx_free = λ c w. w;
  keygen_init = λ c. (pos 1, c);
  set_curve = λ c nid. (pos 1, c);
  keygen = λ c w. ((pos 1, c.key), w + 1);
  d2i_private = first_of;
  d2i_pubkey = read_point;
  i2d_private = λ k. (pos 2, k ∷ 1 ∷ []);
  i2d_pubkey = λ k. (pos 91, spki_header ++ replicate 64 k);
  base_id = λ k. pos 408;
  bits = λ k. pos 256;
  derive_init = λ c. (pos 1, c);
  derive_set_peer = λ c k. (pos 1, record c { value = c.key * k });
  derive_size = λ c. (pos 1, 32);
  derive = λ c n. (pos 1, replicate n c.value);
  set_hkdf_md = λ c. (pos 1, c);
  set_hkdf_salt = λ c salt n. (pos 1, record c { value = sum salt });
  set_hkdf_key = λ c ikm n. (pos 1, record c { value = c.value + sum ikm });
  add_hkdf_info = λ c info n. (pos 1, record c { value = c.value + sum info });
  sha256 = λ xs. replicate 32 (sum xs % 256);
  hmac = λ k n xs w. ((true, (replicate 32 (sum k + sum xs), 32)), w);
  md_ctx_new = λ w. (some (record { key = 0; value = 0 }), w);
  verify_init = λ c k. (pos 1, record { key = k; value = 0 });
  verify_update = λ c xs. (pos 1, record c { value = c.value + sum xs });
  verify_final = λ c sig. sample_verify (bytes_eq sig (replicate 8 (c.key + c.value)));
  sign_init = λ c k. (pos 1, record { key = k; value = 0 });
  sign_update = λ c xs. (pos 1, record c { value = c.value + sum xs });
  sign_size = λ c. (pos 1, 8);
  sign_final = λ c n. (pos 1, replicate 8 (c.key + c.value));
}

pub times_comm : (a b : ℕ) → a * b ≡ b * a
times_comm a b = omega arith

abbrev pub keys-IsP256 : IsP256 keys
keys-IsP256 = record {
  OnCurve = λ k. Unit {0};
  public_of = λ k. k;
  point = λ k. replicate 64 k;
  length-point = λ k on. refl;
  exports = λ k on. refl;
  parses = λ k on. refl;
  is_ec = λ k on. refl;
  is_256 = λ k on. refl;
  dh = λ a b. replicate 32 (a * b);
  length-dh = λ a b ha hb. refl;
  dh_comm = λ a b ha hb. ap (λ (n : ℕ). replicate 32 n) (times_comm a b);
  draws = λ w. record {
    ctx = _;
    ctx1 = _;
    ctx2 = _;
    key = _;
    made_world = _;
    drawn_world = _;
    made = refl;
    init = refl;
    curve = refl;
    drawn = refl;
    on_curve = tt;
  };
  derives = λ a b w ha hb. record {
    ctx = _;
    ctx1 = _;
    ctx2 = _;
    made_world = _;
    made = refl;
    init = refl;
    set_peer = refl;
    size = refl;
    derived = refl;
  };
}

abbrev pub keys-IsHkdf : IsHkdf keys
keys-IsHkdf = record {
  hkdf = λ ikm salt info n. replicate n (sum salt + sum ikm + sum info);
  length-hkdf = λ ikm salt info n. length-replicate n _;
  expands = λ ikm salt info n w few short. record {
    ctx = _;
    ctx1 = _;
    ctx2 = _;
    ctx3 = _;
    ctx4 = _;
    ctx5 = _;
    made_world = _;
    made = refl;
    init = refl;
    set_md = refl;
    set_salt = refl;
    set_key = refl;
    add_info = refl;
    derived = refl;
  };
}

abbrev pub sample_signature : ℕ → Bytes → Bytes
sample_signature k message = replicate 8 (k + (0 + sum message))

pub sample_final_iff : (xs ys : Bytes) → (sample_verify (bytes_eq xs ys) ≡ pos 1) ↔ (xs ≡ ys)
sample_final_iff xs ys =
    ((λ e. bytes_eq→eq xs ys (verified _ e)), (λ e. ap sample_verify (matching xs ys e)))

pub sample_verifies :
    (k : ℕ) (message sig : Bytes) (c c1 c2 : KeyCtx)
    → ◌≡◌ {A = ℤ × KeyCtx} (pos 1, record { key = k; value = 0 }) (pos 1, c1)
    → ◌≡◌ {A = ℤ × KeyCtx} (pos 1, record c1 { value = c1.value + sum message }) (pos 1, c2)
    → (sample_verify (bytes_eq sig (replicate 8 (c2.key + c2.value))) ≡ pos 1)
      ↔ (sig ≡ sample_signature k message)
sample_verifies k message sig c c1 c2 e1 e2 =
    let same : replicate 8 (c2.key + c2.value) ≡ sample_signature k message =
      ap (λ (n : ℕ). replicate 8 n) (sums k message c1 c2 e1 e2) in
    let (to, from) = sample_final_iff sig (replicate 8 (c2.key + c2.value)) in
    ((λ e. to e ∙ same), (λ e. from (e ∙ sym same)))
  where
    sums :
        (k : ℕ) (message : Bytes) (c1 c2 : KeyCtx)
        → ◌≡◌ {A = ℤ × KeyCtx} (pos 1, record { key = k; value = 0 }) (pos 1, c1)
        → ◌≡◌ {A = ℤ × KeyCtx} (pos 1, record c1 { value = c1.value + sum message }) (pos 1, c2)
        → c2.key + c2.value ≡ k + (0 + sum message)
    sums k message c1 c2 e1 e2 = ground arith

abbrev pub keys-IsEcdsa : IsEcdsa keys keys-IsP256
keys-IsEcdsa = record {
  IsGood = λ k message sig. sig ≡ sample_signature k message;
  signature = λ k message w. sample_signature k message;
  signs = λ k message w on. record {
    ctx = _;
    ctx1 = _;
    ctx2 = _;
    made_world = _;
    size = _;
    made = refl;
    init = refl;
    update = refl;
    sized = refl;
    signed = refl;
  };
  good = λ k message w on. refl;
  verifies = λ k message w on. record {
    ctx = _;
    ctx1 = _;
    ctx2 = _;
    made_world = _;
    made = refl;
    init = refl;
    update = refl;
  };
  final_iff = λ k message sig c c1 c2 e1 e2. sample_verifies k message sig c c1 c2 e1 e2;
}
