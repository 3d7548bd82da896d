-- ===== src/OpenSsl/Curve.antt =====
-- What is assumed of OpenSSL's keys on P-256 and of its HKDF: a library in working order.
use lib_crypt_safe_messenger.Common.{ℕ, ◌≤◌, ◌*◌, ◌≡◌, ◌↔◌, some, [], ◌∷◌, ◌++◌, pos, Bytes, length}
use lib_crypt_safe_messenger.OpenSsl.Pkey.{PkeyLib}

-- RFC 5480: the DER header of a SubjectPublicKeyInfo with id-ecPublicKey, the named curve prime256v1
-- and a bit string of 66 bytes that begins with 0 unused bits and the mark of an uncompressed point.
abbrev pub spki_header : Bytes
spki_header =
    48 ∷ 89 ∷ 48 ∷ 19 ∷ 6 ∷ 7 ∷ 42 ∷ 134 ∷ 72 ∷ 206 ∷ 61 ∷ 2 ∷ 1 ∷ 6 ∷ 8 ∷ 42 ∷ 134 ∷ 72 ∷ 206 ∷ 61
    ∷ 3 ∷ 1 ∷ 7 ∷ 3 ∷ 66 ∷ 0 ∷ 4 ∷ []

module _ {World : Type 0} (lib : PkeyLib World) where
  -- The calls that draw a key on P-256 succeed.
  pub record Drawing (OnCurve : lib.Pkey → Type 0) (w : World) : Type 0 where
    pub ctx : lib.PkeyCtx
    pub ctx1 : lib.PkeyCtx
    pub ctx2 : lib.PkeyCtx
    pub key : lib.Pkey
    pub made_world : World
    pub drawn_world : World
    pub made : lib.ctx_new_id 408 w ≡ (some ctx, made_world)
    pub init : lib.keygen_init ctx ≡ (pos 1, ctx1)
    pub curve : lib.set_curve ctx1 415 ≡ (pos 1, ctx2)
    pub drawn : lib.keygen ctx2 made_world ≡ ((pos 1, key), drawn_world)
    pub on_curve : OnCurve key

  -- The calls that derive a secret of 32 bytes succeed.
  pub record Deriving (secret : Bytes) (key peer : lib.Pkey) (w : World) : Type 0 where
    pub ctx : lib.PkeyCtx
    pub ctx1 : lib.PkeyCtx
    pub ctx2 : lib.PkeyCtx
    pub made_world : World
    pub made : lib.ctx_new key w ≡ (some ctx, made_world)
    pub init : lib.derive_init ctx ≡ (pos 1, ctx1)
    pub set_peer : lib.derive_set_peer ctx1 peer ≡ (pos 1, ctx2)
    pub size : lib.derive_size ctx2 ≡ (pos 1, 32)
    pub derived : lib.derive ctx2 32 ≡ (pos 1, secret)

  pub record IsP256 : Type 1 where
    pub OnCurve : lib.Pkey → Type 0
    pub public_of : lib.Pkey → lib.Pkey
    pub point : lib.Pkey → Bytes
    pub length-point : (k : lib.Pkey) → OnCurve k → length (point k) ≡ 64
    pub exports : (k : lib.Pkey) → OnCurve k → lib.i2d_pubkey k ≡ (pos 91, spki_header ++ point k)
    pub parses :
        (k : lib.Pkey)
        → OnCurve k
        → lib.d2i_pubkey (spki_header ++ point k) ≡ some (public_of k, 91)
    pub is_ec : (k : lib.Pkey) → OnCurve k → lib.base_id (public_of k) ≡ pos 408
    pub is_256 : (k : lib.Pkey) → OnCurve k → lib.bits (public_of k) ≡ pos 256
    pub dh : lib.Pkey → lib.Pkey → Bytes
    pub length-dh : (a b : lib.Pkey) → OnCurve a → OnCurve b → length (dh a (public_of b)) ≡ 32
    pub dh_comm : (a b : lib.Pkey) → OnCurve a → OnCurve b → dh a (public_of b) ≡ dh b (public_of a)
    pub draws : (w : World) → Drawing OnCurve w
    pub derives :
        (a b : lib.Pkey) (w : World)
        → OnCurve a
        → OnCurve b
        → Deriving (dh a (public_of b)) a (public_of b) w

  -- The calls that run HKDF-SHA256 succeed.
  pub record Expanding (okm ikm salt info : Bytes) (n : ℕ) (w : World) : Type 0 where
    pub ctx : lib.PkeyCtx
    pub ctx1 : lib.PkeyCtx
    pub ctx2 : lib.PkeyCtx
    pub ctx3 : lib.PkeyCtx
    pub ctx4 : lib.PkeyCtx
    pub ctx5 : lib.PkeyCtx
    pub made_world : World
    pub made : lib.ctx_new_id 1036 w ≡ (some ctx, made_world)
    pub init : lib.derive_init ctx ≡ (pos 1, ctx1)
    pub set_md : lib.set_hkdf_md ctx1 ≡ (pos 1, ctx2)
    pub set_salt : lib.set_hkdf_salt ctx2 salt (pos (length salt)) ≡ (pos 1, ctx3)
    pub set_key : lib.set_hkdf_key ctx3 ikm (pos (length ikm)) ≡ (pos 1, ctx4)
    pub add_info : lib.add_hkdf_info ctx4 info (pos (length info)) ≡ (pos 1, ctx5)
    pub derived : lib.derive ctx5 n ≡ (pos 1, okm)

  -- HKDF gives up to 255 times 32 bytes, from an info of up to 1024.
  pub record IsHkdf : Type 0 where
    pub hkdf : Bytes → Bytes → Bytes → ℕ → Bytes
    pub length-hkdf : (ikm salt info : Bytes) (n : ℕ) → length (hkdf ikm salt info n) ≡ n
    pub expands :
        (ikm salt info : Bytes) (n : ℕ) (w : World)
        → length info ≤ 1024
        → n ≤ 255 * 32
        → Expanding (hkdf ikm salt info n) ikm salt info n w

  -- The calls that sign and verify succeed.
  pub record Signing (sig : Bytes) (key : lib.Pkey) (message : Bytes) (w : World) : Type 0 where
    pub ctx : lib.MdCtx
    pub ctx1 : lib.MdCtx
    pub ctx2 : lib.MdCtx
    pub made_world : World
    pub size : ℕ
    pub made : lib.md_ctx_new w ≡ (some ctx, made_world)
    pub init : lib.sign_init ctx key ≡ (pos 1, ctx1)
    pub update : lib.sign_update ctx1 message ≡ (pos 1, ctx2)
    pub sized : lib.sign_size ctx2 ≡ (pos 1, size)
    pub signed : lib.sign_final ctx2 size ≡ (pos 1, sig)

  pub record Verifying (key : lib.Pkey) (message : Bytes) (w : World) : Type 0 where
    pub ctx : lib.MdCtx
    pub ctx1 : lib.MdCtx
    pub ctx2 : lib.MdCtx
    pub made_world : World
    pub made : lib.md_ctx_new w ≡ (some ctx, made_world)
    pub init : lib.verify_init ctx key ≡ (pos 1, ctx1)
    pub update : lib.verify_update ctx1 message ≡ (pos 1, ctx2)

  -- ECDSA: which signatures are good under a public key, and that signing makes such a one. What a
  -- signature is may depend on the world, which holds the randomness.
  pub record IsEcdsa (p : IsP256) : Type 1 where
    pub IsGood : lib.Pkey → Bytes → Bytes → Type 0
    pub signature : lib.Pkey → Bytes → World → Bytes
    pub signs :
        (k : lib.Pkey) (message : Bytes) (w : World)
        → p.OnCurve k
        → Signing (signature k message w) k message w
    pub good :
        (k : lib.Pkey) (message : Bytes) (w : World)
        → p.OnCurve k
        → IsGood (p.public_of k) message (signature k message w)
    pub verifies :
        (k : lib.Pkey) (message : Bytes) (w : World)
        → p.OnCurve k
        → Verifying (p.public_of k) message w
    pub final_iff :
        (k : lib.Pkey) (message sig : Bytes) (c c1 c2 : lib.MdCtx)
        → lib.verify_init c k ≡ (pos 1, c1)
        → lib.verify_update c1 message ≡ (pos 1, c2)
        → (lib.verify_final c2 sig ≡ pos 1) ↔ IsGood k message sig
