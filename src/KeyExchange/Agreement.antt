-- ===== src/KeyExchange/Agreement.antt =====
-- The two sides of the X3DH handshake of KeyExchange.hpp.
use lib_crypt_safe_messenger.Common.{
  ◌+◌, ◌≤◌, ◌<◌, ◌^◌, ◌≡◌, ◌≢◌, ◌⊎◌, inl, inr, ap, ◌∙◌, refl, [], ◌∷◌, ◌++◌, Option, none, some,
  codes, Bytes, length, replicate, length-append, is_empty, false, arith,
}
use lib_crypt_safe_messenger.Common.Proc.{Machine, returns, step}
use lib_crypt_safe_messenger.OpenSsl.Pkey.{PkeyLib}
use lib_crypt_safe_messenger.OpenSsl.Curve.{IsP256, IsHkdf}
use lib_crypt_safe_messenger.KeyExchange.Keys.{generate, import_private, export_public_key}
use lib_crypt_safe_messenger.KeyExchange.Ecdh.{compute_raw_dh, hkdf_sha256}
use lib_crypt_safe_messenger.KeyExchange.Steps.{
  public_der, generate_run, export_run, raw_dh_run, hkdf_run,
}
use lib_crypt_safe_messenger.KeyExchange.X3dh.{
  SessionKeys, InitiatorResult, initiator_keys, responder_keys, x3dh_ikm, expand_keys,
  derive_x3dh_session_keys, x3dh_initiator, x3dh_responder,
}

not_empty : (xs : Bytes) → xs ≢ [] → is_empty xs ≡ false
not_empty [] h = absurd (h refl)
not_empty (x ∷ xs) h = refl

length-x3dh_ikm-le :
    (dh1 dh2 dh3 dh4 : Bytes)
    → (dh4 ≡ []) ⊎ (length dh4 ≡ 32)
    → length (x3dh_ikm dh1 dh2 dh3 dh4) ≤ 64 + length dh1 + length dh2 + length dh3
unfolding x3dh_ikm
length-x3dh_ikm-le dh1 dh2 dh3 dh4 h4 = ground (
  arith,
  length-append (replicate 32 0xff ++ (dh1 ++ (dh2 ++ dh3))) dh4,
  length-append (replicate 32 0xff) (dh1 ++ (dh2 ++ dh3)),
  length-append dh1 (dh2 ++ dh3),
  length-append dh2 dh3,
)

module _ {World : Type 0} (lib : PkeyLib World) (h : IsHkdf lib) where
  -- The two keys that the keying material stands for.
  abbrev pub session_keys : Bytes → SessionKeys
  session_keys ikm = record {
    k_enc = h.hkdf ikm (replicate 32 0) (codes "LibCryptSafe_v1_AES_GCM_Key") 32;
    k_auth = h.hkdf ikm (replicate 32 0) (codes "LibCryptSafe_v1_HMAC_Key") 32;
  }

  expand_run :
      (ikm : Bytes) (m : Machine World)
      → length ikm < 2 ^ 31
      → (w : World) × (expand_keys lib ikm m ≡ (returns (session_keys ikm), record m { world = w }))
  unfolding expand_keys
  expand_run ikm m small =
      let (w1, enc) =
        hkdf_run lib h ikm (replicate 32 0) "LibCryptSafe_v1_AES_GCM_Key" 32 m small (omega arith)
          (omega arith) (omega arith) in
      let (w2, auth) =
        hkdf_run lib h ikm (replicate 32 0) "LibCryptSafe_v1_HMAC_Key" 32 (record m { world = w1 })
          small (omega arith) (omega arith) (omega arith) in
      (
        w2,
        step (hkdf_sha256 lib ikm _ _ _) m _ enc (step (hkdf_sha256 lib ikm _ _ _) _ _ auth refl),
      )

  pub derive_run :
      (dh1 dh2 dh3 dh4 : Bytes) (m : Machine World)
      → length dh1 ≡ 32
      → length dh2 ≡ 32
      → length dh3 ≡ 32
      → (dh4 ≡ []) ⊎ (length dh4 ≡ 32)
      → (w : World) × (derive_x3dh_session_keys lib dh1 dh2 dh3 dh4 m
          ≡ (returns (session_keys (x3dh_ikm dh1 dh2 dh3 dh4)), record m { world = w }))
  unfolding derive_x3dh_session_keys
  derive_run dh1 dh2 dh3 dh4 m h1 h2 h3 h4 =
      let small : length (x3dh_ikm dh1 dh2 dh3 dh4) < 2 ^ 31 =
        omega (arith, length-x3dh_ikm-le dh1 dh2 dh3 dh4 h4) in
      let (w, run) = expand_run (x3dh_ikm dh1 dh2 dh3 dh4) m small in (w, ground arith)

module _ {World : Type 0} (lib : PkeyLib World) (p : IsP256 lib) (h : IsHkdf lib) where
  open p use {OnCurve, public_of, dh}

  -- Bob's one-time prekey, if he has one left: both sides hold its halves, or both hold nothing.
  abbrev pub HasOneTime : Option lib.Pkey → Bytes → Bytes → Type 0
  HasOneTime none priv public = (priv ≡ []) × (public ≡ [])
  HasOneTime (some k) priv public =
      OnCurve k × (priv ≢ []) × (lib.d2i_private priv ≡ some k) × (public ≡ public_der lib p k)

  -- What is mixed in for it, from an ephemeral key.
  abbrev one_time_secret : Option lib.Pkey → lib.Pkey → Bytes
  one_time_secret none ek = []
  one_time_secret (some k) ek = dh ek (public_of k)

  import_run :
      (der : Bytes) (k : lib.Pkey) (m : Machine World)
      → lib.d2i_private der ≡ some k
      → import_private lib der m ≡ (returns k, m)
  unfolding import_private
  import_run der k m e = rw e

  initiator_keys_run :
      (o : Option lib.Pkey) (priv public dh1 dh2 dh3 : Bytes) (ek : lib.Pkey) (m : Machine World)
      → HasOneTime o priv public
      → OnCurve ek
      → length dh1 ≡ 32
      → length dh2 ≡ 32
      → length dh3 ≡ 32
      → (w : World) × (initiator_keys lib ek public dh1 dh2 dh3 m ≡ (
        returns (session_keys lib h (x3dh_ikm dh1 dh2 dh3 (one_time_secret o ek))),
        record m { world = w },
      ))
  unfolding initiator_keys
  initiator_keys_run none priv public dh1 dh2 dh3 ek m (_, e) on h1 h2 h3 =
      rw e (derive_run lib h dh1 dh2 dh3 [] m h1 h2 h3 (inl refl))
  initiator_keys_run (some k) priv public dh1 dh2 dh3 ek m (hk, _, _, e) on h1 h2 h3 =
      let (w1, run) = raw_dh_run lib p ek k m on hk in
      let (w2, derived) =
        derive_run lib h dh1 dh2 dh3 _ (record m { world = w1 }) h1 h2 h3
          (inr (p.length-dh ek k on hk)) in
      (w2, rw e (step (compute_raw_dh lib ek _) m _ run derived))

  responder_keys_run :
      (o : Option lib.Pkey) (priv public dh1 dh2 dh3 : Bytes) (ek : lib.Pkey) (m : Machine World)
      → HasOneTime o priv public
      → OnCurve ek
      → length dh1 ≡ 32
      → length dh2 ≡ 32
      → length dh3 ≡ 32
      → (w : World) × (responder_keys lib priv (public_der lib p ek) dh1 dh2 dh3 m ≡ (
        returns (session_keys lib h (x3dh_ikm dh1 dh2 dh3 (one_time_secret o ek))),
        record m { world = w },
      ))
  unfolding responder_keys
  responder_keys_run none priv public dh1 dh2 dh3 ek m (e, _) on h1 h2 h3 =
      rw e (derive_run lib h dh1 dh2 dh3 [] m h1 h2 h3 (inl refl))
  responder_keys_run (some k) priv public dh1 dh2 dh3 ek m (hk, some_priv, e, _) on h1 h2 h3 =
      let (w1, run) = raw_dh_run lib p k ek m hk on in
      let (w2, derived) =
        derive_run lib h dh1 dh2 dh3 _ (record m { world = w1 }) h1 h2 h3
          (inr (p.length-dh k ek hk on)) in
      (
        w2,
        rw (not_empty priv some_priv) (
            step (import_private lib priv) m _ (import_run priv k m e) (
              step (compute_raw_dh lib k _) m _ run (
                derived
                ∙ ap
                    (λ (t : Bytes). (
                      returns (session_keys lib h (x3dh_ikm dh1 dh2 dh3 t)),
                      record m { world = w2 },
                    ))
                    (p.dh_comm k ek hk on)))),
      )

-- Alice with her identity key; Bob with his identity key, his signed prekey and perhaps a one-time
-- prekey; and the DER forms in which the private halves are stored.
module _ {World : Type 0} (lib : PkeyLib World) (p : IsP256 lib) (h : IsHkdf lib)
    (ik_a ik_b spk_b : lib.Pkey) (opk_b : Option lib.Pkey)
    (ik_a_priv ik_b_priv spk_b_priv opk_b_priv opk_b_pub : Bytes) (on_a : p.OnCurve ik_a)
    (on_b : p.OnCurve ik_b) (on_spk : p.OnCurve spk_b)
    (a_stored : lib.d2i_private ik_a_priv ≡ some ik_a)
    (b_stored : lib.d2i_private ik_b_priv ≡ some ik_b)
    (spk_stored : lib.d2i_private spk_b_priv ≡ some spk_b)
    (one_time : HasOneTime lib p h opk_b opk_b_priv opk_b_pub) where
  open p use {OnCurve, public_of, dh}

  abbrev pub agreed : lib.Pkey → SessionKeys
  agreed ek = session_keys lib h (
      x3dh_ikm (dh ik_a (public_of spk_b)) (dh ek (public_of ik_b)) (dh ek (public_of spk_b))
        (one_time_secret lib p h opk_b ek))

  pub initiator_run :
      (m : Machine World)
      → (ek : lib.Pkey) × (w : World) × OnCurve ek
        × (x3dh_initiator lib ik_a_priv (public_der lib p ik_b) (public_der lib p spk_b) opk_b_pub m
            ≡ (
              returns (record {
                k_enc = (agreed ek).k_enc;
                k_auth = (agreed ek).k_auth;
                ek_pub = public_der lib p ek;
              }),
              record m { world = w },
            ))
  unfolding x3dh_initiator
  initiator_run m =
      let (ek, w0, on, drawn) = generate_run lib p m in
      let m0 : Machine World = record m { world = w0 } in
      let (w1, dh1) = raw_dh_run lib p ik_a spk_b m0 on_a on_spk in
      let m1 : Machine World = record m { world = w1 } in
      let (w2, dh2) = raw_dh_run lib p ek ik_b m1 on on_b in
      let m2 : Machine World = record m { world = w2 } in
      let (w3, dh3) = raw_dh_run lib p ek spk_b m2 on on_spk in
      let m3 : Machine World = record m { world = w3 } in
      let (w4, keys) =
        initiator_keys_run lib p h opk_b opk_b_priv opk_b_pub _ _ _ ek m3 one_time on
          (p.length-dh ik_a spk_b on_a on_spk) (p.length-dh ek ik_b on on_b)
          (p.length-dh ek spk_b on on_spk) in
      let m4 : Machine World = record m { world = w4 } in
      (
        ek,
        w4,
        on,
        step (import_private lib ik_a_priv) m _ (import_run lib p h ik_a_priv ik_a m a_stored) (
            step (generate lib) m _ drawn (
              step (compute_raw_dh lib ik_a _) m0 _ dh1 (
                step (compute_raw_dh lib ek _) m1 _ dh2 (
                  step (compute_raw_dh lib ek _) m2 _ dh3 (
                    step (initiator_keys lib ek _ _ _ _) m3 _ keys
                      (step (export_public_key lib ek) m4 _ (export_run lib p ek m4 on) refl)))))),
      )

  pub responder_run :
      (ek : lib.Pkey) (m : Machine World)
      → OnCurve ek
      → (w : World) × (x3dh_responder lib ik_b_priv spk_b_priv
            (public_der lib p ik_a)
            (public_der lib p ek)
            opk_b_priv
            m
          ≡ (returns (agreed ek), record m { world = w }))
  unfolding x3dh_responder
  responder_run ek m on =
      let (w1, dh1) = raw_dh_run lib p spk_b ik_a m on_spk on_a in
      let m1 : Machine World = record m { world = w1 } in
      let (w2, dh2) = raw_dh_run lib p ik_b ek m1 on_b on in
      let m2 : Machine World = record m { world = w2 } in
      let (w3, dh3) = raw_dh_run lib p spk_b ek m2 on_spk on in
      let m3 : Machine World = record m { world = w3 } in
      let (w4, keys) =
        responder_keys_run lib p h opk_b opk_b_priv opk_b_pub _ _ _ ek m3 one_time on
          (p.length-dh spk_b ik_a on_spk on_a) (p.length-dh ik_b ek on_b on)
          (p.length-dh spk_b ek on_spk on) in
      (
        w4,
        step (import_private lib ik_b_priv) m _ (import_run lib p h ik_b_priv ik_b m b_stored) (
            step (import_private lib spk_b_priv) m _
              (import_run lib p h spk_b_priv spk_b m spk_stored)
              (step (compute_raw_dh lib spk_b _) m _ dh1 (
                step (compute_raw_dh lib ik_b _) m1 _ dh2 (
                  step (compute_raw_dh lib spk_b _) m2 _ dh3 (
                    keys ∙ λ i. (
                      returns (
                          session_keys lib h (
                            x3dh_ikm (p.dh_comm spk_b ik_a on_spk on_a i)
                              (p.dh_comm ik_b ek on_b on i) (p.dh_comm spk_b ek on_spk on i)
                              (one_time_secret lib p h opk_b ek))),
                      record m { world = w4 },
                    )))))),
      )

  -- With keys on P-256 and a library in working order, whatever state it is in on either side: the
  -- initiator returns two keys and an ephemeral public key, and the responder, given that public key,
  -- returns the same two keys, both with a one-time prekey and without.
  pub x3dh_agreement :
      (m n : Machine World)
      → (r : InitiatorResult) × (w : World) × (v : World) × (x3dh_initiator lib ik_a_priv
            (public_der lib p ik_b)
            (public_der lib p spk_b)
            opk_b_pub
            m
          ≡ (returns r, record m { world = w }))
        × (x3dh_responder lib ik_b_priv spk_b_priv (public_der lib p ik_a) r.ek_pub opk_b_priv n
            ≡ (returns (record { k_enc = r.k_enc; k_auth = r.k_auth }), record n { world = v }))
  x3dh_agreement m n =
      let (ek, w, on, started) = initiator_run m in
      let (v, answered) = responder_run ek n on in (_, w, v, started, answered)
