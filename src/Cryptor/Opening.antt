-- ===== src/Cryptor/Opening.antt =====
-- What `decrypt` reads and what it refuses.
use lib_crypt_safe_messenger.Common.{
  ℕ, ◌+◌, ◌-◌, ◌≤◌, ◌<◌, ◌^◌, ◌≡◌, ◌≢◌, ◌↔◌, [], ap, ◌∙◌, String, Bytes, length, take, drop,
  replicate, pos, pos_part, to_int, to_int-le, to_int_small, length-take, length-replicate,
  length-drop, arith, ltb-false, lt→ltb,
}
use lib_crypt_safe_messenger.Common.Memory.{
  length-splice, read_at, read_at_within, splice, write_at, write_at_within,
}
use lib_crypt_safe_messenger.Common.Proc.{
  step, step_throws, returns, throws, runtime_error, Machine, Proc, ◌>>=◌, ◌>>◌, return,
}
use lib_crypt_safe_messenger.OpenSsl.Cipher.{CipherLib, WritesWithin, IsGcm, IsWorking}
use lib_crypt_safe_messenger.Cryptor.{
  new_context, or_free, free_context, open_sealed, decrypt, resize,
}
use lib_crypt_safe_messenger.Cryptor.Buffers.{opened_layout}
use lib_crypt_safe_messenger.Cryptor.Calls.{
  one, or_free_one, or_free_other, new_context_works, free_context_one,
}

-- The three parts of a sealed buffer.
abbrev pub nonce_of : Bytes → Bytes
nonce_of sealed = take 12 sealed

abbrev pub text_len : Bytes → ℕ
text_len sealed = length sealed - 12 - 16

abbrev pub text_of : Bytes → Bytes
text_of sealed = take (text_len sealed) (drop 12 sealed)

abbrev pub tag_of : Bytes → Bytes
tag_of sealed = take 16 (drop (12 + text_len sealed) sealed)

abbrev pub tampered : String
tampered = "Authentication failed — data tampered!"

module _ {World : Type 0} (lib : CipherLib World) where
  -- The end of `open_sealed`, from EVP_DecryptFinal_ex on.
  abbrev finish_open : lib.Ctx → Bytes → Bytes → Proc World Bytes
  finish_open ctx3 out filled = do
    (fin, ctx4) ← or_free lib ctx3 (lib.decrypt_final ctx3) tampered
    plain ← write_at (length out) fin filled
    free_context lib ctx4 >> return (resize (length out + length fin) plain)

  open_prefix :
      WritesWithin lib
      → (g : IsGcm lib) → IsWorking lib
      → (key sealed : Bytes) → length key ≡ 32
      → 28 ≤ length sealed
      → length sealed < 2 ^ 31
      → (m : Machine World)
      → let out = g.cipher key (nonce_of sealed) (text_of sealed) in
        (c : lib.Ctx) × (w : World) × (open_sealed lib key sealed m
          ≡ finish_open c out
              (splice 0 out (replicate (text_len sealed) 0))
              (record { world = w; live = m.live + 1 }))
        × (((lib.decrypt_final c).0 ≡ pos 1)
            ↔ (tag_of sealed ≡ g.mac key (nonce_of sealed) (text_of sealed)))
  unfolding open_sealed
  open_prefix within g works key sealed hk long small m =
      let n : ℕ = text_len sealed in
      let nonce = nonce_of sealed in
      let tag = tag_of sealed in
      let ciphertext = drop 12 sealed in
      let (c, w, made) = new_context_works lib works m in
      let m1 : Machine World = record { world = w; live = m.live + 1 } in
      let inl = to_int n in
      let n_small : n < 2 ^ 31 = omega arith in
      let e_inl : inl ≡ pos n = to_int_small n n_small in
      let c1 = (lib.decrypt_init c key nonce).1 in
      let c2 = (lib.set_tag c1 tag).1 in
      let (out, c3) = (lib.decrypt_update c2 ciphertext inl).1 in
      let i_ok = works.decrypt_init_works c key nonce hk (omega (arith, length-take 12 sealed)) in
      let t_ok =
        works.set_tag_works c1 tag
          (omega (arith, length-take 16 (drop (12 + n) sealed), length-drop (12 + n) sealed)) in
      let u_ok : (lib.decrypt_update c2 ciphertext inl).0 ≡ pos 1 =
        rw e_inl (works.decrypt_update_works c2 ciphertext n n_small) in
      let (e_out, authentic) =
        g.opening c c1 c2 c3 key nonce ciphertext out tag n (one _ i_ok) (one _ t_ok)
          (rw (← e_inl) (one _ u_ok)) in
      (
        c3,
        w,
        step (read_at (12 + n) 16 sealed) m _ (read_at_within m (12 + n) 16 sealed (omega arith)) (
            step (new_context lib) m _ made (
              step (read_at 0 12 sealed) m1 _ (read_at_within m1 0 12 sealed (omega arith)) (
                step (read_at 0 32 key) m1 _ (read_at_within m1 0 32 key (omega (arith, hk))) (
                  step (or_free lib c _ _) m1 _ (or_free_one lib c _ _ m1 i_ok) (
                    step (or_free lib c1 _ _) m1 _ (or_free_one lib c1 _ _ m1 t_ok) (
                      step (read_at 0 (pos_part inl) ciphertext) m1 _
                        (read_at_within m1 0 _ ciphertext
                          (omega (arith, to_int-le n, length-drop 12 sealed)))
                        (step (or_free lib c2 _ _) m1 _ (or_free_one lib c2 _ _ m1 u_ok) (
                          step (write_at 0 out (replicate n 0)) m1 _
                            (write_at_within m1 0 out (replicate n 0) (
                              omega (
                                arith,
                                within.decrypt_within c2 ciphertext inl,
                                to_int-le n,
                                length-replicate {A = ℕ} n 0,
                              )))
                            (ap (λ (o : Bytes). finish_open c3 o (splice 0 o (replicate n 0)) m1)
                              e_out))))))))),
        authentic,
      )

  -- `decrypt` on an input long enough: with a good tag it returns the text, with any other it throws.
  open_authentic :
      WritesWithin lib
      → (g : IsGcm lib) → IsWorking lib
      → (key sealed : Bytes) → length key ≡ 32
      → 28 ≤ length sealed
      → length sealed < 2 ^ 31
      → tag_of sealed ≡ g.mac key (nonce_of sealed) (text_of sealed)
      → (m : Machine World)
      → (w : World) × (open_sealed lib key sealed m ≡ (
        returns (g.cipher key (nonce_of sealed) (text_of sealed)),
        record { world = w; live = m.live },
      ))
  open_authentic within g works key sealed hk long small good m =
      let n : ℕ = text_len sealed in
      let out = g.cipher key (nonce_of sealed) (text_of sealed) in
      let (c, w, run, authentic) = open_prefix within g works key sealed hk long small m in
      let m1 : Machine World = record { world = w; live = m.live + 1 } in
      let (fin, c4) = (lib.decrypt_final c).1 in
      let no_fin : fin ≡ [] = within.decrypt_final_empty c in
      let len : length out ≡ n = omega (
        arith,
        g.length-cipher key (nonce_of sealed) (text_of sealed),
        length-take n (drop 12 sealed),
        length-drop 12 sealed,
      ) in
      let opened : Bytes = splice 0 out (replicate n 0) in
      let fits : length out + length fin ≤ length opened = omega (
        arith,
        ap length no_fin,
        length-replicate {A = ℕ} n 0,
        length-splice 0 out (replicate n 0) (omega (arith, length-replicate {A = ℕ} n 0)),
      ) in
      (
        lib.ctx_free c4 w,
        run
            ∙ step (or_free lib c _ _) m1 _ (or_free_one lib c _ _ m1 (authentic.1 good)) (
                step (write_at (length out) fin opened) m1 _ (write_at_within m1 _ fin opened fits)
                  (step (free_context lib c4) m1 _ (free_context_one lib c4 w m.live) (
                    ap
                      (λ (b : Bytes).
                        (returns b, record { world = lib.ctx_free c4 w; live = m.live }))
                      (opened_layout n out fin len no_fin)))),
      )

  open_forged :
      WritesWithin lib
      → (g : IsGcm lib) → IsWorking lib
      → (key sealed : Bytes) → length key ≡ 32
      → 28 ≤ length sealed
      → length sealed < 2 ^ 31
      → tag_of sealed ≢ g.mac key (nonce_of sealed) (text_of sealed)
      → (m : Machine World)
      → (w : World) × (open_sealed lib key sealed m
          ≡ (throws (runtime_error tampered), record { world = w; live = m.live }))
  open_forged within g works key sealed hk long small bad m =
      let (c, w, run, authentic) = open_prefix within g works key sealed hk long small m in
      (
        lib.ctx_free c w,
        run
            ∙ step_throws (or_free lib c _ _) _ _
                (or_free_other lib c _ _ w m.live (λ e. bad (authentic.0 e))),
      )

  -- Under the assumptions on the library, with a key of 32 bytes: an input of less than 28 bytes is
  -- refused with no call of the library; a longer one, up to 2 GB, is decrypted where its last 16
  -- bytes are the tag of what lies between them and the nonce, and refused as tampered with otherwise.
  pub decrypt_verdict :
      WritesWithin lib
      → (g : IsGcm lib) → IsWorking lib
      → (key sealed : Bytes) → length key ≡ 32
      → length sealed < 2 ^ 31
      → (m : Machine World)
      → (length sealed < 28
          → decrypt lib key sealed m ≡ (throws (runtime_error "Data too short"), m))
        × (28 ≤ length sealed
            → tag_of sealed ≡ g.mac key (nonce_of sealed) (text_of sealed)
            → (w : World) × (decrypt lib key sealed m ≡ (
              returns (g.cipher key (nonce_of sealed) (text_of sealed)),
              record { world = w; live = m.live },
            )))
        × (28 ≤ length sealed
            → tag_of sealed ≢ g.mac key (nonce_of sealed) (text_of sealed)
            → (w : World) × (decrypt lib key sealed m
                ≡ (throws (runtime_error tampered), record { world = w; live = m.live })))
  unfolding decrypt
  decrypt_verdict within g works key sealed hk small m = (
    (λ short. rw (lt→ltb _ _ short)),
    (λ long good.
        rw (ltb-false _ _ long) (open_authentic within g works key sealed hk long small good m)),
    (λ long bad.
        rw (ltb-false _ _ long) (open_forged within g works key sealed hk long small bad m)),
  )
