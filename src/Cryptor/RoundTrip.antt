-- ===== src/Cryptor/RoundTrip.antt =====
-- What `encrypt` writes and `decrypt` reads back, and what `decrypt` refuses.
use lib_crypt_safe_messenger.Common.{
  negsuc, sym, drop, length-append, append_assoc, drop-append_exact, take-append_exact, ap, ◌∙◌,
  take, take_all, ◌≤◌, [], to_int-le, pos_part, ℕ, ◌+◌, ◌<◌, ◌^◌, ◌≡◌, ◌≢◌, Bytes, length, ◌++◌,
  pos, to_int, to_int_small, arith,
}
use lib_crypt_safe_messenger.Common.Memory.{read_at, read_at_within, write_at, write_at_within}
use lib_crypt_safe_messenger.Common.Proc.{
  step, step_throws, returns, throws, runtime_error, Machine,
}
use lib_crypt_safe_messenger.OpenSsl.Cipher.{CipherLib, WritesWithin, IsGcm, IsWorking}
use lib_crypt_safe_messenger.Cryptor.{
  fresh_nonce, new_context, or_free, free_context, encrypt, decrypt,
}
use lib_crypt_safe_messenger.Cryptor.Buffers.{
  sealed_layout, blank, headed, filled, finished, layout_fits,
}
use lib_crypt_safe_messenger.Cryptor.Opening.{nonce_of, text_len, text_of, tag_of, decrypt_verdict}
use lib_crypt_safe_messenger.Cryptor.Calls.{
  one, or_free_one, fresh_nonce_works, fresh_nonce_fails, new_context_works, free_context_one,
}

text_len_sealed :
    (nonce ct tag : Bytes)
    → length nonce ≡ 12
    → length tag ≡ 16
    → text_len (nonce ++ (ct ++ tag)) ≡ length ct
text_len_sealed nonce ct tag hn ht =
    omega (arith, length-append nonce (ct ++ tag), length-append ct tag)

-- The parts of a buffer that was put together of a nonce, a ciphertext and a tag.
parts_sealed :
    (nonce ct tag : Bytes)
    → length nonce ≡ 12
    → length tag ≡ 16
    → let sealed = nonce ++ (ct ++ tag) in
      (nonce_of sealed ≡ nonce) × (text_of sealed ≡ ct) × (tag_of sealed ≡ tag)
parts_sealed nonce ct tag hn ht =
    let sealed : Bytes = nonce ++ (ct ++ tag) in
    let len : text_len sealed ≡ length ct = text_len_sealed nonce ct tag hn ht in
    let past : drop 12 sealed ≡ ct ++ tag = drop-append_exact 12 nonce (ct ++ tag) hn in
    (
      take-append_exact 12 nonce (ct ++ tag) hn,
      ap (take (text_len sealed)) past ∙ take-append_exact (text_len sealed) ct tag (sym len),
      ap (λ (t : Bytes). take 16 (drop (12 + text_len sealed) t)) (sym (append_assoc nonce ct tag))
          ∙ ap (take 16) (
              drop-append_exact (12 + text_len sealed) (nonce ++ ct) tag
                (omega (arith, length-append nonce ct)))
          ∙ take_all 16 tag (omega arith),
    )

module _ {World : Type 0} (lib : CipherLib World) where
  encrypt_run :
      WritesWithin lib
      → (g : IsGcm lib) → IsWorking lib
      → (key text : Bytes) → length key ≡ 32
      → length text < 2 ^ 31
      → (m : Machine World) → (lib.rand_bytes 12 m.world).0.0 ≢ pos 0
      → let nonce = (lib.rand_bytes 12 m.world).0.1 in
        let out = g.cipher key nonce text in
        (w : World) × (encrypt lib key text m
          ≡ (returns (nonce ++ (out ++ g.mac key nonce out)), record { world = w; live = m.live }))
  unfolding encrypt
  encrypt_run within g works key text hk small m drawn =
      let n = length text in
      let nonce = (lib.rand_bytes 12 m.world).0.1 in
      let hn : length nonce ≡ 12 = within.rand_length 12 m.world in
      let m1 : Machine World = record m { world = (lib.rand_bytes 12 m.world).1 } in
      let (c, w, made) = new_context_works lib works m1 in
      let m2 : Machine World = record { world = w; live = m.live + 1 } in
      let inl = to_int n in
      let e_inl : inl ≡ pos n = to_int_small n small in
      let c1 = (lib.encrypt_init c key nonce).1 in
      let (out, c2) = (lib.encrypt_update c1 text inl).1 in
      let (fin, c3) = (lib.encrypt_final c2).1 in
      let tag = (lib.get_tag c3 16).1 in
      let i_ok = works.encrypt_init_works c key nonce hk hn in
      let u_ok : (lib.encrypt_update c1 text inl).0 ≡ pos 1 =
        rw e_inl (works.encrypt_update_works c1 text n small) in
      let f_ok = works.encrypt_final_works c2 in
      let t_ok = works.get_tag_works c3 in
      let no_fin : fin ≡ [] = within.encrypt_final_empty c2 in
      let out_fits : length out ≤ n =
        omega (arith, within.encrypt_within c1 text inl, to_int-le n) in
      let (w1, w2, w3, w4) =
        layout_fits n nonce out fin tag hn out_fits no_fin (within.tag_length c3 16) in
      let (e_out, e_tag) =
        g.sealing c c1 c2 c3 key nonce text out fin tag n (one _ i_ok) (rw (← e_inl) (one _ u_ok))
          (one _ f_ok) (one _ t_ok) in
      let e_text : take n text ≡ text = take_all n text (omega arith) in
      let e_cipher : out ≡ g.cipher key nonce text = e_out ∙ ap (g.cipher key nonce) e_text in
      let layout =
        sealed_layout n nonce out fin tag _ _ hn (g.length-cipher key nonce text)
          (g.length-mac key nonce _) no_fin e_cipher (e_tag ∙ ap (g.mac key nonce) e_cipher) in
      (
        lib.ctx_free c3 w,
        step (fresh_nonce lib) m _ (fresh_nonce_works lib m drawn) (
            step (new_context lib) m1 _ made (
              step (write_at 0 nonce (blank n)) m2 _ (write_at_within m2 0 nonce (blank n) w1) (
                step (read_at 0 32 key) m2 _ (read_at_within m2 0 32 key (omega (arith, hk))) (
                  step (or_free lib c _ _) m2 _ (or_free_one lib c _ _ m2 i_ok) (
                    step (read_at 0 (pos_part inl) text) m2 _
                      (read_at_within m2 0 _ text (omega (arith, to_int-le n)))
                      (step (or_free lib c1 _ _) m2 _ (or_free_one lib c1 _ _ m2 u_ok) (
                        step (write_at 12 out (headed n nonce)) m2 _
                          (write_at_within m2 12 out _ w2)
                          (step (or_free lib c2 _ _) m2 _ (or_free_one lib c2 _ _ m2 f_ok) (
                            step (write_at (12 + length out) fin (filled n nonce out)) m2 _
                              (write_at_within m2 (12 + length out) fin _ w3)
                              (step (or_free lib c3 _ _) m2 _ (or_free_one lib c3 _ _ m2 t_ok) (
                                step (write_at (12 + length out + length fin) tag _) m2 _
                                  (write_at_within m2 _ tag (finished n nonce out fin) w4)
                                  (step (free_context lib c3) m2 _
                                    (free_context_one lib c3 w m.live)
                                    (ap
                                      (λ (b : Bytes). (
                                        returns b,
                                        record { world = lib.ctx_free c3 w; live = m.live },
                                      ))
                                      layout))))))))))))),
      )

  -- What `encrypt` returns `decrypt` turns back into the text, in whatever state the library is by
  -- then: for a key of 32 bytes and a text of less than 2 GB, where
  -- RAND_bytes does not return 0, under the assumptions on the library.
  pub decrypt-encrypt :
      WritesWithin lib
      → IsGcm lib
      → IsWorking lib
      → (key text : Bytes) → length key ≡ 32
      → length text + 28 < 2 ^ 31
      → (m : Machine World) → (lib.rand_bytes 12 m.world).0.0 ≢ pos 0
      → (sealed : Bytes) × (w : World) × (encrypt lib key text m
          ≡ (returns sealed, record { world = w; live = m.live }))
        × (length sealed ≡ length text + 28)
        × ((n : Machine World)
            → (v : World) × (decrypt lib key sealed n
                ≡ (returns text, record { world = v; live = n.live })))
  decrypt-encrypt within g works key text hk small m drawn =
      let nonce = (lib.rand_bytes 12 m.world).0.1 in
      let hn : length nonce ≡ 12 = within.rand_length 12 m.world in
      let ct = g.cipher key nonce text in
      let tag = g.mac key nonce ct in
      let sealed : Bytes = nonce ++ (ct ++ tag) in
      let ht : length tag ≡ 16 = g.length-mac key nonce ct in
      let (w, run) = encrypt_run within g works key text hk (omega arith) m drawn in
      let (e_nonce, e_text, e_tag) = parts_sealed nonce ct tag hn ht in
      let len : length sealed ≡ length text + 28 = omega (
        arith,
        length-append nonce (ct ++ tag),
        length-append ct tag,
        g.length-cipher key nonce text,
      ) in
      let good : tag_of sealed ≡ g.mac key (nonce_of sealed) (text_of sealed) =
        e_tag ∙ rw (e_nonce, e_text) in
      let back : g.cipher key (nonce_of sealed) (text_of sealed) ≡ text =
        rw (e_nonce, e_text) (g.cipher-cipher key nonce text) in
      (
        sealed,
        w,
        run,
        len,
        λ n.
            let (v, opened) =
              (decrypt_verdict lib within g works key sealed hk (omega arith) n).1 (omega arith)
                good in
            (v, opened ∙ ap (λ (b : Bytes). (returns b, record { world = v; live = n.live })) back),
      )

  -- RAND_bytes returns -1 where the random generator does not support it, and then the nonce is not
  -- random. `encrypt` tests for 0 alone: on -1, and on any negative code, it returns a sealed buffer
  -- whose first 12 bytes are what was left in the nonce buffer; on 0 it throws, and makes no context.
  pub encrypt_rand_code :
      WritesWithin lib
      → IsGcm lib
      → IsWorking lib
      → (key text : Bytes) → length key ≡ 32
      → length text < 2 ^ 31
      → (m : Machine World)
      → ((k : ℕ)
          → (lib.rand_bytes 12 m.world).0.0 ≡ negsuc k
          → (sealed : Bytes) × (w : World) × (encrypt lib key text m
              ≡ (returns sealed, record { world = w; live = m.live }))
            × (take 12 sealed ≡ (lib.rand_bytes 12 m.world).0.1))
        × ((lib.rand_bytes 12 m.world).0.0 ≡ pos 0
            → encrypt lib key text m ≡ (
              throws (runtime_error "Failed to generate nonce"),
              record m { world = (lib.rand_bytes 12 m.world).1 },
            ))
  unfolding encrypt
  encrypt_rand_code within g works key text hk small m = (
    (λ k e.
        let nonce = (lib.rand_bytes 12 m.world).0.1 in
        let (w, run) = encrypt_run within g works key text hk small m (λ z. cc (e, z)) in
        (_, w, run, take-append_exact 12 nonce _ (within.rand_length 12 m.world))),
    (λ e. step_throws (fresh_nonce lib) m _ (fresh_nonce_fails lib m e)),
  )
