-- ===== src/Cryptor/Contexts.antt =====
-- The cipher contexts and the buffers of Cryptor.cpp, on every way through it.
use lib_crypt_safe_messenger.Common.{
  ap, inl, inr, Bool-cases, le_of_ltb-false, refl, Option, none, some, ℕ, suc, ◌+◌, ◌-◌, ◌≤◌, ◌≡◌,
  ◌≢◌, String, Bytes, length, take, drop, replicate, ℤ, to_int, to_int-le, length-drop,
  length-replicate, arith, ltb, ◌==◌, eq_of_==,
}
use lib_crypt_safe_messenger.Common.Memory.{
  length-splice, read_at, read_at_within, splice, write_at, write_at_within,
}
use lib_crypt_safe_messenger.Common.Proc.{faults, Proc, ◌>>=◌, ◌>>◌, return, and_then}
use lib_crypt_safe_messenger.OpenSsl.Cipher.{CipherLib, WritesWithin}
use lib_crypt_safe_messenger.Cryptor.{
  made_context, fresh_nonce, new_context, or_free, free_context, encrypt, open_sealed, decrypt,
  new_cryptor,
}
use lib_crypt_safe_messenger.Cryptor.Buffers.{blank, headed, filled, finished, layout_fits}

module _ {World : Type 0} where
  -- Started with `a` contexts alive, the code ends with `b`, and with no undefined behaviour.
  abbrev pub Settles : {A : Type 0} → ℕ → ℕ → Proc World A → Type 0
  Settles a b p =
      (w : World) → let r = p (record { world = w; live = a }) in (r.0 ≢ faults) × (r.1.live ≡ b)

  write_at-Settles :
      {A : Type 0} (off : ℕ) (src buf : Bytes) (f : Bytes → Proc World A) (a b : ℕ)
      → off + length src ≤ length buf
      → Settles a b (f (splice off src buf))
      → Settles a b (write_at off src buf >>= f)
  write_at-Settles off src buf f a b h rest w = rw (write_at_within _ off src buf h) (rest w)

  read_at-Settles :
      {A : Type 0} (off n : ℕ) (buf : Bytes) (f : Bytes → Proc World A) (a b : ℕ)
      → off + n ≤ length buf
      → Settles a b (f (take n (drop off buf)))
      → Settles a b (read_at off n buf >>= f)
  read_at-Settles off n buf f a b h rest w = rw (read_at_within _ off n buf h) (rest w)

module _ {World : Type 0} (lib : CipherLib World) where
  fresh_nonce-Settles :
      {A : Type 0} (f : Bytes → Proc World A) (a : ℕ)
      → WritesWithin lib
      → ((nonce : Bytes) → length nonce ≡ 12 → Settles a a (f nonce))
      → Settles a a (fresh_nonce lib >>= f)
  unfolding fresh_nonce
  fresh_nonce-Settles f a within rest w =
      let nonce = (lib.rand_bytes 12 w).0.1 in
      ground (
        arith,
        within.rand_length 12 w,
        rest nonce (within.rand_length 12 w) (lib.rand_bytes 12 w).1,
      )

  made_context-Settles :
      {A : Type 0} (f : lib.Ctx → Proc World A) (a : ℕ) (r : Option lib.Ctx × World)
      → ((c : lib.Ctx) → Settles (suc a) a (f c))
      → let q = and_then (made_context lib a r) f in (q.0 ≢ faults) × (q.1.live ≡ a)
  made_context-Settles f a (none, w) rest = ground arith
  made_context-Settles f a (some c, w) rest = rest c w

  new_context-Settles :
      {A : Type 0} (f : lib.Ctx → Proc World A) (a : ℕ)
      → ((c : lib.Ctx) → Settles (suc a) a (f c))
      → Settles a a (new_context lib >>= f)
  unfolding new_context
  new_context-Settles f a rest w = made_context-Settles f a (lib.ctx_new w) rest

  or_free-Settles :
      {A B : Type 0} (c : lib.Ctx) (x : ℤ × A) (what : String) (f : A → Proc World B) (a : ℕ)
      → Settles (suc a) a (f x.1)
      → Settles (suc a) a (or_free lib c x what >>= f)
  unfolding or_free free_context
  or_free-Settles c (rc, v) what f a rest w = ground (arith, rest w)

  free_context-Settles :
      {A : Type 0} (c : lib.Ctx) (v : A) (a : ℕ)
      → Settles (suc a) a (free_context lib c >> return v)
  unfolding free_context
  free_context-Settles c v a w = ground arith

  encrypt_keyed-Settles :
      (key text : Bytes) (live : ℕ)
      → length key ≡ 32
      → WritesWithin lib
      → Settles live live (encrypt lib key text)
  unfolding encrypt
  encrypt_keyed-Settles key text live hk within =
      let n = length text in
      let inl = to_int n in
      fresh_nonce-Settles _ live within λ nonce hn. new_context-Settles _ live λ c.
        let c1 = (lib.encrypt_init c key nonce).1 in
        let (out, c2) = (lib.encrypt_update c1 text inl).1 in
        let (fin, c3) = (lib.encrypt_final c2).1 in
        let tag = (lib.get_tag c3 16).1 in
        let out_fits : length out ≤ n =
          omega (arith, within.encrypt_within c1 text inl, to_int-le n) in
        let (w1, w2, w3, w4) =
          layout_fits n nonce out fin tag hn out_fits (within.encrypt_final_empty c2)
            (within.tag_length c3 16) in
        write_at-Settles 0 nonce (blank n) _ (suc live) live w1 (
          read_at-Settles 0 32 key _ (suc live) live (omega (arith, hk)) (
            or_free-Settles c _ _ _ live (
              read_at-Settles 0 _ text _ (suc live) live (omega (arith, to_int-le n)) (
                or_free-Settles c1 _ _ _ live (
                  write_at-Settles 12 out (headed n nonce) _ (suc live) live w2 (
                    or_free-Settles c2 _ _ _ live (
                      write_at-Settles (12 + length out) fin (filled n nonce out) _ (suc live) live
                        w3
                        (or_free-Settles c3 _ _ _ live (
                          write_at-Settles _ tag (finished n nonce out fin) _ (suc live) live w4
                            (free_context-Settles c3 _ live))))))))))

  open_sealed-Settles :
      (key sealed : Bytes) (live : ℕ)
      → length key ≡ 32
      → WritesWithin lib
      → 28 ≤ length sealed
      → Settles live live (open_sealed lib key sealed)
  unfolding open_sealed
  open_sealed-Settles key sealed live hk within long =
      let cipher_len : ℕ = length sealed - 12 - 16 in
      let ciphertext = drop 12 sealed in
      let inl = to_int cipher_len in
      let blank : Bytes = replicate cipher_len 0 in
      let nonce = take 12 sealed in
      let tag = take 16 (drop (12 + cipher_len) sealed) in
      read_at-Settles (12 + cipher_len) 16 sealed _ live live (omega arith) (
        new_context-Settles _ live λ c.
          let c1 = (lib.decrypt_init c key nonce).1 in
          let c2 = (lib.set_tag c1 tag).1 in
          let (out, c3) = (lib.decrypt_update c2 ciphertext inl).1 in
          let (fin, c4) = (lib.decrypt_final c3).1 in
          let filled = splice 0 out blank in
          let len : length blank ≡ cipher_len = length-replicate cipher_len 0 in
          let h_out : length out ≤ cipher_len =
            omega (arith, within.decrypt_within c2 ciphertext inl, to_int-le cipher_len) in
          let h_fin : length fin ≡ 0 = ap length (within.decrypt_final_empty c3) in
          let h1 : length filled ≡ length blank =
            length-splice 0 out blank (omega (arith, len, h_out)) in
          read_at-Settles 0 12 sealed _ (suc live) live (omega arith) (
            read_at-Settles 0 32 key _ (suc live) live (omega (arith, hk)) (
              or_free-Settles c _ _ _ live (
                or_free-Settles c1 _ _ _ live (
                  read_at-Settles 0 _ ciphertext _ (suc live) live
                    (omega (arith, to_int-le cipher_len, length-drop 12 sealed))
                    (or_free-Settles c2 _ _ _ live (
                      write_at-Settles 0 out blank _ (suc live) live (omega (arith, len, h_out)) (
                        or_free-Settles c3 _ _ _ live (
                          write_at-Settles (length out) fin filled _ (suc live) live
                            (omega (arith, len, h1, h_out, h_fin))
                            (free_context-Settles c4 _ live))))))))))

  decrypt_keyed-Settles :
      (key sealed : Bytes) (live : ℕ)
      → length key ≡ 32
      → WritesWithin lib
      → Settles live live (decrypt lib key sealed)
  unfolding decrypt
  decrypt_keyed-Settles key sealed live hk within w = elim (Bool-cases (ltb (length sealed) 28)) [
    | inl short ↦ rw short ((λ e. cc), refl)
    | inr long ↦
        rw long (open_sealed-Settles key sealed live hk within (le_of_ltb-false _ _ long) w)
  ]

  -- The constructor lets no other key through than one of 32 bytes.
  new_cryptor-Settles :
      {A : Type 0} (key : Bytes) (f : Bytes → Proc World A) (live : ℕ)
      → (length key ≡ 32 → Settles live live (f key))
      → Settles live live (new_cryptor key >>= f)
  unfolding new_cryptor
  new_cryptor-Settles key f live rest w = elim (Bool-cases (length key == 32)) [
    | inl good ↦ rw good (rest (eq_of_== _ _ good) w)
    | inr bad ↦ rw bad ((λ e. cc e), refl)
  ]

  -- A cryptor made of any key, whatever its length, and `encrypt` on it, with a library that keeps to the
  -- buffers: no read or write is out of bounds, those of the 32 bytes of the key included, and whether it
  -- returns or throws there are as many cipher contexts alive afterwards as before.
  pub encrypt-Settles :
      (key text : Bytes) (live : ℕ)
      → WritesWithin lib
      → Settles live live (new_cryptor key >>= λ c. encrypt lib c text)
  encrypt-Settles key text live within =
      new_cryptor-Settles key (λ c. encrypt lib c text) live
        (λ hk. encrypt_keyed-Settles key text live hk within)

  -- The same of a cryptor made of any key and `decrypt` on it, on any input, a forged or a truncated one
  -- included.
  pub decrypt-Settles :
      (key sealed : Bytes) (live : ℕ)
      → WritesWithin lib
      → Settles live live (new_cryptor key >>= λ c. decrypt lib c sealed)
  decrypt-Settles key sealed live within =
      new_cryptor-Settles key (λ c. decrypt lib c sealed) live
        (λ hk. decrypt_keyed-Settles key sealed live hk within)
