-- ===== src/OpenSsl/Sample.antt =====
-- A small library that meets the assumptions on OpenSSL, for tests: the key stream reverses, a tag
-- repeats a sum, and the world counts the calls of the random generator.
use lib_crypt_safe_messenger.Common.{
  ℕ, ◌+◌, ◌≡◌, ◌≤◌, [], ◌∷◌, some, Bytes, length, take, replicate, ℤ, pos, pos_part, bytes_eq,
  bytes_eq→eq, bytes_eq_refl, length-replicate, length-reverse, length-take, arith, refl, sym,
  reverse, Bool, true, false, ap, ◌∙◌,
}
use lib_crypt_safe_messenger.OpenSsl.Cipher.{CipherLib, WritesWithin, IsGcm, IsWorking}
use mathlib.Core.List.{reverse-reverse}

pub record SampleCtx : Type 0 where
  pub key : Bytes
  pub nonce : Bytes
  pub text : Bytes
  pub tag : Bytes

abbrev pub sum : Bytes → ℕ
sum [] = 0
sum (x ∷ xs) = x + sum xs

unfoldable pub sample_mac : Bytes → Bytes → Bytes → ℕ → Bytes
sample_mac k n c len = replicate len (sum k + sum n + sum c)

length-sample_mac : (k n c : Bytes) (len : ℕ) → length (sample_mac k n c len) ≡ len
unfolding sample_mac
length-sample_mac k n c len = length-replicate len _

abbrev pub sample_verify : Bool → ℤ
sample_verify true = pos 1
sample_verify false = pos 0

pub verified : (b : Bool) → sample_verify b ≡ pos 1 → b ≡ true
verified true h = refl
verified false h = cc

pub matching : (xs ys : Bytes) → xs ≡ ys → bytes_eq xs ys ≡ true
matching xs ys e = ap (bytes_eq xs) (sym e) ∙ bytes_eq_refl xs

abbrev pub sample : ℤ → CipherLib ℕ
sample rand_code = record {
  Ctx = SampleCtx;
  rand_bytes = λ n w. ((rand_code, replicate n w), w + 1);
  ctx_new = λ w. (some (record { key = []; nonce = []; text = []; tag = [] }), w);
  ctx_free = λ c w. w;
  encrypt_init = λ c k n. (pos 1, record { key = k; nonce = n; text = []; tag = [] });
  encrypt_update = λ c buf inl. (
    pos 1,
    (reverse (take (pos_part inl) buf), record c { text = reverse (take (pos_part inl) buf) }),
  );
  encrypt_final = λ c. (pos 1, ([], c));
  get_tag = λ c n. (pos 1, sample_mac c.key c.nonce c.text n);
  decrypt_init = λ c k n. (pos 1, record { key = k; nonce = n; text = []; tag = [] });
  set_tag = λ c tag. (pos 1, record c { tag = tag });
  decrypt_update = λ c buf inl.
      (pos 1, (reverse (take (pos_part inl) buf), record c { text = take (pos_part inl) buf }));
  decrypt_final =
      λ c. (sample_verify (bytes_eq c.tag (sample_mac c.key c.nonce c.text 16)), ([], c));
}

module _ (rand_code : ℤ) where
  length-reverse-take :
      (buf : Bytes) (inl : ℤ) → length (reverse (take (pos_part inl) buf)) ≤ pos_part inl
  length-reverse-take buf inl =
      omega (arith, length-reverse (take (pos_part inl) buf), length-take (pos_part inl) buf)

  pub sample-WritesWithin : WritesWithin (sample rand_code)
  sample-WritesWithin = record {
    rand_length = λ n w. length-replicate n w;
    encrypt_within = λ c buf inl. length-reverse-take buf inl;
    encrypt_final_empty = λ c. refl;
    tag_length = λ c n. length-sample_mac c.key c.nonce c.text n;
    decrypt_within = λ c buf inl. length-reverse-take buf inl;
    decrypt_final_empty = λ c. refl;
  }

  pub sample-IsWorking : IsWorking (sample rand_code)
  sample-IsWorking = record {
    new_works = λ w. (_, refl);
    encrypt_init_works = λ c k n hk hn. refl;
    encrypt_update_works = λ c buf m h. refl;
    encrypt_final_works = λ c. refl;
    get_tag_works = λ c. refl;
    decrypt_init_works = λ c k n hk hn. refl;
    set_tag_works = λ c tag h. refl;
    decrypt_update_works = λ c buf m h. refl;
  }

  opened :
      (c1 c2 c3 : SampleCtx) (k n buf out tag : Bytes) (m : ℕ)
      → ◌≡◌ {A = ℤ × SampleCtx}
          (pos 1, record { key = k; nonce = n; text = []; tag = [] })
          (pos 1, c1)
      → ◌≡◌ {A = ℤ × SampleCtx} (pos 1, record c1 { tag = tag }) (pos 1, c2)
      → ◌≡◌ {A = ℤ × (Bytes × SampleCtx)}
          (pos 1, (reverse (take m buf), record c2 { text = take m buf }))
          (pos 1, (out, c3))
      → bytes_eq c3.tag (sample_mac c3.key c3.nonce c3.text 16)
        ≡ bytes_eq tag (sample_mac k n (take m buf) 16)
  opened c1 c2 c3 k n buf out tag m e1 e2 e3 = ground arith

  pub sample-IsGcm : IsGcm (sample rand_code)
  sample-IsGcm = record {
    cipher = λ k n t. reverse t;
    mac = λ k n c. sample_mac k n c 16;
    length-cipher = λ k n t. length-reverse t;
    length-mac = λ k n c. length-sample_mac k n c 16;
    cipher-cipher = λ k n t. reverse-reverse t;
    sealing = λ c c1 c2 c3 k n buf out fin tag m e1 e2 e3 e4. (cc, cc);
    opening = λ c c1 c2 c3 k n buf out tag m e1 e2 e3.
        let same = opened c1 c2 c3 k n buf out tag m e1 e2 e3 in
        (
          cc,
          (
            (λ good. bytes_eq→eq tag _ (sym same ∙ verified _ good)),
            (λ good. ap sample_verify (same ∙ matching tag (sample_mac k n (take m buf) 16) good)),
          ),
        );
  }
