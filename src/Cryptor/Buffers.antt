-- ===== src/Cryptor/Buffers.antt =====
-- The reads and writes of Cryptor.cpp within a buffer.
use lib_crypt_safe_messenger.Common.{
  take_all, length-replicate, ℕ, [], ap, sym, ◌∙◌, append_assoc, append-nil, replicate,
  replicate-add, ◌+◌, ◌-◌, ◌≤◌, ◌≡◌, ◌++◌, Bytes, length, length-append, arith, refl,
}
use lib_crypt_safe_messenger.Common.Memory.{splice, length-splice, splice_middle, splice_nothing}
use lib_crypt_safe_messenger.Cryptor.{resize}

-- The buffer of `encrypt` for `n` bytes of text, at first and after each write but the last.
abbrev pub blank : ℕ → Bytes
blank n = replicate (12 + n + 16) 0

abbrev pub headed : ℕ → Bytes → Bytes
headed n nonce = splice 0 nonce (blank n)

abbrev pub filled : ℕ → Bytes → Bytes → Bytes
filled n nonce out = splice 12 out (headed n nonce)

abbrev pub finished : ℕ → Bytes → Bytes → Bytes → Bytes
finished n nonce out fin = splice (12 + length out) fin (filled n nonce out)

-- All four writes of `encrypt` are within its buffer.
pub layout_fits :
    (n : ℕ) (nonce out fin tag : Bytes)
    → length nonce ≡ 12
    → length out ≤ n
    → fin ≡ []
    → length tag ≡ 16
    → (0 + length nonce ≤ length (blank n))
      × (12 + length out ≤ length (headed n nonce))
      × (12 + length out + length fin ≤ length (filled n nonce out))
      × (12 + length out + length fin + length tag ≤ length (finished n nonce out fin))
layout_fits n nonce out fin tag hn ho hf ht =
    let len : length (blank n) ≡ 12 + n + 16 = length-replicate _ 0 in
    let no_fin : length fin ≡ 0 = ap length hf in
    let w1 : 0 + length nonce ≤ length (blank n) = omega (arith, len) in
    let h1 : length (headed n nonce) ≡ length (blank n) = length-splice 0 nonce (blank n) w1 in
    let w2 : 12 + length out ≤ length (headed n nonce) = omega (arith, len) in
    let h2 : length (filled n nonce out) ≡ length (headed n nonce) =
      length-splice 12 out (headed n nonce) w2 in
    let w3 : 12 + length out + length fin ≤ length (filled n nonce out) = omega (arith, len) in
    let h3 : length (finished n nonce out fin) ≡ length (filled n nonce out) =
      length-splice (12 + length out) fin (filled n nonce out) w3 in
    (w1, w2, w3, omega (arith, len))

-- The four writes of `encrypt` fill its buffer: nonce, ciphertext, tag.
pub splice_layout :
    (nonce out tag : Bytes) (n : ℕ)
    → length nonce ≡ 12
    → length out ≡ n
    → length tag ≡ 16
    → splice (12 + length out + 0) tag (finished n nonce out []) ≡ nonce ++ (out ++ tag)
splice_layout nonce out tag n hn ho ht =
    ap
      (λ (b : Bytes).
        splice (12 + length out + 0) tag (splice (12 + length out) [] (splice 12 out b)))
      headed
    ∙ ap (λ (b : Bytes). splice (12 + length out + 0) tag (splice (12 + length out) [] b))
        (splice_middle 12 nonce (zeros n) (zeros 16) out hn
          (omega (arith, length-replicate {A = ℕ} n 0, ho)))
    ∙ ap (splice (12 + length out + 0) tag)
        (splice_nothing (12 + length out) (nonce ++ (out ++ zeros 16)))
    ∙ tagged
  where
    zeros : ℕ → Bytes
    zeros k = replicate k 0

    headed : splice 0 nonce (zeros (12 + n + 16)) ≡ nonce ++ (zeros n ++ zeros 16)
    headed =
        ap (λ (b : Bytes). splice 0 nonce b)
          (replicate-add (12 + n) 16 0
            ∙ ap (λ (t : Bytes). t ++ zeros 16) (replicate-add 12 n 0)
            ∙ append_assoc (zeros 12) (zeros n) (zeros 16))
        ∙ splice_middle 0 [] (zeros 12) (zeros n ++ zeros 16) nonce refl (omega (arith, hn))

    tagged : splice (12 + length out + 0) tag (nonce ++ (out ++ zeros 16)) ≡ nonce ++ (out ++ tag)
    tagged =
        ap (splice (12 + length out + 0) tag) (
          sym (append_assoc nonce out (zeros 16))
          ∙ ap (λ (t : Bytes). (nonce ++ out) ++ t) (sym (append-nil (zeros 16))))
        ∙ splice_middle (12 + length out + 0) (nonce ++ out) (zeros 16) [] tag
            (omega (arith, length-append nonce out, hn)) (omega (arith, ht))
        ∙ ap (λ (t : Bytes). (nonce ++ out) ++ t) (append-nil tag)
        ∙ append_assoc nonce out tag

-- The same, where the calls wrote what they should have.
pub sealed_layout :
    (n : ℕ) (nonce out fin tag out' tag' : Bytes)
    → length nonce ≡ 12
    → length out' ≡ n
    → length tag' ≡ 16
    → fin ≡ []
    → out ≡ out'
    → tag ≡ tag'
    → splice (12 + length out + length fin) tag (finished n nonce out fin) ≡ nonce ++ (out' ++ tag')
sealed_layout n nonce out fin tag out' tag' hn ho ht e_fin e_out e_tag =
    ap (λ (f : Bytes). splice (12 + length out + length f) tag (finished n nonce out f)) e_fin
    ∙ ap (λ (o : Bytes). splice (12 + length o + 0) tag (finished n nonce o [])) e_out
    ∙ ap (λ (t : Bytes). splice (12 + length out' + 0) t (finished n nonce out' [])) e_tag
    ∙ splice_layout nonce out' tag' n hn ho ht

-- What `decrypt` makes of its buffer of `n` bytes, where the calls wrote `n` and then none.
pub opened_layout :
    (n : ℕ) (out fin : Bytes)
    → length out ≡ n
    → fin ≡ []
    → resize (length out + length fin) (splice (length out) fin (splice 0 out (replicate n 0)))
      ≡ out
unfolding resize
opened_layout n out fin ho hf =
    ap
      (λ (f : Bytes).
        resize (length out + length f) (splice (length out) f (splice 0 out (replicate n 0))))
      hf
    ∙ ap (resize (length out + 0)) (
        splice_nothing (length out) (splice 0 out (replicate n 0))
        ∙ ap (splice 0 out) (sym (append-nil (replicate n 0)))
        ∙ splice_middle 0 [] (replicate n 0) [] out refl
            (omega (arith, length-replicate {A = ℕ} n 0, ho))
        ∙ append-nil out)
    ∙ ap (λ (t : Bytes). t ++ replicate (length out + 0 - length out) 0)
        (take_all (length out + 0) out (omega arith))
    ∙ ap (λ (j : ℕ). out ++ replicate j 0) no_more
    ∙ append-nil out
  where
    no_more : length out + 0 - length out ≡ 0
    no_more = omega arith
