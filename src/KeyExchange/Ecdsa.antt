-- ===== src/KeyExchange/Ecdsa.antt =====
-- Signatures of KeyExchange.hpp: `verify_signature` against `channel_sign`.
use lib_crypt_safe_messenger.Common.{◌≡◌, ◌↔◌, ◌∙◌, Bool, true, some, Bytes, ℤ, pos, is_code, arith}
use lib_crypt_safe_messenger.Common.Proc.{Machine, returns}
use lib_crypt_safe_messenger.OpenSsl.Pkey.{PkeyLib}
use lib_crypt_safe_messenger.OpenSsl.Curve.{IsP256, IsEcdsa}
use lib_crypt_safe_messenger.KeyExchange.Signatures.{verify_signature, channel_sign}
use lib_crypt_safe_messenger.KeyExchange.Steps.{public_der, parse-public_der}

is_one_iff : (rc : ℤ) → (is_code 1 rc ≡ true) ↔ (rc ≡ pos 1)
is_one_iff rc = ground arith

module _ {World : Type 0} (lib : PkeyLib World) (p : IsP256 lib) (s : IsEcdsa lib p) where
  -- With a key on P-256 and a working library, `verify_signature` returns, and the answer is true
  -- exactly if the signature is good.
  pub verify_iff :
      (k : lib.Pkey) (message sig : Bytes) (m : Machine World)
      → p.OnCurve k
      → (answer : Bool) × (w : World) × (verify_signature lib (public_der lib p k) message sig m
          ≡ (returns answer, record m { world = w }))
        × ((answer ≡ true) ↔ s.IsGood (p.public_of k) message sig)
  unfolding verify_signature
  verify_iff k message sig m on =
      let v = s.verifies k message m.world on in
      let parsed = parse-public_der lib p k on in
      let final = s.final_iff (p.public_of k) message sig v.ctx v.ctx1 v.ctx2 v.init v.update in
      let answer = is_code 1 (lib.verify_final v.ctx2 sig) in
      let code = is_one_iff (lib.verify_final v.ctx2 sig) in
      (
        answer,
        lib.md_ctx_free v.ctx v.made_world,
        ground arith,
        ((λ e. final.0 (code.0 e)), (λ good. code.1 (final.1 good))),
      )

  -- A post that `channel_sign` signed with a stored key is accepted by `verify_signature` under the
  -- public key, in any later state of the library.
  pub verify-channel_sign :
      (k : lib.Pkey) (priv message : Bytes) (m : Machine World)
      → p.OnCurve k
      → lib.d2i_private priv ≡ some k
      → (sig : Bytes) × (w : World) × (channel_sign lib priv message m
          ≡ (returns sig, record m { world = w }))
        × ((n : Machine World)
            → (v : World) × (verify_signature lib (public_der lib p k) message sig n
                ≡ (returns true, record n { world = v })))
  unfolding channel_sign
  verify-channel_sign k priv message m on stored =
      let x = s.signs k message m.world on in
      (
        s.signature k message m.world,
        lib.md_ctx_free x.ctx x.made_world,
        ground arith,
        λ n.
            let (answer, v, run, iff) = verify_iff k message (s.signature k message m.world) n on in
            (
              v,
              run ∙ λ i. (returns (iff.1 (s.good k message m.world on) i), record n { world = v }),
            ),
      )
