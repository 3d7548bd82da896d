-- ===== src/Cryptor/Calls.antt =====
-- Single calls of Cryptor.cpp that succeed, and one that fails.
use lib_crypt_safe_messenger.Common.{ℕ, ◌+◌, ◌≡◌, ◌≢◌, String, ℤ, pos, arith}
use lib_crypt_safe_messenger.Common.Proc.{returns, throws, runtime_error, Machine}
use lib_crypt_safe_messenger.OpenSsl.Cipher.{CipherLib, IsWorking}
use lib_crypt_safe_messenger.Cryptor.{fresh_nonce, new_context, or_free, free_context}

pub one : {A : Type 0} (x : ℤ × A) → x.0 ≡ pos 1 → x ≡ (pos 1, x.1)
one x e = λ i. (e i, x.1)

module _ {World : Type 0} (lib : CipherLib World) where
  pub or_free_one :
      {A : Type 0} (c : lib.Ctx) (x : ℤ × A) (what : String) (m : Machine World)
      → x.0 ≡ pos 1
      → or_free lib c x what m ≡ (returns x.1, m)
  unfolding or_free
  or_free_one c (rc, v) what m e = rw e

  pub fresh_nonce_works :
      (m : Machine World)
      → (lib.rand_bytes 12 m.world).0.0 ≢ pos 0
      → fresh_nonce lib m ≡ (
        returns (lib.rand_bytes 12 m.world).0.1,
        record m { world = (lib.rand_bytes 12 m.world).1 },
      )
  unfolding fresh_nonce
  fresh_nonce_works m h = ground arith

  pub fresh_nonce_fails :
      (m : Machine World)
      → (lib.rand_bytes 12 m.world).0.0 ≡ pos 0
      → fresh_nonce lib m ≡ (
        throws (runtime_error "Failed to generate nonce"),
        record m { world = (lib.rand_bytes 12 m.world).1 },
      )
  unfolding fresh_nonce
  fresh_nonce_fails m h = ground arith

  pub new_context_works :
      IsWorking lib
      → (m : Machine World)
      → (c : lib.Ctx) × (w : World) × (new_context lib m
          ≡ (returns c, record { world = w; live = m.live + 1 }))
  unfolding new_context
  new_context_works works m =
      let (c, e) = works.new_works m.world in (c, (lib.ctx_new m.world).1, ground arith)

  pub free_context_one :
      (c : lib.Ctx) (w : World) (n : ℕ)
      → free_context lib c (record { world = w; live = n + 1 })
        ≡ (returns tt, record { world = lib.ctx_free c w; live = n })
  unfolding free_context
  free_context_one c w n = ground arith

  -- A call that fails: the context is freed before the exception leaves.
  pub or_free_other :
      {A : Type 0} (c : lib.Ctx) (x : ℤ × A) (what : String) (w : World) (n : ℕ)
      → x.0 ≢ pos 1
      → or_free lib c x what (record { world = w; live = n + 1 })
        ≡ (throws (runtime_error what), record { world = lib.ctx_free c w; live = n })
  unfolding or_free free_context
  or_free_other c (rc, v) what w n e = ground arith
