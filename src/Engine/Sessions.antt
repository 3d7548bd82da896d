-- ===== src/Engine/Sessions.antt =====
-- What the engine of crypto_engine.hpp gets from the code below it: derived keys, and the exceptions of
-- a `Cryptor`.
use lib_crypt_safe_messenger.Common.{
  ℕ, zero, suc, ℤ, ltb, is_code, ◌≡◌, Option, none, some, Bytes, length, String, ◌+◌, ◌-◌, drop,
  replicate, pos_part, to_int,
}
use lib_crypt_safe_messenger.Common.Proc.{
  Machine, Proc, Outcome, returns, throws, faults, and_then, return,
}
use lib_crypt_safe_messenger.Common.Ends.{
  Ends, IsRuntime, Whatever, and_then-Ends, if-Ends, non_null_then, expect_one_then, read_at_then,
  write_at_then,
}
use lib_crypt_safe_messenger.OpenSsl.Cipher.{CipherLib}
use lib_crypt_safe_messenger.OpenSsl.Pkey.{PkeyLib}
use lib_crypt_safe_messenger.Cryptor
use lib_crypt_safe_messenger.Cryptor.{
  resize, new_context, made_context, free_at, free_context, or_free, open_sealed,
}
use lib_crypt_safe_messenger.KeyExchange.Keys.{parse_peer_p256}
use lib_crypt_safe_messenger.KeyExchange.Ecdh
use lib_crypt_safe_messenger.KeyExchange.Handles.{made_at, deleted_at, at_exit}
use lib_crypt_safe_messenger.KeyExchange.Hex.{IsSha256}

abbrev pub IsKey : Bytes → Type 0
IsKey key = length key ≡ 32

module _ {World : Type 0} where
  -- What follows a call that makes a context.
  made_at-Ends :
      {H : Type 0} (P : Bytes → Type 0) (n : ℕ) (r : Option H × World)
      (f : Option H → Proc World Bytes)
      → ((o : Option H) (m : Machine World) → Ends P IsRuntime (f o m))
      → Ends P IsRuntime (and_then (made_at n r) f)
  made_at-Ends P n (none, w) f h = h none _
  made_at-Ends P n (some c, w) f h = h (some c) _

  deleted_at-Ends :
      {A : Type 0} (P : A → Type 0) (free : World → World) (o : Outcome A) (m : Machine World)
      → Ends P IsRuntime (o, m)
      → (n : ℕ) (w : World) → Ends P IsRuntime (deleted_at free o n w)
  deleted_at-Ends P free o m h zero w = tt
  deleted_at-Ends P free (returns a) m h (suc n) w = h
  deleted_at-Ends P free (throws e) m h (suc n) w = h
  deleted_at-Ends P free faults m h (suc n) w = h

  -- The end of a block changes neither its result nor its exception.
  at_exit-Ends :
      {A : Type 0} (P : A → Type 0) (free : World → World) (r : Outcome A × Machine World)
      → Ends P IsRuntime r
      → Ends P IsRuntime (at_exit free r)
  at_exit-Ends P free (o, m) h = deleted_at-Ends P free o m h m.live m.world

module _ {World : Type 0} (lib : PkeyLib World) where
  pub compute_shared_key-IsKey :
      IsSha256 lib
      → (k : lib.Pkey) (der : Bytes) (m : Machine World)
      → Ends IsKey IsRuntime (Ecdh.compute_shared_key lib k der m)
  unfolding Ecdh.compute_shared_key
  compute_shared_key-IsKey sha k der m =
      non_null_then IsKey (parse_peer_p256 lib der) "Failed to parse peer public key" m _ λ peer m.
        made_at-Ends IsKey m.live (lib.ctx_new k m.world) _ λ made m.
          non_null_then IsKey made "CTX_new failed" m _ λ ctx m.
            at_exit-Ends IsKey (lib.ctx_free ctx) _ (
              expect_one_then IsKey (lib.derive_init ctx) "derive_init failed" _ _ λ ctx1 m.
                expect_one_then IsKey (lib.derive_set_peer ctx1 peer) "derive_set_peer failed" m _
                  λ ctx2 m.
                    expect_one_then IsKey (lib.derive_size ctx2) "derive size failed" m _
                      λ secret_len m.
                        expect_one_then IsKey (lib.derive ctx2 secret_len) "derive failed" m
                          (λ secret. return (lib.sha256 secret))
                          λ secret m. sha.length-sha256 secret)

module _ {World : Type 0} (lib : CipherLib World) where
  made_context-Ends :
      (n : ℕ) (r : Option lib.Ctx × World) → Ends Whatever IsRuntime (made_context lib n r)
  made_context-Ends n (none, w) = tt
  made_context-Ends n (some c, w) = tt

  new_context-Ends : (m : Machine World) → Ends Whatever IsRuntime (new_context lib m)
  unfolding new_context
  new_context-Ends m = made_context-Ends m.live (lib.ctx_new m.world)

  free_at-Ends :
      (c : lib.Ctx) (live : ℕ) (w : World) → Ends Whatever IsRuntime (free_at lib c live w)
  free_at-Ends c zero w = tt
  free_at-Ends c (suc n) w = tt

  free_context-Ends :
      (c : lib.Ctx) (m : Machine World) → Ends Whatever IsRuntime (free_context lib c m)
  unfolding free_context
  free_context-Ends c m = free_at-Ends c m.live m.world

  or_free-Ends :
      {A : Type 0} (c : lib.Ctx) (r : ℤ × A) (what : String) (m : Machine World)
      → Ends (Whatever {A = A}) IsRuntime (or_free lib c r what m)
  unfolding or_free
  or_free-Ends c (rc, a) what m =
      if-Ends _ _ (is_code 1 rc) _ _ m tt (
        and_then-Ends Whatever Whatever (free_context lib c m) _ (free_context-Ends c m)
          λ _ _ _. tt)

  or_free_then :
      {A : Type 0} (P : Bytes → Type 0) (c : lib.Ctx) (r : ℤ × A) (what : String)
      (m : Machine World) (f : A → Proc World Bytes)
      → ((a : A) (m : Machine World) → Ends P IsRuntime (f a m))
      → Ends P IsRuntime (and_then (or_free lib c r what m) f)
  or_free_then P c r what m f h =
      and_then-Ends P Whatever (or_free lib c r what m) f (or_free-Ends c r what m) λ a m _. h a m

  open_sealed-Ends :
      (key sealed : Bytes) (m : Machine World)
      → Ends Whatever IsRuntime (open_sealed lib key sealed m)
  unfolding open_sealed
  open_sealed-Ends key sealed m =
      read_at_then Whatever (12 + (length sealed - 12 - 16)) 16 sealed m _ λ tag m.
        and_then-Ends Whatever Whatever (new_context lib m) _ (new_context-Ends m) λ ctx m _.
          read_at_then Whatever 0 12 sealed m _ λ nonce m.
            read_at_then Whatever 0 32 key m _ λ cipher_key m.
              or_free_then Whatever ctx (lib.decrypt_init ctx key nonce) "Failed to init decrypt" m
                _
                λ ctx1 m.
                  or_free_then Whatever ctx1 (lib.set_tag ctx1 tag) "Failed to set tag" m _
                    λ ctx2 m.
                      read_at_then Whatever 0 (pos_part (to_int (length sealed - 12 - 16)))
                        (drop 12 sealed) m _
                        λ source m.
                          or_free_then Whatever ctx2
                            (lib.decrypt_update ctx2 (drop 12 sealed)
                              (to_int (length sealed - 12 - 16)))
                            "Failed to decrypt" m _
                            λ out m.
                              write_at_then Whatever 0 out.0 (replicate (length sealed - 12 - 16) 0)
                                m _
                                λ filled m.
                                  or_free_then Whatever out.1 (lib.decrypt_final out.1)
                                    "Authentication failed — data tampered!" m _
                                    λ fin m.
                                      write_at_then Whatever (length out.0) fin.0 filled m _
                                        λ plain m.
                                          and_then-Ends Whatever Whatever (free_context lib fin.1 m)
                                            _ (free_context-Ends _ m) λ freed m _. tt

  pub cryptor_decrypt-Ends :
      (key sealed : Bytes) (m : Machine World)
      → Ends Whatever IsRuntime (Cryptor.decrypt lib key sealed m)
  unfolding Cryptor.decrypt
  cryptor_decrypt-Ends key sealed m =
      if-Ends _ _ (ltb (length sealed) 28) _ _ m tt (open_sealed-Ends key sealed m)
