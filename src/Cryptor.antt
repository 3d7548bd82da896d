-- ===== src/Cryptor.antt =====
-- LibCryptSafe/include/Cryptor.h and LibCryptSafe/src/Cryptor.cpp: AES-256-GCM over a buffer
-- `[12 bytes nonce][ciphertext][16 bytes tag]`. A `Cryptor` is its key.
pub mod Buffers
pub mod Contexts
pub mod Calls
pub mod Opening
pub mod RoundTrip
mod Runs
use lib_crypt_safe_messenger.Common.{
  ℕ, zero, suc, ◌+◌, ◌-◌, ◌<◌, Bool, true, false, String, List, [], ◌∷◌, ◌++◌, Option, none, some,
  ltb, leb, ◌==◌, not, if◌then◌else◌, Bytes, length, take, drop, replicate, ℤ, pos_part, is_code,
  to_int,
}
use lib_crypt_safe_messenger.Common.Memory.{read_at, write_at}
use lib_crypt_safe_messenger.Common.Proc.{
  Exception, runtime_error, invalid_argument, Outcome, returns, throws, faults, Machine, Proc,
  ◌>>=◌, ◌>>◌, return, throw, fault, call,
}
use lib_crypt_safe_messenger.OpenSsl.Cipher.{CipherLib}

-- The class: its one member is the key.
abbrev pub Cryptor : Type 0
Cryptor = Bytes

abbrev pub nonce_len : ℕ
nonce_len = 12

abbrev pub tag_len : ℕ
tag_len = 16

module _ {World : Type 0} where
  -- The constructor: a key of any length but 32 is refused.
  unfoldable pub new_cryptor : Bytes → Proc World Cryptor
  new_cryptor key =
      if not (length key == 32)
      then throw (invalid_argument "AES-256-GCM key must be 32 bytes")
      else return key

-- `plain.resize(n)`.
unfoldable pub resize : ℕ → Bytes → Bytes
resize n buf = take n buf ++ replicate (n - length buf) 0

module _ {World : Type 0} (lib : CipherLib World) where
  open lib use {
    Ctx, rand_bytes, ctx_new, ctx_free, encrypt_init, encrypt_update, encrypt_final, get_tag,
    decrypt_init, set_tag, decrypt_update, decrypt_final,
  }

  -- `uint8_t nonce[12]; if (!RAND_bytes(nonce, sizeof(nonce))) throw ...`
  unfoldable pub fresh_nonce : Proc World Bytes
  fresh_nonce = do
    (rc, nonce) ← call (rand_bytes 12)
    if is_code 0 rc then throw (runtime_error "Failed to generate nonce") else return nonce

  abbrev pub made_context : ℕ → Option Ctx × World → Outcome Ctx × Machine World
  made_context n (none, w) =
      (throws (runtime_error "Failed to create context"), record { world = w; live = n })
  made_context n (some c, w) = (returns c, record { world = w; live = suc n })

  unfoldable pub new_context : Proc World Ctx
  new_context m = made_context m.live (ctx_new m.world)

  -- A free with no context alive would be a double free.
  abbrev pub free_at : Ctx → ℕ → World → Outcome (Unit {0}) × Machine World
  free_at c zero w = (faults, record { world = w; live = 0 })
  free_at c (suc n) w = (returns tt, record { world = ctx_free c w; live = n })

  unfoldable pub free_context : Ctx → Proc World (Unit {0})
  free_context c m = free_at c m.live m.world

  -- `if (call(...) != 1) { EVP_CIPHER_CTX_free(ctx); throw std::runtime_error(what); }`
  unfoldable pub or_free : {A : Type 0} → Ctx → ℤ × A → String → Proc World A
  or_free c (rc, a) what =
      if is_code 1 rc then return a else free_context c >> throw (runtime_error what)

  unfoldable pub encrypt : Cryptor → Bytes → Proc World Bytes
  encrypt key text = do
    nonce ← fresh_nonce
    ctx ← new_context
    let blank = replicate (12 + length text + 16) 0
    headed ← write_at 0 nonce blank
    cipher_key ← read_at 0 32 key
    ctx1 ← or_free ctx (encrypt_init ctx key nonce) "Failed to init encrypt"
    let inl = to_int (length text)
    source ← read_at 0 (pos_part inl) text
    (out, ctx2) ← or_free ctx1 (encrypt_update ctx1 text inl) "Failed to encrypt"
    filled ← write_at 12 out headed
    (fin, ctx3) ← or_free ctx2 (encrypt_final ctx2) "Failed to finalize encrypt"
    finished ← write_at (12 + length out) fin filled
    tag ← or_free ctx3 (get_tag ctx3 16) "Failed to get tag"
    result ← write_at (12 + length out + length fin) tag finished
    free_context ctx3 >> return result

  -- What `decrypt` does with an input that is long enough for a nonce and a tag.
  unfoldable pub open_sealed : Bytes → Bytes → Proc World Bytes
  open_sealed key sealed = do
    let cipher_len = length sealed - nonce_len - tag_len
    let ciphertext = drop nonce_len sealed
    tag ← read_at (nonce_len + cipher_len) tag_len sealed
    ctx ← new_context
    nonce ← read_at 0 nonce_len sealed
    cipher_key ← read_at 0 32 key
    ctx1 ← or_free ctx (decrypt_init ctx key nonce) "Failed to init decrypt"
    ctx2 ← or_free ctx1 (set_tag ctx1 tag) "Failed to set tag"
    let blank = replicate cipher_len 0
    let inl = to_int cipher_len
    source ← read_at 0 (pos_part inl) ciphertext
    (out, ctx3) ← or_free ctx2 (decrypt_update ctx2 ciphertext inl) "Failed to decrypt"
    filled ← write_at 0 out blank
    (fin, ctx4) ← or_free ctx3 (decrypt_final ctx3) "Authentication failed — data tampered!"
    plain ← write_at (length out) fin filled
    free_context ctx4 >> return (resize (length out + length fin) plain)

  unfoldable pub decrypt : Cryptor → Bytes → Proc World Bytes
  decrypt key sealed =
      if ltb (length sealed) (nonce_len + tag_len)
      then throw (runtime_error "Data too short")
      else open_sealed key sealed
