-- ===== src/FuzzTarget.antt =====
-- tests/fuzz/fuzz_decrypt.cpp: the libFuzzer target of `Cryptor::decrypt`, whose input carries the key and
-- the sealed buffer.
pub mod Silent
mod Runs
use lib_crypt_safe_messenger.Common.{ℕ, ◌+◌, ◌-◌, ◌%◌, [], ◌∷◌, ltb, if◌then◌else◌, Bytes, length}
use lib_crypt_safe_messenger.Common.Proc.{Proc, ◌>>=◌, return, caught}
use lib_crypt_safe_messenger.Common.Memory.{read_at}
use lib_crypt_safe_messenger.OpenSsl.Cipher.{CipherLib}
use lib_crypt_safe_messenger.Cryptor.{new_cryptor, decrypt}

-- The one byte of a read of one byte.
abbrev pub byte_of : Bytes → ℕ
byte_of [] = 0
byte_of (b ∷ bs) = b

module _ {World : Type 0} (lib : CipherLib World) where
  -- The body of the `try`.
  unfoldable pub opened : Bytes → Bytes → Proc World Bytes
  opened key blob = do c ← new_cryptor key; decrypt lib c blob

  unfoldable pub test_one_input : Bytes → Proc World ℕ
  test_one_input d = if ltb (length d) 1 then return 0 else do
    first ← read_at 0 1 d
    let klen = byte_of first % 64
    if ltb (length d) (1 + klen) then return 0 else do
      key ← read_at 1 klen d
      blob ← read_at (1 + klen) (length d - (1 + klen)) d
      caught (opened key blob) (λ e. 0) (λ p. return 0)
