-- ===== src/Common/Int.antt =====
-- C's `int`, as it is returned by OpenSSL and as the code casts sizes to it.
use Prim.Native.Nat.{ℕ, ◌-◌, ◌%◌, ◌^◌, ◌<◌, ◌≤◌}
use mathlib.Core.Path.{◌≡◌, refl, ap}
use mathlib.Core.Logic.{◌≢◌, inl, inr}
use mathlib.Core.Bool.{Bool, false}
use native.Mathlib.Omega.{arith}
use lib_crypt_safe_messenger.Common.Tests.{Bool-cases, eq_of_==, ltb, ◌==◌, if◌then◌else◌}

-- `negsuc n` is -(n + 1).
pub data ℤ : Type 0 where
  pos : ℕ → ℤ
  negsuc : ℕ → ℤ

abbrev pub pos_part : ℤ → ℕ
pos_part (pos n) = n
pos_part (negsuc n) = 0

-- `rc == n` for a numeral that is not negative.
abbrev pub is_code : ℕ → ℤ → Bool
is_code n (pos m) = m == n
is_code n (negsuc m) = false

pub is_code-false : (n : ℕ) (rc : ℤ) → rc ≢ pos n → is_code n rc ≡ false
is_code-false n (pos m) h = elim (Bool-cases (m == n)) [
  | inl same ↦ absurd (h (ap pos (eq_of_== m n same)))
  | inr other ↦ other
]
is_code-false n (negsuc m) h = refl

-- `static_cast<int>(n)` of a `size_t`: 32 bits, in two's complement.
unfoldable pub to_int : ℕ → ℤ
to_int n = let m = n % 2 ^ 32 in if ltb m (2 ^ 31) then pos m else negsuc (2 ^ 32 - 1 - m)

pub to_int_small : (n : ℕ) → n < 2 ^ 31 → to_int n ≡ pos n
unfolding to_int
to_int_small n h = ground arith

-- The cast never yields more than the size.
pub to_int-le : (n : ℕ) → pos_part (to_int n) ≤ n
unfolding to_int
to_int-le n = ground arith
