-- ===== src/Common/Memory.antt =====
-- Reads and writes of C++ code within a buffer.
use Prim.Native.Nat.{ℕ, ◌+◌, ◌≤◌}
use mathlib.Core.Path.{◌≡◌, sym, ap, ◌∙◌}
use mathlib.Core.List.{[], ◌++◌, append_assoc}
use native.Mathlib.Omega.{arith}
use lib_crypt_safe_messenger.Common.Tests.{leb, if◌then◌else◌}
use lib_crypt_safe_messenger.Common.Lists.{
  Bytes, length, take, drop, length-append, length-take, length-drop, take-append-drop,
  take-append_exact, drop-append_exact,
}
use lib_crypt_safe_messenger.Common.Proc.{Machine, Proc, returns, return, fault}

module _ {World : Type 0} where
  -- A write of `src` into a buffer, from the offset on.
  unfoldable pub write_at : ℕ → Bytes → Bytes → Proc World Bytes
  write_at off src buf =
      if leb (off + length src) (length buf)
      then return (take off buf ++ (src ++ drop (off + length src) buf))
      else fault

  -- A read of `n` bytes of a buffer, from the offset on.
  unfoldable pub read_at : ℕ → ℕ → Bytes → Proc World Bytes
  read_at off n buf = if leb (off + n) (length buf) then return (take n (drop off buf)) else fault

-- What the buffer holds after a write within it.
abbrev pub splice : ℕ → Bytes → Bytes → Bytes
splice off src buf = take off buf ++ (src ++ drop (off + length src) buf)

pub length-splice :
    (off : ℕ) (src buf : Bytes)
    → off + length src ≤ length buf
    → length (splice off src buf) ≡ length buf
length-splice off src buf h = omega (
  arith,
  length-append (take off buf) (src ++ drop (off + length src) buf),
  length-append src (drop (off + length src) buf),
  length-take off buf,
  length-drop (off + length src) buf,
)

-- A write over the middle part of a buffer replaces that part.
pub splice_middle :
    (off : ℕ) (front old back src : Bytes)
    → length front ≡ off
    → length old ≡ length src
    → splice off src (front ++ (old ++ back)) ≡ front ++ (src ++ back)
splice_middle off front old back src h e = rw (take-append_exact off front (old ++ back) h) (
    ap (λ (t : Bytes). front ++ (src ++ t))
      (ap (drop (off + length src)) (sym (append_assoc front old back))
        ∙ drop-append_exact (off + length src) (front ++ old) back
            (omega (arith, length-append front old))))

pub splice_nothing : (off : ℕ) (buf : Bytes) → splice off [] buf ≡ buf
splice_nothing off buf =
    ap (λ (k : ℕ). take off buf ++ drop k buf) (omega arith) ∙ take-append-drop off buf

module _ {World : Type 0} (m : Machine World) where
  pub write_at_within :
      (off : ℕ) (src buf : Bytes)
      → off + length src ≤ length buf
      → write_at off src buf m ≡ (returns (splice off src buf), m)
  unfolding write_at
  write_at_within off src buf h = ground arith

  pub read_at_within :
      (off n : ℕ) (buf : Bytes)
      → off + n ≤ length buf
      → read_at off n buf m ≡ (returns (take n (drop off buf)), m)
  unfolding read_at
  read_at_within off n buf h = ground arith
