-- ===== src/Common/Ends.antt =====
-- What a call that returns and an exception satisfy, rule by rule.
use mathlib.Core.Path.{◌≡◌, transport, ap}
use mathlib.Core.Option.{Option, none, some}
use Prim.Native.String.{String}
use Prim.Native.Nat.{ℕ, ◌+◌}
use mathlib.Core.Bool.{Bool, true, false}
use lib_crypt_safe_messenger.Common.Tests.{leb, if◌then◌else◌}
use lib_crypt_safe_messenger.Common.Int.{ℤ, is_code}
use lib_crypt_safe_messenger.Common.Lists.{Bytes, length, take, drop}
use lib_crypt_safe_messenger.Common.Memory.{read_at, write_at}
use lib_crypt_safe_messenger.Common.Proc.{
  Outcome, returns, throws, faults, Exception, runtime_error, invalid_argument, Machine, Proc,
  and_then, caught_then, non_null, expect_one,
}

-- A result that satisfies `P`, an exception that satisfies `E`, or undefined behaviour.
abbrev pub Ends :
    {World A : Type 0} → (A → Type 0) → (Exception → Type 0) → Outcome A × Machine World → Type 0
Ends P E (returns a, m) = P a
Ends P E (throws e, m) = E e
Ends P E (faults, m) = Unit {0}

abbrev pub IsRuntime : Exception → Type 0
IsRuntime (runtime_error what) = Unit {0}
IsRuntime (invalid_argument what) = ⊥

abbrev pub Whatever : {A : Type 0} → A → Type 0
Whatever a = Unit {0}

module _ {World : Type 0} where
  pub and_then-Ends :
      {A B : Type 0} (P : B → Type 0) (Q : A → Type 0) (r : Outcome A × Machine World)
      (f : A → Proc World B)
      → Ends Q IsRuntime r
      → ((a : A) (m : Machine World) → Q a → Ends P IsRuntime (f a m))
      → Ends P IsRuntime (and_then r f)
  and_then-Ends P Q (returns a, m) f h k = k a m h
  and_then-Ends P Q (throws e, m) f h k = h
  and_then-Ends P Q (faults, m) f h k = h

module _ {World : Type 0} where
  pub non_null-Ends :
      {A : Type 0} (x : Option A) (what : String) (m : Machine World)
      → Ends (Whatever {A = A}) IsRuntime (non_null x what m)
  non_null-Ends none what m = tt
  non_null-Ends (some a) what m = tt

  pub if-Ends :
      {A : Type 0} (P : A → Type 0) (E : Exception → Type 0) (b : Bool) (p q : Proc World A)
      (m : Machine World)
      → Ends P E (p m)
      → Ends P E (q m)
      → Ends P E ((if b then p else q) m)
  if-Ends P E true p q m hp hq = hp
  if-Ends P E false p q m hp hq = hq

  pub read_at-Ends :
      (P : Bytes → Type 0) (off n : ℕ) (buf : Bytes) (m : Machine World)
      → P (take n (drop off buf))
      → Ends P IsRuntime (read_at off n buf m)
  unfolding read_at
  read_at-Ends P off n buf m h = if-Ends _ _ (leb (off + n) (length buf)) _ _ m h tt

  pub write_at-Ends :
      (off : ℕ) (src buf : Bytes) (m : Machine World)
      → Ends (Whatever {A = Bytes}) IsRuntime (write_at off src buf m)
  unfolding write_at
  write_at-Ends off src buf m = if-Ends _ _ (leb (off + length src) (length buf)) _ _ m tt tt

  pub expect_one-Ends :
      {A : Type 0} (r : ℤ × A) (what : String) (m : Machine World)
      → Ends (Whatever {A = A}) IsRuntime (expect_one r what m)
  expect_one-Ends (rc, a) what m = if-Ends _ _ (is_code 1 rc) _ _ m tt tt

  -- A step that can throw nothing but `std::runtime_error`, and what follows.
  pub non_null_then :
      {A B : Type 0} (P : B → Type 0) (x : Option A) (what : String) (m : Machine World)
      (f : A → Proc World B)
      → ((a : A) (m : Machine World) → Ends P IsRuntime (f a m))
      → Ends P IsRuntime (and_then (non_null x what m) f)
  non_null_then P x what m f h =
      and_then-Ends P Whatever (non_null x what m) f (non_null-Ends x what m) λ a m _. h a m

  pub expect_one_then :
      {A B : Type 0} (P : B → Type 0) (r : ℤ × A) (what : String) (m : Machine World)
      (f : A → Proc World B)
      → ((a : A) (m : Machine World) → Ends P IsRuntime (f a m))
      → Ends P IsRuntime (and_then (expect_one r what m) f)
  expect_one_then P r what m f h =
      and_then-Ends P Whatever (expect_one r what m) f (expect_one-Ends r what m) λ a m _. h a m

  pub read_at_then :
      {B : Type 0} (P : B → Type 0) (off n : ℕ) (buf : Bytes) (m : Machine World)
      (f : Bytes → Proc World B)
      → ((a : Bytes) (m : Machine World) → Ends P IsRuntime (f a m))
      → Ends P IsRuntime (and_then (read_at off n buf m) f)
  read_at_then P off n buf m f h =
      and_then-Ends P Whatever (read_at off n buf m) f (read_at-Ends Whatever off n buf m tt)
        λ a m _. h a m

  pub write_at_then :
      {B : Type 0} (P : B → Type 0) (off : ℕ) (src buf : Bytes) (m : Machine World)
      (f : Bytes → Proc World B)
      → ((a : Bytes) (m : Machine World) → Ends P IsRuntime (f a m))
      → Ends P IsRuntime (and_then (write_at off src buf m) f)
  write_at_then P off src buf m f h =
      and_then-Ends P Whatever (write_at off src buf m) f (write_at-Ends off src buf m)
        λ a m _. h a m

module _ {World : Type 0} where
  pub any-Ends : {A : Type 0} (r : Outcome A × Machine World) → Ends (Whatever {A = A}) Whatever r
  any-Ends (returns a, m) = tt
  any-Ends (throws e, m) = tt
  any-Ends (faults, m) = tt

  -- A caught call: what follows a return, and what the handler makes of an exception.
  pub caught_then-Ends :
      {A R : Type 0} (P : R → Type 0) (Q : A → Type 0) (E : Exception → Type 0)
      (r : Outcome A × Machine World) (handler : Exception → R) (f : A → Proc World R)
      → Ends Q E r
      → ((e : Exception) → E e → P (handler e))
      → ((a : A) (m : Machine World) → Q a → Ends P (λ _. ⊥) (f a m))
      → Ends P (λ _. ⊥) (caught_then r handler f)
  caught_then-Ends P Q E (returns a, m) handler f h c k = k a m h
  caught_then-Ends P Q E (throws e, m) handler f h c k = c e h
  caught_then-Ends P Q E (faults, m) handler f h c k = tt

-- What is said of the end of a run holds of what it is known to return.
pub Ends-returns :
    {World A : Type 0} (P : A → Type 0) (E : Exception → Type 0) (r : Outcome A × Machine World)
    {a : A} {m : Machine World}
    → Ends P E r
    → r ≡ (returns a, m)
    → P a
Ends-returns P E r h e = transport (ap (Ends P E) e) h
