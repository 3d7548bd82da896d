-- ===== src/Common/Proc.antt =====
-- C++ code that calls a library: it returns, throws, or runs into undefined behaviour.
use Prim.Native.Nat.{ℕ}
use Prim.Native.String.{String}
use mathlib.Core.Path.{◌≡◌, ap, ◌∙◌}
use mathlib.Core.Option.{Option, none, some}
use lib_crypt_safe_messenger.Common.Tests.{if◌then◌else◌}
use lib_crypt_safe_messenger.Common.Int.{ℤ, is_code}

-- The two classes of exception that the code throws; both derive from `std::exception`.
pub data Exception : Type 0 where
  runtime_error : String → Exception
  invalid_argument : String → Exception

-- `faults`: an access out of bounds, which C++ leaves undefined.
pub data Outcome (A : Type 0) : Type 0 where
  returns : A → Outcome A
  throws : Exception → Outcome A
  faults : Outcome A

-- `world` is what the library keeps (its heap, the entropy); `live` counts the contexts of OpenSSL
-- that the code has made and not yet freed.
pub record Machine (World : Type 0) : Type 0 where
  pub world : World
  pub live : ℕ

abbrev pub Proc : Type 0 → Type 0 → Type 0
Proc World A = Machine World → Outcome A × Machine World

module _ {World : Type 0} where
  abbrev pub and_then :
      {A B : Type 0} → Outcome A × Machine World → (A → Proc World B) → Outcome B × Machine World
  and_then (returns a, m) f = f a m
  and_then (throws e, m) f = (throws e, m)
  and_then (faults, m) f = (faults, m)

  infixl 5 ◌>>=◌ ◌>>◌
  abbrev pub ◌>>=◌ : {A B : Type 0} → Proc World A → (A → Proc World B) → Proc World B
  ◌>>=◌ p f m = and_then (p m) f

  abbrev pub ◌>>◌ : {B : Type 0} → Proc World (Unit {0}) → Proc World B → Proc World B
  p >> q = p >>= λ _. q

  abbrev pub return : {A : Type 0} → A → Proc World A
  return a m = (returns a, m)

  abbrev pub throw : {A : Type 0} → Exception → Proc World A
  throw e m = (throws e, m)

  abbrev pub fault : {A : Type 0} → Proc World A
  fault m = (faults, m)

  -- A call that reads or changes the library's state.
  abbrev pub call : {A : Type 0} → (World → A × World) → Proc World A
  call f m = let r = f m.world in (returns r.0, record m { world = r.1 })

  -- `if (!p) throw std::runtime_error(what);`
  abbrev pub non_null : {A : Type 0} → Option A → String → Proc World A
  non_null (some a) what = return a
  non_null none what = throw (runtime_error what)

  -- `if (call(...) != 1) throw std::runtime_error(what);`, with what the call leaves behind.
  abbrev pub expect_one : {A : Type 0} → ℤ × A → String → Proc World A
  expect_one (rc, a) what = if is_code 1 rc then return a else throw (runtime_error what)

  -- `if (!p) return out;` and `if (call(...) != 1) return out;`
  abbrev pub unless_null : {A R : Type 0} → Option A → R → (A → Proc World R) → Proc World R
  unless_null none out rest = return out
  unless_null (some a) out rest = rest a

  abbrev pub unless_one : {A R : Type 0} → ℤ × A → R → (A → Proc World R) → Proc World R
  unless_one (rc, a) out rest = if is_code 1 rc then rest a else return out

  -- A call within `try { ... } catch`: an exception ends the block with what the handler makes of it.
  -- Undefined behaviour is not caught.
  abbrev pub caught_then :
      {A R : Type 0}
      → Outcome A × Machine World
      → (Exception → R)
      → (A → Proc World R)
      → Outcome R × Machine World
  caught_then (returns a, m) handler rest = rest a m
  caught_then (throws e, m) handler rest = (returns (handler e), m)
  caught_then (faults, m) handler rest = (faults, m)

  abbrev pub caught :
      {A R : Type 0} → Proc World A → (Exception → R) → (A → Proc World R) → Proc World R
  caught p handler rest m = caught_then (p m) handler rest

  -- A step that returns is followed by the rest.
  pub step :
      {A B : Type 0} (p : Proc World A) (m : Machine World) (f : A → Proc World B)
      {n : Machine World} {a : A} {r : Outcome B × Machine World}
      → p m ≡ (returns a, n)
      → f a n ≡ r
      → (p >>= f) m ≡ r
  step p m f e h = ap (λ q. and_then q f) e ∙ h

  -- An exception skips the rest.
  pub step_throws :
      {A B : Type 0} (p : Proc World A) (m : Machine World) (f : A → Proc World B)
      {n : Machine World} {e : Exception}
      → p m ≡ (throws e, n)
      → (p >>= f) m ≡ (throws e, n)
  step_throws p m f e = ap (λ q. and_then q f) e

  pub caught_step :
      {A R : Type 0} (p : Proc World A) (m : Machine World) (handler : Exception → R)
      (f : A → Proc World R) {n : Machine World} {a : A} {r : Outcome R × Machine World}
      → p m ≡ (returns a, n)
      → f a n ≡ r
      → caught p handler f m ≡ r
  caught_step p m handler f e h = ap (λ q. caught_then q handler f) e ∙ h

  pub caught_throws :
      {A R : Type 0} (p : Proc World A) (m : Machine World) (handler : Exception → R)
      (f : A → Proc World R) {n : Machine World} {e : Exception}
      → p m ≡ (throws e, n)
      → caught p handler f m ≡ (returns (handler e), n)
  caught_throws p m handler f e = ap (λ q. caught_then q handler f) e
