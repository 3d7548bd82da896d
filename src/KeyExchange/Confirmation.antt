-- ===== src/KeyExchange/Confirmation.antt =====
-- The session confirmation of KeyExchange.hpp.
use lib_crypt_safe_messenger.Common.{
  ℕ, ◌≤◌, ◌≡◌, Bool, String, codes, Bytes, length, take, to_int, arith,
}
use lib_crypt_safe_messenger.Common.Proc.{Machine, returns}
use lib_crypt_safe_messenger.Common.Memory.{read_at_within}
use lib_crypt_safe_messenger.OpenSsl.Pkey.{PkeyLib}
use lib_crypt_safe_messenger.KeyExchange.Fingerprint.{compute_session_confirmation}

module _ {World : Type 0} (lib : PkeyLib World) where
  -- Whether HMAC succeeds (`done`) or fails, `compute_session_confirmation` returns the first `out_len`
  -- bytes of what the output buffer then holds, and reports nothing, as long as `out_len` is within it.
  pub confirmation_unchecked :
      (key : Bytes) (label : String) (m : Machine World) (done : Bool) (out : Bytes) (out_len : ℕ)
      (w : World)
      → lib.hmac key (to_int (length key)) (codes label) m.world ≡ ((done, (out, out_len)), w)
      → out_len ≤ length out
      → compute_session_confirmation lib key label m
        ≡ (returns (take out_len out), record m { world = w })
  unfolding compute_session_confirmation
  confirmation_unchecked key label m done out out_len w e h =
      ground (arith, read_at_within (record m { world = w }) 0 out_len out (omega arith))
