-- ===== src/KeyExchange/Handles.antt =====
-- MessengerApp/KeyExchange.hpp: the `std::unique_ptr` types of the contexts of OpenSSL and their deleters.
-- The deleter of a key is left out, as a key is a value here.
use lib_crypt_safe_messenger.Common.{ℕ, zero, suc, Option, none, some}
use lib_crypt_safe_messenger.Common.Proc.{Proc, Machine, Outcome, returns, faults}
use lib_crypt_safe_messenger.OpenSsl.Pkey.{PkeyLib}

module _ {World : Type 0} where
  -- A call that makes a context or answers null: a context that it made is alive from here on.
  abbrev pub made_at : {H : Type 0} → ℕ → Option H × World → Outcome (Option H) × Machine World
  made_at n (none, w) = (returns none, record { world = w; live = n })
  made_at n (some h, w) = (returns (some h), record { world = w; live = suc n })

  abbrev pub allocate : {H : Type 0} → (World → Option H × World) → Proc World (Option H)
  allocate new m = made_at m.live (new m.world)

  -- A deleter. With no context alive it would free one twice.
  abbrev pub deleted_at :
      {A : Type 0} → (World → World) → Outcome A → ℕ → World → Outcome A × Machine World
  deleted_at free o zero w = (faults, record { world = w; live = 0 })
  deleted_at free o (suc n) w = (o, record { world = free w; live = n })

  -- The end of the block, by a result or by an exception.
  abbrev pub at_exit :
      {A : Type 0} → (World → World) → Outcome A × Machine World → Outcome A × Machine World
  at_exit free (o, m) = deleted_at free o m.live m.world

  -- The block in which a `unique_ptr` that is not null lives, as a function of what `get` returns.
  abbrev pub scoped : {H A : Type 0} → (H → World → World) → H → (H → Proc World A) → Proc World A
  scoped free handle body m = at_exit (free handle) (body handle m)

module _ {World : Type 0} (lib : PkeyLib World) where
  abbrev pub uniq_ctx : {A : Type 0} → lib.PkeyCtx → (lib.PkeyCtx → Proc World A) → Proc World A
  uniq_ctx ctx body = scoped lib.ctx_free ctx body

  abbrev pub uniq_md_ctx : {A : Type 0} → lib.MdCtx → (lib.MdCtx → Proc World A) → Proc World A
  uniq_md_ctx ctx body = scoped lib.md_ctx_free ctx body
