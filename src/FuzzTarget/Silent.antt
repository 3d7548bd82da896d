-- ===== src/FuzzTarget/Silent.antt =====
-- What the fuzz target of tests/fuzz/fuzz_decrypt.cpp can come upon.
use lib_crypt_safe_messenger.Common.{
  ℕ, ◌+◌, ◌-◌, ◌%◌, ◌≡◌, ◌≢◌, refl, inl, inr, Bool-cases, ltb, le_of_ltb-false, Bytes, length, take,
  drop, arith,
}
use lib_crypt_safe_messenger.Common.Proc.{
  Proc, Machine, Outcome, returns, throws, faults, and_then, return, caught_then,
}
use lib_crypt_safe_messenger.Common.Memory.{read_at, read_at_within}
use lib_crypt_safe_messenger.OpenSsl.Cipher.{CipherLib, WritesWithin}
use lib_crypt_safe_messenger.Cryptor.Contexts.{Settles, decrypt-Settles}
use lib_crypt_safe_messenger.FuzzTarget.{byte_of, opened, test_one_input}

module _ {World : Type 0} where
  -- It returns 0, with as many contexts alive as there were.
  abbrev IsQuiet : ℕ → Outcome ℕ × Machine World → Type 0
  IsQuiet live r = (r.0 ≡ returns 0) × (r.1.live ≡ live)

  caught-IsQuiet :
      (live : ℕ) (r : Outcome Bytes × Machine World)
      → r.0 ≢ faults
      → r.1.live ≡ live
      → IsQuiet live (caught_then r (λ e. 0) (λ p. return 0))
  caught-IsQuiet live (returns p, m) h k = (refl, k)
  caught-IsQuiet live (throws e, m) h k = (refl, k)
  caught-IsQuiet live (faults, m) h k = absurd (h refl)

  step-IsQuiet :
      {A : Type 0} (live : ℕ) (p : Proc World A) (m : Machine World) (f : A → Proc World ℕ) (a : A)
      → p m ≡ (returns a, m)
      → IsQuiet live (f a m)
      → IsQuiet live (and_then (p m) f)
  step-IsQuiet live p m f a e h = rw (e) h

module _ {World : Type 0} (lib : CipherLib World) where
  opened-Settles :
      (key blob : Bytes) (live : ℕ) → WritesWithin lib → Settles live live (opened lib key blob)
  unfolding opened
  opened-Settles key blob live within = decrypt-Settles lib key blob live within

  -- On any input, the fuzz target returns 0: whatever the key and the buffer in it, no access is out of
  -- bounds and no exception leaves it, and it has freed every cipher context that it made.
  pub test_one_input_lem :
      (d : Bytes) (m : Machine World)
      → WritesWithin lib
      → ((test_one_input lib d m).0 ≡ returns 0) × ((test_one_input lib d m).1.live ≡ m.live)
  unfolding test_one_input
  test_one_input_lem d m within = elim (Bool-cases (ltb (length d) 1)) [
    | inl none ↦ rw (none) (refl, refl)
    | inr some ↦
        let klen = byte_of (take 1 d) % 64 in
        let long = le_of_ltb-false (length d) 1 some in
        rw (some) (
          step-IsQuiet m.live (read_at 0 1 d) m _ (take 1 d)
            (read_at_within m 0 1 d (omega (arith, long)))
            (elim (Bool-cases (ltb (length d) (1 + klen))) [
              | inl short ↦ rw (short) (refl, refl)
              | inr whole ↦
                  let enough = le_of_ltb-false (length d) (1 + klen) whole in
                  let key = take klen (drop 1 d) in
                  let size = length d - (1 + klen) in
                  let blob = take size (drop (1 + klen) d) in
                  let settled = opened-Settles key blob m.live within m.world in
                  rw (whole) (
                    step-IsQuiet m.live (read_at 1 klen d) m _ key
                      (read_at_within m 1 klen d (omega (arith, enough)))
                      (step-IsQuiet m.live (read_at (1 + klen) size d) m _ blob
                        (read_at_within m (1 + klen) size d (omega (arith, enough)))
                        (caught-IsQuiet m.live (opened lib key blob m) settled.0 settled.1)))
            ]))
  ]
