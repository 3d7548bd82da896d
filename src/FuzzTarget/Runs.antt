-- ===== src/FuzzTarget/Runs.antt =====
-- The fuzz target at a concrete input.
use lib_crypt_safe_messenger.Common.{ℕ, ◌≡◌, ◌∷◌, replicate, pos}
use lib_crypt_safe_messenger.Common.Proc.{Machine, returns}
use lib_crypt_safe_messenger.OpenSsl.Sample.{sample, sample-WritesWithin}
use lib_crypt_safe_messenger.FuzzTarget.{test_one_input}
use lib_crypt_safe_messenger.FuzzTarget.Silent.{test_one_input_lem}

abbrev start : Machine ℕ
start = record { world = 5; live = 3 }

-- A key of 32 bytes, and a buffer of 40 that nobody sealed.
test_one_input_lem_example :
    ((test_one_input (sample (pos 1)) (32 ∷ replicate 72 1) start).0 ≡ returns 0)
    × ((test_one_input (sample (pos 1)) (32 ∷ replicate 72 1) start).1.live ≡ 3)
test_one_input_lem_example =
    test_one_input_lem (sample (pos 1)) (32 ∷ replicate 72 1) start (sample-WritesWithin (pos 1))
