-- ===== src/Cryptor/Runs.antt =====
-- Runs of the cryptor over the sample library, and the theorems at concrete inputs.
use lib_crypt_safe_messenger.Common.{
  ℕ, ◌+◌, ◌≡◌, ◌≢◌, refl, [], ◌∷◌, Bytes, length, take, replicate, ◌++◌, pos, negsuc, to_int, arith,
}
use lib_crypt_safe_messenger.Common.Memory.{read_at, write_at}
use lib_crypt_safe_messenger.Common.Proc.{returns, throws, faults, runtime_error, Machine, ◌>>=◌}
use lib_crypt_safe_messenger.OpenSsl.Sample.{
  sample, sample_mac, sample-WritesWithin, sample-IsWorking, sample-IsGcm,
}
use lib_crypt_safe_messenger.Cryptor.{
  encrypt, decrypt, fresh_nonce, new_context, or_free, free_context, open_sealed, new_cryptor,
}
use lib_crypt_safe_messenger.Cryptor.Contexts.{encrypt-Settles, decrypt-Settles}
use lib_crypt_safe_messenger.Cryptor.Opening.{tampered, decrypt_verdict}
use lib_crypt_safe_messenger.Cryptor.RoundTrip.{decrypt-encrypt, encrypt_rand_code}

abbrev key : Bytes
key = replicate 32 7

abbrev start : Machine ℕ
start = record { world = 5; live = 3 }

encrypt_three_bytes :
    encrypt (sample (pos 1)) key (1 ∷ 2 ∷ 3 ∷ []) start
    ≡ (returns (replicate 12 5 ++ (3 ∷ 2 ∷ 1 ∷ replicate 16 290)), record { world = 6; live = 3 })
unfolding encrypt fresh_nonce new_context or_free free_context write_at read_at sample_mac to_int
encrypt_three_bytes = refl

decrypt_forged :
    decrypt (sample (pos 1)) key (replicate 29 5) start
    ≡ (throws (runtime_error tampered), record { world = 5; live = 3 })
unfolding decrypt open_sealed new_context or_free free_context write_at read_at sample_mac to_int
decrypt_forged = refl

encrypt-Settles_example :
    let sealing = new_cryptor key >>= λ c. encrypt (sample (pos 1)) c (1 ∷ []) in
    ((sealing start).0 ≢ faults) × ((sealing start).1.live ≡ 3)
encrypt-Settles_example =
    encrypt-Settles (sample (pos 1)) key (1 ∷ []) 3 (sample-WritesWithin (pos 1)) 5

-- A key of one byte: without the constructor, the library would read past it.
one_byte_key : (encrypt (sample (pos 1)) (7 ∷ []) (1 ∷ []) start).0 ≡ faults
unfolding encrypt fresh_nonce new_context or_free free_context write_at read_at
one_byte_key = refl

decrypt-Settles_example :
    let opening = new_cryptor key >>= λ c. decrypt (sample (pos 1)) c (replicate 40 1) in
    ((opening start).0 ≢ faults) × ((opening start).1.live ≡ 3)
decrypt-Settles_example =
    decrypt-Settles (sample (pos 1)) key (replicate 40 1) 3 (sample-WritesWithin (pos 1)) 5

decrypt_verdict_example :
    decrypt (sample (pos 1)) key (1 ∷ 2 ∷ []) start
    ≡ (throws (runtime_error "Data too short"), start)
decrypt_verdict_example =
    (decrypt_verdict (sample (pos 1)) (sample-WritesWithin (pos 1)) (sample-IsGcm (pos 1))
        (sample-IsWorking (pos 1)) key (1 ∷ 2 ∷ []) refl (omega arith) start).0
      (omega arith)

decrypt-encrypt_example :
    (sealed : Bytes) × (w : ℕ) × (encrypt (sample (pos 1)) key (1 ∷ 2 ∷ 3 ∷ []) start
      ≡ (returns sealed, record { world = w; live = 3 }))
    × (length sealed ≡ 3 + 28)
    × ((n : Machine ℕ)
        → (v : ℕ) × (decrypt (sample (pos 1)) key sealed n
            ≡ (returns (1 ∷ 2 ∷ 3 ∷ []), record { world = v; live = n.live })))
decrypt-encrypt_example =
    decrypt-encrypt (sample (pos 1)) (sample-WritesWithin (pos 1)) (sample-IsGcm (pos 1))
      (sample-IsWorking (pos 1)) key (1 ∷ 2 ∷ 3 ∷ []) refl (omega arith) start (λ e. cc)

encrypt_rand_code_example :
    (sealed : Bytes) × (w : ℕ) × (encrypt (sample (negsuc 0)) key (1 ∷ []) start
      ≡ (returns sealed, record { world = w; live = 3 }))
    × (take 12 sealed ≡ replicate 12 5)
encrypt_rand_code_example =
    (encrypt_rand_code (sample (negsuc 0)) (sample-WritesWithin (negsuc 0))
        (sample-IsGcm (negsuc 0)) (sample-IsWorking (negsuc 0)) key (1 ∷ []) refl (omega arith)
        start).0
      0 refl
