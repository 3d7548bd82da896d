-- ===== src/Handshake/Runs.antt =====
-- The handshake at concrete inputs, over the sample libraries.
use lib_crypt_safe_messenger.Common.{
  Pairwise, ℕ, ◌+◌, ◌≡◌, refl, List, [], ◌∷◌, ◌++◌, Bytes, length, false, replicate, pos, arith,
  to_int, All-replicate, ◌≢◌,
}
use lib_crypt_safe_messenger.Common.Proc.{returns, throws, runtime_error, Machine}
use lib_crypt_safe_messenger.OpenSsl.Sample.{
  sample, sample-WritesWithin, sample-IsWorking, sample-IsGcm,
}
use lib_crypt_safe_messenger.OpenSsl.SampleKeys.{keys, keys-IsP256}
use lib_crypt_safe_messenger.OpenSsl.Sample.{sum}
use lib_crypt_safe_messenger.OpenSsl.Pkey.{PkeyLib}
use lib_crypt_safe_messenger.OpenSsl.Mac.{IsHmac}
use lib_crypt_safe_messenger.KeyExchange.Hex.{IsSha256, IsByte}
use lib_crypt_safe_messenger.KeyExchange.Steps.{public_der}
use lib_crypt_safe_messenger.Handshake.{
  awaits_client_key, awaits_client_confirm, serves, server_over, awaits_server_key,
  awaits_server_confirm, client_over, server_step, server_run, client_step, client_run, messages,
}
use lib_crypt_safe_messenger.Common.Memory.{read_at, write_at}
use lib_crypt_safe_messenger.OpenSsl.Sample.{sample_mac}
use lib_crypt_safe_messenger.KeyExchange.Keys.{parse_peer_p256}
use lib_crypt_safe_messenger.KeyExchange.Ecdh.{compute_shared_key}
use lib_crypt_safe_messenger.KeyExchange.Fingerprint.{compute_session_confirmation}
use lib_crypt_safe_messenger.Cryptor
use lib_crypt_safe_messenger.Cryptor.{open_sealed, new_context, or_free, free_context, resize}
use lib_crypt_safe_messenger.Handshake.Accepted.{Derived, Confirmed, Opens, served_lem}
use lib_crypt_safe_messenger.Handshake.Forged.{forged_frame_ends, wrong_confirmation_ends}
use lib_crypt_safe_messenger.Handshake.Honest.{handshake_and_texts}
use lib_crypt_safe_messenger.Handshake.Guarded.{Spoke, client_guards}

abbrev start : Machine ℕ
start = record { world = 5; live = 0 }

abbrev der : ℕ → Bytes
der k = public_der keys keys-IsP256 k

keys-IsSha256 : IsSha256 keys
keys-IsSha256 = record {
  length-sha256 = λ bs. refl;
  sha256-IsByte = λ bs. All-replicate IsByte 32 _ (omega arith);
}

keys-IsHmac : IsHmac keys
keys-IsHmac = record {
  mac = λ k xs. replicate 32 (sum k + sum xs);
  length-mac = λ k xs. refl;
  gives_mac = λ k xs w. refl;
}

seven_and_eight_agree :
    (confirm : Bytes) × (aes_key : Bytes) × (client_frames : List Bytes) × (n1 : Machine ℕ)
    × (n2 : Machine ℕ) × (m1 : Machine ℕ) × (m2 : Machine ℕ) × (server_step
          (sample (pos 1))
          keys
          (awaits_client_key 8 (der 8))
          (der 7)
          start
        ≡ ((awaits_client_confirm aes_key, der 8 ∷ confirm ∷ []), m1))
    × (client_step (sample (pos 1)) keys (awaits_server_key 7) (der 8) start
        ≡ ((awaits_server_confirm aes_key, []), n1))
    × (client_step (sample (pos 1)) keys (awaits_server_confirm aes_key) confirm n1
        ≡ ((client_over (returns 0), client_frames), n2))
    × (server_run (sample (pos 1)) keys (awaits_client_confirm aes_key) client_frames m1
        ≡ ((serves aes_key messages, []), m2))
seven_and_eight_agree =
    handshake_and_texts (sample (pos 1)) keys (sample-WritesWithin (pos 1)) (sample-IsGcm (pos 1))
      (sample-IsWorking (pos 1)) (λ w. λ e. cc e) keys-IsP256 keys-IsSha256 keys-IsHmac 7 8 tt tt
      start start

abbrev agreed_key : Bytes
agreed_key = replicate 32 224

abbrev sealed : Bytes
sealed = replicate 12 5 ++ (3 ∷ 2 ∷ 1 ∷ replicate 16 7234)

abbrev received : List Bytes
received = der 5 ∷ replicate 32 8652 ∷ sealed ∷ []

served_run :
    server_run (sample (pos 1)) keys (awaits_client_key 3 (der 3)) received start
    ≡ ((serves agreed_key ((1 ∷ 2 ∷ 3 ∷ []) ∷ []), der 3 ∷ replicate 32 8676 ∷ []), start)
unfolding server_run server_step compute_shared_key compute_session_confirmation parse_peer_p256
    read_at write_at Cryptor.new_cryptor Cryptor.decrypt open_sealed new_context or_free
    free_context resize sample_mac to_int
served_run = refl

served_lem_example :
    (client_pub : Bytes) × (confirm : Bytes) × (frames : List Bytes) × (received
      ≡ client_pub ∷ confirm ∷ frames)
    × Derived (sample (pos 1)) keys 3 client_pub agreed_key
    × Confirmed (sample (pos 1)) keys agreed_key confirm
    × (length agreed_key ≡ 32)
    × Pairwise (Opens (sample (pos 1)) keys agreed_key) frames ((1 ∷ 2 ∷ 3 ∷ []) ∷ [])
served_lem_example =
    served_lem (sample (pos 1)) keys 3 (der 3) received start start agreed_key
      ((1 ∷ 2 ∷ 3 ∷ []) ∷ []) (der 3 ∷ replicate 32 8676 ∷ []) served_run

forged_frame_ends_example :
    server_run (sample (pos 1)) keys (serves agreed_key []) ((1 ∷ []) ∷ sealed ∷ []) start
    ≡ ((server_over (throws (runtime_error "Data too short")), []), start)
forged_frame_ends_example =
    (forged_frame_ends (sample (pos 1)) keys (sample-WritesWithin (pos 1)) (sample-IsGcm (pos 1))
        (sample-IsWorking (pos 1)) agreed_key [] (1 ∷ []) (sealed ∷ []) start refl (omega arith)).0
      (omega arith)

confirmation_for_client :
    compute_session_confirmation keys agreed_key "client_confirm" start
    ≡ (returns (replicate 32 8652), start)
unfolding compute_session_confirmation read_at
confirmation_for_client = refl

wrong_confirmation_exits :
    server_run
      (sample (pos 1))
      keys
      (awaits_client_confirm agreed_key)
      ((1 ∷ []) ∷ sealed ∷ [])
      start
    ≡ ((server_over (returns 1), []), start)
wrong_confirmation_exits =
    wrong_confirmation_ends (sample (pos 1)) keys agreed_key (1 ∷ []) (replicate 32 8652)
      (sealed ∷ []) start start confirmation_for_client (λ e. cc e)

-- A library whose HMAC fails and leaves the output buffer as it was, all zero here.
abbrev failing : PkeyLib ℕ
failing = record keys { hmac = λ k n xs w. ((false, (replicate 32 0, 32)), w) }

-- A client with key 3 gets the key of a server with key 5, and its confirmation.
abbrev answered : List Bytes
answered = der 5 ∷ replicate 32 8676 ∷ []

something_sent : (client_run (sample (pos 1)) keys (awaits_server_key 3) answered start).0.1 ≢ []
unfolding client_run client_step compute_shared_key compute_session_confirmation parse_peer_p256
    read_at write_at Cryptor.new_cryptor sample_mac to_int
something_sent = λ h. cc h

client_guards_example :
    let r = client_run (sample (pos 1)) keys (awaits_server_key 3) answered start in
    Spoke (sample (pos 1)) keys 3 answered r.0.0 r.0.1
client_guards_example = client_guards (sample (pos 1)) keys 3 answered start something_sent
