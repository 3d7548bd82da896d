-- ===== src/TransferManager/Runs.antt =====
-- Transfers at concrete inputs.
use lib_crypt_safe_messenger.Common.{
  ℕ, zero, suc, ◌<◌, ◌≡◌, refl, inl, inr, List, [], ◌∷◌, true, false, Bytes, arith,
}
use lib_crypt_safe_messenger.TransferManager.{
  MediaInit, MediaChunk, on_init, on_chunk, on_chunks, missing, on_done,
}
use lib_crypt_safe_messenger.TransferManager.Assembly.{IsSent, reassembled}

-- Two pieces of two bytes.
abbrev piece : ℕ → Bytes
piece zero = 1 ∷ 2 ∷ []
piece (suc n) = 3 ∷ 4 ∷ []

abbrev photo : MediaInit
photo = record {
  transfer_id = 7 ∷ [];
  media_kind = 0;
  total_bytes = 4;
  total_chunks = 2;
  chunk_size = 2;
  sha256_full = [];
}

abbrev chunk : ℕ → Bytes → MediaChunk
chunk s bs = record { transfer_id = 7 ∷ []; seq = s; bytes = bs }

-- The second first, and twice.
abbrev arrived : List MediaChunk
arrived = chunk 1 (3 ∷ 4 ∷ []) ∷ chunk 1 (3 ∷ 4 ∷ []) ∷ chunk 0 (1 ∷ 2 ∷ []) ∷ []

gap_is_not_done :
    on_done (on_chunks (on_init [] photo).1 (chunk 1 (3 ∷ 4 ∷ []) ∷ [])) (7 ∷ []) ≡ (false, [])
unfolding on_done on_chunks on_chunk on_init missing
gap_is_not_done = refl

arrived-IsSent : (s : ℕ) → s < 2 → IsSent s (7 ∷ []) arrived
arrived-IsSent zero h = inr (inr (inl (refl, refl)))
arrived-IsSent (suc zero) h = inl (refl, refl)
arrived-IsSent (suc (suc n)) h = absurd (omega (arith, h))

reassembled_example :
    ((on_init [] photo).0 ≡ true)
    × (missing (on_chunks (on_init [] photo).1 arrived) (7 ∷ []) ≡ [])
    × (on_done (on_chunks (on_init [] photo).1 arrived) (7 ∷ []) ≡ (true, 1 ∷ 2 ∷ 3 ∷ 4 ∷ []))
reassembled_example =
    reassembled piece photo [] arrived (omega arith) ((λ _. refl), ((λ _. refl), ((λ _. refl), tt)))
      arrived-IsSent

-- An INIT that announces another length: the file is put together, without success.
wrong_length :
    on_done (on_chunks (on_init [] (record photo { total_bytes = 5 })).1 arrived) (7 ∷ [])
    ≡ (false, 1 ∷ 2 ∷ 3 ∷ 4 ∷ [])
unfolding on_done on_chunks on_chunk on_init missing
wrong_length = refl
