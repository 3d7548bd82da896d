-- ===== src/TransferManager.antt =====
-- tests/transfer_test.cpp: `TransferManager`, the reference model of chunked media transfers. A map is an
-- association list with one entry for a key.
pub mod Assembly
mod Runs
use lib_crypt_safe_messenger.Common.{
  ℕ, zero, suc, ◌*◌, List, [], ◌∷◌, ◌++◌, Bool, true, false, not, Option, none, some, ltb, ◌==◌,
  if◌then◌else◌, Bytes, length, bytes_eq, is_empty,
}

abbrev pub max_transfer : ℕ
max_transfer = 100 * 1024 * 1024

pub record MediaInit : Type 0 where
  pub transfer_id : Bytes
  pub media_kind : ℕ
  pub total_bytes : ℕ
  pub total_chunks : ℕ
  pub chunk_size : ℕ
  pub sha256_full : Bytes

pub record MediaChunk : Type 0 where
  pub transfer_id : Bytes
  pub seq : ℕ
  pub bytes : Bytes

pub record TransferState : Type 0 where
  pub init : MediaInit
  pub have_init : Bool
  pub chunks : List (ℕ × Bytes)

abbrev pub States : Type 0
States = List (Bytes × TransferState)

-- `std::map`: find, and assignment through `[]`.
abbrev pub find_chunk : ℕ → List (ℕ × Bytes) → Option Bytes
find_chunk s [] = none
find_chunk s ((k, bs) ∷ rest) = let later = find_chunk s rest in if k == s then some bs else later

abbrev pub find_state : Bytes → States → Option TransferState
find_state id [] = none
find_state id ((k, st) ∷ rest) =
    let later = find_state id rest in if bytes_eq k id then some st else later

abbrev pub put_state : Bytes → TransferState → States → States
put_state id st [] = (id, st) ∷ []
put_state id st ((k, old) ∷ rest) =
    let later = put_state id st rest in if bytes_eq k id then (k, st) ∷ rest else (k, old) ∷ later

unfoldable pub on_init : States → MediaInit → Bool × States
on_init states init = if ltb max_transfer init.total_bytes then (false, states) else (
  true,
  put_state init.transfer_id (record { init = init; have_init = true; chunks = [] }) states,
)

-- `if (st.chunks.count(c.seq)) return; st.chunks[c.seq] = c.bytes;`
abbrev pub chunk_added : Option Bytes → MediaChunk → TransferState → TransferState
chunk_added (some old) c st = st
chunk_added none c st = record st { chunks = (c.seq, c.bytes) ∷ st.chunks }

abbrev pub chunk_dropped : Option TransferState → States → MediaChunk → States
chunk_dropped none states c = states
chunk_dropped (some st) states c =
    put_state c.transfer_id (chunk_added (find_chunk c.seq st.chunks) c st) states

unfoldable pub on_chunk : States → MediaChunk → States
on_chunk states c = chunk_dropped (find_state c.transfer_id states) states c

-- The loop over `s`, with how many are left.
abbrev pub missing_from : ℕ → ℕ → List (ℕ × Bytes) → List ℕ
missing_from s zero chunks = []
missing_from s (suc n) chunks =
    let rest = missing_from (suc s) n chunks in
    elim (find_chunk s chunks) [ some b ↦ rest | none ↦ s ∷ rest ]

abbrev pub missing_of : Option TransferState → List ℕ
missing_of none = []
missing_of (some st) =
    if not st.have_init then [] else missing_from 0 st.init.total_chunks st.chunks

unfoldable pub missing : States → Bytes → List ℕ
missing states id = missing_of (find_state id states)

-- `st.chunks.at(s)`, of which none is missing here.
abbrev pub chunk_at : Option Bytes → Bytes
chunk_at none = []
chunk_at (some bs) = bs

abbrev pub spliced : ℕ → ℕ → List (ℕ × Bytes) → Bytes
spliced s zero chunks = []
spliced s (suc n) chunks = chunk_at (find_chunk s chunks) ++ spliced (suc s) n chunks

abbrev pub done_of : Option TransferState → List ℕ → Bool × Bytes
done_of none gaps = (false, [])
done_of (some st) gaps =
    if not st.have_init
    then (false, [])
    else if not (is_empty gaps)
    then (false, [])
    else let file = spliced 0 st.init.total_chunks st.chunks in
      (length file == st.init.total_bytes, file)

unfoldable pub on_done : States → Bytes → Bool × Bytes
on_done states id = done_of (find_state id states) (missing states id)

-- A sequence of chunks.
unfoldable pub on_chunks : States → List MediaChunk → States
on_chunks states [] = states
on_chunks states (c ∷ cs) = on_chunks (on_chunk states c) cs
