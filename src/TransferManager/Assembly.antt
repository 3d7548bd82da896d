-- ===== src/TransferManager/Assembly.antt =====
-- Putting a transfer of tests/transfer_test.cpp together from its chunks.
use lib_crypt_safe_messenger.Common.{
  ℕ, zero, suc, ◌+◌, ◌<◌, ◌≤◌, List, [], ◌∷◌, ◌++◌, ◌≡◌, ◌≢◌, refl, sym, ap, ◌∙◌, subst, true,
  false, not, Bool-cases, inl, inr, ◌⊎◌, Option, none, some, ltb-false, ◌==◌, ==_self, eq_of_==,
  if◌then◌else◌, Bytes, length, bytes_eq, bytes_eq→eq, bytes_eq_refl, All, arith,
}
use lib_crypt_safe_messenger.TransferManager.{
  MediaInit, MediaChunk, TransferState, States, find_chunk, find_state, put_state, on_init,
  chunk_added, chunk_dropped, on_chunk, missing_from, missing_of, missing, chunk_at, spliced,
  done_of, on_done, on_chunks, max_transfer,
}

find-put_same :
    (id : Bytes) (st : TransferState) (states : States)
    → find_state id (put_state id st states) ≡ some st
find-put_same id st [] = rw (bytes_eq_refl id) refl
find-put_same id st ((k, old) ∷ rest) = elim (Bool-cases (bytes_eq k id)) [
  | inl same ↦ rw (same, same) refl
  | inr other ↦ rw (other, other) (find-put_same id st rest)
]

find-put_other :
    (id key : Bytes) (st : TransferState) (states : States)
    → key ≢ id
    → find_state id (put_state key st states) ≡ find_state id states
find-put_other id key st [] h = elim (Bool-cases (bytes_eq key id)) [
  | inl same ↦ absurd (h (bytes_eq→eq key id same))
  | inr other ↦ rw (other) refl
]
find-put_other id key st ((k, old) ∷ rest) h = elim (Bool-cases (bytes_eq k key)) [
  | inl same ↦ elim (Bool-cases (bytes_eq k id)) [
    | inl here ↦ absurd (h (sym (bytes_eq→eq k key same) ∙ bytes_eq→eq k id here))
    | inr there ↦ rw (same, there) refl
  ]
  | inr other ↦
      rw (other) (ap (λ l. if bytes_eq k id then some old else l) (find-put_other id key st rest h))
]

-- The numbers of the chunks of a transfer.
abbrev pub IsSent : ℕ → Bytes → List MediaChunk → Type 0
IsSent s id [] = ⊥
IsSent s id (c ∷ cs) = ((c.transfer_id ≡ id) × (c.seq ≡ s)) ⊎ IsSent s id cs

module _ (part : ℕ → Bytes) where
  -- Every chunk held is the right one.
  abbrev pub Holds : List (ℕ × Bytes) → Type 0
  Holds chunks = (s : ℕ) (bs : Bytes) → find_chunk s chunks ≡ some bs → bs ≡ part s

  abbrev Found : List (ℕ × Bytes) → ℕ → Type 0
  Found chunks s = find_chunk s chunks ≡ some (part s)

  found_after :
      (k s : ℕ) (bs : Bytes) (chunks : List (ℕ × Bytes))
      → ((k ≡ s) × (find_chunk s ((k, bs) ∷ chunks) ≡ some bs))
        ⊎ ((k ≢ s) × (find_chunk s ((k, bs) ∷ chunks) ≡ find_chunk s chunks))
  found_after k s bs chunks = elim (Bool-cases (k == s)) [
    | inl same ↦ inl (eq_of_== k s same, (rw (same) refl))
    | inr other ↦ inr ((λ e. ground arith), (rw (other) refl))
  ]

  added_lem :
      (c : MediaChunk) (st : TransferState) (old : Option Bytes)
      → find_chunk c.seq st.chunks ≡ old
      → Holds st.chunks
      → c.bytes ≡ part c.seq
      → Holds (chunk_added old c st).chunks
        × ((s : ℕ) → Found st.chunks s → Found (chunk_added old c st).chunks s)
        × Found (chunk_added old c st).chunks c.seq
        × ((chunk_added old c st).init ≡ st.init)
        × ((chunk_added old c st).have_init ≡ st.have_init)
  added_lem c st (some bs) e h right = (h, (λ s f. f), e ∙ ap some (h c.seq bs e), refl, refl)
  added_lem c st none e h right = (
    (λ s bs f. elim (found_after c.seq s c.bytes st.chunks) [
      | inl (same, here) ↦
          (let taken : c.bytes ≡ bs = cc (here, f) in sym taken ∙ right ∙ ap part same)
      | inr (other, there) ↦ h s bs (sym there ∙ f)
    ]),
    (λ s f. elim (found_after c.seq s c.bytes st.chunks) [
      | inl (same, here) ↦ here ∙ ap some (right ∙ ap part same)
      | inr (other, there) ↦ there ∙ f
    ]),
    (rw (==_self c.seq) (ap some right)),
    refl,
    refl,
  )

  -- A transfer in progress: its INIT, and what it holds.
  abbrev Collects : MediaInit → Bytes → States → TransferState → Type 0
  Collects init id states st =
      (find_state id states ≡ some st) × (st.init ≡ init) × (st.have_init ≡ true) × Holds st.chunks

  -- A chunk of this transfer has the right bytes for its number.
  abbrev pub IsPart : Bytes → MediaChunk → Type 0
  IsPart id c = c.transfer_id ≡ id → c.bytes ≡ part c.seq

  own_chunk :
      (init : MediaInit) (id : Bytes) (states : States) (st : TransferState) (c : MediaChunk)
      → Collects init id states st
      → c.transfer_id ≡ id
      → c.bytes ≡ part c.seq
      → (st1 : TransferState) × Collects init id (on_chunk states c) st1
        × ((s : ℕ) → Found st.chunks s → Found st1.chunks s)
        × Found st1.chunks c.seq
  unfolding on_chunk
  own_chunk init id states st c (there, same_init, begun, holds) own right =
      let (h, kept, got, i, b) = added_lem c st (find_chunk c.seq st.chunks) refl holds right in
      let st1 = chunk_added (find_chunk c.seq st.chunks) c st in
      let found : find_state c.transfer_id states ≡ some st =
        ap (λ x. find_state x states) own ∙ there in
      (
        st1,
        (
          ap (λ o. find_state id (chunk_dropped o states c)) found
              ∙ ap (λ x. find_state x (put_state c.transfer_id st1 states)) (sym own)
              ∙ find-put_same c.transfer_id st1 states,
          i ∙ same_init,
          b ∙ begun,
          h,
        ),
        kept,
        got,
      )

  other_chunk :
      (id : Bytes) (states : States) (c : MediaChunk) (o : Option TransferState)
      → c.transfer_id ≢ id
      → find_state id (chunk_dropped o states c) ≡ find_state id states
  other_chunk id states c none h = refl
  other_chunk id states c (some st) h = find-put_other id c.transfer_id _ states h

  collected :
      (init : MediaInit) (id : Bytes) (cs : List MediaChunk) (states : States) (st : TransferState)
      → Collects init id states st
      → All (IsPart id) cs
      → (st1 : TransferState) × Collects init id (on_chunks states cs) st1
        × ((s : ℕ) → Found st.chunks s → Found st1.chunks s)
        × ((s : ℕ) → IsSent s id cs → Found st1.chunks s)
  unfolding on_chunks on_chunk
  collected init id [] states st h parts = (st, h, (λ s f. f), (λ s none_sent. absurd none_sent))
  collected init id (c ∷ cs) states st h parts = elim (Bool-cases (bytes_eq c.transfer_id id)) [
    | inl same ↦
        (let own = bytes_eq→eq c.transfer_id id same in
          let (st1, h1, kept, got) = own_chunk init id states st c h own (parts.0 own) in
          let (st2, h2, kept2, got2) = collected init id cs (on_chunk states c) st1 h1 parts.1 in
          (
            st2,
            h2,
            (λ s f. kept2 s (kept s f)),
            λ s sent. elim sent [
              | inl (_, this) ↦ subst (Found st2.chunks) this (kept2 c.seq got)
              | inr later ↦ got2 s later
            ],
          ))
    | inr other ↦
        (let foreign : c.transfer_id ≢ id = λ e. cc (other, e, bytes_eq_refl id) in
          let h1 : Collects init id (on_chunk states c) st = (
            other_chunk id states c (find_state c.transfer_id states) foreign ∙ h.0,
            h.1,
            h.2,
            h.3,
          ) in
          let (st2, h2, kept2, got2) = collected init id cs (on_chunk states c) st h1 parts.1 in
          (
            st2,
            h2,
            kept2,
            λ s sent. elim sent [ inl (own, _) ↦ absurd (foreign own) | inr later ↦ got2 s later ],
          ))
  ]

  -- The file of which `part` gives the pieces.
  abbrev pub joined : ℕ → ℕ → Bytes
  joined s zero = []
  joined s (suc n) = part s ++ joined (suc s) n

  no_gaps :
      (s n : ℕ) (chunks : List (ℕ × Bytes))
      → ((k : ℕ) → s ≤ k → k < s + n → Found chunks k)
      → (missing_from s n chunks ≡ []) × (spliced s n chunks ≡ joined s n)
  no_gaps s zero chunks h = (refl, refl)
  no_gaps s (suc n) chunks h =
      let here = h s (omega arith) (omega arith) in
      let (whole, same) =
        no_gaps (suc s) n chunks (λ k low high. h k (omega arith) (omega arith)) in
      (
        rw (here, missing_from) whole,
        ap (λ o. chunk_at o ++ spliced (suc s) n chunks) here ∙ ap (λ r. part s ++ r) same,
      )

  completed :
      (init : MediaInit) (st : TransferState)
      → st.init ≡ init
      → st.have_init ≡ true
      → missing_from 0 st.init.total_chunks st.chunks ≡ []
      → spliced 0 st.init.total_chunks st.chunks ≡ joined 0 st.init.total_chunks
      → (missing_of (some st) ≡ [])
        × (done_of (some st) (missing_of (some st))
            ≡ (length (joined 0 init.total_chunks) == init.total_bytes, joined 0 init.total_chunks))
  completed init st same_init have whole same =
      let none_missing : missing_of (some st) ≡ [] =
        ap (λ b. if not b then [] else missing_from 0 st.init.total_chunks st.chunks) have
        ∙ whole in
      let file : spliced 0 st.init.total_chunks st.chunks ≡ joined 0 init.total_chunks =
        same ∙ ap (λ i. joined 0 i.total_chunks) same_init in
      let announced = length (joined 0 init.total_chunks) == init.total_bytes in
      let full : (length (spliced 0 st.init.total_chunks st.chunks) == st.init.total_bytes)
          ≡ announced =
        ap (λ f. length f == st.init.total_bytes) file
        ∙ ap (λ i. length (joined 0 init.total_chunks) == i.total_bytes) same_init in
      (
        none_missing,
        ap (done_of (some st)) none_missing
            ∙ ap
                (λ b. if not b then (false, []) else (
                  length (spliced 0 st.init.total_chunks st.chunks) == st.init.total_bytes,
                  spliced 0 st.init.total_chunks st.chunks,
                ))
                have
            ∙ ap (λ b. (b, spliced 0 st.init.total_chunks st.chunks)) full
            ∙ ap (λ f. (announced, f)) file,
      )

  -- After an INIT within the 100 MB cap, and any sequence of chunks, in any order, repeated or not, mixed
  -- with those of other transfers, in which each chunk of this transfer carries the piece of its number
  -- and every number is sent: nothing is missing, and `onDone` gives the pieces joined in the order of
  -- their numbers, with success exactly where the INIT announced their length in bytes. What was in
  -- progress before makes no difference, an earlier transfer under the same id included.
  pub reassembled :
      (init : MediaInit) (before : States) (cs : List MediaChunk)
      → init.total_bytes ≤ max_transfer
      → All (IsPart init.transfer_id) cs
      → ((s : ℕ) → s < init.total_chunks → IsSent s init.transfer_id cs)
      → let started = on_init before init in
        (started.0 ≡ true)
        × (missing (on_chunks started.1 cs) init.transfer_id ≡ [])
        × (on_done (on_chunks started.1 cs) init.transfer_id
            ≡ (length (joined 0 init.total_chunks) == init.total_bytes, joined 0 init.total_chunks))
  unfolding on_init missing on_done
  reassembled init before cs cap parts complete =
      let id = init.transfer_id in
      let fresh : TransferState = record { init = init; have_init = true; chunks = [] } in
      let begun : on_init before init ≡ (true, put_state id fresh before) =
        rw (ltb-false max_transfer init.total_bytes cap) refl in
      let (st, (found, same_init, have, _), _, got) =
        collected init id cs (put_state id fresh before) fresh
          (find-put_same id fresh before, refl, refl, (λ s bs e. absurd (cc e))) parts in
      let (whole, same) = no_gaps 0 st.init.total_chunks st.chunks (λ k _ small.
        got k (complete k (omega (arith, ap (λ i. i.total_chunks) same_init, small)))) in
      let (none_missing, file) = completed init st same_init have whole same in
      subst
        (λ r.
          (r.0 ≡ true)
          × (missing (on_chunks r.1 cs) id ≡ [])
          × (on_done (on_chunks r.1 cs) id ≡ (
            length (joined 0 init.total_chunks) == init.total_bytes,
            joined 0 init.total_chunks,
          )))
        (sym begun)
        (refl, ap missing_of found ∙ none_missing, ap (λ o. done_of o (missing_of o)) found ∙ file)
