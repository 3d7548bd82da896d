-- ===== src/Frames/Progress.antt =====
-- What `recv_frame` takes from a stream, and that `send_frame` takes nothing.
use lib_crypt_safe_messenger.Common.{
  ℕ, ◌+◌, ◌%◌, ◌^◌, ◌≤◌, ◌<◌, ◌≡◌, ◌⊎◌, inl, inr, refl, sym, ap, ◌∙◌, Bool-cases, leb, ltb, ◌==◌,
  ◌||◌, Bytes, length, take, drop, length-drop, length-take, is_code, to_int, arith,
}
use lib_crypt_safe_messenger.Common.Proc.{Machine, returns}
use lib_crypt_safe_messenger.Common.Memory.{read_at}
use lib_crypt_safe_messenger.Frames.{
  SocketLib, htonl, ntohl, send_frame, recv_frame, recv_body, size_of,
}
use lib_crypt_safe_messenger.Frames.Stream.{IsSending, IsReceiving}
use lib_crypt_safe_messenger.Frames.Verdict.{announced, recv_frame_verdict}

module _ {World : Type 0} (lib : SocketLib World) (r : IsReceiving lib) where
  -- Which of its four verdicts `recv_frame` reaches.
  verdicts :
      (size n : ℕ)
      → (size < 4)
        ⊎ ((4 ≤ size) × ((n ≡ 0) ⊎ (65536 < n)))
        ⊎ ((4 ≤ size) × (0 < n) × (n ≤ 65536) × (size < 4 + n))
        ⊎ ((0 < n) × (n ≤ 65536) × (4 + n ≤ size))
  verdicts size n = ground arith

  -- A frame that is received has 1 to 65536 bytes, and takes these and a header of 4 from the stream.
  pub recv_frame_takes :
      (m n : Machine World) (text : Bytes)
      → recv_frame lib m ≡ (returns text, n)
      → (0 < length text)
        × (length text ≤ 65536)
        × (length (r.pending n.world) + 4 + length text ≡ length (r.pending m.world))
  recv_frame_takes m n text e =
      let stream = r.pending m.world in
      let size = announced lib r stream in
      let (short, refused, cut, whole) = recv_frame_verdict lib r m in
      let got = ap (λ x. x.0) e in
      elim (verdicts (length stream) size) [
        | inl few ↦ absurd (cc (got, short few))
        | inr (inl (some, bad)) ↦ absurd (cc (got, (refused some bad).0))
        | inr (inr (inl (some, low, high, few))) ↦ absurd (cc (got, cut some low high few))
        | inr (inr (inr (low, high, enough))) ↦
            let (value, rest) = whole low high enough in
            let same : text ≡ take size (drop 4 stream) = cc (got, value) in
            let left : r.pending n.world ≡ drop size (drop 4 stream) =
              sym (ap (λ x. r.pending x.1.world) e) ∙ rest in
            let len : length text ≡ size =
              ap length same
              ∙ omega (arith, length-take size (drop 4 stream), length-drop 4 stream) in
            (
              omega (arith, len),
              omega (arith, len),
              omega (
                arith,
                len,
                ap length left,
                length-drop size (drop 4 stream),
                length-drop 4 stream,
              ),
            )
      ]

  pub send_frame_keeps :
      ((bs : Bytes) (w : World) → r.pending (lib.send bs w).1 ≡ r.pending w)
      → (text : Bytes) (m : Machine World)
      → r.pending (send_frame lib text m).1.world ≡ r.pending m.world
  unfolding send_frame read_at
  send_frame_keeps keeps text m =
      let head = htonl (length text % 2 ^ 32) in
      let w = (lib.send head m.world).1 in
      elim (Bool-cases (is_code 4 (lib.send head m.world).0)) [
        | inl four ↦ elim (Bool-cases (leb (0 + size_of (to_int (length text))) (length text))) [
          | inl within ↦ rw (four, within) (keeps _ w ∙ keeps head m.world)
          | inr past ↦ rw (four, past) (keeps head m.world)
        ]
        | inr other ↦ rw (other) (keeps head m.world)
      ]

module _ {World : Type 0} (lib : SocketLib World) (s : IsSending lib) where
  -- `recv_frame` sends nothing.
  pub recv_frame_keeps :
      ((n : ℕ) (w : World) → s.sent (lib.recv n w).1 ≡ s.sent w)
      → (m : Machine World) → s.sent (recv_frame lib m).1.world ≡ s.sent m.world
  unfolding recv_frame
  recv_frame_keeps keeps m =
      let got = lib.recv 4 m.world in
      let after : Machine World = record m { world = got.1 } in
      elim (Bool-cases (is_code 4 got.0.0)) [
        | inl four ↦ rw (four) (body (ntohl got.0.1) after ∙ keeps 4 m.world)
        | inr other ↦ rw (other) (keeps 4 m.world)
      ]
    where
      body : (len : ℕ) (n : Machine World) → s.sent (recv_body lib len n).1.world ≡ s.sent n.world
      body len n = elim (Bool-cases ((len == 0) || ltb 65536 len)) [
        | inl bad ↦ rw (bad) refl
        | inr good ↦ elim (Bool-cases (is_code len (lib.recv len n.world).0.0)) [
          | inl whole ↦ rw (good, whole) (keeps len n.world)
          | inr part ↦ rw (good, part) (keeps len n.world)
        ]
      ]
