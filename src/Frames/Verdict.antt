-- ===== src/Frames/Verdict.antt =====
-- What `recv_frame` makes of any stream, and the frames that it refuses.
use lib_crypt_safe_messenger.Common.{
  ℕ, ◌+◌, ◌^◌, ◌≤◌, ◌<◌, ◌≡◌, ◌⊎◌, inl, inr, refl, sym, ap, subst, ◌∙◌, ◌++◌, true, false, ◌==◌,
  Bytes, length, take, drop, ltb-false, lt→ltb, is_code, is_code-false, arith, length-drop,
}
use lib_crypt_safe_messenger.Common.Proc.{Machine, returns, throws, runtime_error}
use lib_crypt_safe_messenger.Frames.{SocketLib, ntohl, send_frame, recv_frame, recv_body}
use lib_crypt_safe_messenger.Frames.Stream.{IsSending, IsReceiving}
use lib_crypt_safe_messenger.Frames.Codec.{
  frame_of, ntohl-htonl, send_frame_run, recv_header_run, recv_body_run,
}

module _ {World : Type 0} (lib : SocketLib World) (r : IsReceiving lib) where
  recv_body_refused :
      (n : ℕ) (m : Machine World)
      → (n ≡ 0) ⊎ (65536 < n)
      → recv_body lib n m ≡ (throws (runtime_error "Invalid frame length"), m)
  recv_body_refused n m (inl none) = rw (none) refl
  recv_body_refused n m (inr big) =
      let some : (n == 0) ≡ false = ground arith in rw (some, lt→ltb 65536 n big) refl

  recv_body_short :
      (n : ℕ) (m : Machine World)
      → 0 < n
      → n ≤ 65536
      → length (r.pending m.world) < n
      → (recv_body lib n m).0 ≡ throws (runtime_error "recv data failed")
  recv_body_short n m low high short =
      let some : (n == 0) ≡ false = ground arith in
      let other : is_code n (lib.recv n m.world).0.0 ≡ false =
        is_code-false n _ (r.falls_short n m.world short) in
      rw (some, ltb-false 65536 n high, other) refl

  pub recv_header_short :
      (m : Machine World)
      → length (r.pending m.world) < 4
      → (recv_frame lib m).0 ≡ throws (runtime_error "recv header failed")
  unfolding recv_frame
  recv_header_short m short =
      let other : is_code 4 (lib.recv 4 m.world).0.0 ≡ false =
        is_code-false 4 _ (r.falls_short 4 m.world short) in
      rw (other) refl

  -- The length that the stream announces.
  abbrev pub announced : Bytes → ℕ
  announced stream = ntohl (take 4 stream)

  -- What `recv_frame` does with whatever is pending: less than a header, and it throws "recv header
  -- failed"; a length of 0 or of more than 65536, and it throws "Invalid frame length" and leaves what
  -- follows the header; a length between them and less than that many bytes, and it throws "recv data
  -- failed"; and else it returns that many bytes, and what follows them is pending.
  pub recv_frame_verdict :
      (m : Machine World)
      → let stream = r.pending m.world in
        (length stream < 4 → (recv_frame lib m).0 ≡ throws (runtime_error "recv header failed"))
        × (4 ≤ length stream
            → (announced stream ≡ 0) ⊎ (65536 < announced stream)
            → ((recv_frame lib m).0 ≡ throws (runtime_error "Invalid frame length"))
              × (r.pending (recv_frame lib m).1.world ≡ drop 4 stream))
        × (4 ≤ length stream
            → 0 < announced stream
            → announced stream ≤ 65536
            → length stream < 4 + announced stream
            → (recv_frame lib m).0 ≡ throws (runtime_error "recv data failed"))
        × (0 < announced stream
            → announced stream ≤ 65536
            → 4 + announced stream ≤ length stream
            → ((recv_frame lib m).0 ≡ returns (take (announced stream) (drop 4 stream)))
              × (r.pending (recv_frame lib m).1.world ≡ drop (announced stream) (drop 4 stream)))
  recv_frame_verdict m =
      let stream = r.pending m.world in
      let n = announced stream in
      let m1 : Machine World = record m { world = (lib.recv 4 m.world).1 } in
      let left = r.consumes 4 m.world in
      (
        recv_header_short m,
        (λ whole bad.
            let run = recv_header_run lib r m whole ∙ recv_body_refused n m1 bad in
            (ap (λ x. x.0) run, ap (λ x. r.pending x.1.world) run ∙ left whole)),
        (λ whole low high short.
            ap (λ x. x.0) (recv_header_run lib r m whole)
            ∙ recv_body_short n m1 low high
                (omega (arith, ap length (left whole), length-drop 4 stream))),
        (λ low high long.
            let whole : 4 ≤ length stream = omega (arith, long) in
            let enough : n ≤ length (r.pending m1.world) =
              omega (arith, ap length (left whole), length-drop 4 stream, long) in
            let run = recv_header_run lib r m whole ∙ recv_body_run lib r n m1 low high enough in
            (
              ap (λ x. x.0) run ∙ ap (λ p. returns (take n p)) (left whole),
              ap (λ x. r.pending x.1.world) run
                  ∙ r.consumes n m1.world enough
                  ∙ ap (drop n) (left whole),
            )),
      )

-- `send_frame` reports success for a text that is empty or of more than 65536 bytes (and less than 2 GB),
-- but whoever has those bytes at the head of what is pending refuses the frame, and the text itself is
-- left as if it were the next frame.
pub frame_size_gap :
    {World Other : Type 0} (lib : SocketLib World) (far : SocketLib Other)
    → (s : IsSending lib) → (r : IsReceiving far) → (text : Bytes)
    → (length text ≡ 0) ⊎ (65536 < length text)
    → length text < 2 ^ 31
    → (m : Machine World)
    → (w : World) × (frame : Bytes) × (send_frame lib text m
        ≡ (returns true, record m { world = w }))
      × (s.sent w ≡ s.sent m.world ++ frame)
      × ((rest : Bytes) (n : Machine Other)
          → r.pending n.world ≡ frame ++ rest
          → ((recv_frame far n).0 ≡ throws (runtime_error "Invalid frame length"))
            × (r.pending (recv_frame far n).1.world ≡ text ++ rest))
frame_size_gap lib far s r text bad small m =
    let (w, run, grown) = send_frame_run lib s text small m in
    (
      w,
      frame_of text,
      run,
      grown,
      λ rest n front.
          let len : announced far r (r.pending n.world) ≡ length text =
            ap (λ p. ntohl (take 4 p)) front ∙ ntohl-htonl (length text) (omega arith) in
          let (same, left) =
            (recv_frame_verdict far r n).1 (omega (arith, ap length front))
              (subst (λ k. (k ≡ 0) ⊎ (65536 < k)) (sym len) bad) in
          (same, left ∙ ap (drop 4) front),
    )
