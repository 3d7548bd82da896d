-- ===== src/Frames/Codec.antt =====
-- The frame's length, and a frame from one end of a stream to the other.
use lib_crypt_safe_messenger.Common.{
  ℕ, ◌+◌, ◌%◌, ◌^◌, ◌≤◌, ◌<◌, ◌≡◌, refl, ap, ◌∙◌, ◌++◌, append_assoc, true, false, ◌==◌, Bytes,
  length, take, drop, length-append, take_all, take-append_exact, drop-append_exact, ==_self,
  ltb-false, to_int_small, arith,
}
use lib_crypt_safe_messenger.Common.Proc.{Machine, returns, step}
use lib_crypt_safe_messenger.Common.Memory.{read_at, read_at_within}
use lib_crypt_safe_messenger.Frames.{SocketLib, htonl, ntohl, send_frame, recv_frame, recv_body}
use lib_crypt_safe_messenger.Frames.Stream.{IsSending, IsReceiving}

pub ntohl-htonl : (n : ℕ) → n < 2 ^ 32 → ntohl (htonl n) ≡ n
ntohl-htonl n h = omega arith

-- What a text looks like on the stream.
abbrev pub frame_of : Bytes → Bytes
frame_of text = htonl (length text) ++ text

module _ {World : Type 0} (lib : SocketLib World) (s : IsSending lib) where
  pub send_frame_run :
      (text : Bytes)
      → length text < 2 ^ 31
      → (m : Machine World)
      → (w : World) × (send_frame lib text m ≡ (returns true, record m { world = w }))
        × (s.sent w ≡ s.sent m.world ++ frame_of text)
  unfolding send_frame
  send_frame_run text small m =
      let n = length text in
      let whole : n % 2 ^ 32 ≡ n = omega arith in
      let w1 = (lib.send (htonl (n % 2 ^ 32)) m.world).1 in
      (
        (lib.send text w1).1,
        rw (s.takes_all (htonl (n % 2 ^ 32)) m.world, to_int_small n small)
            (step (read_at 0 n text) (record m { world = w1 }) _
              (read_at_within (record m { world = w1 }) 0 n text (omega arith))
              (rw (take_all n text (omega arith), s.takes_all text w1, ==_self n) refl)),
        s.appends text w1
            ∙ ap (λ bs. bs ++ text) (s.appends _ m.world)
            ∙ append_assoc (s.sent m.world) _ text
            ∙ ap (λ k. s.sent m.world ++ (htonl k ++ text)) whole,
      )

module _ {World : Type 0} (lib : SocketLib World) (r : IsReceiving lib) where
  -- A whole header.
  pub recv_header_run :
      (m : Machine World)
      → 4 ≤ length (r.pending m.world)
      → recv_frame lib m
        ≡ recv_body lib
            (ntohl (take 4 (r.pending m.world)))
            (record m { world = (lib.recv 4 m.world).1 })
  unfolding recv_frame
  recv_header_run m h = rw (r.gives 4 m.world h) refl

  -- A whole text.
  pub recv_body_run :
      (n : ℕ) (m : Machine World)
      → 0 < n
      → n ≤ 65536
      → n ≤ length (r.pending m.world)
      → recv_body lib n m
        ≡ (returns (take n (r.pending m.world)), record m { world = (lib.recv n m.world).1 })
  recv_body_run n m low high h =
      let some : (n == 0) ≡ false = ground arith in
      rw (some, ltb-false 65536 n high, r.gives n m.world h, ==_self n) refl

  -- A frame at the head of the stream.
  pub recv_frame_run :
      (text rest : Bytes)
      → 0 < length text
      → length text ≤ 65536
      → (m : Machine World) → r.pending m.world ≡ frame_of text ++ rest
      → (w : World) × (recv_frame lib m ≡ (returns text, record m { world = w }))
        × (r.pending w ≡ rest)
  recv_frame_run text rest low high m front =
      let n = length text in
      let w1 = (lib.recv 4 m.world).1 in
      let m1 : Machine World = record m { world = w1 } in
      let long : length (r.pending m.world) ≡ 4 + n + length rest =
        ap length front ∙ omega (arith, length-append text rest) in
      let head : ntohl (take 4 (r.pending m.world)) ≡ n =
        ap (λ p. ntohl (take 4 p)) front ∙ ntohl-htonl n (omega arith) in
      let left : r.pending w1 ≡ text ++ rest =
        r.consumes 4 m.world (omega (arith, long)) ∙ ap (drop 4) front in
      let enough : n ≤ length (r.pending w1) =
        omega (arith, ap length left, length-append text rest) in
      (
        (lib.recv n w1).1,
        recv_header_run m (omega (arith, long))
            ∙ ap (λ k. recv_body lib k m1) head
            ∙ recv_body_run n m1 low high enough
            ∙ ap (λ t. (returns t, record m { world = (lib.recv n w1).1 }))
                (ap (take n) left ∙ take-append_exact n text rest refl),
        r.consumes n w1 enough ∙ ap (drop n) left ∙ drop-append_exact n text rest refl,
      )

-- A text of 1 to 65536 bytes is sent whole, as one frame, and `send_frame` reports success. Whoever has
-- those bytes at the head of what is pending receives that text, and is left with what followed it: the
-- two sockets are any two streams in good order.
pub recv_frame-send_frame :
    {World Other : Type 0} (lib : SocketLib World) (far : SocketLib Other)
    → (s : IsSending lib) → (r : IsReceiving far) → (text : Bytes) → 0 < length text
    → length text ≤ 65536
    → (m : Machine World)
    → (w : World) × (frame : Bytes) × (send_frame lib text m
        ≡ (returns true, record m { world = w }))
      × (s.sent w ≡ s.sent m.world ++ frame)
      × ((rest : Bytes) (n : Machine Other)
          → r.pending n.world ≡ frame ++ rest
          → (v : Other) × (recv_frame far n ≡ (returns text, record n { world = v }))
            × (r.pending v ≡ rest))
recv_frame-send_frame lib far s r text low high m =
    let (w, run, grown) = send_frame_run lib s text (omega arith) m in
    (w, frame_of text, run, grown, λ rest n front. recv_frame_run far r text rest low high n front)
