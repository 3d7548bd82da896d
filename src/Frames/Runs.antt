-- ===== src/Frames/Runs.antt =====
-- Frames through a pipe, at concrete inputs.
use lib_crypt_safe_messenger.Common.{
  ◌+◌, ◌≤◌, ◌<◌, ◌≡◌, refl, inl, [], ◌∷◌, ◌++◌, true, Bytes, length, arith, to_int,
}
use lib_crypt_safe_messenger.Common.Proc.{Machine, returns, throws, runtime_error}
use lib_crypt_safe_messenger.Common.Memory.{read_at}
use lib_crypt_safe_messenger.Frames.{send_frame, recv_frame}
use lib_crypt_safe_messenger.Frames.Stream.{pipe, pipe-IsSending, pipe-IsReceiving}
use lib_crypt_safe_messenger.Frames.Codec.{recv_frame-send_frame}
use lib_crypt_safe_messenger.Frames.Verdict.{recv_frame_verdict, frame_size_gap}
use lib_crypt_safe_messenger.Frames.Progress.{recv_frame_takes}

abbrev at : Bytes → Machine Bytes
at bs = record { world = bs; live = 0 }

send_two_bytes :
    send_frame pipe (7 ∷ 8 ∷ []) (at []) ≡ (returns true, at (0 ∷ 0 ∷ 0 ∷ 2 ∷ 7 ∷ 8 ∷ []))
unfolding send_frame read_at to_int
send_two_bytes = refl

recv_two_bytes :
    recv_frame pipe (at (0 ∷ 0 ∷ 0 ∷ 2 ∷ 7 ∷ 8 ∷ 9 ∷ [])) ≡ (returns (7 ∷ 8 ∷ []), at (9 ∷ []))
unfolding recv_frame
recv_two_bytes = refl

recv_frame-send_frame_example :
    (w : Bytes) × (frame : Bytes) × (send_frame pipe (7 ∷ 8 ∷ []) (at []) ≡ (returns true, at w))
    × (w ≡ frame)
    × ((rest : Bytes) (n : Machine Bytes)
        → n.world ≡ frame ++ rest
        → (v : Bytes) × (recv_frame pipe n ≡ (returns (7 ∷ 8 ∷ []), record n { world = v }))
          × (v ≡ rest))
recv_frame-send_frame_example =
    recv_frame-send_frame pipe pipe pipe-IsSending pipe-IsReceiving (7 ∷ 8 ∷ []) (omega arith)
      (omega arith) (at [])

recv_frame_verdict_example :
    ((recv_frame pipe (at (0 ∷ 0 ∷ 0 ∷ 1 ∷ 7 ∷ 8 ∷ []))).0 ≡ returns (7 ∷ []))
    × ((recv_frame pipe (at (0 ∷ 0 ∷ 0 ∷ 1 ∷ 7 ∷ 8 ∷ []))).1.world ≡ 8 ∷ [])
recv_frame_verdict_example =
    (recv_frame_verdict pipe pipe-IsReceiving (at (0 ∷ 0 ∷ 0 ∷ 1 ∷ 7 ∷ 8 ∷ []))).3 (omega arith)
      (omega arith) (omega arith)

frame_size_gap_example :
    (w : Bytes) × (frame : Bytes) × (send_frame pipe [] (at []) ≡ (returns true, at w))
    × (w ≡ frame)
    × ((rest : Bytes) (n : Machine Bytes)
        → n.world ≡ frame ++ rest
        → ((recv_frame pipe n).0 ≡ throws (runtime_error "Invalid frame length"))
          × ((recv_frame pipe n).1.world ≡ rest))
frame_size_gap_example =
    frame_size_gap pipe pipe pipe-IsSending pipe-IsReceiving [] (inl refl) (omega arith) (at [])

abbrev two_bytes : Bytes
two_bytes = 7 ∷ 8 ∷ []

recv_frame_takes_example :
    (0 < length two_bytes)
    × (length two_bytes ≤ 65536)
    × (length (pipe-IsReceiving.pending (9 ∷ [])) + 4 + length two_bytes
        ≡ length (pipe-IsReceiving.pending (0 ∷ 0 ∷ 0 ∷ 2 ∷ 7 ∷ 8 ∷ 9 ∷ [])))
recv_frame_takes_example =
    recv_frame_takes pipe pipe-IsReceiving (at (0 ∷ 0 ∷ 0 ∷ 2 ∷ 7 ∷ 8 ∷ 9 ∷ [])) (at (9 ∷ []))
      two_bytes recv_two_bytes
