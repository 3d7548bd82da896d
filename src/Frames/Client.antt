-- ===== src/Frames/Client.antt =====
-- MessengerApp/client.cpp: its own `send_frame` and `recv_frame`, which are those of MessengerApp/server.cpp
-- once more.
use lib_crypt_safe_messenger.Common.{
  ℕ, ◌%◌, ◌^◌, ◌≡◌, refl, Bool, false, not, ◌||◌, ltb, ◌==◌, if◌then◌else◌, Bytes, length, is_code,
  to_int,
}
use lib_crypt_safe_messenger.Common.Proc.{Proc, runtime_error, ◌>>=◌, return, throw, call}
use lib_crypt_safe_messenger.Common.Memory.{read_at}
use lib_crypt_safe_messenger.Frames
use lib_crypt_safe_messenger.Frames.{SocketLib, htonl, ntohl, size_of, same_int}

module _ {World : Type 0} (lib : SocketLib World) where
  unfoldable pub send_frame : Bytes → Proc World Bool
  send_frame text = do
    wrote ← call (lib.send (htonl (length text % 2 ^ 32)))
    if not (is_code 4 wrote) then return false else do
      source ← read_at 0 (size_of (to_int (length text))) text
      written ← call (lib.send source)
      return (same_int written (to_int (length text)))

  -- What follows the header.
  abbrev pub recv_body : ℕ → Proc World Bytes
  recv_body len =
      if (len == 0) || ltb 65536 len then throw (runtime_error "Invalid frame length") else do
        (got, buf) ← call (lib.recv len)
        if is_code len got then return buf else throw (runtime_error "recv data failed")

  unfoldable pub recv_frame : Proc World Bytes
  recv_frame = do
    (got, header) ← call (lib.recv 4)
    if is_code 4 got then recv_body (ntohl header) else throw (runtime_error "recv header failed")

  pub send_frame_same : (text : Bytes) → send_frame text ≡ Frames.send_frame lib text
  unfolding send_frame Frames.send_frame
  send_frame_same text = refl

  pub recv_frame_same : recv_frame ≡ Frames.recv_frame lib
  unfolding recv_frame Frames.recv_frame
  recv_frame_same = refl
