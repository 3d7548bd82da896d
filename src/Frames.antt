-- ===== src/Frames.antt =====
-- MessengerApp/server.cpp and MessengerApp/client.cpp: `send_frame` and `recv_frame`, which the two files
-- share word for word. A frame is four bytes of length, the highest first, and the text.
pub mod Stream
pub mod Client
pub mod Codec
pub mod Verdict
pub mod Progress
mod Runs
use lib_crypt_safe_messenger.Common.{
  ℕ, suc, ◌+◌, ◌-◌, ◌*◌, ◌/◌, ◌%◌, ◌^◌, [], ◌∷◌, Bool, false, not, ◌||◌, ltb, ◌==◌, if◌then◌else◌,
  Bytes, length, ℤ, pos, negsuc, is_code, to_int,
}
use lib_crypt_safe_messenger.Common.Proc.{Proc, runtime_error, ◌>>=◌, return, throw, call}
use lib_crypt_safe_messenger.Common.Memory.{read_at}

-- The socket calls of one connection: `send(sock, data, size, 0)`, with what it returns, and
-- `recv(sock, buf, size, MSG_WAITALL)`, with what it returns and the buffer afterwards.
pub record SocketLib (World : Type 0) : Type 0 where
  pub send : Bytes → World → ℤ × World
  pub recv : ℕ → World → (ℤ × Bytes) × World

-- The bytes of `htonl(n)`, and `ntohl` of four bytes.
abbrev pub htonl : ℕ → Bytes
htonl n = (n / 2 ^ 24) % 256 ∷ (n / 2 ^ 16) % 256 ∷ (n / 256) % 256 ∷ n % 256 ∷ []

abbrev pub ntohl : Bytes → ℕ
ntohl [] = 0
ntohl (a ∷ []) = 0
ntohl (a ∷ b ∷ []) = 0
ntohl (a ∷ b ∷ c ∷ []) = 0
ntohl (a ∷ b ∷ c ∷ d ∷ rest) = a * 2 ^ 24 + b * 2 ^ 16 + c * 256 + d

-- An int where a size_t is expected.
abbrev pub size_of : ℤ → ℕ
size_of (pos n) = n
size_of (negsuc n) = 2 ^ 64 - suc n

-- `a == b` of two ints.
abbrev pub same_int : ℤ → ℤ → Bool
same_int a (pos n) = is_code n a
same_int (pos m) (negsuc n) = false
same_int (negsuc m) (negsuc n) = m == n

module _ {World : Type 0} (lib : SocketLib World) where
  unfoldable pub send_frame : Bytes → Proc World Bool
  send_frame text = do
    wrote ← call (lib.send (htonl (length text % 2 ^ 32)))
    if not (is_code 4 wrote) then return false else do
      source ← read_at 0 (size_of (to_int (length text))) text
      written ← call (lib.send source)
      return (same_int written (to_int (length text)))

  -- What follows the header.
  abbrev pub recv_body : ℕ → Proc World Bytes
  recv_body len =
      if (len == 0) || ltb 65536 len then throw (runtime_error "Invalid frame length") else do
        (got, buf) ← call (lib.recv len)
        if is_code len got then return buf else throw (runtime_error "recv data failed")

  unfoldable pub recv_frame : Proc World Bytes
  recv_frame = do
    (got, header) ← call (lib.recv 4)
    if is_code 4 got then recv_body (ntohl header) else throw (runtime_error "recv header failed")
