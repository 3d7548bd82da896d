-- ===== src/Frames/Stream.antt =====
-- A connection in good order, as the manuals of send(2) and recv(2) describe it: a stream of bytes.
use lib_crypt_safe_messenger.Common.{
  ℕ, ◌≤◌, ◌<◌, ◌≡◌, ◌≢◌, refl, ◌++◌, Bytes, length, take, drop, leb, if◌then◌else◌, pos, [], arith,
}
use lib_crypt_safe_messenger.Frames.{SocketLib}

-- `sent w` is what has been sent on the connection so far; the socket takes all that it is given.
pub record IsSending {World : Type 0} (lib : SocketLib World) : Type 0 where
  pub sent : World → Bytes
  pub takes_all : (bs : Bytes) (w : World) → (lib.send bs w).0 ≡ pos (length bs)
  pub appends : (bs : Bytes) (w : World) → sent (lib.send bs w).1 ≡ sent w ++ bs

-- `pending w` is what the other side has sent and this side has not read. With MSG_WAITALL, a read of as
-- much gives it whole; where there is less (the other side has closed, the time is over), the count
-- returned is another.
pub record IsReceiving {World : Type 0} (lib : SocketLib World) : Type 0 where
  pub pending : World → Bytes
  pub gives :
      (n : ℕ) (w : World) → n ≤ length (pending w) → (lib.recv n w).0 ≡ (pos n, take n (pending w))
  pub consumes :
      (n : ℕ) (w : World) → n ≤ length (pending w) → pending (lib.recv n w).1 ≡ drop n (pending w)
  pub falls_short : (n : ℕ) (w : World) → length (pending w) < n → (lib.recv n w).0.0 ≢ pos n

-- What is sent does not come back to the sender, and what is read has not been sent.
pub record IsDuplex {World : Type 0} (lib : SocketLib World) (s : IsSending lib)
    (r : IsReceiving lib) : Type 0 where
  pub send_keeps : (bs : Bytes) (w : World) → r.pending (lib.send bs w).1 ≡ r.pending w
  pub recv_keeps : (n : ℕ) (w : World) → s.sent (lib.recv n w).1 ≡ s.sent w

-- A pipe: what is sent is pending.
abbrev pub pipe : SocketLib Bytes
pipe = record {
  send = λ bs w. (pos (length bs), w ++ bs);
  recv =
      λ n w. if leb n (length w) then ((pos n, take n w), drop n w) else ((pos (length w), w), []);
}

abbrev pub pipe-IsSending : IsSending pipe
pipe-IsSending = record { sent = λ w. w; takes_all = λ bs w. refl; appends = λ bs w. refl }

abbrev pub pipe-IsReceiving : IsReceiving pipe
pipe-IsReceiving = record {
  pending = λ w. w;
  gives = λ n w h. ground arith;
  consumes = λ n w h. ground arith;
  falls_short = λ n w h. ground arith;
}
