-- ===== src/Programs/Turns.antt =====
-- A `main` of MessengerApp over the bytes of a connection, turn by turn.
use lib_crypt_safe_messenger.Common.{
  ℕ, suc, ◌^◌, ◌≤◌, ◌<◌, List, [], ◌∷◌, ◌++◌, append_assoc, append-nil, ◌≡◌, refl, sym, ap, ◌∙◌,
  subst, true, false, Bytes, length, All, arith,
}
use lib_crypt_safe_messenger.Common.Proc.{Machine, returns, throws, Exception, runtime_error}
use lib_crypt_safe_messenger.Frames.{SocketLib, send_frame, recv_frame}
use lib_crypt_safe_messenger.Frames.Stream.{IsSending, IsReceiving, IsDuplex}
use lib_crypt_safe_messenger.Frames.Codec.{frame_of, send_frame_run, recv_frame_run}
use lib_crypt_safe_messenger.Frames.Verdict.{recv_header_short}
use lib_crypt_safe_messenger.Frames.Progress.{send_frame_keeps, recv_frame_keeps}
use lib_crypt_safe_messenger.Transport.{Net}
use lib_crypt_safe_messenger.Programs.{Party, framed, after_send, send_all, after_recv, drive}

-- What the frames look like on the connection.
abbrev pub stream_of : List Bytes → Bytes
stream_of [] = []
stream_of (text ∷ texts) = frame_of text ++ stream_of texts

pub stream_of-append : (xs ys : List Bytes) → stream_of (xs ++ ys) ≡ stream_of xs ++ stream_of ys
stream_of-append [] ys = refl
stream_of-append (x ∷ xs) ys =
    ap (λ t. frame_of x ++ t) (stream_of-append xs ys)
    ∙ sym (append_assoc (frame_of x) (stream_of xs) (stream_of ys))

-- A text that `recv_frame` accepts, and one that `send_frame` can send.
abbrev pub Fitting : Bytes → Type 0
Fitting text = (0 < length text) × (length text ≤ 65536)

abbrev pub Sendable : Bytes → Type 0
Sendable text = length text < 2 ^ 31

abbrev pub ended : Exception
ended = runtime_error "recv header failed"

module _ {Sockets World : Type 0} (conn : SocketLib Sockets) (p : Party World) where
  abbrev pub driven :
      ℕ → p.State → Net Sockets → Machine World → (p.State × Net Sockets) × Machine World
  driven fuel st net m = drive (send_frame conn) (recv_frame conn) p fuel st net m

  pub over_drives :
      (fuel : ℕ) (st : p.State) (net : Net Sockets) (m : Machine World)
      → p.is_over st ≡ true
      → driven (suc fuel) st net m ≡ ((st, net), m)
  unfolding drive
  over_drives fuel st net m over = rw (over) refl

  -- What follows `recv_frame`.
  abbrev continued :
      ℕ → p.State → Machine World → Bytes → Net Sockets → (p.State × Net Sockets) × Machine World
  continued fuel st m frame n =
      let q = p.step st frame m in
      let sent = send_all (send_frame conn) (recv_frame conn) p q.0.0 q.0.1 n in
      driven fuel sent.0 sent.1 q.1

  turn_drives :
      (fuel : ℕ) (st : p.State) (frame : Bytes) (net : Net Sockets) (m : Machine World)
      (w : Sockets)
      → p.is_over st ≡ false
      → recv_frame conn (record { world = net.world; live = 0 })
        ≡ (returns frame, record { world = w; live = 0 })
      → driven (suc fuel) st net m ≡ continued fuel st m frame (record net { world = w })
  unfolding drive
  turn_drives fuel st frame net m w going got = rw (going) (
      ap
        (λ x.
          after_recv (send_frame conn) (recv_frame conn) p st m (framed net x)
            (continued fuel st m))
        got)

module _ {Sockets World : Type 0} (conn : SocketLib Sockets) (s : IsSending conn)
    (r : IsReceiving conn) (d : IsDuplex conn s r) (p : Party World) where
  -- The frames of a turn, one after the other.
  pub send_all_run :
      (st : p.State) (texts : List Bytes) (net : Net Sockets)
      → All Sendable texts
      → let e = send_all (send_frame conn) (recv_frame conn) p st texts net in
        (e.0 ≡ st)
        × (s.sent e.1.world ≡ s.sent net.world ++ stream_of texts)
        × (r.pending e.1.world ≡ r.pending net.world)
  unfolding send_all
  send_all_run st [] net h = (refl, sym (append-nil (s.sent net.world)), refl)
  send_all_run st (text ∷ texts) net (small, rest) =
      let here : Machine Sockets = record { world = net.world; live = 0 } in
      let (w, run, grown) = send_frame_run conn s text small here in
      let next : Net Sockets = record net { world = w } in
      let (same, sent, kept) = send_all_run st texts next rest in
      let still : r.pending w ≡ r.pending net.world =
        sym (ap (λ x. r.pending x.1.world) run) ∙ send_frame_keeps conn r d.send_keeps text here in
      let turn =
        ap
          (λ x.
            after_send (send_frame conn) (recv_frame conn) p (framed net x)
              (send_all (send_frame conn) (recv_frame conn) p st texts))
          run in
      (
        ap (λ e. e.0) turn ∙ same,
        ap (λ e. s.sent e.1.world) turn
            ∙ sent
            ∙ ap (λ t. t ++ stream_of texts) grown
            ∙ append_assoc (s.sent net.world) (frame_of text) (stream_of texts),
        ap (λ e. r.pending e.1.world) turn ∙ kept ∙ still,
      )

  -- The stream is at its end.
  pub driven_to_end :
      (fuel : ℕ) (st : p.State) (net : Net Sockets) (m : Machine World)
      → p.is_over st ≡ false
      → r.pending net.world ≡ []
      → let e = driven conn p (suc fuel) st net m in
        (e.0.0 ≡ p.unread ended st) × (s.sent e.0.1.world ≡ s.sent net.world) × (e.1 ≡ m)
  unfolding drive
  driven_to_end fuel st net m going empty =
      let here : Machine Sockets = record { world = net.world; live = 0 } in
      let there = (recv_frame conn here).1 in
      let run : recv_frame conn here ≡ (throws ended, there) =
        ap (λ o. (o, there)) (recv_header_short conn r here (omega (arith, ap length empty))) in
      let turn =
        ap
          (λ x.
            after_recv (send_frame conn) (recv_frame conn) p st m (framed net x)
              (continued conn p fuel st m))
          run in
      rw (going) (
        ap (λ e. e.0.0) turn,
        ap (λ e. s.sent e.0.1.world) turn ∙ recv_frame_keeps conn s d.recv_keeps here,
        ap (λ e. e.1) turn,
      )

  -- A turn: the frame at the head of what is pending is taken, and the frames of the step are sent.
  pub turn_run :
      (fuel : ℕ) (st : p.State) (frame rest : Bytes) (net : Net Sockets) (m : Machine World)
      → p.is_over st ≡ false
      → Fitting frame
      → r.pending net.world ≡ frame_of frame ++ rest
      → let q = p.step st frame m in
        All Sendable q.0.1
        → (n : Net Sockets) × (driven conn p (suc fuel) st net m ≡ driven conn p fuel q.0.0 n q.1)
          × (s.sent n.world ≡ s.sent net.world ++ stream_of q.0.1)
          × (r.pending n.world ≡ rest)
  turn_run fuel st frame rest net m going (some, fits) pending small =
      let here : Machine Sockets = record { world = net.world; live = 0 } in
      let q = p.step st frame m in
      let (w, got, left) = recv_frame_run conn r frame rest some fits here pending in
      let next : Net Sockets = record net { world = w } in
      let (same, sent, kept) = send_all_run q.0.0 q.0.1 next small in
      let out = send_all (send_frame conn) (recv_frame conn) p q.0.0 q.0.1 next in
      let quiet : s.sent w ≡ s.sent net.world =
        sym (ap (λ x. s.sent x.1.world) got) ∙ recv_frame_keeps conn s d.recv_keeps here in
      (
        out.1,
        turn_drives conn p fuel st frame net m w going got
            ∙ ap (λ x. driven conn p fuel x out.1 q.1) same,
        sent ∙ ap (λ t. t ++ stream_of q.0.1) quiet,
        kept ∙ left,
      )

  -- A turn whose step is known.
  pub turn_to :
      (fuel : ℕ) (st st1 : p.State) (frame rest : Bytes) (out : List Bytes) (net : Net Sockets)
      (m m1 : Machine World)
      → p.is_over st ≡ false
      → Fitting frame
      → r.pending net.world ≡ frame_of frame ++ rest
      → p.step st frame m ≡ ((st1, out), m1)
      → All Sendable out
      → (n : Net Sockets) × (driven conn p (suc fuel) st net m ≡ driven conn p fuel st1 n m1)
        × (s.sent n.world ≡ s.sent net.world ++ stream_of out)
        × (r.pending n.world ≡ rest)
  turn_to fuel st st1 frame rest out net m m1 going fits pending stepped small =
      subst
        (λ (q : (p.State × List Bytes) × Machine World).
          All Sendable q.0.1
          → (n : Net Sockets) × (driven conn p (suc fuel) st net m ≡ driven conn p fuel q.0.0 n q.1)
            × (s.sent n.world ≡ s.sent net.world ++ stream_of q.0.1)
            × (r.pending n.world ≡ rest))
        stepped (turn_run fuel st frame rest net m going fits pending) small
