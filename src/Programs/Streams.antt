-- ===== src/Programs/Streams.antt =====
-- The server of MessengerApp over the bytes of a connection, and over the frames that they are.
use lib_crypt_safe_messenger.Common.{
  ℕ, zero, suc, ◌<◌, List, [], ◌∷◌, ◌++◌, append_assoc, append-nil, ◌≡◌, refl, sym, ap, ◌∙◌, true,
  Bool-cases, inl, inr, Bytes, length, All, All-append, arith,
}
use lib_crypt_safe_messenger.Common.Proc.{Machine, Exception, runtime_error}
use lib_crypt_safe_messenger.OpenSsl.Cipher.{CipherLib}
use lib_crypt_safe_messenger.OpenSsl.Pkey.{PkeyLib}
use lib_crypt_safe_messenger.Frames.{SocketLib, send_frame, recv_frame}
use lib_crypt_safe_messenger.Frames.Stream.{IsSending, IsReceiving, IsDuplex}
use lib_crypt_safe_messenger.Handshake.{
  Server, awaits_client_key, awaits_client_confirm, serves, server_over, server_step, server_run,
  server_unread,
}
use lib_crypt_safe_messenger.Transport.{Net}
use lib_crypt_safe_messenger.Programs.{drive}
use lib_crypt_safe_messenger.Programs.Server.{server_party, server_is_over}
use lib_crypt_safe_messenger.Programs.Turns.{
  stream_of, stream_of-append, Fitting, Sendable, driven, over_drives, driven_to_end, turn_run,
}

module _ {Sockets World : Type 0} (conn : SocketLib Sockets) (s : IsSending conn)
    (r : IsReceiving conn) (d : IsDuplex conn s r) (ciphers : CipherLib World)
    (lib : PkeyLib World) where
  over_run :
      (st : Server lib.Pkey) (frames : List Bytes) (m : Machine World)
      → server_is_over st ≡ true
      → server_run ciphers lib st frames m ≡ ((st, []), m)
  unfolding server_run server_step
  over_run st [] m h = refl
  over_run (awaits_client_key key der) (frame ∷ frames) m h = absurd (cc h)
  over_run (awaits_client_confirm key) (frame ∷ frames) m h = absurd (cc h)
  over_run (serves key shown) (frame ∷ frames) m h = absurd (cc h)
  over_run (server_over o) (frame ∷ frames) m h =
      ap (λ x. ((x.0.0, x.0.1), x.1)) (over_run (server_over o) frames m refl)

  unread_over :
      (e : Exception) (st : Server lib.Pkey) → server_is_over st ≡ true → server_unread e st ≡ st
  unread_over e (awaits_client_key key der) h = absurd (cc h)
  unread_over e (awaits_client_confirm key) h = absurd (cc h)
  unread_over e (serves key shown) h = absurd (cc h)
  unread_over e (server_over o) h = refl

  abbrev server_driven :
      ℕ
      → Server lib.Pkey
      → Net Sockets
      → Machine World
      → (Server lib.Pkey × Net Sockets) × Machine World
  server_driven fuel st net m = driven conn (server_party ciphers lib) fuel st net m

  -- A program that is over leaves the stream alone.
  over_stream :
      (fuel : ℕ) (st : Server lib.Pkey) (frames : List Bytes) (net : Net Sockets)
      (m : Machine World)
      → server_is_over st ≡ true
      → let run = server_run ciphers lib st frames m in
        let e = server_driven (suc fuel) st net m in
        (e.0.0 ≡ server_unread (runtime_error "recv header failed") run.0.0)
        × (s.sent e.0.1.world ≡ s.sent net.world ++ stream_of run.0.1)
        × (e.1 ≡ run.1)
  over_stream fuel st frames net m over =
      let run = over_run st frames m over in
      let stops = over_drives conn (server_party ciphers lib) fuel st net m over in
      (
        ap (λ e. e.0.0) stops
            ∙ sym (unread_over _ st over)
            ∙ sym (ap (λ x. server_unread (runtime_error "recv header failed") x.0.0) run),
        ap (λ e. s.sent e.0.1.world) stops
            ∙ sym (append-nil (s.sent net.world))
            ∙ sym (ap (λ x. s.sent net.world ++ stream_of x.0.1) run),
        ap (λ e. e.1) stops ∙ sym (ap (λ x. x.1) run),
      )

  -- The server with its socket does with the bytes of a connection what the server between two calls of
  -- `recv_frame` does with the frames that they are. Where what the client sends is a sequence of frames of
  -- 1 to 65536 bytes, then nothing, and the server's own frames are of less than 2 GB, it ends in the state
  -- that it reaches over the frames, and in which it then finds the stream at its end; it has sent the
  -- frames that it gives in their order, each behind its length; and the cryptographic library is where it
  -- is after the frames.
  pub server_over_stream :
      (fuel : ℕ) (st : Server lib.Pkey) (frames : List Bytes) (net : Net Sockets)
      (m : Machine World)
      → All Fitting frames
      → r.pending net.world ≡ stream_of frames
      → length frames < fuel
      → All Sendable (server_run ciphers lib st frames m).0.1
      → let run = server_run ciphers lib st frames m in
        let e =
          drive (send_frame conn) (recv_frame conn) (server_party ciphers lib) fuel st net m in
        (e.0.0 ≡ server_unread (runtime_error "recv header failed") run.0.0)
        × (s.sent e.0.1.world ≡ s.sent net.world ++ stream_of run.0.1)
        × (e.1 ≡ run.1)
  unfolding server_run
  server_over_stream zero st frames net m fit pending enough small = absurd (omega (arith, enough))
  server_over_stream (suc fuel) st [] net m fit pending enough small =
      elim (Bool-cases (server_is_over st)) [
        | inl over ↦ over_stream fuel st [] net m over
        | inr going ↦
            let (a, b, c) =
              driven_to_end conn s r d (server_party ciphers lib) fuel st net m going pending in
            (a, b ∙ sym (append-nil (s.sent net.world)), c)
      ]
  server_over_stream (suc fuel) st (frame ∷ frames) net m (fits, fit) pending enough small =
      elim (Bool-cases (server_is_over st)) [
        | inl over ↦ over_stream fuel st (frame ∷ frames) net m over
        | inr going ↦
            let q = server_step ciphers lib st frame m in
            let rest = (server_run ciphers lib q.0.0 frames q.1).0.1 in
            let (mine, later) = All-append Sendable q.0.1 rest small in
            let (n, turn, sent, left) =
              turn_run conn s r d (server_party ciphers lib) fuel st frame (stream_of frames) net m
                going fits pending mine in
            let (a, b, c) =
              server_over_stream fuel q.0.0 frames n q.1 fit left (omega (arith, enough)) later in
            (
              ap (λ e. e.0.0) turn ∙ a,
              ap (λ e. s.sent e.0.1.world) turn
                  ∙ b
                  ∙ ap (λ t. t ++ stream_of rest) sent
                  ∙ append_assoc (s.sent net.world) (stream_of q.0.1) (stream_of rest)
                  ∙ ap (λ t. s.sent net.world ++ t) (sym (stream_of-append q.0.1 rest)),
              ap (λ e. e.1) turn ∙ c,
            )
      ]
