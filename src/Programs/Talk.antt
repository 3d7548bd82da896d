-- ===== src/Programs/Talk.antt =====
-- The two programs of MessengerApp with each other, over the bytes of their connections.
use lib_crypt_safe_messenger.Common.{
  ℕ, suc, ◌<◌, List, [], ◌∷◌, ◌++◌, append_assoc, append-nil, ◌≡◌, ◌≢◌, refl, sym, ap, ◌∙◌, subst,
  Bool, Bytes, length, pos, All, arith,
}
use mathlib.Core.Path.{transport}
use lib_crypt_safe_messenger.Common.Proc.{Proc, Machine, returns, runtime_error}
use lib_crypt_safe_messenger.OpenSsl.Cipher.{CipherLib, WritesWithin, IsGcm, IsWorking}
use lib_crypt_safe_messenger.OpenSsl.Pkey.{PkeyLib}
use lib_crypt_safe_messenger.OpenSsl.Curve.{IsP256}
use lib_crypt_safe_messenger.OpenSsl.Mac.{IsHmac}
use lib_crypt_safe_messenger.KeyExchange.Hex.{IsSha256}
use lib_crypt_safe_messenger.KeyExchange.Steps.{public_der}
use lib_crypt_safe_messenger.Frames
use lib_crypt_safe_messenger.Frames.Client
use lib_crypt_safe_messenger.Frames.{SocketLib}
use lib_crypt_safe_messenger.Frames.Codec.{frame_of}
use lib_crypt_safe_messenger.Frames.Stream.{IsSending, IsReceiving, IsDuplex}
use lib_crypt_safe_messenger.Handshake.{
  Server, awaits_client_key, serves, server_over, awaits_server_key, awaits_server_confirm,
  client_over, client_step, server_run, server_unread, messages,
}
use lib_crypt_safe_messenger.Handshake.Turns.{InFrame, server_run_step}
use lib_crypt_safe_messenger.Handshake.Honest.{handshake_frames}
use lib_crypt_safe_messenger.Transport.{Net}
use lib_crypt_safe_messenger.Programs.{drive, send_all}
use lib_crypt_safe_messenger.Programs.Server.{server_party}
use lib_crypt_safe_messenger.Programs.Client.{client_party}
use lib_crypt_safe_messenger.Programs.Turns.{
  stream_of, Sendable, driven, over_drives, send_all_run, turn_to,
}
use lib_crypt_safe_messenger.Programs.Streams.{server_over_stream}

sendable : (texts : List Bytes) → All InFrame texts → All Sendable texts
sendable [] h = tt
sendable (t ∷ ts) (h, hs) = (omega (arith, h.1), sendable ts hs)

module _ {Sockets World : Type 0} (conn : SocketLib Sockets) (s : IsSending conn)
    (r : IsReceiving conn) (d : IsDuplex conn s r) (ciphers : CipherLib World)
    (lib : PkeyLib World) where
  -- What the client does with the two frames of a server, from its key pair on.
  abbrev Completes :
      (Bytes → Proc Sockets Bool)
      → Proc Sockets Bytes
      → lib.Pkey
      → Bytes
      → List Bytes
      → Net Sockets
      → Machine World
      → Machine World
      → Type 0
  Completes send recv key client_pub frames net n n2 =
      let party = client_party ciphers lib in
      let first = send_all send recv party (awaits_server_key key) (client_pub ∷ []) net in
      let e = drive send recv party 3 first.0 first.1 n in
      (e.0.0 ≡ client_over (returns 0))
      × (s.sent e.0.1.world ≡ s.sent net.world ++ stream_of (client_pub ∷ frames))
      × (e.1 ≡ n2)

  client_talks_over :
      (key : lib.Pkey) (client_pub server_pub confirm aes_key : Bytes) (frames : List Bytes)
      (net : Net Sockets) (n n1 n2 : Machine World)
      → client_step ciphers lib (awaits_server_key key) server_pub n
        ≡ ((awaits_server_confirm aes_key, []), n1)
      → client_step ciphers lib (awaits_server_confirm aes_key) confirm n1
        ≡ ((client_over (returns 0), frames), n2)
      → All InFrame (client_pub ∷ frames)
      → All InFrame (server_pub ∷ confirm ∷ [])
      → r.pending net.world ≡ stream_of (server_pub ∷ confirm ∷ [])
      → Completes (Frames.send_frame conn) (Frames.recv_frame conn) key client_pub frames net n n2
  client_talks_over key client_pub server_pub confirm aes_key frames net n n1 n2 keyed checked
        (own, mine) (theirs, (theirs2, _)) pending =
      let party = client_party ciphers lib in
      let (same, sent0, kept) =
        send_all_run conn s r d party (awaits_server_key key) (client_pub ∷ []) net
          (sendable (client_pub ∷ []) (own, tt)) in
      let first =
        send_all (Frames.send_frame conn) (Frames.recv_frame conn) party (awaits_server_key key)
          (client_pub ∷ []) net in
      let (net1, turn1, sent1, left1) =
        turn_to conn s r d party 2 (awaits_server_key key) (awaits_server_confirm aes_key)
          server_pub (stream_of (confirm ∷ [])) [] first.1 n n1 refl theirs (kept ∙ pending) keyed
          tt in
      let (net2, turn2, sent2, left2) =
        turn_to conn s r d party 1 (awaits_server_confirm aes_key) (client_over (returns 0)) confirm
          [] frames net1 n1 n2 refl theirs2 left1 checked (sendable frames mine) in
      let whole =
        ap (λ st. driven conn party 3 st first.1 n) same
        ∙ turn1
        ∙ turn2
        ∙ over_drives conn party 0 (client_over (returns 0)) net2 n2 refl in
      (
        ap (λ e. e.0.0) whole,
        ap (λ e. s.sent e.0.1.world) whole
            ∙ sent2
            ∙ ap (λ t. t ++ stream_of frames) (sent1 ∙ append-nil (s.sent first.1.world) ∙ sent0)
            ∙ append_assoc (s.sent net.world) (stream_of (client_pub ∷ [])) (stream_of frames)
            ∙ ap (λ t. s.sent net.world ++ (t ++ stream_of frames))
                (append-nil (frame_of client_pub)),
        ap (λ e. e.1) whole,
      )

  -- The client's own `send_frame` and `recv_frame` are the server's.
  client_talks_own :
      (key : lib.Pkey) (client_pub : Bytes) (frames : List Bytes) (net : Net Sockets)
      (n n2 : Machine World)
      → Completes (Frames.send_frame conn) (Frames.recv_frame conn) key client_pub frames net n n2
      → Completes (Client.send_frame conn) (Client.recv_frame conn) key client_pub frames net n n2
  client_talks_own key client_pub frames net n n2 h =
      transport
        (λ i.
          Completes (λ t. sym (Client.send_frame_same conn t) i)
            (sym (Client.recv_frame_same conn) i) key client_pub frames net n n2)
        h

  server_talks_over :
      (st : Server lib.Pkey) (texts shown sent : List Bytes) (aes_key : Bytes) (fuel : ℕ)
      (net : Net Sockets) (m m2 : Machine World)
      → server_run ciphers lib st texts m ≡ ((serves aes_key shown, sent), m2)
      → All InFrame texts
      → All InFrame sent
      → r.pending net.world ≡ stream_of texts
      → length texts < fuel
      → let e =
          drive
            (Frames.send_frame conn)
            (Frames.recv_frame conn)
            (server_party ciphers lib)
            fuel
            st
            net
            m in
        (e.0.0 ≡ server_over (returns 0))
        × (s.sent e.0.1.world ≡ s.sent net.world ++ stream_of sent)
  server_talks_over st texts shown sent aes_key fuel net m m2 run fits small pending enough =
      let (a, b, _) =
        server_over_stream conn s r d ciphers lib fuel st texts net m fits pending enough
          (subst (λ x. All Sendable x.0.1) (sym run) (sendable sent small)) in
      (
        a ∙ ap (λ x. server_unread (runtime_error "recv header failed") x.0.0) run,
        b ∙ ap (λ x. s.sent net.world ++ stream_of x.0.1) run,
      )

-- The two programs over two connections in good order, with keys on the curve and libraries in working
-- order, RAND_bytes never returning 0. There are frames of the client, and a confirmation of the server,
-- such that: the server, where its connection brings the bytes of the client's public key and of these
-- frames, then nothing, ends with exit code 0 and has sent exactly the bytes of its public key and of that
-- confirmation, each in its frame; over these frames it has shown the client's three texts in their
-- order; and the client, where its connection brings what the server sends, ends with exit code 0 and
-- has sent exactly the bytes of its public key and of its frames.
pub programs_talk :
    {Sockets Others World : Type 0} (near : SocketLib Sockets) (far : SocketLib Others)
    (ciphers : CipherLib World) (lib : PkeyLib World)
    → (s : IsSending near) → (r : IsReceiving near) → IsDuplex near s r
    → (t : IsSending far) → (q : IsReceiving far) → IsDuplex far t q
    → WritesWithin ciphers
    → IsGcm ciphers
    → IsWorking ciphers
    → ((w : World) → (ciphers.rand_bytes 12 w).0.0 ≢ pos 0)
    → (p : IsP256 lib) → IsSha256 lib
    → IsHmac lib
    → (a b : lib.Pkey) → p.OnCurve a
    → p.OnCurve b
    → (to_server : Bytes → Net Sockets) → ((bs : Bytes) → r.pending (to_server bs).world ≡ bs)
    → (to_client : Bytes → Net Others) → ((bs : Bytes) → q.pending (to_client bs).world ≡ bs)
    → (m n : Machine World)
    → let server_pub = public_der lib p b in
      let client_pub = public_der lib p a in
      (confirm : Bytes) × (aes_key : Bytes) × (frames : List Bytes) × let server_frames =
          server_pub ∷ confirm ∷ [] in
        let client_frames = client_pub ∷ frames in
        let at_server = to_server (stream_of client_frames) in
        let at_client = to_client (stream_of server_frames) in
        let server_end =
          drive
            (Frames.send_frame near)
            (Frames.recv_frame near)
            (server_party ciphers lib)
            (suc (length client_frames))
            (awaits_client_key b server_pub)
            at_server
            m in
        let first =
          send_all
            (Client.send_frame far)
            (Client.recv_frame far)
            (client_party ciphers lib)
            (awaits_server_key a)
            (client_pub ∷ [])
            at_client in
        let client_end =
          drive
            (Client.send_frame far)
            (Client.recv_frame far)
            (client_party ciphers lib)
            3
            first.0
            first.1
            n in
        ((server_end.0.0 ≡ server_over (returns 0))
          × (s.sent server_end.0.1.world ≡ s.sent at_server.world ++ stream_of server_frames)
          × ((server_run ciphers lib (awaits_client_key b server_pub) client_frames m).0.0
              ≡ serves aes_key messages))
        × ((client_end.0.0 ≡ client_over (returns 0))
            × (t.sent client_end.0.1.world ≡ t.sent at_client.world ++ stream_of client_frames))
programs_talk near far ciphers lib s r d t q e within g works draws p sha h a b ha hb to_server
      brings to_client brings2 m n =
    let server_pub = public_der lib p b in
    let client_pub = public_der lib p a in
    let (confirm, key, frames, n1, n2, m1, m2, keyed, taken, checked, served, theirs, ours) =
      handshake_frames ciphers lib within g works draws p sha h a b ha hb m n in
    let run =
      server_run_step ciphers lib (awaits_client_key b server_pub) client_pub frames m keyed
        served in
    let (over, sent) =
      server_talks_over near s r d ciphers lib (awaits_client_key b server_pub)
        (client_pub ∷ frames) messages (server_pub ∷ confirm ∷ []) key
        (suc (length (client_pub ∷ frames))) (to_server (stream_of (client_pub ∷ frames))) m m2 run
        theirs ours (brings (stream_of (client_pub ∷ frames))) (omega arith) in
    let (over2, sent2, _) =
      client_talks_own far t q e ciphers lib a client_pub frames
        (to_client (stream_of (server_pub ∷ confirm ∷ []))) n n2
        (client_talks_over far t q e ciphers lib a client_pub server_pub confirm key frames
          (to_client (stream_of (server_pub ∷ confirm ∷ []))) n n1 n2 taken checked theirs ours
          (brings2 (stream_of (server_pub ∷ confirm ∷ [])))) in
    (confirm, key, frames, ((over, sent, ap (λ x. x.0.0) run), (over2, sent2)))
