-- ===== src/Programs/Endings.antt =====
-- How the two programs of MessengerApp end, and what they leave open.
use lib_crypt_safe_messenger.Common.{
  ℕ, ◌<◌, ◌≡◌, refl, ap, ◌∙◌, ◌⊎◌, inl, inr, true, Option, some, Bytes, length, ℤ, pos, negsuc,
}
use lib_crypt_safe_messenger.Common.Proc.{Machine, Outcome, returns, throws, faults}
use lib_crypt_safe_messenger.OpenSsl.Cipher.{CipherLib}
use lib_crypt_safe_messenger.OpenSsl.Pkey.{PkeyLib}
use lib_crypt_safe_messenger.Frames.{send_frame, recv_frame}
use lib_crypt_safe_messenger.Frames.Stream.{IsReceiving}
use lib_crypt_safe_messenger.Handshake.{
  Server, awaits_client_key, awaits_client_confirm, serves, server_over, server_start,
  server_unread,
}
use lib_crypt_safe_messenger.Transport.{Net, Platform}
use lib_crypt_safe_messenger.Programs.{TcpCalls, connection, close_fd, drive, startup, without}
use lib_crypt_safe_messenger.Programs.Server.{
  server_party, server_is_over, server_ending, server_setup, server_serves, server_exit,
  server_accepted, server_main,
}
use lib_crypt_safe_messenger.Programs.Progress.{
  IsEnding, Delivered, drive_ends, drive_goes_on, drive_keeps,
}
use lib_crypt_safe_messenger.Programs.Descriptors.{
  adding, without-adding, cleaned, server_setup_opens,
}

module _ {World : Type 0} (ciphers : CipherLib World) (lib : PkeyLib World) where
  server_party-IsEnding : IsEnding (server_party ciphers lib)
  server_party-IsEnding = record {
    unread_ends = λ e s. elim s as (λ k. server_is_over (server_unread e k) ≡ true) [
      | awaits_client_key key der ↦ refl
      | awaits_client_confirm key ↦ refl
      | serves key shown ↦ refl
      | server_over o ↦ refl
    ];
    uncaught_ends = λ e. refl;
    broken_ends = refl;
  }

  ended_by :
      (s : Server lib.Pkey) → server_is_over s ≡ true → (o : Outcome ℕ) × (server_ending s ≡ some o)
  ended_by (awaits_client_key key der) h = absurd (cc h)
  ended_by (awaits_client_confirm key) h = absurd (cc h)
  ended_by (serves key shown) h = absurd (cc h)
  ended_by (server_over o) h = (o, refl)

module _ {Sockets World : Type 0} (platform : Platform) (tcp : TcpCalls Sockets)
    (ciphers : CipherLib World) (lib : PkeyLib World) where
  -- A `main` that has ended, and where it has by an exit code, left open what was open before, `old`.
  abbrev pub Ended : Net Sockets → (Option (Outcome ℕ) × Net Sockets) × Machine World → Type 0
  Ended old e =
      (o : Outcome ℕ) × (e.0.0 ≡ some o)
      × ((c : ℕ) → o ≡ returns c → (e.0.1.opened ≡ old.opened) × (e.0.1.startups ≡ old.startups))

  exit_closes :
      (srv cli : ℤ) (old net : Net Sockets) (o : Outcome ℕ) (c : ℕ)
      → net.opened ≡ adding cli (adding srv old.opened)
      → net.startups ≡ (startup platform tcp old).startups
      → o ≡ returns c
      → let after = server_exit platform tcp srv cli (some o) net in
        (after.opened ≡ old.opened) × (after.startups ≡ old.startups)
  exit_closes srv cli old net (returns k) c opened starts e =
      let closed = close_fd tcp srv (close_fd tcp cli net) in
      let (same, ends) = cleaned platform tcp old closed starts in
      (
        same
            ∙ ap (λ l. without srv (without cli l)) opened
            ∙ ap (without srv) (without-adding cli (adding srv old.opened))
            ∙ without-adding srv old.opened,
        ends,
      )
  exit_closes srv cli old net (throws x) c opened starts e = absurd (cc e)
  exit_closes srv cli old net faults c opened starts e = absurd (cc e)

  -- `main` serves, and the client has delivered that many frames.
  abbrev pub ServesOn : ℕ → (ℤ × ℤ) × Net Sockets → Machine World → Type 0
  ServesOn fuel ((srv, cli), net) m =
      let conn = connection tcp cli in
      (s : Server lib.Pkey) × (n : Machine World) × (server_start ciphers lib m ≡ (returns s, n))
      × Delivered (send_frame conn) (recv_frame conn) (server_party ciphers lib) fuel s net n

  -- A way through `drive` that is over.
  served_closes :
      (fuel : ℕ) (srv cli : ℤ) (old net : Net Sockets) (s : Server lib.Pkey) (m : Machine World)
      → let conn = connection tcp cli in
        let run =
          drive (send_frame conn) (recv_frame conn) (server_party ciphers lib) fuel s net m in
        server_is_over run.0.0 ≡ true
        → net.opened ≡ adding cli (adding srv old.opened)
        → net.startups ≡ (startup platform tcp old).startups
        → Ended old (server_serves platform tcp ciphers lib fuel srv cli net (returns s, m))
  served_closes fuel srv cli old net s m over opened starts =
      let conn = connection tcp cli in
      let party = server_party ciphers lib in
      let run = drive (send_frame conn) (recv_frame conn) party fuel s net m in
      let (same, also) = drive_keeps (send_frame conn) (recv_frame conn) party fuel s net m in
      let (o, ending) = ended_by ciphers lib run.0.0 over in
      (
        o,
        ending,
        λ c e. rw (ending) (exit_closes srv cli old run.0.1 o c (same ∙ opened) (also ∙ starts) e),
      )

  refused_closes :
      (fuel n : ℕ) (old : Net Sockets) (srv : ℤ) (net : Net Sockets) (m : Machine World)
      → net.opened ≡ adding srv old.opened
      → net.startups ≡ (startup platform tcp old).startups
      → Ended old (server_accepted platform tcp ciphers lib fuel ((srv, negsuc n), net) m)
  refused_closes fuel n old srv net m opened starts =
      let (same, ends) = cleaned platform tcp old (close_fd tcp srv net) starts in
      (
        returns 1,
        refl,
        λ c e. (same ∙ ap (without srv) opened ∙ without-adding srv old.opened, ends),
      )

  serves_on :
      (fuel fd : ℕ) (srv : ℤ) (old net : Net Sockets) (m : Machine World)
      (start : Outcome (Server lib.Pkey) × Machine World)
      → server_start ciphers lib m ≡ start
      → net.opened ≡ adding (pos fd) (adding srv old.opened)
      → net.startups ≡ (startup platform tcp old).startups
      → Ended old (server_serves platform tcp ciphers lib fuel srv (pos fd) net start)
        ⊎ ServesOn fuel ((srv, pos fd), net) m
  serves_on fuel fd srv old net m (throws e, n) made opened starts =
      inl (throws e, refl, λ c k. absurd (cc k))
  serves_on fuel fd srv old net m (faults, n) made opened starts =
      inl (faults, refl, λ c k. absurd (cc k))
  serves_on fuel fd srv old net m (returns s, n) made opened starts =
      let conn = connection tcp (pos fd) in
      let party = server_party ciphers lib in
      elim (drive_goes_on (send_frame conn) (recv_frame conn) party
        (server_party-IsEnding ciphers lib) fuel s net n) [
          | inl over ↦ inl (served_closes fuel srv (pos fd) old net s n over opened starts)
          | inr more ↦ inr (s, n, made, more)
        ]

  accepted_goes_on :
      (fuel : ℕ) (old : Net Sockets) (srv cli : ℤ) (net : Net Sockets) (m : Machine World)
      → net.opened ≡ adding cli (adding srv old.opened)
      → net.startups ≡ (startup platform tcp old).startups
      → Ended old (server_accepted platform tcp ciphers lib fuel ((srv, cli), net) m)
        ⊎ ServesOn fuel ((srv, cli), net) m
  accepted_goes_on fuel old srv (negsuc n) net m opened starts =
      inl (refused_closes fuel n old srv net m opened starts)
  accepted_goes_on fuel old srv (pos fd) net m opened starts =
      serves_on fuel fd srv old net m (server_start ciphers lib m) refl opened starts

  -- The server's `main`, on any sockets and with any peer, and for any number of frames: it has ended, and
  -- if by an exit code, then the same descriptors are open as before it, and WSACleanup has been called for
  -- WSAStartup; or it has got that many frames, each whole, one in each turn of its loop. So it goes on only
  -- as long as the peer goes on delivering frames.
  pub server_main_goes_on :
      (fuel : ℕ) (net : Net Sockets) (m : Machine World)
      → let e = server_main platform tcp ciphers lib fuel net m in
        ((o : Outcome ℕ) × (e.0.0 ≡ some o)
          × ((c : ℕ)
              → o ≡ returns c
              → (e.0.1.opened ≡ net.opened) × (e.0.1.startups ≡ net.startups)))
        ⊎ ServesOn fuel (server_setup platform tcp net) m
  unfolding server_main
  server_main_goes_on fuel net m =
      let ((srv, cli), accepted) = server_setup platform tcp net in
      let (opened, starts) = server_setup_opens platform tcp net in
      accepted_goes_on fuel net srv cli accepted m opened starts

  serves_ends :
      (fd : ℕ) (r : IsReceiving (connection tcp (pos fd)))
      → ((bs : Bytes) (w : Sockets) → r.pending (tcp.send (pos fd) bs w).1 ≡ r.pending w)
      → (fuel : ℕ) (srv : ℤ) (old net : Net Sockets)
        (start : Outcome (Server lib.Pkey) × Machine World)
      → length (r.pending net.world) < fuel
      → net.opened ≡ adding (pos fd) (adding srv old.opened)
      → net.startups ≡ (startup platform tcp old).startups
      → Ended old (server_serves platform tcp ciphers lib fuel srv (pos fd) net start)
  serves_ends fd r keeps fuel srv old net (throws e, m) enough opened starts =
      (throws e, refl, λ c k. absurd (cc k))
  serves_ends fd r keeps fuel srv old net (faults, m) enough opened starts =
      (faults, refl, λ c k. absurd (cc k))
  serves_ends fd r keeps fuel srv old net (returns s, m) enough opened starts =
      served_closes fuel srv (pos fd) old net s m
        (drive_ends (connection tcp (pos fd)) r keeps (server_party ciphers lib)
          (server_party-IsEnding ciphers lib) fuel s net m enough)
        opened starts

  -- How many bytes wait on a connection that was accepted.
  abbrev pub waiting :
      ((fd : ℕ) → IsReceiving (connection tcp (pos fd))) → (ℤ × ℤ) × Net Sockets → ℕ
  waiting r ((srv, pos cli), net) = length ((r cli).pending net.world)
  waiting r ((srv, negsuc n), net) = 0

  accepted_ends :
      (r : (fd : ℕ) → IsReceiving (connection tcp (pos fd)))
      → ((fd : ℕ) (bs : Bytes) (w : Sockets)
          → (r fd).pending (tcp.send (pos fd) bs w).1 ≡ (r fd).pending w)
      → (fuel : ℕ) (old : Net Sockets) (srv cli : ℤ) (net : Net Sockets) (m : Machine World)
      → waiting r ((srv, cli), net) < fuel
      → net.opened ≡ adding cli (adding srv old.opened)
      → net.startups ≡ (startup platform tcp old).startups
      → Ended old (server_accepted platform tcp ciphers lib fuel ((srv, cli), net) m)
  accepted_ends r keeps fuel old srv (negsuc n) net m enough opened starts =
      refused_closes fuel n old srv net m opened starts
  accepted_ends r keeps fuel old srv (pos cli) net m enough opened starts =
      serves_ends cli (r cli) (keeps cli) fuel srv old net (server_start ciphers lib m) enough
        opened starts

  -- The server's `main` with a peer that sends finitely many bytes, whatever they are, and then closes the
  -- connection or stays silent until the timeout: it ends, after no more calls of `recv_frame` than there
  -- are bytes, and one more. If it ends by an exit code, and not by an exception or undefined behaviour,
  -- then the same descriptors are open as before it, and WSACleanup has been called for WSAStartup.
  pub server_main_ends :
      (r : (fd : ℕ) → IsReceiving (connection tcp (pos fd)))
      → ((fd : ℕ) (bs : Bytes) (w : Sockets)
          → (r fd).pending (tcp.send (pos fd) bs w).1 ≡ (r fd).pending w)
      → (fuel : ℕ) (net : Net Sockets) (m : Machine World)
      → waiting r (server_setup platform tcp net) < fuel
      → let e = server_main platform tcp ciphers lib fuel net m in
        (o : Outcome ℕ) × (e.0.0 ≡ some o)
        × ((c : ℕ) → o ≡ returns c → (e.0.1.opened ≡ net.opened) × (e.0.1.startups ≡ net.startups))
  unfolding server_main
  server_main_ends r keeps fuel net m enough =
      let ((srv, cli), accepted) = server_setup platform tcp net in
      let (opened, starts) = server_setup_opens platform tcp net in
      accepted_ends r keeps fuel net srv cli accepted m enough opened starts
