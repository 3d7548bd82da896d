-- ===== src/Programs/ClientEnd.antt =====
-- How the client of MessengerApp ends, and what it leaves open.
use lib_crypt_safe_messenger.Common.{
  ℕ, ◌≤◌, ◌<◌, List, ◌≡◌, refl, ap, ◌∙◌, true, false, Option, none, some, Bytes, ℤ, is_code, arith,
}
use lib_crypt_safe_messenger.Common.Proc.{Machine, Outcome, returns, throws, faults}
use lib_crypt_safe_messenger.OpenSsl.Cipher.{CipherLib}
use lib_crypt_safe_messenger.OpenSsl.Pkey.{PkeyLib}
use lib_crypt_safe_messenger.KeyExchange.Ecdh.{compute_shared_key}
use lib_crypt_safe_messenger.Cryptor
use lib_crypt_safe_messenger.Frames.Client.{send_frame, recv_frame}
use lib_crypt_safe_messenger.Handshake.{
  Client, awaits_server_key, awaits_server_confirm, client_over, client_start, client_unread,
  client_step, client_keyed, client_confirmed, client_talks, client_checks,
}
use lib_crypt_safe_messenger.Transport.{Net, Platform}
use lib_crypt_safe_messenger.Programs.{
  TcpCalls, connection, close_fd, send_all, drive, startup, without,
}
use lib_crypt_safe_messenger.Programs.Client.{
  client_party, client_is_over, client_ending, client_setup, client_serves, client_exit,
  client_main,
}
use lib_crypt_safe_messenger.Programs.Progress.{
  IsEnding, SameDescriptors, send_all-rule, drive_keeps,
}
use lib_crypt_safe_messenger.Programs.Ranked.{drive_ranked}
use lib_crypt_safe_messenger.Programs.Descriptors.{
  adding, without-adding, cleaned, client_setup_opens,
}

abbrev frames_left : {Key : Type 0} → Client Key → ℕ
frames_left (awaits_server_key key) = 2
frames_left (awaits_server_confirm aes_key) = 1
frames_left (client_over o) = 0

module _ {World : Type 0} (ciphers : CipherLib World) (lib : PkeyLib World) where
  client_party-IsEnding : IsEnding (client_party ciphers lib)
  client_party-IsEnding = record {
    unread_ends = λ e s. elim s as (λ k. client_is_over (client_unread e k) ≡ true) [
      | awaits_server_key key ↦ refl
      | awaits_server_confirm key ↦ refl
      | client_over o ↦ refl
    ];
    uncaught_ends = λ e. refl;
    broken_ends = refl;
  }

  client_ended :
      (s : Client lib.Pkey) → client_is_over s ≡ true → (o : Outcome ℕ) × (client_ending s ≡ some o)
  client_ended (awaits_server_key key) h = absurd (cc h)
  client_ended (awaits_server_confirm key) h = absurd (cc h)
  client_ended (client_over o) h = (o, refl)

  none_left : (s : Client lib.Pkey) → frames_left s ≡ 0 → client_is_over s ≡ true
  none_left (awaits_server_key key) h = absurd (omega (arith, h))
  none_left (awaits_server_confirm key) h = absurd (omega (arith, h))
  none_left (client_over o) h = refl

  left_none : (s : Client lib.Pkey) → client_is_over s ≡ true → frames_left s ≡ 0
  left_none (awaits_server_key key) h = absurd (cc h)
  left_none (awaits_server_confirm key) h = absurd (cc h)
  left_none (client_over o) h = refl

  keyed_left : (o : Outcome Bytes) → frames_left (client_keyed {Key = lib.Pkey} o).0 < 2
  keyed_left (returns key) = omega arith
  keyed_left (throws e) = omega arith
  keyed_left faults = omega arith

  talks_left :
      (confirm : Bytes) (r : Outcome Bytes × Machine World)
      → frames_left (client_talks ciphers lib confirm r).0.0 < 1
  talks_left confirm (returns cryptor, m) = omega arith
  talks_left confirm (throws e, m) = omega arith
  talks_left confirm (faults, m) = omega arith

  confirmed_left :
      (key : Bytes) (r : Outcome (Option Bytes) × Machine World)
      → frames_left (client_confirmed ciphers lib key r).0.0 < 1
  confirmed_left key (returns none, m) = omega arith
  confirmed_left key (returns (some confirm), m) = talks_left confirm (Cryptor.new_cryptor key m)
  confirmed_left key (throws e, m) = omega arith
  confirmed_left key (faults, m) = omega arith

  step_left :
      (s : Client lib.Pkey) (frame : Bytes) (m : Machine World)
      → client_is_over s ≡ false
      → frames_left (client_step ciphers lib s frame m).0.0 < frames_left s
  unfolding client_step
  step_left (awaits_server_key key) frame m h = keyed_left (compute_shared_key lib key frame m).0
  step_left (awaits_server_confirm key) frame m h =
      confirmed_left key (client_checks ciphers lib key frame m)
  step_left (client_over o) frame m h = absurd (cc h)

  at_most_two : (s : Client lib.Pkey) → frames_left s ≤ 3
  at_most_two (awaits_server_key key) = omega arith
  at_most_two (awaits_server_confirm key) = omega arith
  at_most_two (client_over o) = omega arith

module _ {Sockets World : Type 0} (platform : Platform) (tcp : TcpCalls Sockets)
    (ciphers : CipherLib World) (lib : PkeyLib World) where
  abbrev Ended : Net Sockets → (Option (Outcome ℕ) × Net Sockets) × Machine World → Type 0
  Ended old e =
      (o : Outcome ℕ) × (e.0.0 ≡ some o)
      × ((c : ℕ) → o ≡ returns c → (e.0.1.opened ≡ old.opened) × (e.0.1.startups ≡ old.startups))

  exit_closes :
      (sock : ℤ) (old net : Net Sockets) (o : Outcome ℕ) (c : ℕ)
      → net.opened ≡ adding sock old.opened
      → net.startups ≡ (startup platform tcp old).startups
      → o ≡ returns c
      → let after = client_exit platform tcp sock (some o) net in
        (after.opened ≡ old.opened) × (after.startups ≡ old.startups)
  exit_closes sock old net (returns k) c opened starts e =
      let (same, ends) = cleaned platform tcp old (close_fd tcp sock net) starts in
      (same ∙ ap (without sock) opened ∙ without-adding sock old.opened, ends)
  exit_closes sock old net (throws x) c opened starts e = absurd (cc e)
  exit_closes sock old net faults c opened starts e = absurd (cc e)

  serves_ends :
      (sock : ℤ) (old net : Net Sockets)
      (start : Outcome (Client lib.Pkey × List Bytes) × Machine World)
      → net.opened ≡ adding sock old.opened
      → net.startups ≡ (startup platform tcp old).startups
      → Ended old (client_serves platform tcp ciphers lib sock net start)
  serves_ends sock old net (throws e, m) opened starts = (throws e, refl, λ c k. absurd (cc k))
  serves_ends sock old net (faults, m) opened starts = (faults, refl, λ c k. absurd (cc k))
  serves_ends sock old net (returns (s, frames), m) opened starts =
      let conn = connection tcp sock in
      let party = client_party ciphers lib in
      let sent = send_all (send_frame conn) (recv_frame conn) party s frames net in
      let run = drive (send_frame conn) (recv_frame conn) party 3 sent.0 sent.1 m in
      let over =
        drive_ranked (send_frame conn) (recv_frame conn) party (client_party-IsEnding ciphers lib)
          frames_left (none_left ciphers lib) (left_none ciphers lib) (step_left ciphers lib) 3
          sent.0 sent.1 m (at_most_two ciphers lib sent.0) in
      let (same, also) = drive_keeps (send_frame conn) (recv_frame conn) party 3 sent.0 sent.1 m in
      let (kept, too) =
        send_all-rule (send_frame conn) (recv_frame conn) party
          (λ k. SameDescriptors (send_frame conn) (recv_frame conn) party k net) (λ f k h. h) s
          frames net (refl, refl) in
      let (o, ending) = client_ended ciphers lib run.0.0 over in
      (
        o,
        ending,
        λ c e.
            rw (ending)
              (exit_closes sock old run.0.1 o c (same ∙ kept ∙ opened) (also ∙ too ∙ starts) e),
      )

  -- The client's `main` ends whatever the server does. If it could connect and
  -- ends by an exit code, then the same descriptors are open as before it, and WSACleanup has been called
  -- for WSAStartup. If it could not connect, it returns 1 and neither closes its socket nor calls
  -- WSACleanup: what `socket` gave is open besides what was open before.
  pub client_main_ends :
      (net : Net Sockets) (m : Machine World)
      → let ((sock, rc), connected) = client_setup platform tcp net in
        let e = client_main platform tcp ciphers lib net m in
        (is_code 0 rc ≡ true
          → (o : Outcome ℕ) × (e.0.0 ≡ some o)
            × ((c : ℕ)
                → o ≡ returns c
                → (e.0.1.opened ≡ net.opened) × (e.0.1.startups ≡ net.startups)))
        × (is_code 0 rc ≡ false
            → (e.0.0 ≡ some (returns 1))
              × (e.0.1.opened ≡ adding sock net.opened)
              × (e.0.1.startups ≡ (startup platform tcp net).startups))
  unfolding client_main
  client_main_ends net m =
      let ((sock, rc), connected) = client_setup platform tcp net in
      let (opened, starts) = client_setup_opens platform tcp net in
      (
        (λ up. rw (up) (serves_ends sock net connected (client_start ciphers lib m) opened starts)),
        (λ down. rw (down) (refl, opened, starts)),
      )
