-- ===== src/Programs/Server.antt =====
-- MessengerApp/server.cpp: `main`.
use lib_crypt_safe_messenger.Common.{ℕ, Bool, true, false, Option, none, some, ℤ, pos, negsuc}
use lib_crypt_safe_messenger.Common.Proc.{Machine, Outcome, returns, throws, faults}
use lib_crypt_safe_messenger.OpenSsl.Cipher.{CipherLib}
use lib_crypt_safe_messenger.OpenSsl.Pkey.{PkeyLib}
use lib_crypt_safe_messenger.Frames.{send_frame, recv_frame}
use lib_crypt_safe_messenger.Transport.{Net, SockaddrIn, Platform, ask_socket}
use lib_crypt_safe_messenger.Handshake.{
  Server, awaits_client_key, awaits_client_confirm, serves, server_over, server_start, server_step,
  server_unread,
}
use lib_crypt_safe_messenger.Programs.{
  TcpCalls, so_reuseaddr, so_rcvtimeo, on_world, close_fd, connection, Party, drive, startup,
  cleanup,
}

-- 0.0.0.0:9999.
abbrev pub server_addr : SockaddrIn
server_addr = record { sin_family = 2; sin_port = 9999; sin_addr = 0 }

abbrev pub server_is_over : {Key : Type 0} → Server Key → Bool
server_is_over (awaits_client_key key pub_der) = false
server_is_over (awaits_client_confirm aes_key) = false
server_is_over (serves cryptor shown) = false
server_is_over (server_over o) = true

-- How `main` has ended, if it has.
abbrev pub server_ending : {Key : Type 0} → Server Key → Option (Outcome ℕ)
server_ending (awaits_client_key key pub_der) = none
server_ending (awaits_client_confirm aes_key) = none
server_ending (serves cryptor shown) = none
server_ending (server_over o) = some o

module _ {World : Type 0} (ciphers : CipherLib World) (lib : PkeyLib World) where
  abbrev pub server_party : Party World
  server_party = record {
    State = Server lib.Pkey;
    step = server_step ciphers lib;
    unread = server_unread;
    uncaught = λ e. server_over (throws e);
    broken = server_over faults;
    is_over = server_is_over;
  }

module _ {Sockets : Type 0} (platform : Platform) (tcp : TcpCalls Sockets) where
  -- Up to `accept`: the listening descriptor and what `accept` returned.
  unfoldable pub server_setup : Net Sockets → (ℤ × ℤ) × Net Sockets
  server_setup net =
      let (srv, made) = ask_socket tcp.socket (startup platform tcp net) in
      let bound =
        on_world
          (λ w. tcp.listen srv 1 (
            tcp.bind srv server_addr
              (tcp.setsockopt srv (so_rcvtimeo 30) (tcp.setsockopt srv so_reuseaddr w))))
          made in
      let (cli, accepted) = ask_socket (tcp.accept srv) bound in ((srv, cli), accepted)

  -- The ways out: `close(cli); close(srv); return c;`, or an exception that nothing catches, or undefined
  -- behaviour.
  abbrev pub server_exit : ℤ → ℤ → Option (Outcome ℕ) → Net Sockets → Net Sockets
  server_exit srv cli none net = net
  server_exit srv cli (some (returns c)) net =
      cleanup platform tcp (close_fd tcp srv (close_fd tcp cli net))
  server_exit srv cli (some (throws e)) net = net
  server_exit srv cli (some faults) net = net

module _ {Sockets World : Type 0} (platform : Platform) (tcp : TcpCalls Sockets)
    (ciphers : CipherLib World) (lib : PkeyLib World) where
  abbrev pub server_served :
      ℤ
      → ℤ
      → (Server lib.Pkey × Net Sockets) × Machine World
      → (Option (Outcome ℕ) × Net Sockets) × Machine World
  server_served srv cli ((s, net), m) =
      ((server_ending s, server_exit platform tcp srv cli (server_ending s) net), m)

  -- Once the client is accepted; the constructor of the key pair may throw.
  abbrev pub server_serves :
      ℕ
      → ℤ
      → ℤ
      → Net Sockets
      → Outcome (Server lib.Pkey) × Machine World
      → (Option (Outcome ℕ) × Net Sockets) × Machine World
  server_serves fuel srv cli net (returns s, m) = server_served srv cli (
      drive (send_frame (connection tcp cli)) (recv_frame (connection tcp cli))
        (server_party ciphers lib) fuel s net m)
  server_serves fuel srv cli net (throws e, m) = ((some (throws e), net), m)
  server_serves fuel srv cli net (faults, m) = ((some faults, net), m)

  -- `if (cli < 0)`, and what follows.
  abbrev pub server_accepted :
      ℕ → (ℤ × ℤ) × Net Sockets → Machine World → (Option (Outcome ℕ) × Net Sockets) × Machine World
  server_accepted fuel ((srv, negsuc n), net) m =
      ((some (returns 1), cleanup platform tcp (close_fd tcp srv net)), m)
  server_accepted fuel ((srv, pos cli), net) m =
      server_serves fuel srv (pos cli) net (server_start ciphers lib m)

  -- How `main` ends, if it ends within that many frames.
  unfoldable pub server_main :
      ℕ → Net Sockets → Machine World → (Option (Outcome ℕ) × Net Sockets) × Machine World
  server_main fuel net m = server_accepted fuel (server_setup platform tcp net) m
