-- ===== src/Programs/Client.antt =====
-- MessengerApp/client.cpp: `main`.
use lib_crypt_safe_messenger.Common.{
  ℕ, List, Bool, true, false, Option, none, some, Bytes, String, ℤ, is_code,
}
use lib_crypt_safe_messenger.Common.Proc.{Machine, Outcome, returns, throws, faults}
use lib_crypt_safe_messenger.OpenSsl.Cipher.{CipherLib}
use lib_crypt_safe_messenger.OpenSsl.Pkey.{PkeyLib}
use lib_crypt_safe_messenger.Frames.Client.{send_frame, recv_frame}
use lib_crypt_safe_messenger.Transport.{Net, SockaddrIn, Platform, ask_socket, addr_or}
use lib_crypt_safe_messenger.Handshake.{
  Client, awaits_server_key, awaits_server_confirm, client_over, client_start, client_step,
  client_unread,
}
use lib_crypt_safe_messenger.Programs.{
  TcpCalls, so_rcvtimeo, close_fd, connection, Party, drive, send_all, startup, cleanup,
}

abbrev pub server_ip : String
server_ip = "10.0.2.16"

abbrev pub server_port : ℕ
server_port = 9999

abbrev pub client_is_over : {Key : Type 0} → Client Key → Bool
client_is_over (awaits_server_key key) = false
client_is_over (awaits_server_confirm aes_key) = false
client_is_over (client_over o) = true

-- How `main` has ended, if it has.
abbrev pub client_ending : {Key : Type 0} → Client Key → Option (Outcome ℕ)
client_ending (awaits_server_key key) = none
client_ending (awaits_server_confirm aes_key) = none
client_ending (client_over o) = some o

module _ {World : Type 0} (ciphers : CipherLib World) (lib : PkeyLib World) where
  abbrev pub client_party : Party World
  client_party = record {
    State = Client lib.Pkey;
    step = client_step ciphers lib;
    unread = client_unread;
    uncaught = λ e. client_over (throws e);
    broken = client_over faults;
    is_over = client_is_over;
  }

module _ {Sockets : Type 0} (platform : Platform) (tcp : TcpCalls Sockets) where
  abbrev pub client_addr : SockaddrIn
  client_addr = record {
    sin_family = 2;
    sin_port = server_port;
    sin_addr = addr_or 0 (tcp.inet_pton server_ip);
  }

  -- Up to `connect`: the descriptor, and what `connect` returned.
  unfoldable pub client_setup : Net Sockets → (ℤ × ℤ) × Net Sockets
  client_setup net =
      let (sock, made) = ask_socket tcp.socket (startup platform tcp net) in
      let (rc, w) =
        tcp.connect sock client_addr (tcp.setsockopt sock (so_rcvtimeo 30) made.world) in
      ((sock, rc), record made { world = w })

  -- The ways out: `close(sock); return c;`, or an exception that nothing catches, or undefined behaviour.
  abbrev pub client_exit : ℤ → Option (Outcome ℕ) → Net Sockets → Net Sockets
  client_exit sock none net = net
  client_exit sock (some (returns c)) net = cleanup platform tcp (close_fd tcp sock net)
  client_exit sock (some (throws e)) net = net
  client_exit sock (some faults) net = net

module _ {Sockets World : Type 0} (platform : Platform) (tcp : TcpCalls Sockets)
    (ciphers : CipherLib World) (lib : PkeyLib World) where
  abbrev pub client_served :
      ℤ
      → (Client lib.Pkey × Net Sockets) × Machine World
      → (Option (Outcome ℕ) × Net Sockets) × Machine World
  client_served sock ((s, net), m) =
      ((client_ending s, client_exit platform tcp sock (client_ending s) net), m)

  -- Once connected: the key pair, its public key sent, and the two frames that the client waits for.
  abbrev pub client_serves :
      ℤ
      → Net Sockets
      → Outcome (Client lib.Pkey × List Bytes) × Machine World
      → (Option (Outcome ℕ) × Net Sockets) × Machine World
  client_serves sock net (returns (s, frames), m) =
      let c = connection tcp sock in
      let party = client_party ciphers lib in
      let sent = send_all (send_frame c) (recv_frame c) party s frames net in
      client_served sock (drive (send_frame c) (recv_frame c) party 3 sent.0 sent.1 m)
  client_serves sock net (throws e, m) = ((some (throws e), net), m)
  client_serves sock net (faults, m) = ((some faults, net), m)

  -- `if (connect(...) != 0)`, and what follows.
  abbrev pub client_connected :
      Bool → ℤ → Net Sockets → Machine World → (Option (Outcome ℕ) × Net Sockets) × Machine World
  client_connected true sock net m = client_serves sock net (client_start ciphers lib m)
  client_connected false sock net m = ((some (returns 1), net), m)

  unfoldable pub client_main :
      Net Sockets → Machine World → (Option (Outcome ℕ) × Net Sockets) × Machine World
  client_main net m =
      let ((sock, rc), connected) = client_setup platform tcp net in
      client_connected (is_code 0 rc) sock connected m
