-- ===== src/Programs/Runs.antt =====
-- The programs at concrete inputs, over the sample libraries and sockets that keep what is sent.
use lib_crypt_safe_messenger.Common.{
  ℕ, ◌<◌, ◌≡◌, refl, [], ◌∷◌, ◌++◌, false, none, some, Bytes, length, take, drop, replicate, leb,
  if◌then◌else◌, pos, negsuc, is_code, All, All-replicate, List, suc, ◌+◌, ◌⊎◌, arith,
}
use lib_crypt_safe_messenger.Common.Proc.{Machine, Outcome, returns, runtime_error}
use lib_crypt_safe_messenger.KeyExchange.Steps.{public_der}
use lib_crypt_safe_messenger.OpenSsl.Sample.{
  sum, sample, sample-WritesWithin, sample-IsGcm, sample-IsWorking,
}
use lib_crypt_safe_messenger.OpenSsl.SampleKeys.{keys, keys-IsP256}
use lib_crypt_safe_messenger.Cryptor
use lib_crypt_safe_messenger.Frames.{send_frame, recv_frame}
use lib_crypt_safe_messenger.Frames.Stream.{IsSending, IsReceiving, IsDuplex}
use lib_crypt_safe_messenger.Frames.Client
use lib_crypt_safe_messenger.KeyExchange.Hex.{IsSha256, IsByte}
use lib_crypt_safe_messenger.OpenSsl.Mac.{IsHmac}
use lib_crypt_safe_messenger.Handshake.{
  serves, server_step, server_run, server_unread, awaits_client_key, server_over, awaits_server_key,
  client_over, messages,
}
use lib_crypt_safe_messenger.Transport.{Net, posix, windows}
use lib_crypt_safe_messenger.Programs.{TcpCalls, connection, drive, send_all}
use lib_crypt_safe_messenger.Programs.Server.{server_party, server_setup, server_main}
use lib_crypt_safe_messenger.Programs.Client.{client_party, client_setup, client_main}
use lib_crypt_safe_messenger.Programs.Endings.{
  waiting, server_main_ends, ServesOn, server_main_goes_on,
}
use lib_crypt_safe_messenger.Programs.ClientEnd.{client_main_ends}
use lib_crypt_safe_messenger.Programs.Turns.{Sendable, stream_of}
use lib_crypt_safe_messenger.Programs.Streams.{server_over_stream}
use lib_crypt_safe_messenger.Programs.Talk.{programs_talk}

-- What comes in, and what has gone out.
abbrev Wires : Type 0
Wires = Bytes × Bytes

-- The server's sockets: 3 listens, 4 is the connection. Nobody listens where the client connects to.
abbrev wires : TcpCalls Wires
wires = record {
  socket = λ w. (pos 3, w);
  setsockopt = λ fd option w. w;
  bind = λ fd addr w. w;
  listen = λ fd backlog w. w;
  accept = λ fd w. (pos 4, w);
  connect = λ fd addr w. (negsuc 0, w);
  close = λ fd w. w;
  send = λ fd bs w. (pos (length bs), (w.0, w.1 ++ bs));
  recv = λ fd n w.
      if leb n (length w.0)
      then ((pos n, take n w.0), (drop n w.0, w.1))
      else ((pos (length w.0), w.0), ([], w.1));
  inet_pton = λ text. none;
  wsa_startup = λ w. w;
  wsa_cleanup = λ w. w;
}

abbrev wires-IsSending : IsSending (connection wires (pos 4))
wires-IsSending = record { sent = λ w. w.1; takes_all = λ bs w. refl; appends = λ bs w. refl }

abbrev wires-IsReceiving : (fd : ℕ) → IsReceiving (connection wires (pos fd))
wires-IsReceiving fd = record {
  pending = λ w. w.0;
  gives = λ n w h. ground arith;
  consumes = λ n w h. ground arith;
  falls_short = λ n w h. ground arith;
}

abbrev wires-IsDuplex : IsDuplex (connection wires (pos 4)) wires-IsSending (wires-IsReceiving 4)
wires-IsDuplex = record { send_keeps = λ bs w. refl; recv_keeps = λ n w. ground arith }

abbrev start : Machine ℕ
start = record { world = 5; live = 0 }

-- Seven bytes that are no frame of a key.
abbrev net : Net Wires
net = record { world = (0 ∷ 0 ∷ 0 ∷ 3 ∷ 1 ∷ 2 ∷ 3 ∷ [], []); opened = 0 ∷ []; startups = 0 }

seven_bytes :
    waiting posix wires (sample (pos 1)) keys wires-IsReceiving (server_setup posix wires net) < 8
unfolding server_setup
seven_bytes = omega arith

seven_bytes_end :
    let e = server_main posix wires (sample (pos 1)) keys 8 net start in
    (o : Outcome ℕ) × (e.0.0 ≡ some o)
    × ((c : ℕ) → o ≡ returns c → (e.0.1.opened ≡ 0 ∷ []) × (e.0.1.startups ≡ 0))
seven_bytes_end =
    server_main_ends posix wires (sample (pos 1)) keys wires-IsReceiving (λ fd bs w. refl) 8 net
      start seven_bytes

server_main_goes_on_example :
    let e = server_main posix wires (sample (pos 1)) keys 8 net start in
    ((o : Outcome ℕ) × (e.0.0 ≡ some o)
      × ((c : ℕ) → o ≡ returns c → (e.0.1.opened ≡ 0 ∷ []) × (e.0.1.startups ≡ 0)))
    ⊎ ServesOn posix wires (sample (pos 1)) keys 8 (server_setup posix wires net) start
server_main_goes_on_example = server_main_goes_on posix wires (sample (pos 1)) keys 8 net start

no_connection : is_code 0 (client_setup windows wires net).0.1 ≡ false
unfolding client_setup
no_connection = refl

client_main_ends_example :
    ((client_main windows wires (sample (pos 1)) keys net start).0.0 ≡ some (returns 1))
    × ((client_main windows wires (sample (pos 1)) keys net start).0.1.opened ≡ 3 ∷ 0 ∷ [])
    × ((client_main windows wires (sample (pos 1)) keys net start).0.1.startups ≡ 1)
unfolding client_setup
client_main_ends_example =
    (client_main_ends windows wires (sample (pos 1)) keys net start).1 no_connection

-- A server that serves gets a frame of three bytes, too short for a nonce and a tag.
abbrev key : Bytes
key = replicate 32 224

nothing_sent :
    All Sendable
      (server_run (sample (pos 1)) keys (serves key []) ((1 ∷ 2 ∷ 3 ∷ []) ∷ []) start).0.1
unfolding server_run server_step Cryptor.decrypt
nothing_sent = tt

server_over_stream_example :
    let run = server_run (sample (pos 1)) keys (serves key []) ((1 ∷ 2 ∷ 3 ∷ []) ∷ []) start in
    let conn = connection wires (pos 4) in
    let e =
      drive
        (send_frame conn)
        (recv_frame conn)
        (server_party (sample (pos 1)) keys)
        2
        (serves key [])
        net
        start in
    (e.0.0 ≡ server_unread (runtime_error "recv header failed") run.0.0)
    × (e.0.1.world.1 ≡ stream_of run.0.1)
    × (e.1 ≡ run.1)
server_over_stream_example =
    server_over_stream (connection wires (pos 4)) wires-IsSending (wires-IsReceiving 4)
      wires-IsDuplex (sample (pos 1)) keys 2 (serves key []) ((1 ∷ 2 ∷ 3 ∷ []) ∷ []) net start
      ((omega arith, omega arith), tt) refl (omega arith) nothing_sent

keys-IsSha256 : IsSha256 keys
keys-IsSha256 = record {
  length-sha256 = λ bs. refl;
  sha256-IsByte = λ bs. All-replicate IsByte 32 _ (omega arith);
}

keys-IsHmac : IsHmac keys
keys-IsHmac = record {
  mac = λ k xs. replicate 32 (sum k + sum xs);
  length-mac = λ k xs. refl;
  gives_mac = λ k xs w. refl;
}

abbrev der : ℕ → Bytes
der k = public_der keys keys-IsP256 k

-- A connection on which bytes wait.
abbrev bringing : Bytes → Net Wires
bringing bs = record { world = (bs, []); opened = []; startups = 0 }

-- The client has key 7 and the server key 8.
programs_talk_example :
    (confirm : Bytes) × (aes_key : Bytes) × (frames : List Bytes) × let server_frames =
        der 8 ∷ confirm ∷ [] in
      let client_frames = der 7 ∷ frames in
      let conn = connection wires (pos 4) in
      let server_end =
        drive
          (send_frame conn)
          (recv_frame conn)
          (server_party (sample (pos 1)) keys)
          (suc (length client_frames))
          (awaits_client_key 8 (der 8))
          (bringing (stream_of client_frames))
          start in
      let first =
        send_all
          (Client.send_frame conn)
          (Client.recv_frame conn)
          (client_party (sample (pos 1)) keys)
          (awaits_server_key 7)
          (der 7 ∷ [])
          (bringing (stream_of server_frames)) in
      let client_end =
        drive
          (Client.send_frame conn)
          (Client.recv_frame conn)
          (client_party (sample (pos 1)) keys)
          3
          first.0
          first.1
          start in
      ((server_end.0.0 ≡ server_over (returns 0))
        × (server_end.0.1.world.1 ≡ stream_of server_frames)
        × ((server_run (sample (pos 1)) keys (awaits_client_key 8 (der 8)) client_frames start).0.0
            ≡ serves aes_key messages))
      × ((client_end.0.0 ≡ client_over (returns 0))
          × (client_end.0.1.world.1 ≡ stream_of client_frames))
programs_talk_example =
    programs_talk (connection wires (pos 4)) (connection wires (pos 4)) (sample (pos 1)) keys
      wires-IsSending (wires-IsReceiving 4) wires-IsDuplex wires-IsSending (wires-IsReceiving 4)
      wires-IsDuplex (sample-WritesWithin (pos 1)) (sample-IsGcm (pos 1)) (sample-IsWorking (pos 1))
      (λ w. λ e. cc e) keys-IsP256 keys-IsSha256 keys-IsHmac 7 8 tt tt bringing (λ bs. refl)
      bringing (λ bs. refl) start start
