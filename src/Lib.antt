-- ===== src/Lib.antt =====
-- LibCryptSafe Messenger: a development about the C++ code of the messenger, that is, the
-- AES-256-GCM library in LibCryptSafe, the key exchange, the two demonstration programs and the
-- connection manager in MessengerApp, the transports in TransportLayer, and the JNI bridge of the
-- Android application.
--
-- How the parts stand to each other. LibCryptSafe/src/Cryptor.cpp seals and opens buffers.
-- MessengerApp/KeyExchange.hpp makes and parses P-256 keys, derives secrets (ECDH, X3DH with
-- HKDF), signs, verifies and makes confirmations. LibCryptSafe/include/crypto_engine.hpp puts
-- both behind functions that return codes, for the Android application. MessengerApp/server.cpp
-- and client.cpp use the key exchange and the cryptor over framed TCP.
-- MessengerApp/ConnectionManager.hpp chooses among the transports of
-- TransportLayer/local_mesh.cpp, direct_p2p.cpp and tor_tunnel.cpp, which implement
-- TransportLayer/interface.hpp.
--
-- Common has what all share: Common/Proc models a C++ call as a function of a machine that
-- returns, throws or runs into undefined behaviour (`faults`); the machine has the world of the
-- libraries and the number of OpenSSL contexts alive. Common/Ends has rules for what a call can
-- return or throw, Common/Memory the reads and writes within a buffer, Common/Int C's int as the
-- code casts sizes to it, Common/Lists and Common/Tests the lists and Boolean tests over the
-- native numbers.
--
-- OpenSsl has no model of OpenSSL: OpenSsl/Cipher and OpenSsl/Pkey are records of its functions,
-- which every definition takes as a parameter. What its manual pages promise is in named records
-- that the theorems take as hypotheses: WritesWithin (output stays within the lengths given),
-- IsWorking (calls on sound arguments succeed), IsGcm (what is sealed and which tag is accepted),
-- IsP256 (keys, their encodings and the agreement of ECDH), IsHkdf, IsEcdsa, IsHmac, and IsSha256
-- of KeyExchange/Hex. OpenSsl/Sample and OpenSsl/SampleKeys are small libraries that meet them,
-- for tests and examples. The socket calls are parameters in the same way: SocketLib in Frames,
-- TcpCalls in Programs and SocketCalls in Transport, and so are the JNI calls, JniEnv in
-- JniBridge; what they promise is in IsSending, IsReceiving and IsDuplex of Frames/Stream, and in
-- IsAlive and HasObjects of JniBridge (JNI has memory left).
--
-- Cryptor models LibCryptSafe/src/Cryptor.cpp (`Cryptor::Cryptor`, `encrypt`, `decrypt`), call by
-- call, every error path with its free. Its children are about contexts and accesses (Contexts),
-- what is opened (Opening), and the round trip (RoundTrip).
--
-- KeyExchange models MessengerApp/KeyExchange.hpp: keys and their encodings in Keys
-- (`KeyExchange::KeyExchange`, `export_public_key`, `parse_peer_p256`, ...),
-- `compute_shared_key`, `compute_raw_dh` and `hkdf_sha256` in Ecdh, the X3DH functions in X3dh,
-- `verify_signature` and `channel_sign` in Signatures, `get_fingerprint` and
-- `compute_session_confirmation` in Fingerprint, and in Handles the unique_ptr types with their
-- deleters, by which a context is freed at the end of its block. Agreement, Peers, Material,
-- Ecdsa, Hex, Confirmation and Released hold the proofs.
--
-- Engine models LibCryptSafe/include/crypto_engine.hpp: the session and its functions with their
-- handlers. Codes is about exceptions, Promises about the key and the codes, Talk about two
-- sessions with each other.
--
-- JniBridge models android/app/src/main/cpp/jni_bridge.cpp, the native methods over the engine
-- and the key exchange: Silent is about exceptions, Keys about encryption through the bridge,
-- FirstMessage about the first message between two users, X3DH on both sides and a text sealed
-- under the key that it gives.
--
-- Frames models `send_frame` and `recv_frame` of MessengerApp/server.cpp, and Frames/Client those
-- of client.cpp, which are the same once more; Stream has what the manuals promise of a
-- connection, Codec, Verdict and Progress the proofs. Handshake models the protocol of the two
-- `main` functions, as states between two calls of `recv_frame`: Accepted is about the server and
-- Guarded about the client before any peer, Forged about bad frames and about an HMAC that fails,
-- Turns and Honest about the two programs with each other.
--
-- Programs models the two `main` functions with their sockets, from the first line to the last:
-- Programs/Server has `server_setup` (socket, bind, listen, accept), `server_main` and its ways
-- out, Programs/Client the same of the client, and `drive` of Programs goes from one `recv_frame`
-- to the next and sends the frames of each turn. Progress, Ranked, Descriptors, Endings and
-- ClientEnd are about how the programs end and what they leave open. Turns goes through the bytes
-- of a connection turn by turn, Streams does so for the server whatever the frames are, and Talk
-- for the two programs with each other.
--
-- Transport models TransportLayer: the shared types and calls of the system in Transport, the
-- three classes in LocalMesh, DirectP2p and TorTunnel, and in Interface the `ITransport` that
-- their users see, where a virtual call is a case on the class of the object. Settled, Answers
-- and Contract are about single calls, Calls about sequences of them, Refinement about the
-- description of a channel that all three implement, Lifetime about the time from a factory to
-- the destructor. ConnectionManager models MessengerApp/ConnectionManager.hpp, with the active
-- pointer as the place of its entry: Connecting and Active are about single calls, Keeping and
-- Reachable about whatever calls follow the constructor, as a step relation, Destroyed about the
-- destructor. FuzzTarget models `LLVMFuzzerTestOneInput` of tests/fuzz/fuzz_decrypt.cpp over the
-- cryptor. TransferManager models the reference model of chunked transfers in
-- tests/transfer_test.cpp: Assembly is about putting a transfer together from its chunks.
--
-- Bounds. Sizes are unbounded numbers, and a cast to int or to 32 bits is written out; the
-- theorems on encryption ask for buffers of less than 2 GB, since the code casts sizes to int.
-- One definition uses fuel, `drive` of Programs, for the number of frames that a program
-- receives. The server receives them for as long as its peer delivers them, so that no fuel is
-- enough for every peer: for any fuel, either it has ended or the peer has delivered that many
-- frames. Where a peer sends finitely many bytes, more fuel than bytes is enough, as every frame
-- takes at least five from the connection, and the client waits for two frames at most; every
-- other loop of the code is over a list. A #ifdef of the two builds is a parameter, Platform of
-- Transport, where the build changes what is called. Not modelled: what is printed,
-- `OPENSSL_cleanse`, allocation failure of the C++ containers, the release of keys of OpenSSL,
-- which are values here, handlers that call back into a transport, the exceptions that JNI leaves
-- pending after a failed call, the other test programs, and the Kotlin, JavaScript and Python
-- parts of the repository.
pub mod Common
pub mod OpenSsl
pub mod Cryptor
pub mod KeyExchange
pub mod Engine
pub mod JniBridge
pub mod Frames
pub mod Handshake
pub mod Transport
pub mod ConnectionManager
pub mod Programs
pub mod FuzzTarget
pub mod TransferManager
