-- ===== src/KeyExchange.antt =====
-- MessengerApp/KeyExchange.hpp: ECDH on P-256, the X3DH handshake, signatures and fingerprints. A
-- `KeyExchange` object is its EVP_PKEY. The handles are `unique_ptr`s, whose release has no state here.
pub mod Handles
pub mod Keys
pub mod Ecdh
pub mod X3dh
pub mod Signatures
pub mod Fingerprint
pub mod Steps
pub mod Agreement
pub mod Peers
pub mod Material
pub mod Ecdsa
pub mod Hex
pub mod Confirmation
pub mod Released
mod Runs
