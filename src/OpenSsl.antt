-- ===== src/OpenSsl.antt =====
-- OpenSSL, which the code calls and does not contain: records of its functions, as parameters of the
-- model, and records of what its manual pages promise, as named hypotheses.
pub mod Cipher
pub mod Pkey
pub mod Curve
pub mod Mac
pub mod Sample
pub mod SampleKeys
