-- ===== src/Crypto.antt =====
-- crates/leave-crypto/src: what surrounds the MLS group. The group itself, the ciphers and the
-- hashes are of other crates, and enter as parameters.
pub mod Error
pub mod Primitives
pub mod Codec
pub mod Storage
pub mod Vault
pub mod Pairing
pub mod Session
pub mod Sample
