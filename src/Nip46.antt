-- ===== src/Nip46.antt =====
-- src/nip46: pairing with a remote signer.
pub mod Session
pub mod Pair
pub mod Signer
pub mod Transport
pub mod Bunker
pub mod Operations
pub mod Protocol
pub mod Pairing
