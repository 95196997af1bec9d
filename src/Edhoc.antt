-- ===== src/Edhoc.antt =====
-- The package edhoc.
pub mod AesCcm
pub mod Result
pub mod Message
pub mod Crypto
pub mod KeySchedule
pub mod Signature
pub mod Sealing
pub mod Credential
pub mod Initiator
pub mod Responder
pub mod Export
pub mod Handshake
pub mod Runs
