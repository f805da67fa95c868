-- ===== src/Crypto.antt =====
-- client/src/crypto: key derivation, authenticated encryption, signatures, and the message layer.
pub mod Kdf
pub mod Aead
pub mod Signing
pub mod Wire
pub mod Messaging
