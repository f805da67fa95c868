-- ===== src/Services.antt =====
-- client/src/services: keys, messages, authentication and chain proofs.
pub mod Growth
pub mod KeyService
pub mod MessageService
pub mod AuthService
pub mod Actions
