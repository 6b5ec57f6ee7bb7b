-- ===== src/Auth.antt =====
-- internal/auth: who may do what, and who is who.
pub mod Capability
pub mod Identity
pub mod TokenRequests
pub mod Tokens
