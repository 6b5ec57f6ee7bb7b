-- ===== src/Realtime.antt =====
-- internal/realtime: what a connection checks before it calls the store, and what it sends.
pub mod Mutations
pub mod Appends
pub mod Replay
pub mod Modes
pub mod Stamping
pub mod Connection
