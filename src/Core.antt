-- ===== src/Core.antt =====
-- internal/core: the live channels of a process, and their names.
pub mod Channel
pub mod Name
pub mod Manager
