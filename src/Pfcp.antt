-- ===== src/Pfcp.antt =====
-- The PFCP messages of internal/pfcp.
pub mod Types
pub mod Ie
pub mod Header
pub mod Values
pub mod Messages
pub mod Runs
