-- ===== src/Gtpv2.antt =====
-- internal/gtpv2: information elements and messages of GTPv2-C.
pub mod Ie
pub mod Header
pub mod Frames
pub mod Values
pub mod Runs
