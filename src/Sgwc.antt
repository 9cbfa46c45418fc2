-- ===== src/Sgwc.antt =====
-- The control plane, internal/sgwc: one module for each of its packages.
pub mod Collision
pub mod Ddn
pub mod Session
pub mod Manager
pub mod Teid
