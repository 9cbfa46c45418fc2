-- ===== src/Sgwu.antt =====
-- internal/sgwu: the user plane node.
pub mod Session
pub mod Gtpu
pub mod PfcpServer
