-- ===== src/Sgwu/PfcpServer.antt =====
-- internal/sgwu/pfcpserver/server.go: the PFCP server of the user plane.
pub mod State
pub mod Rules
pub mod FarUpdates
pub mod Establish
pub mod Answers
pub mod Association
pub mod Establishment
pub mod Modification
pub mod Handlers
pub mod Known
pub mod Invariant
pub mod PeerSteps
pub mod SessionSteps
pub mod Sound
pub mod Settles
pub mod Total
pub mod Ends
pub mod Built
pub mod BuiltFars
pub mod Stored
pub mod Outcome
pub mod Atomic
pub mod Unique
pub mod Updates
pub mod Identifiers
mod Sample
mod Runs
