-- ===== src/Mux.antt =====
-- The multiplexed streams of crates/ferrosync-protocol/src/multiplex.rs.
pub mod Code
pub mod Frame
pub mod Staging
pub mod Control
