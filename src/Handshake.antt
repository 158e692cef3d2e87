-- ===== src/Handshake.antt =====
-- The handshake of crates/ferrosync-protocol/src/handshake.rs, for the client and the server.
pub mod Text
pub mod Negotiate
pub mod Peers
