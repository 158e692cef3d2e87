-- ===== src/Delta.antt =====
-- The delta transfer of crates/ferrosync-delta.
pub mod Rolling
pub mod Ops
pub mod Matcher
pub mod Sum
pub mod Token
pub mod Context
pub mod Incremental
pub mod Signatures
