-- ===== src/Filter.antt =====
-- The filter rules of crates/ferrosync-filter.
pub mod Pattern
pub mod Rule
