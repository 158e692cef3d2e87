-- ===== src/Wire.antt =====
-- The integer encodings of crates/ferrosync-protocol/src/varint.rs over a byte stream.
pub mod Stream
pub mod Fixed
pub mod Varint
pub mod Varlong
pub mod Ndx
