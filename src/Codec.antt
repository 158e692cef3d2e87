-- ===== src/Codec.antt =====
-- The file list codec of crates/ferrosync-codec/src/codec: each entry is sent as its differences from
-- the entry before it.
pub mod Format
pub mod Entry
pub mod Flags
pub mod Fields
pub mod Hlink
pub mod EntryCodec
pub mod Batch
pub mod IdList
pub mod Chmod
