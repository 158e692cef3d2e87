-- ===== src/Codec/Format.antt =====
-- `WireFormat` of crates/ferrosync-protocol/src/wire_format.rs and `FileListOptions` of
-- crates/ferrosync-codec/src/codec/options.rs: the fields that the file list codec reads.
-- `preserve_acls` and `preserve_xattrs` are false throughout the model.
use ferrosync.Base.{◌&&◌, ℕ, zero, suc, ◌/◌, ◌%◌, ◌==◌, ltb, leb, Bool, if◌then◌else◌}
use ferrosync.Wire.Varlong.{IntCodec, fixed, compact}

-- `word & (1 << i) != 0`
abbrev pub has_bit : ℕ → ℕ → Bool
has_bit zero word = word % 2 == 1
has_bit (suc i) word = has_bit i (word / 2)

pub data FlagsCodec : Type 0 where
  byte byte_extended varint : FlagsCodec

pub data DeviceCodec : Type 0 where
  single_int : DeviceCodec
  major_minor : Bool → DeviceCodec

pub record WireFormat : Type 0 where
  pub int_codec : IntCodec
  pub flags_codec : FlagsCodec
  pub device_codec : DeviceCodec
  pub has_inline_names : Bool
  pub has_nanoseconds : Bool
  pub special_rdev : Bool
  pub phase_count : ℕ
  pub has_iflags : Bool
  pub has_error_exit_sync : Bool
  pub supports_incremental_flist : Bool
  pub trailing_io_error : Bool
  pub negotiated_version : ℕ

-- The version and the compatibility flags fix every choice. Bit 7 is `VARINT_FLIST_FLAGS`.
unfoldable pub wire_format : ℕ → ℕ → WireFormat
wire_format version compat_flags = record {
  int_codec = if leb 30 version then compact else fixed;
  flags_codec =
      if has_bit 7 compat_flags then varint else (if leb 28 version then byte_extended else byte);
  device_codec = if ltb version 28 then single_int else major_minor (leb 30 version);
  has_inline_names = leb 30 version;
  has_nanoseconds = leb 31 version;
  special_rdev = ltb version 31;
  phase_count = if leb 29 version then 2 else 1;
  has_iflags = leb 29 version;
  has_error_exit_sync = leb 31 version;
  supports_incremental_flist = leb 30 version && has_bit 0 compat_flags;
  trailing_io_error = ltb version 30;
  negotiated_version = version;
}

pub record FileListOptions : Type 0 where
  pub wire : WireFormat
  pub preserve_uid : Bool
  pub preserve_gid : Bool
  pub preserve_devices : Bool
  pub preserve_specials : Bool
  pub preserve_links : Bool
  pub preserve_hard_links : Bool
  pub always_checksum : Bool
  pub checksum_len : ℕ
  pub xmit_id0_names : Bool
