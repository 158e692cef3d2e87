-- ===== src/Codec/Fields.antt =====
-- The fields of an entry, of crates/ferrosync-codec/src/codec/fields.rs: a function that writes each
-- field and a function that reads it. A name is not converted (`iconv` is `None`).
pub mod Scalars
pub mod Names
pub mod Devices
pub mod Owners
use ferrosync.Base.{
  ℕ, zero, suc, ◌+◌, ◌-◌, ◌*◌, ◌/◌, ◌%◌, ◌^◌, ◌==◌, ltb, leb, Bool, true, false, not, ◌&&◌, ◌||◌,
  if◌then◌else◌, List, [], ◌∷◌, ◌++◌, length, take, drop, replicate, bit_or,
}
use ferrosync.Base.Int.{ℤ, pos, i32_of_bits, i32_bits, i64_bits}
use ferrosync.Wire.Stream.{
  Reader, ◌>>=◌, pure, fail, read_byte, read_exact, handshake, wire_value_out_of_range,
}
use ferrosync.Wire.Fixed.{read_int, write_int}
use ferrosync.Wire.Varint.{read_varint, write_varint}
use ferrosync.Wire.Varlong.{
  IntCodec, fixed, compact, read_varint30, write_varint30, read_varlong, write_varlong,
  read_varlong30, write_varlong30,
}
use ferrosync.Codec.Format.{
  FlagsCodec, byte, byte_extended, varint, DeviceCodec, single_int, major_minor, FileListOptions,
}
use ferrosync.Codec.Entry.{DeltaState, file_type, s_ifreg, s_iflnk, should_send_rdev}
use ferrosync.Codec.Flags.{
  same_mode, same_rdev_pre28, same_uid, same_gid, same_name, long_name, same_time, same_rdev_major,
  user_name_follows, group_name_follows, mod_nsec, common_prefix_len,
}

abbrev pub max_name_len : ℕ
max_name_len = 64 * 1024

-- Filename

unfoldable pub encode_filename : List ℕ → DeltaState → ℕ → FileListOptions → List ℕ
encode_filename wire_name state flags opts =
    let common_prefix = common_prefix_len state.prev_name wire_name in
    let suffix_len = length wire_name - common_prefix in
    (if same_name flags then common_prefix % 256 ∷ [] else [])
    ++ ((if long_name flags
          then write_varint30 (suffix_len % 2 ^ 32) opts.wire.int_codec
          else suffix_len % 256 ∷ [])
        ++ drop common_prefix wire_name)

-- The check of the length, then the copy of the prefix and the read of the suffix.
unfoldable pub decode_suffix : DeltaState → ℕ → ℕ → Reader (List ℕ)
decode_suffix state prefix_len suffix_len =
    if ltb max_name_len (prefix_len + suffix_len)
    then fail (wire_value_out_of_range (pos (prefix_len + suffix_len)) (pos max_name_len))
    else (if ltb (length state.prev_name) prefix_len
        then fail handshake
        else (do suffix ← read_exact suffix_len; pure (take prefix_len state.prev_name ++ suffix)))

abbrev pub read_suffix_len : ℕ → FileListOptions → Reader ℕ
read_suffix_len flags opts =
    if long_name flags then read_varint30 opts.wire.int_codec else read_byte

abbrev pub read_prefix_len : ℕ → Reader ℕ
read_prefix_len flags = if same_name flags then read_byte else pure 0

unfoldable pub decode_filename : DeltaState → ℕ → FileListOptions → Reader (List ℕ)
decode_filename state flags opts = do
  prefix_len ← read_prefix_len flags
  suffix_len ← read_suffix_len flags opts
  decode_suffix state prefix_len suffix_len

-- File length

abbrev pub encode_file_length : ℤ → FileListOptions → List ℕ
encode_file_length len opts = write_varlong30 len 3 opts.wire.int_codec

abbrev pub decode_file_length : FileListOptions → Reader ℤ
decode_file_length opts = read_varlong30 3 opts.wire.int_codec

-- Modification time. `mtime as i32` keeps the low 32 bits.

abbrev pub write_mtime : IntCodec → ℤ → List ℕ
write_mtime compact mtime = write_varlong mtime 4
write_mtime fixed mtime = write_int (i32_of_bits (i64_bits mtime % 2 ^ 32))

abbrev pub read_mtime : IntCodec → Reader ℤ
read_mtime compact = read_varlong 4
read_mtime fixed = read_int

abbrev pub encode_mtime : ℤ → ℕ → FileListOptions → List ℕ
encode_mtime mtime flags opts =
    if same_time flags then [] else write_mtime opts.wire.int_codec mtime

abbrev pub decode_mtime : DeltaState → ℕ → FileListOptions → Reader ℤ
decode_mtime state flags opts =
    if same_time flags then pure state.prev_mtime else read_mtime opts.wire.int_codec

abbrev pub encode_mtime_nsec : ℕ → ℕ → FileListOptions → List ℕ
encode_mtime_nsec mtime_nsec flags opts =
    if opts.wire.has_nanoseconds && mod_nsec flags then write_varint mtime_nsec else []

abbrev pub decode_mtime_nsec : ℕ → FileListOptions → Reader ℕ
decode_mtime_nsec flags opts =
    if opts.wire.has_nanoseconds && mod_nsec flags then read_varint else pure 0

-- File mode

abbrev pub read_u32 : Reader ℕ
read_u32 = do a ← read_int; pure (i32_bits a)

abbrev pub encode_mode : ℕ → ℕ → List ℕ
encode_mode mode flags = if same_mode flags then [] else write_int (i32_of_bits mode)

abbrev pub decode_mode : DeltaState → ℕ → Reader ℕ
decode_mode state flags = if same_mode flags then pure state.prev_mode else read_u32

-- Owner and group: a number, and a name behind it. `encode_uid` and `encode_gid` have one body, as
-- have `decode_uid` and `decode_gid`.

abbrev pub write_owner : IntCodec → ℕ → List ℕ → Bool → List ℕ
write_owner compact id name follows =
    write_varint id ++ (if follows then length name % 256 ∷ name else [])
write_owner fixed id name follows = write_int (i32_of_bits id)

abbrev pub read_owner_id : IntCodec → Reader ℕ
read_owner_id compact = read_varint
read_owner_id fixed = read_u32

abbrev pub read_owner_name : List ℕ → Bool → Reader (List ℕ)
read_owner_name prev_name follows =
    if follows then (do namelen ← read_byte; read_exact namelen) else pure prev_name

abbrev pub read_owner : IntCodec → List ℕ → Bool → Reader (ℕ × List ℕ)
read_owner codec prev_name follows = do
  id ← read_owner_id codec
  name ← read_owner_name prev_name follows
  pure (id, name)

abbrev pub encode_uid : ℕ → List ℕ → ℕ → FileListOptions → List ℕ
encode_uid uid user_name flags opts =
    if not opts.preserve_uid || same_uid flags
    then []
    else write_owner opts.wire.int_codec uid user_name (user_name_follows flags)

abbrev pub decode_uid : DeltaState → ℕ → FileListOptions → Reader (ℕ × List ℕ)
decode_uid state flags opts =
    if not opts.preserve_uid || same_uid flags
    then pure (state.prev_uid, state.prev_user_name)
    else read_owner opts.wire.int_codec state.prev_user_name
        (opts.wire.has_inline_names && user_name_follows flags)

abbrev pub encode_gid : ℕ → List ℕ → ℕ → FileListOptions → List ℕ
encode_gid gid group_name flags opts =
    if not opts.preserve_gid || same_gid flags
    then []
    else write_owner opts.wire.int_codec gid group_name (group_name_follows flags)

abbrev pub decode_gid : DeltaState → ℕ → FileListOptions → Reader (ℕ × List ℕ)
decode_gid state flags opts =
    if not opts.preserve_gid || same_gid flags
    then pure (state.prev_gid, state.prev_group_name)
    else read_owner opts.wire.int_codec state.prev_group_name
        (opts.wire.has_inline_names && group_name_follows flags)

-- Device numbers. `rdev as i32` keeps the low 32 bits, `as u64` of an i32 extends its sign.

abbrev pub write_minor : Bool → ℕ → List ℕ
write_minor varint_minor minor =
    if varint_minor then write_varint minor else write_int (i32_of_bits minor)

abbrev pub read_minor : Bool → Reader ℕ
read_minor varint_minor = if varint_minor then read_varint else read_u32

abbrev pub write_device : DeviceCodec → IntCodec → ℕ → ℕ → ℕ → ℕ → List ℕ
write_device single_int codec rdev major minor flags =
    if same_rdev_pre28 flags then [] else write_int (i32_of_bits (rdev % 2 ^ 32))
write_device (major_minor varint_minor) codec rdev major minor flags =
    (if same_rdev_major flags then [] else write_varint30 major codec)
    ++ write_minor varint_minor minor

abbrev pub encode_rdev : ℕ → ℕ → ℕ → ℕ → ℕ → FileListOptions → List ℕ
encode_rdev mode rdev major minor flags opts =
    if should_send_rdev mode opts
    then write_device opts.wire.device_codec opts.wire.int_codec rdev major minor flags
    else []

abbrev pub read_u64 : Reader ℕ
read_u64 = do a ← read_int; pure (i64_bits a)

-- `((major as u64) << 8) | (minor as u64)`
abbrev pub join_rdev : ℕ → ℕ → ℕ
join_rdev major minor = bit_or minor (2 ^ 8 * major)

abbrev pub read_device : DeviceCodec → IntCodec → DeltaState → ℕ → Reader ℕ
read_device single_int codec state flags =
    if same_rdev_pre28 flags then pure state.prev_rdev else read_u64
read_device (major_minor varint_minor) codec state flags = do
  major ← (if same_rdev_major flags then pure state.prev_rdev_major else read_varint30 codec)
  minor ← read_minor varint_minor
  pure (join_rdev major minor)

abbrev pub decode_rdev : ℕ → DeltaState → ℕ → FileListOptions → Reader ℕ
decode_rdev mode state flags opts =
    if should_send_rdev mode opts
    then read_device opts.wire.device_codec opts.wire.int_codec state flags
    else pure 0

-- Symlink target

abbrev pub sends_link : ℕ → FileListOptions → Bool
sends_link mode opts = (file_type mode == s_iflnk) && opts.preserve_links

abbrev pub encode_symlink : ℕ → List ℕ → FileListOptions → List ℕ
encode_symlink mode link_target opts =
    if sends_link mode opts
    then write_varint30 (length link_target % 2 ^ 32) opts.wire.int_codec ++ link_target
    else []

unfoldable pub read_link : ℕ → Reader (List ℕ)
read_link link_len =
    if ltb max_name_len link_len
    then fail (wire_value_out_of_range (pos link_len) (pos max_name_len))
    else read_exact link_len

abbrev pub decode_symlink : ℕ → FileListOptions → Reader (List ℕ)
decode_symlink mode opts =
    if sends_link mode opts
    then (do link_len ← read_varint30 opts.wire.int_codec; read_link link_len)
    else pure []

-- File checksum: cut or padded with zeros to the length of the algorithm.

abbrev pub all_types : FlagsCodec → Bool
all_types byte = true
all_types codec = false

abbrev pub sends_checksum : ℕ → FileListOptions → Bool
sends_checksum mode opts =
    opts.always_checksum && ((file_type mode == s_ifreg) || all_types opts.wire.flags_codec)

abbrev pub fit_checksum : ℕ → List ℕ → List ℕ
fit_checksum n checksum =
    if leb n (length checksum)
    then take n checksum
    else checksum ++ replicate (n - length checksum) 0

abbrev pub encode_checksum : ℕ → List ℕ → FileListOptions → List ℕ
encode_checksum mode checksum opts =
    if sends_checksum mode opts then fit_checksum opts.checksum_len checksum else []

abbrev pub decode_checksum : ℕ → FileListOptions → Reader (List ℕ)
decode_checksum mode opts =
    if sends_checksum mode opts then read_exact opts.checksum_len else pure []
