-- ===== src/Codec/EntryCodec.antt =====
-- `encode_entry` and `decode_entry` of crates/ferrosync-codec/src/codec/mod.rs, with the order of the
-- fields of visitor.rs.
pub mod Agree
pub mod Sync
pub mod Traverse
pub mod RoundTrip
pub mod Duplicates
use ferrosync.Base.{ℕ, ◌∷◌, ◌++◌, Bool, if◌then◌else◌, Option, none, some, List, []}
use ferrosync.Base.Int.{ℤ}
use ferrosync.Wire.Stream.{Reader, ◌>>=◌, pure}
use ferrosync.Codec.Format.{FileListOptions}
use ferrosync.Codec.Entry.{
  HardLinkInfo, FileEntry, DeltaState, update_delta_state, rdev_major, rdev_minor,
}
use ferrosync.Codec.Flags.{
  HardLinkAction, compute_xmit_flags, DecodedFlags, entry_flags, end_of_list, decode_xmit_flags,
  encode_xmit_flags,
}
use ferrosync.Codec.Fields.{
  encode_filename, decode_filename, encode_file_length, decode_file_length, encode_mtime,
  decode_mtime, encode_mtime_nsec, decode_mtime_nsec, encode_mode, decode_mode, encode_uid,
  decode_uid, encode_gid, decode_gid, encode_rdev, decode_rdev, encode_symlink, decode_symlink,
  encode_checksum, decode_checksum,
}
use ferrosync.Codec.Hlink.{
  HardLinkEncoder, resolve_hlink_action, encode_hlink, is_abbreviated, Carried, HlinkDecodeResult,
  continue, abbreviated, decode_hlink,
}

-- `traverse_fields` with the encoder.
unfoldable pub encode_fields : FileEntry → ℕ → FileListOptions → List ℕ
encode_fields e flags opts =
    encode_file_length e.len opts
    ++ (encode_mtime e.mtime flags opts
        ++ (encode_mtime_nsec e.mtime_nsec flags opts
            ++ (encode_mode e.mode flags
                ++ (encode_uid e.uid e.user_name flags opts
                    ++ (encode_gid e.gid e.group_name flags opts
                        ++ (encode_rdev e.mode e.rdev (rdev_major e.rdev) (rdev_minor e.rdev) flags
                              opts
                            ++ (encode_symlink e.mode e.link_target opts
                                ++ encode_checksum e.mode e.checksum opts)))))))

-- `traverse_fields` with the decoder, and `into_entry`.
unfoldable pub decode_fields : DeltaState → ℕ → FileListOptions → List ℕ → Reader FileEntry
decode_fields state flags opts name = do
  len ← decode_file_length opts
  mtime ← decode_mtime state flags opts
  mtime_nsec ← decode_mtime_nsec flags opts
  mode ← decode_mode state flags
  uid ← decode_uid state flags opts
  gid ← decode_gid state flags opts
  rdev ← decode_rdev mode state flags opts
  link_target ← decode_symlink mode opts
  checksum ← decode_checksum mode opts
  pure (record {
    name = name;
    len = len;
    mtime = mtime;
    mtime_nsec = mtime_nsec;
    mode = mode;
    uid = uid.0;
    gid = gid.0;
    rdev = rdev;
    link_target = link_target;
    checksum = checksum;
    flags = flags;
    user_name = uid.1;
    group_name = gid.1;
    hlink_source = none;
    hard_link_info = none;
  })

-- The bytes of an entry whose hard-link action is known.
unfoldable pub encode_with : HardLinkAction → FileEntry → DeltaState → FileListOptions → List ℕ
encode_with action entry state opts =
    let flags = compute_xmit_flags entry entry.name state opts action in
    encode_xmit_flags flags opts.wire.flags_codec
    ++ (encode_filename entry.name state flags opts
        ++ (encode_hlink action
            ++ (if is_abbreviated action then [] else encode_fields entry flags opts)))

pub record Sent : Type 0 where
  pub bytes : List ℕ
  pub state : DeltaState
  pub links : HardLinkEncoder

-- The state is updated from the entry, abbreviated or not.
unfoldable pub encode_entry :
    FileEntry → DeltaState → FileListOptions → HardLinkEncoder → Option HardLinkInfo → ℤ → Sent
encode_entry entry state opts links info entry_index =
    let resolved = resolve_hlink_action opts info links entry_index in
    record {
      bytes = encode_with resolved.0 entry state opts;
      state = update_delta_state state entry;
      links = resolved.1;
    }

pub data ReadEntryResult : Type 0 where
  read_entry : FileEntry → Carried → ReadEntryResult
  read_end : ℤ → ReadEntryResult

abbrev pub finish_entry :
    FileListOptions → ℕ → List ℕ → Carried → HlinkDecodeResult → Reader ReadEntryResult
finish_entry opts flags name carried (abbreviated entry next) = pure (read_entry entry next)
finish_entry opts flags name carried continue = do
  entry ← decode_fields carried.state flags opts name
  pure (read_entry entry (record carried { state = update_delta_state carried.state entry }))

abbrev pub named_entry :
    FileListOptions → List FileEntry → Carried → ℕ → List ℕ → Reader ReadEntryResult
named_entry opts prev_entries carried flags name = do
  hlink ← decode_hlink flags opts prev_entries name carried
  finish_entry opts flags name carried hlink

abbrev pub decode_flagged :
    FileListOptions → List FileEntry → Carried → DecodedFlags → Reader ReadEntryResult
decode_flagged opts prev_entries carried (end_of_list io_error) = pure (read_end io_error)
decode_flagged opts prev_entries carried (entry_flags flags) = do
  name ← decode_filename carried.state flags opts
  named_entry opts prev_entries carried flags name

unfoldable pub decode_entry : FileListOptions → List FileEntry → Carried → Reader ReadEntryResult
decode_entry opts prev_entries carried = do
  decoded ← decode_xmit_flags opts.wire.flags_codec
  decode_flagged opts prev_entries carried decoded
