-- ===== src/Codec/Flags.antt =====
-- The XMIT flags of crates/ferrosync-codec/src/codec/flags.rs: which fields of an entry are sent, and
-- the flag word on the wire. The bits are those of xmit.rs. Each `|=` of the code sets a bit that no
-- other one sets, so the word is the sum of its bits.
pub mod Bits
pub mod RoundTrip
use ferrosync.Base.{
  ℕ, zero, suc, ◌+◌, ◌-◌, ◌/◌, ◌%◌, ◌^◌, min, ◌==◌, ltb, leb, Bool, true, false, not, ◌&&◌, ◌||◌,
  if◌then◌else◌, List, [], ◌∷◌, length, ◌++◌, ◌*◌,
}
use ferrosync.Base.Int.{ℤ, pos, i32_of_bits, i32_bits, eq_ℤ}
use ferrosync.Wire.Stream.{Reader, ◌>>=◌, pure, read_byte}
use ferrosync.Wire.Fixed.{write_shortint}
use ferrosync.Wire.Varint.{read_varint, write_varint}
use ferrosync.Delta.Matcher.{same_bytes}
use ferrosync.Codec.Format.{
  has_bit, FlagsCodec, byte, byte_extended, varint, DeviceCodec, single_int, major_minor,
  FileListOptions,
}
use ferrosync.Codec.Entry.{FileEntry, DeltaState, should_send_rdev, rdev_major}

-- What the encoder does with an entry that may be a hard link (hlink.rs).
pub data HardLinkAction : Type 0 where
  not_hard_linked first_occurrence : HardLinkAction
  duplicate_of : ℤ → HardLinkAction

abbrev pub hlinked_action : HardLinkAction → Bool
hlinked_action not_hard_linked = false
hlinked_action first_occurrence = true
hlinked_action (duplicate_of ndx) = true

abbrev pub first_action : HardLinkAction → Bool
first_action first_occurrence = true
first_action action = false

-- The accessors of `XmitFlags`, a `u32`.
abbrev pub same_mode : ℕ → Bool
same_mode flags = has_bit 1 flags

abbrev pub same_rdev_pre28 : ℕ → Bool
same_rdev_pre28 flags = has_bit 2 flags

abbrev pub same_uid : ℕ → Bool
same_uid flags = has_bit 3 flags

abbrev pub same_gid : ℕ → Bool
same_gid flags = has_bit 4 flags

abbrev pub same_name : ℕ → Bool
same_name flags = has_bit 5 flags

abbrev pub long_name : ℕ → Bool
long_name flags = has_bit 6 flags

abbrev pub same_time : ℕ → Bool
same_time flags = has_bit 7 flags

abbrev pub same_rdev_major : ℕ → Bool
same_rdev_major flags = has_bit 8 flags

abbrev pub hlinked : ℕ → Bool
hlinked flags = has_bit 9 flags

abbrev pub user_name_follows : ℕ → Bool
user_name_follows flags = has_bit 10 flags

abbrev pub group_name_follows : ℕ → Bool
group_name_follows flags = has_bit 11 flags

abbrev pub hlink_first : ℕ → Bool
hlink_first flags = has_bit 12 flags

abbrev pub mod_nsec : ℕ → Bool
mod_nsec flags = has_bit 13 flags

-- `zip`, `take(limit)`, `take_while` and `count`.
unfoldable pub equal_run : ℕ → List ℕ → List ℕ → ℕ
equal_run zero a b = 0
equal_run (suc limit) [] b = 0
equal_run (suc limit) (x ∷ a) [] = 0
equal_run (suc limit) (x ∷ a) (y ∷ b) =
    let rest = equal_run limit a b in if x == y then suc rest else 0

abbrev pub common_prefix_len : List ℕ → List ℕ → ℕ
common_prefix_len a b = equal_run (min (min (length a) (length b)) 255) a b

abbrev pub is_empty : List ℕ → Bool
is_empty [] = true
is_empty (x ∷ xs) = false

abbrev pub is_major_minor : DeviceCodec → Bool
is_major_minor single_int = false
is_major_minor (major_minor varint_minor) = true

abbrev pub flag_num : Bool → ℕ
flag_num true = 1
flag_num false = 0

-- The decisions of `compute_xmit_flags`, one for each bit of the word but `TOP_DIR`.
pub record Choices : Type 0 where
  pub c_mode : Bool
  pub c_rdev : Bool
  pub c_uid : Bool
  pub c_gid : Bool
  pub c_name : Bool
  pub c_long : Bool
  pub c_time : Bool
  pub c_major : Bool
  pub c_hlinked : Bool
  pub c_user : Bool
  pub c_group : Bool
  pub c_first : Bool
  pub c_nsec : Bool

abbrev pub same_owner : Bool → ℕ → ℕ → Bool → Bool
same_owner preserved id prev_id has_prev = not preserved || ((id == prev_id) && has_prev)

-- The name of an owner follows the number if it is new.
abbrev pub name_follows : Bool → Bool → Bool → List ℕ → List ℕ → Bool
name_follows preserved same inline_names name prev_name =
    preserved
    && (not same && (inline_names && (not (is_empty name) && not (same_bytes name prev_name))))

unfoldable pub choices :
    FileEntry → List ℕ → DeltaState → FileListOptions → HardLinkAction → Choices
choices entry wire_name state opts hlink_action =
    let common_prefix = common_prefix_len state.prev_name wire_name in
    let has_prev = not (is_empty state.prev_name) in
    let uid_flag = same_owner opts.preserve_uid entry.uid state.prev_uid has_prev in
    let gid_flag = same_owner opts.preserve_gid entry.gid state.prev_gid has_prev in
    let send_rdev = should_send_rdev entry.mode opts in
    let majors = is_major_minor opts.wire.device_codec in
    record {
      c_mode = (entry.mode == state.prev_mode) && has_prev;
      c_rdev = send_rdev && (not majors && (entry.rdev == state.prev_rdev));
      c_uid = uid_flag;
      c_gid = gid_flag;
      c_name = ltb 0 common_prefix;
      c_long = ltb 255 (length wire_name - common_prefix);
      c_time = eq_ℤ entry.mtime state.prev_mtime && has_prev;
      c_major = send_rdev && (majors && (rdev_major entry.rdev == state.prev_rdev_major));
      c_hlinked = hlinked_action hlink_action;
      c_user =
          name_follows opts.preserve_uid uid_flag opts.wire.has_inline_names entry.user_name
            state.prev_user_name;
      c_group =
          name_follows opts.preserve_gid gid_flag opts.wire.has_inline_names entry.group_name
            state.prev_group_name;
      c_first = first_action hlink_action;
      c_nsec = opts.wire.has_nanoseconds && not (entry.mtime_nsec == 0);
    }

-- The word of a list of bits, the lowest first.
abbrev pub word_of : List Bool → ℕ
word_of [] = 0
word_of (b ∷ bs) = flag_num b + 2 * word_of bs

abbrev pub flag_bits : Bool → Choices → List Bool
flag_bits top c =
    top ∷ c.c_mode ∷ c.c_rdev ∷ c.c_uid ∷ c.c_gid ∷ c.c_name ∷ c.c_long ∷ c.c_time ∷ c.c_major
    ∷ c.c_hlinked ∷ c.c_user ∷ c.c_group ∷ c.c_first ∷ c.c_nsec ∷ []

unfoldable pub flag_word : Bool → Choices → ℕ
flag_word top c = word_of (flag_bits top c)

abbrev pub compute_xmit_flags :
    FileEntry → List ℕ → DeltaState → FileListOptions → HardLinkAction → ℕ
compute_xmit_flags entry wire_name state opts hlink_action =
    flag_word (has_bit 0 entry.flags) (choices entry wire_name state opts hlink_action)

pub data DecodedFlags : Type 0 where
  entry_flags : ℕ → DecodedFlags
  end_of_list : ℤ → DecodedFlags

abbrev pub read_io_error : Reader DecodedFlags
read_io_error = do io_error ← read_varint; pure (end_of_list (i32_of_bits io_error))

-- `XMIT_EXTENDED_FLAGS | XMIT_IO_ERROR_ENDLIST` is 4 + 4096.
abbrev pub extended_word : ℕ → Reader DecodedFlags
extended_word f = if f == 4 + 4096 then read_io_error else pure (entry_flags f)

abbrev pub second_byte : ℕ → Reader DecodedFlags
second_byte first = do second ← read_byte; extended_word (first + second * 256)

abbrev pub after_varint : ℕ → Reader DecodedFlags
after_varint f = if f == 0 then read_io_error else pure (entry_flags f)

abbrev pub after_first : ℕ → Reader DecodedFlags
after_first first =
    if first == 0
    then pure (end_of_list (pos 0))
    else (if has_bit 2 first then second_byte first else pure (entry_flags first))

abbrev pub after_byte : ℕ → Reader DecodedFlags
after_byte first = if first == 0 then pure (end_of_list (pos 0)) else pure (entry_flags first)

unfoldable pub decode_xmit_flags : FlagsCodec → Reader DecodedFlags
decode_xmit_flags varint = do f ← read_varint; after_varint f
decode_xmit_flags byte_extended = do first ← read_byte; after_first first
decode_xmit_flags byte = do first ← read_byte; after_byte first

-- `raw | XMIT_EXTENDED_FLAGS`
abbrev pub with_extended : ℕ → ℕ
with_extended raw = if has_bit 2 raw then raw else raw + 4

abbrev pub two_bytes : ℕ → Bool
two_bytes raw = not (raw / 256 % 256 == 0) || (raw == 0)

abbrev pub low_byte : ℕ → ℕ
low_byte raw = if raw % 256 == 0 then 1 else raw % 256

unfoldable pub encode_xmit_flags : ℕ → FlagsCodec → List ℕ
encode_xmit_flags raw varint = write_varint (if raw == 0 then 4 else raw)
encode_xmit_flags raw byte_extended =
    if two_bytes raw then write_shortint (with_extended raw % 2 ^ 16) else raw % 256 ∷ []
encode_xmit_flags raw byte = low_byte raw ∷ []

unfoldable pub encode_end_of_flist : ℤ → FlagsCodec → List ℕ
encode_end_of_flist io_error varint = write_varint 0 ++ write_varint (i32_bits io_error)
encode_end_of_flist io_error byte_extended =
    if eq_ℤ io_error (pos 0)
    then 0 ∷ []
    else write_shortint (4 + 4096) ++ write_varint (i32_bits io_error)
encode_end_of_flist io_error byte = 0 ∷ []
