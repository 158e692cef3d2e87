-- ===== src/Codec/Hlink.antt =====
-- The hard links of crates/ferrosync-codec/src/codec/hlink.rs. A `HashMap` is an association list
-- with the latest entry in front.
use ferrosync.Base.{
  ℕ, leb, ◌==◌, Bool, true, false, not, ◌&&◌, if◌then◌else◌, Option, none, some, List, [], ◌∷◌,
  length, get_elem?,
}
use ferrosync.Base.Int.{ℤ, pos, negsuc, ◌-ℤ◌, wrap_i32, i32_of_bits, i32_bits}
use ferrosync.Wire.Stream.{Reader, ◌>>=◌, pure}
use ferrosync.Wire.Varint.{read_varint, write_varint}
use ferrosync.Codec.Format.{FileListOptions}
use ferrosync.Codec.Entry.{HardLinkInfo, FileEntry, DeltaState, update_delta_state}
use ferrosync.Codec.Flags.{
  HardLinkAction, not_hard_linked, first_occurrence, duplicate_of, hlinked, hlink_first,
}

-- Device, inode and the index of the first entry.
pub record SeenLink : Type 0 where
  pub dev : ℕ
  pub ino : ℕ
  pub index : ℤ

abbrev pub HardLinkEncoder : Type 0
HardLinkEncoder = List SeenLink

unfoldable pub find_link : HardLinkEncoder → ℕ → ℕ → Option ℤ
find_link [] dev ino = none
find_link (s ∷ seen) dev ino =
    let rest = find_link seen dev ino in
    if (s.dev == dev) && (s.ino == ino) then some s.index else rest

abbrev pub see_link :
    HardLinkEncoder → HardLinkInfo → ℤ → Option ℤ → HardLinkAction × HardLinkEncoder
see_link seen info index (some first_index) = (duplicate_of first_index, seen)
see_link seen info index none =
    (first_occurrence, record { dev = info.dev; ino = info.ino; index = index } ∷ seen)

unfoldable pub check : HardLinkEncoder → HardLinkInfo → ℤ → HardLinkAction × HardLinkEncoder
check seen info index =
    if leb info.nlink 1
    then (not_hard_linked, seen)
    else see_link seen info index (find_link seen info.dev info.ino)

abbrev check_info : HardLinkEncoder → Option HardLinkInfo → ℤ → HardLinkAction × HardLinkEncoder
check_info seen none index = (not_hard_linked, seen)
check_info seen (some info) index = check seen info index

unfoldable pub resolve_hlink_action :
    FileListOptions → Option HardLinkInfo → HardLinkEncoder → ℤ → HardLinkAction × HardLinkEncoder
resolve_hlink_action opts info seen index =
    if opts.preserve_hard_links then check_info seen info index else (not_hard_linked, seen)

-- The index of the first entry, for a duplicate only.
abbrev pub encode_hlink : HardLinkAction → List ℕ
encode_hlink (duplicate_of first_ndx) = write_varint (i32_bits first_ndx)
encode_hlink action = []

-- `HlinkEncodeResult::Abbreviated`: no field follows.
abbrev pub is_abbreviated : HardLinkAction → Bool
is_abbreviated (duplicate_of first_ndx) = true
is_abbreviated action = false

pub record Duplicate : Type 0 where
  pub entry_index : ℕ
  pub first_index : ℤ

abbrev pub HardLinkDecoder : Type 0
HardLinkDecoder = List Duplicate

-- `record_duplicate`
abbrev pub record_duplicate : HardLinkDecoder → ℕ → ℤ → HardLinkDecoder
record_duplicate groups entry_index first_index =
    record { entry_index = entry_index; first_index = first_index } ∷ groups

-- What the decoder carries from entry to entry.
pub record Carried : Type 0 where
  pub state : DeltaState
  pub duplicates : HardLinkDecoder

pub data HlinkDecodeResult : Type 0 where
  continue : HlinkDecodeResult
  abbreviated : FileEntry → Carried → HlinkDecodeResult

-- `prev_entries.get(local_idx)`: a negative index is a huge one `as usize`.
abbrev pub entry_at : List FileEntry → ℤ → Option FileEntry
entry_at entries (pos n) = get_elem? entries n
entry_at entries (negsuc n) = none

-- The entry of a duplicate: that of the first occurrence under another name.
abbrev pub clone_entry : FileEntry → List ℕ → ℕ → FileEntry
clone_entry first name flags = record first {
  hlink_source = some first.name;
  name = name;
  flags = flags;
}

abbrev pub resolve_duplicate :
    List FileEntry → List ℕ → ℕ → Carried → ℤ → Option FileEntry → HlinkDecodeResult
resolve_duplicate prev_entries name flags carried first_ndx none = continue
resolve_duplicate prev_entries name flags carried first_ndx (some first) =
    let entry = clone_entry first name flags in
    abbreviated entry (record {
      state = update_delta_state carried.state entry;
      duplicates = record_duplicate carried.duplicates (length prev_entries) first_ndx;
    })

abbrev pub read_duplicate : List FileEntry → List ℕ → ℕ → Carried → ℕ → Reader HlinkDecodeResult
read_duplicate prev_entries name flags carried word =
    let first_ndx = i32_of_bits word in
    pure (
      resolve_duplicate prev_entries name flags carried first_ndx
        (entry_at prev_entries (wrap_i32 (first_ndx -ℤ carried.state.ndx_start))))

unfoldable pub decode_hlink :
    ℕ → FileListOptions → List FileEntry → List ℕ → Carried → Reader HlinkDecodeResult
decode_hlink flags opts prev_entries name carried =
    if opts.preserve_hard_links && (hlinked flags && not (hlink_first flags))
    then (do word ← read_varint; read_duplicate prev_entries name flags carried word)
    else pure continue
