-- ===== src/Codec/Batch.antt =====
-- The file list in one batch, `send_file_list_batch` and `recv_file_list_batch` of
-- crates/ferrosync-codec/src/exchange.rs. The receiver's loop runs on fuel: one round for each byte of
-- the stream and one more, and each entry takes a byte.
pub mod RoundTrip
use ferrosync.Base.{ℕ, zero, suc, ◌+◌, ◌%◌, ◌^◌, Bool, if◌then◌else◌, List, [], ◌∷◌, ◌++◌, length}
use ferrosync.Base.Int.{ℤ, pos, i32_of_bits}
use ferrosync.Wire.Stream.{Reader, ◌>>=◌, pure, fail, io}
use ferrosync.Wire.Fixed.{read_int, write_int}
use ferrosync.Codec.Format.{FileListOptions}
use ferrosync.Codec.Entry.{FileEntry, DeltaState, initial, hard_link_candidate}
use ferrosync.Codec.Flags.{encode_end_of_flist}
use ferrosync.Codec.Hlink.{HardLinkEncoder, Carried}
use ferrosync.Codec.EntryCodec.{encode_entry, ReadEntryResult, read_entry, read_end, decode_entry}

-- `i as i32`
abbrev pub as_index : ℕ → ℤ
as_index i = i32_of_bits (i % 2 ^ 32)

unfoldable pub send_entries :
    FileListOptions → List FileEntry → ℕ → DeltaState → HardLinkEncoder → List ℕ
send_entries opts [] i state links = []
send_entries opts (e ∷ entries) i state links =
    let sent = encode_entry e state opts links (hard_link_candidate e) (as_index i) in
    sent.bytes ++ send_entries opts entries (i + 1) sent.state sent.links

abbrev pub end_of_batch : FileListOptions → List ℕ
end_of_batch opts =
    encode_end_of_flist (pos 0) opts.wire.flags_codec
    ++ (if opts.wire.trailing_io_error then write_int (pos 0) else [])

unfoldable pub send_file_list_batch : FileListOptions → List FileEntry → List ℕ
send_file_list_batch opts entries = send_entries opts entries 0 initial [] ++ end_of_batch opts

-- What follows the end marker.
abbrev pub finish_batch : FileListOptions → List FileEntry → Reader (List FileEntry)
finish_batch opts entries =
    if opts.wire.trailing_io_error then (do io_error ← read_int; pure entries) else pure entries

abbrev pub next_entry :
    (List FileEntry → Carried → Reader (List FileEntry))
    → FileListOptions
    → List FileEntry
    → ReadEntryResult
    → Reader (List FileEntry)
next_entry again opts entries (read_entry e carried) = again (entries ++ e ∷ []) carried
next_entry again opts entries (read_end io_error) = finish_batch opts entries

unfoldable pub recv_entries :
    ℕ → FileListOptions → List FileEntry → Carried → Reader (List FileEntry)
recv_entries zero opts entries carried = fail io
recv_entries (suc fuel) opts entries carried = do
  result ← decode_entry opts entries carried
  next_entry (recv_entries fuel opts) opts entries result

unfoldable pub recv_file_list_batch : FileListOptions → Reader (List FileEntry)
recv_file_list_batch opts s =
    recv_entries (suc (length s)) opts [] (record { state = initial; duplicates = [] }) s
