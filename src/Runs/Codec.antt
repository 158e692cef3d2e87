-- ===== src/Runs/Codec.antt =====
-- The theorems on the file list codec and the permission rules at concrete values.
use ferrosync.Base.{
  ℕ, ◌≡◌, ◌≢◌, ap, refl, Bool, true, false, none, some, List, [], ◌∷◌, ◌++◌, ◌/◌, ◌%◌, arith,
}
use ferrosync.Base.Int.{pos, ◌-ℤ◌}
use ferrosync.Wire.Stream.{Reads, ok}
use ferrosync.Codec.Format.{has_bit, wire_format, FileListOptions, byte, byte_extended, varint}
use ferrosync.Codec.Entry.{FileEntry, DeltaState, initial, update_delta_state, should_send_rdev}
use ferrosync.Codec.Flags.{
  equal_run, Choices, first_occurrence, duplicate_of, flag_word, decode_xmit_flags,
  encode_xmit_flags, entry_flags,
}
use ferrosync.Codec.Flags.RoundTrip.{decode_xmit_flags-encode_xmit_flags, sent_word}
use ferrosync.Codec.Fields.{decode_filename, encode_filename}
use ferrosync.Codec.Fields.Names.{decode_filename-encode_filename}
use ferrosync.Codec.Hlink.{Carried, clone_entry, record_duplicate}
use ferrosync.Codec.EntryCodec.{encode_with, decode_entry, read_entry}
use ferrosync.Codec.EntryCodec.Agree.{is_wide, IsWire, sent}
use ferrosync.Codec.EntryCodec.Sync.{IsSendableEntry, as_received, initial-InSync}
use ferrosync.Codec.EntryCodec.RoundTrip.{decode_entry-encode_with, wire_format-IsWire}
use ferrosync.Codec.EntryCodec.Duplicates.{decode_entry-duplicate}
use ferrosync.Codec.Batch.{send_file_list_batch, recv_file_list_batch}
use ferrosync.Codec.Batch.RoundTrip.{AreCopies, recv_file_list_batch-send_file_list_batch}
use ferrosync.Codec.IdList.{send_id_list, recv_id_list}
use ferrosync.Codec.IdList.RoundTrip.{recv_id_list-send_id_list}
use ferrosync.Codec.Chmod.{
  ChmodRule, only_dirs, op_add, parse, parse_parts, parse_rule, parse_who, parse_bits, split_commas,
  apply,
}
use ferrosync.Codec.Chmod.Parsed.{apply-file_type, apply-other_bits}

abbrev users : ℕ → List ℕ
users id = b'u' ∷ []

abbrev groups : ℕ → List ℕ
groups id = b'g' ∷ []

abbrev options : Bool → FileListOptions
options links = record {
  wire = wire_format 31 0x81;
  preserve_uid = true;
  preserve_gid = true;
  preserve_devices = true;
  preserve_specials = false;
  preserve_links = true;
  preserve_hard_links = links;
  always_checksum = false;
  checksum_len = 16;
  xmit_id0_names = true;
}

abbrev opts : FileListOptions
opts = options false

abbrev linked_opts : FileListOptions
linked_opts = options true

abbrev named_file : ℕ → FileEntry
named_file c = record {
  name = b'a' ∷ b'/' ∷ c ∷ [];
  len = pos 5;
  mtime = pos 1000;
  mtime_nsec = 7;
  mode = 0x81a4;
  uid = 1000;
  gid = 100;
  rdev = 0;
  link_target = [];
  checksum = [];
  flags = 0;
  user_name = users 1000;
  group_name = groups 100;
  hlink_source = none;
  hard_link_info = none;
}

abbrev file : FileEntry
file = named_file b'b'

abbrev other_file : FileEntry
other_file = named_file b'c'

abbrev start : Carried
start = record { state = initial; duplicates = [] }

is_wire : IsWire opts.wire
is_wire = wire_format-IsWire 31 0x81 (λ h. omega arith)

sendable : (links : Bool) (c : ℕ) → IsSendableEntry users groups (options links) (named_file c)
unfolding wire_format should_send_rdev
sendable links c = record {
  name_fits = omega arith;
  len_fits = ((omega arith, omega arith), omega arith);
  mtime_fits = ((omega arith, omega arith), omega arith);
  nsec_fits = omega arith;
  mode_fits = omega arith;
  uid_fits = omega arith;
  gid_fits = omega arith;
  rdev_fits = omega arith;
  rdev_none = λ h. refl;
  link_fits = omega arith;
  user_of = refl;
  group_of = refl;
  user_fits = omega arith;
  group_fits = omega arith;
}

recv_file_list_batch-send_file_list_batch_example :
    (rs : List FileEntry) × (recv_file_list_batch opts
        (send_file_list_batch opts (file ∷ other_file ∷ []) ++ 9 ∷ [])
      ≡ ok (rs, 9 ∷ []))
    × AreCopies opts (file ∷ other_file ∷ []) rs
recv_file_list_batch-send_file_list_batch_example =
    recv_file_list_batch-send_file_list_batch opts is_wire users groups refl
      (file ∷ other_file ∷ []) (9 ∷ []) (sendable false b'b', (sendable false b'c', tt))

decode_entry-encode_with_example :
    Reads (decode_entry opts [] start) (encode_with first_occurrence file initial opts) (
      read_entry
        (as_received opts initial file (sent opts file initial first_occurrence))
        (record start {
          state =
              update_delta_state initial
                (as_received opts initial file (sent opts file initial first_occurrence));
        }))
decode_entry-encode_with_example =
    decode_entry-encode_with users groups opts initial start file first_occurrence [] is_wire
      (sendable false b'b') (initial-InSync users groups opts) refl

-- After a/b the name a/c is sent as its last byte.
abbrev after_file : DeltaState
after_file = record initial { prev_name = b'a' ∷ b'/' ∷ b'b' ∷ [] }

decode_filename-encode_filename_example :
    Reads
      (decode_filename after_file 32 opts)
      (encode_filename other_file.name after_file 32 opts)
      other_file.name
unfolding equal_run
decode_filename-encode_filename_example =
    decode_filename-encode_filename after_file other_file.name 32 32 opts (omega arith) refl refl
      refl refl

varint_not_byte : varint ≢ byte
varint_not_byte h = absurd (ground (arith, ap is_wide h))

decode_entry-duplicate_example :
    Reads
      (decode_entry linked_opts (file ∷ []) start)
      (encode_with (duplicate_of (pos 0)) other_file initial linked_opts)
      (read_entry
        (clone_entry file other_file.name
          (sent linked_opts other_file initial (duplicate_of (pos 0))))
        (record {
          state = update_delta_state initial (
              clone_entry file other_file.name
                (sent linked_opts other_file initial (duplicate_of (pos 0))));
          duplicates = record_duplicate [] 1 (pos 0);
        }))
unfolding wire_format ◌-ℤ◌
decode_entry-duplicate_example =
    decode_entry-duplicate users groups linked_opts initial start other_file file (pos 0)
      (file ∷ []) is_wire (sendable true b'c') (initial-InSync users groups linked_opts) refl
      varint_not_byte (omega arith, omega arith) refl

-- A first hard link with a new user name.
abbrev first_link : Choices
first_link = record {
  c_mode = true;
  c_rdev = false;
  c_uid = false;
  c_gid = true;
  c_name = true;
  c_long = false;
  c_time = true;
  c_major = false;
  c_hlinked = true;
  c_user = true;
  c_group = false;
  c_first = true;
  c_nsec = false;
}

decode_xmit_flags-encode_xmit_flags_example :
    Reads
      (decode_xmit_flags byte_extended)
      (encode_xmit_flags (flag_word false first_link) byte_extended)
      (entry_flags (sent_word byte_extended false first_link))
decode_xmit_flags-encode_xmit_flags_example =
    decode_xmit_flags-encode_xmit_flags byte_extended false first_link (λ h. refl, λ b. refl)

recv_id_list-send_id_list_example :
    Reads (recv_id_list opts) (send_id_list (file ∷ other_file ∷ []) opts) tt
recv_id_list-send_id_list_example =
    recv_id_list-send_id_list (file ∷ other_file ∷ []) opts (omega arith, (omega arith, tt))
      (omega arith, (omega arith, tt))

-- `Du+x`
abbrev text : List ℕ
text = b'D' ∷ b'u' ∷ b'+' ∷ b'x' ∷ []

abbrev rule : ChmodRule
rule = record {
  scope = only_dirs;
  op = op_add;
  who_mask = 0x9c0;
  bits = 0x40;
  conditional_exec = false;
}

text_parses : parse text ≡ some (rule ∷ [])
unfolding parse parse_parts parse_rule parse_who parse_bits split_commas
text_parses = refl

apply-file_type_example : apply (rule ∷ []) 0x41a4 true / 4096 ≡ 0x41a4 / 4096
apply-file_type_example = apply-file_type text (rule ∷ []) 0x41a4 true text_parses

apply-other_bits_example :
    has_bit 2 (apply (rule ∷ []) 0x41a4 true % 4096) ≡ has_bit 2 (0x41a4 % 4096)
apply-other_bits_example =
    apply-other_bits text (rule ∷ []) 0x41a4 true 2 text_parses (λ h. omega arith) (refl, tt)
