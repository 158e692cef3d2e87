-- ===== src/Codec/EntryCodec/Duplicates.antt =====
-- A hard link to an entry that was sent before.
use ferrosync.Base.{
  ℕ, ◌≡◌, ◌≢◌, ap, ◌∙◌, refl, Bool, true, false, ◌&&◌, if◌then◌else◌, some, List, [], ◌++◌, length,
}
use ferrosync.Base.Int.{ℤ, IsI32, wrap_i32, ◌-ℤ◌, i32_bits, i32_bits-lt, i32_of_bits-i32_bits}
use ferrosync.Wire.Stream.{Reads, Reads-bind, ◌>>=◌, pure, bind_ok}
use ferrosync.Wire.Varint.{read_varint, write_varint}
use ferrosync.Wire.Varint.RoundTrip.{read_varint-write_varint}
use ferrosync.Codec.Format.{has_bit, byte, FileListOptions}
use ferrosync.Codec.Entry.{FileEntry, DeltaState, update_delta_state}
use ferrosync.Codec.Flags.{duplicate_of, decode_xmit_flags, encode_xmit_flags, entry_flags}
use ferrosync.Codec.Flags.RoundTrip.{decode_xmit_flags-encode_xmit_flags}
use ferrosync.Codec.Fields.{decode_filename, encode_filename}
use ferrosync.Codec.Hlink.{
  Carried, continue, abbreviated, entry_at, clone_entry, record_duplicate, read_duplicate,
  decode_hlink,
}
use ferrosync.Codec.EntryCodec.{
  encode_with, read_entry, finish_entry, named_entry, decode_flagged, decode_entry,
}
use ferrosync.Codec.EntryCodec.Agree.{
  IsWire, decisions, flags, sent, sent_duplicate, decisions-IsSendable,
}
use ferrosync.Codec.EntryCodec.Sync.{IsSendableEntry, InSync}
use ferrosync.Codec.EntryCodec.RoundTrip.{Reads-name}

announced : (a b : Bool) → a ≡ true → b ≡ true → (a && b) ≡ true
announced true b h k = k
announced false b h k = h

module _ (users groups : ℕ → List ℕ) (opts : FileListOptions) (st : DeltaState) (carried : Carried)
    (e first : FileEntry) (ndx : ℤ) (prev_entries : List FileEntry) (w : IsWire opts.wire)
    (h : IsSendableEntry users groups opts e) (s : InSync users groups opts st carried.state)
    (preserved : opts.preserve_hard_links ≡ true) (wide : opts.wire.flags_codec ≢ byte)
    (is_ndx : IsI32 ndx)
    (found : entry_at prev_entries (wrap_i32 (ndx -ℤ carried.state.ndx_start)) ≡ some first) where
  abbrev word : ℕ
  word = sent opts e st (duplicate_of ndx)

  abbrev clone : FileEntry
  clone = clone_entry first e.name word

  abbrev after : Carried
  after = record {
    state = update_delta_state carried.state clone;
    duplicates = record_duplicate carried.duplicates (length prev_entries) ndx;
  }

  Reads-back_reference :
      Reads
        (decode_hlink word opts prev_entries e.name carried)
        (write_varint (i32_bits ndx))
        (abbreviated clone after)
  unfolding decode_hlink
  Reads-back_reference rest =
      ap
        (λ c.
          (if c
              then (read_varint >>= read_duplicate prev_entries e.name word carried)
              else pure continue)
            (write_varint (i32_bits ndx) ++ rest))
        (announced opts.preserve_hard_links _ preserved
          (sent_duplicate opts e st (duplicate_of ndx) w ndx refl wide))
      ∙ bind_ok read_varint (read_duplicate prev_entries e.name word carried)
          (write_varint (i32_bits ndx) ++ rest)
          (read_varint-write_varint (i32_bits ndx) rest (i32_bits-lt ndx))
      ∙ rw (i32_of_bits-i32_bits ndx is_ndx, found)

  -- A duplicate arrives as the entry that it links to, under its own name, and is recorded. The
  -- flags take more than one byte, hard links are preserved, the receiver has the first entry at the
  -- index that is sent, the options can carry the entry, and the states of both sides agree.
  pub decode_entry-duplicate :
      Reads
        (decode_entry opts prev_entries carried)
        (encode_with (duplicate_of ndx) e st opts)
        (read_entry clone after)
  unfolding decode_entry encode_with
  decode_entry-duplicate =
      (Reads-bind (decode_xmit_flags opts.wire.flags_codec)
        (decode_flagged opts prev_entries carried)
        (encode_xmit_flags (flags opts e st (duplicate_of ndx)) opts.wire.flags_codec) _
        (entry_flags word) (read_entry clone after)
        (decode_xmit_flags-encode_xmit_flags opts.wire.flags_codec (has_bit 0 e.flags)
          (decisions opts e st (duplicate_of ndx))
          (decisions-IsSendable opts e st (duplicate_of ndx) w))
        (Reads-bind (decode_filename carried.state word opts)
          (named_entry opts prev_entries carried word)
          (encode_filename e.name st (flags opts e st (duplicate_of ndx)) opts) _ e.name
          (read_entry clone after)
          (Reads-name users groups opts st carried e (duplicate_of ndx) prev_entries w h s)
          (Reads-bind (decode_hlink word opts prev_entries e.name carried)
            (finish_entry opts word e.name carried) (write_varint (i32_bits ndx)) []
            (abbreviated clone after) (read_entry clone after) Reads-back_reference
            (λ rest. refl))))
