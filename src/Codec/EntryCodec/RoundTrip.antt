-- ===== src/Codec/EntryCodec/RoundTrip.antt =====
-- `decode_entry` against `encode_entry`.
use ferrosync.Base.{
  ℕ, ◌≤◌, ◌-◌, ◌<◌, ltb, leb, lt→ltb, ltb→lt, lt→leb, ◌≡◌, ap, ◌∙◌, refl, sym, Bool, true, false,
  ◌&&◌, if◌then◌else◌, List, [], ◌++◌, arith, Bool-cases, inl, inr, length,
}
use ferrosync.Wire.Stream.{Reads, Reads-bind, Reads-last}
use ferrosync.Codec.Format.{
  has_bit, byte, byte_extended, varint, single_int, major_minor, wire_format, FileListOptions,
}
use ferrosync.Codec.Entry.{FileEntry, DeltaState, update_delta_state}
use ferrosync.Codec.Flags.{
  is_major_minor, HardLinkAction, not_hard_linked, first_occurrence, duplicate_of, choices,
  same_name, long_name, common_prefix_len, decode_xmit_flags, encode_xmit_flags, entry_flags,
}
use ferrosync.Codec.Flags.Bits.{has_bit-flag_word}
use ferrosync.Codec.Flags.RoundTrip.{decode_xmit_flags-encode_xmit_flags}
use ferrosync.Codec.Fields.{decode_filename, encode_filename, decode_suffix}
use ferrosync.Codec.Fields.Names.{decode_filename-encode_filename}
use ferrosync.Codec.Hlink.{encode_hlink, is_abbreviated, Carried, continue, decode_hlink}
use ferrosync.Codec.EntryCodec.{
  encode_fields, decode_fields, encode_with, ReadEntryResult, read_entry, finish_entry, named_entry,
  decode_flagged, decode_entry,
}
use ferrosync.Codec.EntryCodec.Agree.{
  is_wide, IsWire, decisions, flags, sent, sent_name, sent_long, sent_hlink, decisions-IsSendable,
}
use ferrosync.Codec.EntryCodec.Sync.{IsSendableEntry, InSync, as_received}
use ferrosync.Codec.EntryCodec.Traverse.{Reads-fields}

no_hlink : (action : HardLinkAction) → is_abbreviated action ≡ false → encode_hlink action ≡ []
no_hlink not_hard_linked h = refl
no_hlink first_occurrence h = refl
no_hlink (duplicate_of ndx) h = ground arith

skipped : (preserve a : Bool) → a ≡ false → (preserve && a) ≡ false
skipped true a h = h
skipped false a h = refl

-- A name is decoded from the previous name alone.
decode_filename_same :
    (a b : DeltaState) (f : ℕ) (opts : FileListOptions) (s : List ℕ)
    → a.prev_name ≡ b.prev_name
    → decode_filename a f opts s ≡ decode_filename b f opts s
unfolding decode_filename decode_suffix
decode_filename_same a b f opts s h = rw h

module _ (users groups : ℕ → List ℕ) (opts : FileListOptions) (st : DeltaState) (carried : Carried)
    (e : FileEntry) (action : HardLinkAction) (prev_entries : List FileEntry) (w : IsWire opts.wire)
    (h : IsSendableEntry users groups opts e) (s : InSync users groups opts st carried.state) where
  abbrev pub f : ℕ
  f = flags opts e st action

  abbrev pub g : ℕ
  g = sent opts e st action

  name_flag : same_name f ≡ ltb 0 (common_prefix_len st.prev_name e.name)
  unfolding choices
  name_flag = has_bit-flag_word _ (decisions opts e st action) 5

  long_flag : long_name f ≡ ltb 255 (length e.name - common_prefix_len st.prev_name e.name)
  unfolding choices
  long_flag = has_bit-flag_word _ (decisions opts e st action) 6

  pub Reads-name :
      Reads (decode_filename carried.state g opts) (encode_filename e.name st f opts) e.name
  Reads-name rest =
      decode_filename_same carried.state st g opts (encode_filename e.name st f opts ++ rest)
        s.names
      ∙ decode_filename-encode_filename st e.name f g opts h.name_fits name_flag long_flag
          (sent_name opts e st action w) (sent_long opts e st action w) rest

  Reads-hlink :
      is_abbreviated action ≡ false
      → Reads (decode_hlink g opts prev_entries e.name carried) [] continue
  unfolding decode_hlink
  Reads-hlink a rest = rw (skipped opts.preserve_hard_links _ (sent_hlink opts e st action w a))

  -- An entry that is no duplicate is read back as `as_received` says, and the reader moves on to the
  -- state of that entry, where the format is that of a protocol version, the options can carry the
  -- entry, and the states of both sides agree before it.
  pub decode_entry-encode_with :
      is_abbreviated action ≡ false
      → Reads (decode_entry opts prev_entries carried) (encode_with action e st opts) (
          read_entry (as_received opts carried.state e g) (record carried {
            state = update_delta_state carried.state (as_received opts carried.state e g);
          }))
  unfolding decode_entry encode_with
  decode_entry-encode_with a =
      rw (a, no_hlink action a)
        (Reads-bind (decode_xmit_flags opts.wire.flags_codec)
          (decode_flagged opts prev_entries carried) (encode_xmit_flags f opts.wire.flags_codec) _
          (entry_flags g) result
          (decode_xmit_flags-encode_xmit_flags opts.wire.flags_codec (has_bit 0 e.flags)
            (decisions opts e st action) (decisions-IsSendable opts e st action w))
          (Reads-bind (decode_filename carried.state g opts)
            (named_entry opts prev_entries carried g) (encode_filename e.name st f opts) _ e.name
            result Reads-name
            (Reads-bind (decode_hlink g opts prev_entries e.name carried)
              (finish_entry opts g e.name carried) [] (encode_fields e f opts) continue result
              (Reads-hlink a)
              (Reads-last (decode_fields carried.state g opts e.name) finish
                (encode_fields e f opts) (as_received opts carried.state e g)
                (Reads-fields users groups opts st carried.state e action w h s)))))
    where
      finish : FileEntry → ReadEntryResult
      finish entry =
          read_entry entry (record carried { state = update_delta_state carried.state entry })

      result : ReadEntryResult
      result = finish (as_received opts carried.state e g)

-- A byte of flags is only used below version 28.
old_flags :
    (v b28 : Bool)
    → (if v then varint else (if b28 then byte_extended else byte)) ≡ byte
    → b28 ≡ false
old_flags true b28 h = absurd (ground (arith, ap is_wide (sym h)))
old_flags false true h = absurd (ground (arith, ap is_wide (sym h)))
old_flags false false h = refl

old_devices :
    (l28 b30 : Bool)
    → is_major_minor (if l28 then single_int else major_minor b30) ≡ false
    → l28 ≡ true
old_devices true b30 h = refl
old_devices false b30 h = ground arith

-- The format of every version that the handshake makes, where only version 30 and up has
-- compatibility flags.
pub wire_format-IsWire :
    (version compat_flags : ℕ)
    → (has_bit 7 compat_flags ≡ true → 30 ≤ version)
    → IsWire (wire_format version compat_flags)
unfolding wire_format
wire_format-IsWire version compat_flags h = (
  λ k. rw k,
  λ k. below 30 (omega arith) (old_flags _ _ k),
  λ k. below 31 (omega arith) (old_flags _ _ k),
  λ k. rw (lt→ltb version 28 (under (old_flags _ _ k))),
  λ k. flags_of (old_devices _ _ k),
)
  where
    under : leb 28 version ≡ false → version < 28
    under k = ground arith

    below : (n : ℕ) → 28 ≤ n → leb 28 version ≡ false → leb n version ≡ false
    below n m k = ground arith

    flags_of :
        ltb version 28 ≡ true
        → (if has_bit 7 compat_flags
            then varint
            else (if leb 28 version then byte_extended else byte))
          ≡ byte
    flags_of k = elim (Bool-cases (has_bit 7 compat_flags)) [
      | inl e ↦ absurd (omega (arith, h e, ltb→lt version 28 k))
      | inr e ↦ rw (e, lt→leb 28 version (ltb→lt version 28 k))
    ]
