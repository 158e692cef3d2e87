-- ===== src/Codec/EntryCodec/Traverse.antt =====
-- The fields of an entry in their order: what the decoder makes of the encoder's bytes.
use ferrosync.Base.{
  ℕ, ◌==◌, ==_iff, ◌≡◌, ap, ◌∙◌, refl, sym, Bool, true, false, not, ◌&&◌, if◌then◌else◌, List, [],
  arith, Bool-cases, inl, inr,
}
use ferrosync.Base.Int.{eq_ℤ, eq_ℤ-eq}
use ferrosync.Wire.Stream.{ok, Reads, Reads-bind, Reads-last, Reads-unless, Reads-when}
use ferrosync.Wire.Varint.{read_varint}
use ferrosync.Wire.Varint.RoundTrip.{read_varint-write_varint}
use ferrosync.Wire.Varlong.{IntCodec}
use ferrosync.Codec.Format.{has_bit, DeviceCodec, single_int, major_minor, FileListOptions}
use ferrosync.Codec.Entry.{FileEntry, DeltaState, should_send_rdev, rdev_major, rdev_minor}
use ferrosync.Codec.Flags.{
  is_major_minor, HardLinkAction, choices, same_mode, same_time, same_rdev_pre28, same_rdev_major,
  name_follows, same_owner, is_empty,
}
use ferrosync.Codec.Flags.Bits.{has_bit-flag_word}
use ferrosync.Codec.Fields.{
  encode_file_length, decode_file_length, encode_mtime, decode_mtime, encode_mtime_nsec,
  decode_mtime_nsec, encode_mode, decode_mode, encode_uid, decode_uid, encode_gid, decode_gid,
  encode_rdev, decode_rdev, encode_symlink, decode_symlink, encode_checksum, decode_checksum,
  read_mtime, read_u32, read_device, write_device, sends_link, sends_checksum, fit_checksum,
}
use ferrosync.Codec.Fields.Scalars.{Reads-length, Reads-mtime, Reads-u32}
use ferrosync.Codec.Fields.Names.{Reads-link, Reads-checksum}
use ferrosync.Codec.Fields.Devices.{Omits, Reads-device}
use ferrosync.Codec.Fields.Owners.{Reads-owner_field, received_id, received_name}
use ferrosync.Codec.EntryCodec.{encode_fields, decode_fields}
use ferrosync.Codec.EntryCodec.Agree.{
  needs_inline, IsWire, decisions, flags, sent, sent_mode, sent_uid, sent_gid, sent_time,
  sent_major, sent_rdev, sent_user, sent_group, sent_nsec,
}
use ferrosync.Codec.EntryCodec.Sync.{IsSendableEntry, InSync, as_received}

and_left : (a b : Bool) → (a && b) ≡ true → a ≡ true
and_left true b h = refl
and_left false b h = h

and_right : (a b : Bool) → (a && b) ≡ true → b ≡ true
and_right true b h = h
and_right false b h = ground arith

-- Only the flag of the format's device encoding is read.
device_flags :
    (device : DeviceCodec) (codec : IntCodec) (state : DeltaState) (f g : ℕ)
    → (device ≡ single_int → same_rdev_pre28 f ≡ same_rdev_pre28 g)
    → same_rdev_major f ≡ same_rdev_major g
    → read_device device codec state f ≡ read_device device codec state g
device_flags single_int codec state f g h k = rw (h refl)
device_flags (major_minor varint_minor) codec state f g h k = rw k

device-Omits :
    (device : DeviceCodec) (state : DeltaState) (rdev f : ℕ)
    → (same_rdev_pre28 f ≡ true → state.prev_rdev ≡ rdev)
    → (same_rdev_major f ≡ true → state.prev_rdev_major ≡ rdev_major rdev)
    → Omits device state rdev f
device-Omits single_int state rdev f h k = h
device-Omits (major_minor varint_minor) state rdev f h k = k

no_nsec :
    (nanos : Bool) (n : ℕ)
    → (nanos && (nanos && not (n == 0))) ≡ false
    → 0 ≡ (if nanos then n else 0)
no_nsec true n h = ground arith
no_nsec false n h = refl

some_nsec :
    (nanos : Bool) (n : ℕ)
    → (nanos && (nanos && not (n == 0))) ≡ true
    → n ≡ (if nanos then n else 0)
some_nsec true n h = refl
some_nsec false n h = ground arith

module _ (users groups : ℕ → List ℕ) (opts : FileListOptions) (st dst : DeltaState) (e : FileEntry)
    (action : HardLinkAction) (w : IsWire opts.wire) (h : IsSendableEntry users groups opts e)
    (s : InSync users groups opts st dst) where
  abbrev f : ℕ
  f = flags opts e st action

  abbrev g : ℕ
  g = sent opts e st action

  abbrev has_prev : Bool
  has_prev = not (is_empty st.prev_name)

  mtime_kept : same_time f ≡ true → dst.prev_mtime ≡ e.mtime
  unfolding choices
  mtime_kept k =
      let b : (eq_ℤ e.mtime st.prev_mtime && has_prev) ≡ true =
        sym (has_bit-flag_word _ (decisions opts e st action) 7) ∙ k in
      s.times ∙ sym (eq_ℤ-eq e.mtime st.prev_mtime (and_left _ has_prev b))

  Reads-mtime_field : Reads (decode_mtime dst g opts) (encode_mtime e.mtime f opts) e.mtime
  Reads-mtime_field = rw (sent_time opts e st action w) (
      Reads-unless (same_time f) dst.prev_mtime (read_mtime opts.wire.int_codec) _ e.mtime
        mtime_kept (λ k. Reads-mtime opts.wire.int_codec e.mtime h.mtime_fits))

  nsec_flag : has_bit 13 f ≡ (opts.wire.has_nanoseconds && not (e.mtime_nsec == 0))
  unfolding choices
  nsec_flag = has_bit-flag_word _ (decisions opts e st action) 13

  Reads-nsec :
      Reads
        (decode_mtime_nsec g opts)
        (encode_mtime_nsec e.mtime_nsec f opts)
        (if opts.wire.has_nanoseconds then e.mtime_nsec else 0)
  Reads-nsec =
      rw (sent_nsec opts e st action w, nsec_flag)
        (Reads-when
          (opts.wire.has_nanoseconds && (opts.wire.has_nanoseconds && not (e.mtime_nsec == 0))) 0
          read_varint _ _ (no_nsec opts.wire.has_nanoseconds e.mtime_nsec)
          (λ k rest.
            read_varint-write_varint e.mtime_nsec rest h.nsec_fits
            ∙ ap (λ (n : ℕ). ok (n, rest)) (some_nsec opts.wire.has_nanoseconds e.mtime_nsec k)))

  mode_kept : same_mode f ≡ true → dst.prev_mode ≡ e.mode
  unfolding choices
  mode_kept k =
      let b : ((e.mode == st.prev_mode) && has_prev) ≡ true =
        sym (has_bit-flag_word _ (decisions opts e st action) 1) ∙ k in
      s.modes ∙ sym ((==_iff e.mode st.prev_mode).0 (and_left _ has_prev b))

  Reads-mode : Reads (decode_mode dst g) (encode_mode e.mode f) e.mode
  Reads-mode = rw (sent_mode opts e st action w) (
      Reads-unless (same_mode f) dst.prev_mode read_u32 _ e.mode mode_kept
        (λ k. Reads-u32 e.mode h.mode_fits))

  uid_flag : has_bit 3 f ≡ same_owner opts.preserve_uid e.uid st.prev_uid has_prev
  unfolding choices
  uid_flag = has_bit-flag_word _ (decisions opts e st action) 3

  user_flag :
      has_bit 10 f
      ≡ name_follows opts.preserve_uid
          (same_owner opts.preserve_uid e.uid st.prev_uid has_prev)
          opts.wire.has_inline_names
          e.user_name
          st.prev_user_name
  unfolding choices
  user_flag = has_bit-flag_word _ (decisions opts e st action) 10

  Reads-uid : Reads (decode_uid dst g opts) (encode_uid e.uid e.user_name f opts) (
    received_id opts.preserve_uid e.uid dst.prev_uid,
    received_name opts.preserve_uid opts.wire.has_inline_names e.user_name dst.prev_user_name,
  )
  Reads-uid =
      rw
        (
          sent_uid opts e st action w,
          sent_user opts e st action w,
          uid_flag,
          user_flag,
          needs_inline opts.preserve_uid (same_owner opts.preserve_uid e.uid st.prev_uid has_prev)
              opts.wire.has_inline_names e.user_name st.prev_user_name,
        )
        (Reads-owner_field opts.preserve_uid opts.wire.has_inline_names has_prev opts.wire.int_codec
          e.uid st.prev_uid dst.prev_uid e.user_name st.prev_user_name dst.prev_user_name w.0
          s.user_same (λ p q. h.user_of ∙ ap users q ∙ sym (s.user_table p)) h.uid_fits h.user_fits)

  gid_flag : has_bit 4 f ≡ same_owner opts.preserve_gid e.gid st.prev_gid has_prev
  unfolding choices
  gid_flag = has_bit-flag_word _ (decisions opts e st action) 4

  group_flag :
      has_bit 11 f
      ≡ name_follows opts.preserve_gid
          (same_owner opts.preserve_gid e.gid st.prev_gid has_prev)
          opts.wire.has_inline_names
          e.group_name
          st.prev_group_name
  unfolding choices
  group_flag = has_bit-flag_word _ (decisions opts e st action) 11

  Reads-gid : Reads (decode_gid dst g opts) (encode_gid e.gid e.group_name f opts) (
    received_id opts.preserve_gid e.gid dst.prev_gid,
    received_name opts.preserve_gid opts.wire.has_inline_names e.group_name dst.prev_group_name,
  )
  Reads-gid =
      rw
        (
          sent_gid opts e st action w,
          sent_group opts e st action w,
          gid_flag,
          group_flag,
          needs_inline opts.preserve_gid (same_owner opts.preserve_gid e.gid st.prev_gid has_prev)
              opts.wire.has_inline_names e.group_name st.prev_group_name,
        )
        (Reads-owner_field opts.preserve_gid opts.wire.has_inline_names has_prev opts.wire.int_codec
          e.gid st.prev_gid dst.prev_gid e.group_name st.prev_group_name dst.prev_group_name w.0
          s.group_same (λ p q. h.group_of ∙ ap groups q ∙ sym (s.group_table p)) h.gid_fits
          h.group_fits)

  rdev_kept : same_rdev_pre28 f ≡ true → dst.prev_rdev ≡ e.rdev
  unfolding choices
  rdev_kept k =
      let b : (should_send_rdev e.mode opts
            && (not (is_major_minor opts.wire.device_codec) && (e.rdev == st.prev_rdev)))
          ≡ true =
        sym (has_bit-flag_word _ (decisions opts e st action) 2) ∙ k in
      s.rdevs ∙ sym ((==_iff e.rdev st.prev_rdev).0 (and_right _ _ (and_right _ _ b)))

  major_kept : same_rdev_major f ≡ true → dst.prev_rdev_major ≡ rdev_major e.rdev
  unfolding choices
  major_kept k =
      let b : (should_send_rdev e.mode opts
            && (is_major_minor opts.wire.device_codec && (rdev_major e.rdev == st.prev_rdev_major)))
          ≡ true =
        sym (has_bit-flag_word _ (decisions opts e st action) 8) ∙ k in
      s.majors
      ∙ sym ((==_iff (rdev_major e.rdev) st.prev_rdev_major).0 (and_right _ _ (and_right _ _ b)))

  Reads-rdev :
      Reads
        (decode_rdev e.mode dst g opts)
        (encode_rdev e.mode e.rdev (rdev_major e.rdev) (rdev_minor e.rdev) f opts)
        e.rdev
  Reads-rdev =
      Reads-when (should_send_rdev e.mode opts) 0
        (read_device opts.wire.device_codec opts.wire.int_codec dst g)
        (write_device opts.wire.device_codec opts.wire.int_codec e.rdev (rdev_major e.rdev)
          (rdev_minor e.rdev) f)
        e.rdev h.rdev_none
        (λ k.
          rw
            (device_flags opts.wire.device_codec opts.wire.int_codec dst g f
              (λ q. sent_rdev opts e st action w (w.4 (ap is_major_minor q)))
              (sent_major opts e st action w))
            (Reads-device opts.wire.device_codec opts.wire.int_codec dst e.rdev f h.rdev_fits
              (device-Omits opts.wire.device_codec dst e.rdev f rdev_kept major_kept)))

  Reads-symlink :
      Reads
        (decode_symlink e.mode opts)
        (encode_symlink e.mode e.link_target opts)
        (if sends_link e.mode opts then e.link_target else [])
  Reads-symlink = elim (Bool-cases (sends_link e.mode opts)) [
    | inl k ↦ rw k (Reads-link opts.wire.int_codec e.link_target h.link_fits)
    | inr k ↦ rw k (λ rest. refl)
  ]

  Reads-checksum_field :
      Reads
        (decode_checksum e.mode opts)
        (encode_checksum e.mode e.checksum opts)
        (if sends_checksum e.mode opts then fit_checksum opts.checksum_len e.checksum else [])
  Reads-checksum_field = elim (Bool-cases (sends_checksum e.mode opts)) [
    | inl k ↦ rw k (Reads-checksum opts.checksum_len e.checksum)
    | inr k ↦ rw k (λ rest. refl)
  ]

  -- All the fields, in order.
  pub Reads-fields :
      Reads (decode_fields dst g opts e.name) (encode_fields e f opts) (as_received opts dst e g)
  unfolding decode_fields encode_fields
  Reads-fields =
      Reads-bind (decode_file_length opts) _ (encode_file_length e.len opts) _ e.len received
        (Reads-length opts.wire.int_codec e.len h.len_fits)
        (Reads-bind (decode_mtime dst g opts) _ (encode_mtime e.mtime f opts) _ e.mtime received
          Reads-mtime_field
          (Reads-bind (decode_mtime_nsec g opts) _ (encode_mtime_nsec e.mtime_nsec f opts) _
            (if opts.wire.has_nanoseconds then e.mtime_nsec else 0) received Reads-nsec
            (Reads-bind (decode_mode dst g) _ (encode_mode e.mode f) _ e.mode received Reads-mode (
              Reads-bind (decode_uid dst g opts) _ (encode_uid e.uid e.user_name f opts) _ user
                received Reads-uid
                (Reads-bind (decode_gid dst g opts) _ (encode_gid e.gid e.group_name f opts) _ group
                  received Reads-gid
                  (Reads-bind (decode_rdev e.mode dst g opts) _
                    (encode_rdev e.mode e.rdev (rdev_major e.rdev) (rdev_minor e.rdev) f opts) _
                    e.rdev received Reads-rdev
                    (Reads-bind (decode_symlink e.mode opts) _
                      (encode_symlink e.mode e.link_target opts) _
                      (if sends_link e.mode opts then e.link_target else []) received Reads-symlink
                      (Reads-last (decode_checksum e.mode opts) finish _ checksum
                        Reads-checksum_field))))))))
    where
      user : ℕ × List ℕ
      user = (
        received_id opts.preserve_uid e.uid dst.prev_uid,
        received_name opts.preserve_uid opts.wire.has_inline_names e.user_name dst.prev_user_name,
      )

      group : ℕ × List ℕ
      group = (
        received_id opts.preserve_gid e.gid dst.prev_gid,
        received_name opts.preserve_gid opts.wire.has_inline_names e.group_name dst.prev_group_name,
      )

      checksum : List ℕ
      checksum =
          if sends_checksum e.mode opts then fit_checksum opts.checksum_len e.checksum else []

      received : FileEntry
      received = as_received opts dst e g

      finish : List ℕ → FileEntry
      finish c = record received { checksum = c }
