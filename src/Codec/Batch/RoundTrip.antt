-- ===== src/Codec/Batch/RoundTrip.antt =====
-- The list that arrives against the list that was sent.
use ferrosync.Base.{
  ℕ, zero, suc, ◌+◌, ◌≤◌, ◌<◌, ◌≡◌, ap, ◌∙◌, refl, sym, Bool, true, false, not, ◌&&◌, if◌then◌else◌,
  List, [], ◌∷◌, ◌++◌, append_assoc, append-nil, arith, Bool-cases, inl, inr, length, length-append,
  All,
}
use ferrosync.Base.Int.{pos}
use ferrosync.Wire.Stream.{
  Reader, Reads, Reads-bind, Reads-last, ok, err, io, read_byte, err_ok, bind_ok, bind_err,
}
use ferrosync.Wire.Fixed.{read_int, write_int, read_int-write_int}
use ferrosync.Wire.Varint.{read_varint}
use ferrosync.Codec.Format.{has_bit, FlagsCodec, byte, byte_extended, varint, FileListOptions}
use ferrosync.Codec.Entry.{FileEntry, DeltaState, initial, update_delta_state, hard_link_candidate}
use ferrosync.Codec.Flags.{
  encode_xmit_flags, entry_flags, HardLinkAction, is_empty, decode_xmit_flags, encode_end_of_flist,
}
use ferrosync.Codec.Flags.RoundTrip.{
  decode_xmit_flags-encode_xmit_flags, decode_xmit_flags-encode_end_of_flist, sent_io_error,
}
use ferrosync.Codec.Fields.{encode_filename, sends_link, sends_checksum, fit_checksum}
use ferrosync.Codec.Hlink.{
  encode_hlink, HardLinkEncoder, Carried, is_abbreviated, resolve_hlink_action,
}
use ferrosync.Codec.EntryCodec.{
  encode_fields, encode_with, encode_entry, read_entry, read_end, decode_entry, decode_flagged,
}
use ferrosync.Codec.EntryCodec.Agree.{IsWire, sent, flags, decisions, decisions-IsSendable}
use ferrosync.Codec.EntryCodec.Sync.{
  IsSendableEntry, InSync, as_received, initial-InSync, update_delta_state-InSync,
}
use ferrosync.Codec.EntryCodec.RoundTrip.{decode_entry-encode_with}
use ferrosync.Codec.Batch.{
  send_entries, end_of_batch, send_file_list_batch, finish_batch, recv_entries,
  recv_file_list_batch, next_entry, as_index,
}

-- The received entry `r` has what the options preserve of the entry `e`.
pub record IsCopy (opts : FileListOptions) (e r : FileEntry) : Type 0 where
  pub name_same : r.name ≡ e.name
  pub len_same : r.len ≡ e.len
  pub mtime_same : r.mtime ≡ e.mtime
  pub nsec_same : (if opts.wire.has_nanoseconds then e.mtime_nsec else r.mtime_nsec) ≡ r.mtime_nsec
  pub mode_same : r.mode ≡ e.mode
  pub rdev_same : r.rdev ≡ e.rdev
  pub uid_same : (if opts.preserve_uid then e.uid else r.uid) ≡ r.uid
  pub gid_same : (if opts.preserve_gid then e.gid else r.gid) ≡ r.gid
  pub link_same : (if sends_link e.mode opts then e.link_target else r.link_target) ≡ r.link_target
  pub checksum_same :
      (if sends_checksum e.mode opts then fit_checksum opts.checksum_len e.checksum else r.checksum)
      ≡ r.checksum
  pub user_same :
      (if opts.preserve_uid && (opts.wire.has_inline_names && not (is_empty e.user_name))
        then e.user_name
        else r.user_name)
      ≡ r.user_name
  pub group_same :
      (if opts.preserve_gid && (opts.wire.has_inline_names && not (is_empty e.group_name))
        then e.group_name
        else r.group_name)
      ≡ r.group_name

-- One copy for each entry, in order.
abbrev pub AreCopies : FileListOptions → List FileEntry → List FileEntry → Type 0
AreCopies opts [] [] = Unit
AreCopies opts (e ∷ es) (r ∷ rs) = IsCopy opts e r × AreCopies opts es rs
AreCopies opts es rs = ◌≡◌ {A = ℕ} 0 1

twice :
    {A : Type 0} (c : Bool) (x d : A)
    → (if c then x else (if c then x else d)) ≡ (if c then x else d)
twice true x d = refl
twice false x d = refl

as_received-IsCopy :
    (opts : FileListOptions) (dst : DeltaState) (e : FileEntry) (word : ℕ)
    → IsCopy opts e (as_received opts dst e word)
as_received-IsCopy opts dst e word = record {
  name_same = refl;
  len_same = refl;
  mtime_same = refl;
  nsec_same = twice opts.wire.has_nanoseconds e.mtime_nsec 0;
  mode_same = refl;
  rdev_same = refl;
  uid_same = twice opts.preserve_uid e.uid dst.prev_uid;
  gid_same = twice opts.preserve_gid e.gid dst.prev_gid;
  link_same = twice (sends_link e.mode opts) e.link_target [];
  checksum_same = twice (sends_checksum e.mode opts) (fit_checksum opts.checksum_len e.checksum) [];
  user_same =
      twice (opts.preserve_uid && (opts.wire.has_inline_names && not (is_empty e.user_name)))
        e.user_name dst.prev_user_name;
  group_same =
      twice (opts.preserve_gid && (opts.wire.has_inline_names && not (is_empty e.group_name)))
        e.group_name dst.prev_group_name;
}

-- Nothing can be decoded from no bytes.
decode_nothing : (codec : FlagsCodec) → decode_xmit_flags codec [] ≡ err io
unfolding decode_xmit_flags read_byte read_varint
decode_nothing byte = refl
decode_nothing byte_extended = refl
decode_nothing varint = refl

pub decode_entry-nil :
    (opts : FileListOptions) (entries : List FileEntry) (carried : Carried)
    → decode_entry opts entries carried [] ≡ err io
unfolding decode_entry
decode_entry-nil opts entries carried =
    bind_err (decode_xmit_flags opts.wire.flags_codec) (decode_flagged opts entries carried) []
      (decode_nothing opts.wire.flags_codec)

not_empty :
    {A : Type 0} (m : Reader A) (bs : List ℕ) (a : A) → m [] ≡ err io → Reads m bs a → 0 < length bs
not_empty m [] a h k = err_ok (sym h ∙ k [])
not_empty m (b ∷ bs) a h k = omega arith

module _ (opts : FileListOptions) (w : IsWire opts.wire) where
  Reads-finish :
      (entries : List FileEntry)
      → Reads
          (finish_batch opts entries)
          (if opts.wire.trailing_io_error then write_int (pos 0) else [])
          entries
  Reads-finish entries = elim (Bool-cases opts.wire.trailing_io_error) [
    | inl t ↦ rw t (
        Reads-last read_int (λ x. entries) (write_int (pos 0)) (pos 0)
          (λ rest. read_int-write_int (pos 0) rest (omega arith, omega arith)))
    | inr t ↦ rw t (λ rest. refl)
  ]

  -- The end of the list stops the loop.
  Reads-end :
      (fuel : ℕ) (entries : List FileEntry) (carried : Carried)
      → Reads (recv_entries (suc fuel) opts entries carried) (end_of_batch opts) entries
  unfolding recv_entries decode_entry
  Reads-end fuel entries carried =
      Reads-bind (decode_entry opts entries carried)
        (next_entry (recv_entries fuel opts) opts entries)
        (encode_end_of_flist (pos 0) opts.wire.flags_codec) _
        (read_end (sent_io_error opts.wire.flags_codec (pos 0))) entries
        (λ rest.
          bind_ok (decode_xmit_flags opts.wire.flags_codec) (decode_flagged opts entries carried) _
            (decode_xmit_flags-encode_end_of_flist opts.wire.flags_codec (pos 0)
              (omega arith, omega arith) rest))
        (Reads-finish entries)

  -- An entry that is read goes to the end of the list.
  one_round :
      (bytes tail : List ℕ) (fuel : ℕ) (acc : List FileEntry) (carried carried' : Carried)
      (r : FileEntry)
      → Reads (decode_entry opts acc carried) bytes (read_entry r carried')
      → recv_entries (suc fuel) opts acc carried (bytes ++ tail)
        ≡ recv_entries fuel opts (acc ++ r ∷ []) carried' tail
  unfolding recv_entries
  one_round bytes tail fuel acc carried carried' r h =
      bind_ok (decode_entry opts acc carried) (next_entry (recv_entries fuel opts) opts acc)
        (bytes ++ tail) (h tail)

  -- Each entry takes a byte.
  entry_bytes :
      (action : HardLinkAction) (e : FileEntry) (st : DeltaState)
      → 0 < length (encode_with action e st opts)
  unfolding encode_with
  entry_bytes action e st = omega (
    arith,
    length-append (encode_xmit_flags (flags opts e st action) opts.wire.flags_codec) (
        encode_filename e.name st (flags opts e st action) opts
        ++ (encode_hlink action
            ++ (if is_abbreviated action
                then []
                else encode_fields e (flags opts e st action) opts))),
    not_empty (decode_xmit_flags opts.wire.flags_codec)
        (encode_xmit_flags (flags opts e st action) opts.wire.flags_codec)
        (entry_flags (sent opts e st action)) (decode_nothing opts.wire.flags_codec)
        (decode_xmit_flags-encode_xmit_flags opts.wire.flags_codec (has_bit 0 e.flags)
          (decisions opts e st action) (decisions-IsSendable opts e st action w)),
  )

  entries_bytes :
      (entries : List FileEntry) (i : ℕ) (st : DeltaState) (links : HardLinkEncoder)
      → length entries ≤ length (send_entries opts entries i st links)
  unfolding send_entries encode_entry
  entries_bytes [] i st links = omega arith
  entries_bytes (e ∷ entries) i st links =
      let resolved = resolve_hlink_action opts (hard_link_candidate e) links (as_index i) in
      omega (
        arith,
        length-append (encode_with resolved.0 e st opts)
            (send_entries opts entries (i + 1) (update_delta_state st e) resolved.1),
        entry_bytes resolved.0 e st,
        entries_bytes entries (i + 1) (update_delta_state st e) resolved.1,
      )

  module _ (users groups : ℕ → List ℕ) (no_links : opts.preserve_hard_links ≡ false) where
    abbrev Sendable : List FileEntry → Type 0
    Sendable entries = All (IsSendableEntry users groups opts) entries

    plain :
        (e : FileEntry) (links : HardLinkEncoder) (i : ℕ)
        → is_abbreviated (resolve_hlink_action opts (hard_link_candidate e) links (as_index i)).0
          ≡ false
    unfolding resolve_hlink_action
    plain e links i = rw no_links

    -- What the receiver carries on after an entry.
    abbrev next : DeltaState → Carried → FileEntry → HardLinkAction → Carried
    next st carried e action = record carried {
      state =
          update_delta_state carried.state
            (as_received opts carried.state e (sent opts e st action));
    }

    entries_arrive :
        (entries acc : List FileEntry) (i fuel : ℕ) (st : DeltaState) (links : HardLinkEncoder)
        (carried : Carried) (rest : List ℕ)
        → length entries < fuel
        → Sendable entries
        → InSync users groups opts st carried.state
        → (rs : List FileEntry) × (recv_entries fuel opts acc carried
              (send_entries opts entries i st links ++ (end_of_batch opts ++ rest))
            ≡ ok (acc ++ rs, rest))
          × AreCopies opts entries rs
    unfolding send_entries encode_entry
    entries_arrive entries acc i zero st links carried rest h a s = absurd (omega arith)
    entries_arrive [] acc i (suc fuel) st links carried rest h a s =
        ([], rw append-nil (Reads-end fuel acc carried rest), tt)
    entries_arrive (e ∷ entries) acc i (suc fuel) st links carried rest h a s =
        let resolved = resolve_hlink_action opts (hard_link_candidate e) links (as_index i) in
        let r = as_received opts carried.state e (sent opts e st resolved.0) in
        let tail = send_entries opts entries (i + 1) (update_delta_state st e) resolved.1 in
        let after = end_of_batch opts ++ rest in
        let ih =
          entries_arrive entries (acc ++ r ∷ []) (i + 1) fuel (update_delta_state st e) resolved.1
            (next st carried e resolved.0) rest (omega arith) a.1
            (update_delta_state-InSync users groups opts st carried.state e
              (sent opts e st resolved.0) a.0 s) in
        (
          r ∷ ih.0,
          ap (recv_entries (suc fuel) opts acc carried)
                (append_assoc (encode_with resolved.0 e st opts) tail after)
              ∙ one_round (encode_with resolved.0 e st opts) (tail ++ after) fuel acc carried
                  (next st carried e resolved.0) r
                  (decode_entry-encode_with users groups opts st carried e resolved.0 acc w a.0 s
                    (plain e links i))
              ∙ ih.1
              ∙ ap (λ l. ok (l, rest)) (append_assoc acc (r ∷ []) ih.0),
          (as_received-IsCopy opts carried.state e (sent opts e st resolved.0), ih.2),
        )

    -- The receiver gets the list that was sent: one copy for each entry, in order, and it leaves the
    -- bytes behind the list. The format is that of a protocol version, hard links are not preserved,
    -- and the options can carry each entry, whose owners are named by two tables.
    pub recv_file_list_batch-send_file_list_batch :
        (entries : List FileEntry) (rest : List ℕ)
        → All (IsSendableEntry users groups opts) entries
        → (rs : List FileEntry) × (recv_file_list_batch opts
              (send_file_list_batch opts entries ++ rest)
            ≡ ok (rs, rest))
          × AreCopies opts entries rs
    unfolding send_file_list_batch recv_file_list_batch
    recv_file_list_batch-send_file_list_batch entries rest a =
        let bytes = send_entries opts entries 0 initial [] in
        let start : Carried = record { state = initial; duplicates = [] } in
        let whole = (bytes ++ end_of_batch opts) ++ rest in
        let enough : length entries < suc (length whole) = omega (
          arith,
          entries_bytes entries 0 initial [],
          length-append bytes (end_of_batch opts),
          length-append (bytes ++ end_of_batch opts) rest,
        ) in
        let arrived =
          entries_arrive entries [] 0 (suc (length whole)) initial [] start rest enough a
            (initial-InSync users groups opts) in
        (
          arrived.0,
          ap (recv_entries (suc (length whole)) opts [] start)
                (append_assoc bytes (end_of_batch opts) rest)
              ∙ arrived.1,
          arrived.2,
        )
