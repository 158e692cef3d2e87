-- ===== src/Codec/EntryCodec/Sync.antt =====
-- What an entry must be for the wire, what the receiver makes of it, and when the states of the two
-- sides agree.
use ferrosync.Base.{
  ℕ, ◌<◌, ◌≤◌, ◌^◌, ◌≡◌, refl, Bool, true, false, not, if◌then◌else◌, none, List, [], ◌∷◌, length,
  arith,
}
use ferrosync.Codec.Format.{FileListOptions}
use ferrosync.Codec.Entry.{FileEntry, DeltaState, initial, update_delta_state, should_send_rdev}
use ferrosync.Codec.Flags.{is_empty}
use ferrosync.Codec.Fields.{max_name_len, sends_link, sends_checksum, fit_checksum}
use ferrosync.Codec.Fields.Scalars.{IsLength, IsTime}
use ferrosync.Codec.Fields.Devices.{IsDevice}
use ferrosync.Codec.Fields.Owners.{received_id, received_name, SameOwner}

-- An entry within the bounds of the wire. A device number that is not sent is 0, and the names are
-- those of the sender's tables of users and groups.
pub record IsSendableEntry (users groups : ℕ → List ℕ) (opts : FileListOptions) (e : FileEntry)
    : Type 0 where
  pub name_fits : length e.name ≤ max_name_len
  pub len_fits : IsLength opts.wire.int_codec e.len
  pub mtime_fits : IsTime opts.wire.int_codec e.mtime
  pub nsec_fits : e.mtime_nsec < 2 ^ 32
  pub mode_fits : e.mode < 2 ^ 32
  pub uid_fits : e.uid < 2 ^ 32
  pub gid_fits : e.gid < 2 ^ 32
  pub rdev_fits : IsDevice opts.wire.device_codec e.rdev
  pub rdev_none : should_send_rdev e.mode opts ≡ false → 0 ≡ e.rdev
  pub link_fits : length e.link_target ≤ max_name_len
  pub user_of : e.user_name ≡ users e.uid
  pub group_of : e.group_name ≡ groups e.gid
  pub user_fits : length e.user_name < 256
  pub group_fits : length e.group_name < 256

-- The entry that the receiver makes, which had the state `dst` and read the word `flags`. What the
-- options or the format leave out takes the receiver's default.
abbrev pub as_received : FileListOptions → DeltaState → FileEntry → ℕ → FileEntry
as_received opts dst e flags = record {
  name = e.name;
  len = e.len;
  mtime = e.mtime;
  mtime_nsec = if opts.wire.has_nanoseconds then e.mtime_nsec else 0;
  mode = e.mode;
  uid = received_id opts.preserve_uid e.uid dst.prev_uid;
  gid = received_id opts.preserve_gid e.gid dst.prev_gid;
  rdev = e.rdev;
  link_target = if sends_link e.mode opts then e.link_target else [];
  checksum = if sends_checksum e.mode opts then fit_checksum opts.checksum_len e.checksum else [];
  flags = flags;
  user_name =
      received_name opts.preserve_uid opts.wire.has_inline_names e.user_name dst.prev_user_name;
  group_name =
      received_name opts.preserve_gid opts.wire.has_inline_names e.group_name dst.prev_group_name;
  hlink_source = none;
  hard_link_info = none;
}

-- The sender's state `st` against the receiver's `dst`. An owner counts only if it is preserved, a
-- name only if the sender has one.
pub record InSync (users groups : ℕ → List ℕ) (opts : FileListOptions) (st dst : DeltaState)
    : Type 0 where
  pub names : dst.prev_name ≡ st.prev_name
  pub times : dst.prev_mtime ≡ st.prev_mtime
  pub modes : dst.prev_mode ≡ st.prev_mode
  pub rdevs : dst.prev_rdev ≡ st.prev_rdev
  pub majors : dst.prev_rdev_major ≡ st.prev_rdev_major
  pub starts : dst.ndx_start ≡ st.ndx_start
  pub user_same :
      SameOwner opts.preserve_uid opts.wire.has_inline_names st.prev_uid st.prev_user_name
        dst.prev_uid dst.prev_user_name
  pub group_same :
      SameOwner opts.preserve_gid opts.wire.has_inline_names st.prev_gid st.prev_group_name
        dst.prev_gid dst.prev_group_name
  pub user_table : not (is_empty st.prev_name) ≡ true → st.prev_user_name ≡ users st.prev_uid
  pub group_table : not (is_empty st.prev_name) ≡ true → st.prev_group_name ≡ groups st.prev_gid

module _ (users groups : ℕ → List ℕ) (opts : FileListOptions) where
  -- Both sides start in step.
  pub initial-InSync : InSync users groups opts initial initial
  initial-InSync = record {
    names = refl;
    times = refl;
    modes = refl;
    rdevs = refl;
    majors = refl;
    starts = refl;
    user_same = (λ p. refl, λ p i n. refl);
    group_same = (λ p. refl, λ p i n. refl);
    user_table = λ h. ground arith;
    group_table = λ h. ground arith;
  }

  -- An owner that arrived is the one that was sent.
  received-SameOwner :
      (preserved inline : Bool) (id did : ℕ) (name dname : List ℕ)
      → SameOwner preserved inline id name
          (received_id preserved id did)
          (received_name preserved inline name dname)
  received-SameOwner true true id did [] dname = (λ p. refl, λ p i n. ground arith)
  received-SameOwner true true id did (x ∷ name) dname = (λ p. refl, λ p i n. refl)
  received-SameOwner true false id did name dname = (λ p. refl, λ p i n. ground arith)
  received-SameOwner false inline id did name dname = (λ p. ground arith, λ p i n. ground arith)

  -- The sender's state after an entry and the receiver's after what it made of it are in step.
  pub update_delta_state-InSync :
      (st dst : DeltaState) (e : FileEntry) (flags : ℕ)
      → IsSendableEntry users groups opts e
      → InSync users groups opts st dst
      → InSync users groups opts
          (update_delta_state st e)
          (update_delta_state dst (as_received opts dst e flags))
  unfolding update_delta_state
  update_delta_state-InSync st dst e flags h s = record {
    names = refl;
    times = refl;
    modes = refl;
    rdevs = refl;
    majors = refl;
    starts = s.starts;
    user_same = received-SameOwner _ _ e.uid dst.prev_uid e.user_name dst.prev_user_name;
    group_same = received-SameOwner _ _ e.gid dst.prev_gid e.group_name dst.prev_group_name;
    user_table = λ k. h.user_of;
    group_table = λ k. h.group_of;
  }
