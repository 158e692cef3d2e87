-- ===== src/Codec/Entry.antt =====
-- `FileEntry` of crates/ferrosync-types/src/entry.rs with the file types of mode.rs beside it, and
-- `DeltaState` of crates/ferrosync-codec/src/codec/state.rs. An entry has no ACL and no extended
-- attributes here.
use ferrosync.Base.{
  ℕ, ◌*◌, ◌/◌, ◌%◌, ◌^◌, ◌==◌, Bool, ◌&&◌, ◌||◌, if◌then◌else◌, Option, none, List, [],
}
use ferrosync.Base.Int.{ℤ, pos}
use ferrosync.Codec.Format.{FileListOptions}

pub record HardLinkInfo : Type 0 where
  pub dev : ℕ
  pub ino : ℕ
  pub nlink : ℕ

pub record FileEntry : Type 0 where
  pub name : List ℕ
  pub len : ℤ
  pub mtime : ℤ
  pub mtime_nsec : ℕ
  pub mode : ℕ
  pub uid : ℕ
  pub gid : ℕ
  pub rdev : ℕ
  pub link_target : List ℕ
  pub checksum : List ℕ
  pub flags : ℕ
  pub user_name : List ℕ
  pub group_name : List ℕ
  pub hlink_source : Option (List ℕ)
  pub hard_link_info : Option HardLinkInfo

-- `mode & S_IFMT`
abbrev pub file_type : ℕ → ℕ
file_type mode = mode / 2 ^ 12 % 16 * 2 ^ 12

abbrev pub s_ifreg : ℕ
s_ifreg = 0x8000

abbrev pub s_iflnk : ℕ
s_iflnk = 0xa000

abbrev pub s_ifblk : ℕ
s_ifblk = 0x6000

abbrev pub s_ifchr : ℕ
s_ifchr = 0x2000

abbrev pub s_ififo : ℕ
s_ififo = 0x1000

abbrev pub s_ifsock : ℕ
s_ifsock = 0xc000

unfoldable pub is_file : FileEntry → Bool
is_file e = file_type e.mode == s_ifreg

-- `(rdev >> 8) as u32` and `(rdev & 0xFF) as u32`
abbrev pub rdev_major : ℕ → ℕ
rdev_major rdev = rdev / 256 % 2 ^ 32

abbrev pub rdev_minor : ℕ → ℕ
rdev_minor rdev = rdev % 256

-- The method `hard_link_info`: only a regular file is a candidate.
unfoldable pub hard_link_candidate : FileEntry → Option HardLinkInfo
hard_link_candidate e = if is_file e then e.hard_link_info else none

unfoldable pub should_send_rdev : ℕ → FileListOptions → Bool
should_send_rdev mode opts =
    let ft = file_type mode in
    let is_device = (ft == s_ifblk) || (ft == s_ifchr) in
    let is_special = (ft == s_ififo) || (ft == s_ifsock) in
    (opts.preserve_devices && is_device)
    || (opts.preserve_specials && (is_special && opts.wire.special_rdev))

pub record DeltaState : Type 0 where
  pub prev_name : List ℕ
  pub prev_mtime : ℤ
  pub prev_mode : ℕ
  pub prev_uid : ℕ
  pub prev_gid : ℕ
  pub prev_rdev : ℕ
  pub prev_rdev_major : ℕ
  pub prev_user_name : List ℕ
  pub prev_group_name : List ℕ
  pub ndx_start : ℤ

-- `DeltaState::default()`
abbrev pub initial : DeltaState
initial = record {
  prev_name = [];
  prev_mtime = pos 0;
  prev_mode = 0;
  prev_uid = 0;
  prev_gid = 0;
  prev_rdev = 0;
  prev_rdev_major = 0;
  prev_user_name = [];
  prev_group_name = [];
  ndx_start = pos 0;
}

-- The encoder's `FieldValues::update_state` stores the same fields of the entry that it sent.
unfoldable pub update_delta_state : DeltaState → FileEntry → DeltaState
update_delta_state state e = record {
  prev_name = e.name;
  prev_mtime = e.mtime;
  prev_mode = e.mode;
  prev_uid = e.uid;
  prev_gid = e.gid;
  prev_rdev = e.rdev;
  prev_rdev_major = rdev_major e.rdev;
  prev_user_name = e.user_name;
  prev_group_name = e.group_name;
  ndx_start = state.ndx_start;
}
