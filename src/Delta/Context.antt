-- ===== src/Delta/Context.antt =====
-- The protocol context of crates/ferrosync-delta/src/lib.rs, the checksum types of
-- crates/ferrosync-types/src/protocol.rs, and the strong checksums of checksum.rs over the hash
-- functions of the md4, md5, blake3 and xxhash libraries.
use ferrosync.Base.{
  ℕ, ◌^◌, ◌-◌, ◌<◌, ◌≡◌, List, [], ◌++◌, Bool, Option, leb, if◌then◌else◌, length, replicate,
}
pub mod Lengths
use ferrosync.Base.Int.{ℤ, i32_bits}
use ferrosync.Base.Bytes.{le_bytes}
use ferrosync.Delta.Sum.{as_usize}

pub data ChecksumType : Type 0 where
  none_type md4_type md5_type blake3_type xxh3_type xxh128_type : ChecksumType

unfoldable pub default_for_version : ℕ → ChecksumType
default_for_version version = if leb 30 version then md5_type else md4_type

unfoldable pub digest_len : ChecksumType → ℕ
digest_len none_type = 0
digest_len md4_type = 16
digest_len md5_type = 16
digest_len blake3_type = 32
digest_len xxh3_type = 8
digest_len xxh128_type = 16

pub record ProtocolContext : Type 0 where
  pub seed : ℤ
  pub checksum_type : ChecksumType
  pub char_offset : ℕ
  pub proper_seed_order : Bool
  pub block_size_override : Option ℤ

-- The libraries' functions, with the digest lengths that they document. The seeded functions take
-- the seed first; those without seed are theirs at 0.
pub record Hashes : Type 0 where
  pub md4 : List ℕ → List ℕ
  pub md5 : List ℕ → List ℕ
  pub blake3 : List ℕ → List ℕ
  pub xxh3_64 : ℕ → List ℕ → ℕ
  pub xxh3_128 : ℕ → List ℕ → ℕ
  pub md4_len : (xs : List ℕ) → length (md4 xs) ≡ 16
  pub md5_len : (xs : List ℕ) → length (md5 xs) ≡ 16
  pub blake3_len : (xs : List ℕ) → length (blake3 xs) ≡ 32

module _ (hashes : Hashes) (ctx : ProtocolContext) where
  -- The seed's bytes before the data or after it.
  abbrev pub seeded : List ℕ → List ℕ
  seeded xs =
      let seed_bytes = le_bytes 4 (i32_bits ctx.seed) in
      if ctx.proper_seed_order then seed_bytes ++ xs else xs ++ seed_bytes

  abbrev pub checksum2_by : ChecksumType → List ℕ → List ℕ
  checksum2_by md4_type xs = hashes.md4 (seeded xs)
  checksum2_by md5_type xs = hashes.md5 (seeded xs)
  checksum2_by blake3_type xs = hashes.blake3 (seeded xs)
  checksum2_by xxh3_type xs = le_bytes 8 (hashes.xxh3_64 (as_usize ctx.seed) xs)
  checksum2_by xxh128_type xs = le_bytes 16 (hashes.xxh3_128 (as_usize ctx.seed) xs)
  checksum2_by none_type xs = replicate (digest_len none_type) 0

  unfoldable pub checksum2 : List ℕ → List ℕ
  unfolding digest_len
  checksum2 xs = checksum2_by ctx.checksum_type xs

  abbrev pub file_checksum_by : ChecksumType → List ℕ → List ℕ
  file_checksum_by md4_type xs = hashes.md4 xs
  file_checksum_by md5_type xs = hashes.md5 xs
  file_checksum_by blake3_type xs = hashes.blake3 xs
  file_checksum_by xxh3_type xs = le_bytes 8 (hashes.xxh3_64 0 xs)
  file_checksum_by xxh128_type xs = le_bytes 16 (hashes.xxh3_128 0 xs)
  file_checksum_by none_type xs = replicate (digest_len none_type) 0

  unfoldable pub file_checksum : List ℕ → List ℕ
  unfolding digest_len
  file_checksum xs = file_checksum_by ctx.checksum_type xs
