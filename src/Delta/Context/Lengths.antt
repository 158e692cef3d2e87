-- ===== src/Delta/Context/Lengths.antt =====
-- Every checksum has the length of its type.
use ferrosync.Base.{ℕ, ◌≡◌, refl, List, length}
use ferrosync.Base.Bytes.{length-le_bytes}
use ferrosync.Delta.Sum.{as_usize}
use ferrosync.Delta.Context.{
  ChecksumType, none_type, md4_type, md5_type, blake3_type, xxh3_type, xxh128_type, digest_len,
  ProtocolContext, Hashes, checksum2, file_checksum, checksum2_by, file_checksum_by,
}

checksum2_by-length :
    (hashes : Hashes) (ctx : ProtocolContext) (t : ChecksumType) (xs : List ℕ)
    → length (checksum2_by hashes ctx t xs) ≡ digest_len t
unfolding digest_len
checksum2_by-length hashes ctx md4_type xs = hashes.md4_len _
checksum2_by-length hashes ctx md5_type xs = hashes.md5_len _
checksum2_by-length hashes ctx blake3_type xs = hashes.blake3_len _
checksum2_by-length hashes ctx xxh3_type xs =
    length-le_bytes 8 (hashes.xxh3_64 (as_usize ctx.seed) xs)
checksum2_by-length hashes ctx xxh128_type xs =
    length-le_bytes 16 (hashes.xxh3_128 (as_usize ctx.seed) xs)
checksum2_by-length hashes ctx none_type xs = refl

pub length-checksum2 :
    (hashes : Hashes) (ctx : ProtocolContext) (xs : List ℕ)
    → length (checksum2 hashes ctx xs) ≡ digest_len ctx.checksum_type
unfolding checksum2
length-checksum2 hashes ctx xs = checksum2_by-length hashes ctx ctx.checksum_type xs

file_checksum_by-length :
    (hashes : Hashes) (ctx : ProtocolContext) (t : ChecksumType) (xs : List ℕ)
    → length (file_checksum_by hashes ctx t xs) ≡ digest_len t
unfolding digest_len
file_checksum_by-length hashes ctx md4_type xs = hashes.md4_len _
file_checksum_by-length hashes ctx md5_type xs = hashes.md5_len _
file_checksum_by-length hashes ctx blake3_type xs = hashes.blake3_len _
file_checksum_by-length hashes ctx xxh3_type xs = length-le_bytes 8 (hashes.xxh3_64 0 xs)
file_checksum_by-length hashes ctx xxh128_type xs = length-le_bytes 16 (hashes.xxh3_128 0 xs)
file_checksum_by-length hashes ctx none_type xs = refl

pub length-file_checksum :
    (hashes : Hashes) (ctx : ProtocolContext) (xs : List ℕ)
    → length (file_checksum hashes ctx xs) ≡ digest_len ctx.checksum_type
unfolding file_checksum
length-file_checksum hashes ctx xs = file_checksum_by-length hashes ctx ctx.checksum_type xs
