-- ===== src/Handshake/Peers.antt =====
-- `client_handshake` and `server_handshake` of crates/ferrosync-protocol/src/handshake.rs: a read of
-- the peer's bytes that results in the negotiated protocol and the bytes written. The seed, which the
-- server makes from the clock and its process, and the text conversion `lossy` are parameters;
-- `chunking` is its default on both sides.
pub mod Agree
use ferrosync.Base.{
  ℕ, ◌+◌, ◌%◌, ◌^◌, ◌==◌, min, ltb, leb, Bool, true, false, not, ◌&&◌, if◌then◌else◌, Option, none,
  some, List, [], ◌∷◌, ◌++◌,
}
use ferrosync.Base.Int.{ℤ, pos, i32_bits}
use ferrosync.Wire.Stream.{Reader, Result, ok, err, ◌>>=◌, pure, fail, unsupported_version}
use ferrosync.Wire.Fixed.{read_int, write_int}
use ferrosync.Wire.Varint.{read_varint, write_varint}
use ferrosync.Delta.Matcher.{same_bytes}
use ferrosync.Delta.Context.{
  ChecksumType, none_type, md4_type, md5_type, blake3_type, xxh3_type, xxh128_type,
  default_for_version,
}
use ferrosync.Codec.Format.{has_bit, WireFormat, wire_format}
use ferrosync.Handshake.Text.{read_vstring, write_vstring}
use ferrosync.Handshake.Negotiate.{negotiate_algorithm}

pub data CompressType : Type 0 where
  no_compress zlib zlibx zstd lz4 : CompressType

abbrev none_name : List ℕ
none_name = b'n' ∷ b'o' ∷ b'n' ∷ b'e' ∷ []

abbrev md4_name : List ℕ
md4_name = b'm' ∷ b'd' ∷ b'4' ∷ []

abbrev md5_name : List ℕ
md5_name = b'm' ∷ b'd' ∷ b'5' ∷ []

abbrev blake3_name : List ℕ
blake3_name = b'b' ∷ b'l' ∷ b'a' ∷ b'k' ∷ b'e' ∷ b'3' ∷ []

abbrev xxh3_name : List ℕ
xxh3_name = b'x' ∷ b'x' ∷ b'h' ∷ b'3' ∷ []

abbrev xxh128_name : List ℕ
xxh128_name = b'x' ∷ b'x' ∷ b'h' ∷ b'1' ∷ b'2' ∷ b'8' ∷ []

abbrev zlib_name : List ℕ
zlib_name = b'z' ∷ b'l' ∷ b'i' ∷ b'b' ∷ []

abbrev zlibx_name : List ℕ
zlibx_name = b'z' ∷ b'l' ∷ b'i' ∷ b'b' ∷ b'x' ∷ []

abbrev zstd_name : List ℕ
zstd_name = b'z' ∷ b's' ∷ b't' ∷ b'd' ∷ []

abbrev lz4_name : List ℕ
lz4_name = b'l' ∷ b'z' ∷ b'4' ∷ []

-- A table of names in the order of the arms of `from_name`.
abbrev lookup_name : {T : Type 0} → List (List ℕ × T) → List ℕ → Option T
lookup_name [] name = none
lookup_name ((n, t) ∷ table) name =
    let rest = lookup_name table name in if same_bytes name n then some t else rest

unfoldable pub checksum_from_name : List ℕ → Option ChecksumType
checksum_from_name = lookup_name (
    (none_name, none_type)
    ∷ (md4_name, md4_type)
    ∷ (md5_name, md5_type)
    ∷ (blake3_name, blake3_type)
    ∷ (xxh3_name, xxh3_type)
    ∷ (xxh128_name, xxh128_type)
    ∷ [])

unfoldable pub compress_from_name : List ℕ → Option CompressType
compress_from_name = lookup_name (
    (none_name, no_compress)
    ∷ (zlib_name, zlib)
    ∷ (zlibx_name, zlibx)
    ∷ (zstd_name, zstd)
    ∷ (lz4_name, lz4)
    ∷ [])

abbrev spaced : List ℕ → List ℕ → List ℕ
spaced a b = a ++ (32 ∷ b)

-- `CHECKSUM_LIST` and `COMPRESS_LIST`
abbrev pub checksum_list : List ℕ
checksum_list =
    spaced blake3_name
      (spaced xxh128_name (spaced xxh3_name (spaced md5_name (spaced md4_name none_name))))

abbrev pub compress_list : List ℕ
compress_list = spaced zlibx_name (spaced zlib_name none_name)

abbrev pub default_compress : Bool → CompressType
default_compress use_compress = if use_compress then zlib else no_compress

pub record NegotiatedProtocol : Type 0 where
  pub version : ℕ
  pub compat_flags : ℕ
  pub checksum : ChecksumType
  pub compress : CompressType
  pub proper_seed_order : Bool
  pub seed : ℤ
  pub wire : WireFormat

-- `flags |= 1 << i`, for `bit` = 2^i.
abbrev pub set_bit : ℕ → ℕ → ℕ → ℕ
set_bit i bit flags = if has_bit i flags then flags else flags + bit

abbrev pub flag_of_char : ℕ → ℕ → ℕ
flag_of_char ch flags =
    if ch == b'f'
    then set_bit 3 8 flags
    else (if ch == b'x'
        then set_bit 4 16 flags
        else (if ch == b'C'
            then set_bit 5 32 flags
            else (if ch == b'I'
                then set_bit 6 64 flags
                else (if ch == b'v'
                    then set_bit 7 128 flags
                    else (if ch == b'u' then set_bit 8 256 flags else flags)))))

unfoldable pub fold_flags : List ℕ → ℕ → ℕ
fold_flags [] flags = flags
fold_flags (ch ∷ info) flags = fold_flags info (flag_of_char ch flags)

-- The server's own capabilities on Unix, bits 0 and 1, and those of the client.
abbrev pub build_compat_flags_from_client_info : List ℕ → ℕ
build_compat_flags_from_client_info info = fold_flags info 3

-- The capabilities that a client names.
unfoldable pub build_capability_string : Bool → Bool → Bool → List ℕ
build_capability_string inc_recurse symlink_times iconv =
    b'.'
    ∷ ((if inc_recurse then b'i' ∷ [] else [])
        ++ ((if symlink_times then b'L' ∷ [] else [])
            ++ ((if iconv then b's' ∷ [] else [])
                ++ (b'f' ∷ b'x' ∷ b'C' ∷ b'I' ∷ b'v' ∷ b'u' ∷ []))))

-- A step that writes or decides, and reads nothing.
abbrev pub lift : {A : Type 0} → Result A → Reader A
lift (ok a) s = ok (a, s)
lift (err e) s = err e

abbrev pub max_protocol_version : ℕ
max_protocol_version = 32

abbrev pub min_protocol_version : ℕ
min_protocol_version = 27

-- `read_int(r).await? as u8`, and the smaller of the two versions.
unfoldable pub check_version : ℤ → Reader ℕ
check_version remote =
    let remote_version = i32_bits remote % 256 in
    let version = min max_protocol_version remote_version in
    if ltb version min_protocol_version
    then fail (unsupported_version remote_version)
    else pure version

abbrev pub read_version : Reader ℕ
read_version = do remote ← read_int; check_version remote

abbrev pub read_flags : ℕ → Reader ℕ
read_flags version = if leb 30 version then read_varint else pure 0

-- The sender's list comes first.
abbrev pub negotiate_as : {T : Type 0} → Bool → List ℕ → List ℕ → (List ℕ → Option T) → Result T
negotiate_as am_sender ours theirs parse =
    if am_sender
    then negotiate_algorithm parse ours theirs
    else negotiate_algorithm parse theirs ours

abbrev pub finish_handshake : ℕ → ℕ → ChecksumType → CompressType → ℤ → NegotiatedProtocol
finish_handshake version flags checksum compress seed = record {
  version = version;
  compat_flags = flags;
  checksum = checksum;
  compress = compress;
  proper_seed_order = has_bit 5 flags;
  seed = seed;
  wire = wire_format version flags;
}

abbrev pub unwrap_or : {A : Type 0} → Option A → A → A
unwrap_or none a = a
unwrap_or (some x) a = x

module _ (lossy : List ℕ → List ℕ) where
  -- One list on the client's side, which writes first, and on the server's, which reads first.
  unfoldable pub client_choice :
      {T : Type 0} → Bool → List ℕ → (List ℕ → Option T) → Reader (T × List ℕ)
  client_choice am_sender ours parse = do
    out ← lift (write_vstring ours)
    remote ← read_vstring lossy
    algo ← lift (negotiate_as am_sender ours remote parse)
    pure (algo, out)

  unfoldable pub server_choice :
      {T : Type 0} → Bool → List ℕ → (List ℕ → Option T) → Reader (T × List ℕ)
  server_choice am_sender ours parse = do
    remote ← read_vstring lossy
    out ← lift (write_vstring ours)
    algo ← lift (negotiate_as am_sender ours remote parse)
    pure (algo, out)

  -- The checksum, and the compression if it was asked for. `choice` is one of the two above.
  abbrev pub both_choices :
      (Bool → List ℕ → (List ℕ → Option ChecksumType) → Reader (ChecksumType × List ℕ))
      → (Bool → List ℕ → (List ℕ → Option CompressType) → Reader (CompressType × List ℕ))
      → Bool
      → Bool
      → List ℕ
      → List ℕ
      → Reader (ChecksumType × CompressType × List ℕ)
  both_choices choose_checksum choose_compress am_sender use_compress checksums compresses = do
    first ← choose_checksum am_sender checksums checksum_from_name
    second ←
        (if use_compress
          then choose_compress am_sender compresses compress_from_name
          else pure (no_compress, []))
    pure (first.0, second.0, first.1 ++ second.1)

  abbrev pub choices_if :
      Bool
      → ℕ
      → Bool
      → Reader (ChecksumType × CompressType × List ℕ)
      → Reader (ChecksumType × CompressType × List ℕ)
  choices_if negotiated version use_compress exchange =
      if negotiated
      then exchange
      else pure (default_for_version version, default_compress use_compress, [])

  unfoldable pub client_handshake :
      Bool → Bool → Option (List ℕ) → Option (List ℕ) → Reader (NegotiatedProtocol × List ℕ)
  client_handshake am_sender use_compress checksum_choice compress_choice = do
    version ← read_version
    flags ← read_flags version
    chosen ← choices_if (has_bit 7 flags) version use_compress (
        both_choices client_choice client_choice am_sender use_compress
          (unwrap_or checksum_choice checksum_list) (unwrap_or compress_choice compress_list))
    seed ← read_int
    pure (
      finish_handshake version flags chosen.0 chosen.1 seed,
      write_int (pos max_protocol_version) ++ chosen.2,
    )

  unfoldable pub server_handshake : List ℕ → Bool → Bool → ℤ → Reader (NegotiatedProtocol × List ℕ)
  server_handshake client_info am_sender use_compress generate_seed = do
    version ← read_version
    let flags = if leb 30 version then build_compat_flags_from_client_info client_info else 0
    chosen ← choices_if (has_bit 7 flags) version use_compress (
        both_choices server_choice server_choice am_sender use_compress checksum_list compress_list)
    pure (
      finish_handshake version flags chosen.0 chosen.1 generate_seed,
      write_int (pos max_protocol_version)
          ++ ((if leb 30 version then write_varint flags else [])
              ++ (chosen.2 ++ write_int generate_seed)),
    )
