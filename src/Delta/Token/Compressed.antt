-- ===== src/Delta/Token/Compressed.antt =====
-- The compressed transfer tokens of crates/ferrosync-delta/src/token.rs. The compressor and the
-- decompressor of crates/ferrosync-protocol/src/compress.rs, which call libraries, are parameters: a
-- state, its reset, and a step on bytes.
pub mod Writer
pub mod Reader
pub mod Runs
pub mod Flags
pub mod Matches
pub mod Pending
pub mod Frames
pub mod RoundTrip
use ferrosync.Base.{
  ℕ, zero, suc, ◌+◌, ◌-◌, ◌*◌, ◌/◌, ◌%◌, List, [], ◌∷◌, ◌++◌, Bool, true, false, ltb, leb, ◌==◌,
  ◌&&◌, ◌||◌, not, if◌then◌else◌, length, take, drop,
}
use ferrosync.Base.Int.{ℤ, pos, negsuc, ◌+ℤ◌, ◌-ℤ◌, ltb_ℤ, eq_ℤ, wrap_i32, i32_bits}
use ferrosync.Base.Bytes.{le_bytes}
use ferrosync.Wire.Stream.{Result}
use ferrosync.Wire.Fixed.{read_int, write_int, minus_one}
use ferrosync.Mux.Frame.{data_chunk_size, chunks}
use ferrosync.Delta.Matcher.{same_bytes}
use ferrosync.Delta.Token.{Token, literal_data, block_match, end_of_file}

pub data CompressorType : Type 0 where
  zlib zstd lz4 : CompressorType

pub record Compressor : Type 1 where
  pub State : Type 0
  pub kind : CompressorType
  pub reset : State → Result State
  pub apply : State → List ℕ → Result (List ℕ × State)

abbrev pub max_data_count : ℕ
max_data_count = 16383

abbrev pub sync_flush_trailer : List ℕ
sync_flush_trailer = 0x00 ∷ 0x00 ∷ 0xff ∷ 0xff ∷ []

abbrev pub strip_trailer : List ℕ → List ℕ
strip_trailer compressed =
    let front = length compressed - 4 in
    if leb 4 (length compressed) && same_bytes (drop front compressed) sync_flush_trailer
    then take front compressed
    else compressed

unfoldable pub maybe_strip_trailer : CompressorType → List ℕ → List ℕ
maybe_strip_trailer zlib compressed = strip_trailer compressed
maybe_strip_trailer zstd compressed = compressed
maybe_strip_trailer lz4 compressed = compressed

unfoldable pub maybe_append_trailer : CompressorType → List ℕ → List ℕ
maybe_append_trailer zlib compressed = compressed ++ sync_flush_trailer
maybe_append_trailer zstd compressed = compressed
maybe_append_trailer lz4 compressed = compressed

abbrev pub is_nil : List ℕ → Bool
is_nil [] = true
is_nil (x ∷ xs) = false

abbrev pub is_last : List (List ℕ) → Bool
is_last [] = true
is_last (x ∷ xs) = false

-- A frame with its header of two bytes.
abbrev pub data_frame : List ℕ → List ℕ
data_frame bytes = (0x40 + length bytes / 256 % 256) ∷ (length bytes % 256) ∷ bytes

unfoldable pub data_frames : List (List ℕ) → List ℕ
data_frames [] = []
data_frames (bytes ∷ rest) = data_frame bytes ++ data_frames rest

-- No frame for no output, one for a short one, and frames of 16383 bytes for a longer one.
unfoldable pub output_frames : List ℕ → List ℕ
unfolding data_frames chunks
output_frames output =
    if is_nil output
    then []
    else if ltb max_data_count (length output)
    then data_frames (chunks max_data_count (length output) output)
    else data_frame output
