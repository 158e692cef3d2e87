-- ===== src/Engine/Receiver/ToWriter.antt =====
-- The receiver of crates/ferrosync-engine/src/receiver.rs that writes as it goes, with uncompressed
-- tokens. Its hasher is IncrementalChecksum; the writer, of the caller, is a parameter.
pub mod Blocks
pub mod Alike
use ferrosync.Base.{
  ℕ, zero, suc, ◌+◌, ◌-◌, ◌*◌, ◌/◌, ◌%◌, ◌^◌, List, [], ◌∷◌, Bool, true, false, Option, none, some,
  not, ◌&&◌, ◌==◌, ltb, leb, min, if◌then◌else◌, length, take, drop,
}
use ferrosync.Base.Int.{pos, i64_of_bits}
use ferrosync.Wire.Stream.{
  Reader, Result, ok, err, io, wire_value_out_of_range, checksum_mismatch, ◌>>=◌, pure, fail,
  read_exact,
}
use ferrosync.Delta.Context.{Hashes, ProtocolContext, digest_len}
use ferrosync.Delta.Incremental.{Hashers, IncrementalChecksum, new_checksum, update, finalize}
use ferrosync.Delta.Matcher.{same_bytes}
use ferrosync.Delta.Sum.{as_usize}
use ferrosync.Delta.Token.{Token, literal_data, block_match, end_of_file, recv_token}

-- A `std::io::Write`: `write_all` gives the writer after it, or fails.
pub record Writer : Type 1 where
  pub State : Type 0
  pub write_all : State → List ℕ → Option State

abbrev pub has_blocks : List ℕ → ℕ → Bool
has_blocks [] blength = false
has_blocks (b ∷ basis) blength = ltb 0 blength

-- `basis_data.len().div_ceil(blength)`
unfoldable pub writer_block_count : List ℕ → ℕ → ℕ
writer_block_count basis blength =
    if has_blocks basis blength then (length basis + (blength - 1)) / blength else 0

unfoldable pub writer_remainder : List ℕ → ℕ → ℕ
writer_remainder basis blength =
    if has_blocks basis blength && not (length basis % blength == 0)
    then length basis % blength
    else blength

abbrev pub writer_block_len : ℕ → ℕ → ℕ → ℕ → ℕ
writer_block_len idx blength count remainder =
    if ltb 0 count && (idx == count - 1) && ltb 0 remainder && ltb remainder blength
    then remainder
    else blength

module _ (hashes : Hashes) (hashers : Hashers hashes) (writer : Writer) where
  -- The variables of the loop.
  pub record Written : Type 0 where
    pub hasher : IncrementalChecksum hashes hashers
    pub output : writer.State
    pub bytes_written : ℕ

  abbrev pub after_write :
      IncrementalChecksum hashes hashers → ℕ → Option writer.State → Result Written
  after_write hasher n none = err io
  after_write hasher n (some output) =
      ok (record { hasher = hasher; output = output; bytes_written = n })

  -- `hasher.update(slice)`, `writer.write_all(slice)?` and `bytes_written += slice.len()`
  unfoldable pub write_bytes : List ℕ → Written → Result Written
  write_bytes slice w =
      after_write (update hashes hashers w.hasher slice) ((w.bytes_written + length slice) % 2 ^ 64)
        (writer.write_all w.output slice)

  unfoldable pub write_block : List ℕ → ℕ → ℕ → Written → Result Written
  write_block basis blength idx w =
      let count = writer_block_count basis blength in
      let offset = idx * blength in
      let len = writer_block_len idx blength count (writer_remainder basis blength) in
      let end = min (offset + len) (length basis) in
      if leb count idx
      then err (wire_value_out_of_range (i64_of_bits idx) (pos (count - 1)))
      else if leb (2 ^ 64) offset
      then err (wire_value_out_of_range (i64_of_bits idx) (pos (2 ^ 63 - 1)))
      else if ltb offset (length basis)
      then write_bytes (take (end - offset) (drop offset basis)) w
      else ok w

  -- `none` is the end of the file.
  abbrev pub write_token : List ℕ → ℕ → Token → Written → Option (Result Written)
  write_token basis blength (literal_data bytes) w = some (write_bytes bytes w)
  write_token basis blength (block_match idx) w = some (write_block basis blength (as_usize idx) w)
  write_token basis blength end_of_file w = none

  abbrev pub Writes : Type 0
  Writes = Option (Result (Written × List ℕ))

  abbrev pub after_write_token :
      (Written → List ℕ → Writes) → Written → List ℕ → Option (Result Written) → Writes
  after_write_token go w rest none = some (ok (w, rest))
  after_write_token go w rest (some (ok w')) = go w' rest
  after_write_token go w rest (some (err e)) = some (err e)

  abbrev pub after_read :
      List ℕ → ℕ → (Written → List ℕ → Writes) → Written → Result (Token × List ℕ) → Writes
  after_read basis blength go w (err e) = some (err e)
  after_read basis blength go w (ok (token, rest)) =
      after_write_token go w rest (write_token basis blength token w)

  -- The loop over the tokens; `none` is out of fuel.
  unfoldable pub write_loop : List ℕ → ℕ → ℕ → Written → List ℕ → Writes
  write_loop basis blength zero w stream = none
  write_loop basis blength (suc fuel) w stream =
      after_read basis blength (write_loop basis blength fuel) w (recv_token stream)

  module _ (ctx : ProtocolContext) where
    unfoldable pub verify_written : Written → Reader Written
    verify_written w = do
      received ← read_exact (digest_len ctx.checksum_type)
      if same_bytes received (finalize hashes hashers w.hasher)
          then pure w
          else fail checksum_mismatch

    abbrev pub verify_writes : Writes → Writes
    verify_writes none = none
    verify_writes (some (err e)) = some (err e)
    verify_writes (some (ok (w, rest))) = some (verify_written w rest)

    -- The count that is returned is `bytes_written` of the result.
    unfoldable pub recv_file_delta_to_writer : List ℕ → ℕ → writer.State → List ℕ → Writes
    recv_file_delta_to_writer basis blength output stream = verify_writes (
        write_loop basis blength (suc (length stream))
          (record {
            hasher = new_checksum hashes hashers ctx.checksum_type;
            output = output;
            bytes_written = 0;
          })
          stream)
