-- ===== src/Engine/Receiver.antt =====
-- The receiver of crates/ferrosync-engine/src/receiver.rs, with uncompressed tokens.
pub mod Fuel
pub mod Run
pub mod Blocks
pub mod Accept
pub mod ToWriter
use ferrosync.Base.{
  ℕ, zero, suc, ◌+◌, ◌-◌, ◌*◌, ◌/◌, ◌%◌, ◌^◌, List, [], ◌∷◌, ◌++◌, Option, none, some, ltb, leb,
  ◌==◌, ◌&&◌, if◌then◌else◌, length,
}
use ferrosync.Base.Int.{ℤ, pos, i64_of_bits}
use ferrosync.Wire.Stream.{
  Reader, Result, ok, err, ProtocolError, wire_value_out_of_range, checksum_mismatch, ◌>>=◌, pure,
  fail, read_exact,
}
use ferrosync.Delta.Context.{Hashes, ProtocolContext, digest_len, file_checksum}
use ferrosync.Delta.Matcher.{same_bytes}
use ferrosync.Delta.Ops.{slice_basis}
use ferrosync.Delta.Sum.{as_usize}
use ferrosync.Delta.Token.{Token, literal_data, block_match, end_of_file, recv_token}

-- `basis_data.len().div_ceil(blength)`, or 0 without blocks.
unfoldable pub block_count : List ℕ → ℕ → ℕ
block_count [] blength = 0
block_count (b ∷ basis) zero = 0
block_count (b ∷ basis) (suc n) = (length (b ∷ basis) + n) / suc n

unfoldable pub basis_remainder : List ℕ → ℕ → ℕ
basis_remainder [] blength = blength
basis_remainder (b ∷ basis) zero = zero
basis_remainder (b ∷ basis) (suc n) =
    let r = length (b ∷ basis) % suc n in if r == 0 then suc n else r

unfoldable pub received_length : ℕ → ℕ → ℕ → ℕ → ℕ
received_length idx blength count remainder =
    if ltb 0 count && (idx == count - 1) && ltb 0 remainder && ltb remainder blength
    then remainder
    else blength

-- The bytes of a block of the basis, by the number from the wire.
unfoldable pub matched_block : List ℕ → ℕ → ℕ → Result (List ℕ)
matched_block basis blength idx =
    let count = block_count basis blength in
    if leb count idx
    then err (wire_value_out_of_range (i64_of_bits idx) (pos (count - 1)))
    else if leb (2 ^ 64) (idx * blength)
    then err (wire_value_out_of_range (i64_of_bits idx) (pos (2 ^ 63 - 1)))
    else ok (
        slice_basis basis (idx * blength)
          (received_length idx blength count (basis_remainder basis blength)))

-- What a token does: `none` at the end of the file, else the bytes that the output grows by.
abbrev pub token_bytes : List ℕ → ℕ → Token → Option (Result (List ℕ))
token_bytes basis blength (literal_data bytes) = some (ok bytes)
token_bytes basis blength (block_match idx) = some (matched_block basis blength (as_usize idx))
token_bytes basis blength end_of_file = none

-- The loop over the tokens; `none` is out of fuel.
module _ (basis : List ℕ) (blength : ℕ) where
  abbrev pub grown :
      (List ℕ → List ℕ → Option (Result (List ℕ × List ℕ)))
      → List ℕ
      → List ℕ
      → Option (Result (List ℕ))
      → Option (Result (List ℕ × List ℕ))
  grown go output rest none = some (ok (output, rest))
  grown go output rest (some (ok bytes)) = go (output ++ bytes) rest
  grown go output rest (some (err e)) = some (err e)

  abbrev pub after_token :
      (List ℕ → List ℕ → Option (Result (List ℕ × List ℕ)))
      → List ℕ
      → Result (Token × List ℕ)
      → Option (Result (List ℕ × List ℕ))
  after_token go output (err e) = some (err e)
  after_token go output (ok (token, rest)) = grown go output rest (token_bytes basis blength token)

  unfoldable pub recv_loop : ℕ → List ℕ → List ℕ → Option (Result (List ℕ × List ℕ))
  recv_loop zero output stream = none
  recv_loop (suc fuel) output stream = after_token (recv_loop fuel) output (recv_token stream)

module _ (hashes : Hashes) (ctx : ProtocolContext) where
  -- The checksum of the file is read and compared.
  abbrev pub verify : List ℕ → Reader (List ℕ)
  verify output = do
    received ← read_exact (digest_len ctx.checksum_type)
    if same_bytes received (file_checksum hashes ctx output)
        then pure output
        else fail checksum_mismatch

  abbrev pub verify_loop : Option (Result (List ℕ × List ℕ)) → Option (Result (List ℕ × List ℕ))
  verify_loop none = none
  verify_loop (some (err e)) = some (err e)
  verify_loop (some (ok (output, rest))) = some (verify output rest)

  -- A token takes bytes of the stream, so their number is fuel enough.
  unfoldable pub recv_file_delta : List ℕ → ℕ → List ℕ → Option (Result (List ℕ × List ℕ))
  recv_file_delta basis blength stream =
      verify_loop (recv_loop basis blength (suc (length stream)) [] stream)
