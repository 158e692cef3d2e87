-- ===== src/Engine/Sender.antt =====
-- The sender of crates/ferrosync-engine/src/sender.rs and the generator of generator.rs, with
-- uncompressed tokens. `none` is a loop out of fuel, or a panic of the signature's computation.
use ferrosync.Base.{ℕ, List, ◌++◌, Option, none, some}
use ferrosync.Base.Int.{ℤ, i32_bits}
use ferrosync.Wire.Stream.{Reader, Result, ok, err, ◌>>=◌, pure}
use ferrosync.Wire.Fixed.{read_int, write_int, is_minus_one, minus_one}
use ferrosync.Base.{if◌then◌else◌}
use ferrosync.Delta.Context.{Hashes, ProtocolContext, checksum2, file_checksum}
use ferrosync.Delta.Ops.{DiffOp}
use ferrosync.Delta.Sum.{SumStruct, write_sums, read_sums}
use ferrosync.Delta.Signatures.{compute_signatures}
use ferrosync.Delta.Matcher.{match_blocks}
use ferrosync.Delta.Token.{write_diffops, send_eof}

module _ (hashes : Hashes) (ctx : ProtocolContext) where
  abbrev pub signed_file : ℤ → Option SumStruct → Option (List ℕ)
  signed_file file_index none = none
  signed_file file_index (some sums) = some (write_int file_index ++ write_sums sums)

  unfoldable pub send_file_signatures : ℤ → List ℕ → Option (List ℕ)
  send_file_signatures file_index basis =
      signed_file file_index (compute_signatures hashes ctx basis)

  abbrev pub with_checksum : List ℕ → Result (List ℕ) → Result (List ℕ)
  with_checksum source (ok tokens) = ok (tokens ++ (send_eof ++ file_checksum hashes ctx source))
  with_checksum source (err e) = err e

  unfoldable pub write_tokens_and_checksum : List DiffOp → List ℕ → SumStruct → Result (List ℕ)
  write_tokens_and_checksum ops source sums =
      with_checksum source (write_diffops (i32_bits sums.head.blength) ops)

  abbrev pub with_index : ℤ → Result (List ℕ) → Result (List ℕ)
  with_index file_index (ok bytes) = ok (write_int file_index ++ bytes)
  with_index file_index (err e) = err e

  abbrev pub send_ops : ℤ → List ℕ → SumStruct → Option (List DiffOp) → Option (Result (List ℕ))
  send_ops file_index source sums none = none
  send_ops file_index source sums (some ops) =
      some (with_index file_index (write_tokens_and_checksum ops source sums))

  unfoldable pub send_file_delta_with_sums : ℤ → List ℕ → SumStruct → Option (Result (List ℕ))
  send_file_delta_with_sums file_index source sums =
      send_ops file_index source sums
        (match_blocks (checksum2 hashes ctx) ctx.char_offset source sums)

  -- The signature is read from the generator's stream, of which the rest is dropped here.
  unfoldable pub send_file_delta : ℤ → List ℕ → List ℕ → Option (Result (List ℕ))
  send_file_delta file_index source stream = elim (read_sums stream) [
    | ok (sums, rest) ↦ send_file_delta_with_sums file_index source sums
    | err e ↦ some (err e)
  ]

-- `send_sender_done`, `send_generator_done`
unfoldable pub send_done : List ℕ
send_done = write_int minus_one

-- `recv_file_index`, of the generator's stream and of the sender's.
unfoldable pub recv_file_index : Reader (Option ℤ)
recv_file_index = do idx ← read_int; if is_minus_one idx then pure none else pure (some idx)
