-- ===== src/Delta/Token.antt =====
-- The uncompressed transfer tokens of crates/ferrosync-delta/src/token.rs.
pub mod RoundTrip
pub mod Compressed
use ferrosync.Base.{
  ℕ, zero, suc, ◌^◌, ◌-◌, List, [], ◌∷◌, ◌++◌, Option, none, some, ltb, leb, if◌then◌else◌, length,
}
use ferrosync.Base.Int.{ℤ, pos, negsuc}
use ferrosync.Wire.Stream.{
  Reader, Result, ok, err, wire_value_out_of_range, ◌>>=◌, pure, fail, read_exact,
}
use ferrosync.Wire.Fixed.{read_int, write_int}
use ferrosync.Mux.Frame.{data_chunk_size, chunks}
use ferrosync.Delta.Ops.{DiffOp, literal, copy, block_index}

pub data Token : Type 0 where
  literal_data : List ℕ → Token
  block_match : ℤ → Token
  end_of_file : Token

abbrev pub max_wire_alloc : ℕ
max_wire_alloc = 268435456

unfoldable pub send_chunks : List (List ℕ) → List ℕ
send_chunks [] = []
send_chunks (chunk ∷ rest) = write_int (pos (length chunk)) ++ (chunk ++ send_chunks rest)

unfoldable pub send_data : List ℕ → List ℕ
unfolding send_chunks chunks
send_data bytes = send_chunks (chunks data_chunk_size (length bytes) bytes)

-- `block_index.checked_add(1).and_then(|b| b.checked_neg())`
abbrev pub token_of : ℤ → Option ℤ
token_of (pos n) = if ltb (suc n) (2 ^ 31) then some (negsuc n) else none
token_of (negsuc n) = some (pos n)

abbrev pub send_token : ℤ → Option ℤ → Result (List ℕ)
send_token index (some token) = ok (write_int token)
send_token index none = err (wire_value_out_of_range index (pos (2 ^ 31 - 1)))

unfoldable pub send_block_match : ℤ → Result (List ℕ)
send_block_match index = send_token index (token_of index)

unfoldable pub send_eof : List ℕ
send_eof = write_int (pos 0)

abbrev pub token_body : ℤ → Reader Token
token_body (pos zero) = pure end_of_file
token_body (pos (suc n)) =
    if leb (suc n) max_wire_alloc
    then (do buf ← read_exact (suc n); pure (literal_data buf))
    else fail (wire_value_out_of_range (pos (suc n)) (pos max_wire_alloc))
token_body (negsuc n) = pure (block_match (pos n))

unfoldable pub recv_token : Reader Token
recv_token = do token ← read_int; token_body token

-- One operation of `write_diffops`, with the plain writer.
unfoldable pub write_op : ℕ → DiffOp → Result (List ℕ)
unfolding send_data send_block_match
write_op blength (literal bytes) = ok (send_data bytes)
write_op blength (copy r) = send_block_match (block_index r blength)

unfoldable pub write_diffops : ℕ → List DiffOp → Result (List ℕ)
unfolding write_op
write_diffops blength [] = ok []
write_diffops blength (op ∷ ops) = elim (write_op blength op) [
  | ok bytes ↦ elim (write_diffops blength ops) [ ok rest ↦ ok (bytes ++ rest) | err e ↦ err e ]
  | err e ↦ err e
]
