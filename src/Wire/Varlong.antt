-- ===== src/Wire/Varlong.antt =====
-- The compact 64-bit varlong of crates/ferrosync-protocol/src/varint.rs, and the two integers that
-- the codec of the negotiated protocol chooses: `varint30` and `varlong30`.
pub mod Bytes
pub mod Format
pub mod RoundTrip
use ferrosync.Base.{
  ℕ, zero, suc, ◌+◌, ◌-◌, ◌*◌, ◌^◌, List, [], ◌∷◌, ltb, leb, if◌then◌else◌, get_or, set, take, drop,
  replicate, bit_and, bit_or,
}
use ferrosync.Base.Bytes.{le_bytes, from_le_bytes}
use ferrosync.Base.Int.{ℤ, i32_bits, i32_of_bits, i64_bits, i64_of_bits}
use ferrosync.Wire.Stream.{Reader, ◌>>=◌, pure, fail, read_exact, invalid_varint}
use ferrosync.Wire.Fixed.{read_int, write_int, read_longint, write_longint}
use ferrosync.Wire.Varint.{extra_bytes, fill, top_index, read_varint, write_varint}

-- `z[at..at + bs.len()].copy_from_slice(bs)`, inside the buffer.
abbrev pub write_at : ℕ → List ℕ → List ℕ → List ℕ
write_at zero bs z = fill bs z
write_at (suc n) bs [] = []
write_at (suc n) bs (x ∷ z) = x ∷ write_at n bs z

-- What `read_varlong` does with the first byte, the other `min_bytes - 1` bytes that it read, and
-- the count of extra bytes.
unfoldable pub read_varlong_tail : ℕ → ℕ → List ℕ → ℕ → Reader ℤ
read_varlong_tail min_bytes first low extra =
    let result : List ℕ = fill low (replicate 8 0) in
    let extra_start = min_bytes - 1 in
    if ltb 0 extra
    then (if leb 8 (extra_start + extra) then fail invalid_varint else (do
      es ← read_exact extra
      let bit = 2 ^ (7 - extra + 1)
      pure (
          i64_of_bits (
            from_le_bytes (
              set (write_at extra_start es result) (extra_start + extra)
                (bit_and first (bit - 1)))))))
    else pure (i64_of_bits (from_le_bytes (set result extra_start first)))

unfoldable pub read_varlong : ℕ → Reader ℤ
unfolding extra_bytes read_varlong_tail
read_varlong min_bytes = do
  b ← read_exact min_bytes
  let first = get_or b 0 0
  read_varlong_tail min_bytes first (drop 1 b) (extra_bytes first)

-- `write_varlong` after its loop: `b` has the bytes of the value from index 1 on.
unfoldable pub pack_varlong : ℕ → List ℕ → ℕ → List ℕ
pack_varlong min_bytes b cnt =
    let bit = 2 ^ (7 - (cnt - min_bytes)) in
    let top = get_or b cnt 0 in
    if leb bit top
    then take (cnt + 1) (set b 0 (255 - (bit - 1)))
    else if ltb min_bytes cnt
    then take cnt (set (set b 0 (bit_or top (255 - (bit * 2 - 1)))) cnt 0)
    else take cnt (set (set b 0 (get_or b min_bytes 0)) min_bytes 0)

-- `write_varlong` on the bit pattern of the value.
unfoldable pub write_varlong_bits : ℕ → ℕ → List ℕ
unfolding top_index pack_varlong
write_varlong_bits n min_bytes =
    let b : List ℕ = 0 ∷ le_bytes 8 n in pack_varlong min_bytes b (top_index min_bytes b 8)

unfoldable pub write_varlong : ℤ → ℕ → List ℕ
unfolding write_varlong_bits
write_varlong x min_bytes = write_varlong_bits (i64_bits x) min_bytes

-- `IntCodec` of crates/ferrosync-types/src/protocol.rs.
pub data IntCodec : Type 0 where
  fixed compact : IntCodec

-- `read_int(r).await? as u32`
unfoldable pub read_varint30 : IntCodec → Reader ℕ
read_varint30 fixed = do a ← read_int; pure (i32_bits a)
read_varint30 compact = read_varint

unfoldable pub write_varint30 : ℕ → IntCodec → List ℕ
write_varint30 val fixed = write_int (i32_of_bits val)
write_varint30 val compact = write_varint val

unfoldable pub read_varlong30 : ℕ → IntCodec → Reader ℤ
read_varlong30 min_bytes fixed = read_longint
read_varlong30 min_bytes compact = read_varlong min_bytes

unfoldable pub write_varlong30 : ℤ → ℕ → IntCodec → List ℕ
write_varlong30 val min_bytes fixed = write_longint val
write_varlong30 val min_bytes compact = write_varlong val min_bytes
