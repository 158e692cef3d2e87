-- ===== src/Delta/Sum.antt =====
-- Block signatures and their wire format, of crates/ferrosync-delta/src/sum.rs.
pub mod RoundTrip
use ferrosync.Base.{
  ℕ, zero, suc, ◌^◌, ◌-◌, List, [], ◌∷◌, ◌++◌, Option, none, some, Bool, true, false, leb,
  if◌then◌else◌, ◌&&◌,
}
use ferrosync.Base.Int.{ℤ, pos, negsuc, i32_bits}
use ferrosync.Base.Bytes.{le_bytes, from_le_bytes}
use ferrosync.Wire.Stream.{Reader, wire_value_out_of_range, ◌>>=◌, pure, fail, read_exact}
use ferrosync.Wire.Fixed.{read_int, write_int}

pub record SumHead : Type 0 where
  pub count : ℤ
  pub blength : ℤ
  pub s2length : ℤ
  pub remainder : ℤ

pub record SumEntry : Type 0 where
  pub sum1 : ℕ
  pub sum2 : List ℕ
  pub block_len : Option ℕ

pub record SumStruct : Type 0 where
  pub head : SumHead
  pub sums : List SumEntry

-- `as usize` of an i32: a negative one is extended with its sign to 64 bits.
abbrev pub as_usize : ℤ → ℕ
as_usize (pos n) = n
as_usize (negsuc n) = 2 ^ 64 - 1 - n

unfoldable pub write_sum_head : SumHead → List ℕ
write_sum_head head =
    write_int head.count
    ++ (write_int head.blength ++ (write_int head.s2length ++ write_int head.remainder))

unfoldable pub read_sum_head : Reader SumHead
read_sum_head = do
  count ← read_int
  blength ← read_int
  s2length ← read_int
  remainder ← read_int
  pure (record { count = count; blength = blength; s2length = s2length; remainder = remainder })

unfoldable pub write_entry : SumEntry → List ℕ
write_entry entry = le_bytes 4 entry.sum1 ++ entry.sum2

unfoldable pub write_entries : List SumEntry → List ℕ
unfolding write_entry
write_entries [] = []
write_entries (entry ∷ entries) = write_entry entry ++ write_entries entries

unfoldable pub write_sums : SumStruct → List ℕ
write_sums sums = write_sum_head sums.head ++ write_entries sums.sums

-- `entry.block_len.unwrap_or(sums.head.blength as u32)`
unfoldable pub wire_block_len : SumHead → Option ℕ → ℕ
wire_block_len head (some len) = len
wire_block_len head none = i32_bits head.blength

unfoldable pub write_entries_cdc : SumHead → List SumEntry → List ℕ
unfolding write_entry wire_block_len
write_entries_cdc head [] = []
write_entries_cdc head (entry ∷ entries) =
    le_bytes 4 (wire_block_len head entry.block_len)
    ++ (write_entry entry ++ write_entries_cdc head entries)

unfoldable pub write_sums_cdc : SumStruct → List ℕ
write_sums_cdc sums = write_sum_head sums.head ++ write_entries_cdc sums.head sums.sums

abbrev pub max_block_count : ℕ
max_block_count = 16777216

-- `v < 0 || v > max` does not hold.
abbrev pub in_range : ℤ → ℕ → Bool
in_range (pos n) limit = leb n limit
in_range (negsuc n) limit = false

unfoldable pub read_entry : ℕ → Reader SumEntry
read_entry s2length = do
  sum1_buf ← read_exact 4
  sum2 ← read_exact s2length
  pure (record { sum1 = from_le_bytes sum1_buf; sum2 = sum2; block_len = none })

unfoldable pub read_entry_cdc : ℕ → Reader SumEntry
read_entry_cdc s2length = do
  bl_buf ← read_exact 4
  sum1_buf ← read_exact 4
  sum2 ← read_exact s2length
  pure (record {
    sum1 = from_le_bytes sum1_buf;
    sum2 = sum2;
    block_len = some (from_le_bytes bl_buf);
  })

-- `for _ in 0..head.count`, with the read of one entry.
unfoldable pub read_entries : Reader SumEntry → ℕ → Reader (List SumEntry)
read_entries read_one zero s = pure [] s
read_entries read_one (suc n) s =
    (do entry ← read_one; entries ← read_entries read_one n; pure (entry ∷ entries)) s

-- The checks of the head and the loop that `read_sums` and `read_sums_cdc` share.
unfoldable pub read_body : (ℕ → Reader SumEntry) → SumHead → Reader SumStruct
read_body read_one head =
    if in_range head.count max_block_count
    then (if in_range head.s2length 64
        then (do
          entries ← read_entries (read_one (as_usize head.s2length)) (as_usize head.count)
          pure (record { head = head; sums = entries }))
        else fail (wire_value_out_of_range head.s2length (pos 64)))
    else fail (wire_value_out_of_range head.count (pos max_block_count))

unfoldable pub read_sums : Reader SumStruct
read_sums = do head ← read_sum_head; read_body read_entry head

unfoldable pub read_sums_cdc : Reader SumStruct
read_sums_cdc = do head ← read_sum_head; read_body read_entry_cdc head
