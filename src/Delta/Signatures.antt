-- ===== src/Delta/Signatures.antt =====
-- Computing block signatures, of crates/ferrosync-delta/src/sum.rs. `none` is a panic: a slice out of
-- range, or a loop that does not advance.
--
-- The float arithmetic is written in integers. A length below 2^34 is a float, and its root, rounded
-- correctly, has the same integer part as the root; above, both are cut off at 2^17. The logarithm of
-- a count is compared with multiples of 8, which a count below 2^48 meets as in integers.
pub mod Bounds
pub mod Blocks
pub mod Sound
pub mod Signs
pub mod Total
use ferrosync.Base.{
  ℕ, zero, suc, ◌+◌, ◌-◌, ◌*◌, ◌/◌, ◌%◌, ◌^◌, List, [], ◌∷◌, Option, none, some, Bool, ltb, leb,
  ◌==◌, if◌then◌else◌, length, take, drop, min,
}
use ferrosync.Base.Int.{ℤ, pos, negsuc, i32_of_bits}
use ferrosync.Delta.Context.{Hashes, ProtocolContext, checksum2}
use ferrosync.Delta.Rolling.{checksum1}
use ferrosync.Delta.Sum.{SumHead, SumEntry, SumStruct, as_usize}

abbrev pub min_block_len : ℕ
min_block_len = 700

abbrev pub max_block_len : ℕ
max_block_len = 131072

-- The integer root below 2 ^ bits, from the highest bit down.
unfoldable pub root_from : ℕ → ℕ → ℕ → ℕ
root_from zero root n = root
root_from (suc bit) root n =
    let next = root + 2 ^ bit in root_from bit (if leb (next * next) n then next else root) n

-- `blength.clamp(MIN_BLOCK_LEN, MAX_BLOCK_LEN)`
abbrev pub clamp : ℕ → ℕ
clamp n =
    if ltb n min_block_len then min_block_len else if ltb max_block_len n then max_block_len else n

-- `(blength + 7) & !7`
abbrev pub round_up_8 : ℕ → ℕ
round_up_8 n = (n + 7) / 8 * 8

unfoldable pub compute_block_length : ℕ → ℕ
compute_block_length file_len =
    if file_len == 0 then min_block_len else round_up_8 (clamp (root_from 18 0 file_len))

-- `((80.0 + log2(count)) / 8.0).ceil()`: 10 and the least number of bytes that `count - 1` fits in.
unfoldable pub hash_bytes : ℕ → ℕ → ℕ → ℕ
hash_bytes zero k count = k
hash_bytes (suc more) k count = if leb count (256 ^ k) then k else hash_bytes more (suc k) count

-- Outside `sign_with`, which keeps a block length of 0 away, that length would divide by 0 and panic
-- in the code; here it has no meaning.
unfoldable pub compute_s2length : ℕ → ℕ → ℕ
compute_s2length file_len blength =
    if file_len == 0 then 2 else min (10 + hash_bytes 8 0 ((file_len + blength - 1) / blength)) 32

-- `&data[offset..end]`
abbrev pub block_of : List ℕ → ℕ → ℕ → List ℕ
block_of bytes offset end = take (end - offset) (drop offset bytes)

-- `strong[..s2length]`
abbrev pub prefix_of : ℕ → List ℕ → Option (List ℕ)
prefix_of n xs = if leb n (length xs) then some (take n xs) else none

abbrev pub push_entry : ℕ → Option (List ℕ) → Option (List SumEntry) → Option (List SumEntry)
push_entry sum1 (some sum2) (some entries) =
    some (record { sum1 = sum1; sum2 = sum2; block_len = none } ∷ entries)
push_entry sum1 (some sum2) none = none
push_entry sum1 none entries = none

-- `ctx.block_size_override.unwrap_or_else(..)`
abbrev pub block_length_by : Option ℤ → ℕ → ℤ
block_length_by (some blength) file_len = blength
block_length_by none file_len = pos (compute_block_length file_len)

-- The head of the entries of a file with `n` bytes.
abbrev pub signature_of : ℤ → ℕ → ℕ → List SumEntry → SumStruct
signature_of blength s2length n entries =
    let remainder = n % as_usize blength in
    record {
      head = record {
        count = i32_of_bits (length entries % 2 ^ 32);
        blength = blength;
        s2length = pos s2length;
        remainder = if remainder == 0 then blength else pos remainder;
      };
      sums = entries;
    }

abbrev pub with_head : ℤ → ℕ → ℕ → Option (List SumEntry) → Option SumStruct
with_head blength s2length n none = none
with_head blength s2length n (some entries) = some (signature_of blength s2length n entries)

abbrev pub empty_signature : SumStruct
empty_signature = record {
  head = record { count = pos 0; blength = pos 0; s2length = pos 0; remainder = pos 0 };
  sums = [];
}

module _ (hashes : Hashes) (ctx : ProtocolContext) where
  -- The loop over the blocks from `offset` on.
  unfoldable pub sign_loop : List ℕ → ℕ → ℕ → ℕ → ℕ → Option (List SumEntry)
  sign_loop bytes blength s2length zero offset = none
  sign_loop bytes blength s2length (suc fuel) offset =
      let end = min (offset + blength) (length bytes) in
      let block = block_of bytes offset end in
      let rest = sign_loop bytes blength s2length fuel end in
      if ltb offset (length bytes)
      then push_entry (checksum1 block ctx.char_offset)
          (prefix_of s2length (checksum2 hashes ctx block)) rest
      else some []

  -- A block length of 0 divides by 0. A negative one is outside the model, which has `none` for it.
  abbrev pub sign_with : ℤ → List ℕ → Option SumStruct
  sign_with (pos (suc b)) bytes =
      let s2length = compute_s2length (length bytes) (suc b) in
      with_head (pos (suc b)) s2length (length bytes)
        (sign_loop bytes (suc b) s2length (suc (length bytes)) 0)
  sign_with (pos zero) bytes = none
  sign_with (negsuc b) bytes = none

  unfoldable pub compute_signatures : List ℕ → Option SumStruct
  compute_signatures [] = some empty_signature
  compute_signatures (b ∷ bytes) =
      sign_with (block_length_by ctx.block_size_override (length (b ∷ bytes))) (b ∷ bytes)
