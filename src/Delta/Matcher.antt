-- ===== src/Delta/Matcher.antt =====
-- The batch block matcher of crates/ferrosync-delta/src/matcher.rs. The hash table is a function from
-- digests to candidate lists; a digest without entry has the empty list. The loop runs on fuel.
pub mod Table
pub mod Slices
pub mod Step
pub mod Emitted
pub mod Rebuild
pub mod Streaming
use ferrosync.Base.{
  ℕ, zero, suc, ◌+◌, ◌-◌, ◌*◌, ◌%◌, ◌^◌, List, [], ◌∷◌, ◌++◌, Option, none, some, Bool, true, false,
  ltb, leb, ◌==◌, ◌&&◌, ◌||◌, if◌then◌else◌, length, take, drop, get_or, get_elem?, min,
}
use ferrosync.Base.Int.{ℤ, pos, negsuc}
use ferrosync.Delta.Rolling.{RollingChecksum, new, compute, roll, digest}
use ferrosync.Delta.Ops.{BasisRef, DiffOp, literal, copy}
use ferrosync.Delta.Sum.{SumHead, SumEntry, SumStruct, as_usize}

unfoldable pub block_byte_length : ℕ → ℕ → ℕ → ℕ → ℕ
block_byte_length idx blength block_count remainder =
    if ltb 0 block_count && (idx == block_count - 1) && ltb 0 remainder && ltb remainder blength
    then remainder % 2 ^ 32
    else blength % 2 ^ 32

abbrev pub Table : Type 0
Table = ℕ → List ℕ

-- `table.entry(key).or_default().push(i)`
abbrev pub push_index : Table → ℕ → ℕ → Table
push_index table key i k = if k == key then table k ++ i ∷ [] else table k

unfoldable pub fill_table : Table → ℕ → List SumEntry → Table
fill_table table i [] = table
fill_table table i (entry ∷ entries) = fill_table (push_index table entry.sum1 i) (suc i) entries

unfoldable pub build_hash_table : List SumEntry → Table
unfolding fill_table
build_hash_table sums = fill_table (λ k. []) 0 sums

-- `==` on byte vectors.
abbrev pub same_bytes : List ℕ → List ℕ → Bool
same_bytes [] [] = true
same_bytes (x ∷ xs) (y ∷ ys) = (x == y) && same_bytes xs ys
same_bytes xs ys = false

-- `sums.sums[idx].sum2 == strong_truncated`. The table holds no index out of range.
abbrev pub entry_matches : List ℕ → Option SumEntry → Bool
entry_matches strong (some entry) = same_bytes entry.sum2 strong
entry_matches strong none = false

-- The first candidate whose strong checksum is `strong`.
unfoldable pub find_match : List SumEntry → List ℕ → List ℕ → Option ℕ
find_match sums strong [] = none
find_match sums strong (idx ∷ candidates) =
    if entry_matches strong (get_elem? sums idx)
    then some idx
    else find_match sums strong candidates

-- `&source[from..to]`
abbrev pub slice : List ℕ → ℕ → ℕ → List ℕ
slice source from to = take (to - from) (drop from source)

-- The loop's variables.
pub record MatchState : Type 0 where
  pub pos : ℕ
  pub literal_start : ℕ
  pub rolling : RollingChecksum
  pub ops : List DiffOp

-- The literal bytes that are pending before `to`, where there are any.
unfoldable pub flush_literal : List ℕ → ℕ → MatchState → List DiffOp
flush_literal source to st =
    if ltb st.literal_start to
    then st.ops ++ literal (slice source st.literal_start to) ∷ []
    else st.ops

module _ (checksum2 : List ℕ → List ℕ) (source : List ℕ) (sums : List SumEntry)
    (blength s2length block_count remainder : ℕ) where
  unfoldable pub take_match : ℕ → MatchState → MatchState
  take_match idx st =
      let next = st.pos + blength in
      record {
        pos = next;
        literal_start = next;
        rolling =
            if leb (next + blength) (length source)
            then compute (slice source next (next + blength)) st.rolling
            else st.rolling;
        ops =
            flush_literal source st.pos st
            ++ copy (record {
              offset = idx * blength;
              len = block_byte_length idx blength block_count remainder;
            })
              ∷ [];
      }

  unfoldable pub take_byte : MatchState → MatchState
  take_byte st =
      let next = suc st.pos in
      record st {
        pos = next;
        rolling =
            if leb (next + blength) (length source)
            then roll (get_or source st.pos 0) (get_or source (next + blength - 1) 0) st.rolling
            else st.rolling;
      }

  -- The candidate that the window at `pos` matches.
  unfoldable pub window_match : Table → MatchState → Option ℕ
  window_match hash_table st =
      let strong = checksum2 (slice source st.pos (st.pos + blength)) in
      find_match sums (take (min s2length (length strong)) strong) (hash_table (digest st.rolling))

  abbrev pub match_step : Option ℕ → MatchState → MatchState
  match_step (some idx) st = take_match idx st
  match_step none st = take_byte st

  unfoldable pub match_loop : Table → ℕ → MatchState → Option (List DiffOp)
  match_loop hash_table zero st = none
  match_loop hash_table (suc fuel) st =
      let rest = match_loop hash_table fuel (match_step (window_match hash_table st) st) in
      if ltb (length source) (st.pos + blength)
      then some (flush_literal source (length source) st)
      else rest

-- `n <= 0` of an i32.
abbrev pub not_positive : ℤ → Bool
not_positive (pos zero) = true
not_positive (pos (suc n)) = false
not_positive (negsuc n) = true

unfoldable pub start_state : List ℕ → ℕ → ℕ → MatchState
start_state source blength char_offset = record {
  pos = 0;
  literal_start = 0;
  rolling = compute (slice source 0 blength) (new char_offset);
  ops = [];
}

-- The scan, where there is a signature and the source has a full block.
unfoldable pub scan_blocks : (List ℕ → List ℕ) → ℕ → List ℕ → SumStruct → Option (List DiffOp)
scan_blocks checksum2 char_offset source sums =
    let blength = as_usize sums.head.blength in
    match_loop checksum2 source sums.sums blength (as_usize sums.head.s2length)
      (as_usize sums.head.count) (as_usize sums.head.remainder) (build_hash_table sums.sums)
      (suc (length source)) (start_state source blength char_offset)

unfoldable pub match_blocks : (List ℕ → List ℕ) → ℕ → List ℕ → SumStruct → Option (List DiffOp)
match_blocks checksum2 char_offset [] sums = some []
match_blocks checksum2 char_offset (b ∷ source) sums =
    let ops = scan_blocks checksum2 char_offset (b ∷ source) sums in
    if not_positive sums.head.count
      || not_positive sums.head.blength
      || ltb (length (b ∷ source)) (as_usize sums.head.blength)
    then some (literal (b ∷ source) ∷ [])
    else ops
