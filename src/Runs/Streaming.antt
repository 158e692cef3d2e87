-- ===== src/Runs/Streaming.antt =====
-- The streaming matcher on a small source, with a strong checksum that is the block itself.
use ferrosync.Base.{
  ℕ, zero, suc, ◌≡◌, refl, ap, ◌∙◌, List, [], ◌∷◌, none, some, length, take_all, min, arith,
}
use ferrosync.Base.Int.{pos}
use mathlib.Core.Option.{some-injective}
use ferrosync.Delta.Ops.{DiffOp, literal, copy, apply_diffops, slice_basis}
use ferrosync.Delta.Rolling.{compute, sum_loop, new, roll, digest}
use ferrosync.Delta.Sum.{SumEntry, SumStruct}
use ferrosync.Delta.Matcher.{
  block_byte_length, match_blocks, scan_blocks, start_state, match_loop, window_match, find_match,
  take_match, take_byte, flush_literal, build_hash_table, fill_table,
}
use ferrosync.Delta.Matcher.Streaming.{
  new_matching, new_stream, fill, stream_loop, process_chunk, stream_all, stream_blocks,
}
use ferrosync.Delta.Matcher.Streaming.Chunk.{IsFree}
use ferrosync.Delta.Matcher.Streaming.Rebuild.{stream_blocks-rebuilds}

-- One block of 2 bytes.
abbrev one_entry : SumEntry
one_entry = record { sum1 = 262147; sum2 = 1 ∷ 2 ∷ []; block_len = none }

abbrev one_block : SumStruct
one_block = record {
  head = record { count = pos 1; blength = pos 2; s2length = pos 16; remainder = pos 2 };
  sums = one_entry ∷ [];
}

abbrev block_last : List ℕ
block_last = 9 ∷ 9 ∷ 1 ∷ 2 ∷ []

one_free : IsFree (λ b. b) (new_matching one_block 2) (1 ∷ 2 ∷ []) block_last
unfolding new_matching slice_basis block_byte_length
one_free before window after zero entry at full there strong =
    ap (λ (e : SumEntry). e.sum2) (some-injective one_entry entry there)
    ∙ strong
    ∙ take_all window (min 16 (length window)) (omega arith)
one_free before window after (suc i) entry at full there strong = ground arith

stream_blocks-rebuilds_example :
    (ops : List DiffOp) × (stream_blocks (λ b. b) 0 2 block_last one_block ≡ some ops)
    × (apply_diffops (1 ∷ 2 ∷ []) ops ≡ block_last)
stream_blocks-rebuilds_example =
    stream_blocks-rebuilds (λ b. b) 0 2 (1 ∷ 2 ∷ []) block_last one_block refl (omega arith)
      one_free

-- The batch matcher copies the block. The streaming matcher does not find it: its rolling checksum is
-- behind by a byte after the first chunk.
run_match_blocks_last :
    match_blocks (λ b. b) 0 block_last one_block
    ≡ some (literal (9 ∷ 9 ∷ []) ∷ copy (record { offset = 0; len = 2 }) ∷ [])
unfolding match_blocks scan_blocks start_state match_loop window_match find_match take_match
    take_byte flush_literal block_byte_length build_hash_table fill_table compute sum_loop new roll
    digest
run_match_blocks_last = refl

run_stream_blocks :
    stream_blocks (λ b. b) 0 2 block_last one_block
    ≡ some (literal (9 ∷ 9 ∷ []) ∷ literal (1 ∷ 2 ∷ []) ∷ [])
unfolding stream_blocks stream_all process_chunk fill stream_loop new_stream new_matching
    window_match find_match take_match take_byte flush_literal block_byte_length build_hash_table
    fill_table compute sum_loop new roll digest
run_stream_blocks = refl
