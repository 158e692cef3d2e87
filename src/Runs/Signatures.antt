-- ===== src/Runs/Signatures.antt =====
-- Signatures of a small file, and block lengths.
use ferrosync.Base.{
  ℕ, ◌^◌, ◌*◌, ◌-◌, ◌+◌, ◌<◌, true, ◌%◌, ◌≤◌, ◌<◌, ◌≡◌, refl, List, [], ◌∷◌, none, some, All, arith,
}
use ferrosync.Base.Int.{pos}
use ferrosync.Delta.Context.{ProtocolContext, xxh3_type, checksum2, digest_len}
use ferrosync.Delta.Ops.{DiffOp, literal, copy}
use ferrosync.Delta.Rolling.{compute, sum_loop, new, roll, digest}
use ferrosync.Delta.Matcher.{
  match_blocks, scan_blocks, start_state, match_loop, window_match, find_match, take_match,
  take_byte, flush_literal, block_byte_length, build_hash_table, fill_table,
}
use ferrosync.Delta.Matcher.Emitted.{IsEmitted, match_blocks-IsEmitted}
use ferrosync.Delta.Signatures.{
  compute_block_length, compute_s2length, hash_bytes, root_from, compute_signatures, max_block_len,
}
use ferrosync.Delta.Signatures.Bounds.{compute_block_length_bounds, compute_s2length_least}
use ferrosync.Delta.Signatures.Signs.{IsSignatureOf, compute_signatures-IsSignatureOf}
use ferrosync.Delta.Signatures.Total.{compute_signatures_panics}
use ferrosync.Runs.Engine.{small_hashes, small_context, old_file, new_file, old_sums, signed}

compute_block_length_bounds_example :
    (704 ≤ compute_block_length 1000000)
    × (compute_block_length 1000000 ≤ max_block_len)
    × (compute_block_length 1000000 % 8 ≡ 0)
compute_block_length_bounds_example = compute_block_length_bounds 1000000 (omega arith)

-- The root of 1000000 is 1000.
run_compute_block_length : compute_block_length 1000000 ≡ 1000
unfolding compute_block_length root_from
run_compute_block_length = refl

compute_s2length_least_example :
    (10 ≤ compute_s2length 1000000 1000)
    × (1000000 ≤ 256 ^ (compute_s2length 1000000 1000 - 10) * 1000)
    × ((j : ℕ) → 10 + j < compute_s2length 1000000 1000 → 256 ^ j * 1000 < 1000000)
compute_s2length_least_example =
    compute_s2length_least 1000000 1000 (omega arith) (omega arith) (omega arith)

-- 1000 blocks take two bytes more than 10.
run_compute_s2length : compute_s2length 1000000 1000 ≡ 12
unfolding compute_s2length hash_bytes
run_compute_s2length = refl

compute_signatures-IsSignatureOf_example :
    IsSignatureOf small_hashes small_context old_file new_file old_sums
compute_signatures-IsSignatureOf_example =
    compute_signatures-IsSignatureOf small_hashes small_context old_file new_file old_sums signed
      (omega arith) (omega arith)

small_length : compute_s2length 3 2 ≤ digest_len small_context.checksum_type
unfolding compute_s2length hash_bytes digest_len
small_length = omega arith

abbrev xxh3_context : ProtocolContext
xxh3_context = record {
  seed = pos 0;
  checksum_type = xxh3_type;
  char_offset = 0;
  proper_seed_order = true;
  block_size_override = some (pos 2);
}

short_digest : digest_len xxh3_context.checksum_type < 10
unfolding digest_len
short_digest = omega arith

compute_signatures_panics_example : compute_signatures small_hashes xxh3_context old_file ≡ none
compute_signatures_panics_example =
    compute_signatures_panics small_hashes xxh3_context 1 (2 ∷ 3 ∷ []) 2 refl short_digest

abbrev old_ops : List DiffOp
old_ops = literal (9 ∷ []) ∷ copy (record { offset = 0; len = 2 }) ∷ literal (4 ∷ []) ∷ []

matched : match_blocks (checksum2 small_hashes small_context) 0 new_file old_sums ≡ some old_ops
unfolding match_blocks scan_blocks start_state match_loop window_match find_match take_match
    take_byte flush_literal block_byte_length build_hash_table fill_table compute sum_loop new roll
    digest checksum2
matched = refl

match_blocks-IsEmitted_example :
    All (IsEmitted (checksum2 small_hashes small_context) new_file old_sums.sums 2 11 2 1) old_ops
match_blocks-IsEmitted_example =
    match_blocks-IsEmitted (checksum2 small_hashes small_context) 0 new_file old_sums old_ops
      matched
