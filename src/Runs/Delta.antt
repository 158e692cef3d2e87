-- ===== src/Runs/Delta.antt =====
-- Delta transfer of crates/ferrosync-delta at concrete values. The strong checksum of these runs is
-- the block itself.
use ferrosync.Base.{
  ℕ, zero, suc, ◌+◌, ◌-◌, ◌*◌, ◌≤◌, ◌≡◌, refl, sym, ◌∙◌, subst, List, [], ◌∷◌, ◌++◌, none, some,
  length, take, drop, min, length-take, arith,
}
use ferrosync.Base.Int.{pos, negsuc}
use ferrosync.Wire.Stream.{ok}
use ferrosync.Delta.Ops.{DiffOp, literal, copy, slice_basis, apply_diffops}
use ferrosync.Delta.Rolling.{new, compute, roll, digest, checksum1, sum_loop}
use ferrosync.Delta.Rolling.Window.{digest-roll}
use ferrosync.Delta.Sum.{SumHead, SumEntry, SumStruct, write_sums, read_sums}
use ferrosync.Delta.Sum.RoundTrip.{read_sums-write_sums}
use ferrosync.Delta.Matcher.{
  build_hash_table, match_blocks, slice, block_byte_length, scan_blocks, start_state, match_loop,
  window_match, find_match, take_match, take_byte, flush_literal, fill_table,
}
use ferrosync.Base.{take_all}
use ferrosync.Delta.Matcher.Rebuild.{match_blocks-rebuilds}
use ferrosync.Delta.Matcher.Slices.{length-slice_basis}
use ferrosync.Delta.Matcher.Step.{Signs, NoCollision}
use mathlib.Core.Option.{some-injective}

digest-roll_example :
    digest (roll 1 9 (compute (1 ∷ 2 ∷ 3 ∷ []) (new 0))) ≡ checksum1 (2 ∷ 3 ∷ 9 ∷ []) 0
unfolding new
digest-roll_example = digest-roll 1 9 (2 ∷ 3 ∷ []) (new 0) (omega arith)

-- The basis 1, 2, 3 in blocks of 2 bytes.
abbrev first_entry : SumEntry
first_entry = record { sum1 = checksum1 (1 ∷ 2 ∷ []) 0; sum2 = 1 ∷ 2 ∷ []; block_len = none }

abbrev last_entry : SumEntry
last_entry = record { sum1 = checksum1 (3 ∷ []) 0; sum2 = 3 ∷ []; block_len = none }

abbrev small_sums : SumStruct
small_sums = record {
  head = record { count = pos 2; blength = pos 2; s2length = pos 16; remainder = pos 1 };
  sums = first_entry ∷ last_entry ∷ [];
}

abbrev small_basis : List ℕ
small_basis = 1 ∷ 2 ∷ 3 ∷ []

abbrev small_source : List ℕ
small_source = 9 ∷ 1 ∷ 2 ∷ 4 ∷ []

small_signs : Signs (λ b. b) small_basis small_source small_sums.sums 2 16 2 1 0
unfolding checksum1 slice_basis block_byte_length
small_signs zero entry at =
    subst (λ e. (e.sum1 ≡ checksum1 (1 ∷ 2 ∷ []) 0) × (e.sum2 ≡ 1 ∷ 2 ∷ []))
      (some-injective first_entry entry at) (refl, refl)
small_signs (suc zero) entry at =
    subst (λ e. (e.sum1 ≡ checksum1 (3 ∷ []) 0) × (e.sum2 ≡ 3 ∷ []))
      (some-injective last_entry entry at) (refl, refl)
small_signs (suc (suc i)) entry at = ground arith

whole_strong : (b : List ℕ) → length b ≤ 16 → take (min 16 (length b)) b ≡ b
whole_strong b h = take_all b (min 16 (length b)) (omega arith)

small_free : NoCollision (λ b. b) small_basis small_source small_sums.sums 2 16 2 1 0
small_free i p inside weak strong =
    sym (
      whole_strong _
        (omega (arith, length-slice_basis small_basis (i * 2) (block_byte_length i 2 2 1))))
    ∙ strong
    ∙ whole_strong (slice small_source p (p + 2))
        (omega (arith, length-take (p + 2 - p) (drop p small_source)))

match_blocks-rebuilds_example :
    (ops : List DiffOp) × (match_blocks (λ b. b) 0 small_source small_sums ≡ some ops)
    × (apply_diffops small_basis ops ≡ small_source)
match_blocks-rebuilds_example =
    match_blocks-rebuilds (λ b. b) 0 small_basis small_source small_sums
      (omega arith, (omega arith, (omega arith, (omega arith, tt)))) small_signs small_free

-- The first byte and the last are new; the block between them is copied.
run_match_blocks :
    match_blocks (λ b. b) 0 small_source small_sums
    ≡ some (literal (9 ∷ []) ∷ copy (record { offset = 0; len = 2 }) ∷ literal (4 ∷ []) ∷ [])
unfolding match_blocks scan_blocks start_state match_loop window_match find_match take_match
    take_byte flush_literal block_byte_length build_hash_table fill_table compute sum_loop new roll
    digest checksum1
run_match_blocks = refl

abbrev wire_sums : SumStruct
wire_sums = record {
  head = record { count = pos 1; blength = pos 2; s2length = pos 2; remainder = pos 2 };
  sums = record { sum1 = 262147; sum2 = 1 ∷ 2 ∷ []; block_len = none } ∷ [];
}

read_sums-write_sums_example : read_sums (write_sums wire_sums ++ 7 ∷ []) ≡ ok (wire_sums, 7 ∷ [])
read_sums-write_sums_example =
    read_sums-write_sums wire_sums (7 ∷ [])
      (
        (omega arith, omega arith),
        (omega arith, omega arith),
        (omega arith, omega arith),
        (omega arith, omega arith),
      )
      refl refl refl ((omega arith, refl, refl), tt)

abbrev negative_head : SumHead
negative_head = record { count = negsuc 0; blength = pos 2; s2length = pos 2; remainder = pos 2 }
