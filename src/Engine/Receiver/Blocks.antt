-- ===== src/Engine/Receiver/Blocks.antt =====
-- The receiver finds the blocks that the sender's copies mean.
use ferrosync.Base.{
  ℕ, suc, ◌+◌, ◌-◌, ◌*◌, ◌%◌, ◌^◌, ◌≤◌, ◌<◌, ◌≡◌, refl, ap, sym, ◌∙◌, List, ◌∷◌, Bool-cases, inl,
  inr, true, false, ltb, leb, lt→leb, ◌==◌, ◌&&◌, if_true, if_false, length, arith,
}
use native.Mathlib.Nat.{le-div_iff_mul-le, lt-div-mul-add, mul-le-mul}
use ferrosync.Wire.Stream.{ok}
use ferrosync.Delta.Ops.{slice_basis}
use ferrosync.Delta.Matcher.{block_byte_length}
use ferrosync.Delta.Signatures.Blocks.{last_length, slice_basis-block_of}
use ferrosync.Engine.Receiver.{block_count, basis_remainder, received_length, matched_block}

basis_remainder-last_length :
    (x : ℕ) (xs : List ℕ) (b : ℕ)
    → basis_remainder (x ∷ xs) (suc b) ≡ last_length (length (x ∷ xs)) (suc b)
unfolding basis_remainder
basis_remainder-last_length x xs b = refl

-- The receiver and the sender have the same length for a block.
received_length-block_byte_length :
    (i b count remainder : ℕ)
    → suc b < 2 ^ 32
    → received_length i (suc b) count remainder ≡ block_byte_length i (suc b) count remainder
unfolding received_length block_byte_length
received_length-block_byte_length i b count remainder small =
    elim (Bool-cases
      (ltb 0 count && (i == count - 1) && ltb 0 remainder && ltb remainder (suc b))) [
        | inl short ↦ if_true _ _ short ∙ narrow short ∙ sym (if_true _ _ short)
        | inr whole ↦ if_false _ _ whole ∙ omega arith ∙ sym (if_false _ _ whole)
      ]
  where
    below :
        (ltb 0 count && (i == count - 1) && ltb 0 remainder && ltb remainder (suc b)) ≡ true
        → remainder < suc b
    below short = ground arith

    narrow :
        (ltb 0 count && (i == count - 1) && ltb 0 remainder && ltb remainder (suc b)) ≡ true
        → remainder ≡ remainder % 2 ^ 32
    narrow short = omega (arith, below short)

-- The blocks that the receiver counts are those that start in the basis.
block_count-start :
    (x : ℕ) (xs : List ℕ) (b i : ℕ) → i * suc b < length (x ∷ xs) → i < block_count (x ∷ xs) (suc b)
unfolding block_count
block_count-start x xs b i low =
    (le-div_iff_mul-le {k = suc b} {x = suc i} {y = length (x ∷ xs) + b} (omega arith)).1
      (omega arith)

block_count-end :
    (x : ℕ) (xs : List ℕ) (b : ℕ) → length (x ∷ xs) ≤ block_count (x ∷ xs) (suc b) * suc b
unfolding block_count
block_count-end x xs b =
    omega (arith, lt-div-mul-add {a = length (x ∷ xs) + b} {b = suc b} (omega arith))

-- The receiver takes the bytes that the sender's copy of the block takes, for a block that starts in
-- the basis.
pub matched_block-slice_basis :
    (x : ℕ) (xs : List ℕ) (b i count : ℕ)
    → suc b < 2 ^ 31
    → i < 2 ^ 31
    → i * suc b < length (x ∷ xs)
    → length (x ∷ xs) ≤ count * suc b
    → matched_block (x ∷ xs) (suc b) i
      ≡ ok (
          slice_basis
            (x ∷ xs)
            (i * suc b)
            (block_byte_length i (suc b) count (last_length (length (x ∷ xs)) (suc b))))
unfolding matched_block
matched_block-slice_basis x xs b i count small few low high =
    if_false _ _ (lt→leb (block_count (x ∷ xs) (suc b)) i (block_count-start x xs b i low))
    ∙ if_false _ _ within
    ∙ ap (λ bs. ok bs)
        (ap (λ (n : ℕ). slice_basis (x ∷ xs) (i * suc b) n)
            (ap (λ r. received_length i (suc b) mine r) (basis_remainder-last_length x xs b)
              ∙ received_length-block_byte_length i b mine _ (omega arith))
          ∙ slice_basis-block_of (x ∷ xs) b i mine low (block_count-end x xs b) (omega arith)
          ∙ sym (slice_basis-block_of (x ∷ xs) b i count low high (omega arith)))
  where
    mine : ℕ
    mine = block_count (x ∷ xs) (suc b)

    product : i * suc b ≤ 2 ^ 31 * 2 ^ 31
    product =
        mul-le-mul {n₁ = i} {m₁ = suc b} {n₂ = 2 ^ 31} {m₂ = 2 ^ 31} (omega arith) (omega arith)

    within : leb (2 ^ 64) (i * suc b) ≡ false
    within = ground (arith, product)
