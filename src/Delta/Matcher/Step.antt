-- ===== src/Delta/Matcher/Step.antt =====
-- A round of the matcher's loop keeps what its operations rebuild and the checksum of its window.
use ferrosync.Base.{
  ℕ, suc, ◌+◌, ◌-◌, ◌*◌, ◌≤◌, ◌<◌, ◌≡◌, ap, ap₂, sym, ◌∙◌, List, [], ◌∷◌, ◌++◌, Option, none, some,
  length, take, get_or, get_elem?, All, append-nil, arith, if_true, le→leb, min,
}
use ferrosync.Base.Bytes.{IsByte}
use ferrosync.Delta.Ops.{copy, slice_basis, apply_diffops}
use ferrosync.Delta.Rolling.{RollingChecksum, new, compute, roll, digest, checksum1}
use ferrosync.Delta.Rolling.Window.{roll-compute}
use ferrosync.Delta.Sum.{SumEntry}
use ferrosync.Delta.Matcher.{
  MatchState, block_byte_length, slice, flush_literal, take_match, take_byte, window_match,
  match_step, build_hash_table,
}
use ferrosync.Delta.Matcher.Table.{build_hash_table-IsCandidate, find_match_sound}
use ferrosync.Delta.Matcher.Slices.{
  apply_diffops-append, slice-first, slice-last, get_or-IsByte, take-slice,
  apply_diffops-flush_literal,
}

-- The basis file, the section's hash and the signature's parameters.
module _ (checksum2 : List ℕ → List ℕ) (basis source : List ℕ) (sums : List SumEntry)
    (blength s2length block_count remainder char_offset : ℕ) where
  abbrev pub strong_of : List ℕ → List ℕ
  strong_of xs = take (min s2length (length (checksum2 xs))) (checksum2 xs)

  abbrev pub basis_block : ℕ → List ℕ
  basis_block i =
      slice_basis basis (i * blength) (block_byte_length i blength block_count remainder)

  abbrev pub window : ℕ → List ℕ
  window p = slice source p (p + blength)

  -- Each entry has the checksums of its block of the basis.
  abbrev pub Signs : Type 0
  Signs =
      (i : ℕ) (entry : SumEntry)
      → get_elem? sums i ≡ some entry
      → (entry.sum1 ≡ checksum1 (basis_block i) char_offset)
        × (entry.sum2 ≡ strong_of (basis_block i))

  -- A window of the source with both checksums of a block of the basis is that block.
  abbrev pub NoCollision : Type 0
  NoCollision =
      (i p : ℕ)
      → p + blength ≤ length source
      → checksum1 (basis_block i) char_offset ≡ checksum1 (window p) char_offset
      → strong_of (basis_block i) ≡ strong_of (window p)
      → basis_block i ≡ window p

  -- What holds at the head of the loop: the operations rebuild the source before the pending
  -- literal, and the rolling checksum is the window's.
  abbrev pub IsOnWindow : MatchState → Type 0
  IsOnWindow st =
      (st.pos ≤ length source)
      × (st.literal_start ≤ st.pos)
      × (apply_diffops basis st.ops ≡ take st.literal_start source)
      × (st.pos + blength ≤ length source → st.rolling ≡ compute (window st.pos) (new char_offset))

  compute-compute :
      (xs ys : List ℕ) (r : RollingChecksum)
      → r ≡ compute xs (new char_offset)
      → compute ys r ≡ compute ys (new char_offset)
  unfolding compute new
  compute-compute xs ys r e = ap (compute ys) e

  roll-window :
      (p : ℕ)
      → 0 < blength
      → All IsByte source
      → suc p + blength ≤ length source
      → roll
          (get_or source p 0)
          (get_or source (suc p + blength - 1) 0)
          (compute (window p) (new char_offset))
        ≡ compute (window (suc p)) (new char_offset)
  roll-window p b h k =
      ap
        (λ w.
          roll (get_or source p 0) (get_or source (suc p + blength - 1) 0)
            (compute w (new char_offset)))
        (slice-first source p (p + blength) (omega arith) (omega arith))
      ∙ roll-compute (get_or source p 0) (get_or source (suc p + blength - 1) 0) _ (new char_offset)
          (get_or-IsByte source p h)
      ∙ ap (λ w. compute w (new char_offset))
          (ap (λ (n : ℕ). slice source (suc p) (p + blength) ++ get_or source n 0 ∷ []) last
            ∙ sym (slice-last source (suc p) (p + blength) (omega arith) (omega arith))
            ∙ ap (λ (n : ℕ). slice source (suc p) n) end)
    where
      last : suc p + blength - 1 ≡ p + blength
      last = omega arith

      end : suc (p + blength) ≡ suc p + blength
      end = omega arith

  copy_block :
      (i : ℕ) (st : MatchState)
      → st.literal_start ≤ st.pos
      → apply_diffops basis st.ops ≡ take st.literal_start source
      → basis_block i ≡ window st.pos
      → apply_diffops basis (
          flush_literal source st.pos st
          ++ copy (record {
            offset = i * blength;
            len = block_byte_length i blength block_count remainder;
          })
            ∷ [])
        ≡ take (st.pos + blength) source
  unfolding apply_diffops
  copy_block i st before done same =
      apply_diffops-append basis (flush_literal source st.pos st) _
      ∙ ap₂ (λ a b. a ++ b) (apply_diffops-flush_literal basis source st.pos st before done)
          (append-nil (basis_block i) ∙ same)
      ∙ take-slice source st.pos (st.pos + blength) (omega arith)

  take_byte-IsOnWindow :
      (st : MatchState)
      → 0 < blength
      → All IsByte source
      → st.pos + blength ≤ length source
      → IsOnWindow st
      → IsOnWindow (take_byte checksum2 source sums blength s2length block_count remainder st)
  unfolding take_byte
  take_byte-IsOnWindow st b h full (inside, before, done, rolled) = (
    omega arith,
    omega arith,
    done,
    λ k.
        if_true _ _ (le→leb _ _ k)
        ∙ ap (roll (get_or source st.pos 0) (get_or source (suc st.pos + blength - 1) 0))
            (rolled full)
        ∙ roll-window st.pos b h k,
  )

  take_match-IsOnWindow :
      (i : ℕ) (st : MatchState)
      → st.pos + blength ≤ length source
      → basis_block i ≡ window st.pos
      → IsOnWindow st
      → IsOnWindow (take_match checksum2 source sums blength s2length block_count remainder i st)
  unfolding take_match
  take_match-IsOnWindow i st full same (inside, before, done, rolled) = (
    omega arith,
    omega arith,
    copy_block i st before done same,
    λ k. if_true _ _ (le→leb _ _ k) ∙ compute-compute _ _ st.rolling (rolled full),
  )

  -- The candidate found for a window is the number of a block of the basis with its bytes.
  window_match_sound :
      (i : ℕ) (st : MatchState)
      → Signs
      → NoCollision
      → st.pos + blength ≤ length source
      → IsOnWindow st
      → window_match checksum2 source sums blength s2length block_count remainder
          (build_hash_table sums)
          st
        ≡ some i
      → basis_block i ≡ window st.pos
  unfolding window_match digest compute checksum1 new
  window_match_sound i st signs free full (inside, before, done, rolled) found =
      let (entry, at, weak, strong) =
        find_match_sound sums (digest st.rolling) (strong_of (window st.pos)) _ i
          (build_hash_table-IsCandidate sums (digest st.rolling)) found in
      let (signed1, signed2) = signs i entry at in
      free i st.pos full (sym signed1 ∙ weak ∙ ap digest (rolled full)) (sym signed2 ∙ strong)

  -- A round keeps the invariant and moves on, whether the window matches a block or not.
  pub match_step-IsOnWindow :
      (st : MatchState) (m : Option ℕ)
      → 0 < blength
      → All IsByte source
      → Signs
      → NoCollision
      → st.pos + blength ≤ length source
      → IsOnWindow st
      → window_match checksum2 source sums blength s2length block_count remainder
          (build_hash_table sums)
          st
        ≡ m
      → IsOnWindow (match_step checksum2 source sums blength s2length block_count remainder m st)
        × (st.pos
            < (match_step checksum2 source sums blength s2length block_count remainder m st).pos)
  unfolding take_match take_byte
  match_step-IsOnWindow st none b h signs free full on found =
      (take_byte-IsOnWindow st b h full on, omega arith)
  match_step-IsOnWindow st (some i) b h signs free full on found = (
    take_match-IsOnWindow i st full (window_match_sound i st signs free full on found) on,
    omega arith,
  )
