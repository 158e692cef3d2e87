-- ===== src/Delta/Matcher/Rebuild.antt =====
-- The operations that `match_blocks` emits rebuild the source from the basis.
use ferrosync.Base.{take_all}
use ferrosync.Base.{
  ℕ, zero, suc, ◌+◌, ◌≤◌, ◌<◌, ◌≡◌, refl, ap, ◌∙◌, List, [], ◌∷◌, some, Bool, false, length, All,
  append-nil, arith, Bool-cases, inl, inr, if_true, if_false, ltb,
}
use ferrosync.Base.{◌||◌}
use ferrosync.Base.Int.{ℤ, pos, negsuc}
use ferrosync.Base.Bytes.{IsByte}
use ferrosync.Delta.Ops.{DiffOp, literal, apply_diffops}
use ferrosync.Delta.Rolling.{new, compute}
use ferrosync.Delta.Sum.{SumEntry, SumStruct, as_usize}
use ferrosync.Delta.Matcher.{
  MatchState, slice, flush_literal, match_loop, build_hash_table, start_state, scan_blocks,
  match_blocks, not_positive,
}
use ferrosync.Delta.Matcher.Slices.{apply_diffops-flush_literal}
use ferrosync.Delta.Matcher.Step.{Signs, NoCollision, IsOnWindow, match_step-IsOnWindow}

module _ (checksum2 : List ℕ → List ℕ) (basis source : List ℕ) (sums : List SumEntry)
    (blength s2length block_count remainder char_offset : ℕ) where
  match_loop-rebuilds :
      (fuel : ℕ) (st : MatchState)
      → 0 < blength
      → All IsByte source
      → (Signs checksum2 basis source sums blength s2length block_count remainder char_offset)
      → (NoCollision checksum2 basis source sums blength s2length block_count remainder char_offset)
      → length source < st.pos + fuel
      → (IsOnWindow checksum2 basis source sums blength s2length block_count remainder char_offset)
          st
      → (ops : List DiffOp) × (match_loop checksum2 source sums blength s2length block_count
            remainder
            (build_hash_table sums)
            fuel
            st
          ≡ some ops)
        × (apply_diffops basis ops ≡ source)
  unfolding match_loop
  match_loop-rebuilds zero st b h signs free enough on = absurd (omega arith)
  match_loop-rebuilds (suc fuel) st b h signs free enough on =
      elim (Bool-cases (ltb (length source) (st.pos + blength))) [
        | inl over ↦ (
          flush_literal source (length source) st,
          if_true _ _ over,
          apply_diffops-flush_literal basis source (length source) st (omega arith) on.2
              ∙ take_all source (length source) (omega arith),
        )
        | inr full ↦
            let (on', further) =
              match_step-IsOnWindow checksum2 basis source sums blength s2length block_count
                remainder char_offset st _ b h signs free (inside full) on refl in
            let (ops, found, rebuilt) =
              match_loop-rebuilds fuel _ b h signs free (omega arith) on' in
            (ops, if_false _ _ full ∙ found, rebuilt)
      ]
    where
      inside : ltb (length source) (st.pos + blength) ≡ false → st.pos + blength ≤ length source
      inside full = ground arith

positive : (a : ℤ) → not_positive a ≡ false → 0 < as_usize a
positive (pos zero) h = ground arith
positive (pos (suc n)) h = omega arith
positive (negsuc n) h = ground arith

abbrev is_literal : List ℕ → SumStruct → Bool
is_literal source sums =
    not_positive sums.head.count
    || not_positive sums.head.blength
    || ltb (length source) (as_usize sums.head.blength)

scan_blocks-rebuilds :
    (checksum2 : List ℕ → List ℕ) (char_offset : ℕ) (basis source : List ℕ) (sums : SumStruct)
    → 0 < as_usize sums.head.blength
    → All IsByte source
    → Signs checksum2 basis source sums.sums
        (as_usize sums.head.blength)
        (as_usize sums.head.s2length)
        (as_usize sums.head.count)
        (as_usize sums.head.remainder)
        char_offset
    → NoCollision checksum2 basis source sums.sums
        (as_usize sums.head.blength)
        (as_usize sums.head.s2length)
        (as_usize sums.head.count)
        (as_usize sums.head.remainder)
        char_offset
    → (ops : List DiffOp) × (scan_blocks checksum2 char_offset source sums ≡ some ops)
      × (apply_diffops basis ops ≡ source)
unfolding scan_blocks start_state apply_diffops
scan_blocks-rebuilds checksum2 char_offset basis source sums b h signs free =
    match_loop-rebuilds checksum2 basis source sums.sums (as_usize sums.head.blength)
      (as_usize sums.head.s2length) (as_usize sums.head.count) (as_usize sums.head.remainder)
      char_offset (suc (length source))
      (start_state source (as_usize sums.head.blength) char_offset) b h signs free (omega arith)
      (
        omega arith,
        omega arith,
        refl,
        λ k. ap (λ (n : ℕ). compute (slice source 0 n) (new char_offset)) start,
      )
  where
    start : as_usize sums.head.blength ≡ 0 + as_usize sums.head.blength
    start = omega arith

-- Whatever the files: where the signature is one of the basis and no window of the source collides
-- with a block that it differs from, `match_blocks` terminates within its fuel, and applying the
-- operations that it returns to the basis gives the source.
pub match_blocks-rebuilds :
    (checksum2 : List ℕ → List ℕ) (char_offset : ℕ) (basis source : List ℕ) (sums : SumStruct)
    → All IsByte source
    → Signs checksum2 basis source sums.sums
        (as_usize sums.head.blength)
        (as_usize sums.head.s2length)
        (as_usize sums.head.count)
        (as_usize sums.head.remainder)
        char_offset
    → NoCollision checksum2 basis source sums.sums
        (as_usize sums.head.blength)
        (as_usize sums.head.s2length)
        (as_usize sums.head.count)
        (as_usize sums.head.remainder)
        char_offset
    → (ops : List DiffOp) × (match_blocks checksum2 char_offset source sums ≡ some ops)
      × (apply_diffops basis ops ≡ source)
unfolding match_blocks apply_diffops
match_blocks-rebuilds checksum2 char_offset basis [] sums h signs free = ([], refl, refl)
match_blocks-rebuilds checksum2 char_offset basis (b ∷ source) sums h signs free =
    elim (Bool-cases (is_literal (b ∷ source) sums)) [
      | inl short ↦ (literal (b ∷ source) ∷ [], if_true _ _ short, append-nil (b ∷ source))
      | inr long ↦
          let (ops, found, rebuilt) =
            scan_blocks-rebuilds checksum2 char_offset basis (b ∷ source) sums (wide long) h signs
              free in
          (ops, if_false _ _ long ∙ found, rebuilt)
    ]
  where
    wide : is_literal (b ∷ source) sums ≡ false → 0 < as_usize sums.head.blength
    wide long = ground (arith, positive sums.head.blength)
