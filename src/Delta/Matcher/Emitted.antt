-- ===== src/Delta/Matcher/Emitted.antt =====
-- The copies that `match_blocks` emits are of whole blocks of the signature.
use ferrosync.Base.{
  ℕ, zero, suc, ◌+◌, ◌*◌, ◌<◌, ◌≡◌, refl, sym, ◌∙◌, subst, List, [], ◌∷◌, Option, none, some,
  Bool-cases, inl, inr, ltb, length, get_elem?, All, All-append, arith, if_true, if_false, ◌||◌,
}
use mathlib.Core.Option.{some-injective}
use ferrosync.Delta.Ops.{DiffOp, literal, copy}
use ferrosync.Delta.Rolling.{digest}
use ferrosync.Delta.Sum.{SumEntry, SumStruct, as_usize}
use ferrosync.Delta.Matcher.{
  MatchState, block_byte_length, flush_literal, take_match, take_byte, window_match, match_step,
  match_loop, build_hash_table, start_state, scan_blocks, match_blocks, not_positive,
}
use ferrosync.Delta.Matcher.Table.{build_hash_table-IsCandidate, find_match_sound}

module _ (checksum2 : List ℕ → List ℕ) (source : List ℕ) (sums : List SumEntry)
    (blength s2length block_count remainder : ℕ) where
  abbrev pub IsEmitted : DiffOp → Type 0
  IsEmitted (literal bytes) = Unit
  IsEmitted (copy r) =
      (i : ℕ) × (i < length sums)
      × (r.offset ≡ i * blength)
      × (r.len ≡ block_byte_length i blength block_count remainder)

  flush_literal-IsEmitted :
      (to : ℕ) (st : MatchState) → All IsEmitted st.ops → All IsEmitted (flush_literal source to st)
  unfolding flush_literal
  flush_literal-IsEmitted to st h = elim (Bool-cases (ltb st.literal_start to)) [
    | inl pending ↦ rw (pending) (All-append IsEmitted st.ops _ h (tt, tt))
    | inr empty ↦ rw (empty) h
  ]

  get_elem?-lt :
      (i : ℕ) (es : List SumEntry) (e : SumEntry) → get_elem? es i ≡ some e → i < length es
  get_elem?-lt i [] e at = ground arith
  get_elem?-lt zero (x ∷ es) e at = omega arith
  get_elem?-lt (suc i) (x ∷ es) e at = omega (arith, get_elem?-lt i es e at)

  window_match-lt :
      (i : ℕ) (st : MatchState)
      → window_match checksum2 source sums blength s2length block_count remainder
          (build_hash_table sums)
          st
        ≡ some i
      → i < length sums
  unfolding window_match
  window_match-lt i st found =
      let (entry, at, weak, strong) =
        find_match_sound sums (digest st.rolling) _ _ i
          (build_hash_table-IsCandidate sums (digest st.rolling)) found in
      get_elem?-lt i sums entry at

  match_step-IsEmitted :
      (m : Option ℕ) (st : MatchState)
      → All IsEmitted st.ops
      → window_match checksum2 source sums blength s2length block_count remainder
          (build_hash_table sums)
          st
        ≡ m
      → All IsEmitted
          (match_step checksum2 source sums blength s2length block_count remainder m st).ops
  unfolding take_match take_byte
  match_step-IsEmitted none st h found = h
  match_step-IsEmitted (some i) st h found =
      All-append IsEmitted (flush_literal source st.pos st) _ (flush_literal-IsEmitted st.pos st h)
        ((i, window_match-lt i st found, refl, refl), tt)

  match_loop-IsEmitted :
      (fuel : ℕ) (st : MatchState) (ops : List DiffOp)
      → All IsEmitted st.ops
      → match_loop checksum2 source sums blength s2length block_count remainder
          (build_hash_table sums)
          fuel
          st
        ≡ some ops
      → All IsEmitted ops
  unfolding match_loop
  match_loop-IsEmitted zero st ops h made = ground arith
  match_loop-IsEmitted (suc fuel) st ops h made =
      elim (Bool-cases (ltb (length source) (st.pos + blength))) [
        | inl over ↦
            subst (All IsEmitted) (some-injective _ _ (sym (if_true _ _ over) ∙ made))
              (flush_literal-IsEmitted (length source) st h)
        | inr full ↦
            match_loop-IsEmitted fuel _ ops (match_step-IsEmitted _ st h refl)
              (sym (if_false _ _ full) ∙ made)
      ]

-- Every copy that `match_blocks` emits is of a block that the signature has an entry for: at the
-- multiple of the block length, with the block's length.
pub match_blocks-IsEmitted :
    (checksum2 : List ℕ → List ℕ) (char_offset : ℕ) (source : List ℕ) (sums : SumStruct)
    (ops : List DiffOp)
    → match_blocks checksum2 char_offset source sums ≡ some ops
    → All
        (IsEmitted checksum2 source sums.sums
          (as_usize sums.head.blength)
          (as_usize sums.head.s2length)
          (as_usize sums.head.count)
          (as_usize sums.head.remainder))
        ops
unfolding match_blocks scan_blocks start_state
match_blocks-IsEmitted checksum2 char_offset [] sums ops made =
    subst (All _) (some-injective _ _ made) tt
match_blocks-IsEmitted checksum2 char_offset (b ∷ source) sums ops made =
    elim (Bool-cases (
      not_positive sums.head.count
      || not_positive sums.head.blength
      || ltb (length (b ∷ source)) (as_usize sums.head.blength))) [
        | inl short ↦ subst (All _) (some-injective _ _ (sym (if_true _ _ short) ∙ made)) (tt, tt)
        | inr long ↦
            match_loop-IsEmitted checksum2 (b ∷ source) sums.sums (as_usize sums.head.blength)
              (as_usize sums.head.s2length) (as_usize sums.head.count)
              (as_usize sums.head.remainder) _ _ ops tt (sym (if_false _ _ long) ∙ made)
      ]
