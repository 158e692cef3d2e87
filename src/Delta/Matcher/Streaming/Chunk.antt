-- ===== src/Delta/Matcher/Streaming/Chunk.antt =====
-- One call of the streaming matcher keeps the operations on the way to the source.
use ferrosync.Base.{
  ℕ, zero, suc, ◌+◌, ◌-◌, ◌*◌, ◌≤◌, ◌<◌, ◌≡◌, refl, ap, sym, ◌∙◌, subst, List, [], ◌∷◌, ◌++◌,
  append-nil, append_assoc, Option, none, some, Bool, Bool-cases, inl, inr, false, ltb, leb, leb→le,
  if_true, if_false, length, take, drop, min, length-take, length-drop, take-append-drop, get_elem?,
  arith,
}
use ferrosync.Delta.Ops.{DiffOp, literal, apply_op, apply_diffops, slice_basis}
use ferrosync.Delta.Rolling.{digest}
use ferrosync.Delta.Sum.{SumEntry}
use ferrosync.Delta.Matcher.{
  MatchState, slice, flush_literal, take_match, take_byte, window_match, build_hash_table,
  block_byte_length,
}
use ferrosync.Delta.Matcher.Slices.{apply_diffops-append}
use ferrosync.Delta.Matcher.Table.{build_hash_table-IsCandidate, find_match_sound}
use ferrosync.Delta.Matcher.Streaming.{Matching, stream_step, stream_loop}

drop-nil : (k : ℕ) → drop {A = ℕ} k [] ≡ []
drop-nil zero = refl
drop-nil (suc k) = refl

pub drop-drop : (m n : ℕ) (xs : List ℕ) → drop m (drop n xs) ≡ drop (n + m) xs
drop-drop m zero xs = ap (λ (k : ℕ). drop k xs) (omega arith)
drop-drop m (suc n) [] = drop-nil m ∙ sym (drop-nil (suc n + m))
drop-drop m (suc n) (x ∷ xs) =
    let moved : suc (n + m) ≡ suc n + m = omega arith in
    drop-drop m n xs ∙ ap (λ (k : ℕ). drop k (x ∷ xs)) moved

-- A slice, with what comes after it.
pub slice-drop :
    (xs : List ℕ) (from to : ℕ) → from ≤ to → slice xs from to ++ drop to xs ≡ drop from xs
slice-drop xs from to h =
    ap (λ ys. slice xs from to ++ ys)
      (ap (λ (k : ℕ). drop k xs) there ∙ sym (drop-drop (to - from) from xs))
    ∙ take-append-drop (to - from) (drop from xs)
  where
    there : to ≡ from + (to - from)
    there = omega arith

module _ (checksum2 : List ℕ → List ℕ) (m : Matching) (basis source : List ℕ) where
  -- No window of the source has the front of the strong checksum of another block.
  abbrev pub IsFree : Type 0
  IsFree =
      (before window after : List ℕ) (i : ℕ) (entry : SumEntry)
      → source ≡ before ++ (window ++ after)
      → length window ≡ m.blength
      → get_elem? m.sums i ≡ some entry
      → entry.sum2 ≡ take (min m.s2length (length (checksum2 window))) (checksum2 window)
      → slice_basis basis (i * m.blength) (block_byte_length i m.blength m.block_count m.remainder)
        ≡ window

  -- The bytes that were rebuilt before, those of the operations, and those to come.
  abbrev pub IsPlaced : List ℕ → List DiffOp → List ℕ → Type 0
  IsPlaced rebuilt ops tail = rebuilt ++ (apply_diffops basis ops ++ tail) ≡ source

  pub IsPlaced-push :
      (rebuilt : List ℕ) (ops : List DiffOp) (op : DiffOp) (bytes tail : List ℕ)
      → apply_op basis op ≡ bytes
      → IsPlaced rebuilt ops (bytes ++ tail)
      → IsPlaced rebuilt (ops ++ op ∷ []) tail
  unfolding apply_diffops
  IsPlaced-push rebuilt ops op bytes tail same placed =
      ap (λ bs. rebuilt ++ bs)
        (ap (λ bs. bs ++ tail) (apply_diffops-append basis ops (op ∷ []))
          ∙ append_assoc (apply_diffops basis ops) _ tail
          ∙ ap (λ bs. apply_diffops basis ops ++ (bs ++ tail))
              (append-nil (apply_op basis op) ∙ same))
      ∙ placed

  pub IsPlaced-flush_literal :
      (rebuilt buf rest : List ℕ) (to : ℕ) (scan : MatchState)
      → scan.literal_start ≤ to
      → IsPlaced rebuilt scan.ops (drop scan.literal_start buf ++ rest)
      → IsPlaced rebuilt (flush_literal buf to scan) (drop to buf ++ rest)
  unfolding flush_literal apply_op
  IsPlaced-flush_literal rebuilt buf rest to scan h placed =
      elim (Bool-cases (ltb scan.literal_start to)) [
        | inl pending ↦
            subst (λ ops. IsPlaced rebuilt ops (drop to buf ++ rest)) (sym (if_true _ _ pending))
              (IsPlaced-push rebuilt scan.ops (literal (slice buf scan.literal_start to)) _ _ refl (
                subst (IsPlaced rebuilt scan.ops)
                  (ap (λ bs. bs ++ rest) (sym (slice-drop buf scan.literal_start to h))
                    ∙ append_assoc (slice buf scan.literal_start to) (drop to buf) rest)
                  placed))
        | inr nothing ↦
            subst (λ ops. IsPlaced rebuilt ops (drop to buf ++ rest)) (sym (if_false _ _ nothing))
              (subst (λ (k : ℕ). IsPlaced rebuilt scan.ops (drop k buf ++ rest)) (same nothing)
                placed)
      ]
    where
      same : ltb scan.literal_start to ≡ false → scan.literal_start ≡ to
      same nothing = ground arith

  abbrev pub IsScan : List ℕ → List ℕ → List ℕ → MatchState → Type 0
  IsScan rebuilt buf rest scan =
      (scan.literal_start ≤ scan.pos)
      × (scan.pos ≤ length buf)
      × IsPlaced rebuilt scan.ops (drop scan.literal_start buf ++ rest)

  window-source :
      (before buf rest : List ℕ) (p : ℕ)
      → p + m.blength ≤ length buf
      → source ≡ before ++ (buf ++ rest)
      → source
        ≡ (before ++ take p buf)
          ++ (slice buf p (p + m.blength) ++ (drop (p + m.blength) buf ++ rest))
  window-source before buf rest p h at =
      at
      ∙ ap (λ bs. before ++ bs)
          (ap (λ bs. bs ++ rest) (sym (take-append-drop p buf))
            ∙ append_assoc (take p buf) (drop p buf) rest
            ∙ ap (λ bs. take p buf ++ bs)
                (ap (λ bs. bs ++ rest) (sym (slice-drop buf p (p + m.blength) (omega arith)))
                  ∙ append_assoc (slice buf p (p + m.blength)) _ rest))
      ∙ sym (append_assoc before (take p buf) _)

  stream_step-IsScan :
      (rebuilt before buf rest : List ℕ) (scan : MatchState) (need : Bool) (found : Option ℕ)
      → IsFree
      → source ≡ before ++ (buf ++ rest)
      → scan.pos + m.blength ≤ length buf
      → 0 < m.blength
      → IsScan rebuilt buf rest scan
      → window_match checksum2 buf m.sums m.blength m.s2length m.block_count m.remainder
          (build_hash_table m.sums)
          scan
        ≡ found
      → IsScan rebuilt buf rest (stream_step checksum2 m buf found scan need).0
  unfolding take_match take_byte window_match apply_op
  stream_step-IsScan rebuilt before buf rest scan need none free at inside some_bytes
        (low, high, placed) found =
      (omega arith, omega arith, placed)
  stream_step-IsScan rebuilt before buf rest scan need (some i) free at inside some_bytes
        (low, high, placed) found =
      let (entry, there, weak, strong) =
        find_match_sound m.sums (digest scan.rolling) _ _ i
          (build_hash_table-IsCandidate m.sums (digest scan.rolling)) found in
      (
        omega arith,
        inside,
        IsPlaced-push rebuilt (flush_literal buf scan.pos scan) _ _ _
            (free (before ++ take scan.pos buf) (slice buf scan.pos (scan.pos + m.blength))
              (drop (scan.pos + m.blength) buf ++ rest) i entry
              (window-source before buf rest scan.pos inside at) (full) there strong)
            (subst (IsPlaced rebuilt (flush_literal buf scan.pos scan))
              (ap (λ bs. bs ++ rest)
                  (sym (slice-drop buf scan.pos (scan.pos + m.blength) (omega arith)))
                ∙ append_assoc (slice buf scan.pos (scan.pos + m.blength)) _ rest)
              (IsPlaced-flush_literal rebuilt buf rest scan.pos scan low placed)),
      )
    where
      full : length (slice buf scan.pos (scan.pos + m.blength)) ≡ m.blength
      full = omega (
        arith,
        inside,
        length-take (scan.pos + m.blength - scan.pos) (drop scan.pos buf),
        length-drop scan.pos buf,
      )

  stream_step-further :
      (buf : List ℕ) (scan : MatchState) (need : Bool) (found : Option ℕ)
      → 0 < m.blength
      → scan.pos < (stream_step checksum2 m buf found scan need).0.pos
  unfolding take_match take_byte
  stream_step-further buf scan need none h = omega arith
  stream_step-further buf scan need (some i) h = omega arith

  pub stream_loop-IsScan :
      (rebuilt before buf rest : List ℕ) (fuel : ℕ) (scan : MatchState) (need : Bool)
      → IsFree
      → source ≡ before ++ (buf ++ rest)
      → 0 < m.blength
      → length buf < fuel + scan.pos
      → IsScan rebuilt buf rest scan
      → (next : MatchState) × (need' : Bool) × (stream_loop checksum2 m buf fuel scan need
          ≡ some (next, need'))
        × IsScan rebuilt buf rest next
        × (length buf < next.pos + m.blength)
  unfolding stream_loop take_match take_byte
  stream_loop-IsScan rebuilt before buf rest zero scan need free at some_bytes enough h =
      absurd (omega arith)
  stream_loop-IsScan rebuilt before buf rest (suc fuel) scan need free at some_bytes enough h =
      elim (Bool-cases (leb (scan.pos + m.blength) (length buf))) [
        | inl inside ↦
            let within = leb→le (scan.pos + m.blength) (length buf) inside in
            let kept =
              stream_step-IsScan rebuilt before buf rest scan need _ free at within some_bytes h
                refl in
            let (next, need', looped, placed, ended) =
              stream_loop-IsScan rebuilt before buf rest fuel _ _ free at some_bytes
                (omega (
                  arith,
                  stream_step-further buf scan need
                      (window_match checksum2 buf m.sums m.blength m.s2length m.block_count
                        m.remainder (build_hash_table m.sums) scan)
                      some_bytes,
                ))
                kept in
            (next, need', if_true _ _ inside ∙ looped, placed, ended)
        | inr outside ↦ (scan, need, if_false _ _ outside, h, past outside)
      ]
    where
      past : leb (scan.pos + m.blength) (length buf) ≡ false → length buf < scan.pos + m.blength
      past outside = ground arith
