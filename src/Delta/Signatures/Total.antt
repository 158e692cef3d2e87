-- ===== src/Delta/Signatures/Total.antt =====
-- Where `compute_signatures` makes a signature, and where it panics.
use ferrosync.Base.{
  ℕ, zero, suc, ◌+◌, ◌≤◌, ◌<◌, ◌≡◌, refl, ap, ap₂, ◌∙◌, List, [], ◌∷◌, Option, none, some,
  Bool-cases, inl, inr, true, ltb, lt→ltb, le→leb, lt→leb, length, take, min, arith, if_true,
  if_false,
}
use ferrosync.Base.Int.{ℤ, pos, negsuc}
use ferrosync.Delta.Context.{Hashes, ProtocolContext, checksum2, digest_len}
use ferrosync.Delta.Context.Lengths.{length-checksum2}
use ferrosync.Delta.Rolling.{checksum1}
use ferrosync.Delta.Sum.{SumEntry, SumStruct}
use ferrosync.Delta.Signatures.{
  block_of, prefix_of, push_entry, sign_loop, block_length_by, with_head, sign_with,
  compute_signatures, compute_s2length,
}
use ferrosync.Delta.Signatures.Bounds.{compute_s2length_bounds}

module _ (hashes : Hashes) (ctx : ProtocolContext) where
  prefix_of-checksum2 :
      (s2length : ℕ) (xs : List ℕ)
      → s2length ≤ digest_len ctx.checksum_type
      → prefix_of s2length (checksum2 hashes ctx xs)
        ≡ some (take s2length (checksum2 hashes ctx xs))
  prefix_of-checksum2 s2length xs fits = if_true _ _ (
      le→leb s2length (length (checksum2 hashes ctx xs))
        (omega (arith, length-checksum2 hashes ctx xs)))

  prefix_of-checksum2_short :
      (s2length : ℕ) (xs : List ℕ)
      → digest_len ctx.checksum_type < s2length
      → prefix_of s2length (checksum2 hashes ctx xs) ≡ none
  prefix_of-checksum2_short s2length xs short =
      if_false (some (take s2length (checksum2 hashes ctx xs))) none (
        lt→leb s2length (length (checksum2 hashes ctx xs))
          (omega (arith, length-checksum2 hashes ctx xs)))

  sign_loop_total :
      (bytes : List ℕ) (b s2length fuel offset : ℕ)
      → s2length ≤ digest_len ctx.checksum_type
      → length bytes < offset + fuel
      → offset ≤ length bytes
      → (es : List SumEntry) × (sign_loop hashes ctx bytes (suc b) s2length fuel offset ≡ some es)
  unfolding sign_loop
  sign_loop_total bytes b s2length zero offset fits enough inside = absurd (omega arith)
  sign_loop_total bytes b s2length (suc fuel) offset fits enough inside =
      elim (Bool-cases (ltb offset (length bytes))) [
        | inl more ↦
            let (es, made) =
              sign_loop_total bytes b s2length fuel (min (offset + suc b) (length bytes)) fits
                (further more) (omega arith) in
            (_, if_true _ _ more ∙ ap₂ (push_entry _) (prefix_of-checksum2 s2length _ fits) made)
        | inr done ↦ ([], if_false _ _ done)
      ]
    where
      further :
          ltb offset (length bytes) ≡ true
          → length bytes < min (offset + suc b) (length bytes) + fuel
      further more = ground arith

  with_head_total :
      (blength : ℤ) (s2length n : ℕ) (made : Option (List SumEntry)) (es : List SumEntry)
      → made ≡ some es
      → (s : SumStruct) × (with_head blength s2length n made ≡ some s)
  with_head_total blength s2length n made es e = (_, ap (with_head blength s2length n) e)

  -- With a block length above 0 and a strong checksum that is long enough for its front, the
  -- signature is made.
  pub compute_signatures_total :
      (bytes : List ℕ) (b : ℕ)
      → block_length_by ctx.block_size_override (length bytes) ≡ pos (suc b)
      → compute_s2length (length bytes) (suc b) ≤ digest_len ctx.checksum_type
      → (s : SumStruct) × (compute_signatures hashes ctx bytes ≡ some s)
  unfolding compute_signatures
  compute_signatures_total [] b blength fits = (_, refl)
  compute_signatures_total (x ∷ bytes) b blength fits =
      let (es, made) =
        sign_loop_total (x ∷ bytes) b (compute_s2length (length (x ∷ bytes)) (suc b))
          (suc (length (x ∷ bytes))) 0 fits (omega arith) (omega arith) in
      let (s, headed) = with_head_total (pos (suc b)) _ (length (x ∷ bytes)) _ es made in
      (s, ap (λ l. sign_with hashes ctx l (x ∷ bytes)) blength ∙ headed)

  sign_loop_short :
      (x : ℕ) (bytes : List ℕ) (b s2length fuel : ℕ)
      → digest_len ctx.checksum_type < s2length
      → sign_loop hashes ctx (x ∷ bytes) (suc b) s2length (suc fuel) 0 ≡ none
  unfolding sign_loop
  sign_loop_short x bytes b s2length fuel short =
      let block = block_of (x ∷ bytes) 0 (min (0 + suc b) (suc (length bytes))) in
      if_true _ (some []) (lt→ltb 0 (suc (length bytes)) (omega arith))
      ∙ ap
          (λ p. push_entry (checksum1 block ctx.char_offset) p (
            sign_loop hashes ctx (x ∷ bytes) (suc b) s2length fuel
              (min (0 + suc b) (suc (length bytes)))))
          (prefix_of-checksum2_short s2length block short)

  sign_with_short :
      (blength : ℤ) (x : ℕ) (bytes : List ℕ)
      → digest_len ctx.checksum_type < 10
      → sign_with hashes ctx blength (x ∷ bytes) ≡ none
  sign_with_short (pos zero) x bytes short = refl
  sign_with_short (negsuc n) x bytes short = refl
  sign_with_short (pos (suc b)) x bytes short =
      let s2length = compute_s2length (length (x ∷ bytes)) (suc b) in
      ap (with_head (pos (suc b)) s2length (length (x ∷ bytes)))
        (sign_loop_short x bytes b s2length (suc (length bytes)) (longer))
    where
      longer : digest_len ctx.checksum_type < compute_s2length (length (x ∷ bytes)) (suc b)
      longer = omega (arith, (compute_s2length_bounds (length (x ∷ bytes)) (suc b) (omega arith)).0)

  -- A checksum of less than 10 bytes, as those of Xxh3 and of no checksum at all are, makes
  -- `compute_signatures` panic for every file that is not empty, where no negative block length is set.
  pub compute_signatures_panics :
      (x : ℕ) (bytes : List ℕ) (b : ℕ)
      → block_length_by ctx.block_size_override (length (x ∷ bytes)) ≡ pos b
      → digest_len ctx.checksum_type < 10
      → compute_signatures hashes ctx (x ∷ bytes) ≡ none
  unfolding compute_signatures
  compute_signatures_panics x bytes b blength short = sign_with_short _ x bytes short
