-- ===== src/Delta/Signatures/Sound.antt =====
-- The signature that `compute_signatures` makes describes the blocks of its file.
use ferrosync.Base.{
  ℕ, zero, suc, ◌+◌, ◌*◌, ◌≤◌, ◌<◌, ◌≡◌, refl, ap, sym, ◌∙◌, subst, List, [], ◌∷◌, Option, none,
  some, Bool-cases, inl, inr, if_true, if_false, true, false, ltb, leb, ltb→lt, leb→le, le→ltb,
  length, take, min, arith,
}
use mathlib.Core.Option.{some-injective}
use ferrosync.Delta.Context.{Hashes, ProtocolContext, checksum2}
use ferrosync.Delta.Rolling.{checksum1}
use ferrosync.Delta.Sum.{SumEntry}
use ferrosync.Delta.Signatures.{block_of, prefix_of, push_entry, sign_loop}

push_entry-some :
    (sum1 : ℕ) (p : Option (List ℕ)) (rest : Option (List SumEntry)) (es : List SumEntry)
    → push_entry sum1 p rest ≡ some es
    → (sum2 : List ℕ) × (es' : List SumEntry) × (p ≡ some sum2)
      × (rest ≡ some es')
      × (es ≡ record { sum1 = sum1; sum2 = sum2; block_len = none } ∷ es')
push_entry-some sum1 none rest es h = ground arith
push_entry-some sum1 (some sum2) none es h = ground arith
push_entry-some sum1 (some sum2) (some es') es h =
    (sum2, es', refl, refl, sym (some-injective _ _ h))

prefix_of-some :
    (n : ℕ) (xs ys : List ℕ) → prefix_of n xs ≡ some ys → (n ≤ length xs) × (ys ≡ take n xs)
prefix_of-some n xs ys h = elim (Bool-cases (leb n (length xs))) [
  | inl fits ↦ (leb→le n (length xs) fits, sym (some-injective _ _ (sym (if_true _ _ fits) ∙ h)))
  | inr short ↦ not_some (sym (if_false _ _ short) ∙ h)
]
  where
    not_some : {B : Type 0} → none ≡ some ys → B
    not_some e = ground arith

module _ (hashes : Hashes) (ctx : ProtocolContext) (bytes : List ℕ) (b s2length : ℕ) where
  -- The block length is `suc b`.
  abbrev start : ℕ → ℕ
  start i = i * suc b

  abbrev pub file_block : ℕ → List ℕ
  file_block i = block_of bytes (start i) (min (start i + suc b) (length bytes))

  abbrev pub IsSigned : ℕ → SumEntry → Type 0
  IsSigned i e =
      (e.sum1 ≡ checksum1 (file_block i) ctx.char_offset)
      × (e.sum2 ≡ take s2length (checksum2 hashes ctx (file_block i)))
      × (s2length ≤ length (checksum2 hashes ctx (file_block i)))
      × (e.block_len ≡ none)

  -- The entries are those of the blocks from `i` on, and the file ends with them.
  abbrev pub IsSigning : ℕ → List SumEntry → Type 0
  IsSigning i [] = length bytes ≤ start i
  IsSigning i (e ∷ es) = (start i < length bytes) × IsSigned i e × IsSigning (suc i) es

  sign_end :
      (fuel offset : ℕ) (es : List SumEntry)
      → length bytes ≤ offset
      → sign_loop hashes ctx bytes (suc b) s2length fuel offset ≡ some es
      → es ≡ []
  unfolding sign_loop
  sign_end zero offset es past e = ground arith
  sign_end (suc fuel) offset es past e =
      sym (some-injective _ _ (sym (if_false _ _ (le→ltb offset (length bytes) past)) ∙ e))

  push_entry-IsSigned :
      (i : ℕ) (rest : Option (List SumEntry)) (es : List SumEntry)
      → push_entry
          (checksum1 (file_block i) ctx.char_offset)
          (prefix_of s2length (checksum2 hashes ctx (file_block i)))
          rest
        ≡ some es
      → (e : SumEntry) × (es' : List SumEntry) × (es ≡ e ∷ es') × (rest ≡ some es') × IsSigned i e
  push_entry-IsSigned i rest es h =
      let (sum2, es', prefix, others, shape) = push_entry-some _ _ rest es h in
      let (fits, cut) = prefix_of-some s2length _ sum2 prefix in
      (_, es', shape, others, (refl, cut, fits, refl))

  -- What the loop makes from block `i` on, where the file ends with that block or has a block more.
  later-IsSigning :
      (fuel i : ℕ) (es : List SumEntry)
      → (sign_loop hashes ctx bytes (suc b) s2length fuel (start (suc i)) ≡ some es
          → IsSigning (suc i) es)
      → sign_loop hashes ctx bytes (suc b) s2length fuel (min (start i + suc b) (length bytes))
        ≡ some es
      → IsSigning (suc i) es
  later-IsSigning fuel i es ih made = elim (Bool-cases (leb (start i + suc b) (length bytes))) [
    | inl whole ↦ ih (ap loop (sym (next whole)) ∙ made)
    | inr last ↦
        subst (IsSigning (suc i))
          (sym (sign_end fuel (length bytes) es (omega arith) (ap loop (sym (end last)) ∙ made)))
          (past last)
  ]
    where
      loop : ℕ → Option (List SumEntry)
      loop offset = sign_loop hashes ctx bytes (suc b) s2length fuel offset

      next :
          leb (start i + suc b) (length bytes) ≡ true
          → min (start i + suc b) (length bytes) ≡ start (suc i)
      next whole = omega (arith, leb→le _ _ whole)

      end :
          leb (start i + suc b) (length bytes) ≡ false
          → min (start i + suc b) (length bytes) ≡ length bytes
      end last = ground arith

      past : leb (start i + suc b) (length bytes) ≡ false → length bytes ≤ start (suc i)
      past last = ground arith

  pub sign_loop-IsSigning :
      (fuel i : ℕ) (es : List SumEntry)
      → sign_loop hashes ctx bytes (suc b) s2length fuel (start i) ≡ some es
      → IsSigning i es
  unfolding sign_loop
  sign_loop-IsSigning zero i es e = ground arith
  sign_loop-IsSigning (suc fuel) i es e = elim (Bool-cases (ltb (start i) (length bytes))) [
    | inl inside ↦
        let (entry, es', shape, rest, signed) =
          push_entry-IsSigned i _ es (sym (if_true _ _ inside) ∙ e) in
        subst (IsSigning i) (sym shape) (
          ltb→lt _ _ inside,
          signed,
          later-IsSigning fuel i es' (sign_loop-IsSigning fuel (suc i) es') rest,
        )
    | inr outside ↦
        subst (IsSigning i) (some-injective [] es (sym (if_false _ _ outside) ∙ e))
          (outside_le outside)
  ]
    where
      outside_le : ltb (start i) (length bytes) ≡ false → length bytes ≤ start i
      outside_le outside = ground arith
