-- ===== src/Delta/Signatures/Signs.antt =====
-- What `compute_signatures` makes is a signature as the matcher needs it.
use ferrosync.Base.{
  ℕ, zero, suc, ◌+◌, ◌*◌, ◌%◌, ◌^◌, ◌≤◌, ◌<◌, ◌≡◌, refl, ap, sym, ◌∙◌, subst, List, [], ◌∷◌, Option,
  none, some, Bool-cases, inl, inr, ◌==◌, length, take, min, get_elem?, arith, if◌then◌else◌,
}
use ferrosync.Base.Int.{ℤ, pos, negsuc, i32_of_bits}
use mathlib.Core.Option.{some-injective}
use ferrosync.Delta.Context.{Hashes, ProtocolContext, checksum2}
use ferrosync.Delta.Rolling.{checksum1}
use ferrosync.Delta.Sum.{SumEntry, SumStruct, as_usize}
use ferrosync.Delta.Matcher.Step.{Signs, basis_block}
use ferrosync.Delta.Signatures.{
  sign_loop, with_head, signature_of, empty_signature, sign_with, compute_signatures,
  compute_s2length,
}
use ferrosync.Delta.Signatures.Blocks.{last_length, slice_basis-block_of}
use ferrosync.Delta.Signatures.Sound.{IsSigning, IsSigned, file_block, sign_loop-IsSigning}

module _ (hashes : Hashes) (ctx : ProtocolContext) (bytes : List ℕ) (b s2length : ℕ) where
  pub IsSigning-get_elem? :
      (i j : ℕ) (es : List SumEntry) (e : SumEntry)
      → IsSigning hashes ctx bytes b s2length i es
      → get_elem? es j ≡ some e
      → ((i + j) * suc b < length bytes) × IsSigned hashes ctx bytes b s2length (i + j) e
  IsSigning-get_elem? i j [] e h at = ground arith
  IsSigning-get_elem? i zero (x ∷ es) e (inside, signed, rest) at =
      let here : i ≡ i + zero = omega arith in
      (
        subst (λ (k : ℕ). k * suc b < length bytes) here inside,
        subst (λ (k : ℕ). IsSigned hashes ctx bytes b s2length k e) here
            (subst (IsSigned hashes ctx bytes b s2length i) (some-injective _ _ at) signed),
      )
  IsSigning-get_elem? i (suc j) (x ∷ es) e (inside, signed, rest) at =
      let next : suc i + j ≡ i + suc j = omega arith in
      subst (λ (k : ℕ). (k * suc b < length bytes) × IsSigned hashes ctx bytes b s2length k e) next
        (IsSigning-get_elem? (suc i) j es e rest at)

  pub IsSigning-end :
      (i : ℕ) (es : List SumEntry)
      → IsSigning hashes ctx bytes b s2length i es
      → length bytes ≤ (i + length es) * suc b
  IsSigning-end i [] h = subst (λ (k : ℕ). length bytes ≤ k * suc b) (omega arith) h
  IsSigning-end i (e ∷ es) (inside, signed, rest) =
      subst (λ (k : ℕ). length bytes ≤ k * suc b) (omega arith) (IsSigning-end (suc i) es rest)

  Signs-IsSigning :
      (source : List ℕ) (es : List SumEntry)
      → suc b < 2 ^ 32
      → IsSigning hashes ctx bytes b s2length 0 es
      → Signs
          (checksum2 hashes ctx)
          bytes
          source
          es
          (suc b)
          s2length
          (length es)
          (last_length (length bytes) (suc b))
          ctx.char_offset
  Signs-IsSigning source es small signing i entry at =
      let (inside, signed) = IsSigning-get_elem? 0 i es entry signing at in
      let (weak, strong, fits, plain) =
        subst (λ (k : ℕ). IsSigned hashes ctx bytes b s2length k entry) start signed in
      (
        weak ∙ ap (λ xs. checksum1 xs ctx.char_offset) (sym (same inside)),
        strong
            ∙ ap
                (λ (k : ℕ).
                  take k (checksum2 hashes ctx (file_block hashes ctx bytes b s2length i)))
                (cut fits)
            ∙ ap
                (λ xs.
                  take (min s2length (length (checksum2 hashes ctx xs))) (checksum2 hashes ctx xs))
                (sym (same inside)),
      )
    where
      start : 0 + i ≡ i
      start = omega arith

      cut :
          s2length ≤ length (checksum2 hashes ctx (file_block hashes ctx bytes b s2length i))
          → s2length
            ≡ min s2length
                (length (checksum2 hashes ctx (file_block hashes ctx bytes b s2length i)))
      cut fits = omega arith

      same :
          (0 + i) * suc b < length bytes
          → basis_block
              (checksum2 hashes ctx)
              bytes
              source
              es
              (suc b)
              s2length
              (length es)
              (last_length (length bytes) (suc b))
              ctx.char_offset
              i
            ≡ file_block hashes ctx bytes b s2length i
      same inside =
          slice_basis-block_of bytes b i (length es)
            (subst (λ (k : ℕ). k * suc b < length bytes) start inside)
            (subst (λ (k : ℕ). length bytes ≤ k * suc b) (omega arith) (IsSigning-end 0 es signing))
            small

pub as_usize-i32_of_bits : (n : ℕ) → n < 2 ^ 31 → as_usize (i32_of_bits (n % 2 ^ 32)) ≡ n
as_usize-i32_of_bits n h = ground arith

pub as_usize-remainder :
    (r b : ℕ) → as_usize (if r == 0 then pos b else pos r) ≡ (if r == 0 then b else r)
as_usize-remainder r b = elim (Bool-cases (r == 0)) [
  | inl whole ↦ rw (whole) refl
  | inr part ↦ rw (part) refl
]

-- The hypothesis of the matcher, for a signature as it is sent.
abbrev pub IsSignatureOf : Hashes → ProtocolContext → List ℕ → List ℕ → SumStruct → Type 0
IsSignatureOf hashes ctx basis source s =
    Signs (checksum2 hashes ctx) basis source s.sums (as_usize s.head.blength)
      (as_usize s.head.s2length) (as_usize s.head.count) (as_usize s.head.remainder) ctx.char_offset

with_head-some :
    (blength : ℤ) (s2length n : ℕ) (made : Option (List SumEntry)) (s : SumStruct)
    → with_head blength s2length n made ≡ some s
    → (es : List SumEntry) × (made ≡ some es) × (signature_of blength s2length n es ≡ s)
with_head-some blength s2length n none s h = ground arith
with_head-some blength s2length n (some es) s h = (es, refl, some-injective _ _ h)

signature_of-IsSignatureOf :
    (hashes : Hashes) (ctx : ProtocolContext) (bytes source : List ℕ) (b s2length : ℕ)
    (es : List SumEntry)
    → suc b < 2 ^ 32
    → length es < 2 ^ 31
    → IsSigning hashes ctx bytes b s2length 0 es
    → IsSignatureOf hashes ctx bytes source (signature_of (pos (suc b)) s2length (length bytes) es)
signature_of-IsSignatureOf hashes ctx bytes source b s2length es small few signing =
    subst
      (λ (r : ℕ).
        Signs (checksum2 hashes ctx) bytes source es (suc b) s2length
          (as_usize (i32_of_bits (length es % 2 ^ 32))) r ctx.char_offset)
      (sym (as_usize-remainder (length bytes % suc b) (suc b)))
      (subst
        (λ (c : ℕ).
          Signs (checksum2 hashes ctx) bytes source es (suc b) s2length c
            (last_length (length bytes) (suc b)) ctx.char_offset)
        (sym (as_usize-i32_of_bits (length es) few))
        (Signs-IsSigning hashes ctx bytes b s2length source es small signing))

-- A signature of a file that is not empty: its block length is `suc b`, and its entries are those of
-- the file's blocks.
abbrev pub IsMade : Hashes → ProtocolContext → List ℕ → SumStruct → Type 0
IsMade hashes ctx bytes s =
    (b : ℕ) × (s2length : ℕ) × (es : List SumEntry) × IsSigning hashes ctx bytes b s2length 0 es
    × (signature_of (pos (suc b)) s2length (length bytes) es ≡ s)

pub sign_with-IsMade :
    (hashes : Hashes) (ctx : ProtocolContext) (blength : ℤ) (bytes : List ℕ) (s : SumStruct)
    → sign_with hashes ctx blength bytes ≡ some s
    → IsMade hashes ctx bytes s
sign_with-IsMade hashes ctx (pos zero) bytes s made = ground arith
sign_with-IsMade hashes ctx (negsuc n) bytes s made = ground arith
sign_with-IsMade hashes ctx (pos (suc b)) bytes s made =
    let (es, looped, shape) = with_head-some _ _ _ _ s made in
    (
      b,
      _,
      es,
      sign_loop-IsSigning hashes ctx bytes b _ (suc (length bytes)) 0 es (
          ap
            (sign_loop hashes ctx bytes (suc b) (compute_s2length (length bytes) (suc b))
              (suc (length bytes)))
            at_start
          ∙ looped),
      shape,
    )
  where
    at_start : 0 * suc b ≡ 0
    at_start = omega arith

pub compute_signatures-IsMade :
    (hashes : Hashes) (ctx : ProtocolContext) (x : ℕ) (bytes : List ℕ) (s : SumStruct)
    → compute_signatures hashes ctx (x ∷ bytes) ≡ some s
    → IsMade hashes ctx (x ∷ bytes) s
unfolding compute_signatures
compute_signatures-IsMade hashes ctx x bytes s made =
    sign_with-IsMade hashes ctx _ (x ∷ bytes) s made

IsMade-IsSignatureOf :
    (hashes : Hashes) (ctx : ProtocolContext) (bytes source : List ℕ) (s : SumStruct)
    → IsMade hashes ctx bytes s
    → as_usize s.head.blength < 2 ^ 32
    → length s.sums < 2 ^ 31
    → IsSignatureOf hashes ctx bytes source s
IsMade-IsSignatureOf hashes ctx bytes source s (b, s2length, es, signing, shape) small few =
    subst (IsSignatureOf hashes ctx bytes source) shape (
      signature_of-IsSignatureOf hashes ctx bytes source b _ es
        (subst (λ t. as_usize t.head.blength < 2 ^ 32) (sym shape) small)
        (subst (λ t. length t.sums < 2 ^ 31) (sym shape) few) signing)

-- What `compute_signatures` makes of a basis has, for each block of the basis that a copy takes, its
-- rolling checksum and the front of its strong one, if it has fewer than 2^31 entries and its block
-- length is below 2^32.
pub compute_signatures-IsSignatureOf :
    (hashes : Hashes) (ctx : ProtocolContext) (bytes source : List ℕ) (s : SumStruct)
    → compute_signatures hashes ctx bytes ≡ some s
    → as_usize s.head.blength < 2 ^ 32
    → length s.sums < 2 ^ 31
    → IsSignatureOf hashes ctx bytes source s
unfolding compute_signatures
compute_signatures-IsSignatureOf hashes ctx [] source s made small few =
    subst (IsSignatureOf hashes ctx [] source) (some-injective _ _ made) empty_signs
  where
    empty_signs : IsSignatureOf hashes ctx [] source empty_signature
    empty_signs i entry at = ground arith
compute_signatures-IsSignatureOf hashes ctx (x ∷ bytes) source s made small few =
    IsMade-IsSignatureOf hashes ctx (x ∷ bytes) source s
      (compute_signatures-IsMade hashes ctx x bytes s made) small few
