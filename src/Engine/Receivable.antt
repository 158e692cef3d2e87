-- ===== src/Engine/Receivable.antt =====
-- The receiver can take what the matcher emits for the signature of its basis.
use ferrosync.Base.{
  ℕ, zero, suc, ◌*◌, ◌^◌, ◌<◌, ◌≡◌, refl, ap, ap₂, sym, ◌∙◌, subst, ◌%◌, List, [], ◌∷◌, some,
  length, get_elem?, arith,
}
use ferrosync.Base.Int.{pos, i32_bits, i32_of_bits}
use ferrosync.Wire.Stream.{ok}
use native.Mathlib.Nat.{mul-div_cancel}
use mathlib.Core.Option.{some-injective}
use ferrosync.Delta.Context.{Hashes, ProtocolContext, checksum2}
use ferrosync.Delta.Sum.{SumEntry, SumStruct, as_usize}
use ferrosync.Delta.Ops.{DiffOp, literal, copy, block_index, slice_basis}
use ferrosync.Delta.Matcher.Emitted.{IsEmitted}
use ferrosync.Delta.Signatures.{compute_signatures}
use ferrosync.Delta.Signatures.Blocks.{last_length}
use ferrosync.Delta.Signatures.Sound.{IsSigning}
use ferrosync.Delta.Signatures.Signs.{
  IsSigning-get_elem?, IsSigning-end, IsMade, compute_signatures-IsMade, as_usize-i32_of_bits,
  as_usize-remainder,
}
use ferrosync.Engine.Receiver.Run.{IsReceivable}
use ferrosync.Engine.Receiver.Blocks.{matched_block-slice_basis}

elem_at : (i : ℕ) (es : List SumEntry) → i < length es → (e : SumEntry) × (get_elem? es i ≡ some e)
elem_at i [] h = absurd (omega arith)
elem_at zero (e ∷ es) h = (e, refl)
elem_at (suc i) (e ∷ es) h = elem_at i es (omega arith)

block_index-multiple :
    (i b n : ℕ) → i < 2 ^ 31 → block_index (record { offset = i * suc b; len = n }) (suc b) ≡ pos i
unfolding block_index
block_index-multiple i b n small =
    ap (λ (k : ℕ). i32_of_bits (k % 2 ^ 32)) (mul-div_cancel i {n = suc b} (omega arith))
    ∙ ground arith

-- The receiver can take a block that the matcher emitted.
module _ (hashes : Hashes) (ctx : ProtocolContext) (x : ℕ) (xs source : List ℕ) (b s2length : ℕ)
    (es : List SumEntry) where
  IsEmitted-IsReceivable :
      (op : DiffOp)
      → IsSigning hashes ctx (x ∷ xs) b s2length 0 es
      → suc b < 2 ^ 31
      → suc (length es) < 2 ^ 31
      → IsEmitted
          (checksum2 hashes ctx)
          source
          es
          (suc b)
          s2length
          (length es)
          (last_length (length (x ∷ xs)) (suc b))
          op
      → IsReceivable (x ∷ xs) (suc b) op
  IsEmitted-IsReceivable (literal bytes) signing small few h = tt
  IsEmitted-IsReceivable (copy r) signing small few (i, inside, at, long) =
      let (e, found) = elem_at i es inside in
      let (low, signed) =
        IsSigning-get_elem? hashes ctx (x ∷ xs) b s2length 0 i es e signing found in
      (
        i,
        omega arith,
        ap (λ (o : ℕ). block_index (record { offset = o; len = r.len }) (suc b)) at
            ∙ block_index-multiple i b r.len (omega arith),
        matched_block-slice_basis x xs b i (length es) small (omega arith) (omega (arith, low))
              (omega (arith, IsSigning-end hashes ctx (x ∷ xs) b s2length 0 es signing))
            ∙ ap (λ bs. ok bs) (ap₂ (slice_basis (x ∷ xs)) (sym at) (sym long)),
      )

-- What the matcher says of its operations, for the numbers of a signature.
abbrev IsEmittedFor : Hashes → ProtocolContext → List ℕ → SumStruct → DiffOp → Type 0
IsEmittedFor hashes ctx source s =
    IsEmitted (checksum2 hashes ctx) source s.sums (as_usize s.head.blength)
      (as_usize s.head.s2length) (as_usize s.head.count) (as_usize s.head.remainder)

IsMade-IsReceivable :
    (hashes : Hashes) (ctx : ProtocolContext) (x : ℕ) (xs source : List ℕ) (s : SumStruct)
    (op : DiffOp)
    → IsMade hashes ctx (x ∷ xs) s
    → as_usize s.head.blength < 2 ^ 31
    → suc (length s.sums) < 2 ^ 31
    → IsEmittedFor hashes ctx source s op
    → IsReceivable (x ∷ xs) (as_usize s.head.blength) op
IsMade-IsReceivable hashes ctx x xs source s op (b, s2length, es, signing, shape) small few h =
    subst (λ t. IsReceivable (x ∷ xs) (as_usize t.head.blength) op) shape
      (IsEmitted-IsReceivable hashes ctx x xs source b s2length es op signing
        (subst (λ t. as_usize t.head.blength < 2 ^ 31) (sym shape) small) (few_entries)
        (subst
          (λ (c : ℕ).
            IsEmitted (checksum2 hashes ctx) source es (suc b) s2length c
              (last_length (length (x ∷ xs)) (suc b)) op)
          (as_usize-i32_of_bits (length es) (omega (arith, few_entries)))
          (subst
            (λ (r : ℕ).
              IsEmitted (checksum2 hashes ctx) source es (suc b) s2length
                (as_usize (i32_of_bits (length es % 2 ^ 32))) r op)
            (as_usize-remainder (length (x ∷ xs) % suc b) (suc b))
            (subst (λ t. IsEmittedFor hashes ctx source t op) (sym shape) h))))
  where
    few_entries : suc (length es) < 2 ^ 31
    few_entries = subst (λ t. suc (length t.sums) < 2 ^ 31) (sym shape) few

pub compute_signatures-IsReceivable :
    (hashes : Hashes) (ctx : ProtocolContext) (basis source : List ℕ) (s : SumStruct) (op : DiffOp)
    → compute_signatures hashes ctx basis ≡ some s
    → as_usize s.head.blength < 2 ^ 31
    → suc (length s.sums) < 2 ^ 31
    → IsEmittedFor hashes ctx source s op
    → IsReceivable basis (as_usize s.head.blength) op
unfolding compute_signatures
compute_signatures-IsReceivable hashes ctx (x ∷ xs) source s op made small few h =
    IsMade-IsReceivable hashes ctx x xs source s op
      (compute_signatures-IsMade hashes ctx x xs s made) small few h
compute_signatures-IsReceivable hashes ctx [] source s (literal bytes) made small few h = tt
compute_signatures-IsReceivable hashes ctx [] source s (copy r) made small few
      (i, inside, at, long) =
    absurd (omega (arith, subst (λ t. i < length t.sums) (sym (some-injective _ _ made)) inside))

-- A block length is sent as the unsigned number that it is.
pub compute_signatures-blength :
    (hashes : Hashes) (ctx : ProtocolContext) (basis : List ℕ) (s : SumStruct)
    → compute_signatures hashes ctx basis ≡ some s
    → as_usize s.head.blength < 2 ^ 31
    → i32_bits s.head.blength ≡ as_usize s.head.blength
unfolding compute_signatures
compute_signatures-blength hashes ctx [] s made small =
    subst (λ t. i32_bits t.head.blength ≡ as_usize t.head.blength) (some-injective _ _ made)
      (omega arith)
compute_signatures-blength hashes ctx (x ∷ xs) s made small =
    let (b, s2length, es, signing, shape) = compute_signatures-IsMade hashes ctx x xs s made in
    subst
      (λ t. as_usize t.head.blength < 2 ^ 31 → i32_bits t.head.blength ≡ as_usize t.head.blength)
      shape (λ (h : suc b < 2 ^ 31). small_bits b h) small
  where
    small_bits : (b : ℕ) → suc b < 2 ^ 31 → i32_bits (pos (suc b)) ≡ as_usize (pos (suc b))
    small_bits b h = omega (arith, h)
