-- ===== src/Delta/Signatures/Blocks.antt =====
-- The blocks that the matcher and the receiver copy are those that the signature was made of.
use ferrosync.Base.{
  ℕ, suc, ◌+◌, ◌-◌, ◌*◌, ◌%◌, ◌^◌, ◌≤◌, ◌<◌, ◌≡◌, ◌≢◌, ◌⊎◌, ap, sym, ◌∙◌, subst, List, Bool-cases,
  inl, inr, if_true, if_false, true, false, ltb, lt→ltb, ◌==◌, ==_iff, ◌&&◌, length, take, drop,
  min, arith, if◌then◌else◌,
}
use native.Mathlib.Nat.{add-mul-mod_self_right, mod-eq_of_lt, mod_self}
use ferrosync.Delta.Ops.{slice_basis}
use ferrosync.Delta.Matcher.{block_byte_length}
use ferrosync.Delta.Signatures.{block_of}

-- The length of the last block.
abbrev pub last_length : ℕ → ℕ → ℕ
last_length n b = if n % b == 0 then b else n % b

-- Block `j`, of at most `suc b` bytes, is not the whole list's end or ends it with the remainder.
mod_last :
    (n b j : ℕ) → j * suc b < n → n ≤ j * suc b + suc b → n % suc b ≢ 0 → n % suc b ≡ n - j * suc b
mod_last n b j low high other = elim (Bool-cases (n - j * suc b == suc b)) [
  | inl full ↦
      absurd (other (shifted ∙ ap (λ (k : ℕ). k % suc b) ((==_iff _ _).0 full) ∙ mod_self (suc b)))
  | inr part ↦ shifted ∙ mod-eq_of_lt (shorter part)
]
  where
    rest : n ≡ n - j * suc b + j * suc b
    rest = omega arith

    shifted : n % suc b ≡ (n - j * suc b) % suc b
    shifted = ap (λ (k : ℕ). k % suc b) rest ∙ add-mul-mod_self_right (n - j * suc b) j (suc b)

    shorter : (n - j * suc b == suc b) ≡ false → n - j * suc b < suc b
    shorter part = ground arith

last_length_short : (n b : ℕ) → last_length n b < b → (n % b ≢ 0) × (last_length n b ≡ n % b)
last_length_short n b h = elim (Bool-cases (n % b == 0)) [
  | inl whole ↦ absurd (tight whole)
  | inr part ↦ ((λ e. differ part e), if_false _ _ part)
]
  where
    tight : (n % b == 0) ≡ true → ⊥
    tight whole = ground arith

    differ : (n % b == 0) ≡ false → n % b ≡ 0 → ⊥
    differ part e = ground arith

pub block_byte_length_cases :
    (idx b count remainder : ℕ)
    → b < 2 ^ 32
    → (block_byte_length idx b count remainder ≡ b)
      ⊎ ((idx + 1 ≡ count)
          × (remainder < b)
          × (block_byte_length idx b count remainder ≡ remainder))
unfolding block_byte_length
block_byte_length_cases idx b count remainder small =
    elim (Bool-cases (ltb 0 count && (idx == count - 1) && ltb 0 remainder && ltb remainder b)) [
      | inl short ↦ inr (last short, less short, if_true _ _ short ∙ narrow short)
      | inr whole ↦ inl (if_false _ _ whole ∙ omega arith)
    ]
  where
    last :
        (ltb 0 count && (idx == count - 1) && ltb 0 remainder && ltb remainder b) ≡ true
        → idx + 1 ≡ count
    last short = ground arith

    less :
        (ltb 0 count && (idx == count - 1) && ltb 0 remainder && ltb remainder b) ≡ true
        → remainder < b
    less short = ground arith

    narrow :
        (ltb 0 count && (idx == count - 1) && ltb 0 remainder && ltb remainder b) ≡ true
        → remainder % 2 ^ 32 ≡ remainder
    narrow short = omega (arith, less short)

copied_length :
    (n b j count : ℕ)
    → j * suc b < n
    → n ≤ count * suc b
    → suc b < 2 ^ 32
    → min (j * suc b + block_byte_length j (suc b) count (last_length n (suc b))) n
      ≡ min (j * suc b + suc b) n
copied_length n b j count low high small =
    elim (block_byte_length_cases j (suc b) count (last_length n (suc b)) small) [
      | inl whole ↦ ap (λ (k : ℕ). min (j * suc b + k) n) whole
      | inr (last, less, part) ↦
          let (other, remains) = last_length_short n (suc b) less in
          ap (λ (k : ℕ). min (j * suc b + k) n)
            (part ∙ remains ∙ mod_last n b j low (near last) other)
          ∙ ends (near last)
    ]
  where
    near : j + 1 ≡ count → n ≤ j * suc b + suc b
    near last =
        let at : n ≤ (j + 1) * suc b = subst (λ (c : ℕ). n ≤ c * suc b) (sym last) high in
        omega (arith, at)

    ends : n ≤ j * suc b + suc b → min (j * suc b + (n - j * suc b)) n ≡ min (j * suc b + suc b) n
    ends close = omega arith

-- The bytes that a copy of block `j` takes are the block's.
pub slice_basis-block_of :
    (bytes : List ℕ) (b j count : ℕ)
    → j * suc b < length bytes
    → length bytes ≤ count * suc b
    → suc b < 2 ^ 32
    → slice_basis bytes
        (j * suc b)
        (block_byte_length j (suc b) count (last_length (length bytes) (suc b)))
      ≡ block_of bytes (j * suc b) (min (j * suc b + suc b) (length bytes))
unfolding slice_basis
slice_basis-block_of bytes b j count low high small =
    if_true _ _ (lt→ltb (j * suc b) (length bytes) low)
    ∙ ap (λ (n : ℕ). take (n - j * suc b) (drop (j * suc b) bytes))
        (copied_length (length bytes) b j count low high small)
