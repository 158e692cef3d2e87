-- ===== src/Wire/Varlong/Format.antt =====
-- The bytes of a varlong in plain arithmetic, by the count of extra bytes.
use ferrosync.Base.{
  ℕ, suc, ◌+◌, ◌-◌, ◌*◌, ◌/◌, ◌^◌, ◌<◌, ◌≤◌, ◌≡◌, ◌≢◌, inl, inr, refl, ap, ap₂, ◌∙◌, List, ◌∷◌,
  ◌==◌, ==_iff, le→leb, lt→leb, lt→ltb, get_or, take, bit_and, bit_or, arith, Bool, true,
}
use ferrosync.Base.Bytes.{every_below_sound, every_below, le_bytes}
use ferrosync.Wire.Varint.{extra_bytes}
use ferrosync.Wire.Varlong.{write_varlong_bits, pack_varlong}
use ferrosync.Wire.Varlong.Bytes.{
  get_or-le_bytes, take-le_bytes, take-set, div_pow_last, top_index-le_bytes,
}
use native.Mathlib.Nat.{suc-sub-suc, pow-le-pow_right, add-suc}
use native.Mathlib.Numerals.{add-one}
use native.Mathlib.Decide.{ℕ_discrete}

-- The leading ones of a first byte with `k` extra bytes.
abbrev pub prefix : ℕ → ℕ
prefix k = 255 - (2 ^ (8 - k) - 1)

-- With `m` low bytes and `k` extra bytes the first byte holds what the others leave.
abbrev pub varlong_format : ℕ → ℕ → ℕ → List ℕ
varlong_format m k n = (n / 256 ^ (m + k) + prefix k) ∷ le_bytes (m + k) n

-- A test on every count `k` of extra bytes below `c` and every value `b` that fits beside its prefix.
abbrev every_first : ℕ → (ℕ → ℕ → Bool) → Bool
every_first c p = every_below c (λ k. every_below (2 ^ (7 - k)) (p k))

every_first_sound :
    (c : ℕ) (p : ℕ → ℕ → Bool) (k b : ℕ)
    → every_first c p ≡ true
    → k < c
    → b < 2 ^ (7 - k)
    → p k b ≡ true
every_first_sound c p k b e h l =
    every_below_sound _ (p k) b (every_below_sound c (λ j. every_below (2 ^ (7 - j)) (p j)) k e h) l

abbrev merge_test : ℕ → ℕ → Bool
merge_test k b = bit_or b (255 - (2 ^ (7 - k) * 2 - 1)) == b + prefix k

merge_table : every_first 7 (λ k. merge_test (suc k)) ≡ true
unfolding every_below
merge_table = refl

abbrev extra_test : ℕ → ℕ → Bool
extra_test k b = extra_bytes (b + prefix k) == k

extra_table : every_first 7 extra_test ≡ true
unfolding every_below extra_bytes
extra_table = refl

abbrev mask_test : ℕ → ℕ → Bool
mask_test k b = bit_and (b + prefix k) (2 ^ (7 - k + 1) - 1) == b

mask_table : every_first 8 mask_test ≡ true
unfolding every_below
mask_table = refl

-- `pack_varlong` on a buffer `0 ∷ le` with `top` at the index `suc i`, `w` above the minimum.
module _ (m i w top : ℕ) (le : List ℕ) (e : get_or le i 0 ≡ top) (d : i - m ≡ w) where
  -- The top byte does not fit under the prefix: one more byte.
  pack_spill :
      2 ^ (7 - w) ≤ top
      → pack_varlong (suc m) (0 ∷ le) (suc i) ≡ (255 - (2 ^ (7 - w) - 1)) ∷ take (suc i) le
  unfolding pack_varlong
  pack_spill h = rw (suc-sub-suc, d, e, le→leb _ _ h, add-one)

  -- The top byte goes into the prefix.
  pack_merge :
      m < i
      → top < 2 ^ (7 - w)
      → pack_varlong (suc m) (0 ∷ le) (suc i) ≡ bit_or top (255 - (2 ^ (7 - w) * 2 - 1)) ∷ take i le
  unfolding pack_varlong
  pack_merge lt h =
      rw (suc-sub-suc, d, e, lt→leb _ _ h, lt→ltb (suc m) (suc i) (omega arith), take-set i 0 le)

-- The value fits the minimum.
pack_plain :
    (m top : ℕ) (le : List ℕ)
    → get_or le m 0 ≡ top
    → top < 128
    → pack_varlong (suc m) (0 ∷ le) (suc m) ≡ top ∷ take m le
unfolding pack_varlong
pack_plain m top le e h = ground (arith, suc-sub-suc m m, take-set m 0 le)

pub two_pow_le : (a b : ℕ) → a ≤ b → 2 ^ a ≤ 2 ^ b
two_pow_le a b h = pow-le-pow_right (omega arith) h

top_byte : (i n : ℕ) → i < 8 → n / 256 ^ i < 256 → get_or (le_bytes 8 n) i 0 ≡ n / 256 ^ i
top_byte i n hi small = omega (arith, get_or-le_bytes i 8 n hi)

div_pow_next : (i n : ℕ) → n / 256 ^ i < 256 → n / 256 ^ suc i ≡ 0
div_pow_next i n h = omega (arith, div_pow_last i n)

-- A value that the minimum holds has no extra bytes.
pub write_varlong_none :
    (m n : ℕ)
    → m < 8
    → n / 256 ^ m < 2 ^ 7
    → write_varlong_bits n (suc m) ≡ n / 256 ^ m ∷ le_bytes m n
unfolding write_varlong_bits
write_varlong_none m n hm h =
    ap (pack_varlong (suc m) (0 ∷ le_bytes 8 n))
      (top_index-le_bytes m m n (omega arith) hm (div_pow_next m n (omega arith)) (inl refl))
    ∙ pack_plain m _ (le_bytes 8 n) (top_byte m n hm (omega arith)) h
    ∙ ap (λ (l : List ℕ). n / 256 ^ m ∷ l) (take-le_bytes m 8 n (omega arith))

module _ (m j n : ℕ) (hi : m + j < 7) where
  -- The loop stops one place lower, and the byte there spills into one of its own.
  write_spill :
      n / 256 ^ suc (m + j) ≡ 0
      → 2 ^ (7 - j) ≤ n / 256 ^ (m + j)
      → write_varlong_bits n (suc m) ≡ (255 - (2 ^ (7 - j) - 1)) ∷ le_bytes (suc (m + j)) n
  unfolding write_varlong_bits
  write_spill z h =
      ap (pack_varlong (suc m) (0 ∷ le_bytes 8 n)) (
        top_index-le_bytes m (m + j) n (omega arith) (omega arith) z
          (inr (omega (arith, two_pow_le 0 (7 - j)))))
      ∙ pack_spill m (m + j) j _ (le_bytes 8 n)
          (top_byte (m + j) n (omega arith) (omega (arith, div_pow_last (m + j) n))) (omega arith) h
      ∙ ap (λ (l : List ℕ). (255 - (2 ^ (7 - j) - 1)) ∷ l)
          (take-le_bytes (suc (m + j)) 8 n (omega arith))

  -- The loop stops at a byte that fits beside the prefix.
  write_merge :
      n / 256 ^ suc (m + j) ≢ 0
      → n / 256 ^ suc (m + j) < 2 ^ (7 - suc j)
      → write_varlong_bits n (suc m)
        ≡ (n / 256 ^ suc (m + j) + prefix (suc j)) ∷ le_bytes (suc (m + j)) n
  unfolding write_varlong_bits
  write_merge z h =
      ap (pack_varlong (suc m) (0 ∷ le_bytes 8 n)) (
        top_index-le_bytes m (suc (m + j)) n (omega arith) (omega arith)
          (div_pow_next (suc (m + j)) n small) (inr z))
      ∙ pack_merge m (suc (m + j)) (suc j) _ (le_bytes 8 n)
          (top_byte (suc (m + j)) n (omega arith) small) (omega arith) (omega arith) h
      ∙ ap₂ (λ (b : ℕ) (l : List ℕ). b ∷ l) merged (take-le_bytes (suc (m + j)) 8 n (omega arith))
    where
      small : n / 256 ^ suc (m + j) < 256
      small = omega (arith, two_pow_le (7 - suc j) 7)

      merged :
          bit_or (n / 256 ^ suc (m + j)) (255 - (2 ^ (7 - suc j) * 2 - 1))
          ≡ n / 256 ^ suc (m + j) + prefix (suc j)
      merged = (==_iff _ _).0 (
          every_first_sound 7 (λ k. merge_test (suc k)) j _ merge_table (omega arith)
            (omega (arith, two_pow_le (7 - suc j) (7 - j))))

  -- With `suc j` extra bytes, no fewer: the two cases give the same bytes.
  write_varlong_extra :
      2 ^ (7 - j) ≤ n / 256 ^ (m + j)
      → n / 256 ^ suc (m + j) < 2 ^ (7 - suc j)
      → write_varlong_bits n (suc m)
        ≡ (n / 256 ^ suc (m + j) + prefix (suc j)) ∷ le_bytes (suc (m + j)) n
  write_varlong_extra h k = elim (ℕ_discrete (n / 256 ^ suc (m + j)) 0) [
    | yes z ↦
        write_spill z h
        ∙ ap (λ (b : ℕ). b ∷ le_bytes (suc (m + j)) n)
            (omega (arith, z, ap (λ (e : ℕ). 2 ^ e) eight))
    | no z ↦ write_merge z k
  ]
    where
      eight : 7 - j ≡ 8 - suc j
      eight = omega arith

-- A value that is too wide for 7 further bytes takes all eight, behind a prefix alone.
pub write_varlong_wide :
    (m n : ℕ)
    → m < 8
    → n < 2 ^ 64
    → 2 ^ m ≤ n / 256 ^ 7
    → write_varlong_bits n (suc m) ≡ (255 - (2 ^ m - 1)) ∷ le_bytes 8 n
unfolding write_varlong_bits
write_varlong_wide m n hm hn h =
    ap (pack_varlong (suc m) (0 ∷ le_bytes 8 n)) (
      top_index-le_bytes m 7 n (omega arith) (omega arith) (omega arith)
        (inr (omega (arith, two_pow_le 0 m))))
    ∙ pack_spill m 7 (7 - m) _ (le_bytes 8 n) (top_byte 7 n (omega arith) (omega arith)) refl
        (rw seven h)
    ∙ ap (λ (e : ℕ). (255 - (2 ^ e - 1)) ∷ le_bytes 8 n) seven
  where
    seven : 7 - (7 - m) ≡ m
    seven = omega arith

-- The first byte of a value with `k` extra bytes tells `k`, and its low bits hold the top of it.
module _ (k b : ℕ) (h : b < 2 ^ (7 - k)) where
  pub extra_bytes-first : k < 7 → extra_bytes (b + prefix k) ≡ k
  extra_bytes-first l = (==_iff _ k).0 (every_first_sound 7 extra_test k b extra_table l h)

  pub mask_first : k < 8 → bit_and (b + prefix k) (2 ^ (7 - k + 1) - 1) ≡ b
  mask_first l = (==_iff _ b).0 (every_first_sound 8 mask_test k b mask_table l h)

-- With `suc j` extra bytes where `j` are too few, `write_varlong` writes the plain format.
pub write_varlong-format :
    (m j n : ℕ)
    → m + j < 7
    → 2 ^ (7 - j) ≤ n / 256 ^ (m + j)
    → n / 256 ^ (m + suc j) < 2 ^ (7 - suc j)
    → write_varlong_bits n (suc m) ≡ varlong_format m (suc j) n
write_varlong-format m j n hi h k = rw add-suc (write_varlong_extra m j n hi h (rw add-suc at k))
