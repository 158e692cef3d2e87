-- ===== src/Codec/Flags/Bits.antt =====
-- The accessors of the flag word against the decisions that it was made of.
use ferrosync.Base.{
  ℕ, zero, suc, ◌+◌, ◌*◌, ◌/◌, ◌<◌, ◌^◌, ◌≡◌, ap, ◌∙◌, Bool, true, false, List, [], ◌∷◌, length,
  get_or, arith, refl,
}
use native.Mathlib.Nat.{pow-suc}
use ferrosync.Codec.Format.{has_bit}
use ferrosync.Codec.Flags.{Choices, flag_num, word_of, flag_word, flag_bits}

half : (b : Bool) (n : ℕ) → (flag_num b + 2 * n) / 2 ≡ n
half true n = omega arith
half false n = omega arith

pub has_bit-zero : (i : ℕ) → has_bit i 0 ≡ false
has_bit-zero zero = refl
has_bit-zero (suc i) = has_bit-zero i

has_bit-word_of : (bs : List Bool) (i : ℕ) → has_bit i (word_of bs) ≡ get_or bs i false
has_bit-word_of [] i = has_bit-zero i
has_bit-word_of (true ∷ bs) zero = ground arith
has_bit-word_of (false ∷ bs) zero = ground arith
has_bit-word_of (b ∷ bs) (suc i) = ap (has_bit i) (half b (word_of bs)) ∙ has_bit-word_of bs i

word_of-lt : (bs : List Bool) → word_of bs < 2 ^ length bs
word_of-lt [] = omega arith
word_of-lt (true ∷ bs) = omega (arith, word_of-lt bs, pow-suc 2 (length bs))
word_of-lt (false ∷ bs) = omega (arith, word_of-lt bs, pow-suc 2 (length bs))

-- The bit `i` of the word.
pub has_bit-flag_word :
    (top : Bool) (c : Choices) (i : ℕ)
    → has_bit i (flag_word top c) ≡ get_or (flag_bits top c) i false
unfolding flag_word
has_bit-flag_word top c i = has_bit-word_of (flag_bits top c) i

pub flag_word-lt : (top : Bool) (c : Choices) → flag_word top c < 2 ^ 14
unfolding flag_word
flag_word-lt top c = word_of-lt (flag_bits top c)
