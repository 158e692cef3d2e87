-- ===== src/Codec/Chmod/Bits.antt =====
-- The binary digits of `|`, `&` and `& !`.
use ferrosync.Base.{
  ℕ, zero, suc, ◌+◌, ◌*◌, ◌-◌, ◌/◌, ◌%◌, ◌<◌, ◌≤◌, min, ◌≡◌, ◌==◌, ap, ◌∙◌, refl, sym, Bool, false,
  not, ◌&&◌, ◌||◌, arith, bit_and, bit_or,
}
use Prim.Native.Nat.{digits, max, bit_or-bitwise, bit_and-bitwise}
use ferrosync.Codec.Format.{has_bit}
use ferrosync.Codec.Flags.Bits.{has_bit-zero}
use ferrosync.Codec.Chmod.{and_not}

low_digit : (n m : ℕ) → m < 2 → ((n * 2 + m) % 2 == 1) ≡ (m == 1)
low_digit n m h = ground arith

high_digits : (n m : ℕ) → m < 2 → (n * 2 + m) / 2 ≡ n
high_digits n m h = omega arith

-- `g` is what `f` does to one digit, and `z` to the digits above the first number's.
module _ (z : ℕ → ℕ) (f : ℕ → ℕ → ℕ) (g : Bool → Bool → Bool)
    (above : (b i : ℕ) → has_bit i (z b) ≡ g false (has_bit i b))
    (digit : (x y : ℕ) → x < 2 → y < 2 → (f x y < 2) × ((f x y == 1) ≡ g (x == 1) (y == 1))) where
  has_bit-digits :
      (fuel a b i : ℕ) → a ≤ fuel → has_bit i (digits z f fuel a b) ≡ g (has_bit i a) (has_bit i b)
  has_bit-digits zero zero b i h = above b i ∙ ap (λ x. g x (has_bit i b)) (sym (has_bit-zero i))
  has_bit-digits zero (suc a) b i h = absurd (omega arith)
  has_bit-digits (suc fuel) zero b i h =
      above b i ∙ ap (λ x. g x (has_bit i b)) (sym (has_bit-zero i))
  has_bit-digits (suc fuel) (suc a) b zero h =
      let d = digit (suc a % 2) (b % 2) (omega arith) (omega arith) in
      low_digit (digits z f fuel (suc a / 2) (b / 2)) (f (suc a % 2) (b % 2)) d.0 ∙ d.1
  has_bit-digits (suc fuel) (suc a) b (suc i) h =
      let d = digit (suc a % 2) (b % 2) (omega arith) (omega arith) in
      ap (has_bit i) (high_digits (digits z f fuel (suc a / 2) (b / 2)) (f (suc a % 2) (b % 2)) d.0)
      ∙ has_bit-digits fuel (suc a / 2) (b / 2) i (omega arith)

pub has_bit-or : (a b i : ℕ) → has_bit i (bit_or a b) ≡ (has_bit i a || has_bit i b)
has_bit-or a b i =
    ap (has_bit i) (λ j. bit_or-bitwise a b j)
    ∙ has_bit-digits (λ y. y) max ◌||◌ (λ y j. refl) or_digit a a b i (omega arith)
  where
    or_digit : (x y : ℕ) → x < 2 → y < 2 → (max x y < 2) × ((max x y == 1) ≡ ((x == 1) || (y == 1)))
    or_digit x y h k = (omega arith, ground arith)

pub has_bit-and : (a b i : ℕ) → has_bit i (bit_and a b) ≡ (has_bit i a && has_bit i b)
has_bit-and a b i =
    ap (has_bit i) (λ j. bit_and-bitwise a b j)
    ∙ has_bit-digits (λ y. 0) min ◌&&◌ (λ y j. has_bit-zero j) and_digit a a b i (omega arith)
  where
    and_digit :
        (x y : ℕ) → x < 2 → y < 2 → (min x y < 2) × ((min x y == 1) ≡ ((x == 1) && (y == 1)))
    and_digit x y h k = (omega arith, ground arith)

pub has_bit-and_not : (a b i : ℕ) → has_bit i (and_not a b) ≡ (has_bit i a && not (has_bit i b))
has_bit-and_not a b i =
    has_bit-digits (λ y. 0) (λ x y. x - y) (λ x y. x && not y) (λ y j. has_bit-zero j) not_digit a a
      b i (omega arith)
  where
    not_digit :
        (x y : ℕ) → x < 2 → y < 2 → (x - y < 2) × ((x - y == 1) ≡ ((x == 1) && not (y == 1)))
    not_digit x y h k = (omega arith, ground arith)
