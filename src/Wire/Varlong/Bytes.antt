-- ===== src/Wire/Varlong/Bytes.antt =====
-- The bytes of a word by their places, and where the loop of `write_varlong` stops.
use ferrosync.Base.{
  ℕ, zero, suc, ◌+◌, ◌/◌, ◌%◌, ◌^◌, ◌<◌, ◌≤◌, ◌≡◌, ◌≢◌, ◌⊎◌, inl, inr, refl, sym, ap, ◌∙◌, List, [],
  ◌∷◌, ◌++◌, arith, get_or, set, take,
}
use ferrosync.Base.Bytes.{le_bytes, from_le_bytes}
use ferrosync.Wire.Varint.{top_index}
use native.Mathlib.Nat.{div-div-eq-div-mul, pow-succ', pow-suc, zero-add, suc-add}
use native.Mathlib.Decide.{ℕ_discrete}

-- `n / 256 ^ (j + 1)` by steps.
pub div_pow_suc : (j n : ℕ) → n / 256 ^ suc j ≡ n / 256 / 256 ^ j
div_pow_suc j n = ap (λ (d : ℕ). n / d) (pow-succ' 256 j) ∙ sym (div-div-eq-div-mul n 256 (256 ^ j))

pub get_or-le_bytes : (i k n : ℕ) → i < k → get_or (le_bytes k n) i 0 ≡ n / 256 ^ i % 256
get_or-le_bytes i zero n h = absurd (omega arith)
get_or-le_bytes zero (suc k) n h = omega arith
get_or-le_bytes (suc i) (suc k) n h =
    get_or-le_bytes i k (n / 256) (omega arith) ∙ ap (λ (d : ℕ). d % 256) (sym (div_pow_suc i n))

pub take-le_bytes : (t k n : ℕ) → t ≤ k → take t (le_bytes k n) ≡ le_bytes t n
take-le_bytes zero k n h = refl
take-le_bytes (suc t) zero n h = absurd (omega arith)
take-le_bytes (suc t) (suc k) n h =
    ap (λ (l : List ℕ). n % 256 ∷ l) (take-le_bytes t k (n / 256) (omega arith))

pub take-set : (t : ℕ) (v : ℕ) (b : List ℕ) → take t (set b t v) ≡ take t b
take-set zero v b = refl
take-set (suc t) v [] = refl
take-set (suc t) v (x ∷ b) = ap (λ (l : List ℕ). x ∷ l) (take-set t v b)

-- The low groups of `n` and the rest of `n` make `n`.
pub from_le_bytes_split : (j n : ℕ) → from_le_bytes (le_bytes j n ++ (n / 256 ^ j) ∷ []) ≡ n
from_le_bytes_split zero n = omega arith
from_le_bytes_split (suc j) n = rw div_pow_suc (omega (arith, from_le_bytes_split j (n / 256)))

pub le_bytes-add : (m k n : ℕ) → le_bytes (m + k) n ≡ le_bytes m n ++ le_bytes k (n / 256 ^ m)
le_bytes-add zero k n = rw zero-add (ap (le_bytes k) (omega arith))
le_bytes-add (suc m) k n =
    rw (suc-add, div_pow_suc) (ap (λ (l : List ℕ). n % 256 ∷ l) (le_bytes-add m k (n / 256)))

-- The loop stops at the highest index that is not zero, or at `low`.
pub top_index_lem :
    (low t c : ℕ) (b : List ℕ)
    → low ≤ t
    → t ≤ c
    → (low ≡ t) ⊎ (get_or b t 0 ≢ 0)
    → ((j : ℕ) → t < j → j ≤ c → get_or b j 0 ≡ 0)
    → top_index low b c ≡ t
unfolding top_index
top_index_lem low t zero b lo hi stop above = omega arith
top_index_lem low t (suc c) b lo hi stop above = elim (ℕ_discrete t (suc c)) [
  | yes e ↦ ground (arith, ap (λ (i : ℕ). get_or b i 0) e)
  | no ne ↦ ground (
    arith,
    above (suc c) (omega arith) (omega arith),
    top_index_lem low t c b lo (omega arith) stop (λ j l h. above j l (omega arith)),
  )
]

-- The same, from the other end.
pub div_pow_last : (j n : ℕ) → n / 256 ^ suc j ≡ n / 256 ^ j / 256
div_pow_last j n = ap (λ (d : ℕ). n / d) (pow-suc 256 j) ∙ sym (div-div-eq-div-mul n (256 ^ j) 256)

-- A word with nothing from place `a` on has nothing from any higher place on.
pub div_pow_zero : (c a n : ℕ) → n / 256 ^ a ≡ 0 → a ≤ c → n / 256 ^ c ≡ 0
div_pow_zero zero a n e h = let a0 : a ≡ 0 = omega arith in rw a0 at e
div_pow_zero (suc c) a n e h = elim (ℕ_discrete a (suc c)) [
  | yes p ↦ rw p at e
  | no ne ↦ omega (arith, div_pow_zero c a n e (omega arith), div_pow_last c n)
]

module _ (m i n : ℕ) where
  -- The loop stops at the highest byte of the value, or at the minimum.
  pub top_index-le_bytes :
      m ≤ i
      → i < 8
      → n / 256 ^ suc i ≡ 0
      → (m ≡ i) ⊎ (n / 256 ^ i ≢ 0)
      → top_index (suc m) (0 ∷ le_bytes 8 n) 8 ≡ suc i
  top_index-le_bytes lo hi none stop =
      top_index_lem (suc m) (suc i) 8 (0 ∷ le_bytes 8 n) (omega arith) (omega arith) stops above
    where
      small : n / 256 ^ i < 256
      small =
          omega
            (arith, none, div-div-eq-div-mul n (256 ^ i) 256, ap (λ (d : ℕ). n / d) (pow-suc 256 i))

      stops : (suc m ≡ suc i) ⊎ (get_or (0 ∷ le_bytes 8 n) (suc i) 0 ≢ 0)
      stops = elim stop [
        | inl e ↦ inl (ap suc e)
        | inr ne ↦ inr (λ z. ne (omega (arith, z, small, get_or-le_bytes i 8 n hi)))
      ]

      above : (j : ℕ) → suc i < j → j ≤ 8 → get_or (0 ∷ le_bytes 8 n) j 0 ≡ 0
      above zero l h = refl
      above (suc j) l h =
          omega (
            arith,
            get_or-le_bytes j 8 n (omega arith),
            div_pow_zero j (suc i) n none (omega arith),
          )
