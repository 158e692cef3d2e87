-- ===== src/Base/Bytes.antt =====
-- Bytes as numbers below 256, little-endian words, and masks on one byte as arithmetic.
use ferrosync.Base.{
  ℕ, zero, suc, ◌+◌, ◌*◌, ◌/◌, ◌%◌, ◌^◌, ◌<◌, ◌≡◌, refl, Bool, true, ◌&&◌, List, [], ◌∷◌, arith,
  ◌==◌, ==_iff, leb, ◌||◌, All, length,
}
use native.Mathlib.Nat.{pow-suc}

abbrev pub IsByte : ℕ → Type 0
IsByte b = b < 256

-- `to_le_bytes` of a word of `k` bytes.
abbrev pub le_bytes : ℕ → ℕ → List ℕ
le_bytes zero n = []
le_bytes (suc k) n = n % 256 ∷ le_bytes k (n / 256)

-- `from_le_bytes`
abbrev pub from_le_bytes : List ℕ → ℕ
from_le_bytes [] = 0
from_le_bytes (b ∷ bs) = b + 256 * from_le_bytes bs

pub length-le_bytes : (k n : ℕ) → length (le_bytes k n) ≡ k
length-le_bytes zero n = refl
length-le_bytes (suc k) n = omega (arith, length-le_bytes k (n / 256))

pub le_bytes-IsByte : (k n : ℕ) → All IsByte (le_bytes k n)
le_bytes-IsByte zero n = tt
le_bytes-IsByte (suc k) n = (omega arith, le_bytes-IsByte k (n / 256))

pub from_le_bytes-le_bytes : (k n : ℕ) → n < 256 ^ k → from_le_bytes (le_bytes k n) ≡ n
from_le_bytes-le_bytes zero n h = omega arith
from_le_bytes-le_bytes (suc k) n h =
    omega (arith, from_le_bytes-le_bytes k (n / 256) (omega (arith, pow-suc 256 k)))

-- A test on each number below a count, by evaluation.
unfoldable pub every_below : ℕ → (ℕ → Bool) → Bool
every_below zero test = true
every_below (suc last) test = test last && every_below last test

pub every_below_sound :
    (count : ℕ) (test : ℕ → Bool) (i : ℕ)
    → every_below count test ≡ true
    → i < count
    → test i ≡ true
unfolding every_below
every_below_sound zero test i passed low = absurd (omega arith)
every_below_sound (suc last) test i passed low = ground (arith, every_below_sound last test i)

-- Two functions that agree below `n`, by evaluation.
pub agree_below :
    (f g : ℕ → ℕ) (n : ℕ) → every_below n (λ x. f x == g x) ≡ true → (x : ℕ) → x < n → f x ≡ g x
agree_below f g n h x lt = (==_iff _ _).0 (every_below_sound n (λ y. f y == g y) x h lt)

-- ASCII white space.
abbrev pub is_space : ℕ → Bool
is_space b = (b == 32) || (leb 9 b && leb b 13)

abbrev pub reverse_onto : List ℕ → List ℕ → List ℕ
reverse_onto [] bs = bs
reverse_onto (x ∷ xs) bs = reverse_onto xs (x ∷ bs)
