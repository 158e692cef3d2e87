-- ===== src/Delta/Signatures/Bounds.antt =====
-- Bounds of the block length and of the strong checksum's length.
use ferrosync.Base.{
  ◌*◌, leb→le, ltb, ltb→lt, min, ℕ, zero, suc, ◌+◌, ◌-◌, ◌/◌, ◌%◌, ◌^◌, ◌≤◌, ◌<◌, ◌≡◌, inl, inr,
  leb, Bool-cases, ==_ne, arith,
}
use native.Mathlib.Nat.{zero-add, le-div_iff_mul-le, lt-div-mul-add, mul-le-mul}
use ferrosync.Delta.Signatures.{
  root_from, clamp, round_up_8, compute_block_length, hash_bytes, compute_s2length, min_block_len,
  max_block_len,
}

clamp_bounds : (n : ℕ) → (min_block_len ≤ clamp n) × (clamp n ≤ max_block_len)
clamp_bounds n = ground arith

round_up_bounds :
    (n : ℕ)
    → min_block_len ≤ n
    → n ≤ max_block_len
    → (704 ≤ round_up_8 n) × (round_up_8 n ≤ max_block_len) × (round_up_8 n % 8 ≡ 0)
round_up_bounds n low high = (omega arith, omega arith, omega arith)

-- The block length of a file that is not empty is a multiple of 8 from 704 to 131072.
pub compute_block_length_bounds :
    (file_len : ℕ)
    → 0 < file_len
    → (704 ≤ compute_block_length file_len)
      × (compute_block_length file_len ≤ max_block_len)
      × (compute_block_length file_len % 8 ≡ 0)
unfolding compute_block_length
compute_block_length_bounds file_len some_bytes =
    rw (==_ne file_len 0 (λ e. omega arith))
      (let (low, high) = clamp_bounds (root_from 18 0 file_len) in round_up_bounds _ low high)

hash_bytes_bounds :
    (more k count : ℕ) → (k ≤ hash_bytes more k count) × (hash_bytes more k count ≤ more + k)
unfolding hash_bytes
hash_bytes_bounds zero k count = (omega arith, omega arith)
hash_bytes_bounds (suc more) k count = elim (Bool-cases (leb count (256 ^ k))) [
  | inl enough ↦ rw (enough) (omega arith, omega arith)
  | inr small ↦
      rw (small)
        (let (low, high) = hash_bytes_bounds more (suc k) count in (omega arith, omega arith))
]

-- The least number of bytes that is enough, of which all up to `k` are not.
hash_bytes_least :
    (more k count : ℕ)
    → count ≤ 256 ^ (more + k)
    → ((j : ℕ) → j < k → 256 ^ j < count)
    → (count ≤ 256 ^ hash_bytes more k count)
      × ((j : ℕ) → j < hash_bytes more k count → 256 ^ j < count)
unfolding hash_bytes
hash_bytes_least zero k count enough small = (rw (zero-add) at enough, small)
hash_bytes_least (suc more) k count enough small = elim (Bool-cases (leb count (256 ^ k))) [
  | inl e ↦ rw (e) (leb→le count (256 ^ k) e, small)
  | inr e ↦ rw (e) (
      let moved : suc more + k ≡ more + suc k = omega arith in
      hash_bytes_least more (suc k) count (rw (moved) at enough) (λ j h.
        elim (Bool-cases (ltb j k)) [
          | inl below ↦ small j (ltb→lt j k below)
          | inr above ↦ let same : j ≡ k = ground (arith, above, h) in rw same (ground (arith, e))
        ]))
]

pub compute_s2length_bounds :
    (file_len blength : ℕ)
    → 0 < file_len
    → (10 ≤ compute_s2length file_len blength) × (compute_s2length file_len blength ≤ 18)
unfolding compute_s2length
compute_s2length_bounds file_len blength some_bytes = rw (==_ne file_len 0 (λ e. omega arith)) (
    let (low, high) = hash_bytes_bounds 8 0 ((file_len + blength - 1) / blength) in
    (omega arith, omega arith))

-- The count of blocks covers the file, and one block less does not.
block_count_covers : (n b : ℕ) → 0 < n → n ≤ (n + suc b - 1) / suc b * suc b
block_count_covers n b some_bytes =
    omega (arith, lt-div-mul-add {a = n + suc b - 1} {b = suc b} (omega arith))

block_count_least : (n b c : ℕ) → 0 < n → c < (n + suc b - 1) / suc b → c * suc b < n
block_count_least n b c some_bytes h =
    let least : suc c * suc b ≤ n + suc b - 1 =
      (le-div_iff_mul-le {k = suc b} {x = suc c} {y = n + suc b - 1} (omega arith)).0 h in
    omega arith

-- Of a file that is not empty and shorter than 2^48 bytes, with blocks of one byte at least, the
-- strong checksums are cut to 10 bytes and the least number of bytes more that can number the
-- blocks: 256 to that power blocks cover the file, and a lower power of 256 blocks does not.
pub compute_s2length_least :
    (file_len blength : ℕ)
    → 0 < file_len
    → file_len < 2 ^ 48
    → 0 < blength
    → (10 ≤ compute_s2length file_len blength)
      × (file_len ≤ 256 ^ (compute_s2length file_len blength - 10) * blength)
      × ((j : ℕ) → 10 + j < compute_s2length file_len blength → 256 ^ j * blength < file_len)
unfolding compute_s2length
compute_s2length_least n zero some_bytes low pos = absurd (omega arith)
compute_s2length_least n (suc b) some_bytes low pos =
    rw (==_ne n 0 (λ e. omega arith), cut)
      (
        omega arith,
        rw back (cover),
        λ j h. block_count_least n b (256 ^ j) some_bytes (least.1 j (omega arith)),
      )
  where
    count : ℕ
    count = (n + suc b - 1) / suc b

    few : count < 2 ^ 48
    few = elim (Bool-cases (ltb n count)) [
      | inl more ↦ absurd (
          omega (
            arith,
            block_count_least n b n some_bytes (ltb→lt n count more),
            mul-le-mul {n₁ = n} {m₁ = 1} {n₂ = n} {m₂ = suc b} (omega arith) (omega arith),
          ))
      | inr e ↦ ground (arith, low, e)
    ]

    least :
        (count ≤ 256 ^ hash_bytes 8 0 count)
        × ((j : ℕ) → j < hash_bytes 8 0 count → 256 ^ j < count)
    least = hash_bytes_least 8 0 count (omega (arith, few)) (λ j h. absurd (omega arith))

    cut : min (10 + hash_bytes 8 0 count) 32 ≡ 10 + hash_bytes 8 0 count
    cut = omega (arith, (hash_bytes_bounds 8 0 count).1)

    back : 10 + hash_bytes 8 0 count - 10 ≡ hash_bytes 8 0 count
    back = omega arith

    cover : n ≤ 256 ^ hash_bytes 8 0 count * suc b
    cover = omega (
      arith,
      block_count_covers n b some_bytes,
      mul-le-mul {n₁ = count} {m₁ = suc b} {n₂ = 256 ^ hash_bytes 8 0 count} {m₂ = suc b} least.0
          (omega arith),
    )
