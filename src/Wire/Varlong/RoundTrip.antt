-- ===== src/Wire/Varlong/RoundTrip.antt =====
-- `read_varlong` against the bytes of a varlong.
use ferrosync.Base.{
  ℕ, zero, suc, ◌+◌, ◌-◌, ◌/◌, ◌^◌, ◌<◌, ◌≤◌, ◌≡◌, refl, ap, append_assoc, ◌∙◌, sym, List, [], ◌∷◌,
  ◌++◌, ltb, bit_and, arith, length, set, lt→ltb, lt→leb, le→leb, Bool-cases, inl, inr, ltb→lt,
  replicate,
}
use Prim.Native.Nat.add
use native.Mathlib.Nat.{zero-add, add-zero}
use ferrosync.Base.Bytes.{le_bytes, from_le_bytes, length-le_bytes}
use ferrosync.Base.Int.{ℤ, IsI64, i64_bits, i64_of_bits, i64_of_bits-i64_bits, i64_bits-lt}
use ferrosync.Wire.Stream.{ok, err, read_exact, read_exact-append, bind_ok, invalid_varint}
use ferrosync.Wire.Varint.{fill, extra_bytes}
use ferrosync.Wire.Varlong.Format.{
  prefix, varlong_format, extra_bytes-first, mask_first, two_pow_le, write_varlong-format,
  write_varlong_none, write_varlong_wide,
}
use ferrosync.Wire.Varlong.Bytes.{le_bytes-add, from_le_bytes_split}
use ferrosync.Wire.Varlong.{
  write_at, read_varlong, write_varlong, write_varlong_bits, read_varlong_tail,
}

from_le_bytes-replicate : (j : ℕ) → from_le_bytes (replicate j 0) ≡ 0
from_le_bytes-replicate zero = refl
from_le_bytes-replicate (suc j) = omega (arith, from_le_bytes-replicate j)

-- The value of a buffer of zeros with `es` at its front and the byte `v` behind.
fill_value :
    (es : List ℕ) (v j : ℕ)
    → from_le_bytes (set (fill es (replicate (length es + suc j) 0)) (length es) v)
      ≡ from_le_bytes (es ++ v ∷ [])
fill_value [] v j = rw zero-add (omega (arith, from_le_bytes-replicate j))
fill_value (e ∷ es) v j = rw (add.suc) (omega (arith, fill_value es v j))

-- The same with `lo` in front of `es`.
splice_value :
    (lo es : List ℕ) (v j : ℕ)
    → from_le_bytes (
        set
          (write_at (length lo) es (fill lo (replicate (length lo + (length es + suc j)) 0)))
          (length lo + length es)
          v)
      ≡ from_le_bytes (lo ++ (es ++ v ∷ []))
splice_value [] es v j = rw (zero-add, zero-add) (fill_value es v j)
splice_value (b ∷ lo) es v j = rw (add.suc, add.suc) (omega (arith, splice_value lo es v j))

splice :
    (m k v : ℕ) (lo es : List ℕ)
    → length lo ≡ m
    → length es ≡ k
    → m + k < 8
    → from_le_bytes (set (write_at m es (fill lo (replicate 8 0))) (m + k) v)
      ≡ from_le_bytes (lo ++ (es ++ v ∷ []))
splice m k v lo es el ek h =
    let eight : length lo + (length es + suc (7 - (m + k))) ≡ 8 = omega arith in
    rw (el, ek) at (rw eight at (splice_value lo es v (7 - (m + k))))

module _ (m k f : ℕ) (lo es rest : List ℕ) (el : length lo ≡ m) (ek : length es ≡ k) where
  read_tail :
      0 < k
      → m + k < 8
      → read_varlong_tail (suc m) f lo k (es ++ rest)
        ≡ ok
            (i64_of_bits (from_le_bytes (lo ++ (es ++ bit_and f (2 ^ (7 - k + 1) - 1) ∷ []))), rest)
  unfolding read_varlong_tail
  read_tail pos h =
      let one : suc m - 1 ≡ m = omega arith in
      rw (lt→ltb 0 k pos, one, lt→leb 8 (m + k) h)
        (bind_ok (read_exact k) _ (es ++ rest) (rw ek at (read_exact-append es rest))
          ∙ ap (λ (v : ℕ). ok (i64_of_bits v, rest)) (splice m k _ lo es el ek h))

  read_bytes :
      extra_bytes f ≡ k
      → read_varlong (suc m) (f ∷ (lo ++ (es ++ rest)))
        ≡ read_varlong_tail (suc m) f lo k (es ++ rest)
  unfolding read_varlong
  read_bytes e =
      bind_ok (read_exact (suc m)) _ (f ∷ (lo ++ (es ++ rest)))
        (rw el at (read_exact-append (f ∷ lo) (es ++ rest)))
      ∙ ap (λ (x : ℕ). read_varlong_tail (suc m) f lo x (es ++ rest)) e

-- Reading a value with `k` extra bytes.
read_varlong-format :
    (m k n : ℕ) (rest : List ℕ)
    → 0 < k
    → k < 7
    → m + k < 8
    → n / 256 ^ (m + k) < 2 ^ (7 - k)
    → read_varlong (suc m) (varlong_format m k n ++ rest) ≡ ok (i64_of_bits n, rest)
read_varlong-format m k n rest pos lt h b =
    ap (λ (l : List ℕ). read_varlong (suc m) (f ∷ l))
      (ap (λ (l : List ℕ). l ++ rest) (le_bytes-add m k n) ∙ append_assoc lo es rest)
    ∙ read_bytes m k f lo es rest (length-le_bytes m n) (length-le_bytes k _)
        (extra_bytes-first k _ b lt)
    ∙ read_tail m k f lo es rest (length-le_bytes m n) (length-le_bytes k _) pos h
    ∙ ap (λ (v : ℕ). ok (i64_of_bits v, rest)) value
  where
    f : ℕ
    f = n / 256 ^ (m + k) + prefix k

    lo : List ℕ
    lo = le_bytes m n

    es : List ℕ
    es = le_bytes k (n / 256 ^ m)

    value : from_le_bytes (lo ++ (es ++ bit_and f (2 ^ (7 - k + 1) - 1) ∷ [])) ≡ n
    value =
        ap (λ (v : ℕ). from_le_bytes (lo ++ (es ++ v ∷ []))) (mask_first k _ b (omega arith))
        ∙ ap from_le_bytes (
            sym (append_assoc lo es _)
            ∙ ap (λ (l : List ℕ). l ++ (n / 256 ^ (m + k)) ∷ []) (sym (le_bytes-add m k n)))
        ∙ from_le_bytes_split (m + k) n

-- Reading a value with no extra bytes.
read_varlong_none :
    (m n : ℕ) (rest : List ℕ)
    → m < 8
    → n / 256 ^ m < 2 ^ 7
    → read_varlong (suc m) ((n / 256 ^ m ∷ le_bytes m n) ++ rest) ≡ ok (i64_of_bits n, rest)
unfolding read_varlong_tail
read_varlong_none m n rest h b =
    read_bytes m 0 (n / 256 ^ m) (le_bytes m n) [] rest (length-le_bytes m n) refl
      (rw add-zero at (extra_bytes-first 0 (n / 256 ^ m) b (omega arith)))
    ∙ ap (λ (v : ℕ). ok (i64_of_bits v, rest)) (value ∙ from_le_bytes_split m n)
  where
    eight : length (le_bytes m n) + suc (7 - m) ≡ 8
    eight = omega (arith, length-le_bytes m n)

    one : suc m - 1 ≡ m
    one = omega arith

    value :
        from_le_bytes (set (fill (le_bytes m n) (replicate 8 0)) (suc m - 1) (n / 256 ^ m))
        ≡ from_le_bytes (le_bytes m n ++ (n / 256 ^ m) ∷ [])
    value = rw one (
        rw (length-le_bytes m n) at (rw eight at (fill_value (le_bytes m n) (n / 256 ^ m) (7 - m))))

-- `k` extra bytes are enough; the least number that is enough is written.
round_trip :
    (k m n : ℕ) (rest : List ℕ)
    → m + k < 8
    → k < 7
    → n / 256 ^ (m + k) < 2 ^ (7 - k)
    → read_varlong (suc m) (write_varlong_bits n (suc m) ++ rest) ≡ ok (i64_of_bits n, rest)
round_trip zero m n rest h lt b =
    let b' : n / 256 ^ m < 2 ^ 7 = rw add-zero at b in
    rw (write_varlong_none m n (omega arith) b') (read_varlong_none m n rest (omega arith) b')
round_trip (suc k) m n rest h lt b = elim (Bool-cases (ltb (n / 256 ^ (m + k)) (2 ^ (7 - k)))) [
  | inl e ↦ round_trip k m n rest (omega arith) (omega arith) (ltb→lt _ _ e)
  | inr e ↦
      rw (write_varlong-format m k n (omega arith) (ground arith) b)
        (read_varlong-format m (suc k) n rest (omega arith) lt h b)
]

-- `read_varlong` reads back what `write_varlong` wrote, for a minimum of 2 to 8 bytes, if the top
-- byte of the value is below 2 ^ (min_bytes - 1).
pub read_varlong-write_varlong :
    (m : ℕ) (x : ℤ) (rest : List ℕ)
    → 0 < m
    → m < 8
    → IsI64 x
    → i64_bits x / 2 ^ 56 < 2 ^ m
    → read_varlong (suc m) (write_varlong x (suc m) ++ rest) ≡ ok (x, rest)
unfolding write_varlong
read_varlong-write_varlong m x rest pos lt hx b =
    let seven : m + (7 - m) ≡ 7 = omega arith in
    let back : 7 - (7 - m) ≡ m = omega arith in
    round_trip (7 - m) m (i64_bits x) rest (omega arith) (omega arith) (rw (seven, back) b)
    ∙ ap (λ (y : ℤ). ok (y, rest)) (i64_of_bits-i64_bits x hx)

-- A first byte that announces all eight bytes: the last would lie outside the buffer.
read_varlong_eight :
    (m n : ℕ) (rest : List ℕ)
    → 1 < m
    → m < 8
    → read_varlong (suc m) ((255 - (2 ^ m - 1)) ∷ le_bytes 8 n ++ rest) ≡ err invalid_varint
unfolding read_varlong_tail
read_varlong_eight m n rest pos lt =
    ap (λ (l : List ℕ). read_varlong (suc m) ((255 - (2 ^ m - 1)) ∷ l ++ rest))
      (ap (λ (t : ℕ). le_bytes t n) (sym eight) ∙ le_bytes-add m (8 - m) n)
    ∙ ap (λ (l : List ℕ). read_varlong (suc m) ((255 - (2 ^ m - 1)) ∷ l)) (append_assoc lo es rest)
    ∙ read_bytes m (8 - m) (255 - (2 ^ m - 1)) lo es rest (length-le_bytes m n)
        (length-le_bytes (8 - m) _) first
    ∙ rw (lt→ltb 0 (8 - m) (omega arith), le→leb 8 (suc m - 1 + (8 - m)) (omega arith))
  where
    eight : m + (8 - m) ≡ 8
    eight = omega arith

    lo : List ℕ
    lo = le_bytes m n

    es : List ℕ
    es = le_bytes (8 - m) (n / 256 ^ m)

    back : 8 - (8 - m) ≡ m
    back = omega arith

    first : extra_bytes (255 - (2 ^ m - 1)) ≡ 8 - m
    first =
        rw (zero-add, back) at
          (extra_bytes-first (8 - m) 0 (two_pow_le 0 (7 - (8 - m)) (omega arith)) (omega arith))

-- For a minimum of 3 to 8 bytes, a value whose top byte is 2 ^ (min_bytes - 1) or more is written
-- as bytes that `read_varlong` refuses.
pub read_varlong-write_varlong_wide :
    (m : ℕ) (x : ℤ) (rest : List ℕ)
    → 1 < m
    → m < 8
    → 2 ^ m ≤ i64_bits x / 2 ^ 56
    → read_varlong (suc m) (write_varlong x (suc m) ++ rest) ≡ err invalid_varint
unfolding write_varlong
read_varlong-write_varlong_wide m x rest pos lt b =
    rw (write_varlong_wide m (i64_bits x) lt (i64_bits-lt x) b)
      (read_varlong_eight m (i64_bits x) rest pos lt)
