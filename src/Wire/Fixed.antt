-- ===== src/Wire/Fixed.antt =====
-- Fixed-width integers of crates/ferrosync-protocol/src/varint.rs. A writer appends to a buffer or a
-- transport; it is modelled by the bytes that it appends.
use ferrosync.Base.{
  ℕ, zero, suc, true, ◌^◌, ◌<◌, ◌≤◌, ◌≡◌, refl, List, ◌++◌, arith, leb, length, if◌then◌else◌, ap,
  ◌∙◌, Bool, false, Bool-cases, inl, inr, append_assoc,
}
use ferrosync.Base.Bytes.{le_bytes, from_le_bytes, from_le_bytes-le_bytes}
use ferrosync.Base.Int.{
  ℤ, pos, negsuc, IsI32, IsI64, i32_bits, i32_of_bits, i64_bits, i64_of_bits, i32_of_bits-i32_bits,
  i64_of_bits-i64_bits, i32_bits-lt, i64_bits-lt,
}
use ferrosync.Wire.Stream.{Reader, ok, ◌>>=◌, pure, read_exact, bind_ok}

unfoldable pub read_shortint : Reader ℕ
read_shortint = do buf ← read_exact 2; pure (from_le_bytes buf)

unfoldable pub write_shortint : ℕ → List ℕ
write_shortint val = le_bytes 2 val

unfoldable pub read_int : Reader ℤ
read_int = do buf ← read_exact 4; pure (i32_of_bits (from_le_bytes buf))

unfoldable pub write_int : ℤ → List ℕ
write_int val = le_bytes 4 (i32_bits val)

-- `val != -1` and `val as i64`: the integer is the same.
abbrev pub minus_one : ℤ
minus_one = negsuc 0

abbrev pub is_minus_one : ℤ → Bool
is_minus_one (pos n) = false
is_minus_one (negsuc zero) = true
is_minus_one (negsuc (suc n)) = false

unfoldable pub read_longint : Reader ℤ
read_longint = do
  val ← read_int
  if is_minus_one val
      then (do buf ← read_exact 8; pure (i64_of_bits (from_le_bytes buf)))
      else pure val

-- `(0..=0x7FFF_FFFF_i64).contains(&val)`
abbrev pub fits_i31 : ℤ → Bool
fits_i31 (pos n) = leb n 0x7fff_ffff
fits_i31 (negsuc n) = false

unfoldable pub write_longint : ℤ → List ℕ
write_longint val =
    if fits_i31 val then write_int val else write_int minus_one ++ le_bytes 8 (i64_bits val)

pub read_shortint-write_shortint :
    (n : ℕ) (rest : List ℕ) → n < 2 ^ 16 → read_shortint (write_shortint n ++ rest) ≡ ok (n, rest)
unfolding read_shortint write_shortint read_exact
read_shortint-write_shortint n rest h = ap (λ (w : ℕ). ok (w, rest)) (from_le_bytes-le_bytes 2 n h)

pub read_int-write_int :
    (a : ℤ) (rest : List ℕ) → IsI32 a → read_int (write_int a ++ rest) ≡ ok (a, rest)
unfolding read_int write_int read_exact
read_int-write_int a rest h =
    ap (λ (w : ℕ). ok (i32_of_bits w, rest)) (from_le_bytes-le_bytes 4 (i32_bits a) (i32_bits-lt a))
    ∙ ap (λ (x : ℤ). ok (x, rest)) (i32_of_bits-i32_bits a h)

read_eight :
    (a : ℤ) (rest : List ℕ)
    → IsI64 a
    → (do buf ← read_exact 8; pure (i64_of_bits (from_le_bytes buf)))
        (le_bytes 8 (i64_bits a) ++ rest)
      ≡ ok (a, rest)
unfolding read_exact
read_eight a rest h =
    ap (λ (w : ℕ). ok (i64_of_bits w, rest)) (from_le_bytes-le_bytes 8 (i64_bits a) (i64_bits-lt a))
    ∙ ap (λ (x : ℤ). ok (x, rest)) (i64_of_bits-i64_bits a h)

read_longint_short :
    (n : ℕ) (rest : List ℕ)
    → n ≤ 0x7fff_ffff
    → read_longint (write_int (pos n) ++ rest) ≡ ok (pos n, rest)
unfolding read_longint
read_longint_short n rest h = bind_ok read_int _ _ (read_int-write_int (pos n) rest (omega arith))

read_longint_long :
    (a : ℤ) (rest : List ℕ)
    → IsI64 a
    → read_longint (write_int minus_one ++ (le_bytes 8 (i64_bits a) ++ rest)) ≡ ok (a, rest)
unfolding read_longint
read_longint_long a rest h =
    bind_ok read_int _ _ (read_int-write_int minus_one _ (omega arith)) ∙ read_eight a rest h

-- `read_longint` reads back every i64 that `write_longint` wrote, in the short or the long form.
pub read_longint-write_longint :
    (a : ℤ) (rest : List ℕ) → IsI64 a → read_longint (write_longint a ++ rest) ≡ ok (a, rest)
unfolding write_longint
read_longint-write_longint (pos n) rest h = elim (Bool-cases (leb n 0x7fff_ffff)) [
  | inl e ↦ rw e (read_longint_short n rest (ground arith))
  | inr e ↦ rw (e, append_assoc) (read_longint_long (pos n) rest h)
]
read_longint-write_longint (negsuc n) rest h = rw append_assoc (read_longint_long (negsuc n) rest h)

-- `write_longint` takes 4 bytes for 0 to 2^31 - 1 and 12 bytes for every other value.
pub length-write_longint : (a : ℤ) → length (write_longint a) ≡ (if fits_i31 a then 4 else 12)
unfolding write_longint write_int
length-write_longint (pos n) = ground arith
length-write_longint (negsuc n) = refl
