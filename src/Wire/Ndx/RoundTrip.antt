-- ===== src/Wire/Ndx/RoundTrip.antt =====
-- `read_ndx` against `write_ndx`.
use ferrosync.Base.{
  ℕ, zero, suc, ◌+◌, ◌*◌, ◌/◌, ◌%◌, ◌^◌, ◌<◌, ◌≡◌, ◌≢◌, refl, ap, ◌∙◌, List, [], ◌∷◌, ◌++◌, leb,
  ==_ne, Bool-cases, inl, inr, arith, bit_and, bit_or,
}
use ferrosync.Base.Bytes.{agree_below, every_below}
use ferrosync.Base.Int.{ℤ, pos, negsuc, pos_part, neg_part, ◌+ℤ◌, ◌-ℤ◌, neg_ℤ, IsI32, wrap_i32}
use ferrosync.Wire.Stream.{ok, read_exact, read_byte, bind_ok}
use ferrosync.Wire.Fixed.{read_int, read_int-write_int}
use ferrosync.Wire.Varlong.{IntCodec, fixed, compact}
use ferrosync.Wire.Ndx.{NdxState, read_ndx_value, read_ndx, ndx_bytes, write_ndx, in_one_byte}

and_top : (b : ℕ) → b < 256 → bit_and b 128 ≡ b / 128 * 128
unfolding every_below
and_top = agree_below (λ b. bit_and b 128) (λ b. b / 128 * 128) 256 refl

or_top : (b : ℕ) → b < 128 → bit_or b 128 ≡ b + 128
unfolding every_below
or_top = agree_below (λ b. bit_or b 128) (λ b. b + 128) 128 refl

and_low : (b : ℕ) → b < 256 → bit_and b 127 ≡ b % 128
unfolding every_below
and_low = agree_below (λ b. bit_and b 127) (λ b. b % 128) 256 refl

-- Adding the wrapped difference gives the index back.
wrap_back :
    (p : ℤ) (a d : ℕ)
    → IsI32 p
    → a < 2 ^ 31
    → wrap_i32 (pos a -ℤ p) ≡ pos d
    → wrap_i32 (p +ℤ pos d) ≡ pos a
unfolding ◌+ℤ◌ ◌-ℤ◌
wrap_back (pos n) a d h l e = ground arith
wrap_back (negsuc n) a d h l e = ground arith

-- What the reader needs of the bytes `bs` of an index `a` after the index `p`.
record Reads (p : ℤ) (a : ℕ) (bs rest : List ℕ) : Type 0 where
  val : ℕ
  tail : List ℕ
  split : bs ≡ val ∷ tail
  not_done : val ≢ 0
  not_sign : val ≢ 255
  value : read_ndx_value p val (tail ++ rest) ≡ ok (pos a, rest)

module _ (p : ℤ) (a : ℕ) (rest : List ℕ) (hp : IsI32 p) (ha : a < 2 ^ 31) where
  read_one :
      (d : ℕ)
      → 0 < d
      → d < 254
      → wrap_i32 (pos a -ℤ p) ≡ pos d
      → read_ndx_value p d rest ≡ ok (pos a, rest)
  unfolding read_ndx_value
  read_one d lo hi e = ground (arith, wrap_back p a d hp ha e)

  read_two :
      (d : ℕ)
      → d < 2 ^ 15
      → wrap_i32 (pos a -ℤ p) ≡ pos d
      → read_ndx_value p 254 (d / 2 ^ 8 % 256 ∷ d % 256 ∷ rest) ≡ ok (pos a, rest)
  unfolding read_ndx_value read_exact
  read_two d hi e =
      let top : bit_and (d / 2 ^ 8 % 256) 128 ≡ 0 = omega (arith, and_top (d / 2 ^ 8 % 256)) in
      let sum : d / 2 ^ 8 % 256 * 2 ^ 8 + d % 256 ≡ d = omega arith in
      rw (top, sum, wrap_back p a d hp ha e)

  read_four :
      read_ndx_value p 254
        (bit_or (a / 2 ^ 24 % 256) 128 ∷ a % 256 ∷ a / 2 ^ 8 % 256 ∷ a / 2 ^ 16 % 256 ∷ rest)
      ≡ ok (pos a, rest)
  unfolding read_ndx_value read_exact
  read_four =
      let b : ℕ = a / 2 ^ 24 % 256 in
      let low : b < 128 = omega arith in
      let top : bit_and (b + 128) 128 ≡ 128 = omega (arith, and_top (b + 128)) in
      let value : bit_and (b + 128) 127 * 2 ^ 24
            + a / 2 ^ 16 % 256 * 2 ^ 16
            + a / 2 ^ 8 % 256 * 2 ^ 8
            + a % 256
          ≡ a =
        omega (arith, and_low (b + 128)) in
      rw (or_top b low, top, value)

  read_absolute :
      Reads p a
        (0xfe ∷ bit_or (a / 2 ^ 24 % 256) 0x80 ∷ a % 256 ∷ a / 2 ^ 8 % 256 ∷ a / 2 ^ 16 % 256 ∷ [])
        rest
  read_absolute = record {
    val = 254;
    tail = bit_or (a / 2 ^ 24 % 256) 0x80 ∷ a % 256 ∷ a / 2 ^ 8 % 256 ∷ a / 2 ^ 16 % 256 ∷ [];
    split = refl;
    not_done = omega arith;
    not_sign = omega arith;
    value = read_four;
  }

  -- By the wrapped difference: one byte, two bytes, or the index itself.
  Reads-ndx_bytes :
      (diff : ℤ) → wrap_i32 (pos a -ℤ p) ≡ diff → Reads p a (ndx_bytes diff (pos a)) rest
  unfolding ndx_bytes
  Reads-ndx_bytes (pos d) e = elim (Bool-cases (in_one_byte (pos d))) [
    | inl one ↦ rw one (record {
      val = d;
      tail = [];
      split = refl;
      not_done = ground arith;
      not_sign = ground arith;
      value = read_one d (ground arith) (ground arith) e;
    })
    | inr more ↦ elim (Bool-cases (leb d 0x7fff)) [
      | inl two ↦
          rw (more, two)
            (record {
              val = 254;
              tail = d / 2 ^ 8 % 256 ∷ d % 256 ∷ [];
              split = refl;
              not_done = omega arith;
              not_sign = omega arith;
              value = read_two d (ground arith) e;
            })
      | inr four ↦ rw (more, four, word) read_absolute
    ]
  ]
    where
      word : (a + 4294967296) % 4294967296 ≡ a
      word = omega arith
  Reads-ndx_bytes (negsuc d) e = rw word read_absolute
    where
      word : (a + 4294967296) % 4294967296 ≡ a
      word = omega arith

abbrev pub IsIndex : ℤ → Type 0
IsIndex a = (pos_part a < 2 ^ 31) × (neg_part a < 2 ^ 31)

pub record IsState (st : NdxState) : Type 0 where
  pub positive : IsI32 st.prev_positive
  pub negative : IsI32 st.prev_negative

module _ (st : NdxState) (rest : List ℕ) where
  -- After a byte that is neither the end nor the sign, a positive index.
  read_positive :
      {a : ℕ} {bs : List ℕ} (r : Reads st.prev_positive a bs rest)
      → read_ndx compact st (bs ++ rest) ≡ ok ((pos a, record st { prev_positive = pos a }), rest)
  unfolding read_ndx read_byte
  read_positive {a} r =
      rw (r.split, ==_ne r.val 0 r.not_done, ==_ne r.val 255 r.not_sign)
        (bind_ok (read_ndx_value st.prev_positive r.val) _ (r.tail ++ rest) r.value)

  -- Behind the sign byte, a negative index.
  read_negative :
      {n : ℕ} {bs : List ℕ} (r : Reads st.prev_negative (suc n) bs rest)
      → n < 2 ^ 31
      → read_ndx compact st (255 ∷ bs ++ rest)
        ≡ ok ((negsuc n, record st { prev_negative = pos (suc n) }), rest)
  unfolding read_ndx read_byte
  read_negative {n} r h =
      let sign : wrap_i32 (neg_ℤ (pos (suc n))) ≡ negsuc n = ground arith in
      rw r.split (
        bind_ok (read_ndx_value st.prev_negative r.val) _ (r.tail ++ rest) r.value
        ∙ ap (λ (x : ℤ). ok ((x, record st { prev_negative = pos (suc n) }), rest)) sign)

-- `read_ndx` gives back the index that `write_ndx` wrote and reaches the writer's state, under both
-- codecs and for every index but -2^31.
pub read_ndx-write_ndx :
    (c : IntCodec) (ndx : ℤ) (st : NdxState) (rest : List ℕ)
    → IsIndex ndx
    → IsState st
    → read_ndx c st ((write_ndx c ndx st).0 ++ rest) ≡ ok ((ndx, (write_ndx c ndx st).1), rest)
unfolding write_ndx read_ndx
read_ndx-write_ndx fixed ndx st rest h s =
    bind_ok read_int _ _ (read_int-write_int ndx rest (omega arith))
read_ndx-write_ndx compact (pos n) st rest h s =
    read_positive st rest (Reads-ndx_bytes st.prev_positive n rest s.positive h.0 _ refl)
read_ndx-write_ndx compact (negsuc zero) st rest h s = unfold read_byte in refl
read_ndx-write_ndx compact (negsuc (suc n)) st rest h s =
    let sign : wrap_i32 (neg_ℤ (negsuc (suc n))) ≡ pos (suc (suc n)) = ground arith in
    rw sign (
      read_negative st rest
        (Reads-ndx_bytes st.prev_negative (suc (suc n)) rest s.negative h.1 _ refl) (omega arith))

-- Writing an index keeps both remembered indices inside i32.
pub write_ndx-IsState :
    (c : IntCodec) (ndx : ℤ) (st : NdxState)
    → IsIndex ndx
    → IsState st
    → IsState (write_ndx c ndx st).1
unfolding write_ndx
write_ndx-IsState fixed ndx st h s = s
write_ndx-IsState compact (pos n) st h s = ground arith
write_ndx-IsState compact (negsuc zero) st h s = s
write_ndx-IsState compact (negsuc (suc n)) st h s = ground arith
