-- ===== src/Wire/Varint/Format.antt =====
-- The bytes of a varint in plain arithmetic, by the range of the value.
use ferrosync.Base.{
  ℕ, ◌+◌, ◌/◌, ◌%◌, ◌^◌, ◌<◌, ◌≡◌, refl, List, [], ◌∷◌, ltb, if◌then◌else◌, bit_and, bit_or, arith,
}
use ferrosync.Base.Bytes.{agree_below, every_below, le_bytes}
use ferrosync.Wire.Varint.{extra_bytes, write_varint}

-- The number of bytes behind a first byte.
abbrev pub extra_format : ℕ → ℕ
extra_format ch =
    if ltb ch 0x80
    then 0
    else if ltb ch 0xc0
    then 1
    else if ltb ch 0xe0
    then 2
    else if ltb ch 0xf0
    then 3
    else if ltb ch 0xf8
    then 4
    else if ltb ch 0xfc
    then 5
    else 6

pub extra_bytes-format : (ch : ℕ) → ch < 256 → extra_bytes ch ≡ extra_format ch
unfolding extra_bytes every_below
extra_bytes-format = agree_below extra_bytes extra_format 256 refl

pub or_128 : (b : ℕ) → b < 64 → bit_or b 128 ≡ b + 128
unfolding every_below
or_128 = agree_below (λ b. bit_or b 128) (λ b. b + 128) 64 refl

pub or_192 : (b : ℕ) → b < 32 → bit_or b 192 ≡ b + 192
unfolding every_below
or_192 = agree_below (λ b. bit_or b 192) (λ b. b + 192) 32 refl

pub or_224 : (b : ℕ) → b < 16 → bit_or b 224 ≡ b + 224
unfolding every_below
or_224 = agree_below (λ b. bit_or b 224) (λ b. b + 224) 16 refl

pub and_63 : (b : ℕ) → b < 256 → bit_and b 63 ≡ b % 64
unfolding every_below
and_63 = agree_below (λ b. bit_and b 63) (λ b. b % 64) 256 refl

pub and_31 : (b : ℕ) → b < 256 → bit_and b 31 ≡ b % 32
unfolding every_below
and_31 = agree_below (λ b. bit_and b 31) (λ b. b % 32) 256 refl

pub and_127 : (b : ℕ) → b < 256 → bit_and b 127 ≡ b % 128
unfolding every_below
and_127 = agree_below (λ b. bit_and b 127) (λ b. b % 128) 256 refl

abbrev pub varint_format : ℕ → List ℕ
varint_format x =
    if ltb x (2 ^ 7)
    then x ∷ []
    else if ltb x (2 ^ 14)
    then (x / 2 ^ 8 + 128) ∷ le_bytes 1 x
    else if ltb x (2 ^ 21)
    then (x / 2 ^ 16 + 192) ∷ le_bytes 2 x
    else if ltb x (2 ^ 28)
    then (x / 2 ^ 24 + 224) ∷ le_bytes 3 x
    else 240 ∷ le_bytes 4 x

-- For every u32, the bytes that `write_varint` writes are the plain format: a first byte with a run of
-- leading ones for the count of bytes behind it, and the value in little-endian order.
pub write_varint-format : (x : ℕ) → x < 2 ^ 32 → write_varint x ≡ varint_format x
unfolding write_varint
write_varint-format x h = ground (
  arith,
  or_128 (x / 256 % 256),
  or_192 (x / 256 / 256 % 256),
  or_224 (x / 256 / 256 / 256 % 256),
)
