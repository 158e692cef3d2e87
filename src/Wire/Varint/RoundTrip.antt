-- ===== src/Wire/Varint/RoundTrip.antt =====
-- `read_varint` against `write_varint`, and on any input.
use ferrosync.Base.{
  ℕ, ◌+◌, ◌/◌, ◌%◌, ◌^◌, ◌<◌, ◌≤◌, ◌≡◌, ap, ◌∙◌, List, [], ◌∷◌, ◌++◌, ltb, arith, inl, inr,
  Bool-cases,
}
use ferrosync.Base.Bytes.{from_le_bytes}
use ferrosync.Wire.Stream.{ok, err, read_exact, read_byte, invalid_varint}
use ferrosync.Wire.Varint.{read_varint, read_varint_tail, write_varint}
use ferrosync.Wire.Varint.Format.{
  extra_format, extra_bytes-format, and_127, and_63, and_31, write_varint-format,
}

-- A first byte that stands for `e` extra bytes.
first_byte :
    (ch e : ℕ) (s : List ℕ)
    → ch < 256
    → extra_format ch ≡ e
    → read_varint (ch ∷ s) ≡ read_varint_tail ch e s
unfolding read_varint read_byte
first_byte ch e s h k = ap (λ (x : ℕ). read_varint_tail ch x s) (extra_bytes-format ch h ∙ k)

module _ (ch : ℕ) (rest : List ℕ) where
  read_one : ch < 128 → read_varint (ch ∷ rest) ≡ ok (ch, rest)
  unfolding read_varint_tail
  read_one h = first_byte ch 0 rest (omega arith) (ground arith)

  read_two :
      (b : ℕ)
      → 128 ≤ ch
      → ch < 192
      → read_varint (ch ∷ b ∷ rest) ≡ ok (from_le_bytes (b ∷ ch % 128 ∷ []), rest)
  unfolding read_exact read_varint_tail
  read_two b h k =
      first_byte ch 1 (b ∷ rest) (omega arith) (ground arith)
      ∙ ap (λ (w : ℕ). ok (from_le_bytes (b ∷ w ∷ []), rest)) (and_127 ch (omega arith))

  read_three :
      (b c : ℕ)
      → 192 ≤ ch
      → ch < 224
      → read_varint (ch ∷ b ∷ c ∷ rest) ≡ ok (from_le_bytes (b ∷ c ∷ ch % 64 ∷ []), rest)
  unfolding read_exact read_varint_tail
  read_three b c h k =
      first_byte ch 2 (b ∷ c ∷ rest) (omega arith) (ground arith)
      ∙ ap (λ (w : ℕ). ok (from_le_bytes (b ∷ c ∷ w ∷ []), rest)) (and_63 ch (omega arith))

  read_four :
      (b c d : ℕ)
      → 224 ≤ ch
      → ch < 240
      → read_varint (ch ∷ b ∷ c ∷ d ∷ rest) ≡ ok (from_le_bytes (b ∷ c ∷ d ∷ ch % 32 ∷ []), rest)
  unfolding read_exact read_varint_tail
  read_four b c d h k =
      first_byte ch 3 (b ∷ c ∷ d ∷ rest) (omega arith) (ground arith)
      ∙ ap (λ (w : ℕ). ok (from_le_bytes (b ∷ c ∷ d ∷ w ∷ []), rest)) (and_31 ch (omega arith))

  read_five :
      (b c d e : ℕ)
      → 240 ≤ ch
      → ch < 248
      → read_varint (ch ∷ b ∷ c ∷ d ∷ e ∷ rest) ≡ ok (from_le_bytes (b ∷ c ∷ d ∷ e ∷ []), rest)
  unfolding read_exact read_varint_tail
  read_five b c d e h k = first_byte ch 4 (b ∷ c ∷ d ∷ e ∷ rest) (omega arith) (ground arith)

  -- A first byte from 0xF8 on announces more than 4 extra bytes.
  pub read_varint_rejects : 248 ≤ ch → ch < 256 → read_varint (ch ∷ rest) ≡ err invalid_varint
  unfolding read_varint_tail
  read_varint_rejects h k = elim (Bool-cases (ltb ch 252)) [
    | inl e ↦ first_byte ch 5 rest k (ground arith)
    | inr e ↦ first_byte ch 6 rest k (ground arith)
  ]

-- `read_varint` reads back every u32 that `write_varint` wrote, and leaves what follows.
pub read_varint-write_varint :
    (x : ℕ) (rest : List ℕ) → x < 2 ^ 32 → read_varint (write_varint x ++ rest) ≡ ok (x, rest)
read_varint-write_varint x rest h = rw (write_varint-format x h) (
    ground (
      arith,
      read_one x rest,
      read_two (x / 2 ^ 8 + 128) rest (x % 256),
      read_three (x / 2 ^ 16 + 192) rest (x % 256) (x / 256 % 256),
      read_four (x / 2 ^ 24 + 224) rest (x % 256) (x / 256 % 256) (x / 256 / 256 % 256),
      read_five 240 rest (x % 256) (x / 256 % 256) (x / 256 / 256 % 256)
          (x / 256 / 256 / 256 % 256),
    ))
