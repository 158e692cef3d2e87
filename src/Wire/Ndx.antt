-- ===== src/Wire/Ndx.antt =====
-- File list indices of crates/ferrosync-protocol/src/varint.rs: differences from the index before,
-- kept apart for positive and negative indices. Sums of `i32` wrap, as in a release build.
pub mod RoundTrip
use ferrosync.Base.{
  ℕ, ◌+◌, ◌*◌, ◌/◌, ◌%◌, ◌^◌, List, [], ◌∷◌, ◌++◌, Bool, true, false, ltb, leb, ◌==◌, ◌&&◌,
  if◌then◌else◌, bit_and, bit_or, get_or,
}
use ferrosync.Base.Int.{ℤ, pos, negsuc, ◌+ℤ◌, ◌-ℤ◌, neg_ℤ, pos_part, ltb_ℤ, i32_bits, wrap_i32}
use ferrosync.Wire.Stream.{Reader, ◌>>=◌, pure, read_exact, read_byte}
use ferrosync.Wire.Fixed.{read_int, write_int, minus_one, is_minus_one}
use ferrosync.Wire.Varlong.{IntCodec, fixed, compact}

pub record NdxState : Type 0 where
  pub prev_positive : ℤ
  pub prev_negative : ℤ

-- `NdxState::default()`
abbrev pub initial : NdxState
initial = record { prev_positive = negsuc 0; prev_negative = pos 1 }

abbrev pub ndx_done : ℤ
ndx_done = minus_one

-- `let prev = if is_negative { &mut state.prev_negative } else { &mut state.prev_positive }`
abbrev pub prev : Bool → NdxState → ℤ
prev true st = st.prev_negative
prev false st = st.prev_positive

abbrev pub set_prev : Bool → ℤ → NdxState → NdxState
set_prev true v st = record st { prev_negative = v }
set_prev false v st = record st { prev_positive = v }

-- The index after the byte `val`: an absolute value of 4 bytes, or a difference of 2 bytes or of 1.
-- The shifted bytes have no bit in common, so `|` is a sum.
unfoldable pub read_ndx_value : ℤ → ℕ → Reader ℤ
read_ndx_value p val =
    if val == 0xfe
    then (do
      buf ← read_exact 2
      let b0 = get_or buf 0 0
      let b1 = get_or buf 1 0
      if bit_and b0 0x80 == 0 then pure (wrap_i32 (p +ℤ pos (b0 * 2 ^ 8 + b1))) else (do
        buf2 ← read_exact 2
        pure (
            pos (
              bit_and b0 0x7f * 2 ^ 24 + get_or buf2 1 0 * 2 ^ 16 + get_or buf2 0 0 * 2 ^ 8 + b1))))
    else pure (wrap_i32 (p +ℤ pos val))

-- `*prev = ndx`, and the index with its sign.
unfoldable pub read_ndx_tail : Bool → NdxState → ℕ → Reader (ℤ × NdxState)
unfolding read_ndx_value
read_ndx_tail is_negative st val = do
  ndx ← read_ndx_value (prev is_negative st) val
  pure (if is_negative then wrap_i32 (neg_ℤ ndx) else ndx, set_prev is_negative ndx st)

unfoldable pub read_ndx : IntCodec → NdxState → Reader (ℤ × NdxState)
unfolding read_ndx_tail
read_ndx fixed st = do ndx ← read_int; pure (ndx, st)
read_ndx compact st = do
  val ← read_byte
  if val == 0
      then pure (ndx_done, st)
      else if val == 0xff
      then (do val' ← read_byte; read_ndx_tail true st val')
      else read_ndx_tail false st val

-- `ndx < 0`
abbrev pub is_below_zero : ℤ → Bool
is_below_zero (pos n) = false
is_below_zero (negsuc n) = true

-- `diff > 0 && diff < 0xFE`, and `(0..=0x7FFF).contains(&diff)`
abbrev pub in_one_byte : ℤ → Bool
in_one_byte (pos d) = ltb 0 d && ltb d 0xfe
in_one_byte (negsuc d) = false

abbrev pub in_two_bytes : ℤ → Bool
in_two_bytes (pos d) = leb d 0x7fff
in_two_bytes (negsuc d) = false

-- The bytes of an index that differs by `diff` from the one before.
unfoldable pub ndx_bytes : ℤ → ℤ → List ℕ
ndx_bytes diff abs_ndx =
    let d = pos_part diff in
    let w = i32_bits abs_ndx in
    if in_one_byte diff
    then d ∷ []
    else if in_two_bytes diff
    then 0xfe ∷ d / 2 ^ 8 % 256 ∷ d % 256 ∷ []
    else 0xfe ∷ bit_or (w / 2 ^ 24 % 256) 0x80 ∷ w % 256 ∷ w / 2 ^ 8 % 256 ∷ w / 2 ^ 16 % 256 ∷ []

-- `write_ndx` once the sign and the absolute value are known.
unfoldable pub write_ndx_signed : Bool → ℤ → NdxState → List ℕ × NdxState
unfolding ndx_bytes
write_ndx_signed is_negative abs_ndx st =
    let bytes = ndx_bytes (wrap_i32 (abs_ndx -ℤ prev is_negative st)) abs_ndx in
    (if is_negative then 0xff ∷ bytes else bytes, set_prev is_negative abs_ndx st)

unfoldable pub write_ndx : IntCodec → ℤ → NdxState → List ℕ × NdxState
unfolding write_ndx_signed
write_ndx fixed ndx st = (write_int ndx, st)
write_ndx compact ndx st =
    if is_minus_one ndx
    then (0 ∷ [], st)
    else if is_below_zero ndx
    then write_ndx_signed true (wrap_i32 (neg_ℤ ndx)) st
    else write_ndx_signed false ndx st
