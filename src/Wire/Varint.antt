-- ===== src/Wire/Varint.antt =====
-- The compact 32-bit varint of crates/ferrosync-protocol/src/varint.rs.
pub mod Format
pub mod RoundTrip
use ferrosync.Base.{
  ℕ, zero, suc, ◌+◌, ◌-◌, ◌*◌, ◌/◌, ◌^◌, List, [], ◌∷◌, ltb, leb, ◌==◌, if◌then◌else◌, ◌&&◌, get_or,
  set, take, bit_and, bit_or,
}
use ferrosync.Base.Bytes.{le_bytes, from_le_bytes}
use ferrosync.Wire.Stream.{Reader, ◌>>=◌, pure, fail, read_exact, read_byte, invalid_varint}

-- `INT_BYTE_EXTRA`, indexed by the first byte over 4.
abbrev pub int_byte_extra : List ℕ
int_byte_extra =
    0 ∷ 0 ∷ 0 ∷ 0 ∷ 0 ∷ 0 ∷ 0 ∷ 0 ∷ 0 ∷ 0 ∷ 0 ∷ 0 ∷ 0 ∷ 0 ∷ 0 ∷ 0 ∷ 0 ∷ 0 ∷ 0 ∷ 0 ∷ 0 ∷ 0 ∷ 0 ∷ 0
    ∷ 0 ∷ 0 ∷ 0 ∷ 0 ∷ 0 ∷ 0 ∷ 0 ∷ 0 ∷ 1 ∷ 1 ∷ 1 ∷ 1 ∷ 1 ∷ 1 ∷ 1 ∷ 1 ∷ 1 ∷ 1 ∷ 1 ∷ 1 ∷ 1 ∷ 1 ∷ 1 ∷ 1
    ∷ 2 ∷ 2 ∷ 2 ∷ 2 ∷ 2 ∷ 2 ∷ 2 ∷ 2 ∷ 3 ∷ 3 ∷ 3 ∷ 3 ∷ 4 ∷ 4 ∷ 5 ∷ 6 ∷ []

-- `INT_BYTE_EXTRA[(ch / 4) as usize]`; a byte over 4 is inside the table.
unfoldable pub extra_bytes : ℕ → ℕ
extra_bytes ch = get_or int_byte_extra (ch / 4) 0

-- With `extra` bytes read: `b[extra] = ch & (bit - 1)` unless all four are there.
unfoldable pub place_first : ℕ → ℕ → List ℕ → List ℕ
place_first ch extra b =
    if ltb extra 4 then (let bit = 2 ^ (7 - extra + 1) in set b extra (bit_and ch (bit - 1))) else b

-- The buffer `[0u8; 4]` with `bs` at its front.
abbrev pub fill : List ℕ → List ℕ → List ℕ
fill [] z = z
fill (b ∷ bs) [] = []
fill (b ∷ bs) (_ ∷ z) = b ∷ fill bs z

-- What `read_varint` does once it has the first byte and its count of extra bytes.
unfoldable pub read_varint_tail : ℕ → ℕ → Reader ℕ
unfolding place_first
read_varint_tail ch extra =
    if extra == 0 then pure ch else if ltb 4 extra then fail invalid_varint else (do
      bs ← read_exact extra
      pure (from_le_bytes (place_first ch extra (fill bs (0 ∷ 0 ∷ 0 ∷ 0 ∷ [])))))

unfoldable pub read_varint : Reader ℕ
unfolding extra_bytes read_varint_tail
read_varint = do ch ← read_byte; read_varint_tail ch (extra_bytes ch)

-- `while cnt > low && b[cnt] == 0 { cnt -= 1; }`
unfoldable pub top_index : ℕ → List ℕ → ℕ → ℕ
top_index low b zero = zero
top_index low b (suc c) =
    if ltb low (suc c) && get_or b (suc c) 0 == 0 then top_index low b c else suc c

unfoldable pub write_varint : ℕ → List ℕ
unfolding top_index
write_varint x =
    let b : List ℕ = 0 ∷ le_bytes 4 x in
    let cnt = top_index 1 b 4 in
    let bit = 2 ^ (7 - cnt + 1) in
    let top = get_or b cnt 0 in
    if leb bit top
    then take (cnt + 1) (set b 0 (255 - (bit - 1)))
    else if ltb 1 cnt
    then take cnt (set b 0 (bit_or top (255 - (bit * 2 - 1))))
    else take 1 (set b 0 (get_or b 1 0))
