-- ===== src/Delta/Rolling.antt =====
-- The rolling checksum of crates/ferrosync-delta/src/checksum.rs, on wrapping 32-bit words.
pub mod Window
use ferrosync.Base.{ℕ, ◌+◌, ◌-◌, ◌*◌, ◌%◌, ◌^◌, List, [], ◌∷◌, length}

abbrev pub wrapping_add : ℕ → ℕ → ℕ
wrapping_add a b = (a + b) % 2 ^ 32

abbrev pub wrapping_sub : ℕ → ℕ → ℕ
wrapping_sub a b = (a + 2 ^ 32 - b) % 2 ^ 32

abbrev pub wrapping_mul : ℕ → ℕ → ℕ
wrapping_mul a b = a * b % 2 ^ 32

-- The loop over the bytes of a block, from the sums `s1` and `s2`.
unfoldable pub sum_loop : ℕ → ℕ → ℕ → List ℕ → ℕ × ℕ
sum_loop char_offset s1 s2 [] = (s1, s2)
sum_loop char_offset s1 s2 (byte ∷ bytes) =
    let s1' = wrapping_add s1 (byte + char_offset) in
    sum_loop char_offset s1' (wrapping_add s2 s1') bytes

-- `(s1 & 0xFFFF) | (s2 << 16)`
abbrev pub digest_of : ℕ → ℕ → ℕ
digest_of s1 s2 = s1 % 2 ^ 16 + s2 * 2 ^ 16 % 2 ^ 32

unfoldable pub checksum1 : List ℕ → ℕ → ℕ
unfolding sum_loop
checksum1 bytes char_offset = let (s1, s2) = sum_loop char_offset 0 0 bytes in digest_of s1 s2

pub record RollingChecksum : Type 0 where
  pub s1 : ℕ
  pub s2 : ℕ
  pub count : ℕ
  pub char_offset : ℕ

unfoldable pub new : ℕ → RollingChecksum
new char_offset = record { s1 = 0; s2 = 0; count = 0; char_offset = char_offset }

-- `self.count = data.len() as u32`
unfoldable pub compute : List ℕ → RollingChecksum → RollingChecksum
unfolding sum_loop
compute bytes r =
    let (s1, s2) = sum_loop r.char_offset 0 0 bytes in
    record r { s1 = s1; s2 = s2; count = length bytes % 2 ^ 32 }

unfoldable pub roll : ℕ → ℕ → RollingChecksum → RollingChecksum
roll old_byte new_byte r =
    let s1 = wrapping_sub (wrapping_add r.s1 new_byte) old_byte in
    let s2 =
      wrapping_sub (wrapping_add r.s2 s1) (wrapping_mul r.count (old_byte + r.char_offset)) in
    record r { s1 = s1; s2 = s2 }

unfoldable pub digest : RollingChecksum → ℕ
digest r = digest_of r.s1 r.s2
