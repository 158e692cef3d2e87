-- ===== src/Delta/Ops.antt =====
-- The operations of crates/ferrosync-delta/src/ops.rs. Offsets and lengths are `usize` of 64 bits.
use ferrosync.Base.{
  ℕ, ◌+◌, ◌-◌, ◌/◌, ◌%◌, ◌^◌, List, [], ◌∷◌, ◌++◌, ltb, if◌then◌else◌, length, take, drop, min,
}
use ferrosync.Base.Int.{ℤ, i32_of_bits}

pub record BasisRef : Type 0 where
  pub offset : ℕ
  pub len : ℕ

-- `(self.offset / blength as u64) as i32`
unfoldable pub block_index : BasisRef → ℕ → ℤ
block_index r blength = i32_of_bits (r.offset / blength % 2 ^ 32)

pub data DiffOp : Type 0 where
  literal : List ℕ → DiffOp
  copy : BasisRef → DiffOp

-- `basis[offset..(offset + len).min(basis.len())]`, where the offset lies inside.
unfoldable pub slice_basis : List ℕ → ℕ → ℕ → List ℕ
slice_basis basis offset len =
    let end = min (offset + len) (length basis) in
    if ltb offset (length basis) then take (end - offset) (drop offset basis) else []

unfoldable pub apply_op : List ℕ → DiffOp → List ℕ
unfolding slice_basis
apply_op basis (literal bytes) = bytes
apply_op basis (copy r) = slice_basis basis r.offset r.len

unfoldable pub apply_diffops : List ℕ → List DiffOp → List ℕ
unfolding apply_op
apply_diffops basis [] = []
apply_diffops basis (op ∷ ops) = apply_op basis op ++ apply_diffops basis ops
