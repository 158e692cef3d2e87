-- ===== src/Engine/Receiver/ToWriter/Blocks.antt =====
-- The receiver that writes takes the blocks that the receiver that keeps the file takes.
use ferrosync.Base.{ℕ, zero, suc, ◌≡◌, refl, List, [], ◌∷◌, arith}
use ferrosync.Engine.Receiver.{block_count, basis_remainder}
use ferrosync.Engine.Receiver.ToWriter.{writer_block_count, writer_remainder}

pub writer_block_count-block_count :
    (basis : List ℕ) (blength : ℕ) → writer_block_count basis blength ≡ block_count basis blength
unfolding writer_block_count block_count
writer_block_count-block_count [] blength = refl
writer_block_count-block_count (b ∷ basis) zero = refl
writer_block_count-block_count (b ∷ basis) (suc n) = ground arith

pub writer_remainder-basis_remainder :
    (basis : List ℕ) (blength : ℕ) → writer_remainder basis blength ≡ basis_remainder basis blength
unfolding writer_remainder basis_remainder
writer_remainder-basis_remainder [] blength = refl
writer_remainder-basis_remainder (b ∷ basis) zero = refl
writer_remainder-basis_remainder (b ∷ basis) (suc n) = ground arith
