-- ===== src/Engine/Transfer.antt =====
-- A file from the sender to the receiver: the composition of generator.rs, sender.rs and receiver.rs
-- of crates/ferrosync-engine/src.
use ferrosync.Base.{
  ℕ, suc, ◌^◌, ◌<◌, ◌≡◌, refl, ap, ◌∙◌, subst, List, [], ◌∷◌, ◌++◌, append_assoc, some, true,
  length, All, All-map, arith, if_true,
}
use ferrosync.Base.Int.{ℤ, i32_bits}
use ferrosync.Base.Bytes.{IsByte}
use ferrosync.Wire.Stream.{Reader, ok, read_exact, read_exact-append, bind_ok}
use ferrosync.Wire.Fixed.{write_int}
use ferrosync.Delta.Context.{Hashes, ProtocolContext, digest_len, checksum2, file_checksum}
use ferrosync.Delta.Context.Lengths.{length-file_checksum}
use ferrosync.Delta.Sum.{SumStruct, as_usize}
use ferrosync.Delta.Ops.{DiffOp, apply_diffops}
use ferrosync.Delta.Token.{write_diffops, send_eof}
use ferrosync.Delta.Matcher.{same_bytes, match_blocks}
use ferrosync.Delta.Matcher.Step.{NoCollision}
use ferrosync.Delta.Matcher.Emitted.{match_blocks-IsEmitted}
use ferrosync.Delta.Matcher.Rebuild.{match_blocks-rebuilds}
use ferrosync.Delta.Signatures.{compute_signatures}
use ferrosync.Delta.Signatures.Signs.{compute_signatures-IsSignatureOf}
use ferrosync.Engine.Sender.{
  with_checksum, with_index, send_ops, write_tokens_and_checksum, send_file_delta_with_sums,
}
use ferrosync.Engine.Receiver.{verify, verify_loop, recv_file_delta}
use ferrosync.Engine.Receiver.Run.{run, run-send_eof, IsReceivable, write_diffops-Sends}
use ferrosync.Engine.Receivable.{compute_signatures-IsReceivable, compute_signatures-blength}

same_bytes_refl : (xs : List ℕ) → same_bytes xs xs ≡ true
same_bytes_refl [] = refl
same_bytes_refl (x ∷ xs) = ground (arith, same_bytes_refl xs)

-- The checksum of the sender is the receiver's.
verify-file_checksum :
    (hashes : Hashes) (ctx : ProtocolContext) (source rest : List ℕ)
    → verify hashes ctx source (file_checksum hashes ctx source ++ rest) ≡ ok (source, rest)
verify-file_checksum hashes ctx source rest =
    bind_ok (read_exact (digest_len ctx.checksum_type)) _ _ checksum_read
    ∙ ap (λ (m : Reader (List ℕ)). m rest)
        (if_true _ _ (same_bytes_refl (file_checksum hashes ctx source)))
  where
    checksum_read :
        read_exact (digest_len ctx.checksum_type) (file_checksum hashes ctx source ++ rest)
        ≡ ok (file_checksum hashes ctx source, rest)
    checksum_read =
        subst
          (λ (n : ℕ).
            read_exact n (file_checksum hashes ctx source ++ rest)
            ≡ ok (file_checksum hashes ctx source, rest))
          (length-file_checksum hashes ctx source)
          (read_exact-append (file_checksum hashes ctx source) rest)

-- Operations that the receiver can take give it the file, and the bytes after it are left.
transfer_ops :
    (hashes : Hashes) (ctx : ProtocolContext) (file_index : ℤ) (basis source rest : List ℕ)
    (s : SumStruct) (ops : List DiffOp)
    → match_blocks (checksum2 hashes ctx) ctx.char_offset source s ≡ some ops
    → apply_diffops basis ops ≡ source
    → i32_bits s.head.blength ≡ as_usize s.head.blength
    → All (IsReceivable basis (as_usize s.head.blength)) ops
    → (tokens : List ℕ) × (send_file_delta_with_sums hashes ctx file_index source s
        ≡ some (ok (write_int file_index ++ tokens)))
      × (recv_file_delta hashes ctx basis (as_usize s.head.blength) (tokens ++ rest)
          ≡ some (ok (source, rest)))
unfolding send_file_delta_with_sums write_tokens_and_checksum recv_file_delta
transfer_ops hashes ctx file_index basis source rest s ops found rebuilt same receivable =
    let (bytes, written, received) =
      write_diffops-Sends basis (as_usize s.head.blength) ops receivable in
    (
      bytes ++ (send_eof ++ file_checksum hashes ctx source),
      ap (send_ops hashes ctx file_index source s) found
          ∙ ap (λ r. some (with_index hashes ctx file_index (with_checksum hashes ctx source r)))
              (ap (λ (n : ℕ). write_diffops n ops) same ∙ written),
      ap (verify_loop hashes ctx) (
            ap (run basis (as_usize s.head.blength) []) (
              append_assoc bytes _ rest
              ∙ ap (λ t. bytes ++ t) (append_assoc send_eof (file_checksum hashes ctx source) rest))
            ∙ received [] _
            ∙ run-send_eof basis (as_usize s.head.blength) _ _
            ∙ ap (λ out. some (ok (out, file_checksum hashes ctx source ++ rest))) rebuilt)
          ∙ ap (λ r. some r) (verify-file_checksum hashes ctx source rest),
    )

-- End to end: the tokens that the sender writes for the receiver's signature of its basis make the
-- receiver build the source and accept its checksum, and leave the bytes behind them. This is for a
-- source of bytes, a signature that could be computed, with a block length below 2^31 and fewer than
-- 2^31 - 1 entries, and strong checksums that do not collide between a block and a window.
pub recv_file_delta-send_file_delta :
    (hashes : Hashes) (ctx : ProtocolContext) (file_index : ℤ) (basis source rest : List ℕ)
    (s : SumStruct)
    → All IsByte source
    → compute_signatures hashes ctx basis ≡ some s
    → as_usize s.head.blength < 2 ^ 31
    → suc (length s.sums) < 2 ^ 31
    → NoCollision
        (checksum2 hashes ctx)
        basis
        source
        s.sums
        (as_usize s.head.blength)
        (as_usize s.head.s2length)
        (as_usize s.head.count)
        (as_usize s.head.remainder)
        ctx.char_offset
    → (tokens : List ℕ) × (send_file_delta_with_sums hashes ctx file_index source s
        ≡ some (ok (write_int file_index ++ tokens)))
      × (recv_file_delta hashes ctx basis (as_usize s.head.blength) (tokens ++ rest)
          ≡ some (ok (source, rest)))
recv_file_delta-send_file_delta hashes ctx file_index basis source rest s bytes made small few
      free =
    let (ops, found, rebuilt) =
      match_blocks-rebuilds (checksum2 hashes ctx) ctx.char_offset basis source s bytes
        (compute_signatures-IsSignatureOf hashes ctx basis source s made (omega arith)
          (omega arith))
        free in
    transfer_ops hashes ctx file_index basis source rest s ops found rebuilt
      (compute_signatures-blength hashes ctx basis s made small)
      (All-map (λ op. compute_signatures-IsReceivable hashes ctx basis source s op made small few)
        ops (match_blocks-IsEmitted (checksum2 hashes ctx) ctx.char_offset source s ops found))
