-- ===== src/Runs/Tokens.antt =====
-- Compressed tokens, with a compressor that leaves the bytes as they are.
use ferrosync.Base.{
  ℕ, zero, suc, ltb, lt→ltb, if_true, if◌then◌else◌, length, replicate, take, length-take, ◌*◌, ◌≡◌,
  refl, List, [], ◌∷◌, ◌++◌, arith,
}
use ferrosync.Base.Int.{pos, ◌+ℤ◌, ◌-ℤ◌}
use ferrosync.Wire.Stream.{ok, err, io}
use ferrosync.Wire.Fixed.{write_int}
use ferrosync.Delta.Ops.{DiffOp, copy, block_index}
use ferrosync.Delta.Token.{literal_data}
use ferrosync.Delta.Token.Compressed.{
  Compressor, zstd, lz4, output_frames, maybe_append_trailer, max_data_count,
}
use ferrosync.Delta.Token.Compressed.Writer.{
  WriterState, new_writer, write_compressed_ops, write_compressed_op, write_compressed_match,
  write_compressed_eof, send_compressed_token, begin_token, finish_token, flush_run,
  compress_and_send,
}
use ferrosync.Delta.Token.Compressed.Reader.{ReaderState, new_reader, recv_compressed_token}
use ferrosync.Delta.Token.Compressed.Runs.{IsRead, idle_at}
use ferrosync.Delta.Token.Compressed.Frames.{
  recv_compressed_token-output_frames, recv_compressed_token-output_frames_cut,
}
use ferrosync.Delta.Token.Compressed.Pending.{tokens_of, IsBlocks}
use ferrosync.Delta.Token.Compressed.RoundTrip.{recv_compressed_token-write_compressed_ops}

abbrev plain : Compressor
plain = record { State = ℕ; kind = zstd; reset = λ s. ok 0; apply = λ s xs. ok (xs, s) }

abbrev block : ℕ → DiffOp
block i = copy (record { offset = i * 2; len = 2 })

abbrev some_blocks : List DiffOp
some_blocks = block 1 ∷ block 2 ∷ block 3 ∷ block 100 ∷ []

abbrev their_numbers : List ℕ
their_numbers = 1 ∷ 2 ∷ 3 ∷ 100 ∷ []

some_blocks-IsBlocks : IsBlocks 2 some_blocks their_numbers
unfolding block_index
some_blocks-IsBlocks =
    (refl, omega arith, (refl, omega arith, (refl, omega arith, (refl, omega arith, tt))))

recv_compressed_token-write_compressed_ops_example :
    (bytes : List ℕ) × (st : WriterState plain) × (rd : ReaderState plain) × (write_compressed_ops
        plain 2
        (new_writer plain 5)
        some_blocks
      ≡ ok (bytes, st))
    × IsRead plain (new_reader plain 7) (bytes ++ 9 ∷ []) (tokens_of their_numbers) rd (9 ∷ [])
recv_compressed_token-write_compressed_ops_example =
    recv_compressed_token-write_compressed_ops plain plain 2 some_blocks their_numbers (9 ∷ []) 5 0
      7 0 some_blocks-IsBlocks refl refl

-- A run of three from 1 on, a block at an absolute index, and the end of the file.
run_write_compressed_ops :
    (st : WriterState plain) × (write_compressed_ops plain 2 (new_writer plain 5) some_blocks
      ≡ ok (0xc1 ∷ 2 ∷ 0 ∷ 0x20 ∷ 100 ∷ 0 ∷ 0 ∷ 0 ∷ 0 ∷ [], st))
unfolding write_compressed_ops write_compressed_op write_compressed_match write_compressed_eof
    send_compressed_token begin_token finish_token flush_run compress_and_send new_writer
    block_index write_int ◌+ℤ◌ ◌-ℤ◌
run_write_compressed_ops = (_, refl)

-- A compressor without trailer leaves 3 bytes as they are, in one frame.
recv_compressed_token-output_frames_example :
    recv_compressed_token plain
      (idle_at plain 4 (pos 0) 5)
      (output_frames (1 ∷ 2 ∷ 3 ∷ []) ++ 9 ∷ [])
    ≡ ok ((literal_data (1 ∷ 2 ∷ 3 ∷ []), idle_at plain 4 (pos 0) 5), 9 ∷ [])
unfolding maybe_append_trailer
recv_compressed_token-output_frames_example =
    recv_compressed_token-output_frames plain 4 (pos 0) 5 5 1 1 (2 ∷ 3 ∷ []) (2 ∷ 3 ∷ []) (9 ∷ [])
      (omega arith) refl

-- A decompressor of blocks, which refuses the front of one.
abbrev of_blocks : Compressor
of_blocks = record {
  State = ℕ;
  kind = lz4;
  reset = λ s. ok 0;
  apply = λ s xs. if ltb (length xs) 16384 then err io else ok (xs, s);
}

abbrev zeros : ℕ → List ℕ
zeros n = replicate n 0

length-zeros : (n : ℕ) → length (zeros n) ≡ n
length-zeros zero = refl
length-zeros (suc n) = omega (arith, length-zeros n)

refused_front :
    of_blocks.apply 5 (maybe_append_trailer lz4 (take max_data_count (zeros 16384))) ≡ err io
unfolding maybe_append_trailer
refused_front = if_true (err io) (ok (take max_data_count (zeros 16384), 5)) (
    lt→ltb (length (take max_data_count (zeros 16384))) 16384
      (omega (arith, length-take max_data_count (zeros 16384))))

recv_compressed_token-output_frames_cut_example :
    recv_compressed_token of_blocks
      (idle_at of_blocks 4 (pos 0) 5)
      (output_frames (zeros 16384) ++ 9 ∷ [])
    ≡ err io
recv_compressed_token-output_frames_cut_example =
    recv_compressed_token-output_frames_cut of_blocks 4 (pos 0) 5 0 (zeros 16383) (9 ∷ []) io
      (omega (arith, length-zeros 16383)) refused_front
