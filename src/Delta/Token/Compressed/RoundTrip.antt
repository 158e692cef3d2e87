-- ===== src/Delta/Token/Compressed/RoundTrip.antt =====
-- Block matches, written with compressed tokens, are read back.
use ferrosync.Base.{ℕ, ◌≡◌, ap, ◌∙◌, List, [], ◌∷◌, ◌++◌, false, arith}
use ferrosync.Base.Int.{ℤ, pos}
use ferrosync.Wire.Stream.{Result, ok}
use ferrosync.Wire.Fixed.{minus_one}
use ferrosync.Delta.Ops.{DiffOp, literal, copy}
use ferrosync.Delta.Token.{Token, block_match, end_of_file}
use ferrosync.Delta.Token.Compressed.{Compressor}
use ferrosync.Delta.Token.Compressed.Writer.{
  WriterState, prepend, then_write, then_compress, begin_token, finish_token, compress_and_send,
  send_compressed_token, write_compressed_match, write_compressed_eof, write_compressed_op,
  write_compressed_ops, new_writer,
}
use ferrosync.Delta.Token.Compressed.Reader.{
  ReaderState, read_init, recv_compressed_token, new_reader,
}
use ferrosync.Delta.Token.Compressed.Runs.{idle_at, IsRead}
use ferrosync.Delta.Token.Compressed.Matches.{run_at}
use ferrosync.Delta.Token.Compressed.Pending.{
  tokens_of, IsBlocks, ended, end-IsRead, pending-IsSent,
}

-- The first token of a file.
module _ (codec inflater : Compressor) where
  started : codec.State → ℤ → codec.State → Result (List ℕ × WriterState codec)
  started c token compressor = ok (
    [],
    record (new_writer codec c) {
      compressor = compressor;
      last_run_end = pos 0;
      run_start = token;
      flush_pending = false;
    },
  )

  write_match-new_writer :
      (n : ℕ) (c c' : codec.State)
      → codec.reset c ≡ ok c'
      → write_compressed_match codec (new_writer codec c) (pos n) ≡ ok ([], run_at codec n n 0 c')
  unfolding write_compressed_match send_compressed_token begin_token finish_token compress_and_send
      started new_writer
  write_match-new_writer n c c' reset =
      ap
        (λ r.
          then_write codec (then_compress codec r (started c (pos n)))
            (finish_token codec [] (pos n)))
        reset

  write_eof-new_writer :
      (c c' : codec.State)
      → codec.reset c ≡ ok c'
      → (st : WriterState codec) × (write_compressed_eof codec (new_writer codec c)
          ≡ ok (0x00 ∷ [], st))
  unfolding write_compressed_eof send_compressed_token begin_token finish_token compress_and_send
      started new_writer
  write_eof-new_writer c c' reset = (
    _,
    ap
        (λ r.
          then_write codec (then_compress codec r (started c minus_one))
            (finish_token codec [] minus_one))
        reset,
  )

  recv-new_reader :
      (d d' : inflater.State) (s : List ℕ)
      → inflater.reset d ≡ ok d'
      → recv_compressed_token inflater (new_reader inflater d) s
        ≡ recv_compressed_token inflater (idle_at inflater 0 (pos 0) d') s
  unfolding recv_compressed_token new_reader
  recv-new_reader d d' s reset = ap (λ r. read_init inflater (new_reader inflater d) r s) reset

  IsRead-new_reader :
      (d d' : inflater.State) (s rest : List ℕ) (t : Token) (ts : List Token)
      (rd : ReaderState inflater)
      → inflater.reset d ≡ ok d'
      → IsRead inflater (idle_at inflater 0 (pos 0) d') s (t ∷ ts) rd rest
      → IsRead inflater (new_reader inflater d) s (t ∷ ts) rd rest
  IsRead-new_reader d d' s rest t ts rd reset (mid, left, got, more) =
      (mid, left, recv-new_reader d d' s reset ∙ got, more)

-- Copies that the compressed writer writes, with the end of the file, are read back by the compressed
-- reader as the same blocks in order and the end of the file, and the bytes behind are left. This is
-- for both sides new, resets that succeed, and block numbers below 2^31 - 65536.
pub recv_compressed_token-write_compressed_ops :
    (codec inflater : Compressor) (blength : ℕ) (ops : List DiffOp) (ns : List ℕ) (rest : List ℕ)
    (c c' : codec.State) (d d' : inflater.State)
    → IsBlocks blength ops ns
    → codec.reset c ≡ ok c'
    → inflater.reset d ≡ ok d'
    → (bytes : List ℕ) × (st : WriterState codec) × (rd : ReaderState inflater)
      × (write_compressed_ops codec blength (new_writer codec c) ops ≡ ok (bytes, st))
      × IsRead inflater (new_reader inflater d) (bytes ++ rest) (tokens_of ns) rd rest
unfolding write_compressed_ops write_compressed_op
recv_compressed_token-write_compressed_ops codec inflater blength [] [] rest c c' d d' h k l =
    let (st, wrote) = write_eof-new_writer codec inflater c c' k in
    (
      0x00 ∷ [],
      st,
      ended codec inflater 0 (pos 0) d',
      wrote,
      IsRead-new_reader codec inflater d d' (0x00 ∷ rest) rest end_of_file [] _ l
          (end-IsRead codec inflater 0 (pos 0) d' rest),
    )
recv_compressed_token-write_compressed_ops codec inflater blength [] (n ∷ ns) rest c c' d d' h k l =
    absurd h
recv_compressed_token-write_compressed_ops codec inflater blength (literal b ∷ ops) [] rest c c' d
      d' h k l =
    absurd h
recv_compressed_token-write_compressed_ops codec inflater blength (copy r ∷ ops) [] rest c c' d d' h
      k l =
    absurd h
recv_compressed_token-write_compressed_ops codec inflater blength (literal b ∷ ops) (n ∷ ns) rest c
      c' d d' h k l =
    absurd h
recv_compressed_token-write_compressed_ops codec inflater blength (copy r ∷ ops) (n ∷ ns) rest c c'
      d d' (number, room, h) k l =
    let (bytes, st, wrote, later) =
      pending-IsSent codec inflater blength c' ops ns 0 n n 0 h (omega arith) (omega arith) room
        (omega arith) in
    let (rd, read) = later (pos 0) d' rest in
    (
      bytes,
      st,
      rd,
      ap (λ m. then_write codec m (λ next. write_compressed_ops codec blength next ops))
            (ap (write_compressed_match codec (new_writer codec c)) number
              ∙ write_match-new_writer codec inflater n c c' k)
          ∙ ap (prepend codec []) wrote,
      IsRead-new_reader codec inflater d d' (bytes ++ rest) rest (block_match (pos n))
          (tokens_of ns) rd l read,
    )
