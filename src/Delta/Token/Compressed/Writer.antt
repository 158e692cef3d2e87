-- ===== src/Delta/Token/Compressed/Writer.antt =====
-- `CompressedTokenWriter` of crates/ferrosync-delta/src/token.rs. A write gives the bytes that it
-- appends and the state after it.
use ferrosync.Base.{
  ℕ, ◌+◌, ◌%◌, List, [], ◌∷◌, ◌++◌, Bool, false, ◌&&◌, ◌||◌, not, if◌then◌else◌, length,
}
use ferrosync.Base.Int.{ℤ, pos, negsuc, ◌+ℤ◌, ◌-ℤ◌, ltb_ℤ, eq_ℤ, wrap_i32, i32_bits}
use ferrosync.Base.Bytes.{le_bytes}
use ferrosync.Wire.Stream.{Result, ok, err}
use ferrosync.Wire.Fixed.{write_int, minus_one}
use ferrosync.Mux.Frame.{data_chunk_size, chunks}
use ferrosync.Delta.Token.Compressed.{
  Compressor, maybe_strip_trailer, is_nil, is_last, output_frames,
}
use ferrosync.Delta.Ops.{DiffOp, literal, copy, block_index}

module _ (codec : Compressor) where
  pub record WriterState : Type 0 where
    pub last_token : ℤ
    pub run_start : ℤ
    pub last_run_end : ℤ
    pub flush_pending : Bool
    pub compressor : codec.State
    pub pending_data : List ℕ

  unfoldable pub new_writer : codec.State → WriterState
  new_writer compressor = record {
    last_token = minus_one;
    run_start = pos 0;
    last_run_end = pos 0;
    flush_pending = false;
    compressor = compressor;
    pending_data = [];
  }

  -- The rest of an output that was written is put behind it.
  abbrev pub prepend : {A : Type 0} → List ℕ → Result (List ℕ × A) → Result (List ℕ × A)
  prepend bytes (ok (more, st)) = ok (bytes ++ more, st)
  prepend bytes (err e) = err e

  abbrev pub then_write :
      {A B : Type 0} → Result (List ℕ × A) → (A → Result (List ℕ × B)) → Result (List ℕ × B)
  then_write (ok (bytes, st)) f = prepend bytes (f st)
  then_write (err e) f = err e

  -- The bytes of the flag, of the index where it is absolute, and of the count of a run.
  abbrev pub run_bytes : ℤ → ℤ → ℤ → List ℕ
  run_bytes start r n =
      (if not (ltb_ℤ r (pos 0)) && not (ltb_ℤ (pos 63) r)
        then ((if eq_ℤ n (pos 0) then 0x80 else 0xc0) + i32_bits r % 256) ∷ []
        else (if eq_ℤ n (pos 0) then 0x20 else 0x21) ∷ write_int start)
      ++ (if eq_ℤ n (pos 0) then [] else le_bytes 2 (i32_bits n))

  unfoldable pub flush_run : WriterState → List ℕ × WriterState
  flush_run st = (
    run_bytes st.run_start (wrap_i32 (st.run_start -ℤ st.last_run_end))
        (wrap_i32 (st.last_token -ℤ st.run_start)),
    record st { last_run_end = st.last_token },
  )

  -- A compressed chunk, without its trailer where it is the last one and a flush is due.
  abbrev pub chunk_frames : Bool → List (List ℕ) → List ℕ → List ℕ
  chunk_frames do_flush rest compressed =
      output_frames
        (if is_last rest && do_flush then maybe_strip_trailer codec.kind compressed else compressed)

  abbrev pub then_compress : {A B : Type 0} → Result A → (A → Result B) → Result B
  then_compress (ok a) f = f a
  then_compress (err e) f = err e

  unfoldable pub compress_chunks :
      Bool → codec.State → List (List ℕ) → Result (List ℕ × codec.State)
  unfolding output_frames maybe_strip_trailer
  compress_chunks do_flush compressor [] = ok ([], compressor)
  compress_chunks do_flush compressor (chunk ∷ rest) =
      then_compress (codec.apply compressor chunk)
        (λ r. prepend (chunk_frames do_flush rest (r.0)) (compress_chunks do_flush (r.1) rest))

  -- No data is one empty chunk, where a flush is pending.
  abbrev pub chunks_of : Bool → List ℕ → List (List ℕ)
  chunks_of flush_pending text =
      if is_nil text
      then (if flush_pending then [] ∷ [] else [])
      else chunks data_chunk_size (length text) text

  unfoldable pub compress_and_send : WriterState → List ℕ → Bool → Result (List ℕ × WriterState)
  unfolding compress_chunks
  compress_and_send st text do_flush =
      then_compress (compress_chunks do_flush st.compressor (chunks_of st.flush_pending text))
        (λ r. ok (r.0, record st { compressor = r.1 }))

  -- The first token of a file resets the compressor; a token that does not go on with the run
  -- flushes it.
  unfoldable pub begin_token : WriterState → List ℕ → ℤ → Result (List ℕ × WriterState)
  unfolding flush_run
  begin_token st text token =
      if eq_ℤ st.last_token minus_one
      then then_compress (codec.reset st.compressor) (λ compressor. ok (
        [],
        record st {
          compressor = compressor;
          last_run_end = pos 0;
          run_start = token;
          flush_pending = false;
        },
      ))
      else if eq_ℤ st.last_token (negsuc 1)
      then ok ([], record st { run_start = token })
      else if not (is_nil text)
          || not (eq_ℤ token (wrap_i32 (st.last_token +ℤ pos 1)))
          || not (ltb_ℤ token (wrap_i32 (st.run_start +ℤ pos 65536)))
      then (let (bytes, flushed) = flush_run st in ok (bytes, record flushed { run_start = token }))
      else ok ([], st)

  abbrev pub send_pending : WriterState → List ℕ → ℤ → Result (List ℕ × WriterState)
  send_pending st text token =
      if not (is_nil text) || st.flush_pending
      then then_compress (compress_and_send st text (not (eq_ℤ token (negsuc 1))))
          (λ r. ok (r.0, record r.1 { flush_pending = eq_ℤ token (negsuc 1) }))
      else ok ([], st)

  abbrev pub end_token : WriterState → ℤ → Result (List ℕ × WriterState)
  end_token st token = ok (if eq_ℤ token minus_one then 0x00 ∷ [] else [], st)

  unfoldable pub finish_token : List ℕ → ℤ → WriterState → Result (List ℕ × WriterState)
  unfolding compress_and_send
  finish_token text token begun =
      then_write (send_pending (record begun { last_token = token }) text token)
        (λ sent. end_token sent token)

  -- Token -1 is the end of the file, and -2 is data alone.
  unfoldable pub send_compressed_token : WriterState → List ℕ → ℤ → Result (List ℕ × WriterState)
  unfolding begin_token finish_token
  send_compressed_token st text token =
      then_write (begin_token st text token) (finish_token text token)

  unfoldable pub write_compressed_data : WriterState → List ℕ → Result (List ℕ × WriterState)
  unfolding send_compressed_token
  write_compressed_data st text =
      if is_nil st.pending_data
      then ok ([], record st { pending_data = text })
      else send_compressed_token (record st { pending_data = text }) st.pending_data (negsuc 1)

  unfoldable pub write_compressed_match : WriterState → ℤ → Result (List ℕ × WriterState)
  unfolding send_compressed_token
  write_compressed_match st index =
      send_compressed_token (record st { pending_data = [] }) st.pending_data index

  unfoldable pub write_compressed_eof : WriterState → Result (List ℕ × WriterState)
  unfolding send_compressed_token
  write_compressed_eof st =
      send_compressed_token (record st { pending_data = [] }) st.pending_data minus_one

  -- One operation of `write_diffops`, with the compressed writer.
  unfoldable pub write_compressed_op : ℕ → WriterState → DiffOp → Result (List ℕ × WriterState)
  unfolding write_compressed_data write_compressed_match
  write_compressed_op blength st (literal bytes) = write_compressed_data st bytes
  write_compressed_op blength st (copy r) = write_compressed_match st (block_index r blength)

  -- `write_diffops` with the compressed writer, and the end of the file after it.
  unfoldable pub write_compressed_ops :
      ℕ → WriterState → List DiffOp → Result (List ℕ × WriterState)
  unfolding write_compressed_op write_compressed_eof
  write_compressed_ops blength st [] = write_compressed_eof st
  write_compressed_ops blength st (op ∷ ops) =
      then_write (write_compressed_op blength st op) (λ next. write_compressed_ops blength next ops)
