-- ===== src/Delta/Token/Compressed/Reader.antt =====
-- `CompressedTokenReader` of crates/ferrosync-delta/src/token.rs: a read gives the token and the state
-- after it.
use ferrosync.Base.{
  ℕ, zero, suc, ◌+◌, ◌*◌, ◌/◌, ◌%◌, List, Bool, true, false, ltb, leb, ◌==◌, if◌then◌else◌, length,
}
use ferrosync.Base.Int.{ℤ, pos, ◌+ℤ◌, ◌-ℤ◌, ltb_ℤ, eq_ℤ, wrap_i32}
use ferrosync.Wire.Stream.{
  Reader, Result, ok, err, io, handshake, wire_value_out_of_range, ◌>>=◌, pure, fail, read_exact,
  read_byte,
}
use ferrosync.Wire.Fixed.{read_int}
use ferrosync.Delta.Token.{Token, literal_data, block_match, end_of_file}
use ferrosync.Delta.Token.Compressed.{Compressor, maybe_append_trailer, is_nil, max_data_count}

pub data CompressRecvState : Type 0 where
  init idle running : CompressRecvState

module _ (codec : Compressor) where
  pub record ReaderState : Type 0 where
    pub decompressor : codec.State
    pub rx_token : ℤ
    pub rx_run : ℤ
    pub state : CompressRecvState

  abbrev pub Read : Type 0
  Read = Reader (Token × ReaderState)

  unfoldable pub new_reader : codec.State → ReaderState
  new_reader decompressor = record {
    decompressor = decompressor;
    rx_token = pos 0;
    rx_run = pos 0;
    state = init;
  }

  -- A frame that decompresses to nothing is followed by the next read.
  abbrev pub give_data : (ReaderState → Read) → ReaderState → Result (List ℕ × codec.State) → Read
  give_data again st (err e) = fail e
  give_data again st (ok (bytes, decompressor)) =
      if is_nil bytes
      then again (record st { decompressor = decompressor })
      else pure (literal_data bytes, record st { decompressor = decompressor })

  abbrev pub read_compressed : (ReaderState → Read) → ReaderState → ℕ → Read
  read_compressed again st n =
      if n == 0
      then again st
      else if ltb max_data_count n
      then fail (wire_value_out_of_range (pos n) (pos max_data_count))
      else (do
        compressed ← read_exact n
        give_data again st
            (codec.apply st.decompressor (maybe_append_trailer codec.kind compressed)))

  abbrev pub read_frame : (ReaderState → Read) → ReaderState → ℕ → Read
  read_frame again st flag = do low ← read_byte; read_compressed again st (flag % 64 * 256 + low)

  -- The count of a run follows, or the token is alone.
  abbrev pub read_run : Bool → ReaderState → Read
  read_run false st = pure (block_match st.rx_token, st)
  read_run true st = do
    lo ← read_byte
    hi ← read_byte
    pure (
      block_match st.rx_token,
      record st { rx_run = wrap_i32 (pos (lo + hi * 256)); state = running },
    )

  abbrev pub read_long : ReaderState → ℕ → Read
  read_long st flag = do
    token ← read_int
    if ltb_ℤ token (pos 0)
        then fail handshake
        else read_run (flag % 2 == 1) (record st { rx_token = token })

  abbrev pub read_flag : (ReaderState → Read) → ReaderState → ℕ → Read
  read_flag again st flag =
      if flag / 64 == 1
      then read_frame again st flag
      else if flag == 0
      then pure (end_of_file, record st { state = init })
      else if leb 128 flag
      then read_run (flag / 64 % 2 == 1)
          (record st { rx_token = wrap_i32 (st.rx_token +ℤ pos (flag % 64)) })
      else read_long st flag

  -- A round takes a byte at least. With the stream's length as fuel, none is left only at the
  -- stream's end, where the read of the flag fails.
  unfoldable pub read_idle : ℕ → ReaderState → Read
  unfolding maybe_append_trailer
  read_idle zero st = fail io
  read_idle (suc fuel) st = do flag ← read_byte; read_flag (read_idle fuel) st flag

  abbrev pub read_init : ReaderState → Result codec.State → Read
  read_init st (err e) stream = err e
  read_init st (ok decompressor) stream =
      read_idle (length stream)
        (record st { decompressor = decompressor; state = idle; rx_token = pos 0 }) stream

  abbrev pub read_running : ReaderState → Read
  read_running st =
      let rx_token = wrap_i32 (st.rx_token +ℤ pos 1) in
      let rx_run = wrap_i32 (st.rx_run -ℤ pos 1) in
      pure (
        block_match rx_token,
        record st {
          rx_token = rx_token;
          rx_run = rx_run;
          state = if eq_ℤ rx_run (pos 0) then idle else running;
        },
      )

  abbrev pub read_by : CompressRecvState → ReaderState → Read
  read_by init st stream = read_init st (codec.reset st.decompressor) stream
  read_by running st stream = read_running st stream
  read_by idle st stream = read_idle (length stream) st stream

  unfoldable pub recv_compressed_token : ReaderState → Read
  unfolding read_idle
  recv_compressed_token st = read_by st.state st
