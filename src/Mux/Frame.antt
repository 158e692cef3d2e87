-- ===== src/Mux/Frame.antt =====
-- Frames of crates/ferrosync-protocol/src/multiplex.rs: `MplexReader::read_message` and
-- `MplexWriter::write_message`, `write_data`. Logging is not modelled.
pub mod RoundTrip
use ferrosync.Base.{
  ℕ, zero, suc, ◌+◌, ◌-◌, ◌*◌, ◌/◌, ◌%◌, ◌^◌, List, [], ◌∷◌, ◌++◌, ltb, if◌then◌else◌, length, take,
  drop,
}
use ferrosync.Base.Bytes.{le_bytes, from_le_bytes}
use ferrosync.Base.Int.{ℤ, i32_of_bits, i32_bits}
use ferrosync.Wire.Stream.{
  Reader, Result, ok, err, ◌>>=◌, pure, fail, read_exact, invalid_mplex_tag, frame_too_large,
}
use ferrosync.Mux.Code.{
  MsgCode, data_msg, error_xfer, info, error, warning, error_socket, log, client, error_utf8, redo,
  stats, io_error, io_timeout, noop, error_exit, success, deleted, no_send, code_tag, from_tag,
}

abbrev pub max_payload : ℕ
max_payload = 0x00ff_ffff

abbrev pub mplex_base : ℕ
mplex_base = 7

abbrev pub data_chunk_size : ℕ
data_chunk_size = 32 * 1024

-- `MplexMessage`. Its texts are what `String::from_utf8_lossy` makes of the payload.
pub data MplexMessage (Text : Type 0) : Type 0 where
  data_message : List ℕ → MplexMessage Text
  info_message : Text → MplexMessage Text
  error_message : MsgCode → Text → MplexMessage Text
  warning_message : Text → MplexMessage Text
  log_message : Text → MplexMessage Text
  redo_message : ℤ → MplexMessage Text
  success_message : Text → MplexMessage Text
  deleted_message : Text → MplexMessage Text
  no_send_message : Text → MplexMessage Text
  io_error_message : ℤ → MplexMessage Text
  io_timeout_message : ℤ → MplexMessage Text
  stats_message : List ℕ → MplexMessage Text
  noop_message : MplexMessage Text
  error_exit_message : List ℕ → MplexMessage Text

abbrev pub lift : {A : Type 0} → Result A → Reader A
lift (ok a) = pure a
lift (err e) = fail e

module _ {Text : Type 0} (from_utf8_lossy : List ℕ → Text) where
  unfoldable pub read_text : ℕ → Reader Text
  read_text len = do buf ← read_exact len; pure (from_utf8_lossy buf)

  abbrev pub read_i32 : Reader ℤ
  read_i32 = do buf ← read_exact 4; pure (i32_of_bits (from_le_bytes buf))

  -- The payload of a message, by its code. The fixed-size messages do not look at the length.
  unfoldable pub read_payload : MsgCode → ℕ → Reader (MplexMessage Text)
  unfolding read_text
  read_payload data_msg len = do buf ← read_exact len; pure (data_message buf)
  read_payload info len = do text ← read_text len; pure (info_message text)
  read_payload warning len = do text ← read_text len; pure (warning_message text)
  read_payload error len = do text ← read_text len; pure (error_message error text)
  read_payload error_xfer len = do text ← read_text len; pure (error_message error_xfer text)
  read_payload error_socket len = do text ← read_text len; pure (error_message error_socket text)
  read_payload error_utf8 len = do text ← read_text len; pure (error_message error_utf8 text)
  read_payload log len = do text ← read_text len; pure (log_message text)
  read_payload client len = do text ← read_text len; pure (log_message text)
  read_payload redo len = do i ← read_i32; pure (redo_message i)
  read_payload success len = do text ← read_text len; pure (success_message text)
  read_payload deleted len = do text ← read_text len; pure (deleted_message text)
  read_payload no_send len = do text ← read_text len; pure (no_send_message text)
  read_payload io_error len = do i ← read_i32; pure (io_error_message i)
  read_payload io_timeout len = do i ← read_i32; pure (io_timeout_message i)
  read_payload stats len = do buf ← read_exact len; pure (stats_message buf)
  read_payload noop len = pure noop_message
  read_payload error_exit len = do buf ← read_exact len; pure (error_exit_message buf)

  -- The message of a header word: `raw & MAX_PAYLOAD` is its low 24 bits, and `(raw >> 24) as u8`
  -- the 8 bits above them.
  unfoldable pub read_frame : ℕ → Reader (MplexMessage Text)
  unfolding read_payload
  read_frame raw =
      let payload_len = raw % 2 ^ 24 in
      let tag_byte = raw / 2 ^ 24 % 2 ^ 8 in
      if ltb tag_byte mplex_base
      then fail (invalid_mplex_tag tag_byte)
      else (do code ← lift (from_tag (tag_byte - mplex_base)); read_payload code payload_len)

  unfoldable pub read_message : Reader (MplexMessage Text)
  unfolding read_frame
  read_message = do hdr ← read_exact 4; read_frame (from_le_bytes hdr)

-- The bytes of a frame. `payload.len() as u32` keeps the low 32 bits; `(tag << 24) | len` is a sum.
unfoldable pub write_message : MsgCode → List ℕ → Result (List ℕ)
write_message code payload =
    let len = length payload % 2 ^ 32 in
    if ltb max_payload len
    then err (frame_too_large len max_payload)
    else ok (le_bytes 4 ((mplex_base + code_tag code) * 2 ^ 24 + len) ++ payload)

-- `data.chunks(size)` on a slice of at most `fuel` bytes.
unfoldable pub chunks : ℕ → ℕ → List ℕ → List (List ℕ)
chunks size zero xs = []
chunks size (suc fuel) [] = []
chunks size (suc fuel) (x ∷ xs) = take size (x ∷ xs) ∷ chunks size fuel (drop size (x ∷ xs))

-- The frames of a list of chunks, up to the first that is refused.
unfoldable pub write_chunks : List (List ℕ) → Result (List ℕ)
unfolding write_message
write_chunks [] = ok []
write_chunks (c ∷ cs) = elim (write_message data_msg c) [
  | ok frame ↦ elim (write_chunks cs) [ ok rest ↦ ok (frame ++ rest) | err e ↦ err e ]
  | err e ↦ err e
]

unfoldable pub write_data : List ℕ → Result (List ℕ)
unfolding chunks write_chunks
write_data xs = write_chunks (chunks data_chunk_size (length xs) xs)

-- `write_index`: a control message with an index.
unfoldable pub write_index : MsgCode → ℤ → Result (List ℕ)
unfolding write_message
write_index code idx = write_message code (le_bytes 4 (i32_bits idx))
