-- ===== src/Mux/Frame/RoundTrip.antt =====
-- `read_message` against `write_message`.
use ferrosync.Base.{
  sym, if_true, if_false, Bool, true, false, Bool-cases, inl, inr, leb, if◌then◌else◌, take, drop,
  ℕ, ◌+◌, ◌-◌, ◌*◌, ◌/◌, ◌%◌, ◌^◌, ◌<◌, ◌≤◌, ◌≡◌, refl, ap, ◌∙◌, List, ◌++◌, length, arith, le→ltb,
  lt→ltb, append_assoc,
}
use ferrosync.Base.Bytes.{le_bytes, from_le_bytes, from_le_bytes-le_bytes}
use ferrosync.Base.Int.{ℤ, i32_of_bits}
use ferrosync.Wire.Stream.{
  Result, ok, err, io, ◌>>=◌, pure, read_exact_lem, bind_err, read_exact, read_exact-append,
  bind_ok, frame_too_large,
}
use ferrosync.Mux.Code.{
  MsgCode, data_msg, info, warning, log, client, redo, stats, io_error, io_timeout, noop,
  error_exit, success, deleted, no_send, code_tag, from_tag-code_tag, code_tag-lt,
}
use ferrosync.Mux.Frame.{
  MplexMessage, data_message, info_message, error_message, warning_message, log_message,
  redo_message, success_message, deleted_message, no_send_message, io_error_message,
  io_timeout_message, stats_message, noop_message, error_exit_message, max_payload, mplex_base,
  read_i32, read_payload, read_frame, read_message, write_message,
}

-- The codes whose reader takes a number, of 4 bytes.
abbrev pub has_number : MsgCode → Bool
has_number redo = true
has_number io_error = true
has_number io_timeout = true
has_number _ = false

module _ {Text : Type 0} (lossy : List ℕ → Text) where
  -- The message that a code and a payload stand for.
  abbrev pub message_of : MsgCode → List ℕ → MplexMessage Text
  message_of data_msg b = data_message b
  message_of info b = info_message (lossy b)
  message_of warning b = warning_message (lossy b)
  message_of log b = log_message (lossy b)
  message_of client b = log_message (lossy b)
  message_of redo b = redo_message (i32_of_bits (from_le_bytes b))
  message_of success b = success_message (lossy b)
  message_of deleted b = deleted_message (lossy b)
  message_of no_send b = no_send_message (lossy b)
  message_of io_error b = io_error_message (i32_of_bits (from_le_bytes b))
  message_of io_timeout b = io_timeout_message (i32_of_bits (from_le_bytes b))
  message_of stats b = stats_message b
  message_of noop b = noop_message
  message_of error_exit b = error_exit_message b
  message_of code b = error_message code (lossy b)

  -- What the reader gets from a payload and the bytes behind it. It does not look at the length of a
  -- payload with a number, or of a keep-alive: it takes 4 bytes, or none, wherever the payload ends.
  abbrev pub delivered : MsgCode → List ℕ → List ℕ → Result (MplexMessage Text × List ℕ)
  delivered noop payload rest = ok (noop_message, payload ++ rest)
  delivered code payload rest =
      if has_number code
      then if leb 4 (length (payload ++ rest))
        then ok (message_of code (take 4 (payload ++ rest)), drop 4 (payload ++ rest))
        else err io
      else ok (message_of code payload, rest)

  read_number :
      (message : ℤ → MplexMessage Text) (s : List ℕ)
      → (read_i32 lossy >>= λ i. pure (message i)) s ≡ (
          if leb 4 (length s)
          then ok (message (i32_of_bits (from_le_bytes (take 4 s))), drop 4 s)
          else err io)
  read_number message s = elim (Bool-cases (leb 4 (length s))) [
    | inl e ↦
        bind_ok (read_i32 lossy) (λ i. pure (message i)) s
          (bind_ok (read_exact 4) (λ buf. pure (i32_of_bits (from_le_bytes buf))) s
            (read_exact_lem 4 s ∙ if_true _ _ e))
        ∙ sym (if_true _ _ e)
    | inr e ↦
        bind_err (read_i32 lossy) (λ i. pure (message i)) s
          (bind_err (read_exact 4) (λ buf. pure (i32_of_bits (from_le_bytes buf))) s
            (read_exact_lem 4 s ∙ if_false _ _ e))
        ∙ sym (if_false _ _ e)
  ]

  read_payload_lem :
      (code : MsgCode) (payload rest : List ℕ)
      → read_payload lossy code (length payload) (payload ++ rest) ≡ delivered code payload rest
  unfolding read_payload
  read_payload_lem redo payload rest = read_number redo_message (payload ++ rest)
  read_payload_lem io_error payload rest = read_number io_error_message (payload ++ rest)
  read_payload_lem io_timeout payload rest = read_number io_timeout_message (payload ++ rest)
  read_payload_lem noop payload rest = refl
  read_payload_lem _ payload rest = ground (arith, read_exact-append payload rest)

-- The header word of a frame.
abbrev pub header_of : MsgCode → ℕ → ℕ
header_of code len = (mplex_base + code_tag code) * 2 ^ 24 + len

pub write_message_lem :
    (code : MsgCode) (payload : List ℕ)
    → length payload ≤ max_payload
    → write_message code payload ≡ ok (le_bytes 4 (header_of code (length payload)) ++ payload)
unfolding write_message
write_message_lem code payload h =
    let len : length payload % 2 ^ 32 ≡ length payload = omega arith in
    rw (len, le→ltb max_payload (length payload) h)

-- A payload of more than 24 bits of length, and less than 2^32 bytes, is refused.
pub write_message_refuses :
    (code : MsgCode) (payload : List ℕ)
    → max_payload < length payload
    → length payload < 2 ^ 32
    → write_message code payload ≡ err (frame_too_large (length payload) max_payload)
unfolding write_message
write_message_refuses code payload h k =
    let len : length payload % 2 ^ 32 ≡ length payload = omega arith in
    rw (len, lt→ltb max_payload (length payload) h)

pub from_header :
    (code : MsgCode) (len : ℕ)
    → len ≤ max_payload
    → from_le_bytes (le_bytes 4 (header_of code len)) ≡ header_of code len
from_header code len h = from_le_bytes-le_bytes 4 _ (omega (arith, code_tag-lt code))

pub header_len : (code : MsgCode) (len : ℕ) → len ≤ max_payload → header_of code len % 2 ^ 24 ≡ len
header_len code len h = omega arith

pub header_tag :
    (code : MsgCode) (len : ℕ)
    → len ≤ max_payload
    → header_of code len / 2 ^ 24 % 2 ^ 8 ≡ mplex_base + code_tag code
header_tag code len h = omega (arith, code_tag-lt code)

module _ {Text : Type 0} (lossy : List ℕ → Text) where
  read_frame_header :
      (code : MsgCode) (len : ℕ) (s : List ℕ)
      → len ≤ max_payload
      → read_frame lossy (header_of code len) s ≡ read_payload lossy code len s
  unfolding read_frame
  read_frame_header code len s h =
      let back : mplex_base + code_tag code - mplex_base ≡ code_tag code = omega arith in
      let base : mplex_base ≤ mplex_base + code_tag code = omega arith in
      rw (header_tag code len h, le→ltb _ mplex_base base, back, from_tag-code_tag code)
        (ap (λ (l : ℕ). read_payload lossy code l s) (header_len code len h))

  -- What `read_message` makes of a frame of `write_message`, whatever the payload of at most 2^24 - 1
  -- bytes and whatever comes behind it. Most codes give the message of the payload and leave what is
  -- behind the frame; a Success is such a text. For Redo, IoError and IoTimeout the number is the next
  -- 4 bytes, even where the payload ends before them, and the bytes after those 4 are left, even those
  -- of the payload; fewer than 4 bytes are an error. A Noop leaves its whole payload in the stream.
  pub read_message-write_message :
      (code : MsgCode) (payload frame rest : List ℕ)
      → length payload ≤ max_payload
      → write_message code payload ≡ ok frame
      → read_message lossy (frame ++ rest) ≡ delivered lossy code payload rest
  unfolding read_message
  read_message-write_message code payload frame rest h e =
      let len : ℕ = length payload in
      let word : List ℕ = le_bytes 4 (header_of code len) in
      let written : frame ≡ word ++ payload = cc (write_message_lem code payload h) in
      rw (written, append_assoc)
        (bind_ok (read_exact 4) _ _ (read_exact-append word (payload ++ rest))
          ∙ ap (λ (w : ℕ). read_frame lossy w (payload ++ rest)) (from_header code len h)
          ∙ read_frame_header code len (payload ++ rest) h
          ∙ read_payload_lem lossy code payload rest)
