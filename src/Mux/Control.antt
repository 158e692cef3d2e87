-- ===== src/Mux/Control.antt =====
-- `decode_control_message` of crates/ferrosync-protocol/src/multiplex.rs, which the buffered readers use
-- where `MplexReader::read_message` would read the payload.
use ferrosync.Base.{
  subst, ap₂, ◌⊎◌, inl, inr, true, Bool-cases, if_false, leb→le, drop, take-append, drop-append,
  length-append, ◌<◌, [], ℕ, ◌≡◌, ◌≢◌, refl, ap, sym, ◌∙◌, List, ◌++◌, leb, le→leb, if◌then◌else◌,
  if_true, length, take, arith, ◌≤◌,
}
use ferrosync.Base.Int.{ℤ, i32_of_bits}
use ferrosync.Base.Bytes.{from_le_bytes}
use ferrosync.Wire.Stream.{Result, ok, err, io, ok_injective, err_ok}
use ferrosync.Mux.Code.{
  MsgCode, data_msg, error_xfer, info, error, warning, error_socket, log, client, error_utf8, redo,
  stats, io_error, io_timeout, noop, error_exit, success, deleted, no_send, code_tag, from_tag,
}
use ferrosync.Mux.Frame.{
  MplexMessage, info_message, error_message, warning_message, log_message, redo_message,
  success_message, deleted_message, no_send_message, io_error_message, io_timeout_message,
  stats_message, noop_message, error_exit_message, max_payload, read_message, write_message,
}
use ferrosync.Mux.Frame.RoundTrip.{has_number, delivered, read_message-write_message}

module _ {Text : Type 0} (lossy : List ℕ → Text) where
  -- The number in the first four bytes, where there are as many; no message otherwise.
  abbrev pub with_i32 : (List ℕ → MplexMessage Text) → List ℕ → MplexMessage Text
  with_i32 message payload =
      if leb 4 (length payload) then message (take 4 payload) else noop_message

  abbrev pub decode_code : Result MsgCode → List ℕ → MplexMessage Text
  decode_code (ok info) payload = info_message (lossy payload)
  decode_code (ok warning) payload = warning_message (lossy payload)
  decode_code (ok error) payload = error_message error (lossy payload)
  decode_code (ok error_xfer) payload = error_message error_xfer (lossy payload)
  decode_code (ok error_socket) payload = error_message error_socket (lossy payload)
  decode_code (ok error_utf8) payload = error_message error_utf8 (lossy payload)
  decode_code (ok log) payload = log_message (lossy payload)
  decode_code (ok client) payload = log_message (lossy payload)
  decode_code (ok redo) payload =
      with_i32 (λ b. redo_message (i32_of_bits (from_le_bytes b))) payload
  decode_code (ok success) payload = success_message (lossy payload)
  decode_code (ok deleted) payload = deleted_message (lossy payload)
  decode_code (ok no_send) payload = no_send_message (lossy payload)
  decode_code (ok io_error) payload =
      with_i32 (λ b. io_error_message (i32_of_bits (from_le_bytes b))) payload
  decode_code (ok io_timeout) payload =
      with_i32 (λ b. io_timeout_message (i32_of_bits (from_le_bytes b))) payload
  decode_code (ok stats) payload = stats_message payload
  decode_code (ok noop) payload = noop_message
  decode_code (ok error_exit) payload = error_exit_message payload
  decode_code (ok data_msg) payload = noop_message
  decode_code (err e) payload = noop_message

  unfoldable pub decode_control_message : ℕ → List ℕ → MplexMessage Text
  unfolding from_tag
  decode_control_message code payload = decode_code (from_tag code) payload

  -- The bytes of a payload that `read_message` does not take.
  abbrev pub unread : MsgCode → List ℕ → List ℕ
  unread noop payload = payload
  unread code payload = if has_number code then drop 4 payload else []

  -- A payload that is too short for its number.
  abbrev pub IsCut : MsgCode → List ℕ → Type 0
  IsCut code payload = (has_number code ≡ true) × (length payload < 4)

  -- What the two decoders make of one frame: the same message, or a number that is cut.
  abbrev pub Agrees : MsgCode → List ℕ → List ℕ → Result (MplexMessage Text × List ℕ) → Type 0
  Agrees code payload rest read =
      (read ≡ ok (decode_control_message (code_tag code) payload, unread code payload ++ rest))
      ⊎ (IsCut code payload
          × (decode_control_message (code_tag code) payload ≡ noop_message)
          × ((s : List ℕ) → read ≢ ok (noop_message, s)))

  abbrev numbered : (ℤ → MplexMessage Text) → List ℕ → Result (MplexMessage Text × List ℕ)
  numbered message s =
      if leb 4 (length s)
      then ok (message (i32_of_bits (from_le_bytes (take 4 s))), drop 4 s)
      else err io

  numbered_other :
      (message : ℤ → MplexMessage Text) (s : List ℕ)
      → ((i : ℤ) → message i ≢ noop_message)
      → (s' : List ℕ) → numbered message s ≢ ok (noop_message, s')
  numbered_other message s other s' same = elim (Bool-cases (leb 4 (length s))) [
    | inl e ↦
        let read : MplexMessage Text × List ℕ =
          (message (i32_of_bits (from_le_bytes (take 4 s))), drop 4 s) in
        let pair : read ≡ (noop_message, s') =
          ok_injective read (noop_message, s') (sym (if_true _ _ e) ∙ same) in
        other (i32_of_bits (from_le_bytes (take 4 s)))
          (ap (λ (p : MplexMessage Text × List ℕ). p.0) pair)
    | inr e ↦ err_ok (sym (if_false _ _ e) ∙ same)
  ]

  number_agrees :
      (message : ℤ → MplexMessage Text) (payload rest : List ℕ)
      → ((i : ℤ) → message i ≢ noop_message)
      → (numbered message (payload ++ rest)
          ≡ ok (
            with_i32 (λ b. message (i32_of_bits (from_le_bytes b))) payload,
            drop 4 payload ++ rest,
          ))
        ⊎ ((length payload < 4)
            × (with_i32 (λ b. message (i32_of_bits (from_le_bytes b))) payload ≡ noop_message)
            × ((s : List ℕ) → numbered message (payload ++ rest) ≢ ok (noop_message, s)))
  number_agrees message payload rest other = elim (Bool-cases (leb 4 (length payload))) [
    | inl e ↦
        let four : 4 ≤ length payload = leb→le 4 (length payload) e in
        inl (
          if_true _ _
            (le→leb 4 (length (payload ++ rest)) (omega (arith, length-append payload rest)))
          ∙ ap₂ (λ (b s : List ℕ). ok (message (i32_of_bits (from_le_bytes b)), s))
              (take-append 4 payload rest four) (drop-append 4 payload rest four)
          ∙ ap (λ m. ok (m, drop 4 payload ++ rest)) (sym (if_true _ _ e)))
    | inr e ↦
        inr (ground (arith, e), if_false _ _ e, numbered_other message (payload ++ rest) other)
  ]

  decoders_agree :
      (code : MsgCode) (payload rest : List ℕ)
      → code ≢ data_msg
      → Agrees code payload rest (delivered lossy code payload rest)
  unfolding decode_control_message
  decoders_agree redo payload rest other =
      elim (number_agrees redo_message payload rest (λ i e. ground (arith, e))) [
        | inl agreed ↦ inl agreed
        | inr (short, nothing, never) ↦ inr ((refl, short), nothing, never)
      ]
  decoders_agree io_error payload rest other =
      elim (number_agrees io_error_message payload rest (λ i e. ground (arith, e))) [
        | inl agreed ↦ inl agreed
        | inr (short, nothing, never) ↦ inr ((refl, short), nothing, never)
      ]
  decoders_agree io_timeout payload rest other =
      elim (number_agrees io_timeout_message payload rest (λ i e. ground (arith, e))) [
        | inl agreed ↦ inl agreed
        | inr (short, nothing, never) ↦ inr ((refl, short), nothing, never)
      ]
  decoders_agree data_msg payload rest other = absurd (other refl)
  decoders_agree _ payload rest other = inl refl

  -- On a frame of at most 2^24 - 1 bytes of payload, for every code but the one of data, both decoders
  -- give the same message, and `read_message` leaves what it does not take: the payload of a Noop, and
  -- what a payload has beyond its number. The one exception is a payload of Redo, IoError or IoTimeout
  -- of less than 4 bytes: `decode_control_message` makes a Noop of it, and `read_message` never does,
  -- since it reads on behind the frame.
  pub read_message-decode_control_message :
      (code : MsgCode) (payload frame rest : List ℕ)
      → code ≢ data_msg
      → length payload ≤ max_payload
      → write_message code payload ≡ ok frame
      → Agrees code payload rest (read_message lossy (frame ++ rest))
  read_message-decode_control_message code payload frame rest other small sent =
      subst (λ read. Agrees code payload rest read)
        (sym (read_message-write_message lossy code payload frame rest small sent))
        (decoders_agree code payload rest other)
