-- ===== src/Engine/Receiver/Run.antt =====
-- What the receiver's loop does with the tokens of the sender, whatever fuel it has above the
-- stream's length.
use ferrosync.Base.{
  ℕ, zero, suc, ◌^◌, ◌≤◌, ◌<◌, ◌≡◌, refl, ap, ap₂, sym, ◌∙◌, List, [], ◌∷◌, ◌++◌, append-nil,
  append_assoc, Option, some, length, drop, take-append-drop, length-drop, arith, All,
}
use ferrosync.Base.Int.{pos}
use ferrosync.Wire.Stream.{Result, ok, err}
use ferrosync.Mux.Frame.{data_chunk_size}
use ferrosync.Delta.Ops.{DiffOp, literal, copy, block_index, slice_basis, apply_op, apply_diffops}
use ferrosync.Delta.Token.{
  Token, block_match, recv_token, send_data, send_eof, send_block_match, write_op, write_diffops,
}
use ferrosync.Delta.Token.RoundTrip.{
  recv_token-send_data, recv_token-send_block_match, recv_token-send_eof, send_data_nil,
  send_block_match_small,
}
use ferrosync.Engine.Receiver.{matched_block, token_bytes, grown, after_token, recv_loop}
use ferrosync.Engine.Receiver.Fuel.{recv_token-Takes, recv_loop_fuel}

module _ (basis : List ℕ) (blength : ℕ) where
  -- The loop with the fuel that `recv_file_delta` gives it.
  abbrev pub run : List ℕ → List ℕ → Option (Result (List ℕ × List ℕ))
  run output stream = recv_loop basis blength (suc (length stream)) output stream

  run-token :
      (output stream : List ℕ) (token : Token) (bytes rest : List ℕ)
      → recv_token stream ≡ ok (token, rest)
      → token_bytes basis blength token ≡ some (ok bytes)
      → run output stream ≡ run (output ++ bytes) rest
  unfolding recv_loop
  run-token output stream token bytes rest got grows =
      ap (after_token basis blength (recv_loop basis blength (length stream)) output) got
      ∙ ap (grown basis blength (recv_loop basis blength (length stream)) output rest) grows
      ∙ recv_loop_fuel basis blength (length stream) (suc (length rest)) (output ++ bytes) rest
          (omega (arith, recv_token-Takes stream token rest got)) (omega arith)

  pub run-send_eof :
      (output rest : List ℕ) → run output (send_eof ++ rest) ≡ some (ok (output, rest))
  unfolding recv_loop
  run-send_eof output rest =
      ap (after_token basis blength (recv_loop basis blength (length (send_eof ++ rest))) output)
        (recv_token-send_eof rest)

  -- A literal is sent in chunks, which the loop puts together again.
  run-send_data :
      (n : ℕ) (xs output rest : List ℕ)
      → length xs ≤ n
      → run output (send_data xs ++ rest) ≡ run (output ++ xs) rest
  run-send_data n [] output rest h =
      ap (λ bs. run output (bs ++ rest)) send_data_nil
      ∙ ap (λ out. run out rest) (sym (append-nil output))
  run-send_data zero (x ∷ xs) output rest h = absurd (omega arith)
  run-send_data (suc n) (x ∷ xs) output rest h =
      run-token output (send_data (x ∷ xs) ++ rest) _ _ _ (recv_token-send_data x xs rest) refl
      ∙ run-send_data n (drop data_chunk_size (x ∷ xs)) _ rest
          (omega (arith, length-drop data_chunk_size (x ∷ xs)))
      ∙ ap (λ out. run out rest)
          (append_assoc output _ _
            ∙ ap (λ bs. output ++ bs) (take-append-drop data_chunk_size (x ∷ xs)))

  -- A copy whose block has a number on the wire, and that the receiver takes as the sender means it.
  abbrev pub IsReceivable : DiffOp → Type 0
  IsReceivable (literal bytes) = Unit
  IsReceivable (copy r) =
      (i : ℕ) × (suc i < 2 ^ 31)
      × (block_index r blength ≡ pos i)
      × (matched_block basis blength i ≡ ok (slice_basis basis r.offset r.len))

  abbrev Sends : List ℕ → List ℕ → Type 0
  Sends bytes result =
      (output rest : List ℕ) → run output (bytes ++ rest) ≡ run (output ++ result) rest

  write_op-Sends :
      (op : DiffOp)
      → IsReceivable op
      → (bytes : List ℕ) × (write_op blength op ≡ ok bytes) × Sends bytes (apply_op basis op)
  unfolding write_op apply_op
  write_op-Sends (literal bytes) h = (
    send_data bytes,
    refl,
    λ output rest. run-send_data (length bytes) bytes output rest (omega arith),
  )
  write_op-Sends (copy r) (i, small, number, same) =
      let (bytes, sent) = send_block_match_small i small in
      (
        bytes,
        ap send_block_match number ∙ sent,
        λ output rest.
            run-token output (bytes ++ rest) (block_match (pos i)) _ rest
              (recv_token-send_block_match i bytes rest sent) (ap (λ b. some b) same),
      )

  abbrev joined : Result (List ℕ) → Result (List ℕ) → Result (List ℕ)
  joined r s = elim r [
    | ok bytes ↦ elim s [ ok rest ↦ ok (bytes ++ rest) | err e ↦ err e ]
    | err e ↦ err e
  ]

  pub write_diffops-Sends :
      (ops : List DiffOp)
      → All IsReceivable ops
      → (bytes : List ℕ) × (write_diffops blength ops ≡ ok bytes)
        × Sends bytes (apply_diffops basis ops)
  unfolding write_diffops apply_diffops
  write_diffops-Sends [] h =
      ([], refl, λ output rest. ap (λ out. run out rest) (sym (append-nil output)))
  write_diffops-Sends (op ∷ ops) (h, hs) =
      let (bytes, sent, one) = write_op-Sends op h in
      let (more, all_sent, others) = write_diffops-Sends ops hs in
      (
        bytes ++ more,
        ap₂ joined sent all_sent,
        λ output rest.
            ap (run output) (append_assoc bytes more rest)
            ∙ one output (more ++ rest)
            ∙ others _ rest
            ∙ ap (λ out. run out rest) (append_assoc output _ _),
      )
