-- ===== src/Delta/Token/RoundTrip.antt =====
-- Tokens survive the wire.
use ferrosync.Base.{
  ℕ, zero, suc, ◌^◌, ◌≤◌, ◌<◌, ◌≡◌, refl, ap, sym, ◌∙◌, List, [], ◌∷◌, ◌++◌, ltb, lt→ltb, le→leb,
  if_true, if_false, length, take, drop, length-take, length-drop, append_assoc, arith, min,
  Bool-cases, true, inl, inr,
}
use ferrosync.Base.Int.{ℤ, pos, negsuc, IsI32}
use ferrosync.Wire.Stream.{ok, err, ProtocolError, read_exact, read_exact-append, bind_ok}
use ferrosync.Wire.Fixed.{read_int, write_int, read_int-write_int}
use ferrosync.Mux.Frame.{data_chunk_size, chunks}
use ferrosync.Delta.Token.{
  literal_data, block_match, end_of_file, max_wire_alloc, send_chunks, send_data, send_token,
  send_block_match, send_eof, token_body, recv_token,
}

recv_token-write_int :
    (a : ℤ) (rest : List ℕ) → IsI32 a → recv_token (write_int a ++ rest) ≡ token_body a rest
unfolding recv_token
recv_token-write_int a rest h = bind_ok read_int token_body _ (read_int-write_int a rest h)

ok_injective : {xs ys : List ℕ} → ok xs ≡ ok ys → xs ≡ ys
ok_injective h = ap (λ r. elim r [ ok xs ↦ xs | err e ↦ [] ]) h

refused : {B : Type 0} {e : ProtocolError} {xs : List ℕ} → err e ≡ ok xs → B
refused h = ground arith

-- The receiver reads the number of a block back from the token that was sent for it, for every
-- number that has one: 0 up to 2^31 - 2.
pub recv_token-send_block_match :
    (n : ℕ) (bytes rest : List ℕ)
    → send_block_match (pos n) ≡ ok bytes
    → recv_token (bytes ++ rest) ≡ ok (block_match (pos n), rest)
unfolding send_block_match
recv_token-send_block_match n bytes rest sent = elim (Bool-cases (ltb (suc n) (2 ^ 31))) [
  | inl small ↦
      ap (λ bs. recv_token (bs ++ rest)) (written small)
      ∙ recv_token-write_int (negsuc n) rest (minus small)
  | inr large ↦ refused (ap (send_token (pos n)) (sym (if_false _ _ large)) ∙ sent)
]
  where
    written : ltb (suc n) (2 ^ 31) ≡ true → bytes ≡ write_int (negsuc n)
    written small = ok_injective (sym sent ∙ ap (send_token (pos n)) (if_true _ _ small))

    minus : ltb (suc n) (2 ^ 31) ≡ true → IsI32 (negsuc n)
    minus small = ground arith

pub recv_token-send_eof : (rest : List ℕ) → recv_token (send_eof ++ rest) ≡ ok (end_of_file, rest)
unfolding send_eof
recv_token-send_eof rest = recv_token-write_int (pos 0) rest (omega arith)

token_body-literal_data :
    (bytes rest : List ℕ)
    → 0 < length bytes
    → length bytes ≤ max_wire_alloc
    → token_body (pos (length bytes)) (bytes ++ rest) ≡ ok (literal_data bytes, rest)
token_body-literal_data [] rest h k = absurd (omega arith)
token_body-literal_data (b ∷ bytes) rest h k =
    rw (le→leb (suc (length bytes)) max_wire_alloc k)
      (bind_ok (read_exact (suc (length bytes))) _ _ (read_exact-append (b ∷ bytes) rest))

chunks_fuel :
    (size m n : ℕ) (xs : List ℕ)
    → 0 < size
    → length xs ≤ m
    → length xs ≤ n
    → chunks size m xs ≡ chunks size n xs
unfolding chunks
chunks_fuel size zero zero xs h k l = refl
chunks_fuel size zero (suc n) [] h k l = refl
chunks_fuel size zero (suc n) (x ∷ xs) h k l = absurd (omega arith)
chunks_fuel size (suc m) zero [] h k l = refl
chunks_fuel size (suc m) zero (x ∷ xs) h k l = absurd (omega arith)
chunks_fuel size (suc m) (suc n) [] h k l = refl
chunks_fuel size (suc m) (suc n) (x ∷ xs) h k l =
    ap (λ r. take size (x ∷ xs) ∷ r)
      (chunks_fuel size m n (drop size (x ∷ xs)) h (omega (arith, length-drop size (x ∷ xs)))
        (omega (arith, length-drop size (x ∷ xs))))

recv_first_chunk :
    (size : ℕ) (x : ℕ) (xs rest : List ℕ)
    → 0 < size
    → size ≤ max_wire_alloc
    → recv_token (send_chunks (chunks size (length (x ∷ xs)) (x ∷ xs)) ++ rest)
      ≡ ok (
        literal_data (take size (x ∷ xs)),
        send_chunks (chunks size (length (drop size (x ∷ xs))) (drop size (x ∷ xs))) ++ rest,
      )
unfolding send_chunks chunks
recv_first_chunk size x xs rest h k =
    ap recv_token (append_assoc (write_int (pos (length (take size (x ∷ xs))))) _ rest)
    ∙ recv_token-write_int (pos (length (take size (x ∷ xs)))) _ (omega (arith, short))
    ∙ ap (token_body (pos (length (take size (x ∷ xs))))) (append_assoc (take size (x ∷ xs)) _ rest)
    ∙ token_body-literal_data (take size (x ∷ xs)) _ (omega (arith, short)) (omega (arith, short))
    ∙ ap (λ cs. ok (literal_data (take size (x ∷ xs)), send_chunks cs ++ rest))
        (chunks_fuel size (length xs) (length (drop size (x ∷ xs))) (drop size (x ∷ xs)) h
          (omega (arith, length-drop size (x ∷ xs))) (omega arith))
  where
    short : length (take size (x ∷ xs)) ≡ min size (suc (length xs))
    short = length-take size (x ∷ xs)

-- Reading what `send_data` wrote for a slice that is not empty gives its first 32768 bytes, or all
-- of a shorter one, and leaves what `send_data` writes for the others.
pub recv_token-send_data :
    (x : ℕ) (xs rest : List ℕ)
    → recv_token (send_data (x ∷ xs) ++ rest)
      ≡ ok (
        literal_data (take data_chunk_size (x ∷ xs)),
        send_data (drop data_chunk_size (x ∷ xs)) ++ rest,
      )
unfolding send_data
recv_token-send_data x xs rest =
    recv_first_chunk data_chunk_size x xs rest (omega arith) (omega arith)

pub send_data_nil : send_data [] ≡ []
unfolding send_data send_chunks chunks
send_data_nil = refl

pub send_block_match_small :
    (n : ℕ) → suc n < 2 ^ 31 → (bytes : List ℕ) × (send_block_match (pos n) ≡ ok bytes)
unfolding send_block_match
send_block_match_small n small =
    (_, ap (send_token (pos n)) (if_true _ _ (lt→ltb (suc n) (2 ^ 31) small)))
