-- ===== src/Mux/Staging/Delivery.antt =====
-- What `write_data` sends arrives in the queue of the other side.
use ferrosync.Base.{
  ℕ, zero, suc, ◌+◌, ◌%◌, ◌/◌, ◌^◌, ◌<◌, ◌≤◌, ◌≡◌, refl, ap, ap₂, ltb, false, ◌∙◌, List, [], ◌∷◌,
  ◌++◌, some, length, take, drop, arith, append_assoc, length-append, length-take, length-drop,
  take-append-drop, take-append_length, drop-append_length, le→ltb, All,
}
use mathlib.Core.List.{flatten}
use ferrosync.Base.Bytes.{le_bytes, length-le_bytes}
use ferrosync.Wire.Stream.{ok}
use ferrosync.Mux.Code.{data_msg}
use ferrosync.Mux.Frame.{max_payload, mplex_base, data_chunk_size, chunks, write_chunks, write_data}
use ferrosync.Mux.Frame.RoundTrip.{
  header_of, from_header, header_len, header_tag, write_message_lem,
}
use ferrosync.Mux.Staging.{parse_body, parse_frame, parse_frames, push_front}
use ferrosync.Mux.Staging.Arrival.{parse_frames-some, parse_frames-nil}

-- The chunks of a slice, joined, are the slice.
flatten-chunks :
    (size f : ℕ) (xs : List ℕ) → 0 < size → length xs ≤ f → flatten (chunks size f xs) ≡ xs
unfolding chunks flatten
flatten-chunks size zero [] h k = refl
flatten-chunks size zero (x ∷ xs) h k = absurd (omega arith)
flatten-chunks size (suc f) [] h k = refl
flatten-chunks size (suc f) (x ∷ xs) h k =
    ap (λ (l : List ℕ). take size (x ∷ xs) ++ l)
      (flatten-chunks size f (drop size (x ∷ xs)) h (omega (arith, length-drop size (x ∷ xs))))
    ∙ take-append-drop size (x ∷ xs)

chunks_small :
    (size f : ℕ) (xs : List ℕ)
    → size ≤ max_payload
    → All (λ c. length c ≤ max_payload) (chunks size f xs)
unfolding chunks
chunks_small size zero xs h = tt
chunks_small size (suc f) [] h = tt
chunks_small size (suc f) (x ∷ xs) h =
    (omega (arith, length-take size (x ∷ xs)), chunks_small size f (drop size (x ∷ xs)) h)

-- A complete data frame, by its header word.
parse_body-data :
    (w : ℕ) (word c rest : List ℕ)
    → length word ≡ 4
    → w % 2 ^ 24 ≡ length c
    → w / 2 ^ 24 % 2 ^ 8 ≡ mplex_base
    → parse_body w (word ++ (c ++ rest)) ≡ some (some c, rest)
unfolding parse_body
parse_body-data w word c rest e4 el et =
    rw (el, et, long) (ap₂ (λ (p r : List ℕ). some (some p, r)) payload behind)
  where
    long : ltb (length (word ++ (c ++ rest))) (4 + length c) ≡ false
    long = le→ltb _ _ (omega (arith, length-append word (c ++ rest), length-append c rest))

    payload : take (length c) (drop 4 (word ++ (c ++ rest))) ≡ c
    payload =
        ap (take (length c)) (rw e4 at (drop-append_length word (c ++ rest)))
        ∙ take-append_length c rest

    whole : length (word ++ c) ≡ 4 + length c
    whole = omega (arith, length-append word c)

    behind : drop (4 + length c) (word ++ (c ++ rest)) ≡ rest
    behind = rw (append_assoc, whole) at (drop-append_length (word ++ c) rest)

-- A frame of data at the front of staging is taken whole.
parse_frame-data :
    (c rest : List ℕ)
    → length c ≤ max_payload
    → parse_frame (le_bytes 4 (header_of data_msg (length c)) ++ (c ++ rest)) ≡ some (some c, rest)
unfolding parse_frame
parse_frame-data c rest h =
    let word : List ℕ = le_bytes 4 (header_of data_msg (length c)) in
    rw (le→ltb (length (word ++ (c ++ rest))) 4 (omega arith)) (
      ap (λ (w : ℕ). parse_body w (word ++ (c ++ rest))) (from_header data_msg (length c) h)
      ∙ parse_body-data _ word c rest (length-le_bytes 4 (header_of data_msg (length c)))
          (header_len data_msg (length c) h) (header_tag data_msg (length c) h))

parse_frames-write_chunks :
    (cs : List (List ℕ))
    → All (λ c. length c ≤ max_payload) cs
    → (bytes : List ℕ) × (write_chunks cs ≡ ok bytes) × (parse_frames bytes ≡ ([], cs))
unfolding write_chunks
parse_frames-write_chunks [] h = ([], refl, parse_frames-nil)
parse_frames-write_chunks (c ∷ cs) (hc, hcs) =
    let (bytes, sent, parsed) = parse_frames-write_chunks cs hcs in
    let word : List ℕ = le_bytes 4 (header_of data_msg (length c)) in
    (
      (word ++ c) ++ bytes,
      rw (write_message_lem data_msg c hc, sent, write_chunks),
      rw append_assoc
          (parse_frames-some _ (parse_frame-data c bytes hc) ∙ ap (push_front (some c)) parsed),
    )

-- `write_data` sends every slice, as frames from which the other side queues chunks that join to
-- the slice, and nothing stays in staging.
pub parse_frames-write_data :
    (xs : List ℕ)
    → (bytes : List ℕ) × (write_data xs ≡ ok bytes)
      × ((parse_frames bytes).0 ≡ [])
      × (flatten (parse_frames bytes).1 ≡ xs)
unfolding write_data
parse_frames-write_data xs =
    let cs : List (List ℕ) = chunks data_chunk_size (length xs) xs in
    let (bytes, sent, parsed) =
      parse_frames-write_chunks cs (chunks_small data_chunk_size (length xs) xs (omega arith)) in
    (
      bytes,
      sent,
      ap (λ (x : List ℕ × List (List ℕ)). x.0) parsed,
      ap (λ (x : List ℕ × List (List ℕ)). flatten x.1) parsed
          ∙ flatten-chunks data_chunk_size (length xs) xs (omega arith) (omega arith),
    )
