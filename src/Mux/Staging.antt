-- ===== src/Mux/Staging.antt =====
-- `parse_frames_from_staging` of crates/ferrosync-protocol/src/multiplex.rs, and the queue from which
-- `MuxConnection` and `BufferedMplexReader` serve data. A control message is only logged there.
pub mod Arrival
pub mod Delivery
use ferrosync.Base.{
  ℕ, zero, suc, ◌+◌, ◌-◌, ◌*◌, ◌/◌, ◌%◌, ◌^◌, List, [], ◌∷◌, ◌++◌, Option, none, some, ltb, leb,
  ◌==◌, if◌then◌else◌, length, take, drop, min,
}
use ferrosync.Base.Bytes.{from_le_bytes}
use ferrosync.Mux.Frame.{mplex_base}

-- A frame by its header word: `none` while its payload is not complete; else the data payload, if
-- the frame has one, and the bytes behind the frame. A frame with a tag below the base is skipped.
unfoldable pub parse_body : ℕ → List ℕ → Option (Option (List ℕ) × List ℕ)
parse_body header s =
    let tag_byte = header / 2 ^ 24 % 2 ^ 8 in
    let payload_len = header % 2 ^ 24 in
    if ltb (length s) (4 + payload_len)
    then none
    else if ltb tag_byte mplex_base
    then some (none, drop (4 + payload_len) s)
    else if tag_byte - mplex_base == 0
    then some (some (take payload_len (drop 4 s)), drop (4 + payload_len) s)
    else some (none, drop (4 + payload_len) s)

-- One round of the loop: `none` where it breaks.
unfoldable pub parse_frame : List ℕ → Option (Option (List ℕ) × List ℕ)
unfolding parse_body
parse_frame s = if ltb (length s) 4 then none else parse_body (from_le_bytes (take 4 s)) s

abbrev pub push_front : Option (List ℕ) → List ℕ × List (List ℕ) → List ℕ × List (List ℕ)
push_front none (s, queue) = (s, queue)
push_front (some payload) (s, queue) = (s, payload ∷ queue)

-- The bytes left in staging, and the payloads pushed to the back of the queue, in order. Every
-- round takes 4 bytes at least, so the number of bytes is fuel enough.
unfoldable pub parse_loop : ℕ → List ℕ → List ℕ × List (List ℕ)
unfolding parse_frame
parse_loop zero s = (s, [])
parse_loop (suc fuel) s = elim (parse_frame s) [
  | none ↦ (s, [])
  | some (payload, rest) ↦ push_front payload (parse_loop fuel rest)
]

unfoldable pub parse_frames : List ℕ → List ℕ × List (List ℕ)
unfolding parse_loop
parse_frames s = parse_loop (length s) s
