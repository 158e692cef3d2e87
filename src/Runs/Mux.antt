-- ===== src/Runs/Mux.antt =====
-- Frames of crates/ferrosync-protocol/src/multiplex.rs at concrete values.
use ferrosync.Base.{ℕ, ◌≡◌, refl, List, [], ◌∷◌, ◌++◌, arith}
use ferrosync.Base.Int.{pos}
use ferrosync.Wire.Stream.{ok}
use ferrosync.Mux.Code.{redo}
use ferrosync.Mux.Frame.{read_message, write_message, write_data, redo_message}
use ferrosync.Mux.Frame.RoundTrip.{read_message-write_message}
use ferrosync.Mux.Staging.{parse_frames}
use ferrosync.Mux.Staging.Arrival.{queue_after, parse_frames-append}
use ferrosync.Mux.Staging.Delivery.{parse_frames-write_data}
use mathlib.Core.List.{flatten}
use ferrosync.Mux.Control.{Agrees, read_message-decode_control_message}
use ferrosync.Mux.Code.{data_msg}
use ferrosync.Base.{◌≢◌}

-- The receiver asks for file 5 again; the text decoder is the identity.
read_message-write_message_example :
    read_message (λ (b : List ℕ). b) ((4 ∷ 0 ∷ 0 ∷ 16 ∷ 5 ∷ 0 ∷ 0 ∷ 0 ∷ []) ++ 1 ∷ [])
    ≡ ok (redo_message (pos 5), 1 ∷ [])
unfolding write_message
read_message-write_message_example =
    read_message-write_message (λ (b : List ℕ). b) redo (5 ∷ 0 ∷ 0 ∷ 0 ∷ [])
      (4 ∷ 0 ∷ 0 ∷ 16 ∷ 5 ∷ 0 ∷ 0 ∷ 0 ∷ []) (1 ∷ []) (omega arith) refl

parse_frames-append_example :
    parse_frames (4 ∷ 0 ∷ 0 ∷ 7 ∷ 1 ∷ 2 ∷ [] ++ 3 ∷ 4 ∷ [])
    ≡ queue_after
        (parse_frames (4 ∷ 0 ∷ 0 ∷ 7 ∷ 1 ∷ 2 ∷ [])).1
        (parse_frames ((parse_frames (4 ∷ 0 ∷ 0 ∷ 7 ∷ 1 ∷ 2 ∷ [])).0 ++ 3 ∷ 4 ∷ []))
parse_frames-append_example = parse_frames-append (4 ∷ 0 ∷ 0 ∷ 7 ∷ 1 ∷ 2 ∷ []) (3 ∷ 4 ∷ [])

parse_frames-write_data_example :
    (bytes : List ℕ) × (write_data (1 ∷ 2 ∷ 3 ∷ []) ≡ ok bytes)
    × ((parse_frames bytes).0 ≡ [])
    × (flatten (parse_frames bytes).1 ≡ 1 ∷ 2 ∷ 3 ∷ [])
parse_frames-write_data_example = parse_frames-write_data (1 ∷ 2 ∷ 3 ∷ [])

redo≢data_msg : redo ≢ data_msg
redo≢data_msg e = ground arith

-- The payload has 2 bytes in place of 4.
read_message-decode_control_message_example :
    Agrees
      (λ (b : List ℕ). b)
      redo
      (5 ∷ 0 ∷ [])
      (1 ∷ 2 ∷ [])
      (read_message (λ (b : List ℕ). b) ((2 ∷ 0 ∷ 0 ∷ 16 ∷ 5 ∷ 0 ∷ []) ++ 1 ∷ 2 ∷ []))
unfolding write_message
read_message-decode_control_message_example =
    read_message-decode_control_message (λ (b : List ℕ). b) redo (5 ∷ 0 ∷ [])
      (2 ∷ 0 ∷ 0 ∷ 16 ∷ 5 ∷ 0 ∷ []) (1 ∷ 2 ∷ []) redo≢data_msg (omega arith) refl
