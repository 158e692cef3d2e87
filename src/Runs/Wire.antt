-- ===== src/Runs/Wire.antt =====
-- Integers of crates/ferrosync-protocol/src/varint.rs at concrete values.
use ferrosync.Base.{◌≡◌, [], ◌∷◌, ◌++◌, arith}
use ferrosync.Base.Int.{pos, negsuc}
use ferrosync.Wire.Stream.{ok, err, invalid_varint}
use ferrosync.Wire.Varint.{read_varint, write_varint}
use ferrosync.Wire.Varint.RoundTrip.{read_varint-write_varint}
use ferrosync.Wire.Varlong.{read_varlong, write_varlong, compact}
use ferrosync.Wire.Varlong.RoundTrip.{read_varlong-write_varlong, read_varlong-write_varlong_wide}
use ferrosync.Wire.Ndx.{initial, read_ndx, write_ndx}
use ferrosync.Wire.Ndx.RoundTrip.{IsState, read_ndx-write_ndx}

read_varint-write_varint_example : read_varint (write_varint 300 ++ 7 ∷ []) ≡ ok (300, 7 ∷ [])
read_varint-write_varint_example = read_varint-write_varint 300 (7 ∷ []) (omega arith)

-- A modification time, with 4 bytes at least.
read_varlong-write_varlong_example :
    read_varlong 4 (write_varlong (pos 1700000000) 4 ++ 7 ∷ []) ≡ ok (pos 1700000000, 7 ∷ [])
read_varlong-write_varlong_example =
    read_varlong-write_varlong 3 (pos 1700000000) (7 ∷ []) (omega arith) (omega arith)
      (omega arith, omega arith) (omega arith)

-- One second before 1970.
read_varlong-write_varlong_wide_example :
    read_varlong 4 (write_varlong (negsuc 0) 4 ++ 7 ∷ []) ≡ err invalid_varint
read_varlong-write_varlong_wide_example =
    read_varlong-write_varlong_wide 3 (negsuc 0) (7 ∷ []) (omega arith) (omega arith) (omega arith)

initial-IsState : IsState initial
initial-IsState = record {
  positive = (omega arith, omega arith);
  negative = (omega arith, omega arith);
}

read_ndx-write_ndx_example :
    read_ndx compact initial ((write_ndx compact (pos 5) initial).0 ++ 9 ∷ [])
    ≡ ok ((pos 5, (write_ndx compact (pos 5) initial).1), 9 ∷ [])
read_ndx-write_ndx_example =
    read_ndx-write_ndx compact (pos 5) initial (9 ∷ []) (omega arith, omega arith) initial-IsState
