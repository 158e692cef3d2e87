-- ===== src/Engine/Goodbye.antt =====
-- The end of a session, the goodbye methods of `WireFormat` in
-- crates/ferrosync-protocol/src/wire_format.rs, and `write_goodbye_done`. What a side writes is the
-- payload that it gives to the multiplexer.
use ferrosync.Base.{
  ℕ, ◌≡◌, refl, ap, ◌∙◌, if◌then◌else◌, List, [], ◌++◌, append_assoc, arith, Bool-cases, inl, inr,
}
use ferrosync.Base.Int.{ℤ}
use ferrosync.Wire.Stream.{Result, ok, err, bind_ok, read_byte}
use ferrosync.Wire.Fixed.{read_int, read_int-write_int}
use ferrosync.Wire.Varlong.{IntCodec, fixed, compact}
use ferrosync.Wire.Ndx.{NdxState, initial, ndx_done, read_ndx, write_ndx}
use ferrosync.Codec.Format.{WireFormat}

-- A read whose result is ignored: the state and the bytes after it. `read_ndx` fails at the end of
-- the stream only, and there nothing is left.
abbrev pub after_read_goodbye : NdxState → Result ((ℤ × NdxState) × List ℕ) → NdxState × List ℕ
after_read_goodbye st (ok (read, rest)) = (read.1, rest)
after_read_goodbye st (err e) = (st, [])

unfoldable pub read_goodbye : IntCodec → NdxState × List ℕ → NdxState × List ℕ
read_goodbye codec (st, s) = after_read_goodbye st (read_ndx codec st s)

abbrev pub write_goodbye_done : IntCodec → NdxState → List ℕ × NdxState
write_goodbye_done codec st = write_ndx codec ndx_done st

-- Both sides give the bytes that they write and those that are left to read.
unfoldable pub sender_goodbye : WireFormat → List ℕ → List ℕ × List ℕ
sender_goodbye w s =
    let first = read_goodbye w.int_codec (initial, s) in
    if w.has_error_exit_sync
    then ((write_goodbye_done w.int_codec initial).0, (read_goodbye w.int_codec first).1)
    else ([], first.1)

unfoldable pub receiver_goodbye : WireFormat → List ℕ → List ℕ × List ℕ
receiver_goodbye w s =
    let first = write_goodbye_done w.int_codec initial in
    let second = write_goodbye_done w.int_codec first.1 in
    let third = write_goodbye_done w.int_codec second.1 in
    (
      first.0 ++ (second.0 ++ (if w.has_error_exit_sync then third.0 else [])),
      (read_goodbye w.int_codec (initial, s)).1,
    )

unfoldable pub server_sender_goodbye : WireFormat → List ℕ → List ℕ × List ℕ
server_sender_goodbye w s =
    let second = read_goodbye w.int_codec (read_goodbye w.int_codec (initial, s)) in
    let third = read_goodbye w.int_codec second in
    (
      (write_goodbye_done w.int_codec initial).0,
      if w.has_error_exit_sync then third.1 else second.1,
    )

unfoldable pub server_receiver_goodbye : WireFormat → List ℕ
server_receiver_goodbye w =
    let first = write_goodbye_done w.int_codec initial in
    let second = write_goodbye_done w.int_codec first.1 in
    first.0 ++ (if w.has_error_exit_sync then second.0 else [])

written_state : (codec : IntCodec) (st : NdxState) → (write_goodbye_done codec st).1 ≡ st
unfolding write_ndx
written_state fixed st = refl
written_state compact st = refl

-- One goodbye is read where one was written, and the state stays.
read_one_goodbye :
    (codec : IntCodec) (st : NdxState) (rest : List ℕ)
    → read_goodbye codec (st, (write_goodbye_done codec initial).0 ++ rest) ≡ (st, rest)
unfolding read_goodbye write_ndx read_ndx
read_one_goodbye fixed st rest =
    ap (after_read_goodbye st)
      (bind_ok read_int _ _ (read_int-write_int ndx_done rest (omega arith)))
read_one_goodbye compact st rest = unfold read_byte in refl

-- The bytes of one goodbye.
abbrev goodbye : IntCodec → List ℕ
goodbye codec = (write_goodbye_done codec initial).0

-- The same with more bytes behind it.
read_next_goodbye :
    (codec : IntCodec) (st : NdxState) (more rest : List ℕ)
    → read_goodbye codec (st, (goodbye codec ++ more) ++ rest) ≡ (st, more ++ rest)
read_next_goodbye codec st more rest =
    ap (λ s. read_goodbye codec (st, s)) (append_assoc (goodbye codec) more rest)
    ∙ read_one_goodbye codec st (more ++ rest)

read_two_goodbyes :
    (codec : IntCodec) (st : NdxState) (more rest : List ℕ)
    → read_goodbye codec
        (read_goodbye codec (st, (goodbye codec ++ (goodbye codec ++ more)) ++ rest))
      ≡ (st, more ++ rest)
read_two_goodbyes codec st more rest =
    ap (read_goodbye codec) (read_next_goodbye codec st (goodbye codec ++ more) rest)
    ∙ read_next_goodbye codec st more rest

server_receiver_goodbye_lem :
    (w : WireFormat)
    → server_receiver_goodbye w
      ≡ goodbye w.int_codec ++ (if w.has_error_exit_sync then goodbye w.int_codec else [])
unfolding server_receiver_goodbye
server_receiver_goodbye_lem w =
    ap
      (λ st.
        goodbye w.int_codec
        ++ (if w.has_error_exit_sync then (write_goodbye_done w.int_codec st).0 else []))
      (written_state w.int_codec initial)

receiver_goodbye_lem :
    (w : WireFormat) (s : List ℕ)
    → (receiver_goodbye w s).0 ≡ goodbye w.int_codec ++ server_receiver_goodbye w
unfolding receiver_goodbye server_receiver_goodbye
receiver_goodbye_lem w s =
    ap
      (λ st.
        goodbye w.int_codec
        ++ ((write_goodbye_done w.int_codec st).0
            ++ (if w.has_error_exit_sync
                then (write_goodbye_done w.int_codec (write_goodbye_done w.int_codec st).1).0
                else [])))
      (written_state w.int_codec initial)

-- What the client that sends reads.
sender_reads :
    (w : WireFormat) (rest : List ℕ)
    → (sender_goodbye w (server_receiver_goodbye w ++ rest)).1 ≡ rest
unfolding sender_goodbye
sender_reads w rest = elim (Bool-cases w.has_error_exit_sync) [
  | inl e ↦
      rw (server_receiver_goodbye_lem w, e)
        (ap (λ (r : NdxState × List ℕ). r.1)
          (ap (read_goodbye w.int_codec)
              (read_next_goodbye w.int_codec initial (goodbye w.int_codec) rest)
            ∙ read_one_goodbye w.int_codec initial rest))
  | inr e ↦
      rw (server_receiver_goodbye_lem w, e)
        (ap (λ (r : NdxState × List ℕ). r.1) (read_next_goodbye w.int_codec initial [] rest))
]

-- What the server that sends reads.
server_sender_reads :
    (w : WireFormat) (s rest : List ℕ)
    → (server_sender_goodbye w ((receiver_goodbye w s).0 ++ rest)).1 ≡ rest
unfolding server_sender_goodbye
server_sender_reads w s rest = elim (Bool-cases w.has_error_exit_sync) [
  | inl e ↦
      rw (receiver_goodbye_lem w s, server_receiver_goodbye_lem w, e)
        (ap (λ (r : NdxState × List ℕ). r.1)
          (ap (read_goodbye w.int_codec)
              (read_two_goodbyes w.int_codec initial (goodbye w.int_codec) rest)
            ∙ read_one_goodbye w.int_codec initial rest))
  | inr e ↦
      rw (receiver_goodbye_lem w s, server_receiver_goodbye_lem w, e)
        (ap (λ (r : NdxState × List ℕ). r.1) (read_two_goodbyes w.int_codec initial [] rest))
]

-- A client that receives and a server that sends each read exactly the goodbyes that the other
-- wrote, in every format. A client that sends reads exactly those of the server that receives, and
-- what it writes itself is one goodbye from protocol 31 on and nothing before, whatever it reads.
pub goodbyes_agree :
    (w : WireFormat) (rest : List ℕ)
    → ((s : List ℕ) → (server_sender_goodbye w ((receiver_goodbye w s).0 ++ rest)).1 ≡ rest)
      × ((s : List ℕ) → (receiver_goodbye w ((server_sender_goodbye w s).0 ++ rest)).1 ≡ rest)
      × ((sender_goodbye w (server_receiver_goodbye w ++ rest)).1 ≡ rest)
      × ((s : List ℕ)
          → (sender_goodbye w s).0
            ≡ (if w.has_error_exit_sync then (write_goodbye_done w.int_codec initial).0 else []))
unfolding receiver_goodbye server_sender_goodbye sender_goodbye
goodbyes_agree w rest = (
  (λ s. server_sender_reads w s rest),
  (λ s. ap (λ (r : NdxState × List ℕ). r.1) (read_one_goodbye w.int_codec initial rest)),
  sender_reads w rest,
  λ s. elim (Bool-cases w.has_error_exit_sync) [ inl e ↦ rw e | inr e ↦ rw e ],
)
