-- ===== src/Engine/Iflags.antt =====
-- The item flags and the statistics of the transfer loops, methods of `WireFormat` in
-- crates/ferrosync-protocol/src/wire_format.rs.
use ferrosync.Base.{
  ℕ, ◌^◌, ◌<◌, ltb, refl, Bool, true, false, if◌then◌else◌, List, [], ◌∷◌, ◌++◌, arith, Bool-cases,
  inl, inr,
}
use ferrosync.Base.Int.{ℤ, pos}
use ferrosync.Wire.Stream.{
  Reader, ◌>>=◌, pure, fail, wire_value_out_of_range, read_exact, bind_ok, Reads, Reads-bind,
  Reads-last, Reads-when,
}
use ferrosync.Wire.Fixed.{read_shortint, write_shortint, read_shortint-write_shortint}
use ferrosync.Wire.Varint.{read_varint, write_varint}
use ferrosync.Wire.Varint.RoundTrip.{read_varint-write_varint}
use ferrosync.Wire.Varlong.{IntCodec, fixed, compact, read_varlong30, write_varlong30}
use ferrosync.Codec.Format.{has_bit, WireFormat}
use ferrosync.Codec.Fields.Scalars.{IsLength, Reads-length}

-- The bytes of the basis type are read and dropped, as are those of the name.
abbrev pub skip : ℕ → Reader ℕ
skip n = do buf ← read_exact n; pure n

unfoldable pub read_xname : ℕ → Reader ℕ
read_xname name_len =
    if ltb 0x10000 name_len
    then fail (wire_value_out_of_range (pos name_len) (pos 0x10000))
    else skip name_len

abbrev pub basis_type : ℕ → Reader ℕ
basis_type iflags = if has_bit 11 iflags then skip 1 else pure 0

abbrev pub xname : ℕ → Reader ℕ
xname iflags =
    if has_bit 12 iflags then (do name_len ← read_varint; read_xname name_len) else pure 0

abbrev pub read_trailers : ℕ → Reader ℕ
read_trailers iflags = do basis ← basis_type iflags; name ← xname iflags; pure iflags

unfoldable pub read_iflags : WireFormat → Reader ℕ
read_iflags w = if w.has_iflags then (do iflags ← read_shortint; read_trailers iflags) else pure 0

unfoldable pub write_iflags : WireFormat → ℕ → List ℕ
write_iflags w iflags = if w.has_iflags then write_shortint iflags else []

unfoldable pub write_iflags_echo : WireFormat → ℕ → List ℕ
write_iflags_echo w iflags =
    if w.has_iflags
    then write_shortint iflags
      ++ ((if has_bit 11 iflags then 0 ∷ [] else [])
          ++ (if has_bit 12 iflags then write_varint 0 else []))
    else []

-- An echo of flags of 16 bits is read back whole, whatever trailers they announce; a format without
-- flags writes nothing and reads 0.
pub read_iflags-write_iflags_echo :
    (w : WireFormat) (iflags : ℕ)
    → iflags < 2 ^ 16
    → Reads (read_iflags w) (write_iflags_echo w iflags) (if w.has_iflags then iflags else 0)
unfolding read_iflags write_iflags_echo read_exact read_xname
read_iflags-write_iflags_echo w iflags h = elim (Bool-cases w.has_iflags) [
  | inl e ↦ rw e (
      Reads-bind read_shortint read_trailers (write_shortint iflags)
        ((if has_bit 11 iflags then 0 ∷ [] else [])
          ++ (if has_bit 12 iflags then write_varint 0 else []))
        iflags iflags (λ rest. read_shortint-write_shortint iflags rest h)
        (Reads-bind (basis_type iflags) (λ b. xname iflags >>= λ n. pure iflags)
          (if has_bit 11 iflags then 0 ∷ [] else [])
          (if has_bit 12 iflags then write_varint 0 else []) (if has_bit 11 iflags then 1 else 0)
          iflags (basis (has_bit 11 iflags))
          (Reads-last (xname iflags) (λ n. iflags)
            (if has_bit 12 iflags then write_varint 0 else []) 0 name)))
  | inr e ↦ rw e (λ rest. refl)
]
  where
    basis :
        (b : Bool)
        → Reads (if b then skip 1 else pure 0) (if b then 0 ∷ [] else []) (if b then 1 else 0)
    basis true rest = refl
    basis false rest = refl

    name : Reads (xname iflags) (if has_bit 12 iflags then write_varint 0 else []) 0
    name =
        Reads-when (has_bit 12 iflags) 0 (read_varint >>= read_xname) (write_varint 0) 0 (λ c. refl)
          (λ c rest.
            bind_ok read_varint read_xname (write_varint 0 ++ rest)
              (read_varint-write_varint 0 rest (omega arith)))

-- The statistics: three numbers, or five. Only the bytes are described; they go through
-- `write_data`.
unfoldable pub write_stats : WireFormat → ℤ → ℤ → List ℕ
write_stats w bytes_sent total_size =
    let codec = w.int_codec in
    write_varlong30 (pos 0) 3 codec
    ++ (write_varlong30 bytes_sent 3 codec
        ++ (write_varlong30 total_size 3 codec
            ++ (if w.has_iflags
                then write_varlong30 (pos 0) 3 codec ++ write_varlong30 (pos 0) 3 codec
                else [])))

abbrev pub read_times : IntCodec → Reader ℕ
read_times codec = do buildtime ← read_varlong30 3 codec; xfertime ← read_varlong30 3 codec; pure 0

unfoldable pub read_stats : WireFormat → Reader ℕ
read_stats w = do
  total_read ← read_varlong30 3 w.int_codec
  total_written ← read_varlong30 3 w.int_codec
  total_size ← read_varlong30 3 w.int_codec
  if w.has_iflags then read_times w.int_codec else pure 0

zero_IsLength : (codec : IntCodec) → IsLength codec (pos 0)
zero_IsLength fixed = (omega arith, omega arith)
zero_IsLength compact = ((omega arith, omega arith), omega arith)

-- The reader takes exactly the statistics that were written.
pub read_stats-write_stats :
    (w : WireFormat) (bytes_sent total_size : ℤ)
    → IsLength w.int_codec bytes_sent
    → IsLength w.int_codec total_size
    → Reads (read_stats w) (write_stats w bytes_sent total_size) 0
unfolding read_stats write_stats
read_stats-write_stats w bytes_sent total_size hb ht =
    let codec = w.int_codec in
    Reads-bind (read_varlong30 3 codec) _ (write_varlong30 (pos 0) 3 codec) _ (pos 0) 0
      (Reads-length codec (pos 0) (zero_IsLength codec))
      (Reads-bind (read_varlong30 3 codec) _ (write_varlong30 bytes_sent 3 codec) _ bytes_sent 0
        (Reads-length codec bytes_sent hb)
        (Reads-bind (read_varlong30 3 codec) _ (write_varlong30 total_size 3 codec) _ total_size 0
          (Reads-length codec total_size ht)
          (Reads-when w.has_iflags 0 (read_times codec)
            (write_varlong30 (pos 0) 3 codec ++ write_varlong30 (pos 0) 3 codec) 0 (λ c. refl)
            (λ c.
              Reads-bind (read_varlong30 3 codec) _ (write_varlong30 (pos 0) 3 codec) _ (pos 0) 0
                (Reads-length codec (pos 0) (zero_IsLength codec))
                (Reads-last (read_varlong30 3 codec) (λ t. 0) (write_varlong30 (pos 0) 3 codec)
                  (pos 0) (Reads-length codec (pos 0) (zero_IsLength codec)))))))
