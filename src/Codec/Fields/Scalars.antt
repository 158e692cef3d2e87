-- ===== src/Codec/Fields/Scalars.antt =====
-- Each number of an entry is read back as it was written.
use ferrosync.Base.{
  ℕ, ◌/◌, ◌%◌, ◌^◌, ◌<◌, ◌≡◌, ap, ◌∙◌, refl, Bool, true, false, if◌then◌else◌, List, [], ◌∷◌,
  length, arith,
}
use ferrosync.Base.Int.{
  ℤ, pos, negsuc, IsI32, IsI64, i32_bits, i32_of_bits, i64_bits, IsI32-i32_of_bits,
}
use ferrosync.Wire.Stream.{
  ok, ◌>>=◌, pure, Reads, Reads-bind, Reads-last, read_byte, read_exact-append,
}
use ferrosync.Wire.Fixed.{read_int, write_int, read_int-write_int, read_longint-write_longint}
use ferrosync.Wire.Varint.{read_varint, write_varint}
use ferrosync.Wire.Varint.RoundTrip.{read_varint-write_varint}
use ferrosync.Wire.Varlong.{
  IntCodec, fixed, compact, read_varint30, write_varint30, read_varlong30, write_varlong30,
}
use ferrosync.Wire.Varlong.RoundTrip.{read_varlong-write_varlong}
use ferrosync.Codec.Fields.{
  read_u32, write_mtime, read_mtime, write_owner, read_owner, read_owner_name,
}

pub i32_bits-i32_of_bits : (x : ℕ) → x < 2 ^ 32 → i32_bits (i32_of_bits x) ≡ x
i32_bits-i32_of_bits x h = ground arith

pub Reads-u32 : (x : ℕ) → x < 2 ^ 32 → Reads read_u32 (write_int (i32_of_bits x)) x
Reads-u32 x h rest =
    Reads-last read_int i32_bits (write_int (i32_of_bits x)) (i32_of_bits x)
      (λ r. read_int-write_int (i32_of_bits x) r (IsI32-i32_of_bits x h)) rest
    ∙ ap (λ (y : ℕ). ok (y, rest)) (i32_bits-i32_of_bits x h)

pub Reads-varint30 :
    (codec : IntCodec) (x : ℕ) → x < 2 ^ 32 → Reads (read_varint30 codec) (write_varint30 x codec) x
unfolding read_varint30 write_varint30
Reads-varint30 fixed x h rest = Reads-u32 x h rest
Reads-varint30 compact x h rest = read_varint-write_varint x rest h

-- The lengths that the codec can send: compactly, the top byte is below 4.
abbrev pub IsLength : IntCodec → ℤ → Type 0
IsLength fixed len = IsI64 len
IsLength compact len = IsI64 len × (i64_bits len / 2 ^ 56 < 2 ^ 2)

pub Reads-length :
    (codec : IntCodec) (len : ℤ)
    → IsLength codec len
    → Reads (read_varlong30 3 codec) (write_varlong30 len 3 codec) len
unfolding read_varlong30 write_varlong30
Reads-length fixed len h rest = read_longint-write_longint len rest h
Reads-length compact len h rest =
    read_varlong-write_varlong 2 len rest (omega arith) (omega arith) h.0 h.1

-- The times that the codec can send: an i32, or compactly an i64 with a top byte below 8.
abbrev pub IsTime : IntCodec → ℤ → Type 0
IsTime fixed mtime = IsI32 mtime
IsTime compact mtime = IsI64 mtime × (i64_bits mtime / 2 ^ 56 < 2 ^ 3)

low_word : (a : ℤ) → IsI32 a → i32_of_bits (i64_bits a % 2 ^ 32) ≡ a
low_word (pos n) h = ground arith
low_word (negsuc n) h = ground arith

pub Reads-mtime :
    (codec : IntCodec) (mtime : ℤ)
    → IsTime codec mtime
    → Reads (read_mtime codec) (write_mtime codec mtime) mtime
Reads-mtime fixed mtime h rest = rw (low_word mtime h) (read_int-write_int mtime rest h)
Reads-mtime compact mtime h rest =
    read_varlong-write_varlong 3 mtime rest (omega arith) (omega arith) h.0 h.1

Reads-name :
    (prev_name name : List ℕ) (follows : Bool)
    → length name < 256
    → Reads
        (read_owner_name prev_name follows)
        (if follows then length name % 256 ∷ name else [])
        (if follows then name else prev_name)
unfolding read_byte
Reads-name prev_name name true h rest =
    let e : length name % 256 ≡ length name = omega arith in rw e (read_exact-append name rest)
Reads-name prev_name name false h rest = refl

-- An owner's number and name; a name follows only where numbers are compact.
pub Reads-owner :
    (codec : IntCodec) (id : ℕ) (prev_name name : List ℕ) (follows : Bool)
    → id < 2 ^ 32
    → length name < 256
    → (codec ≡ fixed → follows ≡ false)
    → Reads
        (read_owner codec prev_name follows)
        (write_owner codec id name follows)
        (id, (if follows then name else prev_name))
Reads-owner compact id prev_name name follows h k inline rest =
    Reads-bind read_varint (λ i. read_owner_name prev_name follows >>= λ n. pure (i, n))
      (write_varint id) (if follows then length name % 256 ∷ name else []) id
      (id, (if follows then name else prev_name)) (λ r. read_varint-write_varint id r h)
      (Reads-last (read_owner_name prev_name follows) (λ n. (id, n)) _ _
        (Reads-name prev_name name follows k))
      rest
Reads-owner fixed id prev_name name follows h k inline rest = rw (inline refl) (
    Reads-last read_u32 (λ i. (i, prev_name)) (write_int (i32_of_bits id)) id (Reads-u32 id h) rest)
