-- ===== src/Codec/Flags/RoundTrip.antt =====
-- The flag word on the wire, for each of its three encodings.
use ferrosync.Base.{
  ℕ, ◌+◌, ◌*◌, ◌%◌, ◌<◌, ◌^◌, ◌≡◌, ◌==◌, append_assoc, ap, ◌∙◌, sym, Bool, true, false, List, ◌∷◌,
  ◌++◌, arith, refl, inl, inr, Bool-cases, if◌then◌else◌, if_true, if_false, ==_iff, ◌≤◌,
}
use ferrosync.Wire.Stream.{Reads, bind_ok, ok, read_byte}
use ferrosync.Wire.Fixed.{write_shortint}
use ferrosync.Wire.Varint.RoundTrip.{read_varint-write_varint}
use ferrosync.Wire.Varint.{read_varint, write_varint}
use ferrosync.Base.Int.{ℤ, pos, eq_ℤ, IsI32, i32_bits, i32_bits-lt, i32_of_bits-i32_bits, eq_ℤ-eq}
use ferrosync.Codec.Format.{has_bit, FlagsCodec, byte, byte_extended, varint}
use ferrosync.Codec.Flags.{
  Choices, flag_num, flag_word, decode_xmit_flags, encode_xmit_flags, entry_flags, end_of_list,
  read_io_error, encode_end_of_flist, after_varint, with_extended, two_bytes,
}
use ferrosync.Codec.Flags.Bits.{has_bit-flag_word, flag_word-lt}

-- The word with bit 2 set, as the wide encodings send a word that they could not send as it is.
abbrev pub extend : Choices → Choices
extend c = record c { c_rdev = true }

-- The low byte of the word.
abbrev pub narrow : Choices → Choices
narrow c = record c {
  c_major = false;
  c_hlinked = false;
  c_user = false;
  c_group = false;
  c_first = false;
  c_nsec = false;
}

-- The decisions that the decoder reads off the word.
abbrev pub sent_choices : FlagsCodec → Bool → Choices → Choices
sent_choices varint top c = if flag_word top c == 0 then extend c else c
sent_choices byte_extended top c = if two_bytes (flag_word top c) then extend c else c
sent_choices byte top c = narrow c

abbrev pub sent_top : FlagsCodec → Bool → Choices → Bool
sent_top byte top c = if flag_word top (narrow c) == 0 then true else top
sent_top codec top c = top

-- A first occurrence is a hard link, and the two-byte encoding keeps bit 2 for itself.
abbrev pub IsSendable : FlagsCodec → Choices → Type 0
IsSendable codec c =
    (c.c_first ≡ true → c.c_hlinked ≡ true) × (codec ≡ byte_extended → c.c_rdev ≡ false)

abbrev pub sent_word : FlagsCodec → Bool → Choices → ℕ
sent_word codec top c = flag_word (sent_top codec top c) (sent_choices codec top c)

add_four :
    (a b : Bool) (n : ℕ)
    → flag_num a + 2 * (flag_num b + 2 * (0 + 2 * n)) + 4
      ≡ flag_num a + 2 * (flag_num b + 2 * (1 + 2 * n))
add_four a b n = omega arith

with_extended-flag_word :
    (top : Bool) (c : Choices) → with_extended (flag_word top c) ≡ flag_word top (extend c)
unfolding flag_word
with_extended-flag_word top c = elim (Bool-cases c.c_rdev) [
  | inl e ↦ if_true _ _ (has_bit-flag_word top c 2 ∙ e) ∙ rw e
  | inr e ↦ if_false _ _ (has_bit-flag_word top c 2 ∙ e) ∙ rw e (add_four _ _ _)
]

flag_num-le : (b : Bool) → flag_num b ≤ 1
flag_num-le true = omega arith
flag_num-le false = omega arith

low_eight :
    (a b c d e f g h n : ℕ)
    → a ≤ 1
    → b ≤ 1
    → c ≤ 1
    → d ≤ 1
    → e ≤ 1
    → f ≤ 1
    → g ≤ 1
    → h ≤ 1
    → (a + 2 * (b + 2 * (c + 2 * (d + 2 * (e + 2 * (f + 2 * (g + 2 * (h + 2 * n)))))))) % 256
      ≡ a + 2 * (b + 2 * (c + 2 * (d + 2 * (e + 2 * (f + 2 * (g + 2 * (h + 0)))))))
low_eight a b c d e f g h n ha hb hc hd he hf hg hh = omega arith

flag_word-narrow : (top : Bool) (c : Choices) → flag_word top c % 256 ≡ flag_word top (narrow c)
unfolding flag_word
flag_word-narrow top c =
    low_eight _ _ _ _ _ _ _ _ _ (flag_num-le top) (flag_num-le c.c_mode) (flag_num-le c.c_rdev)
      (flag_num-le c.c_uid) (flag_num-le c.c_gid) (flag_num-le c.c_name) (flag_num-le c.c_long)
      (flag_num-le c.c_time)

read_two :
    (w : ℕ) (rest : List ℕ)
    → w < 2 ^ 16
    → has_bit 2 w ≡ true
    → (w == 4 + 4096) ≡ false
    → decode_xmit_flags byte_extended (write_shortint (w % 2 ^ 16) ++ rest)
      ≡ ok (entry_flags w, rest)
unfolding decode_xmit_flags write_shortint read_byte
read_two w rest h b n = ground arith

read_one :
    (w : ℕ) (rest : List ℕ)
    → w < 2 ^ 16
    → two_bytes w ≡ false
    → has_bit 2 w ≡ false
    → decode_xmit_flags byte_extended (w % 256 ∷ rest) ≡ ok (entry_flags w, rest)
unfolding decode_xmit_flags read_byte
read_one w rest h t b = ground arith

module _ (top : Bool) (c : Choices) where
  zero_word : flag_word top c ≡ 0 → flag_word top (extend c) ≡ 4
  zero_word h = sym (with_extended-flag_word top c) ∙ ap with_extended h

  one_word : flag_word top (narrow c) ≡ 0 → flag_word true (narrow c) ≡ 1
  unfolding flag_word
  one_word h = omega (arith, h)

  sent_varint :
      Reads
        (decode_xmit_flags varint)
        (encode_xmit_flags (flag_word top c) varint)
        (entry_flags (sent_word varint top c))
  unfolding decode_xmit_flags encode_xmit_flags
  sent_varint rest = elim (Bool-cases (flag_word top c == 0)) [
    | inl e ↦
        let z : flag_word top c ≡ 0 = (==_iff _ _).0 e in
        rw (e, zero_word z)
          (bind_ok read_varint after_varint (write_varint 4 ++ rest)
            (read_varint-write_varint 4 rest (omega arith)))
    | inr e ↦ rw e (
        bind_ok read_varint after_varint (write_varint (flag_word top c) ++ rest)
          (read_varint-write_varint (flag_word top c) rest (omega (arith, flag_word-lt top c)))
        ∙ rw e)
  ]

  sent_byte :
      Reads
        (decode_xmit_flags byte)
        (encode_xmit_flags (flag_word top c) byte)
        (entry_flags (sent_word byte top c))
  unfolding decode_xmit_flags encode_xmit_flags read_byte
  sent_byte rest = rw (flag_word-narrow top c) (elim (Bool-cases (flag_word top (narrow c) == 0)) [
    | inl e ↦ rw (e, one_word ((==_iff _ _).0 e))
    | inr e ↦ rw (e, e)
  ])

  not_end : (c.c_first ≡ true → c.c_hlinked ≡ true) → (flag_word top (extend c) == 4 + 4096) ≡ false
  not_end linked = elim (Bool-cases (flag_word top (extend c) == 4 + 4096)) [
    | inl e ↦
        let w : flag_word top (extend c) ≡ 4 + 4096 = (==_iff _ _).0 e in
        let first : c.c_first ≡ true =
          sym (has_bit-flag_word top (extend c) 12) ∙ ap (has_bit 12) w in
        let not_linked : c.c_hlinked ≡ false =
          sym (has_bit-flag_word top (extend c) 9) ∙ ap (has_bit 9) w in
        let is_linked : c.c_hlinked ≡ true = linked first in cc
    | inr e ↦ e
  ]

  sent_two_bytes :
      two_bytes (flag_word top c) ≡ true
      → (c.c_first ≡ true → c.c_hlinked ≡ true)
      → Reads
          (decode_xmit_flags byte_extended)
          (encode_xmit_flags (flag_word top c) byte_extended)
          (entry_flags (flag_word top (extend c)))
  unfolding decode_xmit_flags encode_xmit_flags
  sent_two_bytes e linked rest =
      rw (e, with_extended-flag_word top c)
        (read_two (flag_word top (extend c)) rest (omega (arith, flag_word-lt top (extend c)))
          (has_bit-flag_word top (extend c) 2) (not_end linked))

  sent_one_byte :
      two_bytes (flag_word top c) ≡ false
      → c.c_rdev ≡ false
      → Reads
          (decode_xmit_flags byte_extended)
          (encode_xmit_flags (flag_word top c) byte_extended)
          (entry_flags (flag_word top c))
  unfolding decode_xmit_flags encode_xmit_flags
  sent_one_byte e plain rest = rw e (
      read_one (flag_word top c) rest (omega (arith, flag_word-lt top c)) e
        (has_bit-flag_word top c 2 ∙ plain))

-- The decoder reads back the flag word that the encoder sent, with the bits of `sent_word`, for
-- choices that the codec can send.
pub decode_xmit_flags-encode_xmit_flags :
    (codec : FlagsCodec) (top : Bool) (c : Choices)
    → IsSendable codec c
    → Reads
        (decode_xmit_flags codec)
        (encode_xmit_flags (flag_word top c) codec)
        (entry_flags (sent_word codec top c))
decode_xmit_flags-encode_xmit_flags varint top c h rest = sent_varint top c rest
decode_xmit_flags-encode_xmit_flags byte top c h rest = sent_byte top c rest
decode_xmit_flags-encode_xmit_flags byte_extended top c h rest =
    elim (Bool-cases (two_bytes (flag_word top c))) [
      | inl e ↦ rw e (sent_two_bytes top c e h.0 rest)
      | inr e ↦ rw e (sent_one_byte top c e (h.1 refl) rest)
    ]

-- The error code that arrives with the end of the list: one-byte flags have no room for it.
abbrev pub sent_io_error : FlagsCodec → ℤ → ℤ
sent_io_error byte io_error = pos 0
sent_io_error codec io_error = io_error

read_end :
    (io_error : ℤ)
    → IsI32 io_error
    → Reads read_io_error (write_varint (i32_bits io_error)) (end_of_list io_error)
read_end io_error h rest =
    bind_ok read_varint _ (write_varint (i32_bits io_error) ++ rest)
      (read_varint-write_varint (i32_bits io_error) rest (i32_bits-lt io_error))
    ∙ ap (λ (x : ℤ). ok (end_of_list x, rest)) (i32_of_bits-i32_bits io_error h)

-- The decoder recognises the end of the list.
pub decode_xmit_flags-encode_end_of_flist :
    (codec : FlagsCodec) (io_error : ℤ)
    → IsI32 io_error
    → Reads
        (decode_xmit_flags codec)
        (encode_end_of_flist io_error codec)
        (end_of_list (sent_io_error codec io_error))
unfolding decode_xmit_flags encode_end_of_flist read_byte write_shortint
decode_xmit_flags-encode_end_of_flist varint io_error h rest = rw append_assoc (
    bind_ok read_varint after_varint (write_varint 0 ++ (write_varint (i32_bits io_error) ++ rest))
      (read_varint-write_varint 0 _ (omega arith))
    ∙ read_end io_error h rest)
decode_xmit_flags-encode_end_of_flist byte io_error h rest = refl
decode_xmit_flags-encode_end_of_flist byte_extended io_error h rest =
    elim (Bool-cases (eq_ℤ io_error (pos 0))) [
      | inl e ↦ rw (e, eq_ℤ-eq io_error (pos 0) e)
      | inr e ↦ rw e (read_end io_error h rest)
    ]
