-- ===== src/Handshake/Text.antt =====
-- The strings of the handshake, `read_vstring` and `write_vstring` of
-- crates/ferrosync-protocol/src/handshake.rs. A text is its list of bytes. `lossy` stands for
-- `String::from_utf8_lossy`.
use ferrosync.Base.{
  ℕ, ◌+◌, ◌*◌, ◌/◌, ◌%◌, ◌≤◌, ◌<◌, ltb, leb, ◌≡◌, ap, ◌∙◌, if◌then◌else◌, List, [], ◌∷◌, ◌++◌,
  length, All, arith,
}
use ferrosync.Wire.Stream.{
  Reader, Result, ok, err, handshake, ◌>>=◌, pure, Reads, Reads-bind, Reads-last, read_byte,
  read_exact, read_exact-append,
}
use ferrosync.Codec.Format.{has_bit}

-- The length behind the first byte.
abbrev pub read_vstring_len : ℕ → Reader ℕ
read_vstring_len first =
    if has_bit 7 first
    then (do second ← read_byte; pure (first % 128 * 256 + second))
    else pure first

abbrev pub read_length : Reader ℕ
read_length = do first ← read_byte; read_vstring_len first

module _ (lossy : List ℕ → List ℕ) where
  unfoldable pub read_vstring : Reader (List ℕ)
  read_vstring = do len ← read_length; buf ← read_exact len; pure (lossy buf)

abbrev pub vstring_len : ℕ → List ℕ
vstring_len len = if leb len 127 then len % 256 ∷ [] else (len / 256 % 256 + 128) ∷ len % 256 ∷ []

unfoldable pub write_vstring : List ℕ → Result (List ℕ)
write_vstring s = if ltb 32767 (length s) then err handshake else ok (vstring_len (length s) ++ s)

-- Valid text stays as it is.
abbrev pub KeepsText : (List ℕ → List ℕ) → Type 0
KeepsText lossy = (bs : List ℕ) → All (λ b. b < 128) bs → lossy bs ≡ bs

Reads-len : (len : ℕ) → len ≤ 32767 → Reads read_length (vstring_len len) len
unfolding read_byte
Reads-len len h rest = ground arith

-- A text of 7-bit characters and at most 32767 bytes is read back.
pub read_vstring-write_vstring :
    (lossy : List ℕ → List ℕ) (s : List ℕ)
    → KeepsText lossy
    → All (λ b. b < 128) s
    → length s ≤ 32767
    → Reads (read_vstring lossy) (vstring_len (length s) ++ s) s
unfolding read_vstring
read_vstring-write_vstring lossy s keeps text h =
    Reads-bind read_length _ (vstring_len (length s)) s (length s) s (Reads-len (length s) h)
      (λ rest.
        Reads-last (read_exact (length s)) lossy s s (λ r. read_exact-append s r) rest
        ∙ ap (λ t. ok (t, rest)) (keeps s text))
