-- ===== src/Codec/Fields/Names.antt =====
-- The byte strings of an entry: the name, whose beginning is taken from the previous name, the target
-- of a symbolic link, and the checksum of the file.
use ferrosync.Base.{
  ℕ, zero, suc, ◌+◌, ◌-◌, ◌%◌, ◌^◌, ◌<◌, ◌≤◌, min, ◌≡◌, ◌==◌, ap, ap₂, ◌∙◌, refl, sym, Bool, true,
  false, if◌then◌else◌, List, [], ◌∷◌, ◌++◌, length, take, drop, arith, ltb, leb, inl, inr,
  Bool-cases, le→ltb, length-drop, take-append-drop, length-take, length-append, replicate, leb→le,
}
use ferrosync.Wire.Stream.{
  ok, ◌>>=◌, pure, Reads, Reads-bind, Reads-last, read_byte, read_exact, read_exact-append,
}
use ferrosync.Wire.Varlong.{IntCodec, read_varint30, write_varint30}
use ferrosync.Codec.Format.{FileListOptions}
use ferrosync.Codec.Entry.{DeltaState}
use ferrosync.Codec.Flags.{equal_run, common_prefix_len, same_name, long_name}
use ferrosync.Codec.Fields.{
  max_name_len, encode_filename, decode_suffix, read_suffix_len, read_prefix_len, decode_filename,
  read_link, fit_checksum,
}
use ferrosync.Codec.Fields.Scalars.{Reads-varint30}

equal_run-le : (limit : ℕ) (a b : List ℕ) → equal_run limit a b ≤ limit
unfolding equal_run
equal_run-le zero a b = omega arith
equal_run-le (suc limit) [] b = omega arith
equal_run-le (suc limit) (x ∷ a) [] = omega arith
equal_run-le (suc limit) (x ∷ a) (y ∷ b) = ground (arith, equal_run-le limit a b)

-- The run is a common prefix of both lists.
equal_run-take :
    (limit : ℕ) (a b : List ℕ) → take (equal_run limit a b) a ≡ take (equal_run limit a b) b
unfolding equal_run
equal_run-take zero a b = refl
equal_run-take (suc limit) [] b = refl
equal_run-take (suc limit) (x ∷ a) [] = refl
equal_run-take (suc limit) (x ∷ a) (y ∷ b) = elim (Bool-cases (x == y)) [
  | inl e ↦ rw e (ap₂ (λ z zs. z ∷ zs) (head x y e) (equal_run-take limit a b))
  | inr e ↦ rw e
]
  where
    head : (x y : ℕ) → (x == y) ≡ true → x ≡ y
    head x y e = ground arith

module _ (a b : List ℕ) where
  pub common_prefix_len-bounds :
      (common_prefix_len a b ≤ 255)
      × (common_prefix_len a b ≤ length a)
      × (common_prefix_len a b ≤ length b)
  common_prefix_len-bounds =
      let h : common_prefix_len a b ≤ min (min (length a) (length b)) 255 = equal_run-le _ a b in
      (omega (arith, h), omega (arith, h), omega (arith, h))

Reads-exact : (bs : List ℕ) → Reads (read_exact (length bs)) bs bs
Reads-exact bs rest = read_exact-append bs rest

-- The suffix behind a common prefix of `c` bytes.
Reads-suffix :
    (state : DeltaState) (name : List ℕ) (c : ℕ)
    → c ≤ length state.prev_name
    → c ≤ length name
    → length name ≤ max_name_len
    → take c state.prev_name ≡ take c name
    → Reads (decode_suffix state c (length name - c)) (drop c name) name
unfolding decode_suffix
Reads-suffix state name c hp hn hm e rest =
    rw
      (
        le→ltb max_name_len (c + (length name - c)) (omega arith),
        le→ltb (length state.prev_name) c hp,
      )
      (Reads-last (read_exact (length name - c)) (λ suffix. take c state.prev_name ++ suffix)
          (drop c name) (drop c name) read rest
        ∙ ap (λ n. ok (n, rest)) (ap (λ p. p ++ drop c name) e ∙ take-append-drop c name))
  where
    read : Reads (read_exact (length name - c)) (drop c name) (drop c name)
    read r = rw (length-drop c name) at (Reads-exact (drop c name) r)

-- The length of the suffix, in one byte or as a number.
Reads-suffix_len :
    (codec : IntCodec) (long : Bool) (n : ℕ)
    → n < 2 ^ 32
    → (long ≡ false → n < 256)
    → Reads
        (if long then read_varint30 codec else read_byte)
        (if long then write_varint30 (n % 2 ^ 32) codec else n % 256 ∷ [])
        n
unfolding read_byte
Reads-suffix_len codec true n h k rest =
    let e : n % 2 ^ 32 ≡ n = omega arith in rw e (Reads-varint30 codec n h rest)
Reads-suffix_len codec false n h k rest =
    let e : n % 256 ≡ n = omega (arith, k refl) in ap (λ (x : ℕ). ok (x, rest)) e

-- The length of the prefix: nothing is sent for none.
Reads-prefix_len :
    (same : Bool) (c : ℕ)
    → c ≤ 255
    → same ≡ ltb 0 c
    → Reads (if same then read_byte else pure 0) (if same then c % 256 ∷ [] else []) c
unfolding read_byte
Reads-prefix_len true c h e rest =
    let l : c % 256 ≡ c = omega arith in ap (λ (x : ℕ). ok (x, rest)) l
Reads-prefix_len false c h e rest = let z : 0 ≡ c = ground arith in ap (λ (x : ℕ). ok (x, rest)) z

short : (n : ℕ) → ltb 255 n ≡ false → n < 256
short n h = ground arith

-- A name of at most 65536 bytes is read back, whatever the previous one, where the flags say
-- whether a prefix is shared and whether the rest is long, to the writer and the reader alike.
pub decode_filename-encode_filename :
    (state : DeltaState) (name : List ℕ) (flags sent : ℕ) (opts : FileListOptions)
    → length name ≤ max_name_len
    → same_name flags ≡ ltb 0 (common_prefix_len state.prev_name name)
    → long_name flags ≡ ltb 255 (length name - common_prefix_len state.prev_name name)
    → same_name sent ≡ same_name flags
    → long_name sent ≡ long_name flags
    → Reads (decode_filename state sent opts) (encode_filename name state flags opts) name
unfolding decode_filename encode_filename
decode_filename-encode_filename state name flags sent opts hm es el ss sl =
    let c : ℕ = common_prefix_len state.prev_name name in
    let b = common_prefix_len-bounds state.prev_name name in
    rw (ss, sl)
      (Reads-bind (read_prefix_len flags) _ _ _ c name (Reads-prefix_len (same_name flags) c b.0 es)
        (Reads-bind (read_suffix_len flags opts) (decode_suffix state c) _ _ (length name - c) name
          (Reads-suffix_len opts.wire.int_codec (long_name flags) (length name - c) (omega arith)
            (λ f. short (length name - c) (sym el ∙ f)))
          (Reads-suffix state name c b.1 b.2 hm (equal_run-take _ state.prev_name name))))

-- The target of a symbolic link is read back.
pub Reads-link :
    (codec : IntCodec) (target : List ℕ)
    → length target ≤ max_name_len
    → Reads
        (read_varint30 codec >>= read_link)
        (write_varint30 (length target % 2 ^ 32) codec ++ target)
        target
unfolding read_link
Reads-link codec target h =
    let e : length target % 2 ^ 32 ≡ length target = omega arith in
    rw e (
      Reads-bind (read_varint30 codec) read_link (write_varint30 (length target) codec) target
        (length target) target (Reads-varint30 codec (length target) (omega arith))
        (rw (le→ltb max_name_len (length target) h) (Reads-exact target)))

length-replicate : (n x : ℕ) → length (replicate n x) ≡ n
length-replicate zero x = refl
length-replicate (suc n) x = ap suc (length-replicate n x)

pub length-fit_checksum : (n : ℕ) (checksum : List ℕ) → length (fit_checksum n checksum) ≡ n
length-fit_checksum n checksum = elim (Bool-cases (leb n (length checksum))) [
  | inl e ↦ rw e (omega (arith, length-take n checksum, leb→le n (length checksum) e))
  | inr e ↦ rw e (
      omega (
        arith,
        length-append checksum (replicate (n - length checksum) 0),
        length-replicate (n - length checksum) 0,
        over n (length checksum) e,
      ))
]
  where
    over : (a b : ℕ) → leb a b ≡ false → b < a
    over a b h = ground arith

pub Reads-checksum :
    (n : ℕ) (checksum : List ℕ)
    → Reads (read_exact n) (fit_checksum n checksum) (fit_checksum n checksum)
Reads-checksum n checksum rest =
    rw (length-fit_checksum n checksum) at (Reads-exact (fit_checksum n checksum) rest)
