-- ===== src/Delta/Token/Compressed/Frames.antt =====
-- Frames of compressed data, as the reader takes them.
use ferrosync.Base.{
  ℕ, suc, ◌+◌, ◌*◌, ◌/◌, ◌%◌, ◌≤◌, ◌<◌, ◌≡◌, refl, ap, ◌∙◌, List, ◌∷◌, ◌++◌, append_assoc, true,
  false, ◌==◌, if_true, if_false, lt→ltb, le→ltb, length, take, drop, length-take, arith,
}
use ferrosync.Base.Int.{ℤ}
use ferrosync.Wire.Stream.{
  Result, ok, err, ProtocolError, read_byte, read_exact, read_exact-append, bind_ok,
}
use ferrosync.Mux.Frame.{chunks}
use ferrosync.Delta.Token.{Token, literal_data}
use ferrosync.Delta.Token.Compressed.{
  Compressor, maybe_append_trailer, max_data_count, data_frame, data_frames, output_frames,
}
use ferrosync.Delta.Token.Compressed.Reader.{
  ReaderState, give_data, read_compressed, read_frame, read_idle, recv_compressed_token,
}
use ferrosync.Delta.Token.Compressed.Runs.{idle_at}
use ferrosync.Delta.Token.Compressed.Flags.{recv-flag}

header_flag : (n : ℕ) → n ≤ max_data_count → ((0x40 + n / 256 % 256) / 64 == 1) ≡ true
header_flag n h = ground arith

header_length : (n : ℕ) → n ≤ max_data_count → (0x40 + n / 256 % 256) % 64 * 256 + n % 256 ≡ n
header_length n h = omega arith

data_frames-first :
    (n x : ℕ) (xs : List ℕ)
    → data_frames (chunks (suc n) (length (x ∷ xs)) (x ∷ xs))
      ≡ data_frame (x ∷ take n xs) ++ data_frames (chunks (suc n) (length xs) (drop n xs))
unfolding data_frames chunks
data_frames-first n x xs = refl

module _ (codec : Compressor) where
  abbrev Next : Type 0
  Next = Result ((Token × ReaderState codec) × List ℕ)

  read_compressed-append :
      (again : ReaderState codec → List ℕ → Next) (st : ReaderState codec) (x : ℕ)
      (xs rest : List ℕ)
      → length (x ∷ xs) ≤ max_data_count
      → read_compressed codec again st (length (x ∷ xs)) ((x ∷ xs) ++ rest)
        ≡ give_data codec again st
            (codec.apply st.decompressor (maybe_append_trailer codec.kind (x ∷ xs)))
            rest
  read_compressed-append again st x xs rest h =
      ap (λ (m : List ℕ → Next). m ((x ∷ xs) ++ rest))
        (if_false _ _ (not_empty (length xs))
          ∙ if_false _ _ (le→ltb max_data_count (length (x ∷ xs)) h))
      ∙ bind_ok (read_exact (length (x ∷ xs))) _ _ (read_exact-append (x ∷ xs) rest)
    where
      not_empty : (n : ℕ) → (suc n == 0) ≡ false
      not_empty n = ground arith

  give_data-err :
      (again : ReaderState codec → List ℕ → Next) (st : ReaderState codec)
      (r : Result (List ℕ × codec.State)) (rest : List ℕ) (failure : ProtocolError)
      → r ≡ err failure
      → give_data codec again st r rest ≡ err failure
  give_data-err again st r rest failure h = ap (λ r. give_data codec again st r rest) h

  read_frame-low :
      (again : ReaderState codec → List ℕ → Next) (st : ReaderState codec) (flag low : ℕ)
      (s : List ℕ)
      → read_frame codec again st flag (low ∷ s)
        ≡ read_compressed codec again st (flag % 64 * 256 + low) s
  unfolding read_byte
  read_frame-low again st flag low s = refl

  -- What the reader does with a frame: the decompressor has all of it.
  pub recv-data_frame :
      (e : ℕ) (run : ℤ) (d : codec.State) (x : ℕ) (xs rest : List ℕ)
      → length (x ∷ xs) ≤ max_data_count
      → recv_compressed_token codec (idle_at codec e run d) (data_frame (x ∷ xs) ++ rest)
        ≡ give_data codec
            (read_idle codec (length (length (x ∷ xs) % 256 ∷ (x ∷ xs) ++ rest)))
            (idle_at codec e run d)
            (codec.apply d (maybe_append_trailer codec.kind (x ∷ xs)))
            rest
  recv-data_frame e run d x xs rest h =
      recv-flag codec run e d _ _
      ∙ ap (λ (m : List ℕ → Next). m (length (x ∷ xs) % 256 ∷ (x ∷ xs) ++ rest))
          (if_true _ _ (header_flag (length (x ∷ xs)) h))
      ∙ read_frame-low again (idle_at codec e run d) flag (length (x ∷ xs) % 256) ((x ∷ xs) ++ rest)
      ∙ ap (λ (n : ℕ). read_compressed codec again (idle_at codec e run d) n ((x ∷ xs) ++ rest))
          (header_length (length (x ∷ xs)) h)
      ∙ read_compressed-append again (idle_at codec e run d) x xs rest h
    where
      again : ReaderState codec → List ℕ → Next
      again = read_idle codec (length (length (x ∷ xs) % 256 ∷ (x ∷ xs) ++ rest))

      flag : ℕ
      flag = 0x40 + length (x ∷ xs) / 256 % 256

  -- Output of 1 to 16383 bytes reaches the decompressor whole, with the trailer of its type, and what
  -- comes out is the token.
  pub recv_compressed_token-output_frames :
      (e : ℕ) (run : ℤ) (d d' : codec.State) (x y : ℕ) (xs ys rest : List ℕ)
      → length (x ∷ xs) ≤ max_data_count
      → codec.apply d (maybe_append_trailer codec.kind (x ∷ xs)) ≡ ok (y ∷ ys, d')
      → recv_compressed_token codec (idle_at codec e run d) (output_frames (x ∷ xs) ++ rest)
        ≡ ok ((literal_data (y ∷ ys), idle_at codec e run d'), rest)
  unfolding output_frames
  recv_compressed_token-output_frames e run d d' x y xs ys rest h inflated =
      ap (λ bs. recv_compressed_token codec (idle_at codec e run d) (bs ++ rest))
        (if_false _ _ (le→ltb max_data_count (length (x ∷ xs)) h))
      ∙ recv-data_frame e run d x xs rest h
      ∙ ap
          (λ r.
            give_data codec (read_idle codec (length (length (x ∷ xs) % 256 ∷ (x ∷ xs) ++ rest)))
              (idle_at codec e run d) r rest)
          inflated

  -- Longer output is cut: the decompressor has its first 16383 bytes alone, and where it refuses them
  -- the read fails.
  pub recv_compressed_token-output_frames_cut :
      (e : ℕ) (run : ℤ) (d : codec.State) (x : ℕ) (xs rest : List ℕ) (failure : ProtocolError)
      → max_data_count < length (x ∷ xs)
      → codec.apply d (maybe_append_trailer codec.kind (take max_data_count (x ∷ xs))) ≡ err failure
      → recv_compressed_token codec (idle_at codec e run d) (output_frames (x ∷ xs) ++ rest)
        ≡ err failure
  unfolding output_frames
  recv_compressed_token-output_frames_cut e run d x xs rest failure h refused =
      ap (λ bs. recv_compressed_token codec (idle_at codec e run d) (bs ++ rest))
        (if_true _ _ (lt→ltb max_data_count (length (x ∷ xs)) h) ∙ data_frames-first 16382 x xs)
      ∙ ap (recv_compressed_token codec (idle_at codec e run d))
          (append_assoc (data_frame (x ∷ take 16382 xs)) _ rest)
      ∙ recv-data_frame e run d x (take 16382 xs) _ (omega (arith, length-take 16382 xs))
      ∙ give_data-err
          (read_idle codec
            (length (length (x ∷ take 16382 xs) % 256 ∷ (x ∷ take 16382 xs) ++ more)))
          (idle_at codec e run d) _ more failure refused
    where
      more : List ℕ
      more = data_frames (chunks max_data_count (length xs) (drop 16382 xs)) ++ rest
