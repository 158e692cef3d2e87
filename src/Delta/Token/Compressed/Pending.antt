-- ===== src/Delta/Token/Compressed/Pending.antt =====
-- What the compressed writer makes of block matches, with a run that is not written yet, is read
-- back.
use ferrosync.Base.{
  ℕ, zero, suc, ◌+◌, ◌^◌, ◌<◌, ◌≡◌, refl, ap, sym, ◌∙◌, subst, List, [], ◌∷◌, ◌++◌, append_assoc,
  Bool-cases, inl, inr, arith,
}
use ferrosync.Base.Int.{ℤ, pos, ◌-ℤ◌, wrap_i32}
use ferrosync.Wire.Stream.{Result, ok, read_byte}
use ferrosync.Delta.Ops.{DiffOp, literal, copy, block_index}
use ferrosync.Delta.Token.{Token, block_match, end_of_file}
use ferrosync.Delta.Token.Compressed.{Compressor}
use ferrosync.Delta.Token.Compressed.Writer.{
  WriterState, run_bytes, prepend, then_write, write_compressed_match, write_compressed_op,
  write_compressed_ops,
}
use ferrosync.Delta.Token.Compressed.Reader.{ReaderState, init, read_idle, recv_compressed_token}
use ferrosync.Delta.Token.Compressed.Runs.{
  idle_at, after_first, IsRead, IsRead-append, matches_from, running-IsRead,
}
use ferrosync.Delta.Token.Compressed.Flags.{recv-run_bytes}
use ferrosync.Delta.Token.Compressed.Matches.{
  breaks, goes_on, end_breaks, run_count, run_at, written_run, write_match-breaks,
  write_match-goes_on, write_eof-run,
}

matches_from-snoc :
    (s k : ℕ) (ts : List Token)
    → matches_from s (suc k) ++ ts ≡ matches_from s k ++ (block_match (pos (s + k)) ∷ ts)
matches_from-snoc s zero ts = ap (λ (n : ℕ). block_match (pos n) ∷ ts) (omega arith)
matches_from-snoc s (suc k) ts =
    ap (λ us. block_match (pos s) ∷ us)
      (matches_from-snoc (suc s) k ts
        ∙ ap (λ (n : ℕ). matches_from (suc s) k ++ (block_match (pos n) ∷ ts)) (omega arith))

-- The tokens of a list of block numbers, with the end of the file.
abbrev pub tokens_of : List ℕ → List Token
tokens_of [] = end_of_file ∷ []
tokens_of (n ∷ ns) = block_match (pos n) ∷ tokens_of ns

-- The operations copy the blocks with these numbers, which leave room for a run in an `i32`.
abbrev pub IsBlocks : ℕ → List DiffOp → List ℕ → Type 0
IsBlocks blength [] [] = Unit
IsBlocks blength [] (n ∷ ns) = ⊥
IsBlocks blength (op ∷ ops) [] = ⊥
IsBlocks blength (literal bytes ∷ ops) (n ∷ ns) = ⊥
IsBlocks blength (copy r ∷ ops) (n ∷ ns) =
    (block_index r blength ≡ pos n) × (n + 65536 < 2 ^ 31) × IsBlocks blength ops ns

-- A run that was flushed is read back.
module _ (codec inflater : Compressor) where
  run-IsRead :
      (k s e : ℕ) (run : ℤ) (d : inflater.State) (rest : List ℕ)
      → k < 65536
      → s + k < 2 ^ 31
      → e < 2 ^ 31
      → (run' : ℤ) × IsRead inflater
          (idle_at inflater e run d)
          (run_bytes codec (pos s) (wrap_i32 (pos s -ℤ pos e)) (pos k) ++ rest)
          (matches_from s (suc k))
          (idle_at inflater (s + k) run' d)
          rest
  run-IsRead zero s e run d rest few small small' = (
    run,
    (
      idle_at inflater s run d,
      rest,
      recv-run_bytes inflater zero s e run d rest few (omega arith) small',
      (ap (λ (n : ℕ). idle_at inflater n run d) (omega arith), refl),
    ),
  )
  run-IsRead (suc k) s e run d rest few small small' = (
    pos 0,
    (
      after_first inflater s run (suc k) d,
      rest,
      recv-run_bytes inflater (suc k) s e run d rest few (omega arith) small',
      running-IsRead inflater k s d rest small,
    ),
  )

  written_run-IsRead :
      (k s l e : ℕ) (run : ℤ) (d : inflater.State) (rest : List ℕ)
      → s + k ≡ l
      → k < 65536
      → l < 2 ^ 31
      → e < 2 ^ 31
      → (run' : ℤ) × IsRead inflater
          (idle_at inflater e run d)
          (written_run codec s l e ++ rest)
          (matches_from s (suc k))
          (idle_at inflater l run' d)
          rest
  written_run-IsRead k s l e run d rest ends few small small' =
      subst
        (λ (l : ℕ).
          (run' : ℤ) × IsRead inflater (idle_at inflater e run d) (written_run codec s l e ++ rest)
            (matches_from s (suc k)) (idle_at inflater l run' d) rest)
        ends
        (subst
          (λ n.
            (run' : ℤ) × IsRead inflater (idle_at inflater e run d)
              (run_bytes codec (pos s) (wrap_i32 (pos s -ℤ pos e)) n ++ rest)
              (matches_from s (suc k)) (idle_at inflater (s + k) run' d) rest)
          (sym (run_count s k (omega arith)))
          (run-IsRead k s e run d rest few (omega arith) small'))

  abbrev pub ended : ℕ → ℤ → inflater.State → ReaderState inflater
  ended l run d = record { decompressor = d; rx_token = pos l; rx_run = run; state = init }

  pub end-IsRead :
      (l : ℕ) (run : ℤ) (d : inflater.State) (rest : List ℕ)
      → IsRead inflater
          (idle_at inflater l run d)
          (0x00 ∷ rest)
          (end_of_file ∷ [])
          (ended l run d)
          rest
  unfolding recv_compressed_token read_idle read_byte
  end-IsRead l run d rest = (ended l run d, rest, refl, (refl, refl))

  -- What the writer makes of the rest of a file is read back, after the run that is not written.
  abbrev pub IsReadBack : List ℕ → ℕ → List Token → Type 0
  IsReadBack bytes e tokens =
      (run : ℤ) (d : inflater.State) (rest : List ℕ)
      → (rd : ReaderState inflater) × IsRead inflater (idle_at inflater e run d) (bytes ++ rest)
          tokens rd rest

  run-IsReadBack :
      (k s l e : ℕ) (bytes : List ℕ) (tokens : List Token)
      → s + k ≡ l
      → k < 65536
      → l < 2 ^ 31
      → e < 2 ^ 31
      → IsReadBack bytes l tokens
      → IsReadBack (written_run codec s l e ++ bytes) e (matches_from s (suc k) ++ tokens)
  run-IsReadBack k s l e bytes tokens ends few small small' later run d rest =
      let (run', first) = written_run-IsRead k s l e run d (bytes ++ rest) ends few small small' in
      let (rd, others) = later run' d rest in
      (
        rd,
        subst
            (λ t.
              IsRead inflater (idle_at inflater e run d) t (matches_from s (suc k) ++ tokens) rd
                rest)
            (sym (append_assoc (written_run codec s l e) bytes rest))
            (IsRead-append inflater _ _ (matches_from s (suc k)) tokens _ _ _ _ first others),
      )

  end-IsReadBack : (l : ℕ) → IsReadBack (0x00 ∷ []) l (end_of_file ∷ [])
  end-IsReadBack l run d rest = (ended l run d, end-IsRead l run d rest)

  module _ (blength : ℕ) (c : codec.State) where
    abbrev pub IsSent : WriterState codec → List DiffOp → ℕ → List Token → Type 0
    IsSent st ops e tokens =
        (bytes : List ℕ) × (st' : WriterState codec) × (write_compressed_ops codec blength st ops
          ≡ ok (bytes, st'))
        × IsReadBack bytes e tokens

    pub pending-IsSent :
        (ops : List DiffOp) (ns : List ℕ) (k s l e : ℕ)
        → IsBlocks blength ops ns
        → s + k ≡ l
        → k < 65536
        → l + 65536 < 2 ^ 31
        → e < 2 ^ 31
        → IsSent (run_at codec s l e c) ops e (matches_from s (suc k) ++ tokens_of ns)
    unfolding write_compressed_ops write_compressed_op
    pending-IsSent [] [] k s l e h ends few small small' =
        let (st, wrote) = write_eof-run codec s l e c (end_breaks l s small) in
        (
          _,
          st,
          wrote,
          run-IsReadBack k s l e (0x00 ∷ []) (end_of_file ∷ []) ends few (omega arith) small'
              (end-IsReadBack l),
        )
    pending-IsSent [] (n ∷ ns) k s l e h ends few small small' = absurd h
    pending-IsSent (literal bytes ∷ ops) [] k s l e h ends few small small' = absurd h
    pending-IsSent (copy r ∷ ops) [] k s l e h ends few small small' = absurd h
    pending-IsSent (literal bytes ∷ ops) (n ∷ ns) k s l e h ends few small small' = absurd h
    pending-IsSent (copy r ∷ ops) (n ∷ ns) k s l e (number, room, h) ends few small small' =
        elim (Bool-cases (breaks (pos n) l s)) [
          | inl new ↦
              let (bytes, st, wrote, later) =
                pending-IsSent ops ns 0 n n l h (omega arith) (omega arith) room (omega arith) in
              (
                written_run codec s l e ++ bytes,
                st,
                ap next (
                      ap (write_compressed_match codec (run_at codec s l e c)) number
                      ∙ write_match-breaks codec n s l e c new)
                    ∙ ap (prepend codec (written_run codec s l e)) wrote,
                run-IsReadBack k s l e bytes (block_match (pos n) ∷ tokens_of ns) ends few
                    (omega arith) small' later,
              )
          | inr on ↦
              let (follows, below) = goes_on n l s small (omega arith) on in
              let (bytes, st, wrote, later) =
                pending-IsSent ops ns (suc k) s n e h (omega arith) (omega arith) room small' in
              (
                bytes,
                st,
                ap next (
                      ap (write_compressed_match codec (run_at codec s l e c)) number
                      ∙ write_match-goes_on codec n s l e c on)
                    ∙ ap (prepend codec []) wrote,
                subst (IsReadBack bytes e)
                    (matches_from-snoc s (suc k) (tokens_of ns)
                      ∙ ap
                          (λ (m : ℕ).
                            matches_from s (suc k) ++ (block_match (pos m) ∷ tokens_of ns))
                          (omega arith))
                    later,
              )
        ]
      where
        next : Result (List ℕ × WriterState codec) → Result (List ℕ × WriterState codec)
        next r = then_write codec r (λ st. write_compressed_ops codec blength st ops)
