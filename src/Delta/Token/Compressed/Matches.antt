-- ===== src/Delta/Token/Compressed/Matches.antt =====
-- Block matches that the writer of compressed tokens gathers into runs are read back one by one.
use ferrosync.Base.{
  ℕ, suc, ◌+◌, ◌^◌, ◌≤◌, ◌<◌, ◌≡◌, ap, ◌∙◌, List, [], ◌∷◌, ◌++◌, append-nil, Bool, true, false,
  ◌||◌, not, if◌then◌else◌, arith,
}
use ferrosync.Base.Int.{ℤ, pos, ◌+ℤ◌, ◌-ℤ◌, ltb_ℤ, eq_ℤ, wrap_i32}
use ferrosync.Wire.Stream.{ok}
use ferrosync.Wire.Fixed.{minus_one}
use ferrosync.Delta.Token.Compressed.{Compressor}
use ferrosync.Delta.Token.Compressed.Writer.{
  WriterState, run_bytes, flush_run, then_write, begin_token, compress_and_send, finish_token,
  send_compressed_token, write_compressed_match, write_compressed_eof,
}

-- Whether a token does not go on with the run from `s` to `l`.
abbrev pub breaks : ℤ → ℕ → ℕ → Bool
breaks token l s =
    not (eq_ℤ token (wrap_i32 (pos l +ℤ pos 1)))
    || not (ltb_ℤ token (wrap_i32 (pos s +ℤ pos 65536)))

pub goes_on :
    (n l s : ℕ)
    → l + 65536 < 2 ^ 31
    → s ≤ l
    → breaks (pos n) l s ≡ false
    → (n ≡ suc l) × (n < s + 65536)
unfolding ◌+ℤ◌
goes_on n l s h k on = (ground arith, ground arith)

pub end_breaks : (l s : ℕ) → l + 65536 < 2 ^ 31 → breaks minus_one l s ≡ true
unfolding ◌+ℤ◌
end_breaks l s h = ground arith

pub run_count : (s k : ℕ) → s + k < 2 ^ 31 → wrap_i32 (pos (s + k) -ℤ pos s) ≡ pos k
unfolding ◌-ℤ◌ ◌+ℤ◌
run_count s k h = ground arith

module _ (codec : Compressor) where
  -- The writer with a run from `s` to `l` that is not written, after one that ended at `e`.
  abbrev pub run_at : ℕ → ℕ → ℕ → codec.State → WriterState codec
  run_at s l e c = record {
    last_token = pos l;
    run_start = pos s;
    last_run_end = pos e;
    flush_pending = false;
    compressor = c;
    pending_data = [];
  }

  abbrev pub written_run : ℕ → ℕ → ℕ → List ℕ
  written_run s l e =
      run_bytes codec (pos s) (wrap_i32 (pos s -ℤ pos e)) (wrap_i32 (pos l -ℤ pos s))

  pub write_match-breaks :
      (n s l e : ℕ) (c : codec.State)
      → breaks (pos n) l s ≡ true
      → write_compressed_match codec (run_at s l e c) (pos n)
        ≡ ok (written_run s l e, run_at n n l c)
  unfolding write_compressed_match send_compressed_token begin_token flush_run finish_token
      compress_and_send
  write_match-breaks n s l e c new =
      ap
        (λ b.
          then_write codec
            (if b
              then ok (written_run s l e, record (run_at s l l c) { run_start = pos n })
              else ok ([], run_at s l e c))
            (finish_token codec [] (pos n)))
        new
      ∙ ap (λ bs. ok (bs, run_at n n l c)) (append-nil (written_run s l e))

  pub write_match-goes_on :
      (n s l e : ℕ) (c : codec.State)
      → breaks (pos n) l s ≡ false
      → write_compressed_match codec (run_at s l e c) (pos n) ≡ ok ([], run_at s n e c)
  unfolding write_compressed_match send_compressed_token begin_token flush_run finish_token
      compress_and_send
  write_match-goes_on n s l e c on =
      ap
        (λ b.
          then_write codec
            (if b
              then ok (written_run s l e, record (run_at s l l c) { run_start = pos n })
              else ok ([], run_at s l e c))
            (finish_token codec [] (pos n)))
        on

  pub write_eof-run :
      (s l e : ℕ) (c : codec.State)
      → breaks minus_one l s ≡ true
      → (st : WriterState codec) × (write_compressed_eof codec (run_at s l e c)
          ≡ ok (written_run s l e ++ 0x00 ∷ [], st))
  unfolding write_compressed_eof send_compressed_token begin_token flush_run finish_token
      compress_and_send
  write_eof-run s l e c new = (
    _,
    ap
        (λ b.
          then_write codec
            (if b
              then ok (written_run s l e, record (run_at s l l c) { run_start = minus_one })
              else ok ([], run_at s l e c))
            (finish_token codec [] minus_one))
        new,
  )
