-- ===== src/Engine/Receiver/ToWriter/Alike.antt =====
-- The receiver that writes as it goes beside the receiver that keeps the file.
use ferrosync.Base.{
  ℕ, zero, suc, ◌*◌, ◌%◌, ◌^◌, ◌≡◌, refl, ap, sym, ◌∙◌, subst, List, [], ◌++◌, append-nil,
  append_assoc, Option, none, some, Bool-cases, inl, inr, ltb, leb, if◌then◌else◌, length,
  length-append, arith,
}
use ferrosync.Wire.Stream.{
  Result, ok, err, checksum_mismatch, ◌>>=◌, pure, fail, read_exact, Result-cases,
}
use ferrosync.Delta.Context.{Hashes, ProtocolContext, digest_len, file_checksum}
use ferrosync.Delta.Incremental.{
  Absorbed, nothing, more, Hashers, new_checksum, update, finalize, finalize-file_checksum,
}
use ferrosync.Delta.Matcher.{same_bytes}
use ferrosync.Delta.Ops.{slice_basis}
use ferrosync.Delta.Sum.{as_usize}
use ferrosync.Delta.Token.{Token, literal_data, block_match, end_of_file, recv_token}
use ferrosync.Engine.Receiver.{
  block_count, received_length, matched_block, token_bytes, grown, recv_loop, verify, verify_loop,
  recv_file_delta,
}
use ferrosync.Engine.Receiver.Accept.{recv_file_delta_total}
use ferrosync.Engine.Receiver.ToWriter.{
  Writer, Written, write_bytes, write_block, write_token, Writes, after_write_token, write_loop,
  verify_written, verify_writes, recv_file_delta_to_writer,
}
use ferrosync.Engine.Receiver.ToWriter.Blocks.{
  writer_block_count-block_count, writer_remainder-basis_remainder,
}

-- A writer that takes every write: `holds` is what it was given.
pub record TakesAll (writer : Writer) : Type 0 where
  pub holds : writer.State → List ℕ
  pub takes :
      (st : writer.State) (bytes : List ℕ)
      → (st' : writer.State) × (writer.write_all st bytes ≡ some st')
        × (holds st' ≡ holds st ++ bytes)

module _ (hashes : Hashes) (hashers : Hashers hashes) (ctx : ProtocolContext) (writer : Writer)
    (sink : TakesAll writer) (before : List ℕ) where
  -- The hasher and the writer have taken the bytes of the file, which are counted in 64 bits.
  pub record Wrote (w : Written hashes hashers writer) (output : List ℕ) : Type 0 where
    pub hashed :
        Absorbed
          (new_checksum hashes hashers ctx.checksum_type)
          (update hashes hashers)
          w.hasher
          output
    pub held : sink.holds w.output ≡ before ++ output
    pub counted : w.bytes_written ≡ length output % 2 ^ 64

  -- The same kind of error, or the bytes of the file written.
  abbrev pub AlikeStep : List ℕ → Result (Written hashes hashers writer) → Result (List ℕ) → Type 0
  AlikeStep output (ok w) (ok bytes) = Wrote w (output ++ bytes)
  AlikeStep output (err e) (err e') = e ≡ e'
  AlikeStep output _ _ = ⊥

  abbrev pub Alike : Writes hashes hashers writer → Option (Result (List ℕ × List ℕ)) → Type 0
  Alike (some (ok (w, rest))) (some (ok (output, rest'))) = Wrote w output × (rest ≡ rest')
  Alike (some (err e)) (some (err e')) = e ≡ e'
  Alike _ _ = ⊥

  -- The same for loops that may be out of fuel, both.
  abbrev AlikeLoop : Writes hashes hashers writer → Option (Result (List ℕ × List ℕ)) → Type 0
  AlikeLoop none none = Unit {0}
  AlikeLoop (some r) (some r') = Alike (some r) (some r')
  AlikeLoop _ _ = ⊥

  write_bytes_alike :
      (w : Written hashes hashers writer) (output bytes : List ℕ)
      → Wrote w output
      → AlikeStep output (write_bytes hashes hashers writer bytes w) (ok bytes)
  unfolding write_bytes
  write_bytes_alike w output bytes wrote =
      let (st, written, held) = sink.takes w.output bytes in
      rw written (record {
        hashed = more wrote.hashed bytes;
        held = held ∙ ap (λ bs. bs ++ bytes) wrote.held ∙ append_assoc before output bytes;
        counted = omega (arith, wrote.counted, length-append output bytes);
      })

  write_block_alike :
      (basis : List ℕ) (blength idx : ℕ) (w : Written hashes hashers writer) (output : List ℕ)
      → Wrote w output
      → AlikeStep output
          (write_block hashes hashers writer basis blength idx w)
          (matched_block basis blength idx)
  unfolding write_block matched_block slice_basis received_length
  write_block_alike basis blength idx w output wrote =
      rw
        (
          writer_block_count-block_count basis blength,
          writer_remainder-basis_remainder basis blength,
        )
        (elim (Bool-cases (leb (block_count basis blength) idx)) [
          | inl e ↦ rw e refl
          | inr e ↦ elim (Bool-cases (leb (2 ^ 64) (idx * blength))) [
            | inl f ↦ rw (e, f) refl
            | inr f ↦ elim (Bool-cases (ltb (idx * blength) (length basis))) [
              | inl g ↦ rw (e, f, g) (write_bytes_alike w output _ wrote)
              | inr g ↦ rw (e, f, g) (subst (λ bs. Wrote w bs) (sym (append-nil output)) wrote)
            ]
          ]
        ])

  abbrev AlikeToken :
      List ℕ → Option (Result (Written hashes hashers writer)) → Option (Result (List ℕ)) → Type 0
  AlikeToken output none none = Unit {0}
  AlikeToken output (some r) (some r') = AlikeStep output r r'
  AlikeToken output _ _ = ⊥

  write_token_alike :
      (basis : List ℕ) (blength : ℕ) (token : Token) (w : Written hashes hashers writer)
      (output : List ℕ)
      → Wrote w output
      → AlikeToken output
          (write_token hashes hashers writer basis blength token w)
          (token_bytes basis blength token)
  write_token_alike basis blength (literal_data bytes) w output wrote =
      write_bytes_alike w output bytes wrote
  write_token_alike basis blength (block_match idx) w output wrote =
      write_block_alike basis blength (as_usize idx) w output wrote
  write_token_alike basis blength end_of_file w output wrote = tt

  after_write_token_alike :
      (basis : List ℕ) (blength : ℕ)
      (go : Written hashes hashers writer → List ℕ → Writes hashes hashers writer)
      (go' : List ℕ → List ℕ → Option (Result (List ℕ × List ℕ)))
      (w : Written hashes hashers writer) (output rest : List ℕ)
      (r : Option (Result (Written hashes hashers writer))) (r' : Option (Result (List ℕ)))
      → Wrote w output
      → ((w' : Written hashes hashers writer) (out : List ℕ)
          → Wrote w' out
          → AlikeLoop (go w' rest) (go' out rest))
      → AlikeToken output r r'
      → AlikeLoop
          (after_write_token hashes hashers writer go w rest r)
          (grown basis blength go' output rest r')
  after_write_token_alike basis blength go go' w output rest none none wrote h a = (wrote, refl)
  after_write_token_alike basis blength go go' w output rest none (some r') wrote h a = absurd a
  after_write_token_alike basis blength go go' w output rest (some r) none wrote h a = absurd a
  after_write_token_alike basis blength go go' w output rest (some (ok w')) (some (ok bytes)) wrote
        h a =
      h w' (output ++ bytes) a
  after_write_token_alike basis blength go go' w output rest (some (ok w')) (some (err e)) wrote h
        a =
      absurd a
  after_write_token_alike basis blength go go' w output rest (some (err e)) (some (ok bytes)) wrote
        h a =
      absurd a
  after_write_token_alike basis blength go go' w output rest (some (err e)) (some (err e')) wrote h
        a =
      a

  write_loop_alike :
      (basis : List ℕ) (blength fuel : ℕ) (w : Written hashes hashers writer)
      (output stream : List ℕ)
      → Wrote w output
      → AlikeLoop
          (write_loop hashes hashers writer basis blength fuel w stream)
          (recv_loop basis blength fuel output stream)
  unfolding write_loop recv_loop
  write_loop_alike basis blength zero w output stream wrote = tt
  write_loop_alike basis blength (suc fuel) w output stream wrote =
      elim (Result-cases (recv_token stream)) [
        | inl ((token, rest), got) ↦ rw (got) (
            after_write_token_alike basis blength
              (write_loop hashes hashers writer basis blength fuel) (recv_loop basis blength fuel) w
              output rest _ _ wrote
              (λ w' out wrote'. write_loop_alike basis blength fuel w' out rest wrote')
              (write_token_alike basis blength token w output wrote))
        | inr (e, failed) ↦ rw (failed) refl
      ]

  compared-Alike :
      (w : Written hashes hashers writer) (output rest received : List ℕ)
      → Wrote w output
      → Alike
          (some (
            (if same_bytes received (finalize hashes hashers w.hasher)
                then pure w
                else fail checksum_mismatch)
              rest))
          (some (
            (if same_bytes received (file_checksum hashes ctx output)
                then pure output
                else fail checksum_mismatch)
              rest))
  compared-Alike w output rest received wrote =
      let digest : finalize hashes hashers w.hasher ≡ file_checksum hashes ctx output =
        finalize-file_checksum hashes hashers ctx w.hasher output wrote.hashed in
      elim (Bool-cases (same_bytes received (file_checksum hashes ctx output))) [
        | inl same ↦ rw (digest, same, Alike) (wrote, refl)
        | inr other ↦ rw (digest, other, Alike) refl
      ]

  verify-Alike :
      (w : Written hashes hashers writer) (output stream : List ℕ)
      → Wrote w output
      → Alike
          (some (verify_written hashes hashers writer ctx w stream))
          (some (verify hashes ctx output stream))
  unfolding verify_written
  verify-Alike w output stream wrote =
      elim (Result-cases (read_exact (digest_len ctx.checksum_type) stream)) [
        | inl ((received, rest), got) ↦
            rw (got, ◌>>=◌, Alike) (compared-Alike w output rest received wrote)
        | inr (e, failed) ↦ rw (failed, ◌>>=◌, Alike) refl
      ]

  verify_writes_alike :
      (r : Writes hashes hashers writer) (r' : Option (Result (List ℕ × List ℕ)))
      → AlikeLoop r r'
      → AlikeLoop (verify_writes hashes hashers writer ctx r) (verify_loop hashes ctx r')
  verify_writes_alike none none a = tt
  verify_writes_alike none (some r') a = absurd a
  verify_writes_alike (some r) none a = absurd a
  verify_writes_alike (some (ok (w, rest))) (some (ok (output, rest'))) a =
      rw (a.1) (verify-Alike w output rest' a.0)
  verify_writes_alike (some (ok (w, rest))) (some (err e)) a = absurd a
  verify_writes_alike (some (err e)) (some (ok r')) a = absurd a
  verify_writes_alike (some (err e)) (some (err e')) a = a

  strictly-Alike :
      (r : Writes hashes hashers writer) (r' : Option (Result (List ℕ × List ℕ)))
      → (a : Result (List ℕ × List ℕ)) × (r' ≡ some a)
      → AlikeLoop r r'
      → Alike r r'
  strictly-Alike none none (b, e) a = absurd (ground (arith, e))
  strictly-Alike none (some r') b a = absurd a
  strictly-Alike (some r) none b a = absurd a
  strictly-Alike (some r) (some r') b a = a

  -- Both receivers end on every stream, for a writer that takes every write: the one that writes as it
  -- goes fails with the same kind of error as the one that keeps the file, or it has written the bytes
  -- of that file behind what the writer held before, with their number modulo 2^64, and leaves the
  -- same bytes of the stream.
  pub recv_file_delta_to_writer-recv_file_delta :
      (basis : List ℕ) (blength : ℕ) (start : writer.State) (stream : List ℕ)
      → sink.holds start ≡ before
      → Alike
          (recv_file_delta_to_writer hashes hashers writer ctx basis blength start stream)
          (recv_file_delta hashes ctx basis blength stream)
  unfolding recv_file_delta_to_writer recv_file_delta
  recv_file_delta_to_writer-recv_file_delta basis blength start stream held =
      strictly-Alike _ _ (recv_file_delta_total hashes ctx basis blength stream) both
    where
      both :
          AlikeLoop
            (recv_file_delta_to_writer hashes hashers writer ctx basis blength start stream)
            (recv_file_delta hashes ctx basis blength stream)
      both = verify_writes_alike _ _ (
          write_loop_alike basis blength (suc (length stream)) _ [] stream
            (record { hashed = nothing; held = held ∙ sym (append-nil before); counted = refl }))
