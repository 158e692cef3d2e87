-- ===== src/Delta/Token/Compressed/Flags.antt =====
-- The first token of a run that the writer of compressed tokens flushes is read back.
use ferrosync.Base.{
  ℕ, zero, suc, ◌+◌, ◌-◌, ◌/◌, ◌%◌, ◌^◌, ◌≤◌, ◌<◌, ◌≡◌, refl, ap, ◌∙◌, List, [], ◌∷◌, ◌++◌,
  append_assoc, Bool, true, false, leb, ◌==◌, ◌&&◌, not, if◌then◌else◌, Bool-cases, inl, inr,
  length, arith,
}
use ferrosync.Base.Int.{ℤ, pos, ◌+ℤ◌, ◌-ℤ◌, ltb_ℤ, wrap_i32, i32_bits}
use ferrosync.Base.Bytes.{le_bytes}
use ferrosync.Wire.Stream.{Result, ok, read_byte}
use ferrosync.Wire.Fixed.{write_int}
use ferrosync.Delta.Token.{Token, block_match}
use ferrosync.Delta.Token.Compressed.{Compressor}
use ferrosync.Delta.Token.Compressed.Writer.{run_bytes}
use ferrosync.Delta.Token.Compressed.Reader.{
  ReaderState, read_flag, read_long, read_run, read_idle, recv_compressed_token,
}
use ferrosync.Delta.Token.Compressed.Runs.{
  idle_at, after_first, count_bytes, has_count, read_run-count_bytes, read_flag-relative,
  read_long-write_int,
}

abbrev is_near : ℤ → Bool
is_near r = not (ltb_ℤ r (pos 0)) && not (ltb_ℤ (pos 63) r)

abbrev near_flag : ℕ → ℕ
near_flag zero = 0x80
near_flag (suc k) = 0xc0

abbrev far_flag : ℕ → ℕ
far_flag zero = 0x20
far_flag (suc k) = 0x21

near_facts :
    (a e : ℕ)
    → a < 2 ^ 31
    → e < 2 ^ 31
    → is_near (wrap_i32 (pos a -ℤ pos e)) ≡ true
    → (e ≤ a) × (a ≤ e + 63) × (i32_bits (wrap_i32 (pos a -ℤ pos e)) % 256 ≡ a - e)
unfolding ◌-ℤ◌ ◌+ℤ◌
near_facts a e h k near = (ground arith, ground arith, ground arith)

module _ (codec : Compressor) where
  abbrev flag_bytes : Bool → ℤ → ℕ → ℕ → List ℕ
  flag_bytes near r a k =
      if near then (near_flag k + i32_bits r % 256) ∷ [] else far_flag k ∷ write_int (pos a)

  run_bytes-pos :
      (r : ℤ) (a k : ℕ)
      → run_bytes codec (pos a) r (pos k) ≡ flag_bytes (is_near r) r a k ++ count_bytes codec k
  run_bytes-pos r a zero = refl
  run_bytes-pos r a (suc k) =
      ap
        (λ b.
          (if is_near r
            then ((if b then 0x80 else 0xc0) + i32_bits r % 256) ∷ []
            else (if b then 0x20 else 0x21) ∷ write_int (pos a))
          ++ (if b then [] else le_bytes 2 (i32_bits (pos (suc k)))))
        (counted k)
    where
      counted : (k : ℕ) → (suc k == 0) ≡ false
      counted k = ground arith

  pub recv-flag :
      (run : ℤ) (e : ℕ) (d : codec.State) (flag : ℕ) (s : List ℕ)
      → recv_compressed_token codec (idle_at codec e run d) (flag ∷ s)
        ≡ read_flag codec (read_idle codec (length s)) (idle_at codec e run d) flag s
  unfolding recv_compressed_token read_idle read_byte
  recv-flag run e d flag s = refl

  abbrev Next : Type 0
  Next = Result ((Token × ReaderState codec) × List ℕ)

  recv-near :
      (k a e : ℕ) (run : ℤ) (d : codec.State) (rest : List ℕ)
      → k < 65536
      → a < 2 ^ 31
      → e ≤ a
      → a ≤ e + 63
      → recv_compressed_token codec
          (idle_at codec e run d)
          ((near_flag k + (a - e)) ∷ (count_bytes codec k ++ rest))
        ≡ ok ((block_match (pos a), after_first codec a run k d), rest)
  recv-near k a e run d rest few small low high =
      recv-flag run e d (near_flag k + (a - e)) (count_bytes codec k ++ rest)
      ∙ ap (λ (m : List ℕ → Next). m (count_bytes codec k ++ rest))
          (read_flag-relative codec (read_idle codec (length (count_bytes codec k ++ rest)))
            (near_flag k + (a - e)) e (a - e) (has_count codec k) run d (frame k) (flagged k)
            (counted k) (offset k) (omega arith))
      ∙ ap
          (λ (n : ℕ).
            read_run codec (has_count codec k) (idle_at codec n run d)
              (count_bytes codec k ++ rest))
          (omega arith)
      ∙ read_run-count_bytes codec k a run d rest few
    where
      frame : (k : ℕ) → ((near_flag k + (a - e)) / 64 == 1) ≡ false
      frame zero = ground arith
      frame (suc k) = ground arith

      flagged : (k : ℕ) → leb 128 (near_flag k + (a - e)) ≡ true
      flagged zero = ground arith
      flagged (suc k) = ground arith

      counted : (k : ℕ) → ((near_flag k + (a - e)) / 64 % 2 == 1) ≡ has_count codec k
      counted zero = ground arith
      counted (suc k) = ground arith

      offset : (k : ℕ) → (near_flag k + (a - e)) % 64 ≡ a - e
      offset zero = omega arith
      offset (suc k) = omega arith

  recv-far :
      (k a e : ℕ) (run : ℤ) (d : codec.State) (rest : List ℕ)
      → k < 65536
      → a < 2 ^ 31
      → recv_compressed_token codec
          (idle_at codec e run d)
          (far_flag k ∷ (write_int (pos a) ++ (count_bytes codec k ++ rest)))
        ≡ ok ((block_match (pos a), after_first codec a run k d), rest)
  recv-far k a e run d rest few small =
      recv-flag run e d (far_flag k) _
      ∙ ap (λ (m : List ℕ → Next). m (write_int (pos a) ++ (count_bytes codec k ++ rest)))
          (absolute k
            (read_idle codec (length (write_int (pos a) ++ (count_bytes codec k ++ rest))))
            (idle_at codec e run d))
      ∙ read_long-write_int codec (far_flag k) a (has_count codec k) (idle_at codec e run d) _
          (counted k) small
      ∙ read_run-count_bytes codec k a run d rest few
    where
      absolute :
          (k : ℕ) (again : ReaderState codec → List ℕ → Next) (st : ReaderState codec)
          → read_flag codec again st (far_flag k) ≡ read_long codec st (far_flag k)
      absolute zero again st = refl
      absolute (suc k) again st = refl

      counted : (k : ℕ) → (far_flag k % 2 == 1) ≡ has_count codec k
      counted zero = refl
      counted (suc k) = refl

  pub recv-run_bytes :
      (k a e : ℕ) (run : ℤ) (d : codec.State) (rest : List ℕ)
      → k < 65536
      → a < 2 ^ 31
      → e < 2 ^ 31
      → recv_compressed_token codec
          (idle_at codec e run d)
          (run_bytes codec (pos a) (wrap_i32 (pos a -ℤ pos e)) (pos k) ++ rest)
        ≡ ok ((block_match (pos a), after_first codec a run k d), rest)
  recv-run_bytes k a e run d rest few small small' =
      ap recv (ap (λ bs. bs ++ rest) (run_bytes-pos r a k)) ∙ elim (Bool-cases (is_near r)) [
        | inl near ↦
            let (low, high, offset) = near_facts a e small small' near in
            ap recv (
              ap (λ b. (flag_bytes b r a k ++ count_bytes codec k) ++ rest) near
              ∙ ap (λ (n : ℕ). (near_flag k + n) ∷ (count_bytes codec k ++ rest)) offset)
            ∙ recv-near k a e run d rest few small low high
        | inr far ↦
            ap recv (
              ap (λ b. (flag_bytes b r a k ++ count_bytes codec k) ++ rest) far
              ∙ append_assoc (far_flag k ∷ write_int (pos a)) (count_bytes codec k) rest)
            ∙ recv-far k a e run d rest few small
      ]
    where
      r : ℤ
      r = wrap_i32 (pos a -ℤ pos e)

      recv : List ℕ → Next
      recv s = recv_compressed_token codec (idle_at codec e run d) s
