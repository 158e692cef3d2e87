-- ===== src/Delta/Token/Compressed/Runs.antt =====
-- What the reader of compressed tokens makes of the flag, the index and the count of a run.
use ferrosync.Base.{
  ℕ, zero, suc, ◌+◌, ◌*◌, ◌/◌, ◌%◌, ◌^◌, ◌<◌, ◌≡◌, refl, ap, ap₂, sym, ◌∙◌, subst, if◌then◌else◌,
  List, [], ◌∷◌, ◌++◌, Bool, true, false, leb, ◌==◌, if_true, if_false, arith,
}
use ferrosync.Base.Int.{ℤ, pos, ◌+ℤ◌, ◌-ℤ◌, ltb_ℤ, eq_ℤ, wrap_i32, i32_bits}
use ferrosync.Base.Bytes.{le_bytes}
use ferrosync.Wire.Stream.{Result, ok, read_byte, bind_ok}
use ferrosync.Wire.Fixed.{read_int, write_int, read_int-write_int}
use ferrosync.Delta.Token.{Token, block_match}
use ferrosync.Delta.Token.Compressed.{Compressor}
use ferrosync.Delta.Token.Compressed.Reader.{
  idle, running, ReaderState, read_run, read_long, read_flag, recv_compressed_token,
}

abbrev pub matches_from : ℕ → ℕ → List Token
matches_from a zero = []
matches_from a (suc k) = block_match (pos a) ∷ matches_from (suc a) k

next_pos : (a : ℕ) → suc a < 2 ^ 31 → wrap_i32 (pos a +ℤ pos 1) ≡ pos (suc a)
unfolding ◌+ℤ◌
next_pos a h = ground arith

less_pos : (k : ℕ) → suc k < 2 ^ 31 → wrap_i32 (pos (suc k) -ℤ pos 1) ≡ pos k
unfolding ◌-ℤ◌ ◌+ℤ◌
less_pos k h = ground arith

add_pos : (a q : ℕ) → a + q < 2 ^ 31 → wrap_i32 (pos a +ℤ pos q) ≡ pos (a + q)
unfolding ◌+ℤ◌
add_pos a q h = ground arith

module _ (codec : Compressor) where
  abbrev pub idle_at : ℕ → ℤ → codec.State → ReaderState codec
  idle_at e run d = record { decompressor = d; rx_token = pos e; rx_run = run; state = idle }

  abbrev pub running_at : ℕ → ℕ → codec.State → ReaderState codec
  running_at a k d = record { decompressor = d; rx_token = pos a; rx_run = pos k; state = running }

  -- The reads of a stream, from a state and its bytes to a state and the bytes left.
  abbrev pub IsRead : ReaderState codec → List ℕ → List Token → ReaderState codec → List ℕ → Type 0
  IsRead st s [] st' s' = (st ≡ st') × (s ≡ s')
  IsRead st s (t ∷ ts) st' s' =
      (mid : ReaderState codec) × (left : List ℕ) × (recv_compressed_token codec st s
        ≡ ok ((t, mid), left))
      × IsRead mid left ts st' s'

  pub IsRead-append :
      (a : ReaderState codec) (s : List ℕ) (ts us : List Token) (b : ReaderState codec)
      (s' : List ℕ) (c : ReaderState codec) (s'' : List ℕ)
      → IsRead a s ts b s'
      → IsRead b s' us c s''
      → IsRead a s (ts ++ us) c s''
  IsRead-append a s [] us b s' c s'' (same, at) k =
      subst (λ x. IsRead x s us c s'') (sym same) (subst (λ x. IsRead b x us c s'') (sym at) k)
  IsRead-append a s (t ∷ ts) us b s' c s'' (mid, left, got, more) k =
      (mid, left, got, IsRead-append mid left ts us b s' c s'' more k)

  after_running : ℤ → ℤ → codec.State → List ℕ → Result ((Token × ReaderState codec) × List ℕ)
  after_running t r d s = ok (
    (
      block_match t,
      record {
        decompressor = d;
        rx_token = t;
        rx_run = r;
        state = if eq_ℤ r (pos 0) then idle else running;
      },
    ),
    s,
  )

  -- The tokens of a run that come after its first.
  pub running-IsRead :
      (k a : ℕ) (d : codec.State) (s : List ℕ)
      → a + suc k < 2 ^ 31
      → IsRead
          (running_at a (suc k) d)
          s
          (matches_from (suc a) (suc k))
          (idle_at (a + suc k) (pos 0) d)
          s
  unfolding recv_compressed_token after_running
  running-IsRead zero a d s h = (
    idle_at (suc a) (pos 0) d,
    s,
    ap₂ (λ t r. after_running t r d s) (next_pos a (omega arith)) (less_pos 0 (omega arith)),
    (ap (λ (n : ℕ). idle_at n (pos 0) d) (omega arith), refl),
  )
  running-IsRead (suc k) a d s h = (
    running_at (suc a) (suc k) d,
    s,
    ap₂ (λ t r. after_running t r d s) (next_pos a (omega arith)) (less_pos (suc k) (omega arith))
        ∙ ap
            (λ b. ok (
              (
                block_match (pos (suc a)),
                record {
                  decompressor = d;
                  rx_token = pos (suc a);
                  rx_run = pos (suc k);
                  state = if b then idle else running;
                },
              ),
              s,
            ))
            (more_left k),
    subst
        (λ (n : ℕ).
          IsRead (running_at (suc a) (suc k) d) s (matches_from (suc (suc a)) (suc k))
            (idle_at n (pos 0) d) s)
        (omega arith) (running-IsRead k (suc a) d s (omega arith)),
  )
    where
      more_left : (k : ℕ) → (suc k == 0) ≡ false
      more_left k = ground arith

  -- The state after the first token of a run.
  abbrev pub after_first : ℕ → ℤ → ℕ → codec.State → ReaderState codec
  after_first a run zero d = idle_at a run d
  after_first a run (suc k) d = running_at a (suc k) d

  abbrev pub count_bytes : ℕ → List ℕ
  count_bytes zero = []
  count_bytes (suc k) = le_bytes 2 (i32_bits (pos (suc k)))

  abbrev pub has_count : ℕ → Bool
  has_count zero = false
  has_count (suc k) = true

  pub read_run-count_bytes :
      (k a : ℕ) (run : ℤ) (d : codec.State) (rest : List ℕ)
      → k < 65536
      → read_run codec (has_count k) (idle_at a run d) (count_bytes k ++ rest)
        ≡ ok ((block_match (pos a), after_first a run k d), rest)
  unfolding read_byte
  read_run-count_bytes zero a run d rest h = refl
  read_run-count_bytes (suc k) a run d rest h =
      ap
        (λ r. ok (
          (
            block_match (pos a),
            record { decompressor = d; rx_token = pos a; rx_run = r; state = running },
          ),
          rest,
        ))
        (counted k h)
    where
      counted :
          (k : ℕ)
          → suc k < 65536
          → wrap_i32 (pos (i32_bits (pos (suc k)) % 256 + i32_bits (pos (suc k)) / 256 % 256 * 256))
            ≡ pos (suc k)
      counted k h = ground arith

  -- A relative flag.
  pub read_flag-relative :
      (again : ReaderState codec → List ℕ → Result ((Token × ReaderState codec) × List ℕ))
      (f e q : ℕ) (b : Bool) (run : ℤ) (d : codec.State)
      → (f / 64 == 1) ≡ false
      → leb 128 f ≡ true
      → (f / 64 % 2 == 1) ≡ b
      → f % 64 ≡ q
      → e + q < 2 ^ 31
      → read_flag codec again (idle_at e run d) f ≡ read_run codec b (idle_at (e + q) run d)
  read_flag-relative again f e q b run d frame high counted offset small =
      if_false _ _ frame
      ∙ if_false _ _ (not_end f high)
      ∙ if_true _ _ high
      ∙ ap₂
          (λ c t.
            read_run codec c
              (record { decompressor = d; rx_token = t; rx_run = run; state = idle }))
          counted (ap (λ (n : ℕ). wrap_i32 (pos e +ℤ pos n)) offset ∙ add_pos e q small)
    where
      not_end : (f : ℕ) → leb 128 f ≡ true → (f == 0) ≡ false
      not_end f high = ground arith

  -- An absolute index.
  pub read_long-write_int :
      (f a : ℕ) (b : Bool) (st : ReaderState codec) (s : List ℕ)
      → (f % 2 == 1) ≡ b
      → a < 2 ^ 31
      → read_long codec st f (write_int (pos a) ++ s)
        ≡ read_run codec b (record st { rx_token = pos a }) s
  read_long-write_int f a b st s counted small =
      bind_ok read_int _ _ (read_int-write_int (pos a) s (small, omega arith))
      ∙ ap (λ (m : List ℕ → Result ((Token × ReaderState codec) × List ℕ)). m s)
          (if_false _ _ (not_negative a)
            ∙ ap (λ c. read_run codec c (record st { rx_token = pos a })) counted)
    where
      not_negative : (a : ℕ) → ltb_ℤ (pos a) (pos 0) ≡ false
      not_negative a = ground arith
