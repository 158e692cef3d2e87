-- ===== src/Delta/Matcher/Streaming/Fill.antt =====
-- A call of the streaming matcher, with the buffer filled.
use ferrosync.Base.{
  ℕ, ◌+◌, ◌-◌, ◌≤◌, ◌<◌, ◌≡◌, refl, ap, ap₂, sym, ◌∙◌, subst, List, [], ◌++◌, append_assoc,
  Bool-cases, inl, inr, true, false, ltb, ◌==◌, ◌||◌, not, if_true, if_false, length, take, drop,
  length-take, length-drop, length-append, take-append-drop, drop-append, arith,
}
use ferrosync.Delta.Ops.{DiffOp, apply_diffops}
use ferrosync.Delta.Matcher.{MatchState, flush_literal}
use ferrosync.Delta.Matcher.Streaming.{
  Matching, StreamState, new_stream, shift, fill, after_fill, process_chunk,
}
use ferrosync.Delta.Matcher.Streaming.Chunk.{
  drop-drop, IsFree, IsPlaced, IsPlaced-flush_literal, IsScan,
}
use ferrosync.Delta.Matcher.Streaming.Call.{drop_all, IsRunning, Called, after_fill-Called}

-- What is pending keeps its place when the buffer is shifted and filled.
shifted_tail :
    (buf bytes rest : List ℕ) (by to : ℕ)
    → by ≤ to
    → to ≤ length buf
    → drop (to - by) (drop by buf ++ bytes) ++ rest ≡ drop to buf ++ (bytes ++ rest)
shifted_tail buf bytes rest by to h k =
    ap (λ xs. xs ++ rest)
      (drop-append (to - by) (drop by buf) bytes (omega (arith, length-drop by buf))
        ∙ ap (λ xs. xs ++ bytes) (drop-drop (to - by) by buf ∙ ap (λ (n : ℕ). drop n buf) there))
    ∙ append_assoc (drop to buf) bytes rest
  where
    there : by + (to - by) ≡ to
    there = omega arith

module _ (checksum2 : List ℕ → List ℕ) (m : Matching) (basis source : List ℕ) where
  shifted :
      (rebuilt buf bytes rest : List ℕ) (by to at start : ℕ) (ops : List DiffOp)
      → start ≡ to
      → by ≤ to
      → to ≤ at
      → at ≤ length buf
      → IsPlaced checksum2 m basis source rebuilt ops (drop to buf ++ (bytes ++ rest))
      → (start - by ≤ at - by)
        × (at - by ≤ length (drop by buf ++ bytes))
        × IsPlaced checksum2 m basis source rebuilt ops
            (drop (start - by) (drop by buf ++ bytes) ++ rest)
  shifted rebuilt buf bytes rest by to at start ops same h k l placed = (
    omega arith,
    omega (arith, length-append (drop by buf) bytes, length-drop by buf),
    subst (IsPlaced checksum2 m basis source rebuilt ops)
        (sym (
          ap (λ (n : ℕ). drop (n - by) (drop by buf ++ bytes) ++ rest) same
          ∙ shifted_tail buf bytes rest by to h (omega arith)))
        placed,
  )

  shift-IsScan :
      (rebuilt buf bytes rest : List ℕ) (scan : MatchState)
      → m.blength ≤ length buf
      → scan.literal_start ≤ scan.pos
      → scan.pos ≤ length buf
      → length buf < scan.pos + m.blength
      → rebuilt ++ (drop scan.literal_start buf ++ (bytes ++ rest)) ≡ source
      → IsScan checksum2 m basis source rebuilt
          (drop (length buf - m.blength) buf ++ bytes)
          rest
          (shift checksum2 m buf (record scan { ops = [] }))
  unfolding flush_literal apply_diffops
  shift-IsScan rebuilt buf bytes rest scan long low high ended placed =
      elim (Bool-cases (ltb scan.literal_start by)) [
        | inl flushed ↦
            shifted rebuilt buf bytes rest by by scan.pos _
              (flush_literal buf by (record scan { ops = [] }))
              (if_true by scan.literal_start flushed) (omega arith) (omega arith) high
              (IsPlaced-flush_literal checksum2 m basis source rebuilt buf (bytes ++ rest) by
                (record scan { ops = [] }) (before_shift flushed) placed)
        | inr kept ↦
            shifted rebuilt buf bytes rest by scan.literal_start scan.pos _
              (flush_literal buf by (record scan { ops = [] }))
              (if_false by scan.literal_start kept) (after_shift kept) low high
              (subst
                (λ ops.
                  IsPlaced checksum2 m basis source rebuilt ops
                    (drop scan.literal_start buf ++ (bytes ++ rest)))
                (sym (if_false _ _ kept)) placed)
      ]
    where
      by : ℕ
      by = length buf - m.blength

      before_shift :
          ltb scan.literal_start (length buf - m.blength) ≡ true
          → scan.literal_start ≤ length buf - m.blength
      before_shift flushed = ground arith

      after_shift :
          ltb scan.literal_start (length buf - m.blength) ≡ false
          → length buf - m.blength ≤ scan.literal_start
      after_shift kept = ground arith

  exhausted_empty :
      (input : List ℕ)
      → ltb (length (take m.chunk_size input)) m.chunk_size ≡ true
      → drop m.chunk_size input ≡ []
  exhausted_empty input last = drop_all m.chunk_size input (short last)
    where
      short :
          ltb (length (take m.chunk_size input)) m.chunk_size ≡ true → length input ≤ m.chunk_size
      short last = ground (arith, length-take m.chunk_size input)

  -- The first call.
  pub first-Called :
      (char_offset : ℕ)
      → m.no_sums ≡ false
      → IsFree checksum2 m basis source
      → 0 < m.blength
      → m.blength ≤ m.chunk_size
      → Called checksum2 m basis source
          (ltb (length (take m.chunk_size source)) m.chunk_size)
          []
          []
          (drop m.chunk_size source)
          (process_chunk checksum2 m (new_stream char_offset) source)
  unfolding process_chunk fill new_stream apply_diffops
  first-Called char_offset sums free some_bytes wide =
      after_fill-Called checksum2 m basis source [] [] (drop m.chunk_size source)
        (fill checksum2 m (new_stream char_offset) source) sums free some_bytes refl
        (sym (take-append-drop m.chunk_size source))
        (omega arith, omega arith, take-append-drop m.chunk_size source) (exhausted_empty source)
        (λ short. (
          drop_all m.chunk_size source (omega (arith, short, length-take m.chunk_size source)),
          refl,
        ))

  -- A later call.
  filled : StreamState → List ℕ → StreamState
  unfolding flush_literal
  filled st input = record st {
    buf = drop (length st.buf - m.blength) st.buf ++ take m.chunk_size input;
    scan = shift checksum2 m st.buf (record st.scan { ops = [] });
    exhausted = ltb (length (take m.chunk_size input)) m.chunk_size;
  }

  fill-filled :
      (st : StreamState) (input : List ℕ)
      → m.no_sums ≡ false
      → 0 < m.blength
      → st.initialized ≡ true
      → st.exhausted ≡ false
      → fill checksum2 m st input ≡ filled st input
  unfolding fill filled flush_literal
  fill-filled st input sums some_bytes begun more =
      if_false _ _ (ap not begun)
      ∙ if_false _ _ (signed sums some_bytes)
      ∙ ap
          (λ e. record st {
            buf = drop (length st.buf - m.blength) st.buf ++ take m.chunk_size input;
            scan = shift checksum2 m st.buf (record st.scan { ops = [] });
            exhausted = e || ltb (length (take m.chunk_size input)) m.chunk_size;
          })
          more
    where
      signed : m.no_sums ≡ false → 0 < m.blength → (m.no_sums || (m.blength == 0)) ≡ false
      signed sums some_bytes = ground arith

  abbrev pub by : StreamState → ℕ
  by st = length st.buf - m.blength

  pub next-Called :
      (rebuilt before : List ℕ) (st : StreamState) (input : List ℕ)
      → m.no_sums ≡ false
      → IsFree checksum2 m basis source
      → 0 < m.blength
      → IsRunning checksum2 m basis source rebuilt before st input
      → Called checksum2 m basis source
          (ltb (length (take m.chunk_size input)) m.chunk_size)
          rebuilt
          (before ++ take (by st) st.buf)
          (drop m.chunk_size input)
          (process_chunk checksum2 m st input)
  unfolding process_chunk filled
  next-Called rebuilt before st input sums free some_bytes
        (begun, more, long, at, low, high, ended, placed) =
      subst
        (λ t.
          Called checksum2 m basis source (ltb (length (take m.chunk_size input)) m.chunk_size)
            rebuilt (before ++ take (by st) st.buf) (drop m.chunk_size input)
            (after_fill checksum2 m t))
        (sym (fill-filled st input sums some_bytes begun more))
        (after_fill-Called checksum2 m basis source rebuilt (before ++ take (by st) st.buf)
          (drop m.chunk_size input) (filled st input) sums free some_bytes begun
          (at
            ∙ ap₂ (λ xs ys. before ++ (xs ++ ys)) (sym (take-append-drop (by st) st.buf))
                (sym (take-append-drop m.chunk_size input))
            ∙ ap (λ xs. before ++ xs)
                (append_assoc (take (by st) st.buf) _ _
                  ∙ ap (λ xs. take (by st) st.buf ++ xs)
                      (sym (append_assoc (drop (by st) st.buf) _ _)))
            ∙ sym (append_assoc before _ _))
          (shift-IsScan rebuilt st.buf (take m.chunk_size input) (drop m.chunk_size input) st.scan
            long low high ended
            (ap (λ xs. rebuilt ++ (drop st.scan.literal_start st.buf ++ xs))
                (take-append-drop m.chunk_size input)
              ∙ placed))
          (exhausted_empty input)
          (λ short. absurd (
            omega (
              arith,
              short,
              long,
              length-append (drop (by st) st.buf) (take m.chunk_size input),
              length-drop (by st) st.buf,
            ))))
