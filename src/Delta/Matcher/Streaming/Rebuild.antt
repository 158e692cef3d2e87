-- ===== src/Delta/Matcher/Streaming/Rebuild.antt =====
-- The calls of the streaming matcher together rebuild the source.
use ferrosync.Base.{
  ℕ, zero, suc, ◌≤◌, ◌<◌, ◌≡◌, ap, sym, ◌∙◌, subst, List, [], ◌++◌, append_assoc, Option, some,
  Bool, true, false, ltb, ◌||◌, if_false, length, take, drop, length-take, length-drop, arith,
}
use ferrosync.Delta.Ops.{DiffOp, apply_diffops}
use ferrosync.Base.Int.{ℤ, pos, negsuc}
use ferrosync.Delta.Sum.{SumStruct, as_usize}
use ferrosync.Delta.Matcher.{not_positive}
use ferrosync.Delta.Matcher.Slices.{apply_diffops-append}
use ferrosync.Delta.Matcher.Streaming.{
  Matching, StreamState, new_stream, append_ops, after_call, stream_all, stream_blocks,
  new_matching,
}
use ferrosync.Delta.Matcher.Streaming.Chunk.{IsFree}
use ferrosync.Delta.Matcher.Streaming.Call.{IsRunning, Called}
use ferrosync.Delta.Matcher.Streaming.Fill.{first-Called, next-Called}

module _ (checksum2 : List ℕ → List ℕ) (m : Matching) (basis source : List ℕ) where
  abbrev IsWhole : List ℕ → Option (List DiffOp) → Type 0
  IsWhole rebuilt o =
      (ops : List DiffOp) × (o ≡ some ops) × (rebuilt ++ apply_diffops basis ops ≡ source)

  append_ops-IsWhole :
      (rebuilt : List ℕ) (ops : List DiffOp) (o : Option (List DiffOp))
      → IsWhole (rebuilt ++ apply_diffops basis ops) o
      → IsWhole rebuilt (append_ops checksum2 m ops o)
  append_ops-IsWhole rebuilt ops o (more, made, whole) = (
    ops ++ more,
    ap (append_ops checksum2 m ops) made,
    ap (λ xs. rebuilt ++ xs) (apply_diffops-append basis ops more)
        ∙ sym (append_assoc rebuilt _ _)
        ∙ whole,
  )

  after_call-IsWhole :
      (exhausted : Bool) (rebuilt before rest : List ℕ)
      (o : Option (List DiffOp × Bool × StreamState)) (go : StreamState → Option (List DiffOp))
      → Called checksum2 m basis source exhausted rebuilt before rest o
      → ((ops : List DiffOp) (next : StreamState)
          → exhausted ≡ false
          → IsRunning checksum2 m basis source (rebuilt ++ apply_diffops basis ops) before next rest
          → IsWhole (rebuilt ++ apply_diffops basis ops) (go next))
      → IsWhole rebuilt (after_call checksum2 m go o)
  after_call-IsWhole exhausted rebuilt before rest o go (ops, true, next, made, whole) later =
      (ops, ap (after_call checksum2 m go) made, whole)
  after_call-IsWhole exhausted rebuilt before rest o go (ops, false, next, made, (more, running))
        later =
      subst (IsWhole rebuilt) (sym (ap (after_call checksum2 m go) made))
        (append_ops-IsWhole rebuilt ops (go next) (later ops next more running))

  shorter :
      (input : List ℕ) (fuel : ℕ)
      → 0 < m.chunk_size
      → ltb (length (take m.chunk_size input)) m.chunk_size ≡ false
      → length input ≤ fuel
      → length (drop m.chunk_size input) < fuel
  shorter input fuel h more enough =
      ground (arith, length-take m.chunk_size input, length-drop m.chunk_size input)

  stream_all-IsWhole :
      (fuel : ℕ) (rebuilt before : List ℕ) (st : StreamState) (input : List ℕ)
      → m.no_sums ≡ false
      → IsFree checksum2 m basis source
      → 0 < m.blength
      → 0 < m.chunk_size
      → length input < fuel
      → IsRunning checksum2 m basis source rebuilt before st input
      → IsWhole rebuilt (stream_all checksum2 m fuel st input)
  unfolding stream_all
  stream_all-IsWhole zero rebuilt before st input sums free some_bytes wide enough running =
      absurd (omega arith)
  stream_all-IsWhole (suc fuel) rebuilt before st input sums free some_bytes wide enough running =
      after_call-IsWhole _ rebuilt _ (drop m.chunk_size input) _ _
        (next-Called checksum2 m basis source rebuilt before st input sums free some_bytes running)
        (λ ops next more later.
          stream_all-IsWhole fuel _ _ next (drop m.chunk_size input) sums free some_bytes wide
            (shorter input fuel wide more (omega arith)) later)

  pub stream_all-rebuilds :
      (char_offset : ℕ)
      → m.no_sums ≡ false
      → IsFree checksum2 m basis source
      → 0 < m.blength
      → m.blength ≤ m.chunk_size
      → (ops : List DiffOp) × (stream_all checksum2 m
            (suc (length source))
            (new_stream char_offset)
            source
          ≡ some ops)
        × (apply_diffops basis ops ≡ source)
  unfolding stream_all
  stream_all-rebuilds char_offset sums free some_bytes wide =
      after_call-IsWhole _ [] [] (drop m.chunk_size source) _ _
        (first-Called checksum2 m basis source char_offset sums free some_bytes wide)
        (λ ops next more later.
          stream_all-IsWhole (length source) _ [] next (drop m.chunk_size source) sums free
            some_bytes (omega arith)
            (shorter source (length source) (omega arith) more (omega arith)) later)

whole_blength :
    (sums : SumStruct) (chunk_size : ℕ)
    → (not_positive sums.head.count || not_positive sums.head.blength) ≡ false
    → ((new_matching sums chunk_size).blength ≡ as_usize sums.head.blength)
      × (0 < as_usize sums.head.blength)
unfolding new_matching
whole_blength sums chunk_size signed = (
  if_false _ _ signed,
  some_bytes sums.head.blength (positive (not_positive sums.head.count) _ signed),
)
  where
    positive : (a b : Bool) → (a || b) ≡ false → b ≡ false
    positive a b h = ground arith

    some_bytes : (n : ℤ) → not_positive n ≡ false → 0 < as_usize n
    some_bytes (pos zero) h = ground arith
    some_bytes (pos (suc n)) h = omega arith
    some_bytes (negsuc n) h = ground arith

-- The streaming matcher ends within its fuel, and the operations of its calls together give the
-- source when they are applied to the basis. This is for a signature with a block, chunks of at least
-- a block length, and strong checksums by which no window of the source is taken for another block.
pub stream_blocks-rebuilds :
    (checksum2 : List ℕ → List ℕ) (char_offset chunk_size : ℕ) (basis source : List ℕ)
    (sums : SumStruct)
    → (not_positive sums.head.count || not_positive sums.head.blength) ≡ false
    → as_usize sums.head.blength ≤ chunk_size
    → IsFree checksum2 (new_matching sums chunk_size) basis source
    → (ops : List DiffOp) × (stream_blocks checksum2 char_offset chunk_size source sums ≡ some ops)
      × (apply_diffops basis ops ≡ source)
unfolding stream_blocks new_matching
stream_blocks-rebuilds checksum2 char_offset chunk_size basis source sums signed wide free =
    let (same, some_bytes) = whole_blength sums chunk_size signed in
    stream_all-rebuilds checksum2 (new_matching sums chunk_size) basis source char_offset signed
      free (omega (arith, same, some_bytes)) (omega (arith, same, wide))
