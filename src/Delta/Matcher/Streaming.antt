-- ===== src/Delta/Matcher/Streaming.antt =====
-- `StreamingMatcher` of crates/ferrosync-delta/src/matcher.rs. The reader is the list of the bytes that
-- are left, and `buf` holds the first `buf_len` bytes of the buffer. The bytes read are also given to
-- the checksum of the file, which is not part of the state here. The scan of a chunk has the
-- variables of the batch matcher, with the operations of the call.
pub mod Chunk
pub mod Call
pub mod Fill
pub mod Rebuild
use ferrosync.Base.{
  ℕ, zero, suc, ◌+◌, ◌-◌, List, [], ◌∷◌, ◌++◌, Option, none, some, Bool, true, false, ltb, leb,
  ◌==◌, ◌||◌, not, if◌then◌else◌, length, take, drop,
}
use ferrosync.Delta.Ops.{DiffOp, literal}
use ferrosync.Delta.Rolling.{RollingChecksum, new, compute}
use ferrosync.Delta.Sum.{SumEntry, SumStruct, as_usize}
use ferrosync.Delta.Matcher.{
  MatchState, Table, slice, flush_literal, take_match, take_byte, window_match, build_hash_table,
  not_positive,
}

-- What does not change after construction.
pub record Matching : Type 0 where
  pub sums : List SumEntry
  pub blength : ℕ
  pub s2length : ℕ
  pub block_count : ℕ
  pub remainder : ℕ
  pub chunk_size : ℕ
  pub no_sums : Bool

pub record StreamState : Type 0 where
  pub buf : List ℕ
  pub scan : MatchState
  pub initialized : Bool
  pub exhausted : Bool
  pub need_rolling_init : Bool

unfoldable pub new_matching : SumStruct → ℕ → Matching
new_matching sums chunk_size =
    let no_sums = not_positive sums.head.count || not_positive sums.head.blength in
    record {
      sums = sums.sums;
      blength = if no_sums then 0 else as_usize sums.head.blength;
      s2length = as_usize sums.head.s2length;
      block_count = as_usize sums.head.count;
      remainder = as_usize sums.head.remainder;
      chunk_size = chunk_size;
      no_sums = no_sums;
    }

unfoldable pub new_stream : ℕ → StreamState
new_stream char_offset = record {
  buf = [];
  scan = record { pos = 0; literal_start = 0; rolling = new char_offset; ops = [] };
  initialized = false;
  exhausted = false;
  need_rolling_init = true;
}

module _ (checksum2 : List ℕ → List ℕ) (m : Matching) where
  -- The window at `pos` is dropped from the buffer but for its last `blength` bytes; literal bytes
  -- that go with it are flushed.
  abbrev pub shift : List ℕ → MatchState → MatchState
  shift buf scan =
      let shift_by = length buf - m.blength in
      record scan {
        pos = scan.pos - shift_by;
        literal_start =
            (if ltb scan.literal_start shift_by then shift_by else scan.literal_start) - shift_by;
        ops = flush_literal buf shift_by scan;
      }

  -- The next bytes of the reader, of `chunk_size` at most.
  unfoldable pub fill : StreamState → List ℕ → StreamState
  unfolding flush_literal
  fill st input =
      let bytes = take m.chunk_size input in
      let exhausted = st.exhausted || ltb (length bytes) m.chunk_size in
      let scan = record st.scan { ops = [] } in
      if not st.initialized
      then record st { buf = bytes; scan = scan; initialized = true; exhausted = exhausted }
      else if m.no_sums || m.blength == 0
      then record st { buf = bytes; scan = scan; exhausted = exhausted }
      else record st {
        buf = drop (length st.buf - m.blength) st.buf ++ bytes;
        scan = shift st.buf scan;
        exhausted = exhausted;
      }

  -- A match also says whether the next window has to be summed anew.
  abbrev pub stream_step : List ℕ → Option ℕ → MatchState → Bool → MatchState × Bool
  stream_step buf none scan need =
      (take_byte checksum2 buf m.sums m.blength m.s2length m.block_count m.remainder scan, need)
  stream_step buf (some idx) scan need = (
    take_match checksum2 buf m.sums m.blength m.s2length m.block_count m.remainder idx scan,
    (if leb (scan.pos + m.blength + m.blength) (length buf) then need else true),
  )

  unfoldable pub stream_loop : List ℕ → ℕ → MatchState → Bool → Option (MatchState × Bool)
  unfolding window_match take_match take_byte build_hash_table
  stream_loop buf zero scan need = none
  stream_loop buf (suc fuel) scan need =
      let (next, need') =
        stream_step buf
          (window_match checksum2 buf m.sums m.blength m.s2length m.block_count m.remainder
            (build_hash_table m.sums) scan)
          scan need in
      let rest = stream_loop buf fuel next need' in
      if leb (scan.pos + m.blength) (length buf) then rest else some (scan, need)

  abbrev pub finish_chunk :
      StreamState → Option (MatchState × Bool) → Option (List DiffOp × Bool × StreamState)
  finish_chunk st none = none
  finish_chunk st (some (scan, need)) =
      let next = record st { scan = scan; need_rolling_init = need } in
      if st.exhausted
      then some (flush_literal st.buf (length st.buf) scan, true, next)
      else some (scan.ops, false, next)

  abbrev pub started_scan : StreamState → MatchState
  started_scan st =
      if st.need_rolling_init
      then record st.scan {
        rolling = compute (slice st.buf st.scan.pos (st.scan.pos + m.blength)) st.scan.rolling;
      }
      else st.scan

  abbrev pub scan_chunk : StreamState → Option (List DiffOp × Bool × StreamState)
  scan_chunk st = finish_chunk st (stream_loop st.buf (suc (length st.buf)) (started_scan st) false)

  abbrev pub after_fill : StreamState → Option (List DiffOp × Bool × StreamState)
  after_fill st =
      if length st.buf == 0
      then some (st.scan.ops, true, st)
      else if m.no_sums
      then some (st.scan.ops ++ literal st.buf ∷ [], st.exhausted, st)
      else if ltb (length st.buf) m.blength
      then some (st.scan.ops ++ literal st.buf ∷ [], true, st)
      else scan_chunk st

  -- The operations of a call, whether it was the last, and the state and the reader after it.
  unfoldable pub process_chunk : StreamState → List ℕ → Option (List DiffOp × Bool × StreamState)
  unfolding fill stream_loop
  process_chunk st input = after_fill (fill st input)

  abbrev pub append_ops : List DiffOp → Option (List DiffOp) → Option (List DiffOp)
  append_ops ops none = none
  append_ops ops (some more) = some (ops ++ more)

  abbrev pub after_call :
      (StreamState → Option (List DiffOp))
      → Option (List DiffOp × Bool × StreamState)
      → Option (List DiffOp)
  after_call go none = none
  after_call go (some (ops, true, next)) = some ops
  after_call go (some (ops, false, next)) = append_ops ops (go next)

  -- The calls that `send_file_delta_streaming` makes, up to the one that is the last.
  unfoldable pub stream_all : ℕ → StreamState → List ℕ → Option (List DiffOp)
  unfolding process_chunk
  stream_all zero st input = none
  stream_all (suc fuel) st input =
      after_call (λ next. stream_all fuel next (drop m.chunk_size input)) (process_chunk st input)

-- A call takes a byte at least, but for the last.
unfoldable pub stream_blocks : (List ℕ → List ℕ) → ℕ → ℕ → List ℕ → SumStruct → Option (List DiffOp)
unfolding stream_all new_stream new_matching
stream_blocks checksum2 char_offset chunk_size source sums =
    stream_all checksum2 (new_matching sums chunk_size) (suc (length source))
      (new_stream char_offset) source
