-- ===== src/Delta/Matcher/Streaming/Call.antt =====
-- A call of the streaming matcher, after the buffer is filled.
use ferrosync.Base.{
  ℕ, zero, suc, ◌+◌, ◌≤◌, ◌<◌, ◌≡◌, refl, ap, ap₂, sym, ◌∙◌, subst, List, [], ◌∷◌, ◌++◌, append-nil,
  append_assoc, Option, some, Bool, Bool-cases, inl, inr, true, false, ltb, ◌==◌, if_true, if_false,
  length, drop, arith,
}
use ferrosync.Delta.Ops.{DiffOp, literal, apply_op, apply_diffops}
use ferrosync.Delta.Matcher.{flush_literal}
use ferrosync.Delta.Matcher.Streaming.{
  Matching, StreamState, finish_chunk, started_scan, scan_chunk, after_fill,
}
use ferrosync.Delta.Matcher.Streaming.Chunk.{
  IsFree, IsPlaced, IsPlaced-push, IsPlaced-flush_literal, IsScan, stream_loop-IsScan,
}

pub drop_all : (n : ℕ) (xs : List ℕ) → length xs ≤ n → drop n xs ≡ []
drop_all zero [] h = refl
drop_all zero (x ∷ xs) h = absurd (omega arith)
drop_all (suc n) [] h = refl
drop_all (suc n) (x ∷ xs) h = drop_all n xs (omega arith)

module _ (checksum2 : List ℕ → List ℕ) (m : Matching) (basis source : List ℕ) where
  -- Between two calls: what was rebuilt, the literal bytes that are pending, and the rest.
  abbrev pub IsRunning : List ℕ → List ℕ → StreamState → List ℕ → Type 0
  IsRunning rebuilt before st rest =
      (st.initialized ≡ true)
      × (st.exhausted ≡ false)
      × (m.blength ≤ length st.buf)
      × (source ≡ before ++ (st.buf ++ rest))
      × (st.scan.literal_start ≤ st.scan.pos)
      × (st.scan.pos ≤ length st.buf)
      × (length st.buf < st.scan.pos + m.blength)
      × (rebuilt ++ (drop st.scan.literal_start st.buf ++ rest) ≡ source)

  -- What a call has done, by whether it was the last.
  abbrev pub IsCall : Bool → List ℕ → List ℕ → List ℕ → List DiffOp → Bool → StreamState → Type 0
  IsCall exhausted rebuilt before rest ops true next = rebuilt ++ apply_diffops basis ops ≡ source
  IsCall exhausted rebuilt before rest ops false next =
      (exhausted ≡ false) × IsRunning (rebuilt ++ apply_diffops basis ops) before next rest

  IsPlaced-last :
      (rebuilt buf rest : List ℕ) (n : ℕ) (ops : List DiffOp)
      → length buf ≤ n
      → rest ≡ []
      → IsPlaced checksum2 m basis source rebuilt ops (drop n buf ++ rest)
      → rebuilt ++ apply_diffops basis ops ≡ source
  IsPlaced-last rebuilt buf rest n ops h empty placed =
      ap (λ bs. rebuilt ++ bs)
        (sym (append-nil (apply_diffops basis ops))
          ∙ ap (λ bs. apply_diffops basis ops ++ bs) (sym (ap₂ ◌++◌ (drop_all n buf h) empty)))
      ∙ placed

  started_scan-IsScan :
      (rebuilt rest : List ℕ) (st : StreamState)
      → IsScan checksum2 m basis source rebuilt st.buf rest st.scan
      → (IsScan checksum2 m basis source rebuilt st.buf rest (started_scan checksum2 m st))
        × (length st.buf < suc (length st.buf) + (started_scan checksum2 m st).pos)
  started_scan-IsScan rebuilt rest st h = elim (Bool-cases st.need_rolling_init) [
    | inl need ↦
        subst
          (λ s.
            (IsScan checksum2 m basis source rebuilt st.buf rest s)
            × (length st.buf < suc (length st.buf) + s.pos))
          (sym (if_true _ _ need)) (h, omega arith)
    | inr carried ↦
        subst
          (λ s.
            (IsScan checksum2 m basis source rebuilt st.buf rest s)
            × (length st.buf < suc (length st.buf) + s.pos))
          (sym (if_false _ _ carried)) (h, omega arith)
  ]

  abbrev pub Called :
      Bool → List ℕ → List ℕ → List ℕ → Option (List DiffOp × Bool × StreamState) → Type 0
  Called exhausted rebuilt before rest o =
      (ops : List DiffOp) × (done : Bool) × (next : StreamState) × (o ≡ some (ops, done, next))
      × IsCall exhausted rebuilt before rest ops done next

  scan_chunk-Called :
      (rebuilt before rest : List ℕ) (st : StreamState)
      → IsFree checksum2 m basis source
      → 0 < m.blength
      → m.blength ≤ length st.buf
      → st.initialized ≡ true
      → source ≡ before ++ (st.buf ++ rest)
      → IsScan checksum2 m basis source rebuilt st.buf rest st.scan
      → (st.exhausted ≡ true → rest ≡ [])
      → Called st.exhausted rebuilt before rest (scan_chunk checksum2 m st)
  scan_chunk-Called rebuilt before rest st free some_bytes long begun at h empty =
      let (started, enough) = started_scan-IsScan rebuilt rest st h in
      let (scan, need, looped, (low, high, placed), ended) =
        stream_loop-IsScan checksum2 m basis source rebuilt before st.buf rest (suc (length st.buf))
          (started_scan checksum2 m st) false free at some_bytes enough started in
      elim (Bool-cases st.exhausted) [
        | inl last ↦ (
          _,
          true,
          _,
          ap (finish_chunk checksum2 m st) looped ∙ if_true _ _ last,
          IsPlaced-last rebuilt st.buf rest (length st.buf)
              (flush_literal st.buf (length st.buf) scan) (omega arith) (empty last)
              (IsPlaced-flush_literal checksum2 m basis source rebuilt st.buf rest (length st.buf)
                scan (omega arith) placed),
        )
        | inr more ↦ (
          scan.ops,
          false,
          record st { scan = scan; need_rolling_init = need },
          ap (finish_chunk checksum2 m st) looped ∙ if_false _ _ more,
          (more, (begun, more, long, at, low, high, ended, append_assoc rebuilt _ _ ∙ placed)),
        )
      ]

  pub after_fill-Called :
      (rebuilt before rest : List ℕ) (st : StreamState)
      → m.no_sums ≡ false
      → IsFree checksum2 m basis source
      → 0 < m.blength
      → st.initialized ≡ true
      → source ≡ before ++ (st.buf ++ rest)
      → IsScan checksum2 m basis source rebuilt st.buf rest st.scan
      → (st.exhausted ≡ true → rest ≡ [])
      → (length st.buf < m.blength → (rest ≡ []) × (st.scan.literal_start ≡ 0))
      → Called st.exhausted rebuilt before rest (after_fill checksum2 m st)
  unfolding apply_op
  after_fill-Called rebuilt before rest st sums free some_bytes begun at (low, high, placed) empty
        short =
      elim (Bool-cases (length st.buf == 0)) [
        | inl nothing ↦
            let none_left = no_bytes nothing in
            (
              st.scan.ops,
              true,
              st,
              if_true _ _ nothing,
              IsPlaced-last rebuilt st.buf rest st.scan.literal_start st.scan.ops (omega arith)
                  ((short (omega arith)).0) placed,
            )
        | inr some_more ↦ elim (Bool-cases (ltb (length st.buf) m.blength)) [
          | inl tiny ↦
              let (done, start) = short (below tiny) in
              (
                st.scan.ops ++ literal st.buf ∷ [],
                true,
                st,
                if_false _ _ some_more ∙ if_false _ _ sums ∙ if_true _ _ tiny,
                IsPlaced-last rebuilt [] rest 0 (st.scan.ops ++ literal st.buf ∷ []) (omega arith)
                    done
                    (IsPlaced-push checksum2 m basis source rebuilt st.scan.ops (literal st.buf)
                      st.buf rest refl
                      (subst
                        (λ (k : ℕ).
                          IsPlaced checksum2 m basis source rebuilt st.scan.ops
                            (drop k st.buf ++ rest))
                        start placed)),
              )
          | inr long ↦
              subst (Called st.exhausted rebuilt before rest)
                (sym (if_false _ _ some_more ∙ if_false _ _ sums ∙ if_false _ _ long))
                (scan_chunk-Called rebuilt before rest st free some_bytes (above long) begun at
                  (low, high, placed) empty)
        ]
      ]
    where
      no_bytes : (length st.buf == 0) ≡ true → length st.buf ≡ 0
      no_bytes nothing = ground arith

      below : ltb (length st.buf) m.blength ≡ true → length st.buf < m.blength
      below tiny = ground arith

      above : ltb (length st.buf) m.blength ≡ false → m.blength ≤ length st.buf
      above long = ground arith
