-- ===== src/Mux/Staging/Arrival.antt =====
-- How the bytes of a stream arrive does not change what is parsed from them.
use ferrosync.Base.{
  ℕ, zero, suc, ◌+◌, ◌<◌, ◌≤◌, ◌≡◌, refl, ap, subst, ◌∙◌, sym, List, [], ◌++◌, Option, none, some,
  Option-cases, inl, inr, arith, ltb, if◌then◌else◌, Bool-cases, length, take, drop, length-append,
  length-drop, take-append, drop-append, le→ltb, Bool, ◌%◌, ◌^◌,
}
use ferrosync.Base.Bytes.{from_le_bytes}
use ferrosync.Mux.Staging.{parse_body, parse_frame, parse_loop, parse_frames, push_front}

-- A frame that is complete is parsed in the same way whatever follows it.
parse_body-append :
    (w : ℕ) (s t : List ℕ) {p : Option (List ℕ)} {r : List ℕ}
    → parse_body w s ≡ some (p, r)
    → parse_body w (s ++ t) ≡ some (p, r ++ t)
unfolding parse_body
parse_body-append w s t e = ground (
  arith,
  length-append s t,
  length-drop 4 s,
  drop-append (4 + w % 2 ^ 24) s t,
  drop-append 4 s t,
  take-append (w % 2 ^ 24) (drop 4 s) t,
)

parse_frame-append :
    (s t : List ℕ) {p : Option (List ℕ)} {r : List ℕ}
    → parse_frame s ≡ some (p, r)
    → parse_frame (s ++ t) ≡ some (p, r ++ t)
unfolding parse_frame
parse_frame-append s t e = elim (Bool-cases (ltb (length s) 4)) [
  | inl short ↦
      absurd
        (cc (ap (λ (b : Bool). if b then none else parse_body (from_le_bytes (take 4 s)) s) short))
  | inr enough ↦
      let long : 4 ≤ length s = ground arith in
      rw (le→ltb (length (s ++ t)) 4 (omega (arith, length-append s t)), take-append 4 s t long)
        (parse_body-append (from_le_bytes (take 4 s)) s t (rw enough at e))
]

parse_frame_shorter :
    (s : List ℕ) {p : Option (List ℕ)} {r : List ℕ}
    → parse_frame s ≡ some (p, r)
    → length r < length s
unfolding parse_frame parse_body
parse_frame_shorter s e = ground (arith, length-drop (4 + from_le_bytes (take 4 s) % 2 ^ 24) s)

parse_frame-nil : (s : List ℕ) → length s ≤ 0 → parse_frame s ≡ none
unfolding parse_frame
parse_frame-nil s h = ground arith

-- The loop by its first round.
parse_loop-none : (f : ℕ) (s : List ℕ) → parse_frame s ≡ none → parse_loop f s ≡ (s, [])
unfolding parse_loop
parse_loop-none zero s e = refl
parse_loop-none (suc f) s e = rw (e, parse_loop)

parse_loop-some :
    (f : ℕ) (s : List ℕ) {p : Option (List ℕ)} {r : List ℕ}
    → parse_frame s ≡ some (p, r)
    → parse_loop (suc f) s ≡ push_front p (parse_loop f r)
unfolding parse_loop
parse_loop-some f s e = rw (e, parse_loop)

-- Any fuel from the number of bytes on gives the same result.
parse_loop_fuel :
    (f g : ℕ) (s : List ℕ) → length s ≤ f → length s ≤ g → parse_loop f s ≡ parse_loop g s
parse_loop_fuel zero g s hf hg =
    parse_loop-none 0 s (parse_frame-nil s hf) ∙ sym (parse_loop-none g s (parse_frame-nil s hf))
parse_loop_fuel (suc f) zero s hf hg =
    parse_loop-none (suc f) s (parse_frame-nil s hg)
    ∙ sym (parse_loop-none 0 s (parse_frame-nil s hg))
parse_loop_fuel (suc f) (suc g) s hf hg = elim (Option-cases (parse_frame s)) [
  | inl e ↦ parse_loop-none (suc f) s e ∙ sym (parse_loop-none (suc g) s e)
  | inr ((p, r), e) ↦
      let less : length r < length s = parse_frame_shorter s e in
      parse_loop-some f s e
      ∙ ap (push_front p) (parse_loop_fuel f g r (omega arith) (omega arith))
      ∙ sym (parse_loop-some g s e)
]

pub parse_frames-some :
    (s : List ℕ) {p : Option (List ℕ)} {r : List ℕ}
    → parse_frame s ≡ some (p, r)
    → parse_frames s ≡ push_front p (parse_frames r)
unfolding parse_frames
parse_frames-some s {p} {r} e =
    let less : length r < length s = parse_frame_shorter s e in
    parse_loop_fuel (length s) (suc (length s)) s (omega arith) (omega arith)
    ∙ parse_loop-some (length s) s e
    ∙ ap (push_front p) (parse_loop_fuel (length s) (length r) r (omega arith) (omega arith))

-- Payloads that were queued before those of a later parse.
abbrev pub queue_after : List (List ℕ) → List ℕ × List (List ℕ) → List ℕ × List (List ℕ)
queue_after queue (s, more) = (s, queue ++ more)

queue_after-push_front :
    (p : Option (List ℕ)) (x : List ℕ × List (List ℕ)) (later : List ℕ → List ℕ × List (List ℕ))
    → push_front p (queue_after x.1 (later x.0))
      ≡ queue_after (push_front p x).1 (later (push_front p x).0)
queue_after-push_front none x later = refl
queue_after-push_front (some payload) x later = refl

parse_loop-append :
    (f : ℕ) (s t : List ℕ)
    → length s ≤ f
    → parse_frames (s ++ t)
      ≡ queue_after (parse_loop f s).1 (parse_frames ((parse_loop f s).0 ++ t))
parse_loop-append zero s t h = rw (parse_loop-none 0 s (parse_frame-nil s h))
parse_loop-append (suc f) s t h = elim (Option-cases (parse_frame s)) [
  | inl e ↦ rw (parse_loop-none (suc f) s e)
  | inr ((p, r), e) ↦
      let less : length r < length s = parse_frame_shorter s e in
      rw (parse_loop-some f s e) (
        parse_frames-some (s ++ t) (parse_frame-append s t e)
        ∙ ap (push_front p) (parse_loop-append f r t (omega arith))
        ∙ queue_after-push_front p (parse_loop f r) (λ u. parse_frames (u ++ t)))
]

-- Parsing what has arrived and parsing again once `t` has arrived queues the payloads that one parse
-- of the whole stream queues, and leaves the same bytes in staging.
pub parse_frames-append :
    (s t : List ℕ)
    → parse_frames (s ++ t)
      ≡ queue_after (parse_frames s).1 (parse_frames ((parse_frames s).0 ++ t))
parse_frames-append s t =
    subst
      (λ (x : List ℕ × List (List ℕ)).
        parse_frames (s ++ t) ≡ queue_after x.1 (parse_frames (x.0 ++ t)))
      by_def (parse_loop-append (length s) s t (omega arith))
  where
    by_def : parse_loop (length s) s ≡ parse_frames s
    by_def = unfold parse_frames in refl

pub parse_frames-nil : parse_frames [] ≡ ([], [])
unfolding parse_frames
parse_frames-nil = parse_loop-none 0 [] (parse_frame-nil [] (omega arith))
