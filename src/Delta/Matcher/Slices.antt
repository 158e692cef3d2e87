-- ===== src/Delta/Matcher/Slices.antt =====
-- Windows of a list, and what sequences of operations rebuild.
use ferrosync.Base.{
  ℕ, zero, suc, ◌-◌, ◌≤◌, ◌<◌, ◌^◌, ◌≡◌, refl, ap, ap₂, sym, ◌∙◌, List, [], ◌∷◌, ◌++◌, false,
  length-take, length-drop, min, ◌+◌, length, take, drop, get_or, All, append_assoc, append-nil,
  arith, Bool-cases, inl, inr, ltb,
}
use ferrosync.Base.Bytes.{IsByte}
use ferrosync.Delta.Ops.{DiffOp, slice_basis, apply_op, apply_diffops}
use ferrosync.Delta.Matcher.{slice, MatchState, flush_literal}

pub apply_diffops-append :
    (basis : List ℕ) (xs ys : List DiffOp)
    → apply_diffops basis (xs ++ ys) ≡ apply_diffops basis xs ++ apply_diffops basis ys
unfolding apply_diffops
apply_diffops-append basis [] ys = refl
apply_diffops-append basis (x ∷ xs) ys =
    ap (λ r. apply_op basis x ++ r) (apply_diffops-append basis xs ys)
    ∙ sym (append_assoc (apply_op basis x) _ _)

take-nil : (k : ℕ) → take {A = ℕ} k [] ≡ []
take-nil zero = refl
take-nil (suc k) = refl

slice_nil : (m n : ℕ) → slice [] (suc m) n ≡ []
slice_nil m n = take-nil (n - suc m)

slice-suc : (x : ℕ) (s : List ℕ) (m n : ℕ) → slice (x ∷ s) (suc m) (suc n) ≡ slice s m n
slice-suc x s m n = ap (λ (k : ℕ). take k (drop m s)) (omega arith)

slice_zero : (x : ℕ) (s : List ℕ) (n : ℕ) → slice (x ∷ s) 0 (suc n) ≡ x ∷ slice s 0 n
slice_zero x s n = ap (λ (k : ℕ). take k (x ∷ s)) whole ∙ ap (λ (k : ℕ). x ∷ take k s) rest
  where
    whole : suc n - 0 ≡ suc n
    whole = omega arith

    rest : n ≡ n - 0
    rest = omega arith

pub take-slice : (s : List ℕ) (m n : ℕ) → m ≤ n → take m s ++ slice s m n ≡ take n s
take-slice s zero n h = ap (λ (k : ℕ). take k s) (omega arith)
take-slice [] (suc m) zero h = absurd (omega arith)
take-slice [] (suc m) (suc n) h = slice_nil m (suc n)
take-slice (x ∷ s) (suc m) zero h = absurd (omega arith)
take-slice (x ∷ s) (suc m) (suc n) h =
    ap (λ r. x ∷ r) (ap (λ r. take m s ++ r) (slice-suc x s m n) ∙ take-slice s m n (omega arith))

pub slice-first :
    (s : List ℕ) (from to : ℕ)
    → from < length s
    → from < to
    → slice s from to ≡ get_or s from 0 ∷ slice s (suc from) to
slice-first [] from to h k = absurd (omega arith)
slice-first (x ∷ s) zero zero h k = absurd (omega arith)
slice-first (x ∷ s) zero (suc to) h k =
    slice_zero x s to ∙ ap (λ r. x ∷ r) (sym (slice-suc x s 0 to))
slice-first (x ∷ s) (suc from) zero h k = absurd (omega arith)
slice-first (x ∷ s) (suc from) (suc to) h k =
    slice-suc x s from to
    ∙ slice-first s from to (omega arith) (omega arith)
    ∙ ap (λ r. get_or s from 0 ∷ r) (sym (slice-suc x s (suc from) to))

pub slice-last :
    (s : List ℕ) (from to : ℕ)
    → from ≤ to
    → to < length s
    → slice s from (suc to) ≡ slice s from to ++ get_or s to 0 ∷ []
slice-last [] from to h k = absurd (omega arith)
slice-last (x ∷ s) zero zero h k = refl
slice-last (x ∷ s) zero (suc to) h k =
    slice_zero x s (suc to)
    ∙ ap (λ r. x ∷ r) (slice-last s 0 to (omega arith) (omega arith))
    ∙ ap (λ r. r ++ get_or s to 0 ∷ []) (sym (slice_zero x s to))
slice-last (x ∷ s) (suc from) zero h k = absurd (omega arith)
slice-last (x ∷ s) (suc from) (suc to) h k =
    slice-suc x s from (suc to)
    ∙ slice-last s from to (omega arith) (omega arith)
    ∙ ap (λ r. r ++ get_or s to 0 ∷ []) (sym (slice-suc x s from to))

pub get_or-IsByte : (s : List ℕ) (i : ℕ) → All IsByte s → get_or s i 0 < 2 ^ 8
get_or-IsByte [] i h = omega arith
get_or-IsByte (x ∷ s) zero h = omega arith
get_or-IsByte (x ∷ s) (suc i) h = get_or-IsByte s i h.1

-- Flushing extends what the operations rebuild up to `to`.
pub apply_diffops-flush_literal :
    (basis source : List ℕ) (to : ℕ) (st : MatchState)
    → st.literal_start ≤ to
    → apply_diffops basis st.ops ≡ take st.literal_start source
    → apply_diffops basis (flush_literal source to st) ≡ take to source
unfolding flush_literal apply_diffops
apply_diffops-flush_literal basis source to st h done =
    elim (Bool-cases (ltb st.literal_start to)) [
      | inl pending ↦ rw (pending) (
          apply_diffops-append basis st.ops _
          ∙ ap₂ (λ a b. a ++ b) done (append-nil (slice source st.literal_start to))
          ∙ take-slice source st.literal_start to h)
      | inr empty ↦ rw (empty) (done ∙ ap (λ (n : ℕ). take n source) (reached empty))
    ]
  where
    reached : ltb st.literal_start to ≡ false → st.literal_start ≡ to
    reached empty = ground arith

pub length-slice_basis :
    (basis : List ℕ) (offset len : ℕ) → length (slice_basis basis offset len) ≤ length basis
unfolding slice_basis
length-slice_basis basis offset len = elim (Bool-cases (ltb offset (length basis))) [
  | inl inside ↦ rw (inside) (
      omega (
        arith,
        length-take (min (offset + len) (length basis) - offset) (drop offset basis),
        length-drop offset basis,
      ))
  | inr outside ↦ rw (outside) (omega arith)
]
