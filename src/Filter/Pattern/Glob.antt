-- ===== src/Filter/Pattern/Glob.antt =====
-- What a pattern's segments match, said without a search, and that the matcher decides it.
use ferrosync.Base.{
  ℕ, ◌≡◌, ◌↔◌, ◌⊎◌, inl, inr, refl, ap, ap₂, if_true, if_false, sym, ◌∙◌, List, [], ◌∷◌, ◌++◌, none,
  some, Bool, true, false, not, ◌&&◌, ◌||◌, ◌==◌, ==_iff, All, arith, Bool-cases, Option-cases,
}
use mathlib.Core.Option.{some-injective}
use ferrosync.Filter.Pattern.{
  Segment, star, double_star, question, literal, char_class, slash, is_empty, strip_literal,
  in_class, star_loop, double_star_loop, try_rest, match_segments,
}

abbrev pub IsNotSlash : ℕ → Type 0
IsNotSlash c = (c == slash) ≡ false

-- A text is matched in parts, one for each segment.
abbrev pub Denotes : List Segment → List ℕ → Type 0
Denotes [] text = text ≡ []
Denotes (literal lit ∷ segments) text =
    (rest : List ℕ) × (text ≡ lit ++ rest) × Denotes segments rest
Denotes (star ∷ segments) text =
    (part : List ℕ) × (rest : List ℕ) × (text ≡ part ++ rest)
    × All IsNotSlash part
    × Denotes segments rest
Denotes (double_star ∷ segments) text =
    (part : List ℕ) × (rest : List ℕ) × (text ≡ part ++ rest) × Denotes segments rest
Denotes (question ∷ segments) text =
    (c : ℕ) × (rest : List ℕ) × (text ≡ c ∷ rest) × IsNotSlash c × Denotes segments rest
Denotes (char_class chars negated ∷ segments) text =
    (c : ℕ) × (rest : List ℕ) × (text ≡ c ∷ rest)
    × (in_class chars negated c ≡ true)
    × Denotes segments rest

or_cases : (a b : Bool) → (a || b) ≡ true → (a ≡ true) ⊎ (b ≡ true)
or_cases true b h = inl refl
or_cases false b h = inr h

or_right : (a b : Bool) → b ≡ true → (a || b) ≡ true
or_right true b h = refl
or_right false b h = h

and_cases : (a b : Bool) → (a && b) ≡ true → (a ≡ true) × (b ≡ true)
and_cases true b h = (refl, h)
and_cases false b h = ground arith

not-true : (a : Bool) → not a ≡ true → a ≡ false
not-true true h = ground arith
not-true false h = refl

not_some : {B : Type 0} {a : List ℕ} → none ≡ some a → B
not_some h = ground arith

fails : {B : Type 0} → false ≡ true → B
fails h = ground arith

strip_literal_sound :
    (lit text rest : List ℕ) → strip_literal lit text ≡ some rest → text ≡ lit ++ rest
strip_literal_sound [] text rest h = some-injective _ _ h
strip_literal_sound (c ∷ lit) [] rest h = ground arith
strip_literal_sound (c ∷ lit) (d ∷ text) rest h = elim (Bool-cases (c == d)) [
  | inl same ↦
      ap₂ (λ (x : ℕ) (r : List ℕ). x ∷ r) (sym ((==_iff c d).0 same))
        (strip_literal_sound lit text rest (sym (if_true _ _ same) ∙ h))
  | inr other ↦ not_some (sym (if_false _ _ other) ∙ h)
]

strip_literal_complete : (lit rest : List ℕ) → strip_literal lit (lit ++ rest) ≡ some rest
strip_literal_complete [] rest = refl
strip_literal_complete (c ∷ lit) rest =
    if_true _ _ ((==_iff c c).1 refl) ∙ strip_literal_complete lit rest

star_loop_sound :
    (go : List ℕ → Bool) (text : List ℕ)
    → star_loop go text ≡ true
    → (part : List ℕ) × (rest : List ℕ) × (text ≡ part ++ rest)
      × All IsNotSlash part
      × (go rest ≡ true)
unfolding star_loop
star_loop_sound go [] h = ([], [], refl, tt, h)
star_loop_sound go (c ∷ text) h = elim (or_cases (go (c ∷ text)) _ h) [
  | inl here ↦ ([], c ∷ text, refl, tt, here)
  | inr later ↦
      let (open_part, looped) = and_cases _ _ later in
      let (part, rest, split, clear, found) = star_loop_sound go text looped in
      (c ∷ part, rest, ap (λ t. c ∷ t) split, (not-true _ open_part, clear), found)
]

star_loop_complete :
    (go : List ℕ → Bool) (part rest : List ℕ)
    → All IsNotSlash part
    → go rest ≡ true
    → star_loop go (part ++ rest) ≡ true
unfolding star_loop
star_loop_complete go [] [] h found = found
star_loop_complete go [] (c ∷ rest) h found = rw (found) refl
star_loop_complete go (c ∷ part) rest (clear, others) found =
    or_right (go (c ∷ (part ++ rest))) _ (rw (clear) (star_loop_complete go part rest others found))

double_star_loop_sound :
    (go : List ℕ → Bool) (text : List ℕ)
    → double_star_loop go text ≡ true
    → (part : List ℕ) × (rest : List ℕ) × (text ≡ part ++ rest) × (go rest ≡ true)
unfolding double_star_loop
double_star_loop_sound go [] h = ([], [], refl, h)
double_star_loop_sound go (c ∷ text) h = elim (or_cases (go (c ∷ text)) _ h) [
  | inl here ↦ ([], c ∷ text, refl, here)
  | inr later ↦
      let (part, rest, split, found) = double_star_loop_sound go text later in
      (c ∷ part, rest, ap (λ t. c ∷ t) split, found)
]

double_star_loop_complete :
    (go : List ℕ → Bool) (part rest : List ℕ)
    → go rest ≡ true
    → double_star_loop go (part ++ rest) ≡ true
unfolding double_star_loop
double_star_loop_complete go [] [] found = found
double_star_loop_complete go [] (c ∷ rest) found = rw (found) refl
double_star_loop_complete go (c ∷ part) rest found =
    or_right (go (c ∷ (part ++ rest))) _ (double_star_loop_complete go part rest found)

pub match_segments_sound :
    (segments : List Segment) (text : List ℕ)
    → match_segments segments text ≡ true
    → Denotes segments text
unfolding match_segments
match_segments_sound [] [] h = refl
match_segments_sound [] (c ∷ text) h = ground arith
match_segments_sound (literal lit ∷ segments) text h =
    elim (Option-cases (strip_literal lit text)) [
      | inl gone ↦ fails (sym (ap (try_rest (match_segments segments)) gone) ∙ h)
      | inr (rest, at) ↦ (
        rest,
        strip_literal_sound lit text rest at,
        match_segments_sound segments rest (sym (ap (try_rest (match_segments segments)) at) ∙ h),
      )
    ]
match_segments_sound (star ∷ segments) text h =
    let (part, rest, split, clear, found) = star_loop_sound (match_segments segments) text h in
    (part, rest, split, clear, match_segments_sound segments rest found)
match_segments_sound (double_star ∷ segments) text h =
    let (part, rest, split, found) = double_star_loop_sound (match_segments segments) text h in
    (part, rest, split, match_segments_sound segments rest found)
match_segments_sound (question ∷ segments) [] h = ground arith
match_segments_sound (question ∷ segments) (c ∷ text) h =
    let (clear, found) = and_cases _ _ h in
    (c, text, refl, not-true _ clear, match_segments_sound segments text found)
match_segments_sound (char_class chars negated ∷ segments) [] h = ground arith
match_segments_sound (char_class chars negated ∷ segments) (c ∷ text) h =
    let (member, found) = and_cases _ _ h in
    (c, text, refl, member, match_segments_sound segments text found)

pub match_segments_complete :
    (segments : List Segment) (text : List ℕ)
    → Denotes segments text
    → match_segments segments text ≡ true
unfolding match_segments
match_segments_complete [] text h = ap is_empty h
match_segments_complete (literal lit ∷ segments) text (rest, split, h) =
    ap (λ t. match_segments (literal lit ∷ segments) t) split
    ∙ ap (try_rest (match_segments segments)) (strip_literal_complete lit rest)
    ∙ match_segments_complete segments rest h
match_segments_complete (star ∷ segments) text (part, rest, split, clear, h) =
    ap (star_loop (match_segments segments)) split
    ∙ star_loop_complete (match_segments segments) part rest clear
        (match_segments_complete segments rest h)
match_segments_complete (double_star ∷ segments) text (part, rest, split, h) =
    ap (double_star_loop (match_segments segments)) split
    ∙ double_star_loop_complete (match_segments segments) part rest
        (match_segments_complete segments rest h)
match_segments_complete (question ∷ segments) text (c, rest, split, clear, h) =
    ap (match_segments (question ∷ segments)) split
    ∙ rw (clear) (match_segments_complete segments rest h)
match_segments_complete (char_class chars negated ∷ segments) text (c, rest, split, member, h) =
    ap (match_segments (char_class chars negated ∷ segments)) split
    ∙ rw (member) (match_segments_complete segments rest h)

-- The backtracking matcher accepts a text just where the text splits into parts that the segments
-- denote one by one: a literal itself, `*` a run without a slash, `**` any run, `?` a byte that is no
-- slash, and a class one of its bytes, or, negated, one of the others.
pub match_segments_iff :
    (segments : List Segment) (text : List ℕ)
    → (match_segments segments text ≡ true) ↔ Denotes segments text
match_segments_iff segments text =
    (match_segments_sound segments text, match_segments_complete segments text)
