-- ===== src/Filter/Pattern/Compile.antt =====
-- Compiling a pattern ends, within fuel for its length.
use ferrosync.Base.{
  ℕ, zero, suc, ◌≤◌, ◌≡◌, inl, inr, refl, ap, ◌∙◌, List, [], ◌∷◌, Option, none, some, Bool, true,
  false, ◌==◌, arith, Bool-cases, length, if◌then◌else◌,
}
use ferrosync.Filter.Pattern.{
  Segment, FilterResult, ok, err, Pattern, asterisk, hyphen, close_bracket, question_mark, bracket,
  class_chars, add_chars, strip_negation, class_result, parse_char_class, is_wildcard, literal_run,
  skip_slash, star_segment, first_segment, add_segment, compile_after, compile, strip_prefix,
  strip_suffix, pattern_result, new, inclusive_range,
}

-- The bytes that are left after a first segment are at most the pattern's.
abbrev Leaves : ℕ → FilterResult (Segment × List ℕ) → Type 0
Leaves n (ok (segment, rest)) = length rest ≤ n
Leaves n (err e) = Unit

abbrev ClassLeaves : ℕ → Option (List ℕ × List ℕ) → Type 0
ClassLeaves n (some (chars, rest)) = length rest ≤ n
ClassLeaves n none = Unit

add_chars-ClassLeaves :
    (n m : ℕ) (chars : List ℕ) (r : Option (List ℕ × List ℕ))
    → n ≤ m
    → ClassLeaves n r
    → ClassLeaves m (add_chars chars r)
add_chars-ClassLeaves n m chars none le h = tt
add_chars-ClassLeaves n m chars (some (more, rest)) le h = omega arith

if_class :
    (n : ℕ) (b : Bool) (x y : Option (List ℕ × List ℕ))
    → ClassLeaves n x
    → ClassLeaves n y
    → ClassLeaves n (if b then x else y)
if_class n true x y h k = h
if_class n false x y h k = k

class_chars-ClassLeaves : (pat : List ℕ) → ClassLeaves (length pat) (class_chars pat)
unfolding class_chars
class_chars-ClassLeaves [] = tt
class_chars-ClassLeaves (c ∷ []) = if_class _ (c == close_bracket) _ _ (omega arith) tt
class_chars-ClassLeaves (c ∷ d ∷ []) =
    if_class _ (c == close_bracket) _ _ (omega arith)
      (add_chars-ClassLeaves 1 2 (c ∷ []) _ (omega arith) (class_chars-ClassLeaves (d ∷ [])))
class_chars-ClassLeaves (c ∷ d ∷ hi ∷ rest) = if_class _ (c == close_bracket) _ _ (omega arith) (
    if_class _ (d == hyphen) _ _
      (add_chars-ClassLeaves (length rest) (suc (suc (suc (length rest)))) (inclusive_range c hi) _
        (omega arith) (class_chars-ClassLeaves rest))
      (add_chars-ClassLeaves (suc (suc (length rest))) (suc (suc (suc (length rest)))) (c ∷ []) _
        (omega arith) (class_chars-ClassLeaves (d ∷ hi ∷ rest))))

length-strip_negation : (pat : List ℕ) → length (strip_negation pat).1 ≤ length pat
length-strip_negation [] = omega arith
length-strip_negation (c ∷ pat) = ground arith

class_result-Leaves :
    (n m : ℕ) (pat : List ℕ) (negated : Bool) (r : Option (List ℕ × List ℕ))
    → n ≤ m
    → ClassLeaves n r
    → Leaves m (class_result pat negated r)
class_result-Leaves n m pat negated none le h = tt
class_result-Leaves n m pat negated (some (chars, rest)) le h = omega arith

parse_char_class-Leaves : (c : ℕ) (pat : List ℕ) → Leaves (length pat) (parse_char_class c pat)
unfolding parse_char_class
parse_char_class-Leaves c pat =
    class_result-Leaves _ _ (c ∷ pat) _ (class_chars (strip_negation pat).1)
      (length-strip_negation pat) (class_chars-ClassLeaves (strip_negation pat).1)

length-literal_run : (pat : List ℕ) → length (literal_run pat).1 ≤ length pat
unfolding literal_run
length-literal_run [] = omega arith
length-literal_run (c ∷ pat) = elim (Bool-cases (is_wildcard c)) [
  | inl wild ↦ rw (wild) (omega arith)
  | inr plain ↦ rw (plain) (omega (arith, length-literal_run pat))
]

if_Leaves :
    (n : ℕ) (b : Bool) (x y : FilterResult (Segment × List ℕ))
    → Leaves n x
    → Leaves n y
    → Leaves n (if b then x else y)
if_Leaves n true x y h k = h
if_Leaves n false x y h k = k

length-skip_slash : (pat : List ℕ) → length (skip_slash pat) ≤ length pat
length-skip_slash [] = omega arith
length-skip_slash (c ∷ pat) = ground arith

star_segment-Leaves : (pat : List ℕ) → Leaves (length pat) (star_segment pat)
star_segment-Leaves [] = omega arith
star_segment-Leaves (d ∷ rest) =
    if_Leaves _ (d == asterisk) _ _ (omega (arith, length-skip_slash rest)) (omega arith)

first_segment-Leaves : (c : ℕ) (pat : List ℕ) → Leaves (length pat) (first_segment c pat)
unfolding first_segment
first_segment-Leaves c pat = if_Leaves _ (c == asterisk) _ _ (star_segment-Leaves pat) (
    if_Leaves _ (c == question_mark) _ _ (omega arith)
      (if_Leaves _ (c == bracket) _ _ (parse_char_class-Leaves c pat) (length-literal_run pat)))

compile_after_total :
    (n : ℕ) (go : List ℕ → Option (FilterResult (List Segment)))
    (r : FilterResult (Segment × List ℕ))
    → ((rest : List ℕ)
        → length rest ≤ n
        → (out : FilterResult (List Segment)) × (go rest ≡ some out))
    → Leaves n r
    → (out : FilterResult (List Segment)) × (compile_after go r ≡ some out)
compile_after_total n go (ok (segment, rest)) h short =
    let (out, at) = h rest short in (add_segment segment out, rw (at, compile_after) refl)
compile_after_total n go (err e) h short = (err e, refl)

-- Compiling ends with segments or with an error when the fuel is at least the pattern's length.
pub compile_total :
    (fuel : ℕ) (pat : List ℕ)
    → length pat ≤ fuel
    → (out : FilterResult (List Segment)) × (compile fuel pat ≡ some out)
unfolding compile
compile_total zero [] h = (ok [], refl)
compile_total (suc fuel) [] h = (ok [], refl)
compile_total zero (c ∷ pat) h = absurd (omega arith)
compile_total (suc fuel) (c ∷ pat) h =
    compile_after_total (length pat) (compile fuel) (first_segment c pat)
      (λ rest short. compile_total fuel rest (omega arith)) (first_segment-Leaves c pat)

length-strip_prefix : (pat : List ℕ) → length (strip_prefix pat).1 ≤ length pat
length-strip_prefix [] = omega arith
length-strip_prefix (c ∷ pat) = ground arith

length-strip_suffix : (pat : List ℕ) → length (strip_suffix pat).1 ≤ length pat
length-strip_suffix [] = omega arith
length-strip_suffix (c ∷ []) = ground arith
length-strip_suffix (c ∷ d ∷ pat) = omega (arith, length-strip_suffix (d ∷ pat))

pattern_result_total :
    (source : List ℕ) (anchored dir_only : Bool) (r : FilterResult (List Segment))
    → (out : FilterResult Pattern) × (pattern_result source anchored dir_only (some r) ≡ some out)
pattern_result_total source anchored dir_only (ok segments) = (_, refl)
pattern_result_total source anchored dir_only (err e) = (_, refl)

-- `Pattern::new` ends for every pattern, with fuel for the pattern's length.
pub new_total :
    (pattern : List ℕ) → (out : FilterResult Pattern) × (new (length pattern) pattern ≡ some out)
unfolding new
new_total pattern =
    let (compiled, at) = compile_total (length pattern) _ shorter in
    let (out, made) = pattern_result_total pattern _ _ compiled in
    (out, ap (pattern_result pattern _ _) at ∙ made)
  where
    shorter : length (strip_suffix (strip_prefix pattern).1).1 ≤ length pattern
    shorter =
        omega (arith, length-strip_suffix (strip_prefix pattern).1, length-strip_prefix pattern)
