-- ===== src/Filter/Pattern.antt =====
-- Glob patterns of crates/ferrosync-filter/src/pattern.rs. A pattern and a path are byte lists; an
-- index into one is the list of the bytes from there on. Compiling runs on fuel.
pub mod Glob
pub mod Compile
use ferrosync.Base.{
  ℕ, zero, suc, ◌+◌, ◌-◌, List, [], ◌∷◌, ◌++◌, Option, none, some, Bool, true, false, not, ◌&&◌,
  ◌||◌, ◌==◌, if◌then◌else◌,
}

pub data Segment : Type 0 where
  star : Segment
  double_star : Segment
  question : Segment
  literal : List ℕ → Segment
  char_class : List ℕ → Bool → Segment

-- The cases of `FilterError`. `invalid_pattern` has the bytes of the class that has no end.
pub data FilterError : Type 0 where
  invalid_pattern : List ℕ → FilterError
  invalid_rule : List ℕ → FilterError
  read_file : FilterError

pub data FilterResult {ℓ} (A : Type ℓ) : Type ℓ where
  ok : A → FilterResult A
  err : FilterError → FilterResult A

abbrev pub slash : ℕ
slash = 47

abbrev pub asterisk : ℕ
asterisk = 42

abbrev pub question_mark : ℕ
question_mark = 63

abbrev pub bracket : ℕ
bracket = 91

abbrev pub close_bracket : ℕ
close_bracket = 93

abbrev pub hyphen : ℕ
hyphen = 45

-- `lo..=hi`, of `n` bytes.
unfoldable pub bytes_from : ℕ → ℕ → List ℕ
bytes_from zero lo = []
bytes_from (suc n) lo = lo ∷ bytes_from n (suc lo)

abbrev pub inclusive_range : ℕ → ℕ → List ℕ
inclusive_range lo hi = bytes_from (suc hi - lo) lo

abbrev pub add_chars : List ℕ → Option (List ℕ × List ℕ) → Option (List ℕ × List ℕ)
add_chars chars none = none
add_chars chars (some (more, rest)) = some (chars ++ more, rest)

-- The members of a class and the bytes after its bracket; `none` where no bracket ends it.
unfoldable pub class_chars : List ℕ → Option (List ℕ × List ℕ)
unfolding bytes_from
class_chars [] = none
class_chars (c ∷ []) = if c == close_bracket then some ([], []) else none
class_chars (c ∷ d ∷ []) =
    let next = class_chars (d ∷ []) in
    if c == close_bracket then some ([], d ∷ []) else add_chars (c ∷ []) next
class_chars (c ∷ d ∷ hi ∷ rest) =
    let next = class_chars (d ∷ hi ∷ rest) in
    let after = class_chars rest in
    if c == close_bracket
    then some ([], d ∷ hi ∷ rest)
    else (if d == hyphen then add_chars (inclusive_range c hi) after else add_chars (c ∷ []) next)

-- The sign of negation, `!` or `^`, and the bytes after it.
abbrev pub strip_negation : List ℕ → Bool × List ℕ
strip_negation [] = (false, [])
strip_negation (c ∷ pat) = if c == 33 || c == 94 then (true, pat) else (false, c ∷ pat)

abbrev pub class_result : List ℕ → Bool → Option (List ℕ × List ℕ) → FilterResult (Segment × List ℕ)
class_result pat negated none = err (invalid_pattern pat)
class_result pat negated (some (chars, rest)) = ok (char_class chars negated, rest)

-- The class that starts with the bracket `first`, and the bytes after it.
unfoldable pub parse_char_class : ℕ → List ℕ → FilterResult (Segment × List ℕ)
unfolding class_chars
parse_char_class first pat =
    let (negated, body) = strip_negation pat in
    class_result (first ∷ pat) negated (class_chars body)

abbrev pub is_wildcard : ℕ → Bool
is_wildcard c = c == asterisk || c == question_mark || c == bracket

-- The run of literal bytes at the front, and the bytes after it.
unfoldable pub literal_run : List ℕ → List ℕ × List ℕ
literal_run [] = ([], [])
literal_run (c ∷ pat) =
    let (run, rest) = literal_run pat in if is_wildcard c then ([], c ∷ pat) else (c ∷ run, rest)

abbrev pub skip_slash : List ℕ → List ℕ
skip_slash [] = []
skip_slash (c ∷ pat) = if c == slash then pat else c ∷ pat

-- A `*` or a `**`, which takes a slash after it with it.
abbrev pub star_segment : List ℕ → FilterResult (Segment × List ℕ)
star_segment [] = ok (star, [])
star_segment (d ∷ rest) =
    if d == asterisk then ok (double_star, skip_slash rest) else ok (star, d ∷ rest)

-- The first segment of a pattern that begins with `c`, and the bytes after it.
unfoldable pub first_segment : ℕ → List ℕ → FilterResult (Segment × List ℕ)
unfolding parse_char_class literal_run
first_segment c pat =
    if c == asterisk
    then star_segment pat
    else (if c == question_mark
        then ok (question, pat)
        else (if c == bracket
            then parse_char_class c pat
            else ok (literal (c ∷ (literal_run pat).0), (literal_run pat).1)))

abbrev pub add_segment : Segment → FilterResult (List Segment) → FilterResult (List Segment)
add_segment segment (ok segments) = ok (segment ∷ segments)
add_segment segment (err e) = err e

-- The segments after the first.
abbrev pub compile_after :
    (List ℕ → Option (FilterResult (List Segment)))
    → FilterResult (Segment × List ℕ)
    → Option (FilterResult (List Segment))
compile_after go (ok (segment, rest)) = elim (go rest) [
  | some r ↦ some (add_segment segment r)
  | none ↦ none
]
compile_after go (err e) = some (err e)

unfoldable pub compile : ℕ → List ℕ → Option (FilterResult (List Segment))
unfolding first_segment
compile fuel [] = some (ok [])
compile zero (c ∷ pat) = none
compile (suc fuel) (c ∷ pat) = compile_after (compile fuel) (first_segment c pat)

abbrev pub is_empty : List ℕ → Bool
is_empty [] = true
is_empty (c ∷ text) = false

-- `text[lit.len()..]`, where `text.starts_with(lit)`.
abbrev pub strip_literal : List ℕ → List ℕ → Option (List ℕ)
strip_literal [] text = some text
strip_literal (c ∷ lit) [] = none
strip_literal (c ∷ lit) (d ∷ text) = if c == d then strip_literal lit text else none

abbrev pub contains : List ℕ → ℕ → Bool
contains [] c = false
contains (d ∷ chars) c = c == d || contains chars c

-- The loop of `*`: `go` is tried on each suffix up to the first slash.
unfoldable pub star_loop : (List ℕ → Bool) → List ℕ → Bool
star_loop go [] = go []
star_loop go (c ∷ text) = go (c ∷ text) || not (c == slash) && star_loop go text

-- The loop of `**`: `go` is tried on each suffix.
unfoldable pub double_star_loop : (List ℕ → Bool) → List ℕ → Bool
double_star_loop go [] = go []
double_star_loop go (c ∷ text) = go (c ∷ text) || double_star_loop go text

abbrev pub in_class : List ℕ → Bool → ℕ → Bool
in_class chars true c = not (contains chars c)
in_class chars false c = contains chars c

-- The rest of the match after a literal that was stripped.
abbrev pub try_rest : (List ℕ → Bool) → Option (List ℕ) → Bool
try_rest go (some text) = go text
try_rest go none = false

unfoldable pub match_segments : List Segment → List ℕ → Bool
unfolding star_loop double_star_loop
match_segments [] text = is_empty text
match_segments (literal lit ∷ segments) text =
    try_rest (match_segments segments) (strip_literal lit text)
match_segments (star ∷ segments) text = star_loop (match_segments segments) text
match_segments (double_star ∷ segments) text = double_star_loop (match_segments segments) text
match_segments (question ∷ segments) [] = false
match_segments (question ∷ segments) (c ∷ text) = not (c == slash) && match_segments segments text
match_segments (char_class chars negated ∷ segments) [] = false
match_segments (char_class chars negated ∷ segments) (c ∷ text) =
    in_class chars negated c && match_segments segments text

pub record Pattern : Type 0 where
  pub source : List ℕ
  pub anchored : Bool
  pub dir_only : Bool
  pub segments : List Segment

-- `strip_prefix('/')`, with whether there was one.
abbrev pub strip_prefix : List ℕ → Bool × List ℕ
strip_prefix [] = (false, [])
strip_prefix (c ∷ pat) = if c == slash then (true, pat) else (false, c ∷ pat)

-- `strip_suffix('/')`, with whether there was one.
abbrev pub strip_suffix : List ℕ → Bool × List ℕ
strip_suffix [] = (false, [])
strip_suffix (c ∷ []) = if c == slash then (true, []) else (false, c ∷ [])
strip_suffix (c ∷ d ∷ pat) = let (had, front) = strip_suffix (d ∷ pat) in (had, c ∷ front)

-- `if anchored && !source.starts_with('/') { source = format!("/{source}") }`
abbrev pub shown_source : Bool → List ℕ → List ℕ
shown_source anchored source =
    if anchored && not (strip_prefix source).0 then slash ∷ source else source

abbrev pub pattern_result :
    List ℕ → Bool → Bool → Option (FilterResult (List Segment)) → Option (FilterResult Pattern)
pattern_result source anchored dir_only none = none
pattern_result source anchored dir_only (some (err e)) = some (err e)
pattern_result source anchored dir_only (some (ok segments)) = some (
    ok (record {
      source = shown_source anchored source;
      anchored = anchored;
      dir_only = dir_only;
      segments = segments;
    }))

unfoldable pub new : ℕ → List ℕ → Option (FilterResult Pattern)
unfolding compile
new fuel pattern =
    let (leading, rest) = strip_prefix pattern in
    let (dir_only, pat) = strip_suffix rest in
    pattern_result pattern (leading || contains pat slash) dir_only (compile fuel pat)

-- The bytes after the last slash, where there is one.
abbrev pub file_name : List ℕ → Option (List ℕ)
file_name [] = none
file_name (c ∷ path) = elim (file_name path) [
  | some name ↦ some name
  | none ↦ if c == slash then some path else none
]

unfoldable pub matches : Pattern → List ℕ → Bool → Bool
unfolding match_segments
matches p path is_dir =
    if p.dir_only && not is_dir
    then false
    else (if p.anchored
        then match_segments p.segments path
        else match_segments p.segments path
          || try_rest (match_segments p.segments) (file_name path))
