-- ===== src/Filter/Rule.antt =====
-- Filter rules and rule lists of crates/ferrosync-filter/src/rule.rs. A method that changes the list is
-- a function to the list after it and its result: rules that were added before an error stay. A file
-- is the list of its lines, and `none` is a file that cannot be read.
pub mod Order
pub mod Scope
use ferrosync.Base.{
  ℕ, zero, suc, List, [], ◌∷◌, ◌++◌, Option, none, some, Bool, true, false, ◌||◌, ◌==◌,
  if◌then◌else◌, length, take,
}
use ferrosync.Filter.Pattern.{
  FilterError, invalid_pattern, invalid_rule, read_file, FilterResult, ok, err, Pattern, new,
  matches, is_empty,
}

pub data FilterAction : Type 0 where
  include exclude : FilterAction

pub record FilterRule : Type 0 where
  pub action : FilterAction
  pub pattern : Pattern

pub record FilterRuleList : Type 0 where
  pub rules : List FilterRule
  pub scope_stack : List ℕ

abbrev pub or_invalid : List ℕ → Option (FilterResult Pattern) → FilterResult Pattern
or_invalid pat (some r) = r
or_invalid pat none = err (invalid_pattern pat)

-- `Pattern::new` with fuel for the pattern, which is enough: the case of `none` does not occur.
unfoldable pub new_pattern : List ℕ → FilterResult Pattern
unfolding new
new_pattern pat = or_invalid pat (new (length pat) pat)

abbrev pub new_rule : FilterAction → FilterResult Pattern → FilterResult FilterRule
new_rule action (ok pattern) = ok (record { action = action; pattern = pattern })
new_rule action (err e) = err e

-- The text after a prefix.
abbrev pub after_prefix : List ℕ → List ℕ → Option (List ℕ)
after_prefix [] text = some text
after_prefix (c ∷ prefix) [] = none
after_prefix (c ∷ prefix) (d ∷ text) = if c == d then after_prefix prefix text else none

abbrev pub or_else :
    Option (List ℕ)
    → (List ℕ → FilterResult FilterRule)
    → FilterResult FilterRule
    → FilterResult FilterRule
or_else (some rest) go other = go rest
or_else none go other = other

-- `rules.push(..)` of a rule that was made without error.
abbrev pub push_rule :
    FilterResult FilterRule → FilterRuleList → FilterRuleList × FilterResult (Unit {0})
push_rule (ok rule) list = (record list { rules = list.rules ++ rule ∷ [] }, ok tt)
push_rule (err e) list = (list, err e)

unfoldable pub add_exclude : List ℕ → FilterRuleList → FilterRuleList × FilterResult (Unit {0})
unfolding new_pattern
add_exclude pattern = push_rule (new_rule exclude (new_pattern pattern))

unfoldable pub add_include : List ℕ → FilterRuleList → FilterRuleList × FilterResult (Unit {0})
unfolding new_pattern
add_include pattern = push_rule (new_rule include (new_pattern pattern))

abbrev pub Method : Type 0
Method = FilterRuleList → FilterRuleList × FilterResult (Unit {0})

-- What follows a call with `?`.
abbrev pub and_then :
    FilterRuleList × FilterResult (Unit {0}) → Method → FilterRuleList × FilterResult (Unit {0})
and_then (list, ok u) go = go list
and_then (list, err e) go = (list, err e)

-- A loop whose body ends with `?`.
unfoldable pub for_each {ℓ} : {A : Type ℓ} → (A → Method) → List A → Method
for_each f [] list = (list, ok tt)
for_each f (x ∷ xs) list = and_then (f x list) (for_each f xs)

-- A line that is blank or a comment, which `#` (35) or `;` (59) starts.
abbrev pub is_skipped : List ℕ → Bool
is_skipped [] = true
is_skipped (c ∷ line) = c == 35 || c == 59

-- `FilterRuleList::new`
abbrev pub empty_list : FilterRuleList
empty_list = record { rules = []; scope_stack = [] }

-- `str::trim` is the parameter.
module _ (trim : List ℕ → List ℕ) where
  abbrev pub trimmed_rule : FilterAction → List ℕ → FilterResult FilterRule
  trimmed_rule action rest = new_rule action (new_pattern (trim rest))

  unfoldable pub parse : List ℕ → FilterResult FilterRule
  unfolding new_pattern
  parse s =
      let text = trim s in
      or_else (after_prefix (45 ∷ 32 ∷ []) text) (trimmed_rule exclude) (
        or_else (after_prefix (43 ∷ 32 ∷ []) text) (trimmed_rule include) (
          or_else (after_prefix (101 ∷ 120 ∷ 99 ∷ 108 ∷ 117 ∷ 100 ∷ 101 ∷ 32 ∷ []) text)
            (trimmed_rule exclude)
            (or_else (after_prefix (105 ∷ 110 ∷ 99 ∷ 108 ∷ 117 ∷ 100 ∷ 101 ∷ 32 ∷ []) text)
              (trimmed_rule include) (err (invalid_rule text)))))

  unfoldable pub add_rule : List ℕ → Method
  unfolding parse
  add_rule rule = push_rule (parse rule)

  -- One line of a file, for the method that adds what it says.
  unfoldable pub add_line : (List ℕ → Method) → List ℕ → Method
  add_line add line list =
      let text = trim line in if is_skipped text then (list, ok tt) else add text list

  unfoldable pub add_lines : (List ℕ → Method) → Option (List (List ℕ)) → Method
  unfolding for_each add_line
  add_lines add (some lines) list = for_each (add_line add) lines list
  add_lines add none list = (list, err read_file)

  unfoldable pub add_excludes_from_file : Option (List (List ℕ)) → Method
  unfolding add_lines add_exclude
  add_excludes_from_file content = add_lines add_exclude content

  unfoldable pub add_includes_from_file : Option (List (List ℕ)) → Method
  unfolding add_lines add_include
  add_includes_from_file content = add_lines add_include content

  unfoldable pub merge_filter_file : Option (List (List ℕ)) → Method
  unfolding add_lines add_rule
  merge_filter_file content = add_lines add_rule content

  unfoldable pub from_options :
      (excludes includes filters : List (List ℕ))
      (include_from exclude_from : List (Option (List (List ℕ))))
      → FilterRuleList × FilterResult (Unit {0})
  unfolding for_each add_rule add_include add_exclude add_includes_from_file add_excludes_from_file
  from_options excludes includes filters include_from exclude_from =
      and_then
        (and_then
          (and_then
            (and_then (for_each add_rule filters empty_list) (for_each add_include includes))
            (for_each add_includes_from_file include_from))
          (for_each add_excludes_from_file exclude_from))
        (for_each add_exclude excludes)

unfoldable pub rule_included : List FilterRule → List ℕ → Bool → Bool
unfolding matches
rule_included [] path is_dir = true
rule_included (rule ∷ rules) path is_dir =
    if matches rule.pattern path is_dir
    then elim rule.action [ include ↦ true | exclude ↦ false ]
    else rule_included rules path is_dir

unfoldable pub is_included : FilterRuleList → List ℕ → Bool → Bool
unfolding rule_included
is_included list path is_dir = rule_included list.rules path is_dir

unfoldable pub cvs_exclude_patterns : List (List ℕ)
cvs_exclude_patterns =
    (82 ∷ 67 ∷ 83 ∷ [])
    ∷ (83 ∷ 67 ∷ 67 ∷ 83 ∷ [])
    ∷ (67 ∷ 86 ∷ 83 ∷ [])
    ∷ (67 ∷ 86 ∷ 83 ∷ 46 ∷ 97 ∷ 100 ∷ 109 ∷ [])
    ∷ (82 ∷ 67 ∷ 83 ∷ 76 ∷ 79 ∷ 71 ∷ [])
    ∷ (99 ∷ 118 ∷ 115 ∷ 108 ∷ 111 ∷ 103 ∷ 46 ∷ 42 ∷ [])
    ∷ (116 ∷ 97 ∷ 103 ∷ 115 ∷ [])
    ∷ (84 ∷ 65 ∷ 71 ∷ 83 ∷ [])
    ∷ (46 ∷ 109 ∷ 97 ∷ 107 ∷ 101 ∷ 46 ∷ 115 ∷ 116 ∷ 97 ∷ 116 ∷ 101 ∷ [])
    ∷ (46 ∷ 110 ∷ 115 ∷ 101 ∷ 95 ∷ 100 ∷ 101 ∷ 112 ∷ 105 ∷ 110 ∷ 102 ∷ 111 ∷ [])
    ∷ (42 ∷ 126 ∷ [])
    ∷ (35 ∷ 42 ∷ [])
    ∷ (46 ∷ 35 ∷ 42 ∷ [])
    ∷ (44 ∷ 42 ∷ [])
    ∷ (95 ∷ 36 ∷ 42 ∷ [])
    ∷ (42 ∷ 46 ∷ 111 ∷ 108 ∷ 100 ∷ [])
    ∷ (42 ∷ 46 ∷ 98 ∷ 97 ∷ 107 ∷ [])
    ∷ (42 ∷ 46 ∷ 66 ∷ 65 ∷ 75 ∷ [])
    ∷ (42 ∷ 46 ∷ 111 ∷ 114 ∷ 105 ∷ 103 ∷ [])
    ∷ (42 ∷ 46 ∷ 114 ∷ 101 ∷ 106 ∷ [])
    ∷ (46 ∷ 100 ∷ 101 ∷ 108 ∷ 45 ∷ 42 ∷ [])
    ∷ (42 ∷ 46 ∷ 97 ∷ [])
    ∷ (42 ∷ 46 ∷ 111 ∷ 108 ∷ 98 ∷ [])
    ∷ (42 ∷ 46 ∷ 111 ∷ [])
    ∷ (42 ∷ 46 ∷ 111 ∷ 98 ∷ 106 ∷ [])
    ∷ (42 ∷ 46 ∷ 115 ∷ 111 ∷ [])
    ∷ (42 ∷ 46 ∷ 101 ∷ 120 ∷ 101 ∷ [])
    ∷ (42 ∷ 46 ∷ 90 ∷ [])
    ∷ (42 ∷ 46 ∷ 101 ∷ 108 ∷ 99 ∷ [])
    ∷ (42 ∷ 46 ∷ 108 ∷ 110 ∷ [])
    ∷ (99 ∷ 111 ∷ 114 ∷ 101 ∷ [])
    ∷ (46 ∷ 115 ∷ 118 ∷ 110 ∷ 47 ∷ [])
    ∷ (46 ∷ 103 ∷ 105 ∷ 116 ∷ 47 ∷ [])
    ∷ (46 ∷ 104 ∷ 103 ∷ 47 ∷ [])
    ∷ (46 ∷ 98 ∷ 122 ∷ 114 ∷ 47 ∷ [])
    ∷ []

-- `let _ = self.add_exclude(pattern)` for each pattern: an error is dropped.
unfoldable pub add_all : List (List ℕ) → FilterRuleList → FilterRuleList
unfolding add_exclude
add_all [] list = list
add_all (pattern ∷ patterns) list = add_all patterns (add_exclude pattern list).0

unfoldable pub add_cvs_excludes : FilterRuleList → FilterRuleList
unfolding add_all cvs_exclude_patterns
add_cvs_excludes list = add_all cvs_exclude_patterns list

unfoldable pub push_scope : FilterRuleList → FilterRuleList
push_scope list = record list { scope_stack = length list.rules ∷ list.scope_stack }

abbrev pub restore : List ℕ → FilterRuleList → FilterRuleList
restore [] list = list
restore (len ∷ stack) list = record { rules = take len list.rules; scope_stack = stack }

-- The stack's top is the front of its list.
unfoldable pub pop_scope : FilterRuleList → FilterRuleList
pop_scope list = restore list.scope_stack list
