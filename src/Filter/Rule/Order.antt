-- ===== src/Filter/Rule/Order.antt =====
-- The first rule that matches decides.
use ferrosync.Base.{
  ℕ, ◌+◌, ◌≡◌, inl, inr, refl, ap, sym, ◌∙◌, List, [], ◌∷◌, ◌++◌, Bool, true, false, some,
  if◌then◌else◌, Bool-cases, if_true, if_false, length, length-append, arith,
}
use ferrosync.Filter.Pattern.{FilterResult, ok, err, Pattern, new, matches}
use ferrosync.Filter.Pattern.Compile.{new_total}
use ferrosync.Filter.Rule.{
  exclude, FilterRule, FilterRuleList, new_pattern, new_rule, push_rule, or_invalid, add_exclude,
  rule_included, cvs_exclude_patterns, add_all, add_cvs_excludes,
}

-- Some rule matches the path.
abbrev pub decides : List FilterRule → List ℕ → Bool → Bool
decides [] path is_dir = false
decides (rule ∷ rules) path is_dir =
    if matches rule.pattern path is_dir then true else decides rules path is_dir

-- A rule list whose first part has a rule that matches the path includes the path just where the
-- first part alone does; otherwise it includes it just where the second part alone does.
pub rule_included-append :
    (before after : List FilterRule) (path : List ℕ) (is_dir : Bool)
    → rule_included (before ++ after) path is_dir ≡ (
        if decides before path is_dir
        then rule_included before path is_dir
        else rule_included after path is_dir)
unfolding rule_included
rule_included-append [] after path is_dir = refl
rule_included-append (rule ∷ before) after path is_dir =
    elim (Bool-cases (matches rule.pattern path is_dir)) [
      | inl same ↦ rw (same) refl
      | inr other ↦ rw (other) (rule_included-append before after path is_dir)
    ]

-- What a rule's text compiles to is what `Pattern::new` gives for its text: the fuel is never used up.
pub new-new_pattern : (pat : List ℕ) → new (length pat) pat ≡ some (new_pattern pat)
unfolding new_pattern
new-new_pattern pat = let (out, at) = new_total pat in at ∙ ap some (sym (ap (or_invalid pat) at))

abbrev pub is_ok : FilterResult Pattern → Bool
is_ok (ok p) = true
is_ok (err e) = false

abbrev pub all_ok : List (List ℕ) → Bool
all_ok [] = true
all_ok (pat ∷ pats) = if is_ok (new_pattern pat) then all_ok pats else false

cvs_all_ok : all_ok cvs_exclude_patterns ≡ true
unfolding cvs_exclude_patterns new_pattern
cvs_all_ok = refl

push_rule-length :
    (p : FilterResult Pattern) (list : FilterRuleList)
    → is_ok p ≡ true
    → length (push_rule (new_rule exclude p) list).0.rules ≡ length list.rules + 1
push_rule-length (ok p) list h = length-append list.rules _
push_rule-length (err e) list h = ground arith

add_all-length :
    (pats : List (List ℕ)) (list : FilterRuleList)
    → all_ok pats ≡ true
    → length (add_all pats list).rules ≡ length list.rules + length pats
unfolding add_all add_exclude
add_all-length [] list h = omega arith
add_all-length (pat ∷ pats) list h = elim (Bool-cases (is_ok (new_pattern pat))) [
  | inl good ↦
      let here : length (add_exclude pat list).0.rules ≡ length list.rules + 1 =
        push_rule-length (new_pattern pat) list good in
      omega (arith, here, add_all-length pats (add_exclude pat list).0 (sym (if_true _ _ good) ∙ h))
  | inr bad ↦ impossible (sym (if_false _ _ bad) ∙ h)
]
  where
    impossible : {B : Type 0} → false ≡ true → B
    impossible e = ground arith

-- The patterns that `-C` adds all compile: a list grows by a rule for each of the 35.
pub length-add_cvs_excludes :
    (list : FilterRuleList) → length (add_cvs_excludes list).rules ≡ length list.rules + 35
unfolding add_cvs_excludes cvs_exclude_patterns
length-add_cvs_excludes list = add_all-length cvs_exclude_patterns list cvs_all_ok
