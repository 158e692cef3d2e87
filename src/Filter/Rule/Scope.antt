-- ===== src/Filter/Rule/Scope.antt =====
-- A scope of rules: what a merge file adds is taken away again.
use ferrosync.Base.{
  ℕ, ◌≡◌, refl, ap, sym, ◌∙◌, List, [], ◌∷◌, ◌++◌, Option, none, some, length, take, append_assoc,
  append-nil, take-append_length, Bool-cases, inl, inr,
}
use ferrosync.Filter.Pattern.{FilterResult, ok, err}
use ferrosync.Filter.Rule.{
  FilterRule, FilterRuleList, Method, push_rule, and_then, for_each, is_skipped, add_rule, add_line,
  add_lines, merge_filter_file, push_scope, pop_scope, parse, restore,
}

-- A list that has the rules of another, more rules behind them, and its scopes.
abbrev pub Extends : FilterRuleList → FilterRuleList → Type 0
Extends list list' =
    ((more : List FilterRule) × (list'.rules ≡ list.rules ++ more))
    × (list'.scope_stack ≡ list.scope_stack)

Extends-refl : (list : FilterRuleList) → Extends list list
Extends-refl list = (([], sym (append-nil list.rules)), refl)

Extends-trans : (a b c : FilterRuleList) → Extends a b → Extends b c → Extends a c
Extends-trans a b c ((more, e), s) ((more', e'), s') =
    ((more ++ more', e' ∙ ap (λ r. r ++ more') e ∙ append_assoc a.rules more more'), s' ∙ s)

push_rule-Extends :
    (r : FilterResult FilterRule) (list : FilterRuleList) → Extends list (push_rule r list).0
push_rule-Extends (ok rule) list = ((rule ∷ [], refl), refl)
push_rule-Extends (err e) list = Extends-refl list

and_then-Extends :
    (list : FilterRuleList) (r : FilterRuleList × FilterResult (Unit {0})) (go : Method)
    → Extends list r.0
    → ((l : FilterRuleList) → Extends l (go l).0)
    → Extends list (and_then r go).0
and_then-Extends list (l, ok u) go h k = Extends-trans list l (go l).0 h (k l)
and_then-Extends list (l, err e) go h k = h

for_each-Extends :
    (f : List ℕ → Method) (xs : List (List ℕ))
    → ((x : List ℕ) (l : FilterRuleList) → Extends l (f x l).0)
    → (list : FilterRuleList) → Extends list (for_each f xs list).0
unfolding for_each
for_each-Extends f [] h list = Extends-refl list
for_each-Extends f (x ∷ xs) h list =
    and_then-Extends list (f x list) (for_each f xs) (h x list) (for_each-Extends f xs h)

module _ (trim : List ℕ → List ℕ) where
  add_line-Extends :
      (line : List ℕ) (list : FilterRuleList)
      → Extends list (add_line trim (add_rule trim) line list).0
  unfolding add_line add_rule
  add_line-Extends line list = elim (Bool-cases (is_skipped (trim line))) [
    | inl skipped ↦ rw (skipped) (Extends-refl list)
    | inr used ↦ rw (used) (push_rule-Extends (parse trim (trim line)) list)
  ]

  merge_filter_file-Extends :
      (content : Option (List (List ℕ))) (list : FilterRuleList)
      → Extends list (merge_filter_file trim content list).0
  unfolding merge_filter_file add_lines
  merge_filter_file-Extends none list = Extends-refl list
  merge_filter_file-Extends (some lines) list =
      for_each-Extends (add_line trim (add_rule trim)) lines add_line-Extends list

  pop_scope-Extends :
      (list list' : FilterRuleList) → Extends (push_scope list) list' → pop_scope list' ≡ list
  unfolding push_scope pop_scope
  pop_scope-Extends list list' ((more, rules), stack) =
      ap (λ s. restore s list') stack
      ∙ ap (λ r. record { rules = r; scope_stack = list.scope_stack })
          (ap (take (length list.rules)) rules ∙ take-append_length list.rules more)

  -- A scope that is opened, any file that is merged in it, also one that cannot be read or that stops
  -- at a rule in error, and the scope closed: the list is as before.
  pub pop_scope-merge_filter_file :
      (content : Option (List (List ℕ))) (list : FilterRuleList)
      → pop_scope (merge_filter_file trim content (push_scope list)).0 ≡ list
  pop_scope-merge_filter_file content list =
      pop_scope-Extends list _ (merge_filter_file-Extends content (push_scope list))
