-- ===== src/Runs/Filter.antt =====
-- Patterns of crates/ferrosync-filter/src/pattern.rs at concrete values.
use ferrosync.Base.{◌≡◌, ◌↔◌, refl, [], ◌∷◌, true, false, some}
use ferrosync.Filter.Pattern.{star, double_star, literal, char_class, match_segments, ok, compile}
use ferrosync.Filter.Pattern.Glob.{Denotes, match_segments_iff}
use ferrosync.Filter.Rule.{exclude, FilterRuleList, merge_filter_file, push_scope, pop_scope}
use ferrosync.Filter.Rule.Scope.{pop_scope-merge_filter_file}

-- `*.o` against `a.o`.
match_segments_iff_example :
    (match_segments (star ∷ literal (46 ∷ 111 ∷ []) ∷ []) (97 ∷ 46 ∷ 111 ∷ []) ≡ true)
    ↔ Denotes (star ∷ literal (46 ∷ 111 ∷ []) ∷ []) (97 ∷ 46 ∷ 111 ∷ [])
match_segments_iff_example =
    match_segments_iff (star ∷ literal (46 ∷ 111 ∷ []) ∷ []) (97 ∷ 46 ∷ 111 ∷ [])

run_matches : match_segments (star ∷ literal (46 ∷ 111 ∷ []) ∷ []) (97 ∷ 46 ∷ 111 ∷ []) ≡ true
unfolding match_segments
run_matches = refl

-- A single star stops at a slash.
run_star_slash : match_segments (star ∷ []) (97 ∷ 47 ∷ 98 ∷ []) ≡ false
unfolding match_segments
run_star_slash = refl

-- `[a-c]` and the two stars of `**/x`.
run_compile_class :
    compile 5 (91 ∷ 97 ∷ 45 ∷ 99 ∷ 93 ∷ []) ≡ some (ok (char_class (97 ∷ 98 ∷ 99 ∷ []) false ∷ []))
unfolding compile
run_compile_class = refl

run_compile_stars :
    compile 4 (42 ∷ 42 ∷ 47 ∷ 120 ∷ []) ≡ some (ok (double_star ∷ literal (120 ∷ []) ∷ []))
unfolding compile
run_compile_stars = refl

-- `- *.o` and `+ *`, with text that needs no trimming.
abbrev no_objects : FilterRuleList
no_objects = record {
  rules =
      record {
        action = exclude;
        pattern = record {
          source = 42 ∷ 46 ∷ 111 ∷ [];
          anchored = false;
          dir_only = false;
          segments = star ∷ literal (46 ∷ 111 ∷ []) ∷ [];
        };
      }
      ∷ [];
  scope_stack = [];
}

-- A merge file with a rule, a comment and a line in error.
pop_scope-merge_filter_file_example :
    pop_scope
      (merge_filter_file
        (λ b. b)
        (some ((45 ∷ 32 ∷ 97 ∷ []) ∷ (35 ∷ 97 ∷ []) ∷ (97 ∷ []) ∷ []))
        (push_scope no_objects)).0
    ≡ no_objects
pop_scope-merge_filter_file_example =
    pop_scope-merge_filter_file (λ b. b)
      (some ((45 ∷ 32 ∷ 97 ∷ []) ∷ (35 ∷ 97 ∷ []) ∷ (97 ∷ []) ∷ [])) no_objects
