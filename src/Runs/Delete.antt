-- ===== src/Runs/Delete.antt =====
-- Deleting in a directory with three entries, of which the source has one.
use ferrosync.Base.{
  ℕ, ◌-◌, ◌≡◌, refl, List, [], ◌∷◌, some, false, ◌==◌, if◌then◌else◌, length, arith,
}
use ferrosync.Filter.Rule.{empty_list, is_included, rule_included}
use ferrosync.Engine.Delete.{
  DestEntry, try_consume, delete_loop, delete_extraneous, delete_extraneous_in_dir, source_children,
  child_name, unlimited,
}
use ferrosync.Engine.Delete.Plan.{planned, allowed, extraneous, delete_extraneous_plan}

abbrev entry_named : ℕ → DestEntry
entry_named c = record { name = c ∷ []; mode = 33188 }

abbrev listing : List DestEntry
listing = entry_named 97 ∷ entry_named 98 ∷ entry_named 99 ∷ []

abbrev source_names : List (List ℕ)
source_names = (98 ∷ []) ∷ []

delete_extraneous_plan_example :
    delete_extraneous source_names empty_list false false 1 (some listing)
    ≡ planned source_names empty_list false false
        (if 1 == unlimited
          then 1
          else 1
            - length (
                allowed source_names empty_list false false 1
                  (extraneous source_names empty_list false false listing)))
        (allowed source_names empty_list false false 1
          (extraneous source_names empty_list false false listing))
delete_extraneous_plan_example =
    delete_extraneous_plan source_names empty_list false false 1 listing (omega arith)

-- The first of the two extraneous entries is removed, and then the budget is spent.
run_delete_extraneous :
    delete_extraneous source_names empty_list false false 1 (some listing)
    ≡ record { deleted = 1; removed = entry_named 97 ∷ []; budget = 0 }
unfolding delete_extraneous delete_loop try_consume is_included rule_included
run_delete_extraneous = refl

-- In `d`, the source has `d/b`.
run_delete_extraneous_in_dir :
    delete_extraneous_in_dir
      ((100 ∷ 47 ∷ 98 ∷ []) ∷ (100 ∷ []) ∷ [])
      empty_list
      false
      false
      (100 ∷ [])
      unlimited
      (some listing)
    ≡ record { deleted = 2; removed = entry_named 97 ∷ entry_named 99 ∷ []; budget = unlimited }
unfolding delete_extraneous_in_dir source_children child_name delete_extraneous delete_loop
    try_consume is_included rule_included
run_delete_extraneous_in_dir = refl
