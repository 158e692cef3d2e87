-- ===== src/Engine/Delete.antt =====
-- Deleting extraneous files, of crates/ferrosync-engine/src/delete.rs: which entries of a directory are
-- removed, in order. The listing of a directory and the removals are the file system's; a failed
-- removal is ignored there. The budget's exchange is taken as one step.
pub mod Plan
use ferrosync.Base.{
  ℕ, zero, suc, ◌+◌, ◌-◌, ◌/◌, ◌%◌, ◌^◌, List, [], ◌∷◌, Option, none, some, Bool, true, false, ◌==◌,
  ◌&&◌, ◌||◌, not, if◌then◌else◌,
}
use ferrosync.Delta.Matcher.{same_bytes}
use ferrosync.Filter.Pattern.{strip_literal}
use ferrosync.Filter.Rule.{FilterRuleList, is_included}

pub record DestEntry : Type 0 where
  pub name : List ℕ
  pub mode : ℕ

-- `mode & S_IFMT == S_IFDIR`
abbrev pub is_directory : DestEntry → Bool
is_directory entry = entry.mode / 2 ^ 12 % 16 == 4

abbrev pub unlimited : ℕ
unlimited = 18446744073709551615

unfoldable pub new_budget : Option ℕ → ℕ
new_budget none = unlimited
new_budget (some max_delete) = max_delete

-- Whether a deletion is allowed, and what remains.
unfoldable pub try_consume : ℕ → Bool × ℕ
try_consume remaining =
    if remaining == 0
    then (false, remaining)
    else if remaining == unlimited
    then (true, remaining)
    else (true, remaining - 1)

abbrev pub contains_name : List (List ℕ) → List ℕ → Bool
contains_name [] name = false
contains_name (other ∷ names) name = same_bytes other name || contains_name names name

abbrev pub has_slash : List ℕ → Bool
has_slash [] = false
has_slash (b ∷ name) = (b == 47) || has_slash name

abbrev pub below : Option (List ℕ) → Option (List ℕ)
below none = none
below (some []) = none
below (some (b ∷ rest)) = if (b == 47) && not (has_slash rest) then some rest else none

-- The name of a direct child of the directory, and `none` for another entry.
unfoldable pub child_name : List ℕ → List ℕ → Option (List ℕ)
child_name dir_name name =
    if same_bytes dir_name (46 ∷ [])
    then (if not (has_slash name) && not (same_bytes name (46 ∷ [])) then some name else none)
    else below (strip_literal dir_name name)

abbrev pub add_child : Option (List ℕ) → List (List ℕ) → List (List ℕ)
add_child none names = names
add_child (some child) names = child ∷ names

unfoldable pub source_children : List ℕ → List (List ℕ) → List (List ℕ)
unfolding child_name
source_children dir_name [] = []
source_children dir_name (name ∷ names) =
    add_child (child_name dir_name name) (source_children dir_name names)

-- The count that is returned, the entries that are removed, and the budget that remains.
pub record Deletion : Type 0 where
  pub deleted : ℕ
  pub removed : List DestEntry
  pub budget : ℕ

module _ (names : List (List ℕ)) (filters : FilterRuleList) (dry_run delete_excluded : Bool) where
  abbrev pub is_kept : DestEntry → Bool
  is_kept entry =
      contains_name names entry.name
      || (not delete_excluded && not (is_included filters entry.name (is_directory entry)))

  abbrev pub count_entry : DestEntry → Deletion → Deletion
  count_entry entry d = record {
    deleted = suc d.deleted;
    removed = if dry_run then d.removed else entry ∷ d.removed;
    budget = d.budget;
  }

  abbrev pub consumed : (ℕ → Deletion) → DestEntry → Bool × ℕ → Deletion
  consumed go entry (false, left) = record { deleted = 0; removed = []; budget = left }
  consumed go entry (true, left) = count_entry entry (go left)

  unfoldable pub delete_loop : ℕ → List DestEntry → Deletion
  unfolding try_consume
  delete_loop budget [] = record { deleted = 0; removed = []; budget = budget }
  delete_loop budget (entry ∷ entries) = elim (is_kept entry) [
    | true ↦ delete_loop budget entries
    | false ↦ consumed (λ left. delete_loop left entries) entry (try_consume budget)
  ]

  -- A directory that cannot be listed has no deletions.
  unfoldable pub delete_extraneous : ℕ → Option (List DestEntry) → Deletion
  unfolding delete_loop
  delete_extraneous budget none = record { deleted = 0; removed = []; budget = budget }
  delete_extraneous budget (some entries) = delete_loop budget entries

-- `delete_extraneous_in_dir`: the names are those of the directory's children in the source.
unfoldable pub delete_extraneous_in_dir :
    List (List ℕ) → FilterRuleList → Bool → Bool → List ℕ → ℕ → Option (List DestEntry) → Deletion
unfolding delete_extraneous source_children
delete_extraneous_in_dir names filters dry_run delete_excluded dir_name =
    delete_extraneous (source_children dir_name names) filters dry_run delete_excluded
