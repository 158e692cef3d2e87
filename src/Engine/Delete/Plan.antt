-- ===== src/Engine/Delete/Plan.antt =====
-- What is deleted is the extraneous entries in their order, as far as the budget goes.
use ferrosync.Base.{
  ℕ, zero, suc, ◌-◌, ◌≤◌, ◌<◌, ◌≡◌, refl, ap, sym, ◌∙◌, List, [], ◌∷◌, some, Bool, Bool-cases, inl,
  inr, true, false, ◌==◌, ==_iff, ◌&&◌, ◌||◌, not, if_true, if_false, if◌then◌else◌, length, take,
  arith,
}
use ferrosync.Filter.Rule.{FilterRuleList, is_included}
use ferrosync.Engine.Delete.{
  DestEntry, is_directory, contains_name, Deletion, unlimited, try_consume, is_kept, count_entry,
  consumed, delete_loop, delete_extraneous,
}

module _ (names : List (List ℕ)) (filters : FilterRuleList) (dry_run delete_excluded : Bool) where
  -- The source has no such name, and the filters do not keep it.
  abbrev pub is_extraneous : DestEntry → Bool
  is_extraneous entry =
      not (contains_name names entry.name)
      && (delete_excluded || is_included filters entry.name (is_directory entry))

  unfoldable pub extraneous : List DestEntry → List DestEntry
  extraneous [] = []
  extraneous (entry ∷ entries) =
      let rest = extraneous entries in if is_extraneous entry then entry ∷ rest else rest

  kept-false :
      (entry : DestEntry)
      → is_kept names filters dry_run delete_excluded entry ≡ true
      → is_extraneous entry ≡ false
  kept-false entry kept =
      negated (contains_name names entry.name) delete_excluded
        (is_included filters entry.name (is_directory entry)) kept
    where
      negated : (a b c : Bool) → (a || (not b && not c)) ≡ true → (not a && (b || c)) ≡ false
      negated a b c h = ground arith

  extra-true :
      (entry : DestEntry)
      → is_kept names filters dry_run delete_excluded entry ≡ false
      → is_extraneous entry ≡ true
  extra-true entry extra =
      negated (contains_name names entry.name) delete_excluded
        (is_included filters entry.name (is_directory entry)) extra
    where
      negated : (a b c : Bool) → (a || (not b && not c)) ≡ false → (not a && (b || c)) ≡ true
      negated a b c h = ground arith

  -- The entries that a budget allows, and the budget after them.
  abbrev pub allowed : ℕ → List DestEntry → List DestEntry
  allowed budget xs = if budget == unlimited then xs else take budget xs

  abbrev pub planned : ℕ → List DestEntry → Deletion
  planned left chosen = record {
    deleted = length chosen;
    removed = if dry_run then [] else chosen;
    budget = left;
  }

  count_entry-planned :
      (left : ℕ) (entry : DestEntry) (chosen : List DestEntry)
      → count_entry names filters dry_run delete_excluded entry (planned left chosen)
        ≡ planned left (entry ∷ chosen)
  count_entry-planned left entry chosen = elim (Bool-cases dry_run) [
    | inl dry ↦ rw (dry) refl
    | inr wet ↦ rw (wet) refl
  ]

  abbrev loop : ℕ → List DestEntry → Deletion
  loop budget entries = delete_loop names filters dry_run delete_excluded budget entries

  planned-nil : (left : ℕ) → planned left [] ≡ record { deleted = 0; removed = []; budget = left }
  planned-nil left = elim (Bool-cases dry_run) [ inl dry ↦ rw (dry) refl | inr wet ↦ rw (wet) refl ]

  abbrev after_kept : ℕ → DestEntry → List DestEntry → Bool → Deletion
  after_kept budget entry entries kept = elim kept [
    | true ↦ loop budget entries
    | false ↦
        consumed names filters dry_run delete_excluded (λ left. loop left entries) entry
          (try_consume budget)
  ]

  -- With a budget, or without one, one entry on.
  loop-entry :
      (budget : ℕ) (entry : DestEntry) (entries chosen : List DestEntry) (left : ℕ)
      → loop budget entries ≡ planned left chosen
      → is_kept names filters dry_run delete_excluded entry ≡ true
      → loop budget (entry ∷ entries) ≡ planned left chosen
  unfolding delete_loop
  loop-entry budget entry entries chosen left later kept =
      ap (after_kept budget entry entries) kept ∙ later

  loop-consumed :
      (budget left : ℕ) (entry : DestEntry) (entries chosen : List DestEntry) (last : ℕ)
      → try_consume budget ≡ (true, left)
      → loop left entries ≡ planned last chosen
      → is_kept names filters dry_run delete_excluded entry ≡ false
      → loop budget (entry ∷ entries) ≡ planned last (entry ∷ chosen)
  unfolding delete_loop
  loop-consumed budget left entry entries chosen last allowed later extra =
      ap (after_kept budget entry entries) extra
      ∙ ap (consumed names filters dry_run delete_excluded (λ left. loop left entries) entry)
          allowed
      ∙ ap (count_entry names filters dry_run delete_excluded entry) later
      ∙ count_entry-planned last entry chosen

  loop-unlimited :
      (entries : List DestEntry) → loop unlimited entries ≡ planned unlimited (extraneous entries)
  unfolding delete_loop extraneous try_consume
  loop-unlimited [] = sym (planned-nil unlimited)
  loop-unlimited (entry ∷ entries) =
      elim (Bool-cases (is_kept names filters dry_run delete_excluded entry)) [
        | inl kept ↦
            loop-entry unlimited entry entries _ unlimited (loop-unlimited entries) kept
            ∙ ap (planned unlimited) (sym (if_false _ _ (kept-false entry kept)))
        | inr extra ↦
            loop-consumed unlimited unlimited entry entries _ unlimited refl
              (loop-unlimited entries) extra
            ∙ ap (planned unlimited) (sym (if_true _ _ (extra-true entry extra)))
      ]

  abbrev limited : ℕ → List DestEntry → Deletion
  limited budget xs = planned (budget - length (take budget xs)) (take budget xs)

  limited-nil :
      (budget : ℕ) → limited budget [] ≡ record { deleted = 0; removed = []; budget = budget }
  limited-nil zero =
      planned-nil _ ∙ ap (λ (n : ℕ). record { deleted = 0; removed = []; budget = n }) (omega arith)
  limited-nil (suc n) =
      planned-nil _ ∙ ap (λ (n : ℕ). record { deleted = 0; removed = []; budget = n }) (omega arith)

  try_consume-suc : (n : ℕ) → suc n < unlimited → try_consume (suc n) ≡ (true, n)
  unfolding try_consume
  try_consume-suc n h =
      if_false _ _ (not_zero n)
      ∙ if_false _ _ (not_all n h)
      ∙ ap (λ (k : ℕ). (true, k)) (omega arith)
    where
      not_zero : (n : ℕ) → (suc n == 0) ≡ false
      not_zero n = ground arith

      not_all : (n : ℕ) → suc n < unlimited → (suc n == unlimited) ≡ false
      not_all n h = ground arith

  loop-limited :
      (budget : ℕ) (entries : List DestEntry)
      → budget < unlimited
      → loop budget entries ≡ limited budget (extraneous entries)
  unfolding delete_loop extraneous try_consume
  loop-limited budget [] h = sym (limited-nil budget)
  loop-limited zero (entry ∷ entries) h =
      elim (Bool-cases (is_kept names filters dry_run delete_excluded entry)) [
        | inl kept ↦
            loop-entry zero entry entries _ _ (loop-limited zero entries h) kept
            ∙ ap (limited zero) (
                sym (
                  if_false (entry ∷ extraneous entries) (extraneous entries)
                    (kept-false entry kept)))
        | inr extra ↦
            ap (after_kept zero entry entries) extra
            ∙ sym (planned-nil zero)
            ∙ ap (limited zero) (
                sym (
                  if_true (entry ∷ extraneous entries) (extraneous entries)
                    (extra-true entry extra)))
      ]
  loop-limited (suc n) (entry ∷ entries) h =
      elim (Bool-cases (is_kept names filters dry_run delete_excluded entry)) [
        | inl kept ↦
            loop-entry (suc n) entry entries _ _ (loop-limited (suc n) entries h) kept
            ∙ ap (limited (suc n)) (sym (if_false _ _ (kept-false entry kept)))
        | inr extra ↦
            loop-consumed (suc n) n entry entries (take n (extraneous entries)) _
              (try_consume-suc n h) (loop-limited n entries (omega arith)) extra
            ∙ ap (λ (k : ℕ). planned k (entry ∷ take n (extraneous entries))) (omega arith)
            ∙ ap (limited (suc n)) (sym (if_true _ _ (extra-true entry extra)))
      ]

  -- The entries that are deleted are those without a name in the source, and that the filters include
  -- unless excluded ones are deleted too, in the order of the listing and no more than the budget
  -- allows, for a budget of 64 bits. A dry run counts them and removes none. The budget goes down by
  -- their number, where it is not unlimited.
  pub delete_extraneous_plan :
      (budget : ℕ) (entries : List DestEntry)
      → budget ≤ unlimited
      → delete_extraneous names filters dry_run delete_excluded budget (some entries)
        ≡ planned
            (if budget == unlimited
              then budget
              else budget - length (allowed budget (extraneous entries)))
            (allowed budget (extraneous entries))
  unfolding delete_extraneous
  delete_extraneous_plan budget entries h = elim (Bool-cases (budget == unlimited)) [
    | inl whole ↦
        ap (λ (n : ℕ). loop n entries) ((==_iff budget unlimited).0 whole)
        ∙ loop-unlimited entries
        ∙ ap (λ (n : ℕ). planned n (extraneous entries)) (sym ((==_iff budget unlimited).0 whole))
        ∙ ap
            (λ b.
              planned
                (if b
                  then budget
                  else budget
                    - length (if b then extraneous entries else take budget (extraneous entries)))
                (if b then extraneous entries else take budget (extraneous entries)))
            (sym whole)
    | inr part ↦
        loop-limited budget entries (smaller part)
        ∙ ap
            (λ b.
              planned
                (if b
                  then budget
                  else budget
                    - length (if b then extraneous entries else take budget (extraneous entries)))
                (if b then extraneous entries else take budget (extraneous entries)))
            (sym part)
  ]
    where
      smaller : (budget == unlimited) ≡ false → budget < unlimited
      smaller part = ground arith
