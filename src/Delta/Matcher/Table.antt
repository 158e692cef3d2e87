-- ===== src/Delta/Matcher/Table.antt =====
-- The candidates of the hash table of `match_blocks`.
use ferrosync.Base.{
  ℕ, suc, ◌+◌, ◌≡◌, refl, ap, sym, ◌∙◌, List, [], ◌∷◌, Option, some, true, ◌==◌, ==_iff, All,
  All-append, get_elem?, arith, Bool-cases, inl, inr, if_true, if_false,
}
use mathlib.Core.Option.{some-injective}
use ferrosync.Delta.Sum.{SumEntry}
use ferrosync.Delta.Matcher.{
  Table, push_index, fill_table, build_hash_table, same_bytes, entry_matches, find_match,
}

-- The index of an entry whose rolling checksum is `key`.
abbrev pub IsCandidate : List SumEntry → ℕ → ℕ → Type 0
IsCandidate sums key i = (entry : SumEntry) × (get_elem? sums i ≡ some entry) × (entry.sum1 ≡ key)

push_index-IsCandidate :
    (all : List SumEntry) (table : Table) (e : SumEntry) (i : ℕ)
    → ((k : ℕ) → All (IsCandidate all k) (table k))
    → get_elem? all i ≡ some e
    → (k : ℕ) → All (IsCandidate all k) (push_index table e.sum1 i k)
push_index-IsCandidate all table e i h at k = elim (Bool-cases (k == e.sum1)) [
  | inl same ↦ rw (same) (
      All-append (IsCandidate all k) (table k) (i ∷ []) (h k)
        ((e, at, sym ((==_iff k e.sum1).0 same)), tt))
  | inr other ↦ rw (other) (h k)
]

fill_table-IsCandidate :
    (all : List SumEntry) (table : Table) (i : ℕ) (entries : List SumEntry)
    → ((j : ℕ) → get_elem? entries j ≡ get_elem? all (j + i))
    → ((k : ℕ) → All (IsCandidate all k) (table k))
    → (k : ℕ) → All (IsCandidate all k) (fill_table table i entries k)
unfolding fill_table
fill_table-IsCandidate all table i [] same h k = h k
fill_table-IsCandidate all table i (e ∷ es) same h k =
    fill_table-IsCandidate all (push_index table e.sum1 i) (suc i) es
      (λ j. same (suc j) ∙ ap (λ (n : ℕ). get_elem? all n) (omega arith))
      (push_index-IsCandidate all table e i h
        (ap (λ (n : ℕ). get_elem? all n) (omega arith) ∙ sym (same 0)))
      k

-- Each candidate that the table has for a digest is the index of an entry whose rolling checksum
-- is that digest.
pub build_hash_table-IsCandidate :
    (sums : List SumEntry) (k : ℕ) → All (IsCandidate sums k) (build_hash_table sums k)
unfolding build_hash_table
build_hash_table-IsCandidate sums k =
    fill_table-IsCandidate sums (λ k. []) 0 sums
      (λ j. ap (λ (n : ℕ). get_elem? sums n) (omega arith)) (λ k. tt) k

pub same_bytes→≡ : (xs ys : List ℕ) → same_bytes xs ys ≡ true → xs ≡ ys
same_bytes→≡ [] [] h = refl
same_bytes→≡ [] (y ∷ ys) h = ground arith
same_bytes→≡ (x ∷ xs) [] h = ground arith
same_bytes→≡ (x ∷ xs) (y ∷ ys) h = ground (arith, same_bytes→≡ xs ys)

entry_matches_sound :
    (strong : List ℕ) (found : Option SumEntry) (entry : SumEntry)
    → found ≡ some entry
    → entry_matches strong found ≡ true
    → entry.sum2 ≡ strong
entry_matches_sound strong found entry at h =
    same_bytes→≡ entry.sum2 strong (ap (entry_matches strong) (sym at) ∙ h)

-- The match is one of the candidates, and its entry has the strong checksum.
pub find_match_sound :
    (sums : List SumEntry) (key : ℕ) (strong candidates : List ℕ) (i : ℕ)
    → All (IsCandidate sums key) candidates
    → find_match sums strong candidates ≡ some i
    → (entry : SumEntry) × (get_elem? sums i ≡ some entry)
      × (entry.sum1 ≡ key)
      × (entry.sum2 ≡ strong)
unfolding find_match
find_match_sound sums key strong [] i h found = ground arith
find_match_sound sums key strong (c ∷ cs) i ((entry, at, key_of), others) found =
    elim (Bool-cases (entry_matches strong (get_elem? sums c))) [
      | inl same ↦ (
        entry,
        ap (get_elem? sums) (sym (some-injective _ _ (sym (if_true _ _ same) ∙ found))) ∙ at,
        key_of,
        entry_matches_sound strong (get_elem? sums c) entry at same,
      )
      | inr other ↦ find_match_sound sums key strong cs i others (sym (if_false _ _ other) ∙ found)
    ]
