-- ===== src/Handshake/Negotiate.antt =====
-- The choice of an algorithm, `negotiate_algorithm` of crates/ferrosync-protocol/src/handshake.rs,
-- with `ChecksumType` and `CompressType` of crates/ferrosync-types/src/protocol.rs. Texts are bytes,
-- and `split_whitespace` knows the ASCII white space.
use ferrosync.Base.{
  ℕ, ◌≡◌, ap, refl, Bool, true, false, ◌||◌, if◌then◌else◌, Option, none, some, List, [], ◌∷◌, ◌++◌,
  All, arith, Bool-cases, Option-cases, inl, inr, ◌⊎◌,
}
use ferrosync.Base.Bytes.{is_space, reverse_onto}
use ferrosync.Wire.Stream.{Result, ok, err, handshake}
use ferrosync.Delta.Matcher.{same_bytes}

-- The word that is being read, in reverse, and the words behind it.
abbrev pub add_word : List ℕ → List (List ℕ) → List (List ℕ)
add_word [] words = words
add_word (x ∷ xs) words = reverse_onto (x ∷ xs) [] ∷ words

unfoldable pub split_from : List ℕ → List ℕ → List (List ℕ)
split_from [] word = add_word word []
split_from (b ∷ bs) word = elim (is_space b) [
  | true ↦ add_word word (split_from bs [])
  | false ↦ split_from bs (b ∷ word)
]

abbrev pub split_whitespace : List ℕ → List (List ℕ)
split_whitespace text = split_from text []

unfoldable pub lists : List (List ℕ) → List ℕ → Bool
lists [] name = false
lists (r ∷ receiver) name = same_bytes r name || lists receiver name

module _ {T : Type 0} (parse : List ℕ → Option T) where
  -- What the loop makes of a name: the algorithm, if the receiver lists it and it is known.
  abbrev pub candidate : List (List ℕ) → List ℕ → Option T
  candidate receiver name = if lists receiver name then parse name else none

  unfoldable pub first_common : List (List ℕ) → List (List ℕ) → Result T
  first_common [] receiver = err handshake
  first_common (name ∷ sender) receiver = elim (candidate receiver name) [
    | some algo ↦ ok algo
    | none ↦ first_common sender receiver
  ]

  abbrev pub negotiate_algorithm : List ℕ → List ℕ → Result T
  negotiate_algorithm sender_list receiver_list =
      first_common (split_whitespace sender_list) (split_whitespace receiver_list)

  -- `algo` is the first choice: the names before it are no candidates.
  pub record IsFirst (sender receiver : List (List ℕ)) (algo : T) : Type 0 where
    pub before : List (List ℕ)
    pub name : List ℕ
    pub after : List (List ℕ)
    pub parts : sender ≡ before ++ (name ∷ after)
    pub passed_over : All (λ n. candidate receiver n ≡ none) before
    pub listed : lists receiver name ≡ true
    pub known : parse name ≡ some algo

  listed_candidate :
      (receiver : List (List ℕ)) (name : List ℕ) (algo : T)
      → candidate receiver name ≡ some algo
      → (lists receiver name ≡ true) × (parse name ≡ some algo)
  listed_candidate receiver name algo h = elim (Bool-cases (lists receiver name)) [
    | inl e ↦ (e, rw e at h)
    | inr e ↦ absurd (ground (arith, h, e))
  ]

  -- A choice is the first name of the sender's list that the receiver lists and that is known; there
  -- is an error exactly when no name of the sender's list is such.
  pub first_common-IsFirst :
      (sender receiver : List (List ℕ))
      → ((algo : T) × (first_common sender receiver ≡ ok algo) × IsFirst sender receiver algo)
        ⊎ ((first_common sender receiver ≡ err handshake)
            × All (λ n. candidate receiver n ≡ none) sender)
  unfolding first_common
  first_common-IsFirst [] receiver = inr (refl, tt)
  first_common-IsFirst (name ∷ sender) receiver = elim (Option-cases (candidate receiver name)) [
    | inl e ↦ later e (first_common-IsFirst sender receiver)
    | inr (algo, e) ↦
        let c = listed_candidate receiver name algo e in
        inl (
          algo,
          rw (e, first_common),
          record {
            before = [];
            name = name;
            after = sender;
            parts = refl;
            passed_over = tt;
            listed = c.0;
            known = c.1;
          },
        )
  ]
    where
      later :
          candidate receiver name ≡ none
          → ((algo : T) × (first_common sender receiver ≡ ok algo) × IsFirst sender receiver algo)
            ⊎ ((first_common sender receiver ≡ err handshake)
                × All (λ n. candidate receiver n ≡ none) sender)
          → ((algo : T) × (first_common (name ∷ sender) receiver ≡ ok algo)
              × IsFirst (name ∷ sender) receiver algo)
            ⊎ ((first_common (name ∷ sender) receiver ≡ err handshake)
                × All (λ n. candidate receiver n ≡ none) (name ∷ sender))
      later e (inr (f, all)) = inr (rw (e, first_common) f, (e, all))
      later e (inl (algo, f, i)) = inl (
        algo,
        rw (e, first_common) f,
        record {
          before = name ∷ i.before;
          name = i.name;
          after = i.after;
          parts = ap (λ l. name ∷ l) i.parts;
          passed_over = (e, i.passed_over);
          listed = i.listed;
          known = i.known;
        },
      )
