-- ===== src/Codec/Fields/Owners.antt =====
-- An owner of an entry, with the number and the name: what the receiver gets when the sender leaves
-- them out or sends them.
use ferrosync.Base.{
  ℕ, ◌<◌, ◌^◌, ◌==◌, ==_iff, ◌≡◌, ap, ◌∙◌, refl, sym, Bool, true, false, not, ◌&&◌, ◌||◌,
  if◌then◌else◌, List, [], ◌∷◌, length, arith,
}
use ferrosync.Wire.Stream.{ok, pure, Reads, Reads-unless}
use ferrosync.Wire.Varlong.{IntCodec, fixed, compact}
use ferrosync.Delta.Matcher.{same_bytes}
use ferrosync.Delta.Matcher.Table.{same_bytes→≡}
use ferrosync.Codec.Flags.{is_empty, same_owner, name_follows}
use ferrosync.Codec.Fields.{read_owner, write_owner}
use ferrosync.Codec.Fields.Scalars.{Reads-owner}

abbrev pub received_id : Bool → ℕ → ℕ → ℕ
received_id preserved id prev_id = if preserved then id else prev_id

-- A name arrives if names are sent and there is one; without one the previous name stays.
abbrev pub received_name : Bool → Bool → List ℕ → List ℕ → List ℕ
received_name preserved inline name prev_name =
    if preserved && (inline && not (is_empty name)) then name else prev_name

-- The sender's previous owner `pid`, `pname` against the receiver's `did`, `dname`.
abbrev pub SameOwner : Bool → Bool → ℕ → List ℕ → ℕ → List ℕ → Type 0
SameOwner preserved inline pid pname did dname =
    (preserved ≡ true → pid ≡ did)
    × (preserved ≡ true → inline ≡ true → is_empty pname ≡ false → pname ≡ dname)

stays :
    (inline : Bool) (name dname : List ℕ)
    → (inline ≡ true → is_empty name ≡ false → name ≡ dname)
    → dname ≡ (if inline && not (is_empty name) then name else dname)
stays false name dname h = refl
stays true [] dname h = refl
stays true (x ∷ name) dname h = sym (h refl refl)

-- A name that is not sent because it is the previous one changes nothing.
chosen :
    (same inline repeated : Bool) (name dname : List ℕ)
    → same ≡ false
    → (repeated ≡ true → inline ≡ true → is_empty name ≡ false → name ≡ dname)
    → (if not same && (inline && (not (is_empty name) && not repeated)) then name else dname)
      ≡ (if inline && not (is_empty name) then name else dname)
chosen true inline repeated name dname n h = ground arith
chosen false false repeated name dname n h = refl
chosen false true repeated [] dname n h = refl
chosen false true false (x ∷ name) dname n h = refl
chosen false true true (x ∷ name) dname n h = sym (h refl refl refl)

both : (a b : Bool) → (a && b) ≡ true → (a ≡ true) × (b ≡ true)
both true true h = (refl, refl)
both true false h = ground arith
both false b h = ground arith

module _ (inline has_prev : Bool) (id pid did : ℕ) (name pname dname : List ℕ)
    (same : SameOwner true inline pid pname did dname)
    (table : has_prev ≡ true → id ≡ pid → name ≡ pname) where
  -- Left out.
  kept :
      same_owner true id pid has_prev ≡ true
      → ◌≡◌ {A = ℕ × List ℕ}
          (did, dname)
          (received_id true id did, received_name true inline name dname)
  kept e =
      let b = both (id == pid) has_prev e in
      let equal : id ≡ pid = (==_iff id pid).0 b.0 in
      let named : name ≡ pname = table b.1 equal in
      λ i. (
        (sym (same.0 refl) ∙ sym equal) i,
        stays inline name dname (λ k n. named ∙ same.1 refl k (sym (ap is_empty named) ∙ n)) i,
      )

  -- Sent.
  new_name :
      same_owner true id pid has_prev ≡ false
      → (if name_follows true (same_owner true id pid has_prev) inline name pname
          then name
          else dname)
        ≡ received_name true inline name dname
  new_name e =
      chosen (same_owner true id pid has_prev) inline (same_bytes name pname) name dname e (λ r k n.
        let named : name ≡ pname = same_bytes→≡ name pname r in
        named ∙ same.1 refl k (sym (ap is_empty named) ∙ n))

inline_only :
    (codec : IntCodec) (inline same : Bool) (name pname : List ℕ)
    → (inline ≡ true → codec ≡ compact)
    → codec ≡ fixed
    → name_follows true same inline name pname ≡ false
inline_only fixed true same name pname h k = ground (arith, h refl)
inline_only compact true same name pname h k = ground arith
inline_only codec false true name pname h k = refl
inline_only codec false false name pname h k = refl

-- An owner is read back: the number if owners are kept, and the name as `received_name` says.
pub Reads-owner_field :
    (preserved inline has_prev : Bool) (codec : IntCodec) (id pid did : ℕ)
    (name pname dname : List ℕ)
    → (inline ≡ true → codec ≡ compact)
    → SameOwner preserved inline pid pname did dname
    → (has_prev ≡ true → id ≡ pid → name ≡ pname)
    → id < 2 ^ 32
    → length name < 256
    → Reads
        (if not preserved || same_owner preserved id pid has_prev
          then pure (did, dname)
          else read_owner codec dname
              (name_follows preserved (same_owner preserved id pid has_prev) inline name pname))
        (if not preserved || same_owner preserved id pid has_prev
          then []
          else write_owner codec id name
              (name_follows preserved (same_owner preserved id pid has_prev) inline name pname))
        (received_id preserved id did, received_name preserved inline name dname)
Reads-owner_field false inline has_prev codec id pid did name pname dname wire same table h k rest =
    refl
Reads-owner_field true inline has_prev codec id pid did name pname dname wire same table h k rest =
    let s : Bool = same_owner true id pid has_prev in
    let f : Bool = name_follows true s inline name pname in
    Reads-unless s (did, dname) (read_owner codec dname f) (write_owner codec id name f)
      (received_id true id did, received_name true inline name dname)
      (kept inline has_prev id pid did name pname dname same table)
      (λ e r.
        Reads-owner codec id dname name f h k (inline_only codec inline s name pname wire) r
        ∙ ap (λ n. ok ((id, n), r))
            (new_name inline has_prev id pid did name pname dname same table e))
      rest
