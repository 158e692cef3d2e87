-- ===== src/Codec/Chmod/Parsed.antt =====
-- The rules that `parse` makes, and what they leave alone.
use ferrosync.Base.{
  ℕ, zero, suc, ◌+◌, ◌*◌, ◌/◌, ◌%◌, ◌<◌, ◌≤◌, ◌≡◌, ◌≢◌, ◌==◌, ap, ap₂, ◌∙◌, refl, subst, Bool, true,
  false, not, ◌&&◌, ◌||◌, if◌then◌else◌, Option, none, some, Option-cases, List, [], ◌∷◌, All,
  arith, Bool-cases, inl, inr, bit_and, bit_or,
}
use ferrosync.Codec.Format.{has_bit}
use ferrosync.Codec.Flags.Bits.{has_bit-zero}
use ferrosync.Codec.Chmod.{
  ChmodScope, all_types, only_files, only_dirs, ChmodOp, op_set, op_add, op_remove, ChmodRule,
  in_scope, exec_mask, apply_rule, apply_rules, apply, who_of, parse_who, default_who, parse_op,
  bits_of, parse_bits, make_rule, with_op, parse_after_who, parse_scoped, parse_rule, add_rule,
  parse_part, parse_parts, split_commas, parse, trim,
}
use ferrosync.Codec.Chmod.Effect.{
  Low, Low-of_lt, lt_of_Low, Within, Within-or, Within-and, Low-or, IsRule, bit_effect, asked,
  has_bit-apply_rule,
}

-- A value of a table satisfies what each of its entries does.
table_entry :
    (P : ℕ → Type 0) (b : Bool) (x : ℕ) (rest : Option ℕ)
    → P x
    → ((m : ℕ) → rest ≡ some m → P m)
    → (m : ℕ) → (if b then some x else rest) ≡ some m
    → P m
table_entry P true x rest p h m e = subst P (ap (λ o. elim o [ some y ↦ y | none ↦ x ]) e) p
table_entry P false x rest p h m e = h m e

table_end : (P : ℕ → Type 0) (m : ℕ) → none ≡ some m → P m
table_end P m e = absurd (ground arith)

sticky : (who : ℕ) → Within 0x200 who
sticky who zero ne w = refl
sticky who (suc zero) ne w = refl
sticky who (suc (suc zero)) ne w = refl
sticky who (suc (suc (suc zero))) ne w = refl
sticky who (suc (suc (suc (suc zero)))) ne w = refl
sticky who (suc (suc (suc (suc (suc zero))))) ne w = refl
sticky who (suc (suc (suc (suc (suc (suc zero)))))) ne w = refl
sticky who (suc (suc (suc (suc (suc (suc (suc zero))))))) ne w = refl
sticky who (suc (suc (suc (suc (suc (suc (suc (suc zero)))))))) ne w = refl
sticky who (suc (suc (suc (suc (suc (suc (suc (suc (suc zero))))))))) ne w = absurd (ne refl)
sticky who (suc (suc (suc (suc (suc (suc (suc (suc (suc (suc i)))))))))) ne w = has_bit-zero i

who_of-Low : (c m : ℕ) → who_of c ≡ some m → Low 12 m
who_of-Low c = table_entry (Low 12) (c == b'u') 0x9c0 _ (Low-of_lt 12 0x9c0 (omega arith)) (
    table_entry (Low 12) (c == b'g') 0x438 _ (Low-of_lt 12 0x438 (omega arith)) (
      table_entry (Low 12) (c == b'o') 0x207 _ (Low-of_lt 12 0x207 (omega arith)) (
        table_entry (Low 12) (c == b'a') 0xfff none (Low-of_lt 12 0xfff (omega arith))
          (table_end (Low 12)))))

bits_of-Within : (who c m : ℕ) → bits_of who c ≡ some m → Within m who
bits_of-Within who c =
    table_entry (λ m. Within m who) (c == b'r') _ _ (Within-and who 0x124)
      (table_entry (λ m. Within m who) (c == b'w') _ _ (Within-and who 0x92)
        (table_entry (λ m. Within m who) (c == b'x') _ _ (Within-and who 0x49)
          (table_entry (λ m. Within m who) (c == b's') _ _ (Within-and who 0xc00)
            (table_entry (λ m. Within m who) (c == b't') 0x200 none (sticky who)
              (table_end (λ m. Within m who))))))

parse_who-Low : (s : List ℕ) (mask : ℕ) → Low 12 mask → Low 12 (parse_who s mask).0
unfolding parse_who
parse_who-Low [] mask h = h
parse_who-Low (c ∷ s) mask h = elim (Option-cases (who_of c)) [
  | inl e ↦ rw (e, parse_who) h
  | inr (m, e) ↦
      rw (e, parse_who) (parse_who-Low s (bit_or mask m) (Low-or 12 mask m h (who_of-Low c m e)))
]

default_who-Low : (mask : ℕ) → Low 12 mask → Low 12 (default_who mask)
default_who-Low mask h = elim (Bool-cases (mask == 0)) [
  | inl e ↦ rw e (Low-of_lt 12 0xfff (omega arith))
  | inr e ↦ rw e h
]

-- `P` of a result, if there is one.
abbrev OnSome : {A : Type 0} → (A → Type 0) → Option A → Type 0
OnSome P none = Unit
OnSome P (some a) = P a

parse_bits-Within :
    (s : List ℕ) (who bits : ℕ) (cond : Bool)
    → Within bits who
    → OnSome (λ (r : ℕ × Bool). Within r.0 who) (parse_bits s who bits cond)
unfolding parse_bits
parse_bits-Within [] who bits cond h = h
parse_bits-Within (c ∷ s) who bits cond h = elim (Bool-cases (c == b'X')) [
  | inl x ↦ rw (x, parse_bits) (parse_bits-Within s who bits true h)
  | inr x ↦ elim (Option-cases (bits_of who c)) [
    | inl e ↦ rw (x, parse_bits, e) tt
    | inr (m, e) ↦
        rw (x, parse_bits, e)
          (parse_bits-Within s who (bit_or bits m) cond
            (Within-or bits m who h (bits_of-Within who c m e)))
  ]
]

make_rule-IsRule :
    (scope : ChmodScope) (op : ChmodOp) (who : ℕ) (r : Option (ℕ × Bool))
    → Low 12 who
    → OnSome (λ (r : ℕ × Bool). Within r.0 who) r
    → OnSome IsRule (make_rule scope op who r)
make_rule-IsRule scope op who none l h = tt
make_rule-IsRule scope op who (some (bits, cond)) l h = record { who_low = l; bits_within = h }

with_op-IsRule :
    (scope : ChmodScope) (who : ℕ) (s : List ℕ) (op : Option ChmodOp)
    → Low 12 who
    → OnSome IsRule (with_op scope who s op)
with_op-IsRule scope who s none l = tt
with_op-IsRule scope who s (some op) l =
    make_rule-IsRule scope op who (parse_bits s who 0 false) l
      (parse_bits-Within s who 0 false (λ i ne w. has_bit-zero i))

parse_after_who-IsRule :
    (scope : ChmodScope) (r : ℕ × List ℕ) → Low 12 r.0 → OnSome IsRule (parse_after_who scope r)
parse_after_who-IsRule scope (mask, []) l = tt
parse_after_who-IsRule scope (mask, c ∷ s) l =
    with_op-IsRule scope (default_who mask) s (parse_op c) (default_who-Low mask l)

parse_scoped-IsRule : (scope : ChmodScope) (s : List ℕ) → OnSome IsRule (parse_scoped scope s)
parse_scoped-IsRule scope s =
    parse_after_who-IsRule scope (parse_who s 0) (parse_who-Low s 0 (λ i le. has_bit-zero i))

parse_rule-IsRule : (s : List ℕ) → OnSome IsRule (parse_rule s)
unfolding parse_rule
parse_rule-IsRule [] = parse_scoped-IsRule all_types []
parse_rule-IsRule (c ∷ s) = elim (Bool-cases (c == b'D')) [
  | inl d ↦ rw d (parse_scoped-IsRule only_dirs s)
  | inr d ↦ elim (Bool-cases (c == b'F')) [
    | inl f ↦ rw (d, f) (parse_scoped-IsRule only_files s)
    | inr f ↦ rw (d, f) (parse_scoped-IsRule all_types (c ∷ s))
  ]
]

add_rule-AreRules :
    (rule : Option ChmodRule) (rules : Option (List ChmodRule))
    → OnSome IsRule rule
    → OnSome (All IsRule) rules
    → OnSome (All IsRule) (add_rule rule rules)
add_rule-AreRules none rules h k = tt
add_rule-AreRules (some rule) none h k = tt
add_rule-AreRules (some rule) (some rules) h k = (h, k)

parse_part-AreRules :
    (part : List ℕ) (rules : Option (List ChmodRule))
    → OnSome (All IsRule) rules
    → OnSome (All IsRule) (parse_part part rules)
parse_part-AreRules [] rules k = k
parse_part-AreRules (c ∷ s) rules k =
    add_rule-AreRules (parse_rule (c ∷ s)) rules (parse_rule-IsRule (c ∷ s)) k

parse_parts-AreRules : (parts : List (List ℕ)) → OnSome (All IsRule) (parse_parts parts)
unfolding parse_parts
parse_parts-AreRules [] = tt
parse_parts-AreRules (part ∷ parts) =
    parse_part-AreRules (trim part) (parse_parts parts) (parse_parts-AreRules parts)

parse-AreRules :
    (text : List ℕ) (rules : List ChmodRule) → parse text ≡ some rules → All IsRule rules
unfolding parse
parse-AreRules text rules e = rw e at (parse_parts-AreRules (split_commas text []))

untouched : (op : ChmodOp) (b : Bool) → bit_effect op false false b ≡ b
untouched op_add true = refl
untouched op_add false = refl
untouched op_remove true = refl
untouched op_remove false = refl
untouched op_set true = refl
untouched op_set false = refl

not_asked : (a c d : Bool) → a ≡ false → (a || (c && (false && d))) ≡ false
not_asked true c d h = h
not_asked false true d h = refl
not_asked false false d h = refl

same_if : (s e b : Bool) → e ≡ b → (if s then e else b) ≡ b
same_if true e b h = h
same_if false e b h = refl

-- A rule leaves a bit that is not its who's alone, but for the sticky bit.
rule_keeps :
    (rule : ChmodRule) (is_dir : Bool) (perms i : ℕ)
    → IsRule rule
    → i ≢ 9
    → has_bit i rule.who_mask ≡ false
    → has_bit i (apply_rule rule is_dir perms) ≡ has_bit i perms
rule_keeps rule is_dir perms i r ne w =
    has_bit-apply_rule rule is_dir perms i
    ∙ ap₂
        (λ v x.
          if in_scope rule.scope is_dir
          then bit_effect rule.op v x (has_bit i perms)
          else has_bit i perms)
        w nothing
    ∙ same_if (in_scope rule.scope is_dir) _ _ (untouched rule.op (has_bit i perms))
  where
    nothing : asked rule is_dir perms i ≡ false
    nothing =
        ap
          (λ v.
            has_bit i rule.bits
            || ((rule.conditional_exec && (is_dir || not (bit_and perms exec_mask == 0)))
                && (v && has_bit i exec_mask)))
          w
        ∙ not_asked (has_bit i rule.bits) _ (has_bit i exec_mask) (r.bits_within i ne w)

rules_keep :
    (rules : List ChmodRule) (is_dir : Bool) (perms i : ℕ)
    → All IsRule rules
    → i ≢ 9
    → All (λ (r : ChmodRule). has_bit i r.who_mask ≡ false) rules
    → has_bit i (apply_rules rules is_dir perms) ≡ has_bit i perms
unfolding apply_rules
rules_keep [] is_dir perms i r ne w = refl
rules_keep (rule ∷ rules) is_dir perms i r ne w =
    rules_keep rules is_dir (apply_rule rule is_dir perms) i r.1 ne w.1
    ∙ rule_keeps rule is_dir perms i r.0 ne w.0

-- No rule sets a bit above the twelve.
rules-Low :
    (rules : List ChmodRule) (is_dir : Bool) (perms : ℕ)
    → All IsRule rules
    → Low 12 perms
    → Low 12 (apply_rules rules is_dir perms)
rules-Low rules is_dir perms r l i le =
    rules_keep rules is_dir perms i r (λ e. not_nine i le e) (all_low rules r) ∙ l i le
  where
    not_nine : (i : ℕ) → 12 ≤ i → i ≢ 9
    not_nine i le e = omega arith

    all_low :
        (rules : List ChmodRule)
        → All IsRule rules
        → All (λ (r : ChmodRule). has_bit i r.who_mask ≡ false) rules
    all_low [] r = tt
    all_low (rule ∷ rules) r = (r.0.who_low i le, all_low rules r.1)

parsed_low :
    (text : List ℕ) (rules : List ChmodRule) (mode : ℕ) (is_dir : Bool)
    → parse text ≡ some rules
    → apply_rules rules is_dir (mode % 4096) < 4096
parsed_low text rules mode is_dir e = lt_of_Low 12 _ (
    rules-Low rules is_dir (mode % 4096) (parse-AreRules text rules e)
      (Low-of_lt 12 (mode % 4096) (omega arith)))

-- The rules of a text that parses keep the file type of a mode.
pub apply-file_type :
    (text : List ℕ) (rules : List ChmodRule) (mode : ℕ) (is_dir : Bool)
    → parse text ≡ some rules
    → apply rules mode is_dir / 4096 ≡ mode / 4096
unfolding apply
apply-file_type text rules mode is_dir e = omega (arith, parsed_low text rules mode is_dir e)

-- The rules of a text that parses keep every permission bit, but the sticky one, that is in no
-- rule's who.
pub apply-other_bits :
    (text : List ℕ) (rules : List ChmodRule) (mode : ℕ) (is_dir : Bool) (i : ℕ)
    → parse text ≡ some rules
    → i ≢ 9
    → All (λ (r : ChmodRule). has_bit i r.who_mask ≡ false) rules
    → has_bit i (apply rules mode is_dir % 4096) ≡ has_bit i (mode % 4096)
unfolding apply
apply-other_bits text rules mode is_dir i e ne w =
    let low : (mode / 4096 * 4096 + apply_rules rules is_dir (mode % 4096)) % 4096
        ≡ apply_rules rules is_dir (mode % 4096) =
      omega (arith, parsed_low text rules mode is_dir e) in
    ap (has_bit i) low ∙ rules_keep rules is_dir (mode % 4096) i (parse-AreRules text rules e) ne w
