-- ===== src/Codec/Chmod.antt =====
-- The permission rules of `--chmod`, crates/ferrosync-codec/src/chmod.rs. A text is its list of bytes
-- and `trim` knows the ASCII white space; what an error says is left out.
pub mod Bits
pub mod Effect
pub mod Parsed
use ferrosync.Base.{
  ℕ, ◌+◌, ◌*◌, ◌-◌, ◌/◌, ◌%◌, ◌==◌, leb, Bool, true, false, not, ◌&&◌, ◌||◌, if◌then◌else◌, Option,
  none, some, List, [], ◌∷◌, bit_and, bit_or,
}
use Prim.Native.Nat.{bitwise}
use ferrosync.Base.Bytes.{is_space, reverse_onto}

pub data ChmodScope : Type 0 where
  all_types only_files only_dirs : ChmodScope

pub data ChmodOp : Type 0 where
  op_set op_add op_remove : ChmodOp

pub record ChmodRule : Type 0 where
  pub scope : ChmodScope
  pub op : ChmodOp
  pub who_mask : ℕ
  pub bits : ℕ
  pub conditional_exec : Bool

-- `a & !b`
abbrev pub and_not : ℕ → ℕ → ℕ
and_not a b = bitwise (λ y. 0) (λ x y. x - y) a b

abbrev pub in_scope : ChmodScope → Bool → Bool
in_scope all_types is_dir = true
in_scope only_files is_dir = not is_dir
in_scope only_dirs is_dir = is_dir

-- The execute bits, 0o111.
abbrev pub exec_mask : ℕ
exec_mask = 0x49

abbrev pub rule_bits : ChmodRule → Bool → ℕ → ℕ
rule_bits rule is_dir perms =
    if rule.conditional_exec && (is_dir || not (bit_and perms exec_mask == 0))
    then bit_or rule.bits (bit_and rule.who_mask exec_mask)
    else rule.bits

abbrev pub apply_op : ChmodOp → ℕ → ℕ → ℕ → ℕ
apply_op op_add who bits perms = bit_or perms bits
apply_op op_remove who bits perms = and_not perms bits
apply_op op_set who bits perms = bit_or (and_not perms who) bits

unfoldable pub apply_rule : ChmodRule → Bool → ℕ → ℕ
apply_rule rule is_dir perms =
    if in_scope rule.scope is_dir
    then apply_op rule.op rule.who_mask (rule_bits rule is_dir perms) perms
    else perms

unfoldable pub apply_rules : List ChmodRule → Bool → ℕ → ℕ
apply_rules [] is_dir perms = perms
apply_rules (rule ∷ rules) is_dir perms = apply_rules rules is_dir (apply_rule rule is_dir perms)

-- `(mode & !0o7777) | perms`, where the file type is above the 12 bits of `perms`.
unfoldable pub apply : List ChmodRule → ℕ → Bool → ℕ
apply rules mode is_dir = mode / 4096 * 4096 + apply_rules rules is_dir (mode % 4096)

-- The masks of who: 0o4700, 0o2070, 0o1007 and 0o7777.
abbrev pub who_of : ℕ → Option ℕ
who_of c =
    if c == b'u'
    then some 0x9c0
    else (if c == b'g'
        then some 0x438
        else (if c == b'o' then some 0x207 else (if c == b'a' then some 0xfff else none)))

-- The letters of who, and what is left behind them.
unfoldable pub parse_who : List ℕ → ℕ → ℕ × List ℕ
parse_who [] mask = (mask, [])
parse_who (c ∷ s) mask = elim (who_of c) [
  | some m ↦ parse_who s (bit_or mask m)
  | none ↦ (mask, c ∷ s)
]

abbrev pub default_who : ℕ → ℕ
default_who mask = if mask == 0 then 0xfff else mask

abbrev pub parse_op : ℕ → Option ChmodOp
parse_op c =
    if c == b'+'
    then some op_add
    else (if c == b'-' then some op_remove else (if c == b'=' then some op_set else none))

-- What a letter adds: the bits 0o444, 0o222, 0o111, 0o6000 of who, or the sticky bit 0o1000.
abbrev pub bits_of : ℕ → ℕ → Option ℕ
bits_of who c =
    if c == b'r'
    then some (bit_and who 0x124)
    else (if c == b'w'
        then some (bit_and who 0x92)
        else (if c == b'x'
            then some (bit_and who 0x49)
            else (if c == b's'
                then some (bit_and who 0xc00)
                else (if c == b't' then some 0x200 else none))))

unfoldable pub parse_bits : List ℕ → ℕ → ℕ → Bool → Option (ℕ × Bool)
parse_bits [] who bits cond = some (bits, cond)
parse_bits (c ∷ s) who bits cond = elim (c == b'X') [
  | true ↦ parse_bits s who bits true
  | false ↦ elim (bits_of who c) [ some m ↦ parse_bits s who (bit_or bits m) cond | none ↦ none ]
]

abbrev pub make_rule : ChmodScope → ChmodOp → ℕ → Option (ℕ × Bool) → Option ChmodRule
make_rule scope op who none = none
make_rule scope op who (some (bits, cond)) =
    some (record { scope = scope; op = op; who_mask = who; bits = bits; conditional_exec = cond })

abbrev pub with_op : ChmodScope → ℕ → List ℕ → Option ChmodOp → Option ChmodRule
with_op scope who s none = none
with_op scope who s (some op) = make_rule scope op who (parse_bits s who 0 false)

abbrev pub parse_after_who : ChmodScope → ℕ × List ℕ → Option ChmodRule
parse_after_who scope (mask, []) = none
parse_after_who scope (mask, c ∷ s) = with_op scope (default_who mask) s (parse_op c)

abbrev pub parse_scoped : ChmodScope → List ℕ → Option ChmodRule
parse_scoped scope s = parse_after_who scope (parse_who s 0)

unfoldable pub parse_rule : List ℕ → Option ChmodRule
parse_rule [] = parse_scoped all_types []
parse_rule (c ∷ s) =
    if c == b'D'
    then parse_scoped only_dirs s
    else (if c == b'F' then parse_scoped only_files s else parse_scoped all_types (c ∷ s))

-- `split(',')`, from the part that is being read, in reverse.
unfoldable pub split_commas : List ℕ → List ℕ → List (List ℕ)
split_commas [] part = reverse_onto part [] ∷ []
split_commas (c ∷ s) part = elim (c == b',') [
  | true ↦ reverse_onto part [] ∷ split_commas s []
  | false ↦ split_commas s (c ∷ part)
]

abbrev pub trim_start : List ℕ → List ℕ
trim_start [] = []
trim_start (c ∷ s) = let rest = trim_start s in if is_space c then rest else c ∷ s

abbrev pub trim : List ℕ → List ℕ
trim s = reverse_onto (trim_start (reverse_onto (trim_start s) [])) []

abbrev pub add_rule : Option ChmodRule → Option (List ChmodRule) → Option (List ChmodRule)
add_rule none rules = none
add_rule (some rule) none = none
add_rule (some rule) (some rules) = some (rule ∷ rules)

abbrev pub parse_part : List ℕ → Option (List ChmodRule) → Option (List ChmodRule)
parse_part [] rules = rules
parse_part (c ∷ s) rules = add_rule (parse_rule (c ∷ s)) rules

unfoldable pub parse_parts : List (List ℕ) → Option (List ChmodRule)
parse_parts [] = some []
parse_parts (part ∷ parts) = parse_part (trim part) (parse_parts parts)

unfoldable pub parse : List ℕ → Option (List ChmodRule)
parse s = parse_parts (split_commas s [])
