-- ===== src/Codec/Chmod/Effect.antt =====
-- What the rules of a text do to a mode.
use ferrosync.Base.{
  ℕ, zero, suc, ◌/◌, ◌%◌, ◌^◌, ◌<◌, ◌≤◌, ◌≡◌, ◌≢◌, ◌==◌, ap, ap₂, ◌∙◌, refl, sym, Bool, true, false,
  not, ◌&&◌, ◌||◌, if◌then◌else◌, arith, Bool-cases, inl, inr, bit_and, bit_or,
}
use native.Mathlib.Nat.{pow-suc}
use ferrosync.Codec.Format.{has_bit}
use ferrosync.Codec.Flags.Bits.{has_bit-zero}
use ferrosync.Codec.Chmod.{
  ChmodOp, op_set, op_add, op_remove, ChmodRule, and_not, in_scope, exec_mask, rule_bits, apply_op,
  apply_rule,
}
use ferrosync.Codec.Chmod.Bits.{has_bit-or, has_bit-and, has_bit-and_not}

-- The bits of `a` from `k` on are clear.
abbrev pub Low : ℕ → ℕ → Type 0
Low k a = (i : ℕ) → k ≤ i → has_bit i a ≡ false

pub Low-of_lt : (k a : ℕ) → a < 2 ^ k → Low k a
Low-of_lt zero a h i le = let z : a ≡ 0 = omega arith in ap (has_bit i) z ∙ has_bit-zero i
Low-of_lt (suc k) a h zero le = absurd (omega arith)
Low-of_lt (suc k) a h (suc i) le = Low-of_lt k (a / 2) (omega (arith, pow-suc 2 k)) i (omega arith)

zero_of_Low : (fuel a : ℕ) → a ≤ fuel → Low 0 a → a ≡ 0
zero_of_Low zero a h l = omega arith
zero_of_Low (suc fuel) zero h l = refl
zero_of_Low (suc fuel) (suc a) h l =
    let half : suc a / 2 ≡ 0 =
      zero_of_Low fuel (suc a / 2) (omega arith) (λ i le. l (suc i) (omega arith)) in
    let even : (suc a % 2 == 1) ≡ false = l 0 (omega arith) in odd a half even
  where
    odd : (a : ℕ) → suc a / 2 ≡ 0 → (suc a % 2 == 1) ≡ false → suc a ≡ 0
    odd a h k = ground arith

pub lt_of_Low : (k a : ℕ) → Low k a → a < 2 ^ k
lt_of_Low zero a l = omega (arith, zero_of_Low a a (omega arith) l)
lt_of_Low (suc k) a l =
    omega (arith, pow-suc 2 k, lt_of_Low k (a / 2) (λ i le. l (suc i) (omega arith)))

-- What an operation makes of one bit of the mode: `w` is whether who has it, `x` whether it is asked for.
abbrev pub bit_effect : ChmodOp → Bool → Bool → Bool → Bool
bit_effect op_add w x b = b || x
bit_effect op_remove w x b = b && not x
bit_effect op_set w x b = (b && not w) || x

-- Whether bit `i` is asked for: by a letter, or by `X` where something is executable already.
abbrev pub asked : ChmodRule → Bool → ℕ → ℕ → Bool
asked rule is_dir perms i =
    has_bit i rule.bits
    || ((rule.conditional_exec && (is_dir || not (bit_and perms exec_mask == 0)))
        && (has_bit i rule.who_mask && has_bit i exec_mask))

has_bit-rule_bits :
    (rule : ChmodRule) (is_dir : Bool) (perms i : ℕ)
    → has_bit i (rule_bits rule is_dir perms) ≡ asked rule is_dir perms i
has_bit-rule_bits rule is_dir perms i =
    elim (Bool-cases (rule.conditional_exec && (is_dir || not (bit_and perms exec_mask == 0)))) [
      | inl e ↦ rw e (
          has_bit-or rule.bits (bit_and rule.who_mask exec_mask) i
          ∙ ap (λ x. has_bit i rule.bits || x) (has_bit-and rule.who_mask exec_mask i))
      | inr e ↦ rw e (sym (or_false (has_bit i rule.bits)))
    ]
  where
    or_false : (b : Bool) → (b || false) ≡ b
    or_false true = refl
    or_false false = refl

has_bit-apply_op :
    (op : ChmodOp) (who bits perms i : ℕ)
    → has_bit i (apply_op op who bits perms)
      ≡ bit_effect op (has_bit i who) (has_bit i bits) (has_bit i perms)
has_bit-apply_op op_add who bits perms i = has_bit-or perms bits i
has_bit-apply_op op_remove who bits perms i = has_bit-and_not perms bits i
has_bit-apply_op op_set who bits perms i =
    has_bit-or (and_not perms who) bits i
    ∙ ap (λ x. x || has_bit i bits) (has_bit-and_not perms who i)

-- The effect of a rule bit by bit; `X` looks at all execute bits of the mode.
pub has_bit-apply_rule :
    (rule : ChmodRule) (is_dir : Bool) (perms i : ℕ)
    → has_bit i (apply_rule rule is_dir perms) ≡ (
        if in_scope rule.scope is_dir
        then bit_effect rule.op
            (has_bit i rule.who_mask)
            (asked rule is_dir perms i)
            (has_bit i perms)
        else has_bit i perms)
unfolding apply_rule
has_bit-apply_rule rule is_dir perms i = elim (Bool-cases (in_scope rule.scope is_dir)) [
  | inl e ↦ rw e (
      has_bit-apply_op rule.op rule.who_mask (rule_bits rule is_dir perms) perms i
      ∙ ap (λ x. bit_effect rule.op (has_bit i rule.who_mask) x (has_bit i perms))
          (has_bit-rule_bits rule is_dir perms i))
  | inr e ↦ rw e
]

-- A rule asks only for bits of its who and for the sticky bit, and who has 12 bits.
abbrev pub Within : ℕ → ℕ → Type 0
Within a who = (i : ℕ) → i ≢ 9 → has_bit i who ≡ false → has_bit i a ≡ false

pub record IsRule (rule : ChmodRule) : Type 0 where
  pub who_low : (i : ℕ) → 12 ≤ i → has_bit i rule.who_mask ≡ false
  pub bits_within : (i : ℕ) → i ≢ 9 → has_bit i rule.who_mask ≡ false → has_bit i rule.bits ≡ false

pub Within-or : (a b who : ℕ) → Within a who → Within b who → Within (bit_or a b) who
Within-or a b who h k i ne w = has_bit-or a b i ∙ ap₂ (λ x y. x || y) (h i ne w) (k i ne w)

pub Within-and : (who x : ℕ) → Within (bit_and who x) who
Within-and who x i ne w = has_bit-and who x i ∙ ap (λ y. y && has_bit i x) w

pub Low-or : (k a b : ℕ) → Low k a → Low k b → Low k (bit_or a b)
Low-or k a b h l i le = has_bit-or a b i ∙ ap₂ (λ x y. x || y) (h i le) (l i le)
