-- ===== src/Codec/EntryCodec/Agree.antt =====
-- The flag word that arrives against the one that was computed: every field that a format has finds
-- the same flag on both sides.
use ferrosync.Base.{
  ℕ, ◌==◌, ◌≡◌, ◌≢◌, ap, ◌∙◌, refl, sym, Bool, true, false, not, ◌&&◌, List, arith, Bool-cases, inl,
  inr, ap₂,
}
use ferrosync.Base.Int.{ℤ}
use ferrosync.Wire.Varlong.{compact}
use ferrosync.Codec.Format.{
  has_bit, FlagsCodec, byte, byte_extended, varint, DeviceCodec, single_int, major_minor,
  WireFormat, FileListOptions,
}
use ferrosync.Codec.Entry.{FileEntry, DeltaState, should_send_rdev}
use ferrosync.Codec.Flags.{
  HardLinkAction, not_hard_linked, first_occurrence, duplicate_of, Choices, choices, name_follows,
  hlinked_action, first_action, flag_word, two_bytes, is_major_minor, same_rdev_pre28,
  same_rdev_major,
}
use ferrosync.Codec.Flags.Bits.{has_bit-flag_word}
use ferrosync.Codec.Flags.RoundTrip.{extend, narrow, sent_choices, sent_top, sent_word, IsSendable}
use ferrosync.Codec.Hlink.{is_abbreviated}

-- What the choices of a format have in common.
abbrev pub IsWire : WireFormat → Type 0
IsWire w =
    (w.has_inline_names ≡ true → w.int_codec ≡ compact)
    × (w.flags_codec ≡ byte → w.has_inline_names ≡ false)
    × (w.flags_codec ≡ byte → w.has_nanoseconds ≡ false)
    × (w.flags_codec ≡ byte → is_major_minor w.device_codec ≡ false)
    × (is_major_minor w.device_codec ≡ false → w.flags_codec ≡ byte)

-- A decision that neither change of the word touches arrives as it was made.
field_kept :
    (f : Choices → Bool) (codec : FlagsCodec) (top : Bool) (c : Choices)
    → f (extend c) ≡ f c
    → (codec ≡ byte → f (narrow c) ≡ f c)
    → f (sent_choices codec top c) ≡ f c
field_kept f varint top c e n = elim (Bool-cases (flag_word top c == 0)) [
  | inl b ↦ rw b e
  | inr b ↦ rw b
]
field_kept f byte_extended top c e n = elim (Bool-cases (two_bytes (flag_word top c))) [
  | inl b ↦ rw b e
  | inr b ↦ rw b
]
field_kept f byte top c e n = n refl

abbrev pub is_wide : FlagsCodec → Bool
is_wide byte = true
is_wide codec = false

byte_or : (codec : FlagsCodec) → codec ≡ byte_extended → codec ≡ byte → false ≡ true
byte_or codec h k = ap is_wide (sym h ∙ k)

no_inline :
    (preserved same inline : Bool) (name prev_name : List ℕ)
    → inline ≡ false
    → name_follows preserved same inline name prev_name ≡ false
no_inline false same inline name prev_name h = refl
no_inline true true inline name prev_name h = refl
no_inline true false false name prev_name h = refl
no_inline true false true name prev_name h = ground arith

pub needs_inline :
    (preserved same inline : Bool) (name prev_name : List ℕ)
    → (inline && name_follows preserved same inline name prev_name)
      ≡ name_follows preserved same inline name prev_name
needs_inline preserved same true name prev_name = refl
needs_inline preserved same false name prev_name =
    sym (no_inline preserved same false name prev_name refl)

and_false : (a b c : Bool) → b ≡ false → (a && (b && c)) ≡ false
and_false true false c h = refl
and_false false b c h = refl
and_false true true c h = ground arith

not_first :
    (action : HardLinkAction)
    → is_abbreviated action ≡ false
    → (hlinked_action action && not (first_action action)) ≡ false
not_first not_hard_linked h = refl
not_first first_occurrence h = refl
not_first (duplicate_of ndx) h = ground arith

linked : (action : HardLinkAction) → first_action action ≡ true → hlinked_action action ≡ true
linked not_hard_linked h = ground arith
linked first_occurrence h = refl
linked (duplicate_of ndx) h = refl

rdev_kept :
    (codec : FlagsCodec) (top : Bool) (c : Choices)
    → codec ≡ byte
    → (sent_choices codec top c).c_rdev ≡ c.c_rdev
rdev_kept byte top c h = refl
rdev_kept byte_extended top c h = ground (arith, byte_or byte_extended refl h)
rdev_kept varint top c h = ground (arith, ap is_wide (sym h))

abbrev pub same_device : DeviceCodec → ℕ → Bool
same_device single_int flags = same_rdev_pre28 flags
same_device (major_minor varint_minor) flags = same_rdev_major flags

module _ (opts : FileListOptions) (e : FileEntry) (st : DeltaState) (action : HardLinkAction) where
  abbrev pub codec : FlagsCodec
  codec = opts.wire.flags_codec

  abbrev pub top : Bool
  top = has_bit 0 e.flags

  abbrev pub decisions : Choices
  decisions = choices e e.name st opts action

  -- The word that the sender computes, and the one that the receiver reads.
  abbrev pub flags : ℕ
  flags = flag_word top decisions

  abbrev pub sent : ℕ
  sent = sent_word codec top decisions

  module _ (w : IsWire opts.wire) where
    pub sent_bit :
        (f : Choices → Bool) (i : ℕ)
        → (i' : (t : Bool) (c : Choices) → has_bit i (flag_word t c) ≡ f c)
        → ((c : Choices) → f (extend c) ≡ f c)
        → (codec ≡ byte → f (narrow decisions) ≡ f decisions)
        → has_bit i sent ≡ has_bit i flags
    sent_bit f i at e n =
        at (sent_top codec top decisions) (sent_choices codec top decisions)
        ∙ field_kept f codec top decisions (e decisions) n
        ∙ sym (at top decisions)

    pub sent_mode : has_bit 1 sent ≡ has_bit 1 flags
    sent_mode = sent_bit (λ c. c.c_mode) 1 (λ t c. has_bit-flag_word t c 1) (λ c. refl) (λ b. refl)

    pub sent_uid : has_bit 3 sent ≡ has_bit 3 flags
    sent_uid = sent_bit (λ c. c.c_uid) 3 (λ t c. has_bit-flag_word t c 3) (λ c. refl) (λ b. refl)

    pub sent_gid : has_bit 4 sent ≡ has_bit 4 flags
    sent_gid = sent_bit (λ c. c.c_gid) 4 (λ t c. has_bit-flag_word t c 4) (λ c. refl) (λ b. refl)

    pub sent_name : has_bit 5 sent ≡ has_bit 5 flags
    sent_name = sent_bit (λ c. c.c_name) 5 (λ t c. has_bit-flag_word t c 5) (λ c. refl) (λ b. refl)

    pub sent_long : has_bit 6 sent ≡ has_bit 6 flags
    sent_long = sent_bit (λ c. c.c_long) 6 (λ t c. has_bit-flag_word t c 6) (λ c. refl) (λ b. refl)

    pub sent_time : has_bit 7 sent ≡ has_bit 7 flags
    sent_time = sent_bit (λ c. c.c_time) 7 (λ t c. has_bit-flag_word t c 7) (λ c. refl) (λ b. refl)

    pub sent_major : has_bit 8 sent ≡ has_bit 8 flags
    unfolding choices
    sent_major =
        sent_bit (λ c. c.c_major) 8 (λ t c. has_bit-flag_word t c 8) (λ c. refl)
          (λ b. sym (and_false (should_send_rdev e.mode opts) _ _ (w.3 b)))

    pub sent_rdev : codec ≡ byte → has_bit 2 sent ≡ has_bit 2 flags
    sent_rdev b =
        has_bit-flag_word (sent_top codec top decisions) (sent_choices codec top decisions) 2
        ∙ rdev_kept codec top decisions b
        ∙ sym (has_bit-flag_word top decisions 2)

    pub sent_user : has_bit 10 sent ≡ has_bit 10 flags
    unfolding choices
    sent_user =
        sent_bit (λ c. c.c_user) 10 (λ t c. has_bit-flag_word t c 10) (λ c. refl)
          (λ b. sym (no_inline opts.preserve_uid _ _ e.user_name st.prev_user_name (w.1 b)))

    pub sent_group : has_bit 11 sent ≡ has_bit 11 flags
    unfolding choices
    sent_group =
        sent_bit (λ c. c.c_group) 11 (λ t c. has_bit-flag_word t c 11) (λ c. refl)
          (λ b. sym (no_inline opts.preserve_gid _ _ e.group_name st.prev_group_name (w.1 b)))

    pub sent_nsec : has_bit 13 sent ≡ has_bit 13 flags
    unfolding choices
    sent_nsec =
        sent_bit (λ c. c.c_nsec) 13 (λ t c. has_bit-flag_word t c 13) (λ c. refl)
          (λ b. sym (ap (λ n. n && not (e.mtime_nsec == 0)) (w.2 b)))

    -- No duplicate is announced where the action is none.
    pub sent_hlink :
        is_abbreviated action ≡ false → (has_bit 9 sent && not (has_bit 12 sent)) ≡ false
    unfolding choices
    sent_hlink a =
        let t = sent_top codec top decisions in
        let c = sent_choices codec top decisions in
        ap₂ (λ x y. x && not y) (has_bit-flag_word t c 9) (has_bit-flag_word t c 12)
        ∙ field_kept (λ d. d.c_hlinked && not d.c_first) codec top decisions refl
            (λ b. sym (not_first action a))
        ∙ not_first action a

    -- The word can be sent in every encoding.
    pub decisions-IsSendable : IsSendable codec decisions
    unfolding choices
    decisions-IsSendable = (linked action, λ b. no_rdev b)
      where
        no_rdev : codec ≡ byte_extended → decisions.c_rdev ≡ false
        no_rdev b = elim (Bool-cases (is_major_minor opts.wire.device_codec)) [
          | inl m ↦ and_false (should_send_rdev e.mode opts) _ _ (ap not m)
          | inr m ↦ absurd (ground (arith, byte_or codec b (w.4 m)))
        ]

    -- A duplicate is announced, but where flags are one byte.
    pub sent_duplicate :
        (ndx : ℤ)
        → action ≡ duplicate_of ndx
        → codec ≢ byte
        → (has_bit 9 sent && not (has_bit 12 sent)) ≡ true
    unfolding choices
    sent_duplicate ndx a wide =
        let t = sent_top codec top decisions in
        let c = sent_choices codec top decisions in
        ap₂ (λ x y. x && not y) (has_bit-flag_word t c 9) (has_bit-flag_word t c 12)
        ∙ field_kept (λ d. d.c_hlinked && not d.c_first) codec top decisions refl
            (λ b. absurd (wide b))
        ∙ ap (λ x. hlinked_action x && not (first_action x)) a
