-- ===== src/Codec/Fields/Devices.antt =====
-- The device number of an entry.
use ferrosync.Base.{
  ℕ, zero, suc, ◌+◌, ◌*◌, ◌/◌, ◌%◌, ◌^◌, ◌<◌, ◌≤◌, ◌≡◌, ap, ◌∙◌, refl, Bool, true, false,
  if◌then◌else◌, arith,
}
use Prim.Native.Nat.{digits, max, bit_or-bitwise}
use native.Mathlib.Nat.{pow-suc}
use ferrosync.Base.Int.{IsI32-i32_of_bits, i32_of_bits, i64_bits}
use ferrosync.Wire.Stream.{ok, ◌>>=◌, pure, Reads, Reads-bind, Reads-last, Reads-unless}
use ferrosync.Wire.Fixed.{read_int, write_int, read_int-write_int}
use ferrosync.Wire.Varint.RoundTrip.{read_varint-write_varint}
use ferrosync.Wire.Varlong.{IntCodec, read_varint30}
use ferrosync.Codec.Format.{DeviceCodec, single_int, major_minor}
use ferrosync.Codec.Entry.{DeltaState, rdev_major, rdev_minor}
use ferrosync.Codec.Flags.{same_rdev_pre28, same_rdev_major}
use ferrosync.Codec.Fields.{read_device, write_device, read_u64, join_rdev, write_minor, read_minor}
use ferrosync.Codec.Fields.Scalars.{Reads-varint30, Reads-u32}

assoc : (q m : ℕ) → 2 * q * m ≡ 2 * (q * m)
assoc q m = grind arith

-- The digits of `n` below those of a multiple of 2^k: no two of them meet.
digits_apart :
    (fuel k n b m : ℕ) → n ≤ fuel → n < 2 ^ k → b ≡ 2 ^ k * m → digits (λ y. y) max fuel n b ≡ n + b
digits_apart zero k n b m le lt e = omega arith
digits_apart (suc fuel) k zero b m le lt e = omega arith
digits_apart (suc fuel) zero (suc n) b m le lt e = absurd (omega arith)
digits_apart (suc fuel) (suc k) (suc n) b m le lt e =
    let p : 2 ^ suc k ≡ 2 * 2 ^ k = omega (arith, pow-suc 2 k) in
    let h : b ≡ 2 * (2 ^ k * m) = e ∙ ap (λ (q : ℕ). q * m) p ∙ assoc (2 ^ k) m in
    let half : b / 2 ≡ 2 ^ k * m = omega (arith, h) in
    let low : suc n / 2 < 2 ^ k = omega (arith, p) in
    let ih : digits (λ y. y) max fuel (suc n / 2) (b / 2) ≡ suc n / 2 + b / 2 =
      digits_apart fuel k (suc n / 2) (b / 2) m (omega arith) low half in
    omega (arith, ih, h)

pub join_rdev_lem :
    (major minor : ℕ) → minor < 2 ^ 8 → join_rdev major minor ≡ minor + 2 ^ 8 * major
join_rdev_lem major minor h =
    (λ i. bit_or-bitwise minor (2 ^ 8 * major) i)
    ∙ digits_apart minor 8 minor (2 ^ 8 * major) major (omega arith) h refl

-- A number of 40 bits is its major number above its low byte.
join_rdev_parts : (rdev : ℕ) → rdev < 2 ^ 40 → join_rdev (rdev_major rdev) (rdev_minor rdev) ≡ rdev
join_rdev_parts rdev h =
    join_rdev_lem (rdev_major rdev) (rdev_minor rdev) (omega arith) ∙ omega arith

Reads-minor :
    (compact : Bool) (n : ℕ) → n < 256 → Reads (read_minor compact) (write_minor compact n) n
Reads-minor true n h rest = read_varint-write_varint n rest (omega arith)
Reads-minor false n h rest = Reads-u32 n (omega arith) rest

signed_back : (rdev : ℕ) → rdev < 2 ^ 31 → i64_bits (i32_of_bits (rdev % 2 ^ 32)) ≡ rdev
signed_back rdev h = ground arith

-- The device numbers that a codec can send.
abbrev pub IsDevice : DeviceCodec → ℕ → Type 0
IsDevice single_int rdev = rdev < 2 ^ 31
IsDevice (major_minor varint_minor) rdev = rdev < 2 ^ 40

-- The flags leave out only what the reader has.
abbrev pub Omits : DeviceCodec → DeltaState → ℕ → ℕ → Type 0
Omits single_int state rdev flags = same_rdev_pre28 flags ≡ true → state.prev_rdev ≡ rdev
Omits (major_minor varint_minor) state rdev flags =
    same_rdev_major flags ≡ true → state.prev_rdev_major ≡ rdev_major rdev

pub Reads-device :
    (device : DeviceCodec) (codec : IntCodec) (state : DeltaState) (rdev flags : ℕ)
    → IsDevice device rdev
    → Omits device state rdev flags
    → Reads
        (read_device device codec state flags)
        (write_device device codec rdev (rdev_major rdev) (rdev_minor rdev) flags)
        rdev
Reads-device single_int codec state rdev flags h k rest =
    Reads-unless (same_rdev_pre28 flags) state.prev_rdev read_u64 _ rdev k
      (λ f r.
        Reads-last read_int i64_bits (write_int (i32_of_bits (rdev % 2 ^ 32))) _
          (λ s. read_int-write_int _ s (IsI32-i32_of_bits (rdev % 2 ^ 32) (omega arith))) r
        ∙ ap (λ (x : ℕ). ok (x, r)) (signed_back rdev h))
      rest
Reads-device (major_minor varint_minor) codec state rdev flags h k rest =
    Reads-bind (if same_rdev_major flags then pure state.prev_rdev_major else read_varint30 codec)
      (λ major. read_minor varint_minor >>= λ minor. pure (join_rdev major minor)) _
      (write_minor varint_minor (rdev_minor rdev)) (rdev_major rdev)
      (join_rdev (rdev_major rdev) (rdev_minor rdev))
      (Reads-unless (same_rdev_major flags) state.prev_rdev_major (read_varint30 codec) _
        (rdev_major rdev) k (λ f. Reads-varint30 codec (rdev_major rdev) (omega arith)))
      (Reads-last (read_minor varint_minor) (join_rdev (rdev_major rdev)) _ (rdev_minor rdev)
        (Reads-minor varint_minor (rdev_minor rdev) (omega arith)))
      rest
    ∙ ap (λ (x : ℕ). ok (x, rest)) (join_rdev_parts rdev h)
