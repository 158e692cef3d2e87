-- ===== src/Delta/Rolling/Window.antt =====
-- Rolling a window by one byte gives the checksum of the next window.
use ferrosync.Base.{
  ℕ, suc, ◌+◌, ◌*◌, ◌%◌, ◌/◌, ◌^◌, ◌<◌, ◌≡◌, refl, ap, ap₂, sym, ◌∙◌, List, [], ◌∷◌, ◌++◌, length,
  length-append, arith,
}
use native.Mathlib.Nat.{add-mul-mod_self_right, mod-add-div'}
use ferrosync.Delta.Rolling.{
  RollingChecksum, sum_loop, checksum1, compute, roll, digest, wrapping_add, wrapping_sub,
  wrapping_mul,
}

-- The two sums without wrapping.
abbrev sums : ℕ → ℕ → ℕ → List ℕ → ℕ × ℕ
sums c t1 t2 [] = (t1, t2)
sums c t1 t2 (b ∷ bs) = sums c (t1 + (b + c)) (t2 + (t1 + (b + c))) bs

sum_loop-sums :
    (c t1 t2 : ℕ) (bs : List ℕ)
    → sum_loop c (t1 % 2 ^ 32) (t2 % 2 ^ 32) bs
      ≡ ((sums c t1 t2 bs).0 % 2 ^ 32, (sums c t1 t2 bs).1 % 2 ^ 32)
unfolding sum_loop
sum_loop-sums c t1 t2 [] = refl
sum_loop-sums c t1 t2 (b ∷ bs) =
    ap₂ (λ (x y : ℕ). sum_loop c x y bs) first (second)
    ∙ sum_loop-sums c (t1 + (b + c)) (t2 + (t1 + (b + c))) bs
  where
    first : wrapping_add (t1 % 2 ^ 32) (b + c) ≡ (t1 + (b + c)) % 2 ^ 32
    first = omega arith

    second :
        wrapping_add (t2 % 2 ^ 32) (wrapping_add (t1 % 2 ^ 32) (b + c))
        ≡ (t2 + (t1 + (b + c))) % 2 ^ 32
    second = omega arith

sums-append :
    (c t1 t2 v : ℕ) (bs : List ℕ)
    → sums c t1 t2 (bs ++ v ∷ [])
      ≡ ((sums c t1 t2 bs).0 + (v + c), (sums c t1 t2 bs).1 + ((sums c t1 t2 bs).0 + (v + c)))
sums-append c t1 t2 v [] = refl
sums-append c t1 t2 v (b ∷ bs) = sums-append c (t1 + (b + c)) (t2 + (t1 + (b + c))) v bs

shift_one :
    (c t1 t2 d e b : ℕ) (bs : List ℕ) (u1 u2 : ℕ)
    → ((sums c (t1 + (b + c) + d) (t2 + (t1 + (b + c)) + (e + d)) bs).0 ≡ u1 + d)
      × ((sums c (t1 + (b + c) + d) (t2 + (t1 + (b + c)) + (e + d)) bs).1
          ≡ u2 + (e + d) + length bs * d)
    → ((sums c (t1 + d + (b + c)) (t2 + e + (t1 + d + (b + c))) bs).0 ≡ u1 + d)
      × ((sums c (t1 + d + (b + c)) (t2 + e + (t1 + d + (b + c))) bs).1
          ≡ u2 + e + suc (length bs) * d)
shift_one c t1 t2 d e b bs u1 u2 (first, second) =
    (ap (λ p. p.0) same ∙ first, ap (λ p. p.1) same ∙ second ∙ omega arith)
  where
    same :
        sums c (t1 + d + (b + c)) (t2 + e + (t1 + d + (b + c))) bs
        ≡ sums c (t1 + (b + c) + d) (t2 + (t1 + (b + c)) + (e + d)) bs
    same = ap₂ (λ (x y : ℕ). sums c x y bs) (omega arith) (omega arith)

-- An offset `d` of the first sum counts once in it and once a byte in the second.
sums_shift :
    (c t1 t2 d e : ℕ) (bs : List ℕ)
    → ((sums c (t1 + d) (t2 + e) bs).0 ≡ (sums c t1 t2 bs).0 + d)
      × ((sums c (t1 + d) (t2 + e) bs).1 ≡ (sums c t1 t2 bs).1 + e + length bs * d)
sums_shift c t1 t2 d e [] = omega arith
sums_shift c t1 t2 d e (b ∷ bs) =
    shift_one c t1 t2 d e b bs _ _ (sums_shift c (t1 + (b + c)) (t2 + (t1 + (b + c))) d (e + d) bs)

compute_lem :
    (bs : List ℕ) (r : RollingChecksum)
    → compute bs r ≡ record r {
      s1 = (sums r.char_offset 0 0 bs).0 % 2 ^ 32;
      s2 = (sums r.char_offset 0 0 bs).1 % 2 ^ 32;
      count = length bs % 2 ^ 32;
    }
unfolding compute
compute_lem bs r =
    ap (λ p. record r { s1 = p.0; s2 = p.1; count = length bs % 2 ^ 32 })
      (sum_loop-sums r.char_offset 0 0 bs)

mod_times : (a m d : ℕ) → a % m * d % m ≡ a * d % m
mod_times a m d = sym (add-mul-mod_self_right (a % m * d) (a / m * d) m) ∙ ap (λ x. x % m) whole
  where
    split : (a % m + a / m * m) * d ≡ a * d
    split = ap (λ x. x * d) (mod-add-div' a m)

    whole : a % m * d + a / m * d * m ≡ a * d
    whole = omega (arith, split)

roll_first :
    (a old new c : ℕ)
    → old < 2 ^ 8
    → wrapping_sub (wrapping_add ((a + (old + c)) % 2 ^ 32) new) old ≡ (a + (new + c)) % 2 ^ 32
roll_first a old new c old< = omega arith

roll_second :
    (a b n d : ℕ)
    → wrapping_sub
        (wrapping_add ((a + d + n * d) % 2 ^ 32) (b % 2 ^ 32))
        (wrapping_mul (suc n % 2 ^ 32) d)
      ≡ (a + b) % 2 ^ 32
roll_second a b n d = rw (mod_times (suc n) (2 ^ 32) d) (omega arith)

sums-first :
    (c old : ℕ) (mid : List ℕ)
    → sums c 0 0 (old ∷ mid)
      ≡ ((sums c 0 0 mid).0 + (old + c), (sums c 0 0 mid).1 + (old + c) + length mid * (old + c))
sums-first c old mid =
    ap₂ (λ (x y : ℕ). sums c x y mid) (omega arith) (omega arith)
    ∙ (let h = sums_shift c 0 0 (old + c) (old + c) mid in ap₂ (λ (x y : ℕ). (x, y)) h.0 h.1)

-- The state of `r` with other sums and another count.
abbrev state : RollingChecksum → ℕ → ℕ → ℕ → RollingChecksum
state r a b n = record r { s1 = a % 2 ^ 32; s2 = b % 2 ^ 32; count = n % 2 ^ 32 }

roll-state :
    (old new a b n : ℕ) (r : RollingChecksum)
    → old < 2 ^ 8
    → roll old new (
        state r
          (a + (old + r.char_offset))
          (b + (old + r.char_offset) + n * (old + r.char_offset))
          (suc n))
      ≡ state r (a + (new + r.char_offset)) (b + (a + (new + r.char_offset))) (suc n)
unfolding roll
roll-state old new a b n r old< =
    ap₂ (λ (x y : ℕ). record r { s1 = x; s2 = y; count = suc n % 2 ^ 32 }) first
      (ap
          (λ x.
            wrapping_sub
              (wrapping_add ((b + (old + r.char_offset) + n * (old + r.char_offset)) % 2 ^ 32) x)
              (wrapping_mul (suc n % 2 ^ 32) (old + r.char_offset)))
          first
        ∙ roll_second b (a + (new + r.char_offset)) n (old + r.char_offset))
  where
    first :
        wrapping_sub (wrapping_add ((a + (old + r.char_offset)) % 2 ^ 32) new) old
        ≡ (a + (new + r.char_offset)) % 2 ^ 32
    first = roll_first a old new r.char_offset old<

-- Rolling `old` out and `new` into the checksum of the window `old ∷ mid` gives the state that
-- computing the window `mid ++ new ∷ []` gives, for a byte `old`.
pub roll-compute :
    (old new : ℕ) (mid : List ℕ) (r : RollingChecksum)
    → old < 2 ^ 8
    → roll old new (compute (old ∷ mid) r) ≡ compute (mid ++ new ∷ []) r
roll-compute old new mid r old< =
    ap (roll old new) (
      compute_lem (old ∷ mid) r
      ∙ ap (λ p. state r p.0 p.1 (suc (length mid))) (sums-first r.char_offset old mid))
    ∙ roll-state old new _ _ (length mid) r old<
    ∙ ap₂ (λ p n. state r p.0 p.1 n) (sym (sums-append r.char_offset 0 0 new mid)) count
    ∙ sym (compute_lem (mid ++ new ∷ []) r)
  where
    count : suc (length mid) ≡ length (mid ++ new ∷ [])
    count = sym (length-append mid (new ∷ []) ∙ omega arith)

-- The digest of a window is the same whether it is computed from its bytes or reached by rolling
-- one byte `old` out and another in.
pub digest-roll :
    (old new : ℕ) (mid : List ℕ) (r : RollingChecksum)
    → old < 2 ^ 8
    → digest (roll old new (compute (old ∷ mid) r)) ≡ checksum1 (mid ++ new ∷ []) r.char_offset
unfolding digest compute checksum1
digest-roll old new mid r old< = ap digest (roll-compute old new mid r old<)
