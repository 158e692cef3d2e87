-- ===== src/Wire/Stream.antt =====
-- A byte stream that is read: `ProtocolError` of crates/ferrosync-types/src/error.rs, and the reads
-- of crates/ferrosync-protocol/src/varint.rs as functions from the bytes that are left.
use ferrosync.Base.{
  take, drop, leb, Bool-cases, sym, if_true, if_false, le→leb, lt→leb, arith, ap, ◌∙◌, ◌⊎◌, inl,
  inr, ℕ, zero, suc, ◌≡◌, refl, List, [], ◌∷◌, ◌++◌, length, append_assoc, Bool, true, false,
  if◌then◌else◌,
}
use ferrosync.Base.Int.{ℤ}

-- The cases of `ProtocolError` that the modelled code makes. `io` is a read past the end.
pub data ProtocolError : Type 0 where
  invalid_mplex_tag : ℕ → ProtocolError
  frame_too_large : ℕ → ℕ → ProtocolError
  unexpected_message_type : ℕ → ProtocolError
  invalid_varint : ProtocolError
  wire_value_out_of_range : ℤ → ℤ → ProtocolError
  checksum_mismatch : ProtocolError
  unsupported_version : ℕ → ProtocolError
  handshake : ProtocolError
  io : ProtocolError

pub data Result {ℓ} (A : Type ℓ) : Type ℓ where
  ok : A → Result A
  err : ProtocolError → Result A

-- A read takes bytes from the front of the stream. The stream after an error is not described.
abbrev pub Reader : Type 0 → Type 0
Reader A = List ℕ → Result (A × List ℕ)

infixl 5 ◌>>=◌ ◌>>◌
abbrev pub ◌>>=◌ : {A B : Type 0} → Reader A → (A → Reader B) → Reader B
◌>>=◌ m f s = elim (m s) [ ok (a, s') ↦ f a s' | err e ↦ err e ]

abbrev pub ◌>>◌ : {A B : Type 0} → Reader A → Reader B → Reader B
m >> k = m >>= λ _. k

abbrev pub pure : {A : Type 0} → A → Reader A
pure a s = ok (a, s)

abbrev pub fail : {A : Type 0} → ProtocolError → Reader A
fail e s = err e

-- `read_exact` into a buffer of `n` bytes.
unfoldable pub read_exact : ℕ → Reader (List ℕ)
read_exact zero s = ok ([], s)
read_exact (suc n) [] = err io
read_exact (suc n) (b ∷ s) = elim (read_exact n s) [ ok (bs, s') ↦ ok (b ∷ bs, s') | err e ↦ err e ]

unfoldable pub read_byte : Reader ℕ
read_byte [] = err io
read_byte (b ∷ s) = ok (b, s)

pub read_exact-append : (bs rest : List ℕ) → read_exact (length bs) (bs ++ rest) ≡ ok (bs, rest)
unfolding read_exact
read_exact-append [] rest = refl
read_exact-append (b ∷ bs) rest = rw (read_exact-append bs rest)

pub read_exact_lem :
    (n : ℕ) (s : List ℕ)
    → read_exact n s ≡ (if leb n (length s) then ok (take n s, drop n s) else err io)
unfolding read_exact
read_exact_lem zero s = sym (if_true _ _ (le→leb 0 (length s) (omega arith)))
read_exact_lem (suc n) [] = sym (if_false _ _ (lt→leb (suc n) 0 (omega arith)))
read_exact_lem (suc n) (b ∷ s) = elim (Bool-cases (leb n (length s))) [
  | inl e ↦
      rw (read_exact_lem n s, e)
        (sym (if_true {b = leb (suc n) (suc (length s))} _ _ (ground (arith, e))))
  | inr e ↦
      rw (read_exact_lem n s, e)
        (sym (if_false {b = leb (suc n) (suc (length s))} _ _ (ground (arith, e))))
]

-- A bind whose first read succeeds goes on with its value and the bytes that it left.
pub bind_ok :
    {A B : Type 0} (m : Reader A) (f : A → Reader B) (s : List ℕ) {a : A} {s' : List ℕ}
    → m s ≡ ok (a, s')
    → (m >>= f) s ≡ f a s'
bind_ok m f s e = rw (e, ◌>>=◌)

pub Result-cases :
    {A : Type 0} (r : Result A) → ((a : A) × (r ≡ ok a)) ⊎ ((e : ProtocolError) × (r ≡ err e))
Result-cases (ok a) = inl (a, refl)
Result-cases (err e) = inr (e, refl)

pub ok_injective : {A : Type 0} (a b : A) → ok a ≡ ok b → a ≡ b
ok_injective a b h = ap (λ r. elim r [ ok x ↦ x | err e ↦ a ]) h

pub err_ok : {A B : Type 0} {e : ProtocolError} {a : A} → err e ≡ ok a → B
err_ok h = ground arith

-- A read takes exactly the bytes `bs` from the front of any stream and returns `a`.
abbrev pub Reads : {A : Type 0} → Reader A → List ℕ → A → Type 0
Reads m bs a = (rest : List ℕ) → m (bs ++ rest) ≡ ok (a, rest)

pub Reads-pure : {A : Type 0} (a : A) → Reads (pure a) [] a
Reads-pure a rest = refl

-- Reads in a row take their bytes in a row.
pub Reads-bind :
    {A B : Type 0} (m : Reader A) (f : A → Reader B) (bs cs : List ℕ) (a : A) (b : B)
    → Reads m bs a
    → Reads (f a) cs b
    → Reads (m >>= f) (bs ++ cs) b
Reads-bind m f bs cs a b h k rest =
    ap (m >>= f) (append_assoc bs cs rest)
    ∙ bind_ok m f (bs ++ (cs ++ rest)) (h (cs ++ rest))
    ∙ k rest

-- The same where the last step only builds its result.
pub Reads-last :
    {A B : Type 0} (m : Reader A) (f : A → B) (bs : List ℕ) (a : A)
    → Reads m bs a
    → Reads (m >>= (λ x. pure (f x))) bs (f a)
Reads-last m f bs a h rest = bind_ok m (λ x. pure (f x)) (bs ++ rest) (h rest)

-- A field that both sides leave out when a test holds.
pub Reads-unless :
    {A : Type 0} (c : Bool) (x : A) (m : Reader A) (bs : List ℕ) (a : A)
    → (c ≡ true → x ≡ a)
    → (c ≡ false → Reads m bs a)
    → Reads (if c then pure x else m) (if c then [] else bs) a
Reads-unless true x m bs a h k rest = ap (λ (y : _). ok (y, rest)) (h refl)
Reads-unless false x m bs a h k rest = k refl rest

-- A field that both sides leave out unless a test holds.
pub Reads-when :
    {A : Type 0} (c : Bool) (x : A) (m : Reader A) (bs : List ℕ) (a : A)
    → (c ≡ false → x ≡ a)
    → (c ≡ true → Reads m bs a)
    → Reads (if c then m else pure x) (if c then bs else []) a
Reads-when true x m bs a h k rest = k refl rest
Reads-when false x m bs a h k rest = ap (λ (y : _). ok (y, rest)) (h refl)

-- A bind whose first read fails fails with it.
pub bind_err :
    {A B : Type 0} (m : Reader A) (f : A → Reader B) (s : List ℕ) {e : ProtocolError}
    → m s ≡ err e
    → (m >>= f) s ≡ err e
bind_err m f s h = rw (h, ◌>>=◌)
