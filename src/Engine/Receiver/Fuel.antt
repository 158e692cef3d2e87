-- ===== src/Engine/Receiver/Fuel.antt =====
-- The receiver's loop ends: each token takes bytes, so the stream's length is fuel enough, and with
-- enough fuel the loop does not depend on it.
use ferrosync.Base.{
  ℕ, zero, suc, ◌+◌, ◌≤◌, ◌<◌, ◌≡◌, refl, ap, sym, ◌∙◌, List, [], ◌∷◌, ◌++◌, Option, none, some,
  inl, inr, length, leb, Bool-cases, if_true, if_false, arith,
}
use ferrosync.Base.Int.{ℤ, pos, negsuc}
use ferrosync.Wire.Stream.{
  Reader, Result, ok, err, ◌>>=◌, pure, read_exact, Result-cases, ok_injective, err_ok, bind_ok,
}
use ferrosync.Wire.Fixed.{read_int}
use ferrosync.Delta.Token.{Token, token_body, recv_token, max_wire_alloc, literal_data}
use ferrosync.Engine.Receiver.{token_bytes, grown, after_token, recv_loop}

-- A read takes `n` bytes at least, where it succeeds.
abbrev pub Takes : {A : Type 0} → ℕ → Reader A → Type 0
Takes {A} n m =
    (s : List ℕ) (a : A) (rest : List ℕ) → m s ≡ ok (a, rest) → length rest + n ≤ length s

pure-Takes : {A : Type 0} (a : A) → Takes 0 (pure a)
pure-Takes a s b rest h = omega (arith, ap (λ p. length p.1) (ok_injective (a, s) (b, rest) h))

bind-Takes :
    {A B : Type 0} (n m : ℕ) (x : Reader A) (f : A → Reader B)
    → Takes n x
    → ((a : A) → Takes m (f a))
    → Takes (n + m) (x >>= f)
bind-Takes n m x f h k s b rest e = elim (Result-cases (x s)) [
  | inl ((a, s'), got) ↦ omega (arith, h s a s' got, k a s' b rest (sym (bind_ok x f s got) ∙ e))
  | inr (e', failed) ↦
      err_ok (sym (ap (λ r. elim r [ ok (a, s') ↦ f a s' | err e ↦ err e ]) failed) ∙ e)
]

read_exact-Takes : (n : ℕ) → Takes n (read_exact n)
unfolding read_exact
read_exact-Takes zero s a rest h =
    omega (arith, ap (λ p. length p.1) (ok_injective ([], s) (a, rest) h))
read_exact-Takes (suc n) [] a rest h = err_ok h
read_exact-Takes (suc n) (b ∷ s) a rest h = elim (Result-cases (read_exact n s)) [
  | inl ((bs, s'), got) ↦ omega (
    arith,
    read_exact-Takes n s bs s' got,
    ap (λ p. length p.1) (ok_injective (b ∷ bs, s') (a, rest) (sym (ap step got) ∙ h)),
  )
  | inr (e, failed) ↦ err_ok (sym (ap step failed) ∙ h)
]
  where
    step : Result (List ℕ × List ℕ) → Result (List ℕ × List ℕ)
    step r = elim r [ ok (bs, s') ↦ ok (b ∷ bs, s') | err e ↦ err e ]

token_body-Takes : (t : ℤ) → Takes 0 (token_body t)
token_body-Takes (pos zero) s a rest h = pure-Takes _ s a rest h
token_body-Takes (negsuc n) s a rest h = pure-Takes _ s a rest h
token_body-Takes (pos (suc n)) s a rest h = elim (Bool-cases (leb (suc n) max_wire_alloc)) [
  | inl fits ↦ weaken (read_literal s a rest (sym (at s (if_true _ _ fits)) ∙ h))
  | inr large ↦ err_ok (sym (at s (if_false _ _ large)) ∙ h)
]
  where
    at : {m k : Reader Token} (s : List ℕ) → m ≡ k → m s ≡ k s
    at s e = ap (λ r. r s) e

    read_literal : Takes (suc n) (read_exact (suc n) >>= λ buf. pure (literal_data buf))
    read_literal s a rest h = omega (
      arith,
      bind-Takes (suc n) 0 (read_exact (suc n)) _ (read_exact-Takes (suc n)) (λ buf. pure-Takes _) s
          a rest h,
    )

    weaken : length rest + suc n ≤ length s → length rest + 0 ≤ length s
    weaken t = omega (arith, t)

pub recv_token-Takes : Takes 4 recv_token
unfolding recv_token read_int
recv_token-Takes =
    bind-Takes 4 0 read_int token_body
      (bind-Takes 4 0 (read_exact 4) _ (read_exact-Takes 4) (λ buf. pure-Takes _)) token_body-Takes

module _ (basis : List ℕ) (blength : ℕ) where
  same_outcome :
      (f g : ℕ) (output rest : List ℕ) (o : Option (Result (List ℕ)))
      → ((bytes : List ℕ)
          → recv_loop basis blength f (output ++ bytes) rest
            ≡ recv_loop basis blength g (output ++ bytes) rest)
      → grown basis blength (recv_loop basis blength f) output rest o
        ≡ grown basis blength (recv_loop basis blength g) output rest o
  same_outcome f g output rest none h = refl
  same_outcome f g output rest (some (ok bytes)) h = h bytes
  same_outcome f g output rest (some (err e)) h = refl

  -- Any two amounts of fuel above the stream's length give the same.
  pub recv_loop_fuel :
      (f g : ℕ) (output stream : List ℕ)
      → length stream < f
      → length stream < g
      → recv_loop basis blength f output stream ≡ recv_loop basis blength g output stream
  unfolding recv_loop
  recv_loop_fuel zero g output stream h k = absurd (omega arith)
  recv_loop_fuel (suc f) zero output stream h k = absurd (omega arith)
  recv_loop_fuel (suc f) (suc g) output stream h k = elim (Result-cases (recv_token stream)) [
    | inl ((token, rest), got) ↦
        let less = recv_token-Takes stream token rest got in
        ap (after_token basis blength (recv_loop basis blength f) output) got
        ∙ same_outcome f g output rest (token_bytes basis blength token) (λ bytes.
          recv_loop_fuel f g (output ++ bytes) rest (omega (arith, less)) (omega (arith, less)))
        ∙ sym (ap (after_token basis blength (recv_loop basis blength g) output) got)
    | inr (e, failed) ↦
        ap (after_token basis blength (recv_loop basis blength f) output) failed
        ∙ sym (ap (after_token basis blength (recv_loop basis blength g) output) failed)
  ]
