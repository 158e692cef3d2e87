-- ===== src/Engine/Receiver/Accept.antt =====
-- The receiver always answers, and what it accepts has the checksum that was sent.
use ferrosync.Base.{
  ℕ, zero, suc, ◌<◌, ◌≡◌, refl, ap, ap₂, sym, ◌∙◌, subst, List, [], ◌∷◌, ◌++◌, Option, none, some,
  inl, inr, length, ◌==◌, ◌&&◌, true, Bool-cases, if_true, if_false, if◌then◌else◌, arith,
}
use mathlib.Core.Option.{some-injective}
use ferrosync.Wire.Stream.{
  Reader, Result, ok, err, checksum_mismatch, pure, fail, read_exact, Result-cases, ok_injective,
  err_ok, bind_ok,
}
use ferrosync.Delta.Context.{Hashes, ProtocolContext, digest_len, file_checksum}
use ferrosync.Delta.Matcher.{same_bytes}
use ferrosync.Delta.Token.{recv_token}
use ferrosync.Engine.Receiver.{
  token_bytes, grown, after_token, recv_loop, verify, verify_loop, recv_file_delta,
}
use ferrosync.Engine.Receiver.Fuel.{recv_token-Takes}
use ferrosync.Engine.Receiver.Run.{run}

module _ (basis : List ℕ) (blength : ℕ) where
  abbrev IsAnswer : Option (Result (List ℕ × List ℕ)) → Type 0
  IsAnswer o = (r : Result (List ℕ × List ℕ)) × (o ≡ some r)

  grown-IsAnswer :
      (go : List ℕ → List ℕ → Option (Result (List ℕ × List ℕ))) (output rest : List ℕ)
      (o : Option (Result (List ℕ)))
      → ((out : List ℕ) → IsAnswer (go out rest))
      → IsAnswer (grown basis blength go output rest o)
  grown-IsAnswer go output rest none h = (_, refl)
  grown-IsAnswer go output rest (some (ok bytes)) h = h (output ++ bytes)
  grown-IsAnswer go output rest (some (err e)) h = (_, refl)

  recv_loop-IsAnswer :
      (fuel : ℕ) (output stream : List ℕ)
      → length stream < fuel
      → IsAnswer (recv_loop basis blength fuel output stream)
  unfolding recv_loop
  recv_loop-IsAnswer zero output stream h = absurd (omega arith)
  recv_loop-IsAnswer (suc fuel) output stream h = elim (Result-cases (recv_token stream)) [
    | inl ((token, rest), got) ↦
        let less = recv_token-Takes stream token rest got in
        subst IsAnswer
          (ap (after_token basis blength (recv_loop basis blength fuel) output) (sym got))
          (grown-IsAnswer (recv_loop basis blength fuel) output rest
            (token_bytes basis blength token)
            (λ out. recv_loop-IsAnswer fuel out rest (omega (arith, less))))
    | inr (e, failed) ↦
        (_, ap (after_token basis blength (recv_loop basis blength fuel) output) failed)
  ]

verify_loop-IsAnswer :
    (hashes : Hashes) (ctx : ProtocolContext) (o : Option (Result (List ℕ × List ℕ)))
    → (r : Result (List ℕ × List ℕ)) × (o ≡ some r)
    → (r : Result (List ℕ × List ℕ)) × (verify_loop hashes ctx o ≡ some r)
verify_loop-IsAnswer hashes ctx none (r, e) = ground arith
verify_loop-IsAnswer hashes ctx (some (ok (output, rest))) h = (_, refl)
verify_loop-IsAnswer hashes ctx (some (err e)) h = (_, refl)

-- The receiver's loop ends on every stream, with a file or an error.
pub recv_file_delta_total :
    (hashes : Hashes) (ctx : ProtocolContext) (basis : List ℕ) (blength : ℕ) (stream : List ℕ)
    → (r : Result (List ℕ × List ℕ)) × (recv_file_delta hashes ctx basis blength stream ≡ some r)
unfolding recv_file_delta
recv_file_delta_total hashes ctx basis blength stream =
    verify_loop-IsAnswer hashes ctx _
      (recv_loop-IsAnswer basis blength (suc (length stream)) [] stream (omega arith))

same_bytes-eq : (xs ys : List ℕ) → same_bytes xs ys ≡ true → xs ≡ ys
same_bytes-eq [] [] h = refl
same_bytes-eq [] (y ∷ ys) h = ground arith
same_bytes-eq (x ∷ xs) [] h = ground arith
same_bytes-eq (x ∷ xs) (y ∷ ys) h =
    ap₂ (λ z zs. z ∷ zs) (heads x y h) (same_bytes-eq xs ys (tails x y h))
  where
    heads : (x y : ℕ) → ((x == y) && same_bytes xs ys) ≡ true → x ≡ y
    heads x y h = ground arith

    tails : (x y : ℕ) → ((x == y) && same_bytes xs ys) ≡ true → same_bytes xs ys ≡ true
    tails x y h = ground arith

read_exact-front : (n : ℕ) (s bs rest : List ℕ) → read_exact n s ≡ ok (bs, rest) → s ≡ bs ++ rest
unfolding read_exact
read_exact-front zero s bs rest h = ap (λ p. p.0 ++ p.1) (ok_injective ([], s) (bs, rest) h)
read_exact-front (suc n) [] bs rest h = err_ok h
read_exact-front (suc n) (b ∷ s) bs rest h = elim (Result-cases (read_exact n s)) [
  | inl ((bs', s'), got) ↦
      ap (λ t. b ∷ t) (read_exact-front n s bs' s' got)
      ∙ ap (λ p. p.0 ++ p.1) (ok_injective (b ∷ bs', s') (bs, rest) (sym (ap step got) ∙ h))
  | inr (e, failed) ↦ err_ok (sym (ap step failed) ∙ h)
]
  where
    step : Result (List ℕ × List ℕ) → Result (List ℕ × List ℕ)
    step r = elim r [ ok (bs, s') ↦ ok (b ∷ bs, s') | err e ↦ err e ]

module _ (hashes : Hashes) (ctx : ProtocolContext) where
  compare : List ℕ → List ℕ → Reader (List ℕ)
  compare output received =
      if same_bytes received (file_checksum hashes ctx output)
      then pure output
      else fail checksum_mismatch

  compare-accepted :
      (built received rest output left : List ℕ)
      → compare built received rest ≡ ok (output, left)
      → (output ≡ built) × (left ≡ rest) × (received ≡ file_checksum hashes ctx built)
  unfolding compare
  compare-accepted built received rest output left h =
      elim (Bool-cases (same_bytes received (file_checksum hashes ctx built))) [
        | inl same ↦
            let both =
              ok_injective (built, rest) (output, left) (sym (at (if_true _ _ same)) ∙ h) in
            (sym (ap (λ p. p.0) both), sym (ap (λ p. p.1) both), same_bytes-eq _ _ same)
        | inr other ↦ err_ok (sym (at (if_false _ _ other)) ∙ h)
      ]
    where
      at : {m k : Reader (List ℕ)} → m ≡ k → m rest ≡ k rest
      at e = ap (λ r. r rest) e

  verify-accepted :
      (built stream output left : List ℕ)
      → verify hashes ctx built stream ≡ ok (output, left)
      → (output ≡ built) × (stream ≡ file_checksum hashes ctx built ++ left)
  unfolding compare
  verify-accepted built stream output left h =
      elim (Result-cases (read_exact (digest_len ctx.checksum_type) stream)) [
        | inl ((received, rest), got) ↦
            let (same, remains, sum) = compare-accepted built received rest output left (
              sym (bind_ok (read_exact (digest_len ctx.checksum_type)) (compare built) stream got)
              ∙ h) in
            (same, read_exact-front _ stream received rest got ∙ ap₂ ◌++◌ sum (sym remains))
        | inr (e, failed) ↦
            err_ok (
              sym (ap (λ r. elim r [ ok (a, s') ↦ compare built a s' | err e ↦ err e ]) failed) ∙ h)
      ]

  verify_loop-accepted :
      (o : Option (Result (List ℕ × List ℕ))) (output left : List ℕ)
      → verify_loop hashes ctx o ≡ some (ok (output, left))
      → o ≡ some (ok (output, file_checksum hashes ctx output ++ left))
  verify_loop-accepted none output left h = ground arith
  verify_loop-accepted (some (err e)) output left h = err_ok (some-injective _ _ h)
  verify_loop-accepted (some (ok (built, stream))) output left h =
      let (same, sum) = verify-accepted built stream output left (some-injective _ _ h) in
      ap₂ (λ out s. some (ok (out, s))) (sym same)
        (sum ∙ ap (λ out. file_checksum hashes ctx out ++ left) (sym same))

-- A file that the receiver returns is the one that the tokens build, and the bytes that come after
-- the tokens are its checksum, before those that are left.
pub recv_file_delta_accepted :
    (hashes : Hashes) (ctx : ProtocolContext) (basis : List ℕ) (blength : ℕ)
    (stream output rest : List ℕ)
    → recv_file_delta hashes ctx basis blength stream ≡ some (ok (output, rest))
    → recv_loop basis blength (suc (length stream)) [] stream
      ≡ some (ok (output, file_checksum hashes ctx output ++ rest))
unfolding recv_file_delta
recv_file_delta_accepted hashes ctx basis blength stream output rest h =
    verify_loop-accepted hashes ctx (run basis blength [] stream) output rest h
