-- ===== src/Service/Signature.antt =====
-- `_verify_claim_signature` of the payment-channel service.
use xrpl_mpp_stack.Prelude.{
  ◌≡◌, refl, Bool, true, false, not, Result, ok, err, service_error, invalid_signature, ◌>>=◌,
  raise_if, raise_if-eq-ok, ok_injective, >>=-inv,
}
use xrpl_mpp_stack.Text.{Text}

-- The verifier's answer, under `except Exception`.
abbrev pub signature_answer : Result Bool → Result Bool
signature_answer (ok valid) = ok valid
signature_answer (err e) = err (service_error invalid_signature)

-- `_verify_claim_signature`; the encoding of a claim and the test of its signature come from outside.
unfoldable pub verify_claim_signature :
    (Text → Text → Text → Text → Result Bool) → Text → Text → Text → Text → Result (Unit {0})
verify_claim_signature verifier channel_id cumulative signature public_key = do
  valid ← signature_answer (verifier channel_id cumulative signature public_key)
  raise_if (not valid) (service_error invalid_signature)

pub verify_claim_signature-ok :
    (verifier : Text → Text → Text → Text → Result Bool)
    (channel_id cumulative signature public_key : Text) {u : Unit {0}}
    → verify_claim_signature verifier channel_id cumulative signature public_key ≡ ok u
    → verifier channel_id cumulative signature public_key ≡ ok true
unfolding verify_claim_signature
verify_claim_signature-ok verifier channel_id cumulative signature public_key h =
    >>=-inv (signature_answer (verifier channel_id cumulative signature public_key)) _ h
      λ valid e h.
        answered (verifier channel_id cumulative signature public_key) valid e
          (raise_if-eq-ok _ _ h)
  where
    answered :
        (r : Result Bool) (b : Bool) → signature_answer r ≡ ok b → not b ≡ false → r ≡ ok true
    answered (err e) b h n = absurd (cc)
    answered (ok true) b h n = refl
    answered (ok false) b h n = absurd (let q : false ≡ b = ok_injective h in cc)
