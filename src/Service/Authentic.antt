-- ===== src/Service/Authentic.antt =====
-- What the checks of the envelope accept.
use xrpl_mpp_stack.Prelude.{
  ℕ, ◌<◌, ◌⊎◌, [], ◌≤◌, ◌≡◌, ◌↔◌, refl, ap, ◌∙◌, subst, Bool, true, false, not, none, some, Code,
  Result, ok, err, value_error, store_error, service_error, pending, failure, >>=-inv, raise_if,
  raise_if-eq-ok, ok_injective,
}
use xrpl_mpp_stack.Text.{Text, codes}
use xrpl_mpp_stack.Text.Decimal.{int_of}
use xrpl_mpp_stack.Binding.{or_empty, verify_challenge_binding}
use xrpl_mpp_stack.Schema.{Network}
use xrpl_mpp_stack.Service.Terms.{
  is_not→eq, is_not_refl, require_uint64-ok, within-require_uint64, AreAgreed, expired-live,
  live-expired, other-network, network-other, optional-within, within-optional,
  check_channel-AreAgreed, AreAgreed-check_channel,
}
use xrpl_mpp_stack.Did.{XrplDid, parse_xrpl_did}
use xrpl_mpp_stack.Service.Envelope.{
  decode_challenge_request, XrplSessionRequest, SessionMethodDetails, SessionPayload,
  PaymentCredential, Gate, value_or, max_uint64, require_uint64, require_optional_uint64,
  prior_cumulative, payload_amount, check_channel, verify_envelope,
}

value_or-ok {ℓ} :
    {A : Type ℓ} (code : Code) (r : Result A) {a : A} → value_or code r ≡ ok a → r ≡ ok a
value_or-ok code (ok b) h = h
value_or-ok code (err value_error) h = absurd (cc)
value_or-ok code (err (store_error c)) h = absurd (cc)
value_or-ok code (err (service_error c)) h = absurd (cc)
value_or-ok code (err pending) h = absurd (cc)
value_or-ok code (err failure) h = absurd (cc)

pub not-eq-false : (b : Bool) → not b ≡ false → b ≡ true
not-eq-false true h = refl
not-eq-false false h = cc

-- The credential answers a live challenge of this service, for its recipient and its payer.
pub record IsAuthentic (g : Gate) (credential : PaymentCredential) (now : ℕ)
    (request : XrplSessionRequest) (payload : SessionPayload) : Type 0 where
  pub method : credential.challenge.method ≡ codes "xrpl"
  pub intent : credential.challenge.intent ≡ codes "session"
  pub bound :
      verify_challenge_binding g.sign credential.challenge none g.challenge_secrets ≡ ok true
  pub live :
      (date : Text)
      → credential.challenge.expires ≡ some date
      → (date ≡ []) ⊎ (now < g.instant date)
  pub requested : decode_challenge_request g.read_session credential.challenge ≡ ok request
  pub network :
      (details : SessionMethodDetails) (network : Network)
      → request.method_details ≡ some details
      → details.network ≡ some network
      → network ≡ g.network
  pub recipient : request.recipient ≡ g.recipient
  pub source :
      (d : XrplDid) × (parse_xrpl_did (or_empty credential.source) (some g.network) ≡ ok d)
      × (d.address ≡ g.payer)
  pub paid : credential.payload ≡ ok payload
  pub amount : int_of request.amount ≤ max_uint64
  pub cumulative : int_of (payload_amount payload) ≤ max_uint64
  pub prior :
      (details : SessionMethodDetails) (amount : Text)
      → request.method_details ≡ some details
      → details.cumulative_amount ≡ some amount
      → int_of amount ≤ max_uint64
  pub channel : AreAgreed request payload

ok_pair :
    {r s : XrplSessionRequest} {p q : SessionPayload}
    → ◌≡◌ {A = Result (XrplSessionRequest × SessionPayload)} (ok (r, p)) (ok (s, q))
    → (r ≡ s) × (p ≡ q)
ok_pair h = (ap (λ x. x.0) (ok_injective h), ap (λ x. x.1) (ok_injective h))

verify_envelope-IsAuthentic :
    (g : Gate) (credential : PaymentCredential) (now : ℕ) (request : XrplSessionRequest)
    (payload : SessionPayload)
    → verify_envelope g credential now ≡ ok (request, payload)
    → IsAuthentic g credential now request payload
unfolding verify_envelope
verify_envelope-IsAuthentic g credential now request payload h =
    >>=-inv (raise_if _ _) _ h λ _ e1 h. >>=-inv (raise_if _ _) _ h λ _ e2 h.
      >>=-inv (verify_challenge_binding g.sign credential.challenge none g.challenge_secrets) _ h
        λ b e3 h. >>=-inv (raise_if _ _) _ h λ _ e4 h. >>=-inv (raise_if _ _) _ h λ _ e5 h.
          >>=-inv (value_or _ (decode_challenge_request g.read_session credential.challenge)) _ h
            λ r e6 h. >>=-inv (raise_if _ _) _ h λ _ e7 h. >>=-inv (raise_if _ _) _ h λ _ e8 h.
              >>=-inv (value_or _ (parse_xrpl_did (or_empty credential.source) (some g.network))) _
                h
                λ d e9 h. >>=-inv (raise_if _ _) _ h λ _ e10 h.
                  >>=-inv (value_or _ credential.payload) _ h λ p e11 h.
                    >>=-inv (require_uint64 r.amount) _ h λ _ e12 h.
                      >>=-inv (require_uint64 (payload_amount p)) _ h λ _ e13 h.
                        >>=-inv (require_optional_uint64 (prior_cumulative r.method_details)) _ h
                          λ _ e14 h. >>=-inv (check_channel r p) _ h λ _ e15 h.
                            let (same_r, same_p) = ok_pair h in
                            let is_bound : b ≡ true = not-eq-false b (raise_if-eq-ok _ _ e4) in
                            let made : IsAuthentic g credential now r p = record {
                              method = is_not→eq _ _ (raise_if-eq-ok _ _ e1);
                              intent = is_not→eq _ _ (raise_if-eq-ok _ _ e2);
                              bound = e3 ∙ ap (λ x. ok x) is_bound;
                              live =
                                  expired-live g.instant credential.challenge now
                                    (raise_if-eq-ok _ _ e5);
                              requested = value_or-ok _ _ e6;
                              network =
                                  other-network r.method_details g.network (raise_if-eq-ok _ _ e7);
                              recipient = is_not→eq _ _ (raise_if-eq-ok _ _ e8);
                              source =
                                  (d, value_or-ok _ _ e9, is_not→eq _ _ (raise_if-eq-ok _ _ e10));
                              paid = value_or-ok _ _ e11;
                              amount = require_uint64-ok _ e12;
                              cumulative = require_uint64-ok _ e13;
                              prior = optional-within r.method_details e14;
                              channel = check_channel-AreAgreed r p e15;
                            } in
                            subst (λ x. IsAuthentic g credential now x payload) same_r
                              (subst (λ x. IsAuthentic g credential now r x) same_p made)

IsAuthentic-verify_envelope :
    (g : Gate) (credential : PaymentCredential) (now : ℕ) (request : XrplSessionRequest)
    (payload : SessionPayload)
    → IsAuthentic g credential now request payload
    → verify_envelope g credential now ≡ ok (request, payload)
unfolding verify_envelope
IsAuthentic-verify_envelope g credential now request payload a =
    let (d, parsed, address) = a.source in
    rw
      (
        is_not_refl _ _ a.method,
        is_not_refl _ _ a.intent,
        a.bound,
        live-expired g.instant credential.challenge now a.live,
        a.requested,
        network-other request.method_details g.network a.network,
        is_not_refl _ _ a.recipient,
        parsed,
        is_not_refl _ _ address,
        a.paid,
        within-require_uint64 request.amount a.amount,
        within-require_uint64 (payload_amount payload) a.cumulative,
        within-optional request.method_details a.prior,
        AreAgreed-check_channel request payload a.channel,
      )
      refl

-- The checks of the envelope return a request and a payload exactly where the challenge is an XRPL
-- session challenge that a configured secret signed and whose date, if any, lies ahead, the
-- request is what it decodes to and names the service's recipient and no other network, the source
-- is the DID of the payer on the service's network, the payload is the credential's, the amounts,
-- the challenge's prior amount included, fit in 64 bits, and either an open answers a challenge
-- that names no channel and starts from 0 or from nothing, or a claim's channel is the one that
-- the challenge names, in either case of its letters.
pub verify_envelope_iff :
    (g : Gate) (credential : PaymentCredential) (now : ℕ) (request : XrplSessionRequest)
    (payload : SessionPayload)
    → (verify_envelope g credential now ≡ ok (request, payload))
      ↔ IsAuthentic g credential now request payload
verify_envelope_iff g credential now request payload = (
  verify_envelope-IsAuthentic g credential now request payload,
  IsAuthentic-verify_envelope g credential now request payload,
)
