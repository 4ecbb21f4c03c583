-- ===== src/Service/Session/Vouched.antt =====
-- A whole request to the service: the claim signature behind its result.
use xrpl_mpp_stack.Prelude.{◌<◌, ◌≡◌, ap, true, [], Option, ok}
use xrpl_mpp_stack.Text.{Text, upper}
use xrpl_mpp_stack.Text.Decimal.{int_of}
use xrpl_mpp_stack.PayChannel.Store
use xrpl_mpp_stack.Service.World.{World, lift, on_store, store_to_service, catching, bind-inv}
use xrpl_mpp_stack.Service.Steps.{
  Config, Credential, Environment, close, looking, others, assert_record_binding,
}
use xrpl_mpp_stack.Service.Signature.{verify_claim_signature, verify_claim_signature-ok}
use xrpl_mpp_stack.Service.Claim.{raise_service, channel, registered}
use xrpl_mpp_stack.Service.Verify.{authenticate, verify_claim_action}
use xrpl_mpp_stack.Service.Reply.{PayChannelVerificationResult, OpenChannelSubmission}
use xrpl_mpp_stack.Service.Open.{OpenEnvironment, submission_of, open_channel, verify_open}
use xrpl_mpp_stack.Service.Open.Checked.{open_channel-returned}
use xrpl_mpp_stack.Service.Envelope.{
  PaymentCredential, XrplSessionRequest, SessionPayload, open_payload, claim_payload,
  verify_envelope,
}
use xrpl_mpp_stack.Service.Authentic.{IsAuthentic, verify_envelope_iff}
use xrpl_mpp_stack.Service.Session.{
  PayChannelService, config_of, credential_of, opening_of, SessionEnvironment, act, verify,
}

module _ (c : Config) (credential : Credential) (env : Environment) where
  authenticate-signed :
      (w : World) {v : World} {funded : Option Text}
      → authenticate c credential env w ≡ (ok funded, v)
      → env.verifier (channel c credential env) credential.amount credential.signature c.public_key
        ≡ ok true
  unfolding authenticate
  authenticate-signed w h =
      let id = channel c credential env in
      bind-inv (others c (env.turn looking)) _ h λ _ w1 e1 h.
        bind-inv (catching store_to_service (on_store (Store.get c.network id))) _ h
          λ found w2 e2 h. bind-inv (registered c credential env found env.loaded) _ h λ r w3 e3 h.
            bind-inv (lift (assert_record_binding c r id credential.request_recipient)) _ h
              λ _ w4 e4 h. bind-inv (raise_service _ _) _ h λ _ w5 e5 h.
                bind-inv
                  (lift (
                    verify_claim_signature env.verifier id credential.amount credential.signature
                      c.public_key))
                  _ h
                  λ _ w6 e6 h.
                    verify_claim_signature-ok env.verifier id credential.amount credential.signature
                      c.public_key (ap (λ x. x.0) e6)

  verify_claim_action-signed :
      (w : World) {w' : World} {out : PayChannelVerificationResult}
      → verify_claim_action c credential env w ≡ (ok out, w')
      → env.verifier (channel c credential env) credential.amount credential.signature c.public_key
        ≡ ok true
  unfolding verify_claim_action
  verify_claim_action-signed w h =
      bind-inv (authenticate c credential env) _ h λ funded v e h. authenticate-signed w e

verify_open-signed :
    (c : Config) (credential : Credential) (env : OpenEnvironment) (w : World) {w' : World}
    {out : PayChannelVerificationResult}
    → verify_open c credential env w ≡ (ok out, w')
    → (submitted : OpenChannelSubmission) × (submission_of env.submitted ≡ ok submitted)
      × (0 < int_of credential.amount
          → env.verifier
              (upper submitted.channel_id)
              credential.amount
              credential.signature
              c.public_key
            ≡ ok true)
unfolding verify_open
verify_open-signed c credential env w h = bind-inv (open_channel c credential env) _ h λ p v e h.
    let (decoded, returned, enough, within, signed) =
      open_channel-returned c credential env w (p.0) (p.1) e in
    (p.1, returned, signed)

-- The verifier has accepted the payload's signature, under the service's key: for a claim, of its
-- amount on the channel that it names; for an open with a voucher, of its amount on the channel that
-- its submission returned.
pub IsVouched : PayChannelService → SessionEnvironment → SessionPayload → Type 0
IsVouched s env (open_payload transaction amount signature) =
    (submitted : OpenChannelSubmission) × (submission_of env.opening.submitted ≡ ok submitted)
    × (0 < int_of amount
        → env.opening.verifier (upper submitted.channel_id) amount signature s.public_key ≡ ok true)
IsVouched s env (claim_payload kind channel_id amount signature) =
    env.claiming.verifier (upper channel_id) amount signature s.public_key ≡ ok true

module _ (s : PayChannelService) (credential : PaymentCredential) (env : SessionEnvironment) where
  act-IsVouched :
      (request : XrplSessionRequest) (payload : SessionPayload) (w w' : World)
      (out : PayChannelVerificationResult)
      → act s credential env request payload w ≡ (ok out, w')
      → IsVouched s env payload
  unfolding act IsVouched
  act-IsVouched request (open_payload transaction amount signature) w w' out h =
      verify_open-signed (config_of s)
        (credential_of s credential request close [] amount signature)
        (opening_of s credential env request transaction) w h
  act-IsVouched request (claim_payload kind channel_id amount signature) w w' out h =
      verify_claim_action-signed (config_of s)
        (credential_of s credential request kind channel_id amount signature) env.claiming w h

  -- Where a request to the service returns a result, replays included, its credential answers a live
  -- challenge that one of the service's secrets signed, and the verifier of claim signatures has
  -- accepted the credential's signature under the service's key: for a claim, of its amount on the
  -- channel that it names, and for an open with a voucher, of its amount on the channel that its
  -- submission returned.
  pub verify-IsVouched :
      (w w' : World) (out : PayChannelVerificationResult)
      → verify s credential env w ≡ (ok out, w')
      → (request : XrplSessionRequest) × (payload : SessionPayload) × IsAuthentic s.gate credential
          env.now request payload
        × IsVouched s env payload
  unfolding verify
  verify-IsVouched w w' out h =
      bind-inv (lift (verify_envelope s.gate credential env.now)) _ h λ p v e h. (
        p.0,
        p.1,
        (verify_envelope_iff s.gate credential env.now (p.0) (p.1)).0 (ap (λ x. x.0) e),
        act-IsVouched (p.0) (p.1) v w' out h,
      )
