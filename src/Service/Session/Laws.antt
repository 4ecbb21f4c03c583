-- ===== src/Service/Session/Laws.antt =====
-- A whole request to the service: what is paid.
use xrpl_mpp_stack.Prelude.{◌+◌, ◌≤◌, ◌<◌, ◌≡◌, sym, ap, subst, false, [], ok}
use xrpl_mpp_stack.Text.{Text, upper}
use xrpl_mpp_stack.Text.Decimal.{int_of}
use xrpl_mpp_stack.Dict.{lookup}
use xrpl_mpp_stack.PayChannel.Key.{channel_key}
use xrpl_mpp_stack.PayChannel.Store.Invariant.{IsStore}
use xrpl_mpp_stack.PayChannel.Store.Calls.{AreCalls}
use xrpl_mpp_stack.PayChannel.Store.Accounting.{cumulative_of}
use xrpl_mpp_stack.Service.World.{World, lift, bind-inv}
use xrpl_mpp_stack.Service.Steps.{Phase, close}
use xrpl_mpp_stack.Service.Reply.{PayChannelVerificationResult, OpenChannelSubmission}
use xrpl_mpp_stack.Service.Safe.{IsEnvironment}
use xrpl_mpp_stack.Service.Paid.{verify_claim_action-paid}
use xrpl_mpp_stack.Service.Open.{submission_of}
use xrpl_mpp_stack.Service.Open.Checked.{verify_open-paid}
use xrpl_mpp_stack.Service.Envelope.{
  PaymentCredential, XrplSessionRequest, SessionPayload, open_payload, claim_payload,
  verify_envelope,
}
use xrpl_mpp_stack.Service.Authentic.{IsAuthentic, verify_envelope_iff}
use xrpl_mpp_stack.Service.Transaction.{Transaction}
use xrpl_mpp_stack.Service.Sound.{IsOpenTransaction, verify_open_transaction-IsOpenTransaction}
use xrpl_mpp_stack.Service.Session.{
  PayChannelService, config_of, credential_of, facts_of, opening_of, SessionEnvironment, act,
  verify,
}

-- The stored cumulative amount of a channel rises by at least an amount.
abbrev pub HasRisen : PayChannelService → Text → Text → World → World → Type 0
HasRisen s channel_id amount w w' =
    (key : Text)
    → channel_key s.gate.network (upper channel_id) ≡ ok key
    → cumulative_of (lookup key w.store.records) + int_of amount
      ≤ cumulative_of (lookup key w'.store.records)

-- What the payload has paid: for a claim on the channel that it names; for an open, whose transaction
-- passes its checks and covers the amount, on the channel that its submission returned, where it
-- carries a voucher.
pub IsPaid :
    PayChannelService
    → PaymentCredential
    → SessionEnvironment
    → XrplSessionRequest
    → SessionPayload
    → World
    → World
    → Type 0
IsPaid s credential env request (open_payload transaction amount signature) w w' =
    (t : Transaction) × (funded : Text) × (submitted : OpenChannelSubmission) × IsOpenTransaction
      (facts_of s env transaction) request.recipient credential.challenge.expires t funded
    × (int_of amount ≤ int_of funded)
    × (submission_of env.opening.submitted ≡ ok submitted)
    × (0 < int_of amount → HasRisen s submitted.channel_id request.amount w w')
IsPaid s credential env request (claim_payload kind channel_id amount signature) w w' =
    HasRisen s channel_id request.amount w w'

module _ (s : PayChannelService) (credential : PaymentCredential) (env : SessionEnvironment)
    (turns : (p : Phase) → AreCalls (env.opening.turn p).calls)
    (answers : IsEnvironment env.claiming) where
  act-IsPaid :
      (request : XrplSessionRequest) (payload : SessionPayload) (w w' : World)
      (out : PayChannelVerificationResult)
      → IsStore w.store
      → act s credential env request payload w ≡ (ok out, w')
      → out.replayed ≡ false
      → IsPaid s credential env request payload w w'
  unfolding act IsPaid
  act-IsPaid request (open_payload transaction amount signature) w w' out st h fresh =
      let (funded, submitted, decoded, returned, enough, within, signed, rise) =
        verify_open-paid (config_of s)
          (credential_of s credential request close [] amount signature)
          (opening_of s credential env request transaction) turns w w' out st h in
      let (t, sound) =
        verify_open_transaction-IsOpenTransaction (facts_of s env transaction) request.recipient
          credential.challenge.expires funded decoded in
      (t, funded, submitted, sound, within, returned, λ pos key e. rise key e pos)
  act-IsPaid request (claim_payload kind channel_id amount signature) w w' out st h fresh = λ key e.
      verify_claim_action-paid (config_of s)
        (credential_of s credential request kind channel_id amount signature) env.claiming key w w'
        out answers st e h fresh

  -- Let the stored records, the loader's record and what others do meanwhile be valid. Where a
  -- request to the service returns a result that is no replay, its credential answers a live
  -- challenge that one of the service's secrets signed, for the service's network, recipient and
  -- payer, and the stored cumulative amount has risen by at least what the challenge asked for: for
  -- a claim on the channel that it names, and for an open with a voucher on the channel that its
  -- submission returned, with a transaction that passes its checks and covers the amount.
  pub verify-IsPaid :
      (w w' : World) (out : PayChannelVerificationResult)
      → IsStore w.store
      → verify s credential env w ≡ (ok out, w')
      → out.replayed ≡ false
      → (request : XrplSessionRequest) × (payload : SessionPayload) × IsAuthentic s.gate credential
          env.now request payload
        × IsPaid s credential env request payload w w'
  unfolding verify
  verify-IsPaid w w' out st h fresh =
      bind-inv (lift (verify_envelope s.gate credential env.now)) _ h λ p v e h.
        let same : w ≡ v = ap (λ x. x.1) e in
        let run = subst (λ x. act s credential env (p.0) (p.1) x ≡ (ok out, w')) (sym same) h in
        (
          p.0,
          p.1,
          (verify_envelope_iff s.gate credential env.now (p.0) (p.1)).0 (ap (λ x. x.0) e),
          act-IsPaid (p.0) (p.1) w w' out st run fresh,
        )
