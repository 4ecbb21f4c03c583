-- ===== src/Service/Session.antt =====
-- `verify` of the payment-channel service: the envelope, and then the action of the payload.
pub mod Laws
pub mod Vouched
use xrpl_mpp_stack.Prelude.{ℕ, Option, none, some, []}
use xrpl_mpp_stack.Text.{Text}
use xrpl_mpp_stack.Service.World.{Action, lift, ◌>>=◌}
use xrpl_mpp_stack.Service.Steps.{Config, Credential, ActionKind, close, Environment}
use xrpl_mpp_stack.Service.Reply.{PayChannelVerificationResult}
use xrpl_mpp_stack.Service.Verify.{verify_claim_action}
use xrpl_mpp_stack.Service.Transaction.{OpenFacts, verify_open_transaction}
use xrpl_mpp_stack.Service.Open.{OpenEnvironment, verify_open}
use xrpl_mpp_stack.Service.Envelope.{
  Gate, PaymentCredential, XrplSessionRequest, SessionPayload, open_payload, claim_payload,
  verify_envelope,
}

-- The service: the settings of its checks, and those of its actions.
pub record PayChannelService : Type 0 where
  pub gate : Gate
  pub public_key : Text
  pub minimum_settle_delay : ℕ
  pub settlement_margin_seconds : ℕ
  pub redemption_lease_seconds : ℕ
  pub digest : Text → Text
  pub second : ℕ

abbrev pub config_of : PayChannelService → Config
config_of s = record {
  network = s.gate.network;
  recipient = s.gate.recipient;
  payer = s.gate.payer;
  public_key = s.public_key;
  redemption_lease_seconds = s.redemption_lease_seconds;
  digest = s.digest;
  second = s.second;
}

abbrev pub instant_of : (Text → ℕ) → Option Text → Option ℕ
instant_of instant none = none
instant_of instant (some t) = some (instant t)

-- What an action reads of the credential and its request.
abbrev pub credential_of :
    PayChannelService
    → PaymentCredential
    → XrplSessionRequest
    → ActionKind
    → Text
    → Text
    → Text
    → Credential
credential_of s credential request kind channel_id amount signature = record {
  challenge_id = credential.challenge.id;
  expires = instant_of s.gate.instant credential.challenge.expires;
  request_amount = request.amount;
  request_recipient = request.recipient;
  action = kind;
  channel_id = channel_id;
  amount = amount;
  signature = signature;
}

-- What a request meets: the clock of its checks, what the checks of an open transaction meet, and
-- the answers to the action of its payload. The settings of the service and the answer of the
-- checks take the place of those in `facts` and `opening`.
pub record SessionEnvironment : Type 0 where
  pub now : ℕ
  pub facts : Text → OpenFacts
  pub opening : OpenEnvironment
  pub claiming : Environment

abbrev pub facts_of : PayChannelService → SessionEnvironment → Text → OpenFacts
facts_of s env transaction = record (env.facts transaction) {
  payer = s.gate.payer;
  recipient = s.gate.recipient;
  public_key = s.public_key;
  minimum_settle_delay = s.minimum_settle_delay;
  settlement_margin_seconds = s.settlement_margin_seconds;
  instant = s.gate.instant;
}

abbrev pub opening_of :
    PayChannelService
    → PaymentCredential
    → SessionEnvironment
    → XrplSessionRequest
    → Text
    → OpenEnvironment
opening_of s credential env request transaction = record env.opening {
  decoded =
      verify_open_transaction (facts_of s env transaction) request.recipient
        credential.challenge.expires;
}

module _ (s : PayChannelService) (credential : PaymentCredential) (env : SessionEnvironment) where
  unfoldable pub act : XrplSessionRequest → SessionPayload → Action PayChannelVerificationResult
  act request (open_payload transaction amount signature) =
      verify_open (config_of s) (credential_of s credential request close [] amount signature)
        (opening_of s credential env request transaction)
  act request (claim_payload kind channel_id amount signature) =
      verify_claim_action (config_of s)
        (credential_of s credential request kind channel_id amount signature) env.claiming

  unfoldable pub verify : Action PayChannelVerificationResult
  verify = do
    (request, payload) ← lift (verify_envelope s.gate credential env.now)
    act request payload
