-- ===== src/Service/Envelope.antt =====
-- `_verify_envelope` of the payment-channel service: the checks of a credential that need no store.
use xrpl_mpp_stack.Prelude.{
  ℕ, ◌-◌, ◌^◌, Bool, false, ◌||◌, not, if◌then◌else◌, or_raise, Option, none, some, List, [], ◌∷◌,
  leb, ltb, Code, Result, ok, err, service_error, value_error, ◌>>=◌, ◌>>◌, raise_if,
  unsupported_method, unsupported_intent, invalid_challenge_binding, challenge_expired,
  invalid_session_request, network_mismatch, recipient_mismatch, invalid_source, source_mismatch,
  invalid_session_payload, invalid_amount, channel_mismatch, cumulative_mismatch,
}
use xrpl_mpp_stack.Text.{Text, codes, text_eq, upper, is_empty}
use xrpl_mpp_stack.Text.Decimal.{int_of}
use xrpl_mpp_stack.Schema.{
  Network, is_drops, is_channel_id, is_classic_address, text_field, optional_text_field,
}
use xrpl_mpp_stack.Header.Challenge.{PaymentChallenge}
use xrpl_mpp_stack.Binding.{Sign, or_empty, verify_challenge_binding}
use xrpl_mpp_stack.Did.{network_of, parse_xrpl_did, is_other}
use xrpl_mpp_stack.Service.Steps.{ActionKind}

-- `XRPLSessionRequest`, with the method details that the checks read.
pub record SessionMethodDetails : Type 0 where
  pub network : Option Network
  pub cumulative_amount : Option Text

pub record XrplSessionRequest : Type 0 where
  pub amount : Text
  pub channel_id : Text
  pub recipient : Text
  pub method_details : Option SessionMethodDetails

-- A session request as its JSON holds it: the texts of its fields. Its other fields are free texts,
-- which the checks do not read.
pub record SessionDetailsJson : Type 0 where
  pub network : Option Text
  pub cumulative_amount : Option Text

pub record SessionJson : Type 0 where
  pub amount : Text
  pub currency : Option Text
  pub channel_id : Text
  pub recipient : Text
  pub method_details : Option SessionDetailsJson

-- A literal's field is not stripped.
abbrev pub optional_network : Option Text → Result (Option Network)
optional_network none = ok none
optional_network (some t) = do n ← or_raise (network_of t) value_error; ok (some n)

-- `XRPLSessionMethodDetails.model_validate`
unfoldable pub session_details : Option SessionDetailsJson → Result (Option SessionMethodDetails)
session_details none = ok none
session_details (some d) = do
  network ← optional_network d.network
  cumulative_amount ← optional_text_field is_drops d.cumulative_amount
  ok (some (record { network = network; cumulative_amount = cumulative_amount }))

abbrev pub is_other_currency : Option Text → Bool
is_other_currency none = false
is_other_currency (some t) = not (text_eq t (codes "XRP"))

-- `XRPLSessionRequest.model_validate`; a channel may be left empty.
unfoldable pub session_request : SessionJson → Result XrplSessionRequest
session_request j = do
  amount ← text_field is_drops j.amount
  raise_if (is_other_currency j.currency) value_error
  channel_id ← text_field (λ t. is_empty t || is_channel_id t) j.channel_id
  recipient ← text_field is_classic_address j.recipient
  method_details ← session_details j.method_details
  ok (record {
    amount = amount;
    channel_id = channel_id;
    recipient = recipient;
    method_details = method_details;
  })

-- `decode_challenge_request`, where a session request is asked for: a charge is none.
unfoldable pub decode_challenge_request :
    (Text → Result SessionJson) → PaymentChallenge → Result XrplSessionRequest
decode_challenge_request read_session challenge = do
  decoded ← read_session challenge.request
  if text_eq challenge.intent (codes "session") then session_request decoded else err value_error

-- The three payloads of a session credential.
pub data SessionPayload : Type 0 where
  open_payload : (transaction amount signature : Text) → SessionPayload
  claim_payload : (kind : ActionKind) (channel_id amount signature : Text) → SessionPayload

abbrev pub payload_amount : SessionPayload → Text
payload_amount (open_payload transaction amount signature) = amount
payload_amount (claim_payload kind channel_id amount signature) = amount

-- A credential, with what pydantic makes of its payload.
pub record PaymentCredential : Type 0 where
  pub challenge : PaymentChallenge
  pub source : Option Text
  pub payload : Result SessionPayload

-- The service's settings for the checks, and what it calls outside the repository: HMAC, the
-- JSON decoder with the shape of a session request, and the instant of a date.
pub record Gate : Type 0 where
  pub network : Network
  pub recipient : Text
  pub payer : Text
  pub challenge_secrets : List Text
  pub sign : Sign
  pub read_session : Text → Result SessionJson
  pub instant : Text → ℕ

-- `except (ValidationError, TypeError, ValueError) as exc: raise PayChannelVerificationError(code)`
abbrev pub value_or {ℓ} : {A : Type ℓ} → Code → Result A → Result A
value_or code (ok a) = ok a
value_or code (err value_error) = err (service_error code)
value_or code (err e) = err e

abbrev pub is_not : Text → Text → Bool
is_not s t = not (text_eq s t)

-- `challenge_is_expired`; an empty date counts as none.
abbrev pub is_due : (Text → ℕ) → ℕ → Text → Bool
is_due instant now [] = false
is_due instant now (c ∷ s) = leb (instant (c ∷ s)) now

unfoldable pub challenge_is_expired : (Text → ℕ) → PaymentChallenge → ℕ → Bool
challenge_is_expired instant challenge now = is_due instant now (or_empty challenge.expires)

abbrev pub max_uint64 : ℕ
max_uint64 = 2 ^ 64 - 1

-- `_require_uint64`
unfoldable pub require_uint64 : Text → Result (Unit {0})
require_uint64 value = raise_if (ltb max_uint64 (int_of value)) (service_error invalid_amount)

abbrev pub request_network : Option SessionMethodDetails → Option Network
request_network none = none
request_network (some d) = d.network

abbrev pub prior_cumulative : Option SessionMethodDetails → Option Text
prior_cumulative none = none
prior_cumulative (some d) = d.cumulative_amount

abbrev pub require_optional_uint64 : Option Text → Result (Unit {0})
require_optional_uint64 none = ok tt
require_optional_uint64 (some value) = require_uint64 value

-- `prior not in (None, "0")`
abbrev pub is_started : Option Text → Bool
is_started none = false
is_started (some t) = is_not t (codes "0")

-- The channel that the challenge binds and the one that the payload names.
unfoldable pub check_channel : XrplSessionRequest → SessionPayload → Result (Unit {0})
check_channel request (open_payload transaction amount signature) = do
  raise_if (is_not request.channel_id []) (service_error channel_mismatch)
  raise_if (is_started (prior_cumulative request.method_details))
      (service_error cumulative_mismatch)
check_channel request (claim_payload kind channel_id amount signature) = do
  raise_if (is_empty request.channel_id) (service_error channel_mismatch)
  raise_if (is_not (upper channel_id) (upper request.channel_id)) (service_error channel_mismatch)

-- `_verify_envelope`
unfoldable pub verify_envelope :
    Gate → PaymentCredential → ℕ → Result (XrplSessionRequest × SessionPayload)
verify_envelope g credential now = do
  let challenge = credential.challenge
  raise_if (is_not challenge.method (codes "xrpl")) (service_error unsupported_method)
  raise_if (is_not challenge.intent (codes "session")) (service_error unsupported_intent)
  bound ← verify_challenge_binding g.sign challenge none g.challenge_secrets
  raise_if (not bound) (service_error invalid_challenge_binding)
  raise_if (challenge_is_expired g.instant challenge now) (service_error challenge_expired)
  request ← value_or invalid_session_request (decode_challenge_request g.read_session challenge)
  raise_if (is_other (request_network request.method_details) g.network)
      (service_error network_mismatch)
  raise_if (is_not request.recipient g.recipient) (service_error recipient_mismatch)
  source ← value_or invalid_source (parse_xrpl_did (or_empty credential.source) (some g.network))
  raise_if (is_not source.address g.payer) (service_error source_mismatch)
  payload ← value_or invalid_session_payload credential.payload
  require_uint64 request.amount
  require_uint64 (payload_amount payload)
  require_optional_uint64 (prior_cumulative request.method_details)
  check_channel request payload
  ok (request, payload)
