-- ===== src/Witnesses/Session.antt =====
-- Concrete runs of the theorems on a whole request to the service.
use xrpl_mpp_stack.Prelude.{◌≡◌, ◌↔◌, refl, true, false, ◌/◌, Option, none, some, [], ◌∷◌, ◌++◌, ok}
use xrpl_mpp_stack.Text.{Text, codes}
use xrpl_mpp_stack.Schema.{testnet}
use xrpl_mpp_stack.PayChannel.Store.{PayChannelStore}
use xrpl_mpp_stack.Header.Challenge.{PaymentChallenge}
use xrpl_mpp_stack.Service.World.{World}
use xrpl_mpp_stack.Service.Steps.{voucher, Environment}
use xrpl_mpp_stack.Service.Reply.{PayChannelVerificationResult}
use xrpl_mpp_stack.Service.Safe.{IsEnvironment}
use xrpl_mpp_stack.Service.Envelope.{
  XrplSessionRequest, SessionJson, SessionPayload, claim_payload, PaymentCredential, Gate,
  verify_envelope,
}
use xrpl_mpp_stack.Service.Authentic.{IsAuthentic, verify_envelope_iff}
use xrpl_mpp_stack.Service.Transaction.{
  Transaction, Value, text, natural, OpenFacts, verify_open_transaction,
}
use xrpl_mpp_stack.Service.Sound.{IsOpenTransaction, verify_open_transaction-IsOpenTransaction}
use xrpl_mpp_stack.Service.Session.{PayChannelService, SessionEnvironment, verify}
use xrpl_mpp_stack.Service.Session.Laws.{IsPaid, verify-IsPaid}
use xrpl_mpp_stack.Service.Session.Vouched.{IsVouched, verify-IsVouched}
use xrpl_mpp_stack.Witnesses.{channel, opened, key, holding, holding-IsStore}

abbrev asked : XrplSessionRequest
asked = record {
  amount = codes "10";
  channel_id = channel;
  recipient = opened.recipient;
  method_details = none;
}

abbrev asked_json : SessionJson
asked_json = record {
  amount = codes "10";
  currency = some (codes "XRP");
  channel_id = channel;
  recipient = opened.recipient;
  method_details = none;
}

-- The payload itself as its signature, and a decoder that knows one request.
abbrev gate : Gate
gate = record {
  network = testnet;
  recipient = opened.recipient;
  payer = opened.payer;
  challenge_secrets = codes "key" ∷ [];
  sign = λ k p. p;
  read_session = λ t. ok asked_json;
  instant = λ t. 7;
}

abbrev service : PayChannelService
service = record {
  gate = gate;
  public_key = codes "ED";
  minimum_settle_delay = 3600;
  settlement_margin_seconds = 60;
  redemption_lease_seconds = 60;
  digest = λ t. t;
  second = 1;
}

abbrev challenge : PaymentChallenge
challenge = record {
  id = codes "r|xrpl|session|e30|||";
  realm = codes "r";
  method = codes "xrpl";
  intent = codes "session";
  request = codes "e30";
  digest = none;
  expires = none;
  description = none;
  header = none;
  opaque = none;
}

abbrev paying : SessionPayload
paying = claim_payload voucher channel (codes "10") (codes "ab")

abbrev credential : PaymentCredential
credential = record {
  challenge = challenge;
  source = some (codes "did:pkh:xrpl:testnet:rPayerPayerPayerPayerPayer");
  payload = ok paying;
}

abbrev answers : Environment
answers = record {
  loaded = none;
  verifier = λ i a s k. ok true;
  funding = none;
  settled = none;
  lease_id = codes "l1";
  now = 1000000;
  tick = 1;
  turn = λ p. record { clock = 5; calls = []; claims = [] };
}

-- A transaction of the payer that opens a channel.
abbrev creation : Transaction
creation =
    (codes "TransactionType", text (codes "PaymentChannelCreate"))
    ∷ (codes "Account", text opened.payer)
    ∷ (codes "Destination", text opened.recipient)
    ∷ (codes "PublicKey", text (codes "ed"))
    ∷ (codes "Amount", text (codes "100"))
    ∷ (codes "SettleDelay", natural 3600)
    ∷ (codes "LastLedgerSequence", natural 15)
    ∷ (codes "SigningPubKey", text (codes "ED"))
    ∷ (codes "TxnSignature", text (codes "30"))
    ∷ []

abbrev facts : OpenFacts
facts = record {
  payer = opened.payer;
  recipient = opened.recipient;
  public_key = codes "ED";
  minimum_settle_delay = 3600;
  settlement_margin_seconds = 60;
  decoded = ok (some creation);
  ledger_index = some (ok (some 10));
  instant = λ t. 9000000;
  clock = 5000000;
  milliseconds = λ d. d / 1000;
  now = 1000000000;
  verifier = λ t key signature. ok (opened.payer, true);
  authorizer = none;
}

abbrev environment : SessionEnvironment
environment = record {
  now = 5;
  facts = λ t. facts;
  opening = record {
    decoded = ok (codes "100");
    submitted = none;
    verifier = λ i a s k. ok true;
    now = 1000000;
    tick = 1;
    turn = λ p. record { clock = 5; calls = []; claims = [] };
  };
  claiming = answers;
}

answers-IsEnvironment : IsEnvironment answers
answers-IsEnvironment = record { loaded = λ r h. absurd (cc); turns = λ p. tt }

abbrev world : World
world = record { store = holding; claims = [] }

abbrev world_after : World
world_after = record {
  store = record holding {
    records =
        (key, record opened { cumulative = codes "10"; signature = codes "AB"; updated_at = 5 })
        ∷ [];
  };
  claims =
      (
        codes "facilitator:replay:paychannel-challenge:testnet"
            ++ (0 ∷ codes "r|xrpl|session|e30|||"),
        none,
      )
      ∷ [];
}

abbrev verified : PayChannelVerificationResult
verified = record {
  action = codes "voucher";
  challenge_id = codes "r|xrpl|session|e30|||";
  network = testnet;
  payer = opened.payer;
  recipient = opened.recipient;
  channel_id = channel;
  cumulative = codes "10";
  previous = codes "0";
  reference = channel ++ codes ":10";
  replayed = false;
  finalized = false;
  tx_hash = none;
}

verify_test : verify service credential environment world ≡ (ok verified, world_after)
unfolding verify verify_envelope xrpl_mpp_stack.Service.Verify.verify_claim_action
    xrpl_mpp_stack.Dict.lookup xrpl_mpp_stack.Service.World.◌>>=◌ xrpl_mpp_stack.Text.text_eq
    xrpl_mpp_stack.Text.upper xrpl_mpp_stack.Text.strip_left xrpl_mpp_stack.Text.strip
    xrpl_mpp_stack.Text.starts_with xrpl_mpp_stack.Text.replace_first
    xrpl_mpp_stack.Text.Decimal.int_of xrpl_mpp_stack.Text.Decimal.str_of xrpl_mpp_stack.Dict.insert
    xrpl_mpp_stack.Dict.erase xrpl_mpp_stack.Schema.network_eq xrpl_mpp_stack.Schema.is_drops
    xrpl_mpp_stack.Schema.is_channel_id xrpl_mpp_stack.Schema.is_signature
    xrpl_mpp_stack.Schema.is_claim_signature xrpl_mpp_stack.Schema.is_classic_address
    xrpl_mpp_stack.Schema.text_field xrpl_mpp_stack.Schema.optional_text_field
    xrpl_mpp_stack.Schema.adapter xrpl_mpp_stack.HighWater.voucher_payload
    xrpl_mpp_stack.HighWater.high_water_mark xrpl_mpp_stack.HighWater.high_water_decision
    xrpl_mpp_stack.HighWater.evaluate_high_water xrpl_mpp_stack.HighWater.require_high_water_advance
    xrpl_mpp_stack.PayChannel.Record.validate_accounting
    xrpl_mpp_stack.PayChannel.Record.model_validate xrpl_mpp_stack.PayChannel.Record.high_water
    xrpl_mpp_stack.PayChannel.Record.record_eq xrpl_mpp_stack.PayChannel.Key.channel_key
    xrpl_mpp_stack.PayChannel.Key.redemption_lease_key
    xrpl_mpp_stack.PayChannel.Mutations.advance_result
    xrpl_mpp_stack.PayChannel.Mutations.require_record
    xrpl_mpp_stack.PayChannel.Mutations.refresh_funding
    xrpl_mpp_stack.PayChannel.Mutations.apply_decision
    xrpl_mpp_stack.PayChannel.Mutations.judge_voucher
    xrpl_mpp_stack.PayChannel.Mutations.advance_callback
    xrpl_mpp_stack.PayChannel.Mutations.advance_mutation
    xrpl_mpp_stack.PayChannel.Mutations.redeem_callback
    xrpl_mpp_stack.PayChannel.Mutations.redeem_mutation
    xrpl_mpp_stack.PayChannel.Mutations.finalize_callback
    xrpl_mpp_stack.PayChannel.Mutations.finalize_mutation
    xrpl_mpp_stack.PayChannel.Mutations.create_callback xrpl_mpp_stack.PayChannel.Store.commit
    xrpl_mpp_stack.PayChannel.Store.mutate xrpl_mpp_stack.PayChannel.Store.mutate_checked
    xrpl_mpp_stack.PayChannel.Store.create xrpl_mpp_stack.PayChannel.Store.get
    xrpl_mpp_stack.PayChannel.Store.advance xrpl_mpp_stack.PayChannel.Store.mark_redeemed
    xrpl_mpp_stack.PayChannel.Store.finalize xrpl_mpp_stack.PayChannel.Store.claim_under
    xrpl_mpp_stack.PayChannel.Store.claim_redemption xrpl_mpp_stack.PayChannel.Store.release_under
    xrpl_mpp_stack.PayChannel.Store.release_redemption xrpl_mpp_stack.PayChannel.Store.Calls.apply
    xrpl_mpp_stack.PayChannel.Store.Calls.run xrpl_mpp_stack.Service.World.on_store
    xrpl_mpp_stack.Service.World.catching xrpl_mpp_stack.Service.World.handling
    xrpl_mpp_stack.Service.Steps.others xrpl_mpp_stack.Service.Steps.challenge_retention_seconds
    xrpl_mpp_stack.Service.Steps.claim_call xrpl_mpp_stack.Service.Steps.claim_challenge_step
    xrpl_mpp_stack.Service.Steps.assert_record_binding
    xrpl_mpp_stack.Service.Steps.release_redemption_lease xrpl_mpp_stack.Service.Claim.import_failed
    xrpl_mpp_stack.Service.Claim.import_record xrpl_mpp_stack.Service.Claim.registered
    xrpl_mpp_stack.Service.Claim.redeem_claim xrpl_mpp_stack.Service.Claim.settle_latest
    xrpl_mpp_stack.Service.Claim.coordinate xrpl_mpp_stack.Service.Claim.settle_close
    xrpl_mpp_stack.Service.Claim.concluded xrpl_mpp_stack.Service.Reply.verification_result
    xrpl_mpp_stack.Service.Signature.verify_claim_signature
    xrpl_mpp_stack.Service.Verify.settle_action xrpl_mpp_stack.Service.Verify.authenticate
    xrpl_mpp_stack.Replay.Claims.validate_retention xrpl_mpp_stack.Replay.Claims.purge
    xrpl_mpp_stack.Replay.Claims.challenge_key xrpl_mpp_stack.Replay.Claims.claim_at
    xrpl_mpp_stack.Replay.Claims.claim_challenge xrpl_mpp_stack.Replay.Claims.Laws.run
    xrpl_mpp_stack.Text.py_strip xrpl_mpp_stack.Text.trim_left xrpl_mpp_stack.Service.Session.act
    xrpl_mpp_stack.Service.Envelope.challenge_is_expired
    xrpl_mpp_stack.Service.Envelope.decode_challenge_request
    xrpl_mpp_stack.Service.Envelope.session_request xrpl_mpp_stack.Service.Envelope.session_details
    xrpl_mpp_stack.Service.Envelope.require_uint64 xrpl_mpp_stack.Service.Envelope.check_channel
    xrpl_mpp_stack.Did.parse_xrpl_did xrpl_mpp_stack.Did.xrpl_did xrpl_mpp_stack.Did.network_of
    xrpl_mpp_stack.Did.split_on xrpl_mpp_stack.Binding.verify_challenge_binding
    xrpl_mpp_stack.Binding.key_ring xrpl_mpp_stack.Binding.normalized_secrets
    xrpl_mpp_stack.Binding.verifies xrpl_mpp_stack.Binding.build_challenge_id
    xrpl_mpp_stack.Binding.challenge_slots xrpl_mpp_stack.Binding.bound_slots
    xrpl_mpp_stack.Binding.join_bars
verify_test = refl

verify_envelope_iff_example :
    (verify_envelope gate credential 5 ≡ ok (asked, paying))
    ↔ IsAuthentic gate credential 5 asked paying
verify_envelope_iff_example = verify_envelope_iff gate credential 5 asked paying

verify-IsPaid_example :
    (request : XrplSessionRequest) × (payload : SessionPayload) × IsAuthentic service.gate
      credential environment.now request payload
    × IsPaid service credential environment request payload world world_after
verify-IsPaid_example =
    verify-IsPaid service credential environment (λ p. tt) answers-IsEnvironment world world_after
      verified holding-IsStore verify_test refl

verify-IsVouched_example :
    (request : XrplSessionRequest) × (payload : SessionPayload) × IsAuthentic service.gate
      credential environment.now request payload
    × IsVouched service environment payload
verify-IsVouched_example =
    verify-IsVouched service credential environment world world_after verified verify_test

-- A date at which the transaction can stand for five ledgers.
abbrev deadline : Option Text
deadline = some (codes "2026-01-01T00:00:00Z")

creation-verified : verify_open_transaction facts opened.recipient deadline ≡ ok (codes "100")
unfolding verify_open_transaction xrpl_mpp_stack.Dict.lookup xrpl_mpp_stack.Text.text_eq
    xrpl_mpp_stack.Text.upper xrpl_mpp_stack.Schema.is_drops xrpl_mpp_stack.Text.Decimal.int_of
    xrpl_mpp_stack.Service.Envelope.decode_challenge_request
    xrpl_mpp_stack.Service.Envelope.session_request xrpl_mpp_stack.Service.Envelope.session_details
    xrpl_mpp_stack.Service.Envelope.require_uint64 xrpl_mpp_stack.Service.Transaction.check_bounds
    xrpl_mpp_stack.Service.Transaction.remaining_ms
    xrpl_mpp_stack.Service.Transaction.check_cancel_after
    xrpl_mpp_stack.Service.Transaction.check_signature
    xrpl_mpp_stack.Service.Transaction.check_signer
creation-verified = refl

verify_open_transaction-IsOpenTransaction_example :
    (t : Transaction) × IsOpenTransaction facts opened.recipient deadline t (codes "100")
verify_open_transaction-IsOpenTransaction_example =
    verify_open_transaction-IsOpenTransaction facts opened.recipient deadline (codes "100")
      creation-verified
