-- ===== src/Witnesses/Open.antt =====
-- A concrete run of the open action's theorems.
use xrpl_mpp_stack.Prelude.{◌+◌, ◌≤◌, ◌<◌, ◌≡◌, refl, true, false, none, some, [], ◌∷◌, ◌++◌, ok}
use xrpl_mpp_stack.Text.{Text, codes, upper}
use xrpl_mpp_stack.Text.Decimal.{int_of}
use xrpl_mpp_stack.Dict.{lookup}
use xrpl_mpp_stack.Schema.{testnet}
use xrpl_mpp_stack.PayChannel.Key.{channel_key}
use xrpl_mpp_stack.PayChannel.Store.{PayChannelStore, empty_store}
use xrpl_mpp_stack.PayChannel.Store.Accounting.{cumulative_of}
use xrpl_mpp_stack.Service.World.{World}
use xrpl_mpp_stack.Service.Steps.{Config, Credential, voucher}
use xrpl_mpp_stack.Service.Reply.{PayChannelVerificationResult, OpenChannelSubmission}
use xrpl_mpp_stack.Service.Open.{OpenEnvironment, submission_of, verify_open}
use xrpl_mpp_stack.Service.Open.Checked.{verify_open-paid}
use xrpl_mpp_stack.Witnesses.{channel, opened, key, empty_store-IsStore}

abbrev config : Config
config = record {
  network = testnet;
  recipient = opened.recipient;
  payer = opened.payer;
  public_key = codes "ED";
  redemption_lease_seconds = 60;
  digest = λ t. t;
  second = 1;
}

abbrev credential : Credential
credential = record {
  challenge_id = codes "c1";
  expires = none;
  request_amount = codes "5";
  request_recipient = opened.recipient;
  action = voucher;
  channel_id = [];
  amount = codes "10";
  signature = codes "ab";
}

abbrev sent : OpenChannelSubmission
sent = record { channel_id = channel; tx_hash = channel }

abbrev environment : OpenEnvironment
environment = record {
  decoded = ok (codes "100");
  submitted = some (ok sent);
  verifier = λ i a s k. ok true;
  now = 1000000;
  tick = 1;
  turn = λ p. record { clock = 5; calls = []; claims = [] };
}

abbrev world : World
world = record { store = empty_store; claims = [] }

abbrev world_after : World
world_after = record {
  store = record empty_store {
    records =
        (
          key,
          record opened {
            cumulative = codes "10";
            signature = codes "AB";
            created_at = 5;
            updated_at = 5;
          },
        )
        ∷ [];
  };
  claims = (codes "facilitator:replay:paychannel-challenge:testnet" ++ (0 ∷ codes "c1"), none) ∷ [];
}

abbrev verified : PayChannelVerificationResult
verified = record {
  action = codes "open";
  challenge_id = codes "c1";
  network = testnet;
  payer = opened.payer;
  recipient = opened.recipient;
  channel_id = channel;
  cumulative = codes "10";
  previous = codes "0";
  reference = codes "open:" ++ (channel ++ (codes ":" ++ channel));
  replayed = false;
  finalized = false;
  tx_hash = some channel;
}

opened_test : verify_open config credential environment world ≡ (ok verified, world_after)
unfolding verify_open lookup xrpl_mpp_stack.Service.World.◌>>=◌ xrpl_mpp_stack.Text.text_eq
    xrpl_mpp_stack.Text.upper xrpl_mpp_stack.Text.strip_left xrpl_mpp_stack.Text.strip
    xrpl_mpp_stack.Text.starts_with xrpl_mpp_stack.Text.replace_first
    xrpl_mpp_stack.Text.Decimal.int_of xrpl_mpp_stack.Text.Decimal.str_of xrpl_mpp_stack.Dict.insert
    xrpl_mpp_stack.Dict.erase xrpl_mpp_stack.Schema.network_eq xrpl_mpp_stack.Schema.is_drops
    xrpl_mpp_stack.Schema.is_channel_id xrpl_mpp_stack.Schema.is_signature
    xrpl_mpp_stack.Schema.is_claim_signature xrpl_mpp_stack.Schema.is_classic_address
    xrpl_mpp_stack.Schema.text_field xrpl_mpp_stack.Schema.optional_text_field
    xrpl_mpp_stack.Schema.adapter xrpl_mpp_stack.HighWater.voucher_payload
    xrpl_mpp_stack.HighWater.high_water_mark xrpl_mpp_stack.HighWater.high_water_decision
    xrpl_mpp_stack.HighWater.evaluate_high_water xrpl_mpp_stack.HighWater.require_high_water_advance
    xrpl_mpp_stack.PayChannel.Record.validate_accounting
    xrpl_mpp_stack.PayChannel.Record.model_validate xrpl_mpp_stack.PayChannel.Record.high_water
    xrpl_mpp_stack.PayChannel.Record.record_eq xrpl_mpp_stack.PayChannel.Key.channel_key
    xrpl_mpp_stack.PayChannel.Key.redemption_lease_key
    xrpl_mpp_stack.PayChannel.Mutations.advance_result
    xrpl_mpp_stack.PayChannel.Mutations.require_record
    xrpl_mpp_stack.PayChannel.Mutations.refresh_funding
    xrpl_mpp_stack.PayChannel.Mutations.apply_decision
    xrpl_mpp_stack.PayChannel.Mutations.judge_voucher
    xrpl_mpp_stack.PayChannel.Mutations.advance_callback
    xrpl_mpp_stack.PayChannel.Mutations.advance_mutation
    xrpl_mpp_stack.PayChannel.Mutations.redeem_callback
    xrpl_mpp_stack.PayChannel.Mutations.redeem_mutation
    xrpl_mpp_stack.PayChannel.Mutations.finalize_callback
    xrpl_mpp_stack.PayChannel.Mutations.finalize_mutation
    xrpl_mpp_stack.PayChannel.Mutations.create_callback xrpl_mpp_stack.PayChannel.Store.commit
    xrpl_mpp_stack.PayChannel.Store.mutate xrpl_mpp_stack.PayChannel.Store.mutate_checked
    xrpl_mpp_stack.PayChannel.Store.create xrpl_mpp_stack.PayChannel.Store.get
    xrpl_mpp_stack.PayChannel.Store.advance xrpl_mpp_stack.PayChannel.Store.mark_redeemed
    xrpl_mpp_stack.PayChannel.Store.finalize xrpl_mpp_stack.PayChannel.Store.claim_under
    xrpl_mpp_stack.PayChannel.Store.claim_redemption xrpl_mpp_stack.PayChannel.Store.release_under
    xrpl_mpp_stack.PayChannel.Store.release_redemption xrpl_mpp_stack.PayChannel.Store.Calls.apply
    xrpl_mpp_stack.PayChannel.Store.Calls.run xrpl_mpp_stack.Service.World.on_store
    xrpl_mpp_stack.Service.World.catching xrpl_mpp_stack.Service.World.handling
    xrpl_mpp_stack.Service.Steps.others xrpl_mpp_stack.Service.Steps.challenge_retention_seconds
    xrpl_mpp_stack.Service.Steps.claim_call xrpl_mpp_stack.Service.Steps.claim_challenge_step
    xrpl_mpp_stack.Service.Steps.assert_record_binding
    xrpl_mpp_stack.Service.Steps.release_redemption_lease xrpl_mpp_stack.Service.Claim.import_failed
    xrpl_mpp_stack.Service.Claim.import_record xrpl_mpp_stack.Service.Claim.registered
    xrpl_mpp_stack.Service.Claim.redeem_claim xrpl_mpp_stack.Service.Claim.settle_latest
    xrpl_mpp_stack.Service.Claim.coordinate xrpl_mpp_stack.Service.Claim.settle_close
    xrpl_mpp_stack.Service.Claim.concluded xrpl_mpp_stack.Service.Reply.verification_result
    xrpl_mpp_stack.Service.Verify.settle_action xrpl_mpp_stack.Service.Verify.authenticate
    xrpl_mpp_stack.Replay.Claims.validate_retention xrpl_mpp_stack.Replay.Claims.purge
    xrpl_mpp_stack.Replay.Claims.challenge_key xrpl_mpp_stack.Replay.Claims.claim_at
    xrpl_mpp_stack.Replay.Claims.claim_challenge xrpl_mpp_stack.Replay.Claims.Laws.run
    xrpl_mpp_stack.Service.Open.open_channel xrpl_mpp_stack.Service.Open.record_channel
    xrpl_mpp_stack.Service.Open.registered_open xrpl_mpp_stack.Service.Open.found_or_created
    xrpl_mpp_stack.Service.Open.create_record xrpl_mpp_stack.Service.Open.create_failed
    xrpl_mpp_stack.Service.Signature.verify_claim_signature
    xrpl_mpp_stack.Service.Open.initial_signature xrpl_mpp_stack.Service.Open.first_voucher
    xrpl_mpp_stack.Service.Reply.submission xrpl_mpp_stack.Text.py_strip
    xrpl_mpp_stack.Text.trim_left
opened_test = refl

verify_open-paid_example :
    (funded : Text) × (submitted : OpenChannelSubmission) × (environment.decoded ≡ ok funded)
    × (submission_of environment.submitted ≡ ok submitted)
    × (int_of credential.request_amount ≤ int_of credential.amount)
    × (int_of credential.amount ≤ int_of funded)
    × (0 < int_of credential.amount
        → environment.verifier
            (upper submitted.channel_id)
            credential.amount
            credential.signature
            config.public_key
          ≡ ok true)
    × ((key : Text)
        → channel_key config.network (upper submitted.channel_id) ≡ ok key
        → 0 < int_of credential.amount
        → cumulative_of (lookup key world.store.records) + int_of credential.request_amount
          ≤ cumulative_of (lookup key world_after.store.records))
verify_open-paid_example =
    verify_open-paid config credential environment (λ p. tt) world world_after verified
      empty_store-IsStore opened_test
