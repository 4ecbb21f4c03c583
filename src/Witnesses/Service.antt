-- ===== src/Witnesses/Service.antt =====
-- Concrete runs of the service's and the worker's theorems.
use xrpl_mpp_stack.Prelude.{ℕ, ◌+◌, ◌≤◌, ◌≡◌, refl, true, false, none, [], ◌∷◌, ◌++◌, ok}
use xrpl_mpp_stack.Text.{Text, codes, py_strip, trim_left}
use xrpl_mpp_stack.Text.Decimal.{int_of}
use xrpl_mpp_stack.Dict.{lookup}
use xrpl_mpp_stack.Schema.{testnet}
use xrpl_mpp_stack.PayChannel.Record.{PayChannelRecord}
use xrpl_mpp_stack.PayChannel.Scan.{Page, scan}
use xrpl_mpp_stack.PayChannel.Store.{PayChannelStore}
use xrpl_mpp_stack.PayChannel.Store.Accounting.{cumulative_of}
use xrpl_mpp_stack.Service.World.{World}
use xrpl_mpp_stack.Service.Steps.{Config, Credential, voucher, Environment}
use xrpl_mpp_stack.Service.Reply.{PayChannelVerificationResult}
use xrpl_mpp_stack.Service.Verify.{verify_claim_action}
use xrpl_mpp_stack.Service.Safe.{IsEnvironment}
use xrpl_mpp_stack.Service.Paid.{verify_claim_action-paid}
use xrpl_mpp_stack.Worker.{WorkerSettings, RedemptionSweepResult, Visit, run_once}
use xrpl_mpp_stack.Worker.Tally.{waiting, stale, run_once-IsCounted, run_once-IsEarned}
use xrpl_mpp_stack.Witnesses.{channel, opened, key, holding, holding-IsStore, channel_key-channel}

abbrev config : Config
config = record {
  network = testnet;
  recipient = opened.recipient;
  payer = opened.payer;
  public_key = codes "ED";
  redemption_lease_seconds = 60;
  digest = λ t. t;
  second = 1;
}

abbrev credential : Credential
credential = record {
  challenge_id = codes "c1";
  expires = none;
  request_amount = codes "10";
  request_recipient = opened.recipient;
  action = voucher;
  channel_id = channel;
  amount = codes "10";
  signature = codes "ab";
}

abbrev environment : Environment
environment = record {
  loaded = none;
  verifier = λ i a s k. ok true;
  funding = none;
  settled = none;
  lease_id = codes "l1";
  now = 1000000;
  tick = 1;
  turn = λ p. record { clock = 5; calls = []; claims = [] };
}

environment-IsEnvironment : IsEnvironment environment
environment-IsEnvironment = record { loaded = λ r h. absurd (cc); turns = λ p. tt }

abbrev world : World
world = record { store = holding; claims = [] }

abbrev paid_store : PayChannelStore
paid_store = record holding {
  records =
      (key, record opened { cumulative = codes "10"; signature = codes "AB"; updated_at = 5 }) ∷ [];
}

abbrev world_after : World
world_after = record {
  store = paid_store;
  claims = (codes "facilitator:replay:paychannel-challenge:testnet" ++ (0 ∷ codes "c1"), none) ∷ [];
}

abbrev verified : PayChannelVerificationResult
verified = record {
  action = codes "voucher";
  challenge_id = codes "c1";
  network = testnet;
  payer = opened.payer;
  recipient = opened.recipient;
  channel_id = channel;
  cumulative = codes "10";
  previous = codes "0";
  reference = channel ++ codes ":10";
  replayed = false;
  finalized = false;
  tx_hash = none;
}

verified_test : verify_claim_action config credential environment world ≡ (ok verified, world_after)
unfolding verify_claim_action lookup xrpl_mpp_stack.Service.World.◌>>=◌ xrpl_mpp_stack.Text.text_eq
    xrpl_mpp_stack.Text.upper xrpl_mpp_stack.Text.strip_left xrpl_mpp_stack.Text.strip
    xrpl_mpp_stack.Text.starts_with xrpl_mpp_stack.Text.replace_first
    xrpl_mpp_stack.Text.Decimal.int_of xrpl_mpp_stack.Text.Decimal.str_of xrpl_mpp_stack.Dict.insert
    xrpl_mpp_stack.Dict.erase xrpl_mpp_stack.Schema.network_eq xrpl_mpp_stack.Schema.is_drops
    xrpl_mpp_stack.Schema.is_channel_id xrpl_mpp_stack.Schema.is_signature
    xrpl_mpp_stack.Schema.is_claim_signature xrpl_mpp_stack.Schema.is_classic_address
    xrpl_mpp_stack.Schema.text_field xrpl_mpp_stack.Schema.optional_text_field
    xrpl_mpp_stack.Schema.adapter xrpl_mpp_stack.HighWater.voucher_payload
    xrpl_mpp_stack.HighWater.high_water_mark xrpl_mpp_stack.HighWater.high_water_decision
    xrpl_mpp_stack.HighWater.evaluate_high_water xrpl_mpp_stack.HighWater.require_high_water_advance
    xrpl_mpp_stack.PayChannel.Record.validate_accounting
    xrpl_mpp_stack.PayChannel.Record.model_validate xrpl_mpp_stack.PayChannel.Record.high_water
    xrpl_mpp_stack.PayChannel.Record.record_eq xrpl_mpp_stack.PayChannel.Key.channel_key
    xrpl_mpp_stack.PayChannel.Key.redemption_lease_key
    xrpl_mpp_stack.PayChannel.Mutations.advance_result
    xrpl_mpp_stack.PayChannel.Mutations.require_record
    xrpl_mpp_stack.PayChannel.Mutations.refresh_funding
    xrpl_mpp_stack.PayChannel.Mutations.apply_decision
    xrpl_mpp_stack.PayChannel.Mutations.judge_voucher
    xrpl_mpp_stack.PayChannel.Mutations.advance_callback
    xrpl_mpp_stack.PayChannel.Mutations.advance_mutation
    xrpl_mpp_stack.PayChannel.Mutations.redeem_callback
    xrpl_mpp_stack.PayChannel.Mutations.redeem_mutation
    xrpl_mpp_stack.PayChannel.Mutations.finalize_callback
    xrpl_mpp_stack.PayChannel.Mutations.finalize_mutation
    xrpl_mpp_stack.PayChannel.Mutations.create_callback xrpl_mpp_stack.PayChannel.Store.commit
    xrpl_mpp_stack.PayChannel.Store.mutate xrpl_mpp_stack.PayChannel.Store.mutate_checked
    xrpl_mpp_stack.PayChannel.Store.create xrpl_mpp_stack.PayChannel.Store.get
    xrpl_mpp_stack.PayChannel.Store.advance xrpl_mpp_stack.PayChannel.Store.mark_redeemed
    xrpl_mpp_stack.PayChannel.Store.finalize xrpl_mpp_stack.PayChannel.Store.claim_under
    xrpl_mpp_stack.PayChannel.Store.claim_redemption xrpl_mpp_stack.PayChannel.Store.release_under
    xrpl_mpp_stack.PayChannel.Store.release_redemption xrpl_mpp_stack.PayChannel.Store.Calls.apply
    xrpl_mpp_stack.PayChannel.Store.Calls.run xrpl_mpp_stack.Service.World.on_store
    xrpl_mpp_stack.Service.World.catching xrpl_mpp_stack.Service.World.handling
    xrpl_mpp_stack.Service.Steps.others xrpl_mpp_stack.Service.Steps.challenge_retention_seconds
    xrpl_mpp_stack.Service.Steps.claim_call xrpl_mpp_stack.Service.Steps.claim_challenge_step
    xrpl_mpp_stack.Service.Steps.assert_record_binding
    xrpl_mpp_stack.Service.Steps.release_redemption_lease xrpl_mpp_stack.Service.Claim.import_failed
    xrpl_mpp_stack.Service.Claim.import_record xrpl_mpp_stack.Service.Claim.registered
    xrpl_mpp_stack.Service.Claim.redeem_claim xrpl_mpp_stack.Service.Claim.settle_latest
    xrpl_mpp_stack.Service.Claim.coordinate xrpl_mpp_stack.Service.Claim.settle_close
    xrpl_mpp_stack.Service.Claim.concluded xrpl_mpp_stack.Service.Reply.verification_result
    xrpl_mpp_stack.Service.Signature.verify_claim_signature
    xrpl_mpp_stack.Service.Verify.settle_action xrpl_mpp_stack.Service.Verify.authenticate
    xrpl_mpp_stack.Replay.Claims.validate_retention xrpl_mpp_stack.Replay.Claims.purge
    xrpl_mpp_stack.Replay.Claims.challenge_key xrpl_mpp_stack.Replay.Claims.claim_at
    xrpl_mpp_stack.Replay.Claims.claim_challenge xrpl_mpp_stack.Replay.Claims.Laws.run py_strip
    trim_left
verified_test = refl

verify_claim_action-paid_example :
    cumulative_of (lookup key world.store.records) + int_of credential.request_amount
    ≤ cumulative_of (lookup key world_after.store.records)
unfolding xrpl_mpp_stack.Text.upper
verify_claim_action-paid_example =
    verify_claim_action-paid config credential environment key world world_after verified
      environment-IsEnvironment holding-IsStore channel_key-channel verified_test refl

abbrev worker : WorkerSettings
worker = record { network = testnet; idle_close_ms = 100; batch_size = 10; lease_seconds = 60 }

abbrev visits : ℕ → Visit
visits i = record {
  settled = ok (codes "tx");
  clock = 20;
  lease_id = codes "l2";
  before = [];
  before_mark = [];
  before_close = [];
  before_release = [];
}

abbrev swept : RedemptionSweepResult
swept = record { inspected = 1; redeemed = 0; finalized = 1; leased_elsewhere = 0; failed = 0 }

swept_test : (run_once worker 0 500 visits world).0.0 ≡ ok swept
unfolding run_once lookup xrpl_mpp_stack.Service.World.◌>>=◌ xrpl_mpp_stack.Service.World.on_store
    xrpl_mpp_stack.Text.text_eq xrpl_mpp_stack.Text.upper xrpl_mpp_stack.Text.strip_left
    xrpl_mpp_stack.Text.strip xrpl_mpp_stack.Text.starts_with xrpl_mpp_stack.Text.replace_first
    xrpl_mpp_stack.Text.Decimal.int_of xrpl_mpp_stack.Text.Decimal.str_of xrpl_mpp_stack.Dict.insert
    xrpl_mpp_stack.Dict.erase xrpl_mpp_stack.Schema.network_eq xrpl_mpp_stack.Schema.is_drops
    xrpl_mpp_stack.Schema.is_channel_id xrpl_mpp_stack.Schema.is_signature
    xrpl_mpp_stack.Schema.is_claim_signature xrpl_mpp_stack.Schema.is_classic_address
    xrpl_mpp_stack.Schema.text_field xrpl_mpp_stack.Schema.optional_text_field
    xrpl_mpp_stack.Schema.adapter xrpl_mpp_stack.HighWater.voucher_payload
    xrpl_mpp_stack.HighWater.high_water_mark xrpl_mpp_stack.HighWater.high_water_decision
    xrpl_mpp_stack.HighWater.evaluate_high_water xrpl_mpp_stack.HighWater.require_high_water_advance
    xrpl_mpp_stack.PayChannel.Record.validate_accounting
    xrpl_mpp_stack.PayChannel.Record.model_validate xrpl_mpp_stack.PayChannel.Record.high_water
    xrpl_mpp_stack.PayChannel.Record.record_eq xrpl_mpp_stack.PayChannel.Key.channel_key
    xrpl_mpp_stack.PayChannel.Key.redemption_lease_key
    xrpl_mpp_stack.PayChannel.Mutations.advance_result
    xrpl_mpp_stack.PayChannel.Mutations.require_record
    xrpl_mpp_stack.PayChannel.Mutations.refresh_funding
    xrpl_mpp_stack.PayChannel.Mutations.apply_decision
    xrpl_mpp_stack.PayChannel.Mutations.judge_voucher
    xrpl_mpp_stack.PayChannel.Mutations.advance_callback
    xrpl_mpp_stack.PayChannel.Mutations.advance_mutation
    xrpl_mpp_stack.PayChannel.Mutations.redeem_callback
    xrpl_mpp_stack.PayChannel.Mutations.redeem_mutation
    xrpl_mpp_stack.PayChannel.Mutations.finalize_callback
    xrpl_mpp_stack.PayChannel.Mutations.finalize_mutation
    xrpl_mpp_stack.PayChannel.Mutations.create_callback xrpl_mpp_stack.PayChannel.Store.commit
    xrpl_mpp_stack.PayChannel.Store.mutate xrpl_mpp_stack.PayChannel.Store.mutate_checked
    xrpl_mpp_stack.PayChannel.Store.create xrpl_mpp_stack.PayChannel.Store.get
    xrpl_mpp_stack.PayChannel.Store.advance xrpl_mpp_stack.PayChannel.Store.mark_redeemed
    xrpl_mpp_stack.PayChannel.Store.finalize xrpl_mpp_stack.PayChannel.Store.claim_under
    xrpl_mpp_stack.PayChannel.Store.claim_redemption xrpl_mpp_stack.PayChannel.Store.release_under
    xrpl_mpp_stack.PayChannel.Store.release_redemption xrpl_mpp_stack.PayChannel.Store.Calls.apply
    xrpl_mpp_stack.PayChannel.Store.Calls.run xrpl_mpp_stack.PayChannel.Scan.text_leb
    xrpl_mpp_stack.PayChannel.Scan.sorted xrpl_mpp_stack.PayChannel.Scan.records_at
    xrpl_mpp_stack.PayChannel.Scan.network_records xrpl_mpp_stack.PayChannel.Scan.page_of
    xrpl_mpp_stack.PayChannel.Scan.scan xrpl_mpp_stack.Worker.meanwhile
    xrpl_mpp_stack.Worker.attempt xrpl_mpp_stack.Worker.idle_close
    xrpl_mpp_stack.Worker.close_if_idle xrpl_mpp_stack.Worker.settle_and_mark
    xrpl_mpp_stack.Worker.release_lease xrpl_mpp_stack.Worker.after_mark
    xrpl_mpp_stack.Worker.redeem_under xrpl_mpp_stack.Worker.visit xrpl_mpp_stack.Worker.sweep
    py_strip trim_left
swept_test = refl

run_once-IsCounted_example :
    (swept.redeemed + swept.leased_elsewhere ≤ swept.inspected)
    × (swept.finalized + swept.failed + swept.leased_elsewhere ≤ swept.inspected)
run_once-IsCounted_example = run_once-IsCounted worker 0 500 visits world swept swept_test

abbrev swept_page : Page PayChannelRecord
swept_page = record { records = opened ∷ []; cursor = 0 }

swept_page_test : scan worker.network 0 worker.batch_size world.store ≡ ok swept_page
unfolding lookup xrpl_mpp_stack.Schema.network_eq xrpl_mpp_stack.PayChannel.Scan.text_leb
    xrpl_mpp_stack.PayChannel.Scan.sorted xrpl_mpp_stack.PayChannel.Scan.records_at
    xrpl_mpp_stack.PayChannel.Scan.network_records xrpl_mpp_stack.PayChannel.Scan.page_of scan
    xrpl_mpp_stack.Text.starts_with xrpl_mpp_stack.Text.text_eq
swept_page_test = refl

run_once-IsEarned_example :
    (swept.redeemed + swept.leased_elsewhere ≤ waiting swept_page.records)
    × (swept.finalized ≤ stale worker 500 swept_page.records)
run_once-IsEarned_example =
    run_once-IsEarned worker 0 500 visits world swept_page swept swept_page_test swept_test
