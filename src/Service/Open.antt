-- ===== src/Service/Open.antt =====
-- `_verify_open` of the payment-channel service: the open transaction is submitted, the record of its
-- channel is created, and its first voucher is accepted.
pub mod Safe
pub mod Checked
use xrpl_mpp_stack.Prelude.{
  ℕ, Bool, true, false, not, Option, none, some, ◌∷◌, ◌++◌, Error, Result, ok, err, ltb,
  store_error, service_error, pending, short_payment, channel_exhausted, open_submission_required,
  open_submission_failed, channel_conflict, channel_replay, if◌then◌else◌,
}
use xrpl_mpp_stack.Text.{Text, codes, text_eq, upper}
use xrpl_mpp_stack.Text.Decimal.{int_of}
use xrpl_mpp_stack.HighWater.{Status, advanced}
use xrpl_mpp_stack.PayChannel.Record.{PayChannelRecord, model_validate}
use xrpl_mpp_stack.PayChannel.Mutations.{PayChannelAdvanceResult}
use xrpl_mpp_stack.PayChannel.Store
use xrpl_mpp_stack.PayChannel.Store.{AdvanceCall}
use xrpl_mpp_stack.Service.World.{
  Action, pure, raise, lift, ◌>>=◌, ◌>>◌, on_store, store_to_service, catching, handling, rewrap,
}
use xrpl_mpp_stack.Service.Steps.{
  Config, Credential, Turn, Phase, looking, importing, retrying, claiming, advancing, others,
  claim_challenge_step, assert_record_binding, advance_failure,
}
use xrpl_mpp_stack.Service.Claim.{raise_service, is_conflict}
use xrpl_mpp_stack.Service.Signature.{verify_claim_signature}
use xrpl_mpp_stack.Service.Reply.{
  PayChannelVerificationResult, verification_result, OpenChannelSubmission, submission,
}

-- What an open request meets: the funding of the decoded transaction or the refusal of its checks,
-- the submitter's answer (`none` where there is none), the verifier of claim signatures, the clocks
-- of the challenge's claim, and the turns. The turn `importing` comes before the record is created.
pub record OpenEnvironment : Type 0 where
  pub decoded : Result Text
  pub submitted : Option (Result OpenChannelSubmission)
  pub verifier : Text → Text → Text → Text → Result Bool
  pub now : ℕ
  pub tick : ℕ
  pub turn : Phase → Turn

-- The handlers of the submission.
abbrev pub submit_failed : Error → Error
submit_failed (service_error code) = service_error code
submit_failed pending = pending
submit_failed e = service_error open_submission_failed

abbrev pub validated : Result OpenChannelSubmission → Result OpenChannelSubmission
validated (ok s) = submission s
validated (err e) = err e

abbrev pub submission_of : Option (Result OpenChannelSubmission) → Result OpenChannelSubmission
submission_of none = err (service_error open_submission_required)
submission_of (some answer) = rewrap submit_failed (validated answer)

-- The record read again after a conflict, or the conflict itself.
abbrev pub present_or : Error → Option PayChannelRecord → Action PayChannelRecord
present_or e none = raise e
present_or e (some r) = pure r

-- An open names no channel: the credential's `channel_id` and `action` are not read.
module _ (c : Config) (credential : Credential) (env : OpenEnvironment) where
  abbrev pub candidate : Text → Text → PayChannelRecord
  candidate id funded = record {
    network = c.network;
    channel_id = id;
    payer = c.payer;
    recipient = c.recipient;
    funded = funded;
    cumulative = codes "0";
    signature = codes "";
    redeemed = codes "0";
    created_at = (env.turn importing).clock;
    updated_at = (env.turn importing).clock;
    finalized = false;
    finalized_at = none;
    finalized_reason = none;
    redeemed_at = none;
    redemption_reference = none;
  }

  -- `except PayChannelStoreError` around the creation.
  unfoldable pub create_failed : Text → Error → Action (PayChannelRecord × Bool)
  create_failed id (store_error code) =
      if is_conflict code
      then (do
        others c (env.turn retrying)
        found ← on_store (Store.get c.network id)
        r ← present_or (store_error code) found
        pure (r, false))
      else raise (store_error code)
  create_failed id e = raise e

  unfoldable pub create_record : Text → Text → Action (PayChannelRecord × Bool)
  create_record id funded = do
    others c (env.turn importing)
    made ← lift (model_validate (candidate id funded))
    handling (create_failed id)
        (do created ← on_store (Store.create made); pure (created.record_of, created.created))

  -- The record that is stored, or a new one; and whether this call has created it.
  unfoldable pub found_or_created :
      Text → Text → Option PayChannelRecord → Action (PayChannelRecord × Bool)
  found_or_created id funded (some r) = pure (r, false)
  found_or_created id funded none = create_record id funded

  -- The `try` from the store's first read on.
  unfoldable pub registered_open : Text → Text → Action (PayChannelRecord × Bool)
  registered_open id funded =
      catching store_to_service
        (do found ← on_store (Store.get c.network id); found_or_created id funded found)

  abbrev pub open_call : Text → AdvanceCall
  open_call id = record {
    network = c.network;
    channel_id = id;
    cumulative = credential.amount;
    requested = credential.request_amount;
    signature = credential.signature;
    funded = none;
    timestamp = some (env.turn advancing).clock;
  }

  abbrev pub must_advance : PayChannelAdvanceResult → Status → Action (PayChannelRecord × Text)
  must_advance result advanced = pure (result.record_of, result.previous)
  must_advance result status = raise (service_error (advance_failure status))

  -- The first voucher; an open without one is accepted only with a new record.
  unfoldable pub first_voucher : Text → PayChannelRecord → Bool → Action (PayChannelRecord × Text)
  first_voucher id r created =
      if ltb 0 (int_of credential.amount)
      then (do
        others c (env.turn advancing)
        result ← catching store_to_service (on_store (Store.advance (open_call id) 0))
        must_advance result result.status)
      else (if created then pure (r, r.cumulative) else raise (service_error channel_replay))

  abbrev pub open_reply : Text → Text → PayChannelRecord → Text → PayChannelVerificationResult
  open_reply id tx_hash final previous = record {
    action = codes "open";
    challenge_id = credential.challenge_id;
    network = c.network;
    payer = c.payer;
    recipient = c.recipient;
    channel_id = id;
    cumulative = final.cumulative;
    previous = previous;
    reference = codes "open:" ++ (id ++ (codes ":" ++ upper tx_hash));
    replayed = false;
    finalized = final.finalized;
    tx_hash = some (upper tx_hash);
  }

  -- The signature of a first voucher.
  unfoldable pub initial_signature : Text → Result (Unit {0})
  initial_signature id =
      if ltb 0 (int_of credential.amount)
      then verify_claim_signature env.verifier id credential.amount credential.signature
          c.public_key
      else ok tt

  -- The proofs of the credential, its submission, and the claim of its challenge.
  unfoldable pub open_channel : Action (Text × OpenChannelSubmission)
  open_channel = do
    raise_service (ltb (int_of credential.amount) (int_of credential.request_amount)) short_payment
    funded ← lift env.decoded
    raise_service (ltb (int_of funded) (int_of credential.amount)) channel_exhausted
    submitted ← lift (submission_of env.submitted)
    lift (initial_signature (upper submitted.channel_id))
    others c (env.turn claiming)
    claim_challenge_step c credential env.now env.tick
    pure (funded, submitted)

  -- From the store's first read on.
  unfoldable pub record_channel : Text → OpenChannelSubmission → Action PayChannelVerificationResult
  record_channel funded submitted = do
    others c (env.turn looking)
    (r, created) ← registered_open (upper submitted.channel_id) funded
    lift (assert_record_binding c r (upper submitted.channel_id) credential.request_recipient)
    raise_service (not (text_eq r.funded funded)) channel_conflict
    (final, previous) ← first_voucher (upper submitted.channel_id) r created
    lift (
        verification_result
          (open_reply (upper submitted.channel_id) submitted.tx_hash final previous))

  -- `_verify_open`
  unfoldable pub verify_open : Action PayChannelVerificationResult
  verify_open = do (funded, submitted) ← open_channel; record_channel funded submitted
