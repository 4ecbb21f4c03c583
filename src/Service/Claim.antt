-- ===== src/Service/Claim.antt =====
-- `_verify_claim_action` of the payment-channel service: a voucher or a close.
use xrpl_mpp_stack.Prelude.{
  Bool, true, false, ◌&&◌, ◌||◌, not, Option, none, some, ◌∷◌, Code, Error, Result, ok, err, ltb,
  is_none, store_error, service_error, pending, channel_not_found, channel_conflict,
  channel_state_changed, channel_lookup_failed, channel_ledger_check_failed,
  redemption_lease_failed, close_settlement_failed, if◌then◌else◌,
}
use xrpl_mpp_stack.Text.{Text, codes, text_eq, upper}
use xrpl_mpp_stack.Text.Decimal.{int_of}
use xrpl_mpp_stack.Schema.{is_channel_id, adapter}
use xrpl_mpp_stack.HighWater.{Status, advanced, replay}
use xrpl_mpp_stack.PayChannel.Record.{PayChannelRecord}
use xrpl_mpp_stack.PayChannel.Mutations.{PayChannelAdvanceResult}
use xrpl_mpp_stack.PayChannel.Store
use xrpl_mpp_stack.PayChannel.Store.{AdvanceCall}
use xrpl_mpp_stack.Service.World.{
  Action, pure, raise, lift, ◌>>=◌, ◌>>◌, on_store, store_to_service, store_or, service_or, rewrap,
  catching, handling,
}
use xrpl_mpp_stack.Service.Steps.{
  Config, Credential, ActionKind, voucher, close, Environment, importing, retrying, advancing,
  leasing, reloading, redeeming, releasing, finalizing, others, assert_record_binding,
  advance_failure, release_redemption_lease,
}

abbrev pub raise_service : Bool → Code → Action (Unit {0})
raise_service true code = raise (service_error code)
raise_service false code = pure tt

abbrev pub present : {A : Type 0} → Option A → Code → Action A
present none code = raise (service_error code)
present (some a) code = pure a

-- `exc.code != "CHANNEL_CONFLICT"`
abbrev pub is_conflict : Code → Bool
is_conflict channel_conflict = true
is_conflict _ = false

-- The action's answer to a request, in the environment that it meets.
module _ (c : Config) (credential : Credential) (env : Environment) where
  abbrev pub channel : Text
  channel = upper credential.channel_id

  -- The handlers around the import; on a conflict the record of the other request is read.
  unfoldable pub import_failed : Error → Action PayChannelRecord
  import_failed (service_error code) = raise (service_error code)
  import_failed (store_error code) =
      if is_conflict code
      then (do
        others c (env.turn retrying)
        found ← on_store (Store.get c.network channel)
        present found code)
      else raise (service_error code)
  import_failed e = raise (service_error channel_lookup_failed)

  unfoldable pub import_record : Result PayChannelRecord → Action PayChannelRecord
  import_record answer = handling import_failed (do
    candidate ← lift answer
    lift (assert_record_binding c candidate channel credential.request_recipient)
    others c (env.turn importing)
    created ← on_store (Store.create candidate)
    pure created.record_of)

  -- The record that is stored, or the one that the loader imports.
  unfoldable pub registered :
      Option PayChannelRecord → Option (Result PayChannelRecord) → Action PayChannelRecord
  unfolding import_record
  registered (some r) loaded = pure r
  registered none none = raise (service_error channel_not_found)
  registered none (some answer) = import_record answer

  abbrev pub ledger_checked : Option (Result (Option Text)) → Action (Option Text)
  ledger_checked none = pure none
  ledger_checked (some answer) = lift (rewrap (service_or channel_ledger_check_failed) answer)

  -- What the advance is worth to the action: the record, and whether it is an exact replay.
  abbrev pub accepted :
      ActionKind → PayChannelAdvanceResult → Status → Action (PayChannelRecord × Bool)
  accepted kind result advanced = pure (result.record_of, false)
  accepted close result replay =
      if result.exact_replay && not result.record_of.finalized
      then pure (result.record_of, true)
      else raise (service_error (advance_failure replay))
  accepted kind result status = raise (service_error (advance_failure status))

  abbrev pub release_if : Option Text → Action (Unit {0})
  release_if none = pure tt
  release_if (some lease_id) = release_redemption_lease c channel lease_id

  -- `except SettlementPendingError: raise`, and the other handlers of the settler's call
  abbrev pub settle_failed : Error → Error
  settle_failed pending = pending
  settle_failed (service_error code) = service_error code
  settle_failed e = service_error close_settlement_failed

  abbrev pub checked_hash : Result Text → Result Text
  checked_hash (ok raw) = adapter is_channel_id raw
  checked_hash (err e) = err e

  abbrev pub settled_hash : Result Text → Result Text
  settled_hash answer = rewrap settle_failed (checked_hash answer)

  -- The settler's call and the redemption that it made.
  unfoldable pub redeem_claim :
      Result Text → PayChannelRecord → Action (PayChannelRecord × Option Text)
  redeem_claim answer latest = do
    raw ← lift (settled_hash answer)
    others c (env.turn redeeming)
    updated ← catching store_to_service (
        on_store (
          Store.mark_redeemed c.network channel latest.cumulative (some (upper raw))
            (some (env.turn redeeming).clock) 0))
    pure (updated, some (upper raw))

  -- `record.redemption_reference` where it is true
  abbrev pub reference_of : Option Text → Option Text
  reference_of (some (t ∷ ts)) = some (t ∷ ts)
  reference_of _ = none

  abbrev pub hash_or_reference : Option Text → PayChannelRecord → Option Text
  hash_or_reference (some tx_hash) r = some tx_hash
  hash_or_reference none r = reference_of r.redemption_reference

  abbrev pub is_due : PayChannelRecord → Bool
  is_due r = ltb (int_of r.redeemed) (int_of r.cumulative)

  abbrev pub redeem_if_due :
      Result Text → PayChannelRecord → Action (PayChannelRecord × Option Text)
  redeem_if_due answer latest =
      if is_due latest then redeem_claim answer latest else pure (latest, none)

  -- What follows the reload, once the record is unchanged.
  unfoldable pub settle_latest :
      Result Text → Option Text → PayChannelRecord → Action (PayChannelRecord × Option Text)
  unfolding redeem_claim
  settle_latest answer lease latest = if is_none lease && is_due latest then raise pending else (do
    (settled, tx_hash) ← redeem_if_due answer latest
    others c (env.turn releasing)
    release_if lease
    pure (settled, hash_or_reference tx_hash settled))

  -- The coordinated redemption of a close.
  unfoldable pub coordinate :
      Result Text → PayChannelRecord → Action (PayChannelRecord × Option Text)
  unfolding settle_latest
  coordinate answer r = do
    others c (env.turn leasing)
    lease ← catching (store_or redemption_lease_failed) (
        on_store (
          Store.claim_redemption c.network channel c.redemption_lease_seconds
            (env.turn leasing).clock env.lease_id))
    others c (env.turn reloading)
    found ← catching (store_or redemption_lease_failed) (on_store (Store.get c.network channel))
    latest ← present found channel_not_found
    lift (assert_record_binding c latest channel credential.request_recipient)
    if not (text_eq latest.cumulative r.cumulative) || not (text_eq latest.signature r.signature)
        then (do
          others c (env.turn releasing)
          release_if lease
          raise (service_error channel_state_changed))
        else settle_latest answer lease latest

  unfoldable pub settle_close :
      Option (Result Text) → PayChannelRecord → Action (PayChannelRecord × Option Text)
  unfolding coordinate
  settle_close none r = pure (r, none)
  settle_close (some answer) r =
      if is_due r then coordinate answer r else pure (r, reference_of r.redemption_reference)

  -- A close settles and then finalizes; a voucher is done.
  unfoldable pub concluded : ActionKind → PayChannelRecord → Action (PayChannelRecord × Option Text)
  unfolding settle_close
  concluded voucher r = pure (r, none)
  concluded close r = do
    (settled, tx_hash) ← settle_close env.settled r
    others c (env.turn finalizing)
    final ← catching store_to_service (
        on_store (
          Store.finalize c.network channel (codes "closed") (some credential.amount)
            (some (env.turn finalizing).clock) 0))
    pure (final, tx_hash)

  abbrev pub advance_call : Option Text → AdvanceCall
  advance_call funded = record {
    network = c.network;
    channel_id = channel;
    cumulative = credential.amount;
    requested = credential.request_amount;
    signature = credential.signature;
    funded = funded;
    timestamp = some (env.turn advancing).clock;
  }
