-- ===== src/PayChannel/Mutations.antt =====
-- The synchronous compare-and-set callbacks: `_advance_mutation`, `_redeem_mutation`,
-- `_finalize_mutation` and the callback of `create`.
pub mod Advance
pub mod Accept
pub mod Branches
pub mod Redeem
use xrpl_mpp_stack.Prelude.{
  ℕ, max, Bool, true, false, ◌&&◌, ◌||◌, not, Option, none, some, ltb, ◌==◌, all, Code, Result, ok,
  err, store_error, value_error, channel_not_found, corrupt_channel_state, invalid_channel_state,
  channel_finalized, funding_regression, channel_exhausted, redeemed_regression,
  redeemed_exceeds_cumulative, channel_state_changed, channel_conflict, ◌>>=◌, ◌>>◌, raise_if,
  or_raise, if◌then◌else◌,
}
use xrpl_mpp_stack.Text.{Text, codes, upper, text_eq, is_empty, is_digit, py_strip}
use xrpl_mpp_stack.Text.Decimal.{int_of}
use xrpl_mpp_stack.Schema.{Network, network_eq, is_drops, text_field, adapter}
use xrpl_mpp_stack.HighWater.{
  VoucherPayload, voucher_payload, PayChannelHighWater, HighWaterDecision, Status, advanced,
  is_replay, evaluate_high_water,
}
use xrpl_mpp_stack.PayChannel.Record.{PayChannelRecord, model_validate, high_water, record_eq}

-- What a callback returns beside the result: the record to write, if any.
abbrev pub MutationResult : Type 0 → Type 0
MutationResult A = Result (A × Option PayChannelRecord)

abbrev pub Mutation : Type 0 → Type 0
Mutation A = Option PayChannelRecord → MutationResult A

pub record PayChannelCreateResult : Type 0 where
  pub created : Bool
  pub record_of : PayChannelRecord

pub record PayChannelAdvanceResult : Type 0 where
  pub status : Status
  pub previous : Text
  pub exact_replay : Bool
  pub record_of : PayChannelRecord

-- The result's own validation, `_validate_exact_replay` included.
unfoldable pub advance_result :
    Status → Text → Bool → PayChannelRecord → Result PayChannelAdvanceResult
advance_result status previous exact_replay r = do
  p ← text_field is_drops previous
  raise_if (exact_replay && not (is_replay status)) value_error
  ok (record { status = status; previous = p; exact_replay = exact_replay; record_of = r })

-- `_require_record`
unfoldable pub require_record : Option PayChannelRecord → Network → Text → Result PayChannelRecord
require_record none network channel_id = err (store_error channel_not_found)
require_record (some current) network channel_id = do
  raise_if
      (not (network_eq current.network network)
        || not (text_eq current.channel_id (upper channel_id)))
      (store_error corrupt_channel_state)
  ok current

-- The test of `funded` before the callback.
abbrev pub is_bad_funding : Option Text → Bool
is_bad_funding none = false
is_bad_funding (some funded) = is_empty funded || not (all is_digit funded) || int_of funded == 0

-- The refresh of the funding; the Boolean is `funding_changed`.
unfoldable pub refresh_funding : Option Text → PayChannelRecord → Result (PayChannelRecord × Bool)
refresh_funding none r = ok (r, false)
refresh_funding (some funded) r = do
  raise_if (ltb (int_of funded) (int_of r.funded)) (store_error funding_regression)
  if text_eq funded r.funded
      then ok (r, false)
      else do updated ← model_validate (record r { funded = funded }); ok (updated, true)

abbrev pub if_changed : Bool → PayChannelRecord → Option PayChannelRecord
if_changed true r = some r
if_changed false r = none

-- The end of the callback, once the high-water rule has decided.
unfoldable pub apply_decision :
    VoucherPayload
    → PayChannelRecord
    → Bool
    → HighWaterDecision
    → Status
    → Option PayChannelHighWater
    → MutationResult PayChannelAdvanceResult
apply_decision voucher r changed decision advanced (some state) = do
  updated ← model_validate (record r {
    cumulative = state.cumulative;
    signature = state.signature;
    updated_at = state.timestamp;
  })
  result ← advance_result advanced decision.previous false updated
  ok (result, some updated)
apply_decision voucher r changed decision status state = do
  let exact_replay =
      is_replay status
      && text_eq r.cumulative voucher.amount
      && text_eq (upper r.signature) (upper voucher.signature)
  result ← advance_result status decision.previous exact_replay r
  ok (result, if_changed changed r)

-- The part of the callback that follows the refresh of the funding.
unfoldable pub judge_voucher :
    VoucherPayload → Text → ℕ → PayChannelRecord → Bool → MutationResult PayChannelAdvanceResult
judge_voucher voucher requested timestamp r changed = do
  raise_if (ltb (int_of r.funded) (int_of voucher.amount)) (store_error channel_exhausted)
  mark ← high_water r
  decision ←
      evaluate_high_water (some mark) voucher.amount requested voucher.signature
        (some (max r.updated_at timestamp)) 0
  apply_decision voucher r changed decision decision.status decision.state

-- The callback of `_advance_mutation`.
unfoldable pub advance_callback :
    Network → Text → VoucherPayload → Text → Option Text → ℕ → Mutation PayChannelAdvanceResult
advance_callback network channel_id voucher requested funded timestamp current = do
  stored ← require_record current network channel_id
  raise_if stored.finalized (store_error channel_finalized)
  (r, changed) ← refresh_funding funded stored
  judge_voucher voucher requested timestamp r changed

-- `_advance_mutation`: what it checks before the callback, and the callback.
unfoldable pub advance_mutation :
    Network
    → Text
    → Text
    → Text
    → Text
    → Option Text
    → ℕ
    → Result (Mutation PayChannelAdvanceResult)
advance_mutation network channel_id cumulative requested signature funded timestamp = do
  voucher ← voucher_payload channel_id cumulative signature
  raise_if (is_bad_funding funded) (store_error invalid_channel_state)
  ok (advance_callback network channel_id voucher requested funded timestamp)

unfoldable pub redeem_callback : Network → Text → Text → Option Text → ℕ → Mutation PayChannelRecord
redeem_callback network channel_id amount reference timestamp current = do
  r ← require_record current network channel_id
  let new_redeemed = int_of amount
  let old_redeemed = int_of r.redeemed
  raise_if (ltb new_redeemed old_redeemed) (store_error redeemed_regression)
  raise_if (ltb (int_of r.cumulative) new_redeemed) (store_error redeemed_exceeds_cumulative)
  let effective = max r.updated_at timestamp
  if new_redeemed == old_redeemed then ok (r, none) else do
    updated ← model_validate (record r {
      redeemed = amount;
      redeemed_at = some effective;
      redemption_reference = reference;
      updated_at = effective;
    })
    ok (updated, some updated)

-- `_redeem_mutation`
unfoldable pub redeem_mutation :
    Network → Text → Text → Option Text → ℕ → Result (Mutation PayChannelRecord)
redeem_mutation network channel_id cumulative reference timestamp = do
  voucher ← voucher_payload channel_id cumulative (codes "00")
  ok (redeem_callback network channel_id voucher.amount reference timestamp)

abbrev pub optional_drops : Option Text → Result (Option Text)
optional_drops none = ok none
optional_drops (some t) = do d ← adapter is_drops t; ok (some d)

-- `normalized_expected is not None and record.cumulative != normalized_expected`
abbrev pub differs : Option Text → Text → Bool
differs none cumulative = false
differs (some expected) cumulative = not (text_eq cumulative expected)

unfoldable pub finalize_callback :
    Network → Text → Text → Option Text → ℕ → Mutation PayChannelRecord
finalize_callback network channel_id reason expected timestamp current = do
  r ← require_record current network channel_id
  raise_if (differs expected r.cumulative) (store_error channel_state_changed)
  let effective = max r.updated_at timestamp
  if r.finalized then ok (r, none) else do
    updated ← model_validate (record r {
      finalized = true;
      finalized_at = some effective;
      finalized_reason = some reason;
      updated_at = effective;
    })
    ok (updated, some updated)

-- `_finalize_mutation`
unfoldable pub finalize_mutation :
    Network → Text → Text → Option Text → ℕ → Result (Mutation PayChannelRecord)
unfolding adapter
finalize_mutation network channel_id reason expected timestamp = do
  let normalized_reason = py_strip reason
  raise_if (is_empty normalized_reason) value_error
  normalized_expected ← optional_drops expected
  ok (finalize_callback network channel_id normalized_reason normalized_expected timestamp)

-- The callback of `create`.
unfoldable pub create_callback : PayChannelRecord → Mutation PayChannelCreateResult
create_callback r none = ok (record { created = true; record_of = r }, some r)
create_callback r (some current) =
    if record_eq current r
    then ok (record { created = false; record_of = current }, none)
    else err (store_error channel_conflict)
