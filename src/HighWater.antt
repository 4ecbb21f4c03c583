-- ===== src/HighWater.antt =====
-- The cumulative voucher rule of packages/core/src/xrpl_mpp_core/paychannel.py.
pub mod Laws
use xrpl_mpp_stack.Prelude.{
  ℕ, ◌+◌, Bool, true, false, ◌&&◌, ◌||◌, not, Option, none, some, ltb, ◌==◌, is_none, is_some,
  Result, ok, err, value_error, ◌>>=◌, ◌>>◌, raise_if, or_raise, if◌then◌else◌,
}
use xrpl_mpp_stack.Text.{Text, is_empty}
use xrpl_mpp_stack.Text.Decimal.{int_of, str_of}
use xrpl_mpp_stack.Schema.{
  is_drops, is_channel_id, is_signature, is_claim_signature, text_field, adapter,
}

-- `XRPLChannelVoucherPayload`; the close payload has the same fields.
pub record VoucherPayload : Type 0 where
  pub channel_id : Text
  pub amount : Text
  pub signature : Text

unfoldable pub voucher_payload : Text → Text → Text → Result VoucherPayload
voucher_payload channel_id amount signature = do
  c ← text_field is_channel_id channel_id
  a ← text_field is_drops amount
  s ← text_field is_claim_signature signature
  ok (record { channel_id = c; amount = a; signature = s })

-- `PayChannelHighWater`
pub record PayChannelHighWater : Type 0 where
  pub cumulative : Text
  pub signature : Text
  pub timestamp : ℕ

unfoldable pub high_water_mark : Text → Text → ℕ → Result PayChannelHighWater
high_water_mark cumulative signature timestamp = do
  c ← text_field is_drops cumulative
  s ← text_field is_signature signature
  raise_if (ltb 0 (int_of c) && is_empty s) value_error
  ok (record { cumulative = c; signature = s; timestamp = timestamp })

pub data Status : Type 0 where
  advanced replay regressed short : Status

abbrev pub is_advanced : Status → Bool
is_advanced advanced = true
is_advanced _ = false

abbrev pub is_replay : Status → Bool
is_replay replay = true
is_replay _ = false

-- `HighWaterDecision`
pub record HighWaterDecision : Type 0 where
  pub status : Status
  pub previous : Text
  pub state : Option PayChannelHighWater

unfoldable pub high_water_decision :
    Status → Text → Option PayChannelHighWater → Result HighWaterDecision
high_water_decision status previous state = do
  p ← text_field is_drops previous
  raise_if (is_advanced status && is_none state) value_error
  raise_if (not (is_advanced status) && is_some state) value_error
  ok (record { status = status; previous = p; state = state })

abbrev pub previous_value : Option PayChannelHighWater → ℕ
previous_value none = 0
previous_value (some current) = int_of current.cumulative

-- `timestamp if timestamp is not None else ...`
abbrev pub time_of : Option ℕ → ℕ → ℕ
time_of none now = now
time_of (some t) now = t

-- `evaluate_high_water`. An amount that the caller passes as an `int` enters as its `str`; `now`
-- is what the clock gives where no timestamp is passed.
unfoldable pub evaluate_high_water :
    Option PayChannelHighWater → Text → Text → Text → Option ℕ → ℕ → Result HighWaterDecision
unfolding adapter
evaluate_high_water current cumulative requested signature timestamp now = do
  cumulative_str ← adapter is_drops cumulative
  requested_str ← adapter is_drops requested
  let new_value = int_of cumulative_str
  let requested_value = int_of requested_str
  let previous = previous_value current
  let previous_str = str_of previous
  if new_value == previous
      then high_water_decision replay previous_str none
      else if ltb new_value previous
      then high_water_decision regressed previous_str none
      else if ltb 0 requested_value && ltb new_value (previous + requested_value)
      then high_water_decision short previous_str none
      else do
        state ← high_water_mark cumulative_str signature (time_of timestamp now)
        high_water_decision advanced previous_str (some state)

-- `require_high_water_advance`; `PayChannelCumulativeError` is a `ValueError`.
unfoldable pub require_high_water_advance :
    Option PayChannelHighWater → Text → Text → Text → Option ℕ → ℕ → Result PayChannelHighWater
require_high_water_advance current cumulative requested signature timestamp now = do
  decision ← evaluate_high_water current cumulative requested signature timestamp now
  raise_if (not (is_advanced decision.status) || is_none decision.state) value_error
  or_raise decision.state value_error
