-- ===== src/PayChannel/Record.antt =====
-- `PayChannelRecord` and its validation.
pub mod Laws
use xrpl_mpp_stack.Prelude.{
  ℕ, Bool, true, false, ◌&&◌, ◌||◌, not, Option, none, some, ltb, leb, ◌==◌, length, is_none,
  is_some, Result, ok, err, value_error, ◌>>=◌, ◌>>◌, raise_if, if◌then◌else◌,
}
use mathlib.Core.Bool.{xor}
use xrpl_mpp_stack.Text.{Text, is_empty, upper, text_eq}
use xrpl_mpp_stack.Text.Decimal.{int_of}
use xrpl_mpp_stack.Schema.{
  Network, network_eq, is_drops, is_channel_id, is_signature, is_classic_address, text_field,
  optional_text_field,
}
use xrpl_mpp_stack.HighWater.{PayChannelHighWater, high_water_mark}

pub record PayChannelRecord : Type 0 where
  pub network : Network
  pub channel_id : Text
  pub payer : Text
  pub recipient : Text
  pub funded : Text
  pub cumulative : Text
  pub signature : Text
  pub redeemed : Text
  pub created_at : ℕ
  pub updated_at : ℕ
  pub finalized : Bool
  pub finalized_at : Option ℕ
  pub finalized_reason : Option Text
  pub redeemed_at : Option ℕ
  pub redemption_reference : Option Text

-- `not (created_at <= t <= updated_at)`, for a time that is set
abbrev pub is_outside : ℕ → ℕ → Option ℕ → Bool
is_outside created updated none = false
is_outside created updated (some t) = not (leb created t && leb t updated)

-- `_validate_accounting`
unfoldable pub validate_accounting : PayChannelRecord → Result (Unit {0})
unfolding xor
validate_accounting r = do
  let funded = int_of r.funded
  let cumulative = int_of r.cumulative
  let redeemed = int_of r.redeemed
  raise_if (funded == 0) value_error
  raise_if (ltb funded cumulative) value_error
  raise_if (ltb cumulative redeemed) value_error
  raise_if (ltb 0 cumulative && is_empty r.signature) value_error
  raise_if (ltb r.updated_at r.created_at) value_error
  raise_if (xor r.finalized (is_some r.finalized_at)) value_error
  raise_if (is_some r.finalized_reason && not r.finalized) value_error
  raise_if (is_outside r.created_at r.updated_at r.finalized_at) value_error
  raise_if (ltb 0 redeemed && is_none r.redeemed_at) value_error
  raise_if (is_some r.redemption_reference && is_none r.redeemed_at) value_error
  raise_if (is_outside r.created_at r.updated_at r.redeemed_at) value_error

abbrev pub is_reason : Text → Bool
is_reason t = leb (length t) 256

abbrev pub is_reference : Text → Bool
is_reference t = leb (length t) 512

-- `PayChannelRecord.model_validate`: the fields, `_normalize_channel_id`, `_normalize_signature`,
-- and then the accounting.
unfoldable pub model_validate : PayChannelRecord → Result PayChannelRecord
model_validate r = do
  channel_id ← text_field is_channel_id r.channel_id
  payer ← text_field is_classic_address r.payer
  recipient ← text_field is_classic_address r.recipient
  funded ← text_field is_drops r.funded
  cumulative ← text_field is_drops r.cumulative
  signature ← text_field is_signature r.signature
  redeemed ← text_field is_drops r.redeemed
  reason ← optional_text_field is_reason r.finalized_reason
  reference ← optional_text_field is_reference r.redemption_reference
  let validated = record r {
    channel_id = upper channel_id;
    payer = payer;
    recipient = recipient;
    funded = funded;
    cumulative = cumulative;
    signature = upper signature;
    redeemed = redeemed;
    finalized_reason = reason;
    redemption_reference = reference;
  }
  validate_accounting validated
  ok validated

-- The property `high_water`.
unfoldable pub high_water : PayChannelRecord → Result PayChannelHighWater
high_water r = high_water_mark r.cumulative r.signature r.updated_at

abbrev opt_nat_eq : Option ℕ → Option ℕ → Bool
opt_nat_eq none none = true
opt_nat_eq none (some b) = false
opt_nat_eq (some a) none = false
opt_nat_eq (some a) (some b) = a == b

abbrev opt_text_eq : Option Text → Option Text → Bool
opt_text_eq none none = true
opt_text_eq none (some b) = false
opt_text_eq (some a) none = false
opt_text_eq (some a) (some b) = text_eq a b

abbrev bool_eq : Bool → Bool → Bool
bool_eq true b = b
bool_eq false b = not b

-- `==` of two records, field by field.
unfoldable pub record_eq : PayChannelRecord → PayChannelRecord → Bool
record_eq a b =
    network_eq a.network b.network
    && text_eq a.channel_id b.channel_id
    && text_eq a.payer b.payer
    && text_eq a.recipient b.recipient
    && text_eq a.funded b.funded
    && text_eq a.cumulative b.cumulative
    && text_eq a.signature b.signature
    && text_eq a.redeemed b.redeemed
    && a.created_at == b.created_at
    && a.updated_at == b.updated_at
    && bool_eq a.finalized b.finalized
    && opt_nat_eq a.finalized_at b.finalized_at
    && opt_text_eq a.finalized_reason b.finalized_reason
    && opt_nat_eq a.redeemed_at b.redeemed_at
    && opt_text_eq a.redemption_reference b.redemption_reference
