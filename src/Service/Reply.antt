-- ===== src/Service/Reply.antt =====
-- `PayChannelVerificationResult` and its validation.
use xrpl_mpp_stack.Prelude.{Bool, Option, Result, ok, ◌>>=◌}
use xrpl_mpp_stack.Text.{Text, codes, strip}
use xrpl_mpp_stack.Schema.{
  Network, is_channel_id, is_classic_address, is_drops, text_field, optional_text_field,
}
use xrpl_mpp_stack.Service.Steps.{ActionKind, voucher, close}

-- The name of a claim action.
abbrev pub action_name : ActionKind → Text
action_name voucher = codes "voucher"
action_name close = codes "close"

pub record PayChannelVerificationResult : Type 0 where
  pub action : Text
  pub challenge_id : Text
  pub network : Network
  pub payer : Text
  pub recipient : Text
  pub channel_id : Text
  pub cumulative : Text
  pub previous : Text
  pub reference : Text
  pub replayed : Bool
  pub finalized : Bool
  pub tx_hash : Option Text

-- The constructor, which validates and strips its fields; a hash has the pattern of an identifier.
unfoldable pub verification_result :
    PayChannelVerificationResult → Result PayChannelVerificationResult
verification_result r = do
  payer ← text_field is_classic_address r.payer
  recipient ← text_field is_classic_address r.recipient
  channel_id ← text_field is_channel_id r.channel_id
  cumulative ← text_field is_drops r.cumulative
  previous ← text_field is_drops r.previous
  tx_hash ← optional_text_field is_channel_id r.tx_hash
  ok (record r {
    challenge_id = strip r.challenge_id;
    payer = payer;
    recipient = recipient;
    channel_id = channel_id;
    cumulative = cumulative;
    previous = previous;
    reference = strip r.reference;
    tx_hash = tx_hash;
  })

-- What the submitter of an open transaction returns.
pub record OpenChannelSubmission : Type 0 where
  pub channel_id : Text
  pub tx_hash : Text

-- `OpenChannelSubmission.model_validate`; a hash has the pattern of an identifier.
unfoldable pub submission : OpenChannelSubmission → Result OpenChannelSubmission
submission s = do
  channel_id ← text_field is_channel_id s.channel_id
  tx_hash ← text_field is_channel_id s.tx_hash
  ok (record { channel_id = channel_id; tx_hash = tx_hash })
