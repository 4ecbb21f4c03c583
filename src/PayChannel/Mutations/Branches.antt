-- ===== src/PayChannel/Mutations/Branches.antt =====
-- The branches of the callbacks of `mark_redeemed` and `finalize` on a well-formed record.
use xrpl_mpp_stack.Prelude.{
  ℕ, max, ◌≤◌, ◌≡◌, refl, sym, ap, ◌∙◌, subst, true, Option, none, some, arith, ltb, ◌==◌, ok, err,
  store_error, redeemed_regression, redeemed_exceeds_cumulative, channel_state_changed, Bool-cases,
  inl, inr, if◌then◌else◌,
}
use xrpl_mpp_stack.Text.{Text, upper}
use xrpl_mpp_stack.Text.Decimal.{int_of}
use xrpl_mpp_stack.Text.Laws.{text_eq_refl}
use xrpl_mpp_stack.Schema.{is_drops}
use xrpl_mpp_stack.Schema.Laws.{network_eq_refl}
use xrpl_mpp_stack.PayChannel.Record.{PayChannelRecord, model_validate, is_reason, is_reference}
use xrpl_mpp_stack.PayChannel.Record.Laws.{
  IsRecord, IsField, IsLoose, IsAccounted, normal, model_validate-accounted,
}
use xrpl_mpp_stack.PayChannel.Mutations.{
  require_record, redeem_callback, finalize_callback, differs,
}

pub require_record-match :
    (a : PayChannelRecord) (c : Text)
    → a.channel_id ≡ upper c
    → require_record (some a) a.network c ≡ ok a
unfolding require_record
require_record-match a c e = rw (network_eq_refl a.network, ← e, text_eq_refl a.channel_id) refl

-- The record after a redemption.
abbrev pub redeemed_record : PayChannelRecord → Text → Option Text → ℕ → PayChannelRecord
redeemed_record a amount reference t = record a {
  redeemed = amount;
  redeemed_at = some (max a.updated_at t);
  redemption_reference = reference;
  updated_at = max a.updated_at t;
}

-- The record after a finalization.
abbrev pub closed_record : PayChannelRecord → Text → ℕ → PayChannelRecord
closed_record a reason t = record a {
  finalized = true;
  finalized_at = some (max a.updated_at t);
  finalized_reason = some reason;
  updated_at = max a.updated_at t;
}

redeemed-IsAccounted :
    (a : PayChannelRecord) (amount : Text) (reference : Option Text) (t : ℕ)
    → IsAccounted a
    → int_of amount ≤ int_of a.cumulative
    → IsAccounted (redeemed_record a amount reference t)
redeemed-IsAccounted a amount reference t w h = ground arith

closed-IsAccounted :
    (a : PayChannelRecord) (reason : Text) (t : ℕ)
    → IsAccounted a
    → IsAccounted (closed_record a reason t)
closed-IsAccounted a reason t w = ground arith

validated :
    (raw : PayChannelRecord)
    → IsLoose raw
    → upper raw.signature ≡ raw.signature
    → IsAccounted raw
    → model_validate raw ≡ ok raw
validated raw l u w =
    let same : normal raw ≡ raw = ap (λ s. record raw { signature = s }) u in
    model_validate-accounted raw l (subst IsAccounted (sym same) w) ∙ ap ok same

-- On a well-formed record with the call's identifier, a drops amount and a usable reference, the
-- redemption callback refuses a fall of the redeemed amount and an amount over the vouchers,
-- writes nothing on the stored amount, and otherwise writes the record with the amount, the
-- reference and the later of the stored and the given time; no branch is a validation error.
pub redeem_callback_lem :
    (a : PayChannelRecord) (c amount : Text) (reference : Option Text) (t : ℕ)
    → IsRecord a
    → a.channel_id ≡ upper c
    → is_drops amount ≡ true
    → IsField is_reference reference
    → redeem_callback a.network c amount reference t (some a) ≡ (
        if ltb (int_of amount) (int_of a.redeemed)
        then err (store_error redeemed_regression)
        else if ltb (int_of a.cumulative) (int_of amount)
        then err (store_error redeemed_exceeds_cumulative)
        else if int_of amount == int_of a.redeemed
        then ok (a, none)
        else ok (redeemed_record a amount reference t, some (redeemed_record a amount reference t)))
unfolding redeem_callback
redeem_callback_lem a c amount reference t w e d f =
    rw (require_record-match a c e) (elim (Bool-cases (ltb (int_of a.cumulative) (int_of amount))) [
      | inl over ↦ rw over (ground arith)
      | inr fits ↦
          let ready : model_validate (redeemed_record a amount reference t)
              ≡ ok (redeemed_record a amount reference t) =
            validated _
              (record {
                id = w.id;
                id_upper = w.id_upper;
                payer = w.payer;
                recipient = w.recipient;
                funded_drops = w.funded_drops;
                cumulative_drops = w.cumulative_drops;
                redeemed_drops = d;
                signature = w.signature;
                reason = w.reason;
                reference = f;
              })
              w.signature_upper
              (redeemed-IsAccounted a amount reference t w.accounted (ground arith)) in
          rw (ready, fits) (ground arith)
    ])

-- On a well-formed record with the call's identifier and a usable reason, the finalization
-- callback refuses an expected amount that differs from the stored one, writes nothing on a
-- finalized channel, and otherwise closes it with the reason at the later of the stored and the
-- given time; no branch is a validation error.
pub finalize_callback_lem :
    (a : PayChannelRecord) (c reason : Text) (expected : Option Text) (t : ℕ)
    → IsRecord a
    → a.channel_id ≡ upper c
    → IsField is_reason (some reason)
    → finalize_callback a.network c reason expected t (some a) ≡ (
        if differs expected a.cumulative
        then err (store_error channel_state_changed)
        else if a.finalized
        then ok (a, none)
        else ok (closed_record a reason t, some (closed_record a reason t)))
unfolding finalize_callback
finalize_callback_lem a c reason expected t w e f =
    let ready : model_validate (closed_record a reason t) ≡ ok (closed_record a reason t) =
      validated _
        (record {
          id = w.id;
          id_upper = w.id_upper;
          payer = w.payer;
          recipient = w.recipient;
          funded_drops = w.funded_drops;
          cumulative_drops = w.cumulative_drops;
          redeemed_drops = w.redeemed_drops;
          signature = w.signature;
          reason = f;
          reference = w.reference;
        })
        w.signature_upper (closed-IsAccounted a reason t w.accounted) in
    rw (require_record-match a c e, ready) (ground arith)
