-- ===== src/PayChannel/Mutations/Advance.antt =====
-- The callback of `advance`: what it writes, and when it accepts a voucher.
use xrpl_mpp_stack.Prelude.{
  ℕ, max, ◌≤◌, ◌<◌, ◌≡◌, refl, sym, ap, ◌∙◌, subst, Bool, true, false, ◌&&◌, Option, none, some,
  arith, ltb, all, ok, err, store_error, channel_exhausted, value_error, >>=-inv, ok_injective,
  raise_if, raise_if-eq-ok, Bool-cases, inl, inr, if◌then◌else◌,
}
use xrpl_mpp_stack.Text.{Text, upper, text_eq, is_digit}
use xrpl_mpp_stack.Text.Decimal.{int_of, str_of}
use xrpl_mpp_stack.Text.Laws.{strip-of_digits, is_empty-upper, upper_idem}
use xrpl_mpp_stack.Schema.{Network, is_drops, is_channel_id, is_claim_signature, text_field}
use xrpl_mpp_stack.Schema.Laws.{str_of-int_of-is_drops, text_field-drops, upper-is_signature}
use xrpl_mpp_stack.HighWater.{
  VoucherPayload, HighWaterDecision, Status, advanced, replay, is_replay,
}
use xrpl_mpp_stack.HighWater.Laws.{
  evaluate_high_water-invalid, high_water_mark-of_valid, verdict, new_state,
  evaluate_high_water-verdict, is_claim_signature-signature,
}
use xrpl_mpp_stack.PayChannel.Record.{PayChannelRecord, model_validate, high_water}
use xrpl_mpp_stack.PayChannel.Record.Laws.{
  IsRecord, IsLoose, model_validate-accounted, model_validate-of_IsLoose, model_validate-IsRecord,
  model_validate-IsNormalOf,
}
use xrpl_mpp_stack.PayChannel.Mutations.{
  PayChannelAdvanceResult, advance_result, require_record, is_bad_funding, refresh_funding,
  if_changed, apply_decision, judge_voucher,
}

-- `_require_record` passes on the record that it was given.
pub require_record-ok :
    (a : PayChannelRecord) (n : Network) (c : Text) {r : PayChannelRecord}
    → require_record (some a) n c ≡ ok r
    → a ≡ r
unfolding require_record
require_record-ok a n c h = ground arith

-- The record with another funding.
abbrev pub with_funding : PayChannelRecord → Text → PayChannelRecord
with_funding a f = record a { funded = f }

validated-funding :
    (a : PayChannelRecord) (f : Text) {r : PayChannelRecord}
    → IsRecord a
    → all is_digit f ≡ true
    → model_validate (with_funding a f) ≡ ok r
    → IsRecord r × (with_funding a f ≡ r)
validated-funding a f w d h =
    let good : is_drops f ≡ true =
      subst (λ t. is_drops t ≡ true) (strip-of_digits f d)
        (model_validate-IsNormalOf (with_funding a f) h).funded_drops in
    let loose : IsLoose (with_funding a f) = record {
      id = w.id;
      id_upper = w.id_upper;
      payer = w.payer;
      recipient = w.recipient;
      funded_drops = good;
      cumulative_drops = w.cumulative_drops;
      redeemed_drops = w.redeemed_drops;
      signature = w.signature;
      reason = w.reason;
      reference = w.reference;
    } in
    (
      model_validate-IsRecord (with_funding a f) h,
      >>=-inv _ _ (sym (model_validate-of_IsLoose (with_funding a f) loose) ∙ h) λ _ _ e.
          ap (λ s. record (with_funding a f) { signature = s }) (sym w.signature_upper)
          ∙ ok_injective e,
    )

-- After the refresh: a well-formed record that differs at most in a funding that has not fallen,
-- and does not differ at all unless `funding_changed` says so.
pub record IsRefreshed (a r : PayChannelRecord) (changed : Bool) : Type 0 where
  pub valid : IsRecord r
  pub same : with_funding a r.funded ≡ r
  pub grown : int_of a.funded ≤ int_of r.funded
  pub unchanged : changed ≡ false → a ≡ r

IsRefreshed-refl : (a : PayChannelRecord) → IsRecord a → IsRefreshed a a false
IsRefreshed-refl a w = record { valid = w; same = refl; grown = omega arith; unchanged = λ _. refl }

not_bad-digits : (f : Text) → is_bad_funding (some f) ≡ false → all is_digit f ≡ true
not_bad-digits f h = ground arith

pub refresh_funding-ok :
    (a : PayChannelRecord) (funded : Option Text) {r : PayChannelRecord} {changed : Bool}
    → IsRecord a
    → is_bad_funding funded ≡ false
    → refresh_funding funded a ≡ ok (r, changed)
    → IsRefreshed a r changed
unfolding refresh_funding
refresh_funding-ok a none w b h =
    subst (λ (p : PayChannelRecord × Bool). IsRefreshed a p.0 p.1) (ok_injective h)
      (IsRefreshed-refl a w)
refresh_funding-ok a (some f) w b h =
    >>=-inv (raise_if (ltb (int_of f) (int_of a.funded)) _) _ h λ u eu h.
      elim (Bool-cases (text_eq f a.funded)) [
        | inl e ↦
            subst (λ (p : PayChannelRecord × Bool). IsRefreshed a p.0 p.1)
              (ok_injective (rw e at h)) (IsRefreshed-refl a w)
        | inr e ↦ >>=-inv (model_validate (with_funding a f)) _ (rw e at h) λ r er h.
            subst (λ (p : PayChannelRecord × Bool). IsRefreshed a p.0 p.1) (ok_injective h)
              (let (v, s) = validated-funding a f w (not_bad-digits f b) er in
                let sf : f ≡ r.funded = ap (λ x. x.funded) s in
                record {
                  valid = v;
                  same = subst (λ t. with_funding a t ≡ r) sf s;
                  grown =
                      subst (λ t. int_of a.funded ≤ int_of t) sf
                        (ground (arith, raise_if-eq-ok _ _ eu));
                  unchanged = λ t. absurd (cc);
                })
      ]

-- A well-formed record always has a mark.
pub high_water-ok :
    (r : PayChannelRecord)
    → IsRecord r
    → high_water r
      ≡ ok (record { cumulative = r.cumulative; signature = r.signature; timestamp = r.updated_at })
unfolding high_water
high_water-ok r w =
    high_water_mark-of_valid r.cumulative r.signature r.updated_at w.cumulative_drops w.signature
      w.accounted.signed

-- The voucher's own constraints.
pub record IsVoucher (v : VoucherPayload) : Type 0 where
  pub id : is_channel_id v.channel_id ≡ true
  pub amount : is_drops v.amount ≡ true
  pub signature : is_claim_signature v.signature ≡ true

-- The record after an accepted voucher.
abbrev pub advanced_record : PayChannelRecord → VoucherPayload → ℕ → PayChannelRecord
advanced_record r v t = record r {
  cumulative = v.amount;
  signature = upper v.signature;
  updated_at = max r.updated_at t;
}

pub advanced_record-IsRecord :
    (r : PayChannelRecord) (v : VoucherPayload) (t : ℕ)
    → IsRecord r
    → IsVoucher v
    → int_of r.cumulative < int_of v.amount
    → int_of v.amount ≤ int_of r.funded
    → IsRecord (advanced_record r v t)
advanced_record-IsRecord r v t w iv lo hi =
    let (full, sig) = is_claim_signature-signature v.signature iv.signature in
    record {
      loose = record {
        id = w.id;
        id_upper = w.id_upper;
        payer = w.payer;
        recipient = w.recipient;
        funded_drops = w.funded_drops;
        cumulative_drops = iv.amount;
        redeemed_drops = w.redeemed_drops;
        signature = upper-is_signature v.signature sig;
        reason = w.reason;
        reference = w.reference;
      };
      signature_upper = upper_idem v.signature;
      accounted = ground (arith, is_empty-upper v.signature);
    }

validated-advanced :
    (r : PayChannelRecord) (v : VoucherPayload) (t : ℕ)
    → IsRecord r
    → IsVoucher v
    → int_of r.cumulative < int_of v.amount
    → int_of v.amount ≤ int_of r.funded
    → model_validate (record r {
      cumulative = v.amount;
      signature = v.signature;
      updated_at = max r.updated_at t;
    })
      ≡ ok (advanced_record r v t)
validated-advanced r v t w iv lo hi =
    let (full, sig) = is_claim_signature-signature v.signature iv.signature in
    model_validate-accounted _
      (record {
        id = w.id;
        id_upper = w.id_upper;
        payer = w.payer;
        recipient = w.recipient;
        funded_drops = w.funded_drops;
        cumulative_drops = iv.amount;
        redeemed_drops = w.redeemed_drops;
        signature = sig;
        reason = w.reason;
        reference = w.reference;
      })
      (advanced_record-IsRecord r v t w iv lo hi).accounted

-- What the callback returns once the rule has given its verdict on the refreshed record.
abbrev pub outcome :
    PayChannelRecord
    → Bool
    → VoucherPayload
    → ℕ
    → Status
    → PayChannelAdvanceResult × Option PayChannelRecord
outcome r changed v t advanced = (
  record {
    status = advanced;
    previous = str_of (int_of r.cumulative);
    exact_replay = false;
    record_of = advanced_record r v t;
  },
  some (advanced_record r v t),
)
outcome r changed v t status = (
  record {
    status = status;
    previous = str_of (int_of r.cumulative);
    exact_replay =
        is_replay status
        && text_eq r.cumulative v.amount
        && text_eq (upper r.signature) (upper v.signature);
    record_of = r;
  },
  if_changed changed r,
)

apply_decision-outcome :
    (r : PayChannelRecord) (changed : Bool) (v : VoucherPayload) (t : ℕ) (s : Status)
    (d : HighWaterDecision)
    → IsRecord r
    → IsVoucher v
    → (s ≡ advanced → int_of r.cumulative < int_of v.amount)
    → int_of v.amount ≤ int_of r.funded
    → d.previous ≡ str_of (int_of r.cumulative)
    → apply_decision v r changed d s (new_state s v.amount v.signature (max r.updated_at t))
      ≡ ok (outcome r changed v t s)
unfolding apply_decision advance_result
apply_decision-outcome r changed v t advanced d w iv lo hi p =
    rw (validated-advanced r v t w iv (lo refl) hi, p, canonical r w)
  where
    canonical :
        (r : PayChannelRecord)
        → IsRecord r
        → text_field is_drops (str_of (int_of r.cumulative)) ≡ ok (str_of (int_of r.cumulative))
    canonical r w = text_field-drops _ (str_of-int_of-is_drops r.cumulative w.cumulative_drops)
apply_decision-outcome r changed v t replay d w iv lo hi p =
    rw (p, text_field-drops _ (str_of-int_of-is_drops r.cumulative w.cumulative_drops))
      (ground arith)
apply_decision-outcome r changed v t _ d w iv lo hi p =
    rw (p, text_field-drops _ (str_of-int_of-is_drops r.cumulative w.cumulative_drops))
      (ground arith)

verdict-advanced : (p n r : ℕ) → verdict p n r ≡ advanced → p < n
verdict-advanced p n r h = ground arith

-- On a well-formed record and a valid voucher, the callback's judgement is an exhausted-channel
-- error where the amount exceeds the funding, a validation error where the requested amount is no
-- drops string, and otherwise the result and the write that belong to the verdict on the stored,
-- offered and requested amounts.
pub judge_voucher_lem :
    (r : PayChannelRecord) (changed : Bool) (v : VoucherPayload) (requested : Text) (t : ℕ)
    → IsRecord r
    → IsVoucher v
    → judge_voucher v requested t r changed ≡ (
        if ltb (int_of r.funded) (int_of v.amount)
        then err (store_error channel_exhausted)
        else if is_drops requested
        then ok (
            outcome r changed v t
              (verdict (int_of r.cumulative) (int_of v.amount) (int_of requested)))
        else err value_error)
unfolding judge_voucher
judge_voucher_lem r changed v requested t w iv =
    elim (Bool-cases (ltb (int_of r.funded) (int_of v.amount))) [
      | inl over ↦ rw over refl
      | inr fits ↦
          rw (fits, high_water-ok r w)
            (elim (Bool-cases (is_drops requested)) [
              | inl good ↦
                  rw
                    (
                      good,
                      evaluate_high_water-verdict _ v.amount requested v.signature _ 0
                          w.cumulative_drops iv.amount good iv.signature,
                    )
                    (apply_decision-outcome r changed v t _ _ w iv (verdict-advanced _ _ _)
                      (ground arith) refl)
              | inr bad ↦
                  rw
                    (
                      bad,
                      evaluate_high_water-invalid _ v.amount requested v.signature _ 0
                          (ground arith),
                    )
                    refl
            ])
    ]
