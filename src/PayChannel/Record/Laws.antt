-- ===== src/PayChannel/Record/Laws.antt =====
-- Well-formed records, and what `PayChannelRecord.model_validate` does with them.
use xrpl_mpp_stack.Prelude.{
  ℕ, ◌≤◌, ◌<◌, ◌≡◌, refl, sym, ap, ◌∙◌, Bool, true, false, Option, none, some, arith, is_some, ok,
  ◌>>=◌, >>=-eq-ok, >>=-inv, ok_injective, subst, ◌↔◌,
}
use mathlib.Core.Bool.{xor}
use xrpl_mpp_stack.Text.{Text, strip, is_empty, upper}
use xrpl_mpp_stack.Text.Decimal.{int_of}
use xrpl_mpp_stack.Text.Laws.{upper_idem}
use xrpl_mpp_stack.Schema.{
  is_drops, is_channel_id, is_signature, is_classic_address, text_field, optional_text_field,
}
use xrpl_mpp_stack.Schema.Laws.{
  text_field-ok, text_field-drops, text_field-channel_id, text_field-signature,
  text_field-of_stripped, upper-is_channel_id, upper-is_signature,
}
use xrpl_mpp_stack.PayChannel.Record.{
  PayChannelRecord, validate_accounting, is_reason, is_reference, model_validate,
}

abbrev pub IsField : (Text → Bool) → Option Text → Type 0
IsField p none = Unit {0}
IsField p (some t) = (strip t ≡ t) × (p t ≡ true)

-- A time that is set lies in the record's lifetime.
abbrev pub IsWithin : ℕ → ℕ → Option ℕ → Type 0
IsWithin a b none = Unit {0}
IsWithin a b (some t) = (a ≤ t) × (t ≤ b)

abbrev pub IsSetTogether : Bool → Option ℕ → Option Text → Type 0
IsSetTogether b t r = (is_some t ≡ b) × (b ≡ false → is_some r ≡ false)

-- The amounts and times of a well-formed record.
pub record IsAccounted (r : PayChannelRecord) : Type 0 where
  pub funded : 0 < int_of r.funded
  pub covered : int_of r.cumulative ≤ int_of r.funded
  pub redeemed : int_of r.redeemed ≤ int_of r.cumulative
  pub signed : 0 < int_of r.cumulative → is_empty r.signature ≡ false
  pub ordered : r.created_at ≤ r.updated_at
  pub closing : IsSetTogether r.finalized r.finalized_at r.finalized_reason
  pub closed_within : IsWithin r.created_at r.updated_at r.finalized_at
  pub dated : 0 < int_of r.redeemed → is_some r.redeemed_at ≡ true
  pub referenced : is_some r.redemption_reference ≡ true → is_some r.redeemed_at ≡ true
  pub redeemed_within : IsWithin r.created_at r.updated_at r.redeemed_at

-- The fields of a well-formed record, each in its normal form but for the case of the signature.
pub record IsLoose (r : PayChannelRecord) : Type 0 where
  pub id : is_channel_id r.channel_id ≡ true
  pub id_upper : upper r.channel_id ≡ r.channel_id
  pub payer : (strip r.payer ≡ r.payer) × (is_classic_address r.payer ≡ true)
  pub recipient : (strip r.recipient ≡ r.recipient) × (is_classic_address r.recipient ≡ true)
  pub funded_drops : is_drops r.funded ≡ true
  pub cumulative_drops : is_drops r.cumulative ≡ true
  pub redeemed_drops : is_drops r.redeemed ≡ true
  pub signature : is_signature r.signature ≡ true
  pub reason : IsField is_reason r.finalized_reason
  pub reference : IsField is_reference r.redemption_reference

-- A well-formed record: every field in its normal form, and the accounting.
pub record IsRecord (r : PayChannelRecord) : Type 0 where
  pub loose : IsLoose r
  pub open loose use *
  pub signature_upper : upper r.signature ≡ r.signature
  pub accounted : IsAccounted r

pub validate_accounting-ok : (r : PayChannelRecord) → IsAccounted r → validate_accounting r ≡ ok tt
unfolding validate_accounting xor
validate_accounting-ok r a = ground arith

pub validate_accounting_sound :
    (r : PayChannelRecord) → validate_accounting r ≡ ok tt → IsAccounted r
unfolding validate_accounting xor
validate_accounting_sound r h = ground arith

optional_text_field-ok :
    (p : Text → Bool) (o : Option Text) → IsField p o → optional_text_field p o ≡ ok o
unfolding optional_text_field
optional_text_field-ok p none h = refl
optional_text_field-ok p (some t) h = rw (text_field-of_stripped p t h.0 h.1)

optional_text_field_sound :
    (p : Text → Bool) (raw : Option Text) {o : Option Text}
    → optional_text_field p raw ≡ ok o
    → IsField p o
unfolding optional_text_field
optional_text_field_sound p none {o = none} h = tt
optional_text_field_sound p none {o = some t} h = cc
optional_text_field_sound p (some raw) {o = none} h =
    let (t, e, f) = >>=-eq-ok (text_field p raw) (λ t. ok (some t)) h in cc
optional_text_field_sound p (some raw) {o = some u} h =
    let (t, e, f) = >>=-eq-ok (text_field p raw) (λ t. ok (some t)) h in
    let (_, s, a) = text_field-ok p raw e in let same : t ≡ u = cc in rw (← same) (s, a)

-- The record with its signature in upper case.
abbrev pub normal : PayChannelRecord → PayChannelRecord
normal r = record r { signature = upper r.signature }

-- Of a record with valid fields validation checks the accounting alone.
pub model_validate-of_IsLoose :
    (r : PayChannelRecord)
    → IsLoose r
    → model_validate r ≡ (validate_accounting (normal r) >>= λ _. ok (normal r))
unfolding model_validate
model_validate-of_IsLoose r w =
    rw
      (
        text_field-channel_id r.channel_id w.id,
        text_field-of_stripped is_classic_address r.payer w.payer.0 w.payer.1,
        text_field-of_stripped is_classic_address r.recipient w.recipient.0 w.recipient.1,
        text_field-drops r.funded w.funded_drops,
        text_field-drops r.cumulative w.cumulative_drops,
        text_field-signature r.signature w.signature,
        text_field-drops r.redeemed w.redeemed_drops,
        optional_text_field-ok is_reason r.finalized_reason w.reason,
        optional_text_field-ok is_reference r.redemption_reference w.reference,
        w.id_upper,
      )
      refl

pub model_validate-accounted :
    (r : PayChannelRecord) → IsLoose r → IsAccounted (normal r) → model_validate r ≡ ok (normal r)
model_validate-accounted r w a =
    rw (model_validate-of_IsLoose r w) (rw (validate_accounting-ok (normal r) a))

-- A well-formed record passes validation unchanged.
pub model_validate-of_IsRecord : (r : PayChannelRecord) → IsRecord r → model_validate r ≡ ok r
model_validate-of_IsRecord r w =
    let same : normal r ≡ r = ap (λ s. record r { signature = s }) w.signature_upper in
    model_validate-accounted r w.loose (subst IsAccounted (sym same) w.accounted) ∙ ap ok same

-- What validation accepts is well-formed.
pub model_validate-IsRecord :
    (raw : PayChannelRecord) {r : PayChannelRecord} → model_validate raw ≡ ok r → IsRecord r
unfolding model_validate
model_validate-IsRecord raw h = >>=-inv (text_field is_channel_id raw.channel_id) _ h λ c ec h.
    >>=-inv (text_field is_classic_address raw.payer) _ h λ p ep h.
      >>=-inv (text_field is_classic_address raw.recipient) _ h λ q eq h.
        >>=-inv (text_field is_drops raw.funded) _ h λ f ef h.
          >>=-inv (text_field is_drops raw.cumulative) _ h λ u eu h.
            >>=-inv (text_field is_signature raw.signature) _ h λ s es h.
              >>=-inv (text_field is_drops raw.redeemed) _ h λ d ed h.
                >>=-inv (optional_text_field is_reason raw.finalized_reason) _ h λ a ea h.
                  >>=-inv (optional_text_field is_reference raw.redemption_reference) _ h λ b eb h.
                    >>=-inv (validate_accounting _) _ h λ _ ev h.
                      subst IsRecord (ok_injective h) (record {
                        loose = record {
                          id =
                              upper-is_channel_id c
                                (text_field-ok is_channel_id raw.channel_id ec).2;
                          id_upper = upper_idem c;
                          payer =
                              let (_, s, t) = text_field-ok is_classic_address raw.payer ep in
                              (s, t);
                          recipient =
                              let (_, s, t) = text_field-ok is_classic_address raw.recipient eq in
                              (s, t);
                          funded_drops = (text_field-ok is_drops raw.funded ef).2;
                          cumulative_drops = (text_field-ok is_drops raw.cumulative eu).2;
                          redeemed_drops = (text_field-ok is_drops raw.redeemed ed).2;
                          signature =
                              upper-is_signature s (text_field-ok is_signature raw.signature es).2;
                          reason = optional_text_field_sound is_reason raw.finalized_reason ea;
                          reference =
                              optional_text_field_sound is_reference raw.redemption_reference eb;
                        };
                        signature_upper = upper_idem s;
                        accounted = validate_accounting_sound _ ev;
                      })

-- A record is well-formed, with every field in normal form and the accounting in order, exactly
-- where validation returns it unchanged.
pub model_validate_fixed_iff : (r : PayChannelRecord) → IsRecord r ↔ (model_validate r ≡ ok r)
model_validate_fixed_iff r = (model_validate-of_IsRecord r, model_validate-IsRecord r)

-- What validation returns is the record that it was given, its texts stripped.
pub record IsNormalOf (raw r : PayChannelRecord) : Type 0 where
  pub network : r.network ≡ raw.network
  pub channel_id : r.channel_id ≡ upper (strip raw.channel_id)
  pub payer : r.payer ≡ strip raw.payer
  pub recipient : r.recipient ≡ strip raw.recipient
  pub funded : r.funded ≡ strip raw.funded
  pub cumulative : r.cumulative ≡ strip raw.cumulative
  pub redeemed : r.redeemed ≡ strip raw.redeemed
  pub created_at : r.created_at ≡ raw.created_at
  pub updated_at : r.updated_at ≡ raw.updated_at
  pub finalized : r.finalized ≡ raw.finalized
  pub funded_drops : is_drops (strip raw.funded) ≡ true

pub model_validate-IsNormalOf :
    (raw : PayChannelRecord) {r : PayChannelRecord} → model_validate raw ≡ ok r → IsNormalOf raw r
unfolding model_validate
model_validate-IsNormalOf raw h = >>=-inv (text_field is_channel_id raw.channel_id) _ h λ c ec h.
    >>=-inv (text_field is_classic_address raw.payer) _ h λ p ep h.
      >>=-inv (text_field is_classic_address raw.recipient) _ h λ q eq h.
        >>=-inv (text_field is_drops raw.funded) _ h λ f ef h.
          >>=-inv (text_field is_drops raw.cumulative) _ h λ u eu h.
            >>=-inv (text_field is_signature raw.signature) _ h λ s es h.
              >>=-inv (text_field is_drops raw.redeemed) _ h λ d ed h.
                >>=-inv (optional_text_field is_reason raw.finalized_reason) _ h λ a ea h.
                  >>=-inv (optional_text_field is_reference raw.redemption_reference) _ h λ b eb h.
                    >>=-inv (validate_accounting _) _ h λ _ ev h.
                      let (f1, _, f2) = text_field-ok is_drops raw.funded ef in
                      subst (IsNormalOf raw) (ok_injective h) (record {
                        network = refl;
                        channel_id = ap upper (text_field-ok is_channel_id raw.channel_id ec).0;
                        payer = (text_field-ok is_classic_address raw.payer ep).0;
                        recipient = (text_field-ok is_classic_address raw.recipient eq).0;
                        funded = f1;
                        cumulative = (text_field-ok is_drops raw.cumulative eu).0;
                        redeemed = (text_field-ok is_drops raw.redeemed ed).0;
                        created_at = refl;
                        updated_at = refl;
                        finalized = refl;
                        funded_drops = subst (λ t. is_drops t ≡ true) f1 f2;
                      })
