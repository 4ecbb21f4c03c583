-- ===== src/PayChannel/Mutations/Redeem.antt =====
-- The callbacks of `mark_redeemed` and `finalize`: every branch, and what they write.
use xrpl_mpp_stack.Prelude.{
  ℕ, ◌≤◌, ◌≡◌, refl, sym, ap, ◌∙◌, subst, true, Option, some, arith, ltb, ◌==◌, ok, >>=-inv,
  ok_injective, raise_if, raise_if-eq-ok, Bool-cases, inl, inr,
}
use xrpl_mpp_stack.Text.{Text, upper, strip}
use xrpl_mpp_stack.Text.Decimal.{int_of}
use xrpl_mpp_stack.Schema.{Network, is_drops}
use xrpl_mpp_stack.Schema.Laws.{strip-of_drops, strip-of_channel_id}
use xrpl_mpp_stack.PayChannel.Record.{PayChannelRecord, model_validate}
use xrpl_mpp_stack.PayChannel.Record.Laws.{
  IsRecord, IsNormalOf, model_validate-IsRecord, model_validate-IsNormalOf,
}
use xrpl_mpp_stack.PayChannel.Evolution.{IsWrite}
use xrpl_mpp_stack.PayChannel.Mutations.{
  require_record, redeem_callback, finalize_callback, differs,
}
use xrpl_mpp_stack.PayChannel.Mutations.Advance.{require_record-ok}

-- A validated copy that keeps the texts of a well-formed record, and lets no amount or time fall,
-- is a write in the contract.
copy-IsWrite :
    (a raw : PayChannelRecord) {b : PayChannelRecord}
    → IsRecord a
    → (raw.network ≡ a.network)
      × (raw.channel_id ≡ a.channel_id)
      × (raw.payer ≡ a.payer)
      × (raw.recipient ≡ a.recipient)
      × (raw.created_at ≡ a.created_at)
    → (raw.funded ≡ a.funded) × (raw.cumulative ≡ a.cumulative)
    → (strip raw.redeemed ≡ raw.redeemed)
      × (int_of a.redeemed ≤ int_of raw.redeemed)
      × (a.updated_at ≤ raw.updated_at)
      × (a.finalized ≡ true → raw.finalized ≡ true)
    → model_validate raw ≡ ok b
    → IsWrite a (some b)
copy-IsWrite a raw {b} w parts amounts grown h =
    let k : IsNormalOf raw b = model_validate-IsNormalOf raw h in
    let id : b.channel_id ≡ a.channel_id = cc (
      k.channel_id,
      ap (λ t. upper (strip t)) parts.1,
      ap upper (strip-of_channel_id a.channel_id w.id),
      w.id_upper,
    ) in
    let fu : b.funded ≡ a.funded =
      cc (k.funded, ap strip amounts.0, strip-of_drops a.funded w.funded_drops) in
    let cu : b.cumulative ≡ a.cumulative =
      cc (k.cumulative, ap strip amounts.1, strip-of_drops a.cumulative w.cumulative_drops) in
    let re : b.redeemed ≡ raw.redeemed = k.redeemed ∙ grown.0 in
    let pa : b.payer ≡ a.payer = cc (k.payer, ap strip parts.2, w.payer.0) in
    let rc : b.recipient ≡ a.recipient = cc (k.recipient, ap strip parts.3, w.recipient.0) in
    (
      model_validate-IsRecord raw h,
      record {
        network = cc (k.network, parts.0);
        channel_id = sym id;
        payer = sym pa;
        recipient = sym rc;
        created_at = cc (k.created_at, parts.4);
        funded = omega (arith, ap int_of fu);
        cumulative = omega (arith, ap int_of cu);
        redeemed = omega (arith, grown.1, ap int_of re);
        updated_at = omega (arith, grown.2, k.updated_at);
        closed = λ e. k.finalized ∙ grown.3 e;
        settled = λ e. ap int_of (sym cu);
      },
    )

-- Whatever `mark_redeemed` writes is well-formed and keeps the contract.
pub redeem_callback-IsWrite :
    (n : Network) (c amount : Text) (reference : Option Text) (t : ℕ) (a : PayChannelRecord)
    {x : PayChannelRecord × Option PayChannelRecord}
    → IsRecord a
    → is_drops amount ≡ true
    → redeem_callback n c amount reference t (some a) ≡ ok x
    → IsWrite a x.1
unfolding redeem_callback
redeem_callback-IsWrite n c amount reference t a {x} w d h =
    >>=-inv (require_record (some a) n c) _ h λ s es h.
      >>=-inv (raise_if (ltb (int_of amount) (int_of s.redeemed)) _) _ h λ _ e1 h.
        >>=-inv (raise_if (ltb (int_of s.cumulative) (int_of amount)) _) _ h λ _ e2 h.
          let same : a ≡ s = require_record-ok a n c es in
          elim (Bool-cases (int_of amount == int_of s.redeemed)) [
            | inl e ↦
                subst (λ (z : PayChannelRecord × Option PayChannelRecord). IsWrite a z.1)
                  (ok_injective (rw e at h)) tt
            | inr e ↦ >>=-inv (model_validate _) _ (rw e at h) λ b eb h.
                subst (λ (z : PayChannelRecord × Option PayChannelRecord). IsWrite a z.1)
                  (ok_injective h)
                  (subst (λ z. IsWrite z (some b)) (sym same)
                    (copy-IsWrite s _ (subst IsRecord same w) (refl, refl, refl, refl, refl)
                      (refl, refl)
                      (
                        strip-of_drops amount d,
                        ground (arith, raise_if-eq-ok _ _ e1),
                        omega arith,
                        λ q. q,
                      )
                      eb))
          ]

-- Whatever `finalize` writes is well-formed and keeps the contract.
pub finalize_callback-IsWrite :
    (n : Network) (c reason : Text) (expected : Option Text) (t : ℕ) (a : PayChannelRecord)
    {x : PayChannelRecord × Option PayChannelRecord}
    → IsRecord a
    → finalize_callback n c reason expected t (some a) ≡ ok x
    → IsWrite a x.1
unfolding finalize_callback
finalize_callback-IsWrite n c reason expected t a {x} w h =
    >>=-inv (require_record (some a) n c) _ h λ s es h.
      >>=-inv (raise_if (differs expected s.cumulative) _) _ h λ _ e1 h.
        let same : a ≡ s = require_record-ok a n c es in
        elim (Bool-cases s.finalized) [
          | inl e ↦
              subst (λ (z : PayChannelRecord × Option PayChannelRecord). IsWrite a z.1)
                (ok_injective (rw e at h)) tt
          | inr e ↦ >>=-inv (model_validate _) _ (rw e at h) λ b eb h.
              subst (λ (z : PayChannelRecord × Option PayChannelRecord). IsWrite a z.1)
                (ok_injective h)
                (subst (λ z. IsWrite z (some b)) (sym same)
                  (copy-IsWrite s _ (subst IsRecord same w) (refl, refl, refl, refl, refl)
                    (refl, refl)
                    (
                      strip-of_drops s.redeemed (subst IsRecord same w).redeemed_drops,
                      omega arith,
                      omega arith,
                      λ q. refl,
                    )
                    eb))
        ]
