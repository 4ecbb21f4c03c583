-- ===== src/PayChannel/Mutations/Accept.antt =====
-- What a call of the `advance` callback shows about the stored record, and what it writes.
use xrpl_mpp_stack.Prelude.{
  ℕ, ◌≤◌, ◌<◌, ◌≡◌, refl, sym, ap, ◌∙◌, subst, Bool, true, false, Option, some, arith, ltb, ok, err,
  store_error, channel_exhausted, value_error, >>=-inv, raise_if, raise_if-eq-ok, Bool-cases, inl,
  inr, if◌then◌else◌,
}
use xrpl_mpp_stack.Text.{Text, upper, text_eq}
use xrpl_mpp_stack.Text.Decimal.{int_of}
use xrpl_mpp_stack.Text.Laws.{text_eq→eq}
use xrpl_mpp_stack.Schema.{Network, network_eq, is_drops}
use xrpl_mpp_stack.Schema.Laws.{network_eq→eq}
use xrpl_mpp_stack.HighWater.{VoucherPayload, Status, advanced}
use xrpl_mpp_stack.HighWater.Laws.{verdict}
use xrpl_mpp_stack.PayChannel.Record.{PayChannelRecord}
use xrpl_mpp_stack.PayChannel.Record.Laws.{IsRecord}
use xrpl_mpp_stack.PayChannel.Evolution.{Evolves, IsWrite}
use xrpl_mpp_stack.PayChannel.Mutations.{
  PayChannelAdvanceResult, require_record, is_bad_funding, refresh_funding, advance_callback,
}
use xrpl_mpp_stack.PayChannel.Mutations.Advance.{
  IsVoucher, IsRefreshed, refresh_funding-ok, outcome, judge_voucher_lem, advanced_record-IsRecord,
  require_record-ok,
}

-- What a call that returned shows: the record was there under its own identity, it was open, the
-- voucher is covered, and the result is the rule's outcome on the refreshed record.
pub record IsAccepted (a : PayChannelRecord) (n : Network) (c : Text) (v : VoucherPayload)
    (requested : Text) (t : ℕ) (x : PayChannelAdvanceResult × Option PayChannelRecord)
    : Type 0 where
  pub r : PayChannelRecord
  pub changed : Bool
  pub network : a.network ≡ n
  pub channel_id : a.channel_id ≡ upper c
  pub is_open : a.finalized ≡ false
  pub refreshed : IsRefreshed a r changed
  pub covered : int_of v.amount ≤ int_of r.funded
  pub well_formed : is_drops requested ≡ true
  pub result :
      x ≡ outcome r changed v t (verdict (int_of r.cumulative) (int_of v.amount) (int_of requested))

require_record-identity :
    (a : PayChannelRecord) (n : Network) (c : Text) {r : PayChannelRecord}
    → require_record (some a) n c ≡ ok r
    → (network_eq a.network n ≡ true) × (text_eq a.channel_id (upper c) ≡ true)
unfolding require_record
require_record-identity a n c h = ground arith

judged :
    (r : PayChannelRecord) (v : VoucherPayload) (requested : Text)
    (o : PayChannelAdvanceResult × Option PayChannelRecord)
    {x : PayChannelAdvanceResult × Option PayChannelRecord}
    → (if ltb (int_of r.funded) (int_of v.amount)
        then err (store_error channel_exhausted)
        else if is_drops requested
        then ok o
        else err value_error)
      ≡ ok x
    → (int_of v.amount ≤ int_of r.funded) × (is_drops requested ≡ true) × (x ≡ o)
judged r v requested o h = elim (Bool-cases (ltb (int_of r.funded) (int_of v.amount))) [
  | inl over ↦ absurd (ground arith)
  | inr fits ↦ elim (Bool-cases (is_drops requested)) [
    | inl good ↦ (ground arith, good, ground arith)
    | inr bad ↦ absurd (ground arith)
  ]
]

-- Where the advance callback returns on a well-formed record, for a valid voucher and a usable
-- funding, the record has the call's network and identifier, it is not finalized, a refresh has
-- changed at most its funding and not lowered it, the voucher is within the refreshed funding, the
-- requested amount is a drops string, and the result is that of the verdict on the refreshed
-- record.
pub advance_callback-IsAccepted :
    (n : Network) (c : Text) (v : VoucherPayload) (requested : Text) (funded : Option Text) (t : ℕ)
    (a : PayChannelRecord) {x : PayChannelAdvanceResult × Option PayChannelRecord}
    → IsRecord a
    → IsVoucher v
    → is_bad_funding funded ≡ false
    → advance_callback n c v requested funded t (some a) ≡ ok x
    → IsAccepted a n c v requested t x
unfolding advance_callback
advance_callback-IsAccepted n c v requested funded t a {x} w iv b h =
    >>=-inv (require_record (some a) n c) _ h λ s es h.
      >>=-inv (raise_if s.finalized _) _ h λ _ eo h.
        >>=-inv (refresh_funding funded s) _ h λ p ep h.
          let same : a ≡ s = require_record-ok a n c es in
          let (en, ec) = require_record-identity a n c es in
          let fresh : IsRefreshed a p.0 p.1 =
            subst (λ z. IsRefreshed z p.0 p.1) (sym same)
              (refresh_funding-ok s funded (subst IsRecord same w) b ep) in
          let (covered, good, e) =
            judged p.0 v requested _
              (sym (judge_voucher_lem p.0 p.1 v requested t fresh.valid iv) ∙ h) in
          record {
            r = p.0;
            changed = p.1;
            network = network_eq→eq _ _ en;
            channel_id = text_eq→eq _ _ ec;
            is_open = ap (λ z. z.finalized) same ∙ raise_if-eq-ok _ _ eo;
            refreshed = fresh;
            covered = covered;
            well_formed = good;
            result = e;
          }

refreshed-Evolves :
    (a r : PayChannelRecord) (changed : Bool)
    → IsRefreshed a r changed
    → a.finalized ≡ false
    → Evolves a r
refreshed-Evolves a r changed f o = subst (Evolves a) f.same (record {
  network = refl;
  channel_id = refl;
  payer = refl;
  recipient = refl;
  created_at = refl;
  funded = f.grown;
  cumulative = omega arith;
  redeemed = omega arith;
  updated_at = omega arith;
  closed = λ h. h;
  settled = λ h. refl;
})

outcome-IsWrite :
    (a r : PayChannelRecord) (changed : Bool) (v : VoucherPayload) (t : ℕ) (s : Status)
    → IsRefreshed a r changed
    → a.finalized ≡ false
    → IsVoucher v
    → int_of v.amount ≤ int_of r.funded
    → (s ≡ advanced → int_of r.cumulative < int_of v.amount)
    → IsWrite a (outcome r changed v t s).1
outcome-IsWrite a r changed v t advanced f o iv hi lo =
    let step : Evolves a r = refreshed-Evolves a r changed f o in
    (advanced_record-IsRecord r v t f.valid iv (lo refl) hi, ground (arith, lo refl))
outcome-IsWrite a r true v t _ f o iv hi lo = (f.valid, refreshed-Evolves a r true f o)
outcome-IsWrite a r false v t _ f o iv hi lo = tt

-- Whatever `advance` writes is well-formed and keeps the contract.
pub advance_callback-IsWrite :
    (n : Network) (c : Text) (v : VoucherPayload) (requested : Text) (funded : Option Text) (t : ℕ)
    (a : PayChannelRecord) {x : PayChannelAdvanceResult × Option PayChannelRecord}
    → IsRecord a
    → IsVoucher v
    → is_bad_funding funded ≡ false
    → advance_callback n c v requested funded t (some a) ≡ ok x
    → IsWrite a x.1
advance_callback-IsWrite n c v requested funded t a {x} w iv b h =
    let k : IsAccepted a n c v requested t x =
      advance_callback-IsAccepted n c v requested funded t a w iv b h in
    subst (λ (z : PayChannelAdvanceResult × Option PayChannelRecord). IsWrite a z.1) (sym k.result)
      (outcome-IsWrite a k.r k.changed v t _ k.refreshed k.is_open iv k.covered (λ e. ground arith))
