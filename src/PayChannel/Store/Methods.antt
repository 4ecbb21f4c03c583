-- ===== src/PayChannel/Store/Methods.antt =====
-- Lemmas for each method of the store: the invariant and the contract.
use xrpl_mpp_stack.Prelude.{
  ℕ, ◌≡◌, refl, sym, ap, ◌∙◌, subst, true, false, Option, none, some, arith, Result, ok, err,
  >>=-inv, ok_injective, raise_if, raise_if-eq-ok, Bool-cases, Result-cases, inl, inr,
}
use xrpl_mpp_stack.Text.{Text, codes, py_strip, is_empty}
use xrpl_mpp_stack.Schema.{Network, is_channel_id, is_drops, is_claim_signature, text_field}
use xrpl_mpp_stack.Schema.Laws.{text_field-ok}
use xrpl_mpp_stack.Dict.{lookup}
use xrpl_mpp_stack.HighWater.{VoucherPayload, voucher_payload, time_of}
use xrpl_mpp_stack.PayChannel.Record.{PayChannelRecord, record_eq}
use xrpl_mpp_stack.PayChannel.Record.Laws.{IsRecord}
use xrpl_mpp_stack.PayChannel.Evolution.{IsWrite, Evolves-refl}
use xrpl_mpp_stack.PayChannel.Key.{channel_key}
use xrpl_mpp_stack.PayChannel.Mutations.{
  Mutation, create_callback, advance_callback, redeem_callback, finalize_callback, advance_mutation,
  redeem_mutation, finalize_mutation, is_bad_funding, require_record, optional_drops,
  PayChannelAdvanceResult, PayChannelCreateResult,
}
use xrpl_mpp_stack.PayChannel.Mutations.Advance.{IsVoucher}
use xrpl_mpp_stack.PayChannel.Mutations.Accept.{advance_callback-IsWrite}
use xrpl_mpp_stack.PayChannel.Mutations.Redeem.{redeem_callback-IsWrite, finalize_callback-IsWrite}
use xrpl_mpp_stack.PayChannel.Store.{
  PayChannelStore, mutate, mutate_checked, create, advance, AdvanceCall, mark_redeemed, finalize,
  claim_redemption, release_redemption,
}
use xrpl_mpp_stack.PayChannel.Store.Invariant.{
  IsStore, Keeps-refl, IsSafe, IsWriteAt, commit-IsSafe,
}

pub voucher_payload-IsVoucher :
    (c a s : Text) {v : VoucherPayload} → voucher_payload c a s ≡ ok v → IsVoucher v
unfolding voucher_payload
voucher_payload-IsVoucher c a s h = >>=-inv (text_field is_channel_id c) _ h λ c' ec h.
    >>=-inv (text_field is_drops a) _ h λ a' ea h.
      >>=-inv (text_field is_claim_signature s) _ h λ s' es h.
        subst IsVoucher (ok_injective h) (record {
          id = (text_field-ok is_channel_id c ec).2;
          amount = (text_field-ok is_drops a ea).2;
          signature = (text_field-ok is_claim_signature s es).2;
        })

-- A callback that writes nothing without a record, and keeps the contract on one.
pub record IsContract {A : Type 0} (m : Mutation A) : Type 0 where
  pub absent : (x : A × Option PayChannelRecord) → m none ≡ ok x → x.1 ≡ none
  pub present :
      (a : PayChannelRecord) (x : A × Option PayChannelRecord)
      → IsRecord a
      → m (some a) ≡ ok x
      → IsWrite a x.1

pub contract-IsWriteAt :
    {A : Type 0} (key : Text) (m : Mutation A) (o : Option PayChannelRecord)
    (x : A × Option PayChannelRecord)
    → IsContract m
    → ((a : PayChannelRecord) → o ≡ some a → IsRecord a)
    → m o ≡ ok x
    → IsWriteAt key o x.1
contract-IsWriteAt key m none x k w h = rw (k.absent x h) tt
contract-IsWriteAt key m (some a) (r, none) k w h = tt
contract-IsWriteAt key m (some a) (r, some b) k w h = k.present a (r, some b) (w a refl) h

pub mutate_checked-IsSafe :
    {A : Type 0} (s : PayChannelStore) (key : Result Text) (m : Result (Mutation A))
    → IsStore s
    → ((f : Mutation A) → m ≡ ok f → IsContract f)
    → IsSafe s (mutate_checked key m s).1
unfolding mutate_checked mutate
mutate_checked-IsSafe s (err e) m w k = (w, Keeps-refl s)
mutate_checked-IsSafe s (ok key) (err e) w k = (w, Keeps-refl s)
mutate_checked-IsSafe s (ok key) (ok f) w k =
    commit-IsSafe s key (f (lookup key s.records)) w λ x h.
      contract-IsWriteAt key f (lookup key s.records) x (k f refl) (λ a e. (w.at key a e).0) h

advance_callback-IsContract :
    (n : Network) (c : Text) (v : VoucherPayload) (requested : Text) (funded : Option Text) (t : ℕ)
    → IsVoucher v
    → is_bad_funding funded ≡ false
    → IsContract (advance_callback n c v requested funded t)
advance_callback-IsContract n c v requested funded t iv b = record {
  absent = λ x h. unfold advance_callback require_record in absurd (cc h);
  present = λ a x w h. advance_callback-IsWrite n c v requested funded t a w iv b h;
}

redeem_callback-IsContract :
    (n : Network) (c amount : Text) (reference : Option Text) (t : ℕ)
    → is_drops amount ≡ true
    → IsContract (redeem_callback n c amount reference t)
redeem_callback-IsContract n c amount reference t d = record {
  absent = λ x h. unfold redeem_callback require_record in absurd (cc h);
  present = λ a x w h. redeem_callback-IsWrite n c amount reference t a w d h;
}

finalize_callback-IsContract :
    (n : Network) (c reason : Text) (expected : Option Text) (t : ℕ)
    → IsContract (finalize_callback n c reason expected t)
finalize_callback-IsContract n c reason expected t = record {
  absent = λ x h. unfold finalize_callback require_record in absurd (cc h);
  present = λ a x w h. finalize_callback-IsWrite n c reason expected t a w h;
}

-- The callback that `advance` hands over was made from a valid voucher and a usable funding.
pub advance_mutation-ok :
    (n : Network) (c cumulative requested signature : Text) (funded : Option Text) (t : ℕ)
    {f : Mutation PayChannelAdvanceResult}
    → advance_mutation n c cumulative requested signature funded t ≡ ok f
    → (v : VoucherPayload) × (voucher_payload c cumulative signature ≡ ok v)
      × (is_bad_funding funded ≡ false)
      × (f ≡ advance_callback n c v requested funded t)
unfolding advance_mutation
advance_mutation-ok n c cumulative requested signature funded t h =
    >>=-inv (voucher_payload c cumulative signature) _ h λ v ev h.
      >>=-inv (raise_if (is_bad_funding funded) _) _ h
        λ _ eb h. (v, ev, raise_if-eq-ok _ _ eb, sym (ok_injective h))

pub advance_mutation-IsContract :
    (call : AdvanceCall) (t : ℕ) (f : Mutation PayChannelAdvanceResult)
    → advance_mutation call.network call.channel_id call.cumulative call.requested call.signature
        call.funded t
      ≡ ok f
    → IsContract f
advance_mutation-IsContract call t f h =
    let (v, ev, b, e) =
      advance_mutation-ok call.network call.channel_id call.cumulative call.requested call.signature
        call.funded t h in
    subst IsContract (sym e) (
      advance_callback-IsContract call.network call.channel_id v call.requested call.funded t
        (voucher_payload-IsVoucher call.channel_id call.cumulative call.signature ev) b)

pub advance-IsSafe :
    (call : AdvanceCall) (clock : ℕ) (s : PayChannelStore)
    → IsStore s
    → IsSafe s (advance call clock s).1
unfolding advance
advance-IsSafe call clock s w =
    mutate_checked-IsSafe s (channel_key call.network call.channel_id) _ w
      (advance_mutation-IsContract call (time_of call.timestamp clock))

pub mark_redeemed-IsSafe :
    (n : Network) (c cumulative : Text) (reference : Option Text) (t : Option ℕ) (clock : ℕ)
    (s : PayChannelStore)
    → IsStore s
    → IsSafe s (mark_redeemed n c cumulative reference t clock s).1
unfolding mark_redeemed
mark_redeemed-IsSafe n c cumulative reference t clock s w =
    mutate_checked-IsSafe s (channel_key n c) _ w λ f h.
      unfold redeem_mutation in
      >>=-inv (voucher_payload c cumulative (codes "00")) _ h λ v ev h.
        subst IsContract (ok_injective h) (
          redeem_callback-IsContract n c v.amount reference (time_of t clock)
            (voucher_payload-IsVoucher c cumulative (codes "00") ev).amount)

pub finalize-IsSafe :
    (n : Network) (c reason : Text) (expected : Option Text) (t : Option ℕ) (clock : ℕ)
    (s : PayChannelStore)
    → IsStore s
    → IsSafe s (finalize n c reason expected t clock s).1
unfolding finalize
finalize-IsSafe n c reason expected t clock s w =
    mutate_checked-IsSafe s (channel_key n c) _ w λ f h.
      unfold finalize_mutation in
      >>=-inv (raise_if (is_empty (py_strip reason)) _) _ h λ _ e1 h.
        >>=-inv (optional_drops expected) _ h λ e ee h.
          subst IsContract (ok_injective h)
            (finalize_callback-IsContract n c (py_strip reason) e (time_of t clock))

create_callback-IsWriteAt :
    (key : Text) (r : PayChannelRecord) (o : Option PayChannelRecord)
    (x : PayChannelCreateResult × Option PayChannelRecord)
    → IsRecord r
    → channel_key r.network r.channel_id ≡ ok key
    → create_callback r o ≡ ok x
    → IsWriteAt key o x.1
unfolding create_callback
create_callback-IsWriteAt key r none x w k h =
    subst (λ (z : PayChannelCreateResult × Option PayChannelRecord). IsWriteAt key none z.1)
      (ok_injective h) (w, k)
create_callback-IsWriteAt key r (some a) x w k h = elim (Bool-cases (record_eq a r)) [
  | inl e ↦
      subst (λ (z : PayChannelCreateResult × Option PayChannelRecord). IsWriteAt key (some a) z.1)
        (ok_injective (rw e at h)) tt
  | inr e ↦ absurd (ground arith)
]

pub create-IsSafe :
    (r : PayChannelRecord) (s : PayChannelStore) → IsRecord r → IsStore s → IsSafe s (create r s).1
unfolding create mutate
create-IsSafe r s v w = elim (Result-cases (channel_key r.network r.channel_id)) [
  | inl (key, e) ↦
      rw (e, mutate_checked)
        (commit-IsSafe s key (create_callback r (lookup key s.records)) w
          λ x h. create_callback-IsWriteAt key r (lookup key s.records) x v e h)
  | inr (x, e) ↦ rw (e, mutate_checked) (w, Keeps-refl s)
]

same_records-IsSafe : (s t : PayChannelStore) → t.records ≡ s.records → IsStore s → IsSafe s t
same_records-IsSafe s t e w = (
  record { at = λ k r h. w.at k r (ap (lookup k) (sym e) ∙ h) },
  record { at = λ k a h. (a, ap (lookup k) e ∙ h, Evolves-refl a) },
)

pub claim_redemption-IsSafe :
    (n : Network) (c : Text) (lease now : ℕ) (id : Text) (s : PayChannelStore)
    → IsStore s
    → IsSafe s (claim_redemption n c lease now id s).1
unfolding claim_redemption
claim_redemption-IsSafe n c lease now id s w = same_records-IsSafe s _ (ground arith) w

pub release_redemption-IsSafe :
    (n : Network) (c id : Text) (s : PayChannelStore)
    → IsStore s
    → IsSafe s (release_redemption n c id s).1
unfolding release_redemption
release_redemption-IsSafe n c id s w = same_records-IsSafe s _ (ground arith) w
