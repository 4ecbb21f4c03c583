-- ===== src/PayChannel/Store/Accounting.antt =====
-- What accepted vouchers have paid for, across any sequence of calls.
use xrpl_mpp_stack.Prelude.{
  ℕ, ◌+◌, ◌≤◌, ◌<◌, ◌≡◌, refl, ap, subst, Bool, true, false, Option, none, some, List, [], ◌∷◌,
  arith, Result, ok, err, Error, Bool-cases, Option-cases, Result-cases, inl, inr, if◌then◌else◌,
}
use xrpl_mpp_stack.Text.{Text, text_eq}
use xrpl_mpp_stack.Text.Decimal.{int_of}
use xrpl_mpp_stack.Text.Laws.{text_eq→eq}
use xrpl_mpp_stack.Dict.{lookup, lookup-insert_self}
use xrpl_mpp_stack.HighWater.{VoucherPayload, Status, advanced, replay, is_advanced, time_of}
use xrpl_mpp_stack.HighWater.Laws.{verdict}
use xrpl_mpp_stack.PayChannel.Record.{PayChannelRecord}
use xrpl_mpp_stack.PayChannel.Record.Laws.{IsRecord}
use xrpl_mpp_stack.PayChannel.Key.{channel_key}
use xrpl_mpp_stack.PayChannel.Mutations.{
  PayChannelAdvanceResult, Mutation, advance_callback, advance_mutation, require_record,
  is_bad_funding,
}
use xrpl_mpp_stack.PayChannel.Mutations.Advance.{IsVoucher, outcome, advanced_record}
use xrpl_mpp_stack.PayChannel.Mutations.Accept.{IsAccepted, advance_callback-IsAccepted}
use xrpl_mpp_stack.PayChannel.Store
use xrpl_mpp_stack.PayChannel.Store.{PayChannelStore, commit, mutate, mutate_checked, AdvanceCall}
use xrpl_mpp_stack.PayChannel.Store.Invariant.{IsStore, Keeps}
use xrpl_mpp_stack.PayChannel.Store.Methods.{advance_mutation-ok, voucher_payload-IsVoucher}
use xrpl_mpp_stack.PayChannel.Store.Calls.{
  Call, apply, run, IsCall, AreCalls, apply-IsSafe, run-IsSafe,
}

-- The high-water amount at a key; nothing has been paid on a channel that is not there.
abbrev pub cumulative_of : Option PayChannelRecord → ℕ
cumulative_of none = 0
cumulative_of (some r) = int_of r.cumulative

abbrev pub funded_of : Option PayChannelRecord → ℕ
funded_of none = 0
funded_of (some r) = int_of r.funded

abbrev pub is_paid : Result PayChannelAdvanceResult → Bool
is_paid (ok result) = is_advanced result.status
is_paid (err e) = false

abbrev pub is_key : Result Text → Text → Bool
is_key (ok k) key = text_eq k key
is_key (err e) key = false

-- What a call has been paid at a key: the requested amount of an accepted voucher.
unfoldable pub paid_by : Text → Call → PayChannelStore → ℕ
paid_by key (Call.advance call clock) s =
    if is_key (channel_key call.network call.channel_id) key
    then (if is_paid (Store.advance call clock s).0 then int_of call.requested else 0)
    else 0
paid_by key c s = 0

unfoldable pub paid : Text → List Call → PayChannelStore → ℕ
paid key [] s = 0
paid key (c ∷ cs) s = paid_by key c s + paid key cs (apply c s)

pub Keeps-cumulative :
    {s s' : PayChannelStore} (key : Text)
    → Keeps s s'
    → cumulative_of (lookup key s.records) ≤ cumulative_of (lookup key s'.records)
Keeps-cumulative {s} key k = elim (Option-cases (lookup key s.records)) [
  | inl e ↦ rw e (omega arith)
  | inr (a, e) ↦ let (b, eb, ev) = k.at key a e in rw (e, eb) ev.cumulative
]

verdict-paid : (p n r : ℕ) → verdict p n r ≡ advanced → (p < n) × (p + r ≤ n)
verdict-paid p n r h = ground arith

-- Of the outcomes only `advanced` is paid, and it leaves the advanced record.
commit-paid :
    (s : PayChannelStore) (key : Text) (r : PayChannelRecord) (changed : Bool) (v : VoucherPayload)
    (t : ℕ) (st : Status)
    → is_paid (commit key (ok (outcome r changed v t st)) s).0 ≡ true
    → (st ≡ advanced)
      × (lookup key (commit key (ok (outcome r changed v t st)) s).1.records
          ≡ some (advanced_record r v t))
unfolding commit
commit-paid s key r changed v t advanced h = (refl, lookup-insert_self key _ s.records)
commit-paid s key r true v t replay h = absurd (cc)
commit-paid s key r false v t replay h = absurd (cc)
commit-paid s key r true v t _ h = absurd (cc)
commit-paid s key r false v t _ h = absurd (cc)

module _ (s : PayChannelStore) (key : Text) (call : AdvanceCall) (t : ℕ) (v : VoucherPayload) where
  abbrev callback : Mutation PayChannelAdvanceResult
  callback = advance_callback call.network call.channel_id v call.requested call.funded t

  paid_step :
      (a : PayChannelRecord) (x : PayChannelAdvanceResult × Option PayChannelRecord)
      → IsAccepted a call.network call.channel_id v call.requested t x
      → is_paid (commit key (ok x) s).0 ≡ true
      → int_of a.cumulative + int_of call.requested
        ≤ cumulative_of (lookup key (commit key (ok x) s).1.records)
  paid_step a x k h =
      let st : Status = verdict (int_of k.r.cumulative) (int_of v.amount) (int_of call.requested) in
      let (adv, found) =
        commit-paid s key k.r k.changed v t st
          (subst (λ z. is_paid (commit key (ok z) s).0 ≡ true) k.result h) in
      let (_, covers) =
        verdict-paid (int_of k.r.cumulative) (int_of v.amount) (int_of call.requested) adv in
      let same : int_of a.cumulative ≡ int_of k.r.cumulative =
        ap (λ z. int_of z.cumulative) k.refreshed.same in
      rw (k.result, found) (omega arith)

  paid_commit :
      (o : Option PayChannelRecord)
      → ((a : PayChannelRecord) → o ≡ some a → IsRecord a)
      → IsVoucher v
      → is_bad_funding call.funded ≡ false
      → is_paid (commit key (callback o) s).0 ≡ true
      → cumulative_of o + int_of call.requested
        ≤ cumulative_of (lookup key (commit key (callback o) s).1.records)
  unfolding commit
  paid_commit none w iv b h = absurd (unfold advance_callback require_record in cc h)
  paid_commit (some a) w iv b h = elim (Result-cases (callback (some a))) [
    | inl (x, e) ↦ rw e (
        paid_step a x
          (advance_callback-IsAccepted call.network call.channel_id v call.requested call.funded t a
            (w a refl) iv b e)
          (rw e at h))
    | inr (x, e) ↦ absurd (no_error x (rw e at h))
  ]
    where
      no_error : (x : Error) → is_paid (commit key (err x) s).0 ≡ true → ⊥
      no_error x h = cc

-- An accepted voucher raises the high-water mark of its channel by at least what was requested.
pub advance-paid :
    (call : AdvanceCall) (clock : ℕ) (s : PayChannelStore) (key : Text)
    → IsStore s
    → channel_key call.network call.channel_id ≡ ok key
    → is_paid (Store.advance call clock s).0 ≡ true
    → cumulative_of (lookup key s.records) + int_of call.requested
      ≤ cumulative_of (lookup key (Store.advance call clock s).1.records)
unfolding Store.advance mutate
advance-paid call clock s key w e h =
    let m : Result (Mutation PayChannelAdvanceResult) =
      advance_mutation call.network call.channel_id call.cumulative call.requested call.signature
        call.funded (time_of call.timestamp clock) in
    elim (Result-cases m) [
      | inl (f, em) ↦
          let (v, ev, b, same) =
            advance_mutation-ok call.network call.channel_id call.cumulative call.requested
              call.signature call.funded (time_of call.timestamp clock) em in
          rw (e, em, same)
            (paid_commit s key call (time_of call.timestamp clock) v (lookup key s.records)
              (λ a ea. (w.at key a ea).0)
              (voucher_payload-IsVoucher call.channel_id call.cumulative call.signature ev) b
              (rw (e, em, same) at h))
      | inr (x, em) ↦ absurd (unpaid x (rw (e, em) at h))
    ]
  where
    unpaid : (x : Error) → false ≡ true → ⊥
    unpaid x h = cc

is_key-ok : (r : Result Text) (key : Text) → is_key r key ≡ true → r ≡ ok key
is_key-ok (ok k) key h = ap ok (text_eq→eq k key h)
is_key-ok (err e) key h = absurd (cc)

-- Any call raises the mark at a key by at least what it was paid there.
paid_by-le :
    (key : Text) (c : Call) (s : PayChannelStore)
    → IsCall c
    → IsStore s
    → cumulative_of (lookup key s.records) + paid_by key c s
      ≤ cumulative_of (lookup key (apply c s).records)
unfolding paid_by apply
paid_by-le key (Call.advance call clock) s h w =
    let rise = Keeps-cumulative key (apply-IsSafe (Call.advance call clock) s h w).1 in
    elim (Bool-cases (is_key (channel_key call.network call.channel_id) key)) [
      | inl ek ↦ elim (Bool-cases (is_paid (Store.advance call clock s).0)) [
        | inl ep ↦
            rw (ek, ep)
              (advance-paid call clock s key w
                (is_key-ok (channel_key call.network call.channel_id) key ek) ep)
        | inr ep ↦ rw (ek, ep) (omega (arith, rise))
      ]
      | inr ek ↦ rw ek (omega (arith, rise))
    ]
paid_by-le key (Call.create r) s h w =
    omega (arith, Keeps-cumulative key (apply-IsSafe (Call.create r) s h w).1)
paid_by-le key c s h w = omega (arith, Keeps-cumulative key (apply-IsSafe c s h w).1)

paid-le :
    (key : Text) (cs : List Call) (s : PayChannelStore)
    → AreCalls cs
    → IsStore s
    → cumulative_of (lookup key s.records) + paid key cs s
      ≤ cumulative_of (lookup key (run cs s).records)
unfolding paid run
paid-le key [] s h w = omega arith
paid-le key (c ∷ cs) s h w =
    omega
      (arith, paid_by-le key c s h.0 w, paid-le key cs (apply c s) h.1 (apply-IsSafe c s h.0 w).0)

-- Over any sequence of calls with valid created records, from a store that satisfies the
-- invariant, the requested amounts of the vouchers that were accepted on a channel sum to no more
-- than the rise of its cumulative amount, and that amount stays within the channel's funding at
-- the end.
pub paid-le-funded :
    (key : Text) (cs : List Call) (s : PayChannelStore)
    → AreCalls cs
    → IsStore s
    → (cumulative_of (lookup key s.records) + paid key cs s
        ≤ cumulative_of (lookup key (run cs s).records))
      × (cumulative_of (lookup key (run cs s).records) ≤ funded_of (lookup key (run cs s).records))
paid-le-funded key cs s h w = (paid-le key cs s h w, within (lookup key (run cs s).records) refl)
  where
    within :
        (o : Option PayChannelRecord)
        → lookup key (run cs s).records ≡ o
        → cumulative_of o ≤ funded_of o
    within none e = omega arith
    within (some r) e = ((run-IsSafe cs s h w).0.at key r e).0.accounted.covered
