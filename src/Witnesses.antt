-- ===== src/Witnesses.antt =====
-- Concrete runs of the theorems, and tests of the definitions.
pub mod Header
pub mod Accept
pub mod Binding
pub mod Replay
pub mod Service
pub mod Open
pub mod Did
pub mod Session
use xrpl_mpp_stack.Prelude.{
  ◌+◌, ◌*◌, ◌≤◌, ◌<◌, ◌≡◌, ◌≢◌, refl, ap, ◌∙◌, true, false, none, some, List, [], ◌∷◌, ◌++◌, arith,
  ltb, Result, ok, err, inl, inr, length, if◌then◌else◌, value_error,
}
use xrpl_mpp_stack.Text.{Text, codes, text_eq, upper, strip}
use xrpl_mpp_stack.Text.Laws.{text_eq→eq}
use xrpl_mpp_stack.Dict.{Dict, lookup}
use xrpl_mpp_stack.Schema.{testnet, is_drops, is_channel_id, is_claim_signature}
use xrpl_mpp_stack.Optimistic.{Interference}
use xrpl_mpp_stack.HighWater.{VoucherPayload, advanced}
use xrpl_mpp_stack.PayChannel.Record.{PayChannelRecord, model_validate, is_reason, is_reference}
use xrpl_mpp_stack.PayChannel.Record.Laws.{
  model_validate_fixed_iff, IsRecord, IsField, model_validate-IsRecord, model_validate-of_IsRecord,
}
use xrpl_mpp_stack.PayChannel.Key.{channel_key, redemption_lease_key, network_prefix}
use xrpl_mpp_stack.PayChannel.Store
use xrpl_mpp_stack.PayChannel.Store.{PayChannelStore, empty_store, AdvanceCall, claim_redemption}
use xrpl_mpp_stack.PayChannel.Store.Invariant.{IsStore, IsSafe}
use xrpl_mpp_stack.PayChannel.Store.Calls.{Call, run, run-IsSafe}
use xrpl_mpp_stack.PayChannel.Store.Accounting.{paid, cumulative_of, funded_of, paid-le-funded}
use xrpl_mpp_stack.PayChannel.Store.Lease.{AreForeign, lease_exclusive}
use xrpl_mpp_stack.PayChannel.Key.{network_name, lease_root}
use xrpl_mpp_stack.PayChannel.Key.Laws.{channel_key_injective, channel_key-ne-lease_key}
use xrpl_mpp_stack.Optimistic.{IsMet}
use xrpl_mpp_stack.PayChannel.Mutations.{
  PayChannelAdvanceResult, judge_voucher, advance_callback, redeem_callback, finalize_callback,
  differs,
}
use xrpl_mpp_stack.PayChannel.Mutations.Advance.{IsVoucher, outcome, judge_voucher_lem}
use xrpl_mpp_stack.PayChannel.Mutations.Accept.{IsAccepted, advance_callback-IsAccepted}
use xrpl_mpp_stack.PayChannel.Mutations.Branches.{
  redeemed_record, closed_record, redeem_callback_lem, finalize_callback_lem,
}
use xrpl_mpp_stack.PayChannel.Redis.{Codec, redis_advance, deserialize}
use xrpl_mpp_stack.PayChannel.Redis.Refinement.{
  Represents, redis_advance-refines, redis_advance-settles,
}
use xrpl_mpp_stack.PayChannel.Scan.{network_records}
use xrpl_mpp_stack.PayChannel.Scan.Pages.{collect, collect-all}
use xrpl_mpp_stack.HighWater.Laws.{
  verdict, decision_for, evaluate_high_water-verdict, require_high_water_advance_iff,
}
use xrpl_mpp_stack.HighWater.{
  evaluate_high_water, require_high_water_advance, previous_value, time_of,
}
use xrpl_mpp_stack.Replay.Retention.{
  replay_retention_seconds, replay_retention_seconds_bounds, instant,
}
use xrpl_mpp_stack.Replay.Claims.{
  validate_retention, claim_challenge, is_granted, after_claim, challenge_key, expiry,
}
use xrpl_mpp_stack.Replay.Claims.Laws as ClaimsLaws
use xrpl_mpp_stack.Replay.Claims.Laws.{challenge_once, claim_challenge-granted}
use xrpl_mpp_stack.Replay.Reservation.{
  is_taken, watched_keys, Settings, ReplayReservation, reserve_body, guard_available,
}
use xrpl_mpp_stack.Replay.Reservation.Laws as ReservationLaws
use xrpl_mpp_stack.Replay.Reservation.Laws.{Step, reserve_excludes, processed_blocks}
use xrpl_mpp_stack.Text.Decimal.{int_of}
use xrpl_mpp_stack.Prelude.{
  ◌↔◌, subst, Bool-cases, leb, ◌&&◌, ◌==◌, is_none, store_error, channel_exhausted,
  redeemed_regression, redeemed_exceeds_cumulative, channel_state_changed,
}

abbrev pub channel : Text
channel = codes "0000000000000000000000000000000000000000000000000000000000000ABC"

abbrev pub opened : PayChannelRecord
opened = record {
  network = testnet;
  channel_id = channel;
  payer = codes "rPayerPayerPayerPayerPayer";
  recipient = codes "rPayeePayeePayeePayeePayee";
  funded = codes "100";
  cumulative = codes "0";
  signature = [];
  redeemed = codes "0";
  created_at = 1;
  updated_at = 1;
  finalized = false;
  finalized_at = none;
  finalized_reason = none;
  redeemed_at = none;
  redemption_reference = none;
}

opened-valid : model_validate opened ≡ ok opened
unfolding model_validate xrpl_mpp_stack.Schema.text_field xrpl_mpp_stack.Schema.is_channel_id
    xrpl_mpp_stack.Text.strip xrpl_mpp_stack.Schema.is_classic_address
    xrpl_mpp_stack.Schema.is_drops xrpl_mpp_stack.Schema.is_signature
    xrpl_mpp_stack.Schema.optional_text_field xrpl_mpp_stack.PayChannel.Record.validate_accounting
    xrpl_mpp_stack.Text.Decimal.int_of xrpl_mpp_stack.Text.upper
opened-valid = refl

pub opened-IsRecord : IsRecord opened
opened-IsRecord = model_validate-IsRecord opened opened-valid

pub empty_store-IsStore : IsStore empty_store
unfolding lookup
empty_store-IsStore = record { at = λ key r h. absurd (cc) }

abbrev pub key : Text
key = network_prefix testnet ++ channel

abbrev call : AdvanceCall
call = record {
  network = testnet;
  channel_id = channel;
  cumulative = codes "10";
  requested = codes "10";
  signature = codes "ab";
  funded = none;
  timestamp = none;
}

abbrev again : AdvanceCall
again = record call { cumulative = codes "15" }

abbrev calls : List Call
calls =
    Call.create opened
    ∷ Call.advance call 5
    ∷ Call.advance again 6
    ∷ Call.finalize testnet channel (codes "closed") none none 7
    ∷ []

-- Of two vouchers for 10 drops each, only the one that covers its request is paid.
paid_test : paid key calls empty_store ≡ 10
unfolding paid xrpl_mpp_stack.PayChannel.Store.Accounting.paid_by channel_key
    xrpl_mpp_stack.HighWater.voucher_payload xrpl_mpp_stack.Schema.is_claim_signature
    xrpl_mpp_stack.Text.text_eq Store.advance xrpl_mpp_stack.PayChannel.Mutations.advance_mutation
    xrpl_mpp_stack.PayChannel.Mutations.advance_callback
    xrpl_mpp_stack.PayChannel.Mutations.require_record
    xrpl_mpp_stack.PayChannel.Mutations.advance_result
    xrpl_mpp_stack.PayChannel.Mutations.apply_decision
    xrpl_mpp_stack.PayChannel.Mutations.create_callback
    xrpl_mpp_stack.PayChannel.Mutations.judge_voucher
    xrpl_mpp_stack.PayChannel.Mutations.refresh_funding
    xrpl_mpp_stack.PayChannel.Mutations.finalize_callback
    xrpl_mpp_stack.PayChannel.Mutations.finalize_mutation lookup
    xrpl_mpp_stack.PayChannel.Store.Calls.apply xrpl_mpp_stack.Dict.insert
    xrpl_mpp_stack.HighWater.evaluate_high_water xrpl_mpp_stack.HighWater.high_water_decision
    xrpl_mpp_stack.HighWater.high_water_mark xrpl_mpp_stack.PayChannel.Record.high_water
    xrpl_mpp_stack.Schema.adapter xrpl_mpp_stack.Schema.network_eq
    xrpl_mpp_stack.Text.Decimal.str_of xrpl_mpp_stack.PayChannel.Record.record_eq
    xrpl_mpp_stack.Text.starts_with xrpl_mpp_stack.Text.strip_left Store.create Store.commit
    Store.mutate Store.mutate_checked Store.finalize model_validate xrpl_mpp_stack.Schema.text_field
    xrpl_mpp_stack.Schema.is_channel_id xrpl_mpp_stack.Text.strip
    xrpl_mpp_stack.Schema.is_classic_address xrpl_mpp_stack.Schema.is_drops
    xrpl_mpp_stack.Schema.is_signature xrpl_mpp_stack.Schema.optional_text_field
    xrpl_mpp_stack.PayChannel.Record.validate_accounting xrpl_mpp_stack.Text.Decimal.int_of
    xrpl_mpp_stack.Text.upper
paid_test = refl

paid-le-funded_example :
    (cumulative_of (lookup key empty_store.records) + paid key calls empty_store
      ≤ cumulative_of (lookup key (run calls empty_store).records))
    × (cumulative_of (lookup key (run calls empty_store).records)
        ≤ funded_of (lookup key (run calls empty_store).records))
paid-le-funded_example =
    paid-le-funded key calls empty_store (opened-IsRecord, (tt, (tt, (tt, tt)))) empty_store-IsStore

run-IsSafe_example : IsSafe empty_store (run calls empty_store)
run-IsSafe_example =
    run-IsSafe calls empty_store (opened-IsRecord, (tt, (tt, (tt, tt)))) empty_store-IsStore

abbrev lease_key : Text
lease_key = lease_root ++ ((network_name testnet ++ codes ":") ++ channel)

pub channel_key-channel : channel_key testnet channel ≡ ok key
unfolding channel_key xrpl_mpp_stack.HighWater.voucher_payload xrpl_mpp_stack.Schema.text_field
    is_channel_id strip is_drops is_claim_signature upper
channel_key-channel = refl

lease_key-channel : redemption_lease_key testnet channel ≡ ok lease_key
unfolding redemption_lease_key xrpl_mpp_stack.HighWater.voucher_payload
    xrpl_mpp_stack.Schema.text_field is_channel_id strip is_drops is_claim_signature
    xrpl_mpp_stack.Text.replace_first upper
lease_key-channel = refl

abbrev between : List Call
between =
    Call.create opened
    ∷ Call.claim_redemption testnet channel 60 3000 (codes "thief")
    ∷ Call.release_redemption testnet channel (codes "thief")
    ∷ []

first_lease :
    (claim_redemption testnet channel 10 0 (codes "worker") empty_store).0
    ≡ ok (some (codes "worker"))
unfolding claim_redemption redemption_lease_key xrpl_mpp_stack.HighWater.voucher_payload
    xrpl_mpp_stack.Schema.text_field is_channel_id strip is_drops is_claim_signature lookup
first_lease = refl

between-AreForeign : AreForeign (codes "worker") (0 + 10 * 1000) between
unfolding text_eq
between-AreForeign = (tt, (omega arith, (refl, tt)))

lease_exclusive_example :
    (claim_redemption testnet channel 20 9999
      (codes "thief")
      (run between (claim_redemption testnet channel 10 0 (codes "worker") empty_store).1)).0
    ≡ (if ltb 9999 (0 + 10 * 1000) then ok none else ok (some (codes "thief")))
lease_exclusive_example =
    lease_exclusive testnet channel lease_key (codes "worker") (codes "thief") 10 0 20 9999 between
      empty_store lease_key-channel first_lease between-AreForeign (omega arith)

-- A codec whose raw form is the record itself.
abbrev codec : Codec
codec = record {
  Raw = PayChannelRecord;
  model_dump_json = λ r. r;
  model_validate_json = model_validate;
  round_trip = model_validate-of_IsRecord;
}

abbrev quiet : List (Interference PayChannelRecord)
quiet = record { effect = λ d. d; is_touched = false } ∷ []

abbrev held : Dict PayChannelRecord
held = (key, opened) ∷ []

abbrev pub holding : PayChannelStore
holding = record { records = held; redemption_leases = [] }

abbrev paid_record : PayChannelRecord
paid_record = record opened { cumulative = codes "10"; signature = codes "AB"; updated_at = 5 }

abbrev paid_result : Result PayChannelAdvanceResult × Dict PayChannelRecord
paid_result = (
  ok (record {
    status = advanced;
    previous = codes "0";
    exact_replay = false;
    record_of = paid_record;
  }),
  (key, paid_record) ∷ [],
)

holding-Represents : Represents codec held holding
unfolding lookup deserialize
holding-Represents = record {
  at = λ k. elim (Bool-cases (text_eq key k)) [
    | inl e ↦ rw e (rw opened-valid refl)
    | inr e ↦ rw e refl
  ];
}

pub holding-IsStore : IsStore holding
unfolding lookup
holding-IsStore = record {
  at = λ k r h. elim (Bool-cases (text_eq key k)) [
    | inl e ↦ found k r e (rw e at h)
    | inr e ↦ absurd (missing r (rw e at h))
  ];
}
  where
    same : {r : PayChannelRecord} → some opened ≡ some r → opened ≡ r
    same h = cc

    found :
        (k : Text) (r : PayChannelRecord)
        → text_eq key k ≡ true
        → some opened ≡ some r
        → IsRecord r × (channel_key r.network r.channel_id ≡ ok k)
    found k r e h =
        subst (λ z. IsRecord z × (channel_key z.network z.channel_id ≡ ok k)) (same h)
          (opened-IsRecord, channel_key-channel ∙ ap ok (text_eq→eq key k e))

    missing : (r : PayChannelRecord) → none ≡ some r → ⊥
    missing r h = cc

quiet-reads :
    (at : Dict PayChannelRecord)
    → IsMet held quiet at
    → Represents codec at holding × IsStore holding
quiet-reads at (inl e) = rw e (holding-Represents, holding-IsStore)
quiet-reads at (inr e) = rw e (holding-Represents, holding-IsStore)

redis_advance_test : redis_advance codec quiet call 5 held ≡ some paid_result
unfolding redis_advance channel_key deserialize lookup xrpl_mpp_stack.HighWater.voucher_payload
    xrpl_mpp_stack.PayChannel.Mutations.advance_mutation xrpl_mpp_stack.Optimistic.optimistic
    xrpl_mpp_stack.Optimistic.exec xrpl_mpp_stack.PayChannel.Redis.mutate_body
    xrpl_mpp_stack.PayChannel.Redis.queue xrpl_mpp_stack.PayChannel.Redis.redis_mutate
    xrpl_mpp_stack.PayChannel.Redis.redis_mutate_checked xrpl_mpp_stack.Dict.insert advance_callback
    xrpl_mpp_stack.PayChannel.Mutations.require_record
    xrpl_mpp_stack.PayChannel.Mutations.refresh_funding
    xrpl_mpp_stack.PayChannel.Mutations.apply_decision
    xrpl_mpp_stack.PayChannel.Mutations.advance_result judge_voucher
    xrpl_mpp_stack.Schema.network_eq text_eq upper int_of
    xrpl_mpp_stack.PayChannel.Record.high_water xrpl_mpp_stack.HighWater.high_water_mark
    xrpl_mpp_stack.Schema.text_field xrpl_mpp_stack.Schema.is_signature
    xrpl_mpp_stack.HighWater.high_water_decision xrpl_mpp_stack.Text.Decimal.str_of
    xrpl_mpp_stack.PayChannel.Record.validate_accounting xrpl_mpp_stack.Schema.adapter
    xrpl_mpp_stack.Schema.is_classic_address xrpl_mpp_stack.Schema.optional_text_field
    xrpl_mpp_stack.Text.strip_left evaluate_high_water is_drops strip is_channel_id
    is_claim_signature model_validate
redis_advance_test = refl

redis_advance-refines_example :
    (at : Dict PayChannelRecord) × IsMet held quiet at
    × (paid_result.0 ≡ (Store.advance call 5 holding).0)
    × Represents codec paid_result.1 (Store.advance call 5 holding).1
redis_advance-refines_example =
    redis_advance-refines codec quiet call 5 key held paid_result (λ _. holding) channel_key-channel
      ((λ u d. refl, tt), tt) quiet-reads redis_advance_test

-- A round that another writer has touched, and one that none has.
abbrev contended : List (Interference PayChannelRecord)
contended = record { effect = λ d. d; is_touched = true } ∷ quiet

contended-reads :
    (at : Dict PayChannelRecord)
    → IsMet held contended at
    → Represents codec at holding × IsStore holding
contended-reads at (inl e) = rw e (holding-Represents, holding-IsStore)
contended-reads at (inr e) = quiet-reads at e

redis_advance-settles_example :
    (out : Result PayChannelAdvanceResult × Dict PayChannelRecord) × (at : Dict PayChannelRecord)
    × (redis_advance codec contended call 5 held ≡ some out)
    × IsMet held contended at
    × (out.0 ≡ (Store.advance call 5 holding).0)
    × Represents codec out.1 (Store.advance call 5 holding).1
redis_advance-settles_example =
    redis_advance-settles codec contended call 5 key held (λ _. holding) channel_key-channel
      ((λ u d. refl, tt), ((λ u d. refl, tt), tt)) contended-reads refl

abbrev voucher : VoucherPayload
voucher = record { channel_id = channel; amount = codes "10"; signature = codes "ab" }

voucher-IsVoucher : IsVoucher voucher
unfolding is_channel_id is_drops is_claim_signature
voucher-IsVoucher = record { id = refl; amount = refl; signature = refl }

judge_voucher_lem_example : judge_voucher voucher (codes "10") 5 opened false ≡ (
    if ltb (int_of opened.funded) (int_of voucher.amount)
    then err (store_error channel_exhausted)
    else if is_drops (codes "10")
    then ok (
        outcome opened false voucher 5
          (verdict (int_of opened.cumulative) (int_of voucher.amount) (int_of (codes "10"))))
    else err value_error)
judge_voucher_lem_example =
    judge_voucher_lem opened false voucher (codes "10") 5 opened-IsRecord voucher-IsVoucher

accepted_outcome :
    advance_callback testnet channel voucher (codes "10") none 5 (some opened)
    ≡ ok (outcome opened false voucher 5 advanced)
unfolding advance_callback xrpl_mpp_stack.PayChannel.Mutations.require_record
    xrpl_mpp_stack.PayChannel.Mutations.refresh_funding
    xrpl_mpp_stack.PayChannel.Mutations.apply_decision
    xrpl_mpp_stack.PayChannel.Mutations.advance_result judge_voucher
    xrpl_mpp_stack.Schema.network_eq text_eq upper int_of
    xrpl_mpp_stack.PayChannel.Record.high_water xrpl_mpp_stack.HighWater.high_water_mark
    xrpl_mpp_stack.Schema.text_field xrpl_mpp_stack.Schema.is_signature
    xrpl_mpp_stack.HighWater.high_water_decision xrpl_mpp_stack.Text.Decimal.str_of
    xrpl_mpp_stack.PayChannel.Record.validate_accounting xrpl_mpp_stack.Schema.adapter
    xrpl_mpp_stack.Schema.is_classic_address xrpl_mpp_stack.Schema.optional_text_field
    xrpl_mpp_stack.Text.strip_left evaluate_high_water is_drops strip is_channel_id
    is_claim_signature model_validate
accepted_outcome = refl

advance_callback-IsAccepted_example :
    IsAccepted opened testnet channel voucher
      (codes "10")
      5
      (outcome opened false voucher 5 advanced)
advance_callback-IsAccepted_example =
    advance_callback-IsAccepted testnet channel voucher (codes "10") none 5 opened opened-IsRecord
      voucher-IsVoucher refl accepted_outcome

paid_record-valid : model_validate paid_record ≡ ok paid_record
unfolding model_validate xrpl_mpp_stack.Schema.text_field is_channel_id strip
    xrpl_mpp_stack.Schema.is_classic_address is_drops xrpl_mpp_stack.Schema.is_signature
    xrpl_mpp_stack.Schema.optional_text_field xrpl_mpp_stack.PayChannel.Record.validate_accounting
    int_of upper
paid_record-valid = refl

paid_record-IsRecord : IsRecord paid_record
paid_record-IsRecord = model_validate-IsRecord paid_record paid_record-valid

channel-upper : channel ≡ upper channel
unfolding upper
channel-upper = refl

ten-is_drops : is_drops (codes "10") ≡ true
unfolding is_drops
ten-is_drops = refl

reference-IsField : IsField is_reference (some (codes "tx"))
unfolding strip
reference-IsField = (refl, refl)

reason-IsField : IsField is_reason (some (codes "closed"))
unfolding strip
reason-IsField = (refl, refl)

redeem_callback_lem_example :
    redeem_callback testnet channel (codes "10") (some (codes "tx")) 9 (some paid_record) ≡ (
      if ltb (int_of (codes "10")) (int_of paid_record.redeemed)
      then err (store_error redeemed_regression)
      else if ltb (int_of paid_record.cumulative) (int_of (codes "10"))
      then err (store_error redeemed_exceeds_cumulative)
      else if int_of (codes "10") == int_of paid_record.redeemed
      then ok (paid_record, none)
      else ok (
        redeemed_record paid_record (codes "10") (some (codes "tx")) 9,
        some (redeemed_record paid_record (codes "10") (some (codes "tx")) 9),
      ))
redeem_callback_lem_example =
    redeem_callback_lem paid_record channel (codes "10") (some (codes "tx")) 9 paid_record-IsRecord
      channel-upper ten-is_drops reference-IsField

finalize_callback_lem_example :
    finalize_callback testnet channel (codes "closed") (some (codes "10")) 9 (some paid_record) ≡ (
      if differs (some (codes "10")) paid_record.cumulative
      then err (store_error channel_state_changed)
      else if paid_record.finalized
      then ok (paid_record, none)
      else ok (
        closed_record paid_record (codes "closed") 9,
        some (closed_record paid_record (codes "closed") 9),
      ))
finalize_callback_lem_example =
    finalize_callback_lem paid_record channel (codes "closed") (some (codes "10")) 9
      paid_record-IsRecord channel-upper reason-IsField

ab-is_claim_signature : is_claim_signature (codes "ab") ≡ true
unfolding is_claim_signature
ab-is_claim_signature = refl

evaluate_high_water-verdict_example :
    evaluate_high_water none (codes "10") (codes "10") (codes "ab") (some 5) 0
    ≡ ok (
        decision_for none
          (codes "10")
          (codes "10")
          (codes "ab")
          (some 5)
          0
          (verdict (previous_value none) (int_of (codes "10")) (int_of (codes "10"))))
evaluate_high_water-verdict_example =
    evaluate_high_water-verdict none (codes "10") (codes "10") (codes "ab") (some 5) 0 tt
      ten-is_drops ten-is_drops ab-is_claim_signature

require_high_water_advance_iff_example :
    require_high_water_advance none (codes "10") (codes "10") (codes "ab") (some 5) 0 ≡ (
      if ltb (previous_value none) (int_of (codes "10"))
        && leb (previous_value none + int_of (codes "10")) (int_of (codes "10"))
      then ok (record {
        cumulative = codes "10";
        signature = codes "ab";
        timestamp = time_of (some 5) 0;
      })
      else err value_error)
require_high_water_advance_iff_example =
    require_high_water_advance_iff none (codes "10") (codes "10") (codes "ab") (some 5) 0 tt
      ten-is_drops ten-is_drops ab-is_claim_signature

one_record : network_records testnet holding ≡ opened ∷ []
unfolding network_records xrpl_mpp_stack.Text.starts_with lookup text_eq
one_record = refl

collect-all_example : collect 2 testnet 0 1 holding ≡ some (network_records testnet holding)
collect-all_example =
    collect-all 2 testnet 1 holding (omega arith) (omega (arith, ap length one_record))

channel_key-spaced : channel_key testnet (codes " " ++ channel) ≡ ok key
unfolding channel_key xrpl_mpp_stack.HighWater.voucher_payload xrpl_mpp_stack.Schema.text_field
    is_channel_id strip is_drops is_claim_signature upper
channel_key-spaced = refl

channel_key_injective_example :
    (testnet ≡ testnet) × (upper (strip channel) ≡ upper (strip (codes " " ++ channel)))
channel_key_injective_example =
    channel_key_injective testnet testnet channel (codes " " ++ channel) channel_key-channel
      channel_key-spaced

channel_key-ne-lease_key_example : key ≢ lease_key
channel_key-ne-lease_key_example =
    channel_key-ne-lease_key testnet testnet channel channel channel_key-channel lease_key-channel

model_validate_fixed_iff_example : IsRecord opened ↔ (model_validate opened ≡ ok opened)
model_validate_fixed_iff_example = model_validate_fixed_iff opened

retained : replay_retention_seconds (instant 10500000) 5 1000000 ≡ ok 75
unfolding replay_retention_seconds
retained = refl

replay_retention_seconds_bounds_example :
    (1000000 < 10500000)
    × (10500000 + (5 + 60) * 1000000 ≤ 1000000 + 75 * 1000000)
    × (1000000 + 75 * 1000000 < 10500000 + (5 + 60) * 1000000 + 1000000)
replay_retention_seconds_bounds_example =
    replay_retention_seconds_bounds 10500000 5 1000000 retained
