-- ===== src/HighWater/Laws.antt =====
-- The status, state and errors of the rule in packages/core/src/xrpl_mpp_core/paychannel.py.
use xrpl_mpp_stack.Prelude.{
  ℕ, ◌+◌, ◌<◌, ◌≡◌, refl, true, false, ◌&&◌, Option, none, some, arith, ltb, ◌==◌, leb, ok, err,
  value_error, if◌then◌else◌,
}
use xrpl_mpp_stack.Text.{Text, is_empty}
use xrpl_mpp_stack.Text.Decimal.{int_of, str_of}
use xrpl_mpp_stack.Schema.{is_drops, is_signature, is_claim_signature, adapter}
use xrpl_mpp_stack.Schema.Laws.{text_field-drops, text_field-signature, str_of-int_of-is_drops}
use xrpl_mpp_stack.HighWater.{
  PayChannelHighWater, HighWaterDecision, Status, advanced, replay, regressed, short,
  high_water_mark, high_water_decision, previous_value, time_of, evaluate_high_water,
  require_high_water_advance,
}

pub is_claim_signature-signature :
    (t : Text) → is_claim_signature t ≡ true → (is_empty t ≡ false) × (is_signature t ≡ true)
unfolding is_claim_signature
is_claim_signature-signature t h = ground arith

-- The stored mark, if there is one, holds a valid amount.
abbrev pub IsMark : Option PayChannelHighWater → Type 0
IsMark none = Unit {0}
IsMark (some current) = is_drops current.cumulative ≡ true

zero_drops : is_drops (str_of 0) ≡ true
unfolding is_drops str_of
zero_drops = refl

previous-is_drops :
    (current : Option PayChannelHighWater)
    → IsMark current
    → is_drops (str_of (previous_value current)) ≡ true
previous-is_drops none h = zero_drops
previous-is_drops (some current) h = str_of-int_of-is_drops current.cumulative h

-- The four outcomes, from the three numbers: what the rule promises.
abbrev pub verdict : ℕ → ℕ → ℕ → Status
verdict previous new requested =
    if ltb new previous
    then regressed
    else if new == previous
    then replay
    else if ltb new (previous + requested)
    then short
    else advanced

abbrev pub new_state : Status → Text → Text → ℕ → Option PayChannelHighWater
new_state advanced c s t = some (record { cumulative = c; signature = s; timestamp = t })
new_state _ c s t = none

high_water_mark-ok :
    (c s : Text) (t : ℕ)
    → is_drops c ≡ true
    → is_claim_signature s ≡ true
    → high_water_mark c s t ≡ ok (record { cumulative = c; signature = s; timestamp = t })
unfolding high_water_mark
high_water_mark-ok c s t hc hs =
    let (full, sig) = is_claim_signature-signature s hs in
    rw (text_field-drops c hc) (rw (text_field-signature s sig) (rw full (ground arith)))

pub high_water_mark-of_valid :
    (c s : Text) (t : ℕ)
    → is_drops c ≡ true
    → is_signature s ≡ true
    → (0 < int_of c → is_empty s ≡ false)
    → high_water_mark c s t ≡ ok (record { cumulative = c; signature = s; timestamp = t })
unfolding high_water_mark
high_water_mark-of_valid c s t hc hs signed =
    rw (text_field-drops c hc) (rw (text_field-signature s hs) (ground arith))

high_water_decision-ok :
    (v : Status) (p c s : Text) (t : ℕ)
    → is_drops p ≡ true
    → high_water_decision v p (new_state v c s t)
      ≡ ok (record { status = v; previous = p; state = new_state v c s t })
unfolding high_water_decision
high_water_decision-ok v p c s t h = rw (text_field-drops p h) (ground arith)

module _ (current : Option PayChannelHighWater) (cumulative requested signature : Text)
    (timestamp : Option ℕ) (now : ℕ) where
  -- The decision with the given status.
  abbrev pub decision_for : Status → HighWaterDecision
  decision_for v = record {
    status = v;
    previous = str_of (previous_value current);
    state = new_state v cumulative signature (time_of timestamp now);
  }

  -- For a stored mark with a valid amount, drops strings for the cumulative and requested amounts
  -- and a valid claim signature, the rule's decision has the status of the verdict on the three
  -- numbers, the previous amount in canonical form, and a new mark exactly where the status is
  -- advanced.
  pub evaluate_high_water-verdict :
      IsMark current
      → is_drops cumulative ≡ true
      → is_drops requested ≡ true
      → is_claim_signature signature ≡ true
      → evaluate_high_water current cumulative requested signature timestamp now
        ≡ ok
            (decision_for (verdict (previous_value current) (int_of cumulative) (int_of requested)))
  unfolding evaluate_high_water adapter
  evaluate_high_water-verdict hm hc hr hs =
      let p : Text = str_of (previous_value current) in
      let t : ℕ = time_of timestamp now in
      let hp : is_drops p ≡ true = previous-is_drops current hm in
      rw hc (
        rw hr (
          rw (high_water_mark-ok cumulative signature t hc hs) (
            ground (
              arith,
              high_water_decision-ok replay p cumulative signature t hp,
              high_water_decision-ok regressed p cumulative signature t hp,
              high_water_decision-ok short p cumulative signature t hp,
              high_water_decision-ok advanced p cumulative signature t hp,
            ))))

  -- For a stored mark with a valid amount, drops strings for the cumulative and requested amounts
  -- and a valid claim signature, the call returns the new mark where the amount exceeds the stored
  -- one and covers it with the requested increment, and raises otherwise.
  pub require_high_water_advance_iff :
      IsMark current
      → is_drops cumulative ≡ true
      → is_drops requested ≡ true
      → is_claim_signature signature ≡ true
      → require_high_water_advance current cumulative requested signature timestamp now ≡ (
          if ltb (previous_value current) (int_of cumulative)
            && leb (previous_value current + int_of requested) (int_of cumulative)
          then ok (record {
            cumulative = cumulative;
            signature = signature;
            timestamp = time_of timestamp now;
          })
          else err value_error)
  unfolding require_high_water_advance
  require_high_water_advance_iff hm hc hr hs =
      rw (evaluate_high_water-verdict hm hc hr hs) (ground arith)

  -- An amount that is no drops string is refused, whatever the stored mark.
  pub evaluate_high_water-invalid :
      (is_drops cumulative && is_drops requested) ≡ false
      → evaluate_high_water current cumulative requested signature timestamp now ≡ err value_error
  unfolding evaluate_high_water adapter
  evaluate_high_water-invalid h = ground arith
