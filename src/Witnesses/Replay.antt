-- ===== src/Witnesses/Replay.antt =====
-- Concrete runs of the replay stores' theorems.
use xrpl_mpp_stack.Prelude.{◌≡◌, refl, true, false, none, some, List, [], ◌∷◌, ok, err, value_error}
use xrpl_mpp_stack.Text.{Text, codes, strip}
use xrpl_mpp_stack.Dict.{lookup}
use xrpl_mpp_stack.Schema.{testnet}
use xrpl_mpp_stack.Replay.Claims.{
  validate_retention, claim_challenge, is_granted, after_claim, challenge_key, expiry,
}
use xrpl_mpp_stack.Replay.Claims.Laws as ClaimsLaws
use xrpl_mpp_stack.Replay.Claims.Laws.{challenge_once, claim_challenge-granted}
use xrpl_mpp_stack.Replay.Reservation.{
  is_taken, watched_keys, Settings, ReplayReservation, reserve_body, guard_available,
}
use xrpl_mpp_stack.Replay.Reservation.Laws as ReservationLaws
use xrpl_mpp_stack.Replay.Reservation.Laws.{Step, reserve_excludes, processed_blocks}
use xrpl_mpp_stack.Replay.RedisClaims.{
  Agrees, IsSameClaim, redis_claim_challenge, redis_claim_challenge-refines,
}
use xrpl_mpp_stack.Prelude.{is_none}

-- A digest that is the text itself, and a clock that ticks in seconds.
abbrev plain : Text → Text
plain t = t

abbrev challenge_name : Text
challenge_name = codes "facilitator:replay:paychannel-challenge:c1"

challenge_key-c1 : challenge_key plain 1 (codes "c1") ≡ ok challenge_name
unfolding challenge_key strip xrpl_mpp_stack.Text.py_strip
challenge_key-c1 = refl

retention-10 : validate_retention (some 10) ≡ ok (some 10)
unfolding validate_retention
retention-10 = refl

granted-c1 : is_granted plain 1 (claim_challenge plain 1 (codes "c1") (some 10) 100 []) ≡ true
unfolding claim_challenge challenge_key strip validate_retention
    xrpl_mpp_stack.Replay.Claims.claim_at lookup xrpl_mpp_stack.Replay.Claims.purge
    xrpl_mpp_stack.Text.py_strip
granted-c1 = refl

challenge_once_example :
    is_granted plain 1 (
      claim_challenge plain 1 (codes "c1") (some 10) 109 (
        ClaimsLaws.run plain 1
          ((codes "c2", some 5, 104) ∷ [])
          (after_claim plain 1 [] (claim_challenge plain 1 (codes "c1") (some 10) 100 []))))
    ≡ false
challenge_once_example =
    challenge_once plain 1 (codes "c1") challenge_name (some 10) (some 10) 100 109
      ((codes "c2", some 5, 104) ∷ []) [] tt challenge_key-c1 retention-10 retention-10 granted-c1
      (refl, tt) refl

claim_challenge-granted_example :
    is_granted plain 1 (claim_challenge plain 1 (codes "c1") (some 10) 100 [])
    ≡ is_none (ClaimsLaws.unexpired 100 (lookup challenge_name []))
claim_challenge-granted_example =
    claim_challenge-granted plain 1 (codes "c1") challenge_name (some 10) 100 [] tt challenge_key-c1
      retention-10

abbrev settings : Settings
settings = record { network = testnet; processed_ttl_seconds = 300; pending_ttl_seconds = 300 }

abbrev reservation : ReplayReservation
reservation = record {
  invoice_id = some (codes "i1");
  blob_hash = codes "b1";
  reservation_id = codes "r1";
  retention_seconds = none;
}

abbrev other_steps : List Step
other_steps = Step.reserve 20 none (codes "b2") (codes "r2") (some 500) ∷ []

free-empty : is_taken 10 (watched_keys testnet (some (codes "i1")) (codes "b1")) [] ≡ false
unfolding lookup
free-empty = refl

reserve_excludes_example :
    reserve_body settings 30 none (codes "b1") (codes "r3") none (
      ReservationLaws.run settings other_steps (
        ReservationLaws.apply settings
          (Step.reserve 10 (some (codes "i1")) (codes "b1") (codes "r1") (some 400))
          []))
    ≡ (err value_error, none)
reserve_excludes_example =
    reserve_excludes settings 10 (some (codes "i1")) (codes "b1") (codes "r1") (some 400) []
      other_steps 30 none (codes "r3") none free-empty (refl, tt) refl

retention-400 : validate_retention (some 400) ≡ ok (some 400)
unfolding validate_retention
retention-400 = refl

processed_blocks_example :
    guard_available settings 30 none (codes "b1") (
      ReservationLaws.run settings other_steps (
        ReservationLaws.apply settings
          (Step.mark 10 (record reservation { retention_seconds = some 400 }))
          []))
    ≡ err value_error
processed_blocks_example =
    processed_blocks settings 10 (record reservation { retention_seconds = some 400 }) []
      other_steps 30 none retention-400 (refl, tt) refl

empty-Agrees : Agrees 5 [] []
unfolding lookup
empty-Agrees = λ k n le. refl

redis_claim_challenge-refines_example :
    IsSameClaim 5 []
      (redis_claim_challenge plain (codes "c1") (some 10) 5 [])
      (claim_challenge plain 1 (codes "c1") (some 10) 5 [])
redis_claim_challenge-refines_example =
    redis_claim_challenge-refines plain (codes "c1") (some 10) 5 [] [] tt empty-Agrees
