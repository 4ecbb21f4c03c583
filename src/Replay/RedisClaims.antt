-- ===== src/Replay/RedisClaims.antt =====
-- `RedisReplayStore.claim_challenge`: the committed round of its WATCH loop, beside the in-memory
-- claim. A Redis value is gone from its deadline on; times are in seconds.
use xrpl_mpp_stack.Prelude.{
  ℕ, ◌+◌, ◌*◌, ◌≤◌, ◌≡◌, refl, sym, ap, ◌∙◌, Bool, true, false, Option, none, some, arith, is_some,
  Result, ok, err, Bool-cases, Result-cases, inl, inr, if◌then◌else◌,
}
use xrpl_mpp_stack.Text.{Text}
use xrpl_mpp_stack.Dict.{Dict, lookup, insert, lookup-insert}
use xrpl_mpp_stack.Optimistic.{Body, atomically}
use xrpl_mpp_stack.Replay.Claims.{
  validate_retention, purge, challenge_key, expiry, claim_at, claim_challenge,
}
use xrpl_mpp_stack.Replay.Claims.Laws as ClaimsLaws
use xrpl_mpp_stack.Replay.Claims.Laws.{IsUnique, lookup-purge, claim_ok}
use xrpl_mpp_stack.Replay.Reservation.{Entry, read, set_value, replay_processed}

unfoldable pub redis_claim_body : Text → Option ℕ → ℕ → Body Entry Bool
redis_claim_body key retention now d =
    if is_some (read now key d)
    then (ok false, none)
    else (ok true, some (set_value now key replay_processed retention))

-- `claim_challenge`, with the round that commits.
unfoldable pub redis_claim_challenge :
    (Text → Text) → Text → Option ℕ → ℕ → Dict Entry → Result Bool × Dict Entry
redis_claim_challenge digest challenge_id retention_seconds now d =
    elim (challenge_key digest 1 challenge_id) [
      | err e ↦ (err e, d)
      | ok key ↦ elim (validate_retention retention_seconds) [
        | err e ↦ (err e, d)
        | ok retention ↦ atomically (redis_claim_body key retention now d) d
      ]
    ]

-- From a time on, the same keys are taken.
abbrev pub Agrees : ℕ → Dict Entry → Dict (Option ℕ) → Type 0
Agrees now rd md =
    (k : Text) (n : ℕ)
    → now ≤ n
    → is_some (read n k rd) ≡ is_some (ClaimsLaws.unexpired n (lookup k md))

unexpired-later :
    (now n : ℕ) (o : Option (Option ℕ))
    → now ≤ n
    → is_some (ClaimsLaws.unexpired n (ClaimsLaws.unexpired now o))
      ≡ is_some (ClaimsLaws.unexpired n o)
unexpired-later now n none le = refl
unexpired-later now n (some none) le = refl
unexpired-later now n (some (some e)) le = ground arith

Agrees-purge :
    (now : ℕ) (rd : Dict Entry) (md : Dict (Option ℕ))
    → IsUnique md
    → Agrees now rd md
    → Agrees now rd (purge now md)
Agrees-purge now rd md u a k n le =
    a k n le
    ∙ sym (unexpired-later now n (lookup k md) le)
    ∙ ap (λ o. is_some (ClaimsLaws.unexpired n o)) (sym (lookup-purge k now md u))

Agrees-set :
    (digest : Text → Text) (now : ℕ) (key : Text) (retention : Option ℕ) (rd : Dict Entry)
    (md : Dict (Option ℕ))
    → Agrees now rd md
    → Agrees now
        (set_value now key replay_processed retention rd)
        (insert key (expiry digest 1 now retention) md)
Agrees-set digest now key none rd md a k n le = ground (
  arith,
  a k n le,
  lookup-insert key k (record { value = replay_processed; expires = none }) rd,
  lookup-insert key k none md,
)
Agrees-set digest now key (some r) rd md a k n le = ground (
  arith,
  a k n le,
  lookup-insert key k (record { value = replay_processed; expires = some (now + r) }) rd,
  lookup-insert key k (some (now + r * 1)) md,
)

-- The answer, and the state left, as pairs.
abbrev pub IsSameClaim :
    ℕ → Dict (Option ℕ) → Result Bool × Dict Entry → Result (Bool × Dict (Option ℕ)) → Type 0
IsSameClaim now md (ok b, rd') (ok (c, md')) = (b ≡ c) × Agrees now rd' md'
IsSameClaim now md (err e, rd') (err x) = (e ≡ x) × Agrees now rd' md
IsSameClaim now md _ _ = ⊥

round :
    (key : Text) (retention : Option ℕ) (now : ℕ) (rd : Dict Entry) {b : Bool}
    → is_some (read now key rd) ≡ b
    → atomically (redis_claim_body key retention now rd) rd
      ≡ (if b then (ok false, rd) else (ok true, set_value now key replay_processed retention rd))
unfolding redis_claim_body atomically
round key retention now rd {b = true} e = rw (redis_claim_body, e) refl
round key retention now rd {b = false} e = rw (redis_claim_body, e) refl

claimed :
    (digest : Text → Text) (key : Text) (retention : Option ℕ) (now : ℕ) (md : Dict (Option ℕ))
    {b : Bool}
    → is_some (lookup key md) ≡ b
    → claim_at digest 1 key retention now md
      ≡ (if b then (false, md) else (true, insert key (expiry digest 1 now retention) md))
unfolding claim_at
claimed digest key retention now md {b = true} e = rw e refl
claimed digest key retention now md {b = false} e = rw e refl

redis_ok :
    (digest : Text → Text) (id key : Text) (retention : Option ℕ) (now : ℕ) (rd : Dict Entry)
    {r : Option ℕ}
    → challenge_key digest 1 id ≡ ok key
    → validate_retention retention ≡ ok r
    → redis_claim_challenge digest id retention now rd
      ≡ atomically (redis_claim_body key r now rd) rd
unfolding redis_claim_challenge
redis_ok digest id key retention now rd ek er = rw (redis_claim_challenge, ek, er) refl

-- Let the unexpired keys of a Redis state and of an in-memory state of claims with distinct keys
-- be the same from now on. Then a claim of a challenge gives the same answer or raises the same
-- error on both, and leaves states whose unexpired keys are again the same.
pub redis_claim_challenge-refines :
    (digest : Text → Text) (challenge_id : Text) (retention_seconds : Option ℕ) (now : ℕ)
    (rd : Dict Entry) (md : Dict (Option ℕ))
    → IsUnique md
    → Agrees now rd md
    → IsSameClaim now md
        (redis_claim_challenge digest challenge_id retention_seconds now rd)
        (claim_challenge digest 1 challenge_id retention_seconds now md)
unfolding redis_claim_challenge claim_challenge
redis_claim_challenge-refines digest challenge_id retention_seconds now rd md u a =
    elim (Result-cases (challenge_key digest 1 challenge_id)) [
      | inr (x, ek) ↦ rw (redis_claim_challenge, ek) (refl, a)
      | inl (key, ek) ↦ elim (Result-cases (validate_retention retention_seconds)) [
        | inr (x, er) ↦ rw (redis_claim_challenge, ek, er) (refl, a)
        | inl (r, er) ↦
            let purged = Agrees-purge now rd md u a in
            let both : is_some (lookup key (purge now md)) ≡ is_some (read now key rd) =
              ap is_some (lookup-purge key now md u) ∙ sym (a key now (omega arith)) in
            elim (Bool-cases (is_some (read now key rd))) [
              | inl e ↦
                  rw
                    (
                      redis_ok digest challenge_id key retention_seconds now rd ek er,
                      claim_ok digest 1 challenge_id key retention_seconds now md ek er,
                      round key r now rd e,
                      claimed digest key r now (purge now md) (both ∙ e),
                    )
                    (refl, purged)
              | inr e ↦
                  rw
                    (
                      redis_ok digest challenge_id key retention_seconds now rd ek er,
                      claim_ok digest 1 challenge_id key retention_seconds now md ek er,
                      round key r now rd e,
                      claimed digest key r now (purge now md) (both ∙ e),
                    )
                    (refl, Agrees-set digest now key r rd (purge now md) purged)
            ]
      ]
    ]
