-- ===== src/Replay/Claims.antt =====
-- `InMemoryChallengeReplayStore`. SHA-256 is the parameter `digest`; times are in ticks, of which
-- `second` make a second.
pub mod Laws
use xrpl_mpp_stack.Prelude.{
  ℕ, ◌+◌, ◌*◌, Bool, true, false, Option, none, some, [], ◌∷◌, ◌++◌, leb, ◌==◌, is_some, Result, ok,
  err, value_error, ◌>>=◌, ◌>>◌, raise_if, if◌then◌else◌,
}
use xrpl_mpp_stack.Text.{Text, codes, py_strip, is_empty}
use xrpl_mpp_stack.Dict.{Dict, lookup, insert}

-- `_validate_retention`
unfoldable pub validate_retention : Option ℕ → Result (Option ℕ)
validate_retention none = ok none
validate_retention (some retention) =
    if retention == 0 then err value_error else ok (some retention)

-- A claim that has run out: `expires_at is not None and expires_at <= now`.
abbrev pub is_expired : ℕ → Option ℕ → Bool
is_expired now none = false
is_expired now (some expires) = leb expires now

-- The loop that pops the expired claims.
unfoldable pub purge : ℕ → Dict (Option ℕ) → Dict (Option ℕ)
purge now [] = []
purge now ((k, expires) ∷ d) =
    let rest = purge now d in if is_expired now expires then rest else (k, expires) ∷ rest

module _ (digest : Text → Text) (second : ℕ) where
  -- `_challenge_key`
  unfoldable pub challenge_key : Text → Result Text
  challenge_key challenge_id = do
    let normalized = py_strip challenge_id
    raise_if (is_empty normalized) value_error
    ok (codes "facilitator:replay:paychannel-challenge:" ++ digest normalized)

  abbrev pub expiry : ℕ → Option ℕ → Option ℕ
  expiry now none = none
  expiry now (some retention) = some (now + retention * second)

  -- The claim itself, on the purged dict.
  unfoldable pub claim_at : Text → Option ℕ → ℕ → Dict (Option ℕ) → Bool × Dict (Option ℕ)
  claim_at key retention now d =
      if is_some (lookup key d) then (false, d) else (true, insert key (expiry now retention) d)

  -- `claim_challenge`
  unfoldable pub claim_challenge :
      Text → Option ℕ → ℕ → Dict (Option ℕ) → Result (Bool × Dict (Option ℕ))
  claim_challenge challenge_id retention_seconds now d = do
    key ← challenge_key challenge_id
    retention ← validate_retention retention_seconds
    ok (claim_at key retention now (purge now d))

  -- The answer, where the call does not raise.
  abbrev pub is_granted : Result (Bool × Dict (Option ℕ)) → Bool
  is_granted (ok (b, d')) = b
  is_granted (err e) = false

  -- The state after the call; a call that raises has changed nothing.
  abbrev pub after_claim : Dict (Option ℕ) → Result (Bool × Dict (Option ℕ)) → Dict (Option ℕ)
  after_claim d (ok (b, d')) = d'
  after_claim d (err e) = d
