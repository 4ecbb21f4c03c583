-- ===== src/Replay/Retention.antt =====
-- How long a replay marker is kept: `replay_retention_seconds` and `replay_pending_ttl_seconds`.
-- Times are in microseconds, the resolution of `datetime`.
use xrpl_mpp_stack.Prelude.{
  ℕ, ◌+◌, ◌*◌, ◌-◌, ◌/◌, ◌≤◌, ◌<◌, ◌≡◌, arith, leb, ◌==◌, max, Result, ok, err, value_error, ◌>>◌,
  raise_if, if◌then◌else◌,
}

-- What `fromisoformat` makes of the `expires` text: it is missing, blank or malformed, it has no
-- time zone, or it is an instant.
pub data Expires : Type 0 where
  unusable naive : Expires
  instant : ℕ → Expires

abbrev pub skew_seconds : ℕ
skew_seconds = 60

-- `ceil` of a number of microseconds, in seconds.
abbrev pub ceil_seconds : ℕ → ℕ
ceil_seconds us = (us + 999999) / 1000000

abbrev pub retention_until : Expires → ℕ → ℕ → Result ℕ
retention_until unusable timeout now = err value_error
retention_until naive timeout now = err value_error
retention_until (instant expires_at) timeout now = do
  raise_if (leb expires_at now) value_error
  ok (ceil_seconds (expires_at - now) + timeout + skew_seconds)

-- `replay_retention_seconds`; a validation timeout of 0 is refused.
unfoldable pub replay_retention_seconds : Expires → ℕ → ℕ → Result ℕ
replay_retention_seconds expires timeout now =
    if timeout == 0 then err value_error else retention_until expires timeout now

-- `replay_pending_ttl_seconds`
unfoldable pub replay_pending_ttl_seconds : ℕ → ℕ → ℕ
replay_pending_ttl_seconds processed_ttl validation_timeout =
    max (max processed_ttl (validation_timeout + 60)) 300

-- Where a retention is computed, the challenge has not expired, and a marker set now with that
-- retention ends no sooner than the validation timeout and the clock skew after the challenge's
-- expiry, and less than a second after that.
pub replay_retention_seconds_bounds :
    (expires_at timeout now : ℕ) {r : ℕ}
    → replay_retention_seconds (instant expires_at) timeout now ≡ ok r
    → (now < expires_at)
      × (expires_at + (timeout + 60) * 1000000 ≤ now + r * 1000000)
      × (now + r * 1000000 < expires_at + (timeout + 60) * 1000000 + 1000000)
unfolding replay_retention_seconds
replay_retention_seconds_bounds expires_at timeout now {r} h = ground arith
