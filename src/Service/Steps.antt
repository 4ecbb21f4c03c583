-- ===== src/Service/Steps.antt =====
-- The service's settings, its hooks and its smaller steps.
use xrpl_mpp_stack.Prelude.{
  ℕ, ◌+◌, ◌-◌, ◌/◌, max, Bool, true, false, ◌||◌, not, Option, none, some, List, ◌∷◌, ◌++◌, Code,
  Result, ok, err, service_error, channel_replay, cumulative_regression, short_payment,
  channel_binding_mismatch, challenge_replay_check_failed, redemption_lease_failed, if◌then◌else◌,
}
use xrpl_mpp_stack.Text.{Text, text_eq, upper}
use xrpl_mpp_stack.Dict.{Dict}
use xrpl_mpp_stack.Schema.{Network, network_eq}
use xrpl_mpp_stack.HighWater.{Status, advanced, replay, regressed, short}
use xrpl_mpp_stack.PayChannel.Key.{network_name}
use xrpl_mpp_stack.PayChannel.Record.{PayChannelRecord}
use xrpl_mpp_stack.PayChannel.Store.{release_redemption}
use xrpl_mpp_stack.PayChannel.Store.Calls.{Call, run}
use xrpl_mpp_stack.Replay.Claims.Laws as ClaimsLaws
use xrpl_mpp_stack.Replay.Claims.Laws.{Claim}
use xrpl_mpp_stack.Replay.Claims.{claim_challenge}
use xrpl_mpp_stack.Service.World.{World, Action, pure, raise, ◌>>=◌, on_store, store_or, catching}

-- The constructor's settings. SHA-256 and the ticks of a second are those of the replay store.
pub record Config : Type 0 where
  pub network : Network
  pub recipient : Text
  pub payer : Text
  pub public_key : Text
  pub redemption_lease_seconds : ℕ
  pub digest : Text → Text
  pub second : ℕ

-- What the checked envelope hands on: the challenge's terms and the credential's payload.
pub data ActionKind : Type 0 where
  voucher close : ActionKind

pub record Credential : Type 0 where
  pub challenge_id : Text
  pub expires : Option ℕ
  pub request_amount : Text
  pub request_recipient : Text
  pub action : ActionKind
  pub channel_id : Text
  pub amount : Text
  pub signature : Text

-- What happens before a call of a store is run: the service's clock in milliseconds, and what
-- other requests and workers have called on the stores since the last call.
pub record Turn : Type 0 where
  pub clock : ℕ
  pub calls : List Call
  pub claims : List Claim

-- The calls of a claim action that another task can come before.
pub data Phase : Type 0 where
  looking importing retrying claiming advancing leasing reloading redeeming releasing finalizing :
      Phase

-- What one request meets: the answers of its hooks (`none` for a hook that is not configured), the
-- verifier of claim signatures, the clocks of the challenge's claim, and the turns.
pub record Environment : Type 0 where
  pub loaded : Option (Result PayChannelRecord)
  pub verifier : Text → Text → Text → Text → Result Bool
  pub funding : Option (Result (Option Text))
  pub settled : Option (Result Text)
  pub lease_id : Text
  pub now : ℕ
  pub tick : ℕ
  pub turn : Phase → Turn

-- What others have done by the time of a call.
unfoldable pub others : Config → Turn → Action (Unit {0})
others c t w = (
  ok tt,
  record {
    store = run t.calls w.store;
    claims = ClaimsLaws.run c.digest c.second t.claims w.claims;
  },
)

-- `_challenge_retention_seconds`, in microseconds; with no expiry there is no bound.
unfoldable pub challenge_retention_seconds : Option ℕ → ℕ → Option ℕ
challenge_retention_seconds none now = none
challenge_retention_seconds (some expires_at) now =
    some (max 1 (((expires_at - now) + 999999) / 1000000 + 60))

-- The name under which a challenge is claimed: the network, a NUL and the identifier.
abbrev pub claim_name : Network → Text → Text
claim_name network challenge_id = network_name network ++ 0 ∷ challenge_id

-- The replay store's call; a raise of it has changed nothing.
abbrev pub claimed_world : World → Result (Bool × Dict (Option ℕ)) → Result Bool × World
claimed_world w (ok (granted, claims)) = (ok granted, record w { claims = claims })
claimed_world w (err e) = (err e, w)

unfoldable pub claim_call : Config → Text → Option ℕ → ℕ → Action Bool
claim_call c id retention now w =
    claimed_world w (claim_challenge c.digest c.second id retention now w.claims)

abbrev pub must_be_granted : Bool → Action (Unit {0})
must_be_granted true = pure tt
must_be_granted false = raise (service_error channel_replay)

-- `_claim_challenge`; `now` is the service's clock and `tick` the replay store's.
unfoldable pub claim_challenge_step : Config → Credential → ℕ → ℕ → Action (Unit {0})
claim_challenge_step c credential now tick = do
  granted ←
      catching (λ _. service_error challenge_replay_check_failed)
        (claim_call c (claim_name c.network credential.challenge_id)
          (challenge_retention_seconds credential.expires now) tick)
  must_be_granted granted

-- `_assert_record_binding`
unfoldable pub assert_record_binding : Config → PayChannelRecord → Text → Text → Result (Unit {0})
assert_record_binding c r channel_id recipient =
    if not (network_eq r.network c.network)
      || not (text_eq r.channel_id (upper channel_id))
      || not (text_eq r.payer c.payer)
      || not (text_eq r.recipient recipient)
      || not (text_eq r.recipient c.recipient)
    then err (service_error channel_binding_mismatch)
    else ok tt

-- `_raise_advance_failure`
abbrev pub advance_failure : Status → Code
advance_failure replay = channel_replay
advance_failure regressed = cumulative_regression
advance_failure short = short_payment
advance_failure advanced = channel_replay

-- `_release_redemption_lease`
unfoldable pub release_redemption_lease : Config → Text → Text → Action (Unit {0})
release_redemption_lease c channel_id lease_id =
    catching (store_or redemption_lease_failed)
      (on_store (release_redemption c.network channel_id lease_id))
