-- ===== src/PayChannel/Store.antt =====
-- `InMemoryPayChannelStore`. A method runs under the store's lock, so it is one step on the state;
-- its clock reading and its fresh lease identifier are arguments.
pub mod Invariant
pub mod Methods
pub mod Calls
pub mod Accounting
pub mod Lease
use xrpl_mpp_stack.Prelude.{
  ℕ, ◌+◌, ◌*◌, ◌-◌, Bool, true, false, ◌&&◌, Option, none, some, List, [], ◌∷◌, ◌++◌, ltb, leb,
  ◌==◌, min, length, take, drop, Result, ok, err, value_error, ◌>>=◌, if◌then◌else◌,
}
use xrpl_mpp_stack.Text.{Text, text_eq, starts_with}
use xrpl_mpp_stack.Schema.{Network}
use xrpl_mpp_stack.Dict.{Dict, lookup, insert, erase}
use xrpl_mpp_stack.HighWater.{time_of}
use xrpl_mpp_stack.PayChannel.Record.{PayChannelRecord}
use xrpl_mpp_stack.PayChannel.Key.{channel_key, redemption_lease_key, network_prefix}
use xrpl_mpp_stack.PayChannel.Mutations.{
  Mutation, MutationResult, PayChannelCreateResult, PayChannelAdvanceResult, create_callback,
  advance_mutation, redeem_mutation, finalize_mutation,
}

pub record PayChannelStore : Type 0 where
  pub records : Dict PayChannelRecord
  pub redemption_leases : Dict (Text × ℕ)

abbrev pub empty_store : PayChannelStore
empty_store = record { records = []; redemption_leases = [] }

-- A method: the result or the exception, and the state it leaves.
abbrev pub Method : Type 0 → Type 0
Method A = PayChannelStore → Result A × PayChannelStore

-- The write of `_mutate`.
unfoldable pub commit : {A : Type 0} → Text → MutationResult A → Method A
commit key (err e) s = (err e, s)
commit key (ok (result, none)) s = (ok result, s)
commit key (ok (result, some updated)) s =
    (ok result, record s { records = insert key updated s.records })

-- `_mutate`
unfoldable pub mutate : {A : Type 0} → Text → Mutation A → Method A
unfolding commit
mutate key mutation s = commit key (mutation (lookup key s.records)) s

-- A key and a callback that may both fail before the lock is taken.
unfoldable pub mutate_checked : {A : Type 0} → Result Text → Result (Mutation A) → Method A
unfolding mutate
mutate_checked (err e) mutation s = (err e, s)
mutate_checked (ok key) (err e) s = (err e, s)
mutate_checked (ok key) (ok mutation) s = mutate key mutation s

unfoldable pub create : PayChannelRecord → Method PayChannelCreateResult
unfolding mutate_checked
create r = mutate_checked (channel_key r.network r.channel_id) (ok (create_callback r))

unfoldable pub get : Network → Text → Method (Option PayChannelRecord)
get network channel_id s = (do key ← channel_key network channel_id; ok (lookup key s.records), s)

-- The arguments of `advance`.
pub record AdvanceCall : Type 0 where
  pub network : Network
  pub channel_id : Text
  pub cumulative : Text
  pub requested : Text
  pub signature : Text
  pub funded : Option Text
  pub timestamp : Option ℕ

unfoldable pub advance : AdvanceCall → ℕ → Method PayChannelAdvanceResult
unfolding mutate_checked
advance call clock = mutate_checked (channel_key call.network call.channel_id) (
    advance_mutation call.network call.channel_id call.cumulative call.requested call.signature
      call.funded (time_of call.timestamp clock))

unfoldable pub mark_redeemed :
    Network → Text → Text → Option Text → Option ℕ → ℕ → Method PayChannelRecord
unfolding mutate_checked
mark_redeemed network channel_id cumulative reference timestamp clock =
    mutate_checked (channel_key network channel_id)
      (redeem_mutation network channel_id cumulative reference (time_of timestamp clock))

unfoldable pub finalize :
    Network → Text → Text → Option Text → Option ℕ → ℕ → Method PayChannelRecord
unfolding mutate_checked
finalize network channel_id reason expected timestamp clock =
    mutate_checked (channel_key network channel_id)
      (finalize_mutation network channel_id reason expected (time_of timestamp clock))

-- A lease that is held at the time `now`.
abbrev pub is_held : Option (Text × ℕ) → ℕ → Bool
is_held none now = false
is_held (some (_, expires)) now = ltb now expires

unfoldable pub claim_under : Text → ℕ → ℕ → Text → Method (Option Text)
claim_under key lease_seconds now lease_id s =
    if is_held (lookup key s.redemption_leases) now then (ok none, s) else (
      ok (some lease_id),
      record s {
        redemption_leases = insert key (lease_id, now + lease_seconds * 1000) s.redemption_leases;
      },
    )

-- `claim_redemption`; `_validate_lease_seconds` refuses 0.
unfoldable pub claim_redemption : Network → Text → ℕ → ℕ → Text → Method (Option Text)
unfolding claim_under
claim_redemption network channel_id lease_seconds now lease_id s =
    if lease_seconds == 0
    then (err value_error, s)
    else elim (redemption_lease_key network channel_id) [
      | err e ↦ (err e, s)
      | ok key ↦ claim_under key lease_seconds now lease_id s
    ]

abbrev pub is_owner : Option (Text × ℕ) → Text → Bool
is_owner none lease_id = false
is_owner (some (holder, _)) lease_id = text_eq holder lease_id

unfoldable pub release_under : Text → Text → Method (Unit {0})
release_under key lease_id s =
    if is_owner (lookup key s.redemption_leases) lease_id
    then (ok tt, record s { redemption_leases = erase key s.redemption_leases })
    else (ok tt, s)

-- `release_redemption`
unfoldable pub release_redemption : Network → Text → Text → Method (Unit {0})
unfolding release_under
release_redemption network channel_id lease_id s = elim (redemption_lease_key network channel_id) [
  | err e ↦ (err e, s)
  | ok key ↦ release_under key lease_id s
]
