-- ===== src/PayChannel/Redis.antt =====
-- `RedisPayChannelStore`: the same callbacks on serialized records, under WATCH / MULTI / EXEC.
-- pydantic's JSON is not part of the repository: it is the parameter `Codec`, with its round trip.
pub mod Refinement
use xrpl_mpp_stack.Prelude.{
  ℕ, ◌≡◌, Option, none, some, List, [], ◌∷◌, Error, Result, ok, err, store_error,
  corrupt_channel_state, ◌>>=◌,
}
use xrpl_mpp_stack.Text.{Text}
use xrpl_mpp_stack.Dict.{Dict, lookup, insert}
use xrpl_mpp_stack.Schema.{Network}
use xrpl_mpp_stack.HighWater.{time_of}
use xrpl_mpp_stack.Optimistic.{Interference, Body, optimistic}
use xrpl_mpp_stack.PayChannel.Record.{PayChannelRecord}
use xrpl_mpp_stack.PayChannel.Record.Laws.{IsRecord}
use xrpl_mpp_stack.PayChannel.Key.{channel_key}
use xrpl_mpp_stack.PayChannel.Mutations.{
  Mutation, MutationResult, PayChannelCreateResult, PayChannelAdvanceResult, create_callback,
  advance_mutation, redeem_mutation, finalize_mutation, require_record,
}
use xrpl_mpp_stack.PayChannel.Store.{AdvanceCall}

-- `model_dump_json` and `model_validate_json`: what was dumped of a valid record reads back.
pub record Codec : Type 1 where
  pub Raw : Type 0
  pub model_dump_json : PayChannelRecord → Raw
  pub model_validate_json : Raw → Result PayChannelRecord
  pub round_trip :
      (r : PayChannelRecord) → IsRecord r → model_validate_json (model_dump_json r) ≡ ok r

module _ (codec : Codec) where
  open codec use {Raw, model_dump_json, model_validate_json}

  abbrev pub checked_json : Result PayChannelRecord → Result (Option PayChannelRecord)
  checked_json (ok r) = ok (some r)
  checked_json (err e) = err (store_error corrupt_channel_state)

  -- `_deserialize`
  unfoldable pub deserialize : Option Raw → Result (Option PayChannelRecord)
  deserialize none = ok none
  deserialize (some raw) = checked_json (model_validate_json raw)

  -- What follows the callback: UNWATCH and return, or the queued SET.
  unfoldable pub queue :
      {A : Type 0} → Text → MutationResult A → Result A × Option (Dict Raw → Dict Raw)
  queue key (err e) = (err e, none)
  queue key (ok (result, none)) = (ok result, none)
  queue key (ok (result, some updated)) = (ok result, some (insert key (model_dump_json updated)))

  abbrev pub on_current :
      {A : Type 0} → Mutation A → Result (Option PayChannelRecord) → MutationResult A
  on_current mutation (ok current) = mutation current
  on_current mutation (err e) = err e

  -- One round of `_mutate`.
  unfoldable pub mutate_body : {A : Type 0} → Text → Mutation A → Body Raw A
  unfolding deserialize queue
  mutate_body key mutation d = queue key (on_current mutation (deserialize (lookup key d)))

  -- `_mutate`
  unfoldable pub redis_mutate :
      {A : Type 0}
      → List (Interference Raw)
      → Text
      → Mutation A
      → Dict Raw
      → Option (Result A × Dict Raw)
  redis_mutate rounds key mutation d = optimistic rounds (mutate_body key mutation) d

  unfoldable pub redis_mutate_checked :
      {A : Type 0}
      → List (Interference Raw)
      → Result Text
      → Result (Mutation A)
      → Dict Raw
      → Option (Result A × Dict Raw)
  unfolding redis_mutate
  redis_mutate_checked rounds (err e) mutation d = some (err e, d)
  redis_mutate_checked rounds (ok key) (err e) d = some (err e, d)
  redis_mutate_checked rounds (ok key) (ok mutation) d = redis_mutate rounds key mutation d

  unfoldable pub redis_create :
      List (Interference Raw)
      → PayChannelRecord
      → Dict Raw
      → Option (Result PayChannelCreateResult × Dict Raw)
  unfolding redis_mutate_checked
  redis_create rounds r =
      redis_mutate_checked rounds (channel_key r.network r.channel_id) (ok (create_callback r))

  unfoldable pub redis_advance :
      List (Interference Raw)
      → AdvanceCall
      → ℕ
      → Dict Raw
      → Option (Result PayChannelAdvanceResult × Dict Raw)
  unfolding redis_mutate_checked
  redis_advance rounds call clock =
      redis_mutate_checked rounds (channel_key call.network call.channel_id) (
        advance_mutation call.network call.channel_id call.cumulative call.requested call.signature
          call.funded (time_of call.timestamp clock))

  unfoldable pub redis_mark_redeemed :
      List (Interference Raw)
      → Network
      → Text
      → Text
      → Option Text
      → Option ℕ
      → ℕ
      → Dict Raw
      → Option (Result PayChannelRecord × Dict Raw)
  unfolding redis_mutate_checked
  redis_mark_redeemed rounds network channel_id cumulative reference timestamp clock =
      redis_mutate_checked rounds (channel_key network channel_id)
        (redeem_mutation network channel_id cumulative reference (time_of timestamp clock))

  unfoldable pub redis_finalize :
      List (Interference Raw)
      → Network
      → Text
      → Text
      → Option Text
      → Option ℕ
      → ℕ
      → Dict Raw
      → Option (Result PayChannelRecord × Dict Raw)
  unfolding redis_mutate_checked
  redis_finalize rounds network channel_id reason expected timestamp clock =
      redis_mutate_checked rounds (channel_key network channel_id)
        (finalize_mutation network channel_id reason expected (time_of timestamp clock))

  -- `get`
  abbrev pub required : Network → Text → Option PayChannelRecord → Result (Option PayChannelRecord)
  required network channel_id none = ok none
  required network channel_id (some r) = do
    found ← require_record (some r) network channel_id
    ok (some found)

  unfoldable pub redis_get : Network → Text → Dict Raw → Result (Option PayChannelRecord)
  unfolding deserialize
  redis_get network channel_id d = do
    key ← channel_key network channel_id
    current ← deserialize (lookup key d)
    required network channel_id current
