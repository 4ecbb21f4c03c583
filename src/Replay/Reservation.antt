-- ===== src/Replay/Reservation.antt =====
-- `RedisReplayStore`: the reservation of an invoice and a transaction blob. Each method is the
-- body of a WATCH / MULTI / EXEC loop (`Optimistic`), on keys whose values may expire.
pub mod Keys
pub mod Laws
use xrpl_mpp_stack.Prelude.{
  ℕ, ◌+◌, Bool, true, false, Option, none, some, List, [], ◌∷◌, ◌++◌, leb, is_some, any, map, max,
  Result, ok, err, value_error, ◌>>=◌, if◌then◌else◌,
}
use xrpl_mpp_stack.Text.{Text, codes, text_eq}
use xrpl_mpp_stack.Dict.{Dict, lookup, insert, erase}
use xrpl_mpp_stack.Schema.{Network}
use xrpl_mpp_stack.Optimistic.{Body}
use xrpl_mpp_stack.PayChannel.Key.{network_name}
use xrpl_mpp_stack.Replay.Claims.{validate_retention, is_expired}

-- A Redis value and the second from which it is gone.
pub record Entry : Type 0 where
  pub value : Text
  pub expires : Option ℕ

-- `GET` at a time
abbrev pub unexpired : ℕ → Option Entry → Option Text
unexpired now none = none
unexpired now (some e) = if is_expired now e.expires then none else some e.value

abbrev pub read : ℕ → Text → Dict Entry → Option Text
read now key d = unexpired now (lookup key d)

abbrev pub deadline : ℕ → Option ℕ → Option ℕ
deadline now none = none
deadline now (some ttl) = some (now + ttl)

-- `SET key value EX ttl`
abbrev pub set_value : ℕ → Text → Text → Option ℕ → Dict Entry → Dict Entry
set_value now key value ttl d = insert key (record { value = value; expires = deadline now ttl }) d

abbrev pub replay_processed : Text
replay_processed = codes "processed"

-- `_invoice_key` and `_blob_key`
unfoldable pub invoice_key : Network → Text → Text
invoice_key network invoice_id =
    codes "facilitator:replay:" ++ (network_name network ++ (codes ":invoice:" ++ invoice_id))

unfoldable pub blob_key : Network → Text → Text
blob_key network blob_hash =
    codes "facilitator:replay:" ++ (network_name network ++ (codes ":blob:" ++ blob_hash))

-- `_pending_value`
unfoldable pub pending_value : Text → Text
pending_value reservation_id = codes "pending:" ++ reservation_id

-- `ReplayReservation`
pub record ReplayReservation : Type 0 where
  pub invoice_id : Option Text
  pub blob_hash : Text
  pub reservation_id : Text
  pub retention_seconds : Option ℕ

-- `RedisReplayStore`'s own settings
pub record Settings : Type 0 where
  pub network : Network
  pub processed_ttl_seconds : ℕ
  pub pending_ttl_seconds : ℕ

-- The watched keys: the invoice's, if there is one, and the blob's.
abbrev pub watched_keys : Network → Option Text → Text → List Text
watched_keys network none blob_hash = blob_key network blob_hash ∷ []
watched_keys network (some invoice_id) blob_hash =
    invoice_key network invoice_id ∷ blob_key network blob_hash ∷ []

abbrev pub is_taken : ℕ → List Text → Dict Entry → Bool
is_taken now keys d = any (λ key. is_some (read now key d)) keys

abbrev pub set_all : ℕ → List Text → Text → Option ℕ → Dict Entry → Dict Entry
set_all now [] value ttl d = d
set_all now (key ∷ keys) value ttl d = set_all now keys value ttl (set_value now key value ttl d)

-- `guard_available`
unfoldable pub guard_available : Settings → ℕ → Option Text → Text → Dict Entry → Result (Unit {0})
guard_available c now invoice_id blob_hash d =
    if is_taken now (watched_keys c.network invoice_id blob_hash) d then err value_error else ok tt

abbrev pub longer : ℕ → Option ℕ → Option ℕ
longer ttl none = none
longer ttl (some retention) = some (max retention ttl)

-- The round of `reserve`, with the fresh identifier and the checked retention.
unfoldable pub reserve_body :
    Settings → ℕ → Option Text → Text → Text → Option ℕ → Body Entry ReplayReservation
reserve_body c now invoice_id blob_hash reservation_id retention d =
    let keys = watched_keys c.network invoice_id blob_hash in
    if is_taken now keys d then (err value_error, none) else (
      ok (record {
        invoice_id = invoice_id;
        blob_hash = blob_hash;
        reservation_id = reservation_id;
        retention_seconds = retention;
      }),
      some (
          set_all now keys (pending_value reservation_id) (longer c.pending_ttl_seconds retention)),
    )

-- The transaction of `mark_processed`.
unfoldable pub mark_processed : Settings → ℕ → ReplayReservation → Dict Entry → Result (Dict Entry)
mark_processed c now r d = do
  retention ← validate_retention r.retention_seconds
  ok (
      set_all now (watched_keys c.network r.invoice_id r.blob_hash) replay_processed
        (longer c.processed_ttl_seconds retention) d)

-- `_matches_pending`
abbrev pub matches_pending : Option Text → Text → Bool
matches_pending none reservation_id = false
matches_pending (some value) reservation_id = text_eq value (pending_value reservation_id)

abbrev pub release_key : ℕ → Text → Text → Dict Entry → Dict Entry → Dict Entry
release_key now reservation_id key read_from d =
    if matches_pending (read now key read_from) reservation_id then erase key d else d

abbrev pub release_all : ℕ → Text → List Text → Dict Entry → Dict Entry → Dict Entry
release_all now reservation_id [] read_from d = d
release_all now reservation_id (key ∷ keys) read_from d =
    release_all now reservation_id keys read_from (release_key now reservation_id key read_from d)

-- The round of `release_pending`: the deletions are queued by what was read.
unfoldable pub release_body : Settings → ℕ → ReplayReservation → Body Entry (Unit {0})
release_body c now r d = (
  ok tt,
  some (release_all now r.reservation_id (watched_keys c.network r.invoice_id r.blob_hash) d),
)
