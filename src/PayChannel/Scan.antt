-- ===== src/PayChannel/Scan.antt =====
-- `InMemoryPayChannelStore.scan`: pages over the channels of a network, in key order.
pub mod Pages
use xrpl_mpp_stack.Prelude.{
  ℕ, zero, suc, ◌+◌, ◌-◌, Bool, true, false, Option, none, some, List, [], ◌∷◌, ltb, leb, ◌==◌,
  length, take, drop, min, map, Result, ok, err, value_error, ◌>>=◌, if◌then◌else◌,
}
use xrpl_mpp_stack.Text.{Text, starts_with}
use xrpl_mpp_stack.Schema.{Network}
use xrpl_mpp_stack.Dict.{Dict, lookup}
use xrpl_mpp_stack.PayChannel.Record.{PayChannelRecord}
use xrpl_mpp_stack.PayChannel.Key.{network_prefix}
use xrpl_mpp_stack.PayChannel.Store.{PayChannelStore}

-- The order of texts, by code points.
unfoldable pub text_leb : Text → Text → Bool
text_leb [] t = true
text_leb (c ∷ s) [] = false
text_leb (c ∷ s) (d ∷ t) = if c == d then text_leb s t else ltb c d

insert_sorted : Text → List Text → List Text
insert_sorted k [] = k ∷ []
insert_sorted k (j ∷ ks) = if text_leb k j then k ∷ j ∷ ks else j ∷ insert_sorted k ks

-- `sorted(...)`
unfoldable pub sorted : List Text → List Text
unfolding insert_sorted text_leb
sorted [] = []
sorted (k ∷ ks) = insert_sorted k (sorted ks)

abbrev pub keys {ℓ} : {V : Type ℓ} → Dict V → List Text
keys [] = []
keys ((k, v) ∷ d) = k ∷ keys d

-- The records at the keys that begin with a prefix.
unfoldable pub records_at : Text → List Text → Dict PayChannelRecord → List PayChannelRecord
records_at prefix [] d = []
records_at prefix (k ∷ ks) d =
    let rest = records_at prefix ks d in
    if starts_with prefix k then elim (lookup k d) [ none ↦ rest | some r ↦ r ∷ rest ] else rest

-- The records that a scan of the network walks.
unfoldable pub network_records : Network → PayChannelStore → List PayChannelRecord
unfolding records_at sorted
network_records network s = records_at (network_prefix network) (sorted (keys s.records)) s.records

-- `PayChannelScanPage`
pub record Page {ℓ} (A : Type ℓ) : Type ℓ where
  pub cursor : ℕ
  pub records : List A

-- The window of a page, and the cursor of the next one; 0 where nothing is left.
unfoldable pub page_of {ℓ} : {A : Type ℓ} → List A → ℕ → ℕ → Page A
page_of records cursor limit =
    if leb (length records) cursor
    then record { cursor = 0; records = [] }
    else (let stop = min (length records) (cursor + limit) in
        record {
          cursor = if leb (length records) stop then 0 else stop;
          records = take (stop - cursor) (drop cursor records);
        })

-- `scan`; `_validate_scan` refuses a limit of 0.
unfoldable pub scan : Network → ℕ → ℕ → PayChannelStore → Result (Page PayChannelRecord)
scan network cursor limit s =
    if limit == 0 then err value_error else ok (page_of (network_records network s) cursor limit)
