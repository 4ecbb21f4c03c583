-- ===== src/Worker.antt =====
-- `PayChannelRedemptionWorker.run_once`: one sweep over a page of channels
-- (packages/facilitator/src/xrpl_mpp_facilitator/paychannel_worker.py).
pub mod Tally
use xrpl_mpp_stack.Prelude.{
  ℕ, ◌+◌, Bool, true, false, ◌&&◌, not, Option, none, some, List, [], ◌∷◌, ltb, leb, length, Result,
  ok, err, if◌then◌else◌,
}
use xrpl_mpp_stack.Text.{Text, codes}
use xrpl_mpp_stack.Text.Decimal.{int_of}
use xrpl_mpp_stack.Schema.{Network}
use xrpl_mpp_stack.PayChannel.Record.{PayChannelRecord}
use xrpl_mpp_stack.PayChannel.Scan.{Page, scan}
use xrpl_mpp_stack.PayChannel.Store
use xrpl_mpp_stack.PayChannel.Store.Calls.{Call, run}
use xrpl_mpp_stack.Service.World.{World, Action, pure, lift, ◌>>=◌, ◌>>◌, on_store}

-- The worker's settings; `idle_close_ms` is 0 where idle channels stay open.
pub record WorkerSettings : Type 0 where
  pub network : Network
  pub idle_close_ms : ℕ
  pub batch_size : ℕ
  pub lease_seconds : ℕ

-- `RedemptionSweepResult`
pub record RedemptionSweepResult : Type 0 where
  pub inspected : ℕ
  pub redeemed : ℕ
  pub finalized : ℕ
  pub leased_elsewhere : ℕ
  pub failed : ℕ

-- What the visit of one record meets: the answer of the settler, the clock and the identifier of the
-- lease, and what others call on the store before the worker's own calls.
pub record Visit : Type 0 where
  pub settled : Result Text
  pub clock : ℕ
  pub lease_id : Text
  pub before : List Call
  pub before_mark : List Call
  pub before_close : List Call
  pub before_release : List Call

unfoldable pub meanwhile : List Call → Action (Unit {0})
meanwhile calls w = (ok tt, record w { store = run calls w.store })

-- `try: m` and `except Exception`: `none` is a failure.
abbrev pub caught : {A : Type 0} → Result A × World → Result (Option A) × World
caught (ok a, w) = (ok (some a), w)
caught (err e, w) = (ok none, w)

unfoldable pub attempt : {A : Type 0} → Action A → Action (Option A)
attempt m w = caught (m w)

-- `_is_idle`
abbrev pub is_idle : WorkerSettings → PayChannelRecord → ℕ → Bool
is_idle c r now =
    not r.finalized && ltb 0 c.idle_close_ms && leb (r.updated_at + c.idle_close_ms) now

abbrev pub add_redeemed : RedemptionSweepResult → RedemptionSweepResult
add_redeemed t = record t { redeemed = t.redeemed + 1 }

abbrev pub add_finalized : RedemptionSweepResult → RedemptionSweepResult
add_finalized t = record t { finalized = t.finalized + 1 }

abbrev pub add_leased : RedemptionSweepResult → RedemptionSweepResult
add_leased t = record t { leased_elsewhere = t.leased_elsewhere + 1 }

abbrev pub add_failed : RedemptionSweepResult → RedemptionSweepResult
add_failed t = record t { failed = t.failed + 1 }

module _ (c : WorkerSettings) (now : ℕ) where
  unfoldable pub idle_close : PayChannelRecord → Action PayChannelRecord
  idle_close r =
      on_store (
        Store.finalize c.network r.channel_id (codes "idle-close") (some r.cumulative) (some now) 0)

  abbrev pub closed_tally : {A : Type 0} → RedemptionSweepResult → Option A → RedemptionSweepResult
  closed_tally t none = add_failed t
  closed_tally t (some r) = add_finalized t

  -- A record with nothing to redeem: an idle one is finalized.
  unfoldable pub close_if_idle :
      Visit → PayChannelRecord → RedemptionSweepResult → Action RedemptionSweepResult
  unfolding idle_close
  close_if_idle v r t =
      if is_idle c r now
      then (do meanwhile v.before_close; done ← attempt (idle_close r); pure (closed_tally t done))
      else pure t

  -- The settler's call, and the redemption that it made.
  unfoldable pub settle_and_mark : Visit → PayChannelRecord → Action PayChannelRecord
  settle_and_mark v r = do
    tx_hash ← lift v.settled
    meanwhile v.before_mark
    on_store (Store.mark_redeemed c.network r.channel_id r.cumulative (some tx_hash) (some now) 0)

  unfoldable pub release_lease :
      Visit → PayChannelRecord → Text → RedemptionSweepResult → Action RedemptionSweepResult
  release_lease v r lease_id t = do
    meanwhile v.before_release
    on_store (Store.release_redemption c.network r.channel_id lease_id)
    pure t

  -- After the finalization of an idle record: a failure keeps the lease.
  abbrev pub after_close :
      Visit
      → PayChannelRecord
      → Text
      → RedemptionSweepResult
      → Option PayChannelRecord
      → Action RedemptionSweepResult
  after_close v r lease_id t none = pure (add_failed t)
  after_close v r lease_id t (some closed) = release_lease v r lease_id (add_finalized t)

  -- After the redemption: a failure keeps the lease.
  unfoldable pub after_mark :
      Visit
      → PayChannelRecord
      → Text
      → RedemptionSweepResult
      → Option PayChannelRecord
      → Action RedemptionSweepResult
  unfolding release_lease idle_close
  after_mark v r lease_id t none = pure (add_failed t)
  after_mark v r lease_id t (some marked) =
      if is_idle c r now
      then (do
        meanwhile v.before_close
        done ← attempt (idle_close r)
        after_close v r lease_id (add_redeemed t) done)
      else release_lease v r lease_id (add_redeemed t)

  unfoldable pub redeem_under :
      Visit → PayChannelRecord → RedemptionSweepResult → Option Text → Action RedemptionSweepResult
  unfolding settle_and_mark after_mark
  redeem_under v r t none = pure (add_leased t)
  redeem_under v r t (some lease_id) = do
    marked ← attempt (settle_and_mark v r)
    after_mark v r lease_id t marked

  -- The body of the loop over the page.
  unfoldable pub visit :
      Visit → PayChannelRecord → RedemptionSweepResult → Action RedemptionSweepResult
  unfolding close_if_idle redeem_under
  visit v r t =
      if ltb (int_of r.redeemed) (int_of r.cumulative)
      then (do
        meanwhile v.before
        lease ←
            on_store
              (Store.claim_redemption c.network r.channel_id c.lease_seconds v.clock v.lease_id)
        redeem_under v r t lease)
      else close_if_idle v r t

  -- The loop; `visits` says what the visit of a record meets that i more records follow.
  unfoldable pub sweep :
      (ℕ → Visit) → List PayChannelRecord → RedemptionSweepResult → Action RedemptionSweepResult
  unfolding visit
  sweep visits [] t = pure t
  sweep visits (r ∷ rs) t = visit (visits (length rs)) r t >>= λ t'. sweep visits rs t'

abbrev pub started : ℕ → RedemptionSweepResult
started n = record { inspected = n; redeemed = 0; finalized = 0; leased_elsewhere = 0; failed = 0 }

abbrev pub sweep_page :
    WorkerSettings
    → ℕ
    → ℕ
    → (ℕ → Visit)
    → Result (Page PayChannelRecord)
    → World
    → (Result RedemptionSweepResult × ℕ) × World
sweep_page c cursor now visits (err e) w = ((err e, cursor), w)
sweep_page c cursor now visits (ok page) w =
    let (r, w') = sweep c now visits page.records (started (length page.records)) w in
    ((r, page.cursor), w')

-- `run_once`: its result, the worker's cursor after it, and the state. The cursor has moved on even
-- where a call of the loop raises.
unfoldable pub run_once :
    WorkerSettings → ℕ → ℕ → (ℕ → Visit) → World → (Result RedemptionSweepResult × ℕ) × World
unfolding sweep
run_once c cursor now visits w =
    sweep_page c cursor now visits (scan c.network cursor c.batch_size w.store) w
