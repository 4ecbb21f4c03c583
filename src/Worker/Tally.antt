-- ===== src/Worker/Tally.antt =====
-- The counts of a sweep.
use xrpl_mpp_stack.Prelude.{
  ℕ, ◌+◌, Bool, true, false, ◌&&◌, not, leb, ◌≤◌, ◌≡◌, refl, ap, ◌∙◌, subst, Option, none, some,
  List, [], ◌∷◌, ltb, length, arith, Result, ok, err, ok_injective, Bool-cases, inl, inr,
}
use xrpl_mpp_stack.Text.{Text}
use xrpl_mpp_stack.Text.Decimal.{int_of}
use xrpl_mpp_stack.PayChannel.Record.{PayChannelRecord}
use xrpl_mpp_stack.PayChannel.Scan.{Page, scan}
use xrpl_mpp_stack.PayChannel.Store
use xrpl_mpp_stack.Service.World.{World, on_store, bind-inv, pure}
use xrpl_mpp_stack.Worker.{
  WorkerSettings, RedemptionSweepResult, Visit, meanwhile, attempt, is_idle, add_redeemed,
  add_finalized, closed_tally, idle_close, close_if_idle, settle_and_mark, release_lease,
  after_close, after_mark, redeem_under, visit, sweep, started, sweep_page, run_once,
}

abbrev pub bit : Bool → ℕ
bit true = 1
bit false = 0

-- How many of the records have vouchers to redeem, and how many have been open and untouched for as
-- long as the worker waits.
pub waiting : List PayChannelRecord → ℕ
waiting [] = 0
waiting (r ∷ rs) = bit (ltb (int_of r.redeemed) (int_of r.cumulative)) + waiting rs

pub stale : WorkerSettings → ℕ → List PayChannelRecord → ℕ
stale c now [] = 0
stale c now (r ∷ rs) =
    bit (not r.finalized && ltb 0 c.idle_close_ms && leb (r.updated_at + c.idle_close_ms) now)
    + stale c now rs

-- What n records add to the counts, p of them with vouchers to redeem and q of them idle.
pub record IsCounted (n p q : ℕ) (t t' : RedemptionSweepResult) : Type 0 where
  pub earned : t'.redeemed + t'.leased_elsewhere ≤ t.redeemed + t.leased_elsewhere + p
  pub closed : t'.finalized ≤ t.finalized + q
  pub inspected : t'.inspected ≡ t.inspected
  pub redeemed : t'.redeemed + t'.leased_elsewhere ≤ t.redeemed + t.leased_elsewhere + n
  pub ended :
      t'.finalized + t'.failed + t'.leased_elsewhere
      ≤ t.finalized + t.failed + t.leased_elsewhere + n

returned : {A : Type 0} (a : A) (w : World) {b : A} {v : World} → pure a w ≡ (ok b, v) → a ≡ b
returned a w h = ok_injective (ap (λ x. x.0) h)

module _ (c : WorkerSettings) (now : ℕ) where
  closed_tally-IsCounted :
      (t : RedemptionSweepResult) (o : Option PayChannelRecord)
      → IsCounted 1 0 1 t (closed_tally c now t o)
  closed_tally-IsCounted t none = record {
    inspected = refl;
    earned = omega arith;
    closed = omega arith;
    redeemed = omega arith;
    ended = omega arith;
  }
  closed_tally-IsCounted t (some r) = record {
    inspected = refl;
    earned = omega arith;
    closed = omega arith;
    redeemed = omega arith;
    ended = omega arith;
  }

  close_if_idle-IsCounted :
      (v : Visit) (r : PayChannelRecord) (t : RedemptionSweepResult) (w : World) {w' : World}
      {t' : RedemptionSweepResult}
      → close_if_idle c now v r t w ≡ (ok t', w')
      → IsCounted 1 0 (bit (is_idle c r now)) t t'
  unfolding close_if_idle
  close_if_idle-IsCounted v r t w {w'} {t'} h = elim (Bool-cases (is_idle c r now)) [
    | inl e ↦ bind-inv (meanwhile v.before_close) _ (rw e at h) λ _ w1 e1 h.
        bind-inv (attempt (idle_close c now r)) _ h λ o w2 e2 h. rw e (
          subst (IsCounted 1 0 1 t) (returned (closed_tally c now t o) w2 h)
            (closed_tally-IsCounted t o))
    | inr e ↦ subst (IsCounted 1 0 (bit (is_idle c r now)) t) (returned t w (rw e at h)) (record {
      inspected = refl;
      earned = omega arith;
      closed = omega arith;
      redeemed = omega arith;
      ended = omega arith;
    })
  ]

  release_lease-same :
      (v : Visit) (r : PayChannelRecord) (id : Text) (t : RedemptionSweepResult) (w : World)
      {w' : World} {t' : RedemptionSweepResult}
      → release_lease c now v r id t w ≡ (ok t', w')
      → t ≡ t'
  unfolding release_lease
  release_lease-same v r id t w h = bind-inv (meanwhile v.before_release) _ h λ _ w1 e1 h.
      bind-inv (on_store (Store.release_redemption c.network r.channel_id id)) _ h
        λ _ w2 e2 h. returned t w2 h

  after_close-IsCounted :
      (v : Visit) (r : PayChannelRecord) (id : Text) (t : RedemptionSweepResult)
      (o : Option PayChannelRecord) (w : World) {w' : World} {t' : RedemptionSweepResult}
      → after_close c now v r id (add_redeemed t) o w ≡ (ok t', w')
      → IsCounted 1 1 1 t t'
  after_close-IsCounted v r id t none w h =
      subst (IsCounted 1 1 1 t) (ok_injective (ap (λ x. x.0) h)) (record {
        inspected = refl;
        earned = omega arith;
        closed = omega arith;
        redeemed = omega arith;
        ended = omega arith;
      })
  after_close-IsCounted v r id t (some x) w h =
      subst (IsCounted 1 1 1 t) (release_lease-same v r id (add_finalized (add_redeemed t)) w h)
        (record {
          inspected = refl;
          earned = omega arith;
          closed = omega arith;
          redeemed = omega arith;
          ended = omega arith;
        })

  after_mark-IsCounted :
      (v : Visit) (r : PayChannelRecord) (id : Text) (t : RedemptionSweepResult)
      (o : Option PayChannelRecord) (w : World) {w' : World} {t' : RedemptionSweepResult}
      → after_mark c now v r id t o w ≡ (ok t', w')
      → IsCounted 1 1 (bit (is_idle c r now)) t t'
  unfolding after_mark
  after_mark-IsCounted v r id t none w h =
      subst (IsCounted 1 1 (bit (is_idle c r now)) t) (ok_injective (ap (λ x. x.0) h)) (record {
        inspected = refl;
        earned = omega arith;
        closed = omega arith;
        redeemed = omega arith;
        ended = omega arith;
      })
  after_mark-IsCounted v r id t (some x) w h = elim (Bool-cases (is_idle c r now)) [
    | inl e ↦ bind-inv (meanwhile v.before_close) _ (rw e at h) λ _ w1 e1 h.
        bind-inv (attempt (idle_close c now r)) _ h
          λ o w2 e2 h. rw e (after_close-IsCounted v r id t o w2 h)
    | inr e ↦
        subst (IsCounted 1 1 (bit (is_idle c r now)) t)
          (release_lease-same v r id (add_redeemed t) w (rw e at h))
          (record {
            inspected = refl;
            earned = omega arith;
            closed = omega arith;
            redeemed = omega arith;
            ended = omega arith;
          })
  ]

  redeem_under-IsCounted :
      (v : Visit) (r : PayChannelRecord) (t : RedemptionSweepResult) (lease : Option Text)
      (w : World) {w' : World} {t' : RedemptionSweepResult}
      → redeem_under c now v r t lease w ≡ (ok t', w')
      → IsCounted 1 1 (bit (is_idle c r now)) t t'
  unfolding redeem_under
  redeem_under-IsCounted v r t none w h =
      subst (IsCounted 1 1 (bit (is_idle c r now)) t) (ok_injective (ap (λ x. x.0) h)) (record {
        inspected = refl;
        earned = omega arith;
        closed = omega arith;
        redeemed = omega arith;
        ended = omega arith;
      })
  redeem_under-IsCounted v r t (some id) w h =
      bind-inv (attempt (settle_and_mark c now v r)) _ h
        λ o w1 e1 h. after_mark-IsCounted v r id t o w1 h

  visit-IsCounted :
      (v : Visit) (r : PayChannelRecord) (t : RedemptionSweepResult) (w : World) {w' : World}
      {t' : RedemptionSweepResult}
      → visit c now v r t w ≡ (ok t', w')
      → IsCounted 1
          (bit (ltb (int_of r.redeemed) (int_of r.cumulative)))
          (bit (is_idle c r now))
          t
          t'
  unfolding visit
  visit-IsCounted v r t w h = elim (Bool-cases (ltb (int_of r.redeemed) (int_of r.cumulative))) [
    | inl e ↦ bind-inv (meanwhile v.before) _ (rw e at h) λ _ w1 e1 h.
        bind-inv
          (on_store
            (Store.claim_redemption c.network r.channel_id c.lease_seconds v.clock v.lease_id))
          _ h λ lease w2 e2 h. rw e (redeem_under-IsCounted v r t lease w2 h)
    | inr e ↦ rw e (close_if_idle-IsCounted v r t w (rw e at h))
  ]

  sweep-IsCounted :
      (visits : ℕ → Visit) (rs : List PayChannelRecord) (t : RedemptionSweepResult) (w : World)
      {w' : World} {t' : RedemptionSweepResult}
      → sweep c now visits rs t w ≡ (ok t', w')
      → IsCounted (length rs) (waiting rs) (stale c now rs) t t'
  unfolding sweep waiting stale
  sweep-IsCounted visits [] t w h = subst (IsCounted 0 0 0 t) (returned t w h) (record {
    inspected = refl;
    earned = omega arith;
    closed = omega arith;
    redeemed = omega arith;
    ended = omega arith;
  })
  sweep-IsCounted visits (r ∷ rs) t w h =
      bind-inv (visit c now (visits (length rs)) r t) _ h λ u w1 e1 h.
        let a : IsCounted 1 (bit (ltb (int_of r.redeemed) (int_of r.cumulative)))
            (bit (is_idle c r now)) t u =
          visit-IsCounted (visits (length rs)) r t w e1 in
        let b = sweep-IsCounted visits rs u w1 h in
        record {
          inspected = b.inspected ∙ a.inspected;
          earned = omega (arith, a.earned, b.earned);
          closed = omega (arith, a.closed, b.closed);
          redeemed = omega (arith, a.redeemed, b.redeemed);
          ended = omega (arith, a.ended, b.ended);
        }

-- Where a sweep returns its counts, the redemptions and the leases held elsewhere together, and
-- likewise the finalizations, the failures and the leases held elsewhere together, are no more
-- than the records that it inspected.
pub run_once-IsCounted :
    (c : WorkerSettings) (cursor now : ℕ) (visits : ℕ → Visit) (w : World)
    (out : RedemptionSweepResult)
    → (run_once c cursor now visits w).0.0 ≡ ok out
    → (out.redeemed + out.leased_elsewhere ≤ out.inspected)
      × (out.finalized + out.failed + out.leased_elsewhere ≤ out.inspected)
unfolding run_once
run_once-IsCounted c cursor now visits w out h =
    paged (scan c.network cursor c.batch_size w.store) h
  where
    paged :
        (p : Result (Page PayChannelRecord))
        → (sweep_page c cursor now visits p w).0.0 ≡ ok out
        → (out.redeemed + out.leased_elsewhere ≤ out.inspected)
          × (out.finalized + out.failed + out.leased_elsewhere ≤ out.inspected)
    paged (err e) h = absurd (cc)
    paged (ok page) h =
        let x : Result RedemptionSweepResult × World =
          sweep c now visits page.records (started (length page.records)) w in
        let k : IsCounted (length page.records) (waiting page.records) (stale c now page.records)
            (started (length page.records)) out =
          sweep-IsCounted c now visits page.records (started (length page.records)) w
            (ap (λ r. (r, x.1)) h) in
        (omega (arith, k.redeemed, k.inspected), omega (arith, k.ended, k.inspected))

-- Where a sweep over a page returns its counts, the redemptions and the leases held elsewhere
-- together are no more than the records of the page whose vouchers exceed what is redeemed, and
-- the finalizations are no more than the records of the page that are not finalized and have been
-- untouched for as long as a positive idle time.
pub run_once-IsEarned :
    (c : WorkerSettings) (cursor now : ℕ) (visits : ℕ → Visit) (w : World)
    (page : Page PayChannelRecord) (out : RedemptionSweepResult)
    → scan c.network cursor c.batch_size w.store ≡ ok page
    → (run_once c cursor now visits w).0.0 ≡ ok out
    → (out.redeemed + out.leased_elsewhere ≤ waiting page.records)
      × (out.finalized ≤ stale c now page.records)
unfolding run_once
run_once-IsEarned c cursor now visits w page out found h =
    let x : Result RedemptionSweepResult × World =
      sweep c now visits page.records (started (length page.records)) w in
    let k : IsCounted (length page.records) (waiting page.records) (stale c now page.records)
        (started (length page.records)) out =
      sweep-IsCounted c now visits page.records (started (length page.records)) w
        (ap (λ r. (r, x.1)) (rw found at h)) in
    (omega (arith, k.earned), omega (arith, k.closed))
