-- ===== src/Service/Safe.antt =====
-- The claim action and the store's invariant and contract: a lemma for each of its steps.
use xrpl_mpp_stack.Prelude.{
  ℕ, ◌≡◌, refl, ap, Bool, true, false, ◌&&◌, ◌||◌, not, Option, none, some, Code, Error, Result, ok,
  err, Bool-cases, inl, inr, if◌then◌else◌, is_none, store_error, service_error, value_error,
  pending, failure, channel_state_changed,
}
use xrpl_mpp_stack.Text.{Text, text_eq}
use xrpl_mpp_stack.PayChannel.Record.{PayChannelRecord}
use xrpl_mpp_stack.PayChannel.Record.Laws.{IsRecord}
use xrpl_mpp_stack.PayChannel.Store
use xrpl_mpp_stack.PayChannel.Store.{PayChannelStore, Method}
use xrpl_mpp_stack.PayChannel.Store.Invariant.{IsStore, Keeps-refl, Keeps-trans, IsSafe}
use xrpl_mpp_stack.PayChannel.Store.Methods.{
  create-IsSafe, mark_redeemed-IsSafe, finalize-IsSafe, claim_redemption-IsSafe,
  release_redemption-IsSafe,
}
use xrpl_mpp_stack.PayChannel.Store.Calls.{AreCalls, run-IsSafe}
use xrpl_mpp_stack.Replay.Claims.{claim_challenge}
use xrpl_mpp_stack.Service.World.{
  World, Action, raise, lift, continue, ◌>>=◌, ◌>>◌, on_store, catching, handled, handling,
}
use xrpl_mpp_stack.Service.Steps.{
  Config, Credential, ActionKind, voucher, close, Environment, Phase, looking, importing, retrying,
  claiming, leasing, reloading, redeeming, releasing, finalizing, others, claim_challenge_step,
  claim_call, claimed_world, must_be_granted, release_redemption_lease,
}
use xrpl_mpp_stack.Service.Claim.{
  raise_service, present, is_conflict, channel, import_failed, import_record, registered,
  ledger_checked, release_if, redeem_claim, is_due, redeem_if_due, settle_latest, coordinate,
  settle_close, concluded,
}
use xrpl_mpp_stack.Service.Verify.{authenticate}

-- The loader hands over a record that its constructor has validated, and so do others.
pub record IsEnvironment (env : Environment) : Type 0 where
  pub loaded : (r : PayChannelRecord) → env.loaded ≡ some (ok r) → IsRecord r
  pub turns : (p : Phase) → AreCalls (env.turn p).calls

-- An action that keeps the store safe, whether it returns or raises.
abbrev pub IsSafeAction : {A : Type 0} → Action A → Type 0
IsSafeAction m = (w : World) → IsStore w.store → IsSafe w.store (m w).1.store

-- Where the state is left as it is.
pub same : (w : World) → IsStore w.store → IsSafe w.store w.store
same w s = (s, Keeps-refl w.store)

module _ {A : Type 0} where
  pub bind-IsSafeAction :
      {B : Type 0} (m : Action A) (f : A → Action B)
      → IsSafeAction m
      → ((a : A) → IsSafeAction (f a))
      → IsSafeAction (m >>= f)
  unfolding ◌>>=◌
  bind-IsSafeAction {B} m f sm sf w s = step (m w) (sm w s)
    where
      step :
          (x : Result A × World) → IsSafe w.store x.1.store → IsSafe w.store (continue f x).1.store
      step (ok a, v) h = let (s', k) = sf a v h.0 in (s', Keeps-trans h.1 k)
      step (err e, v) h = h

  pub lift-IsSafeAction :
      {B : Type 0} (r : Result A) (f : A → Action B)
      → ((a : A) → r ≡ ok a → IsSafeAction (f a))
      → IsSafeAction (lift r >>= f)
  unfolding ◌>>=◌
  lift-IsSafeAction (ok a) f k = k a refl
  lift-IsSafeAction (err e) f k = same

  pub present-IsSafeAction : (o : Option A) (code : Code) → IsSafeAction (present o code)
  present-IsSafeAction none code = same
  present-IsSafeAction (some a) code = same

  pub catching-IsSafeAction :
      (g : Error → Error) (m : Action A) → IsSafeAction m → IsSafeAction (catching g m)
  unfolding catching
  catching-IsSafeAction g m sm w s = sm w s

  pub handling-IsSafeAction :
      (k : Error → Action A) (m : Action A)
      → IsSafeAction m
      → ((e : Error) → IsSafeAction (k e))
      → IsSafeAction (handling k m)
  unfolding handling
  handling-IsSafeAction k m sm sk w s = step (m w) (sm w s)
    where
      step :
          (x : Result A × World) → IsSafe w.store x.1.store → IsSafe w.store (handled k x).1.store
      step (ok a, v) h = h
      step (err e, v) h = let (s', q) = sk e v h.0 in (s', Keeps-trans h.1 q)

  pub on_store-IsSafeAction :
      (m : Method A)
      → ((s : PayChannelStore) → IsStore s → IsSafe s (m s).1)
      → IsSafeAction (on_store m)
  unfolding on_store
  on_store-IsSafeAction m sm w s = sm w.store s

pub raise_service-IsSafeAction : (b : Bool) (code : Code) → IsSafeAction (raise_service b code)
raise_service-IsSafeAction true code = same
raise_service-IsSafeAction false code = same

claim_call-IsSafeAction :
    (c : Config) (name : Text) (t : Option ℕ) (now : ℕ) → IsSafeAction (claim_call c name t now)
unfolding claim_call
claim_call-IsSafeAction c name t now w s =
    answered (claim_challenge c.digest c.second name t now w.claims)
  where
    answered : (r : _) → IsSafe w.store (claimed_world w r).1.store
    answered (ok (granted, claims)) = (s, Keeps-refl w.store)
    answered (err e) = (s, Keeps-refl w.store)

must_be_granted-IsSafeAction : (b : Bool) → IsSafeAction (must_be_granted b)
must_be_granted-IsSafeAction true = same
must_be_granted-IsSafeAction false = same

pub claim_challenge_step-IsSafeAction :
    (c : Config) (credential : Credential) (now tick : ℕ)
    → IsSafeAction (claim_challenge_step c credential now tick)
unfolding claim_challenge_step
claim_challenge_step-IsSafeAction c credential now tick =
    bind-IsSafeAction _ _ (catching-IsSafeAction _ _ (claim_call-IsSafeAction c _ _ _))
      must_be_granted-IsSafeAction

module _ (c : Config) (credential : Credential) (env : Environment)
    (ok_env : IsEnvironment env) where
  pub others-IsSafeAction : (p : Phase) → IsSafeAction (others c (env.turn p))
  unfolding others
  others-IsSafeAction p w s = run-IsSafe (env.turn p).calls w.store (ok_env.turns p) s

  -- After what others do, the next step.
  turn-IsSafeAction :
      {A : Type 0} (p : Phase) (m : Action A)
      → IsSafeAction m
      → IsSafeAction (others c (env.turn p) >> m)
  turn-IsSafeAction p m sm = bind-IsSafeAction _ _ (others-IsSafeAction p) (λ _. sm)

  get-IsSafeAction : IsSafeAction (on_store (Store.get c.network (channel c credential env)))
  unfolding Store.get
  get-IsSafeAction = on_store-IsSafeAction _ (λ s h. (h, Keeps-refl s))

  import_failed-IsSafeAction : (e : Error) → IsSafeAction (import_failed c credential env e)
  unfolding import_failed
  import_failed-IsSafeAction (service_error code) = same
  import_failed-IsSafeAction (store_error code) = elim (Bool-cases (is_conflict code)) [
    | inl e ↦ rw e (
        turn-IsSafeAction retrying _
          (bind-IsSafeAction _ _ get-IsSafeAction (λ found. present-IsSafeAction found code)))
    | inr e ↦ rw e (same)
  ]
  import_failed-IsSafeAction value_error = same
  import_failed-IsSafeAction pending = same
  import_failed-IsSafeAction failure = same

  import_record-IsSafeAction :
      (answer : Result PayChannelRecord)
      → ((r : PayChannelRecord) → answer ≡ ok r → IsRecord r)
      → IsSafeAction (import_record c credential env answer)
  unfolding import_record
  import_record-IsSafeAction answer v =
      handling-IsSafeAction _ _
        (lift-IsSafeAction answer _ (λ r e. lift-IsSafeAction _ _ (λ _ _.
          turn-IsSafeAction importing _ (
            bind-IsSafeAction _ _ (on_store-IsSafeAction _ (λ s h. create-IsSafe r s (v r e) h))
              (λ created. same)))))
        import_failed-IsSafeAction

  registered-IsSafeAction :
      (found : Option PayChannelRecord) (loaded : Option (Result PayChannelRecord))
      → ((r : PayChannelRecord) → loaded ≡ some (ok r) → IsRecord r)
      → IsSafeAction (registered c credential env found loaded)
  unfolding registered
  registered-IsSafeAction (some r) loaded v = same
  registered-IsSafeAction none none v = same
  registered-IsSafeAction none (some answer) v =
      import_record-IsSafeAction answer (λ r e. v r (ap some e))

  ledger_checked-IsSafeAction :
      (answer : Option (Result (Option Text)))
      → IsSafeAction (ledger_checked c credential env answer)
  ledger_checked-IsSafeAction none = same
  ledger_checked-IsSafeAction (some answer) = same

  release_if-IsSafeAction : (lease : Option Text) → IsSafeAction (release_if c credential env lease)
  unfolding release_redemption_lease
  release_if-IsSafeAction none = same
  release_if-IsSafeAction (some lease_id) =
      catching-IsSafeAction _ _
        (on_store-IsSafeAction _ (λ s h. release_redemption-IsSafe c.network _ lease_id s h))

  redeem_claim-IsSafeAction :
      (answer : Result Text) (latest : PayChannelRecord)
      → IsSafeAction (redeem_claim c credential env answer latest)
  unfolding redeem_claim
  redeem_claim-IsSafeAction answer latest = lift-IsSafeAction _ _ (λ raw _.
      turn-IsSafeAction redeeming _ (
        bind-IsSafeAction _ _
          (catching-IsSafeAction _ _ (
            on_store-IsSafeAction _
              (λ s h. mark_redeemed-IsSafe c.network _ latest.cumulative _ _ 0 s h)))
          (λ updated. same)))

  redeem_if_due-IsSafeAction :
      (answer : Result Text) (latest : PayChannelRecord)
      → IsSafeAction (redeem_if_due c credential env answer latest)
  redeem_if_due-IsSafeAction answer latest = elim (Bool-cases (is_due c credential env latest)) [
    | inl e ↦ rw e (redeem_claim-IsSafeAction answer latest)
    | inr e ↦ rw e (same)
  ]

  settle_latest-IsSafeAction :
      (answer : Result Text) (lease : Option Text) (latest : PayChannelRecord)
      → IsSafeAction (settle_latest c credential env answer lease latest)
  unfolding settle_latest
  settle_latest-IsSafeAction answer lease latest =
      elim (Bool-cases (is_none lease && is_due c credential env latest)) [
        | inl e ↦ rw e (same)
        | inr e ↦ rw e (
            bind-IsSafeAction _ _ (redeem_if_due-IsSafeAction answer latest) (λ p.
              turn-IsSafeAction releasing _
                (bind-IsSafeAction _ _ (release_if-IsSafeAction lease) (λ _. same))))
      ]

  coordinate-IsSafeAction :
      (answer : Result Text) (r : PayChannelRecord)
      → IsSafeAction (coordinate c credential env answer r)
  unfolding coordinate
  coordinate-IsSafeAction answer r = turn-IsSafeAction leasing _ (
      bind-IsSafeAction _ _
        (catching-IsSafeAction _ _ (
          on_store-IsSafeAction _ (λ s h.
            claim_redemption-IsSafe c.network _ c.redemption_lease_seconds _ env.lease_id s h)))
        (λ lease. turn-IsSafeAction reloading _ (
          bind-IsSafeAction _ _ (catching-IsSafeAction _ _ get-IsSafeAction) (λ found.
            bind-IsSafeAction _ _ (present-IsSafeAction found _)
              (λ latest. lift-IsSafeAction _ _ (λ _ _. unchanged lease latest))))))
    where
      unchanged :
          (lease : Option Text) (latest : PayChannelRecord)
          → IsSafeAction (
              if not (text_eq latest.cumulative r.cumulative)
                || not (text_eq latest.signature r.signature)
              then (others c (env.turn releasing) >>= λ _.
                  (release_if c credential env lease >>= λ _.
                  raise (service_error channel_state_changed)))
              else settle_latest c credential env answer lease latest)
      unchanged lease latest =
          elim (Bool-cases (
            not (text_eq latest.cumulative r.cumulative)
            || not (text_eq latest.signature r.signature))) [
              | inl e ↦ rw e (
                  turn-IsSafeAction releasing _
                    (bind-IsSafeAction _ _ (release_if-IsSafeAction lease) (λ _. same)))
              | inr e ↦ rw e (settle_latest-IsSafeAction answer lease latest)
            ]

  settle_close-IsSafeAction :
      (settler : Option (Result Text)) (r : PayChannelRecord)
      → IsSafeAction (settle_close c credential env settler r)
  unfolding settle_close
  settle_close-IsSafeAction none r = same
  settle_close-IsSafeAction (some answer) r = elim (Bool-cases (is_due c credential env r)) [
    | inl e ↦ rw e (coordinate-IsSafeAction answer r)
    | inr e ↦ rw e (same)
  ]

  pub concluded-IsSafeAction :
      (kind : ActionKind) (r : PayChannelRecord) → IsSafeAction (concluded c credential env kind r)
  unfolding concluded
  concluded-IsSafeAction voucher r = same
  concluded-IsSafeAction close r =
      bind-IsSafeAction _ _ (settle_close-IsSafeAction env.settled r) (λ p.
        turn-IsSafeAction finalizing _ (
          bind-IsSafeAction _ _
            (catching-IsSafeAction _ _
              (on_store-IsSafeAction _ (λ s h. finalize-IsSafe c.network _ _ _ _ 0 s h)))
            (λ final. same)))

  pub authenticate-IsSafeAction : IsSafeAction (authenticate c credential env)
  unfolding authenticate
  authenticate-IsSafeAction = turn-IsSafeAction looking _ (
      bind-IsSafeAction _ _ (catching-IsSafeAction _ _ get-IsSafeAction) (λ found.
        bind-IsSafeAction _ _ (registered-IsSafeAction found env.loaded ok_env.loaded) (λ r.
          lift-IsSafeAction _ _ (λ _ _.
            bind-IsSafeAction _ _ (raise_service-IsSafeAction r.finalized _) (λ _.
              lift-IsSafeAction _ _ (λ _ _.
                bind-IsSafeAction _ _ (ledger_checked-IsSafeAction env.funding) (λ funded.
                  turn-IsSafeAction claiming _ (
                    bind-IsSafeAction _ _
                      (claim_challenge_step-IsSafeAction c credential env.now env.tick)
                      (λ _. same)))))))))
