-- ===== src/Service/Open/Safe.antt =====
-- The open action and the store's invariant and contract: a lemma for each of its steps.
use xrpl_mpp_stack.Prelude.{
  Option, none, some, Error, store_error, service_error, value_error, pending, failure, Bool-cases,
  inl, inr,
}
use xrpl_mpp_stack.Text.{Text}
use xrpl_mpp_stack.PayChannel.Record.{PayChannelRecord, model_validate}
use xrpl_mpp_stack.PayChannel.Record.Laws.{model_validate-IsRecord}
use xrpl_mpp_stack.PayChannel.Store
use xrpl_mpp_stack.PayChannel.Store.Invariant.{Keeps-refl}
use xrpl_mpp_stack.PayChannel.Store.Methods.{create-IsSafe}
use xrpl_mpp_stack.PayChannel.Store.Calls.{AreCalls, run-IsSafe}
use xrpl_mpp_stack.Service.World.{Action, ◌>>◌, on_store}
use xrpl_mpp_stack.Service.Steps.{Config, Credential, Phase, importing, retrying, claiming, others}
use xrpl_mpp_stack.Service.Claim.{is_conflict}
use xrpl_mpp_stack.Service.Safe.{
  IsSafeAction, same, bind-IsSafeAction, lift-IsSafeAction, catching-IsSafeAction,
  handling-IsSafeAction, on_store-IsSafeAction, raise_service-IsSafeAction,
  claim_challenge_step-IsSafeAction,
}
use xrpl_mpp_stack.Service.Open.{
  OpenEnvironment, candidate, present_or, create_failed, create_record, found_or_created,
  registered_open, open_channel,
}

module _ (c : Config) (credential : Credential) (env : OpenEnvironment)
    (turns : (p : Phase) → AreCalls (env.turn p).calls) where
  pub turn-IsSafe : (p : Phase) → IsSafeAction (others c (env.turn p))
  unfolding others
  turn-IsSafe p w s = run-IsSafe (env.turn p).calls w.store (turns p) s

  turn-IsSafeAction :
      {A : Type 0} (p : Phase) (m : Action A)
      → IsSafeAction m
      → IsSafeAction (others c (env.turn p) >> m)
  turn-IsSafeAction p m sm = bind-IsSafeAction _ _ (turn-IsSafe p) (λ _. sm)

  get-IsSafeAction : (id : Text) → IsSafeAction (on_store (Store.get c.network id))
  unfolding Store.get
  get-IsSafeAction id = on_store-IsSafeAction _ (λ s h. (h, Keeps-refl s))

  present_or-IsSafeAction :
      (e : Error) (o : Option PayChannelRecord) → IsSafeAction (present_or e o)
  present_or-IsSafeAction e none = same
  present_or-IsSafeAction e (some r) = same

  create_failed-IsSafeAction :
      (id : Text) (e : Error) → IsSafeAction (create_failed c credential env id e)
  unfolding create_failed
  create_failed-IsSafeAction id (store_error code) = elim (Bool-cases (is_conflict code)) [
    | inl e ↦ rw e (
        turn-IsSafeAction retrying _ (
          bind-IsSafeAction _ _ (get-IsSafeAction id)
            (λ found. bind-IsSafeAction _ _ (present_or-IsSafeAction _ found) (λ r. same))))
    | inr e ↦ rw e (same)
  ]
  create_failed-IsSafeAction id (service_error code) = same
  create_failed-IsSafeAction id value_error = same
  create_failed-IsSafeAction id pending = same
  create_failed-IsSafeAction id failure = same

  create_record-IsSafeAction :
      (id funded : Text) → IsSafeAction (create_record c credential env id funded)
  unfolding create_record
  create_record-IsSafeAction id funded = turn-IsSafeAction importing _ (
      lift-IsSafeAction (model_validate (candidate c credential env id funded)) _ (λ made h.
        handling-IsSafeAction _ _
          (bind-IsSafeAction _ _
            (on_store-IsSafeAction _ (λ s k. create-IsSafe made s (model_validate-IsRecord _ h) k))
            (λ created. same))
          (create_failed-IsSafeAction id)))

  found_or_created-IsSafeAction :
      (id funded : Text) (found : Option PayChannelRecord)
      → IsSafeAction (found_or_created c credential env id funded found)
  unfolding found_or_created
  found_or_created-IsSafeAction id funded (some r) = same
  found_or_created-IsSafeAction id funded none = create_record-IsSafeAction id funded

  pub registered_open-IsSafeAction :
      (id funded : Text) → IsSafeAction (registered_open c credential env id funded)
  unfolding registered_open
  registered_open-IsSafeAction id funded = catching-IsSafeAction _ _ (
      bind-IsSafeAction _ _ (get-IsSafeAction id)
        (λ found. found_or_created-IsSafeAction id funded found))

  pub open_channel-IsSafeAction : IsSafeAction (open_channel c credential env)
  unfolding open_channel
  open_channel-IsSafeAction = bind-IsSafeAction _ _ (raise_service-IsSafeAction _ _) (λ _.
      lift-IsSafeAction _ _ (λ funded _.
        bind-IsSafeAction _ _ (raise_service-IsSafeAction _ _) (λ _.
          lift-IsSafeAction _ _ (λ submitted _. lift-IsSafeAction _ _ (λ _ _.
            turn-IsSafeAction claiming _ (
              bind-IsSafeAction _ _
                (claim_challenge_step-IsSafeAction c credential env.now env.tick) (λ _. same)))))))
