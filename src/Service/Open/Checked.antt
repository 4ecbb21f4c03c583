-- ===== src/Service/Open/Checked.antt =====
-- What an open action that returns has checked and paid.
use xrpl_mpp_stack.Prelude.{
  ◌+◌, ◌≤◌, ◌<◌, ◌≡◌, refl, sym, ap, ◌∙◌, subst, Bool, true, false, arith, ok, Code, ltb,
}
use xrpl_mpp_stack.Text.{Text, upper}
use xrpl_mpp_stack.Text.Decimal.{int_of}
use xrpl_mpp_stack.Dict.{lookup}
use xrpl_mpp_stack.HighWater.{Status, advanced, replay, regressed, short, is_advanced}
use xrpl_mpp_stack.PayChannel.Key.{channel_key}
use xrpl_mpp_stack.PayChannel.Mutations.{PayChannelAdvanceResult}
use xrpl_mpp_stack.PayChannel.Record.{PayChannelRecord}
use xrpl_mpp_stack.PayChannel.Store
use xrpl_mpp_stack.PayChannel.Store.Invariant.{IsStore, IsSafe}
use xrpl_mpp_stack.PayChannel.Store.Calls.{AreCalls}
use xrpl_mpp_stack.PayChannel.Store.Accounting.{cumulative_of, Keeps-cumulative, advance-paid}
use xrpl_mpp_stack.Service.World.{World, lift, on_store, store_to_service, catching, bind-inv}
use xrpl_mpp_stack.Service.Steps.{
  Config, Credential, Phase, looking, claiming, advancing, others, claim_challenge_step,
  assert_record_binding,
}
use xrpl_mpp_stack.Service.Claim.{raise_service}
use xrpl_mpp_stack.Service.Signature.{verify_claim_signature-ok}
use xrpl_mpp_stack.Service.Reply.{PayChannelVerificationResult, OpenChannelSubmission}
use xrpl_mpp_stack.Service.Paid.{at_end, on_store-returned, err_ne_ok}
use xrpl_mpp_stack.Service.Open.{
  OpenEnvironment, submission_of, registered_open, open_call, must_advance, first_voucher,
  initial_signature, open_channel, record_channel, verify_open,
}
use xrpl_mpp_stack.Service.Open.Safe.{
  turn-IsSafe, registered_open-IsSafeAction, open_channel-IsSafeAction,
}

raise_service-returned :
    (b : Bool) (code : Code) (w : World) {v : World} {u : Unit {0}}
    → raise_service b code w ≡ (ok u, v)
    → (b ≡ false) × (v ≡ w)
raise_service-returned true code w h = absurd (err_ne_ok (ap (λ x. x.0) h))
raise_service-returned false code w h = (refl, sym (ap (λ x. x.1) h))

module _ (c : Config) (credential : Credential) (env : OpenEnvironment) where
  must_advance-returned :
      (result : PayChannelAdvanceResult) (status : Status) (w : World) {v : World}
      {p : PayChannelRecord × Text}
      → must_advance c credential env result status w ≡ (ok p, v)
      → (is_advanced status ≡ true) × (v ≡ w)
  must_advance-returned result advanced w h = (refl, sym (ap (λ x. x.1) h))
  must_advance-returned result replay w h = absurd (err_ne_ok (ap (λ x. x.0) h))
  must_advance-returned result regressed w h = absurd (err_ne_ok (ap (λ x. x.0) h))
  must_advance-returned result short w h = absurd (err_ne_ok (ap (λ x. x.0) h))

  initial_signature-ok :
      (id : Text) {u : Unit {0}}
      → initial_signature c credential env id ≡ ok u
      → 0 < int_of credential.amount
      → env.verifier id credential.amount credential.signature c.public_key ≡ ok true
  unfolding initial_signature
  initial_signature-ok id h pos =
      let voucher : ltb 0 (int_of credential.amount) ≡ true = ground (arith, pos) in
      verify_claim_signature-ok env.verifier id credential.amount credential.signature c.public_key
        (rw voucher at h)

  -- What the proofs of the credential have checked.
  pub open_channel-returned :
      (w : World) {v : World} (funded : Text) (submitted : OpenChannelSubmission)
      → open_channel c credential env w ≡ (ok (funded, submitted), v)
      → (env.decoded ≡ ok funded)
        × (submission_of env.submitted ≡ ok submitted)
        × (int_of credential.request_amount ≤ int_of credential.amount)
        × (int_of credential.amount ≤ int_of funded)
        × (0 < int_of credential.amount
            → env.verifier
                (upper submitted.channel_id)
                credential.amount
                credential.signature
                c.public_key
              ≡ ok true)
  unfolding open_channel
  open_channel-returned w {v} funded submitted h = bind-inv (raise_service _ _) _ h λ _ w1 e1 h.
      bind-inv (lift env.decoded) _ h λ f w2 e2 h. bind-inv (raise_service _ _) _ h λ _ w3 e3 h.
        bind-inv (lift (submission_of env.submitted)) _ h λ s w4 e4 h.
          bind-inv (lift (initial_signature c credential env (upper s.channel_id))) _ h λ _ w5 e5 h.
            bind-inv (others c (env.turn claiming)) _ h λ _ w6 e6 h.
              bind-inv (claim_challenge_step c credential env.now env.tick) _ h λ _ w7 e7 h.
                let (enough, _) = raise_service-returned _ _ w e1 in
                let (within, _) = raise_service-returned _ _ w2 e3 in
                let same_f : f ≡ funded = let q = ap (λ x. x.0) h in cc in
                let same_s : s ≡ submitted = let q = ap (λ x. x.0) h in cc in
                (
                  ap (λ x. x.0) e2 ∙ ap (λ x. ok x) same_f,
                  ap (λ x. x.0) e4 ∙ ap (λ x. ok x) same_s,
                  ground arith,
                  subst (λ x. int_of credential.amount ≤ int_of x) same_f (ground arith),
                  λ pos.
                      subst
                        (λ x.
                          env.verifier (upper x.channel_id) credential.amount credential.signature
                            c.public_key
                          ≡ ok true)
                        same_s (initial_signature-ok (upper s.channel_id) (ap (λ x. x.0) e5) pos),
                )

  module _ (turns : (p : Phase) → AreCalls (env.turn p).calls) where
    first_voucher-paid :
        (id key : Text) (r : PayChannelRecord) (created : Bool) (w : World) {w' : World}
        {p : PayChannelRecord × Text}
        → IsStore w.store
        → channel_key c.network id ≡ ok key
        → 0 < int_of credential.amount
        → first_voucher c credential env id r created w ≡ (ok p, w')
        → cumulative_of (lookup key w.store.records) + int_of credential.request_amount
          ≤ cumulative_of (lookup key w'.store.records)
    unfolding first_voucher
    first_voucher-paid id key r created w {w'} {p} s ek pos h =
        let voucher : ltb 0 (int_of credential.amount) ≡ true = ground (arith, pos) in
        bind-inv (others c (env.turn advancing)) _ (rw voucher at h) λ _ w1 e1 h.
          bind-inv
            (catching store_to_service (on_store (Store.advance (open_call c credential env id) 0)))
            _ h
            λ result w2 e2 h.
              let safe1 : IsSafe w.store w1.store =
                at_end (others c (env.turn advancing)) w
                  (turn-IsSafe c credential env turns advancing) s e1 in
              let (returned, left) =
                on_store-returned store_to_service (Store.advance (open_call c credential env id) 0)
                  w1 e2 in
              let (adv, same) = must_advance-returned result result.status w2 h in
              let rise : cumulative_of (lookup key w1.store.records)
                    + int_of credential.request_amount
                  ≤ cumulative_of (lookup key w2.store.records) =
                subst
                  (λ t.
                    cumulative_of (lookup key w1.store.records) + int_of credential.request_amount
                    ≤ cumulative_of (lookup key t.records))
                  left
                  (advance-paid (open_call c credential env id) 0 w1.store key safe1.0 ek
                    (rw returned adv)) in
              let same_end = ap (λ t. cumulative_of (lookup key t.store.records)) same in
              omega (arith, rise, Keeps-cumulative key safe1.1, same_end)

    record_channel-paid :
        (key funded : Text) (submitted : OpenChannelSubmission) (w : World) {w' : World}
        {out : PayChannelVerificationResult}
        → IsStore w.store
        → channel_key c.network (upper submitted.channel_id) ≡ ok key
        → 0 < int_of credential.amount
        → record_channel c credential env funded submitted w ≡ (ok out, w')
        → cumulative_of (lookup key w.store.records) + int_of credential.request_amount
          ≤ cumulative_of (lookup key w'.store.records)
    unfolding record_channel
    record_channel-paid key funded submitted w {w'} {out} s ek pos h =
        let id = upper submitted.channel_id in
        bind-inv (others c (env.turn looking)) _ h λ _ w1 e1 h.
          bind-inv (registered_open c credential env id funded) _ h λ p w2 e2 h.
            bind-inv (lift (assert_record_binding c (p.0) id credential.request_recipient)) _ h
              λ _ w3 e3 h. bind-inv (raise_service _ _) _ h λ _ w4 e4 h.
                bind-inv (first_voucher c credential env id (p.0) (p.1)) _ h λ q w5 e5 h.
                  let safe1 : IsSafe w.store w1.store =
                    at_end (others c (env.turn looking)) w
                      (turn-IsSafe c credential env turns looking) s e1 in
                  let safe2 : IsSafe w1.store w2.store =
                    at_end (registered_open c credential env id funded) w1
                      (registered_open-IsSafeAction c credential env turns id funded) safe1.0 e2 in
                  let same3 : w3 ≡ w2 = sym (ap (λ x. x.1) e3) in
                  let (_, same4) = raise_service-returned _ _ w3 e4 in
                  let same : w4 ≡ w2 = same4 ∙ same3 in
                  let rise = first_voucher-paid id key (p.0) (p.1) w4 (rw same safe2.0) ek pos e5 in
                  let same_start = ap (λ t. cumulative_of (lookup key t.store.records)) same in
                  let same_end = ap (λ x. cumulative_of (lookup key x.1.store.records)) h in
                  omega (
                    arith,
                    rise,
                    Keeps-cumulative key safe1.1,
                    Keeps-cumulative key safe2.1,
                    same_start,
                    same_end,
                  )

    -- Let the stored records and what others do meanwhile be valid. Where the open action returns, the
    -- transaction's funding covers the amount, the amount covers what the challenge asked for, the
    -- submission has returned a valid channel, and a positive amount was signed for on that channel,
    -- under the service's key, and has raised that channel's stored cumulative amount by at least what
    -- the challenge asked for.
    pub verify_open-paid :
        (w w' : World) (out : PayChannelVerificationResult)
        → IsStore w.store
        → verify_open c credential env w ≡ (ok out, w')
        → (funded : Text) × (submitted : OpenChannelSubmission) × (env.decoded ≡ ok funded)
          × (submission_of env.submitted ≡ ok submitted)
          × (int_of credential.request_amount ≤ int_of credential.amount)
          × (int_of credential.amount ≤ int_of funded)
          × (0 < int_of credential.amount
              → env.verifier
                  (upper submitted.channel_id)
                  credential.amount
                  credential.signature
                  c.public_key
                ≡ ok true)
          × ((key : Text)
              → channel_key c.network (upper submitted.channel_id) ≡ ok key
              → 0 < int_of credential.amount
              → cumulative_of (lookup key w.store.records) + int_of credential.request_amount
                ≤ cumulative_of (lookup key w'.store.records))
    unfolding verify_open
    verify_open-paid w w' out s h = bind-inv (open_channel c credential env) _ h λ p v e h.
        let (decoded, submitted, enough, within, signed) = open_channel-returned w (p.0) (p.1) e in
        let safe : IsSafe w.store v.store =
          at_end (open_channel c credential env) w
            (open_channel-IsSafeAction c credential env turns) s e in
        (
          p.0,
          p.1,
          decoded,
          submitted,
          enough,
          within,
          signed,
          λ key ek pos. omega (
            arith,
            record_channel-paid key (p.0) (p.1) v safe.0 ek pos h,
            Keeps-cumulative key safe.1,
          ),
        )
