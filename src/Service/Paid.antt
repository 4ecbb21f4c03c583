-- ===== src/Service/Paid.antt =====
-- The payment of a verified voucher or close.
use xrpl_mpp_stack.Prelude.{
  ◌+◌, ◌≤◌, ◌≡◌, refl, sym, ap, ◌∙◌, subst, Bool, true, false, ◌&&◌, not, Option, arith, Result, ok,
  err, Error, >>=-inv, ok_injective, Bool-cases, inl, inr,
}
use xrpl_mpp_stack.Text.{Text}
use xrpl_mpp_stack.Text.Decimal.{int_of}
use xrpl_mpp_stack.Schema.{
  is_channel_id, is_classic_address, is_drops, text_field, optional_text_field,
}
use xrpl_mpp_stack.Dict.{lookup}
use xrpl_mpp_stack.HighWater.{Status, advanced, replay, regressed, short, is_advanced}
use xrpl_mpp_stack.PayChannel.Key.{channel_key}
use xrpl_mpp_stack.PayChannel.Mutations.{PayChannelAdvanceResult}
use xrpl_mpp_stack.PayChannel.Record.{PayChannelRecord}
use xrpl_mpp_stack.PayChannel.Store
use xrpl_mpp_stack.PayChannel.Store.{Method}
use xrpl_mpp_stack.PayChannel.Store.Invariant.{IsStore, IsSafe}
use xrpl_mpp_stack.PayChannel.Store.Methods.{advance-IsSafe}
use xrpl_mpp_stack.PayChannel.Store.Accounting.{cumulative_of, Keeps-cumulative, advance-paid}
use xrpl_mpp_stack.Service.World.{
  World, Action, on_store, store_to_service, rewrap, catching, bind-inv,
}
use xrpl_mpp_stack.Service.Steps.{
  Config, Credential, ActionKind, voucher, close, Environment, advancing, others,
}
use xrpl_mpp_stack.Service.Claim.{channel, accepted, concluded, advance_call}
use xrpl_mpp_stack.Service.Reply.{PayChannelVerificationResult, verification_result}
use xrpl_mpp_stack.Service.Verify.{settle_action, authenticate, verify_claim_action, reply}
use xrpl_mpp_stack.Service.Safe.{
  IsEnvironment, IsSafeAction, authenticate-IsSafeAction, others-IsSafeAction,
  concluded-IsSafeAction,
}

verification_result-replayed :
    (r : PayChannelVerificationResult) {out : PayChannelVerificationResult}
    → verification_result r ≡ ok out
    → out.replayed ≡ r.replayed
unfolding verification_result
verification_result-replayed r h = >>=-inv (text_field is_classic_address r.payer) _ h λ _ _ h.
    >>=-inv (text_field is_classic_address r.recipient) _ h λ _ _ h.
      >>=-inv (text_field is_channel_id r.channel_id) _ h λ _ _ h.
        >>=-inv (text_field is_drops r.cumulative) _ h λ _ _ h.
          >>=-inv (text_field is_drops r.previous) _ h λ _ _ h.
            >>=-inv (optional_text_field is_channel_id r.tx_hash) _ h
              λ _ _ h. sym (ap (λ x. x.replayed) (ok_injective h))

-- A method's call that returned.
pub on_store-returned :
    {A : Type 0} (g : Error → Error) (m : Method A) (w : World) {v : World} {a : A}
    → catching g (on_store m) w ≡ (ok a, v)
    → ((m w.store).0 ≡ ok a) × ((m w.store).1 ≡ v.store)
unfolding catching on_store
on_store-returned g m w {v} {a} h = (answer (m w.store).0 (ap (λ x. x.0) h), ap (λ x. x.1.store) h)
  where
    answer : (r : Result _) → rewrap g r ≡ ok a → r ≡ ok a
    answer (ok b) e = e
    answer (err x) e = absurd (cc)

pub err_ne_ok : {A : Type 0} {x : Error} {a : A} → err x ≡ ok a → ⊥
err_ne_ok h = cc

pub at_end :
    {A : Type 0} (m : Action A) (w : World) {x : Result A × World}
    → IsSafeAction m
    → IsStore w.store
    → m w ≡ x
    → IsSafe w.store x.1.store
at_end m w sm s e = subst (λ x. IsSafe w.store x.1.store) e (sm w s)

module _ (c : Config) (credential : Credential) (env : Environment) where
  accepted-advanced :
      (kind : ActionKind) (result : PayChannelAdvanceResult) (s : Status) (w : World) {v : World}
      (taken : PayChannelRecord) (b : Bool)
      → accepted c credential env kind result s w ≡ (ok (taken, b), v)
      → b ≡ false
      → (is_advanced s ≡ true) × (v ≡ w)
  accepted-advanced kind result advanced w t b h f = (refl, sym (ap (λ x. x.1) h))
  accepted-advanced close result replay w t b h f =
      elim (Bool-cases (result.exact_replay && not result.record_of.finalized)) [
        | inl e ↦ absurd (not_replayed (ap (λ x. x.0) (rw e at h)))
        | inr e ↦ absurd (raised (ap (λ x. x.0) (rw e at h)))
      ]
    where
      claimed : PayChannelRecord × Bool
      claimed = (result.record_of, true)

      answered : PayChannelRecord × Bool
      answered = (t, b)

      not_replayed : ok claimed ≡ ok answered → ⊥
      not_replayed q = cc

      raised : {x : Error} → err x ≡ ok answered → ⊥
      raised q = cc
  accepted-advanced voucher result replay w t b h f = absurd (err_ne_ok (ap (λ x. x.0) h))
  accepted-advanced kind result regressed w t b h f = absurd (err_ne_ok (ap (λ x. x.0) h))
  accepted-advanced kind result short w t b h f = absurd (err_ne_ok (ap (λ x. x.0) h))

  settle_action-paid :
      (funded : Option Text) (key : Text) (w : World) {w' : World}
      {out : PayChannelVerificationResult}
      → IsEnvironment env
      → IsStore w.store
      → channel_key c.network (channel c credential env) ≡ ok key
      → settle_action c credential env funded w ≡ (ok out, w')
      → out.replayed ≡ false
      → cumulative_of (lookup key w.store.records) + int_of credential.request_amount
        ≤ cumulative_of (lookup key w'.store.records)
  unfolding settle_action
  settle_action-paid funded key w {w'} {out} ie s ek h fresh =
      bind-inv (others c (env.turn advancing)) _ h λ _ w1 e1 h.
        bind-inv
          (catching store_to_service
            (on_store (Store.advance (advance_call c credential env funded) 0)))
          _ h
          λ result w2 e2 h.
            bind-inv (accepted c credential env credential.action result result.status) _ h
              λ p w3 e3 h.
                bind-inv (concluded c credential env credential.action p.0) _ h λ q w4 e4 h.
                  let safe1 : IsSafe w.store w1.store =
                    at_end (others c (env.turn advancing)) w
                      (others-IsSafeAction c credential env ie advancing) s e1 in
                  let (returned, left) =
                    on_store-returned store_to_service
                      (Store.advance (advance_call c credential env funded) 0) w1 e2 in
                  let replayed : p.1 ≡ false =
                    sym (
                      verification_result-replayed (reply c credential env q.0 result p.1 q.1)
                        (ap (λ x. x.0) h))
                    ∙ fresh in
                  let (adv, same) =
                    accepted-advanced credential.action result result.status w2 p.0 p.1 e3
                      replayed in
                  let safe2 : IsSafe w1.store w2.store =
                    subst (λ t. IsSafe w1.store t) left
                      (advance-IsSafe (advance_call c credential env funded) 0 w1.store safe1.0) in
                  let safe3 : IsSafe w3.store w4.store =
                    at_end (concluded c credential env credential.action p.0) w3
                      (concluded-IsSafeAction c credential env ie credential.action p.0)
                      (rw same safe2.0) e4 in
                  let rise : cumulative_of (lookup key w1.store.records)
                        + int_of credential.request_amount
                      ≤ cumulative_of (lookup key w2.store.records) =
                    subst
                      (λ t.
                        cumulative_of (lookup key w1.store.records)
                          + int_of credential.request_amount
                        ≤ cumulative_of (lookup key t.records))
                      left
                      (advance-paid (advance_call c credential env funded) 0 w1.store key safe1.0 ek
                        (rw returned adv)) in
                  let same_end : cumulative_of (lookup key w4.store.records)
                      ≡ cumulative_of (lookup key w'.store.records) =
                    ap (λ x. cumulative_of (lookup key x.1.store.records)) h in
                  let same_mid : cumulative_of (lookup key w3.store.records)
                      ≡ cumulative_of (lookup key w2.store.records) =
                    ap (λ t. cumulative_of (lookup key t.store.records)) same in
                  omega (
                    arith,
                    rise,
                    Keeps-cumulative key safe1.1,
                    Keeps-cumulative key safe3.1,
                    same_end,
                    same_mid,
                  )

  -- Let the stored records and what others do meanwhile be valid. Where the claim action returns a
  -- result that is no replay, the cumulative amount of its channel has risen, from the start of the
  -- action to its end, by at least the amount that the challenge asked for.
  pub verify_claim_action-paid :
      (key : Text) (w w' : World) (out : PayChannelVerificationResult)
      → IsEnvironment env
      → IsStore w.store
      → channel_key c.network (channel c credential env) ≡ ok key
      → verify_claim_action c credential env w ≡ (ok out, w')
      → out.replayed ≡ false
      → cumulative_of (lookup key w.store.records) + int_of credential.request_amount
        ≤ cumulative_of (lookup key w'.store.records)
  unfolding verify_claim_action
  verify_claim_action-paid key w w' out ie s ek h fresh =
      bind-inv (authenticate c credential env) _ h λ funded v e h.
        let safe : IsSafe w.store v.store =
          at_end (authenticate c credential env) w (authenticate-IsSafeAction c credential env ie) s
            e in
        omega
          (arith, settle_action-paid funded key v ie safe.0 ek h fresh, Keeps-cumulative key safe.1)
