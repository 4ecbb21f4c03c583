-- ===== src/Service/Verify.antt =====
-- The whole of `_verify_claim_action`.
use xrpl_mpp_stack.Prelude.{Bool, Option, none, some, ◌∷◌, ◌++◌, channel_finalized}
use xrpl_mpp_stack.Text.{Text, codes, upper}
use xrpl_mpp_stack.PayChannel.Record.{PayChannelRecord}
use xrpl_mpp_stack.PayChannel.Mutations.{PayChannelAdvanceResult}
use xrpl_mpp_stack.PayChannel.Store
use xrpl_mpp_stack.Service.World.{
  Action, pure, lift, ◌>>=◌, ◌>>◌, on_store, store_to_service, catching,
}
use xrpl_mpp_stack.Service.Steps.{
  Config, Credential, Environment, looking, claiming, advancing, others, claim_challenge_step,
  assert_record_binding,
}
use xrpl_mpp_stack.Service.Signature.{verify_claim_signature}
use xrpl_mpp_stack.Service.Reply.{PayChannelVerificationResult, verification_result, action_name}
use xrpl_mpp_stack.Service.Claim.{
  raise_service, channel, registered, ledger_checked, accepted, concluded, advance_call,
}

-- `tx_hash.upper() if tx_hash else None`
abbrev pub upper_hash : Option Text → Option Text
upper_hash (some (t ∷ ts)) = some (upper (t ∷ ts))
upper_hash _ = none

module _ (c : Config) (credential : Credential) (env : Environment) where
  abbrev pub id : Text
  id = channel c credential env

  abbrev pub reply :
      PayChannelRecord → PayChannelAdvanceResult → Bool → Option Text → PayChannelVerificationResult
  reply final advance replayed tx_hash = record {
    action = action_name credential.action;
    challenge_id = credential.challenge_id;
    network = c.network;
    payer = c.payer;
    recipient = c.recipient;
    channel_id = id;
    cumulative = final.cumulative;
    previous = advance.previous;
    reference = id ++ (codes ":" ++ final.cumulative);
    replayed = replayed;
    finalized = final.finalized;
    tx_hash = upper_hash tx_hash;
  }

  -- From the advance on: what the action does with an authenticated credential.
  unfoldable pub settle_action : Option Text → Action PayChannelVerificationResult
  settle_action funded = do
    others c (env.turn advancing)
    advance ←
        catching store_to_service
          (on_store (Store.advance (advance_call c credential env funded) 0))
    (taken, replayed) ← accepted c credential env credential.action advance advance.status
    (final, tx_hash) ← concluded c credential env credential.action taken
    lift (verification_result (reply final advance replayed tx_hash))

  -- The proofs of the credential, and the claim of its challenge.
  unfoldable pub authenticate : Action (Option Text)
  authenticate = do
    others c (env.turn looking)
    found ← catching store_to_service (on_store (Store.get c.network id))
    r ← registered c credential env found env.loaded
    lift (assert_record_binding c r id credential.request_recipient)
    raise_service r.finalized channel_finalized
    lift
        (verify_claim_signature env.verifier id credential.amount credential.signature c.public_key)
    funded ← ledger_checked c credential env env.funding
    others c (env.turn claiming)
    claim_challenge_step c credential env.now env.tick
    pure funded

  -- `_verify_claim_action`
  unfoldable pub verify_claim_action : Action PayChannelVerificationResult
  unfolding authenticate settle_action
  verify_claim_action = do funded ← authenticate; settle_action funded
