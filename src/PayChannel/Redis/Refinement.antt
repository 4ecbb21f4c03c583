-- ===== src/PayChannel/Redis/Refinement.antt =====
-- `RedisPayChannelStore._mutate` and `advance`, beside the in-memory store.
use xrpl_mpp_stack.Prelude.{
  ℕ, ◌≡◌, refl, ap, subst, true, Option, none, some, List, [], ◌∷◌, Error, Result, ok, err,
  Bool-cases, Result-cases, inl, inr,
}
use xrpl_mpp_stack.Text.{Text, text_eq}
use xrpl_mpp_stack.Dict.{Dict, lookup, lookup-insert}
use xrpl_mpp_stack.Optimistic.{
  Interference, AreWatched, IsMet, atomically, optimistic-linearizes, optimistic-returns, has_quiet,
}
use xrpl_mpp_stack.HighWater.{time_of}
use xrpl_mpp_stack.PayChannel.Record.{PayChannelRecord}
use xrpl_mpp_stack.PayChannel.Record.Laws.{IsRecord}
use xrpl_mpp_stack.PayChannel.Key.{channel_key}
use xrpl_mpp_stack.PayChannel.Mutations.{
  Mutation, MutationResult, PayChannelAdvanceResult, advance_mutation,
}
use xrpl_mpp_stack.PayChannel.Store
use xrpl_mpp_stack.PayChannel.Store.{PayChannelStore, commit, mutate, mutate_checked, AdvanceCall}
use xrpl_mpp_stack.PayChannel.Store.Invariant.{IsStore, IsWriteAt}
use xrpl_mpp_stack.PayChannel.Store.Methods.{
  IsContract, contract-IsWriteAt, advance_mutation-IsContract,
}
use xrpl_mpp_stack.PayChannel.Redis.{
  Codec, deserialize, queue, on_current, mutate_body, redis_mutate, redis_advance,
}

module _ (codec : Codec) where
  open codec use {Raw, model_dump_json, model_validate_json, round_trip}

  -- The serialized state stands for a store: every key reads back as what the store has there.
  pub record Represents (d : Dict Raw) (s : PayChannelStore) : Type 0 where
    pub at : (key : Text) → deserialize codec (lookup key d) ≡ ok (lookup key s.records)

  written_validity :
      (key : Text) (o : Option PayChannelRecord) (b : PayChannelRecord)
      → IsWriteAt key o (some b)
      → IsRecord b
  written_validity key none b w = w.0
  written_validity key (some a) b w = w.0

  queue-refines :
      {A : Type 0} (key : Text) (m : MutationResult A) (d : Dict Raw) (s : PayChannelStore)
      → Represents d s
      → ((x : A × Option PayChannelRecord) → m ≡ ok x → IsWriteAt key (lookup key s.records) x.1)
      → ((atomically (queue codec key m) d).0 ≡ (commit key m s).0)
        × Represents (atomically (queue codec key m) d).1 (commit key m s).1
  unfolding queue commit atomically deserialize
  queue-refines key (err e) d s r w = (refl, r)
  queue-refines key (ok (x, none)) d s r w = (refl, r)
  queue-refines key (ok (x, some b)) d s r w = (
    refl,
    record {
      at = λ k. elim (Bool-cases (text_eq key k)) [
        | inl e ↦
            rw (lookup-insert key k b s.records, lookup-insert key k (model_dump_json b) d, e)
              (rw
                (round_trip b (written_validity key (lookup key s.records) b (w (x, some b) refl))))
        | inr e ↦
            rw (lookup-insert key k b s.records, lookup-insert key k (model_dump_json b) d, e)
              (r.at k)
      ];
    },
  )

  -- One atomic round is the in-memory `_mutate`.
  pub mutate_body-refines :
      {A : Type 0} (key : Text) (f : Mutation A) (d : Dict Raw) (s : PayChannelStore)
      → Represents d s
      → IsStore s
      → IsContract f
      → ((atomically (mutate_body codec key f d) d).0 ≡ (mutate key f s).0)
        × Represents (atomically (mutate_body codec key f d) d).1 (mutate key f s).1
  unfolding mutate_body mutate
  mutate_body-refines key f d s r w k = rw (r.at key) (
      queue-refines key (f (lookup key s.records)) d s r
        (λ x h. contract-IsWriteAt key f (lookup key s.records) x k (λ a e. (w.at key a e).0) h))

  -- What a call of the Redis store shows of one of the states that it met.
  abbrev IsAtomicAdvance :
      AdvanceCall → ℕ → Dict Raw → Result PayChannelAdvanceResult × Dict Raw → Type 0
  IsAtomicAdvance call clock at out =
      (s : PayChannelStore)
      → Represents at s
      → IsStore s
      → (out.0 ≡ (Store.advance call clock s).0) × Represents out.1 (Store.advance call clock s).1

  started : (is : List (Interference Raw)) (d : Dict Raw) → IsMet d is d
  started [] d = refl
  started (i ∷ is) d = inl refl

  redis_advance-atomic :
      (rounds : List (Interference Raw)) (call : AdvanceCall) (clock : ℕ) (key : Text)
      (d : Dict Raw) (out : Result PayChannelAdvanceResult × Dict Raw)
      → channel_key call.network call.channel_id ≡ ok key
      → AreWatched (key ∷ []) rounds
      → redis_advance codec rounds call clock d ≡ some out
      → (at : Dict Raw) × IsMet d rounds at × IsAtomicAdvance call clock at out
  unfolding redis_advance redis_mutate Store.advance mutate_body
  redis_advance-atomic rounds call clock key d out ek w h =
      let m : Result (Mutation PayChannelAdvanceResult) =
        advance_mutation call.network call.channel_id call.cumulative call.requested call.signature
          call.funded (time_of call.timestamp clock) in
      elim (Result-cases m) [
        | inl (f, em) ↦
            let (at, met, same) =
              optimistic-linearizes (key ∷ []) (mutate_body codec key f) rounds d out
                (λ x y q. ap (λ o. queue codec key (on_current codec f (deserialize codec o))) q.0)
                w (rw (ek, em) at h) in
            (
              at,
              met,
              λ s r v.
                  rw (ek, em, same)
                    (mutate_body-refines key f at s r v
                      (advance_mutation-IsContract call (time_of call.timestamp clock) f em)),
            )
        | inr (x, em) ↦ (
          d,
          started rounds d,
          λ s r v.
              rw (ek, em)
                (subst
                  (λ (o : Result PayChannelAdvanceResult × Dict Raw).
                    (o.0 ≡ err x) × Represents o.1 s)
                  (raised x (rw (ek, em) at h)) (refl, r)),
        )
      ]
    where
      raised : (x : Error) → some (err x, d) ≡ some out → (err x, d) ≡ out
      raised x h = cc

  -- Let the voucher's channel have a key, let WATCH report every round that touched it, and let
  -- every serialized state that the Redis store's advance meets between its rounds stand for a store
  -- that satisfies the invariant. Then a call that returns has the result of the in-memory advance
  -- on the store of one of these states, and leaves a state that stands for what the in-memory call
  -- leaves.
  pub redis_advance-refines :
      (rounds : List (Interference Raw)) (call : AdvanceCall) (clock : ℕ) (key : Text)
      (d : Dict Raw) (out : Result PayChannelAdvanceResult × Dict Raw)
      (view : Dict Raw → PayChannelStore)
      → channel_key call.network call.channel_id ≡ ok key
      → AreWatched (key ∷ []) rounds
      → ((at : Dict Raw) → IsMet d rounds at → Represents at (view at) × IsStore (view at))
      → redis_advance codec rounds call clock d ≡ some out
      → (at : Dict Raw) × IsMet d rounds at
        × (out.0 ≡ (Store.advance call clock (view at)).0)
        × Represents out.1 (Store.advance call clock (view at)).1
  redis_advance-refines rounds call clock key d out view ek w reads h =
      let (at, met, same) = redis_advance-atomic rounds call clock key d out ek w h in
      let (r, v) = reads at met in
      let (results, states) = same (view at) r v in (at, met, results, states)

  redis_advance-returns :
      (rounds : List (Interference Raw)) (call : AdvanceCall) (clock : ℕ) (d : Dict Raw)
      → has_quiet rounds ≡ true
      → (out : Result PayChannelAdvanceResult × Dict Raw) × (redis_advance codec rounds call clock d
          ≡ some out)
  unfolding redis_advance redis_mutate
  redis_advance-returns rounds call clock d h =
      elim (Result-cases (channel_key call.network call.channel_id)) [
        | inl (key, ek) ↦
            elim (Result-cases (
              advance_mutation call.network call.channel_id call.cumulative call.requested
                call.signature call.funded (time_of call.timestamp clock))) [
                  | inl (f, em) ↦
                      rw (ek, em)
                        (optimistic-returns (key ∷ []) (mutate_body codec key f) rounds d h)
                  | inr (x, em) ↦ ((err x, d), rw (ek, em))
                ]
        | inr (x, ek) ↦ ((err x, d), rw ek)
      ]

  -- Let the voucher's channel have a key, let WATCH report every round that touched it, and let
  -- every serialized state that the Redis store's advance meets between its rounds stand for a store
  -- that satisfies the invariant. If one of the rounds that it may take meets no conflict, then,
  -- however many before it do, the call returns or raises what the in-memory advance does on the
  -- store of one of these states, and leaves a state that stands for what the in-memory call leaves.
  pub redis_advance-settles :
      (rounds : List (Interference Raw)) (call : AdvanceCall) (clock : ℕ) (key : Text)
      (d : Dict Raw) (view : Dict Raw → PayChannelStore)
      → channel_key call.network call.channel_id ≡ ok key
      → AreWatched (key ∷ []) rounds
      → ((at : Dict Raw) → IsMet d rounds at → Represents at (view at) × IsStore (view at))
      → has_quiet rounds ≡ true
      → (out : Result PayChannelAdvanceResult × Dict Raw) × (at : Dict Raw) × (redis_advance codec
            rounds call clock d
          ≡ some out)
        × IsMet d rounds at
        × (out.0 ≡ (Store.advance call clock (view at)).0)
        × Represents out.1 (Store.advance call clock (view at)).1
  redis_advance-settles rounds call clock key d view ek w reads quiet =
      let (out, e) = redis_advance-returns rounds call clock d quiet in
      let (at, met, results, states) =
        redis_advance-refines rounds call clock key d out view ek w reads e in
      (out, at, e, met, results, states)
