-- ===== src/PayChannel/Store/Lease.antt =====
-- Redemption leases: `claim_redemption` and `release_redemption`, among other calls.
use xrpl_mpp_stack.Prelude.{
  ℕ, ◌+◌, ◌*◌, ◌<◌, ◌≡◌, refl, ap, ◌∙◌, false, none, some, List, [], ◌∷◌, arith, ltb, ◌==◌, Result,
  Error, ok, err, Bool-cases, Result-cases, inl, inr, if◌then◌else◌,
}
use xrpl_mpp_stack.Text.{Text, text_eq}
use xrpl_mpp_stack.Text.Laws.{text_eq→eq}
use xrpl_mpp_stack.Schema.{Network}
use xrpl_mpp_stack.Dict.{lookup, lookup-insert_self, lookup-insert_ne, lookup-erase}
use xrpl_mpp_stack.PayChannel.Key.{channel_key, redemption_lease_key}
use xrpl_mpp_stack.PayChannel.Mutations.{
  Mutation, MutationResult, create_callback, advance_mutation, redeem_mutation, finalize_mutation,
}
use xrpl_mpp_stack.HighWater.{time_of}
use xrpl_mpp_stack.PayChannel.Store
use xrpl_mpp_stack.PayChannel.Store.{
  PayChannelStore, commit, mutate, mutate_checked, claim_redemption, claim_under,
  release_redemption, release_under, is_held, is_owner,
}
use xrpl_mpp_stack.PayChannel.Store.Calls.{Call, apply, run}

-- The lease at a key.
abbrev pub Holds : PayChannelStore → Text → Text → ℕ → Type 0
Holds s key id expires = lookup key s.redemption_leases ≡ some (id, expires)

-- Calls that are no claim after the expiry and no release by the holder.
abbrev pub IsForeign : Text → ℕ → Call → Type 0
IsForeign id expires (Call.create r) = Unit {0}
IsForeign id expires (Call.advance call clock) = Unit {0}
IsForeign id expires (Call.mark_redeemed n c a r t clock) = Unit {0}
IsForeign id expires (Call.finalize n c a e t clock) = Unit {0}
IsForeign id expires (Call.claim_redemption n c l now other) = now < expires
IsForeign id expires (Call.release_redemption n c other) = text_eq id other ≡ false

abbrev pub AreForeign : Text → ℕ → List Call → Type 0
AreForeign id expires [] = Unit {0}
AreForeign id expires (c ∷ cs) = IsForeign id expires c × AreForeign id expires cs

commit-leases :
    {A : Type 0} (key : Text) (m : MutationResult A) (s : PayChannelStore)
    → (commit key m s).1.redemption_leases ≡ s.redemption_leases
unfolding commit
commit-leases key (err e) s = refl
commit-leases key (ok (r, none)) s = refl
commit-leases key (ok (r, some b)) s = refl

mutate_checked-leases :
    {A : Type 0} (key : Result Text) (m : Result (Mutation A)) (s : PayChannelStore)
    → (mutate_checked key m s).1.redemption_leases ≡ s.redemption_leases
unfolding mutate_checked mutate
mutate_checked-leases (err e) m s = refl
mutate_checked-leases (ok key) (err e) s = refl
mutate_checked-leases (ok key) (ok f) s = commit-leases key (f (lookup key s.records)) s

claim_under-Holds :
    (key other id new : Text) (expires lease now : ℕ) (s : PayChannelStore)
    → now < expires
    → Holds s key id expires
    → Holds (claim_under other lease now new s).1 key id expires
unfolding claim_under
claim_under-Holds key other id new expires lease now s lt h =
    elim (Bool-cases (text_eq other key)) [
      | inl e ↦ rw (text_eq→eq other key e, h) (ground arith)
      | inr e ↦ elim (Bool-cases (is_held (lookup other s.redemption_leases) now)) [
        | inl held ↦ rw held h
        | inr free ↦ rw free (lookup-insert_ne other key _ s.redemption_leases e ∙ h)
      ]
    ]

release_under-Holds :
    (key other id by : Text) (expires : ℕ) (s : PayChannelStore)
    → text_eq id by ≡ false
    → Holds s key id expires
    → Holds (release_under other by s).1 key id expires
unfolding release_under
release_under-Holds key other id by expires s ne h = elim (Bool-cases (text_eq other key)) [
  | inl e ↦ rw (text_eq→eq other key e, h) (ground arith)
  | inr e ↦ elim (Bool-cases (is_owner (lookup other s.redemption_leases) by)) [
    | inl own ↦ rw own (ground (arith, lookup-erase other key s.redemption_leases))
    | inr free ↦ rw free h
  ]
]

claim-Holds :
    (n : Network) (c key id new : Text) (expires lease now : ℕ) (s : PayChannelStore)
    → now < expires
    → Holds s key id expires
    → Holds (claim_redemption n c lease now new s).1 key id expires
unfolding claim_redemption
claim-Holds n c key id new expires lease now s lt h = elim (Bool-cases (lease == 0)) [
  | inl z ↦ rw z h
  | inr p ↦ elim (Result-cases (redemption_lease_key n c)) [
    | inl (k, e) ↦ rw (p, e) (claim_under-Holds key k id new expires lease now s lt h)
    | inr (x, e) ↦ rw (p, e) h
  ]
]

release-Holds :
    (n : Network) (c key id by : Text) (expires : ℕ) (s : PayChannelStore)
    → text_eq id by ≡ false
    → Holds s key id expires
    → Holds (release_redemption n c by s).1 key id expires
unfolding release_redemption
release-Holds n c key id by expires s ne h = elim (Result-cases (redemption_lease_key n c)) [
  | inl (k, e) ↦ rw (e, release_redemption) (release_under-Holds key k id by expires s ne h)
  | inr (x, e) ↦ rw (e, release_redemption) h
]

apply-Holds :
    (key id : Text) (expires : ℕ) (c : Call) (s : PayChannelStore)
    → IsForeign id expires c
    → Holds s key id expires
    → Holds (apply c s) key id expires
unfolding apply Store.create Store.advance Store.mark_redeemed Store.finalize
apply-Holds key id expires (Call.create r) s f h =
    ap (lookup key)
      (mutate_checked-leases (channel_key r.network r.channel_id) (ok (create_callback r)) s)
    ∙ h
apply-Holds key id expires (Call.advance call clock) s f h =
    ap (lookup key) (
      mutate_checked-leases (channel_key call.network call.channel_id)
        (advance_mutation call.network call.channel_id call.cumulative call.requested call.signature
          call.funded (time_of call.timestamp clock))
        s)
    ∙ h
apply-Holds key id expires (Call.mark_redeemed n c a r t clock) s f h =
    ap (lookup key)
      (mutate_checked-leases (channel_key n c) (redeem_mutation n c a r (time_of t clock)) s)
    ∙ h
apply-Holds key id expires (Call.finalize n c a e t clock) s f h =
    ap (lookup key)
      (mutate_checked-leases (channel_key n c) (finalize_mutation n c a e (time_of t clock)) s)
    ∙ h
apply-Holds key id expires (Call.claim_redemption n c l now new) s f h =
    claim-Holds n c key id new expires l now s f h
apply-Holds key id expires (Call.release_redemption n c by) s f h =
    release-Holds n c key id by expires s f h

run-Holds :
    (key id : Text) (expires : ℕ) (cs : List Call) (s : PayChannelStore)
    → AreForeign id expires cs
    → Holds s key id expires
    → Holds (run cs s) key id expires
unfolding run
run-Holds key id expires [] s f h = h
run-Holds key id expires (c ∷ cs) s f h =
    run-Holds key id expires cs (apply c s) f.1 (apply-Holds key id expires c s f.0 h)

claimed :
    (n : Network) (c key id : Text) (lease now : ℕ) (s : PayChannelStore)
    → redemption_lease_key n c ≡ ok key
    → (claim_redemption n c lease now id s).0 ≡ ok (some id)
    → Holds (claim_redemption n c lease now id s).1 key id (now + lease * 1000)
unfolding claim_redemption claim_under
claimed n c key id lease now s ek h = elim (Bool-cases (lease == 0)) [
  | inl z ↦ absurd (refused (rw z at h))
  | inr p ↦ elim (Bool-cases (is_held (lookup key s.redemption_leases) now)) [
    | inl held ↦ absurd (busy (rw (p, ek, held) at h))
    | inr free ↦ rw (p, ek, free) (lookup-insert_self key _ s.redemption_leases)
  ]
]
  where
    refused : {x : Error} → err x ≡ ok (some id) → ⊥
    refused h = cc

    busy : ok none ≡ ok (some id) → ⊥
    busy h = cc

later :
    (n : Network) (c key id other : Text) (expires lease now : ℕ) (t : PayChannelStore)
    → redemption_lease_key n c ≡ ok key
    → Holds t key id expires
    → 0 < lease
    → (claim_redemption n c lease now other t).0
      ≡ (if ltb now expires then ok none else ok (some other))
unfolding claim_redemption claim_under
later n c key id other expires lease now t ek h p = rw (ek, h) (ground arith)

-- Let a redemption lease on a channel have been granted. Whatever calls follow, provided that each
-- claim among them comes before its expiry and none releases it under its identifier, a further
-- claim with a positive duration is refused at any time before the expiry and granted from the
-- expiry on.
pub lease_exclusive :
    (n : Network) (c key id other : Text) (lease now lease' now' : ℕ) (cs : List Call)
    (s : PayChannelStore)
    → redemption_lease_key n c ≡ ok key
    → (claim_redemption n c lease now id s).0 ≡ ok (some id)
    → AreForeign id (now + lease * 1000) cs
    → 0 < lease'
    → (claim_redemption n c lease' now' other (run cs (claim_redemption n c lease now id s).1)).0
      ≡ (if ltb now' (now + lease * 1000) then ok none else ok (some other))
lease_exclusive n c key id other lease now lease' now' cs s ek h f p =
    let t : PayChannelStore = run cs (claim_redemption n c lease now id s).1 in
    let held : Holds t key id (now + lease * 1000) =
      run-Holds key id (now + lease * 1000) cs _ f (claimed n c key id lease now s ek h) in
    later n c key id other (now + lease * 1000) lease' now' t ek held p
