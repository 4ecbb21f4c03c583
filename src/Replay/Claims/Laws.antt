-- ===== src/Replay/Claims/Laws.antt =====
-- Lemmas on `InMemoryChallengeReplayStore.claim_challenge`, and sequences of claims.
use xrpl_mpp_stack.Prelude.{
  ℕ, ◌≡◌, refl, ◌∙◌, subst, Bool, true, false, Option, none, some, List, [], ◌∷◌, arith, is_some,
  is_none, Result, ok, Bool-cases, Result-cases, inl, inr, if◌then◌else◌,
}
use xrpl_mpp_stack.Text.{Text, text_eq}
use xrpl_mpp_stack.Text.Laws.{text_eq_iff, text_eq→eq}
use xrpl_mpp_stack.Dict.{Dict, lookup, insert, lookup-insert_self, lookup-insert_ne}
use xrpl_mpp_stack.Replay.Claims.{
  validate_retention, is_expired, purge, challenge_key, expiry, claim_at, claim_challenge,
  after_claim, is_granted,
}

-- The keys of a dict are distinct.
abbrev pub IsUnique : Dict (Option ℕ) → Type 0
IsUnique [] = Unit {0}
IsUnique ((k, e) ∷ d) = (lookup k d ≡ none) × IsUnique d

-- A claim that still counts.
abbrev pub unexpired : ℕ → Option (Option ℕ) → Option (Option ℕ)
unexpired now none = none
unexpired now (some e) = if is_expired now e then none else some e

pub lookup-purge :
    (k : Text) (now : ℕ) (d : Dict (Option ℕ))
    → IsUnique d
    → lookup k (purge now d) ≡ unexpired now (lookup k d)
unfolding lookup purge
lookup-purge k now [] u = refl
lookup-purge k now ((j, e) ∷ d) u = ground (arith, lookup-purge k now d u.1, text_eq_iff j k)

purge-IsUnique : (now : ℕ) (d : Dict (Option ℕ)) → IsUnique d → IsUnique (purge now d)
unfolding purge
purge-IsUnique now [] u = tt
purge-IsUnique now ((j, e) ∷ d) u =
    ground (arith, lookup-purge j now d u.1, purge-IsUnique now d u.1)

insert-IsUnique :
    (k : Text) (v : Option ℕ) (d : Dict (Option ℕ)) → IsUnique d → IsUnique (insert k v d)
unfolding insert lookup
insert-IsUnique k v [] u = (refl, tt)
insert-IsUnique k v ((j, e) ∷ d) u = elim (Bool-cases (text_eq j k)) [
  | inl same ↦ rw same u
  | inr other ↦ rw other (lookup-insert_ne k j v d (flipped other) ∙ u.0, insert-IsUnique k v d u.1)
]
  where
    flipped : text_eq j k ≡ false → text_eq k j ≡ false
    flipped h = ground (arith, text_eq_iff j k, text_eq_iff k j)

-- One later claim: its challenge, its retention and its time.
abbrev pub Claim : Type 0
Claim = Text × Option ℕ × ℕ

module _ (digest : Text → Text) (second : ℕ) where
  abbrev pub claim_result : Claim → Dict (Option ℕ) → Result (Bool × Dict (Option ℕ))
  claim_result (id, retention, now) d = claim_challenge digest second id retention now d

  -- The state after claims in the order of the lock.
  unfoldable pub run : List Claim → Dict (Option ℕ) → Dict (Option ℕ)
  run [] d = d
  run (c ∷ cs) d = run cs (after_claim digest second d (claim_result c d))

  -- All claims fall before the expiry.
  abbrev pub AreBefore : Option ℕ → List Claim → Type 0
  AreBefore e [] = Unit {0}
  AreBefore e ((id, r, now) ∷ cs) = (is_expired now e ≡ false) × AreBefore e cs

  pub claim_ok :
      (id key : Text) (retention : Option ℕ) (now : ℕ) (d : Dict (Option ℕ)) {r : Option ℕ}
      → challenge_key digest second id ≡ ok key
      → validate_retention retention ≡ ok r
      → claim_challenge digest second id retention now d
        ≡ ok (claim_at digest second key r now (purge now d))
  unfolding claim_challenge
  claim_ok id key retention now d ek er = rw (ek, er) refl

  -- On claims with distinct keys, a claim with a usable identifier and retention is granted exactly
  -- where no unexpired claim of its key stands.
  pub claim_challenge-granted :
      (id key : Text) (retention : Option ℕ) (now : ℕ) (d : Dict (Option ℕ)) {r : Option ℕ}
      → IsUnique d
      → challenge_key digest second id ≡ ok key
      → validate_retention retention ≡ ok r
      → is_granted digest second (claim_challenge digest second id retention now d)
        ≡ is_none (unexpired now (lookup key d))
  unfolding claim_at
  claim_challenge-granted id key retention now d {r} u ek er =
      rw (claim_ok id key retention now d ek er, ← lookup-purge key now d u) (ground arith)

  -- The keys stay distinct.
  pub claim_challenge-IsUnique :
      (id : Text) (retention : Option ℕ) (now : ℕ) (d : Dict (Option ℕ))
      → IsUnique d
      → IsUnique (after_claim digest second d (claim_challenge digest second id retention now d))
  unfolding claim_challenge claim_at
  claim_challenge-IsUnique id retention now d u =
      elim (Result-cases (challenge_key digest second id)) [
        | inl (key, ek) ↦ elim (Result-cases (validate_retention retention)) [
          | inl (r, er) ↦ elim (Bool-cases (is_some (lookup key (purge now d)))) [
            | inl there ↦ rw (ek, er, there) (purge-IsUnique now d u)
            | inr free ↦
                rw (ek, er, free) (insert-IsUnique key _ (purge now d) (purge-IsUnique now d u))
          ]
          | inr (x, er) ↦ rw (ek, er) u
        ]
        | inr (x, ek) ↦ rw ek u
      ]

  stays :
      (key : Text) (e : Option ℕ) (c : Claim) (d : Dict (Option ℕ))
      → IsUnique d
      → is_expired c.2 e ≡ false
      → lookup key d ≡ some e
      → lookup key (after_claim digest second d (claim_result c d)) ≡ some e
  unfolding claim_challenge claim_at
  stays key e (id, retention, now) d u live h =
      elim (Result-cases (challenge_key digest second id)) [
        | inl (k, ek) ↦ elim (Result-cases (validate_retention retention)) [
          | inl (r, er) ↦
              let kept : lookup key (purge now d) ≡ some e =
                lookup-purge key now d u ∙ (rw h (rw live)) in
              elim (Bool-cases (is_some (lookup k (purge now d)))) [
                | inl there ↦ rw (ek, er, there) kept
                | inr free ↦
                    rw (ek, er, free)
                      (elim (Bool-cases (text_eq k key)) [
                        | inl same ↦ absurd (
                            clash
                              (subst (λ t. is_some (lookup t (purge now d)) ≡ false)
                                (text_eq→eq k key same) free)
                              kept)
                        | inr other ↦ lookup-insert_ne k key _ (purge now d) other ∙ kept
                      ])
              ]
          | inr (x, er) ↦ rw (ek, er) h
        ]
        | inr (x, ek) ↦ rw ek h
      ]
    where
      clash : {o : Option (Option ℕ)} → is_some o ≡ false → o ≡ some e → ⊥
      clash a b = ground arith

  run-stays :
      (key : Text) (e : Option ℕ) (cs : List Claim) (d : Dict (Option ℕ))
      → IsUnique d
      → AreBefore e cs
      → lookup key d ≡ some e
      → IsUnique (run cs d) × (lookup key (run cs d) ≡ some e)
  unfolding run
  run-stays key e [] d u b h = (u, h)
  run-stays key e ((id, r, now) ∷ cs) d u b h =
      run-stays key e cs _ (claim_challenge-IsUnique id r now d u) b.1
        (stays key e (id, r, now) d u b.0 h)

  granted-stands :
      (id key : Text) (retention : Option ℕ) (now : ℕ) (d : Dict (Option ℕ)) {r : Option ℕ}
      → challenge_key digest second id ≡ ok key
      → validate_retention retention ≡ ok r
      → is_granted digest second (claim_challenge digest second id retention now d) ≡ true
      → lookup key (after_claim digest second d (claim_challenge digest second id retention now d))
        ≡ some (expiry digest second now r)
  unfolding claim_at
  granted-stands id key retention now d {r} ek er h =
      elim (Bool-cases (is_some (lookup key (purge now d)))) [
        | inl there ↦ absurd (refused (rw (claim_ok id key retention now d ek er, there) at h))
        | inr free ↦
            rw (claim_ok id key retention now d ek er, free)
              (lookup-insert_self key _ (purge now d))
      ]
    where
      refused : false ≡ true → ⊥
      refused h = cc

  -- On claims with distinct keys, let a challenge have been granted with a valid retention. After
  -- any claims before its expiry, a further claim of it with a valid retention at a time before the
  -- expiry is not granted.
  pub challenge_once :
      (id key : Text) (retention retention' : Option ℕ) (now now' : ℕ) (cs : List Claim)
      (d : Dict (Option ℕ)) {r r' : Option ℕ}
      → IsUnique d
      → challenge_key digest second id ≡ ok key
      → validate_retention retention ≡ ok r
      → validate_retention retention' ≡ ok r'
      → is_granted digest second (claim_challenge digest second id retention now d) ≡ true
      → AreBefore (expiry digest second now r) cs
      → is_expired now' (expiry digest second now r) ≡ false
      → is_granted digest second (
          claim_challenge digest second id retention' now' (
            run cs
              (after_claim digest second d (claim_challenge digest second id retention now d))))
        ≡ false
  challenge_once id key retention retention' now now' cs d {r} {r'} u ek er er' g b live =
      let d1 : Dict (Option ℕ) =
        after_claim digest second d (claim_challenge digest second id retention now d) in
      let (u', h) =
        run-stays key (expiry digest second now r) cs d1
          (claim_challenge-IsUnique id retention now d u) b
          (granted-stands id key retention now d ek er g) in
      claim_challenge-granted id key retention' now' (run cs d1) u' ek er' ∙ (rw h (rw live))
