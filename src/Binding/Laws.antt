-- ===== src/Binding/Laws.antt =====
-- What the identifier of a challenge binds.
use xrpl_mpp_stack.Prelude.{
  ◌≡◌, refl, ap, ◌∙◌, sym, Bool, true, false, Option, some, List, [], ◌∷◌, arith, Bool-cases, inl,
  inr, ok, ok_injective, >>=-inv, raise_if, err, failure, value_error, if◌then◌else◌,
}
use xrpl_mpp_stack.Text.{Text, text_eq}
use xrpl_mpp_stack.Text.Laws.{text_eq→eq}
use xrpl_mpp_stack.Header.Challenge.{
  PaymentChallenge, WireFormat, is_challenge, is_too_deep, payment_authorization,
}
use xrpl_mpp_stack.Binding.{
  Sign, or_empty, bound_slots, challenge_slots, join_bars, build_challenge_id,
  build_payment_challenge, verifies, verify_challenge_binding, key_ring, compare_digest,
  configured_secrets,
}
use xrpl_mpp_stack.Binding.Slots.{is_plain}
use xrpl_mpp_stack.Binding.Bound.{is_challenge-IsBound, bound_slots-total, slots_bind}

pub build_challenge_id-signed :
    (sign : Sign) (secret id : Text) (c : PaymentChallenge)
    → build_challenge_id sign secret c ≡ ok id
    → (ss : List Text) × (challenge_slots c ≡ ok ss) × (sign secret (join_bars ss) ≡ id)
unfolding build_challenge_id
build_challenge_id-signed sign secret id c h =
    >>=-inv (challenge_slots c) _ h (λ ss hs g. (ss, hs, ok_injective g))

-- The issuer's challenge has the identifier of its slots, and passes validation.
pub build_payment_challenge-issued :
    (w : WireFormat) (sign : Sign) (secret : Text) (draft c : PaymentChallenge)
    → build_payment_challenge w sign secret draft ≡ ok c
    → (is_challenge w c ≡ true) × (build_challenge_id sign secret c ≡ ok c.id)
unfolding build_payment_challenge
build_payment_challenge-issued w sign secret draft c h =
    >>=-inv (build_challenge_id sign secret draft) _ h (λ id hi f.
      >>=-inv (raise_if (is_too_deep w (some draft.request) draft.opaque) failure)
        (λ _.
          if is_challenge w (record draft { id = id })
          then ok (record draft { id = id })
          else err value_error)
        f
        (λ _ _ g.
          let made : PaymentChallenge = record draft { id = id } in
          elim (Bool-cases (is_challenge w made)) [
            | inl v ↦
                let q : made ≡ c = ok_injective (rw v at g) in
                (
                  ap (is_challenge w) (sym q) ∙ v,
                  ap (build_challenge_id sign secret) (sym q)
                      ∙ same draft id
                      ∙ hi
                      ∙ ap (λ x. ok (x.id)) q,
                )
            | inr v ↦ absurd (let f = (rw v at g) in cc)
          ]))
  where
    same :
        (d : PaymentChallenge) (id : Text)
        → build_challenge_id sign secret (record d { id = id }) ≡ build_challenge_id sign secret d
    same d id = unfold build_challenge_id challenge_slots bound_slots in refl

-- A challenge that verifies has the identifier of its slots under some secret.
pub verifies-signed :
    (sign : Sign) (ring : List Text) (c : PaymentChallenge)
    → verifies sign ring c ≡ ok true
    → (secret : Text) × (build_challenge_id sign secret c ≡ ok c.id)
unfolding verifies
verifies-signed sign [] c h = absurd (cc)
verifies-signed sign (secret ∷ ring) c h =
    >>=-inv (build_challenge_id sign secret c) _ h (λ id hi g.
      >>=-inv (compare_digest id c.id) _ g (λ same hs f. elim (Bool-cases same) [
        | inl e ↦ (
          secret,
          hi
              ∙ ap (λ x. ok x)
                  (text_eq→eq id c.id (compare_digest-same id c.id (hs ∙ ap (λ x. ok x) e))),
        )
        | inr e ↦ verifies-signed sign ring c (rw e at f)
      ]))
  where
    compare_digest-same : (a b : Text) → compare_digest a b ≡ ok true → text_eq a b ≡ true
    compare_digest-same a b e = ground arith

-- What a verification that returns has run.
verify_challenge_binding-ring :
    (sign : Sign) (c : PaymentChallenge) (one : Option Text) (secrets : List Text) (answer : Bool)
    → verify_challenge_binding sign c one secrets ≡ ok answer
    → (ring : List Text) × (verifies sign ring c ≡ ok answer)
unfolding verify_challenge_binding
verify_challenge_binding-ring sign c one secrets answer h =
    >>=-inv _ _ h
      (λ u hu g. >>=-inv (key_ring (configured_secrets one secrets)) _ g (λ ring hr f. (ring, f)))

-- Suppose that signatures agree only on equal payloads and that the header's name is no canonical
-- map. Let a challenge have been issued with no bar in its realm, its expiry and its digest. Then
-- a valid challenge with its identifier that verifies has the same realm, method, intent, request,
-- expiry, digest and opaque data, an absent value counting as empty, and the same credential
-- header.
pub verify_challenge_binding-binds :
    (w : WireFormat) (sign : Sign) (secret : Text) (draft c d : PaymentChallenge)
    (one : Option Text) (secrets : List Text)
    → ((k l p q : Text) → sign k p ≡ sign l q → p ≡ q)
    → w.is_canonical_map payment_authorization ≡ some false
    → is_plain c.realm ≡ true
    → is_plain (or_empty c.expires) ≡ true
    → is_plain (or_empty c.digest) ≡ true
    → build_payment_challenge w sign secret draft ≡ ok c
    → is_challenge w d ≡ true
    → d.id ≡ c.id
    → verify_challenge_binding sign d one secrets ≡ ok true
    → (bound_slots c ≡ bound_slots d) × (c.header ≡ d.header)
verify_challenge_binding-binds w sign secret draft c d one secrets inj n r x g built valid same
      verified =
    let (v, id_c) = build_payment_challenge-issued w sign secret draft c built in
    let (ring, accepted) = verify_challenge_binding-ring sign d one secrets true verified in
    let (k, id_d) = verifies-signed sign ring d accepted in
    let (ss, hs, es) = build_challenge_id-signed sign secret c.id c id_c in
    let (ts, ht, et) = build_challenge_id-signed sign k d.id d id_d in
    let b = is_challenge-IsBound w c v in
    let z = bound_slots-total w c b r g x in
    slots_bind w c d ss ts n (is_challenge-IsBound w d valid) z hs ht
      (inj secret k (join_bars ss) (join_bars ts) (es ∙ sym same ∙ sym et))
