-- ===== src/Binding/Ring.antt =====
-- The verdict of the key ring.
use xrpl_mpp_stack.Prelude.{
  ◌≡◌, refl, ap, ◌∙◌, sym, Bool, true, false, ◌||◌, Option, List, [], ◌∷◌, ◌++◌, any, if◌then◌else◌,
  Bool-cases, inl, inr, ok, err, failure, value_error, raise_if, ◌>>=◌, ◌>>◌,
}
use xrpl_mpp_stack.Text.{Text, text_eq, is_empty, py_strip}
use xrpl_mpp_stack.Text.Laws.{text_eq_refl}
use xrpl_mpp_stack.Header.Challenge.{PaymentChallenge, WireFormat}
use xrpl_mpp_stack.Binding.{
  Sign, build_challenge_id, build_payment_challenge, is_ascii, normalized_secrets, key_ring,
  verifies, verify_challenge_binding, challenge_slots, join_bars, is_none_listed,
  configured_secrets,
}
use xrpl_mpp_stack.Binding.Laws.{build_payment_challenge-issued, build_challenge_id-signed}

-- Some secret of a list gives the identifier.
abbrev pub is_signed : Sign → Text → Text → List Text → Bool
is_signed sign payload id ring = any (λ k. text_eq (sign k payload) id) ring

verifies-is_signed :
    (sign : Sign) (ring : List Text) (c : PaymentChallenge) (ss : List Text)
    → ((k p : Text) → is_ascii (sign k p) ≡ true)
    → challenge_slots c ≡ ok ss
    → is_ascii c.id ≡ true
    → verifies sign ring c ≡ ok (is_signed sign (join_bars ss) c.id ring)
unfolding verifies build_challenge_id
verifies-is_signed sign [] c ss a h i = refl
verifies-is_signed sign (k ∷ ring) c ss a h i =
    elim (Bool-cases (text_eq (sign k (join_bars ss)) c.id)) [
      | inl e ↦ rw (h, a k (join_bars ss), i, e) refl
      | inr e ↦ rw (h, a k (join_bars ss), i, e) (verifies-is_signed sign ring c ss a h i)
    ]

verifies-not_ascii :
    (sign : Sign) (k : Text) (ring : List Text) (c : PaymentChallenge) (ss : List Text)
    → ((k p : Text) → is_ascii (sign k p) ≡ true)
    → challenge_slots c ≡ ok ss
    → is_ascii c.id ≡ false
    → verifies sign (k ∷ ring) c ≡ err failure
unfolding verifies build_challenge_id
verifies-not_ascii sign k ring c ss a h i = rw (h, a k (join_bars ss), i) refl

pub verify_challenge_binding_lem :
    (sign : Sign) (c : PaymentChallenge) (one : Option Text) (secrets : List Text) (ss : List Text)
    → ((k p : Text) → is_ascii (sign k p) ≡ true)
    → challenge_slots c ≡ ok ss
    → verify_challenge_binding sign c one secrets ≡ (
        let ring = normalized_secrets (configured_secrets one secrets) in
        if is_none_listed ring
        then err value_error
        else if is_ascii c.id
        then ok (is_signed sign (join_bars ss) c.id ring)
        else err failure)
unfolding verify_challenge_binding key_ring
verify_challenge_binding_lem sign c one secrets ss a h = verdict (configured_secrets one secrets)
  where
    judge :
        (ring : List Text)
        → ((raise_if (is_none_listed ring) value_error >> ok ring) >>= λ r. verifies sign r c) ≡ (
            if is_none_listed ring
            then err value_error
            else if is_ascii c.id
            then ok (is_signed sign (join_bars ss) c.id ring)
            else err failure)
    judge [] = refl
    judge (k ∷ ring) = elim (Bool-cases (is_ascii c.id)) [
      | inl i ↦ rw (verifies-is_signed sign (k ∷ ring) c ss a h i, i) refl
      | inr i ↦ rw (verifies-not_ascii sign k ring c ss a h i, i) refl
    ]

    verdict :
        (configured : List Text)
        → (raise_if (is_none_listed configured) value_error
            >> (key_ring configured >>= λ r. verifies sign r c))
          ≡ (let ring = normalized_secrets configured in
              if is_none_listed ring
              then err value_error
              else if is_ascii c.id
              then ok (is_signed sign (join_bars ss) c.id ring)
              else err failure)
    verdict [] = unfold normalized_secrets in refl
    verdict (s ∷ configured) = judge (normalized_secrets (s ∷ configured))

normalized_secrets-holds :
    (p : Text → Bool) (before after : List Text) (key : Text)
    → is_empty (py_strip key) ≡ false
    → p (py_strip key) ≡ true
    → any p (normalized_secrets (before ++ key ∷ after)) ≡ true
unfolding normalized_secrets
normalized_secrets-holds p [] after key n h = rw (n, h) refl
normalized_secrets-holds p (s ∷ before) after key n h = elim (Bool-cases (is_empty (py_strip s))) [
  | inl e ↦ rw e (normalized_secrets-holds p before after key n h)
  | inr e ↦ rw (e, normalized_secrets-holds p before after key n h) (any_end (p (py_strip s)))
]
  where
    any_end : (b : Bool) → (b || true) ≡ true
    any_end true = refl
    any_end false = refl

any-listed : (p : Text → Bool) (ring : List Text) → any p ring ≡ true → is_none_listed ring ≡ false
any-listed p [] h = cc
any-listed p (k ∷ ring) h = refl

configured_secrets-listed :
    (one : Option Text) (before after : List Text) (key : Text)
    → configured_secrets one (before ++ key ∷ after) ≡ before ++ key ∷ after
configured_secrets-listed one [] after key = refl
configured_secrets-listed one (s ∷ before) after key = refl

-- Where signatures are ASCII, a challenge issued under a secret is accepted by every list of
-- secrets that holds that secret, wherever it stands in the list and whatever blanks surround it.
pub verify_challenge_binding-build_payment_challenge :
    (w : WireFormat) (sign : Sign) (draft c : PaymentChallenge) (one : Option Text)
    (before after : List Text) (key : Text)
    → ((k p : Text) → is_ascii (sign k p) ≡ true)
    → is_empty (py_strip key) ≡ false
    → build_payment_challenge w sign (py_strip key) draft ≡ ok c
    → verify_challenge_binding sign c one (before ++ key ∷ after) ≡ ok true
verify_challenge_binding-build_payment_challenge w sign draft c one before after key a n built =
    let (_, id_c) = build_payment_challenge-issued w sign (py_strip key) draft c built in
    let (ss, hs, es) = build_challenge_id-signed sign (py_strip key) c.id c id_c in
    let secrets = before ++ key ∷ after in
    let p : Text → Bool = λ k. text_eq (sign k (join_bars ss)) c.id in
    let same : p (py_strip key) ≡ true = ap (λ t. text_eq t c.id) es ∙ text_eq_refl c.id in
    let signed = normalized_secrets-holds p before after key n same in
    let ascii : is_ascii c.id ≡ true = ap is_ascii (sym es) ∙ a (py_strip key) (join_bars ss) in
    verify_challenge_binding_lem sign c one secrets ss a hs
    ∙ rw
        (
          configured_secrets-listed one before after key,
          any-listed p (normalized_secrets secrets) signed,
          ascii,
          signed,
        )
        refl
