-- ===== src/Binding.antt =====
-- The binding of a challenge to its issuer: build_challenge_id, ChallengeKeyRing and
-- verify_challenge_binding of packages/core/src/xrpl_mpp_core/helpers.py.
pub mod Slots
pub mod Bound
pub mod Laws
pub mod Ring
use xrpl_mpp_stack.Prelude.{
  ℕ, Bool, true, false, ◌&&◌, not, Option, none, some, List, [], ◌∷◌, ◌++◌, ltb, all, Result, ok,
  err, value_error, failure, ◌>>=◌, ◌>>◌, raise_if, if◌then◌else◌,
}
use xrpl_mpp_stack.Text.{Text, codes, text_eq, is_empty, py_strip}
use xrpl_mpp_stack.Header.Challenge.{
  PaymentChallenge, WireFormat, is_challenge, is_too_deep, payment_authorization,
}

-- HMAC-SHA256 of a payload under a secret, in base64url. It comes from outside.
abbrev pub Sign : Type 0
Sign = Text → Text → Text

-- `value or ""`
abbrev pub or_empty : Option Text → Text
or_empty none = []
or_empty (some t) = t

abbrev pub is_none_listed : List Text → Bool
is_none_listed [] = true
is_none_listed (s ∷ ss) = false

unfoldable pub bound_slots : PaymentChallenge → List Text
bound_slots c =
    c.realm
    ∷ c.method
    ∷ c.intent
    ∷ c.request
    ∷ or_empty c.expires
    ∷ or_empty c.digest
    ∷ or_empty c.opaque
    ∷ []

unfoldable pub challenge_slots : PaymentChallenge → Result (List Text)
unfolding bound_slots
challenge_slots c = elim (c.header) [
  | none ↦ ok (bound_slots c)
  | some h ↦
      if text_eq payment_authorization h then ok (bound_slots c ++ h ∷ []) else err value_error
]

-- `"|".join(slots)`
unfoldable pub join_bars : List Text → Text
join_bars [] = []
join_bars (s ∷ []) = s
join_bars (s ∷ t ∷ ts) = s ++ 124 ∷ join_bars (t ∷ ts)

-- `build_challenge_id` of the fields of a challenge.
unfoldable pub build_challenge_id : Sign → Text → PaymentChallenge → Result Text
build_challenge_id sign secret c = do slots ← challenge_slots c; ok (sign secret (join_bars slots))

-- `build_payment_challenge`, on the fields as they are encoded; the draft's identifier is not read.
unfoldable pub build_payment_challenge :
    WireFormat → Sign → Text → PaymentChallenge → Result PaymentChallenge
build_payment_challenge w sign secret draft = do
  challenge_id ← build_challenge_id sign secret draft
  raise_if (is_too_deep w (some draft.request) draft.opaque) failure
  let c : PaymentChallenge = record draft { id = challenge_id }
  if is_challenge w c then ok c else err value_error

abbrev pub is_ascii : Text → Bool
is_ascii t = all (λ c. ltb c 128) t

-- `hmac.compare_digest` of two texts: it raises TypeError where one of them is not ASCII.
abbrev pub compare_digest : Text → Text → Result Bool
compare_digest a b = if is_ascii a && is_ascii b then ok (text_eq a b) else err failure

-- `tuple(secret.strip() for secret in secrets if secret.strip())`
unfoldable pub normalized_secrets : List Text → List Text
normalized_secrets [] = []
normalized_secrets (s ∷ ss) =
    let rest = normalized_secrets ss in if is_empty (py_strip s) then rest else py_strip s ∷ rest

-- `ChallengeKeyRing(secrets)`
unfoldable pub key_ring : List Text → Result (List Text)
key_ring secrets = do
  let normalized = normalized_secrets secrets
  raise_if (is_none_listed normalized) value_error
  ok normalized

-- `ChallengeKeyRing.verifies`: `any` over the secrets, in their order.
unfoldable pub verifies : Sign → List Text → PaymentChallenge → Result Bool
verifies sign [] c = ok false
verifies sign (secret ∷ secrets) c = do
  let rest = verifies sign secrets c
  challenge_id ← build_challenge_id sign secret c
  same ← compare_digest challenge_id c.id
  if same then ok true else rest

abbrev pub one_secret : Option Text → List Text
one_secret none = []
one_secret (some s) = s ∷ []

-- `secrets or (() if secret is None else (secret,))`
abbrev pub configured_secrets : Option Text → List Text → List Text
configured_secrets secret [] = one_secret secret
configured_secrets secret (s ∷ ss) = s ∷ ss

unfoldable pub verify_challenge_binding :
    Sign → PaymentChallenge → Option Text → List Text → Result Bool
verify_challenge_binding sign c secret secrets = do
  let configured = configured_secrets secret secrets
  raise_if (is_none_listed configured) value_error
  ring ← key_ring configured
  verifies sign ring c
