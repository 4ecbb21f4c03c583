-- ===== src/Witnesses/Binding.antt =====
-- Concrete runs of the theorems on the binding of challenges.
use xrpl_mpp_stack.Prelude.{◌≡◌, refl, true, false, none, some, [], ◌∷◌, ok}
use xrpl_mpp_stack.Text.{codes, text_eq, is_empty, py_strip}
use xrpl_mpp_stack.Header.Challenge.{PaymentChallenge, WireFormat, is_challenge, is_too_deep}
use xrpl_mpp_stack.Binding.{
  Sign, build_payment_challenge, verify_challenge_binding, bound_slots, challenge_slots, join_bars,
  normalized_secrets, configured_secrets,
}
use xrpl_mpp_stack.Binding.Laws.{verify_challenge_binding-binds}
use xrpl_mpp_stack.Binding.Ring.{verify_challenge_binding-build_payment_challenge}

-- A format without maps, and the payload itself as its signature.
abbrev mapless : WireFormat
mapless = record {
  is_canonical_json = λ t. some true;
  is_canonical_map = λ t. some false;
  is_date_time = λ t. true;
}

abbrev open_sign : Sign
open_sign k p = p

abbrev draft : PaymentChallenge
draft = record {
  id = [];
  realm = codes "shop";
  method = codes "xrpl";
  intent = codes "charge";
  request = codes "e30";
  digest = none;
  expires = some (codes "2026-01-01T00:00:00Z");
  description = none;
  header = none;
  opaque = none;
}

abbrev issued : PaymentChallenge
issued = record draft { id = codes "shop|xrpl|charge|e30|2026-01-01T00:00:00Z||" }

issued-built : build_payment_challenge mapless open_sign (codes "key") draft ≡ ok issued
unfolding build_payment_challenge xrpl_mpp_stack.Binding.build_challenge_id challenge_slots
    is_challenge is_too_deep join_bars py_strip xrpl_mpp_stack.Header.Challenge.is_method
    xrpl_mpp_stack.Header.Challenge.is_intent xrpl_mpp_stack.Header.Challenge.is_base64url
issued-built = refl

-- The description is not bound.
abbrev echoed : PaymentChallenge
echoed = record issued { description = some (codes "two") }

echoed-is_challenge : is_challenge mapless echoed ≡ true
unfolding is_challenge py_strip xrpl_mpp_stack.Header.Challenge.is_method
    xrpl_mpp_stack.Header.Challenge.is_intent xrpl_mpp_stack.Header.Challenge.is_base64url
echoed-is_challenge = refl

echoed-verified : verify_challenge_binding open_sign echoed (some (codes "key")) [] ≡ ok true
unfolding verify_challenge_binding xrpl_mpp_stack.Binding.key_ring normalized_secrets py_strip
    xrpl_mpp_stack.Binding.verifies xrpl_mpp_stack.Binding.build_challenge_id challenge_slots
    join_bars text_eq
echoed-verified = refl

verify_challenge_binding-binds_example :
    (bound_slots issued ≡ bound_slots echoed) × (issued.header ≡ echoed.header)
verify_challenge_binding-binds_example =
    verify_challenge_binding-binds mapless open_sign (codes "key") draft issued echoed
      (some (codes "key")) [] (λ k l p q e. e) refl refl refl refl issued-built echoed-is_challenge
      refl echoed-verified

-- A signature of one ASCII character.
abbrev short_sign : Sign
short_sign k p = 65 ∷ []

abbrev signed : PaymentChallenge
signed = record draft { id = 65 ∷ [] }

key_full : is_empty (py_strip (codes " key ")) ≡ false
unfolding py_strip
key_full = refl

key_built : build_payment_challenge mapless short_sign (py_strip (codes " key ")) draft ≡ ok signed
unfolding build_payment_challenge xrpl_mpp_stack.Binding.build_challenge_id challenge_slots
    is_challenge is_too_deep py_strip xrpl_mpp_stack.Header.Challenge.is_method
    xrpl_mpp_stack.Header.Challenge.is_intent xrpl_mpp_stack.Header.Challenge.is_base64url
key_built = refl

verify_challenge_binding-build_payment_challenge_example :
    verify_challenge_binding short_sign signed none (codes "new" ∷ codes " key " ∷ []) ≡ ok true
verify_challenge_binding-build_payment_challenge_example =
    verify_challenge_binding-build_payment_challenge mapless short_sign draft signed none
      (codes "new" ∷ []) [] (codes " key ") (λ k p. refl) key_full key_built

-- An identifier outside ASCII.
abbrev foreign : PaymentChallenge
foreign = record draft { id = 233 ∷ [] }
