-- ===== src/Header/Challenge.antt =====
-- `PaymentChallenge` (packages/core/src/xrpl_mpp_core/models.py), and the challenges of a header.
use xrpl_mpp_stack.Prelude.{
  ℕ, zero, suc, ◌+◌, Bool, true, false, ◌&&◌, ◌||◌, not, Option, none, some, List, [], ◌∷◌, ◌++◌,
  leb, ◌==◌, length, all, Result, ok, err, value_error, failure, ◌>>=◌, ◌>>◌, or_raise, raise_if,
  is_some, if◌then◌else◌,
}
use xrpl_mpp_stack.Text.{Text, codes, text_eq, is_empty, py_strip}
use xrpl_mpp_stack.Dict.{Dict, lookup}
use xrpl_mpp_stack.Header.Cursor.{Cursor, at, advance, is_letter, find_next_payment_scheme}
use xrpl_mpp_stack.Header.Params.{parse_auth_params}

-- What the validators ask of JSON and of dates. Canonical JSON (rfc8785), the JSON decoder and
-- `datetime.fromisoformat` are not part of the repository.
pub record WireFormat : Type 0 where
  -- whether it is base64url of JSON in its canonical form; `none` where the decoder or the encoder
  -- gives up on the nesting, with a RecursionError
  pub is_canonical_json : Text → Option Bool
  -- the same, of a flat map of texts
  pub is_canonical_map : Text → Option Bool
  -- a date and time with an offset
  pub is_date_time : Text → Bool

pub record PaymentChallenge : Type 0 where
  pub id : Text
  pub realm : Text
  pub method : Text
  pub intent : Text
  pub request : Text
  pub digest : Option Text
  pub expires : Option Text
  pub description : Option Text
  pub header : Option Text
  pub opaque : Option Text

abbrev pub is_lower_letter : ℕ → Bool
is_lower_letter c = leb 97 c && leb c 122

-- `METHOD_PATTERN`, `INTENT_PATTERN` and `BASE64URL_NOPAD_PATTERN`
unfoldable pub is_method : Text → Bool
is_method t = not (is_empty t) && all is_lower_letter t

unfoldable pub is_intent : Text → Bool
is_intent t = not (is_empty t) && all (λ c. is_letter c || leb 48 c && leb c 57 || c == 45) t

unfoldable pub is_base64url : Text → Bool
is_base64url t =
    not (is_empty t) && all (λ c. is_letter c || leb 48 c && leb c 57 || c == 45 || c == 95) t

-- `not value.strip()`
abbrev pub is_blank_text : Text → Bool
is_blank_text t = is_empty (py_strip t)

abbrev pub holds : (Text → Bool) → Option Text → Bool
holds p none = true
holds p (some t) = p t

abbrev pub has : (Text → Bool) → Option Text → Bool
has p none = false
has p (some t) = p t

abbrev pub payment_authorization : Text
payment_authorization = codes "Payment-Authorization"

-- Accepted by a validator of JSON.
abbrev pub is_yes : Option Bool → Bool
is_yes none = false
is_yes (some b) = b

-- A validator of JSON gives up on a text.
abbrev pub gives_up : (Text → Option Bool) → Text → Bool
gives_up read t = not (is_some (read t))

-- What the validators of `request` and of `opaque` meet: JSON is read where the checks before have
-- accepted the text.
abbrev pub is_deep_request : WireFormat → Text → Bool
is_deep_request w t =
    leb (length t) 16384
    && not (is_blank_text t)
    && is_base64url t
    && gives_up w.is_canonical_json t

abbrev pub is_deep_opaque : WireFormat → Text → Bool
is_deep_opaque w t = is_base64url t && gives_up w.is_canonical_map t

-- A validator raises what is no ValueError, whatever the others find.
unfoldable pub is_too_deep : WireFormat → Option Text → Option Text → Bool
is_too_deep w request opaque = has (is_deep_request w) request || has (is_deep_opaque w) opaque

-- The field validators accept; none of them changes a value.
unfoldable pub is_challenge : WireFormat → PaymentChallenge → Bool
is_challenge w c =
    leb (length c.id) 512
    && not (is_blank_text c.id)
    && not (is_blank_text c.realm)
    && not (is_blank_text c.method)
    && is_method c.method
    && is_intent c.intent
    && leb (length c.request) 16384
    && not (is_blank_text c.request)
    && is_base64url c.request
    && is_yes (w.is_canonical_json c.request)
    && holds w.is_date_time c.expires
    && holds (text_eq payment_authorization) c.header
    && holds (λ t. is_base64url t && is_yes (w.is_canonical_map t)) c.opaque

-- `PaymentChallenge.model_validate` of a dict of texts; other keys are ignored.
unfoldable pub challenge_of : WireFormat → Dict Text → Result PaymentChallenge
unfolding is_challenge is_too_deep
challenge_of w d = do
  raise_if (is_too_deep w (lookup (codes "request") d) (lookup (codes "opaque") d)) failure
  id ← or_raise (lookup (codes "id") d) value_error
  realm ← or_raise (lookup (codes "realm") d) value_error
  method ← or_raise (lookup (codes "method") d) value_error
  intent ← or_raise (lookup (codes "intent") d) value_error
  request ← or_raise (lookup (codes "request") d) value_error
  let c : PaymentChallenge = record {
    id = id;
    realm = realm;
    method = method;
    intent = intent;
    request = request;
    digest = lookup (codes "digest") d;
    expires = lookup (codes "expires") d;
    description = lookup (codes "description") d;
    header = lookup (codes "header") d;
    opaque = lookup (codes "opaque") d;
  }
  if is_challenge w c then ok c else err value_error

-- `except ValidationError: continue`; what is no ValueError goes through.
abbrev pub prepend_valid {ℓ} :
    {A : Type ℓ} → Result A → Option (Result (List A)) → Option (Result (List A))
prepend_valid (err failure) rest = some (err failure)
prepend_valid (ok c) (some (ok cs)) = some (ok (c ∷ cs))
prepend_valid c rest = rest

-- The loop of `_parse_payment_challenge_values`; `none` means that the fuel ran out.
unfoldable pub values_loop : WireFormat → ℕ → Cursor → Option (Result (List PaymentChallenge))
values_loop w zero cu = none
values_loop w (suc fuel) cu = elim (find_next_payment_scheme cu) [
  | none ↦ some (ok [])
  | some scheme ↦ elim (parse_auth_params (advance 7 scheme)) [
    | none ↦ none
    | some (err e) ↦ some (err e)
    | some (ok (params, next)) ↦ prepend_valid (challenge_of w params) (values_loop w fuel next)
  ]
]

-- `_parse_payment_challenge_values`, with a round of fuel for each character.
unfoldable pub parse_payment_challenge_values :
    WireFormat → Text → Option (Result (List PaymentChallenge))
unfolding values_loop
parse_payment_challenge_values w raw =
    let value = py_strip raw in values_loop w (length value + 1) (at [] value)

abbrev pub single {ℓ} : {A : Type ℓ} → Result (List A) → Result A
single (ok (c ∷ [])) = ok c
single (ok _) = err value_error
single (err e) = err e

-- `parse_payment_challenge`
unfoldable pub parse_payment_challenge : WireFormat → Text → Option (Result PaymentChallenge)
unfolding parse_payment_challenge_values
parse_payment_challenge w raw = elim (parse_payment_challenge_values w raw) [
  | none ↦ none
  | some r ↦ some (single r)
]

-- `value.replace(old, new)` for a text of one character.
unfoldable pub replace_code : ℕ → Text → Text → Text
replace_code old new [] = []
replace_code old new (c ∷ s) =
    let rest = replace_code old new s in if c == old then new ++ rest else c ∷ rest

-- `_escape_header_value`
unfoldable pub escape_header_value : Text → Text
unfolding replace_code
escape_header_value value = replace_code 34 (92 ∷ 34 ∷ []) (replace_code 92 (92 ∷ 92 ∷ []) value)

-- `name="value"`
unfoldable pub render_param : Text × Text → Text
unfolding escape_header_value
render_param (name, value) = name ++ (61 ∷ 34 ∷ (escape_header_value value ++ 34 ∷ []))

-- `", ".join(...)`
unfoldable pub join_params : List Text → Text
join_params [] = []
join_params (p ∷ []) = p
join_params (p ∷ q ∷ ps) = p ++ (44 ∷ 32 ∷ join_params (q ∷ ps))

-- `if value: parts.append(...)`
abbrev pub optional_param : Text → Option Text → Dict Text → Dict Text
optional_param name (some (c ∷ s)) rest = (name, c ∷ s) ∷ rest
optional_param name _ rest = rest

-- The parameters in the order of `render_payment_challenge`.
unfoldable pub params_of : PaymentChallenge → Dict Text
params_of c =
    (codes "id", c.id)
    ∷ (codes "realm", c.realm)
    ∷ (codes "method", c.method)
    ∷ (codes "intent", c.intent)
    ∷ (codes "request", c.request)
    ∷ optional_param (codes "digest") c.digest (
        optional_param (codes "expires") c.expires (
          optional_param (codes "description") c.description (
            optional_param (codes "header") c.header
              (optional_param (codes "opaque") c.opaque []))))

abbrev pub render_all : Dict Text → List Text
render_all [] = []
render_all (p ∷ ps) = render_param p ∷ render_all ps

-- `render_payment_challenge`
unfoldable pub render_payment_challenge : PaymentChallenge → Text
unfolding params_of join_params render_param
render_payment_challenge c = codes "Payment " ++ join_params (render_all (params_of c))
