-- ===== src/Witnesses/Header.antt =====
-- Concrete runs of the theorems on WWW-Authenticate challenges.
use xrpl_mpp_stack.Prelude.{◌≡◌, refl, true, none, some, [], ◌∷◌, ◌++◌, ok, err, value_error}
use xrpl_mpp_stack.Text.{Text, codes, text_eq, py_strip}
use xrpl_mpp_stack.Header.Challenge.{
  PaymentChallenge, WireFormat, is_challenge, render_payment_challenge, parse_payment_challenge,
  parse_payment_challenge_values,
}
use xrpl_mpp_stack.Header.Cursor.{at}
use xrpl_mpp_stack.Header.RoundTrip.{parse_payment_challenge-render_payment_challenge}
use xrpl_mpp_stack.Header.Total.{IsDeep, IsRead, parse_payment_challenge-IsRead}

abbrev accepting : WireFormat
accepting = record {
  is_canonical_json = λ t. some true;
  is_canonical_map = λ t. some true;
  is_date_time = λ t. true;
}

-- A realm with a quote and a backslash, and a description with a comma.
abbrev offer : PaymentChallenge
offer = record {
  id = codes "c1";
  realm = codes "a" ++ (34 ∷ 92 ∷ codes "b");
  method = codes "xrpl";
  intent = codes "charge";
  request = codes "e30";
  digest = none;
  expires = none;
  description = some (codes "one, Payment two");
  header = none;
  opaque = some (codes "e30");
}

offer-is_challenge : is_challenge accepting offer ≡ true
unfolding is_challenge xrpl_mpp_stack.Text.py_strip xrpl_mpp_stack.Header.Challenge.is_method
    xrpl_mpp_stack.Header.Challenge.is_intent xrpl_mpp_stack.Header.Challenge.is_base64url
offer-is_challenge = refl

parse_payment_challenge-render_payment_challenge_example :
    parse_payment_challenge accepting (render_payment_challenge offer) ≡ some (ok offer)
parse_payment_challenge-render_payment_challenge_example =
    parse_payment_challenge-render_payment_challenge accepting offer offer-is_challenge refl

abbrev unquoted : Text
unquoted = codes "Payment id=c1, realm"

parse_payment_challenge-IsRead_example :
    IsRead
      (IsDeep accepting (at [] (py_strip unquoted)))
      (parse_payment_challenge_values accepting unquoted)
    × IsRead
        (IsDeep accepting (at [] (py_strip unquoted)))
        (parse_payment_challenge accepting unquoted)
parse_payment_challenge-IsRead_example = parse_payment_challenge-IsRead accepting unquoted

-- A parameter without a value raises.
parse-unquoted : parse_payment_challenge accepting unquoted ≡ some (err value_error)
unfolding parse_payment_challenge xrpl_mpp_stack.Text.py_strip
    xrpl_mpp_stack.Header.Cursor.find_next_payment_scheme text_eq
    xrpl_mpp_stack.Header.Params.parse_auth_params xrpl_mpp_stack.Header.Cursor.skip_blanks
    xrpl_mpp_stack.Header.Cursor.advance xrpl_mpp_stack.Header.Params.parse_param
    xrpl_mpp_stack.Header.Params.parse_token xrpl_mpp_stack.Dict.lookup
    xrpl_mpp_stack.Header.Params.after_param xrpl_mpp_stack.Header.Cursor.starts_other_auth_scheme
parse-unquoted = refl
