-- ===== src/Header/Params.antt =====
-- `_parse_auth_params` and the parsers that it calls.
use xrpl_mpp_stack.Prelude.{
  ℕ, zero, suc, ◌+◌, ◌||◌, Option, none, some, [], ◌∷◌, ◌==◌, is_some, length, Result, ok, err,
  value_error, ◌>>=◌, if◌then◌else◌,
}
use xrpl_mpp_stack.Text.{Text, codes, text_eq, is_empty}
use xrpl_mpp_stack.Dict.{Dict, lookup, insert}
use xrpl_mpp_stack.Header.Cursor.{
  Cursor, at, lower, span, is_token, skip_blanks, starts_payment_scheme, find_next_payment_scheme,
  starts_other_auth_scheme,
}

abbrev pub put_front : ℕ → Result (Text × Cursor) → Result (Text × Cursor)
put_front c (ok (s, cu)) = ok (c ∷ s, cu)
put_front c (err e) = err e

-- The loop of `_parse_quoted_string`, after the opening quote.
unfoldable pub quoted : Text → Text → Result (Text × Cursor)
quoted b [] = err value_error
quoted b (c ∷ []) = if c == 34 then ok ([], at (c ∷ b) []) else err value_error
quoted b (c ∷ d ∷ s) =
    let escaped = put_front d (quoted (d ∷ c ∷ b) s) in
    let plain = put_front c (quoted (c ∷ b) (d ∷ s)) in
    if c == 92 then escaped else if c == 34 then ok ([], at (c ∷ b) (d ∷ s)) else plain

-- A run of token characters, which is not empty: `_parse_auth_param_name`.
unfoldable pub parse_token : Cursor → Result (Text × Cursor)
unfolding span
parse_token cu =
    let (name, after) = span is_token cu.before cu.rest in
    if is_empty name then err value_error else ok (name, after)

-- `_parse_auth_param_value`
unfoldable pub parse_auth_param_value : Cursor → Result (Text × Cursor)
parse_auth_param_value cu = elim (cu.rest) [
  | [] ↦ err value_error
  | c ∷ s ↦ if c == 34 then quoted (c ∷ cu.before) s else parse_token cu
]

-- `value[index] != "="` raises.
unfoldable pub expect_equals : Cursor → Result Cursor
expect_equals cu = elim (cu.rest) [
  | [] ↦ err value_error
  | c ∷ s ↦ if c == 61 then ok (at (c ∷ cu.before) s) else err value_error
]

-- A parameter: the lower-case name, the value and the cursor after the blanks that follow it.
unfoldable pub parse_param : Cursor → Result (Text × Text × Cursor)
unfolding expect_equals parse_auth_param_value
parse_param cu = do
  (name, after) ← parse_token cu
  valued ← expect_equals (skip_blanks after)
  (value, next) ← parse_auth_param_value (skip_blanks valued)
  ok (lower name, value, skip_blanks next)

-- What the loop of `_parse_auth_params` does after a parameter: it goes on, or it is done.
pub data Turn : Type 0 where
  go_on : Cursor → Turn
  done : Cursor → Turn

abbrev pub or_end : Cursor → Option Cursor → Cursor
or_end cu none = at cu.before []
or_end cu (some next) = next

unfoldable pub after_param : Text → Cursor → Result Turn
after_param name cu = elim (cu.rest) [
  | [] ↦ ok (done cu)
  | c ∷ s ↦
      if c == 44
      then (let next = skip_blanks (at (c ∷ cu.before) s) in
          if starts_payment_scheme next || starts_other_auth_scheme next
          then ok (done next)
          else ok (go_on next))
      else if text_eq name (codes "description")
      then ok (done (or_end cu (find_next_payment_scheme cu)))
      else err value_error
]

-- The loop of `_parse_auth_params`; `none` means that the fuel ran out.
unfoldable pub params_loop : ℕ → Cursor → Dict Text → Option (Result (Dict Text × Cursor))
params_loop zero cu found = none
params_loop (suc fuel) cu found =
    if is_empty cu.rest then some (ok (found, cu)) else elim (parse_param cu) [
      | err e ↦ some (err e)
      | ok (name, value, next) ↦
          if is_some (lookup name found)
          then some (err value_error)
          else elim (after_param name next) [
            | err e ↦ some (err e)
            | ok (done end) ↦ some (ok (insert name value found, end))
            | ok (go_on more) ↦ params_loop fuel more (insert name value found)
          ]
    ]

abbrev pub not_empty : Result (Dict Text × Cursor) → Result (Dict Text × Cursor)
not_empty (ok ([], cu)) = err value_error
not_empty (ok (p ∷ ps, cu)) = ok (p ∷ ps, cu)
not_empty (err e) = err e

abbrev pub checked {ℓ κ} : {A : Type ℓ} {B : Type κ} → (A → B) → Option A → Option B
checked f none = none
checked f (some a) = some (f a)

-- `_parse_auth_params`, with a round of fuel for each character.
unfoldable pub parse_auth_params : Cursor → Option (Result (Dict Text × Cursor))
unfolding params_loop
parse_auth_params cu =
    let start = skip_blanks cu in checked not_empty (params_loop (length start.rest + 1) start [])
