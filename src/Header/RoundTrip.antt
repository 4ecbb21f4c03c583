-- ===== src/Header/RoundTrip.antt =====
-- A rendered challenge, and what the parser makes of it.
use mathlib.Core.List.{reverse, reverse-append, reverse-reverse}
use xrpl_mpp_stack.Prelude.{
  ℕ, suc, ◌+◌, ◌≤◌, ◌≡◌, refl, ap, ◌∙◌, sym, true, false, none, some, [], ◌∷◌, ◌++◌, arith, length,
  length-append, drop, ok, append_assoc,
}
use xrpl_mpp_stack.Text.{Text, codes, text_eq, is_py_space, trim_left, py_strip}
use xrpl_mpp_stack.Dict.{Dict}
use xrpl_mpp_stack.Header.Cursor.{
  Cursor, at, find_from, find_next_payment_scheme, starts_payment_scheme, lower, is_boundary,
  advance, starts_blank,
}
use xrpl_mpp_stack.Header.Params.{parse_auth_params}
use xrpl_mpp_stack.Header.Challenge.{
  PaymentChallenge, WireFormat, is_challenge, challenge_of, render_param, join_params, render_all,
  params_of, render_payment_challenge, values_loop, prepend_valid, parse_payment_challenge_values,
  parse_payment_challenge, escape_header_value,
}
use xrpl_mpp_stack.Header.Quoted.{skip_blanks-space}
use xrpl_mpp_stack.Header.Rounds.{params_loop-render, is_fresh-empty}
use xrpl_mpp_stack.Header.Fields.{
  params_of-AreNames, params_of-is_distinct, is_written, challenge_of-params_of,
}

py_strip-solid :
    (c : ℕ) (m : Text) (d : ℕ)
    → is_py_space c ≡ false
    → is_py_space d ≡ false
    → py_strip (c ∷ m ++ d ∷ []) ≡ c ∷ m ++ d ∷ []
unfolding py_strip trim_left
py_strip-solid c m d h k = rw h (
    rw (reverse-append (c ∷ m) (d ∷ [])) (
      rw k
        (ap reverse (sym (reverse-append (c ∷ m) (d ∷ []))) ∙ reverse-reverse (c ∷ m ++ d ∷ []))))

render_param-last : (k v : Text) → (m : Text) × (render_param (k, v) ≡ m ++ 34 ∷ [])
unfolding render_param
render_param-last k v = (
  k ++ 61 ∷ 34 ∷ escape_header_value v,
  sym (append_assoc k (61 ∷ 34 ∷ escape_header_value v) (34 ∷ [])),
)

join-last :
    (p : Text × Text) (ps : Dict Text)
    → (m : Text) × (join_params (render_all (p ∷ ps)) ≡ m ++ 34 ∷ [])
unfolding join_params
join-last (k, v) [] = render_param-last k v
join-last (k, v) (q ∷ ps) =
    let (m, h) = join-last q ps in
    (
      render_param (k, v) ++ 44 ∷ 32 ∷ m,
      rw h (sym (append_assoc (render_param (k, v)) (44 ∷ 32 ∷ m) (34 ∷ []))),
    )

length-param : (k v : Text) → 1 ≤ length (render_param (k, v))
unfolding render_param
length-param k v = omega (arith, length-append k (61 ∷ 34 ∷ (escape_header_value v ++ 34 ∷ [])))

length-join : (ps : Dict Text) → length ps ≤ length (join_params (render_all ps))
unfolding join_params
length-join [] = omega arith
length-join ((k, v) ∷ []) = omega (arith, length-param k v)
length-join ((k, v) ∷ q ∷ ps) = omega (
  arith,
  length-param k v,
  length-join (q ∷ ps),
  length-append (render_param (k, v)) (44 ∷ 32 ∷ join_params (render_all (q ∷ ps))),
)

-- The rendered parameters.
abbrev body : PaymentChallenge → Text
body c = join_params (render_all (params_of c))

body-solid : (c : PaymentChallenge) → starts_blank (body c) ≡ false
unfolding params_of render_param join_params
body-solid c = refl

parse_auth_params-render :
    (b : Text) (c : PaymentChallenge)
    → (b' : Text) × (parse_auth_params (at b (32 ∷ body c)) ≡ some (ok (params_of c, at b' [])))
unfolding parse_auth_params
parse_auth_params-render b c =
    let le = length-join (params_of c) in
    let (b', h) =
      params_loop-render (params_of c) (length (body c) + 1) (32 ∷ b) [] (params_of-AreNames c)
        (params_of-is_distinct c) (is_fresh-empty (params_of c)) (omega (arith, le)) in
    (b', rw (skip_blanks-space b (body c) (body-solid c)) (rw h (unfold params_of in refl)))

find-render :
    (c : PaymentChallenge)
    → find_next_payment_scheme (at [] (render_payment_challenge c))
      ≡ some (at [] (render_payment_challenge c))
unfolding find_next_payment_scheme find_from starts_payment_scheme lower text_eq is_boundary
    render_payment_challenge
find-render c = refl

strip-render :
    (c : PaymentChallenge) → py_strip (render_payment_challenge c) ≡ render_payment_challenge c
unfolding render_payment_challenge params_of
strip-render c =
    let (m, h) = join-last (codes "id", c.id) (drop 1 (params_of c)) in
    rw h (py_strip-solid 80 (codes "ayment " ++ m) 34 refl refl)

-- One round of the loop, on a challenge that is valid.
values_loop-valid :
    (w : WireFormat) (fuel : ℕ) (cu scheme next : Cursor) (params : Dict Text)
    (c : PaymentChallenge)
    → find_next_payment_scheme cu ≡ some scheme
    → parse_auth_params (advance 7 scheme) ≡ some (ok (params, next))
    → challenge_of w params ≡ ok c
    → values_loop w (suc fuel) cu ≡ prepend_valid (ok c) (values_loop w fuel next)
unfolding values_loop
values_loop-valid w fuel cu scheme next params c f g h = rw (values_loop, f, g, h) refl

values_loop-end :
    (w : WireFormat) (fuel : ℕ) (cu : Cursor)
    → find_next_payment_scheme cu ≡ none
    → values_loop w (suc fuel) cu ≡ some (ok [])
unfolding values_loop
values_loop-end w fuel cu h = rw (values_loop, h) refl

values_loop-render :
    (w : WireFormat) (c : PaymentChallenge) (fuel : ℕ)
    → is_challenge w c ≡ true
    → is_written c ≡ true
    → values_loop w (suc (suc fuel)) (at [] (render_payment_challenge c)) ≡ some (ok (c ∷ []))
values_loop-render w c fuel valid h =
    let value = render_payment_challenge c in
    let (b, e) = parse_auth_params-render (reverse (codes "Payment")) c in
    let a : advance 7 (at [] value) ≡ at (reverse (codes "Payment")) (32 ∷ body c) =
      unfold advance render_payment_challenge in refl in
    let last =
      values_loop-end w fuel (at b []) (unfold find_next_payment_scheme find_from in refl) in
    values_loop-valid w (suc fuel) (at [] value) (at [] value) (at b []) (params_of c) c
      (find-render c) (ap parse_auth_params a ∙ e) (challenge_of-params_of w c valid h)
    ∙ ap (prepend_valid (ok c)) last

-- A challenge that passes validation and has no empty text among its optional fields is given back
-- by parsing its rendering as a WWW-Authenticate value, whatever quotes, backslashes and commas
-- its fields hold.
pub parse_payment_challenge-render_payment_challenge :
    (w : WireFormat) (c : PaymentChallenge)
    → is_challenge w c ≡ true
    → is_written c ≡ true
    → parse_payment_challenge w (render_payment_challenge c) ≡ some (ok c)
unfolding parse_payment_challenge
parse_payment_challenge-render_payment_challenge w c valid h =
    let value = render_payment_challenge c in
    let n : length value + 1 ≡ suc (suc (length (body c) + 7)) =
      unfold render_payment_challenge in omega arith in
    let parsed : parse_payment_challenge_values w value ≡ some (ok (c ∷ [])) =
      ap (λ v. values_loop w (length v + 1) (at [] v)) (strip-render c)
      ∙ ap (λ k. values_loop w k (at [] value)) n
      ∙ values_loop-render w c (length (body c) + 7) valid h in
    rw (parse_payment_challenge, parsed) refl
