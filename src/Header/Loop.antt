-- ===== src/Header/Loop.antt =====
-- The loop of `_parse_auth_params` on rendered parameters.
use mathlib.Core.List.{append_assoc}
use xrpl_mpp_stack.Prelude.{
  ℕ, ◌≡◌, refl, Bool, true, false, ◌&&◌, not, [], ◌∷◌, ◌++◌, ◌==◌, arith, all, take, is_none, ok,
  ==_iff, and-eq-true,
}
use xrpl_mpp_stack.Text.{Text, text_eq, is_empty}
use xrpl_mpp_stack.Dict.{Dict, lookup, insert, lookup-insert}
use xrpl_mpp_stack.Header.Cursor.{
  at, lower, lower_code, span, starts_blank, is_token, starts_payment_scheme,
  starts_other_auth_scheme, payment_scheme,
}
use xrpl_mpp_stack.Header.Params.{parse_token, parse_param, go_on, done, after_param}
use xrpl_mpp_stack.Header.Challenge.{escape_header_value, render_param, join_params, render_all}
use xrpl_mpp_stack.Header.Quoted.{quoted-escape, span-run, skip_blanks-solid, skip_blanks-space}

-- A name as the renderer writes it: a lower-case token that does not begin as the scheme does.
abbrev pub is_name : Text → Bool
is_name [] = false
is_name (c ∷ s) = not (c == 112) && all is_token (c ∷ s) && all (λ d. lower_code d == d) (c ∷ s)

lower-same : (s : Text) → all (λ d. lower_code d == d) s ≡ true → lower s ≡ s
unfolding lower
lower-same [] h = refl
lower-same (c ∷ s) h = ground (arith, lower-same s)

pub record IsName (s : Text) : Type 0 where
  pub token : all is_token s ≡ true
  pub full : is_empty s ≡ false
  pub lowered : lower s ≡ s
  pub solid : (t : Text) → starts_blank (s ++ t) ≡ false
  pub other : (b t : Text) → starts_payment_scheme (at b (s ++ t)) ≡ false

lower-other :
    (c : ℕ) (u : Text)
    → (c == 112) ≡ false
    → (lower_code c == c) ≡ true
    → text_eq (lower (take 7 (c ∷ u))) payment_scheme ≡ false
unfolding lower text_eq
lower-other c u n l = rw ((==_iff (lower_code c) c).0 l, n) refl

starts_payment_scheme-other :
    (b : Text) (c : ℕ) (u : Text)
    → (c == 112) ≡ false
    → (lower_code c == c) ≡ true
    → starts_payment_scheme (at b (c ∷ u)) ≡ false
unfolding starts_payment_scheme
starts_payment_scheme-other b c u n l = rw (lower-other c u n l) refl

pub is_name-IsName : (s : Text) → is_name s ≡ true → IsName s
is_name-IsName [] h = absurd (cc)
is_name-IsName (c ∷ s) h =
    let (at, low) =
      and-eq-true (not (c == 112) && all is_token (c ∷ s)) (all (λ d. lower_code d == d) (c ∷ s))
        h in
    let (a, tok) = and-eq-true (not (c == 112)) (all is_token (c ∷ s)) at in
    let (tc, _) = and-eq-true (is_token c) (all is_token s) tok in
    let (lc, _) = and-eq-true (lower_code c == c) (all (λ d. lower_code d == d) s) low in
    let n : (c == 112) ≡ false = ground arith in
    record {
      token = tok;
      full = refl;
      lowered = lower-same (c ∷ s) low;
      solid = λ t. ground arith;
      other = λ b t. starts_payment_scheme-other b c (s ++ t) n lc;
    }

-- What follows a parameter: the end, or a comma.
abbrev pub IsTail : Text → Type 0
IsTail t = starts_blank t ≡ false

not_token_equals : is_token 61 ≡ false
not_token_equals = refl

pub render_param-append :
    (name v rest : Text)
    → render_param (name, v) ++ rest ≡ name ++ 61 ∷ 34 ∷ (escape_header_value v ++ 34 ∷ rest)
unfolding render_param
render_param-append name v rest = simp append_assoc

parse_token-name :
    (name b t : Text)
    → IsName name
    → (b' : Text) × (parse_token (at b (name ++ 61 ∷ t)) ≡ ok (name, at b' (61 ∷ t)))
unfolding parse_token
parse_token-name name b t n =
    let (b', h) = span-run is_token name b 61 t n.token not_token_equals in
    (b', rw h (rw n.full refl))

pub parse_param-render :
    (name v b rest : Text)
    → IsName name
    → IsTail rest
    → (b' : Text) × (parse_param (at b (render_param (name, v) ++ rest)) ≡ ok (name, v, at b' rest))
unfolding parse_param
parse_param-render name v b rest n t =
    let (b1, h1) = parse_token-name name b (34 ∷ (escape_header_value v ++ 34 ∷ rest)) n in
    let (b2, h2) = quoted-escape v (34 ∷ 61 ∷ b1) rest in
    let s1 = skip_blanks-solid b1 (61 ∷ 34 ∷ (escape_header_value v ++ 34 ∷ rest)) refl in
    let s2 = skip_blanks-solid (61 ∷ b1) (34 ∷ (escape_header_value v ++ 34 ∷ rest)) refl in
    (
      b2,
      rw (render_param-append name v rest, h1)
          (rw s1 (rw s2 (rw h2 (rw (n.lowered, skip_blanks-solid b2 rest t) refl)))),
    )

starts_other_auth_scheme-name :
    (name b t : Text) → IsName name → starts_other_auth_scheme (at b (name ++ 61 ∷ t)) ≡ false
unfolding starts_other_auth_scheme span
starts_other_auth_scheme-name name b t n =
    let (b', h) = span-run is_token name b 61 t n.token not_token_equals in rw h (rw n.full refl)

-- A comma, a space and the next name: the loop goes on.
pub after_param-more :
    (k name b t : Text)
    → IsName name
    → after_param k (at b (44 ∷ 32 ∷ (name ++ 61 ∷ t)))
      ≡ ok (go_on (at (32 ∷ 44 ∷ b) (name ++ 61 ∷ t)))
unfolding after_param
after_param-more k name b t n =
    let more = name ++ 61 ∷ t in
    rw (skip_blanks-space (44 ∷ b) more (n.solid (61 ∷ t))) (
      rw (n.other (32 ∷ 44 ∷ b) (61 ∷ t), starts_other_auth_scheme-name name (32 ∷ 44 ∷ b) t n)
        refl)

pub after_param-last : (k b : Text) → after_param k (at b []) ≡ ok (done (at b []))
unfolding after_param
after_param-last k b = refl

pub join-head :
    (q : Text × Text) (ps : Dict Text)
    → (t : Text) × (join_params (render_all (q ∷ ps)) ≡ q.0 ++ 61 ∷ t)
unfolding join_params
join-head (k, v) [] = (34 ∷ (escape_header_value v ++ 34 ∷ []), unfold render_param in refl)
join-head (k, v) (p ∷ ps) =
    let rest = 44 ∷ 32 ∷ join_params (render_all (p ∷ ps)) in
    (34 ∷ (escape_header_value v ++ 34 ∷ rest), render_param-append k v rest)

-- No key twice.
abbrev pub is_apart : Text → Dict Text → Bool
is_apart k ps = all (λ q. not (text_eq k q.0)) ps

abbrev pub is_distinct : Dict Text → Bool
is_distinct [] = true
is_distinct ((k, v) ∷ ps) = is_apart k ps && is_distinct ps

abbrev pub is_fresh : Dict Text → Dict Text → Bool
is_fresh found ps = all (λ q. is_none (lookup q.0 found)) ps

pub insert-fresh :
    (k v : Text) (found : Dict Text)
    → is_none (lookup k found) ≡ true
    → insert k v found ≡ found ++ (k, v) ∷ []
unfolding lookup insert
insert-fresh k v [] h = refl
insert-fresh k v ((j, w) ∷ found) h = ground (arith, insert-fresh k v found)

pub is_fresh-insert :
    (k v : Text) (found ps : Dict Text)
    → is_apart k ps ≡ true
    → is_fresh found ps ≡ true
    → is_fresh (insert k v found) ps ≡ true
is_fresh-insert k v found [] a f = refl
is_fresh-insert k v found ((j, w) ∷ ps) a f =
    ground (arith, lookup-insert k j v found, is_fresh-insert k v found ps)

pub is_empty-name : (name t : Text) → IsName name → is_empty (name ++ t) ≡ false
is_empty-name [] t n = absurd (let h = n.full in cc)
is_empty-name (c ∷ s) t n = refl
