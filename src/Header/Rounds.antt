-- ===== src/Header/Rounds.antt =====
-- The loop of `_parse_auth_params` on a list of rendered parameters.
use xrpl_mpp_stack.Prelude.{
  ℕ, zero, suc, ◌<◌, ◌≡◌, refl, ◌∙◌, sym, subst, true, false, none, some, [], ◌∷◌, ◌++◌, arith, All,
  length, is_none, ok, and-eq-true, append_assoc, append-nil,
}
use xrpl_mpp_stack.Text.{Text, is_empty}
use xrpl_mpp_stack.Dict.{Dict, lookup, insert}
use xrpl_mpp_stack.Header.Cursor.{at}
use xrpl_mpp_stack.Header.Params.{parse_param, params_loop}
use xrpl_mpp_stack.Header.Challenge.{render_param, join_params, render_all}
use xrpl_mpp_stack.Header.Loop.{
  IsName, parse_param-render, after_param-more, after_param-last, join-head, is_distinct, is_apart,
  is_fresh, insert-fresh, is_fresh-insert, is_empty-name, render_param-append,
}

abbrev pub AreNames : Dict Text → Type 0
AreNames ps = All (λ p. IsName p.0) ps

is_empty-param : (k v t : Text) → IsName k → is_empty (render_param (k, v) ++ t) ≡ false
is_empty-param k v t n = rw (render_param-append k v t) (is_empty-name k (61 ∷ 34 ∷ _) n)

-- One round, on the last parameter and on one that another follows.
round_last :
    (fuel : ℕ) (k v b : Text) (found : Dict Text)
    → IsName k
    → lookup k found ≡ none
    → (b' : Text) × (params_loop (suc fuel) (at b (render_param (k, v))) found
        ≡ some (ok (insert k v found, at b' [])))
unfolding params_loop
round_last fuel k v b found n f =
    let (b', h) = parse_param-render k v b [] n refl in
    let g : parse_param (at b (render_param (k, v))) ≡ ok (k, v, at b' []) =
      subst (λ t. parse_param (at b t) ≡ ok (k, v, at b' [])) (append-nil (render_param (k, v)))
        h in
    let e : is_empty (render_param (k, v)) ≡ false =
      subst (λ t. is_empty t ≡ false) (append-nil (render_param (k, v)))
        (is_empty-param k v [] n) in
    (b', rw (e, g, f) (rw (after_param-last k b') refl))

round_more :
    (fuel : ℕ) (k v b j t : Text) (found : Dict Text)
    → IsName k
    → IsName j
    → lookup k found ≡ none
    → (b' : Text) × (params_loop
          (suc fuel)
          (at b (render_param (k, v) ++ 44 ∷ 32 ∷ (j ++ 61 ∷ t)))
          found
        ≡ params_loop fuel (at b' (j ++ 61 ∷ t)) (insert k v found))
unfolding params_loop
round_more fuel k v b j t found n m f =
    let rest = 44 ∷ 32 ∷ (j ++ 61 ∷ t) in
    let (b', h) = parse_param-render k v b rest n refl in
    (32 ∷ 44 ∷ b', rw (is_empty-param k v rest n, h, f) (rw (after_param-more k j b' t m) refl))

lookup-fresh :
    (k v : Text) (found ps : Dict Text)
    → is_fresh found ((k, v) ∷ ps) ≡ true
    → lookup k found ≡ none
lookup-fresh k v found ps h = ground arith

pub is_fresh-empty : (ps : Dict Text) → is_fresh [] ps ≡ true
unfolding lookup
is_fresh-empty [] = refl
is_fresh-empty (p ∷ ps) = is_fresh-empty ps

-- All of the rounds.
pub params_loop-render :
    (ps : Dict Text) (fuel : ℕ) (b : Text) (found : Dict Text)
    → AreNames ps
    → is_distinct ps ≡ true
    → is_fresh found ps ≡ true
    → length ps < fuel
    → (b' : Text) × (params_loop fuel (at b (join_params (render_all ps))) found
        ≡ some (ok (found ++ ps, at b' [])))
unfolding join_params
params_loop-render ps zero b found names d f le = absurd (omega (arith, le))
params_loop-render [] (suc fuel) b found names d f le =
    (b, unfold params_loop in rw (append-nil found) refl)
params_loop-render ((k, v) ∷ []) (suc fuel) b found (n, _) d f le =
    let none_yet = lookup-fresh k v found [] f in
    let (b', h) = round_last fuel k v b found n none_yet in
    let (missing, _) = and-eq-true (is_none (lookup k found)) true f in
    (b', h ∙ rw (insert-fresh k v found missing) refl)
params_loop-render ((k, v) ∷ (j, w) ∷ ps) (suc fuel) b found (n, (m, names)) d f le =
    let (t, q) = join-head (j, w) ps in
    let (apart, rest_distinct) =
      and-eq-true (is_apart k ((j, w) ∷ ps)) (is_distinct ((j, w) ∷ ps)) d in
    let (missing, rest_fresh) =
      and-eq-true (is_none (lookup k found)) (is_fresh found ((j, w) ∷ ps)) f in
    let (b1, h) = round_more fuel k v b j t found n m (lookup-fresh k v found ((j, w) ∷ ps) f) in
    let fresh = is_fresh-insert k v found ((j, w) ∷ ps) apart rest_fresh in
    let (b2, g) =
      params_loop-render ((j, w) ∷ ps) fuel b1 (insert k v found) (m, names) rest_distinct fresh
        (omega (arith, le)) in
    (
      b2,
      rw
          (
            q,
            h,
            sym q,
            g,
            insert-fresh k v found missing,
            append_assoc found ((k, v) ∷ []) ((j, w) ∷ ps),
          )
          refl,
    )
