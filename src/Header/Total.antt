-- ===== src/Header/Total.antt =====
-- The loops over a header value.
use xrpl_mpp_stack.Prelude.{
  ℕ, zero, suc, ◌+◌, ◌≤◌, ◌<◌, ◌≡◌, ◌⊎◌, Error, refl, subst, Option, none, some, List, [], ◌∷◌,
  arith, length, is_some, Result, ok, err, Bool-cases, Result-cases, Option-cases, inl, inr,
  value_error, failure, pending, store_error, service_error, Bool, true, false, or_raise, ◌>>=◌,
  if◌then◌else◌,
}
use xrpl_mpp_stack.Text.{Text, codes, is_empty, py_strip}
use xrpl_mpp_stack.Dict.{Dict, lookup, insert}
use xrpl_mpp_stack.Header.Cursor.{Cursor, at, skip_blanks, find_next_payment_scheme, pass, advance}
use xrpl_mpp_stack.Header.Params.{
  parse_param, Turn, go_on, done, after_param, params_loop, checked, not_empty, parse_auth_params,
}
use xrpl_mpp_stack.Header.Challenge.{
  PaymentChallenge, WireFormat, challenge_of, prepend_valid, values_loop,
  parse_payment_challenge_values, parse_payment_challenge, single, is_too_deep,
}
use xrpl_mpp_stack.Header.Forward.{
  left, skip_blanks-left, parse_param-left, parse_param-Raises, Found, find_from-left, Turned,
  after_param-left,
}

-- The loop gave an answer, and passed over nothing backwards.
abbrev Answered {ℓ} : {A : Type ℓ} → ℕ → Option (Result (A × Cursor)) → Type 0
Answered n none = ⊥
Answered n (some (err e)) = e ≡ value_error
Answered n (some (ok (a, cu))) = left cu ≤ n

Answered-weaken {ℓ} :
    {A : Type ℓ} (n m : ℕ) (o : Option (Result (A × Cursor))) → n ≤ m → Answered n o → Answered m o
Answered-weaken n m none le h = h
Answered-weaken n m (some (err e)) le h = h
Answered-weaken n m (some (ok (a, cu))) le h = omega (arith, le, h)

after_param-cases :
    (r : Result Turn)
    → ((e : Error) × (r ≡ err e))
      ⊎ (((c : Cursor) × (r ≡ ok (done c))) ⊎ ((c : Cursor) × (r ≡ ok (go_on c))))
after_param-cases (err e) = inl (e, refl)
after_param-cases (ok (done c)) = inr (inl (c, refl))
after_param-cases (ok (go_on c)) = inr (inr (c, refl))

params_loop-Answered :
    (fuel : ℕ) (cu : Cursor) (found : Dict Text)
    → left cu < fuel
    → Answered (left cu) (params_loop fuel cu found)
unfolding params_loop
params_loop-Answered zero cu found le = absurd (omega (arith, le))
params_loop-Answered (suc fuel) cu found le = elim (Bool-cases (is_empty cu.rest)) [
  | inl e ↦ rw (params_loop, e) (omega arith)
  | inr e ↦ elim (Result-cases (parse_param cu)) [
    | inr (x, h) ↦ rw (params_loop, e, h) (parse_param-Raises cu x h)
    | inl ((name, value, next), h) ↦ elim (Bool-cases (is_some (lookup name found))) [
      | inl q ↦ rw (params_loop, e, h, q) refl
      | inr q ↦
          let short = parse_param-left cu name value next h in
          let turned = after_param-left name next.before next.rest in
          elim (after_param-cases (after_param name next)) [
            | inl (x, k) ↦ rw (params_loop, e, h, q, k) (subst (Turned (left next)) k turned)
            | inr (inl (c, k)) ↦
                let t = subst (Turned (left next)) k turned in
                rw (params_loop, e, h, q, k) (omega (arith, t, short))
            | inr (inr (c, k)) ↦
                let t = subst (Turned (left next)) k turned in
                let more =
                  params_loop-Answered fuel c (insert name value found)
                    (omega (arith, t, short, le)) in
                rw (params_loop, e, h, q, k)
                  (Answered-weaken (left c) (left cu) (params_loop fuel c (insert name value found))
                    (omega (arith, t, short)) more)
          ]
    ]
  ]
]

Answered-checked :
    (n : ℕ) (o : Option (Result (Dict Text × Cursor)))
    → Answered n o
    → Answered n (checked not_empty o)
Answered-checked n none h = h
Answered-checked n (some (err e)) h = h
Answered-checked n (some (ok ([], cu))) h = refl
Answered-checked n (some (ok (p ∷ ps, cu))) h = h

parse_auth_params-Answered : (cu : Cursor) → Answered (left cu) (parse_auth_params cu)
unfolding parse_auth_params
parse_auth_params-Answered cu =
    let start = skip_blanks cu in
    let loop = params_loop (length start.rest + 1) start [] in
    Answered-checked (left cu) loop (
      Answered-weaken (left start) (left cu) loop (skip_blanks-left cu)
        (params_loop-Answered (length start.rest + 1) start [] (omega arith)))

-- The parameters of a challenge that the scan of a header from a cursor on comes to.
pub data Visits : Cursor → Dict Text → Type 0 where
  first :
      (cu scheme next : Cursor) (params : Dict Text)
      → find_next_payment_scheme cu ≡ some scheme
      → parse_auth_params (advance 7 scheme) ≡ some (ok (params, next))
      → Visits cu params
  later :
      (cu scheme next : Cursor) (params more : Dict Text)
      → find_next_payment_scheme cu ≡ some scheme
      → parse_auth_params (advance 7 scheme) ≡ some (ok (params, next))
      → Visits next more
      → Visits cu more

-- A challenge that the scan comes to has JSON on which its validation gives up.
pub IsDeep : WireFormat → Cursor → Type 0
IsDeep w cu =
    (params : Dict Text) × Visits cu params
    × (is_too_deep w (lookup (codes "request") params) (lookup (codes "opaque") params) ≡ true)

-- The whole value was read, or a ValueError was raised, or the validation of a challenge gave up.
abbrev pub IsRead {ℓ} : {A : Type ℓ} → Type 0 → Option (Result A) → Type ℓ
IsRead {A = A} D o =
    ((a : A) × (o ≡ some (ok a))) ⊎ ((o ≡ some (err value_error)) ⊎ ((o ≡ some (err failure)) × D))

pass-left : (b s : Text) → left (pass (at b s)) ≤ length s
pass-left b [] = omega arith
pass-left b (c ∷ s) = omega arith

advance-left : (n : ℕ) (cu : Cursor) → left (advance n cu) ≤ left cu
unfolding advance
advance-left zero cu = omega arith
advance-left (suc n) cu = omega (arith, advance-left n (pass cu), pass-left cu.before cu.rest)

advance-left_name : (b s : Text) → 1 ≤ length s → left (advance 7 (at b s)) < length s
unfolding advance
advance-left_name b [] h = absurd (omega (arith, h))
advance-left_name b (c ∷ s) h = omega (arith, advance-left 6 (at (c ∷ b) s))

prepend_valid-IsRead :
    {A D : Type 0} (r : Result A) (o : Option (Result (List A)))
    → (r ≡ err failure → D)
    → IsRead D o
    → IsRead D (prepend_valid r o)
prepend_valid-IsRead (err failure) o deep h = inr (inr (refl, deep refl))
prepend_valid-IsRead r none deep (inl (cs, h)) = absurd (cc)
prepend_valid-IsRead r none deep (inr (inl h)) = absurd (cc)
prepend_valid-IsRead r none deep (inr (inr h)) = absurd (let e = h.0 in cc)
prepend_valid-IsRead (err (store_error x)) (some o) deep h = h
prepend_valid-IsRead (err (service_error x)) (some o) deep h = h
prepend_valid-IsRead (err value_error) (some o) deep h = h
prepend_valid-IsRead (err pending) (some o) deep h = h
prepend_valid-IsRead (ok c) (some (ok cs)) deep h = inl (c ∷ cs, refl)
prepend_valid-IsRead (ok c) (some (err e)) deep (inl (cs, q)) = absurd (cc)
prepend_valid-IsRead (ok c) (some (err e)) deep (inr q) = inr q

required :
    {A : Type 0} (o : Option Text) (next : Text → Result A)
    → ((t : Text) → next t ≡ err failure → ⊥)
    → (or_raise o value_error >>= next) ≡ err failure
    → ⊥
required none next f h = cc
required (some t) next f h = f t h

validated :
    (b : Bool) (c : PaymentChallenge)
    → ◌≡◌ {A = Result PaymentChallenge} (if b then ok c else err value_error) (err failure)
    → ⊥
validated true c h = cc
validated false c h = cc

-- A validation that raises what is no ValueError has given up on JSON.
challenge_of-deep :
    (w : WireFormat) (d : Dict Text)
    → challenge_of w d ≡ err failure
    → is_too_deep w (lookup (codes "request") d) (lookup (codes "opaque") d) ≡ true
unfolding challenge_of
challenge_of-deep w d h =
    elim (Bool-cases (is_too_deep w (lookup (codes "request") d) (lookup (codes "opaque") d))) [
      | inl e ↦ e
      | inr e ↦ absurd (
          required (lookup (codes "id") d) _
            (λ id. required (lookup (codes "realm") d) _ (λ realm.
              required (lookup (codes "method") d) _ (λ method.
                required (lookup (codes "intent") d) _
                  (λ intent. required (lookup (codes "request") d) _ (λ request. validated _ _)))))
            (rw e at h))
    ]

IsRead-map : {A D E : Type 0} (o : Option (Result A)) → (D → E) → IsRead D o → IsRead E o
IsRead-map o f (inl h) = inl h
IsRead-map o f (inr (inl h)) = inr (inl h)
IsRead-map o f (inr (inr (h, d))) = inr (inr (h, f d))

values_loop-IsRead :
    (w : WireFormat) (fuel : ℕ) (cu : Cursor)
    → left cu < fuel
    → IsRead (IsDeep w cu) (values_loop w fuel cu)
unfolding values_loop IsDeep
values_loop-IsRead w zero cu le = absurd (omega (arith, le))
values_loop-IsRead w (suc fuel) cu le = elim (Option-cases (find_next_payment_scheme cu)) [
  | inl h ↦ rw (values_loop, h) (inl ([], refl))
  | inr (scheme, h) ↦
      let found =
        subst (Found (left cu)) h
          (unfold find_next_payment_scheme in find_from-left cu.before cu.rest) in
      let short = advance-left_name scheme.before scheme.rest (found.1) in
      let start = advance 7 scheme in
      let answered = parse_auth_params-Answered start in
      elim (answer (left start) (parse_auth_params start) answered) [
        | inl k ↦ rw (values_loop, h, k) (inr (inl refl))
        | inr (params, next, k, n) ↦
            rw (values_loop, h, k)
              (prepend_valid-IsRead (challenge_of w params) (values_loop w fuel next)
                (λ e. (params, first cu scheme next params h k, challenge_of-deep w params e))
                (IsRead-map (values_loop w fuel next)
                  (λ d. (d.0, later cu scheme next params (d.0) h k (d.1), d.2))
                  (values_loop-IsRead w fuel next (omega (arith, n, short, found.0, le)))))
      ]
]
  where
    answer :
        (n : ℕ) (o : Option (Result (Dict Text × Cursor)))
        → Answered n o
        → (o ≡ some (err value_error))
          ⊎ ((params : Dict Text) × (next : Cursor) × (o ≡ some (ok (params, next)))
              × (left next ≤ n))
    answer n none h = absurd h
    answer n (some (err e)) h = inl (rw h refl)
    answer n (some (ok (params, next))) h = inr (params, next, refl, h)

single-IsRead :
    {D : Type 0} (r : Result (List PaymentChallenge))
    → IsRead D (some r)
    → IsRead D (some (single r))
single-IsRead (err e) (inl (cs, h)) = absurd (cc)
single-IsRead (err e) (inr (inl h)) = let q : e ≡ value_error = cc in inr (inl (rw q refl))
single-IsRead (err e) (inr (inr (h, d))) = let q : e ≡ failure = cc in inr (inr (rw q refl, d))
single-IsRead (ok []) h = inr (inl refl)
single-IsRead (ok (c ∷ [])) h = inl (c, refl)
single-IsRead (ok (c ∷ d ∷ cs)) h = inr (inl refl)

-- On any header value, the parser of its challenges and the parser of a single challenge end, and
-- each of them returns, or raises a ValueError, or raises another exception where the scan of the
-- value comes to a challenge with JSON on whose nesting the validation gives up.
pub parse_payment_challenge-IsRead :
    (w : WireFormat) (raw : Text)
    → IsRead (IsDeep w (at [] (py_strip raw))) (parse_payment_challenge_values w raw)
      × IsRead (IsDeep w (at [] (py_strip raw))) (parse_payment_challenge w raw)
unfolding parse_payment_challenge parse_payment_challenge_values
parse_payment_challenge-IsRead w raw = (values, step (parse_payment_challenge_values w raw) values)
  where
    values : IsRead (IsDeep w (at [] (py_strip raw))) (parse_payment_challenge_values w raw)
    values = values_loop-IsRead w (length (py_strip raw) + 1) (at [] (py_strip raw)) (omega arith)

    step :
        (o : Option (Result (List PaymentChallenge)))
        → IsRead (IsDeep w (at [] (py_strip raw))) o
        → IsRead
            (IsDeep w (at [] (py_strip raw)))
            (elim o [ none ↦ none | some r ↦ some (single r) ])
    step none (inl (cs, h)) = absurd (cc)
    step none (inr (inl h)) = absurd (cc)
    step none (inr (inr h)) = absurd (let e = h.0 in cc)
    step (some r) h = single-IsRead r h
