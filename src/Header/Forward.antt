-- ===== src/Header/Forward.antt =====
-- The scanners and the parser of a parameter: what they leave of the value, and what they raise.
use xrpl_mpp_stack.Prelude.{
  ℕ, suc, ◌≤◌, ◌<◌, ◌≡◌, Error, refl, ◌∙◌, sym, subst, Bool, false, ◌||◌, Option, none, some, [],
  ◌∷◌, arith, ◌==◌, length, Result, ok, err, Bool-cases, inl, inr, >>=-inv, ◌>>=◌, ok_injective,
  value_error,
}
use xrpl_mpp_stack.Text.{Text, codes, text_eq, is_empty}
use xrpl_mpp_stack.Header.Cursor.{
  Cursor, at, span, is_blank, is_token, skip_blanks, starts_payment_scheme,
  starts_other_auth_scheme, find_from, find_next_payment_scheme,
}
use xrpl_mpp_stack.Header.Params.{
  put_front, quoted, parse_token, expect_equals, parse_auth_param_value, parse_param, Turn, go_on,
  done, or_end, after_param,
}

abbrev pub left : Cursor → ℕ
left cu = length cu.rest

span-left : (p : ℕ → Bool) (b s : Text) → left ((span p b s).1) ≤ length s
unfolding span
span-left p b [] = omega arith
span-left p b (c ∷ s) = ground (arith, span-left p (c ∷ b) s)

span-left_name :
    (p : ℕ → Bool) (b s : Text)
    → is_empty ((span p b s).0) ≡ false
    → left ((span p b s).1) < length s
unfolding span
span-left_name p b [] h = absurd (cc)
span-left_name p b (c ∷ s) h = ground (arith, span-left p (c ∷ b) s)

pub skip_blanks-left : (cu : Cursor) → left (skip_blanks cu) ≤ left cu
unfolding skip_blanks
skip_blanks-left cu = span-left is_blank cu.before cu.rest

-- What a parser left over is at most so long.
abbrev Within : ℕ → Result (Text × Cursor) → Type 0
Within n (err e) = e ≡ value_error
Within n (ok (s, cu)) = left cu ≤ n

Within-put_front :
    (n m : ℕ) (c : ℕ) (r : Result (Text × Cursor)) → n ≤ m → Within n r → Within m (put_front c r)
Within-put_front n m c (err e) le h = h
Within-put_front n m c (ok (s, cu)) le h = omega (arith, le, h)

quoted-left : (b s : Text) → Within (length s) (quoted b s)
unfolding quoted
quoted-left b [] = refl
quoted-left b (c ∷ []) = elim (Bool-cases (c == 34)) [
  | inl e ↦ rw e (omega arith)
  | inr e ↦ rw e refl
]
quoted-left b (c ∷ d ∷ s) = elim (Bool-cases (c == 92)) [
  | inl e ↦ rw e (
      Within-put_front (length s) (suc (suc (length s))) d (quoted (d ∷ c ∷ b) s) (omega arith)
        (quoted-left (d ∷ c ∷ b) s))
  | inr e ↦ elim (Bool-cases (c == 34)) [
    | inl q ↦ rw (e, q) (omega arith)
    | inr n ↦
        rw (e, n)
          (Within-put_front (suc (length s)) (suc (suc (length s))) c (quoted (c ∷ b) (d ∷ s))
            (omega arith) (quoted-left (c ∷ b) (d ∷ s)))
  ]
]

parse_token-left :
    (cu : Cursor) (name : Text) (next : Cursor)
    → parse_token cu ≡ ok (name, next)
    → left next < left cu
unfolding parse_token
parse_token-left cu name next h =
    elim (Bool-cases (is_empty ((span is_token cu.before cu.rest).0))) [
      | inl e ↦ absurd (let g = (rw e at h) in cc)
      | inr e ↦
          let g = (rw e at h) in
          let q : (span is_token cu.before cu.rest).1 ≡ next = cc in
          subst (λ x. left x < left cu) q (span-left_name is_token cu.before cu.rest e)
    ]

expect_equals-left :
    (b s : Text) (next : Cursor) → expect_equals (at b s) ≡ ok next → left next ≤ length s
unfolding expect_equals
expect_equals-left b [] next h = absurd (cc)
expect_equals-left b (c ∷ s) next h = elim (Bool-cases (c == 61)) [
  | inl e ↦ subst (λ x. left x ≤ suc (length s)) (ok_injective (rw e at h)) (omega arith)
  | inr e ↦ absurd (let g = (rw e at h) in cc)
]

within :
    (n : ℕ) (r : Result (Text × Cursor)) (v : Text) (next : Cursor)
    → Within n r
    → r ≡ ok (v, next)
    → left next ≤ n
within n (err e) v next w h = absurd (cc)
within n (ok (s, cu)) v next w h = let q : cu ≡ next = cc in subst (λ x. left x ≤ n) q w

parse_auth_param_value-left :
    (b s v : Text) (next : Cursor)
    → parse_auth_param_value (at b s) ≡ ok (v, next)
    → left next ≤ length s
unfolding parse_auth_param_value
parse_auth_param_value-left b [] v next h = absurd (cc)
parse_auth_param_value-left b (c ∷ s) v next h = elim (Bool-cases (c == 34)) [
  | inl e ↦
      let le = within (length s) (quoted (c ∷ b) s) v next (quoted-left (c ∷ b) s) (rw e at h) in
      omega (arith, le)
  | inr e ↦ let le = parse_token-left (at b (c ∷ s)) v next (rw e at h) in omega (arith, le)
]

pub parse_param-left :
    (cu : Cursor) (name value : Text) (next : Cursor)
    → parse_param cu ≡ ok (name, value, next)
    → left next < left cu
unfolding parse_param
parse_param-left cu name value next h = >>=-inv (parse_token cu) _ h (λ a ha h1.
    >>=-inv (expect_equals (skip_blanks (a.1))) _ h1 (λ valued hv h2.
      >>=-inv (parse_auth_param_value (skip_blanks valued)) _ h2 (λ r hr h3.
        let t = parse_token-left cu (a.0) (a.1) ha in
        let e = expect_equals-left (skip_blanks (a.1)).before (skip_blanks (a.1)).rest valued hv in
        let v =
          parse_auth_param_value-left (skip_blanks valued).before (skip_blanks valued).rest (r.0)
            (r.1) hr in
        let q : skip_blanks (r.1) ≡ next = cc in
        let s = subst (λ x. left x ≤ left (r.1)) q (skip_blanks-left (r.1)) in
        omega (arith, t, e, v, s, skip_blanks-left (a.1), skip_blanks-left valued))))

-- What the parsers raise.
abbrev Raises {ℓ} : {A : Type ℓ} → Result A → Type ℓ
Raises r = (e : Error) → r ≡ err e → e ≡ value_error

Raises->>= {ℓ κ} :
    {A : Type ℓ} {B : Type κ} (m : Result A) (f : A → Result B)
    → Raises m
    → ((a : A) → Raises (f a))
    → Raises (m >>= f)
Raises->>= (err x) f hm hf e h = let q : x ≡ e = cc in sym q ∙ hm x refl
Raises->>= (ok a) f hm hf e h = hf a e h

parse_token-Raises : (cu : Cursor) → Raises (parse_token cu)
unfolding parse_token
parse_token-Raises cu e h = ground arith

expect_equals-Raises : (b s : Text) → Raises (expect_equals (at b s))
unfolding expect_equals
expect_equals-Raises b [] e h = cc
expect_equals-Raises b (c ∷ s) e h = ground arith

quoted-Raises : (b s : Text) → Raises (quoted b s)
quoted-Raises b s e h = subst (Within (length s)) h (quoted-left b s)

parse_auth_param_value-Raises : (b s : Text) → Raises (parse_auth_param_value (at b s))
unfolding parse_auth_param_value
parse_auth_param_value-Raises b [] e h = cc
parse_auth_param_value-Raises b (c ∷ s) e h = elim (Bool-cases (c == 34)) [
  | inl q ↦ quoted-Raises (c ∷ b) s e (rw q at h)
  | inr q ↦ parse_token-Raises (at b (c ∷ s)) e (rw q at h)
]

pub parse_param-Raises : (cu : Cursor) → Raises (parse_param cu)
unfolding parse_param
parse_param-Raises cu = Raises->>= (parse_token cu) _ (parse_token-Raises cu) (λ a.
    Raises->>= (expect_equals (skip_blanks (a.1))) _
      (expect_equals-Raises (skip_blanks (a.1)).before (skip_blanks (a.1)).rest)
      (λ valued.
        Raises->>= (parse_auth_param_value (skip_blanks valued)) _
          (parse_auth_param_value-Raises (skip_blanks valued).before (skip_blanks valued).rest)
          (λ r e h. cc)))

-- An occurrence of the scheme is not at the end.
abbrev pub Found : ℕ → Option Cursor → Type 0
Found n none = Unit
Found n (some cu) = (left cu ≤ n) × (1 ≤ left cu)

pub find_from-left : (b s : Text) → Found (length s) (find_from b s)
unfolding find_from
find_from-left b [] = tt
find_from-left b (c ∷ s) = elim (Bool-cases (starts_payment_scheme (at b (c ∷ s)))) [
  | inl e ↦ rw e (omega arith, omega arith)
  | inr e ↦ rw e (weaken (find_from (c ∷ b) s) (find_from-left (c ∷ b) s))
]
  where
    weaken : (o : Option Cursor) → Found (length s) o → Found (suc (length s)) o
    weaken none h = tt
    weaken (some cu) (le, pos) = (omega (arith, le), pos)

abbrev pub Turned : ℕ → Result Turn → Type 0
Turned n (err e) = e ≡ value_error
Turned n (ok (go_on cu)) = left cu ≤ n
Turned n (ok (done cu)) = left cu ≤ n

or_end-left : (cu : Cursor) (o : Option Cursor) → Found (left cu) o → left (or_end cu o) ≤ left cu
or_end-left cu none h = omega arith
or_end-left cu (some next) (le, pos) = le

pub after_param-left : (name b s : Text) → Turned (length s) (after_param name (at b s))
unfolding after_param
after_param-left name b [] = omega arith
after_param-left name b (c ∷ s) = elim (Bool-cases (c == 44)) [
  | inl e ↦
      let next = skip_blanks (at (c ∷ b) s) in
      let le = skip_blanks-left (at (c ∷ b) s) in
      elim (Bool-cases (starts_payment_scheme next || starts_other_auth_scheme next)) [
        | inl q ↦ rw (e, q) (omega (arith, le))
        | inr q ↦ rw (e, q) (omega (arith, le))
      ]
  | inr e ↦ elim (Bool-cases (text_eq name (codes "description"))) [
    | inl q ↦
        rw (e, q)
          (or_end-left (at b (c ∷ s)) (find_next_payment_scheme (at b (c ∷ s)))
            (unfold find_next_payment_scheme in find_from-left b (c ∷ s)))
    | inr q ↦ rw (e, q) refl
  ]
]
