-- ===== src/Header/Fields.antt =====
-- The parameters of `render_payment_challenge`: their names, and the values found under them.
use xrpl_mpp_stack.Prelude.{
  ◌≡◌, refl, ◌∙◌, Bool, true, false, ◌&&◌, not, Option, none, some, List, [], ◌∷◌, arith, all, All,
  and-eq-true, ok, Option-cases, inl, inr,
}
use xrpl_mpp_stack.Text.{Text, codes, text_eq, is_empty}
use xrpl_mpp_stack.Text.Laws.{text_eq_iff, text_eq_refl}
use xrpl_mpp_stack.Dict.{Dict, lookup}
use xrpl_mpp_stack.Header.Challenge.{
  PaymentChallenge, WireFormat, optional_param, params_of, challenge_of, is_challenge, is_too_deep,
  is_yes, is_deep_request, is_deep_opaque, holds, is_base64url, gives_up, has,
}
use xrpl_mpp_stack.Header.Loop.{IsName, is_name-IsName, is_apart, is_distinct}
use xrpl_mpp_stack.Header.Rounds.{AreNames}

-- The optional parameters, and those that are written.
abbrev Optional : Type 0
Optional = List (Text × Option Text)

abbrev optionals : Optional → Dict Text
optionals [] = []
optionals ((k, o) ∷ more) = optional_param k o (optionals more)

abbrev is_apart_from : Text → Optional → Bool
is_apart_from k more = all (λ q. not (text_eq k q.0)) more

abbrev are_distinct : Optional → Bool
are_distinct [] = true
are_distinct ((k, o) ∷ more) = is_apart_from k more && are_distinct more

-- `if value:` is false for an empty text, which is therefore not written.
abbrev pub is_filled : Option Text → Bool
is_filled none = true
is_filled (some t) = not (is_empty t)

optionals-is_apart :
    (k : Text) (more : Optional) → is_apart_from k more ≡ true → is_apart k (optionals more) ≡ true
optionals-is_apart k [] h = refl
optionals-is_apart k ((j, none) ∷ more) h =
    optionals-is_apart k more ((and-eq-true (not (text_eq k j)) (is_apart_from k more) h).1)
optionals-is_apart k ((j, some []) ∷ more) h =
    optionals-is_apart k more ((and-eq-true (not (text_eq k j)) (is_apart_from k more) h).1)
optionals-is_apart k ((j, some (c ∷ s)) ∷ more) h = ground (arith, optionals-is_apart k more)

optionals-is_distinct :
    (more : Optional) → are_distinct more ≡ true → is_distinct (optionals more) ≡ true
optionals-is_distinct [] h = refl
optionals-is_distinct ((k, none) ∷ more) h =
    optionals-is_distinct more ((and-eq-true (is_apart_from k more) (are_distinct more) h).1)
optionals-is_distinct ((k, some []) ∷ more) h =
    optionals-is_distinct more ((and-eq-true (is_apart_from k more) (are_distinct more) h).1)
optionals-is_distinct ((k, some (c ∷ s)) ∷ more) h =
    ground (arith, optionals-is_distinct more, optionals-is_apart k more)

optionals-AreNames : (more : Optional) → All (λ q. IsName q.0) more → AreNames (optionals more)
optionals-AreNames [] names = tt
optionals-AreNames ((k, none) ∷ more) (n, names) = optionals-AreNames more names
optionals-AreNames ((k, some []) ∷ more) (n, names) = optionals-AreNames more names
optionals-AreNames ((k, some (c ∷ s)) ∷ more) (n, names) = (n, optionals-AreNames more names)

lookup-optionals_absent :
    (k : Text) (more : Optional) → is_apart_from k more ≡ true → lookup k (optionals more) ≡ none
unfolding lookup
lookup-optionals_absent k [] h = refl
lookup-optionals_absent k ((j, none) ∷ more) h =
    lookup-optionals_absent k more ((and-eq-true (not (text_eq k j)) (is_apart_from k more) h).1)
lookup-optionals_absent k ((j, some []) ∷ more) h =
    lookup-optionals_absent k more ((and-eq-true (not (text_eq k j)) (is_apart_from k more) h).1)
lookup-optionals_absent k ((j, some (c ∷ s)) ∷ more) h =
    ground (arith, lookup-optionals_absent k more, text_eq_iff k j, text_eq_iff j k)

-- An optional value is found under its own key, and passed over under another.
lookup-optionals_same :
    (k : Text) (o : Option Text) (more : Optional)
    → is_filled o ≡ true
    → is_apart_from k more ≡ true
    → lookup k (optionals ((k, o) ∷ more)) ≡ o
unfolding lookup
lookup-optionals_same k none more f h = lookup-optionals_absent k more h
lookup-optionals_same k (some []) more f h = absurd (cc)
lookup-optionals_same k (some (c ∷ s)) more f h = rw (text_eq_refl k) refl

lookup-optionals_other :
    (k j : Text) (o : Option Text) (more : Optional)
    → text_eq j k ≡ false
    → lookup k (optionals ((j, o) ∷ more)) ≡ lookup k (optionals more)
unfolding lookup
lookup-optionals_other k j none more h = refl
lookup-optionals_other k j (some []) more h = refl
lookup-optionals_other k j (some (c ∷ s)) more h = rw h refl

abbrev after_description : PaymentChallenge → Optional
after_description c = (codes "header", c.header) ∷ (codes "opaque", c.opaque) ∷ []

abbrev after_digest : PaymentChallenge → Optional
after_digest c =
    (codes "expires", c.expires) ∷ (codes "description", c.description) ∷ after_description c

abbrev written : PaymentChallenge → Optional
written c = (codes "digest", c.digest) ∷ after_digest c

pub params_of-AreNames : (c : PaymentChallenge) → AreNames (params_of c)
unfolding params_of
params_of-AreNames c = (
  is_name-IsName (codes "id") refl,
  (
    is_name-IsName (codes "realm") refl,
    (
      is_name-IsName (codes "method") refl,
      (
        is_name-IsName (codes "intent") refl,
        (
          is_name-IsName (codes "request") refl,
          optionals-AreNames (written c) (
            is_name-IsName (codes "digest") refl,
            (
              is_name-IsName (codes "expires") refl,
              (
                is_name-IsName (codes "description") refl,
                (is_name-IsName (codes "header") refl, (is_name-IsName (codes "opaque") refl, tt)),
              ),
            ),
          ),
        ),
      ),
    ),
  ),
)

pub params_of-is_distinct : (c : PaymentChallenge) → is_distinct (params_of c) ≡ true
unfolding params_of text_eq
params_of-is_distinct c =
    rw
      (
        optionals-is_apart (codes "id") (written c) refl,
        optionals-is_apart (codes "realm") (written c) refl,
        optionals-is_apart (codes "method") (written c) refl,
        optionals-is_apart (codes "intent") (written c) refl,
        optionals-is_apart (codes "request") (written c) refl,
        optionals-is_distinct (written c) refl,
      )
      refl

-- The optional values of a challenge that the renderer writes.
abbrev pub is_written : PaymentChallenge → Bool
is_written c =
    is_filled c.digest
    && is_filled c.expires
    && is_filled c.description
    && is_filled c.header
    && is_filled c.opaque

lookup-digest :
    (c : PaymentChallenge)
    → is_filled c.digest ≡ true
    → lookup (codes "digest") (params_of c) ≡ c.digest
unfolding params_of lookup text_eq
lookup-digest c h = lookup-optionals_same (codes "digest") c.digest (after_digest c) h refl

lookup-expires :
    (c : PaymentChallenge)
    → is_filled c.expires ≡ true
    → lookup (codes "expires") (params_of c) ≡ c.expires
unfolding params_of lookup text_eq
lookup-expires c h =
    lookup-optionals_other (codes "expires") (codes "digest") c.digest (after_digest c) refl
    ∙ lookup-optionals_same (codes "expires") c.expires
        ((codes "description", c.description) ∷ after_description c) h refl

lookup-description :
    (c : PaymentChallenge)
    → is_filled c.description ≡ true
    → lookup (codes "description") (params_of c) ≡ c.description
unfolding params_of lookup text_eq
lookup-description c h =
    let k = codes "description" in
    let rest = (k, c.description) ∷ after_description c in
    lookup-optionals_other k (codes "digest") c.digest (after_digest c) refl
    ∙ lookup-optionals_other k (codes "expires") c.expires rest refl
    ∙ lookup-optionals_same k c.description (after_description c) h refl

lookup-header :
    (c : PaymentChallenge)
    → is_filled c.header ≡ true
    → lookup (codes "header") (params_of c) ≡ c.header
unfolding params_of lookup text_eq
lookup-header c h =
    let k = codes "header" in
    let rest = (codes "description", c.description) ∷ after_description c in
    lookup-optionals_other k (codes "digest") c.digest (after_digest c) refl
    ∙ lookup-optionals_other k (codes "expires") c.expires rest refl
    ∙ lookup-optionals_other k (codes "description") c.description (after_description c) refl
    ∙ lookup-optionals_same k c.header ((codes "opaque", c.opaque) ∷ []) h refl

lookup-opaque :
    (c : PaymentChallenge)
    → is_filled c.opaque ≡ true
    → lookup (codes "opaque") (params_of c) ≡ c.opaque
unfolding params_of lookup text_eq
lookup-opaque c h =
    let k = codes "opaque" in
    let rest = (codes "description", c.description) ∷ after_description c in
    lookup-optionals_other k (codes "digest") c.digest (after_digest c) refl
    ∙ lookup-optionals_other k (codes "expires") c.expires rest refl
    ∙ lookup-optionals_other k (codes "description") c.description (after_description c) refl
    ∙ lookup-optionals_other k (codes "header") c.header ((codes "opaque", c.opaque) ∷ []) refl
    ∙ lookup-optionals_same k c.opaque [] h refl

lookup-required :
    (c : PaymentChallenge)
    → (lookup (codes "id") (params_of c) ≡ some c.id)
      × (lookup (codes "realm") (params_of c) ≡ some c.realm)
      × (lookup (codes "method") (params_of c) ≡ some c.method)
      × (lookup (codes "intent") (params_of c) ≡ some c.intent)
      × (lookup (codes "request") (params_of c) ≡ some c.request)
unfolding params_of lookup text_eq
lookup-required c = (refl, refl, refl, refl, refl)

yes-answered :
    (read : Text → Option Bool) (t : Text) → is_yes (read t) ≡ true → gives_up read t ≡ false
yes-answered read t h = elim (Option-cases (read t)) [
  | inl e ↦ absurd (let q = (rw e at h) in cc)
  | inr (b, e) ↦ rw e refl
]

-- No validator gives up on a valid challenge.
is_challenge-shallow :
    (w : WireFormat) (c : PaymentChallenge)
    → is_challenge w c ≡ true
    → is_too_deep w (some c.request) c.opaque ≡ false
unfolding is_challenge is_too_deep
is_challenge-shallow w c valid =
    let (h12, o) = and-eq-true _ _ valid in
    let (h11, _) = and-eq-true _ _ h12 in
    let (h10, _) = and-eq-true _ _ h11 in
    let (_, j) = and-eq-true _ _ h10 in
    let e = yes-answered w.is_canonical_json c.request j in
    let request : is_deep_request w c.request ≡ false = ground arith in
    rw (request, opaque w c.opaque o) refl
  where
    opaque :
        (w : WireFormat) (o : Option Text)
        → holds (λ t. is_base64url t && is_yes (w.is_canonical_map t)) o ≡ true
        → has (is_deep_opaque w) o ≡ false
    opaque w none h = refl
    opaque w (some t) h =
        let (_, m) = and-eq-true (is_base64url t) (is_yes (w.is_canonical_map t)) h in
        let e = yes-answered w.is_canonical_map t m in ground arith

-- A valid challenge whose optional values are written is read back from its parameters.
pub challenge_of-params_of :
    (w : WireFormat) (c : PaymentChallenge)
    → is_challenge w c ≡ true
    → is_written c ≡ true
    → challenge_of w (params_of c) ≡ ok c
unfolding challenge_of
challenge_of-params_of w c valid h =
    let (i, r, m, n, q) = lookup-required c in
    let (h4, op) =
      and-eq-true
        (is_filled c.digest && is_filled c.expires && is_filled c.description && is_filled c.header)
        (is_filled c.opaque) h in
    let (h3, he) =
      and-eq-true (is_filled c.digest && is_filled c.expires && is_filled c.description)
        (is_filled c.header) h4 in
    let (h2, de) =
      and-eq-true (is_filled c.digest && is_filled c.expires) (is_filled c.description) h3 in
    let (di, ex) = and-eq-true (is_filled c.digest) (is_filled c.expires) h2 in
    rw
      (
        q,
        lookup-opaque c op,
        is_challenge-shallow w c valid,
        i,
        r,
        m,
        n,
        lookup-digest c di,
        lookup-expires c ex,
        lookup-description c de,
        lookup-header c he,
      )
      (rw valid refl)
