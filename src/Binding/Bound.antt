-- ===== src/Binding/Bound.antt =====
-- The slots of a challenge: what their join tells apart.
use mathlib.Core.List.{append_cancel_right}
use xrpl_mpp_stack.Prelude.{
  ℕ, ◌+◌, ◌≡◌, ◌⊎◌, refl, ap, ◌∙◌, sym, Bool, true, false, ◌&&◌, not, Option, none, some, List, [],
  ◌∷◌, ◌++◌, ◌==◌, arith, all, length, Bool-cases, Option-cases, inl, inr, and-eq-true, ok,
  ok_injective,
}
use xrpl_mpp_stack.Text.{Text, text_eq, is_empty}
use xrpl_mpp_stack.Text.Laws.{text_eq→eq}
use xrpl_mpp_stack.Header.Challenge.{
  PaymentChallenge, WireFormat, is_challenge, is_method, is_intent, is_base64url, is_lower_letter,
  holds, is_yes, payment_authorization,
}
use xrpl_mpp_stack.Binding.{or_empty, bound_slots, challenge_slots, join_bars}
use xrpl_mpp_stack.Binding.Slots.{
  is_plain, bars, total, plain-bars, bars-join, split_last, join_injective, join-last,
}

all-is_plain :
    (p : ℕ → Bool) (s : Text)
    → ((c : ℕ) → p c ≡ true → (c == 124) ≡ false)
    → all p s ≡ true
    → is_plain s ≡ true
all-is_plain p [] f h = refl
all-is_plain p (c ∷ s) f h =
    let (hc, hs) = and-eq-true (p c) (all p s) h in rw (f c hc, all-is_plain p s f hs) refl

is_method-is_plain : (t : Text) → is_method t ≡ true → is_plain t ≡ true
unfolding is_method
is_method-is_plain t h =
    all-is_plain is_lower_letter t (λ c k. ground arith)
      ((and-eq-true (not (is_empty t)) (all is_lower_letter t) h).1)

is_intent-is_plain : (t : Text) → is_intent t ≡ true → is_plain t ≡ true
unfolding is_intent
is_intent-is_plain t h =
    all-is_plain _ t (λ c k. ground arith) ((and-eq-true (not (is_empty t)) _ h).1)

is_base64url-is_plain : (t : Text) → is_base64url t ≡ true → is_plain t ≡ true
unfolding is_base64url
is_base64url-is_plain t h =
    all-is_plain _ t (λ c k. ground arith) ((and-eq-true (not (is_empty t)) _ h).1)

-- What the binding reads of the validation.
pub record IsBound (w : WireFormat) (c : PaymentChallenge) : Type 0 where
  pub method : is_method c.method ≡ true
  pub intent : is_intent c.intent ≡ true
  pub request : is_base64url c.request ≡ true
  pub opaque : holds (λ t. is_base64url t && is_yes (w.is_canonical_map t)) c.opaque ≡ true

pub is_challenge-IsBound :
    (w : WireFormat) (c : PaymentChallenge) → is_challenge w c ≡ true → IsBound w c
unfolding is_challenge
is_challenge-IsBound w c h =
    let (h12, o) = and-eq-true _ _ h in
    let (h11, _) = and-eq-true _ _ h12 in
    let (h10, _) = and-eq-true _ _ h11 in
    let (h9, _) = and-eq-true _ _ h10 in
    let (h8, r) = and-eq-true _ _ h9 in
    let (h7, _) = and-eq-true _ _ h8 in
    let (h6, _) = and-eq-true _ _ h7 in
    let (h5, i) = and-eq-true _ _ h6 in
    let (h4, m) = and-eq-true _ _ h5 in record { method = m; intent = i; request = r; opaque = o }

opaque-is_plain :
    (w : WireFormat) (o : Option Text)
    → holds (λ t. is_base64url t && is_yes (w.is_canonical_map t)) o ≡ true
    → is_plain (or_empty o) ≡ true
opaque-is_plain w none h = refl
opaque-is_plain w (some t) h =
    is_base64url-is_plain t ((and-eq-true (is_base64url t) (is_yes (w.is_canonical_map t)) h).0)

opaque-ne-header :
    (w : WireFormat) (o : Option Text)
    → w.is_canonical_map payment_authorization ≡ some false
    → holds (λ t. is_base64url t && is_yes (w.is_canonical_map t)) o ≡ true
    → payment_authorization ≡ or_empty o
    → ⊥
opaque-ne-header w none n h e = cc
opaque-ne-header w (some t) n h e =
    let (_, m) = and-eq-true (is_base64url t) (is_yes (w.is_canonical_map t)) h in
    let q : is_yes (w.is_canonical_map payment_authorization) ≡ true =
      ap (λ x. is_yes (w.is_canonical_map x)) e ∙ m in
    absurd (no (sym (ap is_yes n) ∙ q))
  where
    no : false ≡ true → ⊥
    no e = cc

-- The slots of a valid challenge whose realm and digest hold no bar hold none.
pub bound_slots-total :
    (w : WireFormat) (c : PaymentChallenge)
    → IsBound w c
    → is_plain c.realm ≡ true
    → is_plain (or_empty c.digest) ≡ true
    → is_plain (or_empty c.expires) ≡ true
    → total (bound_slots c) ≡ 0
unfolding bound_slots
bound_slots-total w c b r d e = omega (
  arith,
  plain-bars c.realm r,
  plain-bars c.method (is_method-is_plain c.method b.method),
  plain-bars c.intent (is_intent-is_plain c.intent b.intent),
  plain-bars c.request (is_base64url-is_plain c.request b.request),
  plain-bars (or_empty c.expires) e,
  plain-bars (or_empty c.digest) d,
  plain-bars (or_empty c.opaque) (opaque-is_plain w c.opaque b.opaque),
)

-- The slots that a challenge is signed with, by its header.
challenge_slots-cases :
    (c : PaymentChallenge) (ss : List Text)
    → challenge_slots c ≡ ok ss
    → ((c.header ≡ none) × (ss ≡ bound_slots c))
      ⊎ ((c.header ≡ some payment_authorization)
          × (ss ≡ bound_slots c ++ payment_authorization ∷ []))
unfolding challenge_slots
challenge_slots-cases c ss h = elim (Option-cases c.header) [
  | inl e ↦ inl (e, sym (ok_injective (rw e at h)))
  | inr (t, e) ↦ elim (Bool-cases (text_eq payment_authorization t)) [
    | inl q ↦
        let p = text_eq→eq payment_authorization t q in
        inr (
          e ∙ ap (λ x. some x) (sym p),
          sym (ok_injective (rw (e, q) at h)) ∙ ap (λ x. bound_slots c ++ x ∷ []) (sym p),
        )
    | inr q ↦ absurd (let g = (rw (e, q) at h) in cc)
  ]
]

length-bound_slots : (c d : PaymentChallenge) → length (bound_slots c) ≡ length (bound_slots d)
unfolding bound_slots
length-bound_slots c d = refl

bars-join_bound :
    (c : PaymentChallenge) → bars (join_bars (bound_slots c)) ≡ 6 + total (bound_slots c)
unfolding bound_slots
bars-join_bound c = bars-join c.realm (
    c.method
    ∷ c.intent
    ∷ c.request
    ∷ or_empty c.expires
    ∷ or_empty c.digest
    ∷ or_empty c.opaque
    ∷ [])

bars-join_header :
    (c : PaymentChallenge)
    → bars (join_bars (bound_slots c ++ payment_authorization ∷ [])) ≡ 7 + total (bound_slots c)
unfolding bound_slots
bars-join_header c = omega (
  arith,
  bars-join c.realm (
      c.method
      ∷ c.intent
      ∷ c.request
      ∷ or_empty c.expires
      ∷ or_empty c.digest
      ∷ or_empty c.opaque
      ∷ payment_authorization
      ∷ []),
)

total-header :
    (c : PaymentChallenge)
    → total (bound_slots c ++ payment_authorization ∷ []) ≡ total (bound_slots c)
unfolding bound_slots
total-header c = omega arith

last-bound :
    (c : PaymentChallenge) → (a : Text) × (join_bars (bound_slots c) ≡ a ++ 124 ∷ or_empty c.opaque)
unfolding bound_slots
last-bound c =
    join-last c.realm
      (c.method ∷ c.intent ∷ c.request ∷ or_empty c.expires ∷ or_empty c.digest ∷ [])
      (or_empty c.opaque)

last-header :
    (c : PaymentChallenge)
    → (a : Text) × (join_bars (bound_slots c ++ payment_authorization ∷ [])
        ≡ a ++ 124 ∷ payment_authorization)
unfolding bound_slots
last-header c =
    join-last c.realm
      (c.method
        ∷ c.intent
        ∷ c.request
        ∷ or_empty c.expires
        ∷ or_empty c.digest
        ∷ or_empty c.opaque
        ∷ [])
      payment_authorization

-- Slots of the same join, the first of them without bars, are the same, and so is the header.
pub slots_bind :
    (w : WireFormat) (c d : PaymentChallenge) (ss ts : List Text)
    → w.is_canonical_map payment_authorization ≡ some false
    → IsBound w d
    → total (bound_slots c) ≡ 0
    → challenge_slots c ≡ ok ss
    → challenge_slots d ≡ ok ts
    → join_bars ss ≡ join_bars ts
    → (bound_slots c ≡ bound_slots d) × (c.header ≡ d.header)
slots_bind w c d ss ts n b z h k e = elim (challenge_slots-cases c ss h) [
  | inl (hc, sc) ↦ elim (challenge_slots-cases d ts k) [
    | inl (hd, sd) ↦
        let j : join_bars (bound_slots c) ≡ join_bars (bound_slots d) =
          ap join_bars (sym sc) ∙ e ∙ ap join_bars sd in
        let zd : total (bound_slots d) ≡ 0 =
          omega (arith, bars-join_bound c, bars-join_bound d, ap bars j, z) in
        (
          join_injective (bound_slots c) (bound_slots d) (length-bound_slots c d) z zd j,
          hc ∙ sym hd,
        )
    | inr (hd, sd) ↦
        let j : join_bars (bound_slots c)
            ≡ join_bars (bound_slots d ++ payment_authorization ∷ []) =
          ap join_bars (sym sc) ∙ e ∙ ap join_bars sd in
        absurd (omega (arith, bars-join_bound c, bars-join_header d, ap bars j, z))
  ]
  | inr (hc, sc) ↦ elim (challenge_slots-cases d ts k) [
    | inl (hd, sd) ↦
        let (a, p) = last-header c in
        let (b', q) = last-bound d in
        let j : a ++ 124 ∷ payment_authorization ≡ b' ++ 124 ∷ or_empty d.opaque =
          sym p ∙ ap join_bars (sym sc) ∙ e ∙ ap join_bars sd ∙ q in
        absurd (
          opaque-ne-header w d.opaque n b.opaque (
            split_last a b' payment_authorization (or_empty d.opaque) refl
              (plain-bars (or_empty d.opaque) (opaque-is_plain w d.opaque b.opaque)) j))
    | inr (hd, sd) ↦
        let j : join_bars (bound_slots c ++ payment_authorization ∷ [])
            ≡ join_bars (bound_slots d ++ payment_authorization ∷ []) =
          ap join_bars (sym sc) ∙ e ∙ ap join_bars sd in
        let zd : total (bound_slots d) ≡ 0 =
          omega (arith, bars-join_header c, bars-join_header d, ap bars j, z) in
        (
          same_start c d (
              join_injective (bound_slots c ++ payment_authorization ∷ [])
                (bound_slots d ++ payment_authorization ∷ []) (same_length c d) (total-header c ∙ z)
                (total-header d ∙ zd) j),
          hc ∙ sym hd,
        )
  ]
]
  where
    same_length :
        (c d : PaymentChallenge)
        → length (bound_slots c ++ payment_authorization ∷ [])
          ≡ length (bound_slots d ++ payment_authorization ∷ [])
    same_length c d = unfold bound_slots in refl

    same_start :
        (c d : PaymentChallenge)
        → bound_slots c ++ payment_authorization ∷ [] ≡ bound_slots d ++ payment_authorization ∷ []
        → bound_slots c ≡ bound_slots d
    same_start c d e =
        append_cancel_right (bound_slots c) (bound_slots d) (payment_authorization ∷ []) e
