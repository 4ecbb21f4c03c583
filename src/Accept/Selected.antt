-- ===== src/Accept/Selected.antt =====
-- The range that decides on a challenge.
use xrpl_mpp_stack.Prelude.{
  ℕ, ◌≤◌, ◌≡◌, refl, ap, ◌∙◌, sym, subst, Bool, true, false, ◌&&◌, ◌||◌, not, none, some, List, [],
  ◌∷◌, ◌++◌, arith, all, leb, ltb, Bool-cases, Option-cases, and-eq-true, inl, inr, if◌then◌else◌,
}
use xrpl_mpp_stack.Header.Challenge.{PaymentChallenge}
use xrpl_mpp_stack.Accept.{
  AcceptPaymentRange, matches, matching, specificity, most_specific, selected,
}

-- A range that gives way to one of the given specificity: before it, and after it.
abbrev pub gives_way : PaymentChallenge → ℕ → AcceptPaymentRange → Bool
gives_way c n r = not (matches r c) || ltb (specificity r) n

abbrev pub is_no_better : PaymentChallenge → ℕ → AcceptPaymentRange → Bool
is_no_better c n r = not (matches r c) || leb (specificity r) n

all-weaken :
    (p q : AcceptPaymentRange → Bool) (rs : List AcceptPaymentRange)
    → ((r : AcceptPaymentRange) → p r ≡ true → q r ≡ true)
    → all p rs ≡ true
    → all q rs ≡ true
all-weaken p q [] f h = refl
all-weaken p q (r ∷ rs) f h =
    let (hr, hs) = and-eq-true (p r) (all p rs) h in rw (f r hr, all-weaken p q rs f hs) refl

all-append :
    (p : AcceptPaymentRange → Bool) (rs ss : List AcceptPaymentRange)
    → all p rs ≡ true
    → all p ss ≡ true
    → all p (rs ++ ss) ≡ true
all-append p [] ss h k = k
all-append p (r ∷ rs) ss h k =
    let (hr, hs) = and-eq-true (p r) (all p rs) h in rw (hr, all-append p rs ss hs k) refl

gives_way-is_no_better :
    (c : PaymentChallenge) (n m : ℕ) (r : AcceptPaymentRange)
    → n ≤ m
    → gives_way c n r ≡ true
    → is_no_better c m r ≡ true
gives_way-is_no_better c n m r le h = ground arith

is_no_better-le :
    (c : PaymentChallenge) (n m : ℕ) (r : AcceptPaymentRange)
    → n ≤ m
    → is_no_better c n r ≡ true
    → is_no_better c m r ≡ true
is_no_better-le c n m r le h = ground arith

selected-skip :
    (c : PaymentChallenge) (s : AcceptPaymentRange) (ranges : List AcceptPaymentRange)
    → matches s c ≡ false
    → selected (s ∷ ranges) c ≡ selected ranges c
unfolding selected matching
selected-skip c s ranges h = rw h refl

selected-first :
    (c : PaymentChallenge) (s : AcceptPaymentRange) (ranges : List AcceptPaymentRange)
    → matches s c ≡ true
    → selected ranges c ≡ none
    → selected (s ∷ ranges) c ≡ some s
unfolding selected matching
selected-first c s ranges h e = rw h (step e)
  where
    step : most_specific (matching c ranges) ≡ none → most_specific (s ∷ matching c ranges) ≡ some s
    step e = unfold most_specific in rw (most_specific, e) refl

selected-both :
    (c : PaymentChallenge) (s t : AcceptPaymentRange) (ranges : List AcceptPaymentRange)
    → matches s c ≡ true
    → selected ranges c ≡ some t
    → selected (s ∷ ranges) c ≡ (if ltb (specificity s) (specificity t) then some t else some s)
unfolding selected matching
selected-both c s t ranges h e = rw h (step e)
  where
    step :
        most_specific (matching c ranges) ≡ some t
        → most_specific (s ∷ matching c ranges)
          ≡ (if ltb (specificity s) (specificity t) then some t else some s)
    step e = unfold most_specific in rw (most_specific, e) refl

selected-none :
    (c : PaymentChallenge) (n : ℕ) (ranges : List AcceptPaymentRange)
    → selected ranges c ≡ none
    → all (is_no_better c n) ranges ≡ true
selected-none c n [] h = refl
selected-none c n (s ∷ ranges) h = elim (Bool-cases (matches s c)) [
  | inr m ↦ rw (m, selected-none c n ranges (sym (selected-skip c s ranges m) ∙ h)) refl
  | inl m ↦ elim (Option-cases (selected ranges c)) [
    | inl e ↦ absurd (let q = selected-first c s ranges m e in cc)
    | inr (t, e) ↦ absurd (let q = selected-both c s t ranges m e in ground arith)
  ]
]

-- The range that decides on a challenge stands in the list and matches the challenge, each
-- matching range before it is less specific, and no matching range after it is more specific.
pub selected_lem :
    (c : PaymentChallenge) (ranges : List AcceptPaymentRange) (r : AcceptPaymentRange)
    → selected ranges c ≡ some r
    → (before after : List AcceptPaymentRange) × (ranges ≡ before ++ r ∷ after)
      × (matches r c ≡ true)
      × (all (gives_way c (specificity r)) before ≡ true)
      × (all (is_no_better c (specificity r)) after ≡ true)
selected_lem c [] r h = absurd (nothing h)
  where
    nothing : selected [] c ≡ some r → ⊥
    nothing h = unfold selected matching most_specific in cc
selected_lem c (s ∷ ranges) r h = elim (Bool-cases (matches s c)) [
  | inr m ↦
      let (before, after, e, mr, hb, ha) =
        selected_lem c ranges r (sym (selected-skip c s ranges m) ∙ h) in
      (s ∷ before, after, ap (λ x. s ∷ x) e, mr, rw (m, hb) refl, ha)
  | inl m ↦ elim (Option-cases (selected ranges c)) [
    | inl e ↦
        let q : s ≡ r = let g = selected-first c s ranges m e in cc in
        (
          [],
          ranges,
          ap (λ x. x ∷ ranges) q,
          rw (sym q) m,
          refl,
          selected-none c (specificity r) ranges e,
        )
    | inr (t, e) ↦
        let (before, after, p, mt, hb, ha) = selected_lem c ranges t e in
        let g = sym (selected-both c s t ranges m e) ∙ h in
        elim (Bool-cases (ltb (specificity s) (specificity t))) [
          | inl l ↦
              let q : t ≡ r = let f = (rw l at g) in cc in
              (
                s ∷ before,
                after,
                ap (λ x. s ∷ x) p ∙ ap (λ x. s ∷ before ++ x ∷ after) q,
                rw (sym q) mt,
                subst (λ x. all (gives_way c (specificity x)) (s ∷ before) ≡ true) q
                    (rw (m, l, hb) refl),
                rw (sym q) ha,
              )
          | inr l ↦
              let q : s ≡ r = let f = (rw l at g) in cc in
              let le : specificity t ≤ specificity s = ground arith in
              let nb : all (is_no_better c (specificity s)) ranges ≡ true = rw p (
                all-append (is_no_better c (specificity s)) before (t ∷ after)
                  (all-weaken _ _ before
                    (λ x. gives_way-is_no_better c (specificity t) (specificity s) x le) hb)
                  (rw
                    (all-weaken _ _ after
                      (λ x. is_no_better-le c (specificity t) (specificity s) x le) ha)
                    (bounded t le))) in
              ([], ranges, ap (λ x. x ∷ ranges) q, rw (sym q) m, refl, rw (sym q) nb)
        ]
  ]
]
  where
    bounded :
        (t : AcceptPaymentRange)
        → specificity t ≤ specificity s
        → (is_no_better c (specificity s) t && true) ≡ true
    bounded t le = ground arith
