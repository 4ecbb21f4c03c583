-- ===== src/Service/Answers.antt =====
-- What the checks of an open transaction read from its values and from the answers they get.
use xrpl_mpp_stack.Prelude.{
  >>=-inv, ◌⊎◌, invalid_open_transaction, ℕ, ◌+◌, ◌-◌, ◌*◌, ◌≤◌, ◌<◌, ◌≡◌, refl, sym, false, leb,
  [], ◌∷◌, ap, subst, Bool, true, Option, none, some, ltb, arith, Code, Result, ok, err,
  raise_if-eq-ok, ok_injective, Bool-cases, inl, inr,
}
use xrpl_mpp_stack.Text.{Text}
use xrpl_mpp_stack.Schema.{is_drops}
use xrpl_mpp_stack.Service.Authentic.{not-eq-false}
use xrpl_mpp_stack.Service.Transaction.{
  Value, text, natural, negative, boolean, null, structure, Transaction, require, as_text,
  as_natural, has_text, has_natural, or_refuse, decoded_object, drops_of, current_ledger,
  expiry_cap, OpenFacts, remaining_ms, check_outlives, check_cancel_after, ripple_epoch,
  verifier_answer, authorizer_answer,
}

pub require-ok : (b : Bool) (code : Code) {u : Unit {0}} → require b code ≡ ok u → b ≡ true
require-ok b code h = not-eq-false b (raise_if-eq-ok _ _ h)

pub has_text-true :
    (o : Option Value) (p : Text → Bool)
    → has_text (as_text o) p ≡ true
    → (t : Text) × (o ≡ some (text t)) × (p t ≡ true)
has_text-true none p h = absurd (cc)
has_text-true (some (text t)) p h = (t, refl, h)
has_text-true (some (natural n)) p h = absurd (cc)
has_text-true (some negative) p h = absurd (cc)
has_text-true (some (boolean b)) p h = absurd (cc)
has_text-true (some null) p h = absurd (cc)
has_text-true (some (structure b)) p h = absurd (cc)

pub text_or_refuse :
    (o : Option Value) (code : Code) {t : Text}
    → or_refuse (as_text o) code ≡ ok t
    → o ≡ some (text t)
text_or_refuse none code h = absurd (cc)
text_or_refuse (some (text t)) code h = ap (λ x. some (text x)) (ok_injective h)
text_or_refuse (some (natural n)) code h = absurd (cc)
text_or_refuse (some negative) code h = absurd (cc)
text_or_refuse (some (boolean b)) code h = absurd (cc)
text_or_refuse (some null) code h = absurd (cc)
text_or_refuse (some (structure b)) code h = absurd (cc)

pub natural_or_refuse :
    (o : Option Value) (code : Code) {n : ℕ}
    → or_refuse (as_natural o) code ≡ ok n
    → o ≡ some (natural n)
natural_or_refuse none code h = absurd (cc)
natural_or_refuse (some (text t)) code h = absurd (cc)
natural_or_refuse (some (natural n)) code h = ap (λ x. some (natural x)) (ok_injective h)
natural_or_refuse (some negative) code h = absurd (cc)
natural_or_refuse (some (boolean b)) code h = absurd (cc)
natural_or_refuse (some null) code h = absurd (cc)
natural_or_refuse (some (structure b)) code h = absurd (cc)

pub has_natural-true :
    (o : Option Value) (p : ℕ → Bool)
    → has_natural (as_natural o) p ≡ true
    → (n : ℕ) × (o ≡ some (natural n)) × (p n ≡ true)
has_natural-true none p h = absurd (cc)
has_natural-true (some (text t)) p h = absurd (cc)
has_natural-true (some (natural n)) p h = (n, refl, h)
has_natural-true (some negative) p h = absurd (cc)
has_natural-true (some (boolean b)) p h = absurd (cc)
has_natural-true (some null) p h = absurd (cc)
has_natural-true (some (structure b)) p h = absurd (cc)

pub decoded_object-ok :
    (r : Result (Option Transaction)) {t : Transaction} → decoded_object r ≡ ok t → r ≡ ok (some t)
decoded_object-ok (ok (some t)) h = ap (λ x. ok (some x)) (ok_injective h)
decoded_object-ok (ok none) h = absurd (cc)
decoded_object-ok (err e) h = absurd (cc)

pub drops_of-ok :
    (o : Option Value) {t : Text}
    → drops_of (as_text o) ≡ ok t
    → (o ≡ some (text t)) × (is_drops t ≡ true)
drops_of-ok (some (text s)) {t} h = elim (Bool-cases (is_drops s)) [
  | inl e ↦
      let q : s ≡ t = ok_injective (rw e at h) in
      (ap (λ x. some (text x)) q, subst (λ x. is_drops x ≡ true) q e)
  | inr e ↦ absurd (let g = (rw e at h) in cc)
]
drops_of-ok none h = absurd (cc)
drops_of-ok (some (natural n)) h = absurd (cc)
drops_of-ok (some negative) h = absurd (cc)
drops_of-ok (some (boolean b)) h = absurd (cc)
drops_of-ok (some null) h = absurd (cc)
drops_of-ok (some (structure b)) h = absurd (cc)

pub current_ledger-ok :
    (o : Option (Result (Option ℕ))) {n : ℕ} → current_ledger o ≡ ok n → o ≡ some (ok (some n))
current_ledger-ok none h = absurd (cc)
current_ledger-ok (some (err e)) h = absurd (cc)
current_ledger-ok (some (ok none)) h = absurd (cc)
current_ledger-ok (some (ok (some n))) h = ap (λ x. some (ok (some x))) (ok_injective h)

-- The last ledger is within the time that is left to a challenge with a date, at four seconds a
-- ledger and with four ledgers to spare.
pub IsWithin : OpenFacts → Option Text → ℕ → ℕ → Type 0
IsWithin f expires current last =
    (date : Text)
    → expires ≡ some date
    → (date ≡ [] → ⊥)
    → (f.instant date ≤ f.clock → last ≤ current + 4)
      × (f.clock < f.instant date
          → 4000 * last < 4000 * (current + 5) + f.milliseconds (f.instant date - f.clock))

within-cap :
    (current last remaining : ℕ)
    → last ≤ expiry_cap current remaining
    → 4000 * last < 4000 * (current + 5) + remaining
within-cap current last remaining h = omega arith

cap-none : (current last : ℕ) → last ≤ expiry_cap current 0 → last ≤ current + 4
cap-none current last h = omega arith

cap-within :
    (f : OpenFacts) (date : Text) (current last : ℕ)
    → last ≤ expiry_cap current (remaining_ms f date)
    → (f.instant date ≤ f.clock → last ≤ current + 4)
      × (f.clock < f.instant date
          → 4000 * last < 4000 * (current + 5) + f.milliseconds (f.instant date - f.clock))
unfolding remaining_ms
cap-within f date current last h = (past, ahead)
  where
    past : f.instant date ≤ f.clock → last ≤ current + 4
    past le =
        let b : leb (f.instant date) f.clock ≡ true = ground (arith, le) in
        cap-none current last (rw b at h)

    ahead :
        f.clock < f.instant date
        → 4000 * last < 4000 * (current + 5) + f.milliseconds (f.instant date - f.clock)
    ahead lt =
        let b : leb (f.instant date) f.clock ≡ false = ground (arith, lt) in
        within-cap current last _ (rw b at h)

pub check_outlives-ok :
    (f : OpenFacts) (o : Option Text) (current last : ℕ) {u : Unit {0}}
    → check_outlives f o current last ≡ ok u
    → IsWithin f o current last
unfolding IsWithin
check_outlives-ok f none current last h date e full = absurd (cc)
check_outlives-ok f (some []) current last h date e full =
    let q : [] ≡ date = cc in absurd (full (sym q))
check_outlives-ok f (some (c ∷ s)) current last h date e full =
    let b = raise_if-eq-ok (ltb (expiry_cap current (remaining_ms f (c ∷ s))) last) _ h in
    let le : last ≤ expiry_cap current (remaining_ms f (c ∷ s)) = ground arith in
    let q : c ∷ s ≡ date = cc in
    cap-within f date current last (subst (λ x. last ≤ expiry_cap current (remaining_ms f x)) q le)

-- A channel that can be cancelled stands for longer than the settlement margin.
pub IsLasting : OpenFacts → Option Value → Type 0
IsLasting f value =
    (v : Value)
    → value ≡ some v
    → (v ≡ null)
      ⊎ ((n : ℕ) × (v ≡ natural n) × (f.now + f.settlement_margin_seconds < n + ripple_epoch))

lasts :
    (f : OpenFacts) (n : ℕ) {u : Unit {0}}
    → check_cancel_after f (some (natural n)) ≡ ok u
    → f.now + f.settlement_margin_seconds < n + ripple_epoch
unfolding check_cancel_after
lasts f n h = >>=-inv (require (ltb 0 n) invalid_open_transaction) _ h λ _ e h.
    let b = raise_if-eq-ok (leb (n + ripple_epoch) (f.now + f.settlement_margin_seconds)) _ h in
    ground arith

some_value : {v w : Value} → some v ≡ some w → v ≡ w
some_value h = cc

pub check_cancel_after-ok :
    (f : OpenFacts) (o : Option Value) {u : Unit {0}}
    → check_cancel_after f o ≡ ok u
    → IsLasting f o
unfolding check_cancel_after IsLasting
check_cancel_after-ok f none h v e = absurd (cc)
check_cancel_after-ok f (some null) h v e = inl (sym (some_value e))
check_cancel_after-ok f (some (natural n)) h v e =
    inr (n, sym (some_value e), lasts f n (unfold check_cancel_after in h))
check_cancel_after-ok f (some (text t)) h v e = absurd (cc)
check_cancel_after-ok f (some negative) h v e = absurd (cc)
check_cancel_after-ok f (some (boolean b)) h v e = absurd (cc)
check_cancel_after-ok f (some (structure b)) h v e = absurd (cc)

pub verifier_answer-ok :
    (r : Result (Text × Bool)) {a : Text × Bool} → verifier_answer r ≡ ok a → r ≡ ok a
verifier_answer-ok (ok a) h = h
verifier_answer-ok (err e) h = absurd (cc)

pub authorizer_answer-ok : (r : Result Bool) {b : Bool} → authorizer_answer r ≡ ok b → r ≡ ok b
authorizer_answer-ok (ok b) h = h
authorizer_answer-ok (err e) h = absurd (cc)

pub or_refuse-ok {ℓ} :
    {A : Type ℓ} (o : Option A) (code : Code) {a : A} → or_refuse o code ≡ ok a → o ≡ some a
or_refuse-ok none code h = absurd (cc)
or_refuse-ok (some a) code h = ap (λ x. some x) (ok_injective h)
