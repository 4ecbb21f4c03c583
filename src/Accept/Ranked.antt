-- ===== src/Accept/Ranked.antt =====
-- The order of the ranked challenges.
use xrpl_mpp_stack.Prelude.{
  ℕ, ◌≤◌, ◌<◌, ◌≡◌, refl, ap, ◌∙◌, Bool, true, false, ◌&&◌, Option, none, some, List, [], ◌∷◌,
  arith, all, leb, ltb, ◌==◌, Bool-cases, Option-cases, inl, inr, if◌then◌else◌,
}
use xrpl_mpp_stack.Header.Challenge.{PaymentChallenge}
use xrpl_mpp_stack.Accept.{
  AcceptPaymentRange, selected, entries, insert_entry, sort_entries, challenges_of,
  rank_payment_challenges,
}

abbrev Entry : Type 0
Entry = ℕ × PaymentChallenge

-- The `q` of the range that decides on a challenge, and 0 where no range matches.
abbrev q_of : Option AcceptPaymentRange → ℕ
q_of none = 0
q_of (some r) = r.q

unfoldable pub preference : List AcceptPaymentRange → PaymentChallenge → ℕ
preference ranges c = q_of (selected ranges c)

-- The members of a list with a property, in their order.
abbrev pub keep {ℓ} : {A : Type ℓ} → (A → Bool) → List A → List A
keep p [] = []
keep p (x ∷ xs) = let rest = keep p xs in if p x then x ∷ rest else rest

-- No member comes after one with a smaller number.
abbrev pub is_descending {ℓ} : {A : Type ℓ} → (A → ℕ) → List A → Bool
is_descending f [] = true
is_descending f (x ∷ xs) = all (λ y. leb (f y) (f x)) xs && is_descending f xs

keep-insert_entry :
    (k : ℕ) (e : Entry) (es : List Entry)
    → keep (λ x. x.0 == k) (insert_entry e es) ≡ keep (λ x. x.0 == k) (e ∷ es)
unfolding insert_entry
keep-insert_entry k e [] = refl
keep-insert_entry k e (f ∷ fs) = ground (arith, keep-insert_entry k e fs)

keep-sort_entries :
    (k : ℕ) (es : List Entry) → keep (λ x. x.0 == k) (sort_entries es) ≡ keep (λ x. x.0 == k) es
unfolding sort_entries
keep-sort_entries k [] = refl
keep-sort_entries k (e ∷ es) =
    keep-insert_entry k e (sort_entries es)
    ∙ ap (λ rest. if (e.0) == k then e ∷ rest else rest) (keep-sort_entries k es)

all-insert_entry :
    (p : Entry → Bool) (e : Entry) (es : List Entry) → all p (insert_entry e es) ≡ all p (e ∷ es)
unfolding insert_entry
all-insert_entry p e [] = refl
all-insert_entry p e (f ∷ fs) = ground (arith, all-insert_entry p e fs)

all-sort_entries : (p : Entry → Bool) (es : List Entry) → all p (sort_entries es) ≡ all p es
unfolding sort_entries
all-sort_entries p [] = refl
all-sort_entries p (e ∷ es) =
    all-insert_entry p e (sort_entries es) ∙ ap (λ b. p e && b) (all-sort_entries p es)

all-leb :
    (n m : ℕ) (es : List Entry)
    → n ≤ m
    → all (λ y. leb (y.0) n) es ≡ true
    → all (λ y. leb (y.0) m) es ≡ true
all-leb n m [] le h = refl
all-leb n m (e ∷ es) le h = ground (arith, all-leb n m es)

insert_entry-descending :
    (e : Entry) (es : List Entry)
    → is_descending (λ x. x.0) es ≡ true
    → is_descending (λ x. x.0) (insert_entry e es) ≡ true
unfolding insert_entry
insert_entry-descending e [] h = refl
insert_entry-descending e (f ∷ fs) h = ground (
  arith,
  insert_entry-descending e fs,
  all-insert_entry (λ y. leb (y.0) (f.0)) e fs,
  all-leb (f.0) (e.0) fs,
)

sort_entries-descending : (es : List Entry) → is_descending (λ x. x.0) (sort_entries es) ≡ true
unfolding sort_entries
sort_entries-descending [] = refl
sort_entries-descending (e ∷ es) =
    insert_entry-descending e (sort_entries es) (sort_entries-descending es)

-- An entry holds the preference of its challenge, which is not 0.
abbrev is_entry : List AcceptPaymentRange → Entry → Bool
is_entry ranges e = (preference ranges (e.1) == e.0) && ltb 0 (e.0)

module _ (ranges : List AcceptPaymentRange) (c : PaymentChallenge)
    (cs : List PaymentChallenge) where
  entries-unmatched : selected ranges c ≡ none → entries ranges (c ∷ cs) ≡ entries ranges cs
  unfolding entries
  entries-unmatched e = rw (entries, e) refl

  entries-refused :
      (r : AcceptPaymentRange)
      → selected ranges c ≡ some r
      → (r.q == 0) ≡ true
      → entries ranges (c ∷ cs) ≡ entries ranges cs
  unfolding entries
  entries-refused r e z = rw (entries, e, z) refl

  entries-accepted :
      (r : AcceptPaymentRange)
      → selected ranges c ≡ some r
      → (r.q == 0) ≡ false
      → entries ranges (c ∷ cs) ≡ (r.q, c) ∷ entries ranges cs
  unfolding entries
  entries-accepted r e z = rw (entries, e, z) refl

entries-is_entry :
    (ranges : List AcceptPaymentRange) (cs : List PaymentChallenge)
    → all (is_entry ranges) (entries ranges cs) ≡ true
unfolding entries
entries-is_entry ranges [] = refl
entries-is_entry ranges (c ∷ cs) = elim (Option-cases (selected ranges c)) [
  | inl e ↦ rw (entries-unmatched ranges c cs e) (entries-is_entry ranges cs)
  | inr (r, e) ↦ elim (Bool-cases (r.q == 0)) [
    | inl z ↦ rw (entries-refused ranges c cs r e z) (entries-is_entry ranges cs)
    | inr z ↦
        let p : preference ranges c ≡ r.q = unfold preference in ap q_of e in
        let more = entries-is_entry ranges cs in
        rw (entries-accepted ranges c cs r e z, more, p) (ground (arith, z))
  ]
]

keep-entries :
    (ranges : List AcceptPaymentRange) (k : ℕ) (cs : List PaymentChallenge)
    → 0 < k
    → challenges_of (keep (λ x. x.0 == k) (entries ranges cs))
      ≡ keep (λ c. preference ranges c == k) cs
unfolding entries
keep-entries ranges k [] pos = refl
keep-entries ranges k (c ∷ cs) pos = elim (Option-cases (selected ranges c)) [
  | inl e ↦
      let p : preference ranges c ≡ 0 = unfold preference in ap q_of e in
      let other : (0 == k) ≡ false = ground (arith, pos) in
      rw (entries-unmatched ranges c cs e, p, other) (keep-entries ranges k cs pos)
  | inr (r, e) ↦
      let p : preference ranges c ≡ r.q = unfold preference in ap q_of e in
      elim (Bool-cases (r.q == 0)) [
        | inl z ↦
            let other : (r.q == k) ≡ false = ground (arith, z, pos) in
            rw (entries-refused ranges c cs r e z, p, other) (keep-entries ranges k cs pos)
        | inr z ↦ elim (Bool-cases (r.q == k)) [
          | inl y ↦
              rw (entries-accepted ranges c cs r e z, p, y)
                (ap (λ rest. c ∷ rest) (keep-entries ranges k cs pos))
          | inr y ↦ rw (entries-accepted ranges c cs r e z, p, y) (keep-entries ranges k cs pos)
        ]
      ]
]

keep-challenges_of :
    (ranges : List AcceptPaymentRange) (k : ℕ) (es : List Entry)
    → all (is_entry ranges) es ≡ true
    → keep (λ c. preference ranges c == k) (challenges_of es)
      ≡ challenges_of (keep (λ x. x.0 == k) es)
keep-challenges_of ranges k [] h = refl
keep-challenges_of ranges k ((q, c) ∷ es) h = ground (arith, keep-challenges_of ranges k es)

all-challenges_of :
    (ranges : List AcceptPaymentRange) (es : List Entry)
    → all (is_entry ranges) es ≡ true
    → all (λ c. ltb 0 (preference ranges c)) (challenges_of es) ≡ true
all-challenges_of ranges [] h = refl
all-challenges_of ranges ((q, c) ∷ es) h = ground (arith, all-challenges_of ranges es)

leb-challenges_of :
    (ranges : List AcceptPaymentRange) (n : ℕ) (es : List Entry)
    → all (is_entry ranges) es ≡ true
    → all (λ y. leb (y.0) n) es ≡ true
    → all (λ c. leb (preference ranges c) n) (challenges_of es) ≡ true
leb-challenges_of ranges n [] h k = refl
leb-challenges_of ranges n ((q, c) ∷ es) h k = ground (arith, leb-challenges_of ranges n es)

challenges_of-descending :
    (ranges : List AcceptPaymentRange) (es : List Entry)
    → all (is_entry ranges) es ≡ true
    → is_descending (λ x. x.0) es ≡ true
    → is_descending (preference ranges) (challenges_of es) ≡ true
challenges_of-descending ranges [] h d = refl
challenges_of-descending ranges ((q, c) ∷ es) h d =
    ground (arith, leb-challenges_of ranges q es, challenges_of-descending ranges es)

-- With the q of the deciding range as the preference of a challenge, 0 where no range matches, the
-- ranking is in descending preference, holds no challenge of preference 0, and has for every other
-- preference exactly the offered challenges of that preference in their order.
pub rank_payment_challenges_lem :
    (challenges : List PaymentChallenge) (ranges : List AcceptPaymentRange)
    → (is_descending (preference ranges) (rank_payment_challenges challenges ranges) ≡ true)
      × (all (λ c. ltb 0 (preference ranges c)) (rank_payment_challenges challenges ranges) ≡ true)
      × ((k : ℕ)
          → 0 < k
          → keep (λ c. preference ranges c == k) (rank_payment_challenges challenges ranges)
            ≡ keep (λ c. preference ranges c == k) challenges)
unfolding rank_payment_challenges
rank_payment_challenges_lem challenges ranges =
    let es = sort_entries (entries ranges challenges) in
    let good : all (is_entry ranges) es ≡ true =
      all-sort_entries (is_entry ranges) (entries ranges challenges)
      ∙ entries-is_entry ranges challenges in
    (
      challenges_of-descending ranges es good (sort_entries-descending (entries ranges challenges)),
      all-challenges_of ranges es good,
      λ k pos.
          keep-challenges_of ranges k es good
          ∙ ap challenges_of (keep-sort_entries k (entries ranges challenges))
          ∙ keep-entries ranges k challenges pos,
    )
