-- ===== src/Accept.antt =====
-- The Accept-Payment preferences of packages/core/src/xrpl_mpp_core: AcceptPaymentRange of
-- models.py, and rank_payment_challenges of helpers.py.
pub mod Selected
pub mod Ranked
use xrpl_mpp_stack.Prelude.{
  ℕ, ◌+◌, Bool, true, false, ◌&&◌, ◌||◌, not, Option, none, some, List, [], ◌∷◌, leb, ltb, ◌==◌,
  if◌then◌else◌,
}
use xrpl_mpp_stack.Text.{Text, codes, text_eq}
use xrpl_mpp_stack.Header.Challenge.{PaymentChallenge, is_method, is_intent}

-- `q` lies between 0 and 1 and has at most three decimals: it is counted in thousandths.
pub record AcceptPaymentRange : Type 0 where
  pub method : Text
  pub intent : Text
  pub q : ℕ

abbrev pub star : Text
star = codes "*"

-- The field validators.
unfoldable pub is_range : AcceptPaymentRange → Bool
is_range r =
    (text_eq r.method star || is_method r.method)
    && (text_eq r.intent star || is_intent r.intent)
    && leb r.q 1000

-- `matches`
unfoldable pub matches : AcceptPaymentRange → PaymentChallenge → Bool
matches r c =
    (text_eq r.method star || text_eq r.method c.method)
    && (text_eq r.intent star || text_eq r.intent c.intent)

-- `int(bool)`
abbrev pub int_bool : Bool → ℕ
int_bool true = 1
int_bool false = 0

unfoldable pub specificity : AcceptPaymentRange → ℕ
specificity r = int_bool (not (text_eq r.method star)) + int_bool (not (text_eq r.intent star))

-- The ranges that match a challenge, in their order.
unfoldable pub matching : PaymentChallenge → List AcceptPaymentRange → List AcceptPaymentRange
matching c [] = []
matching c (r ∷ rs) = let rest = matching c rs in if matches r c then r ∷ rest else rest

-- `max(matching, key=...)`: the most specific range, and the first of several.
unfoldable pub most_specific : List AcceptPaymentRange → Option AcceptPaymentRange
most_specific [] = none
most_specific (r ∷ rs) = elim (most_specific rs) [
  | none ↦ some r
  | some s ↦ if ltb (specificity r) (specificity s) then some s else some r
]

unfoldable pub selected : List AcceptPaymentRange → PaymentChallenge → Option AcceptPaymentRange
selected ranges c = most_specific (matching c ranges)

-- The entries of the loop: the challenges that some range matches and none refuses with q=0.
unfoldable pub entries :
    List AcceptPaymentRange → List PaymentChallenge → List (ℕ × PaymentChallenge)
entries ranges [] = []
entries ranges (c ∷ cs) =
    let rest = entries ranges cs in
    elim (selected ranges c) [ none ↦ rest | some r ↦ if r.q == 0 then rest else (r.q, c) ∷ rest ]

-- The sort by (-q, server_index) of entries that stand in the order of their indices.
unfoldable pub insert_entry :
    ℕ × PaymentChallenge → List (ℕ × PaymentChallenge) → List (ℕ × PaymentChallenge)
insert_entry e [] = e ∷ []
insert_entry e (f ∷ fs) =
    let rest = insert_entry e fs in if leb (f.0) (e.0) then e ∷ f ∷ fs else f ∷ rest

unfoldable pub sort_entries : List (ℕ × PaymentChallenge) → List (ℕ × PaymentChallenge)
sort_entries [] = []
sort_entries (e ∷ es) = insert_entry e (sort_entries es)

abbrev pub challenges_of : List (ℕ × PaymentChallenge) → List PaymentChallenge
challenges_of [] = []
challenges_of ((q, c) ∷ es) = c ∷ challenges_of es

unfoldable pub rank_payment_challenges :
    List PaymentChallenge → List AcceptPaymentRange → List PaymentChallenge
rank_payment_challenges challenges ranges = challenges_of (sort_entries (entries ranges challenges))
