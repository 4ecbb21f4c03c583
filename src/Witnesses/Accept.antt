-- ===== src/Witnesses/Accept.antt =====
-- Concrete runs of the theorems on payment preferences.
use xrpl_mpp_stack.Prelude.{
  ◌<◌, ◌≡◌, refl, ℕ, true, some, none, List, [], ◌∷◌, ◌++◌, ◌==◌, ltb, all,
}
use xrpl_mpp_stack.Text.{Text, codes}
use xrpl_mpp_stack.Header.Challenge.{PaymentChallenge}
use xrpl_mpp_stack.Accept.{
  AcceptPaymentRange, star, selected, matches, specificity, rank_payment_challenges,
}
use xrpl_mpp_stack.Accept.Selected.{selected_lem, gives_way, is_no_better}
use xrpl_mpp_stack.Accept.Ranked.{preference, keep, is_descending, rank_payment_challenges_lem}

abbrev asked : Text → PaymentChallenge
asked intent = record {
  id = codes "c";
  realm = codes "shop";
  method = codes "xrpl";
  intent = intent;
  request = codes "e30";
  digest = none;
  expires = none;
  description = none;
  header = none;
  opaque = none;
}

abbrev any_method : AcceptPaymentRange
any_method = record { method = star; intent = star; q = 300 }

abbrev sessions : AcceptPaymentRange
sessions = record { method = codes "xrpl"; intent = codes "session"; q = 900 }

abbrev ranges : List AcceptPaymentRange
ranges = any_method ∷ sessions ∷ any_method ∷ []

abbrev offered : List PaymentChallenge
offered = asked (codes "charge") ∷ asked (codes "session") ∷ []

session-selected : selected ranges (asked (codes "session")) ≡ some sessions
unfolding selected xrpl_mpp_stack.Accept.most_specific xrpl_mpp_stack.Accept.matching matches
    xrpl_mpp_stack.Text.text_eq specificity
session-selected = refl

selected_lem_example :
    (before after : List AcceptPaymentRange) × (ranges ≡ before ++ sessions ∷ after)
    × (matches sessions (asked (codes "session")) ≡ true)
    × (all (gives_way (asked (codes "session")) (specificity sessions)) before ≡ true)
    × (all (is_no_better (asked (codes "session")) (specificity sessions)) after ≡ true)
selected_lem_example = selected_lem (asked (codes "session")) ranges sessions session-selected

rank_payment_challenges_lem_example :
    (is_descending (preference ranges) (rank_payment_challenges offered ranges) ≡ true)
    × (all (λ c. ltb 0 (preference ranges c)) (rank_payment_challenges offered ranges) ≡ true)
    × ((k : ℕ)
        → 0 < k
        → keep (λ c. preference ranges c == k) (rank_payment_challenges offered ranges)
          ≡ keep (λ c. preference ranges c == k) offered)
rank_payment_challenges_lem_example = rank_payment_challenges_lem offered ranges

-- A session is preferred to a charge.
ranked-offered :
    rank_payment_challenges offered ranges ≡ asked (codes "session") ∷ asked (codes "charge") ∷ []
unfolding rank_payment_challenges xrpl_mpp_stack.Accept.sort_entries xrpl_mpp_stack.Accept.entries
    selected xrpl_mpp_stack.Accept.most_specific xrpl_mpp_stack.Accept.matching matches
    xrpl_mpp_stack.Text.text_eq specificity xrpl_mpp_stack.Accept.insert_entry
ranked-offered = refl
