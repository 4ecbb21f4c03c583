-- ===== src/Service/Terms.antt =====
-- What the guards of the envelope ask of the terms of a challenge: its date, its network, its prior
-- amount and its channel.
use xrpl_mpp_stack.Prelude.{
  ℕ, ◌≤◌, ◌<◌, ◌≡◌, ◌⊎◌, refl, sym, true, false, Option, none, some, [], ◌∷◌, ltb, arith, ok,
  >>=-inv, raise_if, raise_if-eq-ok, inl, inr,
}
use xrpl_mpp_stack.Text.{Text, codes, upper, is_empty}
use xrpl_mpp_stack.Text.Decimal.{int_of}
use xrpl_mpp_stack.Text.Laws.{text_eq→eq, text_eq_refl}
use xrpl_mpp_stack.Schema.{Network, mainnet, testnet, devnet, network_eq}
use xrpl_mpp_stack.Header.Challenge.{PaymentChallenge}
use xrpl_mpp_stack.Binding.{or_empty}
use xrpl_mpp_stack.Did.{is_other}
use xrpl_mpp_stack.Service.Envelope.{
  XrplSessionRequest, SessionMethodDetails, SessionPayload, open_payload, claim_payload, is_not,
  is_due, challenge_is_expired, max_uint64, require_uint64, require_optional_uint64,
  request_network, prior_cumulative, is_started, check_channel,
}

pub is_not→eq : (s t : Text) → is_not s t ≡ false → s ≡ t
is_not→eq s t h = text_eq→eq s t (ground arith)

pub is_not_refl : (s t : Text) → s ≡ t → is_not s t ≡ false
is_not_refl s t e = rw (e, text_eq_refl t) refl

pub require_uint64-ok :
    (value : Text) {u : Unit {0}} → require_uint64 value ≡ ok u → int_of value ≤ max_uint64
unfolding require_uint64
require_uint64-ok value h = let b = raise_if-eq-ok _ _ h in ground arith

pub within-require_uint64 :
    (value : Text) → int_of value ≤ max_uint64 → require_uint64 value ≡ ok tt
unfolding require_uint64
within-require_uint64 value h =
    let b : ltb max_uint64 (int_of value) ≡ false = ground (arith, h) in rw b refl

-- The challenge and the payload agree on the channel: an open names none and starts from nothing,
-- and a claim names the challenge's, in either case of its letters.
pub AreAgreed : XrplSessionRequest → SessionPayload → Type 0
AreAgreed request (open_payload transaction amount signature) =
    (request.channel_id ≡ [])
    × ((details : SessionMethodDetails) (amount : Text)
        → request.method_details ≡ some details
        → details.cumulative_amount ≡ some amount
        → amount ≡ codes "0")
AreAgreed request (claim_payload kind channel_id amount signature) =
    (request.channel_id ≡ [] → ⊥) × (upper channel_id ≡ upper request.channel_id)

due-live :
    (instant : Text → ℕ) (now : ℕ) (o : Option Text)
    → is_due instant now (or_empty o) ≡ false
    → (date : Text) → o ≡ some date
    → (date ≡ []) ⊎ (now < instant date)
due-live instant now none h date e = absurd (cc)
due-live instant now (some []) h date e = let q : [] ≡ date = cc in inl (sym q)
due-live instant now (some (c ∷ s)) h date e =
    let q : c ∷ s ≡ date = cc in inr (rw (sym q) (ground arith))

live-due :
    (instant : Text → ℕ) (now : ℕ) (o : Option Text)
    → ((date : Text) → o ≡ some date → (date ≡ []) ⊎ (now < instant date))
    → is_due instant now (or_empty o) ≡ false
live-due instant now none h = refl
live-due instant now (some []) h = refl
live-due instant now (some (c ∷ s)) h = elim (h (c ∷ s) refl) [
  | inl e ↦ absurd (cc)
  | inr e ↦ ground arith
]

pub expired-live :
    (instant : Text → ℕ) (c : PaymentChallenge) (now : ℕ)
    → challenge_is_expired instant c now ≡ false
    → (date : Text) → c.expires ≡ some date
    → (date ≡ []) ⊎ (now < instant date)
unfolding challenge_is_expired
expired-live instant c now = due-live instant now c.expires

pub live-expired :
    (instant : Text → ℕ) (c : PaymentChallenge) (now : ℕ)
    → ((date : Text) → c.expires ≡ some date → (date ≡ []) ⊎ (now < instant date))
    → challenge_is_expired instant c now ≡ false
unfolding challenge_is_expired
live-expired instant c now = live-due instant now c.expires

network_eq→eq : (m n : Network) → network_eq m n ≡ true → m ≡ n
unfolding network_eq
network_eq→eq mainnet mainnet h = refl
network_eq→eq testnet testnet h = refl
network_eq→eq devnet devnet h = refl
network_eq→eq mainnet testnet h = absurd (cc)
network_eq→eq mainnet devnet h = absurd (cc)
network_eq→eq testnet mainnet h = absurd (cc)
network_eq→eq testnet devnet h = absurd (cc)
network_eq→eq devnet mainnet h = absurd (cc)
network_eq→eq devnet testnet h = absurd (cc)

network_eq_refl : (n : Network) → network_eq n n ≡ true
unfolding network_eq
network_eq_refl mainnet = refl
network_eq_refl testnet = refl
network_eq_refl devnet = refl

other-eq : (o : Option Network) (n m : Network) → is_other o n ≡ false → o ≡ some m → m ≡ n
other-eq none n m h e = absurd (cc)
other-eq (some k) n m h e =
    let q : k ≡ m = cc in
    let b : network_eq n k ≡ true = ground arith in rw (sym q) (sym (network_eq→eq n k b))

eq-other :
    (o : Option Network) (n : Network) → ((m : Network) → o ≡ some m → m ≡ n) → is_other o n ≡ false
eq-other none n h = refl
eq-other (some k) n h = rw (h k refl, network_eq_refl n) refl

pub other-network :
    (o : Option SessionMethodDetails) (n : Network)
    → is_other (request_network o) n ≡ false
    → (details : SessionMethodDetails) (network : Network) → o ≡ some details
    → details.network ≡ some network
    → network ≡ n
other-network none n h details network e f = absurd (cc)
other-network (some d) n h details network e f =
    let q : d ≡ details = cc in other-eq d.network n network h (rw q f)

pub network-other :
    (o : Option SessionMethodDetails) (n : Network)
    → ((details : SessionMethodDetails) (network : Network)
        → o ≡ some details
        → details.network ≡ some network
        → network ≡ n)
    → is_other (request_network o) n ≡ false
network-other none n h = refl
network-other (some d) n h = eq-other d.network n (λ m e. h d m refl e)

within-amount :
    (o : Option Text) {u : Unit {0}}
    → require_optional_uint64 o ≡ ok u
    → (amount : Text) → o ≡ some amount
    → int_of amount ≤ max_uint64
within-amount none h amount e = absurd (cc)
within-amount (some t) h amount e = let q : t ≡ amount = cc in rw (sym q) (require_uint64-ok t h)

amount-within :
    (o : Option Text)
    → ((amount : Text) → o ≡ some amount → int_of amount ≤ max_uint64)
    → require_optional_uint64 o ≡ ok tt
amount-within none h = refl
amount-within (some t) h = within-require_uint64 t (h t refl)

pub optional-within :
    (o : Option SessionMethodDetails) {u : Unit {0}}
    → require_optional_uint64 (prior_cumulative o) ≡ ok u
    → (details : SessionMethodDetails) (amount : Text) → o ≡ some details
    → details.cumulative_amount ≡ some amount
    → int_of amount ≤ max_uint64
optional-within none h details amount e f = absurd (cc)
optional-within (some d) h details amount e f =
    let q : d ≡ details = cc in within-amount d.cumulative_amount h amount (rw q f)

pub within-optional :
    (o : Option SessionMethodDetails)
    → ((details : SessionMethodDetails) (amount : Text)
        → o ≡ some details
        → details.cumulative_amount ≡ some amount
        → int_of amount ≤ max_uint64)
    → require_optional_uint64 (prior_cumulative o) ≡ ok tt
within-optional none h = refl
within-optional (some d) h = amount-within d.cumulative_amount (λ a e. h d a refl e)

started-zero :
    (o : Option Text) (amount : Text) → is_started o ≡ false → o ≡ some amount → amount ≡ codes "0"
started-zero none amount h e = absurd (cc)
started-zero (some t) amount h e = let q : t ≡ amount = cc in rw (sym q) (is_not→eq t (codes "0") h)

zero-started :
    (o : Option Text)
    → ((amount : Text) → o ≡ some amount → amount ≡ codes "0")
    → is_started o ≡ false
zero-started none h = refl
zero-started (some t) h = is_not_refl t (codes "0") (h t refl)

prior-zero :
    (o : Option SessionMethodDetails)
    → is_started (prior_cumulative o) ≡ false
    → (details : SessionMethodDetails) (amount : Text) → o ≡ some details
    → details.cumulative_amount ≡ some amount
    → amount ≡ codes "0"
prior-zero none h details amount e f = absurd (cc)
prior-zero (some d) h details amount e f =
    let q : d ≡ details = cc in started-zero d.cumulative_amount amount h (rw q f)

zero-prior :
    (o : Option SessionMethodDetails)
    → ((details : SessionMethodDetails) (amount : Text)
        → o ≡ some details
        → details.cumulative_amount ≡ some amount
        → amount ≡ codes "0")
    → is_started (prior_cumulative o) ≡ false
zero-prior none h = refl
zero-prior (some d) h = zero-started d.cumulative_amount (λ a e. h d a refl e)

filled : (t : Text) → is_empty t ≡ false → t ≡ [] → ⊥
filled [] h e = cc
filled (c ∷ s) h e = cc

full : (t : Text) → (t ≡ [] → ⊥) → is_empty t ≡ false
full [] h = absurd (h refl)
full (c ∷ s) h = refl

pub check_channel-AreAgreed :
    (request : XrplSessionRequest) (payload : SessionPayload) {u : Unit {0}}
    → check_channel request payload ≡ ok u
    → AreAgreed request payload
unfolding check_channel AreAgreed
check_channel-AreAgreed request (open_payload transaction amount signature) h =
    >>=-inv (raise_if _ _) _ h λ _ e h. (
      is_not→eq request.channel_id [] (raise_if-eq-ok _ _ e),
      prior-zero request.method_details (raise_if-eq-ok _ _ h),
    )
check_channel-AreAgreed request (claim_payload kind channel_id amount signature) h =
    >>=-inv (raise_if _ _) _ h λ _ e h. (
      filled request.channel_id (raise_if-eq-ok _ _ e),
      is_not→eq (upper channel_id) (upper request.channel_id) (raise_if-eq-ok _ _ h),
    )

pub AreAgreed-check_channel :
    (request : XrplSessionRequest) (payload : SessionPayload)
    → AreAgreed request payload
    → check_channel request payload ≡ ok tt
unfolding check_channel AreAgreed
AreAgreed-check_channel request (open_payload transaction amount signature) (a, b) =
    rw (is_not_refl request.channel_id [] a, zero-prior request.method_details b) refl
AreAgreed-check_channel request (claim_payload kind channel_id amount signature) (a, b) =
    rw (full request.channel_id a, is_not_refl (upper channel_id) (upper request.channel_id) b) refl
