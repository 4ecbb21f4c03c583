-- ===== src/Prelude/Outcome.antt =====
-- Calls that may raise: what they return, or the exception.
use mathlib.Core.Path.{◌≡◌, refl}
use mathlib.Core.Bool.{Bool, true, false}
use mathlib.Core.Option.{Option, none, some}
use mathlib.Core.Logic.{◌⊎◌, inl, inr}

-- The exceptions of the modelled code. `store_error` carries the code of a `PayChannelStoreError`,
-- `service_error` that of a `PayChannelVerificationError`, `pending` is `SettlementPendingError`;
-- `value_error` is any other `ValueError`, pydantic's `ValidationError` included, and `failure`
-- any exception of another class, such as one that a client library raises.
pub data Code : Type 0 where
  channel_not_found corrupt_channel_state invalid_channel_state channel_finalized : Code
  funding_regression channel_exhausted redeemed_regression redeemed_exceeds_cumulative : Code
  channel_state_changed channel_conflict : Code
  channel_replay cumulative_regression short_payment channel_binding_mismatch : Code
  invalid_signature channel_ledger_check_failed channel_lookup_failed : Code
  challenge_replay_check_failed redemption_lease_failed close_settlement_failed : Code
  open_submission_required open_submission_failed : Code
  unsupported_method unsupported_intent invalid_challenge_binding challenge_expired : Code
  invalid_session_request network_mismatch recipient_mismatch invalid_source source_mismatch : Code
  invalid_session_payload invalid_amount channel_mismatch cumulative_mismatch : Code
  invalid_open_transaction public_key_mismatch invalid_funding settle_delay_too_short : Code
  open_transaction_unbounded ledger_index_unavailable open_transaction_expired : Code
  open_transaction_outlives_challenge channel_closing invalid_open_signature : Code
  unauthorized_signer signer_authorization_failed : Code

pub data Error : Type 0 where
  store_error : Code → Error
  service_error : Code → Error
  value_error : Error
  pending : Error
  failure : Error

pub data Result {ℓ} (A : Type ℓ) : Type ℓ where
  err : Error → Result A
  ok : A → Result A

-- `if bad: raise exc`
abbrev pub raise_if : Bool → Error → Result (Unit {0})
raise_if false exc = ok tt
raise_if true exc = err exc

-- What follows a call: it is skipped where the call raises.
infixl 5 ◌>>=◌
abbrev pub ◌>>=◌ {ℓ κ} : {A : Type ℓ} {B : Type κ} → Result A → (A → Result B) → Result B
err exc >>= next = err exc
ok value >>= next = next value

-- The same for a statement without a value.
infixl 5 ◌>>◌
abbrev pub ◌>>◌ {ℓ} : {B : Type ℓ} → Result (Unit {0}) → Result B → Result B
statement >> rest = statement >>= λ _. rest

-- `if value is None: raise e`
abbrev pub or_raise {ℓ} : {A : Type ℓ} → Option A → Error → Result A
or_raise none e = err e
or_raise (some a) e = ok a

-- A chain that returned: its first call did, and so did the rest on what that gave.
pub >>=-eq-ok {ℓ κ} :
    {A : Type ℓ} {B : Type κ} {last : B} (call : Result A) (next : A → Result B)
    → call >>= next ≡ ok last
    → (value : A) × (call ≡ ok value) × (next value ≡ ok last)
>>=-eq-ok (err exc) next returned = cc
>>=-eq-ok (ok value) next returned = (value, refl, returned)

-- The same, handed to what follows, so that a chain of steps is opened one step at a time.
pub >>=-inv {ℓ κ μ} :
    {A : Type ℓ} {B : Type κ} {P : Type μ} (m : Result A) (f : A → Result B) {b : B}
    → (m >>= f) ≡ ok b
    → ((a : A) → m ≡ ok a → f a ≡ ok b → P)
    → P
>>=-inv (ok a) f h k = k a refl h
>>=-inv (err e) f h k = absurd (cc)

pub ok_injective {ℓ} : {A : Type ℓ} {a b : A} → ok a ≡ ok b → a ≡ b
ok_injective h = cc

pub Result-cases {ℓ} :
    {A : Type ℓ} (r : Result A) → ((a : A) × (r ≡ ok a)) ⊎ ((e : Error) × (r ≡ err e))
Result-cases (ok a) = inl (a, refl)
Result-cases (err e) = inr (e, refl)

pub raise_if-eq-ok : (b : Bool) (e : Error) {u : Unit {0}} → raise_if b e ≡ ok u → b ≡ false
raise_if-eq-ok true e h = cc
raise_if-eq-ok false e h = refl
