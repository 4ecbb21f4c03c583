-- ===== src/Service/Transaction.antt =====
-- `_decode_and_verify_open_transaction` of the payment-channel service.
use xrpl_mpp_stack.Prelude.{
  ℕ, ◌+◌, ◌-◌, ◌/◌, [], ◌∷◌, Bool, true, false, ◌&&◌, not, Option, none, some, leb, ltb, ◌==◌, Code,
  Result, ok, err, service_error, ◌>>=◌, ◌>>◌, raise_if, source_mismatch, recipient_mismatch,
  invalid_open_transaction, public_key_mismatch, invalid_funding, settle_delay_too_short,
  open_transaction_unbounded, ledger_index_unavailable, open_transaction_expired,
  open_transaction_outlives_challenge, channel_closing, invalid_open_signature, unauthorized_signer,
  signer_authorization_failed, if◌then◌else◌,
}
use xrpl_mpp_stack.Text.{Text, codes, text_eq, upper, is_empty}
use xrpl_mpp_stack.Text.Decimal.{int_of}
use xrpl_mpp_stack.Dict.{Dict, lookup, erase}
use xrpl_mpp_stack.Schema.{is_drops}
use xrpl_mpp_stack.Service.Envelope.{require_uint64}

-- A value of the decoded transaction. A list or an object is told apart by its truth only, and a
-- negative integer by being one.
pub data Value : Type 0 where
  text : Text → Value
  natural : ℕ → Value
  negative : Value
  boolean : Bool → Value
  null : Value
  structure : (is_true : Bool) → Value

abbrev pub Transaction : Type 0
Transaction = Dict Value

-- The service's settings for the checks, and the answers of what it calls: the decoder (`ok none`
-- for what is no object), the index of the current ledger (`none` for a hook that is not
-- configured, `some (ok none)` for what is no index), the instant of a date, the clock in
-- microseconds and in seconds, the milliseconds of a time in microseconds, which Python computes in
-- floating point, the verifier of the transaction's signature, which derives the signer's address,
-- and the authorizer of other signers.
pub record OpenFacts : Type 0 where
  pub payer : Text
  pub recipient : Text
  pub public_key : Text
  pub minimum_settle_delay : ℕ
  pub settlement_margin_seconds : ℕ
  pub decoded : Result (Option Transaction)
  pub ledger_index : Option (Result (Option ℕ))
  pub instant : Text → ℕ
  pub clock : ℕ
  pub milliseconds : ℕ → ℕ
  pub now : ℕ
  pub verifier : Transaction → Text → Text → Result (Text × Bool)
  pub authorizer : Option (Text → Text → Result Bool)

abbrev pub refuse {ℓ} : {A : Type ℓ} → Code → Result A
refuse code = err (service_error code)

abbrev pub require : Bool → Code → Result (Unit {0})
require b code = raise_if (not b) (service_error code)

-- `transaction.get(key)` where it is a text, and where it is a natural number.
abbrev pub as_text : Option Value → Option Text
as_text (some (text t)) = some t
as_text _ = none

abbrev pub as_natural : Option Value → Option ℕ
as_natural (some (natural n)) = some n
as_natural _ = none

abbrev pub is_true : Option Value → Bool
is_true (some (text t)) = not (is_empty t)
is_true (some (natural n)) = not (n == 0)
is_true (some negative) = true
is_true (some (boolean b)) = b
is_true (some null) = false
is_true (some (structure b)) = b
is_true none = false

-- `value is None`
abbrev pub is_null : Option Value → Bool
is_null none = true
is_null (some null) = true
is_null _ = false

abbrev pub has_text : Option Text → (Text → Bool) → Bool
has_text none p = false
has_text (some t) p = p t

abbrev pub has_natural : Option ℕ → (ℕ → Bool) → Bool
has_natural none p = false
has_natural (some n) p = p n

abbrev pub or_refuse {ℓ} : {A : Type ℓ} → Option A → Code → Result A
or_refuse none code = refuse code
or_refuse (some a) code = ok a

-- The decoder's answer, under `except Exception` and the test for an object.
abbrev pub decoded_object : Result (Option Transaction) → Result Transaction
decoded_object (ok (some t)) = ok t
decoded_object _ = refuse invalid_open_transaction

-- `_DROPS_ADAPTER.validate_python(raw_funded)`
abbrev pub drops_of : Option Text → Result Text
drops_of none = refuse invalid_funding
drops_of (some t) = if is_drops t then ok t else refuse invalid_funding

abbrev pub current_ledger : Option (Result (Option ℕ)) → Result ℕ
current_ledger (some (ok (some n))) = ok n
current_ledger _ = refuse ledger_index_unavailable

-- `int(current_ledger) + ceil(remaining_ms / 4_000) + 4`
abbrev pub expiry_cap : ℕ → ℕ → ℕ
expiry_cap current remaining = current + (remaining + 3999) / 4000 + 4

-- `max(0, int((expires_at - self._now()).total_seconds() * 1_000))`
unfoldable pub remaining_ms : OpenFacts → Text → ℕ
remaining_ms f date =
    if leb (f.instant date) f.clock then 0 else f.milliseconds (f.instant date - f.clock)

-- `if challenge_expires: ...`
abbrev pub check_outlives : OpenFacts → Option Text → ℕ → ℕ → Result (Unit {0})
check_outlives f none current last = ok tt
check_outlives f (some []) current last = ok tt
check_outlives f (some (c ∷ s)) current last =
    raise_if (ltb (expiry_cap current (remaining_ms f (c ∷ s))) last)
      (service_error open_transaction_outlives_challenge)

-- The Ripple epoch in Unix time.
abbrev pub ripple_epoch : ℕ
ripple_epoch = 946684800

unfoldable pub check_cancel_after : OpenFacts → Option Value → Result (Unit {0})
check_cancel_after f value = if is_null value then ok tt else (do
  cancel_after ← or_refuse (as_natural value) invalid_open_transaction
  require (ltb 0 cancel_after) invalid_open_transaction
  raise_if (leb (cancel_after + ripple_epoch) (f.now + f.settlement_margin_seconds))
      (service_error channel_closing))

abbrev pub verifier_answer : Result (Text × Bool) → Result (Text × Bool)
verifier_answer (ok a) = ok a
verifier_answer (err e) = refuse invalid_open_signature

abbrev pub authorizer_answer : Result Bool → Result Bool
authorizer_answer (ok a) = ok a
authorizer_answer (err e) = refuse signer_authorization_failed

-- A signer other than the account.
unfoldable pub check_signer : OpenFacts → Text → Result (Unit {0})
check_signer f signing_address = if text_eq signing_address f.payer then ok tt else (do
  authorize ← or_refuse f.authorizer unauthorized_signer
  authorized ← authorizer_answer (authorize f.payer signing_address)
  require authorized unauthorized_signer)

-- From `SettleDelay` to `CancelAfter`: how long the transaction and its channel can stand.
unfoldable pub check_bounds : OpenFacts → Transaction → Option Text → Result (Unit {0})
check_bounds f t expires = do
  require (has_natural (as_natural (lookup (codes "SettleDelay") t)) (leb f.minimum_settle_delay))
      settle_delay_too_short
  last ← or_refuse (as_natural (lookup (codes "LastLedgerSequence") t)) open_transaction_unbounded
  require (ltb 0 last) open_transaction_unbounded
  current ← current_ledger f.ledger_index
  raise_if (leb last current) (service_error open_transaction_expired)
  check_outlives f expires current last
  check_cancel_after f (lookup (codes "CancelAfter") t)

-- The transaction's own signature.
unfoldable pub check_signature : OpenFacts → Transaction → Result (Unit {0})
check_signature f t = do
  signing_public_key ← or_refuse (as_text (lookup (codes "SigningPubKey") t)) invalid_open_signature
  raise_if (is_empty signing_public_key) (service_error invalid_open_signature)
  signature ← or_refuse (as_text (lookup (codes "TxnSignature") t)) invalid_open_signature
  raise_if (is_empty signature) (service_error invalid_open_signature)
  (signing_address, valid) ←
      verifier_answer (f.verifier (erase (codes "TxnSignature") t) signing_public_key signature)
  require valid invalid_open_signature
  check_signer f signing_address

-- `_decode_and_verify_open_transaction`; a minimum delay is no negative number.
unfoldable pub verify_open_transaction : OpenFacts → Text → Option Text → Result Text
verify_open_transaction f recipient expires = do
  t ← decoded_object f.decoded
  require
      (has_text (as_text (lookup (codes "TransactionType") t))
        (text_eq (codes "PaymentChannelCreate")))
      invalid_open_transaction
  raise_if (is_true (lookup (codes "Signers") t)) (service_error invalid_open_transaction)
  require (has_text (as_text (lookup (codes "Account") t)) (text_eq f.payer)) source_mismatch
  require
      (has_text (as_text (lookup (codes "Destination") t))
        (λ d. text_eq d recipient && text_eq d f.recipient))
      recipient_mismatch
  require (has_text (as_text (lookup (codes "PublicKey") t)) (λ k. text_eq (upper k) f.public_key))
      public_key_mismatch
  funded ← drops_of (as_text (lookup (codes "Amount") t))
  raise_if (int_of funded == 0) (service_error invalid_funding)
  require_uint64 funded
  check_bounds f t expires
  check_signature f t
  ok funded
