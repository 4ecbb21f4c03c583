-- ===== src/Service/Sound.antt =====
-- What the checks of an open transaction accept.
use xrpl_mpp_stack.Prelude.{
  ℕ, ◌≤◌, ◌<◌, ◌≡◌, ◌⊎◌, sym, ap, ◌∙◌, subst, Bool, true, false, ◌&&◌, Option, some, leb, ltb, ◌==◌,
  arith, Result, ok, service_error, >>=-inv, raise_if, raise_if-eq-ok, ok_injective, and-eq-true,
  source_mismatch, recipient_mismatch, invalid_open_transaction, public_key_mismatch,
  invalid_funding, settle_delay_too_short, open_transaction_unbounded, open_transaction_expired,
  invalid_open_signature, Bool-cases, inl, inr,
}
use xrpl_mpp_stack.Text.{Text, codes, text_eq, upper, is_empty}
use xrpl_mpp_stack.Text.Decimal.{int_of}
use xrpl_mpp_stack.Text.Laws.{text_eq→eq}
use xrpl_mpp_stack.Dict.{lookup, erase}
use xrpl_mpp_stack.Schema.{is_drops}
use xrpl_mpp_stack.Service.Envelope.{require_uint64, max_uint64}
use xrpl_mpp_stack.Service.Terms.{require_uint64-ok}
use xrpl_mpp_stack.Service.Transaction.{
  text, natural, Transaction, OpenFacts, require, as_text, as_natural, has_text, has_natural,
  or_refuse, is_true, decoded_object, drops_of, current_ledger, check_outlives, verifier_answer,
  authorizer_answer, check_signer, check_bounds, check_signature, verify_open_transaction,
}
use xrpl_mpp_stack.Service.Answers.{
  require-ok, has_text-true, text_or_refuse, natural_or_refuse, has_natural-true, decoded_object-ok,
  drops_of-ok, IsWithin, IsLasting, check_cancel_after-ok, current_ledger-ok, check_outlives-ok,
  verifier_answer-ok, authorizer_answer-ok, or_refuse-ok,
}

-- Who may sign for the payer: the payer, or a signer that the authorizer accepts.
pub IsSigner : OpenFacts → Text → Type 0
IsSigner f address =
    (address ≡ f.payer)
    ⊎ ((authorize : Text → Text → Result Bool) × (f.authorizer ≡ some authorize)
        × (authorize f.payer address ≡ ok true))

-- The transaction creates the channel that the challenge asks for: from the payer to the recipient,
-- under the payer's key, with enough funding and delay, and neither expired nor outliving the
-- challenge; and it is signed for the payer.
pub record IsOpenTransaction (f : OpenFacts) (recipient : Text) (expires : Option Text)
    (t : Transaction) (funded : Text) : Type 0 where
  pub decoded : f.decoded ≡ ok (some t)
  pub type : lookup (codes "TransactionType") t ≡ some (text (codes "PaymentChannelCreate"))
  pub account : lookup (codes "Account") t ≡ some (text f.payer)
  pub destination :
      (lookup (codes "Destination") t ≡ some (text recipient)) × (recipient ≡ f.recipient)
  pub public_key :
      (key : Text) × (lookup (codes "PublicKey") t ≡ some (text key)) × (upper key ≡ f.public_key)
  pub amount : lookup (codes "Amount") t ≡ some (text funded)
  pub drops : is_drops funded ≡ true
  pub positive : 0 < int_of funded
  pub bounded : int_of funded ≤ max_uint64
  pub delay :
      (n : ℕ) × (lookup (codes "SettleDelay") t ≡ some (natural n)) × (f.minimum_settle_delay ≤ n)
  pub ledger :
      (last current : ℕ) × (lookup (codes "LastLedgerSequence") t ≡ some (natural last))
      × (f.ledger_index ≡ some (ok (some current)))
      × (current < last)
      × IsWithin f expires current last
  pub lasting : IsLasting f (lookup (codes "CancelAfter") t)
  pub unshared : is_true (lookup (codes "Signers") t) ≡ false
  pub signature :
      (key signature address : Text) × (lookup (codes "SigningPubKey") t ≡ some (text key))
      × (lookup (codes "TxnSignature") t ≡ some (text signature))
      × (f.verifier (erase (codes "TxnSignature") t) key signature ≡ ok (address, true))
      × IsSigner f address

check_signer-ok :
    (f : OpenFacts) (address : Text) {u : Unit {0}}
    → check_signer f address ≡ ok u
    → IsSigner f address
unfolding check_signer IsSigner
check_signer-ok f address h = elim (Bool-cases (text_eq address f.payer)) [
  | inl e ↦ inl (text_eq→eq address f.payer e)
  | inr e ↦ >>=-inv (or_refuse f.authorizer _) _ (rw e at h) λ authorize e1 h.
      >>=-inv (authorizer_answer (authorize f.payer address)) _ h λ b e2 h. inr (
        authorize,
        or_refuse-ok _ _ e1,
        authorizer_answer-ok _ e2 ∙ ap (λ x. ok x) (require-ok b _ h),
      )
]

-- The bounds on the delay and on the ledgers.
abbrev IsBounded : OpenFacts → Transaction → Option Text → Type 0
IsBounded f t expires =
    ((n : ℕ) × (lookup (codes "SettleDelay") t ≡ some (natural n)) × (f.minimum_settle_delay ≤ n))
    × ((last current : ℕ) × (lookup (codes "LastLedgerSequence") t ≡ some (natural last))
        × (f.ledger_index ≡ some (ok (some current)))
        × (current < last)
        × IsWithin f expires current last)
    × IsLasting f (lookup (codes "CancelAfter") t)

check_bounds-ok :
    (f : OpenFacts) (t : Transaction) (expires : Option Text) {u : Unit {0}}
    → check_bounds f t expires ≡ ok u
    → IsBounded f t expires
unfolding check_bounds
check_bounds-ok f t expires h =
    >>=-inv
      (require
        (has_natural (as_natural (lookup (codes "SettleDelay") t)) (leb f.minimum_settle_delay))
        settle_delay_too_short)
      _ h
      λ _ e1 h.
        >>=-inv
          (or_refuse (as_natural (lookup (codes "LastLedgerSequence") t))
            open_transaction_unbounded)
          _ h
          λ last e2 h. >>=-inv (require (ltb 0 last) open_transaction_unbounded) _ h λ _ e3 h.
            >>=-inv (current_ledger f.ledger_index) _ h λ current e4 h.
              >>=-inv (raise_if (leb last current) (service_error open_transaction_expired)) _ h
                λ _ e5 h. >>=-inv (check_outlives f expires current last) _ h λ _ e6 h.
                  let (n, found, enough) = has_natural-true _ _ (require-ok _ _ e1) in
                  let later = raise_if-eq-ok (leb last current) _ e5 in
                  (
                    (n, found, least n enough),
                    (
                      last,
                      current,
                      natural_or_refuse _ _ e2,
                      current_ledger-ok _ e4,
                      below last current later,
                      check_outlives-ok f expires current last e6,
                    ),
                    check_cancel_after-ok f _ h,
                  )
  where
    least : (n : ℕ) → leb f.minimum_settle_delay n ≡ true → f.minimum_settle_delay ≤ n
    least n e = ground arith

    below : (last current : ℕ) → leb last current ≡ false → current < last
    below last current e = ground arith

abbrev IsSigned : OpenFacts → Transaction → Type 0
IsSigned f t =
    (key signature address : Text) × (lookup (codes "SigningPubKey") t ≡ some (text key))
    × (lookup (codes "TxnSignature") t ≡ some (text signature))
    × (f.verifier (erase (codes "TxnSignature") t) key signature ≡ ok (address, true))
    × IsSigner f address

check_signature-ok :
    (f : OpenFacts) (t : Transaction) {u : Unit {0}} → check_signature f t ≡ ok u → IsSigned f t
unfolding check_signature
check_signature-ok f t h =
    >>=-inv (or_refuse (as_text (lookup (codes "SigningPubKey") t)) invalid_open_signature) _ h
      λ key e1 h.
        >>=-inv (raise_if (is_empty key) (service_error invalid_open_signature)) _ h λ _ e2 h.
          >>=-inv (or_refuse (as_text (lookup (codes "TxnSignature") t)) invalid_open_signature) _ h
            λ signature e3 h.
              >>=-inv (raise_if (is_empty signature) (service_error invalid_open_signature)) _ h
                λ _ e4 h.
                  >>=-inv
                    (verifier_answer (f.verifier (erase (codes "TxnSignature") t) key signature)) _
                    h
                    λ a e5 h. >>=-inv (require (a.1) invalid_open_signature) _ h λ _ e6 h.
                      let valid = require-ok (a.1) _ e6 in
                      (
                        key,
                        signature,
                        a.0,
                        text_or_refuse _ _ e1,
                        text_or_refuse _ _ e3,
                        verifier_answer-ok _ e5 ∙ ap (λ x. ok (a.0, x)) valid,
                        check_signer-ok f (a.0) h,
                      )

-- Where the checks of an open transaction return a funding, the blob decodes to a channel creation
-- from the payer to the recipient of the challenge and of the service under the configured key,
-- with that funding as a positive amount of drops within 64 bits, a delay of at least the minimum,
-- a last ledger after the current one, no list of signers, a time of cancellation, if any, past
-- the settlement margin, and a valid signature of the payer or of a signer that the authorizer
-- accepts. Where the challenge has a date, the last ledger is less than five ledgers and the time
-- left to the date, at four seconds a ledger, after the current one, and no more than four ledgers
-- after it where the date has come.
pub verify_open_transaction-IsOpenTransaction :
    (f : OpenFacts) (recipient : Text) (expires : Option Text) (funded : Text)
    → verify_open_transaction f recipient expires ≡ ok funded
    → (t : Transaction) × IsOpenTransaction f recipient expires t funded
unfolding verify_open_transaction
verify_open_transaction-IsOpenTransaction f recipient expires funded h =
    >>=-inv (decoded_object f.decoded) _ h λ t e1 h.
      >>=-inv
        (require
          (has_text (as_text (lookup (codes "TransactionType") t))
            (text_eq (codes "PaymentChannelCreate")))
          invalid_open_transaction)
        _ h
        λ _ e2 h.
          >>=-inv
            (raise_if (is_true (lookup (codes "Signers") t))
              (service_error invalid_open_transaction))
            _ h
            λ _ e3 h.
              >>=-inv
                (require (has_text (as_text (lookup (codes "Account") t)) (text_eq f.payer))
                  source_mismatch)
                _ h
                λ _ e4 h.
                  >>=-inv
                    (require
                      (has_text (as_text (lookup (codes "Destination") t))
                        (λ d. text_eq d recipient && text_eq d f.recipient))
                      recipient_mismatch)
                    _ h
                    λ _ e5 h.
                      >>=-inv
                        (require
                          (has_text (as_text (lookup (codes "PublicKey") t))
                            (λ k. text_eq (upper k) f.public_key))
                          public_key_mismatch)
                        _ h
                        λ _ e6 h.
                          >>=-inv (drops_of (as_text (lookup (codes "Amount") t))) _ h
                            λ amount e7 h.
                              >>=-inv
                                (raise_if (int_of amount == 0) (service_error invalid_funding)) _ h
                                λ _ e8 h. >>=-inv (require_uint64 amount) _ h λ _ e9 h.
                                  >>=-inv (check_bounds f t expires) _ h λ _ e10 h.
                                    >>=-inv (check_signature f t) _ h λ _ e11 h.
                                      let (kind, k1, k2) = has_text-true _ _ (require-ok _ _ e2) in
                                      let (account, a1, a2) =
                                        has_text-true _ _ (require-ok _ _ e4) in
                                      let (destination, d1, d2) =
                                        has_text-true _ _ (require-ok _ _ e5) in
                                      let (d3, d4) =
                                        and-eq-true (text_eq destination recipient)
                                          (text_eq destination f.recipient) d2 in
                                      let (key, p1, p2) = has_text-true _ _ (require-ok _ _ e6) in
                                      let (m1, m2) = drops_of-ok _ e7 in
                                      let (delay, ledger, lasting) =
                                        check_bounds-ok f t expires e10 in
                                      let made : IsOpenTransaction f recipient expires t amount =
                                        record {
                                          decoded = decoded_object-ok _ e1;
                                          type =
                                              k1
                                              ∙ ap (λ x. some (text x))
                                                  (sym (text_eq→eq _ kind k2));
                                          account =
                                              a1
                                              ∙ ap (λ x. some (text x))
                                                  (sym (text_eq→eq _ account a2));
                                          destination = (
                                            d1 ∙ ap (λ x. some (text x)) (text_eq→eq _ _ d3),
                                            sym (text_eq→eq _ _ d3) ∙ text_eq→eq _ _ d4,
                                          );
                                          public_key = (key, p1, text_eq→eq _ _ p2);
                                          amount = m1;
                                          drops = m2;
                                          positive = pos amount (raise_if-eq-ok _ _ e8);
                                          bounded = require_uint64-ok amount e9;
                                          delay = delay;
                                          ledger = ledger;
                                          lasting = lasting;
                                          unshared = raise_if-eq-ok _ _ e3;
                                          signature = check_signature-ok f t e11;
                                        } in
                                      (
                                        t,
                                        subst (λ x. IsOpenTransaction f recipient expires t x)
                                            (ok_injective h) made,
                                      )
  where
    pos : (amount : Text) → (int_of amount == 0) ≡ false → 0 < int_of amount
    pos amount e = ground arith
