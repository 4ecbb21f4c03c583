-- ===== src/Schema/Laws.antt =====
-- Lemmas on the field constraints.
use xrpl_mpp_stack.Prelude.{
  ◌≤◌, ◌<◌, ◌≡◌, Bool, true, false, [], ◌∷◌, arith, length, all, ok, Bool-cases, inl, inr,
  and-eq-true, leb, ◌==◌,
}
use xrpl_mpp_stack.Text.{Text, strip, is_digit, is_hex, upper}
use xrpl_mpp_stack.Text.Decimal.{int_of, str_of, length-str_of-int_of, str_of-digits, str_of-pos}
use xrpl_mpp_stack.Text.Laws.{strip-of_hex, strip-of_digits, strip_idem, upper-hex, length-upper}
use xrpl_mpp_stack.Schema.{
  Network, network_eq, is_drops, is_channel_id, is_signature, text_field,
  max_claim_signature_length,
}

pub network_eq→eq : (m n : Network) → network_eq m n ≡ true → m ≡ n
unfolding network_eq
network_eq→eq m n h = ground arith

pub network_eq_refl : (n : Network) → network_eq n n ≡ true
unfolding network_eq
network_eq_refl n = ground arith

pub is_drops-digits : (t : Text) → is_drops t ≡ true → all is_digit t ≡ true
unfolding is_drops
is_drops-digits t h = ground arith

pub is_drops-pos : (t : Text) → is_drops t ≡ true → 0 < length t
unfolding is_drops
is_drops-pos [] h = cc
is_drops-pos (c ∷ t) h = omega arith

pub length-drops-le : (t : Text) → is_drops t ≡ true → length t ≤ 20
unfolding is_drops
length-drops-le t h = ground arith

pub is_drops-intro :
    (t : Text) → all is_digit t ≡ true → 0 < length t → length t ≤ 20 → is_drops t ≡ true
unfolding is_drops
is_drops-intro [] d p l = elim p [ ]
is_drops-intro (c ∷ t) d p l = rw d (ground arith)

-- The canonical numeral of a valid amount is a valid amount.
pub str_of-int_of-is_drops : (t : Text) → is_drops t ≡ true → is_drops (str_of (int_of t)) ≡ true
str_of-int_of-is_drops t h =
    is_drops-intro (str_of (int_of t)) (str_of-digits (int_of t)) (str_of-pos (int_of t)) (
      omega (
        arith,
        length-str_of-int_of t (is_drops-digits t h) (is_drops-pos t h),
        length-drops-le t h,
      ))

-- A text that the constraints accept and that has no space at its ends stays as it is.
pub text_field-of_stripped :
    (p : Text → Bool) (t : Text) → strip t ≡ t → p t ≡ true → text_field p t ≡ ok t
unfolding text_field
text_field-of_stripped p t s h = rw s (rw h)

-- What a field accepts is stripped and meets its constraints.
pub text_field-ok :
    (p : Text → Bool) (raw : Text) {t : Text}
    → text_field p raw ≡ ok t
    → (t ≡ strip raw) × (strip t ≡ t) × (p t ≡ true)
unfolding text_field
text_field-ok p raw {t} h = elim (Bool-cases (p (strip raw))) [
  | inl good ↦ accepted good
  | inr bad ↦ refused bad
]
  where
    accepted : p (strip raw) ≡ true → (t ≡ strip raw) × (strip t ≡ t) × (p t ≡ true)
    accepted good = let e : t ≡ strip raw = ground arith in (e, rw e (strip_idem raw), rw e good)

    refused : p (strip raw) ≡ false → (t ≡ strip raw) × (strip t ≡ t) × (p t ≡ true)
    refused bad = absurd (ground arith)

pub strip-of_drops : (t : Text) → is_drops t ≡ true → strip t ≡ t
strip-of_drops t h = strip-of_digits t (is_drops-digits t h)

pub text_field-drops : (t : Text) → is_drops t ≡ true → text_field is_drops t ≡ ok t
text_field-drops t h = text_field-of_stripped is_drops t (strip-of_drops t h) h

pub is_channel_id-hex : (t : Text) → is_channel_id t ≡ true → all is_hex t ≡ true
unfolding is_channel_id
is_channel_id-hex t h = ground arith

pub strip-of_channel_id : (t : Text) → is_channel_id t ≡ true → strip t ≡ t
strip-of_channel_id t h = strip-of_hex t (is_channel_id-hex t h)

pub text_field-channel_id : (t : Text) → is_channel_id t ≡ true → text_field is_channel_id t ≡ ok t
text_field-channel_id t h =
    text_field-of_stripped is_channel_id t (strip-of_hex t (is_channel_id-hex t h)) h

pub upper-is_channel_id : (t : Text) → is_channel_id t ≡ true → is_channel_id (upper t) ≡ true
unfolding is_channel_id
upper-is_channel_id t h =
    let (l, x) = and-eq-true (length t == 64) (all is_hex t) h in
    rw (length-upper t) (rw l (upper-hex t x))

pub is_signature-hex : (t : Text) → is_signature t ≡ true → all is_hex t ≡ true
unfolding is_signature
is_signature-hex t h = ground arith

pub text_field-signature : (t : Text) → is_signature t ≡ true → text_field is_signature t ≡ ok t
text_field-signature t h =
    text_field-of_stripped is_signature t (strip-of_hex t (is_signature-hex t h)) h

pub upper-is_signature : (t : Text) → is_signature t ≡ true → is_signature (upper t) ≡ true
unfolding is_signature
upper-is_signature t h =
    let (l, x) = and-eq-true (leb (length t) max_claim_signature_length) (all is_hex t) h in
    rw (length-upper t) (rw l (upper-hex t x))
