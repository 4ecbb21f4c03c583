-- ===== src/Did/RoundTrip.antt =====
-- A DID that was built, and what the parser makes of it.
use xrpl_mpp_stack.Prelude.{
  ℕ, ◌≡◌, refl, ap, ◌∙◌, sym, Bool, true, false, Option, some, [], ◌∷◌, ◌==◌, arith, all, ok, err,
  value_error, or_raise, raise_if, ◌>>◌, >>=-inv, ok_injective, and-eq-true, if◌then◌else◌,
}
use xrpl_mpp_stack.Text.{Text, codes, text_eq, strip}
use xrpl_mpp_stack.Schema.{
  Network, mainnet, testnet, devnet, is_classic_address, is_base58, text_field,
}
use xrpl_mpp_stack.Schema.Laws.{text_field-ok, text_field-of_stripped}
use xrpl_mpp_stack.PayChannel.Key.{network_name}
use xrpl_mpp_stack.Did.{
  XrplDid, split_on, network_of, xrpl_did, did_text, build_xrpl_did, is_other, parse_xrpl_did,
}

-- A part without the separator is one part.
split_on-whole :
    (p : ℕ → Bool) (s : Text)
    → ((c : ℕ) → p c ≡ true → (c == 58) ≡ false)
    → all p s ≡ true
    → split_on 58 s ≡ s ∷ []
unfolding split_on
split_on-whole p [] f h = refl
split_on-whole p (c ∷ s) f h =
    let (hc, hs) = and-eq-true (p c) (all p s) h in rw (f c hc, split_on-whole p s f hs) refl

address-whole : (a : Text) → is_classic_address a ≡ true → split_on 58 a ≡ a ∷ []
unfolding is_classic_address
address-whole [] h = absurd (cc)
address-whole (c ∷ t) h = split_on-whole is_base58 (c ∷ t) (λ d k. ground arith) (ground arith)

split_on-did :
    (d : XrplDid)
    → is_classic_address d.address ≡ true
    → split_on 58 (did_text d)
      ≡ codes "did" ∷ codes "pkh" ∷ codes "xrpl" ∷ network_name d.network ∷ d.address ∷ []
split_on-did d h = on_network d.network d.address (address-whole d.address h)
  where
    on_network :
        (n : Network) (a : Text)
        → split_on 58 a ≡ a ∷ []
        → split_on 58 (did_text (record { network = n; address = a }))
          ≡ codes "did" ∷ codes "pkh" ∷ codes "xrpl" ∷ network_name n ∷ a ∷ []
    on_network mainnet a e = unfold split_on in rw (split_on, e) refl
    on_network testnet a e = unfold split_on in rw (split_on, e) refl
    on_network devnet a e = unfold split_on in rw (split_on, e) refl

network_of-network_name : (n : Network) → network_of (network_name n) ≡ some n
unfolding network_of text_eq
network_of-network_name mainnet = refl
network_of-network_name testnet = refl
network_of-network_name devnet = refl

xrpl_did-valid :
    (n : Network) (a : Text)
    → strip a ≡ a
    → is_classic_address a ≡ true
    → xrpl_did (network_name n) a ≡ ok (record { network = n; address = a })
unfolding xrpl_did
xrpl_did-valid n a s h =
    rw (network_of-network_name n, text_field-of_stripped is_classic_address a s h) refl

build_xrpl_did-ok :
    (n : Network) (address : Text) {s : Text}
    → build_xrpl_did n address ≡ ok s
    → (a : Text) × (a ≡ strip address)
      × (strip a ≡ a)
      × (is_classic_address a ≡ true)
      × (s ≡ did_text (record { network = n; address = a }))
unfolding build_xrpl_did xrpl_did
build_xrpl_did-ok n address {s} h = >>=-inv (xrpl_did (network_name n) address) _ h λ d hd built.
    >>=-inv (or_raise (network_of (network_name n)) value_error) _ hd λ m hm made.
      >>=-inv (text_field is_classic_address address) _ made λ a ha same.
        let (stripped, fixed, valid) = text_field-ok is_classic_address address ha in
        let same_network : n ≡ m =
          ok_injective (ap (λ o. or_raise o value_error) (sym (network_of-network_name n)) ∙ hm) in
        let whole : record { network = m; address = a } ≡ d = ok_injective same in
        (
          a,
          stripped,
          fixed,
          valid,
          sym (ok_injective built)
              ∙ ap did_text (sym whole)
              ∙ ap (λ k. did_text (record { network = k; address = a })) (sym same_network),
        )

-- A DID that was built from a network and an address is parsed to that network and the stripped
-- address, or refused where another network is expected.
pub parse_xrpl_did-build_xrpl_did :
    (n : Network) (address s : Text) (expected_network : Option Network)
    → build_xrpl_did n address ≡ ok s
    → parse_xrpl_did s expected_network ≡ (
        if is_other expected_network n
        then err value_error
        else ok (record { network = n; address = strip address }))
unfolding parse_xrpl_did text_eq strip
parse_xrpl_did-build_xrpl_did n address s expected_network h =
    let (a, stripped, fixed, valid, text) = build_xrpl_did-ok n address h in
    let d : XrplDid = record { network = n; address = a } in
    rw (text, split_on-did d valid)
      (rw (xrpl_did-valid n a fixed valid)
        (rw (sym stripped) (last a (is_other expected_network n))))
  where
    last :
        (a : Text) (b : Bool)
        → ◌>>◌ {B = XrplDid} (raise_if b value_error) (ok (record { network = n; address = a }))
          ≡ (if b then err value_error else ok (record { network = n; address = a }))
    last a true = refl
    last a false = refl
