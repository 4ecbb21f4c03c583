-- ===== src/PayChannel/Key/Laws.antt =====
-- Lemmas on `_channel_key` and `_redemption_lease_key`.
use mathlib.Core.List.{append_cancel_left}
use xrpl_mpp_stack.Prelude.{
  ℕ, zero, suc, inl, inr, ◌≡◌, ◌≢◌, refl, sym, ◌∙◌, ap, true, [], ◌∷◌, ◌++◌, arith, ok, ◌>>=◌,
  >>=-inv, Result-cases, ok_injective,
}
use xrpl_mpp_stack.Text.{Text, codes, upper, strip}
use xrpl_mpp_stack.Text.Laws.{replace_first-prefix}
use xrpl_mpp_stack.Schema.{
  Network, mainnet, testnet, devnet, is_channel_id, is_drops, is_claim_signature, text_field,
}
use xrpl_mpp_stack.Schema.Laws.{text_field-channel_id, text_field-ok}
use xrpl_mpp_stack.HighWater.{voucher_payload}
use xrpl_mpp_stack.PayChannel.Key.{
  network_name, lease_root, network_prefix, channel_key, redemption_lease_key,
}

zero_amount : text_field is_drops (codes "0") ≡ ok (codes "0")
unfolding text_field is_drops strip
zero_amount = refl

fixed_signature : text_field is_claim_signature (codes "00") ≡ ok (codes "00")
unfolding text_field is_claim_signature strip
fixed_signature = refl

-- Only the identifier can make the key fail.
pub channel_key_lem :
    (n : Network) (c : Text)
    → channel_key n c ≡ (text_field is_channel_id c >>= λ v. ok (network_prefix n ++ upper v))
unfolding channel_key voucher_payload
channel_key_lem n c = elim (Result-cases (text_field is_channel_id c)) [
  | inl (v, e) ↦ rw (e, zero_amount, fixed_signature)
  | inr (x, e) ↦ rw e
]

pub redemption_lease_key_lem :
    (n : Network) (c : Text)
    → redemption_lease_key n c ≡ (
        text_field is_channel_id c >>= λ v.
        ok (lease_root ++ ((network_name n ++ codes ":") ++ upper v)))
unfolding redemption_lease_key
redemption_lease_key_lem n c =
    rw (channel_key_lem n c) (elim (Result-cases (text_field is_channel_id c)) [
      | inl (v, e) ↦ rw e (
          ap ok (
            replace_first-prefix b'f' (codes "acilitator:paychannel:") lease_root
              ((network_name n ++ codes ":") ++ upper v)))
      | inr (x, e) ↦ rw e
    ])

-- The code point at a position, for telling two keys apart.
abbrev code_at : ℕ → Text → ℕ
code_at i [] = 0
code_at zero (c ∷ t) = c
code_at (suc i) (c ∷ t) = code_at i t

prefix_injective :
    (m n : Network) (u v : Text) → network_prefix m ++ u ≡ network_prefix n ++ v → (m ≡ n) × (u ≡ v)
prefix_injective mainnet mainnet u v h = (refl, append_cancel_left (network_prefix mainnet) u v h)
prefix_injective testnet testnet u v h = (refl, append_cancel_left (network_prefix testnet) u v h)
prefix_injective devnet devnet u v h = (refl, append_cancel_left (network_prefix devnet) u v h)
prefix_injective _ _ u v h = absurd (omega (arith, ap (code_at 23) h))

-- Two channels with the same storage key have the same network and, stripped and in upper case,
-- the same identifier.
pub channel_key_injective :
    (m n : Network) (c d : Text) {k : Text}
    → channel_key m c ≡ ok k
    → channel_key n d ≡ ok k
    → (m ≡ n) × (upper (strip c) ≡ upper (strip d))
channel_key_injective m n c d {k} h g =
    >>=-inv (text_field is_channel_id c) _ (sym (channel_key_lem m c) ∙ h) λ v ev h.
      >>=-inv (text_field is_channel_id d) _ (sym (channel_key_lem n d) ∙ g) λ w ew g.
        let (same, ids) =
          prefix_injective m n (upper v) (upper w) (ok_injective h ∙ sym (ok_injective g)) in
        (same, cc (ids, (text_field-ok is_channel_id c ev).0, (text_field-ok is_channel_id d ew).0))

roots_apart : (m n : Network) (u v : Text) → ¬ (network_prefix m ++ u ≡ lease_root ++ v)
roots_apart m n u v h = omega (arith, ap (code_at 22) h)

-- The storage key of a channel is never the key of a redemption lease.
pub channel_key-ne-lease_key :
    (m n : Network) (c d : Text) {k l : Text}
    → channel_key m c ≡ ok k
    → redemption_lease_key n d ≡ ok l
    → k ≢ l
channel_key-ne-lease_key m n c d h g e =
    >>=-inv (text_field is_channel_id c) _ (sym (channel_key_lem m c) ∙ h) λ v ev h.
      >>=-inv (text_field is_channel_id d) _ (sym (redemption_lease_key_lem n d) ∙ g) λ w ew g.
        roots_apart m n (upper v) ((network_name n ++ codes ":") ++ upper w)
          (ok_injective h ∙ e ∙ sym (ok_injective g))

-- A valid identifier has a key, and letter case does not matter.
pub channel_key-of_id :
    (n : Network) (c : Text)
    → is_channel_id c ≡ true
    → channel_key n c ≡ ok (network_prefix n ++ upper c)
channel_key-of_id n c h = rw (channel_key_lem n c) (rw (text_field-channel_id c h))
