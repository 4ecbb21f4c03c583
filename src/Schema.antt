-- ===== src/Schema.antt =====
-- The field constraints of the wire models (packages/core/src/xrpl_mpp_core/xrpl.py and
-- paychannel.py): patterns, lengths, and the stripping that `XRPLModel` switches on.
pub mod Laws
use xrpl_mpp_stack.Prelude.{
  ℕ, Bool, true, false, ◌&&◌, ◌||◌, not, Option, none, some, [], ◌∷◌, leb, ◌==◌, length, all,
  Result, ok, err, value_error, ◌>>=◌, if◌then◌else◌,
}
use xrpl_mpp_stack.Text.{Text, codes, strip, is_digit, is_hex, is_empty}

-- `XRPLNetwork`
pub data Network : Type 0 where
  mainnet testnet devnet : Network

unfoldable pub network_eq : Network → Network → Bool
network_eq mainnet mainnet = true
network_eq testnet testnet = true
network_eq devnet devnet = true
network_eq _ _ = false

-- `MAX_DROPS_DIGITS` and `MAX_CLAIM_SIGNATURE_LENGTH`
abbrev pub max_drops_digits : ℕ
max_drops_digits = 20

abbrev pub max_claim_signature_length : ℕ
max_claim_signature_length = 144

-- `Drops`
unfoldable pub is_drops : Text → Bool
is_drops t = not (is_empty t) && leb (length t) max_drops_digits && all is_digit t

-- `ChannelId`
unfoldable pub is_channel_id : Text → Bool
is_channel_id t = length t == 64 && all is_hex t

-- The signature of a record or a high-water mark, which may be empty.
unfoldable pub is_signature : Text → Bool
is_signature t = leb (length t) max_claim_signature_length && all is_hex t

-- `ClaimSignature`
unfoldable pub is_claim_signature : Text → Bool
unfolding is_signature
is_claim_signature t = not (is_empty t) && is_signature t

-- The class [1-9A-HJ-NP-Za-km-z] of `CLASSIC_ADDRESS_PATTERN`.
abbrev pub is_base58 : ℕ → Bool
is_base58 c =
    leb 49 c && leb c 57
    || leb 65 c && leb c 72
    || leb 74 c && leb c 78
    || leb 80 c && leb c 90
    || leb 97 c && leb c 107
    || leb 109 c && leb c 122

-- `ClassicAddress`
unfoldable pub is_classic_address : Text → Bool
is_classic_address [] = false
is_classic_address (c ∷ t) = c == b'r' && leb 24 (length t) && leb (length t) 34 && all is_base58 t

-- A text field of a model: stripped, then held to its constraints.
unfoldable pub text_field : (Text → Bool) → Text → Result Text
text_field accepts raw = let t = strip raw in if accepts t then ok t else err value_error

unfoldable pub optional_text_field : (Text → Bool) → Option Text → Result (Option Text)
unfolding text_field
optional_text_field accepts none = ok none
optional_text_field accepts (some raw) = do t ← text_field accepts raw; ok (some t)

-- A bare `TypeAdapter` of a type: its constraints, with no stripping.
unfoldable pub adapter : (Text → Bool) → Text → Result Text
adapter accepts t = if accepts t then ok t else err value_error
