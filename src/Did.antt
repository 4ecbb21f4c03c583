-- ===== src/Did.antt =====
-- The payer's DID of packages/core/src/xrpl_mpp_core/did.py.
pub mod RoundTrip
use xrpl_mpp_stack.Prelude.{
  ℕ, Bool, true, false, ◌&&◌, not, Option, none, some, List, [], ◌∷◌, ◌++◌, ◌==◌, Result, ok, err,
  value_error, ◌>>=◌, ◌>>◌, raise_if, or_raise, if◌then◌else◌,
}
use xrpl_mpp_stack.Text.{Text, codes, text_eq, is_empty}
use xrpl_mpp_stack.Schema.{
  Network, mainnet, testnet, devnet, network_eq, is_classic_address, text_field,
}
use xrpl_mpp_stack.PayChannel.Key.{network_name}

pub record XrplDid : Type 0 where
  pub network : Network
  pub address : Text

-- `value.split(sep)` for a separator of one character.
abbrev pub onto_first : ℕ → List Text → List Text
onto_first c [] = (c ∷ []) ∷ []
onto_first c (p ∷ ps) = (c ∷ p) ∷ ps

unfoldable pub split_on : ℕ → Text → List Text
split_on sep [] = [] ∷ []
split_on sep (c ∷ s) =
    let rest = split_on sep s in if c == sep then [] ∷ rest else onto_first c rest

-- The literals of `XRPLNetwork`.
unfoldable pub network_of : Text → Option Network
network_of t =
    if text_eq t (codes "mainnet")
    then some mainnet
    else if text_eq t (codes "testnet")
    then some testnet
    else if text_eq t (codes "devnet")
    then some devnet
    else none

-- `XRPLDID(network=..., address=...)`
unfoldable pub xrpl_did : Text → Text → Result XrplDid
xrpl_did network address = do
  n ← or_raise (network_of network) value_error
  a ← text_field is_classic_address address
  ok (record { network = n; address = a })

-- `XRPLDID.__str__`
abbrev pub did_text : XrplDid → Text
did_text d = codes "did:pkh:xrpl:" ++ (network_name d.network ++ 58 ∷ d.address)

unfoldable pub build_xrpl_did : Network → Text → Result Text
build_xrpl_did network address = do d ← xrpl_did (network_name network) address; ok (did_text d)

-- `len(parts) == 5 and parts[:3] == [...]`: the last two parts.
abbrev pub did_parts : List Text → Result (Text × Text)
did_parts (a ∷ b ∷ c ∷ network ∷ address ∷ []) =
    if text_eq a (codes "did") && text_eq b (codes "pkh") && text_eq c (codes "xrpl")
    then ok (network, address)
    else err value_error
did_parts _ = err value_error

abbrev pub is_other : Option Network → Network → Bool
is_other none n = false
is_other (some m) n = not (network_eq n m)

unfoldable pub parse_xrpl_did : Text → Option Network → Result XrplDid
parse_xrpl_did source expected_network = do
  raise_if (is_empty source) value_error
  (network, address) ← did_parts (split_on 58 source)
  parsed ← xrpl_did network address
  raise_if (is_other expected_network parsed.network) value_error
  ok parsed

unfoldable pub classic_address_from_did : Text → Option Network → Result Text
classic_address_from_did source expected_network = do
  parsed ← parse_xrpl_did source expected_network
  ok parsed.address
