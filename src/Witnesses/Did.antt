-- ===== src/Witnesses/Did.antt =====
-- A concrete run of the theorem on DIDs.
use xrpl_mpp_stack.Prelude.{◌≡◌, refl, some, ok, err, value_error, if◌then◌else◌}
use xrpl_mpp_stack.Text.{Text, codes, strip}
use xrpl_mpp_stack.Schema.{testnet}
use xrpl_mpp_stack.Did.{XrplDid, build_xrpl_did, is_other, parse_xrpl_did}
use xrpl_mpp_stack.Did.RoundTrip.{parse_xrpl_did-build_xrpl_did}

abbrev address : Text
address = codes " rPayerPayerPayerPayerPayer"

abbrev source : Text
source = codes "did:pkh:xrpl:testnet:rPayerPayerPayerPayerPayer"

source-built : build_xrpl_did testnet address ≡ ok source
unfolding build_xrpl_did xrpl_mpp_stack.Did.xrpl_did xrpl_mpp_stack.Did.network_of
    xrpl_mpp_stack.Text.text_eq xrpl_mpp_stack.Schema.text_field
    xrpl_mpp_stack.Schema.is_classic_address strip
source-built = refl

parse_xrpl_did-build_xrpl_did_example : parse_xrpl_did source (some testnet) ≡ (
    if is_other (some testnet) testnet
    then err value_error
    else ok (record { network = testnet; address = strip address }))
parse_xrpl_did-build_xrpl_did_example =
    parse_xrpl_did-build_xrpl_did testnet address source (some testnet) source-built
