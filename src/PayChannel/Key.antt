-- ===== src/PayChannel/Key.antt =====
-- The storage keys of a channel and of its redemption lease.
pub mod Laws
use xrpl_mpp_stack.Prelude.{◌++◌, Result, ok, ◌>>=◌}
use xrpl_mpp_stack.Text.{Text, codes, upper, replace_first}
use xrpl_mpp_stack.Schema.{Network, mainnet, testnet, devnet}
use xrpl_mpp_stack.HighWater.{VoucherPayload, voucher_payload}

abbrev pub network_name : Network → Text
network_name mainnet = codes "mainnet"
network_name testnet = codes "testnet"
network_name devnet = codes "devnet"

abbrev pub channel_root : Text
channel_root = codes "facilitator:paychannel:"

abbrev pub lease_root : Text
lease_root = codes "facilitator:paychannel-redemption-lease:"

-- What all keys of a network begin with.
abbrev pub network_prefix : Network → Text
network_prefix network = channel_root ++ (network_name network ++ codes ":")

-- `_channel_key`
unfoldable pub channel_key : Network → Text → Result Text
channel_key network channel_id = do
  validated ← voucher_payload channel_id (codes "0") (codes "00")
  ok (network_prefix network ++ upper validated.channel_id)

-- `_redemption_lease_key`
unfoldable pub redemption_lease_key : Network → Text → Result Text
unfolding channel_key
redemption_lease_key network channel_id = do
  key ← channel_key network channel_id
  ok (replace_first channel_root lease_root key)
