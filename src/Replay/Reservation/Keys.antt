-- ===== src/Replay/Reservation/Keys.antt =====
-- Lemmas on the keys and values of `RedisReplayStore`.
use mathlib.Core.List.{append_cancel_left}
use xrpl_mpp_stack.Prelude.{ℕ, zero, suc, ◌≡◌, ◌≢◌, refl, ap, [], ◌∷◌, arith}
use xrpl_mpp_stack.Text.{Text, codes}
use xrpl_mpp_stack.Schema.{Network, mainnet, testnet, devnet}
use xrpl_mpp_stack.Replay.Reservation.{invoice_key, blob_key, pending_value, replay_processed}

abbrev code_at : ℕ → Text → ℕ
code_at i [] = 0
code_at zero (c ∷ t) = c
code_at (suc i) (c ∷ t) = code_at i t

-- An invoice's key is no blob's key, on any networks.
pub invoice_key-ne-blob_key : (m n : Network) (i b : Text) → invoice_key m i ≢ blob_key n b
unfolding invoice_key blob_key
invoice_key-ne-blob_key mainnet mainnet i b h = omega (arith, ap (code_at 27) h)
invoice_key-ne-blob_key testnet testnet i b h = omega (arith, ap (code_at 27) h)
invoice_key-ne-blob_key devnet devnet i b h = omega (arith, ap (code_at 26) h)
invoice_key-ne-blob_key _ _ i b h = omega (arith, ap (code_at 19) h)

-- A blob's key determines the network and the blob.
pub blob_key_injective :
    (m n : Network) (b c : Text) → blob_key m b ≡ blob_key n c → (m ≡ n) × (b ≡ c)
unfolding blob_key
blob_key_injective mainnet mainnet b c h =
    (refl, append_cancel_left (codes "facilitator:replay:mainnet:blob:") b c h)
blob_key_injective testnet testnet b c h =
    (refl, append_cancel_left (codes "facilitator:replay:testnet:blob:") b c h)
blob_key_injective devnet devnet b c h =
    (refl, append_cancel_left (codes "facilitator:replay:devnet:blob:") b c h)
blob_key_injective _ _ b c h = absurd (omega (arith, ap (code_at 19) h))

-- A processed marker is nobody's pending value, and reservations have their own pending values.
pub processed-ne-pending : (r : Text) → replay_processed ≢ pending_value r
unfolding pending_value
processed-ne-pending r h = omega (arith, ap (code_at 1) h)

pub pending_value_injective : (r s : Text) → pending_value r ≡ pending_value s → r ≡ s
unfolding pending_value
pending_value_injective r s h = append_cancel_left (codes "pending:") r s h
