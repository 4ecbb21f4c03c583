-- ===== src/PayChannel/Evolution.antt =====
-- How a stored channel may change: the contract that every write keeps.
use xrpl_mpp_stack.Prelude.{◌≤◌, ◌≡◌, true, Option, none, some, arith}
use xrpl_mpp_stack.Text.Decimal.{int_of}
use xrpl_mpp_stack.PayChannel.Record.{PayChannelRecord}
use xrpl_mpp_stack.PayChannel.Record.Laws.{IsRecord}

-- From one stored record to a later one of the same channel: the parties stay, amounts and times
-- never fall, and a finalized channel stays finalized at its amount.
pub record Evolves (a b : PayChannelRecord) : Type 0 where
  pub network : a.network ≡ b.network
  pub channel_id : a.channel_id ≡ b.channel_id
  pub payer : a.payer ≡ b.payer
  pub recipient : a.recipient ≡ b.recipient
  pub created_at : a.created_at ≡ b.created_at
  pub funded : int_of a.funded ≤ int_of b.funded
  pub cumulative : int_of a.cumulative ≤ int_of b.cumulative
  pub redeemed : int_of a.redeemed ≤ int_of b.redeemed
  pub updated_at : a.updated_at ≤ b.updated_at
  pub closed : a.finalized ≡ true → b.finalized ≡ true
  pub settled : a.finalized ≡ true → int_of a.cumulative ≡ int_of b.cumulative

pub Evolves-refl : (a : PayChannelRecord) → Evolves a a
Evolves-refl a = ground arith

pub Evolves-trans : {a b c : PayChannelRecord} → Evolves a b → Evolves b c → Evolves a c
Evolves-trans x y = ground arith

-- What a callback asks to be written over a stored record.
abbrev pub IsWrite : PayChannelRecord → Option PayChannelRecord → Type 0
IsWrite a none = Unit {0}
IsWrite a (some b) = IsRecord b × Evolves a b
