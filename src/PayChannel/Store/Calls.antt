-- ===== src/PayChannel/Store/Calls.antt =====
-- Sequences of calls: the order in which concurrent requests take the store's lock.
use xrpl_mpp_stack.Prelude.{ℕ, Option, List, [], ◌∷◌}
use xrpl_mpp_stack.Text.{Text}
use xrpl_mpp_stack.Schema.{Network}
use xrpl_mpp_stack.PayChannel.Record.{PayChannelRecord}
use xrpl_mpp_stack.PayChannel.Record.Laws.{IsRecord}
use xrpl_mpp_stack.PayChannel.Store
use xrpl_mpp_stack.PayChannel.Store.{PayChannelStore, AdvanceCall}
use xrpl_mpp_stack.PayChannel.Store.Invariant.{IsStore, Keeps-refl, Keeps-trans, IsSafe}
use xrpl_mpp_stack.PayChannel.Store.Methods.{
  create-IsSafe, advance-IsSafe, mark_redeemed-IsSafe, finalize-IsSafe, claim_redemption-IsSafe,
  release_redemption-IsSafe,
}

-- One call of a method, with the clock reading and the fresh identifier that it meets.
pub data Call : Type 0 where
  create : PayChannelRecord → Call
  advance : AdvanceCall → ℕ → Call
  mark_redeemed : Network → Text → Text → Option Text → Option ℕ → ℕ → Call
  finalize : Network → Text → Text → Option Text → Option ℕ → ℕ → Call
  claim_redemption : Network → Text → ℕ → ℕ → Text → Call
  release_redemption : Network → Text → Text → Call

-- The state that a call leaves, whether it returns or raises.
unfoldable pub apply : Call → PayChannelStore → PayChannelStore
apply (Call.create r) s = (Store.create r s).1
apply (Call.advance call clock) s = (Store.advance call clock s).1
apply (Call.mark_redeemed n c a r t clock) s = (Store.mark_redeemed n c a r t clock s).1
apply (Call.finalize n c a e t clock) s = (Store.finalize n c a e t clock s).1
apply (Call.claim_redemption n c l now id) s = (Store.claim_redemption n c l now id s).1
apply (Call.release_redemption n c id) s = (Store.release_redemption n c id s).1

-- Calls in the order in which they take the store's lock.
unfoldable pub run : List Call → PayChannelStore → PayChannelStore
unfolding apply
run [] s = s
run (c ∷ cs) s = run cs (apply c s)

-- `create` is handed a record that its constructor has validated.
abbrev pub IsCall : Call → Type 0
IsCall (Call.create r) = IsRecord r
IsCall (Call.advance call clock) = Unit {0}
IsCall (Call.mark_redeemed n c a r t clock) = Unit {0}
IsCall (Call.finalize n c a e t clock) = Unit {0}
IsCall (Call.claim_redemption n c l now id) = Unit {0}
IsCall (Call.release_redemption n c id) = Unit {0}

abbrev pub AreCalls : List Call → Type 0
AreCalls [] = Unit {0}
AreCalls (c ∷ cs) = IsCall c × AreCalls cs

pub apply-IsSafe : (c : Call) (s : PayChannelStore) → IsCall c → IsStore s → IsSafe s (apply c s)
unfolding apply
apply-IsSafe (Call.create r) s h w = create-IsSafe r s h w
apply-IsSafe (Call.advance call clock) s h w = advance-IsSafe call clock s w
apply-IsSafe (Call.mark_redeemed n c a r t clock) s h w = mark_redeemed-IsSafe n c a r t clock s w
apply-IsSafe (Call.finalize n c a e t clock) s h w = finalize-IsSafe n c a e t clock s w
apply-IsSafe (Call.claim_redemption n c l now id) s h w = claim_redemption-IsSafe n c l now id s w
apply-IsSafe (Call.release_redemption n c id) s h w = release_redemption-IsSafe n c id s w

-- After any sequence of calls with valid created records, from a store that satisfies the
-- invariant, every record is well-formed and stands under its own key, no channel is lost, and
-- each channel has evolved by the contract: its identity is kept, its funding, cumulative and
-- redeemed amounts and its time have not fallen, and once finalized it stays so.
pub run-IsSafe :
    (cs : List Call) (s : PayChannelStore) → AreCalls cs → IsStore s → IsSafe s (run cs s)
unfolding run
run-IsSafe [] s h w = (w, Keeps-refl s)
run-IsSafe (c ∷ cs) s h w =
    let (w', k) = apply-IsSafe c s h.0 w in
    let (w'', k') = run-IsSafe cs (apply c s) h.1 w' in (w'', Keeps-trans k k')
