-- ===== src/SwapIn/Refund/Timelock.antt =====
-- Refunds and the time lock of their outputs (`libs/sdk-core/src/swap_in/swap.rs`).
use breez_sdk.Prelude.{
  ◌≡◌, refl, ℕ, inl, inr, Bool, true, List, [], ◌∷◌, arith, all, filterb, Bool-cases, Option-cases,
}
use breez_sdk.SwapIn.Model.{SwapInfo, SwapOutput, SwapChainData}
use breez_sdk.SwapIn.Payout.{segwit, is_refundable, unpaid_utxos, refundable_utxos}
use breez_sdk.SwapIn.Refund.{
  insert_by_outpoint, sort_by_outpoint, outpoint_leb, past_lock, has_passed_timelock,
}

all-insert :
    (p : SwapOutput → Bool) (o : SwapOutput) (os : List SwapOutput)
    → p o ≡ true
    → all p os ≡ true
    → all p (insert_by_outpoint o os) ≡ true
unfolding insert_by_outpoint
all-insert p o [] h k = ground (arith, h)
all-insert p o (q ∷ os) h k = elim (Bool-cases (outpoint_leb o q)) [
  | inl before ↦ rw before (ground (arith, h, k))
  | inr after ↦ rw after (ground (arith, all-insert p o os, h, k))
]

all-sort :
    (p : SwapOutput → Bool) (os : List SwapOutput)
    → all p os ≡ true
    → all p (sort_by_outpoint os) ≡ true
unfolding sort_by_outpoint
all-sort p [] h = refl
all-sort p (o ∷ os) h =
    all-insert p o (sort_by_outpoint os) (ground (arith, h)) (all-sort p os (ground (arith, h)))

all-past_lock :
    (swap : SwapInfo) (tip : ℕ) (os : List SwapOutput)
    → all (past_lock swap tip) (filterb (is_refundable swap tip segwit) os) ≡ true
unfolding is_refundable
all-past_lock swap tip [] = refl
all-past_lock swap tip (o ∷ os) = elim (Option-cases o.confirmed_at_height) [
  | inl nothing ↦ ground (arith, nothing, all-past_lock swap tip os)
  | inr (h, height) ↦ ground (arith, height, all-past_lock swap tip os)
]

-- The outputs that are selected for the refund of a segwit swap have all passed the time lock, so
-- that the check in front of the transaction always lets them through.
pub segwit-has_passed_timelock :
    (swap : SwapInfo) (outputs : SwapChainData) (tip : ℕ)
    → has_passed_timelock swap tip (sort_by_outpoint (refundable_utxos swap outputs tip segwit))
      ≡ true
unfolding has_passed_timelock refundable_utxos
segwit-has_passed_timelock swap outputs tip =
    all-sort (past_lock swap tip)
      (filterb (is_refundable swap tip segwit) (unpaid_utxos swap outputs))
      (all-past_lock swap tip (unpaid_utxos swap outputs))
