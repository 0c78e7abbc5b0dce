-- ===== src/SwapIn/Payout/Covered.antt =====
-- When a swap is done (`libs/sdk-core/src/swap_in/swap.rs`).
use breez_sdk.Prelude.{
  ◌≡◌, refl, sym, ◌∙◌, ℕ, ◌+◌, ◌≤◌, ◌<◌, inl, inr, true, false, some, List, [], ◌∷◌, arith, Member,
  Member-filterb, Member-nonempty, all, all-Member, is_empty, Bool-cases, eq_text_refl, leb,
}
use breez_sdk.Prelude.Words.{as_u32}
use breez_sdk.SwapIn.Model.{
  completed, SwapInfo, SwapOutput, SwapChainData, utxos, is_utxo, min_height,
}
use breez_sdk.SwapIn.Payout.{
  SwapAddressType, take_paid, sort_by_height, unpaid_utxos, other_outpoint, calculate_status,
  status_after_payout,
}
use breez_sdk.SwapIn.Payout.Heights.{sum_of}
use breez_sdk.SwapIn.Payout.Paid.{msat_of, msat_below, msat_upto, below-paid}
use breez_sdk.SwapIn.Payout.Safety.{IsAlone, unpaid-Member, completed-unpaid_utxos, payout_over}

own_outpoint : (u : SwapOutput) → other_outpoint u u ≡ false
own_outpoint u = ground (arith, eq_text_refl u.tx_id)

empty-of :
    (os : List SwapOutput) → ((o : SwapOutput) → Member o os → false ≡ true) → is_empty os ≡ true
empty-of [] h = refl
empty-of (o ∷ os) h = absurd (ground (arith, h o (inl refl)))

min_height-nonempty : (os : List SwapOutput) (m : ℕ) → min_height os ≡ some m → is_empty os ≡ false
unfolding min_height
min_height-nonempty [] m h = absurd (ground (arith, h))
min_height-nonempty (o ∷ os) m h = refl

-- Where every unspent output counts as paid, none is left.
paid-empty :
    (swap : SwapInfo) (outputs : SwapChainData)
    → sum_of msat_of outputs < 18446744073709551616
    → ((u : SwapOutput)
        → Member u outputs
        → is_utxo u ≡ true
        → sum_of (msat_upto u.confirmed_at_height) outputs < swap.paid_msat + msat_of u)
    → is_empty (unpaid_utxos swap outputs) ≡ true
unfolding unpaid_utxos utxos
paid-empty swap outputs fits covered =
    let paid : List SwapOutput = take_paid swap.paid_msat 0 (sort_by_height outputs) in
    empty-of (unpaid_utxos swap outputs) (λ o m.
      let (listed, apart) = Member-filterb (λ u. all (other_outpoint u) paid) o (utxos outputs) m in
      let (at, unspent) = Member-filterb is_utxo o outputs listed in
      let counts = below-paid swap.paid_msat outputs fits o at (covered o at unspent) in
      sym (own_outpoint o) ∙ all-Member (other_outpoint o) o paid apart counts)

-- Where the sums fit, a swap that its chain data show as completed has no unspent output, alone at its
-- outpoint, before which the lower or unconfirmed outputs already cover what the swapper has paid.
pub completed-covered :
    (at : SwapAddressType) (swap : SwapInfo) (outputs : SwapChainData) (tip : ℕ) (u : SwapOutput)
    → sum_of msat_of outputs < 18446744073709551616
    → calculate_status swap at (some outputs) tip ≡ completed
    → IsAlone u outputs
    → Member u outputs
    → is_utxo u ≡ true
    → sum_of (msat_below u.confirmed_at_height) outputs < swap.paid_msat
completed-covered at swap outputs tip u fits done alone mem unspent =
    elim (Bool-cases (leb swap.paid_msat (sum_of (msat_below u.confirmed_at_height) outputs))) [
      | inr under ↦ ground (arith, under)
      | inl over ↦
          let left = unpaid-Member swap outputs u alone fits (ground (arith, over)) mem unspent in
          absurd (
            ground (
              arith,
              completed-unpaid_utxos at swap outputs tip done,
              Member-nonempty u (unpaid_utxos swap outputs) left,
            ))
    ]

-- Where the sums fit, and the lock of the lowest confirmed output has run out, a swap is shown as
-- completed by its chain data if for each unspent output the others up to its height do not cover what
-- the swapper has paid.
pub covered-completed :
    (at : SwapAddressType) (swap : SwapInfo) (outputs : SwapChainData) (tip m : ℕ)
    → sum_of msat_of outputs < 18446744073709551616
    → min_height outputs ≡ some m
    → m + as_u32 swap.lock_height ≤ tip
    → ((u : SwapOutput)
        → Member u outputs
        → is_utxo u ≡ true
        → sum_of (msat_upto u.confirmed_at_height) outputs < swap.paid_msat + msat_of u)
    → calculate_status swap at (some outputs) tip ≡ completed
unfolding calculate_status status_after_payout
covered-completed at swap outputs tip m fits found over covered = ground (
  arith,
  min_height-nonempty outputs m found,
  found,
  payout_over at swap m tip over,
  paid-empty swap outputs fits covered,
)
