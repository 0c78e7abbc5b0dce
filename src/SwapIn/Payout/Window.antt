-- ===== src/SwapIn/Payout/Window.antt =====
-- When a swap can be redeemed (`libs/sdk-core/src/swap_in/swap.rs`).
use breez_sdk.Prelude.{
  Bool, Bool-cases, none, ◌≡◌, refl, ap, ◌∙◌, Member, filterb-Member, Member-filterb, ℕ, ◌+◌, ◌≤◌,
  ◌<◌, inl, inr, true, false, ◌&&◌, some, List, [], ◌∷◌, arith, all, any, is_some, Option-cases,
}
use breez_sdk.Prelude.Words.{as_u32, as_u64}
use breez_sdk.SwapIn.Model.{
  redeemable, SwapInfo, SwapOutput, SwapChainData, utxos, is_utxo, confirmed_utxos, min_height,
}
use breez_sdk.SwapIn.Payout.Safety.{min_height-le}
use breez_sdk.SwapIn.Payout.{
  SwapAddressType, segwit, taproot, payout_blocks_left, outside_limits, is_taproot,
  calculate_status, status_after_payout,
}

payout_open :
    (at : SwapAddressType) (swap : SwapInfo) (m tip : ℕ)
    → 0 < payout_blocks_left at swap m tip
    → (tip < m + as_u32 swap.lock_height) × (is_taproot at ≡ true → tip < m + 360)
unfolding payout_blocks_left
payout_open segwit swap m tip h = (omega (arith, h), λ t. absurd (ground (arith, t)))
payout_open taproot swap m tip h = (ground (arith, h), λ t. ground (arith, h))

payout_shrinks :
    (at : SwapAddressType) (swap : SwapInfo) (m tip later : ℕ)
    → tip ≤ later
    → payout_blocks_left at swap m later ≤ payout_blocks_left at swap m tip
unfolding payout_blocks_left
payout_shrinks segwit swap m tip later le = omega (arith, le)
payout_shrinks taproot swap m tip later le = ground (arith, le)

not-all :
    (p : SwapOutput → Bool) (os : List SwapOutput)
    → all p os ≡ false
    → (o : SwapOutput) × Member o os × (p o ≡ false)
not-all p [] h = absurd (ground (arith, h))
not-all p (o ∷ os) h = elim (Bool-cases (p o)) [
  | inr no_more ↦ (o, inl refl, no_more)
  | inl one ↦ let (q, m, no_more) = not-all p os (ground (arith, h, one)) in (q, inr m, no_more)
]

any-none :
    (p : SwapOutput → Bool) (o : SwapOutput) (os : List SwapOutput)
    → any p os ≡ false
    → Member o os
    → p o ≡ false
any-none p o [] h m = absurd m
any-none p o (q ∷ os) h (inl same) = ap p same ∙ ground (arith, h)
any-none p o (q ∷ os) h (inr m) = any-none p o os (ground (arith, h)) m

-- What holds of each confirmed output of a swap that is redeemable.
pub record InWindow (at : SwapAddressType) (swap : SwapInfo) (tip : ℕ) (u : SwapOutput) (h : ℕ)
    : Type 0 where
  pub before_lock : tip < h + as_u32 swap.lock_height
  pub before_limit : is_taproot at ≡ true → tip < h + 360
  pub within_limits :
      is_taproot at ≡ true
      → is_utxo u ≡ true
      → (as_u64 swap.min_allowed_deposit ≤ u.amount_sat)
        × (u.amount_sat ≤ as_u64 swap.max_allowed_deposit)

within :
    (at : SwapAddressType) (swap : SwapInfo) (outputs : SwapChainData) (u : SwapOutput) (h : ℕ)
    → (is_taproot at && any (outside_limits swap) (confirmed_utxos outputs)) ≡ false
    → Member u outputs
    → u.confirmed_at_height ≡ some h
    → is_taproot at ≡ true
    → is_utxo u ≡ true
    → (as_u64 swap.min_allowed_deposit ≤ u.amount_sat)
      × (u.amount_sat ≤ as_u64 swap.max_allowed_deposit)
unfolding confirmed_utxos utxos
within at swap outputs u h inside mem height taproot_ unspent =
    let listed =
      filterb-Member (λ (o : SwapOutput). is_some o.confirmed_at_height) u (utxos outputs)
        (filterb-Member is_utxo u outputs mem unspent) (ground (arith, height)) in
    let fits =
      any-none (outside_limits swap) u (confirmed_utxos outputs) (ground (arith, inside, taproot_))
        listed in
    (ground (arith, fits), ground (arith, fits))

-- By its chain data, a swap is redeemable only if nothing was paid and some output has no spend at all,
-- and while the tip is below the lock of every confirmed output; on a taproot address it is also less than
-- 360 blocks above each of them, and those that are unspent are within the limits of the swap.
pub redeemable_only :
    (at : SwapAddressType) (swap : SwapInfo) (outputs : SwapChainData) (tip : ℕ) (u : SwapOutput)
    (k : ℕ)
    → calculate_status swap at (some outputs) tip ≡ redeemable
    → Member u outputs
    → u.confirmed_at_height ≡ some k
    → (swap.paid_msat ≡ 0)
      × (((o : SwapOutput) × Member o outputs × (o.spend ≡ none)) × InWindow at swap tip u k)
unfolding calculate_status status_after_payout utxos
redeemable_only at swap outputs tip u k h mem height = elim (Option-cases (min_height outputs)) [
  | inl nothing ↦ absurd (ground (arith, h, nothing))
  | inr (m, found) ↦
      let (lock, limit) = payout_open at swap m tip (ground (arith, h, found)) in
      let inside : (is_taproot at && any (outside_limits swap) (confirmed_utxos outputs)) ≡ false =
        ground (arith, h, found) in
      let (o, listed, bare) =
        not-all (λ (u : SwapOutput). is_some u.spend) (utxos outputs) (ground (arith, h, found)) in
      let (m', (found', le)) = min_height-le u outputs k mem height in
      let same : m' ≡ m = ground (arith, found, found') in
      (
        ground (arith, h, found),
        (
          (o, (Member-filterb is_utxo o outputs listed).0, ground (arith, bare)),
          record {
            before_lock = omega (arith, lock, same, le);
            before_limit = λ t. omega (arith, limit t, same, le);
            within_limits = within at swap outputs u k inside mem height;
          },
        ),
      )
]

-- The window in which a swap is redeemable does not open again as blocks are added.
pub redeemable-earlier :
    (at : SwapAddressType) (swap : SwapInfo) (outputs : SwapChainData) (tip later : ℕ)
    → tip ≤ later
    → calculate_status swap at (some outputs) later ≡ redeemable
    → calculate_status swap at (some outputs) tip ≡ redeemable
unfolding calculate_status status_after_payout
redeemable-earlier at swap outputs tip later le h = elim (Option-cases (min_height outputs)) [
  | inl nothing ↦ absurd (ground (arith, h, nothing))
  | inr (m, found) ↦ ground (arith, h, found, payout_shrinks at swap m tip later le)
]
