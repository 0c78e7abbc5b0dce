-- ===== src/SwapIn/Payout.antt =====
-- `calculate_status` and what it is made of, of `libs/sdk-core/src/swap_in/swap.rs`, with
-- `payout_blocks_left` of `segwit.rs` and `taproot.rs` beside it.
pub mod Heights
pub mod Paid
pub mod Safety
pub mod Window
pub mod Covered
pub mod Unconfirmed
use breez_sdk.Prelude.{
  ℕ, ◌+◌, ◌-◌, ◌*◌, min, Bool, true, false, ◌&&◌, ◌||◌, not, Option, none, some, List, [], ◌∷◌,
  if◌then◌else◌, ltb, leb, ◌==◌, eq_text, filterb, all, any, is_empty, is_some,
}
use breez_sdk.Prelude.Int.{ℤ}
use breez_sdk.Prelude.Words.{wrap_u64, as_u32, as_u64, saturating_add_u32}
use breez_sdk.SwapIn.Model.{
  SwapStatus, initial, waiting_confirmation, redeemable, redeemed, refundable, completed, SwapInfo,
  SwapOutput, SwapChainData, utxos, confirmed_utxos, min_height,
}

pub data SwapAddressType : Type 0 where
  segwit : SwapAddressType
  taproot : SwapAddressType

abbrev pub payout_validity_blocks : ℕ
payout_validity_blocks = 360

-- The two forms of `payout_blocks_left`; a subtraction on ℕ is Rust's `saturating_sub`.
abbrev pub segwit_blocks_left : SwapInfo → ℕ → ℕ → ℕ
segwit_blocks_left swap min_confirmation tip = as_u32 swap.lock_height - (tip - min_confirmation)

abbrev pub taproot_blocks_left : SwapInfo → ℕ → ℕ → ℕ
taproot_blocks_left swap min_confirmation tip =
    min payout_validity_blocks (as_u32 swap.lock_height) - (tip - min_confirmation)

unfoldable pub payout_blocks_left : SwapAddressType → SwapInfo → ℕ → ℕ → ℕ
payout_blocks_left segwit swap min_confirmation tip = segwit_blocks_left swap min_confirmation tip
payout_blocks_left taproot swap min_confirmation tip = taproot_blocks_left swap min_confirmation tip

-- The order of heights: without one first.
unfoldable pub height_leb : Option ℕ → Option ℕ → Bool
height_leb none b = true
height_leb (some a) none = false
height_leb (some a) (some b) = leb a b

-- `sort_by` is stable: an element goes before the first one that it does not exceed.
unfoldable pub insert_by_height : SwapOutput → List SwapOutput → List SwapOutput
unfolding height_leb
insert_by_height o [] = o ∷ []
insert_by_height o (p ∷ os) =
    let rest = insert_by_height o os in
    if height_leb o.confirmed_at_height p.confirmed_at_height then o ∷ (p ∷ os) else p ∷ rest

unfoldable pub sort_by_height : List SwapOutput → List SwapOutput
unfolding insert_by_height
sort_by_height [] = []
sort_by_height (o ∷ os) = insert_by_height o (sort_by_height os)

-- `take_while` with the sum of the outputs taken so far, in msat.
unfoldable pub take_paid : ℕ → ℕ → List SwapOutput → List SwapOutput
take_paid paid sum [] = []
take_paid paid sum (o ∷ os) =
    let rest = take_paid paid (wrap_u64 (sum + wrap_u64 (o.amount_sat * 1000))) os in
    if leb paid sum then [] else o ∷ rest

abbrev pub other_outpoint : SwapOutput → SwapOutput → Bool
other_outpoint o po = not (eq_text po.tx_id o.tx_id) || not (po.output_index == o.output_index)

unfoldable pub unpaid_utxos : SwapInfo → SwapChainData → List SwapOutput
unfolding sort_by_height take_paid
unpaid_utxos swap outputs =
    let paid = take_paid swap.paid_msat 0 (sort_by_height outputs) in
    filterb (λ o. all (other_outpoint o) paid) (utxos outputs)

unfoldable pub is_refundable : SwapInfo → ℕ → SwapAddressType → SwapOutput → Bool
is_refundable swap tip taproot o = true
is_refundable swap tip segwit o = elim o.confirmed_at_height [
  | none ↦ false
  | some height ↦ (saturating_add_u32 height (as_u32 swap.lock_height) - tip) == 0
]

unfoldable pub refundable_utxos : SwapInfo → SwapChainData → ℕ → SwapAddressType → List SwapOutput
unfolding is_refundable
refundable_utxos swap outputs tip address_type =
    filterb (is_refundable swap tip address_type) (unpaid_utxos swap outputs)

-- Beyond what the swapper pays for.
abbrev pub outside_limits : SwapInfo → SwapOutput → Bool
outside_limits swap u =
    ltb (as_u64 swap.max_allowed_deposit) u.amount_sat
    || ltb u.amount_sat (as_u64 swap.min_allowed_deposit)

abbrev pub is_taproot : SwapAddressType → Bool
is_taproot taproot = true
is_taproot segwit = false

unfoldable pub calculate_status_without_chain_data : SwapInfo → SwapAddressType → ℕ → SwapStatus
unfolding payout_blocks_left
calculate_status_without_chain_data swap address_type tip =
    let passed_timelock : Bool = elim swap.confirmed_at [
      | none ↦ false
      | some confirmed_at ↦ payout_blocks_left address_type swap confirmed_at tip == 0
    ] in
    if passed_timelock
    then if swap.confirmed_sats == 0
      then completed
      else if ltb 0 swap.paid_msat && (swap.total_incoming_txs == 1)
      then completed
      else refundable
    else if is_some swap.confirmed_at
        && ((swap.unconfirmed_sats == 0) && (swap.confirmed_sats == 0))
    then completed
    else if ltb 0 swap.paid_msat
    then redeemed
    else if ltb 0 swap.confirmed_sats
    then redeemable
    else if ltb 0 swap.unconfirmed_sats
    then waiting_confirmation
    else initial

-- The part of `calculate_status` after the window in which the swapper pays.
unfoldable pub status_after_payout : SwapInfo → SwapAddressType → SwapChainData → ℕ → SwapStatus
unfolding refundable_utxos
status_after_payout swap address_type outputs tip =
    if is_empty (unpaid_utxos swap outputs)
    then completed
    else if is_empty (refundable_utxos swap outputs tip address_type)
    then redeemed
    else refundable

unfoldable pub calculate_status : SwapInfo → SwapAddressType → Option SwapChainData → ℕ → SwapStatus
unfolding calculate_status_without_chain_data status_after_payout utxos confirmed_utxos
calculate_status swap address_type none tip =
    calculate_status_without_chain_data swap address_type tip
calculate_status swap address_type (some outputs) tip =
    if is_empty outputs then initial else elim (min_height outputs) [
      | none ↦ waiting_confirmation
      | some min_confirmation ↦
          if is_empty (utxos outputs)
          then completed
          else if ltb 0 (payout_blocks_left address_type swap min_confirmation tip)
              && (swap.paid_msat == 0)
          then if all (λ (u : SwapOutput). is_some u.spend) (utxos outputs)
            then refundable
            else if is_taproot address_type && any (outside_limits swap) (confirmed_utxos outputs)
            then refundable
            else redeemable
          else status_after_payout swap address_type outputs tip
    ]
