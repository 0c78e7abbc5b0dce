-- ===== src/SwapIn/Payout/Safety.antt =====
-- When the money of a swap can be paid out, refunded or is gone
-- (`libs/sdk-core/src/swap_in/swap.rs`).
use mathlib.Core.Path.{subst}
use breez_sdk.Prelude.{
  Bool, Bool-cases, ◌≡◌, refl, sym, ap, ◌∙◌, min, Member, filterb-Member, Member-filterb,
  Member-nonempty, ℕ, ◌+◌, ◌≤◌, ◌<◌, inl, inr, true, false, some, List, [], ◌∷◌, arith, filterb,
  all, is_empty, Option-cases,
}
use breez_sdk.Prelude.Words.{as_u32, saturating_add_u32}
use breez_sdk.SwapIn.Model.{
  refundable, completed, SwapInfo, SwapOutput, SwapChainData, utxos, is_utxo, min_height,
}
use breez_sdk.SwapIn.Payout.Heights.{sum_of}
use breez_sdk.SwapIn.Payout.Paid.{msat_of, msat_below, paid-below}
use breez_sdk.SwapIn.Payout.{
  SwapAddressType, segwit, taproot, payout_blocks_left, take_paid, sort_by_height, unpaid_utxos,
  is_refundable, refundable_utxos, other_outpoint, calculate_status, status_after_payout,
}

take_paid-nothing : (sum : ℕ) (os : List SwapOutput) → take_paid 0 sum os ≡ []
unfolding take_paid
take_paid-nothing sum [] = refl
take_paid-nothing sum (o ∷ os) = ground arith

filterb-all : (os : List SwapOutput) → filterb (λ o. true) os ≡ os
filterb-all [] = refl
filterb-all (o ∷ os) = ground (arith, filterb-all os)

unpaid_utxos-nothing :
    (swap : SwapInfo) (outputs : SwapChainData)
    → swap.paid_msat ≡ 0
    → unpaid_utxos swap outputs ≡ utxos outputs
unfolding unpaid_utxos
unpaid_utxos-nothing swap outputs free =
    ground (arith, take_paid-nothing 0 (sort_by_height outputs), filterb-all (utxos outputs), free)

pub min_height-le :
    (o : SwapOutput) (os : List SwapOutput) (h : ℕ)
    → Member o os
    → o.confirmed_at_height ≡ some h
    → (m : ℕ) × ((min_height os ≡ some m) × (m ≤ h))
unfolding min_height
min_height-le o [] h mem e = absurd mem
min_height-le o (p ∷ os) h (inl same) e =
    let height : p.confirmed_at_height ≡ some h =
      ap (λ (q : SwapOutput). q.confirmed_at_height) (sym same) ∙ e in
    elim (Option-cases (min_height os)) [
      | inl nothing ↦ (h, ground (arith, height, nothing))
      | inr (m, found) ↦ (min h m, ground (arith, height, found))
    ]
min_height-le o (p ∷ os) h (inr mem) e =
    let (m, (found, le)) = min_height-le o os h mem e in
    elim (Option-cases p.confirmed_at_height) [
      | inl nothing ↦ (m, ground (arith, nothing, found, le))
      | inr (k, height) ↦ (min k m, ground (arith, height, found, le))
    ]

pub payout_over :
    (at : SwapAddressType) (swap : SwapInfo) (m tip : ℕ)
    → m + as_u32 swap.lock_height ≤ tip
    → payout_blocks_left at swap m tip ≡ 0
unfolding payout_blocks_left
payout_over segwit swap m tip h = omega (arith, h)
payout_over taproot swap m tip h = ground (arith, h)

due_output :
    (at : SwapAddressType) (swap : SwapInfo) (tip : ℕ) (u : SwapOutput) (h : ℕ)
    → u.confirmed_at_height ≡ some h
    → h + as_u32 swap.lock_height ≤ tip
    → tip < 4294967296
    → is_refundable swap tip at u ≡ true
unfolding is_refundable
due_output segwit swap tip u h height over bound = ground (arith, height, over, bound)
due_output taproot swap tip u h height over bound = refl

pub all-of :
    (p : SwapOutput → Bool) (os : List SwapOutput)
    → ((o : SwapOutput) → Member o os → p o ≡ true)
    → all p os ≡ true
all-of p [] h = refl
all-of p (o ∷ os) h = ground (arith, h o (inl refl), all-of p os (λ q m. h q (inr m)))

-- No other output is at the outpoint of `u`.
abbrev pub IsAlone : SwapOutput → SwapChainData → Type 0
IsAlone u outputs = (o : SwapOutput) → Member o outputs → other_outpoint u o ≡ false → o ≡ u

-- Where the outputs below an unspent one already cover what was paid, nobody was paid for it.
pub unpaid-Member :
    (swap : SwapInfo) (outputs : SwapChainData) (u : SwapOutput)
    → IsAlone u outputs
    → sum_of msat_of outputs < 18446744073709551616
    → swap.paid_msat ≤ sum_of (msat_below u.confirmed_at_height) outputs
    → Member u outputs
    → is_utxo u ≡ true
    → Member u (unpaid_utxos swap outputs)
unfolding unpaid_utxos utxos
unpaid-Member swap outputs u alone bound covered mem unspent =
    let paid : List SwapOutput = take_paid swap.paid_msat 0 (sort_by_height outputs) in
    let apart : (o : SwapOutput) → Member o paid → other_outpoint u o ≡ true = λ o m.
      let (at, under) = paid-below swap.paid_msat outputs bound o m in
      elim (Bool-cases (other_outpoint u o)) [
        | inl other ↦ other
        | inr same ↦
            let is_u : o ≡ u = alone o at same in
            absurd (
              ground (
                arith,
                subst
                    (λ (z : SwapOutput).
                      sum_of (msat_below z.confirmed_at_height) outputs < swap.paid_msat)
                    is_u under,
                covered,
              ))
      ] in
    filterb-Member (λ o. all (other_outpoint o) paid) u (utxos outputs)
      (filterb-Member is_utxo u outputs mem unspent) (all-of (other_outpoint u) paid apart)

-- A confirmed output that no confirmed transaction has spent, whose lock has run out and before which
-- lower or unconfirmed outputs already cover what the swapper has paid, makes the status of the swap
-- `refundable`, for both types of address, where the sums fit and no other output is at its outpoint.
pub refundable_after_lock :
    (at : SwapAddressType) (swap : SwapInfo) (outputs : SwapChainData) (tip : ℕ) (u : SwapOutput)
    (h : ℕ)
    → IsAlone u outputs
    → sum_of msat_of outputs < 18446744073709551616
    → swap.paid_msat ≤ sum_of (msat_below u.confirmed_at_height) outputs
    → Member u outputs
    → is_utxo u ≡ true
    → u.confirmed_at_height ≡ some h
    → h + as_u32 swap.lock_height ≤ tip
    → tip < 4294967296
    → calculate_status swap at (some outputs) tip ≡ refundable
unfolding calculate_status status_after_payout refundable_utxos utxos
refundable_after_lock at swap outputs tip u h alone fits covered mem unspent height over bound =
    let (m, (found, le)) = min_height-le u outputs h mem height in
    let here : Member u (utxos outputs) = filterb-Member is_utxo u outputs mem unspent in
    let unpaid = unpaid-Member swap outputs u alone fits covered mem unspent in
    let due : is_refundable swap tip at u ≡ true = due_output at swap tip u h height over bound in
    ground (
      arith,
      found,
      Member-nonempty u outputs mem,
      Member-nonempty u (utxos outputs) here,
      Member-nonempty u (unpaid_utxos swap outputs) unpaid,
      payout_over at swap m tip (omega (arith, le, over)),
      Member-nonempty u (filterb (is_refundable swap tip at) (unpaid_utxos swap outputs))
          (filterb-Member (is_refundable swap tip at) u (unpaid_utxos swap outputs) unpaid due),
    )

unpaid_utxos-utxos :
    (swap : SwapInfo) (outputs : SwapChainData)
    → is_empty (utxos outputs) ≡ true
    → is_empty (unpaid_utxos swap outputs) ≡ true
unfolding unpaid_utxos
unpaid_utxos-utxos swap outputs h = ground (arith, h)

-- By its chain data, a swap is shown as completed only if no output is left that counts as unpaid.
pub completed-unpaid_utxos :
    (at : SwapAddressType) (swap : SwapInfo) (outputs : SwapChainData) (tip : ℕ)
    → calculate_status swap at (some outputs) tip ≡ completed
    → is_empty (unpaid_utxos swap outputs) ≡ true
unfolding calculate_status status_after_payout
completed-unpaid_utxos at swap outputs tip done = elim (Option-cases (min_height outputs)) [
  | inl nothing ↦ absurd (ground (arith, done, nothing))
  | inr (m, found) ↦ ground (arith, done, found, unpaid_utxos-utxos swap outputs)
]

-- A taproot swap that is shown as refundable has an output to refund.
pub refundable-refundable_utxos :
    (swap : SwapInfo) (outputs : SwapChainData) (tip : ℕ)
    → calculate_status swap taproot (some outputs) tip ≡ refundable
    → is_empty (refundable_utxos swap outputs tip taproot) ≡ false
unfolding calculate_status status_after_payout refundable_utxos is_refundable
refundable-refundable_utxos swap outputs tip h = elim (Option-cases (min_height outputs)) [
  | inl nothing ↦ absurd (ground (arith, h, nothing))
  | inr (m, found) ↦ ground (
    arith,
    h,
    found,
    unpaid_utxos-nothing swap outputs,
    filterb-all (utxos outputs),
    filterb-all (unpaid_utxos swap outputs),
  )
]

-- Every output that may be refunded of a segwit swap is confirmed, has no confirmed spend and has
-- passed its lock.
pub refundable_utxos-lock :
    (swap : SwapInfo) (outputs : SwapChainData) (tip : ℕ) (u : SwapOutput)
    → Member u (refundable_utxos swap outputs tip segwit)
    → (h : ℕ) × ((u.confirmed_at_height ≡ some h)
        × (saturating_add_u32 h (as_u32 swap.lock_height) ≤ tip)
        × (is_utxo u ≡ true))
unfolding refundable_utxos is_refundable unpaid_utxos utxos
refundable_utxos-lock swap outputs tip u mem =
    let (mem_unpaid, due) =
      Member-filterb (is_refundable swap tip segwit) u (unpaid_utxos swap outputs) mem in
    let (mem_utxos, _) =
      Member-filterb
        (λ o. all (other_outpoint o) (take_paid swap.paid_msat 0 (sort_by_height outputs))) u
        (utxos outputs) mem_unpaid in
    let (_, unspent) = Member-filterb is_utxo u outputs mem_utxos in
    elim (Option-cases u.confirmed_at_height) [
      | inl nothing ↦ absurd (ground (arith, due, nothing))
      | inr (h, height) ↦ (h, (height, ground (arith, due, height), unspent))
    ]
