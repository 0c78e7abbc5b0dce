-- ===== src/SwapIn/Payout/Unconfirmed.antt =====
-- Which outputs count as paid while one is unconfirmed (`unpaid_utxos` of
-- `libs/sdk-core/src/swap_in/swap.rs`).
use breez_sdk.Prelude.{
  ◌≡◌, refl, sym, ap, ◌∙◌, ℕ, ◌*◌, ◌≤◌, ◌<◌, inl, inr, true, none, List, [], ◌∷◌, arith, all,
  Member, filterb-Member, Option-cases,
}
use breez_sdk.Prelude.Words.{wrap_u64}
use breez_sdk.SwapIn.Model.{SwapInfo, SwapOutput, SwapChainData, utxos}
use breez_sdk.SwapIn.Payout.{
  height_leb, insert_by_height, sort_by_height, take_paid, other_outpoint, unpaid_utxos,
}

-- The first of the sorted outputs is unconfirmed.
abbrev HeadUnconfirmed : SwapChainData → List SwapOutput → Type 0
HeadUnconfirmed outputs sorted =
    (p : SwapOutput) × ((rest : List SwapOutput) × ((sorted ≡ p ∷ rest)
        × (p.confirmed_at_height ≡ none)
        × Member p outputs))

insert-first :
    (o : SwapOutput) (sorted : List SwapOutput)
    → o.confirmed_at_height ≡ none
    → (rest : List SwapOutput) × (insert_by_height o sorted ≡ o ∷ rest)
unfolding insert_by_height height_leb
insert-first o [] open_height = ([], refl)
insert-first o (p ∷ sorted) open_height = (p ∷ sorted, ground (arith, open_height))

insert-keeps :
    (o : SwapOutput) (outputs : SwapChainData) (sorted : List SwapOutput)
    → HeadUnconfirmed outputs sorted
    → HeadUnconfirmed (o ∷ outputs) (insert_by_height o sorted)
unfolding insert_by_height height_leb
insert-keeps o outputs sorted (p, (rest, (e, open_height, mem))) =
    elim (Option-cases o.confirmed_at_height) [
      | inl nothing ↦
          let (tail, first) = insert-first o sorted nothing in
          (o, (tail, (first, nothing, inl refl)))
      | inr (h, height) ↦ (
        p,
        (
          insert_by_height o rest,
          (ap (insert_by_height o) e ∙ ground (arith, height, open_height), open_height, inr mem),
        ),
      )
    ]

sort-head :
    (u : SwapOutput) (outputs : SwapChainData)
    → Member u outputs
    → u.confirmed_at_height ≡ none
    → HeadUnconfirmed outputs (sort_by_height outputs)
unfolding sort_by_height
sort-head u [] mem open_height = absurd mem
sort-head u (o ∷ outputs) (inl same) open_height =
    let at : o.confirmed_at_height ≡ none =
      ap (λ (z : SwapOutput). z.confirmed_at_height) (sym same) ∙ open_height in
    let (tail, first) = insert-first o (sort_by_height outputs) at in
    (o, (tail, (first, at, inl refl)))
sort-head u (o ∷ outputs) (inr mem) open_height =
    insert-keeps o outputs (sort_by_height outputs) (sort-head u outputs mem open_height)

take_paid-one :
    (paid : ℕ) (p : SwapOutput) (rest : List SwapOutput)
    → 0 < paid
    → paid ≤ wrap_u64 (p.amount_sat * 1000)
    → take_paid paid 0 (p ∷ rest) ≡ p ∷ []
unfolding take_paid
take_paid-one paid p [] some_paid covers = ground (arith, some_paid)
take_paid-one paid p (q ∷ rest) some_paid covers = ground (arith, some_paid, covers)

-- While an output is unconfirmed, and the unconfirmed outputs each reach the amount that was paid, it
-- is one of them that counts as paid for: every output without a confirmed spend that has another
-- outpoint than the unconfirmed ones counts as unpaid, the confirmed ones included.
pub unpaid_utxos-unconfirmed :
    (swap : SwapInfo) (outputs : SwapChainData) (u o : SwapOutput)
    → Member u outputs
    → u.confirmed_at_height ≡ none
    → 0 < swap.paid_msat
    → ((p : SwapOutput)
        → Member p outputs
        → p.confirmed_at_height ≡ none
        → (swap.paid_msat ≤ wrap_u64 (p.amount_sat * 1000)) × (other_outpoint o p ≡ true))
    → Member o (utxos outputs)
    → Member o (unpaid_utxos swap outputs)
unfolding unpaid_utxos
unpaid_utxos-unconfirmed swap outputs u o mem open_height some_paid covers unspent =
    let (p, (rest, (sorted, open_first, first))) = sort-head u outputs mem open_height in
    let (enough, other) = covers p first open_first in
    let paid : take_paid swap.paid_msat 0 (sort_by_height outputs) ≡ p ∷ [] =
      ap (take_paid swap.paid_msat 0) sorted
      ∙ take_paid-one swap.paid_msat p rest some_paid enough in
    filterb-Member
      (λ z. all (other_outpoint z) (take_paid swap.paid_msat 0 (sort_by_height outputs))) o
      (utxos outputs) unspent (ap (all (other_outpoint o)) paid ∙ ground (arith, other))
