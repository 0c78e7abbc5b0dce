-- ===== src/SwapIn/Refresh/Rows.antt =====
-- The rows of swaps and what the steps of a refresh keep of them (`libs/sdk-core/src/swap_in/swap.rs`).
use mathlib.Core.Path.{subst}
use breez_sdk.Prelude.{
  ◌≡◌, refl, sym, ap, ◌∙◌, ℕ, inl, inr, Option, none, some, List, arith, Text, Bytes, Result, ◌==◌,
  eq_text_refl, Option-cases, Result-cases, Bool-cases,
}
use breez_sdk.SwapIn.Model.{SwapInfo, SwapChainData, SwapStatus, chain_info}
use breez_sdk.SwapIn.Equality.{SwapChainData-discrete}
use breez_sdk.SwapIn.Onchain.{OnchainTx, onchain_outputs}
use breez_sdk.SwapIn.Storage.{
  SwapRow, SwapTable, select_swap, update_swap, select_swap-update_swap, get_swap_chain_data,
  set_swap_chain_data, set_swap_status, update_swap_paid_amount, with_chain_info, put_chain_data,
  put_paid, put_status,
}
use breez_sdk.SwapIn.Refresh.{
  SwapError, fetch_swap_onchain_data, refresh_swap_onchain_data, refresh_swap_payment_data,
}

-- The row of a swap has the columns that belong to its chain data.
abbrev pub HoldsRow : SwapInfo → Option SwapChainData → SwapTable → Type 0
HoldsRow swap outputs t =
    (r : SwapRow) × ((select_swap swap.bitcoin_address t ≡ some r)
      × (r.info ≡ swap)
      × (r.chain_data ≡ outputs))

abbrev pub FitsChain : SwapInfo → Option SwapChainData → Type 0
FitsChain swap none = Unit
FitsChain swap (some d) = with_chain_info (chain_info d) swap ≡ swap

module _ (a : Text) (f : SwapRow → SwapRow) (t : SwapTable) (r : SwapRow) where
  pub update_found :
      select_swap a t ≡ some r
      → ((r : SwapRow) → (f r).info.bitcoin_address ≡ r.info.bitcoin_address)
      → select_swap a (update_swap a f t) ≡ some (f r)
  update_found found keeps =
      ground (arith, found, select_swap-update_swap a a f t keeps, eq_text_refl a)

pub holds_result :
    (swap : SwapInfo) (d : Option SwapChainData) (t : SwapTable)
    (res : SwapInfo × Option SwapChainData × SwapTable)
    → res ≡ (swap, d, t)
    → HoldsRow swap d t × FitsChain swap d
    → HoldsRow res.0 res.1 res.2 × FitsChain res.0 res.1
holds_result swap d t res e holds =
    subst
      (λ (z : SwapInfo × Option SwapChainData × SwapTable).
        HoldsRow z.0 z.1 z.2 × FitsChain z.0 z.1)
      (sym e) holds

pub stored_chain :
    (swap : SwapInfo) (d : Option SwapChainData) (new : SwapChainData) (t : SwapTable)
    → HoldsRow swap d t
    → HoldsRow
        (with_chain_info (chain_info new) swap)
        (some new)
        (set_swap_chain_data swap.bitcoin_address new (chain_info new) t)
unfolding set_swap_chain_data
stored_chain swap d new t (r, (found, same, chain)) = (
  put_chain_data new (chain_info new) r,
  (
    update_found swap.bitcoin_address (put_chain_data new (chain_info new)) t r found (λ r. refl),
    ap (with_chain_info (chain_info new)) same,
    refl,
  ),
)

module _ (address_transactions : Text → Result SwapError (List OnchainTx)) where
  pub onchain-HoldsRow :
      (swap : SwapInfo) (d : Option SwapChainData) (t : SwapTable)
      → HoldsRow swap d t
      → FitsChain swap d
      → HoldsRow
          (refresh_swap_onchain_data address_transactions swap t).0
          (refresh_swap_onchain_data address_transactions swap t).1
          (refresh_swap_onchain_data address_transactions swap t).2
        × FitsChain
            (refresh_swap_onchain_data address_transactions swap t).0
            (refresh_swap_onchain_data address_transactions swap t).1
  unfolding refresh_swap_onchain_data get_swap_chain_data fetch_swap_onchain_data
  onchain-HoldsRow swap d t (r, (found, same, chain)) fits =
      let result = refresh_swap_onchain_data address_transactions swap t in
      elim (Result-cases (address_transactions swap.bitcoin_address)) [
        | inr (e, failed) ↦
            holds_result swap d t result (ground (arith, failed, found, chain))
              ((r, (found, same, chain)), fits)
        | inl (txs, fetched) ↦
            let new = onchain_outputs swap.bitcoin_address txs in
            let swap' : SwapInfo = with_chain_info (chain_info new) swap in
            let stored = stored_chain swap d new t (r, (found, same, chain)) in
            elim (Option-cases d) [
              | inl nothing ↦
                  holds_result swap' (some new)
                    (set_swap_chain_data swap.bitcoin_address new (chain_info new) t) result
                    (ground (arith, fetched, found, chain, nothing)) (stored, refl)
              | inr (old, have) ↦ elim (SwapChainData-discrete old new) [
                | yes eq ↦
                    let fit : with_chain_info (chain_info new) swap ≡ swap =
                      subst (λ (z : SwapChainData). with_chain_info (chain_info z) swap ≡ swap) eq
                        (subst (FitsChain swap) have fits) in
                    holds_result swap' (some new) t result
                      (ground (arith, fetched, found, chain, have, eq))
                      ((r, (found, same ∙ sym fit, chain ∙ have ∙ ap some eq)), refl)
                | no ne ↦
                    holds_result swap' (some new)
                      (set_swap_chain_data swap.bitcoin_address new (chain_info new) t) result
                      (ground (arith, fetched, found, chain, have, ne)) (stored, refl)
              ]
            ]
      ]

pub stored_paid :
    (swap : SwapInfo) (d : Option SwapChainData) (amount : ℕ) (t : SwapTable)
    → HoldsRow swap d t
    → HoldsRow
        (record swap { paid_msat = amount })
        d
        (update_swap_paid_amount swap.bitcoin_address amount t)
unfolding update_swap_paid_amount
stored_paid swap d amount t (r, (found, same, chain)) = (
  put_paid amount r,
  (
    update_found swap.bitcoin_address (put_paid amount) t r found (λ r. refl),
    ap (λ (i : SwapInfo). record i { paid_msat = amount }) same,
    chain,
  ),
)

pub payment-HoldsRow :
    (payments : Bytes → Option ℕ) (swap : SwapInfo) (d : Option SwapChainData) (t : SwapTable)
    → HoldsRow swap d t
    → HoldsRow
        (refresh_swap_payment_data payments swap t).0
        d
        (refresh_swap_payment_data payments swap t).1
unfolding refresh_swap_payment_data
payment-HoldsRow payments swap d t (r, (found, same, chain)) =
    elim (Option-cases (payments swap.payment_hash)) [
      | inl nothing ↦ rw (nothing, refresh_swap_payment_data) (r, (found, same, chain))
      | inr (amount, paid) ↦ elim (Bool-cases (amount == swap.paid_msat)) [
        | inl known ↦
            rw (paid, refresh_swap_payment_data)
              (rw known (r, (found, same ∙ ground (arith, known), chain)))
        | inr news ↦
            rw (paid, refresh_swap_payment_data)
              (rw news (stored_paid swap d amount t (r, (found, same, chain))))
      ]
    ]

pub stored_status :
    (swap : SwapInfo) (d : Option SwapChainData) (s : SwapStatus) (t : SwapTable)
    → HoldsRow swap d t
    → HoldsRow (record swap { status = s }) d (set_swap_status swap.bitcoin_address s t)
unfolding set_swap_status
stored_status swap d s t (r, (found, same, chain)) = (
  put_status s r,
  (
    update_found swap.bitcoin_address (put_status s) t r found (λ r. refl),
    ap (λ (i : SwapInfo). record i { status = s }) same,
    chain,
  ),
)

pub onchain-address :
    (txs : Text → Result SwapError (List OnchainTx)) (swap : SwapInfo) (t : SwapTable)
    → (refresh_swap_onchain_data txs swap t).0.bitcoin_address ≡ swap.bitcoin_address
unfolding refresh_swap_onchain_data
onchain-address txs swap t = ground arith

pub payment-address :
    (payments : Bytes → Option ℕ) (swap : SwapInfo) (t : SwapTable)
    → (refresh_swap_payment_data payments swap t).0.bitcoin_address ≡ swap.bitcoin_address
unfolding refresh_swap_payment_data
payment-address payments swap t = ground arith

pub onchain-status :
    (txs : Text → Result SwapError (List OnchainTx)) (swap : SwapInfo) (t : SwapTable)
    → (refresh_swap_onchain_data txs swap t).0.status ≡ swap.status
unfolding refresh_swap_onchain_data
onchain-status txs swap t = ground arith

pub payment-status :
    (payments : Bytes → Option ℕ) (swap : SwapInfo) (t : SwapTable)
    → (refresh_swap_payment_data payments swap t).0.status ≡ swap.status
unfolding refresh_swap_payment_data
payment-status payments swap t = ground arith
