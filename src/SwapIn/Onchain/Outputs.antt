-- ===== src/SwapIn/Onchain/Outputs.antt =====
-- Which outputs of an address a swap sees, and which of them as spent
-- (`libs/sdk-core/src/swap_in/swap.rs`).
use breez_sdk.Prelude.{
  ◌≡◌, refl, ℕ, suc, inl, inr, Bool, false, ◌&&◌, ◌||◌, Option, none, some, List, [], ◌∷◌, arith,
  Text, if◌then◌else◌, ◌==◌, eq_text, eq_text_iff, any, is_some, Bool-cases,
}
use breez_sdk.SwapIn.Model.{SwapOutput, SwapSpend, SwapChainData}
use breez_sdk.SwapIn.Onchain.{
  OnchainTx, Vin, Vout, at_outpoint, output_of, spend_of, insert_output, set_spend, collect_vouts,
  collect_outputs, collect_vins, collect_spends, onchain_outputs,
}

-- `HashMap::get`.
unfoldable pub output_at : Text → ℕ → SwapChainData → Option SwapOutput
output_at id n [] = none
output_at id n (o ∷ os) = if at_outpoint id n o then some o else output_at id n os

abbrev pub has_spend : Option SwapOutput → Bool
has_spend none = false
has_spend (some o) = is_some o.spend

-- Does some transaction spend an outpoint?
abbrev pub spends : Text → ℕ → Vin → Bool
spends id n v = eq_text v.vin_txid id && (v.vout_index == n)

unfoldable pub is_spent : Text → ℕ → List OnchainTx → Bool
is_spent id n txs = any (λ (tx : OnchainTx). any (spends id n) tx.vin) txs

module _ (id : Text) (n : ℕ) where
  output_at-set_spend :
      (s : SwapSpend) (os : SwapChainData)
      → (is_some (output_at id n (set_spend s os)) ≡ is_some (output_at id n os))
        × (has_spend (output_at id n (set_spend s os))
            ≡ has_spend (output_at id n os)
              || (is_some (output_at id n os)
                  && (eq_text s.spent_tx_id id && (s.spent_output_index == n))))
  unfolding output_at set_spend
  output_at-set_spend s [] = (refl, refl)
  output_at-set_spend s (o ∷ os) = ground (
    arith,
    output_at-set_spend s os,
    eq_text_iff o.tx_id id,
    eq_text_iff o.tx_id s.spent_tx_id,
    eq_text_iff s.spent_tx_id id,
  )

  output_at-collect_vins :
      (tx : OnchainTx) (k : ℕ) (vs : List Vin) (os : SwapChainData)
      → (is_some (output_at id n (collect_vins tx k vs os)) ≡ is_some (output_at id n os))
        × (has_spend (output_at id n (collect_vins tx k vs os))
            ≡ has_spend (output_at id n os)
              || (is_some (output_at id n os) && any (spends id n) vs))
  unfolding collect_vins
  output_at-collect_vins tx k [] os = ground arith
  output_at-collect_vins tx k (v ∷ vs) os =
      let s = spend_of tx k v in
      ground
        (arith, output_at-set_spend s os, output_at-collect_vins tx (suc k) vs (set_spend s os))

  output_at-collect_spends :
      (txs : List OnchainTx) (os : SwapChainData)
      → (is_some (output_at id n (collect_spends txs os)) ≡ is_some (output_at id n os))
        × (has_spend (output_at id n (collect_spends txs os))
            ≡ has_spend (output_at id n os) || (is_some (output_at id n os) && is_spent id n txs))
  unfolding collect_spends is_spent
  output_at-collect_spends [] os = ground arith
  output_at-collect_spends (tx ∷ txs) os =
      let marked = collect_vins tx 0 tx.vin os in
      ground (arith, output_at-collect_vins tx 0 tx.vin os, output_at-collect_spends txs marked)

  output_at-insert_output :
      (o : SwapOutput) (os : SwapChainData)
      → output_at id n (insert_output o os)
        ≡ (if at_outpoint id n o then some o else output_at id n os)
  unfolding output_at insert_output
  output_at-insert_output o [] = refl
  output_at-insert_output o (p ∷ os) = ground (
    arith,
    output_at-insert_output o os,
    eq_text_iff o.tx_id id,
    eq_text_iff p.tx_id id,
    eq_text_iff p.tx_id o.tx_id,
  )

module _ (address id : Text) (n : ℕ) where
  -- Does the output of an index, in a list from an index on, pay to the address?
  unfoldable pub pays_from : ℕ → List Vout → Bool
  pays_from k [] = false
  pays_from k (v ∷ vs) =
      ((k == n) && eq_text v.scriptpubkey_address address) || pays_from (suc k) vs

  unfoldable pub is_paid : List OnchainTx → Bool
  unfolding pays_from
  is_paid txs = any (λ (tx : OnchainTx). eq_text tx.txid id && pays_from 0 tx.vout) txs

  output_at-collect_vouts :
      (tx : OnchainTx) (k : ℕ) (vs : List Vout) (os : SwapChainData)
      → (is_some (output_at id n (collect_vouts address tx k vs os))
          ≡ is_some (output_at id n os) || (eq_text tx.txid id && pays_from k vs))
        × (has_spend (output_at id n os) ≡ false
            → has_spend (output_at id n (collect_vouts address tx k vs os)) ≡ false)
  unfolding collect_vouts pays_from
  output_at-collect_vouts tx k [] os = ground arith
  output_at-collect_vouts tx k (v ∷ vs) os =
      elim (Bool-cases (eq_text v.scriptpubkey_address address)) [
        | inl pays ↦
            let o = output_of address tx k v in
            ground (
              arith,
              pays,
              output_at-insert_output id n o os,
              output_at-collect_vouts tx (suc k) vs (insert_output o os),
            )
        | inr other ↦ ground (arith, other, output_at-collect_vouts tx (suc k) vs os)
      ]

  output_at-collect_outputs :
      (txs : List OnchainTx) (os : SwapChainData)
      → (is_some (output_at id n (collect_outputs address txs os))
          ≡ is_some (output_at id n os) || is_paid txs)
        × (has_spend (output_at id n os) ≡ false
            → has_spend (output_at id n (collect_outputs address txs os)) ≡ false)
  unfolding collect_outputs is_paid
  output_at-collect_outputs [] os = ground arith
  output_at-collect_outputs (tx ∷ txs) os =
      let os' = collect_vouts address tx 0 tx.vout os in
      ground (arith, output_at-collect_vouts tx 0 tx.vout os, output_at-collect_outputs txs os')

  -- The outputs that are collected for an address are, by outpoint, those with which the transactions
  -- pay to it, and one of them has a spend if and only if an input of a transaction names it,
  -- whatever the order of the transactions.
  pub onchain_outputs-exact :
      (txs : List OnchainTx)
      → (is_some (output_at id n (onchain_outputs address txs)) ≡ is_paid txs)
        × (has_spend (output_at id n (onchain_outputs address txs))
            ≡ is_paid txs && is_spent id n txs)
  unfolding onchain_outputs output_at
  onchain_outputs-exact txs =
      let collected = collect_outputs address txs [] in
      ground (arith, output_at-collect_outputs txs [], output_at-collect_spends id n txs collected)
