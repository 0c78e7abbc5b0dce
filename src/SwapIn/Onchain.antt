-- ===== src/SwapIn/Onchain.antt =====
-- `fetch_swap_onchain_data` of `libs/sdk-core/src/swap_in/swap.rs`: from the transactions of an
-- address, as `libs/sdk-core/src/chain.rs` has them, to the outputs of a swap.
pub mod Outputs
use breez_sdk.Prelude.{
  ℕ, suc, Bool, true, false, ◌&&◌, Option, none, some, List, [], ◌∷◌, Text, if◌then◌else◌, ◌==◌,
  eq_text,
}
use breez_sdk.SwapIn.Model.{SwapOutput, SwapSpend, SwapChainData}

pub record TxStatus : Type 0 where
  pub confirmed : Bool
  pub block_height : Option ℕ
  pub status_block_hash : Option Text
  pub block_time : Option ℕ

pub record Vout : Type 0 where
  pub scriptpubkey : Text
  pub scriptpubkey_asm : Text
  pub scriptpubkey_type : Text
  pub scriptpubkey_address : Text
  pub value : ℕ

pub record Vin : Type 0 where
  pub vin_txid : Text
  pub vout_index : ℕ
  pub prevout : Vout
  pub scriptsig : Text
  pub scriptsig_asm : Text
  pub witness : Option (List Text)
  pub is_coinbase : Bool
  pub sequence : ℕ

pub record OnchainTx : Type 0 where
  pub txid : Text
  pub version : ℕ
  pub locktime : ℕ
  pub vin : List Vin
  pub vout : List Vout
  pub size : ℕ
  pub weight : ℕ
  pub fee : ℕ
  pub tx_status : TxStatus

-- The key of the map, the transaction and the index of an output in one text, is kept as a pair.
abbrev pub at_outpoint : Text → ℕ → SwapOutput → Bool
at_outpoint id n o = eq_text o.tx_id id && (o.output_index == n)

-- `HashMap::insert` and `HashMap::get_mut`; the order of a `HashMap` is left open by Rust, and here it
-- is the one of insertion.
unfoldable pub insert_output : SwapOutput → SwapChainData → SwapChainData
insert_output o [] = o ∷ []
insert_output o (p ∷ os) =
    let rest = insert_output o os in
    if at_outpoint o.tx_id o.output_index p then o ∷ os else p ∷ rest

unfoldable pub set_spend : SwapSpend → SwapChainData → SwapChainData
set_spend s [] = []
set_spend s (o ∷ os) =
    let rest = set_spend s os in
    if at_outpoint s.spent_tx_id s.spent_output_index o
    then record o { spend = some s } ∷ os
    else o ∷ rest

abbrev pub output_of : Text → OnchainTx → ℕ → Vout → SwapOutput
output_of address tx n v = record {
  address = address;
  amount_sat = v.value;
  tx_id = tx.txid;
  output_index = n;
  confirmed_at_height = tx.tx_status.block_height;
  block_hash = tx.tx_status.status_block_hash;
  spend = none;
}

abbrev pub spend_of : OnchainTx → ℕ → Vin → SwapSpend
spend_of tx n v = record {
  spent_tx_id = v.vin_txid;
  spent_output_index = v.vout_index;
  spending_tx_id = tx.txid;
  spending_input_index = n;
  spend_height = tx.tx_status.block_height;
  spend_block_hash = tx.tx_status.status_block_hash;
}

-- The loop over the outputs of one transaction, from an index on.
unfoldable pub collect_vouts : Text → OnchainTx → ℕ → List Vout → SwapChainData → SwapChainData
unfolding insert_output
collect_vouts address tx n [] outputs = outputs
collect_vouts address tx n (v ∷ vs) outputs = collect_vouts address tx (suc n) vs (
    if eq_text v.scriptpubkey_address address
    then insert_output (output_of address tx n v) outputs
    else outputs)

unfoldable pub collect_outputs : Text → List OnchainTx → SwapChainData → SwapChainData
unfolding collect_vouts
collect_outputs address [] outputs = outputs
collect_outputs address (tx ∷ txs) outputs =
    collect_outputs address txs (collect_vouts address tx 0 tx.vout outputs)

unfoldable pub collect_vins : OnchainTx → ℕ → List Vin → SwapChainData → SwapChainData
unfolding set_spend
collect_vins tx n [] outputs = outputs
collect_vins tx n (v ∷ vs) outputs =
    collect_vins tx (suc n) vs (set_spend (spend_of tx n v) outputs)

unfoldable pub collect_spends : List OnchainTx → SwapChainData → SwapChainData
unfolding collect_vins
collect_spends [] outputs = outputs
collect_spends (tx ∷ txs) outputs = collect_spends txs (collect_vins tx 0 tx.vin outputs)

unfoldable pub onchain_outputs : Text → List OnchainTx → SwapChainData
unfolding collect_outputs collect_spends
onchain_outputs address txs = collect_spends txs (collect_outputs address txs [])
