-- ===== src/Chain.antt =====
-- The chain service of `libs/sdk-core/src/chain.rs`: several instances, of which the first that answers
-- counts, and the unspent outputs of an address. The parser of transaction ids, of the crate
-- `bitcoin`, and the instances are parameters.
pub mod Answers
pub mod Unspent
mod Tests
use breez_sdk.Prelude.{
  ℕ, suc, Bool, true, false, ◌&&◌, ◌||◌, not, Option, none, some, List, [], ◌∷◌, ◌++◌, Text, Result,
  ok, err, if◌then◌else◌, ltb, ◌==◌, any, filterb, is_some, eq_text,
}
use breez_sdk.SwapIn.Onchain.{OnchainTx, Vin, Vout}

-- The loop of each call of `RedundantChainService`, over the answers of its instances.
unfoldable pub first_answer {ℓ} : {A : Type ℓ} → List (Result Text A) → Result Text A
first_answer [] = err []
first_answer (ok a ∷ answers) = ok a
first_answer (err e ∷ answers) = first_answer answers

-- `OutPoint`, with a transaction id that was parsed.
abbrev pub OutPoint : Type 0
OutPoint = Text × ℕ

abbrev pub eq_outpoint : OutPoint → OutPoint → Bool
eq_outpoint a b = eq_text a.0 b.0 && (a.1 == b.1)

pub record Utxo : Type 0 where
  pub out : OutPoint
  pub amount : ℕ
  pub utxo_height : Option ℕ

abbrev pub height_or_zero : Option ℕ → ℕ
height_or_zero none = 0
height_or_zero (some h) = h

-- `_confirmed_block`, by its fold.
unfoldable pub fold_block : ℕ → List Utxo → ℕ
fold_block b [] = b
fold_block b (u ∷ us) =
    let h = height_or_zero u.utxo_height in fold_block (if not (h == 0) || ltb h b then h else b) us

unfoldable pub confirmed_block : List Utxo → ℕ
unfolding fold_block
confirmed_block us = fold_block 0 us

module _ (parse_txid : Text → Option Text) (address : Text)
    (include_unconfirmed_spends : Bool) where
  -- An input that takes money from the address, in a transaction that counts.
  abbrev pub counts : OnchainTx → Vin → Bool
  counts tx v =
      eq_text v.prevout.scriptpubkey_address address
      && (include_unconfirmed_spends || tx.tx_status.confirmed)

  unfoldable pub spent_vins : OnchainTx → List Vin → List OutPoint → Option (List OutPoint)
  spent_vins tx [] spent = some spent
  spent_vins tx (v ∷ vs) spent = elim (if counts tx v then parse_txid v.vin_txid else none) [
    | some t ↦ spent_vins tx vs (spent ++ (t, v.vout_index) ∷ [])
    | none ↦ if counts tx v then none else spent_vins tx vs spent
  ]

  unfoldable pub spent_outputs : List OnchainTx → List OutPoint → Option (List OutPoint)
  unfolding spent_vins
  spent_outputs [] spent = some spent
  spent_outputs (tx ∷ txs) spent = elim (spent_vins tx tx.vin spent) [
    | none ↦ none
    | some spent' ↦ spent_outputs txs spent'
  ]

  unfoldable pub unspent_vouts :
      List OutPoint → OnchainTx → ℕ → List Vout → List Utxo → Option (List Utxo)
  unspent_vouts spent tx n [] utxos = some utxos
  unspent_vouts spent tx n (v ∷ vs) utxos =
      if eq_text v.scriptpubkey_address address
      then elim (parse_txid tx.txid) [
        | none ↦ none
        | some t ↦ unspent_vouts spent tx (suc n) vs (
            if any (eq_outpoint (t, n)) spent
            then utxos
            else utxos
              ++ record { out = (t, n); amount = v.value; utxo_height = tx.tx_status.block_height }
                ∷ [])
      ]
      else unspent_vouts spent tx (suc n) vs utxos

  unfoldable pub unspent_outputs : List OutPoint → List OnchainTx → List Utxo → Option (List Utxo)
  unfolding unspent_vouts
  unspent_outputs spent [] utxos = some utxos
  unspent_outputs spent (tx ∷ txs) utxos = elim (unspent_vouts spent tx 0 tx.vout utxos) [
    | none ↦ none
    | some utxos' ↦ unspent_outputs spent txs utxos'
  ]

  -- `none` where an id cannot be parsed.
  unfoldable pub get_utxos : List OnchainTx → Option (List Utxo)
  unfolding spent_outputs unspent_outputs
  get_utxos txs = elim (spent_outputs txs []) [
    | none ↦ none
    | some spent ↦ elim (unspent_outputs spent txs []) [
      | none ↦ none
      | some utxos ↦ some (filterb (λ (u : Utxo). is_some u.utxo_height) utxos)
    ]
  ]
