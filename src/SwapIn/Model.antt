-- ===== src/SwapIn/Model.antt =====
-- The data of swaps from the chain into the node: `SwapStatus` and `SwapInfo` of
-- `libs/sdk-core/src/models.rs`, and the outputs of `libs/sdk-core/src/swap_in/swap.rs`.
use breez_sdk.Prelude.{
  ℕ, ◌+◌, min, Bool, true, ◌&&◌, Option, none, some, List, [], ◌∷◌, Text, Bytes, if◌then◌else◌,
  ◌==◌, length, filterb, is_some, is_none, map,
}
use breez_sdk.Prelude.Int.{ℤ}
use breez_sdk.Prelude.Words.{wrap_u64}
use breez_sdk.Fees.{OpeningFeeParams}

pub data SwapStatus : Type 0 where
  initial : SwapStatus
  waiting_confirmation : SwapStatus
  redeemable : SwapStatus
  redeemed : SwapStatus
  refundable : SwapStatus
  completed : SwapStatus

-- `as i32`, and `TryFrom<i32>`.
unfoldable pub status_code : SwapStatus → ℕ
status_code initial = 0
status_code waiting_confirmation = 1
status_code redeemable = 2
status_code redeemed = 3
status_code refundable = 4
status_code completed = 5

unfoldable pub status_of_code : ℕ → Option SwapStatus
status_of_code n =
    if n == 0
    then some initial
    else if n == 1
    then some waiting_confirmation
    else if n == 2
    then some redeemable
    else if n == 3
    then some redeemed
    else if n == 4
    then some refundable
    else if n == 5
    then some completed
    else none

abbrev pub unused_states : List SwapStatus
unused_states = initial ∷ []

abbrev pub in_progress_states : List SwapStatus
in_progress_states = redeemable ∷ waiting_confirmation ∷ []

abbrev pub redeemable_states : List SwapStatus
redeemable_states = redeemable ∷ []

abbrev pub refundable_states : List SwapStatus
refundable_states = refundable ∷ []

abbrev pub monitored_states : List SwapStatus
monitored_states = initial ∷ waiting_confirmation ∷ redeemable ∷ redeemed ∷ refundable ∷ []

pub record SwapInfo : Type 0 where
  pub bitcoin_address : Text
  pub created_at : ℤ
  pub lock_height : ℤ
  pub payment_hash : Bytes
  pub preimage : Bytes
  pub private_key : Bytes
  pub public_key : Bytes
  pub swapper_public_key : Bytes
  pub script : Bytes
  pub bolt11 : Option Text
  pub paid_msat : ℕ
  pub total_incoming_txs : ℕ
  pub confirmed_sats : ℕ
  pub unconfirmed_sats : ℕ
  pub status : SwapStatus
  pub refund_tx_ids : List Text
  pub unconfirmed_tx_ids : List Text
  pub confirmed_tx_ids : List Text
  pub min_allowed_deposit : ℤ
  pub max_allowed_deposit : ℤ
  pub max_swapper_payable : ℤ
  pub last_redeem_error : Option Text
  pub channel_opening_fees : Option OpeningFeeParams
  pub confirmed_at : Option ℕ

pub record SwapSpend : Type 0 where
  pub spent_tx_id : Text
  pub spent_output_index : ℕ
  pub spending_tx_id : Text
  pub spending_input_index : ℕ
  pub spend_height : Option ℕ
  pub spend_block_hash : Option Text

pub record SwapOutput : Type 0 where
  pub address : Text
  pub amount_sat : ℕ
  pub tx_id : Text
  pub output_index : ℕ
  pub confirmed_at_height : Option ℕ
  pub block_hash : Option Text
  pub spend : Option SwapSpend

-- `SwapChainData`, by its one field, `outputs`.
abbrev pub SwapChainData : Type 0
SwapChainData = List SwapOutput

pub record SwapChainInfo : Type 0 where
  pub info_unconfirmed_sats : ℕ
  pub info_unconfirmed_tx_ids : List Text
  pub info_confirmed_sats : ℕ
  pub info_confirmed_tx_ids : List Text
  pub info_confirmed_at : Option ℕ
  pub info_total_incoming_txs : ℕ

-- Not spent by a confirmed transaction.
unfoldable pub is_utxo : SwapOutput → Bool
is_utxo o = elim o.spend [ none ↦ true | some s ↦ is_none s.spend_height ]

unfoldable pub utxos : SwapChainData → List SwapOutput
unfolding is_utxo
utxos outputs = filterb is_utxo outputs

unfoldable pub confirmed_utxos : SwapChainData → List SwapOutput
unfolding utxos
confirmed_utxos outputs = filterb (λ u. is_some u.confirmed_at_height) (utxos outputs)

unfoldable pub sum_u64 : List ℕ → ℕ
sum_u64 [] = 0
sum_u64 (n ∷ ns) = wrap_u64 (n + sum_u64 ns)

-- `Iterator::min` of the heights that are there.
unfoldable pub min_height : List SwapOutput → Option ℕ
min_height [] = none
min_height (o ∷ os) = elim o.confirmed_at_height [
  | none ↦ min_height os
  | some h ↦ elim (min_height os) [ none ↦ some h | some m ↦ some (min h m) ]
]

abbrev pub is_pending_output : SwapOutput → Bool
is_pending_output o = is_none o.spend && is_none o.confirmed_at_height

abbrev pub is_confirmed_output : SwapOutput → Bool
is_confirmed_output o = is_none o.spend && is_some o.confirmed_at_height

unfoldable pub chain_info : SwapChainData → SwapChainInfo
unfolding sum_u64 min_height
chain_info outputs = record {
  info_unconfirmed_sats =
      sum_u64 (map (λ (o : SwapOutput). o.amount_sat) (filterb is_pending_output outputs));
  info_unconfirmed_tx_ids = map (λ (o : SwapOutput). o.tx_id) (filterb is_pending_output outputs);
  info_confirmed_sats =
      sum_u64 (map (λ (o : SwapOutput). o.amount_sat) (filterb is_confirmed_output outputs));
  info_confirmed_tx_ids = map (λ (o : SwapOutput). o.tx_id) (filterb is_confirmed_output outputs);
  info_confirmed_at = min_height outputs;
  info_total_incoming_txs = length outputs;
}
