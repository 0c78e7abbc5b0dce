-- ===== src/SwapIn/Refresh.antt =====
-- How a swap is brought up to date: `refresh_swap`, `on_event` and what they call, of
-- `libs/sdk-core/src/swap_in/swap.rs`. The parser of addresses, the chain service and the completed
-- payments are parameters; the pending redemptions are in SwapIn/Redeem.
pub mod Rows
pub mod Stored
use breez_sdk.Prelude.{
  ℕ, Bool, true, false, Option, none, some, List, [], ◌∷◌, ◌++◌, Text, Bytes, Result, ok, err,
  if◌then◌else◌, ◌==◌,
}
use breez_sdk.SwapIn.Model.{SwapInfo, SwapChainData, SwapStatus, chain_info}
use breez_sdk.SwapIn.Equality.{SwapInfo-discrete, SwapChainData-discrete}
use breez_sdk.SwapIn.Onchain.{OnchainTx, onchain_outputs}
use breez_sdk.SwapIn.Payout.{SwapAddressType, calculate_status}
use breez_sdk.SwapIn.Storage.{
  SwapTable, get_swap_info_by_address, get_swap_info_by_hash, get_swap_chain_data,
  set_swap_chain_data, set_swap_status, update_swap_paid_amount, with_chain_info,
}

-- `ReceiveSwapError`, without the variants that only transactions give.
pub data SwapError : Type 0 where
  generic : Text → SwapError
  invalid_address_type : SwapError
  no_utxos : SwapError
  utxos_timelocked : SwapError
  payment_failed : Text → SwapError
  swap_not_found : SwapError
  persist_error : SwapError
  service_connectivity : Text → SwapError
  missing_opening_fee_params : SwapError
  unsupported_swap_limits : SwapError

-- `BTCReceiveSwap`, by what changes: the stored swaps, the tip, and the updates that were sent to
-- the subscribers, if there are any.
pub record SwapState : Type 0 where
  pub table : SwapTable
  pub current_tip : ℕ
  pub subscribed : Bool
  pub events : List SwapInfo

-- A broadcast fails without a subscriber.
unfoldable pub emit_swap_updated : Text → SwapState → Result SwapError (Unit {0}) × SwapState
unfolding get_swap_info_by_address
emit_swap_updated a st = elim (get_swap_info_by_address a st.table) [
  | none ↦ (err (generic a), st)
  | some swap ↦
      if st.subscribed
      then (ok tt, record st { events = st.events ++ swap ∷ [] })
      else (err (generic a), st)
]

module _ (address_transactions : Text → Result SwapError (List OnchainTx)) where
  unfoldable pub fetch_swap_onchain_data : SwapInfo → Result SwapError SwapChainData
  fetch_swap_onchain_data swap = elim (address_transactions swap.bitcoin_address) [
    | err e ↦ err e
    | ok txs ↦ ok (onchain_outputs swap.bitcoin_address txs)
  ]

  -- It has no error of its own, since the database does not fail here.
  unfoldable pub refresh_swap_onchain_data :
      SwapInfo → SwapTable → SwapInfo × Option SwapChainData × SwapTable
  unfolding fetch_swap_onchain_data SwapChainData-discrete
  refresh_swap_onchain_data swap t =
      let existing = get_swap_chain_data swap.bitcoin_address t in
      elim (fetch_swap_onchain_data swap) [
        | err _ ↦ (swap, existing, t)
        | ok new ↦
            let stored = set_swap_chain_data swap.bitcoin_address new (chain_info new) t in
            let t' : SwapTable = elim existing [
              | none ↦ stored
              | some old ↦ elim (SwapChainData-discrete old new) [ yes _ ↦ t | no _ ↦ stored ]
            ] in
            (with_chain_info (chain_info new) swap, some new, t')
      ]

unfoldable pub refresh_swap_payment_data :
    (Bytes → Option ℕ) → SwapInfo → SwapTable → SwapInfo × SwapTable
refresh_swap_payment_data get_completed_payment_by_hash swap t =
    elim (get_completed_payment_by_hash swap.payment_hash) [
      | none ↦ (swap, t)
      | some amount ↦ (
        record swap { paid_msat = amount },
        if amount == swap.paid_msat
            then t
            else update_swap_paid_amount swap.bitcoin_address amount t,
      )
    ]

-- The end of `refresh_swap`: a swap that has changed is stored by its status and sent out.
unfoldable pub store_refreshed :
    SwapInfo → SwapInfo → SwapState → Result SwapError SwapInfo × SwapState
unfolding emit_swap_updated SwapInfo-discrete
store_refreshed swap new st = elim (SwapInfo-discrete new swap) [
  | yes _ ↦ (ok new, st)
  | no _ ↦
      let t = set_swap_status swap.bitcoin_address new.status st.table in
      let (r, st') = emit_swap_updated swap.bitcoin_address (record st { table = t }) in
      elim r [ err e ↦ (err e, st') | ok _ ↦ (ok new, st') ]
]

module _ (parse_address : Text → Result SwapError SwapAddressType)
    (address_transactions : Text → Result SwapError (List OnchainTx))
    (get_completed_payment_by_hash : Bytes → Option ℕ) where
  unfoldable pub refresh_swap : SwapInfo → ℕ → SwapState → Result SwapError SwapInfo × SwapState
  unfolding refresh_swap_onchain_data refresh_swap_payment_data store_refreshed
  refresh_swap swap tip st =
      let (swap1, outputs, t1) = refresh_swap_onchain_data address_transactions swap st.table in
      let (swap2, t2) = refresh_swap_payment_data get_completed_payment_by_hash swap1 t1 in
      elim (parse_address swap.bitcoin_address) [
        | err e ↦ (err e, record st { table = t2 })
        | ok address_type ↦
            let status = calculate_status swap2 address_type outputs tip in
            store_refreshed swap (record swap2 { status = status }) (record st { table = t2 })
      ]

  -- A swap that cannot be refreshed does not keep the others from it.
  unfoldable pub refresh_swaps : List SwapInfo → ℕ → SwapState → SwapState
  unfolding refresh_swap
  refresh_swaps [] tip st = st
  refresh_swaps (s ∷ swaps) tip st = refresh_swaps swaps tip (refresh_swap s tip st).1

  -- The event of a paid invoice, in `on_event`.
  unfoldable pub on_invoice_paid : Bytes → SwapState → Result SwapError (Unit {0}) × SwapState
  unfolding emit_swap_updated
  on_invoice_paid hash st = elim (get_swap_info_by_hash hash st.table) [
    | none ↦ (ok tt, st)
    | some swap ↦ elim (get_completed_payment_by_hash hash) [
      | none ↦ (ok tt, st)
      | some amount ↦ elim (parse_address swap.bitcoin_address) [
        | err e ↦ (err e, st)
        | ok address_type ↦
            let a = swap.bitcoin_address in
            let outputs = get_swap_chain_data a st.table in
            let paid : SwapInfo = record swap { paid_msat = amount } in
            let status = calculate_status paid address_type outputs st.current_tip in
            let t = set_swap_status a status (update_swap_paid_amount a amount st.table) in
            emit_swap_updated a (record st { table = t })
      ]
    ]
  ]
