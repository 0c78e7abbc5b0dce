-- ===== src/ReverseSwap.antt =====
-- Reverse swaps, from the node to the chain (`libs/sdk-core/src/swap_out/reverseswap.rs`): the
-- node pays an invoice, the swapper locks money on the chain, and the node claims it.
pub mod Model
pub mod Status
pub mod Claims
pub mod Create
mod Tests
use breez_sdk.ReverseSwap.Model.{
  BoltzStatus, FullReverseSwap, PaymentStatus, ReverseSwapStatus, ReverseTable, cancelled,
  completed_confirmed, completed_seen, get_reverse_swap, in_progress, initial, is_failed_swap,
  is_monitored_state, list_monitored, payment_complete, payment_failed, payment_pending,
  update_reverse_swap_claim_txid, update_reverse_swap_lockup_txid, update_reverse_swap_status,
}
use breez_sdk.Prelude.{
  ℕ, Bool, true, false, ◌&&◌, ◌||◌, not, Option, none, some, List, [], ◌∷◌, ◌++◌, Text, Bytes,
  Result, ok, err, if◌then◌else◌, leb, ◌==◌, any, find, filterb, is_empty, is_none, eq_text,
}
use breez_sdk.SwapIn.Onchain.{OnchainTx, Vin, Vout}

-- `TxStatus`, and its conversion from a transaction that may be missing.
pub data ClaimTxStatus : Type 0 where
  tx_unknown : ClaimTxStatus
  tx_mempool : ClaimTxStatus
  tx_confirmed : ClaimTxStatus

unfoldable pub claim_tx_status : Option OnchainTx → ClaimTxStatus
claim_tx_status none = tx_unknown
claim_tx_status (some tx) = elim tx.tx_status.block_height [
  | none ↦ tx_mempool
  | some _ ↦ tx_confirmed
]

-- Errors, by their message.
pub record ReverseServices : Type 0 where
  pub get_lockup_address : FullReverseSwap → Result Text Text
  pub address_transactions : Text → Result Text (List OnchainTx)
  pub get_payment_status : FullReverseSwap → Option PaymentStatus
  pub get_boltz_status : Text → Result Text BoltzStatus
  pub current_tip : Result Text ℕ
  pub create_claim_tx : FullReverseSwap → Result Text Text
  pub convert_reverse_swap_info : FullReverseSwap → Result Text (Unit {0})

-- The storage, the updates that were sent, and the claims that were broadcast, by their id.
pub record ReverseState : Type 0 where
  pub table : ReverseTable
  pub subscribed : Bool
  pub events : List FullReverseSwap
  pub broadcasts : List Text

abbrev pub spends_from : Text → OnchainTx → Bool
spends_from a tx = any (λ (v : Vin). eq_text v.prevout.scriptpubkey_address a) tx.vin

abbrev pub pays_to : Text → OnchainTx → Bool
pays_to a tx = any (λ (v : Vout). eq_text v.scriptpubkey_address a) tx.vout

module _ (services : ReverseServices) where
  open services use {
    get_lockup_address, address_transactions, get_payment_status, get_boltz_status, current_tip,
    create_claim_tx, convert_reverse_swap_info,
  }

  unfoldable pub emit_reverse_swap_updated :
      Text → ReverseState → Result Text (Unit {0}) × ReverseState
  unfolding get_reverse_swap
  emit_reverse_swap_updated i st = elim (get_reverse_swap i st.table) [
    | none ↦ (err i, st)
    | some r ↦ elim (convert_reverse_swap_info r) [
      | err e ↦ (err e, st)
      | ok _ ↦
          if st.subscribed then (ok tt, record st { events = st.events ++ r ∷ [] }) else (err i, st)
    ]
  ]

  -- The transactions of the lockup address, through a test that is given the address.
  unfoldable pub find_at_lockup :
      FullReverseSwap → (Text → OnchainTx → Bool) → Result Text (Option OnchainTx)
  find_at_lockup r test = elim (get_lockup_address r) [
    | err e ↦ err e
    | ok a ↦ elim (address_transactions a) [ err e ↦ err e | ok txs ↦ ok (find (test a) txs) ]
  ]

  unfoldable pub get_claim_tx : FullReverseSwap → Result Text (Option OnchainTx)
  unfolding find_at_lockup
  get_claim_tx r = find_at_lockup r (λ a tx. spends_from a tx && pays_to r.claim_pubkey tx)

  unfoldable pub get_lockup_tx : FullReverseSwap → Result Text (Option OnchainTx)
  unfolding find_at_lockup
  get_lockup_tx r = find_at_lockup r (λ a tx.
      any (λ (v : Vout). (v.value == r.onchain_amount_sat) && eq_text v.scriptpubkey_address a)
        tx.vout)

  abbrev pub is_failed_payment : Option PaymentStatus → Bool
  is_failed_payment (some payment_failed) = true
  is_failed_payment (some payment_pending) = false
  is_failed_payment (some payment_complete) = false
  is_failed_payment none = false

  -- The match on the present status.
  unfoldable pub next_status :
      ReverseSwapStatus → FullReverseSwap → ClaimTxStatus → Result Text (Option ReverseSwapStatus)
  next_status initial r claim = elim (get_payment_status r) [
    | some _ ↦ ok (some in_progress)
    | none ↦ elim (get_boltz_status r.id) [
      | err e ↦ err e
      | ok s ↦ ok (if is_failed_swap s then some cancelled else none)
    ]
  ]
  next_status in_progress r tx_unknown = elim current_tip [
    | err e ↦ err e
    | ok tip ↦ ok (if leb r.timeout_block_height tip then some cancelled else none)
  ]
  next_status in_progress r tx_mempool = ok (some completed_seen)
  next_status in_progress r tx_confirmed = ok (some completed_confirmed)
  next_status completed_seen r tx_confirmed = ok (some completed_confirmed)
  next_status completed_seen r tx_unknown = ok none
  next_status completed_seen r tx_mempool = ok none
  next_status cancelled r claim = ok none
  next_status completed_confirmed r claim = ok none

  unfoldable pub get_status_update_for_monitored :
      FullReverseSwap → ClaimTxStatus → Result Text (Option ReverseSwapStatus)
  unfolding next_status
  get_status_update_for_monitored r claim =
      if not (is_monitored_state r.cache.status)
      then err r.id
      else if is_failed_payment (get_payment_status r)
      then ok (some cancelled)
      else next_status r.cache.status r claim

  -- The steps of `claim_reverse_swaps` on one swap: the new status, the claim, the cached ids.
  unfoldable pub store_status :
      FullReverseSwap
      → Option ReverseSwapStatus
      → ReverseState
      → Result Text (Unit {0}) × ReverseState
  unfolding emit_reverse_swap_updated
  store_status r none st = (ok tt, st)
  store_status r (some s) st =
      emit_reverse_swap_updated r.id
        (record st { table = update_reverse_swap_status r.id s st.table })

  unfoldable pub broadcast_claim :
      FullReverseSwap → ClaimTxStatus → ReverseState → Result Text (Option Text) × ReverseState
  broadcast_claim r tx_unknown st = (ok none, st)
  broadcast_claim r tx_mempool st = (ok none, st)
  broadcast_claim r tx_confirmed st = elim (create_claim_tx r) [
    | err e ↦ (err e, st)
    | ok txid ↦ (ok (some txid), record st { broadcasts = st.broadcasts ++ txid ∷ [] })
  ]

  abbrev pub txid_of : Option OnchainTx → Option Text
  txid_of none = none
  txid_of (some tx) = some tx.txid

  abbrev pub or_txid : Option Text → Option Text → Option Text
  or_txid (some a) b = some a
  or_txid none b = b

  unfoldable pub cache_lockup :
      FullReverseSwap → Option OnchainTx → ReverseState → Result Text (Unit {0}) × ReverseState
  unfolding emit_reverse_swap_updated
  cache_lockup r lockup st =
      if is_none r.cache.lockup_txid
      then emit_reverse_swap_updated r.id
          (record st { table = update_reverse_swap_lockup_txid r.id (txid_of lockup) st.table })
      else (ok tt, st)

  unfoldable pub cache_claim :
      FullReverseSwap
      → Option OnchainTx
      → Option Text
      → ReverseState
      → Result Text (Unit {0}) × ReverseState
  unfolding emit_reverse_swap_updated
  cache_claim r claim sent st =
      if is_none r.cache.claim_txid
      then emit_reverse_swap_updated r.id (record st {
        table = update_reverse_swap_claim_txid r.id (or_txid (txid_of claim) sent) st.table;
      })
      else (ok tt, st)

  unfoldable pub claim_one : FullReverseSwap → ReverseState → Result Text (Unit {0}) × ReverseState
  unfolding get_lockup_tx get_claim_tx get_status_update_for_monitored store_status broadcast_claim
      cache_lockup cache_claim claim_tx_status
  claim_one r st = elim (get_lockup_tx r) [
    | err e ↦ (err e, st)
    | ok lockup ↦ elim (get_claim_tx r) [
      | err e ↦ (err e, st)
      | ok claim ↦ elim (get_status_update_for_monitored r (claim_tx_status claim)) [
        | err e ↦ (err e, st)
        | ok update ↦
            let (a, st1) = store_status r update st in
            elim a [
              | err e ↦ (err e, st1)
              | ok _ ↦
                  let (b, st2) = broadcast_claim r (claim_tx_status lockup) st1 in
                  elim b [
                    | err e ↦ (err e, st2)
                    | ok sent ↦
                        let (c, st3) = cache_lockup r lockup st2 in
                        elim c [ err e ↦ (err e, st3) | ok _ ↦ cache_claim r claim sent st3 ]
                  ]
            ]
      ]
    ]
  ]

  -- The first error ends the loop.
  unfoldable pub claim_reverse_swaps :
      List FullReverseSwap → ReverseState → Result Text (Unit {0}) × ReverseState
  unfolding claim_one
  claim_reverse_swaps [] st = (ok tt, st)
  claim_reverse_swaps (r ∷ rs) st =
      let (a, st1) = claim_one r st in
      elim a [ err e ↦ (err e, st1) | ok _ ↦ claim_reverse_swaps rs st1 ]

  unfoldable pub process_monitored_reverse_swaps :
      ReverseState → Result Text (Unit {0}) × ReverseState
  unfolding list_monitored claim_reverse_swaps
  process_monitored_reverse_swaps st = claim_reverse_swaps (list_monitored st.table) st

  abbrev pub is_locked_at : Text → FullReverseSwap → Bool
  is_locked_at a r = elim (get_lockup_address r) [ err _ ↦ eq_text a [] | ok b ↦ eq_text a b ]

  unfoldable pub claim_reverse_swap : Text → ReverseState → Result Text (Unit {0}) × ReverseState
  unfolding list_monitored claim_reverse_swaps
  claim_reverse_swap a st =
      let rs = filterb (is_locked_at a) (list_monitored st.table) in
      if is_empty rs then (err a, st) else claim_reverse_swaps rs st
