-- ===== src/SwapIn/Redeem.antt =====
-- `redeem_swap`, `execute_pending_swaps`, `create_swap` and the lists of
-- `libs/sdk-core/src/swap_in/swap.rs`: the calls that drive a swap towards its payment.
pub mod Recorded
use breez_sdk.Prelude.{
  ℕ, ◌*◌, ◌-◌, ◌/◌, min, Bool, true, false, ◌&&◌, ◌||◌, not, Option, none, some, List, [], ◌∷◌,
  ◌++◌, map, Text, Bytes, Result, ok, err, if◌then◌else◌, ltb, leb, ◌==◌, find, eq_text,
}
use breez_sdk.Prelude.Int.{ℤ, pos, ◌-ℤ◌, leb_ℤ, ltb_ℤ, eq_ℤ}
use breez_sdk.Fees.{OpeningFeeParams}
use breez_sdk.SwapIn.Model.{
  SwapInfo, SwapStatus, unused_states, redeemable_states, refundable_states, in_progress_states,
  monitored_states,
}
use breez_sdk.SwapIn.Onchain.{OnchainTx}
use breez_sdk.SwapIn.Payout.{SwapAddressType, segwit, taproot, is_taproot}
use breez_sdk.SwapIn.Storage.{
  SwapTable, ListSwapsRequest, by_status, list_swaps, get_swap_info_by_address, insert_swap,
  update_swap_bolt11, update_swap_redeem_error, update_swap_max_allowed_deposit, update_swap_fees,
}
use breez_sdk.SwapIn.Refresh.{
  SwapError, generic, payment_failed, swap_not_found, persist_error, service_connectivity,
  missing_opening_fee_params, unsupported_swap_limits, SwapState, emit_swap_updated, refresh_swaps,
  on_invoice_paid,
}
use breez_sdk.SwapIn.PaymentRequest.{
  PaymentServices, RequestError, needs_new_fee_params, invoice_already_exists, request_connectivity,
  request_generic, request_missing_fee_params, get_payment_request,
}

-- `From<GetPaymentRequestError> for ReceiveSwapError`
unfoldable pub of_request_error : RequestError → SwapError
of_request_error needs_new_fee_params = generic []
of_request_error invoice_already_exists = generic []
of_request_error (request_connectivity msg) = service_connectivity msg
of_request_error (request_generic msg) = generic msg
of_request_error request_missing_fee_params = missing_opening_fee_params

unfoldable pub list_in_progress_swaps : SwapTable → List SwapInfo
list_in_progress_swaps t = list_swaps (by_status in_progress_states) t

unfoldable pub list_redeemables : SwapTable → List SwapInfo
list_redeemables t = list_swaps (by_status redeemable_states) t

unfoldable pub list_refundables : SwapTable → List SwapInfo
list_refundables t = list_swaps (by_status refundable_states) t

unfoldable pub list_unused : SwapTable → List SwapInfo
list_unused t = list_swaps (by_status unused_states) t

-- `MONITOR_EXPIRED_SWAP_BLOCKS`, times the seconds of a block.
abbrev pub monitor_expired_swap_seconds : ℕ
monitor_expired_swap_seconds = 144 * 28 * 600

-- `HashMap::insert` by address.
unfoldable pub put_by_address : SwapInfo → List SwapInfo → List SwapInfo
put_by_address s [] = s ∷ []
put_by_address s (r ∷ rs) =
    let rest = put_by_address s rs in
    if eq_text r.bitcoin_address s.bitcoin_address then s ∷ rs else r ∷ rest

unfoldable pub put_all_by_address : List SwapInfo → List SwapInfo → List SwapInfo
unfolding put_by_address
put_all_by_address [] rs = rs
put_all_by_address (s ∷ swaps) rs = put_all_by_address swaps (put_by_address s rs)

unfoldable pub insert_by_created : SwapInfo → List SwapInfo → List SwapInfo
insert_by_created s [] = s ∷ []
insert_by_created s (r ∷ rs) =
    let rest = insert_by_created s rs in
    if leb_ℤ s.created_at r.created_at then s ∷ (r ∷ rs) else r ∷ rest

unfoldable pub sort_by_created : List SwapInfo → List SwapInfo
unfolding insert_by_created
sort_by_created [] = []
sort_by_created (s ∷ swaps) = insert_by_created s (sort_by_created swaps)

-- `now` is the time since 1970, in seconds; a subtraction on ℕ is `saturating_sub`.
unfoldable pub list_monitored : ℕ → SwapTable → List SwapInfo
unfolding put_all_by_address sort_by_created
list_monitored now t =
    let monitored = list_swaps (by_status monitored_states) t in
    let recent =
      list_swaps
        (record {
          req_status = none;
          from_timestamp = some (pos (now - monitor_expired_swap_seconds));
          to_timestamp = none;
        })
        t in
    sort_by_created (put_all_by_address recent (put_all_by_address monitored []))

-- `validate_swap_limits`
unfoldable pub validate_swap_limits : SwapInfo → Result SwapError (Unit {0})
validate_swap_limits swap =
    if leb_ℤ swap.min_allowed_deposit swap.max_allowed_deposit
    then ok tt
    else err unsupported_swap_limits

abbrev pub min_ℤ : ℤ → ℤ → ℤ
min_ℤ a b = if leb_ℤ a b then a else b

-- The calls of the chain, the clock, the addresses and the swap server.
pub record SwapServices : Type 1 where
  pub payments : PaymentServices
  pub parse_address : Text → Result SwapError SwapAddressType
  pub address_transactions : Text → Result SwapError (List OnchainTx)
  pub get_completed_payment_by_hash : Bytes → Option ℕ
  pub chain_tip : Result SwapError ℕ
  pub clock : ℕ
  pub max_receivable_msat : ℕ
  pub payout_segwit : Text → payments.State → Result SwapError (Unit {0}) × payments.State
  pub payout_taproot :
      SwapInfo → Text → payments.State → Result SwapError (Unit {0}) × payments.State
  pub create_taproot_swap :
      OpeningFeeParams → payments.State → Result SwapError SwapInfo × payments.State

module _ (services : SwapServices) where
  open services use {
    payments, parse_address, address_transactions, get_completed_payment_by_hash, chain_tip, clock,
    max_receivable_msat, payout_segwit, payout_taproot, create_taproot_swap,
  }

  abbrev pub World : Type 0
  World = payments.State

  abbrev pub payout :
      SwapAddressType → SwapInfo → Text → World → Result SwapError (Unit {0}) × World
  payout segwit swap request w = payout_segwit request w
  payout taproot swap request w = payout_taproot swap request w

  -- The last part of `redeem_swap`, with the payment request at hand.
  unfoldable pub request_payout :
      SwapAddressType
      → SwapInfo
      → Text
      → SwapState
      → World
      → Result SwapError (Unit {0}) × SwapState × World
  unfolding emit_swap_updated
  request_payout address_type swap request st w =
      let (r, w') = payout address_type swap request w in
      elim r [
        | ok _ ↦ (ok tt, st, w')
        | err (payment_failed message) ↦
            let t = update_swap_redeem_error swap.bitcoin_address message st.table in
            let (s, st') = emit_swap_updated swap.bitcoin_address (record st { table = t }) in
            elim s [ err e ↦ (err e, st', w') | ok _ ↦ (err (payment_failed message), st', w') ]
        | err e ↦ (err e, st, w')
      ]

  -- The chain's tip is handed on as the number of blocks until the request expires.
  unfoldable pub redeem_swap :
      Text → SwapState → World → Result SwapError (Unit {0}) × SwapState × World
  unfolding request_payout emit_swap_updated of_request_error
  redeem_swap a st w = elim (get_swap_info_by_address a st.table) [
    | none ↦ (err swap_not_found, st, w)
    | some swap ↦ elim (parse_address a) [
      | err e ↦ (err e, st, w)
      | ok address_type ↦ elim chain_tip [
        | err e ↦ (err e, st, w)
        | ok tip ↦
            let (r, w') = get_payment_request payments swap tip w in
            elim r [
              | err e ↦ (err (of_request_error e), st, w')
              | ok (request, is_new) ↦
                  let t = update_swap_bolt11 swap.bitcoin_address request st.table in
                  let st' : SwapState = record st { table = t } in
                  let (s, st'') =
                    if is_new then emit_swap_updated swap.bitcoin_address st' else (ok tt, st') in
                  elim s [
                    | err e ↦ (err e, st'', w')
                    | ok _ ↦ request_payout address_type swap request st'' w'
                  ]
            ]
      ]
    ]
  ]

  -- A swap that cannot be redeemed does not keep the others from it.
  unfoldable pub redeem_swaps : List SwapInfo → SwapState → World → SwapState × World
  unfolding redeem_swap
  redeem_swaps [] st w = (st, w)
  redeem_swaps (s ∷ swaps) st w =
      let (_, st', w') = redeem_swap s.bitcoin_address st w in redeem_swaps swaps st' w'

  unfoldable pub execute_pending_swaps : ℕ → SwapState → World → SwapState × World
  unfolding list_monitored list_redeemables redeem_swaps
  execute_pending_swaps tip st w =
      let st' =
        refresh_swaps parse_address address_transactions get_completed_payment_by_hash
          (list_monitored clock st.table) tip st in
      redeem_swaps (list_redeemables st'.table) st' w

  -- The event of a new block, in `on_event`.
  unfoldable pub on_new_block : ℕ → SwapState → World → SwapState × World
  unfolding execute_pending_swaps
  on_new_block tip st w = execute_pending_swaps tip (record st { current_tip = tip }) w

  abbrev pub is_taproot_swap : SwapInfo → Bool
  is_taproot_swap s = elim (parse_address s.bitcoin_address) [
    | err _ ↦ false
    | ok address_type ↦ is_taproot address_type
  ]

  unfoldable pub create_swap :
      OpeningFeeParams → SwapState → World → Result SwapError SwapInfo × SwapState × World
  unfolding list_unused validate_swap_limits
  create_swap params st w = elim (find is_taproot_swap (list_unused st.table)) [
    | some unused ↦
        let a = unused.bitcoin_address in
        let limit = min_ℤ (pos (max_receivable_msat / 1000)) unused.max_swapper_payable in
        let swap : SwapInfo = record unused { max_allowed_deposit = limit } in
        if eq_ℤ limit unused.max_allowed_deposit
        then (ok swap, record st { table = update_swap_fees a params st.table }, w)
        else elim (validate_swap_limits swap) [
          | err e ↦ (err e, st, w)
          | ok _ ↦
              let t = update_swap_max_allowed_deposit a limit st.table in
              (ok swap, record st { table = update_swap_fees a params t }, w)
        ]
    | none ↦
        let (r, w') = create_taproot_swap params w in
        elim r [
          | err e ↦ (err e, st, w')
          | ok swap ↦ elim (insert_swap swap st.table) [
            | none ↦ (err persist_error, st, w')
            | some t ↦ (ok swap, record st { table = t }, w')
          ]
        ]
  ]
