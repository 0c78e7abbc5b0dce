-- ===== src/SwapIn/Refresh/Stored.antt =====
-- What a refresh leaves in the storage (`libs/sdk-core/src/swap_in/swap.rs`).
use breez_sdk.SwapIn.Refresh.Rows.{
  FitsChain, HoldsRow, onchain-HoldsRow, onchain-address, onchain-status, payment-HoldsRow,
  payment-address, payment-status, stored_status,
}
use mathlib.Core.Path.{subst}
use breez_sdk.Prelude.{
  ◌≡◌, sym, ap, ◌∙◌, ◌⊎◌, ℕ, inl, inr, Option, some, List, arith, Text, Bytes, Result, ok,
  Result-cases,
}
use breez_sdk.SwapIn.Model.{SwapInfo, SwapChainData, SwapStatus}
use breez_sdk.SwapIn.Equality.{SwapInfo-discrete}
use breez_sdk.SwapIn.Onchain.{OnchainTx}
use breez_sdk.SwapIn.Payout.{SwapAddressType, calculate_status}
use breez_sdk.SwapIn.Storage.{SwapTable, get_swap_info_by_address, set_swap_status}
use breez_sdk.SwapIn.Refresh.{
  SwapError, SwapState, emit_swap_updated, refresh_swap_onchain_data, refresh_swap_payment_data,
  store_refreshed, refresh_swap,
}

get_same :
    (swap held new : SwapInfo) (t t' : SwapTable) (s : SwapStatus)
    → held.bitcoin_address ≡ swap.bitcoin_address
    → t ≡ t'
    → new ≡ record held { status = s }
    → held.status ≡ s
    → get_swap_info_by_address held.bitcoin_address t' ≡ some held
    → get_swap_info_by_address swap.bitcoin_address t ≡ some new
get_same swap held new t t' s at table result status found =
    ground (arith, found, at, table, result, status)

emit_keeps : (a : Text) (st : SwapState) → (emit_swap_updated a st).1.table ≡ st.table
unfolding emit_swap_updated
emit_keeps a st = ground arith

store_refreshed-result :
    (swap refreshed new : SwapInfo) (st st' : SwapState)
    → store_refreshed swap refreshed st ≡ (ok new, st')
    → (new ≡ refreshed)
      × (((refreshed ≡ swap) × (st'.table ≡ st.table))
          ⊎ (st'.table ≡ set_swap_status swap.bitcoin_address refreshed.status st.table))
unfolding store_refreshed
store_refreshed-result swap refreshed new st st' h = elim (SwapInfo-discrete refreshed swap) [
  | yes eq ↦ (ground (arith, h, eq), inl (eq, ground (arith, h, eq)))
  | no ne ↦
      let st3 : SwapState = record st {
        table = set_swap_status swap.bitcoin_address refreshed.status st.table;
      } in
      let sent = emit_swap_updated swap.bitcoin_address st3 in
      elim (Result-cases sent.0) [
        | inr (e, failed) ↦ absurd (ground (arith, h, ne, failed))
        | inl (u, emitted) ↦
            let result : (sent.1 ≡ st') × (refreshed ≡ new) = ground (arith, h, ne, emitted) in
            (
              sym result.1,
              inr (
                  ap (λ (z : SwapState). z.table) (sym result.0)
                  ∙ emit_keeps swap.bitcoin_address st3),
            )
      ]
]

HoldsRow-get :
    (swap : SwapInfo) (d : Option SwapChainData) (t : SwapTable)
    → HoldsRow swap d t
    → get_swap_info_by_address swap.bitcoin_address t ≡ some swap
unfolding get_swap_info_by_address
HoldsRow-get swap d t (r, (found, same, chain)) = ground (arith, found, same)

module _ (parse_address : Text → Result SwapError SwapAddressType)
    (address_transactions : Text → Result SwapError (List OnchainTx))
    (get_completed_payment_by_hash : Bytes → Option ℕ) where
  -- A refresh that returns a swap has stored it: where the storage had the swap, with the columns of
  -- its chain data, it now has the swap that is returned, whichever of the calls before have failed.
  pub refresh_swap-stored :
      (swap new : SwapInfo) (d : Option SwapChainData) (tip : ℕ) (st st' : SwapState)
      → HoldsRow swap d st.table
      → FitsChain swap d
      → refresh_swap parse_address address_transactions get_completed_payment_by_hash swap tip st
        ≡ (ok new, st')
      → get_swap_info_by_address swap.bitcoin_address st'.table ≡ some new
  unfolding refresh_swap
  refresh_swap-stored swap new d tip st st' holds fits h =
      let one = refresh_swap_onchain_data address_transactions swap st.table in
      let two = refresh_swap_payment_data get_completed_payment_by_hash one.0 one.2 in
      let held =
        payment-HoldsRow get_completed_payment_by_hash one.0 one.1 one.2
          (onchain-HoldsRow address_transactions swap d st.table holds fits).0 in
      let at : two.0.bitcoin_address ≡ swap.bitcoin_address =
        payment-address get_completed_payment_by_hash one.0 one.2
        ∙ onchain-address address_transactions swap st.table in
      elim (Result-cases (parse_address swap.bitcoin_address)) [
        | inr (e, failed) ↦ absurd (ground (arith, h, failed))
        | inl (address_type, parsed) ↦
            let status = calculate_status two.0 address_type one.1 tip in
            let refreshed : SwapInfo = record two.0 { status = status } in
            let (same, result) =
              store_refreshed-result swap refreshed new (record st { table = two.1 }) st'
                (ground (arith, h, parsed)) in
            elim result [
              | inl (eq, table) ↦
                  let same_status : two.0.status ≡ status =
                    payment-status get_completed_payment_by_hash one.0 one.2
                    ∙ onchain-status address_transactions swap st.table
                    ∙ ap (λ (i : SwapInfo). i.status) (sym eq) in
                  get_same swap two.0 new st'.table two.1 status at table same same_status
                    (HoldsRow-get two.0 one.1 two.1 held)
              | inr table ↦
                  let stored = stored_status two.0 one.1 status two.1 held in
                  let moved =
                    subst
                      (λ z.
                        get_swap_info_by_address z (set_swap_status z status two.1)
                        ≡ some refreshed)
                      at
                      (HoldsRow-get refreshed one.1
                        (set_swap_status two.0.bitcoin_address status two.1) stored) in
                  ap (get_swap_info_by_address swap.bitcoin_address) table
                  ∙ moved
                  ∙ ap some (sym same)
            ]
      ]
