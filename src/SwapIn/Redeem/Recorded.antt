-- ===== src/SwapIn/Redeem/Recorded.antt =====
-- What redeeming and creating swaps leaves in the storage (`libs/sdk-core/src/swap_in/swap.rs`).
use mathlib.Core.Path.{subst}
use breez_sdk.Prelude.{
  ◌≡◌, refl, sym, ap, ◌∙◌, ℕ, ◌/◌, inl, inr, Bool, true, false, some, arith, Text, ok, err, find,
  eq_text_refl, Option-cases, Result-cases, Bool-cases,
}
use breez_sdk.Prelude.Int.{ℤ, pos, ◌≤ℤ◌, eq_ℤ, eq_ℤ_iff}
use breez_sdk.Fees.{OpeningFeeParams}
use breez_sdk.SwapIn.Model.{SwapInfo}
use breez_sdk.SwapIn.Payout.{SwapAddressType}
use breez_sdk.SwapIn.Storage.{
  SwapRow, SwapTable, select_swap, update_swap, select_swap-update_swap, get_swap_info_by_address,
  update_swap_bolt11, update_swap_redeem_error, update_swap_max_allowed_deposit, update_swap_fees,
  put_bolt11, put_redeem_error, put_fees, put_max_deposit,
}
use breez_sdk.SwapIn.Refresh.{payment_failed, SwapState, emit_swap_updated}
use breez_sdk.SwapIn.PaymentRequest.{get_payment_request}
use breez_sdk.SwapIn.Redeem.{
  SwapServices, World, payout, request_payout, redeem_swap, create_swap, is_taproot_swap,
  list_unused, min_ℤ, validate_swap_limits,
}

-- The swap of an address after an update of its row.
get_updated :
    (a : Text) (f : SwapRow → SwapRow) (g : SwapInfo → SwapInfo) (t : SwapTable) (swap : SwapInfo)
    → get_swap_info_by_address a t ≡ some swap
    → ((r : SwapRow) → (f r).info ≡ g r.info)
    → ((r : SwapRow) → (f r).info.bitcoin_address ≡ r.info.bitcoin_address)
    → get_swap_info_by_address a (update_swap a f t) ≡ some (g swap)
unfolding get_swap_info_by_address
get_updated a f g t swap found same keeps = elim (Option-cases (select_swap a t)) [
  | inl nothing ↦ absurd (ground (arith, found, nothing))
  | inr (r, row) ↦
      let at : r.info ≡ swap = ground (arith, found, row) in
      ground (arith, row, select_swap-update_swap a a f t keeps, eq_text_refl a, same r ∙ ap g at)
]

reused :
    (params : OpeningFeeParams) (unused swap : SwapInfo) (limit : ℤ) (t t' : SwapTable)
    → swap ≡ record unused { max_allowed_deposit = limit }
    → t' ≡ update_swap_fees unused.bitcoin_address params t
    → get_swap_info_by_address unused.bitcoin_address t
      ≡ some (record unused { max_allowed_deposit = limit })
    → (get_swap_info_by_address swap.bitcoin_address t'
        ≡ some (record swap { channel_opening_fees = some params }))
      × (swap.channel_opening_fees ≡ unused.channel_opening_fees)
      × (swap.max_allowed_deposit ≡ limit)
unfolding update_swap_fees
reused params unused swap limit t t' same table held =
    let fees : SwapInfo → SwapInfo = λ i. record i { channel_opening_fees = some params } in
    let limited : SwapInfo = record unused { max_allowed_deposit = limit } in
    let stored =
      get_updated unused.bitcoin_address (put_fees params) fees t limited held (λ r. refl)
        (λ r. refl) in
    (
      ap (λ (i : SwapInfo). get_swap_info_by_address i.bitcoin_address t') same
          ∙ ap (get_swap_info_by_address unused.bitcoin_address) table
          ∙ stored
          ∙ ap (λ i. some (fees i)) (sym same),
      ap (λ (i : SwapInfo). i.channel_opening_fees) same,
      ap (λ (i : SwapInfo). i.max_allowed_deposit) same,
    )

limit_stored :
    (a : Text) (limit : ℤ) (swap : SwapInfo) (t : SwapTable)
    → get_swap_info_by_address a t ≡ some swap
    → get_swap_info_by_address a (update_swap_max_allowed_deposit a limit t)
      ≡ some (record swap { max_allowed_deposit = limit })
unfolding update_swap_max_allowed_deposit
limit_stored a limit swap t held =
    get_updated a (put_max_deposit limit) (λ i. record i { max_allowed_deposit = limit }) t swap
      held (λ r. refl) (λ r. refl)

bolt11_stored :
    (a request : Text) (swap : SwapInfo) (t : SwapTable)
    → get_swap_info_by_address a t ≡ some swap
    → get_swap_info_by_address a (update_swap_bolt11 a request t)
      ≡ some (record swap { bolt11 = some request })
unfolding update_swap_bolt11
bolt11_stored a request swap t held =
    get_updated a (put_bolt11 request) (λ i. record i { bolt11 = some request }) t swap held
      (λ r. refl) (λ r. refl)

error_stored :
    (a message : Text) (swap : SwapInfo) (t : SwapTable)
    → get_swap_info_by_address a t ≡ some swap
    → get_swap_info_by_address a (update_swap_redeem_error a message t)
      ≡ some (record swap { last_redeem_error = some message })
unfolding update_swap_redeem_error
error_stored a message swap t held =
    get_updated a (put_redeem_error message) (λ i. record i { last_redeem_error = some message }) t
      swap held (λ r. refl) (λ r. refl)

-- An update that somebody listens to is sent, and leaves the table as it is.
emitted :
    (a : Text) (swap : SwapInfo) (st : SwapState)
    → get_swap_info_by_address a st.table ≡ some swap
    → st.subscribed ≡ true
    → ((emit_swap_updated a st).0 ≡ ok tt)
      × ((emit_swap_updated a st).1.table ≡ st.table)
      × ((emit_swap_updated a st).1.subscribed ≡ true)
unfolding emit_swap_updated
emitted a swap st held listens = ground (arith, held, listens)

limit_bounds : (a b : ℤ) → (min_ℤ a b ≤ℤ b) × (min_ℤ a b ≤ℤ a)
limit_bounds a b = ground arith

module _ (services : SwapServices) where
  open services use {parse_address, chain_tip, max_receivable_msat}

  -- An unused swap that is handed out again gets a deposit limit within what the swapper pays and what
  -- the node can receive; the storage then has the swap that is returned, but for the opening fees,
  -- which are those of the new request.
  pub create_swap-reuse :
      (params : OpeningFeeParams) (unused swap : SwapInfo) (st st' : SwapState)
      (w w' : World services)
      → find (is_taproot_swap services) (list_unused st.table) ≡ some unused
      → get_swap_info_by_address unused.bitcoin_address st.table ≡ some unused
      → create_swap services params st w ≡ (ok swap, st', w')
      → (get_swap_info_by_address swap.bitcoin_address st'.table
          ≡ some (record swap { channel_opening_fees = some params }))
        × (swap.channel_opening_fees ≡ unused.channel_opening_fees)
        × (swap.max_allowed_deposit ≤ℤ unused.max_swapper_payable)
        × (swap.max_allowed_deposit ≤ℤ pos (max_receivable_msat / 1000))
  unfolding create_swap
  create_swap-reuse params unused swap st st' w w' hit stored h =
      let a = unused.bitcoin_address in
      let limit = min_ℤ (pos (max_receivable_msat / 1000)) unused.max_swapper_payable in
      let limited : SwapInfo = record unused { max_allowed_deposit = limit } in
      let bounds = limit_bounds (pos (max_receivable_msat / 1000)) unused.max_swapper_payable in
      elim (Bool-cases (eq_ℤ limit unused.max_allowed_deposit)) [
        | inl same ↦
            let eq : limit ≡ unused.max_allowed_deposit =
              (eq_ℤ_iff limit unused.max_allowed_deposit).0 same in
            let result : (swap ≡ limited) × (st'.table ≡ update_swap_fees a params st.table) =
              ground (arith, h, hit, same) in
            let (kept, stale, at) =
              reused params unused swap limit st.table st'.table result.0 result.1
                (stored ∙ ap (λ z. some (record unused { max_allowed_deposit = z })) (sym eq)) in
            (
              kept,
              stale,
              subst (λ z. z ≤ℤ unused.max_swapper_payable) (sym at) bounds.0,
              subst (λ z. z ≤ℤ pos (max_receivable_msat / 1000)) (sym at) bounds.1,
            )
        | inr other ↦ elim (Result-cases (validate_swap_limits limited)) [
          | inr (e, refused) ↦ absurd (ground (arith, h, hit, other, refused))
          | inl (u, valid) ↦
              let t = update_swap_max_allowed_deposit a limit st.table in
              let result : (swap ≡ limited) × (st'.table ≡ update_swap_fees a params t) =
                ground (arith, h, hit, other, valid) in
              let (kept, stale, at) =
                reused params unused swap limit t st'.table result.0 result.1
                  (limit_stored a limit unused st.table stored) in
              (
                kept,
                stale,
                subst (λ z. z ≤ℤ unused.max_swapper_payable) (sym at) bounds.0,
                subst (λ z. z ≤ℤ pos (max_receivable_msat / 1000)) (sym at) bounds.1,
              )
        ]
      ]

  -- The last part of a redemption that the swapper refuses.
  request_payout-failure :
      (request message : Text) (swap : SwapInfo) (held : SwapInfo) (address_type : SwapAddressType)
      (st : SwapState) (w w' : World services)
      → get_swap_info_by_address swap.bitcoin_address st.table ≡ some held
      → st.subscribed ≡ true
      → payout services address_type swap request w ≡ (err (payment_failed message), w')
      → ((request_payout services address_type swap request st w).0 ≡ err (payment_failed message))
        × (get_swap_info_by_address swap.bitcoin_address
              (request_payout services address_type swap request st w).1.table
            ≡ some (record held { last_redeem_error = some message }))
  unfolding request_payout
  request_payout-failure request message swap held address_type st w w' found listens refused =
      let a = swap.bitcoin_address in
      let st1 : SwapState = record st { table = update_swap_redeem_error a message st.table } in
      let stored = error_stored a message held st.table found in
      ground (
        arith,
        refused,
        stored,
        emitted a (record held { last_redeem_error = some message }) st1 stored listens,
      )

  -- Where a swapper refuses to pay for an invoice, the swap is stored with that invoice and with the
  -- reason, which is also returned, provided that somebody listens to the updates.
  pub redeem_swap-failure :
      (request message : Text) (is_new : Bool) (swap : SwapInfo) (address_type : SwapAddressType)
      (tip : ℕ) (st : SwapState) (w w1 w2 : World services)
      → get_swap_info_by_address swap.bitcoin_address st.table ≡ some swap
      → st.subscribed ≡ true
      → parse_address swap.bitcoin_address ≡ ok address_type
      → chain_tip ≡ ok tip
      → get_payment_request services.payments swap tip w ≡ (ok (request, is_new), w1)
      → payout services address_type swap request w1 ≡ (err (payment_failed message), w2)
      → ((redeem_swap services swap.bitcoin_address st w).0 ≡ err (payment_failed message))
        × (get_swap_info_by_address swap.bitcoin_address
              (redeem_swap services swap.bitcoin_address st w).1.table
            ≡ some (record swap { bolt11 = some request; last_redeem_error = some message }))
  unfolding redeem_swap
  redeem_swap-failure request message false swap address_type tip st w w1 w2 found listens parsed
        known asked refused =
      let a = swap.bitcoin_address in
      let st1 : SwapState = record st { table = update_swap_bolt11 a request st.table } in
      let failed =
        request_payout-failure request message swap (record swap { bolt11 = some request })
          address_type st1 w1 w2 (bolt11_stored a request swap st.table found) listens refused in
      ground (arith, found, parsed, known, asked, failed)
  redeem_swap-failure request message true swap address_type tip st w w1 w2 found listens parsed
        known asked refused =
      let a = swap.bitcoin_address in
      let st1 : SwapState = record st { table = update_swap_bolt11 a request st.table } in
      let stored = bolt11_stored a request swap st.table found in
      let sent = emitted a (record swap { bolt11 = some request }) st1 stored listens in
      let st2 = (emit_swap_updated a st1).1 in
      let failed =
        request_payout-failure request message swap (record swap { bolt11 = some request })
          address_type st2 w1 w2 (ap (get_swap_info_by_address a) sent.1 ∙ stored) sent.2 refused in
      ground (arith, found, parsed, known, asked, failed, sent)
