-- ===== src/SwapIn/PaymentRequest/Reuse.antt =====
-- When an invoice of a swap is used again, and what a new one may cost
-- (`libs/sdk-core/src/swap_in/swap.rs`).
use breez_sdk.Prelude.{
  ◌≡◌, refl, ap, ◌⊎◌, ℕ, Option, is_some, ◌*◌, ◌≤◌, inl, inr, Bool, true, false, none, some, arith,
  Text, ok, err, ltb, ◌==◌, Option-cases, Result-cases, Bool-cases, if◌then◌else◌,
}
use breez_sdk.Prelude.Words.{wrap_u64}
use breez_sdk.Fees.{OpeningFeeParams, get_channel_fees_msat_for, valid_for}
use breez_sdk.SwapIn.Model.{SwapInfo}
use breez_sdk.SwapIn.PaymentRequest.{
  PaymentServices, RequestError, invoice_already_exists, Invoice, FetchBolt11Result,
  ReceivePaymentResponse, discard, check_liquidity, check_existing_payment_request,
  create_payment_request, receive_request, get_payment_request_inner, get_payment_request,
  min_invoice_expiry_seconds, min_opening_fee_params_validity_seconds, or_else,
}

-- No channel, or one that costs at most what the accepted parameters ask for an amount.
abbrev pub WithinFee : ℕ → OpeningFeeParams → Option OpeningFeeParams → Type 0
WithinFee amount accepted none = Unit
WithinFee amount accepted (some asked) =
    get_channel_fees_msat_for amount asked ≤ get_channel_fees_msat_for amount accepted

module _ (services : PaymentServices) (swap : SwapInfo) where
  open services use {State, parse_invoice, open_channel_needed, receive_payment}

  check_liquidity-some :
      (found : FetchBolt11Result) (amount : ℕ) (st st' : State) (bolt11 : Text)
      → check_liquidity services swap found amount st ≡ (ok (some bolt11), st')
      → (bolt11 ≡ found.fetched_bolt11)
        × ((is_some found.payer_amount_msat ≡ true) ⊎ (open_channel_needed amount st ≡ ok false))
  unfolding check_liquidity discard
  check_liquidity-some found amount st st' bolt11 h = elim (Option-cases found.payer_amount_msat) [
    | inr (n, payer) ↦ (ground (arith, h, payer), inl (ap is_some payer))
    | inl nothing ↦
        let direct : (bolt11 ≡ found.fetched_bolt11) × (open_channel_needed amount st ≡ ok false) =
          ground (arith, h, nothing) in
        (direct.0, inr direct.1)
  ]

  discard_none :
      (b : Text) (st st' : State) (bolt11 : Text)
      → ¬ (discard services b st ≡ (ok (some bolt11), st'))
  unfolding discard
  discard_none b st st' bolt11 h = elim (Result-cases (services.delete_invoice b st).0) [
    | inl (u, deleted) ↦ ground (arith, h, deleted)
    | inr (e, failed) ↦ ground (arith, h, failed)
  ]

  fits_amount :
      (found : FetchBolt11Result) (n : ℕ) (st st' : State) (bolt11 : Text)
      → (if or_else found.payer_amount_msat n == wrap_u64 (swap.confirmed_sats * 1000)
          then check_liquidity services swap found (or_else found.payer_amount_msat n) st
          else discard services found.fetched_bolt11 st)
        ≡ (ok (some bolt11), st')
      → (bolt11 ≡ found.fetched_bolt11)
        × (or_else found.payer_amount_msat n ≡ wrap_u64 (swap.confirmed_sats * 1000))
        × ((is_some found.payer_amount_msat ≡ true)
            ⊎ (open_channel_needed (wrap_u64 (swap.confirmed_sats * 1000)) st ≡ ok false))
  fits_amount found n st st' bolt11 h =
      elim (Bool-cases
        (or_else found.payer_amount_msat n == wrap_u64 (swap.confirmed_sats * 1000))) [
          | inr other ↦
              absurd (discard_none found.fetched_bolt11 st st' bolt11 (ground (arith, h, other)))
          | inl same ↦ ground (
            arith,
            h,
            same,
            check_liquidity-some found (or_else found.payer_amount_msat n) st st' bolt11,
          )
        ]

  -- An invoice that is used again is the one that was fetched, is for the confirmed amount, and needs
  -- no new channel unless it was made for one.
  pub check_existing-fits :
      (found : FetchBolt11Result) (invoice : Invoice) (st st' : State) (bolt11 : Text)
      → parse_invoice found.fetched_bolt11 ≡ ok invoice
      → check_existing_payment_request services swap found st ≡ (ok (some bolt11), st')
      → (n : ℕ) × ((invoice.amount_milli_satoshis ≡ some n)
          × (bolt11 ≡ found.fetched_bolt11)
          × (or_else found.payer_amount_msat n ≡ wrap_u64 (swap.confirmed_sats * 1000))
          × ((is_some found.payer_amount_msat ≡ true)
              ⊎ (open_channel_needed (wrap_u64 (swap.confirmed_sats * 1000)) st ≡ ok false)))
  unfolding check_existing_payment_request discard
  check_existing-fits found invoice st st' bolt11 parsed h =
      elim (Option-cases invoice.expires_at) [
        | inl never ↦
            absurd
              (discard_none found.fetched_bolt11 st st' bolt11 (ground (arith, parsed, h, never)))
        | inr (t, expires) ↦ elim (Bool-cases (ltb t min_invoice_expiry_seconds)) [
          | inl soon ↦ absurd (
              discard_none found.fetched_bolt11 st st' bolt11
                (ground (arith, parsed, h, expires, soon)))
          | inr later ↦ elim (Option-cases invoice.amount_milli_satoshis) [
            | inl open_amount ↦ absurd (ground (arith, parsed, h, expires, later, open_amount))
            | inr (n, amount) ↦
                let kept =
                  fits_amount found n st st' bolt11
                    (ground (arith, parsed, h, expires, later, amount)) in
                (n, (amount, kept.0, kept.1, kept.2))
          ]
        ]
      ]

  -- An invoice of the right amount, made for no channel and needing none, is used again as soon as the
  -- time at which it expires, counted from 1970, is at least half an hour after that year began,
  -- whether or not that time has passed.
  pub check_existing-expired :
      (found : FetchBolt11Result) (invoice : Invoice) (t n : ℕ) (st : State)
      → parse_invoice found.fetched_bolt11 ≡ ok invoice
      → invoice.expires_at ≡ some t
      → 1800 ≤ t
      → invoice.amount_milli_satoshis ≡ some n
      → n ≡ wrap_u64 (swap.confirmed_sats * 1000)
      → found.payer_amount_msat ≡ none
      → open_channel_needed n st ≡ ok false
      → check_existing_payment_request services swap found st ≡ (ok (some found.fetched_bolt11), st)
  unfolding check_existing_payment_request check_liquidity
  check_existing-expired found invoice t n st parsed expires late amount same direct enough =
      ground (arith, parsed, expires, late, amount, same, direct, enough)

  -- The response behind a new payment request, and what its channel costs.
  abbrev pub NewRequest : ℕ → Text → State → Type 0
  NewRequest blocks bolt11 st' =
      (accepted : OpeningFeeParams) × ((valid : Bool) × ((st : State)
          × ((response : ReceivePaymentResponse) × ((swap.channel_opening_fees ≡ some accepted)
                × (receive_payment (receive_request services swap blocks valid accepted) st
                    ≡ (ok response, st'))
                × (bolt11 ≡ response.response_bolt11)
                × WithinFee (wrap_u64 (swap.confirmed_sats * 1000)) accepted
                    response.response_fee_params))))

  create-fee :
      (blocks : ℕ) (valid : Bool) (accepted : OpeningFeeParams) (bolt11 : Text) (st st' : State)
      → swap.channel_opening_fees ≡ some accepted
      → create_payment_request services swap blocks valid accepted st ≡ (ok (bolt11, true), st')
      → NewRequest blocks bolt11 st'
  unfolding create_payment_request
  create-fee blocks valid accepted bolt11 st st' fees h =
      let answer = receive_payment (receive_request services swap blocks valid accepted) st in
      elim (Result-cases answer.0) [
        | inr (e, failed) ↦ absurd (ground (arith, h, failed))
        | inl (response, got) ↦ elim (Option-cases response.response_fee_params) [
          | inl nothing ↦ (
            accepted,
            (
              valid,
              (
                st,
                (
                  response,
                  (
                    fees,
                    ground (arith, h, got, nothing),
                    ground (arith, h, got, nothing),
                    rw nothing tt,
                  ),
                ),
              ),
            ),
          )
          | inr (q, channel) ↦
              elim (Bool-cases (
                ltb (get_channel_fees_msat_for (wrap_u64 (swap.confirmed_sats * 1000)) accepted)
                  (get_channel_fees_msat_for (wrap_u64 (swap.confirmed_sats * 1000)) q))) [
                    | inl dear ↦ absurd (ground (arith, h, got, channel, dear))
                    | inr fair ↦ (
                      accepted,
                      (
                        valid,
                        (
                          st,
                          (
                            response,
                            (
                              fees,
                              ground (arith, h, got, channel, fair),
                              ground (arith, h, got, channel, fair),
                              rw channel (ground (arith, fair)),
                            ),
                          ),
                        ),
                      ),
                    )
                  ]
        ]
      ]

  inner-fee :
      (blocks : ℕ) (bolt11 : Text) (st st' : State)
      → get_payment_request_inner services swap blocks st ≡ (ok (bolt11, true), st')
      → NewRequest blocks bolt11 st'
  unfolding get_payment_request_inner
  inner-fee blocks bolt11 st st' h =
      let fetch = services.fetch_bolt11 swap.payment_hash st in
      elim (Result-cases fetch.0) [
        | inr (e, failed) ↦ absurd (ground (arith, h, failed))
        | inl (existing, fetched) ↦ elim (Option-cases swap.channel_opening_fees) [
          | inl nothing ↦ absurd (ground (arith, h, fetched, nothing))
          | inr (accepted, fees) ↦
              elim (Result-cases (
                valid_for services.parse_from_rfc3339 services.now
                  min_opening_fee_params_validity_seconds accepted)) [
                    | inr (e, failed) ↦ absurd (ground (arith, h, fetched, fees, failed))
                    | inl (valid, checked) ↦ elim (Option-cases existing) [
                      | inl nothing ↦
                          create-fee blocks valid accepted bolt11 fetch.1 st' fees
                            (ground (arith, h, fetched, fees, checked, nothing))
                      | inr (found, some_found) ↦
                          let check = check_existing_payment_request services swap found fetch.1 in
                          elim (Result-cases check.0) [
                            | inr (e, failed) ↦
                                absurd
                                  (ground (arith, h, fetched, fees, checked, some_found, failed))
                            | inl (reuse, looked) ↦ elim (Option-cases reuse) [
                              | inr (b, again) ↦ absurd (
                                  ground
                                    (arith, h, fetched, fees, checked, some_found, looked, again))
                              | inl gone ↦
                                  create-fee blocks valid accepted bolt11 check.1 st' fees (
                                    ground
                                      (arith, h, fetched, fees, checked, some_found, looked, gone))
                            ]
                          ]
                    ]
                  ]
        ]
      ]

  again_only :
      (blocks : ℕ) (bolt11 : Text) (st st' : State) (e : RequestError)
      → (get_payment_request_inner services swap blocks st).0 ≡ err e
      → get_payment_request services swap blocks st ≡ (ok (bolt11, true), st')
      → (e ≡ invoice_already_exists)
        × (get_payment_request_inner services swap blocks
              (get_payment_request_inner services swap blocks st).1
            ≡ (ok (bolt11, true), st'))
  unfolding get_payment_request
  again_only blocks bolt11 st st' invoice_already_exists failed h =
      (refl, ground (arith, failed, h))
  again_only blocks bolt11 st st' _ failed h = absurd (ground (arith, failed, h))

  -- A payment request that was newly created, at the first or at the second try, is for the amount
  -- that was confirmed, and the channel that the receiver wants for it costs at most what the user
  -- accepted for the swap.
  pub get_payment_request-fee :
      (blocks : ℕ) (bolt11 : Text) (st st' : State)
      → get_payment_request services swap blocks st ≡ (ok (bolt11, true), st')
      → NewRequest blocks bolt11 st'
  unfolding get_payment_request
  get_payment_request-fee blocks bolt11 st st' h =
      let first = get_payment_request_inner services swap blocks st in
      elim (Result-cases first.0) [
        | inl (found, got) ↦ inner-fee blocks bolt11 st st' (ground (arith, h, got))
        | inr (e, failed) ↦
            let (retried, same) = again_only blocks bolt11 st st' e failed h in
            inner-fee blocks bolt11 first.1 st' same
      ]
