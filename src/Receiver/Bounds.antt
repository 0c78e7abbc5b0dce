-- ===== src/Receiver/Bounds.antt =====
-- When a payment to be received gets a channel, and what is left of it
-- (`libs/sdk-core/src/receiver.rs`).
use mathlib.Core.Path.{subst₂}
use breez_sdk.Prelude.{
  Text, Option-cases, ◌≡◌, refl, sym, ap, is_some, ltb→lt, leb→le, ℕ, ◌+◌, ◌<◌, ◌≤◌, inl, inr, true,
  false, Option, none, some, arith, ok, ltb, Result-cases, Bool-cases,
}
use breez_sdk.Prelude.Words.{wrap_u64}
use breez_sdk.Fees.{OpeningFeeParams, get_channel_fees_msat_for}
use breez_sdk.Receiver.{
  ReceiveRequest, ReceiveResponse, ReceiverServices, open_channel_needed, choose_fee_params, fee_of,
  covers_fee, expiry_of, invoice_request, receive_payment,
}

-- What a response says of the channel, given the room that the node has.
abbrev pub FitsRoom : ReceiveRequest → ℕ → Option OpeningFeeParams → Option ℕ → Type 0
FitsRoom req room none none = req.amount_msat ≤ room
FitsRoom req room (some p) none = ⊥
FitsRoom req room none (some fee) = ⊥
FitsRoom req room (some p) (some fee) =
    (room < req.amount_msat)
    × (fee ≡ get_channel_fees_msat_for req.amount_msat p)
    × (wrap_u64 (fee + 1000) ≤ req.amount_msat)

abbrev response_of : Text → Option OpeningFeeParams → Option ℕ → ReceiveResponse
response_of invoice params fee = record {
  ln_invoice = invoice;
  used_fee_params = params;
  opening_fee_msat = fee;
}

module _ (services : ReceiverServices) where
  choose-false :
      (req : ReceiveRequest) (params : Option OpeningFeeParams) (expiry : ℕ)
      → choose_fee_params services false req.opening_fee_params expiry ≡ ok params
      → params ≡ none
  unfolding choose_fee_params
  choose-false req params expiry h = ground (arith, h)

  chosen :
      (req : ReceiveRequest) (params : Option OpeningFeeParams) (expiry : ℕ)
      → choose_fee_params services true req.opening_fee_params expiry ≡ ok params
      → is_some params ≡ true
  unfolding choose_fee_params
  chosen req params expiry h = ground (arith, h)

  -- The end of the call, from the choice of the parameters on.
  Answers : ReceiveRequest → Option OpeningFeeParams → ReceiveResponse → Type 0
  Answers req params response =
      (response.used_fee_params ≡ params)
      × (response.opening_fee_msat ≡ fee_of services req.amount_msat params)
      × (covers_fee services req.amount_msat (fee_of services req.amount_msat params) ≡ true)

  answered :
      (req : ReceiveRequest) (room : ℕ) (response : ReceiveResponse)
      → services.max_receivable_single_payment_msat ≡ ok room
      → receive_payment services req ≡ ok response
      → (0 < req.amount_msat)
        × ((params : Option OpeningFeeParams) × ((choose_fee_params services
                  (ltb room req.amount_msat)
                  req.opening_fee_params
                  (expiry_of services req.expiry)
                ≡ ok params)
              × Answers req params response))
  unfolding receive_payment open_channel_needed Answers
  answered req room response has_room h = elim (Bool-cases (ltb 0 req.amount_msat)) [
    | inr zero_amount ↦ absurd (ground (arith, h, zero_amount))
    | inl positive ↦
        elim (Result-cases (
          choose_fee_params services (ltb room req.amount_msat) req.opening_fee_params
            (expiry_of services req.expiry))) [
              | inr (e, failed) ↦ absurd (ground (arith, h, has_room, positive, failed))
              | inl (params, choice) ↦
                  let fee = fee_of services req.amount_msat params in
                  elim (Bool-cases (covers_fee services req.amount_msat fee)) [
                    | inr short ↦ absurd (ground (arith, h, has_room, positive, choice, short))
                    | inl enough ↦
                        elim (Result-cases
                          (services.create_invoice (invoice_request services req fee))) [
                            | inr (e, failed) ↦
                                absurd
                                  (ground (arith, h, has_room, positive, choice, enough, failed))
                            | inl (b, made) ↦ elim (Option-cases (services.parse_invoice b)) [
                              | inl fails ↦ absurd (
                                  ground
                                    (arith, h, has_room, positive, choice, enough, made, fails))
                              | inr (invoice, parsed) ↦
                                  let same : response_of invoice params fee ≡ response =
                                    ground (
                                      arith, h, has_room, positive, choice, enough, made, parsed,
                                    ) in
                                  (
                                    ltb→lt 0 req.amount_msat positive,
                                    (
                                      params,
                                      (
                                        choice,
                                        (
                                          ap (λ (z : ReceiveResponse). z.used_fee_params)
                                              (sym same),
                                          ap (λ (z : ReceiveResponse). z.opening_fee_msat)
                                              (sym same),
                                          enough,
                                        ),
                                      ),
                                    ),
                                  )
                            ]
                          ]
                  ]
            ]
  ]

  fits :
      (req : ReceiveRequest) (room : ℕ) (params : Option OpeningFeeParams)
      (response : ReceiveResponse)
      → choose_fee_params services
          (ltb room req.amount_msat)
          req.opening_fee_params
          (expiry_of services req.expiry)
        ≡ ok params
      → Answers req params response
      → FitsRoom req room params (fee_of services req.amount_msat params)
  unfolding Answers
  fits req room none response choice answers = elim (Bool-cases (ltb room req.amount_msat)) [
    | inl needed ↦
        absurd (ground (arith, chosen req none (expiry_of services req.expiry), choice, needed))
    | inr enough ↦ ground (arith, enough)
  ]
  fits req room (some p) response choice answers = elim (Bool-cases (ltb room req.amount_msat)) [
    | inl needed ↦ (ltb→lt room req.amount_msat needed, refl, leb→le _ _ answers.2)
    | inr enough ↦
        absurd (
          ground (arith, choose-false req (some p) (expiry_of services req.expiry), choice, enough))
  ]

  -- A payment request that was made is for a positive amount; it has a channel only if the node has not
  -- the room for the amount, and then the fee is that of the parameters that were used, and, up to the
  -- range of `u64`, leaves at least a satoshi of the amount.
  pub receive_payment-FitsRoom :
      (req : ReceiveRequest) (room : ℕ) (response : ReceiveResponse)
      → services.max_receivable_single_payment_msat ≡ ok room
      → receive_payment services req ≡ ok response
      → (0 < req.amount_msat) × FitsRoom req room response.used_fee_params response.opening_fee_msat
  unfolding Answers
  receive_payment-FitsRoom req room response has_room h =
      let (positive, (params, (choice, answers))) = answered req room response has_room h in
      (
        positive,
        subst₂ (FitsRoom req room) (sym answers.0) (sym answers.1)
            (fits req room params response choice answers),
      )
