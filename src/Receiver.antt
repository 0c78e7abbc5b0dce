-- ===== src/Receiver.antt =====
-- Receiving a payment, with a new channel where the node has too little room for it: `PaymentReceiver`
-- of `libs/sdk-core/src/receiver.rs`, and the choice of the fees in `libs/sdk-core/src/lsp.rs`. The
-- node and the list of service providers are parameters.
pub mod Bounds
mod Tests
use breez_sdk.Prelude.{
  ℕ, ◌+◌, ◌*◌, Bool, true, false, Option, none, some, List, [], ◌∷◌, Text, Bytes, Result, ok, err,
  if◌then◌else◌, ltb, leb,
}
use breez_sdk.Prelude.Int.{ℤ}
use breez_sdk.Prelude.Words.{wrap_u64}
use breez_sdk.Fees.{OpeningFeeParams, valid_for, get_channel_fees_msat_for}

abbrev pub invoice_payment_fee_expiry_seconds : ℕ
invoice_payment_fee_expiry_seconds = 60 * 60

-- `ReceivePaymentError`, by the ways in which the code fails.
pub data ReceiveError : Type 0 where
  invalid_amount : ReceiveError
  no_providers : ReceiveError
  no_fees : ReceiveError
  invalid_invoice : ReceiveError
  node_error : Text → ReceiveError

pub record ReceiveRequest : Type 0 where
  pub amount_msat : ℕ
  pub description : Text
  pub preimage : Option Bytes
  pub opening_fee_params : Option OpeningFeeParams
  pub use_description_hash : Option Bool
  pub expiry : Option ℕ

pub record CreateInvoiceRequest : Type 0 where
  pub invoice_amount_msat : ℕ
  pub invoice_description : Text
  pub invoice_use_description_hash : Option Bool
  pub invoice_preimage : Option Bytes
  pub invoice_opening_fee_msat : Option ℕ
  pub invoice_expiry : ℕ

pub record ReceiveResponse : Type 0 where
  pub ln_invoice : Text
  pub used_fee_params : Option OpeningFeeParams
  pub opening_fee_msat : Option ℕ

-- `NodeAPI` and `LspAPI`, the menus of the providers in their order, the parser of invoices and of dates,
-- and the clock. An invoice that was parsed is given by its text.
pub record ReceiverServices : Type 0 where
  pub max_receivable_single_payment_msat : Result ReceiveError ℕ
  pub node_id : Result ReceiveError Text
  pub list_lsps : Text → Result ReceiveError (List (List OpeningFeeParams))
  pub create_invoice : CreateInvoiceRequest → Result ReceiveError Text
  pub parse_invoice : Text → Option Text
  pub parse_from_rfc3339 : Text → Option ℤ
  pub now : ℤ

abbrev pub last_entry : List OpeningFeeParams → Result ReceiveError OpeningFeeParams
last_entry [] = err no_fees
last_entry (p ∷ []) = ok p
last_entry (p ∷ (q ∷ ps)) = last_entry (q ∷ ps)

module _ (services : ReceiverServices) where
  open services use {
    max_receivable_single_payment_msat, node_id, list_lsps, create_invoice, parse_invoice,
    parse_from_rfc3339, now,
  }

  -- The loop of `cheapest_open_channel_fee`, which ends with the default of the whole menu.
  unfoldable pub first_valid :
      ℕ
      → List OpeningFeeParams
      → Result ReceiveError OpeningFeeParams
      → Result ReceiveError OpeningFeeParams
  first_valid expiry [] otherwise = otherwise
  first_valid expiry (p ∷ ps) otherwise =
      let rest = first_valid expiry ps otherwise in
      elim (valid_for parse_from_rfc3339 now expiry p) [
        | err _ ↦ err no_fees
        | ok valid ↦ if valid then ok p else rest
      ]

  unfoldable pub cheapest_open_channel_fee :
      ℕ → List OpeningFeeParams → Result ReceiveError OpeningFeeParams
  unfolding first_valid
  cheapest_open_channel_fee expiry menu = first_valid expiry menu (last_entry menu)

  unfoldable pub load_default_opening_fee_params : ℕ → Result ReceiveError OpeningFeeParams
  unfolding cheapest_open_channel_fee
  load_default_opening_fee_params expiry = elim node_id [
    | err e ↦ err e
    | ok pubkey ↦ elim (list_lsps pubkey) [
      | err e ↦ err e
      | ok [] ↦ err no_providers
      | ok (menu ∷ _) ↦ cheapest_open_channel_fee expiry menu
    ]
  ]

  unfoldable pub open_channel_needed : ℕ → Result ReceiveError Bool
  open_channel_needed amount = elim max_receivable_single_payment_msat [
    | err e ↦ err e
    | ok room ↦ ok (ltb room amount)
  ]

  -- Which parameters are used, if a channel is needed.
  unfoldable pub choose_fee_params :
      Bool → Option OpeningFeeParams → ℕ → Result ReceiveError (Option OpeningFeeParams)
  unfolding load_default_opening_fee_params
  choose_fee_params false requested expiry = ok none
  choose_fee_params true (some p) expiry = ok (some p)
  choose_fee_params true none expiry = elim (load_default_opening_fee_params expiry) [
    | err e ↦ err e
    | ok p ↦ ok (some p)
  ]

  abbrev pub fee_of : ℕ → Option OpeningFeeParams → Option ℕ
  fee_of amount none = none
  fee_of amount (some p) = some (get_channel_fees_msat_for amount p)

  -- At least a satoshi has to be left of the amount.
  abbrev pub covers_fee : ℕ → Option ℕ → Bool
  covers_fee amount none = true
  covers_fee amount (some fee) = leb (wrap_u64 (fee + 1000)) amount

  abbrev pub expiry_of : Option ℕ → ℕ
  expiry_of none = invoice_payment_fee_expiry_seconds
  expiry_of (some n) = n

  abbrev pub invoice_request : ReceiveRequest → Option ℕ → CreateInvoiceRequest
  invoice_request req fee = record {
    invoice_amount_msat = req.amount_msat;
    invoice_description = req.description;
    invoice_use_description_hash = req.use_description_hash;
    invoice_preimage = req.preimage;
    invoice_opening_fee_msat = fee;
    invoice_expiry = expiry_of req.expiry;
  }

  unfoldable pub receive_payment : ReceiveRequest → Result ReceiveError ReceiveResponse
  unfolding open_channel_needed choose_fee_params
  receive_payment req =
      if ltb 0 req.amount_msat
      then elim (open_channel_needed req.amount_msat) [
        | err e ↦ err e
        | ok needed ↦
            elim (choose_fee_params needed req.opening_fee_params (expiry_of req.expiry)) [
              | err e ↦ err e
              | ok params ↦
                  let fee = fee_of req.amount_msat params in
                  if covers_fee req.amount_msat fee
                  then elim (create_invoice (invoice_request req fee)) [
                    | err e ↦ err e
                    | ok bolt11 ↦ elim (parse_invoice bolt11) [
                      | none ↦ err invalid_invoice
                      | some invoice ↦ ok (record {
                        ln_invoice = invoice;
                        used_fee_params = params;
                        opening_fee_msat = fee;
                      })
                    ]
                  ]
                  else err invalid_amount
            ]
      ]
      else err invalid_amount
