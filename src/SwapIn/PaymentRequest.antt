-- ===== src/SwapIn/PaymentRequest.antt =====
-- The invoice that a swapper is asked to pay: `get_payment_request` and
-- `check_existing_payment_request` of `libs/sdk-core/src/swap_in/swap.rs`, over the node and the
-- receiver of payments as parameters that thread a state of their own.
pub mod Reuse
use breez_sdk.Prelude.{
  ℕ, ◌*◌, Bool, true, false, not, Option, none, some, Text, Bytes, Result, ok, err, if◌then◌else◌,
  ltb, ◌==◌, codes,
}
use breez_sdk.Prelude.Int.{ℤ}
use breez_sdk.Prelude.Words.{wrap_u64, saturating_mul_u32}
use breez_sdk.Fees.{OpeningFeeParams, valid_for, get_channel_fees_msat_for}
use breez_sdk.SwapIn.Model.{SwapInfo}

abbrev pub min_invoice_expiry_seconds : ℕ
min_invoice_expiry_seconds = 1800

abbrev pub min_opening_fee_params_validity_seconds : ℕ
min_opening_fee_params_validity_seconds = 1800

abbrev pub expiry_seconds_per_block : ℕ
expiry_seconds_per_block = 600

-- `GetPaymentRequestError`
pub data RequestError : Type 0 where
  needs_new_fee_params : RequestError
  invoice_already_exists : RequestError
  request_connectivity : Text → RequestError
  request_generic : Text → RequestError
  request_missing_fee_params : RequestError

-- What the code reads of an invoice: when it expires, in seconds since 1970, and its amount.
pub record Invoice : Type 0 where
  pub expires_at : Option ℕ
  pub amount_milli_satoshis : Option ℕ

pub record FetchBolt11Result : Type 0 where
  pub fetched_bolt11 : Text
  pub payer_amount_msat : Option ℕ

pub record ReceivePaymentRequest : Type 0 where
  pub amount_msat : ℕ
  pub cltv : Option ℕ
  pub description : Text
  pub expiry : Option ℕ
  pub opening_fee_params : Option OpeningFeeParams
  pub request_preimage : Option Bytes
  pub use_description_hash : Option Bool

pub record ReceivePaymentResponse : Type 0 where
  pub response_bolt11 : Text
  pub response_fee_params : Option OpeningFeeParams

-- `ReceivePaymentError`, by whether the invoice exists and else as it is passed on.
pub data ReceiveFailure : Type 0 where
  preimage_already_exists : ReceiveFailure
  receive_failed : RequestError → ReceiveFailure

-- The calls of `NodeAPI`, `Receiver` and the crates `lightning-invoice` and `chrono`.
pub record PaymentServices : Type 1 where
  pub State : Type 0
  pub parse_invoice : Text → Result Text Invoice
  pub parse_from_rfc3339 : Text → Option ℤ
  pub now : ℤ
  pub fetch_bolt11 : Bytes → State → Result Text (Option FetchBolt11Result) × State
  pub delete_invoice : Text → State → Result Text (Unit {0}) × State
  pub open_channel_needed : ℕ → State → Result RequestError Bool
  pub receive_payment :
      ReceivePaymentRequest → State → Result ReceiveFailure ReceivePaymentResponse × State

-- `Option::unwrap_or`
abbrev pub or_else : Option ℕ → ℕ → ℕ
or_else none n = n
or_else (some m) n = m

module _ (services : PaymentServices) where
  open services use {
    State, parse_invoice, parse_from_rfc3339, now, fetch_bolt11, delete_invoice,
    open_channel_needed, receive_payment,
  }

  -- An invoice that does not fit any more is deleted, and is to be created again.
  unfoldable pub discard : Text → State → Result RequestError (Option Text) × State
  discard bolt11 st =
      let (r, st') = delete_invoice bolt11 st in
      elim r [ err e ↦ (err (request_generic e), st') | ok _ ↦ (ok none, st') ]

  -- The checks after the amount.
  unfoldable pub check_liquidity :
      SwapInfo → FetchBolt11Result → ℕ → State → Result RequestError (Option Text) × State
  unfolding discard
  check_liquidity swap found amount st = elim found.payer_amount_msat [
    | some _ ↦ elim swap.channel_opening_fees [
      | none ↦ (err request_missing_fee_params, st)
      | some _ ↦ (ok (some found.fetched_bolt11), st)
    ]
    | none ↦ elim (open_channel_needed amount st) [
      | err e ↦ (err e, st)
      | ok true ↦ discard found.fetched_bolt11 st
      | ok false ↦ (ok (some found.fetched_bolt11), st)
    ]
  ]

  unfoldable pub check_existing_payment_request :
      SwapInfo → FetchBolt11Result → State → Result RequestError (Option Text) × State
  unfolding discard check_liquidity
  check_existing_payment_request swap found st = elim (parse_invoice found.fetched_bolt11) [
    | err e ↦ (err (request_generic e), st)
    | ok invoice ↦ elim invoice.expires_at [
      | none ↦ discard found.fetched_bolt11 st
      | some expires_at ↦
          if ltb expires_at min_invoice_expiry_seconds
          then discard found.fetched_bolt11 st
          else elim invoice.amount_milli_satoshis [
            | none ↦ (err (request_generic found.fetched_bolt11), st)
            | some invoice_amount ↦
                let amount = or_else found.payer_amount_msat invoice_amount in
                if amount == wrap_u64 (swap.confirmed_sats * 1000)
                then check_liquidity swap found amount st
                else discard found.fetched_bolt11 st
          ]
    ]
  ]

  abbrev pub receive_request : SwapInfo → ℕ → Bool → OpeningFeeParams → ReceivePaymentRequest
  receive_request swap blocks valid accepted = record {
    amount_msat = wrap_u64 (swap.confirmed_sats * 1000);
    cltv = some 144;
    description = codes "Bitcoin Transfer";
    expiry = some (saturating_mul_u32 blocks expiry_seconds_per_block);
    opening_fee_params = if valid then some accepted else none;
    request_preimage = some swap.preimage;
    use_description_hash = none;
  }

  -- A new invoice, whose channel may cost no more than what was accepted.
  unfoldable pub create_payment_request :
      SwapInfo → ℕ → Bool → OpeningFeeParams → State → Result RequestError (Text × Bool) × State
  create_payment_request swap blocks valid accepted st =
      let amount = wrap_u64 (swap.confirmed_sats * 1000) in
      let (r, st') = receive_payment (receive_request swap blocks valid accepted) st in
      elim r [
        | err preimage_already_exists ↦ (err invoice_already_exists, st')
        | err (receive_failed e) ↦ (err e, st')
        | ok response ↦ elim response.response_fee_params [
          | none ↦ (ok (response.response_bolt11, true), st')
          | some asked ↦
              if ltb (get_channel_fees_msat_for amount accepted)
                (get_channel_fees_msat_for amount asked)
              then (err needs_new_fee_params, st')
              else (ok (response.response_bolt11, true), st')
        ]
      ]

  unfoldable pub get_payment_request_inner :
      SwapInfo → ℕ → State → Result RequestError (Text × Bool) × State
  unfolding check_existing_payment_request create_payment_request
  get_payment_request_inner swap blocks st =
      let (r, st') = fetch_bolt11 swap.payment_hash st in
      elim r [
        | err e ↦ (err (request_generic e), st')
        | ok existing ↦ elim swap.channel_opening_fees [
          | none ↦ (err request_missing_fee_params, st')
          | some accepted ↦
              elim (valid_for parse_from_rfc3339 now min_opening_fee_params_validity_seconds
                accepted) [
                  | err _ ↦ (err (request_generic accepted.valid_until), st')
                  | ok valid ↦ elim existing [
                    | none ↦ create_payment_request swap blocks valid accepted st'
                    | some found ↦
                        let (c, st'') = check_existing_payment_request swap found st' in
                        elim c [
                          | err e ↦ (err e, st'')
                          | ok (some bolt11) ↦ (ok (bolt11, false), st'')
                          | ok none ↦ create_payment_request swap blocks valid accepted st''
                        ]
                  ]
                ]
        ]
      ]

  -- One more try where the invoice existed.
  unfoldable pub get_payment_request :
      SwapInfo → ℕ → State → Result RequestError (Text × Bool) × State
  unfolding get_payment_request_inner
  get_payment_request swap blocks st =
      let (r, st') = get_payment_request_inner swap blocks st in
      elim r [
        | err invoice_already_exists ↦ get_payment_request_inner swap blocks st'
        | ok found ↦ (ok found, st')
        | err e ↦ (err e, st')
      ]
