-- ===== src/LnurlPay.antt =====
-- Paying to an LNURL: `validate_lnurl_pay` of `libs/sdk-common/src/lnurl/specs/pay.rs` and `lnurl_pay` of
-- `libs/sdk-core/src/breez_services.rs`, over `Send`. The endpoint, the crates for URLs, JSON, base64 and AES,
-- and what the node of `Send` needs are parameters. Texts in errors are left out.
pub mod Paid
mod Tests
use breez_sdk.Prelude.{
  ℕ, Bool, Option, none, some, List, [], ◌∷◌, Text, Bytes, Result, ok, err, ◌>>=◌, ◌>>◌, ok_or,
  true, false, if◌then◌else◌,
}
use breez_sdk.Payments.{Payment, insert_payment_external_info, to_column}
use breez_sdk.Lsp.{Node}
use breez_sdk.Send.{Network, LnInvoice, SendPaymentError, SendState, send_payment}
use breez_sdk.LnurlEndpoint.{
  LnUrlPayRequestData, LnUrlError, SuccessAction, aes, message, url, EndpointServices,
  ValidatedCallbackResponse, endpoint_error, endpoint_success, CallbackResponse, validate_lnurl_pay,
}

-- `SuccessActionProcessed`: an AES payload is decrypted, or the reason why not is kept.
pub data SuccessActionProcessed : Type 0 where
  decrypted : Text → Text → SuccessActionProcessed
  not_decrypted : SuccessActionProcessed
  message_shown : Text → SuccessActionProcessed
  url_shown : Text → Text → Bool → SuccessActionProcessed

-- `LnUrlPayResult`
pub data LnUrlPayResult : Type 0 where
  pay_success : Payment → Option SuccessActionProcessed → LnUrlPayResult
  pay_endpoint_error : Text → LnUrlPayResult
  pay_error : (payment_hash : Text) → (reason : SendPaymentError) → LnUrlPayResult

pub data LnUrlPayError : Type 0 where
  from_lnurl : LnUrlError → LnUrlPayError
  from_send : SendPaymentError → LnUrlPayError
  from_invoice unexpected_payment_type invalid_preimage : LnUrlPayError

-- `LnPaymentDetails`, as far as it is read here.
pub record LnDetails : Type 0 where
  pub details_hash : Text
  pub payment_preimage : Text

-- What the core takes from other crates: the details of a payment, none for a closed channel; the parser of
-- preimages; AES; JSON; and which errors of the node are of connectivity.
pub record PayServices : Type 0 where
  pub details_of : Text → Option LnDetails
  pub preimage_from_str : Text → Option Bytes
  pub aes_decrypt : Bytes → Text → Text → Option Text
  pub action_to_string : Option SuccessActionProcessed → Text
  pub is_connectivity : Text → Bool

-- `LnUrlPayRequest`
pub record LnUrlPayRequest : Type 0 where
  pub req_data : LnUrlPayRequestData
  pub amount : ℕ
  pub comment : Option Text
  pub validate_success_action_url : Option Bool

module _ (pay : PayServices) where
  -- The errors of `send_payment` that are passed on; the others are part of the result.
  abbrev pub passes_on : SendPaymentError → Bool
  passes_on SendPaymentError.invalid_invoice = true
  passes_on (SendPaymentError.node_error e) = pay.is_connectivity e
  passes_on _ = false

  unfoldable pub decrypt_action : Text → Option Text → SuccessActionProcessed
  decrypt_action description none = not_decrypted
  decrypt_action description (some plaintext) = decrypted description plaintext

  unfoldable pub process_action :
      LnDetails → Option SuccessAction → Result LnUrlPayError (Option SuccessActionProcessed)
  unfolding decrypt_action
  process_action details none = ok none
  process_action details (some (aes d c iv)) =
      ok_or (pay.preimage_from_str details.payment_preimage) invalid_preimage >>= λ key.
      ok (some (decrypt_action d (pay.aes_decrypt key iv c)))
  process_action details (some (message t)) = ok (some (message_shown t))
  process_action details (some (url d a m)) = ok (some (url_shown d a m))

-- An address has no domain stored beside it.
abbrev pub pay_domain : LnUrlPayRequestData → Option Text
pay_domain d = elim d.ln_address [ some _ ↦ none | none ↦ some d.domain ]

module _ (endpoint : EndpointServices) (pay : PayServices) (node : Node)
    (parse_invoice : Text → Option LnInvoice) (own_network : Network) where
  abbrev pub State : Type 0
  State = SendState node parse_invoice own_network

  unfoldable pub store_paid :
      LnUrlPayRequest → LnInvoice → LnDetails → Option SuccessActionProcessed → State → State
  unfolding insert_payment_external_info
  store_paid req inv details processed st = record st {
    infos =
        insert_payment_external_info
          (record {
            payment_id = details.details_hash;
            lnurl_success_action = some (pay.action_to_string processed);
            ln_address = req.req_data.ln_address;
            lnurl_metadata = some req.req_data.metadata_str;
            lnurl_withdraw_endpoint = none;
            attempted_amount_msat = to_column inv.amount_msat;
            attempted_error = none;
            lnurl_pay_domain = pay_domain req.req_data;
            lnurl_pay_comment = req.comment;
          })
          st.infos;
  }

  unfoldable pub on_paid :
      LnUrlPayRequest
      → LnInvoice
      → Option SuccessAction
      → Payment
      → State
      → Result LnUrlPayError LnUrlPayResult × State
  unfolding store_paid process_action
  on_paid req inv action p st = elim (pay.details_of p.details) [
    | none ↦ (err unexpected_payment_type, st)
    | some details ↦ elim (process_action pay details action) [
      | err e ↦ (err e, st)
      | ok processed ↦ (ok (pay_success p processed), store_paid req inv details processed st)
    ]
  ]

  unfoldable pub on_unpaid : LnInvoice → SendPaymentError → Result LnUrlPayError LnUrlPayResult
  on_unpaid inv e = if passes_on pay e then err (from_send e) else ok (pay_error inv.payment_hash e)

  unfoldable pub pay_callback :
      ℕ → LnUrlPayRequest → CallbackResponse → State → Result LnUrlPayError LnUrlPayResult × State
  unfolding on_paid on_unpaid send_payment
  pay_callback now req cb st = elim (parse_invoice cb.pr) [
    | none ↦ (err from_invoice, st)
    | some inv ↦
        let (sent, st1) =
          send_payment node parse_invoice own_network now
            (record { request_bolt11 = cb.pr; request_amount = none }) st in
        elim sent [
          | ok p ↦ on_paid req inv cb.success_action p st1
          | err e ↦ (on_unpaid inv e, st1)
        ]
  ]

  unfoldable pub lnurl_pay :
      ℕ → LnUrlPayRequest → State → Result LnUrlPayError LnUrlPayResult × State
  unfolding validate_lnurl_pay pay_callback
  lnurl_pay now req st =
      elim (validate_lnurl_pay endpoint parse_invoice req.amount req.comment req.req_data
        own_network req.validate_success_action_url) [
          | err e ↦ (err (from_lnurl e), st)
          | ok (endpoint_error e) ↦ (ok (pay_endpoint_error e), st)
          | ok (endpoint_success cb) ↦ pay_callback now req cb st
        ]
