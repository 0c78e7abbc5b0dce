-- ===== src/LnurlEndpoint.antt =====
-- What an LNURL endpoint answers and how it is checked (`libs/sdk-common/src/lnurl/specs/pay.rs`).
pub mod Validated
use breez_sdk.Prelude.{
  ◌+◌, ℕ, Bool, true, false, ◌&&◌, not, Option, none, some, [], ◌∷◌, Text, Bytes, Result, ok, err,
  ◌>>=◌, ◌>>◌, ensure, ok_or, if◌then◌else◌, ltb, leb, ◌==◌, eq_text, codes,
}
use breez_sdk.Send.{Network, LnInvoice, network_code}

-- The bytes of one character in UTF-8.
abbrev pub utf8_size : ℕ → ℕ
utf8_size c = if ltb c 128 then 1 else if ltb c 2048 then 2 else if ltb c 65536 then 3 else 4

-- `str::len`, which counts bytes.
unfoldable pub utf8_len : Text → ℕ
utf8_len [] = 0
utf8_len (c ∷ t) = utf8_size c + utf8_len t

-- `LnUrlPayRequestData`, as far as a payment reads it.
pub record LnUrlPayRequestData : Type 0 where
  pub callback : Text
  pub min_sendable : ℕ
  pub max_sendable : ℕ
  pub metadata_str : Text
  pub comment_allowed : ℕ
  pub domain : Text
  pub ln_address : Option Text

pub data LnUrlError : Type 0 where
  generic invalid_uri invalid_lnurl_invoice service_connectivity : LnUrlError

pub data SuccessAction : Type 0 where
  aes : (description ciphertext iv : Text) → SuccessAction
  message : (text : Text) → SuccessAction
  url : (description address : Text) (matches_callback_domain : Bool) → SuccessAction

pub record CallbackResponse : Type 0 where
  pub pr : Text
  pub success_action : Option SuccessAction

pub data ValidatedCallbackResponse : Type 0 where
  endpoint_success : CallbackResponse → ValidatedCallbackResponse
  endpoint_error : Text → ValidatedCallbackResponse

-- The crates for URLs, HTTP, JSON and base64, and the decimal digits of a number.
pub record EndpointServices : Type 1 where
  pub Url : Type 0
  pub parse_url : Text → Option Url
  pub append_pair : Text → Text → Url → Url
  pub url_text : Url → Text
  pub url_domain : Url → Option Text
  pub to_string : ℕ → Text
  pub get : Text → Option Text
  pub error_from_str : Text → Option Text
  pub callback_from_str : Text → Option CallbackResponse
  pub base64_decode : Text → Option Bytes

abbrev pub comment_fits : Option Text → ℕ → Bool
comment_fits none n = true
comment_fits (some c) n = leb (utf8_len c) n

unfoldable pub validate_user_input : ℕ → Option Text → ℕ → ℕ → ℕ → Result LnUrlError (Unit {0})
validate_user_input amount comment least most comment_len =
    ensure (leb least amount) generic
    >> (ensure (leb amount most) generic >> ensure (comment_fits comment comment_len) generic)

unfoldable pub message_validate : Text → Result LnUrlError (Unit {0})
message_validate text = ensure (leb (utf8_len text) 144) generic

abbrev pub amount_agrees : Option ℕ → ℕ → Bool
amount_agrees none amount = false
amount_agrees (some n) amount = n == amount

module _ (parse_invoice : Text → Option LnInvoice) where
  unfoldable pub validate_lnurl_invoice : ℕ → Text → Network → Result LnUrlError (Unit {0})
  validate_lnurl_invoice amount bolt11 network =
      ok_or (parse_invoice bolt11) invalid_lnurl_invoice >>= λ inv.
      ensure (network_code inv.network == network_code network) invalid_lnurl_invoice
      >> ensure (amount_agrees inv.amount_msat amount) generic

-- `unwrap_or(true)`
abbrev pub or_true : Option Bool → Bool
or_true none = true
or_true (some b) = b

module _ (services : EndpointServices) where
  abbrev pub append_comment : Option Text → services.Url → services.Url
  append_comment none u = u
  append_comment (some c) u = services.append_pair (codes "comment") c u

  unfoldable pub build_pay_callback_url :
      ℕ → Option Text → LnUrlPayRequestData → Result LnUrlError Text
  build_pay_callback_url amount comment req_data =
      ok_or (services.parse_url req_data.callback) invalid_uri >>= λ u. ok (
        services.url_text (
          append_comment comment
            (services.append_pair (codes "amount") (services.to_string amount) u)))

  abbrev pub decodes : Text → Result LnUrlError (Unit {0})
  decodes t = ok_or (services.base64_decode t) generic >>= λ b. ok tt

  unfoldable pub aes_validate : Text → Text → Text → Result LnUrlError (Unit {0})
  aes_validate description ciphertext iv =
      ensure (leb (utf8_len description) 144) generic
      >> (ensure (leb (utf8_len ciphertext) 4096) generic
          >> (decodes ciphertext >> (ensure (utf8_len iv == 24) generic >> decodes iv)))

  abbrev pub domain_of : Text → Result LnUrlError Text
  domain_of t =
      ok_or (services.parse_url t) invalid_uri >>= λ u. ok_or (services.url_domain u) invalid_uri

  -- The action with `matches_callback_domain` set from the two domains.
  unfoldable pub url_validate :
      Text → Text → LnUrlPayRequestData → Bool → Result LnUrlError SuccessAction
  url_validate description address req_data validate_url =
      ensure (leb (utf8_len description) 144) generic
      >> (domain_of req_data.callback >>= λ req_domain. domain_of address >>= λ action_domain.
          ensure (not (validate_url && not (eq_text req_domain action_domain))) generic
          >> ok (url description address (eq_text req_domain action_domain)))

  unfoldable pub validate_action :
      LnUrlPayRequestData → Bool → Option SuccessAction → Result LnUrlError (Option SuccessAction)
  unfolding aes_validate message_validate url_validate
  validate_action req_data validate_url none = ok none
  validate_action req_data validate_url (some (aes d c iv)) =
      aes_validate d c iv >> ok (some (aes d c iv))
  validate_action req_data validate_url (some (message t)) =
      message_validate t >> ok (some (message t))
  validate_action req_data validate_url (some (url d a m)) =
      url_validate d a req_data validate_url >>= λ checked. ok (some checked)

  module _ (parse_invoice : Text → Option LnInvoice) where
    unfoldable pub checked_callback :
        ℕ
        → LnUrlPayRequestData
        → Network
        → Option Bool
        → CallbackResponse
        → Result LnUrlError ValidatedCallbackResponse
    unfolding validate_action validate_lnurl_invoice
    checked_callback amount req_data network validate_url resp =
        validate_action req_data (or_true validate_url) resp.success_action >>= λ action.
        validate_lnurl_invoice parse_invoice amount resp.pr network
        >> ok (endpoint_success (record resp { success_action = action }))

    unfoldable pub read_response :
        ℕ
        → LnUrlPayRequestData
        → Network
        → Option Bool
        → Text
        → Result LnUrlError ValidatedCallbackResponse
    unfolding checked_callback
    read_response amount req_data network validate_url response =
        elim (services.error_from_str response) [
          | some e ↦ ok (endpoint_error e)
          | none ↦ ok_or (services.callback_from_str response) service_connectivity >>= λ resp.
              checked_callback amount req_data network validate_url resp
        ]

    unfoldable pub validate_lnurl_pay :
        ℕ
        → Option Text
        → LnUrlPayRequestData
        → Network
        → Option Bool
        → Result LnUrlError ValidatedCallbackResponse
    unfolding validate_user_input build_pay_callback_url read_response
    validate_lnurl_pay amount comment req_data network validate_url =
        validate_user_input amount comment req_data.min_sendable req_data.max_sendable
          req_data.comment_allowed
        >> (build_pay_callback_url amount comment req_data >>= λ address.
            ok_or (services.get address) service_connectivity >>= λ response.
            read_response amount req_data network validate_url response)
