-- ===== src/LnurlPay/Tests.antt =====
-- A payment to an LNURL at concrete values: the endpoint answers with one invoice and a page of its own.
use breez_sdk.Prelude.{
  eq_text, ◌≡◌, refl, ℕ, true, false, Option, none, some, [], ◌∷◌, Text, ok, err, codes,
}
use breez_sdk.Payments.{Payment, sent, complete}
use breez_sdk.Lsp.{Node}
use breez_sdk.Send.{LnInvoice, bitcoin, SendState}
use breez_sdk.LnurlEndpoint.{
  utf8_len, EndpointServices, LnUrlPayRequestData, SuccessAction, url, CallbackResponse,
  validate_lnurl_pay, validate_user_input, generic,
}
use breez_sdk.LnurlPay.{PayServices, LnUrlPayRequest, url_shown, lnurl_pay}
use breez_sdk.LnurlPay.Paid.{PaidAsAsked, lnurl_pay-PaidAsAsked}

abbrev invoice : LnInvoice
invoice = record {
  bolt11 = codes "lnbc";
  network = bitcoin;
  payee_pubkey = 5 ∷ [];
  payment_hash = 7 ∷ [];
  description = none;
  amount_msat = some 3000;
  timestamp = 100;
  expiry = 3600;
}

abbrev parse_one : Text → Option LnInvoice
parse_one t = some invoice

abbrev page : SuccessAction
page = url (codes "thanks") (codes "page") true

-- Each URL is its text, and all are of one domain.
abbrev endpoint : EndpointServices
endpoint = record {
  Url = Text;
  parse_url = λ t. some t;
  append_pair = λ k v u. u;
  url_text = λ u. u;
  url_domain = λ u. some (codes "shop");
  to_string = λ n. n ∷ [];
  get = λ u. some (codes "answer");
  error_from_str = λ t. none;
  callback_from_str = λ t. some (record { pr = codes "lnbc"; success_action = some page });
  base64_decode = λ t. some t;
}

abbrev pay_services : PayServices
pay_services = record {
  details_of = λ t. some (record { details_hash = 7 ∷ []; payment_preimage = 6 ∷ [] });
  preimage_from_str = λ t. some t;
  aes_decrypt = λ k iv c. some c;
  action_to_string = λ a. [];
  is_connectivity = λ e. false;
}

abbrev made : Payment
made = record {
  id = 7 ∷ [];
  payment_type = sent;
  payment_time = 120;
  amount_msat = 3000;
  fee_msat = 2;
  status = complete;
  error = none;
  description = none;
  details = [];
  metadata = none;
}

abbrev node : Node
node = record {
  State = ℕ;
  send_payment = λ bolt11 amount n. (ok made, n);
  send_spontaneous = λ node_id amount tlvs n. (ok made, n);
  node_id = λ n. ok (4 ∷ []);
  list_lsps = λ pubkey n. ok [];
  connected_peers = λ n. [];
  connect_peer = λ pubkey host n. (ok tt, n);
  list_payments = λ n. (ok (made ∷ []), n);
}

abbrev start : SendState node parse_one bitcoin
start = record {
  payments = [];
  infos = [];
  notes = [];
  lsp = record { lsp = none; lsp_pubkey = none };
  node_state = 0;
  events = [];
}

abbrev shop : LnUrlPayRequestData
shop = record {
  callback = codes "shop";
  min_sendable = 1000;
  max_sendable = 5000;
  metadata_str = [];
  comment_allowed = 3;
  domain = codes "shop";
  ln_address = none;
}

abbrev request_for : ℕ → LnUrlPayRequest
request_for amount = record {
  req_data = shop;
  amount = amount;
  comment = some (codes "hi");
  validate_success_action_url = none;
}

abbrev answered : CallbackResponse
answered = record { pr = codes "lnbc"; success_action = some page }

lnurl_pay-PaidAsAsked_example :
    PaidAsAsked endpoint pay_services node parse_one bitcoin 200
      (request_for 3000)
      start
      made
      (some (url_shown (codes "thanks") (codes "page") true))
unfolding lnurl_pay utf8_len eq_text
lnurl_pay-PaidAsAsked_example =
    lnurl_pay-PaidAsAsked endpoint pay_services node parse_one bitcoin 200 (request_for 3000) start
      made (some (url_shown (codes "thanks") (codes "page") true)) refl

-- An invoice of another amount is refused.
other_amount :
    validate_lnurl_pay endpoint parse_one 4000 (some (codes "hi")) shop bitcoin none ≡ err generic
unfolding validate_lnurl_pay utf8_len eq_text
other_amount = refl

-- Two characters of two bytes each are longer than three.
two_characters : validate_user_input 3000 (some (233 ∷ 233 ∷ [])) 1000 5000 3 ≡ err generic
unfolding validate_user_input utf8_len
two_characters = refl
