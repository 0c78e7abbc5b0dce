-- ===== src/LnurlEndpoint/Validated.antt =====
-- What passes the checks on the answer of an LNURL endpoint (`libs/sdk-common/src/lnurl/specs/pay.rs`).
use mathlib.Core.Path.{subst}
use breez_sdk.Prelude.{
  ◌≡◌, refl, ℕ, ◌≤◌, Bool, true, Option, none, some, Text, ok, arith, inl, inr, Option-cases,
  Result-cases, eq_text, eq_text_iff,
}
use breez_sdk.Send.{Network, LnInvoice, network_code}
use breez_sdk.LnurlEndpoint.{
  EndpointServices, LnUrlPayRequestData, SuccessAction, aes, message, url, utf8_len,
  CallbackResponse, endpoint_success, validate_user_input, validate_lnurl_invoice, url_validate,
  validate_action, message_validate, aes_validate, domain_of, or_true, comment_fits,
  build_pay_callback_url, checked_callback, read_response, validate_lnurl_pay,
}

module _ (services : EndpointServices) (parse_invoice : Text → Option LnInvoice) where
  -- What a success action that passes keeps to.
  abbrev pub ActionFits : LnUrlPayRequestData → Bool → Option SuccessAction → Type 0
  ActionFits req_data validate_url none = Unit
  ActionFits req_data validate_url (some (aes d c iv)) =
      (utf8_len d ≤ 144) × (utf8_len c ≤ 4096) × (utf8_len iv ≡ 24)
  ActionFits req_data validate_url (some (message t)) = utf8_len t ≤ 144
  ActionFits req_data validate_url (some (url d a m)) =
      (utf8_len d ≤ 144)
      × (own : Text) × (other : Text) × (domain_of services req_data.callback ≡ ok own)
      × (domain_of services a ≡ ok other)
      × (m ≡ eq_text own other)
      × (validate_url ≡ true → own ≡ other)

  -- The action is the one that was received, but for the flag on the domain of a URL, which is set anew.
  abbrev pub SameAction : Option SuccessAction → Option SuccessAction → Type 0
  SameAction (some (url d a m)) (some (url d' a' m')) = (d ≡ d') × (a ≡ a')
  SameAction received checked = received ≡ checked

  -- The endpoint has been asked and has answered with `received`.
  pub record Received (amount : ℕ) (comment : Option Text) (req_data : LnUrlPayRequestData)
      (received : CallbackResponse) : Type 0 where
    pub address : Text
    pub response : Text
    pub asked : build_pay_callback_url services amount comment req_data ≡ ok address
    pub answered : services.get address ≡ some response
    pub no_error : services.error_from_str response ≡ none
    pub decoded : services.callback_from_str response ≡ some received

  -- What is known of an answer that passes.
  pub record Validated (amount : ℕ) (comment : Option Text) (req_data : LnUrlPayRequestData)
      (network : Network) (validate_url : Option Bool) (resp : CallbackResponse) : Type 0 where
    pub received : CallbackResponse
    pub was_received : Received amount comment req_data received
    pub same_invoice : received.pr ≡ resp.pr
    pub same_action : SameAction received.success_action resp.success_action
    pub in_range : (req_data.min_sendable ≤ amount) × (amount ≤ req_data.max_sendable)
    pub comment_in_range : comment_fits comment req_data.comment_allowed ≡ true
    pub invoice : LnInvoice
    pub invoice_parsed : parse_invoice resp.pr ≡ some invoice
    pub invoice_amount : invoice.amount_msat ≡ some amount
    pub on_network : network_code invoice.network ≡ network_code network
    pub action_fits : ActionFits req_data (or_true validate_url) resp.success_action

  validate_lnurl_invoice-agrees :
      (amount : ℕ) (bolt11 : Text) (network : Network)
      → validate_lnurl_invoice parse_invoice amount bolt11 network ≡ ok tt
      → (inv : LnInvoice) × (parse_invoice bolt11 ≡ some inv)
        × (inv.amount_msat ≡ some amount)
        × (network_code inv.network ≡ network_code network)
  unfolding validate_lnurl_invoice
  validate_lnurl_invoice-agrees amount bolt11 network h =
      elim (Option-cases (parse_invoice bolt11)) [
        | inl fails ↦ absurd (ground (arith, h, fails))
        | inr (inv, parsed) ↦ elim (Option-cases inv.amount_msat) [
          | inl fails ↦ absurd (ground (arith, h, parsed, fails))
          | inr (n, named) ↦
              (inv, parsed, ground (arith, h, parsed, named), ground (arith, h, parsed, named))
        ]
      ]

  url_validate-fits :
      (d a : Text) (req_data : LnUrlPayRequestData) (validate_url : Bool) (act : SuccessAction)
      → url_validate services d a req_data validate_url ≡ ok act
      → ActionFits req_data validate_url (some act)
  unfolding url_validate
  url_validate-fits d a req_data validate_url act h =
      elim (Result-cases (domain_of services req_data.callback)) [
        | inr (e, fails) ↦ absurd (ground (arith, h, fails))
        | inl (own, has_own) ↦ elim (Result-cases (domain_of services a)) [
          | inr (e, fails) ↦ absurd (ground (arith, h, has_own, fails))
          | inl (other, has_other) ↦
              let is_url : url d a (eq_text own other) ≡ act =
                ground (arith, h, has_own, has_other) in
              let same : validate_url ≡ true → own ≡ other =
                λ on. (eq_text_iff own other).0 (ground (arith, h, has_own, has_other, on)) in
              subst (λ (x : SuccessAction). ActionFits req_data validate_url (some x)) is_url
                (ground (arith, h, has_own, has_other), own, other, has_own, has_other, refl, same)
        ]
      ]

  validate_action-fits :
      (req_data : LnUrlPayRequestData) (validate_url : Bool) (action checked : Option SuccessAction)
      → validate_action services req_data validate_url action ≡ ok checked
      → ActionFits req_data validate_url checked
  unfolding validate_action aes_validate message_validate
  validate_action-fits req_data validate_url none checked h =
      let is_none : none ≡ checked = ground (arith, h) in
      subst (ActionFits req_data validate_url) is_none tt
  validate_action-fits req_data validate_url (some (aes d c iv)) checked h =
      let is_aes : some (aes d c iv) ≡ checked = ground (arith, h) in
      subst (ActionFits req_data validate_url) is_aes
        (ground (arith, h), ground (arith, h), ground (arith, h))
  validate_action-fits req_data validate_url (some (message t)) checked h =
      let is_message : some (message t) ≡ checked = ground (arith, h) in
      subst (ActionFits req_data validate_url) is_message (ground (arith, h))
  validate_action-fits req_data validate_url (some (url d a m)) checked h =
      elim (Result-cases (url_validate services d a req_data validate_url)) [
        | inr (e, fails) ↦ absurd (ground (arith, h, fails))
        | inl (act, passes) ↦
            let is_act : some act ≡ checked = ground (arith, h, passes) in
            subst (ActionFits req_data validate_url) is_act
              (url_validate-fits d a req_data validate_url act passes)
      ]

  url_validate-same :
      (d a : Text) (m : Bool) (req_data : LnUrlPayRequestData) (validate_url : Bool)
      (act : SuccessAction)
      → url_validate services d a req_data validate_url ≡ ok act
      → SameAction (some (url d a m)) (some act)
  unfolding url_validate
  url_validate-same d a m req_data validate_url act h =
      elim (Result-cases (domain_of services req_data.callback)) [
        | inr (e, fails) ↦ absurd (ground (arith, h, fails))
        | inl (own, has_own) ↦ elim (Result-cases (domain_of services a)) [
          | inr (e, fails) ↦ absurd (ground (arith, h, has_own, fails))
          | inl (other, has_other) ↦
              let is_url : url d a (eq_text own other) ≡ act =
                ground (arith, h, has_own, has_other) in
              subst (λ (x : SuccessAction). SameAction (some (url d a m)) (some x)) is_url
                (refl, refl)
        ]
      ]

  validate_action-same :
      (req_data : LnUrlPayRequestData) (validate_url : Bool) (action checked : Option SuccessAction)
      → validate_action services req_data validate_url action ≡ ok checked
      → SameAction action checked
  unfolding validate_action aes_validate message_validate
  validate_action-same req_data validate_url none checked h = ground (arith, h)
  validate_action-same req_data validate_url (some (aes d c iv)) checked h =
      subst (SameAction (some (aes d c iv))) (ground (arith, h)) refl
  validate_action-same req_data validate_url (some (message t)) checked h =
      subst (SameAction (some (message t))) (ground (arith, h)) refl
  validate_action-same req_data validate_url (some (url d a m)) checked h =
      elim (Result-cases (url_validate services d a req_data validate_url)) [
        | inr (e, fails) ↦ absurd (ground (arith, h, fails))
        | inl (act, passes) ↦
            let is_act : some act ≡ checked = ground (arith, h, passes) in
            subst (SameAction (some (url d a m))) is_act
              (url_validate-same d a m req_data validate_url act passes)
      ]

  -- What the last checks leave.
  checked_callback-Validated :
      (amount : ℕ) (comment : Option Text) (req_data : LnUrlPayRequestData) (network : Network)
      (validate_url : Option Bool) (answer resp : CallbackResponse)
      → validate_user_input amount comment req_data.min_sendable req_data.max_sendable
          req_data.comment_allowed
        ≡ ok tt
      → Received amount comment req_data answer
      → checked_callback services parse_invoice amount req_data network validate_url answer
        ≡ ok (endpoint_success resp)
      → Validated amount comment req_data network validate_url resp
  unfolding checked_callback validate_user_input
  checked_callback-Validated amount comment req_data network validate_url answer resp input asked
        h =
      elim (Result-cases
        (validate_action services req_data (or_true validate_url) answer.success_action)) [
          | inr (e, fails) ↦ absurd (ground (arith, h, fails))
          | inl (action, fits) ↦
              elim (Result-cases (validate_lnurl_invoice parse_invoice amount answer.pr network)) [
                | inr (e, fails) ↦ absurd (ground (arith, h, fits, fails))
                | inl (done, agrees) ↦
                    let (inv, parsed, named, on) =
                      validate_lnurl_invoice-agrees amount answer.pr network agrees in
                    let is_resp : record answer { success_action = action } ≡ resp =
                      ground (arith, h, fits, agrees) in
                    subst
                      (λ (x : CallbackResponse).
                        Validated amount comment req_data network validate_url x)
                      is_resp
                      (record {
                        received = answer;
                        was_received = asked;
                        same_invoice = refl;
                        same_action =
                            validate_action-same req_data (or_true validate_url)
                              answer.success_action action fits;
                        in_range = (ground (arith, input), ground (arith, input));
                        comment_in_range = ground (arith, input);
                        invoice = inv;
                        invoice_parsed = parsed;
                        invoice_amount = named;
                        on_network = on;
                        action_fits =
                            validate_action-fits req_data (or_true validate_url)
                              answer.success_action action fits;
                      })
              ]
        ]

  -- An answer that validate_lnurl_pay returns as a success keeps to what was asked.
  pub validate_lnurl_pay-Validated :
      (amount : ℕ) (comment : Option Text) (req_data : LnUrlPayRequestData) (network : Network)
      (validate_url : Option Bool) (resp : CallbackResponse)
      → validate_lnurl_pay services parse_invoice amount comment req_data network validate_url
        ≡ ok (endpoint_success resp)
      → Validated amount comment req_data network validate_url resp
  unfolding validate_lnurl_pay read_response
  validate_lnurl_pay-Validated amount comment req_data network validate_url resp h =
      elim (Result-cases (
        validate_user_input amount comment req_data.min_sendable req_data.max_sendable
          req_data.comment_allowed)) [
            | inr (e, fails) ↦ absurd (ground (arith, h, fails))
            | inl (done, input) ↦
                elim (Result-cases (build_pay_callback_url services amount comment req_data)) [
                  | inr (e, fails) ↦ absurd (ground (arith, h, input, fails))
                  | inl (address, built) ↦ elim (Option-cases (services.get address)) [
                    | inl fails ↦ absurd (ground (arith, h, input, built, fails))
                    | inr (response, got) ↦ elim (Option-cases (services.error_from_str response)) [
                      | inr (e, is_error) ↦ absurd (ground (arith, h, input, built, got, is_error))
                      | inl no_error ↦ elim (Option-cases (services.callback_from_str response)) [
                        | inl fails ↦ absurd (ground (arith, h, input, built, got, no_error, fails))
                        | inr (answer, decoded) ↦
                            checked_callback-Validated amount comment req_data network validate_url
                              answer resp input
                              (record {
                                address = address;
                                response = response;
                                asked = built;
                                answered = got;
                                no_error = no_error;
                                decoded = decoded;
                              })
                              (ground (arith, h, input, built, got, no_error, decoded))
                      ]
                    ]
                  ]
                ]
          ]
