-- ===== src/LnurlPay/Paid.antt =====
-- A payment to an LNURL that succeeds (`lnurl_pay` of `libs/sdk-core/src/breez_services.rs`).
use mathlib.Core.Path.{subst}
use breez_sdk.Prelude.{
  ◌≡◌, refl, sym, ap, ◌∙◌, ◌+◌, ◌≤◌, ℕ, Option, none, some, Text, ok, arith, inl, inr, Option-cases,
  Result-cases,
}
use breez_sdk.Prelude.Words.{wrap_u64}
use breez_sdk.Payments.{Payment, get_completed_payment_by_hash}
use breez_sdk.Lsp.{Node}
use breez_sdk.Send.{Network, LnInvoice, SendRequest, send_payment}
use breez_sdk.Send.Once.{send_payment-Payable}
use breez_sdk.LnurlEndpoint.{
  EndpointServices, CallbackResponse, SuccessAction, validate_lnurl_pay, endpoint_success,
  endpoint_error,
}
use breez_sdk.LnurlEndpoint.Validated.{Validated, validate_lnurl_pay-Validated}
use breez_sdk.LnurlPay.{
  PayServices, LnUrlPayRequest, LnDetails, pay_success, SuccessActionProcessed, process_action,
  on_paid, on_unpaid, pay_callback, lnurl_pay, State,
}

module _ (endpoint : EndpointServices) (pay : PayServices) (node : Node)
    (parse_invoice : Text → Option LnInvoice) (own_network : Network) where
  -- What is known of a payment that is reported as a success.
  pub record PaidAsAsked (now : ℕ) (req : LnUrlPayRequest)
      (st : State endpoint pay node parse_invoice own_network) (p : Payment)
      (processed : Option SuccessActionProcessed) : Type 0 where
    pub answer : CallbackResponse
    pub validated :
        Validated endpoint parse_invoice req.amount req.comment req.req_data own_network
          req.validate_success_action_url answer
    pub in_time : now ≤ wrap_u64 (validated.invoice.timestamp + validated.invoice.expiry)
    pub unpaid :
        get_completed_payment_by_hash validated.invoice.payment_hash st.payments st.infos st.notes
        ≡ none
    pub details : LnDetails
    pub of_payment : pay.details_of p.details ≡ some details
    pub shown : process_action pay details answer.success_action ≡ ok processed
    pub made : (node.send_payment validated.invoice.bolt11 none st.node_state).0 ≡ ok p

  on_paid-payment :
      (req : LnUrlPayRequest) (inv : LnInvoice) (action : Option SuccessAction) (q p : Payment)
      (processed : Option SuccessActionProcessed)
      (st : State endpoint pay node parse_invoice own_network)
      → (on_paid endpoint pay node parse_invoice own_network req inv action q st).0
        ≡ ok (pay_success p processed)
      → (q ≡ p)
        × ((details : LnDetails) × ((pay.details_of q.details ≡ some details)
              × (process_action pay details action ≡ ok processed)))
  unfolding on_paid
  on_paid-payment req inv action q p processed st h =
      elim (Option-cases (pay.details_of q.details)) [
        | inl fails ↦ absurd (ground (arith, h, fails))
        | inr (details, found) ↦ elim (Result-cases (process_action pay details action)) [
          | inr (e, fails) ↦ absurd (ground (arith, h, found, fails))
          | inl (done, processes) ↦
              let same : done ≡ processed = ground (arith, h, found, processes) in
              (ground (arith, h, found, processes), (details, (found, processes ∙ ap ok same)))
        ]
      ]

  -- The payment of a callback that succeeds is the one that send_payment has returned.
  pay_callback-sent :
      (now : ℕ) (req : LnUrlPayRequest) (cb : CallbackResponse) (p : Payment)
      (processed : Option SuccessActionProcessed)
      (st : State endpoint pay node parse_invoice own_network)
      → (pay_callback endpoint pay node parse_invoice own_network now req cb st).0
        ≡ ok (pay_success p processed)
      → ((send_payment node parse_invoice own_network now
            (record { request_bolt11 = cb.pr; request_amount = none })
            st).0
          ≡ ok p)
        × ((details : LnDetails) × ((pay.details_of p.details ≡ some details)
              × (process_action pay details cb.success_action ≡ ok processed)))
  unfolding pay_callback on_unpaid
  pay_callback-sent now req cb p processed st h =
      let asked : SendRequest = record { request_bolt11 = cb.pr; request_amount = none } in
      elim (Option-cases (parse_invoice cb.pr)) [
        | inl fails ↦ absurd (ground (arith, h, fails))
        | inr (inv, parsed) ↦
            elim (Result-cases (send_payment node parse_invoice own_network now asked st).0) [
              | inr (e, fails) ↦ absurd (ground (arith, h, parsed, fails))
              | inl (q, sent) ↦
                  let reported : (pay_callback endpoint pay node parse_invoice own_network now req
                        cb st).0
                      ≡ (on_paid endpoint pay node parse_invoice own_network req inv
                          cb.success_action q
                          (send_payment node parse_invoice own_network now asked st).1).0 =
                    rw (parsed, sent, pay_callback) refl in
                  let (same, shown) =
                    on_paid-payment req inv cb.success_action q p processed
                      (send_payment node parse_invoice own_network now asked st).1
                      (sym reported ∙ h) in
                  (
                    sent ∙ ap ok same,
                    subst
                        (λ (x : Payment).
                          (details : LnDetails) × ((pay.details_of x.details ≡ some details)
                            × (process_action pay details cb.success_action ≡ ok processed)))
                        same shown,
                  )
            ]
      ]

  -- A payment that lnurl_pay reports as a success is of the invoice that the endpoint has answered with,
  -- which is for the amount that was asked for, had not expired and was not paid before; the node has paid
  -- it; and what is shown afterwards is the success action of this answer, which keeps to its limits and, where
  -- that is checked, to the domain of the callback.
  pub lnurl_pay-PaidAsAsked :
      (now : ℕ) (req : LnUrlPayRequest) (st : State endpoint pay node parse_invoice own_network)
      (p : Payment) (processed : Option SuccessActionProcessed)
      → (lnurl_pay endpoint pay node parse_invoice own_network now req st).0
        ≡ ok (pay_success p processed)
      → PaidAsAsked now req st p processed
  unfolding lnurl_pay
  lnurl_pay-PaidAsAsked now req st p processed h =
      elim (Result-cases (
        validate_lnurl_pay endpoint parse_invoice req.amount req.comment req.req_data own_network
          req.validate_success_action_url)) [
            | inr (e, fails) ↦ absurd (ground (arith, h, fails))
            | inl (endpoint_error e, answers) ↦ absurd (ground (arith, h, answers))
            | inl (endpoint_success cb, answers) ↦
                let paid : (pay_callback endpoint pay node parse_invoice own_network now req cb
                      st).0
                    ≡ ok (pay_success p processed) =
                  sym (rw (answers, lnurl_pay) refl) ∙ h in
                let keeps =
                  validate_lnurl_pay-Validated endpoint parse_invoice req.amount req.comment
                    req.req_data own_network req.validate_success_action_url cb answers in
                let asked : SendRequest = record {
                  request_bolt11 = cb.pr;
                  request_amount = none;
                } in
                let (sent, (details, (of_payment, shown))) =
                  pay_callback-sent now req cb p processed st paid in
                let (inv, amount, payable, unpaid, made) =
                  send_payment-Payable node parse_invoice own_network now asked st p sent in
                let some_same : some inv ≡ some keeps.invoice =
                  sym payable.parsed ∙ keeps.invoice_parsed in
                let same : inv ≡ keeps.invoice = ground (arith, some_same) in
                record {
                  answer = cb;
                  validated = keeps;
                  details = details;
                  of_payment = of_payment;
                  shown = shown;
                  in_time =
                      subst (λ (i : LnInvoice). now ≤ wrap_u64 (i.timestamp + i.expiry)) same
                        payable.in_time;
                  unpaid =
                      subst
                        (λ (i : LnInvoice).
                          get_completed_payment_by_hash i.payment_hash st.payments st.infos st.notes
                          ≡ none)
                        same unpaid;
                  made =
                      subst
                        (λ (i : LnInvoice).
                          (node.send_payment i.bolt11 none st.node_state).0 ≡ ok p)
                        same made;
                }
          ]
