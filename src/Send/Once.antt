-- ===== src/Send/Once.antt =====
-- No invoice is paid again by `send_payment` of `libs/sdk-core/src/breez_services.rs`, and what is checked
-- of one that is.
use mathlib.Core.Path.{subst₂}
use breez_sdk.Prelude.{
  ◌≡◌, ◌≢◌, ◌⊎◌, refl, ◌∙◌, sym, ap, ℕ, ◌+◌, ◌≤◌, Option, none, some, Text, Result, ok, arith, inl,
  inr, Option-cases, Result-cases,
}
use breez_sdk.Prelude.Words.{wrap_u64}
use breez_sdk.Payments.{Payment, or_amount, get_completed_payment_by_hash}
use breez_sdk.Lsp.{Node}
use breez_sdk.Send.{
  LnInvoice, Network, network_code, SendState, SendRequest, amount_to_send, validate_network,
  checked_invoice, send_payment, attempt_payment, persist_pending_payment, on_payment_completed,
  report_payment, do_sync,
}

module _ (node : Node) (parse_invoice : Text → Option LnInvoice) (own_network : Network) where
  -- What is known of an invoice that passes.
  pub record Payable (now : ℕ) (req : SendRequest) (inv : LnInvoice) (amount : ℕ) : Type 0 where
    pub parsed : parse_invoice req.request_bolt11 ≡ some inv
    pub in_time : now ≤ wrap_u64 (inv.timestamp + inv.expiry)
    pub on_network : network_code inv.network ≡ network_code own_network
    pub one_amount :
        ((or_amount req.request_amount 0 ≡ 0) × (or_amount inv.amount_msat 0 ≡ amount))
        ⊎ ((or_amount inv.amount_msat 0 ≡ 0) × (or_amount req.request_amount 0 ≡ amount))
    pub some_amount : amount ≢ 0

  amount_to_send-one :
      (provided in_invoice amount : ℕ)
      → amount_to_send provided in_invoice ≡ ok amount
      → (((provided ≡ 0) × (in_invoice ≡ amount)) ⊎ ((in_invoice ≡ 0) × (provided ≡ amount)))
        × (amount ≢ 0)
  unfolding amount_to_send
  amount_to_send-one provided in_invoice amount h = ground (arith, h)

  pub checked_invoice-Payable :
      (now : ℕ) (req : SendRequest) (inv : LnInvoice) (amount : ℕ)
      → checked_invoice node parse_invoice own_network now req ≡ ok (inv, amount)
      → Payable now req inv amount
  unfolding checked_invoice validate_network
  checked_invoice-Payable now req inv amount h =
      elim (Option-cases (parse_invoice req.request_bolt11)) [
        | inl fails ↦ absurd (ground (arith, h, fails))
        | inr (found, parsed) ↦
            elim (Result-cases
              (amount_to_send (or_amount req.request_amount 0) (or_amount found.amount_msat 0))) [
                | inr (e, fails) ↦ absurd (ground (arith, h, parsed, fails))
                | inl (n, chosen) ↦
                    let same_invoice : found ≡ inv = ground (arith, h, parsed, chosen) in
                    let same_amount : n ≡ amount = ground (arith, h, parsed, chosen) in
                    let split =
                      amount_to_send-one (or_amount req.request_amount 0)
                        (or_amount found.amount_msat 0) n chosen in
                    subst₂ (λ (i : LnInvoice) (a : ℕ). Payable now req i a) same_invoice same_amount
                      (record {
                        parsed = parsed;
                        in_time = ground (arith, h, parsed, chosen);
                        on_network = ground (arith, h, parsed, chosen);
                        one_amount = split.0;
                        some_amount = split.1;
                      })
              ]
      ]

  on_payment_completed-made :
      (inv : Option LnInvoice) (res : Result Text Payment)
      (st : SendState node parse_invoice own_network) (p : Payment)
      → (on_payment_completed node parse_invoice own_network inv res st).0 ≡ ok p
      → res ≡ ok p
  unfolding on_payment_completed report_payment
  on_payment_completed-made inv res st p h =
      elim (Result-cases (do_sync node parse_invoice own_network st).0) [
        | inr (e, fails) ↦ absurd (ground (arith, h, fails))
        | inl (done, synced) ↦ ground (arith, h, synced)
      ]

  -- An invoice whose payment is complete is not paid again: the node is not asked, and nothing changes.
  pub send_payment-once :
      (now : ℕ) (req : SendRequest) (st : SendState node parse_invoice own_network)
      (inv : LnInvoice) (before again : Payment)
      → parse_invoice req.request_bolt11 ≡ some inv
      → get_completed_payment_by_hash inv.payment_hash st.payments st.infos st.notes ≡ some before
      → ((send_payment node parse_invoice own_network now req st).1 ≡ st)
        × ((send_payment node parse_invoice own_network now req st).0 ≢ ok again)
  unfolding send_payment
  send_payment-once now req st inv before again parsed paid =
      elim (Result-cases (checked_invoice node parse_invoice own_network now req)) [
        | inr (e, fails) ↦ rw (fails, send_payment) (refl, λ h. ground (arith, h))
        | inl ((found, amount), checked) ↦
            let payable = checked_invoice-Payable now req found amount checked in
            let same : some found ≡ some inv = sym payable.parsed ∙ parsed in
            let found_is : found ≡ inv = ground (arith, same) in
            let again_paid : get_completed_payment_by_hash found.payment_hash st.payments st.infos
                  st.notes
                ≡ some before =
              ap
                (λ (i : LnInvoice).
                  get_completed_payment_by_hash i.payment_hash st.payments st.infos st.notes)
                found_is
              ∙ paid in
            rw (checked, again_paid, send_payment) (refl, λ h. ground (arith, h))
      ]

  -- A payment that is returned as made is of an invoice that passes the checks and of which no complete
  -- payment was stored, and the node has been asked to pay it.
  pub send_payment-Payable :
      (now : ℕ) (req : SendRequest) (st : SendState node parse_invoice own_network) (p : Payment)
      → (send_payment node parse_invoice own_network now req st).0 ≡ ok p
      → (inv : LnInvoice) × (amount : ℕ) × Payable now req inv amount
        × (get_completed_payment_by_hash inv.payment_hash st.payments st.infos st.notes ≡ none)
        × ((node.send_payment inv.bolt11 req.request_amount st.node_state).0 ≡ ok p)
  unfolding send_payment attempt_payment persist_pending_payment
  send_payment-Payable now req st p h =
      elim (Result-cases (checked_invoice node parse_invoice own_network now req)) [
        | inr (e, fails) ↦ absurd (ground (arith, h, fails))
        | inl ((inv, amount), checked) ↦
            elim (Option-cases
              (get_completed_payment_by_hash inv.payment_hash st.payments st.infos st.notes)) [
                | inr (before, paid) ↦ absurd (ground (arith, h, checked, paid))
                | inl unpaid ↦
                    let tried : (send_payment node parse_invoice own_network now req st).0
                        ≡ (attempt_payment node parse_invoice own_network now req inv amount st).0 =
                      rw (checked, unpaid, send_payment) refl in
                    (
                      inv,
                      amount,
                      checked_invoice-Payable now req inv amount checked,
                      unpaid,
                      on_payment_completed-made (some inv)
                          (node.send_payment inv.bolt11 req.request_amount st.node_state).0
                          (record (persist_pending_payment node parse_invoice own_network now inv
                            amount st) {
                              node_state =
                                  (node.send_payment inv.bolt11 req.request_amount st.node_state).1;
                            })
                          p (sym tried ∙ h),
                    )
              ]
      ]
