-- ===== src/Send/Lost.antt =====
-- A payment that the node has made, and a synchronisation that fails after it
-- (`on_payment_completed` of `libs/sdk-core/src/breez_services.rs`).
use breez_sdk.Prelude.{
  ◌≡◌, refl, eq_text_refl, ap, arith, ℕ, Option, none, some, Text, Result, ok, err,
}
use breez_sdk.Backup.Rows.{find_row}
use breez_sdk.Payments.{Payment, get_completed_payment_by_hash, insert_or_update_payments}
use breez_sdk.Lsp.{Node}
use breez_sdk.Send.{
  LnInvoice, Network, SendState, SendRequest, sync_failed, persist_pending_payment, checked_invoice,
  do_sync, on_payment_completed, attempt_payment, send_payment,
}

module _ (node : Node) (parse_invoice : Text → Option LnInvoice) (own_network : Network) where
  unreachable-sync :
      (st : SendState node parse_invoice own_network) (e : Text)
      → node.node_id st.node_state ≡ err e
      → do_sync node parse_invoice own_network st ≡ (err sync_failed, st)
  unfolding do_sync
  unreachable-sync st e h = rw (h, do_sync) refl

  unreachable-completed :
      (inv : Option LnInvoice) (res : Result Text Payment)
      (st : SendState node parse_invoice own_network) (e : Text)
      → node.node_id st.node_state ≡ err e
      → on_payment_completed node parse_invoice own_network inv res st ≡ (err sync_failed, st)
  unfolding on_payment_completed
  unreachable-completed inv res st e h =
      let failed = unreachable-sync st e h in
      rw (ap (λ z. z.0) failed, ap (λ z. z.1) failed, on_payment_completed) refl

  -- The payment that is stored before the node is asked is not a complete one.
  pending-open :
      (now amount : ℕ) (inv : LnInvoice) (st : SendState node parse_invoice own_network)
      → get_completed_payment_by_hash inv.payment_hash
          (persist_pending_payment node parse_invoice own_network now inv amount st).payments
          (persist_pending_payment node parse_invoice own_network now inv amount st).infos
          st.notes
        ≡ none
  unfolding persist_pending_payment insert_or_update_payments get_completed_payment_by_hash find_row
  pending-open now amount inv st = ground (arith, eq_text_refl inv.payment_hash)

  -- When the node has paid an invoice and its id can then not be read, the caller gets the error of the
  -- synchronisation, no event is sent, and the stored payment is not complete: nothing that is stored keeps
  -- the same invoice from being paid again.
  pub send_payment-lost :
      (now : ℕ) (req : SendRequest) (st : SendState node parse_invoice own_network)
      (inv : LnInvoice) (amount : ℕ) (p : Payment) (e : Text)
      → checked_invoice node parse_invoice own_network now req ≡ ok (inv, amount)
      → get_completed_payment_by_hash inv.payment_hash st.payments st.infos st.notes ≡ none
      → (node.send_payment inv.bolt11 req.request_amount st.node_state).0 ≡ ok p
      → node.node_id (node.send_payment inv.bolt11 req.request_amount st.node_state).1 ≡ err e
      → ((send_payment node parse_invoice own_network now req st).0 ≡ err sync_failed)
        × ((get_completed_payment_by_hash inv.payment_hash
                (send_payment node parse_invoice own_network now req st).1.payments
                (send_payment node parse_invoice own_network now req st).1.infos
                (send_payment node parse_invoice own_network now req st).1.notes
              ≡ none)
            × ((send_payment node parse_invoice own_network now req st).1.events ≡ st.events))
  unfolding send_payment attempt_payment persist_pending_payment
  send_payment-lost now req st inv amount p e checked unpaid made unreachable =
      let (res, n) = node.send_payment inv.bolt11 req.request_amount st.node_state in
      let sent : SendState node parse_invoice own_network =
        record (persist_pending_payment node parse_invoice own_network now inv amount st) {
          node_state = n;
        } in
      rw
        (
          checked,
          unpaid,
          unreachable-completed (some inv) res sent e unreachable,
          send_payment,
          attempt_payment,
        )
        (refl, (pending-open now amount inv st, refl))
