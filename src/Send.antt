-- ===== src/Send.antt =====
-- Sending a payment: `send_payment`, `on_payment_completed` and `do_sync` of `BreezServices` in
-- `libs/sdk-core/src/breez_services.rs`, over `Payments` and `Lsp`. The node and the parser of invoices are
-- parameters; failures of the database are left out.
pub mod Sync
pub mod Once
pub mod Lost
mod Tests
use breez_sdk.Prelude.{
  ◌≡◌, ℕ, ◌+◌, ◌-◌, Bool, true, false, ◌&&◌, not, Option, none, some, List, [], ◌∷◌, ◌++◌, Text,
  Bytes, Result, ok, err, ◌>>=◌, ◌>>◌, ensure, ok_or, if◌then◌else◌, ltb, leb, ◌==◌, eq_text,
  filterb, map, is_some, length, codes,
}
use breez_sdk.Prelude.Int.{ℤ, pos, negsuc}
use breez_sdk.Prelude.Words.{wrap_u64}
use breez_sdk.Backup.Tables.{ExternalInfo, PaymentMetadata}
use breez_sdk.Payments.{
  Payment, PaymentRow, sent, pending, insert_or_update_payments, delete_pseudo_payments,
  insert_payment_external_info, update_payment_attempted_error, or_amount, to_column,
  get_completed_payment_by_hash,
}
use breez_sdk.Lsp.{Node, LspSettings, connect_lsp_peer}

pub data Network : Type 0 where
  bitcoin testnet signet regtest : Network

abbrev pub network_code : Network → ℕ
network_code bitcoin = 0
network_code testnet = 1
network_code signet = 2
network_code regtest = 3

-- `LNInvoice` as far as a payment reads it.
pub record LnInvoice : Type 0 where
  pub bolt11 : Text
  pub network : Network
  pub payee_pubkey : Text
  pub payment_hash : Text
  pub description : Option Text
  pub amount_msat : Option ℕ
  pub timestamp : ℕ
  pub expiry : ℕ

-- `SendPaymentError`; those of the node are one.
pub data SendPaymentError : Type 0 where
  already_paid invalid_amount invalid_invoice invalid_network invoice_expired : SendPaymentError
  sync_failed : SendPaymentError
  node_error : Text → SendPaymentError

-- `SendPaymentRequest`
pub record SendRequest : Type 0 where
  pub request_bolt11 : Text
  pub request_amount : Option ℕ

pub data SendEvent : Type 0 where
  synced : SendEvent
  payment_succeed : Payment → SendEvent
  payment_failed_event : Text → SendEvent

unfoldable pub validate_network : LnInvoice → Network → Result SendPaymentError (Unit {0})
validate_network inv network =
    ensure (network_code inv.network == network_code network) invalid_network

-- The amount is in the invoice or in the request, and not in both.
unfoldable pub amount_to_send : ℕ → ℕ → Result SendPaymentError ℕ
amount_to_send provided in_invoice =
    if provided == 0
    then if in_invoice == 0 then err invalid_amount else ok in_invoice
    else if in_invoice == 0
    then ok provided
    else err invalid_amount

-- `map_or(Some(amount_msat), |_| None)`
abbrev pub attempted_of : Option ℕ → ℕ → Option ℕ
attempted_of none amount = some amount
attempted_of (some n) amount = none

-- The payment that is stored before the node is asked. Its details only repeat the invoice, and are given
-- by the invoice's text.
abbrev pub pending_payment : ℕ → LnInvoice → ℕ → Payment
pending_payment now inv amount = record {
  id = inv.payment_hash;
  payment_type = sent;
  payment_time = now;
  amount_msat = amount;
  fee_msat = 0;
  status = pending;
  error = none;
  description = inv.description;
  details = inv.bolt11;
  metadata = none;
}

module _ (node : Node) (parse_invoice : Text → Option LnInvoice) (own_network : Network) where
  pub record SendState : Type 0 where
    pub payments : List PaymentRow
    pub infos : List ExternalInfo
    pub notes : List PaymentMetadata
    pub lsp : LspSettings
    pub node_state : node.State
    pub events : List SendEvent

  unfoldable pub persist_pending_payment : ℕ → LnInvoice → ℕ → SendState → SendState
  unfolding insert_or_update_payments insert_payment_external_info
  persist_pending_payment now inv amount st = record st {
    payments = insert_or_update_payments (pending_payment now inv amount ∷ []) true st.payments;
    infos =
        insert_payment_external_info
          (record {
            payment_id = inv.payment_hash;
            lnurl_success_action = some (codes "null");
            ln_address = none;
            lnurl_metadata = none;
            lnurl_withdraw_endpoint = none;
            attempted_amount_msat = to_column (attempted_of inv.amount_msat amount);
            attempted_error = none;
            lnurl_pay_domain = none;
            lnurl_pay_comment = none;
          })
          st.infos;
  }

  unfoldable pub do_sync : SendState → Result SendPaymentError (Unit {0}) × SendState
  unfolding insert_or_update_payments delete_pseudo_payments connect_lsp_peer
  do_sync st = elim (node.node_id st.node_state) [
    | err _ ↦ (err sync_failed, st)
    | ok pubkey ↦
        let (connected, settings, n1) = connect_lsp_peer node pubkey st.lsp st.node_state in
        let (listed, n2) = node.list_payments n1 in
        elim connected [
          | err _ ↦ (err sync_failed, record st { lsp = settings; node_state = n1 })
          | ok _ ↦ elim listed [
            | err _ ↦ (err sync_failed, record st { lsp = settings; node_state = n2 })
            | ok ps ↦ (
              ok tt,
              record st {
                payments = insert_or_update_payments ps false (delete_pseudo_payments st.payments);
                lsp = settings;
                node_state = n2;
                events = synced ∷ st.events;
              },
            )
          ]
        ]
  ]

  -- What follows the synchronisation; a spontaneous payment has no invoice.
  abbrev pub note_error : Option LnInvoice → Text → List ExternalInfo → List ExternalInfo
  note_error none e t = t
  note_error (some inv) e t = update_payment_attempted_error inv.payment_hash (some e) t

  unfoldable pub report_payment :
      Option LnInvoice
      → Result Text Payment
      → SendState
      → Result SendPaymentError Payment × SendState
  report_payment inv (ok p) st = (ok p, record st { events = payment_succeed p ∷ st.events })
  report_payment inv (err e) st = (
    err (node_error e),
    record st { infos = note_error inv e st.infos; events = payment_failed_event e ∷ st.events },
  )

  unfoldable pub on_payment_completed :
      Option LnInvoice
      → Result Text Payment
      → SendState
      → Result SendPaymentError Payment × SendState
  unfolding do_sync report_payment
  on_payment_completed inv res st =
      let (synced_ok, st1) = do_sync st in
      elim synced_ok [ err e ↦ (err e, st1) | ok _ ↦ report_payment inv res st1 ]

  unfoldable pub send_spontaneous_payment :
      Text → ℕ → Option Text → SendState → Result SendPaymentError Payment × SendState
  unfolding on_payment_completed
  send_spontaneous_payment node_id amount extra_tlvs st =
      let (res, n) = node.send_spontaneous node_id amount extra_tlvs st.node_state in
      on_payment_completed none res (record st { node_state = n })

  -- The checks of `send_payment` up to the one on payments that were made before.
  unfoldable pub checked_invoice : ℕ → SendRequest → Result SendPaymentError (LnInvoice × ℕ)
  unfolding validate_network amount_to_send
  checked_invoice now req = ok_or (parse_invoice req.request_bolt11) invalid_invoice >>= λ inv.
      ensure (not (ltb (wrap_u64 (inv.timestamp + inv.expiry)) now)) invoice_expired
      >> (validate_network inv own_network
          >> (amount_to_send (or_amount req.request_amount 0) (or_amount inv.amount_msat 0)
              >>= λ amount. ok (inv, amount)))

  unfoldable pub attempt_payment :
      ℕ → SendRequest → LnInvoice → ℕ → SendState → Result SendPaymentError Payment × SendState
  unfolding persist_pending_payment on_payment_completed
  attempt_payment now req inv amount st =
      let st1 = persist_pending_payment now inv amount st in
      let (res, n) = node.send_payment inv.bolt11 req.request_amount st1.node_state in
      on_payment_completed (some inv) res (record st1 { node_state = n })

  unfoldable pub send_payment :
      ℕ → SendRequest → SendState → Result SendPaymentError Payment × SendState
  unfolding checked_invoice get_completed_payment_by_hash attempt_payment
  send_payment now req st = elim (checked_invoice now req) [
    | err e ↦ (err e, st)
    | ok (inv, amount) ↦
        elim (get_completed_payment_by_hash inv.payment_hash st.payments st.infos st.notes) [
          | some _ ↦ (err already_paid, st)
          | none ↦ attempt_payment now req inv amount st
        ]
  ]
