-- ===== src/Send/Tests.antt =====
-- Payments of `Send` at concrete values.
use breez_sdk.Prelude.{
  eq_text, ◌≡◌, ◌≢◌, refl, ℕ, true, false, Option, none, some, [], ◌∷◌, Text, Result, ok, err, suc,
  zero,
}
use breez_sdk.Backup.Rows.{find_row}
use breez_sdk.Payments.{
  Payment, payment_key, sent, complete, pending, get_completed_payment_by_hash,
}
use breez_sdk.Lsp.{Node, LspSettings}
use breez_sdk.Send.{
  LnInvoice, bitcoin, SendState, SendRequest, sync_failed, already_paid, invoice_expired,
  checked_invoice, do_sync, send_payment,
}
use breez_sdk.Send.Sync.{do_sync-rows, row_or, real_row, listed}
use breez_sdk.Send.Once.{send_payment-once, send_payment-Payable, Payable}
use breez_sdk.Send.Lost.{send_payment-lost}

abbrev invoice : LnInvoice
invoice = record {
  bolt11 = 9 ∷ [];
  network = bitcoin;
  payee_pubkey = 5 ∷ [];
  payment_hash = 7 ∷ [];
  description = none;
  amount_msat = some 3000;
  timestamp = 100;
  expiry = 3600;
}

abbrev parse_one : Text → Option LnInvoice
parse_one t = some invoice

abbrev made : Payment
made = record {
  id = 7 ∷ [];
  payment_type = sent;
  payment_time = 120;
  amount_msat = 3000;
  fee_msat = 2;
  status = complete;
  error = none;
  description = none;
  details = 9 ∷ [];
  metadata = none;
}

-- A node whose state counts the payments, and that is known while there is none.
abbrev reached : ℕ → Result Text Text
reached zero = ok (4 ∷ [])
reached (suc n) = err (1 ∷ [])

abbrev reached_by : (ℕ → Result Text Text) → Node
reached_by peer = record {
  State = ℕ;
  send_payment = λ bolt11 amount n. (ok made, suc n);
  send_spontaneous = λ node_id amount tlvs n. (ok made, suc n);
  node_id = peer;
  list_lsps = λ pubkey n. ok (record { id = 2 ∷ []; pubkey = 3 ∷ []; host = 6 ∷ [] } ∷ []);
  connected_peers = λ n. [];
  connect_peer = λ pubkey host n. (ok tt, n);
  list_payments = λ n. (ok (made ∷ []), n);
}

abbrev one_shot : Node
one_shot = reached_by reached

abbrev steady : Node
steady = reached_by (λ n. ok (4 ∷ []))

abbrev request : SendRequest
request = record { request_bolt11 = 9 ∷ []; request_amount = none }

abbrev no_lsp : LspSettings
no_lsp = record { lsp = none; lsp_pubkey = none }

abbrev fresh : SendState one_shot parse_one bitcoin
fresh = record { payments = []; infos = []; notes = []; lsp = no_lsp; node_state = 0; events = [] }

abbrev paid : SendState one_shot parse_one bitcoin
paid = record {
  payments = record { payment = made; is_pseudo = false } ∷ [];
  infos = [];
  notes = [];
  lsp = no_lsp;
  node_state = 0;
  events = [];
}

abbrev waiting : SendState one_shot parse_one bitcoin
waiting = record {
  payments =
      record { payment = record made { id = 8 ∷ []; status = pending }; is_pseudo = true } ∷ [];
  infos = [];
  notes = [];
  lsp = no_lsp;
  node_state = 0;
  events = [];
}

do_sync-rows_example :
    find_row payment_key (8 ∷ []) (do_sync one_shot parse_one bitcoin waiting).1.payments
    ≡ row_or
        (listed (8 ∷ []) (made ∷ []))
        (real_row (find_row payment_key (8 ∷ []) waiting.payments))
unfolding do_sync find_row
do_sync-rows_example =
    do_sync-rows one_shot parse_one bitcoin waiting (4 ∷ []) (made ∷ []) (8 ∷ []) (refl, tt) refl
      refl refl

pseudo_gone :
    find_row payment_key (8 ∷ []) (do_sync one_shot parse_one bitcoin waiting).1.payments ≡ none
unfolding do_sync find_row eq_text
pseudo_gone = refl

send_payment-once_example :
    ((send_payment one_shot parse_one bitcoin 200 request paid).1 ≡ paid)
    × ((send_payment one_shot parse_one bitcoin 200 request paid).0 ≢ ok made)
unfolding get_completed_payment_by_hash eq_text
send_payment-once_example =
    send_payment-once one_shot parse_one bitcoin 200 request paid invoice made made refl refl

told_paid : (send_payment one_shot parse_one bitcoin 200 request paid).0 ≡ err already_paid
unfolding send_payment eq_text
told_paid = refl

told_expired : (send_payment one_shot parse_one bitcoin 3701 request fresh).0 ≡ err invoice_expired
unfolding send_payment
told_expired = refl

send_payment-lost_example :
    ((send_payment one_shot parse_one bitcoin 200 request fresh).0 ≡ err sync_failed)
    × ((get_completed_payment_by_hash
            (7 ∷ [])
            (send_payment one_shot parse_one bitcoin 200 request fresh).1.payments
            (send_payment one_shot parse_one bitcoin 200 request fresh).1.infos
            (send_payment one_shot parse_one bitcoin 200 request fresh).1.notes
          ≡ none)
        × ((send_payment one_shot parse_one bitcoin 200 request fresh).1.events ≡ fresh.events))
unfolding checked_invoice get_completed_payment_by_hash
send_payment-lost_example =
    send_payment-lost one_shot parse_one bitcoin 200 request fresh invoice 3000 made (1 ∷ []) refl
      refl refl refl

abbrev idle : SendState steady parse_one bitcoin
idle = record { payments = []; infos = []; notes = []; lsp = no_lsp; node_state = 0; events = [] }

send_payment-Payable_example :
    (inv : LnInvoice) × (amount : ℕ) × Payable steady parse_one bitcoin 200 request inv amount
    × (get_completed_payment_by_hash inv.payment_hash idle.payments idle.infos idle.notes ≡ none)
    × ((steady.send_payment inv.bolt11 request.request_amount idle.node_state).0 ≡ ok made)
unfolding send_payment
send_payment-Payable_example =
    send_payment-Payable steady parse_one bitcoin 200 request idle made refl

-- What is stored of it: the pseudo payment has given way to the one of the node.
stored_after :
    (send_payment steady parse_one bitcoin 200 request idle).1.payments
    ≡ record { payment = made; is_pseudo = false } ∷ []
unfolding send_payment
stored_after = refl
