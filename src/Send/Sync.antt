-- ===== src/Send/Sync.antt =====
-- What `do_sync` of `libs/sdk-core/src/breez_services.rs` leaves in the table of payments.
use breez_sdk.Prelude.{
  ◌≡◌, refl, ap, ◌∙◌, false, Option, none, some, List, [], ◌∷◌, Text, ok, arith, inl, inr,
  Option-cases, eq_text, Bool-cases, Result-cases, if◌then◌else◌,
}
use breez_sdk.Backup.Rows.{find_row, delete_by_key, Keyed}
use breez_sdk.Backup.Rows.Found.{find_row-delete_by_key, find_row-same}
use breez_sdk.Payments.{
  Payment, PaymentRow, payment_key, insert_or_update_payments, delete_pseudo_payments,
}
use breez_sdk.Lsp.{Node, connect_lsp_peer}
use breez_sdk.Send.{LnInvoice, Network, SendState, do_sync}

-- The last payment with an id, in the order of the list.
abbrev pub listed : Text → List Payment → Option Payment
listed k [] = none
listed k (p ∷ ps) = elim (listed k ps) [
  | some q ↦ some q
  | none ↦ if eq_text p.id k then some p else none
]

abbrev pub row_or : Option Payment → Option PaymentRow → Option PaymentRow
row_or none r = r
row_or (some p) r = some (record { payment = p; is_pseudo = false })

find_row-insert_or_update :
    (k : Text) (ps : List Payment) (t : List PaymentRow)
    → find_row payment_key k (insert_or_update_payments ps false t)
      ≡ row_or (listed k ps) (find_row payment_key k t)
unfolding insert_or_update_payments find_row
find_row-insert_or_update k [] t = refl
find_row-insert_or_update k (p ∷ ps) t =
    let row : PaymentRow = record { payment = p; is_pseudo = false } in
    let rest = find_row-insert_or_update k ps (row ∷ delete_by_key payment_key p.id t) in
    let gone = find_row-delete_by_key payment_key p.id k t in
    elim (Option-cases (listed k ps)) [
      | inr (q, later) ↦ rest ∙ rw later refl
      | inl none_later ↦ elim (Bool-cases (eq_text p.id k)) [
        | inl same ↦ rest ∙ rw (none_later, same) refl
        | inr other ↦ rest ∙ rw (none_later, other) (gone ∙ rw other refl)
      ]
    ]

-- Pseudo payments are gone, the others stay.
abbrev pub real_row : Option PaymentRow → Option PaymentRow
real_row none = none
real_row (some r) = if r.is_pseudo then none else some r

pub find_row-delete_pseudo :
    (k : Text) (t : List PaymentRow)
    → Keyed payment_key t
    → find_row payment_key k (delete_pseudo_payments t) ≡ real_row (find_row payment_key k t)
unfolding delete_pseudo_payments find_row
find_row-delete_pseudo k [] keyed = refl
find_row-delete_pseudo k (r ∷ t) keyed =
    let rest = find_row-delete_pseudo k t keyed.1 in
    elim (Bool-cases (eq_text r.payment.id k)) [
      | inl same ↦
          let gone : find_row payment_key k t ≡ none =
            find_row-same payment_key r.payment.id k t same ∙ keyed.0 in
          ground (arith, rest, same, gone)
      | inr other ↦ ground (arith, rest, other)
    ]

module _ (node : Node) (parse_invoice : Text → Option LnInvoice) (own_network : Network) where
  -- A synchronisation that succeeds leaves under each id the payment that the node has listed last, else
  -- the row from before, if it was not a pseudo payment.
  pub do_sync-rows :
      (st : SendState node parse_invoice own_network) (pubkey : Text) (ps : List Payment) (k : Text)
      → Keyed payment_key st.payments
      → (do_sync node parse_invoice own_network st).0 ≡ ok tt
      → node.node_id st.node_state ≡ ok pubkey
      → (node.list_payments (connect_lsp_peer node pubkey st.lsp st.node_state).2).0 ≡ ok ps
      → find_row payment_key k (do_sync node parse_invoice own_network st).1.payments
        ≡ row_or (listed k ps) (real_row (find_row payment_key k st.payments))
  unfolding do_sync
  do_sync-rows st pubkey ps k keyed h known got =
      elim (Result-cases (connect_lsp_peer node pubkey st.lsp st.node_state).0) [
        | inr (e, fails) ↦ absurd (ground (arith, h, known, fails))
        | inl (done, connected) ↦
            rw (known, connected, got, do_sync)
              (find_row-insert_or_update k ps (delete_pseudo_payments st.payments)
                ∙ ap (row_or (listed k ps)) (find_row-delete_pseudo k st.payments keyed))
      ]
