-- ===== src/Backup/Merge/Steps.antt =====
-- The statements of `import_remote_changes` of `libs/sdk-core/src/persist/sync.rs`, one at a time: each
-- changes one table, and the triggers change none.
use breez_sdk.Prelude.{
  ◌≡◌, refl, sym, ap, ◌∙◌, ℕ, zero, suc, true, ◌||◌, some, List, [], ◌∷◌, arith, eq_text_iff, any,
  length, inl, inr, Bool-cases, Option-cases, ok,
}
use breez_sdk.Backup.Rows.{missing_rows, insert_rows, newer_rows, replace_rows}
use breez_sdk.Backup.Tables.{
  SyncSwap, SwapRefund, ExternalInfo, PaymentMetadata, SyncReverseSwap, SwapFees, SyncTable, SyncDb,
  swap_clash, reverse_swap_clash, no_clash, same_refund, swap_key, info_key, metadata_key,
  reverse_swap_key, fees_key, swaps_table, swap_refunds_table, external_info_table, metadata_table,
  reverse_swaps_table, swaps_fees_table,
}
use breez_sdk.Backup.Database.{
  request_each, fire_triggers, has_trigger, ignore_refunds, newer_metadata, newer_fees,
  import_swaps, import_refunds, import_external_info, import_metadata, import_reverse_swaps,
  sync_swaps_fees_local,
}

-- The tables that devices share, without the requests.
pub record Tables : Type 0 where
  pub swaps : List SyncSwap
  pub swap_refunds : List SwapRefund
  pub payments_external_info : List ExternalInfo
  pub payments_metadata : List PaymentMetadata
  pub reverse_swaps : List SyncReverseSwap
  pub swaps_fees : List SwapFees

abbrev pub tables : SyncDb → Tables
tables db = record {
  swaps = db.swaps;
  swap_refunds = db.swap_refunds;
  payments_external_info = db.payments_external_info;
  payments_metadata = db.payments_metadata;
  reverse_swaps = db.reverse_swaps;
  swaps_fees = db.swaps_fees;
}

tables-request_each :
    (n : ℕ) (t : SyncTable) (db : SyncDb) → tables (request_each n t db) ≡ tables db
unfolding request_each
tables-request_each zero t db = refl
tables-request_each (suc n) t db = tables-request_each n t (record db {
  sync_requests = record { request_id = suc db.sequence; changed_table = t } ∷ db.sync_requests;
  sequence = suc db.sequence;
})

pub tables-fire_triggers :
    (n : ℕ) (t : SyncTable) (db : SyncDb) → tables (fire_triggers n t db) ≡ tables db
unfolding fire_triggers
tables-fire_triggers n t db = elim (Bool-cases (has_trigger t)) [
  | inl fires ↦ rw fires (tables-request_each n t db)
  | inr silent ↦ rw silent refl
]

module _ (remote db : SyncDb) where
  pub import_swaps-tables :
      (db' : SyncDb)
      → import_swaps remote db ≡ ok db'
      → (t : List SyncSwap) × ((insert_rows swap_key swap_clash
              (missing_rows swap_key remote.swaps db.swaps)
              db.swaps
            ≡ some t)
          × (tables db' ≡ record (tables db) { swaps = t }))
  unfolding import_swaps
  import_swaps-tables db' h =
      let rows = missing_rows swap_key remote.swaps db.swaps in
      elim (Option-cases (insert_rows swap_key swap_clash rows db.swaps)) [
        | inl fails ↦ absurd (ground (arith, h, fails))
        | inr (t, done) ↦
            let e : fire_triggers (length rows) swaps_table (record db { swaps = t }) ≡ db' =
              ground (arith, h, done) in
            (
              t,
              (
                done,
                ap tables (sym e)
                    ∙ tables-fire_triggers (length rows) swaps_table (record db { swaps = t }),
              ),
            )
      ]

  pub import_external_info-tables :
      (db' : SyncDb)
      → import_external_info remote db ≡ ok db'
      → (t : List ExternalInfo) × ((insert_rows info_key no_clash
              (missing_rows info_key remote.payments_external_info db.payments_external_info)
              db.payments_external_info
            ≡ some t)
          × (tables db' ≡ record (tables db) { payments_external_info = t }))
  unfolding import_external_info
  import_external_info-tables db' h =
      let rows = missing_rows info_key remote.payments_external_info db.payments_external_info in
      elim (Option-cases (insert_rows info_key no_clash rows db.payments_external_info)) [
        | inl fails ↦ absurd (ground (arith, h, fails))
        | inr (t, done) ↦
            let new = record db { payments_external_info = t } in
            let e : fire_triggers (length rows) external_info_table new ≡ db' =
              ground (arith, h, done) in
            (
              t,
              (
                done,
                ap tables (sym e) ∙ tables-fire_triggers (length rows) external_info_table new,
              ),
            )
      ]

  pub import_reverse_swaps-tables :
      (db' : SyncDb)
      → import_reverse_swaps remote db ≡ ok db'
      → (t : List SyncReverseSwap) × ((insert_rows reverse_swap_key reverse_swap_clash
              (missing_rows reverse_swap_key remote.reverse_swaps db.reverse_swaps)
              db.reverse_swaps
            ≡ some t)
          × (tables db' ≡ record (tables db) { reverse_swaps = t }))
  unfolding import_reverse_swaps
  import_reverse_swaps-tables db' h =
      let rows = missing_rows reverse_swap_key remote.reverse_swaps db.reverse_swaps in
      elim (Option-cases (insert_rows reverse_swap_key reverse_swap_clash rows db.reverse_swaps)) [
        | inl fails ↦ absurd (ground (arith, h, fails))
        | inr (t, done) ↦
            let new = record db { reverse_swaps = t } in
            let e : fire_triggers (length rows) reverse_swaps_table new ≡ db' =
              ground (arith, h, done) in
            (
              t,
              (
                done,
                ap tables (sym e) ∙ tables-fire_triggers (length rows) reverse_swaps_table new,
              ),
            )
      ]

  pub import_refunds-tables :
      tables (import_refunds remote db)
      ≡ record (tables db) { swap_refunds = (ignore_refunds remote.swap_refunds db.swap_refunds).1 }
  unfolding import_refunds
  import_refunds-tables =
      let (n, t) = ignore_refunds remote.swap_refunds db.swap_refunds in
      tables-fire_triggers n swap_refunds_table (record db { swap_refunds = t })

  pub import_metadata-tables : tables (import_metadata remote db) ≡ record (tables db) {
    payments_metadata =
        replace_rows metadata_key
          (newer_rows metadata_key newer_metadata remote.payments_metadata db.payments_metadata)
          db.payments_metadata;
  }
  unfolding import_metadata
  import_metadata-tables =
      let rows =
        newer_rows metadata_key newer_metadata remote.payments_metadata db.payments_metadata in
      tables-fire_triggers (length rows) metadata_table
        (record db { payments_metadata = replace_rows metadata_key rows db.payments_metadata })

  pub sync_swaps_fees_local-tables : tables (sync_swaps_fees_local remote db) ≡ record (tables db) {
    swaps_fees =
        replace_rows fees_key
          (newer_rows fees_key newer_fees remote.swaps_fees db.swaps_fees)
          db.swaps_fees;
  }
  unfolding sync_swaps_fees_local
  sync_swaps_fees_local-tables =
      let rows = newer_rows fees_key newer_fees remote.swaps_fees db.swaps_fees in
      tables-fire_triggers (length rows) swaps_fees_table
        (record db { swaps_fees = replace_rows fees_key rows db.swaps_fees })

same_refund_trans :
    (a b c : SwapRefund) → same_refund a b ≡ true → same_refund c b ≡ same_refund c a
same_refund_trans a b c h =
    let first = (eq_text_iff a.bitcoin_address b.bitcoin_address).0 (ground (arith, h)) in
    let second = (eq_text_iff a.refund_tx_id b.refund_tx_id).0 (ground (arith, h)) in
    rw (first, second) refl

any-same_refund :
    (a c : SwapRefund) (t : List SwapRefund)
    → any (same_refund a) t ≡ true
    → same_refund c a ≡ true
    → any (same_refund c) t ≡ true
any-same_refund a c [] h same = absurd (ground (arith, h))
any-same_refund a c (b ∷ t) h same = elim (Bool-cases (same_refund a b)) [
  | inl here ↦ ground (arith, same, same_refund_trans a b c here)
  | inr other ↦ ground (arith, any-same_refund a c t (ground (arith, h, other)) same)
]

-- `INSERT OR IGNORE` leaves the union.
pub any-ignore_refunds :
    (c : SwapRefund) (rows t : List SwapRefund)
    → any (same_refund c) (ignore_refunds rows t).1
      ≡ any (same_refund c) rows || any (same_refund c) t
unfolding ignore_refunds
any-ignore_refunds c [] t = refl
any-ignore_refunds c (r ∷ rows) t =
    let rest = any-ignore_refunds c rows t in
    elim (Bool-cases (any (same_refund r) (ignore_refunds rows t).1)) [
      | inr new ↦ rw new (ground (arith, rest))
      | inl known ↦ rw known (elim (Bool-cases (same_refund c r)) [
        | inl same ↦
            let there = any-same_refund r c (ignore_refunds rows t).1 known same in rw same there
        | inr other ↦ rw other rest
      ])
    ]
