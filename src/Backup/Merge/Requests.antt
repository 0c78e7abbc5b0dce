-- ===== src/Backup/Merge/Requests.antt =====
-- The requests that the triggers of `libs/sdk-core/src/persist/migrations.rs` file: their ids come from a
-- sequence, and an import keeps those that are there.
use mathlib.Core.Path.{subst}
use breez_sdk.Prelude.{
  true, Result-cases, ◌≡◌, refl, ap, ℕ, zero, suc, ◌≤◌, ◌<◌, List, [], ◌∷◌, arith, length, inl, inr,
  Bool-cases, Option-cases, ok, Member, leb, filterb-Member, not,
}
use breez_sdk.Backup.Rows.{missing_rows, insert_rows, newer_rows, replace_rows}
use breez_sdk.Backup.Tables.{
  SyncTable, SyncDb, SyncRequest, swap_key, info_key, metadata_key, reverse_swap_key, fees_key,
  swap_clash, no_clash, reverse_swap_clash, swaps_table, swap_refunds_table, external_info_table,
  metadata_table, reverse_swaps_table, swaps_fees_table,
}
use breez_sdk.Backup.Database.{
  LocalDb, import_remote_changes, request_each, fire_triggers, has_trigger, ignore_refunds,
  import_swaps, import_refunds, import_external_info, import_metadata, import_reverse_swaps,
  sync_swaps_fees_local, newer_metadata, newer_fees, import_sync, max_id, get_last_sync_request,
  delete_sync_requests_up_to,
}
use breez_sdk.Backup.Merge.Imported.{import_sync-Steps}
use breez_sdk.Backup.Worker.{id_or_default}

-- No request has an id that the sequence has yet to give.
abbrev pub BoundedIds : SyncDb → Type 0
BoundedIds db = (r : SyncRequest) → Member r db.sync_requests → r.request_id ≤ db.sequence

-- The requests of `l` are still there, and ids stay bounded.
pub record Grows (l l' : SyncDb) : Type 0 where
  pub kept : (r : SyncRequest) → Member r l.sync_requests → Member r l'.sync_requests
  pub bounded : BoundedIds l → BoundedIds l'

Grows-refl : (l : SyncDb) → Grows l l
Grows-refl l = record { kept = λ r m. m; bounded = λ h. h }

Grows-trans : (k l m : SyncDb) → Grows k l → Grows l m → Grows k m
Grows-trans k l m g h = record {
  kept = λ r at. h.kept r (g.kept r at);
  bounded = λ b. h.bounded (g.bounded b);
}

abbrev with_request : SyncTable → SyncDb → SyncDb
with_request t db = record db {
  sync_requests = record { request_id = suc db.sequence; changed_table = t } ∷ db.sync_requests;
  sequence = suc db.sequence;
}

with_request-Grows : (t : SyncTable) (db : SyncDb) → Grows db (with_request t db)
with_request-Grows t db = record {
  kept = λ r m. inr m;
  bounded = λ h r m. elim m [
    | inl e ↦ ground (arith, ap (λ (q : SyncRequest). q.request_id) e)
    | inr old ↦ ground (arith, h r old)
  ];
}

request_each-Grows : (n : ℕ) (t : SyncTable) (db : SyncDb) → Grows db (request_each n t db)
unfolding request_each
request_each-Grows zero t db = Grows-refl db
request_each-Grows (suc n) t db =
    Grows-trans db (with_request t db) (request_each n t (with_request t db))
      (with_request-Grows t db) (request_each-Grows n t (with_request t db))

fire_triggers-Grows : (n : ℕ) (t : SyncTable) (db : SyncDb) → Grows db (fire_triggers n t db)
unfolding fire_triggers
fire_triggers-Grows n t db = elim (Bool-cases (has_trigger t)) [
  | inl fires ↦ rw fires (request_each-Grows n t db)
  | inr silent ↦ rw silent (Grows-refl db)
]

-- A change of the tables, with its triggers; `new` has the requests of `db`.
changed-Grows :
    (n : ℕ) (t : SyncTable) (db new db' : SyncDb)
    → Grows db new
    → fire_triggers n t new ≡ db'
    → Grows db db'
changed-Grows n t db new db' same e =
    subst (Grows db) e
      (Grows-trans db new (fire_triggers n t new) same (fire_triggers-Grows n t new))

import_swaps-Grows : (remote db db' : SyncDb) → import_swaps remote db ≡ ok db' → Grows db db'
unfolding import_swaps
import_swaps-Grows remote db db' h =
    let rows = missing_rows swap_key remote.swaps db.swaps in
    elim (Option-cases (insert_rows swap_key swap_clash rows db.swaps)) [
      | inl fails ↦ absurd (ground (arith, h, fails))
      | inr (t, done) ↦
          let new = record db { swaps = t } in
          changed-Grows (length rows) swaps_table db new db'
            (record { kept = λ r m. m; bounded = λ b. b }) (ground (arith, h, done))
    ]

import_external_info-Grows :
    (remote db db' : SyncDb) → import_external_info remote db ≡ ok db' → Grows db db'
unfolding import_external_info
import_external_info-Grows remote db db' h =
    let rows = missing_rows info_key remote.payments_external_info db.payments_external_info in
    elim (Option-cases (insert_rows info_key no_clash rows db.payments_external_info)) [
      | inl fails ↦ absurd (ground (arith, h, fails))
      | inr (t, done) ↦
          let new = record db { payments_external_info = t } in
          changed-Grows (length rows) external_info_table db new db'
            (record { kept = λ r m. m; bounded = λ b. b }) (ground (arith, h, done))
    ]

import_reverse_swaps-Grows :
    (remote db db' : SyncDb) → import_reverse_swaps remote db ≡ ok db' → Grows db db'
unfolding import_reverse_swaps
import_reverse_swaps-Grows remote db db' h =
    let rows = missing_rows reverse_swap_key remote.reverse_swaps db.reverse_swaps in
    elim (Option-cases (insert_rows reverse_swap_key reverse_swap_clash rows db.reverse_swaps)) [
      | inl fails ↦ absurd (ground (arith, h, fails))
      | inr (t, done) ↦
          let new = record db { reverse_swaps = t } in
          changed-Grows (length rows) reverse_swaps_table db new db'
            (record { kept = λ r m. m; bounded = λ b. b }) (ground (arith, h, done))
    ]

import_refunds-Grows : (remote db : SyncDb) → Grows db (import_refunds remote db)
unfolding import_refunds
import_refunds-Grows remote db =
    let (n, t) = ignore_refunds remote.swap_refunds db.swap_refunds in
    let new = record db { swap_refunds = t } in
    changed-Grows n swap_refunds_table db new (import_refunds remote db)
      (record { kept = λ r m. m; bounded = λ b. b }) refl

import_metadata-Grows : (remote db : SyncDb) → Grows db (import_metadata remote db)
unfolding import_metadata
import_metadata-Grows remote db =
    let rows =
      newer_rows metadata_key newer_metadata remote.payments_metadata db.payments_metadata in
    let new = record db {
      payments_metadata = replace_rows metadata_key rows db.payments_metadata;
    } in
    changed-Grows (length rows) metadata_table db new (import_metadata remote db)
      (record { kept = λ r m. m; bounded = λ b. b }) refl

sync_swaps_fees_local-Grows : (remote db : SyncDb) → Grows db (sync_swaps_fees_local remote db)
unfolding sync_swaps_fees_local
sync_swaps_fees_local-Grows remote db =
    let rows = newer_rows fees_key newer_fees remote.swaps_fees db.swaps_fees in
    let new = record db { swaps_fees = replace_rows fees_key rows db.swaps_fees } in
    changed-Grows (length rows) swaps_fees_table db new (sync_swaps_fees_local remote db)
      (record { kept = λ r m. m; bounded = λ b. b }) refl

pub import_sync-Grows :
    (remote own merged : SyncDb) → import_sync remote own ≡ ok merged → Grows own merged
import_sync-Grows remote own merged h =
    let st = import_sync-Steps remote own merged h in
    let refunded = import_refunds remote st.db1 in
    let with_metadata = import_metadata remote st.db2 in
    let g1 = import_swaps-Grows remote own st.db1 st.step1 in
    let g2 = Grows-trans own st.db1 refunded g1 (import_refunds-Grows remote st.db1) in
    let g3 =
      Grows-trans own refunded st.db2 g2
        (import_external_info-Grows remote refunded st.db2 st.step2) in
    let g4 = Grows-trans own st.db2 with_metadata g3 (import_metadata-Grows remote st.db2) in
    let g5 =
      Grows-trans own with_metadata st.db3 g4
        (import_reverse_swaps-Grows remote with_metadata st.db3 st.step3) in
    subst (Grows own) st.last_step (
      Grows-trans own st.db3 (sync_swaps_fees_local remote st.db3) g5
        (sync_swaps_fees_local-Grows remote st.db3))

pub import_remote_changes-Grows :
    (remote : SyncDb) (own local : LocalDb)
    → import_remote_changes remote true own ≡ ok local
    → Grows own.sync_db local.sync_db
unfolding import_remote_changes
import_remote_changes-Grows remote own local h =
    elim (Result-cases (import_sync remote own.sync_db)) [
      | inr (e, fails) ↦ absurd (ground (arith, h, fails))
      | inl (merged, done) ↦
          let same : merged ≡ local.sync_db = ground (arith, h, done) in
          subst (Grows own.sync_db) same (import_sync-Grows remote own.sync_db merged done)
    ]

max_id-bound :
    (n : ℕ) (rs : List SyncRequest)
    → ((r : SyncRequest) → Member r rs → r.request_id ≤ n)
    → id_or_default (max_id rs) ≤ n
max_id-bound n [] h = ground arith
max_id-bound n (r ∷ rs) h =
    let rest = max_id-bound n rs (λ q m. h q (inr m)) in
    let first = h r (inl refl) in
    elim (Option-cases (max_id rs)) [
      | inl empty ↦ rw empty first
      | inr (m, found) ↦
          let below : m ≤ n = ground (arith, rest, found) in rw found (ground (arith, first, below))
    ]

pub get_last_sync_request-bound :
    (db : SyncDb) → BoundedIds db → id_or_default (get_last_sync_request db) ≤ db.sequence
unfolding get_last_sync_request
get_last_sync_request-bound db h = max_id-bound db.sequence db.sync_requests h

-- A request that is newer than the ones to delete stays.
pub delete_sync_requests_up_to-Member :
    (n : ℕ) (db : SyncDb) (r : SyncRequest)
    → Member r db.sync_requests
    → n < r.request_id
    → Member r (delete_sync_requests_up_to n db).sync_requests
unfolding delete_sync_requests_up_to
delete_sync_requests_up_to-Member n db r m h =
    filterb-Member (λ (q : SyncRequest). not (leb q.request_id n)) r db.sync_requests m
      (ground (arith, h))
