-- ===== src/Backup/Database.antt =====
-- The database of the SDK as far as a backup goes: the triggers on the tables of the schema `sync`, as
-- `current_sync_migrations` of `libs/sdk-core/src/persist/migrations.rs` leaves them, and the operations of `libs/sdk-core/src/persist/sync.rs`. Failures of the database are left out, but
-- for its constraints; times are in seconds, which the text of `CURRENT_TIMESTAMP` orders as well.
use breez_sdk.Backup.Tables.{
  PaymentMetadata, SwapFees, SwapRefund, SyncDb, SyncRequest, SyncReverseSwap, SyncSwap, SyncTable,
  external_info_table, fees_key, info_key, metadata_key, metadata_table, no_clash,
  reverse_swap_clash, reverse_swap_key, reverse_swaps_table, same_refund, swap_clash, swap_key,
  swap_refunds_table, swaps_fees_table, swaps_table,
}
use breez_sdk.Prelude.{
  ℕ, zero, suc, max, Bool, true, false, not, Option, none, some, List, [], ◌∷◌, if◌then◌else◌,
  eq_text, Text, any, filterb, length, ltb, leb, codes, Result, ok, ◌>>=◌, ok_or,
}
use breez_sdk.Backup.Rows.{missing_rows, insert_rows, newer_rows, replace_rows}

-- Whether an insertion into a table fires a trigger that asks for a backup. The trigger of
-- `reverse_swaps` went away with the table that the last migration of it dropped; `swaps_fees` never
-- had one.
unfoldable pub has_trigger : SyncTable → Bool
has_trigger reverse_swaps_table = false
has_trigger swaps_fees_table = false
has_trigger _ = true

-- The triggers of `n` insertions.
unfoldable pub request_each : ℕ → SyncTable → SyncDb → SyncDb
request_each zero t db = db
request_each (suc n) t db = request_each n t (record db {
  sync_requests = record { request_id = suc db.sequence; changed_table = t } ∷ db.sync_requests;
  sequence = suc db.sequence;
})

unfoldable pub fire_triggers : ℕ → SyncTable → SyncDb → SyncDb
unfolding has_trigger request_each
fire_triggers n t db = if has_trigger t then request_each n t db else db

abbrev pub max_id : List SyncRequest → Option ℕ
max_id [] = none
max_id (r ∷ rs) = elim (max_id rs) [ none ↦ some r.request_id | some n ↦ some (max r.request_id n) ]

unfoldable pub get_last_sync_request : SyncDb → Option ℕ
get_last_sync_request db = max_id db.sync_requests

unfoldable pub delete_sync_requests_up_to : ℕ → SyncDb → SyncDb
delete_sync_requests_up_to n db = record db {
  sync_requests = filterb (λ r. not (leb r.request_id n)) db.sync_requests;
}

-- `INSERT OR IGNORE`, with the number of rows that it inserts.
unfoldable pub ignore_refunds : List SwapRefund → List SwapRefund → ℕ × List SwapRefund
ignore_refunds [] t = (0, t)
ignore_refunds (r ∷ rows) t =
    let (n, rest) = ignore_refunds rows t in
    if any (same_refund r) rest then (n, rest) else (suc n, r ∷ rest)

-- `remote.updated_at > local.updated_at`, which is not true where the join found no local row.
abbrev pub newer_metadata : PaymentMetadata → Option PaymentMetadata → Bool
newer_metadata r none = false
newer_metadata r (some l) = ltb l.updated_at r.updated_at

-- `local.created_at IS NULL OR remote.created_at > local.created_at`
abbrev pub newer_fees : SwapFees → Option SwapFees → Bool
newer_fees r none = true
newer_fees r (some l) = ltb l.created_at r.created_at

pub data BackupError : Type 0 where
  persist_failed transport_failed encrypt_failed decrypt_failed : BackupError

unfoldable pub import_swaps : SyncDb → SyncDb → Result BackupError SyncDb
unfolding missing_rows insert_rows fire_triggers
import_swaps remote db =
    let rows = missing_rows swap_key remote.swaps db.swaps in
    ok_or (insert_rows swap_key swap_clash rows db.swaps) persist_failed >>= λ t.
    ok (fire_triggers (length rows) swaps_table (record db { swaps = t }))

unfoldable pub import_refunds : SyncDb → SyncDb → SyncDb
unfolding ignore_refunds fire_triggers
import_refunds remote db =
    let (n, t) = ignore_refunds remote.swap_refunds db.swap_refunds in
    fire_triggers n swap_refunds_table (record db { swap_refunds = t })

unfoldable pub import_external_info : SyncDb → SyncDb → Result BackupError SyncDb
unfolding missing_rows insert_rows fire_triggers
import_external_info remote db =
    let rows = missing_rows info_key remote.payments_external_info db.payments_external_info in
    ok_or (insert_rows info_key no_clash rows db.payments_external_info) persist_failed >>= λ t.
    ok (fire_triggers (length rows) external_info_table (record db { payments_external_info = t }))

unfoldable pub import_metadata : SyncDb → SyncDb → SyncDb
unfolding newer_rows replace_rows fire_triggers
import_metadata remote db =
    let rows =
      newer_rows metadata_key newer_metadata remote.payments_metadata db.payments_metadata in
    fire_triggers (length rows) metadata_table
      (record db { payments_metadata = replace_rows metadata_key rows db.payments_metadata })

unfoldable pub import_reverse_swaps : SyncDb → SyncDb → Result BackupError SyncDb
unfolding missing_rows insert_rows fire_triggers
import_reverse_swaps remote db =
    let rows = missing_rows reverse_swap_key remote.reverse_swaps db.reverse_swaps in
    ok_or (insert_rows reverse_swap_key reverse_swap_clash rows db.reverse_swaps) persist_failed
    >>= λ t. ok (fire_triggers (length rows) reverse_swaps_table (record db { reverse_swaps = t }))

unfoldable pub sync_swaps_fees_local : SyncDb → SyncDb → SyncDb
unfolding newer_rows replace_rows fire_triggers
sync_swaps_fees_local remote db =
    let rows = newer_rows fees_key newer_fees remote.swaps_fees db.swaps_fees in
    fire_triggers (length rows) swaps_fees_table
      (record db { swaps_fees = replace_rows fees_key rows db.swaps_fees })

-- The statements of one transaction on the schema `sync`.
unfoldable pub import_sync : SyncDb → SyncDb → Result BackupError SyncDb
unfolding import_swaps import_refunds import_external_info import_metadata import_reverse_swaps
    sync_swaps_fees_local
import_sync remote db = import_swaps remote db >>= λ db1.
    import_external_info remote (import_refunds remote db1) >>= λ db2.
    import_reverse_swaps remote (import_metadata remote db2) >>= λ db3.
    ok (sync_swaps_fees_local remote db3)

-- What a device keeps for itself of a swap and a reverse swap, by their keys: the ids of the
-- transactions and the status, as texts.
pub record LocalDb : Type 0 where
  pub swaps_info : List (Text × Text × Text)
  pub reverse_swaps_info : List (Text × Text)
  pub sync_db : SyncDb

unfoldable pub ignore_swaps_info :
    List SyncSwap → List (Text × Text × Text) → List (Text × Text × Text)
ignore_swaps_info [] t = t
ignore_swaps_info (r ∷ rows) t =
    let rest = ignore_swaps_info rows t in
    if any (λ (i : Text × Text × Text). eq_text i.0 r.bitcoin_address) rest
    then rest
    else (r.bitcoin_address, codes "[]", codes "[]") ∷ rest

unfoldable pub ignore_reverse_swaps_info :
    List SyncReverseSwap → List (Text × Text) → List (Text × Text)
ignore_reverse_swaps_info [] t = t
ignore_reverse_swaps_info (r ∷ rows) t =
    let rest = ignore_reverse_swaps_info rows t in
    if any (λ (i : Text × Text). eq_text i.0 r.id) rest
    then rest
    else (r.id, codes "\"Initial\"") ∷ rest

-- The transaction is rolled back where a statement fails. The migration of the remote schema, whose
-- failure is skipped, is left out.
unfoldable pub import_remote_changes : SyncDb → Bool → LocalDb → Result BackupError LocalDb
unfolding import_sync ignore_swaps_info ignore_reverse_swaps_info
import_remote_changes remote to_local db = import_sync remote db.sync_db >>= λ sync. ok (
    if to_local
    then record {
      swaps_info = ignore_swaps_info remote.swaps db.swaps_info;
      reverse_swaps_info = ignore_reverse_swaps_info remote.reverse_swaps db.reverse_swaps_info;
      sync_db = sync;
    }
    else record db { sync_db = sync })
