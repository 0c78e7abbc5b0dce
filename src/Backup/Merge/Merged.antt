-- ===== src/Backup/Merge/Merged.antt =====
-- What `import_remote_changes` of `libs/sdk-core/src/persist/sync.rs` promises: under each key, the row
-- that it leaves in each table.
use mathlib.Core.Path.{subst}
use breez_sdk.Prelude.{
  List, ◌≡◌, sym, ap, Bool, true, ◌||◌, Option, none, some, arith, Text, any, if◌then◌else◌, ok,
  is_some,
}
use breez_sdk.Backup.Rows.{find_row, Keyed, newer_rows, missing_rows, insert_rows, replace_rows}
use breez_sdk.Backup.Rows.Found.{
  or_from, find_row-insert_rows, find_row-missing_rows, find_row-newer_rows, find_row-replace_rows,
  insert_rows-Keyed, replace_rows-Keyed,
}
use breez_sdk.Backup.Tables.{
  SwapRefund, SyncDb, swap_clash, reverse_swap_clash, no_clash, same_refund, swap_key, info_key,
  metadata_key, reverse_swap_key, fees_key,
}
use breez_sdk.Backup.Database.{newer_metadata, newer_fees, import_sync}
use breez_sdk.Backup.Merge.Imported.{import_sync-Imported}
use breez_sdk.Backup.Merge.Steps.{Tables, tables, any-ignore_refunds}

-- The rows whose insertion asks for a backup, but for the metadata of payments.
pub data RowName : Type 0 where
  swap_row : Text → RowName
  refund_row : SwapRefund → RowName
  info_row : Text → RowName

unfoldable pub has_row : RowName → SyncDb → Bool
has_row (swap_row a) db = is_some (find_row swap_key a db.swaps)
has_row (refund_row r) db = any (same_refund r) db.swap_refunds
has_row (info_row a) db = is_some (find_row info_key a db.payments_external_info)

-- The primary keys of the tables.
pub record KeyedTables (t : Tables) : Type 0 where
  pub keyed_swaps : Keyed swap_key t.swaps
  pub keyed_info : Keyed info_key t.payments_external_info
  pub keyed_metadata : Keyed metadata_key t.payments_metadata
  pub keyed_reverse_swaps : Keyed reverse_swap_key t.reverse_swaps
  pub keyed_fees : Keyed fees_key t.swaps_fees

-- The newer of two rows; the own one where they are equally old.
abbrev pub newer_of : {R : Type 0} → (R → Option R → Bool) → Option R → Option R → Option R
newer_of newer none own = own
newer_of newer (some r) own = if newer r own then some r else own

-- An own row stays, a row that only the other side has is added; the newer fees and, of payments that
-- both sides have metadata of, the newer metadata win.
pub record Merged (remote own merged : Tables) : Type 0 where
  pub merged_swaps :
      (a : Text)
      → find_row swap_key a merged.swaps
        ≡ or_from (find_row swap_key a own.swaps) (find_row swap_key a remote.swaps)
  pub merged_refunds :
      (r : SwapRefund)
      → any (same_refund r) merged.swap_refunds
        ≡ any (same_refund r) remote.swap_refunds || any (same_refund r) own.swap_refunds
  pub merged_info :
      (a : Text)
      → find_row info_key a merged.payments_external_info
        ≡ or_from
            (find_row info_key a own.payments_external_info)
            (find_row info_key a remote.payments_external_info)
  pub merged_metadata :
      (a : Text)
      → find_row metadata_key a merged.payments_metadata
        ≡ newer_of newer_metadata
            (find_row metadata_key a remote.payments_metadata)
            (find_row metadata_key a own.payments_metadata)
  pub merged_reverse_swaps :
      (a : Text)
      → find_row reverse_swap_key a merged.reverse_swaps
        ≡ or_from
            (find_row reverse_swap_key a own.reverse_swaps)
            (find_row reverse_swap_key a remote.reverse_swaps)
  pub merged_fees :
      (a : Text)
      → find_row fees_key a merged.swaps_fees
        ≡ newer_of newer_fees
            (find_row fees_key a remote.swaps_fees)
            (find_row fees_key a own.swaps_fees)

module _ {R : Type 0} (key : R → Text) where
  missing-inserted :
      (clash : R → R → Bool) (a : Text) (remote own t : List R)
      → insert_rows key clash (missing_rows key remote own) own ≡ some t
      → find_row key a t ≡ or_from (find_row key a own) (find_row key a remote)
  missing-inserted clash a remote own t h = ground (
    arith,
    find_row-insert_rows key clash a (missing_rows key remote own) own t h,
    find_row-missing_rows key a remote own,
  )

  newer-replaced :
      (newer : R → Option R → Bool) (a : Text) (remote own : List R)
      → Keyed key remote
      → find_row key a (replace_rows key (newer_rows key newer remote own) own)
        ≡ newer_of newer (find_row key a remote) (find_row key a own)
  newer-replaced newer a remote own keyed = ground (
    arith,
    find_row-replace_rows key a (newer_rows key newer remote own) own,
    find_row-newer_rows key newer a remote own keyed,
  )

pub import_sync-Merged :
    (remote own merged : SyncDb)
    → KeyedTables (tables remote)
    → import_sync remote own ≡ ok merged
    → Merged (tables remote) (tables own) (tables merged)
import_sync-Merged remote own merged keyed h =
    let done = import_sync-Imported remote own merged h in
    subst (Merged (tables remote) (tables own)) (sym done.final_tables) (record {
      merged_swaps = λ a.
          missing-inserted swap_key swap_clash a remote.swaps own.swaps done.s done.inserted_swaps;
      merged_refunds = λ r. any-ignore_refunds r remote.swap_refunds own.swap_refunds;
      merged_info = λ a.
          missing-inserted info_key no_clash a remote.payments_external_info
            own.payments_external_info done.i done.inserted_info;
      merged_metadata = λ a.
          newer-replaced metadata_key newer_metadata a remote.payments_metadata
            own.payments_metadata keyed.keyed_metadata;
      merged_reverse_swaps = λ a.
          missing-inserted reverse_swap_key reverse_swap_clash a remote.reverse_swaps
            own.reverse_swaps done.v done.inserted_reverse_swaps;
      merged_fees = λ a.
          newer-replaced fees_key newer_fees a remote.swaps_fees own.swaps_fees keyed.keyed_fees;
    })

pub import_sync-Keyed :
    (remote own merged : SyncDb)
    → KeyedTables (tables own)
    → import_sync remote own ≡ ok merged
    → KeyedTables (tables merged)
import_sync-Keyed remote own merged keyed h =
    let done = import_sync-Imported remote own merged h in
    subst KeyedTables (sym done.final_tables) (record {
      keyed_swaps =
          insert_rows-Keyed swap_key swap_clash (missing_rows swap_key remote.swaps own.swaps)
            own.swaps done.s done.inserted_swaps keyed.keyed_swaps;
      keyed_info =
          insert_rows-Keyed info_key no_clash
            (missing_rows info_key remote.payments_external_info own.payments_external_info)
            own.payments_external_info done.i done.inserted_info keyed.keyed_info;
      keyed_metadata =
          replace_rows-Keyed metadata_key
            (newer_rows metadata_key newer_metadata remote.payments_metadata own.payments_metadata)
            own.payments_metadata keyed.keyed_metadata;
      keyed_reverse_swaps =
          insert_rows-Keyed reverse_swap_key reverse_swap_clash
            (missing_rows reverse_swap_key remote.reverse_swaps own.reverse_swaps) own.reverse_swaps
            done.v done.inserted_reverse_swaps keyed.keyed_reverse_swaps;
      keyed_fees =
          replace_rows-Keyed fees_key
            (newer_rows fees_key newer_fees remote.swaps_fees own.swaps_fees) own.swaps_fees
            keyed.keyed_fees;
    })

-- What one side has of a swap, of a refund or of a payment's details, the other has after an import.
pub import_sync-HasRow :
    (remote own merged : SyncDb) (name : RowName)
    → import_sync remote own ≡ ok merged
    → has_row name remote ≡ true
    → has_row name merged ≡ true
unfolding has_row
import_sync-HasRow remote own merged (swap_row a) h found =
    let done = import_sync-Imported remote own merged h in
    let row =
      missing-inserted swap_key swap_clash a remote.swaps own.swaps done.s done.inserted_swaps in
    let e = ap (λ (t : Tables). find_row swap_key a t.swaps) done.final_tables in
    ground (arith, e, row, found)
import_sync-HasRow remote own merged (refund_row r) h found =
    let done = import_sync-Imported remote own merged h in
    let row = any-ignore_refunds r remote.swap_refunds own.swap_refunds in
    let e = ap (λ (t : Tables). any (same_refund r) t.swap_refunds) done.final_tables in
    ground (arith, e, row, found)
import_sync-HasRow remote own merged (info_row a) h found =
    let done = import_sync-Imported remote own merged h in
    let row =
      missing-inserted info_key no_clash a remote.payments_external_info own.payments_external_info
        done.i done.inserted_info in
    let e = ap (λ (t : Tables). find_row info_key a t.payments_external_info) done.final_tables in
    ground (arith, e, row, found)
