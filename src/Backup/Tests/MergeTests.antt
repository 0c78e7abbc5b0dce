-- ===== src/Backup/Tests/MergeTests.antt =====
-- Imports of `libs/sdk-core/src/persist/sync.rs` at concrete databases.
use breez_sdk.Prelude.{eq_text, ◌≡◌, refl, some, [], ◌∷◌, Text, codes, ok, ℕ}
use breez_sdk.Prelude.Int.{pos}
use breez_sdk.Backup.Rows.{find_row}
use breez_sdk.Backup.Tables.{SyncSwap, SwapFees, SyncDb, swaps_table, swap_refunds_table}
use breez_sdk.Backup.Database.{import_sync}
use breez_sdk.Backup.Merge.Steps.{tables}
use breez_sdk.Backup.Merge.Merged.{KeyedTables, Merged, import_sync-Merged}
use breez_sdk.Backup.Merge.Converge.{Converged, import_sync-Converged}
use breez_sdk.Backup.Merge.Settled.{import_sync-again}

-- A swap whose columns all tell it apart from the other one.
abbrev pub a_swap : Text → SyncSwap
a_swap a = record {
  bitcoin_address = a;
  created_at = pos 10;
  lock_height = pos 288;
  payment_hash = a;
  preimage = a;
  private_key = a;
  public_key = a;
  swapper_public_key = a;
  script = a;
  min_allowed_deposit = pos 1000;
  max_allowed_deposit = pos 100000;
  max_swapper_payable = pos 100000;
}

abbrev pub empty_db : SyncDb
empty_db = record {
  swaps = [];
  swap_refunds = [];
  payments_external_info = [];
  payments_metadata = [];
  reverse_swaps = [];
  swaps_fees = [];
  sync_requests = [];
  sequence = 0;
}

abbrev fees_of : Text → ℕ → Text → SwapFees
fees_of a date fees = record { bitcoin_address = a; created_at = date; channel_opening_fees = fees }

abbrev own_db : SyncDb
own_db = record empty_db {
  swaps = a_swap (codes "a") ∷ [];
  swaps_fees = fees_of (codes "a") 5 (codes "cheap") ∷ [];
  sync_requests = record { request_id = 1; changed_table = swaps_table } ∷ [];
  sequence = 1;
}

abbrev remote_db : SyncDb
remote_db = record empty_db {
  swaps = a_swap (codes "b") ∷ [];
  swap_refunds = record { bitcoin_address = codes "b"; refund_tx_id = codes "t" } ∷ [];
  payments_metadata =
      record { payment_id = codes "p"; metadata = some (codes "m"); updated_at = 3 } ∷ [];
  swaps_fees = fees_of (codes "a") 7 (codes "dear") ∷ [];
}

own_db-Keyed : KeyedTables (tables own_db)
unfolding find_row
own_db-Keyed = record {
  keyed_swaps = (refl, tt);
  keyed_info = tt;
  keyed_metadata = tt;
  keyed_reverse_swaps = tt;
  keyed_fees = (refl, tt);
}

remote_db-Keyed : KeyedTables (tables remote_db)
unfolding find_row
remote_db-Keyed = record {
  keyed_swaps = (refl, tt);
  keyed_info = tt;
  keyed_metadata = (refl, tt);
  keyed_reverse_swaps = tt;
  keyed_fees = (refl, tt);
}

abbrev merged_db : SyncDb
merged_db = record empty_db {
  swaps = a_swap (codes "b") ∷ a_swap (codes "a") ∷ [];
  swap_refunds = record { bitcoin_address = codes "b"; refund_tx_id = codes "t" } ∷ [];
  swaps_fees = fees_of (codes "a") 7 (codes "dear") ∷ [];
  sync_requests =
      record { request_id = 3; changed_table = swap_refunds_table }
      ∷ record { request_id = 2; changed_table = swaps_table }
      ∷ record { request_id = 1; changed_table = swaps_table }
      ∷ [];
  sequence = 3;
}

import_own : import_sync remote_db own_db ≡ ok merged_db
unfolding import_sync eq_text
import_own = refl

abbrev exchanged_db : SyncDb
exchanged_db = record remote_db {
  swaps = a_swap (codes "a") ∷ a_swap (codes "b") ∷ [];
  sync_requests = record { request_id = 1; changed_table = swaps_table } ∷ [];
  sequence = 1;
}

import_back : import_sync merged_db remote_db ≡ ok exchanged_db
unfolding import_sync eq_text
import_back = refl

import_sync-Merged_example : Merged (tables remote_db) (tables own_db) (tables merged_db)
import_sync-Merged_example =
    import_sync-Merged remote_db own_db merged_db remote_db-Keyed import_own

import_sync-Converged_example :
    Converged (tables own_db) (tables remote_db) (tables merged_db) (tables exchanged_db)
import_sync-Converged_example =
    import_sync-Converged own_db remote_db merged_db exchanged_db own_db-Keyed remote_db-Keyed
      import_own import_back

import_sync-again_example : import_sync remote_db merged_db ≡ ok merged_db
import_sync-again_example = import_sync-again remote_db own_db merged_db remote_db-Keyed import_own
