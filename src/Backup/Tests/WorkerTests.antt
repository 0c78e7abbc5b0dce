-- ===== src/Backup/Tests/WorkerTests.antt =====
-- Runs of the worker of `libs/sdk-core/src/backup.rs` against the in-memory store, with a cipher that
-- prepends the key and a file format that tells three databases apart.
use breez_sdk.Prelude.TextMap.{insert, lookup}
use breez_sdk.Prelude.{
  ap, ◌≡◌, ◌≢◌, refl, Option, none, some, [], ◌∷◌, Text, Bytes, codes, ok, true, false, length, leb,
  if◌then◌else◌, eq_text, arith, inl, inr, ◌⊎◌, ℕ, Bool, Member,
}
use breez_sdk.Prelude.Int.{◌+ℤ◌, pos}
use breez_sdk.Store.Mock.{MockStore, empty_mock, mock, mock_get, mock_put, mock-IsVersioned}
use breez_sdk.Backup.Tables.{SyncDb, SyncRequest, swaps_table}
use breez_sdk.Backup.Database.{LocalDb, persist_failed, get_last_sync_request}
use breez_sdk.Backup.Transport.{BackupState, backup_key, ldk_pull, ldk_push, ldk_backup_transport}
use breez_sdk.Backup.Transport.Exclusive.{ldk_push-once}
use breez_sdk.Backup.Worker.{
  Platform, Moment, before_reading, Device, sync_internal, sync, push, pull, sync_remote_and_push,
  LocalStep, setting_time,
}
use breez_sdk.Backup.Worker.Writes.{Writes-refl, Stored}
use breez_sdk.Backup.Worker.Covered.{sync_internal-Stored}
use breez_sdk.Backup.Worker.Failed.{Keeps, Noted, pushes, sync_internal-Keeps}
use breez_sdk.Backup.Worker.RoundTrip.{
  IsCodec, over_store, pull-push, sync_remote_and_push-oversized,
}
use breez_sdk.Backup.Merge.Requests.{BoundedIds}
use breez_sdk.Backup.Tests.MergeTests.{a_swap, empty_db}

abbrev swap_db : Text → SyncDb
swap_db a = record empty_db {
  swaps = a_swap a ∷ [];
  sync_requests = record { request_id = 1; changed_table = swaps_table } ∷ [];
  sequence = 1;
}

abbrev test_open : Bytes → Option SyncDb
test_open [] = none
test_open (a ∷ _) = some (swap_db (a ∷ []))

-- The first letter of the first swap.
abbrev test_write : SyncDb → Bytes
test_write db = elim db.swaps [ [] ↦ [] | s ∷ _ ↦ s.bitcoin_address ]

abbrev test_decrypt : Bytes → Bytes → Option Bytes
test_decrypt key secret = some secret

abbrev test_platform : Platform
test_platform = record {
  transport = ldk_backup_transport mock;
  sym_encrypt = λ key plain. some plain;
  sym_decrypt = test_decrypt;
  compress_to_vec = λ plain. plain;
  decompress_to_vec_with_limit =
      λ packed limit. if leb (length packed) limit then some packed else none;
  write_database = test_write;
  open_database = test_open;
  others = λ m l. l;
  failing = λ s. false;
  clock = 500;
}

abbrev test_local : SyncDb → LocalDb
test_local db = record { swaps_info = []; reverse_swaps_info = []; sync_db = db }

abbrev test_device : SyncDb → MockStore → Device test_platform (codes "k")
test_device db store = record {
  local = test_local db;
  versions = [];
  last_backup_time = none;
  server = store;
  events = [];
}

-- The server holds what another device has pushed.
abbrev held_mock : MockStore
held_mock = record empty_mock { entries = (backup_key, (codes "b", pos 1)) ∷ [] }

abbrev broken_mock : MockStore
broken_mock = record empty_mock { should_fail_put = true }

fresh_push :
    (sync test_platform (codes "k") false (test_device (swap_db (codes "a")) empty_mock)).1.versions
    ≡ record { last_version = 1; backup_data = codes "a" } ∷ []
unfolding sync ldk_push mock_put lookup ◌+ℤ◌
fresh_push = refl

-- The other device's swap arrives, and both are pushed as the second version.
merged_push :
    (sync test_platform
      (codes "k")
      false
      (test_device (swap_db (codes "a")) held_mock)).1.local.sync_db.swaps
    ≡ a_swap (codes "b") ∷ a_swap (codes "a") ∷ []
unfolding sync ldk_push mock_put lookup eq_text ldk_pull mock_get
merged_push = refl

nothing_pending :
    (sync test_platform
      (codes "k")
      false
      (test_device (swap_db (codes "a")) held_mock)).1.local.sync_db.sync_requests
    ≡ []
unfolding sync ldk_push mock_put lookup eq_text ldk_pull mock_get
nothing_pending = refl

-- Another thread adds a swap after the merged tables have been read and before the last request has.
abbrev racing : Moment → LocalDb → LocalDb
racing before_reading l = record l {
  sync_db = record l.sync_db {
    swaps = a_swap (codes "c") ∷ l.sync_db.swaps;
    sync_requests =
        record { request_id = 9; changed_table = swaps_table } ∷ l.sync_db.sync_requests;
    sequence = 9;
  };
}
racing _ l = l

abbrev racing_platform : Platform
racing_platform = record test_platform { others = racing }

abbrev racing_device : Device racing_platform (codes "k")
racing_device = record {
  local = test_local (swap_db (codes "a"));
  versions = [];
  last_backup_time = none;
  server = held_mock;
  events = [];
}

-- Its request is deleted with the others, although the pushed tables lack its row.
race_loses_request :
    (sync racing_platform (codes "k") false racing_device).1.local.sync_db.sync_requests ≡ []
unfolding sync ldk_push mock_put lookup eq_text ldk_pull mock_get
race_loses_request = refl

swap_db-BoundedIds : (a : Text) → BoundedIds (swap_db a)
swap_db-BoundedIds a r (inl e) = ground (arith, ap (λ (q : SyncRequest). q.request_id) e)
swap_db-BoundedIds a r (inr m) = absurd m

sync_internal-Stored_example :
    Stored test_platform
      (codes "k")
      (sync_internal test_platform (codes "k") 1 (test_device (swap_db (codes "a")) held_mock)).1
unfolding get_last_sync_request sync_internal ldk_push mock_put lookup eq_text ldk_pull mock_get
sync_internal-Stored_example =
    sync_internal-Stored test_platform (codes "k") (λ m l. Writes-refl l.sync_db) (λ l. refl)
      (test_device (swap_db (codes "a")) held_mock) (swap_db-BoundedIds (codes "a")) refl

-- A platform on which the time of the backup cannot be stored.
abbrev timeless : LocalStep → Bool
timeless setting_time = true
timeless _ = false

abbrev timeless_platform : Platform
timeless_platform = record test_platform { failing = timeless }

abbrev timeless_device : Device timeless_platform (codes "k")
timeless_device = record {
  local = test_local (swap_db (codes "a"));
  versions = [];
  last_backup_time = none;
  server = empty_mock;
  events = [];
}

abbrev keep_all :
    (m : Moment) (l : LocalDb) (r : SyncRequest)
    → Member r l.sync_db.sync_requests
    → Member r (timeless_platform.others m l).sync_db.sync_requests
keep_all m l r at = at

sync_internal-Keeps_example :
    Keeps timeless_platform
      (codes "k")
      timeless_device
      (sync_internal timeless_platform (codes "k") 1 timeless_device).1
    ⊎ ((v : ℕ) × (hex : Bytes) × ((pushes timeless_platform
            (codes "k")
            keep_all
            1
            timeless_device).0
          ≡ ok (v, hex))
        × Noted timeless_platform
            (codes "k")
            keep_all
            v
            hex
            (pushes timeless_platform (codes "k") keep_all 1 timeless_device).1
            timeless_device
            (sync_internal timeless_platform (codes "k") 1 timeless_device).1)
unfolding sync_internal ldk_push mock_put ldk_pull mock_get lookup
sync_internal-Keeps_example =
    sync_internal-Keeps timeless_platform (codes "k") keep_all 1 timeless_device persist_failed refl

-- The callback of a forced run gets `ok` although the backup has failed.
forced_run :
    (sync test_platform (codes "k") true (test_device (swap_db (codes "a")) broken_mock)).0 ≡ ok tt
unfolding sync sync_internal ldk_push mock_put ldk_pull mock_get lookup get_last_sync_request
forced_run = refl

ldk_push-once_example :
    (ldk_push mock none (codes "y") (ldk_push mock none (codes "x") empty_mock).1).0 ≢ ok 1
unfolding ldk_push mock_put lookup ◌+ℤ◌
ldk_push-once_example =
    ldk_push-once mock mock-IsVersioned none (codes "x") (codes "y") empty_mock 1 1 refl

test-IsCodec : IsCodec test_platform
test-IsCodec = record {
  decrypts = λ key plain secret h. ground (arith, h);
  decompresses = λ plain limit h. ground (arith, h);
}

abbrev tested_platform : Platform
tested_platform = over_store test_platform (codes "k") mock mock-IsVersioned

abbrev pushing_device : Device tested_platform (codes "k")
pushing_device = record {
  local = test_local (swap_db (codes "a"));
  versions = [];
  last_backup_time = none;
  server = empty_mock;
  events = [];
}

abbrev reading_device : Device tested_platform (codes "k")
reading_device = record pushing_device {
  server = (push tested_platform (codes "k") none (codes "a") pushing_device).1.server;
}

abbrev found_backup : Option BackupState
found_backup = some (record { generation = 1; contents = codes "a" })

pull-push_example : found_backup ≡ some (record { generation = 1; contents = codes "a" })
unfolding push pull ldk_push mock_put lookup ◌+ℤ◌ ldk_pull mock_get insert eq_text
pull-push_example =
    pull-push test_platform (codes "k") mock mock-IsVersioned test-IsCodec none (codes "a")
      (codes "a") 1 pushing_device reading_device found_backup refl refl (ground arith) refl

-- No backup decompresses.
abbrev unpacking_platform : Platform
unpacking_platform = record test_platform { decompress_to_vec_with_limit = λ packed limit. none }

abbrev unpacking_device :
    Device (over_store unpacking_platform (codes "k") mock mock-IsVersioned) (codes "k")
unpacking_device = record {
  local = test_local (swap_db (codes "a"));
  versions = [];
  last_backup_time = none;
  server = held_mock;
  events = [];
}

sync_remote_and_push-oversized_example :
    (sync_remote_and_push
      (over_store unpacking_platform (codes "k") mock mock-IsVersioned)
      (codes "k")
      (codes "a")
      1
      unpacking_device).0
    ≢ ok (1, codes "a")
unfolding lookup eq_text
sync_remote_and_push-oversized_example =
    sync_remote_and_push-oversized unpacking_platform (codes "k") mock mock-IsVersioned (codes "a")
      (codes "b") (codes "b") 1 0 (1, codes "a") unpacking_device refl refl refl
