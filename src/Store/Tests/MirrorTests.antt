-- ===== src/Store/Tests/MirrorTests.antt =====
-- The mirroring store over the in-memory server
-- (`libs/sdk-core/src/ldk/store/mirroring_store.rs`).
use breez_sdk.Prelude.{◌≡◌, refl, true, false, none, some, [], ◌∷◌, arith, ok, codes, eq_text}
use breez_sdk.Prelude.Int.{pos, ◌+ℤ◌}
use breez_sdk.Prelude.TextMap.{lookup}
use breez_sdk.Store.Mock.{
  MockStore, empty_mock, mock, mock_get, mock_put, mock_delete, mock_list, mock-IsVersioned,
}
use breez_sdk.Store.Keys.{RowKey, eq_key, full_key, split_key, IsPlain}
use breez_sdk.Store.Table.{Row, Table, select_row, insert_row}
use breez_sdk.Store.Mirroring.{read, write, remove, download}
use breez_sdk.Store.Mirroring.Reads.{read-write}
use breez_sdk.Store.Mirroring.Agreement.{Agree}
use breez_sdk.Store.Mirroring.Sync.{AgreesAt, write-AgreesAt, remove-AgreesAt}
use breez_sdk.Store.Mirroring.Download.{download_copies}

abbrev channel : RowKey
channel = record { primary_ns = codes "ns"; secondary_ns = codes "sub"; key = codes "a/b" }

abbrev payment : RowKey
payment = record { primary_ns = codes "ns"; secondary_ns = codes "sub"; key = codes "c" }

abbrev channel_row : Row
channel_row = record {
  at = channel;
  value = 7 ∷ [];
  local_version = pos 0;
  remote_version = pos 0;
  removed = false;
}

abbrev table : Table
table = channel_row ∷ []

abbrev server : MockStore
server = record empty_mock { entries = (codes "ns/sub/a/b", (7 ∷ [], pos 1)) ∷ [] }

abbrev server_down : MockStore
server_down = record server { should_fail_put = true }

abbrev server_silent : MockStore
server_silent = record server { should_fail_list = true }

channel-IsPlain : IsPlain channel
channel-IsPlain = ((refl, (refl, tt)), (refl, (refl, (refl, tt))))

read-write_example : read channel (write mock channel (8 ∷ []) table server_down).1 ≡ ok (8 ∷ [])
unfolding eq_key eq_text
read-write_example = read-write mock channel channel table server_down (8 ∷ [])

write-AgreesAt_example :
    AgreesAt mock mock-IsVersioned channel
      (write mock channel (8 ∷ []) table server).1
      (write mock channel (8 ∷ []) table server).2
unfolding write mock_put lookup eq_text full_key eq_key select_row ◌+ℤ◌
write-AgreesAt_example =
    write-AgreesAt mock mock-IsVersioned channel channel channel-IsPlain channel-IsPlain table
      server (8 ∷ []) refl (refl, refl, refl)

remove-AgreesAt_example :
    AgreesAt mock mock-IsVersioned channel
      (remove mock channel table server).1
      (remove mock channel table server).2
    × (eq_key channel channel ≡ true
        → select_row channel (remove mock channel table server).1 ≡ none)
unfolding remove mock_delete
remove-AgreesAt_example =
    remove-AgreesAt mock mock-IsVersioned channel channel channel-IsPlain channel-IsPlain table
      server refl (λ ne. absurd (unfold eq_key eq_text in ground (arith, ne)))

download_copies_example :
    Agree (select_row channel (download mock [] server).1) (some (7 ∷ [], pos 1))
unfolding download mock_list mock_get lookup eq_text split_key insert_row select_row eq_key full_key
download_copies_example =
    download_copies mock mock-IsVersioned channel [] server channel-IsPlain refl

abbrev pending : Table
pending = record channel_row { value = 8 ∷ []; local_version = pos 1 } ∷ []
