-- ===== src/Store/Tests/LockTests.antt =====
-- Two processes and one in-memory server (`libs/sdk-core/src/ldk/store/locking_store.rs`).
use breez_sdk.Prelude.{
  ℕ, ◌*◌, ◌≡◌, refl, Option, none, some, [], ◌∷◌, arith, Text, Bytes, err, codes, eq_text,
}
use breez_sdk.Prelude.Int.{pos, ◌+ℤ◌}
use breez_sdk.Prelude.TextMap.{lookup, insert}
use breez_sdk.Store.Versioned.{conflict}
use breez_sdk.Store.Mock.{MockStore, empty_mock, mock, mock_get, mock_put, mock-IsVersioned}
use breez_sdk.Store.TimeLock.{sec, LockData, Json, remote_instance, decode}
use breez_sdk.Store.TimeLock.Encoding.{IsJson}
use breez_sdk.Store.Locking.{
  VersionedTimeLock, lock_key, lock_duration, open_lock, lock, new_locking_store, ensure_locked,
  guarded,
}
use breez_sdk.Store.Locking.System.{System, set_client, open_store, lock_store, Reach, here, next}
use breez_sdk.Store.Locking.Exclusion.{exclusive_access}
use breez_sdk.Store.Locking.Handover.{new-conflict}

-- An encoding of locks that reads back what it writes.
abbrev from_bytes : Bytes → Option LockData
from_bytes [] = none
from_bytes (until ∷ id) = some (record { locked_until = until; instance_id = id })

abbrev json : Json
json = record { to_vec = λ d. some (d.locked_until ∷ d.instance_id); from_slice = from_bytes }

json-IsJson : IsJson json
json-IsJson = record { from_slice-to_vec = λ d b e. ground (arith, e); from_slice_empty = refl }

abbrev ids : ℕ → Text
ids c = c ∷ []

abbrev noon : ℕ → ℕ
noon c = 1000 * sec

abbrev start : System mock
start = record { remote = empty_mock; clock = noon; client = λ c. none }

abbrev opened : ℕ → VersionedTimeLock
opened c = record {
  tl = record { lock_duration = lock_duration; instance_id = ids c; locked_until = 0 };
  version = pos 0;
}

abbrev both_open : System mock
both_open = record start {
  client = set_client 1 (some (opened 1)) (set_client 0 (some (opened 0)) start.client);
}

abbrev one_locked : System mock
one_locked = record both_open {
  remote = (lock mock json (noon 0) (opened 0) empty_mock).2;
  client = set_client 0 (some (lock mock json (noon 0) (opened 0) empty_mock).1) both_open.client;
}

Reach-locked : Reach mock mock-IsVersioned json ids start one_locked
unfolding open_lock mock_get lookup eq_text
Reach-locked =
    next
      (next (next here (open_store 0 (opened 0) remote_instance refl))
        (open_store 1 (opened 1) remote_instance refl))
      (lock_store 0 (opened 0) refl)

-- Process 1 opened the store before process 0 locked it, and cannot write.
exclusive_access_example :
    guarded mock (noon 1) (opened 1) (mock_put (codes "a") (1 ∷ []) (pos 0)) one_locked.remote
    ≡ (err conflict, one_locked.remote)
unfolding ensure_locked lock mock_put lookup insert eq_text ◌+ℤ◌
exclusive_access_example =
    exclusive_access mock mock-IsVersioned json json-IsJson ids (λ c e p. ground (arith, p)) start
      one_locked 0 1 (lock mock json (noon 0) (opened 0) empty_mock).1 (opened 1)
      (record { unlocked = refl; closed = λ c. refl; skewed = λ c e. omega arith }) Reach-locked
      (omega arith) refl refl refl (mock_put (codes "a") (1 ∷ []) (pos 0))

abbrev held_lock : LockData
held_lock = record { locked_until = 1060 * sec; instance_id = ids 0 }

abbrev held_store : MockStore
held_store = record empty_mock { entries = insert lock_key ((1060 * sec) ∷ ids 0, pos 1) [] }

new-conflict_example :
    let out = new_locking_store mock json (ids 1) (noon 1) (noon 1) held_store in
    (out.0 ≡ err conflict) × ((j : Text) → lookup j out.1.entries ≡ lookup j held_store.entries)
unfolding mock_get lookup insert eq_text decode
new-conflict_example =
    new-conflict mock mock-IsVersioned json (ids 1) (noon 1) (noon 1) held_store
      ((1060 * sec) ∷ ids 0) (pos 1) held_lock refl refl (λ p. ground (arith, p)) (omega arith)

abbrev holder : VersionedTimeLock
holder = record {
  tl = record { lock_duration = lock_duration; instance_id = ids 0; locked_until = 1060 * sec };
  version = pos 1;
}
