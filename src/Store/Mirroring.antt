-- ===== src/Store/Mirroring.antt =====
-- `MirroringStore` of `libs/sdk-core/src/ldk/store/mirroring_store.rs`: a local table that mirrors a
-- versioned store. Failures of the local database are left out, but for the primary key; the locks
-- by key make calls for one key sequential. A call returns its result, the table and the server.
pub mod Reads
pub mod Agreement
pub mod Sync
pub mod Failures
pub mod Restart
pub mod Download
pub mod Upload
use breez_sdk.Prelude.{
  ◌≡◌, Bool, true, false, ◌&&◌, not, Option, none, some, List, [], ◌∷◌, ◌++◌, map, Text, Bytes,
  Result, ok, err, if◌then◌else◌, eq_text, filterb,
}
use breez_sdk.Prelude.Int.{ℤ, pos, negsuc, ◌+ℤ◌, ◌-ℤ◌, eq_ℤ}
use breez_sdk.Store.Versioned.{Error, Versioned, VersionedStore}
use breez_sdk.Store.TimeLock.{PreviousHolder, local_instance, remote_instance}
use breez_sdk.Store.Keys.{RowKey, full_key, split_key}
use breez_sdk.Store.Table.{
  Row, Table, select_row, select_live, update_row, delete_row, insert_row, set_value, set_synced,
  set_removed, is_dirty,
}

-- `io::Error`, by its kind.
pub data IoError : Type 0 where
  not_found : IoError
  other_error : IoError

-- `Error`; a pool that gives no connection is left out.
pub data MirrorError : Type 0 where
  local_sql : MirrorError
  remote_error : Error → MirrorError

unfoldable pub read : RowKey → Table → Result IoError Bytes
unfolding select_live
read k t = elim (select_live k t) [ none ↦ err not_found | some r ↦ ok r.value ]

-- `SELECT key … ORDER BY primary_ns, secondary_ns, key`; the order is left to the database.
unfoldable pub list_keys : Text → Text → Table → List Text
list_keys primary secondary t =
    map (λ (r : Row). r.at.key)
      (filterb
        (λ r.
          eq_text r.at.primary_ns primary && (eq_text r.at.secondary_ns secondary && not r.removed))
        t)

-- What `write` does to the table first: `none` where the value is there already, and else the table
-- and the version that goes to the server. No row is in the way of the `INSERT`.
unfoldable pub write_local : RowKey → Bytes → Table → Option (Table × ℤ)
unfolding select_row update_row
write_local k value t = elim (select_row k t) [
  | none ↦ some (
    t
        ++ record {
          at = k;
          value = value;
          local_version = pos 0;
          remote_version = negsuc 0;
          removed = false;
        }
          ∷ [],
    pos 0,
  )
  | some r ↦
      if not r.removed && eq_text r.value value
      then none
      else some
          (update_row k (set_value value (r.local_version +ℤ pos 1)) t, r.local_version +ℤ pos 1)
]

-- `local_version != remote_version AND removed = 0`
abbrev pub outdated_row : Row → Bool
outdated_row r = not (eq_ℤ r.local_version r.remote_version) && not r.removed

module _ (remote : VersionedStore) where
  open remote use {State, get, put, delete, list}

  unfoldable pub write : RowKey → Bytes → Table → State → Result IoError (Unit {0}) × Table × State
  unfolding write_local
  write k value t st = elim (write_local k value t) [
    | none ↦ (ok tt, t, st)
    | some (t', version) ↦
        let (r, st') = put (full_key k) value version st in
        elim r [
          | err e ↦ (err other_error, t', st')
          | ok _ ↦ (ok tt, update_row k set_synced t', st')
        ]
  ]

  unfoldable pub remove : RowKey → Table → State → Result IoError (Unit {0}) × Table × State
  unfolding update_row delete_row
  remove k t st =
      let t' = update_row k set_removed t in
      let (r, st') = delete (full_key k) st in
      elim r [ err e ↦ (err other_error, t', st') | ok _ ↦ (ok tt, delete_row k t', st') ]

  -- The loop of `download` over what the server lists.
  unfoldable pub download_entries :
      List (Text × ℤ) → Table → State → Result MirrorError (Unit {0}) × Table × State
  download_entries [] t st = (ok tt, t, st)
  download_entries ((f, _) ∷ entries) t st = elim (split_key f) [
    | none ↦ download_entries entries t st
    | some k ↦
        let (r, st') = get f st in
        elim r [
          | err e ↦ (err (remote_error e), t, st')
          | ok none ↦ download_entries entries t st'
          | ok (some (value, version)) ↦
              elim (insert_row
                (record {
                  at = k;
                  value = value;
                  local_version = version -ℤ pos 1;
                  remote_version = version -ℤ pos 1;
                  removed = false;
                })
                t) [ none ↦ (err local_sql, t, st') | some t' ↦ download_entries entries t' st' ]
        ]
  ]

  -- `DELETE FROM store` comes before the first call of the server.
  unfoldable pub download : Table → State → Result MirrorError (Unit {0}) × Table × State
  unfolding download_entries
  download t st =
      let (r, st') = list st in
      elim r [
        | err e ↦ (err (remote_error e), [], st')
        | ok entries ↦ download_entries entries [] st'
      ]

  -- The first loop of `upload`, over the rows with a tombstone.
  unfoldable pub upload_removed :
      List Row → Table → State → Result MirrorError (Unit {0}) × Table × State
  unfolding delete_row
  upload_removed [] t st = (ok tt, t, st)
  upload_removed (r ∷ rows) t st =
      let (d, st') = delete (full_key r.at) st in
      elim d [
        | err e ↦ (err (remote_error e), t, st')
        | ok _ ↦ upload_removed rows (delete_row r.at t) st'
      ]

  -- The second loop, over the rows that the server does not have.
  unfoldable pub upload_outdated :
      List Row → Table → State → Result MirrorError (Unit {0}) × Table × State
  unfolding update_row
  upload_outdated [] t st = (ok tt, t, st)
  upload_outdated (r ∷ rows) t st =
      let (p, st') = put (full_key r.at) r.value r.local_version st in
      elim p [
        | err e ↦ (err (remote_error e), t, st')
        | ok _ ↦ upload_outdated rows (update_row r.at set_synced t) st'
      ]

  unfoldable pub upload : Table → State → Result MirrorError (Unit {0}) × Table × State
  unfolding upload_removed upload_outdated
  upload t st =
      let (r, t', st') = upload_removed (filterb (λ (r : Row). r.removed) t) t st in
      elim r [ err e ↦ (err e, t', st') | ok _ ↦ upload_outdated (filterb outdated_row t') t' st' ]

  -- `MirroringStore::new` on an existing table: the reconciliation of the two sides.
  unfoldable pub reconcile :
      PreviousHolder → Bool → Table → State → Result MirrorError (Unit {0}) × Table × State
  unfolding upload download
  reconcile local_instance false t st = (ok tt, t, st)
  reconcile local_instance true t st = upload t st
  reconcile remote_instance false t st = download t st
  reconcile remote_instance true t st = download t st

  unfoldable pub new_mirroring_store :
      PreviousHolder → Table → State → Result MirrorError (Unit {0}) × Table × State
  unfolding reconcile is_dirty
  new_mirroring_store previous t st = reconcile previous (is_dirty t) t st
