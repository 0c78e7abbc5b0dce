-- ===== src/Store/Mirroring/Restart.antt =====
-- What a start leaves that fails on its download (`libs/sdk-core/src/ldk/store/mirroring_store.rs`).
use breez_sdk.Prelude.{
  ◌≡◌, refl, ap, ◌∙◌, inl, inr, false, some, List, [], ◌∷◌, ◌++◌, arith, Text, Bytes, ok, err,
  Option-cases, Result-cases, Bool-cases,
}
use breez_sdk.Prelude.Int.{ℤ, pos, ◌-ℤ◌, eq_ℤ_iff}
use breez_sdk.Store.Versioned.{Error, VersionedStore}
use breez_sdk.Store.TimeLock.{local_instance, remote_instance}
use breez_sdk.Store.Keys.{RowKey, split_key}
use breez_sdk.Store.Table.{Row, Table, select_row, is_dirty, insert_row, dirty_row}
use breez_sdk.Store.Mirroring.{
  download_entries, download, new_mirroring_store, reconcile, remote_error,
}

is_dirty-append :
    (t : Table) (r : Row)
    → is_dirty t ≡ false
    → dirty_row r ≡ false
    → is_dirty (t ++ r ∷ []) ≡ false
unfolding is_dirty
is_dirty-append [] r clean fresh = ground (arith, fresh)
is_dirty-append (x ∷ t) r clean fresh = ground (arith, is_dirty-append t r, clean, fresh)

inserted_clean :
    (t t' : Table) (k : RowKey) (v : Bytes) (n : ℤ)
    → is_dirty t ≡ false
    → insert_row
        (record { at = k; value = v; local_version = n; remote_version = n; removed = false })
        t
      ≡ some t'
    → is_dirty t' ≡ false
unfolding insert_row
inserted_clean t t' k v n clean e = elim (Option-cases (select_row k t)) [
  | inr (r, found) ↦ absurd (ground (arith, e, found))
  | inl missing ↦ ground (
    arith,
    e,
    missing,
    eq_ℤ_iff n n,
    is_dirty-append t
        (record { at = k; value = v; local_version = n; remote_version = n; removed = false })
        clean,
  )
]

module _ (remote : VersionedStore) where
  clean_entries :
      (entries : List (Text × ℤ)) (t : Table) (st : remote.State)
      → is_dirty t ≡ false
      → is_dirty (download_entries remote entries t st).1 ≡ false
  unfolding download_entries
  clean_entries [] t st clean = clean
  clean_entries ((f, n) ∷ entries) t st clean = elim (Option-cases (split_key f)) [
    | inl malformed ↦ ground (arith, malformed, clean_entries entries t st clean)
    | inr (k, named) ↦ elim (Result-cases (remote.get f st).0) [
      | inr (x, p) ↦ ground (arith, named, p, clean)
      | inl (o, p) ↦ elim (Option-cases o) [
        | inl gone ↦
            ground (arith, named, p, gone, clean_entries entries t (remote.get f st).1 clean)
        | inr ((value, version), there) ↦
            elim (Option-cases (
              insert_row
                (record {
                  at = k;
                  value = value;
                  local_version = version -ℤ pos 1;
                  remote_version = version -ℤ pos 1;
                  removed = false;
                })
                t)) [
                  | inl refused ↦ ground (arith, named, p, there, refused, clean)
                  | inr (t', e) ↦ ground (
                    arith,
                    named,
                    p,
                    there,
                    e,
                    clean_entries entries t' (remote.get f st).1
                        (inserted_clean t t' k value (version -ℤ pos 1) clean e),
                  )
                ]
      ]
    ]
  ]

  -- However a download ends, no row of the table is marked as changed.
  pub download_clean : (t : Table) (st : remote.State) → is_dirty (download remote t st).1 ≡ false
  unfolding download is_dirty
  download_clean t st = elim (Result-cases (remote.list st).0) [
    | inr (x, p) ↦ ground (arith, p)
    | inl (entries, p) ↦ ground (arith, p, clean_entries entries [] (remote.list st).1 refl)
  ]

  -- After another instance had the lock, a start downloads, whether or not the table had changes.
  remote_start :
      (t : Table) (st : remote.State)
      → new_mirroring_store remote remote_instance t st ≡ download remote t st
  unfolding new_mirroring_store
  remote_start t st = elim (Bool-cases (is_dirty t)) [
    | inl dirty ↦ rw (dirty, reconcile)
    | inr clean ↦ rw (clean, reconcile)
  ]

  local_start :
      (t : Table) (st : remote.State)
      → is_dirty t ≡ false
      → new_mirroring_store remote local_instance t st ≡ (ok tt, t, st)
  unfolding new_mirroring_store
  local_start t st clean = rw (clean, reconcile)

  -- A start that has to download ends with some table, whether it succeeds or fails on the way. The
  -- next start, which finds the lock held by its own instance, takes that table as complete: it
  -- succeeds, whatever the server holds by then, without a call.
  pub restart_after_download :
      (t : Table) (st st' : remote.State)
      → let t' = (new_mirroring_store remote remote_instance t st).1 in
        new_mirroring_store remote local_instance t' st' ≡ (ok tt, t', st')
  restart_after_download t st st' =
      local_start (new_mirroring_store remote remote_instance t st).1 st'
        (ap (λ z. is_dirty z.1) (remote_start t st) ∙ download_clean t st)

  -- If the server cannot list its keys in such a start, the start fails with an empty table, and the
  -- next one succeeds with an empty table.
  pub restart_after_list_failure :
      (t : Table) (st st' : remote.State) (x : Error)
      → (remote.list st).0 ≡ err x
      → ((new_mirroring_store remote remote_instance t st).0 ≡ err (remote_error x))
        × (new_mirroring_store remote local_instance
              (new_mirroring_store remote remote_instance t st).1
              st'
            ≡ (ok tt, [], st'))
  unfolding download
  restart_after_list_failure t st st' x failed = (
    rw (remote_start t st) (ground (arith, failed)),
    restart_after_download t st st' ∙ rw (remote_start t st) (ground (arith, failed)),
  )
