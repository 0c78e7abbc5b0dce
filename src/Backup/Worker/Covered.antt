-- ===== src/Backup/Worker/Covered.antt =====
-- No change is lost by `BackupWorker` of `libs/sdk-core/src/backup.rs`: which rows a successful run has
-- pushed, and for which rows a request remains.
use breez_sdk.Prelude.{
  ◌≡◌, ◌∙◌, refl, sym, ap, ℕ, ◌≤◌, true, Option, none, some, arith, inl, inr, Bytes, Result, ok,
  err, Result-cases, Bool-cases, Option-cases,
}
use breez_sdk.Backup.Tables.{SyncDb}
use breez_sdk.Backup.Database.{
  BackupError, persist_failed, LocalDb, import_sync, import_remote_changes, get_last_sync_request,
  delete_sync_requests_up_to,
}
use breez_sdk.Backup.Transport.{BackupState}
use breez_sdk.Backup.Merge.Merged.{
  RowName, swap_row, refund_row, info_row, has_row, import_sync-HasRow,
}
use breez_sdk.Backup.Merge.Requests.{
  BoundedIds, import_remote_changes-Grows, get_last_sync_request-bound,
  delete_sync_requests_up_to-Member,
}
use breez_sdk.Backup.Worker.Writes.{
  Writes, Covers, Covers-Writes, Backed, Stored, Backed-err, push-Pushed, push-Writes, pull-Writes,
  push-Backed,
}
use breez_sdk.Backup.Worker.{
  Platform, Moment, Device, id_or_default, before_backup, before_reading, meanwhile, push, pull,
  making_file, reading_merged, push_merged, merge_and_push, sync_remote_and_push, push_or_merge,
  record_sync, note_pushed, sync_internal, trimming_versions, inserting_version, deleting_requests,
  setting_time, reading_versions, exporting, backup_started, notify, get_last_sync_version,
  set_last_sync_version,
}

has_row-delete :
    (name : RowName) (n : ℕ) (db : SyncDb)
    → has_row name (delete_sync_requests_up_to n db) ≡ has_row name db
unfolding has_row delete_sync_requests_up_to
has_row-delete (swap_row a) n db = refl
has_row-delete (refund_row r) n db = refl
has_row-delete (info_row a) n db = refl

module _ (p : Platform) (encryption_key : Bytes)
    (writes : (m : Moment) (l : LocalDb) → Writes l.sync_db (p.others m l).sync_db)
    (quiet : (l : LocalDb) → (p.others before_reading l).sync_db ≡ l.sync_db) where
  open p use {write_database, others}

  push_merged-Backed :
      (state : BackupState) (remote : SyncDb) (last : ℕ) (d : Device p encryption_key)
      → BoundedIds d.local.sync_db
      → Backed p encryption_key (push_merged p encryption_key state remote last d)
  unfolding push_merged
  push_merged-Backed state remote last d bounded =
      elim (Result-cases (import_sync d.local.sync_db remote)) [
        | inr (e, fails) ↦ rw (fails, push_merged) (Backed-err p encryption_key e last d)
        | inl (merged, done) ↦
            let d1 : Device p encryption_key = meanwhile p encryption_key before_reading d in
            let bounded1 = (writes before_reading d.local).bounded bounded in
            elim (Bool-cases (p.failing reading_merged)) [
              | inl stops ↦
                  rw (done, stops, push_merged) (Backed-err p encryption_key persist_failed last d1)
              | inr reads ↦
                  rw (done, reads, push_merged)
                    (push-Backed p encryption_key writes (some state.generation) merged
                      (id_or_default (get_last_sync_request d1.local.sync_db)) d1
                      (get_last_sync_request-bound d1.local.sync_db bounded1)
                      (λ name found. inl (
                        import_sync-HasRow d.local.sync_db remote merged name done
                          (ap (has_row name) (sym (quiet d.local)) ∙ found))))
            ]
      ]

  merge_and_push-Backed :
      (state : BackupState) (last : ℕ) (d : Device p encryption_key)
      → BoundedIds d.local.sync_db
      → Backed p encryption_key (merge_and_push p encryption_key state last d)
  unfolding merge_and_push
  merge_and_push-Backed state last d bounded =
      elim (Option-cases (p.open_database state.contents)) [
        | inl fails ↦ rw (fails, merge_and_push) (Backed-err p encryption_key persist_failed last d)
        | inr (remote, opened) ↦ elim (Result-cases (import_remote_changes remote true d.local)) [
          | inr (e, fails) ↦
              rw (opened, fails, merge_and_push) (Backed-err p encryption_key e last d)
          | inl (local, done) ↦
              rw (opened, done, merge_and_push)
                (push_merged-Backed state remote last (record d { local = local })
                  ((import_remote_changes-Grows remote d.local local done).bounded bounded))
        ]
      ]

  sync_remote_and_push-Backed :
      (backup : SyncDb) (last : ℕ) (d : Device p encryption_key)
      → last ≤ d.local.sync_db.sequence
      → BoundedIds d.local.sync_db
      → Covers backup last d.local.sync_db
      → Backed p encryption_key
          (sync_remote_and_push p encryption_key (write_database backup) last d)
  unfolding sync_remote_and_push
  sync_remote_and_push-Backed backup last d below bounded covers =
      let after = pull-Writes p encryption_key writes d in
      let d1 : Device p encryption_key = (pull p encryption_key d).1 in
      elim (Result-cases (pull p encryption_key d).0) [
        | inr (e, fails) ↦ rw (fails, sync_remote_and_push) (Backed-err p encryption_key e last d1)
        | inl (r, answer) ↦ elim (Bool-cases (p.failing making_file)) [
          | inl stops ↦
              rw (answer, stops, sync_remote_and_push)
                (Backed-err p encryption_key persist_failed last d1)
          | inr goes ↦ elim (Option-cases r) [
            | inl empty ↦
                rw (answer, goes, empty, sync_remote_and_push)
                  (push-Backed p encryption_key writes none backup last d1
                    (ground (arith, below, after.later))
                    (Covers-Writes backup last d.local.sync_db d1.local.sync_db below after covers))
            | inr (state, found) ↦
                rw (answer, goes, found, sync_remote_and_push)
                  (merge_and_push-Backed state last d1 (after.bounded bounded))
          ]
        ]
      ]

  push_or_merge-Backed :
      (last : ℕ) (d : Device p encryption_key)
      → last ≤ d.local.sync_db.sequence
      → BoundedIds d.local.sync_db
      → Backed p encryption_key (push_or_merge p encryption_key last d)
  unfolding push_or_merge Backed
  push_or_merge-Backed last d below bounded =
      let backup : SyncDb = d.local.sync_db in
      let base : Option ℕ = get_last_sync_version d.versions in
      let covers : Covers backup last backup = λ name found. inl found in
      let after = push-Writes p encryption_key writes base (write_database backup) d in
      let d1 : Device p encryption_key = (push p encryption_key base (write_database backup) d).1 in
      elim (Result-cases (push p encryption_key base (write_database backup) d).0) [
        | inr (e, refused) ↦
            rw (refused, push_or_merge)
              (sync_remote_and_push-Backed backup last d1 (ground (arith, below, after.later))
                (after.bounded bounded)
                (Covers-Writes backup last backup d1.local.sync_db below after covers))
        | inl (pushed, taken) ↦
            rw (taken, push_or_merge)
              (
                backup,
                (
                  push-Pushed p encryption_key base backup d pushed taken,
                  Covers-Writes backup last backup d1.local.sync_db below after covers,
                ),
              )
      ]

  record_sync-Backed :
      (r : Result BackupError (ℕ × Bytes)) (last : ℕ) (d : Device p encryption_key)
      → Backed p encryption_key (r, last, d)
      → (record_sync p encryption_key (r, last, d)).0 ≡ ok tt
      → Stored p encryption_key (record_sync p encryption_key (r, last, d)).1
  unfolding Backed record_sync note_pushed delete_sync_requests_up_to set_last_sync_version
  record_sync-Backed (err e) last d backed h = absurd (ground (arith, h))
  record_sync-Backed (ok (v, hex)) last d (backup, (pushed, covers)) h =
      elim (Bool-cases (p.failing trimming_versions)) [
        | inl fails ↦ absurd (ground (arith, h, fails))
        | inr f1 ↦ elim (Bool-cases (p.failing inserting_version)) [
          | inl fails ↦ absurd (ground (arith, h, f1, fails))
          | inr f2 ↦ elim (Bool-cases (p.failing deleting_requests)) [
            | inl fails ↦ absurd (ground (arith, h, f1, f2, fails))
            | inr f3 ↦ elim (Bool-cases (p.failing setting_time)) [
              | inl fails ↦ absurd (ground (arith, h, f1, f2, f3, fails))
              | inr f4 ↦
                  rw (f1, f2, f3, f4, note_pushed)
                    (record {
                      backup = backup;
                      version = v;
                      encrypted = hex;
                      pushed = pushed;
                      noted = (d.versions, refl);
                      covered = λ name found.
                          elim (covers name
                            (sym (has_row-delete name last d.local.sync_db) ∙ found)) [
                              | inl there ↦ inl there
                              | inr (r, (m, newer)) ↦ inr (
                                r,
                                delete_sync_requests_up_to-Member last d.local.sync_db r m newer,
                              )
                            ];
                    })
            ]
          ]
        ]
      ]

  -- A run that succeeds has pushed a database such that each row that this device has afterwards
  -- is in it, or has a request that is still there.
  pub sync_internal-Stored :
      (d : Device p encryption_key)
      → BoundedIds d.local.sync_db
      → (sync_internal p encryption_key (id_or_default (get_last_sync_request d.local.sync_db)) d).0
        ≡ ok tt
      → Stored p encryption_key
          (sync_internal p encryption_key
            (id_or_default (get_last_sync_request d.local.sync_db))
            d).1
  unfolding sync_internal notify
  sync_internal-Stored d bounded h =
      let last : ℕ = id_or_default (get_last_sync_request d.local.sync_db) in
      let d1 : Device p encryption_key =
        meanwhile p encryption_key before_backup (notify p encryption_key backup_started d) in
      let w = writes before_backup d.local in
      let below = get_last_sync_request-bound d.local.sync_db bounded in
      let (r, last', d2) = push_or_merge p encryption_key last d1 in
      elim (Bool-cases (p.failing reading_versions)) [
        | inl fails ↦ absurd (ground (arith, h, fails))
        | inr f1 ↦ elim (Bool-cases (p.failing exporting)) [
          | inl fails ↦ absurd (ground (arith, h, f1, fails))
          | inr f2 ↦
              let ran : (sync_internal p encryption_key last d).0
                  ≡ (record_sync p encryption_key (r, last', d2)).0 =
                rw (f1, f2, sync_internal) refl in
              rw (f1, f2, sync_internal)
                (record_sync-Backed r last' d2
                  (push_or_merge-Backed last d1 (ground (arith, below, w.later))
                    (w.bounded bounded))
                  (sym ran ∙ h))
        ]
      ]
