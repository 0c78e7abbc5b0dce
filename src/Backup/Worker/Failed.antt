-- ===== src/Backup/Worker/Failed.antt =====
-- What a failed run of `BackupWorker` of `libs/sdk-core/src/backup.rs` leaves: all that a later run needs.
use breez_sdk.Prelude.{
  ◌≡◌, ◌∙◌, refl, ℕ, true, Option, none, some, arith, inl, inr, Bytes, Result, ok, err, Member,
  Result-cases, Option-cases, Bool-cases, ◌⊎◌, ◌≤◌, leb, leb→le,
}
use breez_sdk.Backup.Tables.{SyncDb, SyncRequest}
use breez_sdk.Backup.Database.{
  BackupError, LocalDb, import_sync, import_remote_changes, delete_sync_requests_up_to,
}
use breez_sdk.Backup.Transport.{BackupState}
use breez_sdk.Backup.Worker.{
  Platform, Moment, Device, before_backup, while_pushing, while_pulling, before_reading, meanwhile,
  making_file, reading_merged, push, pull, push_merged, merge_and_push, sync_remote_and_push,
  push_or_merge, record_sync, note_pushed, SyncVersion, set_last_sync_version, trimming_versions,
  inserting_version, deleting_requests, setting_time, reading_versions, exporting, sync_internal,
  backup_started, notify, get_last_sync_version,
}
use breez_sdk.Backup.Merge.Requests.{import_remote_changes-Grows, delete_sync_requests_up_to-Member}

module _ (p : Platform) (encryption_key : Bytes) where
  open p use {transport, sym_encrypt, compress_to_vec, write_database, others}

  -- The requests and the known versions of `d` are still there.
  pub record Keeps (d d' : Device p encryption_key) : Type 0 where
    pub requests_kept :
        (r : SyncRequest)
        → Member r d.local.sync_db.sync_requests
        → Member r d'.local.sync_db.sync_requests
    pub versions_kept : d'.versions ≡ d.versions

  Keeps-refl : (d : Device p encryption_key) → Keeps d d
  Keeps-refl d = record { requests_kept = λ r m. m; versions_kept = refl }

  Keeps-trans : (d e f : Device p encryption_key) → Keeps d e → Keeps e f → Keeps d f
  Keeps-trans d e f k l = record {
    requests_kept = λ r m. l.requests_kept r (k.requests_kept r m);
    versions_kept = l.versions_kept ∙ k.versions_kept;
  }

  module _
      (kept : (m : Moment) (l : LocalDb) (r : SyncRequest)
        → Member r l.sync_db.sync_requests
        → Member r (others m l).sync_db.sync_requests) where
    push-Keeps :
        (version : Option ℕ) (hex : Bytes) (d : Device p encryption_key)
        → Keeps d (push p encryption_key version hex d).1
    unfolding push
    push-Keeps version hex d =
        elim (Option-cases (sym_encrypt encryption_key (compress_to_vec hex))) [
          | inl fails ↦ rw (fails, push) (Keeps-refl d)
          | inr (encrypted, done) ↦
              rw (done, push)
                (record { requests_kept = kept while_pushing d.local; versions_kept = refl })
        ]

    push_merged-Keeps :
        (state : BackupState) (remote : SyncDb) (last : ℕ) (d : Device p encryption_key)
        → Keeps d (push_merged p encryption_key state remote last d).2
    unfolding push_merged
    push_merged-Keeps state remote last d =
        elim (Result-cases (import_sync d.local.sync_db remote)) [
          | inr (e, fails) ↦ rw (fails, push_merged) (Keeps-refl d)
          | inl (merged, done) ↦
              let d1 : Device p encryption_key = meanwhile p encryption_key before_reading d in
              let others_kept : Keeps d d1 = record {
                requests_kept = kept before_reading d.local;
                versions_kept = refl;
              } in
              elim (Bool-cases (p.failing reading_merged)) [
                | inl stops ↦ rw (done, stops, push_merged) others_kept
                | inr reads ↦
                    rw (done, reads, push_merged)
                      (Keeps-trans d d1
                        (push p encryption_key (some state.generation) (write_database merged) d1).1
                        others_kept (push-Keeps (some state.generation) (write_database merged) d1))
              ]
        ]

    merge_and_push-Keeps :
        (state : BackupState) (last : ℕ) (d : Device p encryption_key)
        → Keeps d (merge_and_push p encryption_key state last d).2
    unfolding merge_and_push
    merge_and_push-Keeps state last d = elim (Option-cases (p.open_database state.contents)) [
      | inl fails ↦ rw (fails, merge_and_push) (Keeps-refl d)
      | inr (remote, opened) ↦ elim (Result-cases (import_remote_changes remote true d.local)) [
        | inr (e, fails) ↦ rw (opened, fails, merge_and_push) (Keeps-refl d)
        | inl (local, done) ↦
            let d1 : Device p encryption_key = record d { local = local } in
            rw (opened, done, merge_and_push)
              (Keeps-trans d d1 (push_merged p encryption_key state remote last d1).2
                (record {
                  requests_kept = (import_remote_changes-Grows remote d.local local done).kept;
                  versions_kept = refl;
                })
                (push_merged-Keeps state remote last d1))
      ]
    ]

    pull-Keeps : (d : Device p encryption_key) → Keeps d (pull p encryption_key d).1
    unfolding pull
    pull-Keeps d = record { requests_kept = kept while_pulling d.local; versions_kept = refl }

    sync_remote_and_push-Keeps :
        (hex : Bytes) (last : ℕ) (d : Device p encryption_key)
        → Keeps d (sync_remote_and_push p encryption_key hex last d).2
    unfolding sync_remote_and_push
    sync_remote_and_push-Keeps hex last d =
        let d1 : Device p encryption_key = (pull p encryption_key d).1 in
        let pulled = pull-Keeps d in
        elim (Result-cases (pull p encryption_key d).0) [
          | inr (e, fails) ↦ rw (fails, sync_remote_and_push) pulled
          | inl (r, answer) ↦ elim (Bool-cases (p.failing making_file)) [
            | inl stops ↦ rw (answer, stops, sync_remote_and_push) pulled
            | inr goes ↦ elim (Option-cases r) [
              | inl empty ↦
                  rw (answer, goes, empty, sync_remote_and_push)
                    (Keeps-trans d d1 (push p encryption_key none hex d1).1 pulled
                      (push-Keeps none hex d1))
              | inr (state, found) ↦
                  rw (answer, goes, found, sync_remote_and_push)
                    (Keeps-trans d d1 (merge_and_push p encryption_key state last d1).2 pulled
                      (merge_and_push-Keeps state last d1))
            ]
          ]
        ]

    push_or_merge-Keeps :
        (last : ℕ) (d : Device p encryption_key) → Keeps d (push_or_merge p encryption_key last d).2
    unfolding push_or_merge
    push_or_merge-Keeps last d =
        let hex : Bytes = write_database d.local.sync_db in
        let base : Option ℕ = get_last_sync_version d.versions in
        let d1 : Device p encryption_key = (push p encryption_key base hex d).1 in
        let pushed = push-Keeps base hex d in
        elim (Result-cases (push p encryption_key base hex d).0) [
          | inl (v, taken) ↦ rw (taken, push_or_merge) pushed
          | inr (e, refused) ↦
              rw (refused, push_or_merge)
                (Keeps-trans d d1 (sync_remote_and_push p encryption_key hex last d1).2 pushed
                  (sync_remote_and_push-Keeps hex last d1))
        ]

    -- Where the push has succeeded as `v` with `hex`, a request of `d` is still there in `d'`, or it is not
    -- newer than the last one that was read for the push, and the push is noted.
    pub record Noted (v : ℕ) (hex : Bytes) (last : ℕ) (d d' : Device p encryption_key)
        : Type 0 where
      pub kept_or_pushed :
          (r : SyncRequest)
          → Member r d.local.sync_db.sync_requests
          → Member r d'.local.sync_db.sync_requests
            ⊎ ((r.request_id ≤ last)
                × Member {A = SyncVersion}
                    (record { last_version = v; backup_data = hex })
                    d'.versions)

    note_pushed-Noted :
        (v : ℕ) (hex : Bytes) (last : ℕ) (d : Device p encryption_key)
        → Noted v hex last d (note_pushed p encryption_key v hex last d).1
    unfolding note_pushed set_last_sync_version delete_sync_requests_up_to
    note_pushed-Noted v hex last d =
        let deleted : (r : SyncRequest)
            → Member r d.local.sync_db.sync_requests
            → Member r (delete_sync_requests_up_to last d.local.sync_db).sync_requests
              ⊎ ((r.request_id ≤ last)
                  × Member {A = SyncVersion} (record { last_version = v; backup_data = hex })
                      (set_last_sync_version v hex d.versions)) =
          λ r at. elim (Bool-cases (leb r.request_id last)) [
            | inl old ↦ inr (leb→le r.request_id last old, inl refl)
            | inr new ↦
                inl (
                  delete_sync_requests_up_to-Member last d.local.sync_db r at (ground (arith, new)))
          ] in
        elim (Bool-cases (p.failing trimming_versions)) [
          | inl fails ↦ rw (fails, note_pushed) (record { kept_or_pushed = λ r at. inl at })
          | inr f1 ↦ elim (Bool-cases (p.failing inserting_version)) [
            | inl fails ↦ rw (f1, fails, note_pushed) (record { kept_or_pushed = λ r at. inl at })
            | inr f2 ↦ elim (Bool-cases (p.failing deleting_requests)) [
              | inl fails ↦
                  rw (f1, f2, fails, note_pushed) (record { kept_or_pushed = λ r at. inl at })
              | inr f3 ↦ elim (Bool-cases (p.failing setting_time)) [
                | inl fails ↦
                    rw (f1, f2, f3, fails, note_pushed) (record { kept_or_pushed = deleted })
                | inr f4 ↦ rw (f1, f2, f3, f4, note_pushed) (record { kept_or_pushed = deleted })
              ]
            ]
          ]
        ]

    -- A run up to the end of its pushes.
    abbrev pub pushes :
        ℕ → Device p encryption_key → Result BackupError (ℕ × Bytes) × ℕ × Device p encryption_key
    pushes last d =
        push_or_merge p encryption_key last
          (meanwhile p encryption_key before_backup (notify p encryption_key backup_started d))

    pushes-Keeps : (last : ℕ) (d : Device p encryption_key) → Keeps d (pushes last d).2
    unfolding notify
    pushes-Keeps last d =
        let d1 : Device p encryption_key =
          meanwhile p encryption_key before_backup (notify p encryption_key backup_started d) in
        Keeps-trans d d1 (pushes last d).2
          (record { requests_kept = kept before_backup d.local; versions_kept = refl })
          (push_or_merge-Keeps last d1)

    -- A run that fails keeps every request and the versions that it knew, unless its push has succeeded.
    -- Then a request is given up only if it is not newer than the last one that was read for the push, and
    -- only where the pushed version has been noted.
    pub sync_internal-Keeps :
        (last : ℕ) (d : Device p encryption_key) (e : BackupError)
        → (sync_internal p encryption_key last d).0 ≡ err e
        → Keeps d (sync_internal p encryption_key last d).1
          ⊎ ((v : ℕ) × (hex : Bytes) × ((pushes last d).0 ≡ ok (v, hex))
              × Noted v hex (pushes last d).1 d (sync_internal p encryption_key last d).1)
    unfolding sync_internal notify record_sync
    sync_internal-Keeps last d e h =
        let (r, last', d2) = pushes last d in
        let before = pushes-Keeps last d in
        elim (Bool-cases (p.failing reading_versions)) [
          | inl fails ↦ inl (rw (fails, sync_internal) (Keeps-refl d))
          | inr f1 ↦ elim (Bool-cases (p.failing exporting)) [
            | inl fails ↦ inl (
                rw (f1, fails, sync_internal)
                  (record { requests_kept = λ q at. at; versions_kept = refl }))
            | inr f2 ↦ elim (Result-cases r) [
              | inr (e', refused) ↦ inl (rw (f1, f2, refused, sync_internal, record_sync) before)
              | inl ((v, hex), pushed) ↦
                  let noted = note_pushed-Noted v hex last' d2 in
                  inr (
                    v,
                    hex,
                    pushed,
                    rw (f1, f2, pushed, sync_internal, record_sync)
                        (record {
                          kept_or_pushed =
                              λ q at. noted.kept_or_pushed q (before.requests_kept q at);
                        }),
                  )
            ]
          ]
        ]
