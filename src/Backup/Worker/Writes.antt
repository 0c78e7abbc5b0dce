-- ===== src/Backup/Worker/Writes.antt =====
-- What the rest of the app does to the database while `BackupWorker` of `libs/sdk-core/src/backup.rs`
-- runs, and that its calls of the transport do no more.
use mathlib.Core.Path.{subst₂}
use breez_sdk.Prelude.{
  ◌≡◌, ◌⊎◌, ℕ, ◌≤◌, ◌<◌, true, Option, some, List, arith, inl, inr, Bytes, Result, ok, err, Member,
  Result-cases, Option-cases,
}
use breez_sdk.Backup.Tables.{SyncDb, SyncRequest}
use breez_sdk.Backup.Database.{BackupError, LocalDb}
use breez_sdk.Backup.Merge.Merged.{RowName, has_row}
use breez_sdk.Backup.Merge.Requests.{BoundedIds}
use breez_sdk.Backup.Worker.{
  Platform, Moment, Device, while_pushing, while_pulling, push, pull, set_last_sync_version,
  SyncVersion,
}

-- A request that is newer than `n`.
abbrev pub RequestAbove : ℕ → SyncDb → Type 0
RequestAbove n db = (r : SyncRequest) × (Member r db.sync_requests × (n < r.request_id))

-- What writing to the database does: ids go up, requests stay, and a new row files a request.
pub record Writes (l l' : SyncDb) : Type 0 where
  pub later : l.sequence ≤ l'.sequence
  pub kept : (r : SyncRequest) → Member r l.sync_requests → Member r l'.sync_requests
  pub bounded : BoundedIds l → BoundedIds l'
  pub asked :
      (name : RowName)
      → has_row name l' ≡ true
      → (has_row name l ≡ true) ⊎ RequestAbove l.sequence l'

-- Every row is in the backup, or a request that is newer than `last` asks for the next one.
abbrev pub Covers : SyncDb → ℕ → SyncDb → Type 0
Covers backup last db =
    (name : RowName) → has_row name db ≡ true → (has_row name backup ≡ true) ⊎ RequestAbove last db

pub Writes-refl : (l : SyncDb) → Writes l l
Writes-refl l = record {
  later = ground arith;
  kept = λ r m. m;
  bounded = λ h. h;
  asked = λ name h. inl h;
}

pub Covers-Writes :
    (backup : SyncDb) (last : ℕ) (l l' : SyncDb)
    → last ≤ l.sequence
    → Writes l l'
    → Covers backup last l
    → Covers backup last l'
Covers-Writes backup last l l' below w covers name found = elim (w.asked name found) [
  | inr (r, (m, newer)) ↦ inr (r, (m, ground (arith, below, newer)))
  | inl before ↦ elim (covers name before) [
    | inl pushed ↦ inl pushed
    | inr (r, (m, newer)) ↦ inr (r, (w.kept r m, newer))
  ]
]

module _ (p : Platform) (encryption_key : Bytes) where
  open p use {transport, sym_encrypt, compress_to_vec, write_database, others}

  -- The transport has taken the database `backup` as `version`.
  abbrev pub Pushed : SyncDb → ℕ × Bytes → Type 0
  Pushed backup (version, encrypted) =
      (sym_encrypt encryption_key (compress_to_vec (write_database backup)) ≡ some encrypted)
      × ((base : Option ℕ) × (st : transport.State) × ((transport.push base encrypted st).0
            ≡ ok version))

  unfoldable pub Backed : Result BackupError (ℕ × Bytes) × ℕ × Device p encryption_key → Type 0
  Backed (err e, last, d) = Unit
  Backed (ok pushed, last, d) =
      (backup : SyncDb) × (Pushed backup pushed × Covers backup last d.local.sync_db)

  -- What a device that has made a backup can rely on.
  pub record Stored (d : Device p encryption_key) : Type 0 where
    pub backup : SyncDb
    pub version : ℕ
    pub encrypted : Bytes
    pub pushed : Pushed backup (version, encrypted)
    pub noted : (vs : List SyncVersion) × (d.versions ≡ set_last_sync_version version encrypted vs)
    pub covered :
        (name : RowName)
        → has_row name d.local.sync_db ≡ true
        → (has_row name backup ≡ true)
          ⊎ ((r : SyncRequest) × Member r d.local.sync_db.sync_requests)

  pub Backed-err :
      (e : BackupError) (last : ℕ) (d : Device p encryption_key) → Backed (err e, last, d)
  unfolding Backed
  Backed-err e last d = tt

  pub Backed-ok :
      (pushed : ℕ × Bytes) (last : ℕ) (d : Device p encryption_key) (backup : SyncDb)
      → Pushed backup pushed
      → Covers backup last d.local.sync_db
      → Backed (ok pushed, last, d)
  unfolding Backed
  Backed-ok pushed last d backup taken covers = (backup, (taken, covers))

  pub push-Pushed :
      (version : Option ℕ) (backup : SyncDb) (d : Device p encryption_key) (pushed : ℕ × Bytes)
      → (push p encryption_key version (write_database backup) d).0 ≡ ok pushed
      → Pushed backup pushed
  unfolding push
  push-Pushed version backup d (v, hex) h =
      elim (Option-cases (sym_encrypt encryption_key (compress_to_vec (write_database backup)))) [
        | inl fails ↦ absurd (ground (arith, h, fails))
        | inr (encrypted, done) ↦
            elim (Result-cases (transport.push version encrypted d.server).0) [
              | inr (e, refused) ↦ absurd (ground (arith, h, done, refused))
              | inl (v', taken) ↦
                  let same_version : v' ≡ v = ground (arith, h, done, taken) in
                  let same_hex : encrypted ≡ hex = ground (arith, h, done, taken) in
                  subst₂ (λ (e : Bytes) (n : ℕ). Pushed backup (n, e)) same_hex same_version
                    (done, (version, d.server, taken))
            ]
      ]

  module _ (writes : (m : Moment) (l : LocalDb) → Writes l.sync_db (others m l).sync_db) where
    pub push-Writes :
        (version : Option ℕ) (hex : Bytes) (d : Device p encryption_key)
        → Writes d.local.sync_db (push p encryption_key version hex d).1.local.sync_db
    unfolding push
    push-Writes version hex d =
        elim (Option-cases (sym_encrypt encryption_key (compress_to_vec hex))) [
          | inl fails ↦ rw (fails, push) (Writes-refl d.local.sync_db)
          | inr (encrypted, done) ↦ rw (done, push) (writes while_pushing d.local)
        ]

    pub pull-Writes :
        (d : Device p encryption_key)
        → Writes d.local.sync_db (pull p encryption_key d).1.local.sync_db
    unfolding pull
    pull-Writes d = writes while_pulling d.local

    -- A push of `backup` while the rest of the app goes on.
    pub push-Backed :
        (version : Option ℕ) (backup : SyncDb) (last : ℕ) (d : Device p encryption_key)
        → last ≤ d.local.sync_db.sequence
        → Covers backup last d.local.sync_db
        → Backed (
          (push p encryption_key version (write_database backup) d).0,
          last,
          (push p encryption_key version (write_database backup) d).1,
        )
    unfolding Backed
    push-Backed version backup last d below covers =
        elim (Result-cases (push p encryption_key version (write_database backup) d).0) [
          | inr (e, refused) ↦ rw refused tt
          | inl (pushed, taken) ↦
              let after = push-Writes version (write_database backup) d in
              rw taken (
                backup,
                (
                  push-Pushed version backup d pushed taken,
                  Covers-Writes backup last d.local.sync_db
                      (push p encryption_key version (write_database backup) d).1.local.sync_db
                      below after covers,
                ),
              )
        ]
