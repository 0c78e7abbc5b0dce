-- ===== src/Backup/Worker.antt =====
-- `BackupWorker` of `libs/sdk-core/src/backup.rs`. The cipher, the compression, the database's file
-- format and the transport are parameters. While the worker runs, the rest of the app goes on writing to
-- the database: `others` says what it does at each moment where the worker waits or lets go of the
-- database, and `failing` which of the steps on the database and on files fail.
pub mod Writes
pub mod Covered
pub mod Failed
pub mod RoundTrip
use breez_sdk.Prelude.{
  ℕ, zero, suc, ◌==◌, Bool, true, false, ◌&&◌, not, Option, none, some, List, [], ◌∷◌,
  if◌then◌else◌, Text, Bytes, any, filterb, Result, ok, err, max,
}
use breez_sdk.Backup.Tables.{SyncDb}
use breez_sdk.Backup.Database.{
  BackupError, persist_failed, transport_failed, encrypt_failed, decrypt_failed, LocalDb,
  import_sync, import_remote_changes, get_last_sync_request, delete_sync_requests_up_to,
}
use breez_sdk.Backup.Transport.{BackupTransport, BackupState}

pub data BackupEvent : Type 0 where
  backup_started backup_succeeded : BackupEvent
  backup_failed : BackupError → BackupEvent

-- A row of `sync_versions`, the newest first.
pub record SyncVersion : Type 0 where
  pub last_version : ℕ
  pub backup_data : Bytes

-- When others may write.
pub data Moment : Type 0 where
  before_backup while_pushing while_pulling before_reading : Moment

-- The steps of a run on the database and on files that can fail. `making_file` and `reading_merged` are those
-- of `sync_remote_and_push`, in which `open_database` may fail too.
pub data LocalStep : Type 0 where
  reading_requests making_dir reading_versions exporting trimming_versions inserting_version
        deleting_requests setting_time removing_dir making_file reading_merged :
      LocalStep

abbrev take_versions : ℕ → List SyncVersion → List SyncVersion
take_versions zero vs = []
take_versions (suc n) [] = []
take_versions (suc n) (v ∷ vs) = v ∷ take_versions n vs

-- At most 19 versions are kept beside the new one.
unfoldable pub trim_versions : List SyncVersion → List SyncVersion
trim_versions vs =
    filterb
      (λ (v : SyncVersion).
        any (λ (w : SyncVersion). w.last_version == v.last_version) (take_versions 19 vs))
      vs

unfoldable pub set_last_sync_version : ℕ → Bytes → List SyncVersion → List SyncVersion
unfolding trim_versions
set_last_sync_version version hex vs =
    record { last_version = version; backup_data = hex } ∷ trim_versions vs

unfoldable pub get_last_sync_version : List SyncVersion → Option ℕ
get_last_sync_version [] = none
get_last_sync_version (v ∷ vs) = elim (get_last_sync_version vs) [
  | none ↦ some v.last_version
  | some n ↦ some (max v.last_version n)
]

abbrev pub id_or_default : Option ℕ → ℕ
id_or_default none = 0
id_or_default (some n) = n

-- What the worker uses of the libraries and of the platform.
pub record Platform : Type 1 where
  pub transport : BackupTransport
  pub sym_encrypt : Bytes → Bytes → Option Bytes
  pub sym_decrypt : Bytes → Bytes → Option Bytes
  pub compress_to_vec : Bytes → Bytes
  pub decompress_to_vec_with_limit : Bytes → ℕ → Option Bytes
  pub write_database : SyncDb → Bytes
  pub open_database : Bytes → Option SyncDb
  pub others : Moment → LocalDb → LocalDb
  pub failing : LocalStep → Bool
  pub clock : ℕ

module _ (p : Platform) (encryption_key : Bytes) where
  open p use {
    transport, sym_encrypt, sym_decrypt, compress_to_vec, decompress_to_vec_with_limit,
    write_database, open_database, others, failing, clock,
  }

  -- The device, the server and the events so far, the newest first.
  pub record Device : Type 0 where
    pub local : LocalDb
    pub versions : List SyncVersion
    pub last_backup_time : Option ℕ
    pub server : transport.State
    pub events : List BackupEvent

  abbrev pub meanwhile : Moment → Device → Device
  meanwhile m d = record d { local = others m d.local }

  unfoldable pub notify : BackupEvent → Device → Device
  notify e d = record d { events = e ∷ d.events }

  -- What `pull` makes of the answer of the server.
  unfoldable pub read_backup : BackupState → Result BackupError (Option BackupState)
  read_backup state = elim (sym_decrypt encryption_key state.contents) [
    | none ↦ err decrypt_failed
    | some decrypted ↦ elim (decompress_to_vec_with_limit decrypted 4000000) [
      | none ↦ ok none
      | some decompressed ↦ ok (some (record state { contents = decompressed }))
    ]
  ]

  unfoldable pub pull : Device → Result BackupError (Option BackupState) × Device
  unfolding read_backup
  pull d =
      let (r, server) = transport.pull d.server in
      let d1 = meanwhile while_pulling (record d { server = server }) in
      (
        elim r [
          | err _ ↦ err transport_failed
          | ok none ↦ ok none
          | ok (some state) ↦ read_backup state
        ],
        d1,
      )

  unfoldable pub push : Option ℕ → Bytes → Device → Result BackupError (ℕ × Bytes) × Device
  push version hex d = elim (sym_encrypt encryption_key (compress_to_vec hex)) [
    | none ↦ (err encrypt_failed, d)
    | some encrypted ↦
        let (r, server) = transport.push version encrypted d.server in
        let d1 = meanwhile while_pushing (record d { server = server }) in
        (elim r [ err _ ↦ err transport_failed | ok v ↦ ok (v, encrypted) ], d1)
  ]

  -- The branch of `sync_remote_and_push` with a remote state: its result, the last sync request.
  unfoldable pub push_merged :
      BackupState → SyncDb → ℕ → Device → Result BackupError (ℕ × Bytes) × ℕ × Device
  unfolding import_sync get_last_sync_request push
  push_merged state remote last d = elim (import_sync d.local.sync_db remote) [
    | err e ↦ (err e, last, d)
    | ok merged ↦
        let d1 = meanwhile before_reading d in
        let (r, d2) = push (some state.generation) (write_database merged) d1 in
        if failing reading_merged
        then (err persist_failed, last, d1)
        else (r, id_or_default (get_last_sync_request d1.local.sync_db), d2)
  ]

  unfoldable pub merge_and_push :
      BackupState → ℕ → Device → Result BackupError (ℕ × Bytes) × ℕ × Device
  unfolding import_remote_changes push_merged
  merge_and_push state last d = elim (open_database state.contents) [
    | none ↦ (err persist_failed, last, d)
    | some remote ↦ elim (import_remote_changes remote true d.local) [
      | err e ↦ (err e, last, d)
      | ok local ↦ push_merged state remote last (record d { local = local })
    ]
  ]

  unfoldable pub sync_remote_and_push :
      Bytes → ℕ → Device → Result BackupError (ℕ × Bytes) × ℕ × Device
  unfolding pull push merge_and_push
  sync_remote_and_push local_data last d =
      let (r, d1) = pull d in
      elim r [
        | err e ↦ (err e, last, d1)
        | ok remote_state ↦
            if failing making_file then (err persist_failed, last, d1) else elim remote_state [
              | none ↦ let (r', d2) = push none local_data d1 in (r', last, d2)
              | some state ↦ merge_and_push state last d1
            ]
      ]

  -- What is noted of a push. The two statements of `set_last_sync_version` are not one transaction.
  unfoldable pub note_pushed : ℕ → Bytes → ℕ → Device → Result BackupError (Unit {0}) × Device
  unfolding set_last_sync_version trim_versions delete_sync_requests_up_to
  note_pushed version hex last d =
      let d1 : Device = record d { versions = set_last_sync_version version hex d.versions } in
      let d2 : Device = record d1 {
        local = record d.local { sync_db = delete_sync_requests_up_to last d.local.sync_db };
      } in
      if failing trimming_versions
      then (err persist_failed, d)
      else if failing inserting_version
      then (err persist_failed, record d { versions = trim_versions d.versions })
      else if failing deleting_requests
      then (err persist_failed, d1)
      else if failing setting_time
      then (err persist_failed, d2)
      else (ok tt, record d2 { last_backup_time = some clock })

  -- The end of `sync_internal`.
  unfoldable pub record_sync :
      Result BackupError (ℕ × Bytes) × ℕ × Device → Result BackupError (Unit {0}) × Device
  unfolding note_pushed
  record_sync (r, last, d) = elim r [
    | err e ↦ (err e, d)
    | ok (version, hex) ↦ note_pushed version hex last d
  ]

  -- The optimistic push, and the merge where it fails.
  unfoldable pub push_or_merge : ℕ → Device → Result BackupError (ℕ × Bytes) × ℕ × Device
  unfolding push sync_remote_and_push get_last_sync_version
  push_or_merge last d =
      let hex = write_database d.local.sync_db in
      let (r, d1) = push (get_last_sync_version d.versions) hex d in
      elim r [ ok pushed ↦ (ok pushed, last, d1) | err _ ↦ sync_remote_and_push hex last d1 ]

  unfoldable pub sync_internal : ℕ → Device → Result BackupError (Unit {0}) × Device
  unfolding notify push_or_merge record_sync
  sync_internal last d =
      let d1 = notify backup_started d in
      let run = record_sync (push_or_merge last (meanwhile before_backup d1)) in
      if failing reading_versions
      then (err persist_failed, d)
      else if failing exporting
      then (err persist_failed, d1)
      else run

  -- The event that goes with the outcome of a run.
  abbrev pub outcome_event : Result BackupError (Unit {0}) → BackupEvent
  outcome_event (ok _) = backup_succeeded
  outcome_event (err e) = backup_failed e

  unfoldable pub sync : Bool → Device → Result BackupError (Unit {0}) × Device
  unfolding get_last_sync_request sync_internal notify
  sync force d =
      let last = id_or_default (get_last_sync_request d.local.sync_db) in
      let (r, d1) = sync_internal last d in
      let d2 = notify (outcome_event r) d1 in
      if failing reading_requests
      then (err persist_failed, d)
      else if not force && (last == 0)
      then (ok tt, d)
      else if failing making_dir
      then (err persist_failed, d)
      else if failing removing_dir
      then (err persist_failed, d2)
      else (ok tt, d2)
