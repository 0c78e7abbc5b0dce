-- ===== src/Backup/Transport.antt =====
-- The trait `BackupTransport` of `libs/sdk-core/src/backup.rs`, and `LdkBackupTransport` of
-- `libs/sdk-core/src/ldk/backup_transport.rs`, which keeps the backup under one key of a versioned store.
pub mod Exclusive
use breez_sdk.Prelude.{
  ℕ, ◌-◌, Option, none, some, Text, Bytes, codes, Result, ok, err, if◌then◌else◌, ltb,
}
use breez_sdk.Prelude.Int.{ℤ, pos, negsuc, ◌+ℤ◌}
use breez_sdk.Prelude.Words.{as_u64}
use breez_sdk.Store.Versioned.{VersionedStore}

pub record BackupState : Type 0 where
  pub generation : ℕ
  pub contents : Bytes

-- The error of a call is its text, which is left out.
pub record BackupTransport : Type 1 where
  pub State : Type 0
  pub pull : State → Result (Unit {0}) (Option BackupState) × State
  pub push : Option ℕ → Bytes → State → Result (Unit {0}) ℕ × State

-- `as i64` on a `u64`.
unfoldable pub as_i64 : ℕ → ℤ
as_i64 n = if ltb n 9223372036854775808 then pos n else negsuc (18446744073709551615 - n)

abbrev pub backup_key : Text
backup_key = codes "backup"

abbrev pub version_or_default : Option ℕ → ℕ
version_or_default none = 0
version_or_default (some v) = v

module _ (store : VersionedStore) where
  open store use {State, get, put}

  unfoldable pub ldk_pull : State → Result (Unit {0}) (Option BackupState) × State
  unfolding as_u64
  ldk_pull st =
      let (r, st') = get backup_key st in
      (
        elim r [
          | err _ ↦ err tt
          | ok none ↦ ok none
          | ok (some (value, version)) ↦
              ok (some (record { generation = as_u64 version; contents = value }))
        ],
        st',
      )

  unfoldable pub ldk_push : Option ℕ → Bytes → State → Result (Unit {0}) ℕ × State
  unfolding as_i64 as_u64
  ldk_push version hex st =
      let (r, st') = put backup_key hex (as_i64 (version_or_default version)) st in
      (
        elim r [
          | err _ ↦ err tt
          | ok _ ↦ ok (as_u64 (as_i64 (version_or_default version) +ℤ pos 1))
        ],
        st',
      )

  abbrev pub ldk_backup_transport : BackupTransport
  ldk_backup_transport = record { State = State; pull = ldk_pull; push = ldk_push }
