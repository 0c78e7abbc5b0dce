-- ===== src/Store/Locking.antt =====
-- `LockingStore` of `libs/sdk-core/src/ldk/store/locking_store.rs`, over any versioned store and any
-- encoding of the lock. A call takes the times that it reads from the clock, and returns its result,
-- the lock that it leaves in memory and the state of the server.
mod Outcomes
pub mod System
pub mod Exclusion
pub mod Handover
use breez_sdk.Prelude.{
  ℕ, ◌-◌, ◌*◌, Option, none, some, List, [], Text, Bytes, Result, ok, err, if◌then◌else◌, codes,
}
use breez_sdk.Prelude.Int.{ℤ, pos, ◌+ℤ◌}
use breez_sdk.Store.Versioned.{Error, conflict, internal, Versioned, VersionedStore}
use breez_sdk.Store.TimeLock.{
  sec, TimeLock, PreviousHolder, new_time_lock, is_locked, next_lock, unlock_time, update_lock,
  Json, decode, encode,
}

pub record VersionedTimeLock : Type 0 where
  pub tl : TimeLock
  pub version : ℤ

-- `LockingStore::KEY`
abbrev pub lock_key : Text
lock_key = codes "lock"

abbrev pub lock_duration : ℕ
lock_duration = 60 * sec

abbrev pub refresh_window : ℕ
refresh_window = 30 * sec

-- `unwrap_or_default` on what `get` returned
abbrev pub stored_or_default : Option Versioned → Versioned
stored_or_default none = ([], pos 0)
stored_or_default (some entry) = entry

module _ (store : VersionedStore) (json : Json) where
  open store use {State, get, put, delete, list}

  -- What `new` does with the entry that it has read, up to the first `lock`.
  unfoldable pub claim : Text → ℕ → Versioned → Result Error (VersionedTimeLock × PreviousHolder)
  unfolding decode new_time_lock
  claim instance_id now (bytes, version) = elim (decode json bytes) [
    | err e ↦ err internal
    | ok lock_data ↦ elim (new_time_lock lock_duration instance_id lock_data now) [
      | err by ↦ err conflict
      | ok (tl, previous) ↦ ok (record { tl = tl; version = version }, previous)
    ]
  ]

  -- The first half of `new`: read the lock and check that nobody else holds it.
  unfoldable pub open_lock :
      Text → ℕ → State → Result Error (VersionedTimeLock × PreviousHolder) × State
  unfolding claim
  open_lock instance_id now st =
      let (r, st') = get lock_key st in
      elim r [
        | err e ↦ (err e, st')
        | ok entry ↦ (claim instance_id now (stored_or_default entry), st')
      ]

  -- `lock`: store the next lock under the version that was seen last.
  unfoldable pub lock : ℕ → VersionedTimeLock → State → Result Error ℕ × VersionedTimeLock × State
  unfolding next_lock update_lock encode
  lock now vtl st =
      let lock_data = next_lock vtl.tl now in
      elim (encode json lock_data) [
        | none ↦ (err internal, vtl, st)
        | some value ↦
            let (r, st') = put lock_key value vtl.version st in
            elim r [
              | err e ↦ (err e, vtl, st')
              | ok _ ↦
                  let (until, tl') = update_lock vtl.tl lock_data in
                  (ok until, record { tl = tl'; version = vtl.version +ℤ pos 1 }, st')
            ]
      ]

  -- `LockingStore::new`; the clock is read before the check and again before the write.
  unfoldable pub new_locking_store :
      Text → ℕ → ℕ → State → Result Error (VersionedTimeLock × PreviousHolder) × State
  unfolding open_lock lock
  new_locking_store instance_id now now' st =
      let (r, st') = open_lock instance_id now st in
      elim r [
        | err e ↦ (err e, st')
        | ok (vtl, previous) ↦
            let (locked, vtl', st'') = lock now' vtl st' in
            elim locked [ err e ↦ (err e, st'') | ok _ ↦ (ok (vtl', previous), st'') ]
      ]

  unfoldable pub refresh_lock :
      ℕ → VersionedTimeLock → State → Result Error ℕ × VersionedTimeLock × State
  unfolding lock
  refresh_lock now vtl st =
      let (r, vtl', st') = lock now vtl st in
      elim r [
        | err e ↦ (err e, vtl', st')
        | ok locked_until ↦ (ok (locked_until - refresh_window), vtl', st')
      ]

  -- `unlock`: the lock is dropped in memory first, and stays dropped if the write fails. The version
  -- in memory is not advanced.
  unfoldable pub unlock :
      ℕ → VersionedTimeLock → State → Result Error (Unit {0}) × VersionedTimeLock × State
  unfolding unlock_time encode
  unlock now vtl st =
      let (released, tl') = unlock_time vtl.tl now in
      let vtl' = record vtl { tl = tl' } in
      elim released [
        | none ↦ (ok tt, vtl', st)
        | some lock_data ↦ elim (encode json lock_data) [
          | none ↦ (err internal, vtl', st)
          | some value ↦
              let (r, st') = put lock_key value vtl.version st in
              elim r [ err e ↦ (err e, vtl', st') | ok _ ↦ (ok tt, vtl', st') ]
        ]
      ]

-- The store's own operations, which `ensure_locked` guards.
module _ (store : VersionedStore) where
  open store use {State, get, put, delete, list}

  unfoldable pub ensure_locked : ℕ → VersionedTimeLock → Result Error (Unit {0})
  unfolding is_locked
  ensure_locked now vtl = if is_locked vtl.tl now then ok tt else err conflict

  -- `ensure_locked().await?` in front of a call
  unfoldable pub guarded :
      {A : Type 0}
      → ℕ
      → VersionedTimeLock
      → (State → Result Error A × State)
      → State
      → Result Error A × State
  unfolding ensure_locked
  guarded now vtl call st = elim (ensure_locked now vtl) [ ok _ ↦ call st | err e ↦ (err e, st) ]

  unfoldable pub locked_get :
      ℕ → VersionedTimeLock → Text → State → Result Error (Option Versioned) × State
  unfolding guarded
  locked_get now vtl key = guarded now vtl (get key)

  unfoldable pub locked_put :
      ℕ → VersionedTimeLock → Text → Bytes → ℤ → State → Result Error (Unit {0}) × State
  unfolding guarded
  locked_put now vtl key value version = guarded now vtl (put key value version)

  unfoldable pub locked_delete :
      ℕ → VersionedTimeLock → Text → State → Result Error (Unit {0}) × State
  unfolding guarded
  locked_delete now vtl key = guarded now vtl (delete key)

  unfoldable pub locked_list :
      ℕ → VersionedTimeLock → State → Result Error (List (Text × ℤ)) × State
  unfolding guarded
  locked_list now vtl = guarded now vtl list
