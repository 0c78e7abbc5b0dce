-- ===== src/Store/Locking/Outcomes.antt =====
-- How each call of the locking store can end (`libs/sdk-core/src/ldk/store/locking_store.rs`).
use breez_sdk.Prelude.{
  Option, Text, ℕ, ◌+◌, ◌≡◌, ◌⊎◌, inl, inr, true, false, some, Bytes, ok, err, arith, Option-cases,
  Result-cases, Bool-cases,
}
use breez_sdk.Prelude.Int.{pos, ◌+ℤ◌}
use breez_sdk.Store.Versioned.{Versioned, Error, VersionedStore}
use breez_sdk.Store.TimeLock.{unix_epoch, Json, LockData, encode, next_lock, is_locked}
use breez_sdk.Store.Locking.{
  open_lock, claim, stored_or_default, VersionedTimeLock, lock_key, lock, unlock,
}

-- The lock in memory after a write at `now` that was confirmed.
abbrev pub taken : ℕ → VersionedTimeLock → VersionedTimeLock
taken now vtl = record {
  tl = record vtl.tl { locked_until = now + vtl.tl.lock_duration };
  version = vtl.version +ℤ pos 1;
}

-- The lock in memory after `unlock`, and what is written for it.
abbrev pub dropped : VersionedTimeLock → VersionedTimeLock
dropped vtl = record vtl { tl = record vtl.tl { locked_until = unix_epoch } }

abbrev pub no_lock : VersionedTimeLock → LockData
no_lock vtl = record { locked_until = unix_epoch; instance_id = vtl.tl.instance_id }

module _ (store : VersionedStore) (json : Json) where
  open store use {State, get, put}

  -- Nothing was sent, the write of `d` failed, or it was confirmed; with the lock left in memory in
  -- each case.
  pub data Outcome (d : LockData) (vtl unsent failed stored : VersionedTimeLock) (st : State)
      (vtl' : VersionedTimeLock) (st' : State) : Type 0 where
    not_sent : vtl' ≡ unsent → st' ≡ st → Outcome d vtl unsent failed stored st vtl' st'
    not_confirmed :
        (value : Bytes) (e : Error)
        → encode json d ≡ some value
        → (put lock_key value vtl.version st).0 ≡ err e
        → vtl' ≡ failed
        → st' ≡ (put lock_key value vtl.version st).1
        → Outcome d vtl unsent failed stored st vtl' st'
    confirmed :
        (value : Bytes)
        → encode json d ≡ some value
        → (put lock_key value vtl.version st).0 ≡ ok tt
        → vtl' ≡ stored
        → st' ≡ (put lock_key value vtl.version st).1
        → Outcome d vtl unsent failed stored st vtl' st'

  pub lock-Outcome :
      (now : ℕ) (vtl : VersionedTimeLock) (st : State)
      → Outcome
          (next_lock vtl.tl now)
          vtl
          vtl
          vtl
          (taken now vtl)
          st
          (lock store json now vtl st).1
          (lock store json now vtl st).2
  unfolding lock
  lock-Outcome now vtl st = elim (Option-cases (encode json (next_lock vtl.tl now))) [
    | inl unencoded ↦ not_sent (ground arith) (ground arith)
    | inr (value, e) ↦ elim (Result-cases (put lock_key value vtl.version st).0) [
      | inl (u, p) ↦ confirmed value e p (ground arith) (ground arith)
      | inr (x, p) ↦ not_confirmed value x e p (ground arith) (ground arith)
    ]
  ]

  -- `unlock` sends nothing where the lock was not held.
  pub unlock-Outcome :
      (now : ℕ) (vtl : VersionedTimeLock) (st : State)
      → ((unlock store json now vtl st).1 ≡ vtl)
          × ((unlock store json now vtl st).2 ≡ st)
          × (is_locked vtl.tl now ≡ false)
        ⊎ Outcome
            (no_lock vtl)
            vtl
            (dropped vtl)
            (dropped vtl)
            (dropped vtl)
            st
            (unlock store json now vtl st).1
            (unlock store json now vtl st).2
          × (is_locked vtl.tl now ≡ true)
  unfolding unlock
  unlock-Outcome now vtl st = elim (Bool-cases (is_locked vtl.tl now)) [
    | inr free ↦ inl (ground arith, ground arith, free)
    | inl held ↦ inr (
      elim (Option-cases (encode json (no_lock vtl))) [
        | inl unencoded ↦ not_sent (ground arith) (ground arith)
        | inr (value, e) ↦ elim (Result-cases (put lock_key value vtl.version st).0) [
          | inl (u, p) ↦ confirmed value e p (ground arith) (ground arith)
          | inr (x, p) ↦ not_confirmed value x e p (ground arith) (ground arith)
        ]
      ],
      held,
    )
  ]

-- `open_lock` checks the entry that it reads.
pub open_lock-claim :
    (store : VersionedStore) (json : Json) (id : Text) (now : ℕ) (st : store.State)
    (o : Option Versioned)
    → (store.get lock_key st).0 ≡ ok o
    → (open_lock store json id now st).0 ≡ claim store json id now (stored_or_default o)
unfolding open_lock
open_lock-claim store json id now st o p = ground (arith, p)
