-- ===== src/Store/TimeLock.antt =====
-- `libs/sdk-core/src/ldk/store/time_lock.rs`. A `SystemTime` is a number of nanoseconds since the
-- epoch, and each call takes the time that the code reads from the clock.
pub mod Encoding
use breez_sdk.Prelude.{
  ℕ, ◌+◌, ◌-◌, ◌*◌, Bool, Option, none, some, [], Text, Bytes, Result, ok, err, ltb, if◌then◌else◌,
  eq_text, is_empty, ok_or,
}

-- Nanoseconds in a second.
abbrev pub sec : ℕ
sec = 1_000_000_000

abbrev pub unix_epoch : ℕ
unix_epoch = 0

pub record LockData : Type 0 where
  pub locked_until : ℕ
  pub instance_id : Text

pub record TimeLock : Type 0 where
  pub lock_duration : ℕ
  pub instance_id : Text
  pub locked_until : ℕ

pub data PreviousHolder : Type 0 where
  local_instance remote_instance : PreviousHolder

pub data LockedBy : Type 0 where
  locked_by : Text → LockedBy

abbrev pub clock_skew_leeway : ℕ
clock_skew_leeway = 3 * sec

-- `TimeLock::new`; its assertions hold in debug builds only.
unfoldable pub new_time_lock : ℕ → Text → LockData → ℕ → Result LockedBy (TimeLock × PreviousHolder)
new_time_lock lock_duration instance_id latest now =
    if eq_text instance_id latest.instance_id
    then ok (
      record {
        lock_duration = lock_duration;
        instance_id = instance_id;
        locked_until = latest.locked_until;
      },
      local_instance,
    )
    else if ltb now (latest.locked_until + clock_skew_leeway)
    then err (locked_by latest.instance_id)
    else ok (
      record {
        lock_duration = lock_duration;
        instance_id = instance_id;
        locked_until = unix_epoch;
      },
      remote_instance,
    )

-- Truncated subtraction is exact here: no time lies before the epoch.
unfoldable pub is_locked : TimeLock → ℕ → Bool
is_locked tl now = ltb now (tl.locked_until - clock_skew_leeway)

unfoldable pub next_lock : TimeLock → ℕ → LockData
next_lock tl now = record { locked_until = now + tl.lock_duration; instance_id = tl.instance_id }

-- `TimeLock::unlock` returns what has to be stored, if the lock was held.
unfoldable pub unlock_time : TimeLock → ℕ → Option LockData × TimeLock
unfolding is_locked
unlock_time tl now =
    if is_locked tl now
    then (
      some (record { locked_until = unix_epoch; instance_id = tl.instance_id }),
      record tl { locked_until = unix_epoch },
    )
    else (none, tl)

unfoldable pub update_lock : TimeLock → LockData → ℕ × TimeLock
update_lock tl lock_data =
    (lock_data.locked_until, record tl { locked_until = lock_data.locked_until })

-- `serde_json`, which turns a lock into bytes and back.
pub record Json : Type 0 where
  pub to_vec : LockData → Option Bytes
  pub from_slice : Bytes → Option LockData

pub data DecodeError : Type 0 where
  invalid_json : DecodeError

-- `LockData::decode`: no bytes mean that nobody has held the lock.
unfoldable pub decode : Json → Bytes → Result DecodeError LockData
decode json bytes =
    if is_empty bytes
    then ok (record { locked_until = unix_epoch; instance_id = [] })
    else ok_or (json.from_slice bytes) invalid_json

unfoldable pub encode : Json → LockData → Option Bytes
encode json = json.to_vec
