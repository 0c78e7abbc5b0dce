-- ===== src/Backup/Watcher.antt =====
-- The loop of `BackupWatcher::start` in `libs/sdk-core/src/backup.rs`: what it does with each thing that
-- it waits for. The channels and the wait for further requests are left out.
use breez_sdk.Prelude.{
  Bool, true, false, Option, none, some, Text, Bytes, codes, Result, eq_text, if◌then◌else◌,
}
use breez_sdk.Backup.Database.{BackupError}
use breez_sdk.Backup.Worker.{Platform, Device, sync}

-- `BackupRequest`, `HookEvent` and the ends of the channels. A request may bring a callback.
pub data Watched : Type 0 where
  request : Bool → Bool → Watched
  no_requests : Watched
  inserted : Text → Watched
  lagged : Watched
  hooks_closed : Watched
  quit : Watched

-- Whether the loop goes on, and what it answers.
pub record Turn : Type 0 where
  pub goes_on : Bool
  pub answer : Option (Result BackupError (Unit {0}))

abbrev goes_on_silently : Turn
goes_on_silently = record { goes_on = true; answer = none }

abbrev returns : Turn
returns = record { goes_on = false; answer = none }

module _ (p : Platform) (encryption_key : Bytes) where
  unfoldable pub handle : Watched → Device p encryption_key → Turn × Device p encryption_key
  unfolding sync
  handle (request force callback) d =
      let (r, d1) = sync p encryption_key force d in
      (record { goes_on = true; answer = if callback then some r else none }, d1)
  handle no_requests d = (returns, d)
  handle (inserted table) d =
      if eq_text table (codes "sync_requests")
      then (goes_on_silently, (sync p encryption_key false d).1)
      else (goes_on_silently, d)
  handle lagged d = (goes_on_silently, (sync p encryption_key false d).1)
  handle hooks_closed d = (returns, d)
  handle quit d = (returns, d)
