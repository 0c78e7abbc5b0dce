-- ===== src/Store/Locking/System.antt =====
-- Many processes that share one server through locking stores
-- (`libs/sdk-core/src/ldk/store/locking_store.rs`), each with its own clock. A step is one call of
-- one process, the passing of time, a crash, or anything else that happens to the server.
use breez_sdk.Prelude.{ℕ, ◌+◌, ◌*◌, ◌≤◌, ◌≡◌, Option, none, some, Text, ok, ◌==◌, if◌then◌else◌}
use breez_sdk.Store.Versioned.{VersionedStore, IsVersioned}
use breez_sdk.Store.TimeLock.{PreviousHolder, clock_skew_leeway, Json}
use breez_sdk.Store.Locking.{VersionedTimeLock, lock_key, open_lock, lock, unlock}

pub record System (store : VersionedStore) : Type 0 where
  pub remote : store.State
  pub clock : ℕ → ℕ
  pub client : ℕ → Option VersionedTimeLock

-- Every clock is within the leeway of the true time, so any two are within twice the leeway.
abbrev pub IsSkewed : (ℕ → ℕ) → Type 0
IsSkewed clock = (c e : ℕ) → clock c ≤ clock e + 2 * clock_skew_leeway

abbrev pub set_client :
    ℕ → Option VersionedTimeLock → (ℕ → Option VersionedTimeLock) → ℕ → Option VersionedTimeLock
set_client c v f e = if e == c then v else f e

module _ (store : VersionedStore) (laws : IsVersioned store) (json : Json) (ids : ℕ → Text) where
  pub data Step (s : System store) : System store → Type 0 where
    tick :
        (clock' : ℕ → ℕ)
        → ((c : ℕ) → s.clock c ≤ clock' c)
        → IsSkewed clock'
        → Step s (record s { clock = clock' })
    open_store :
        (c : ℕ) (vtl : VersionedTimeLock) (previous : PreviousHolder)
        → (open_lock store json (ids c) (s.clock c) s.remote).0 ≡ ok (vtl, previous)
        → Step s (record s {
          remote = (open_lock store json (ids c) (s.clock c) s.remote).1;
          client = set_client c (some vtl) s.client;
        })
    lock_store :
        (c : ℕ) (vtl : VersionedTimeLock)
        → s.client c ≡ some vtl
        → Step s (record s {
          remote = (lock store json (s.clock c) vtl s.remote).2;
          client = set_client c (some (lock store json (s.clock c) vtl s.remote).1) s.client;
        })
    unlock_store :
        (c : ℕ) (vtl : VersionedTimeLock)
        → s.client c ≡ some vtl
        → Step s (record s {
          remote = (unlock store json (s.clock c) vtl s.remote).2;
          client = set_client c (some (unlock store json (s.clock c) vtl s.remote).1) s.client;
        })
    crash : (c : ℕ) → Step s (record s { client = set_client c none s.client })
    other :
        (remote' : store.State)
        → laws.view remote' lock_key ≡ laws.view s.remote lock_key
        → Step s (record s { remote = remote' })

  pub data Reach (s : System store) : System store → Type 0 where
    here : Reach s s
    next : {t u : System store} → Reach s t → Step t u → Reach s u

  -- Nobody has ever taken the lock.
  pub record IsInitial (s : System store) : Type 0 where
    pub unlocked : laws.view s.remote lock_key ≡ none
    pub closed : (c : ℕ) → s.client c ≡ none
    pub skewed : IsSkewed s.clock
