-- ===== src/Store/Locking/Handover.antt =====
-- Passing the lock on (`libs/sdk-core/src/ldk/store/locking_store.rs`).
use breez_sdk.Prelude.{
  ℕ, ◌+◌, ◌≤◌, ◌<◌, ◌≡◌, ◌≢◌, inl, inr, ap, true, Option, some, Text, Bytes, ok, err, arith, sym,
  ◌∙◌, eq_text, eq_text_iff, eq_text_refl, Bool-cases, Option-cases, Result-cases,
}
use breez_sdk.Prelude.Int.{ℤ, pos, ◌+ℤ◌}
use breez_sdk.Store.Versioned.{conflict, Versioned, VersionedStore, IsVersioned}
use breez_sdk.Store.TimeLock.{
  is_locked, LockData, Json, encode, decode, clock_skew_leeway, unix_epoch, remote_instance,
}
use breez_sdk.Store.TimeLock.Encoding.{IsJson, decode-encode}
use breez_sdk.Store.Locking.{
  VersionedTimeLock, lock_key, lock_duration, stored_or_default, claim, open_lock, unlock,
  new_locking_store,
}
use breez_sdk.Store.Locking.Outcomes.{no_lock, open_lock-claim}

module _ (store : VersionedStore) (laws : IsVersioned store) (json : Json) where
  -- While another process holds the stored lock, up to the leeway past its end, creating a locking
  -- store is refused with a conflict, and nothing that the server stores changes.
  pub new-conflict :
      (id : Text) (now now' : ℕ) (st : store.State) (bytes : Bytes) (version : ℤ) (d : LockData)
      → (store.get lock_key st).0 ≡ ok (some (bytes, version))
      → decode json bytes ≡ ok d
      → d.instance_id ≢ id
      → now < d.locked_until + clock_skew_leeway
      → ((new_locking_store store json id now now' st).0 ≡ err conflict)
        × ((j : Text)
            → laws.view (new_locking_store store json id now now' st).1 j ≡ laws.view st j)
  unfolding new_locking_store
  new-conflict id now now' st bytes version d read decoded other early =
      elim (Bool-cases (eq_text id d.instance_id)) [
        | inl same ↦ absurd (other (sym ((eq_text_iff id d.instance_id).0 same)))
        | inr differs ↦ (
          ground (arith, read, decoded, differs, early),
          λ j. ground (arith, read, decoded, differs, early, laws.get_keeps lock_key j st),
        )
      ]

  -- An unlock of a held lock that returned `ok` has written the release.
  unlock_written :
      (now : ℕ) (vtl : VersionedTimeLock) (st : store.State)
      → is_locked vtl.tl now ≡ true
      → (unlock store json now vtl st).0 ≡ ok tt
      → (value : Bytes) × (encode json (no_lock vtl) ≡ some value)
        × ((store.put lock_key value vtl.version st).0 ≡ ok tt)
        × ((unlock store json now vtl st).2 ≡ (store.put lock_key value vtl.version st).1)
  unfolding unlock
  unlock_written now vtl st held done = elim (Option-cases (encode json (no_lock vtl))) [
    | inl unencoded ↦ absurd (ground (arith, held, done, unencoded))
    | inr (value, e) ↦ elim (Result-cases (store.put lock_key value vtl.version st).0) [
      | inl (u, p) ↦ (value, e, p, ground arith)
      | inr (x, p) ↦ absurd (ground (arith, held, done, e, p))
    ]
  ]

  -- The entry that decodes to `d` at version `v`, as the next process finds it.
  claim_free :
      (id : Text) (now : ℕ) (bytes : Bytes) (v : ℤ) (d : LockData)
      → decode json bytes ≡ ok d
      → d.instance_id ≢ id
      → d.locked_until + clock_skew_leeway ≤ now
      → claim store json id now (bytes, v)
        ≡ ok (
          record {
            tl = record {
              lock_duration = lock_duration;
              instance_id = id;
              locked_until = unix_epoch;
            };
            version = v;
          },
          remote_instance,
        )
  unfolding claim
  claim_free id now bytes v d decoded other late = elim (Bool-cases (eq_text id d.instance_id)) [
    | inl same ↦ absurd (other (sym ((eq_text_iff id d.instance_id).0 same)))
    | inr differs ↦ ground (arith, decoded, differs)
  ]

  -- After an unlock of a held lock that returned `ok`, any other process can open the store at once:
  -- it sees a remote instance as the previous holder, and holds the version that its first write
  -- needs.
  pub unlock-open :
      (id : Text) (now now' : ℕ) (vtl : VersionedTimeLock) (st : store.State) (r : Option Versioned)
      → IsJson json
      → is_locked vtl.tl now ≡ true
      → (unlock store json now vtl st).0 ≡ ok tt
      → (store.get lock_key (unlock store json now vtl st).2).0 ≡ ok r
      → vtl.tl.instance_id ≢ id
      → clock_skew_leeway ≤ now'
      → (open_lock store json id now' (unlock store json now vtl st).2).0
        ≡ ok (
          record {
            tl = record {
              lock_duration = lock_duration;
              instance_id = id;
              locked_until = unix_epoch;
            };
            version = vtl.version +ℤ pos 1;
          },
          remote_instance,
        )
  unlock-open id now now' vtl st r is_json held done read other late =
      let (value, e, p, left) = unlock_written now vtl st held done in
      let (acc, wrote) = laws.put_ok lock_key value vtl.version st p in
      let seen : laws.view (unlock store json now vtl st).2 lock_key
          ≡ some (value, vtl.version +ℤ pos 1) =
        ap (λ s. laws.view s lock_key) left
        ∙ ground (arith, wrote lock_key, eq_text_refl lock_key) in
      let now_r : r ≡ some (value, vtl.version +ℤ pos 1) =
        sym (laws.get_ok lock_key (unlock store json now vtl st).2 r read) ∙ seen in
      open_lock-claim store json id now' (unlock store json now vtl st).2 r read
      ∙ ap (λ o. claim store json id now' (stored_or_default o)) now_r
      ∙ claim_free id now' value (vtl.version +ℤ pos 1) (no_lock vtl)
          (decode-encode json (no_lock vtl) value is_json e) other (omega arith)
