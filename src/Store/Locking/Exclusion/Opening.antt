-- ===== src/Store/Locking/Exclusion/Opening.antt =====
-- What `LockingStore::new` has checked before its first write.
use mathlib.Core.Path.{subst}
use breez_sdk.Prelude.{
  ℕ, ◌+◌, ◌≤◌, ◌≡◌, ◌⊎◌, inl, inr, Option, Text, ok, err, arith, eq_text, eq_text_iff, Result-cases,
  Bool-cases, sym, ◌∙◌,
}
use breez_sdk.Prelude.Int.{ℤ, pos, ◌≤ℤ◌}
use breez_sdk.Store.Versioned.{Versioned, VersionedStore, IsVersioned, Error}
use breez_sdk.Store.TimeLock.{
  is_locked, LockData, Json, clock_skew_leeway, unix_epoch, PreviousHolder,
}
use breez_sdk.Store.Locking.{
  VersionedTimeLock, lock_key, lock_duration, stored_or_default, open_lock, claim,
}
use breez_sdk.Store.Locking.Outcomes.{open_lock-claim}
use breez_sdk.Store.Locking.Exclusion.Invariant.{Holds, Fits}
use breez_sdk.Store.Locking.System.{IsSkewed}

-- The process takes over its own lock, or one that has expired by its clock.
pub record Opened (d : LockData) (v : ℤ) (id : Text) (now : ℕ) (vtl : VersionedTimeLock)
    : Type 0 where
  pub own_id : vtl.tl.instance_id ≡ id
  pub duration : vtl.tl.lock_duration ≡ lock_duration
  pub at_version : vtl.version ≡ v
  pub claimed :
      (d.instance_id ≡ id) × (vtl.tl.locked_until ≡ d.locked_until)
      ⊎ (d.locked_until + clock_skew_leeway ≤ now) × (vtl.tl.locked_until ≡ unix_epoch)

claim-Opened :
    (store : VersionedStore) (json : Json) (id : Text) (now : ℕ) (o : Option Versioned)
    (d : LockData) (v : ℤ) (vtl : VersionedTimeLock) (previous : PreviousHolder)
    → Holds json o d v
    → claim store json id now (stored_or_default o) ≡ ok (vtl, previous)
    → Opened d v id now vtl
unfolding claim
claim-Opened store json id now o d v vtl previous h e =
    elim (Bool-cases (eq_text id d.instance_id)) [
      | inl same ↦ ground (arith, h.0, h.1, same, (eq_text_iff id d.instance_id).0 same)
      | inr other ↦ ground (arith, h.0, h.1, other)
    ]

open_lock-ne-ok :
    (store : VersionedStore) (json : Json) (id : Text) (now : ℕ) (st : store.State) (x : Error)
    {a : VersionedTimeLock × PreviousHolder}
    → (store.get lock_key st).0 ≡ err x
    → ¬ ((open_lock store json id now st).0 ≡ ok a)
unfolding open_lock
open_lock-ne-ok store json id now st x p e = ground (arith, p, e)

pub open_lock-Opened :
    (store : VersionedStore) (laws : IsVersioned store) (json : Json) (id : Text) (now : ℕ)
    (st : store.State) (d : LockData) (v : ℤ) (vtl : VersionedTimeLock) (previous : PreviousHolder)
    → Holds json (laws.view st lock_key) d v
    → (open_lock store json id now st).0 ≡ ok (vtl, previous)
    → Opened d v id now vtl
open_lock-Opened store laws json id now st d v vtl previous h e =
    elim (Result-cases (store.get lock_key st).0) [
      | inr (x, p) ↦ absurd (open_lock-ne-ok store json id now st x p e)
      | inl (o, p) ↦
          claim-Opened store json id now o d v vtl previous
            (subst (λ r. Holds json r d v) (laws.get_ok lock_key st o p) h)
            (sym (open_lock-claim store json id now st o p) ∙ e)
    ]

-- Opening only reads.
pub open_lock_keeps :
    (store : VersionedStore) (laws : IsVersioned store) (json : Json) (id : Text) (now : ℕ)
    (j : Text) (st : store.State)
    → laws.view (open_lock store json id now st).1 j ≡ laws.view st j
unfolding open_lock
open_lock_keeps store laws json id now j st = elim (Result-cases (store.get lock_key st).0) [
  | inl (o, p) ↦ ground (arith, laws.get_keeps lock_key j st)
  | inr (x, p) ↦ ground (arith, laws.get_keeps lock_key j st)
]

-- A process that has just opened the store fits the stored lock.
pub Opened-Fits :
    (clock : ℕ → ℕ) (d : LockData) (v : ℤ) (id : Text) (c : ℕ) (vtl : VersionedTimeLock)
    → IsSkewed clock
    → pos 0 ≤ℤ v
    → Opened d v id (clock c) vtl
    → Fits clock d v id (clock c) vtl
unfolding is_locked
Opened-Fits clock d v id c vtl skewed nonneg o = record {
  own_id = o.own_id;
  duration = o.duration;
  nonneg = subst (λ w. pos 0 ≤ℤ w) (sym o.at_version) nonneg;
  behind = subst (λ w. w ≤ℤ v) (sym o.at_version) (omega arith);
  held = λ locked. elim o.claimed [
    | inl (own, same) ↦ (own, omega (arith, same))
    | inr (expired, epoch) ↦ absurd (ground (arith, locked, epoch))
  ];
  fresh = λ same. elim o.claimed [
    | inl (own, until) ↦ inl own
    | inr (expired, epoch) ↦ inr (λ e. omega (arith, expired, skewed c e))
  ];
}
